-- ===== src/Mpmc/Reach.antt =====
-- The invariant after any sequence of events on a new MPMC channel.
use mathlib.Core.Path.{subst}
use mathlib.Core.Option.{some-injective}
use native.Mathlib.Nat.{mod-le}
use seakcutils.Base.{
  ℕ, suc, ◌+◌, ◌^◌, ◌≤◌, ◌<◌, ◌≡◌, refl, some, List, [], ◌∷◌, length, arith, inl, inr, true,
  Bool-cases,
}
use seakcutils.Mpmc.{
  ChannelMpmc, channel_create_mpmc, Event, System, happen, run, send, recv, step_sender,
  step_receiver, close, mpmc_send_call, mpmc_recv_call, send_rests, recv_rests, system_of,
}
use seakcutils.Mpmc.Invariant.{Delivered, Inv}
use seakcutils.Mpmc.Calls.{
  call-SendOk, call_send_ticket, call-RecvOk, call_recv_ticket, later, send-Inv, recv-Inv,
  close-Inv, recv-Delivered,
}
use seakcutils.Mpmc.Senders.{step_sender-Inv, step_sender-Delivered}
use seakcutils.Mpmc.Receivers.{step_receiver-Inv, step_receiver-Delivered}

-- Both parts together.
pub record Safe {A : Type 0} (cap n : ℕ) (s : System A) : Type 0 where
  pub inv : Inv cap n s
  pub delivered : Delivered s

module _ {A : Type 0} {cap : ℕ} (two : 2 ≤ cap) where
  pub happen-Safe :
      {n : ℕ} {s : System A} (e : Event A)
      → n + cap + 1 < 2 ^ 64
      → Safe cap n s
      → Safe cap (suc n) (happen e s)
  unfolding happen
  happen-Safe {s} (send i null x) small h = elim (Bool-cases (send_rests (s.senders i))) [
    | inl e ↦ rw e (record {
      inv =
          send-Inv h.inv i (mpmc_send_call null x) (call-SendOk h.inv null x)
            (call_send_ticket h.inv null x);
      delivered = record {
        valid = h.delivered.valid;
        apart = h.delivered.apart;
        held = h.delivered.held;
      };
    })
    | inr e ↦ rw e (record { inv = later h.inv; delivered = h.delivered })
  ]
  happen-Safe {s} (recv i handle) small h = elim (Bool-cases (recv_rests (s.receivers i))) [
    | inl e ↦ rw e (record {
      inv =
          recv-Inv h.inv i (mpmc_recv_call handle) (call-RecvOk h.inv handle)
            (call_recv_ticket h.inv handle);
      delivered =
          recv-Delivered h.inv h.delivered i (mpmc_recv_call handle)
            (call_recv_ticket h.inv handle);
    })
    | inr e ↦ rw e (record { inv = later h.inv; delivered = h.delivered })
  ]
  happen-Safe (step_sender i) small h = record {
    inv = step_sender-Inv h.inv two small i;
    delivered = step_sender-Delivered h.inv two small i h.delivered;
  }
  happen-Safe (step_receiver i) small h = record {
    inv = step_receiver-Inv h.inv two small i;
    delivered = step_receiver-Delivered h.inv two small i h.delivered;
  }
  happen-Safe close small h = record {
    inv = close-Inv h.inv;
    delivered = record {
      valid = h.delivered.valid;
      apart = h.delivered.apart;
      held = h.delivered.held;
    };
  }

  pub run-Safe :
      (es : List (Event A)) {n : ℕ} {s : System A}
      → length es + n + cap < 2 ^ 64
      → Safe cap n s
      → Safe cap (length es + n) (run es s)
  unfolding run
  run-Safe [] {n} {s} small h = let e : n ≡ 0 + n = omega arith in subst (λ k. Safe cap k s) e h
  run-Safe (e ∷ es) {n} {s} small h =
      subst (λ k. Safe cap k (run es (happen e s))) (omega arith)
        (run-Safe es {n = suc n} (omega arith) (happen-Safe e (omega arith) h))

  -- A new channel.
  pub create-Safe :
      (elem_size : ℕ) {chan : ChannelMpmc A}
      → channel_create_mpmc true cap elem_size ≡ some chan
      → Safe cap 0 (system_of chan)
  unfolding channel_create_mpmc
  create-Safe elem_size {chan} e =
      subst (λ c. Safe cap 0 (system_of c)) (some-injective _ _ e)
        (record {
          inv = record {
            sized = refl;
            logged = refl;
            head_le = omega arith;
            tail_le = omega arith;
            full = λ t q. absurd (omega (arith, q, mod-le t cap));
            send_ok = λ i. tt;
            recv_ok = λ i. tt;
            send_unique = λ i j t q. cc;
            recv_unique = λ i j t q. cc;
          };
          delivered = record { valid = tt; apart = tt; held = λ i t q. tt };
        })
