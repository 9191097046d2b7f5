-- ===== src/Spsc/Safety.antt =====
-- What the two sides of an SPSC channel can rely on, however their steps interleave.
use mathlib.Core.Path.{subst}
use mathlib.Core.Option.{some-injective}
use seakcutils.Window.{mod_ne}
use seakcutils.Base.{
  ℕ, suc, ◌+◌, ◌^◌, ◌≤◌, ◌<◌, ◌≡◌, ◌≢◌, sym, refl, some, List, [], ◌∷◌, length, arith, ◌∙◌, ap,
  take, map, Bool, true, false, Bool-cases, mul_size, inl, inr,
}
use seakcutils.Spsc.{
  ChannelSpsc, channel_create_spsc, SendPc, RecvPc, System, happen, run, Event, send, recv,
  step_sender, step_receiver, close, system_of, next_send, next_recv, send_call, recv_call,
}
use seakcutils.Spsc.Invariant.{
  Inv, SendOk, RecvOk, sender_moves, receiver_moves, sender-Inv, receiver-Inv, close-Inv,
}

module _ {A : Type 0} {cap n : ℕ} {s : System A} (v : Inv cap n s) where
  send_call_ok :
      (p : SendPc A) (null : Bool) (x : A)
      → SendOk s.chan p
      → SendOk s.chan (next_send p (send_call null x))
  unfolding send_call
  send_call_ok (SendPc.returned c) true x h = tt
  send_call_ok (SendPc.returned c) false x h = tt
  send_call_ok _ null x h = h

  recv_call_ok :
      (p : RecvPc A) (null : Bool)
      → RecvOk s.chan s.sent p
      → RecvOk s.chan s.sent (next_recv p (recv_call null))
  unfolding recv_call
  recv_call_ok (RecvPc.returned c out) true h = tt
  recv_call_ok (RecvPc.returned c out) false h = tt
  recv_call_ok _ null h = h

  happen-Inv : (e : Event A) → n + cap + 1 < 2 ^ 64 → Inv cap (suc n) (happen e s)
  unfolding happen
  happen-Inv (send null x) small = sender_moves v small _ (send_call_ok s.sender null x v.send_ok)
  happen-Inv (recv null) small = receiver_moves v small _ (recv_call_ok s.receiver null v.recv_ok)
  happen-Inv step_sender small = sender-Inv v small s.sender v.send_ok
  happen-Inv step_receiver small = receiver-Inv v small s.receiver v.recv_ok
  happen-Inv close small = close-Inv v small

module _ {A : Type 0} where
  pub run-Inv :
      {cap : ℕ} (es : List (Event A)) {n : ℕ} {s : System A}
      → length es + n + cap < 2 ^ 64
      → Inv cap n s
      → Inv cap (length es + n) (run es s)
  unfolding run
  run-Inv {cap} [] {n} {s} small h = let e : n ≡ 0 + n = omega arith in subst (λ k. Inv cap k s) e h
  run-Inv {cap} (e ∷ es) {n} {s} small h =
      subst (λ k. Inv cap k (run es (happen e s))) (omega arith)
        (run-Inv es {n = suc n} (omega arith) (happen-Inv h e (omega arith)))

  pub create-Inv :
      (realloc : ℕ → Bool) (cap elem_size : ℕ) {chan : ChannelSpsc A}
      → channel_create_spsc true realloc cap elem_size ≡ some chan
      → Inv cap 0 (system_of chan)
  unfolding channel_create_spsc
  create-Inv realloc cap elem_size {chan} e = elim (Bool-cases (realloc (mul_size cap elem_size))) [
    | inl got ↦
        subst (λ c. Inv cap 0 (system_of c)) (some-injective _ _ (rw got at e))
          (record {
            sized = refl;
            head_le = omega arith;
            logged = refl;
            count = refl;
            tail-le-head = omega arith;
            head-le-tail = omega arith;
            window = λ k low high. absurd (omega arith);
            in_order = refl;
            send_ok = tt;
            recv_ok = tt;
          })
    | inr failed ↦ absurd (ground (arith, failed))
  ]

  -- The system after the events `es` on a new channel.
  abbrev pub after : ChannelSpsc A → List (Event A) → System A
  after chan es = run es (system_of chan)

module _ {A : Type 0} (realloc : ℕ → Bool) (cap elem_size : ℕ) {chan : ChannelSpsc A}
    (es : List (Event A)) where
  -- For fewer than 2 ^ 64 - capacity - 1 events the receiver has been handed the elements sent, in
  -- their order, none twice and none left out, and at most `capacity` of them are under way.
  pub spsc_fifo :
      length es + cap + 1 < 2 ^ 64
      → channel_create_spsc true realloc cap elem_size ≡ some chan
      → let s = after chan es in
        (s.got ≡ map some (take (length s.got) s.sent))
        × (length s.got ≤ length s.sent)
        × (length s.sent ≤ length s.got + cap)
  spsc_fifo small e =
      let v = run-Inv es {n = 0} (omega arith) (create-Inv realloc cap elem_size e) in
      (
        v.in_order ∙ ap (λ k. map some (take k (after chan es).sent)) (sym v.count),
        omega (arith, v.count, v.logged, v.tail-le-head),
        omega (arith, v.count, v.logged, v.head-le-tail),
      )

  -- After any interleaving of fewer than 2 ^ 64 - capacity - 1 events the two sides never copy to
  -- and from one place at the same time.
  pub spsc_copies_apart :
      length es + cap + 1 < 2 ^ 64
      → channel_create_spsc true realloc cap elem_size ≡ some chan
      → (i j : ℕ) {x : A} → (after chan es).sender ≡ SendPc.copy i x
      → (after chan es).receiver ≡ RecvPc.copy j
      → i ≢ j
  spsc_copies_apart small e i j at_send at_recv same =
      let v = run-Inv es {n = 0} (omega arith) (create-Inv realloc cap elem_size e) in
      let c = (after chan es).chan in
      let (at_head, room) = subst (SendOk c) at_send v.send_ok in
      let (at_tail, filled) = subst (RecvOk c (after chan es).sent) at_recv v.recv_ok in
      mod_ne c.tail c.head c.capacity filled (omega (arith, room))
        (sym at_tail ∙ sym same ∙ at_head)
