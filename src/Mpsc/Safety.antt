-- ===== src/Mpsc/Safety.antt =====
-- What the senders and the receiver of an MPSC channel can rely on, however their steps interleave.
use mathlib.Core.Path.{subst}
use mathlib.Core.Option.{some-injective}
use native.Mathlib.Nat.{mod-le}
use seakcutils.Base.{
  ℕ, suc, ◌+◌, ◌^◌, ◌≤◌, ◌<◌, ◌≡◌, none, some, List, [], ◌∷◌, length, get_elem?, lt_of_get_elem?,
  arith, refl, sym, ◌∙◌, ap, inl, inr, Bool-cases, Bool, true, false,
}
use seakcutils.Channel.{SendPc, send_step}
use seakcutils.Mpmc
use seakcutils.Mpmc.{update, log_sent, send_rests, mpmc_send_call}
use seakcutils.Mpmc.Invariant.{Inv}
use seakcutils.Mpmc.Calls.{later, call-SendOk, call_send_ticket, send-Inv, close-Inv}
use seakcutils.Mpmc.Senders.{step_sender-Inv, get_elem?-append}
use seakcutils.Mpsc.{
  ChannelMpsc, channel_create_mpsc, RecvPc, System, Event, send, recv, step_sender, step_receiver,
  close, happen, run, system_of, next_recv, mpsc_recv_call, mpsc_send_call, all_given,
}
use seakcutils.Mpsc.Invariant.{Ordered, Received, Received-append, Knows, show}
use seakcutils.Mpsc.Receiver.{receiver-Ordered, looks, at_first_unique}

module _ {A : Type 0} (s : System A) (i : ℕ) where
  -- A step of a sender changes the MPMC channel that it sees as it changes the channel.
  sender_shows :
      (p : SendPc A)
      → (let (q, r) = send_step p (show s).ring in
          record (show s) { ring = r; senders = update s.senders i q; sent = log_sent p s.sent })
        ≡ show (
            let (q, r) = send_step p s.ring in
            record s { ring = r; senders = update s.senders i q; sent = log_sent p s.sent })
  unfolding send_step
  sender_shows (SendPc.start v) = refl
  sender_shows (SendPc.draw v) = refl
  sender_shows (SendPc.wait t v) = refl
  sender_shows (SendPc.check t v) = refl
  sender_shows (SendPc.copy t v) = refl
  sender_shows (SendPc.publish t v) = refl
  sender_shows (SendPc.returned c) = refl
  sender_shows SendPc.trapped = refl

  log-Received : (p : SendPc A) → Received s.got s.sent → Received s.got (log_sent p s.sent)
  log-Received (SendPc.draw v) h = Received-append s.got s.sent (v ∷ []) h
  log-Received _ h = h

  send_tail : (p : SendPc A) → (send_step p s.ring).1.tail ≡ s.ring.tail
  unfolding send_step
  send_tail (SendPc.draw v) = refl
  send_tail _ = refl

module _ {A : Type 0} (tail : ℕ) (sent : List A) where
  log_kept :
      {x : A} (p : SendPc A)
      → get_elem? sent tail ≡ some x
      → get_elem? (log_sent p sent) tail ≡ some x
  log_kept (SendPc.draw v) e = get_elem?-append sent (v ∷ []) tail (lt_of_get_elem? sent tail e) ∙ e
  log_kept _ e = e

  log-Knows : (o : RecvPc A) (p : SendPc A) → Knows tail sent o → Knows tail (log_sent p sent) o
  log-Knows (RecvPc.load_head t) p h = h
  log-Knows (RecvPc.test t) p h = h
  log-Knows (RecvPc.copy t) p h = h
  log-Knows (RecvPc.release t out) p h = h
  log-Knows (RecvPc.advance out) p h = (h.0, h.1, log_kept p h.2)
  log-Knows _ p h = tt

module _ {A : Type 0} {cap n : ℕ} {s : System A} (two : 2 ≤ cap) (h : Ordered cap n s)
    (small : n + cap + 1 < 2 ^ 64) where
  sender-Ordered : (i : ℕ) → Ordered cap (suc n) (happen (step_sender i) s)
  unfolding happen
  sender-Ordered i = record {
    inv =
        subst (Inv cap (suc n)) (sender_shows s i p)
          (unfold Mpmc.happen in step_sender-Inv h.inv two small i);
    count = h.count ∙ sym (send_tail s i p);
    in_order = log-Received s i p h.in_order;
    knows =
        subst (λ k. Knows k (log_sent p s.sent) s.receiver) (sym (send_tail s i p))
          (log-Knows s.ring.tail s.sent s.receiver p h.knows);
  }
    where
      p : SendPc A
      p = s.senders i

  -- With the same ring and log, a new MPMC channel for the senders to see.
  with_inv :
      (s' : System A)
      → Inv cap (suc n) (show s')
      → s'.ring.tail ≡ s.ring.tail
      → s'.got ≡ s.got
      → s'.sent ≡ s.sent
      → Knows s'.ring.tail s'.sent s'.receiver
      → Ordered cap (suc n) s'
  with_inv s' inv tails gots sents knows = record {
    inv = inv;
    count = ap length gots ∙ h.count ∙ sym tails;
    in_order = rw (gots, sents) h.in_order;
    knows = knows;
  }

  recv_call-Ordered :
      (o : RecvPc A) (null : Bool)
      → Ordered cap n (record s { receiver = o })
      → Ordered cap (suc n) (record s { receiver = next_recv o (mpsc_recv_call null) })
  recv_call-Ordered (RecvPc.returned c out) true g =
      looks s two small (RecvPc.returned c out) (RecvPc.returned _ none) refl refl tt g
  recv_call-Ordered (RecvPc.returned c out) false g =
      looks s two small (RecvPc.returned c out) RecvPc.load_tail refl refl tt g
  recv_call-Ordered o null g = looks s two small o o refl refl g.knows g

  pub happen-Ordered : (e : Event A) → Ordered cap (suc n) (happen e s)
  unfolding happen
  happen-Ordered (send i null x) = elim (Bool-cases (send_rests (s.senders i))) [
    | inl e ↦ rw e (
        with_inv (record s { senders = update s.senders i (mpsc_send_call null x) })
          (send-Inv h.inv i (mpmc_send_call null x) (call-SendOk h.inv null x)
            (call_send_ticket h.inv null x))
          refl refl refl h.knows)
    | inr e ↦ rw e (with_inv s (later h.inv) refl refl refl h.knows)
  ]
  happen-Ordered (recv null) = recv_call-Ordered s.receiver null h
  happen-Ordered (step_sender i) = sender-Ordered i
  happen-Ordered step_receiver = receiver-Ordered s two small s.receiver h
  happen-Ordered close =
      with_inv (happen close s) (unfold Mpmc.happen in close-Inv h.inv) refl refl refl h.knows

module _ {A : Type 0} {cap : ℕ} (two : 2 ≤ cap) where
  run-Ordered :
      (es : List (Event A)) {n : ℕ} {s : System A}
      → length es + n + cap < 2 ^ 64
      → Ordered cap n s
      → Ordered cap (length es + n) (run es s)
  unfolding run
  run-Ordered [] {n} {s} small h =
      let e : n ≡ 0 + n = omega arith in subst (λ k. Ordered cap k s) e h
  run-Ordered (e ∷ es) {n} {s} small h =
      subst (λ k. Ordered cap k (run es (happen e s))) (omega arith)
        (run-Ordered es {n = suc n} (omega arith) (happen-Ordered two h (omega arith) e))

  create-Ordered :
      (given : ℕ → Bool) (elem_size : ℕ) {chan : ChannelMpsc A}
      → channel_create_mpsc true true given cap elem_size ≡ some chan
      → Ordered cap 0 (system_of chan)
  unfolding channel_create_mpsc
  create-Ordered given elem_size {chan} e = elim (Bool-cases (all_given given cap)) [
    | inl got ↦
        subst (λ c. Ordered cap 0 (system_of c)) (some-injective _ _ (rw got at e))
          (record {
            inv = record {
              sized = refl;
              logged = refl;
              head_le = omega arith;
              tail_le = omega arith;
              full = λ t q. absurd (omega (arith, q, mod-le t cap));
              send_ok = λ i. tt;
              recv_ok = elim [ ℕ.zero ↦ tt | suc i ↦ tt ];
              send_unique = λ i j t q. cc;
              recv_unique = at_first_unique _;
            };
            count = refl;
            in_order = tt;
            knows = tt;
          })
    | inr failed ↦ absurd (ground (arith, failed))
  ]

-- The system after the events `es` on a new channel.
abbrev pub after : {A : Type 0} → ChannelMpsc A → List (Event A) → System A
after chan es = run es (system_of chan)

module _ {A : Type 0} (given : ℕ → Bool) (cap elem_size : ℕ) {chan : ChannelMpsc A}
    (es : List (Event A)) where
  reached :
      2 ≤ cap
      → length es + cap + 1 < 2 ^ 64
      → channel_create_mpsc true true given cap elem_size ≡ some chan
      → Ordered cap (length es + 0) (after chan es)
  reached two small e = run-Ordered two es (omega arith) (create-Ordered two given elem_size e)

  -- On a channel of at least two slots, after any interleaving of fewer than 2 ^ 64 - capacity - 1
  -- events, the receiver has been handed the elements in the order in which the senders drew their
  -- tickets, none twice and none left out, and the tail counts them.
  pub mpsc_fifo :
      2 ≤ cap
      → length es + cap + 1 < 2 ^ 64
      → channel_create_mpsc true true given cap elem_size ≡ some chan
      → Received (after chan es).got (after chan es).sent
        × (length (after chan es).got ≡ (after chan es).ring.tail)
        × (length (after chan es).sent ≡ (after chan es).ring.head)
  mpsc_fifo two small e =
      let ordered = reached two small e in (ordered.in_order, ordered.count, ordered.inv.logged)
