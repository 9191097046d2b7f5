-- ===== src/Spmc/Order.antt =====
-- channels/spmc.h: the one sender puts its elements in in the order of its calls.
use seakcutils.Base.{
  ℕ, map, Option, sym, ◌==◌, Bool-cases, inl, inr, List, [], ◌∷◌, ◌++◌, append_assoc, append-nil,
  Bool, true, false,
}
use seakcutils.Channel.{Ring, SendPc, send_step, is_closed, slot_of, ChanState}
use seakcutils.Mpmc
use seakcutils.Mpmc.{System, happen, run, log_sent, send_rests, recv_rests, update}
use seakcutils.ThreadPool.Hands.{update_at}
use seakcutils.Spmc.{Event, send, recv, step_sender, step_receiver, close, event, is_null, state_of}

-- The first list is the second one with some elements left out.
pub data Keeps {A : Type 0} : List A → List A → Type 0 where
  nothing : Keeps [] []
  skips : {xs ys : List A} → Keeps xs ys → (v : A) → Keeps xs (ys ++ v ∷ [])
  takes : {xs ys : List A} → Keeps xs ys → (v : A) → Keeps (xs ++ v ∷ []) (ys ++ v ∷ [])

-- The elements of the sender's calls.
abbrev pub offered : {A : Type 0} → List (Event A) → List A
offered [] = []
offered (send sender v ∷ es) = v ∷ offered es
offered (_ ∷ es) = offered es

module _ {A : Type 0} where
  -- With the element of the call under way, which may be put in yet.
  abbrev InOrder : SendPc A → List A → List A → Type 0
  InOrder (SendPc.start v) sent calls = Keeps sent calls × Keeps (sent ++ v ∷ []) calls
  InOrder (SendPc.draw v) sent calls = Keeps sent calls × Keeps (sent ++ v ∷ []) calls
  InOrder _ sent calls = Keeps sent calls

  InOrder-Keeps : (p : SendPc A) (sent calls : List A) → InOrder p sent calls → Keeps sent calls
  InOrder-Keeps (SendPc.start v) sent calls h = h.0
  InOrder-Keeps (SendPc.draw v) sent calls h = h.0
  InOrder-Keeps _ sent calls h = h

  -- A call that is ignored, since another one is under way.
  later :
      (p : SendPc A) (sent calls : List A) (v : A)
      → InOrder p sent calls
      → InOrder p sent (calls ++ v ∷ [])
  later (SendPc.start x) sent calls v h = (Keeps.skips h.0 v, Keeps.skips h.1 v)
  later (SendPc.draw x) sent calls v h = (Keeps.skips h.0 v, Keeps.skips h.1 v)
  later (SendPc.returned c) sent calls v h = Keeps.skips h v
  later SendPc.trapped sent calls v h = Keeps.skips h v
  later (SendPc.wait t x) sent calls v h = Keeps.skips h v
  later (SendPc.check t x) sent calls v h = Keeps.skips h v
  later (SendPc.copy t x) sent calls v h = Keeps.skips h v
  later (SendPc.publish t x) sent calls v h = Keeps.skips h v

  steps :
      (p : SendPc A) (r : Ring A) (sent calls : List A)
      → InOrder p sent calls
      → InOrder (send_step p r).0 (log_sent p sent) calls
  unfolding send_step
  steps (SendPc.start v) r sent calls h = elim (Bool-cases (is_closed r.state)) [
    | inl e ↦ rw e h.0
    | inr e ↦ rw e h
  ]
  steps (SendPc.draw v) r sent calls h = elim (Bool-cases (r.capacity == 0)) [
    | inl e ↦ rw e h.1
    | inr e ↦ rw e h.1
  ]
  steps (SendPc.wait t v) r sent calls h = elim (Bool-cases ((slot_of r t).seq == t)) [
    | inl e ↦ rw e h
    | inr e ↦ rw e h
  ]
  steps (SendPc.check t v) r sent calls h = elim (Bool-cases (is_closed r.state)) [
    | inl e ↦ rw e h
    | inr e ↦ rw e h
  ]
  steps (SendPc.copy t v) r sent calls h = h
  steps (SendPc.publish t v) r sent calls h = h
  steps (SendPc.returned c) r sent calls h = h
  steps SendPc.trapped r sent calls h = h

  calls_first :
      (p : SendPc A) (sent calls : List A) (null : Bool) (v : A)
      → InOrder p sent calls
      → InOrder (Mpmc.mpmc_send_call null v) sent (calls ++ v ∷ [])
  calls_first p sent calls true v h = Keeps.skips (InOrder-Keeps p sent calls h) v
  calls_first p sent calls false v h =
      let k = InOrder-Keeps p sent calls h in (Keeps.skips k v, Keeps.takes k v)

  send-InOrder :
      (s : System A) (calls : List A) (null : Bool) (v : A)
      → InOrder (s.senders 0) s.sent calls
      → let s' = happen (Mpmc.Event.send 0 null v) s in
        InOrder (s'.senders 0) s'.sent (calls ++ v ∷ [])
  unfolding happen
  send-InOrder s calls null v h = elim (Bool-cases (send_rests (s.senders 0))) [
    | inl e ↦
        rw (e, update_at s.senders 0 (Mpmc.mpmc_send_call null v))
          (calls_first (s.senders 0) s.sent calls null v h)
    | inr e ↦ rw e (later (s.senders 0) s.sent calls v h)
  ]

  recv-InOrder :
      (s : System A) (calls : List A) (i : ℕ) (handle : Option ChanState)
      → InOrder (s.senders 0) s.sent calls
      → let s' = happen (Mpmc.Event.recv i handle) s in InOrder (s'.senders 0) s'.sent calls
  unfolding happen
  recv-InOrder s calls i handle h = elim (Bool-cases (recv_rests (s.receivers i))) [
    | inl e ↦ rw e h
    | inr e ↦ rw e h
  ]

  pub run-InOrder :
      (es : List (Event A)) (s : System A) (calls : List A)
      → InOrder (s.senders 0) s.sent calls
      → Keeps (run (map event es) s).sent (calls ++ offered es)
  unfolding run happen
  run-InOrder [] s calls h = rw (append-nil calls) (InOrder-Keeps (s.senders 0) s.sent calls h)
  run-InOrder (send sender v ∷ es) s calls h = rw (sym (append_assoc calls (v ∷ []) (offered es))) (
      run-InOrder es (happen (event (send sender v)) s) (calls ++ v ∷ [])
        (send-InOrder s calls (is_null sender) v h))
  run-InOrder (recv i receiver ∷ es) s calls h =
      run-InOrder es (happen (event (recv i receiver)) s) calls
        (recv-InOrder s calls i (state_of receiver) h)
  run-InOrder (step_sender ∷ es) s calls h = run-InOrder es (happen (event step_sender) s) calls (
      rw (update_at s.senders 0 (send_step (s.senders 0) s.ring).0)
        (steps (s.senders 0) s.ring s.sent calls h))
  run-InOrder (step_receiver i ∷ es) s calls h =
      run-InOrder es (happen (event (step_receiver i)) s) calls h
  run-InOrder (close ∷ es) s calls h = run-InOrder es (happen (event close) s) calls h
