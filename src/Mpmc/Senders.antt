-- ===== src/Mpmc/Senders.antt =====
-- A step of a sender keeps each part of the invariant of an MPMC channel.
use mathlib.Core.Logic.{if_pos, if_neg}
use seakcutils.Window.{mod_ne}
use seakcutils.Base.{
  ℕ, suc, ◌+◌, ◌%◌, ◌^◌, ◌≤◌, ◌<◌, ◌≡◌, ◌≢◌, sym, refl, some, List, [], ◌∷◌, ◌++◌, length,
  get_elem?, arith, length-append, ◌∙◌, ◌⊎◌, inl, ℕ_discrete,
}
use seakcutils.Channel.{Ring, slot_of, SendPc, RecvPc, send_step}
use seakcutils.Mpmc.{Event, System, update, happen, log_sent}
use seakcutils.Mpmc.Invariant.{Delivered, AllGot-map, Inv, SendOk, RecvOk, send_ticket}

module _ {ℓ} {A : Type ℓ} where
  -- The log only grows at its end.
  pub get_elem?-append :
      (xs ys : List A) (i : ℕ) → i < length xs → get_elem? (xs ++ ys) i ≡ get_elem? xs i
  get_elem?-append [] ys i h = absurd (omega arith)
  get_elem?-append (x ∷ xs) ys ℕ.zero h = refl
  get_elem?-append (x ∷ xs) ys (suc i) h = get_elem?-append xs ys i (omega arith)

  pub get_elem?-append_self : (xs : List A) (y : A) → get_elem? (xs ++ y ∷ []) (length xs) ≡ some y
  get_elem?-append_self [] y = refl
  get_elem?-append_self (x ∷ xs) y = get_elem?-append_self xs y

-- The slots of a ticket and of the next one differ.
pub suc_slot_ne : (t cap : ℕ) → 2 ≤ cap → t % cap ≢ suc t % cap
suc_slot_ne t cap two = mod_ne t (suc t) cap (omega arith) (omega arith)

module _ {A : Type 0} {cap n : ℕ} {s : System A} (v : Inv cap n s) (two : 2 ≤ cap)
    (small : n + cap + 1 < 2 ^ 64) (i : ℕ) where
  open v use {sized, logged, head_le, tail_le, full, send_ok, recv_ok, send_unique, recv_unique}

  -- The ring and the log after a step of a sender at `p`.
  abbrev ring' : SendPc A → Ring A
  ring' p = (send_step p s.ring).1

  place_ne : (t : ℕ) → t % s.ring.capacity ≢ suc t % s.ring.capacity
  place_ne t = rw sized (suc_slot_ne t cap two)

  sender_full :
      (p : SendPc A)
      → SendOk s.ring s.sent p
      → (t : ℕ) → (slot_of (ring' p) t).seq ≡ suc t
      → (t < (ring' p).head) × ((slot_of (ring' p) t).elem ≡ get_elem? (log_sent p s.sent) t)
  unfolding send_step
  sender_full (SendPc.start x) h t q = full t q
  sender_full (SendPc.draw x) h t q =
      let (lt, same) = full t q in
      (omega arith, same ∙ sym (get_elem?-append s.sent (x ∷ []) t (omega arith)))
  sender_full (SendPc.wait k x) h t q = full t q
  sender_full (SendPc.check k x) h t q = full t q
  sender_full (SendPc.copy k x) h t q = ground (arith, full t, place_ne t)
  sender_full (SendPc.publish k x) h t q = ground (arith, full t)
  sender_full (SendPc.returned c) h t q = full t q
  sender_full SendPc.trapped h t q = full t q

  kept : (x : A) (t : ℕ) → t < s.ring.head → get_elem? (s.sent ++ x ∷ []) t ≡ get_elem? s.sent t
  kept x t lt = get_elem?-append s.sent (x ∷ []) t (omega arith)

  -- The mover keeps what its own locals say.
  sender_own :
      (p : SendPc A)
      → SendOk s.ring s.sent p
      → SendOk (ring' p) (log_sent p s.sent) (send_step p s.ring).0
  unfolding send_step
  sender_own (SendPc.start x) h = ground arith
  sender_own (SendPc.draw x) h = ground (arith, get_elem?-append_self s.sent x)
  sender_own (SendPc.wait k x) h = ground arith
  sender_own (SendPc.check k x) h = ground arith
  sender_own (SendPc.copy k x) h = ground arith
  sender_own (SendPc.publish k x) h = tt
  sender_own (SendPc.returned c) h = tt
  sender_own SendPc.trapped h = tt

  -- A sender's step beside another sender with another ticket.
  beside :
      (p o : SendPc A)
      → SendOk s.ring s.sent p
      → ((t : ℕ) → send_ticket p ≡ some t → send_ticket o ≢ some t)
      → SendOk s.ring s.sent o
      → SendOk (ring' p) (log_sent p s.sent) o
  unfolding send_step
  beside (SendPc.start x) o h ne g = g
  beside (SendPc.draw x) (SendPc.wait k y) h ne g = ground (arith, kept x k)
  beside (SendPc.draw x) (SendPc.check k y) h ne g = ground (arith, kept x k)
  beside (SendPc.draw x) (SendPc.copy k y) h ne g = ground (arith, kept x k)
  beside (SendPc.draw x) (SendPc.publish k y) h ne g = ground (arith, kept x k)
  beside (SendPc.draw x) _ h ne g = tt
  beside (SendPc.copy k x) (SendPc.wait l y) h ne g = g
  beside (SendPc.copy k x) (SendPc.check l y) h ne g = g
  beside (SendPc.copy k x) (SendPc.copy l y) h ne g = ground (arith, ne k)
  beside (SendPc.copy k x) (SendPc.publish l y) h ne g = ground (arith, ne k)
  beside (SendPc.copy k x) _ h ne g = tt
  beside (SendPc.publish k x) (SendPc.wait l y) h ne g = g
  beside (SendPc.publish k x) (SendPc.check l y) h ne g = g
  beside (SendPc.publish k x) (SendPc.copy l y) h ne g = ground (arith, ne k)
  beside (SendPc.publish k x) (SendPc.publish l y) h ne g = ground (arith, ne k)
  beside (SendPc.publish k x) _ h ne g = tt
  beside _ o h ne g = g

  -- A sender's step beside a receiver.
  beside_receiver :
      (p : SendPc A) (o : RecvPc A)
      → SendOk s.ring s.sent p
      → RecvOk s.ring s.sent o
      → RecvOk (ring' p) (log_sent p s.sent) o
  unfolding send_step
  beside_receiver (SendPc.start x) o h g = g
  beside_receiver (SendPc.draw x) (RecvPc.release t out) h g = ground (arith, kept x t)
  beside_receiver (SendPc.draw x) (RecvPc.wait t) h g = g
  beside_receiver (SendPc.draw x) (RecvPc.check t) h g = g
  beside_receiver (SendPc.draw x) (RecvPc.copy t) h g = g
  beside_receiver (SendPc.draw x) _ h g = tt
  beside_receiver (SendPc.copy k x) (RecvPc.release t out) h g = ground (arith, place_ne t)
  beside_receiver (SendPc.copy k x) (RecvPc.copy t) h g = ground (arith, place_ne t)
  beside_receiver (SendPc.copy k x) (RecvPc.wait t) h g = g
  beside_receiver (SendPc.copy k x) (RecvPc.check t) h g = g
  beside_receiver (SendPc.copy k x) _ h g = tt
  beside_receiver (SendPc.publish k x) (RecvPc.release t out) h g = ground (arith, place_ne t)
  beside_receiver (SendPc.publish k x) (RecvPc.copy t) h g = ground (arith, place_ne t)
  beside_receiver (SendPc.publish k x) (RecvPc.wait t) h g = g
  beside_receiver (SendPc.publish k x) (RecvPc.check t) h g = g
  beside_receiver (SendPc.publish k x) _ h g = tt
  beside_receiver _ o h g = g

  -- The only new ticket is the head.
  new_ticket :
      (p : SendPc A) (t : ℕ)
      → send_ticket (send_step p s.ring).0 ≡ some t
      → (send_ticket p ≡ some t) ⊎ (t ≡ s.ring.head)
  unfolding send_step
  new_ticket (SendPc.start x) t q = ground arith
  new_ticket (SendPc.draw x) t q = ground arith
  new_ticket (SendPc.wait k x) t q = ground arith
  new_ticket (SendPc.check k x) t q = ground arith
  new_ticket (SendPc.copy k x) t q = inl q
  new_ticket (SendPc.publish k x) t q = ground arith
  new_ticket (SendPc.returned c) t q = ground arith
  new_ticket SendPc.trapped t q = ground arith

  ticket-lt-head :
      (o : SendPc A) (t : ℕ) → SendOk s.ring s.sent o → send_ticket o ≡ some t → t < s.ring.head
  ticket-lt-head (SendPc.wait k x) t h q = ground arith
  ticket-lt-head (SendPc.check k x) t h q = ground arith
  ticket-lt-head (SendPc.copy k x) t h q = ground arith
  ticket-lt-head (SendPc.publish k x) t h q = ground arith
  ticket-lt-head _ t h q = cc

  sizes :
      (p : SendPc A)
      → ((ring' p).capacity ≡ cap)
        × (length (log_sent p s.sent) ≡ (ring' p).head)
        × ((ring' p).head ≤ suc n)
        × ((ring' p).tail ≤ suc n)
  unfolding send_step
  sizes (SendPc.draw x) =
      (sized, omega (arith, length-append s.sent (x ∷ [])), omega arith, omega arith)
  sizes _ = (sized, logged, omega arith, omega arith)

  tail_kept : (p : SendPc A) (t : ℕ) → t < s.ring.tail → t < (ring' p).tail
  unfolding send_step
  tail_kept (SendPc.start x) t h = h
  tail_kept _ t h = h

  log_kept : (p : SendPc A) (t : ℕ) → SendOk s.ring s.sent p → t < s.ring.head → t < (ring' p).head
  unfolding send_step
  log_kept (SendPc.draw x) t h lt = omega arith
  log_kept _ t h lt = lt

  log_same :
      (p : SendPc A) (t : ℕ)
      → t < s.ring.head
      → get_elem? (log_sent p s.sent) t ≡ get_elem? s.sent t
  log_same (SendPc.draw x) t lt = kept x t lt
  log_same _ t lt = refl

  pub step_sender-Inv : Inv cap (suc n) (happen (Event.step_sender i) s)
  unfolding happen
  step_sender-Inv = record {
    sized = (sizes p).0;
    logged = (sizes p).1;
    head_le = (sizes p).2;
    tail_le = (sizes p).3;
    full = sender_full p (send_ok i);
    send_ok = others;
    recv_ok = λ j. beside_receiver p (s.receivers j) (send_ok i) (recv_ok j);
    send_unique = unique;
    recv_unique = recv_unique;
  }
    where
      p : SendPc A
      p = s.senders i

      others :
          (j : ℕ)
          → SendOk (ring' p) (log_sent p s.sent) (update s.senders i (send_step p s.ring).0 j)
      others j = elim (ℕ_discrete i j) [
        | yes e ↦ rw (if_pos (ℕ_discrete i j) e) (sender_own p (send_ok i))
        | no ne ↦
            rw (if_neg (ℕ_discrete i j) ne)
              (beside p (s.senders j) (send_ok i) (λ t a b. ne (send_unique i j t a b)) (send_ok j))
      ]

      unique :
          (a b t : ℕ)
          → send_ticket (update s.senders i (send_step p s.ring).0 a) ≡ some t
          → send_ticket (update s.senders i (send_step p s.ring).0 b) ≡ some t
          → a ≡ b
      unique a b t qa qb = ground (
        arith,
        new_ticket p t,
        ticket-lt-head (s.senders a) t (send_ok a),
        ticket-lt-head (s.senders b) t (send_ok b),
        send_unique a b t,
        send_unique i a t,
        send_unique i b t,
      )

  pub step_sender-Delivered : Delivered s → Delivered (happen (Event.step_sender i) s)
  unfolding happen
  step_sender-Delivered d = record {
    valid =
        AllGot-map s.got
          (λ g h.
            (tail_kept p g.0 h.0, log_kept p g.0 (send_ok i) h.1, h.2 ∙ sym (log_same p g.0 h.1)))
          d.valid;
    apart = d.apart;
    held = d.held;
  }
    where
      p : SendPc A
      p = s.senders i
