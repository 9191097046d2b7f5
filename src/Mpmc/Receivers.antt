-- ===== src/Mpmc/Receivers.antt =====
-- A step of a receiver keeps each part of the invariant of an MPMC channel.
use mathlib.Core.Logic.{if_pos, if_neg}
use native.Mathlib.Nat.{add-mod_right}
use seakcutils.Base.{
  ℕ, suc, ◌+◌, ◌%◌, ◌^◌, ◌≤◌, ◌<◌, ◌≡◌, ◌≢◌, sym, refl, Option, some, length, get_elem?, arith, ◌∙◌,
  ap, ◌⊎◌, inl, ℕ_discrete,
}
use seakcutils.Channel.{Ring, slot_of, SendPc, RecvPc, recv_step}
use seakcutils.Mpmc.{Event, System, update, happen, log_got}
use seakcutils.Mpmc.Invariant.{
  Delivered, AllGot, AllGot-map, Apart, Inv, SendOk, RecvOk, recv_ticket,
}
use seakcutils.Mpmc.Senders.{suc_slot_ne}

module _ {A : Type 0} {cap n : ℕ} {s : System A} (v : Inv cap n s) (two : 2 ≤ cap)
    (small : n + cap + 1 < 2 ^ 64) (i : ℕ) where
  open v use {sized, logged, head_le, tail_le, full, send_ok, recv_ok, send_unique, recv_unique}

  abbrev ring' : RecvPc A → Ring A
  ring' p = (recv_step p s.ring).1

  place_ne : (t : ℕ) → t % s.ring.capacity ≢ suc t % s.ring.capacity
  place_ne t = rw sized (suc_slot_ne t cap two)

  -- A slot that is released for ticket `k + cap` is full for no ticket.
  next_round : (k t : ℕ) → k % s.ring.capacity ≡ t % s.ring.capacity → k + s.ring.capacity ≢ suc t
  next_round k t same e =
      place_ne t
        (sym same ∙ sym (add-mod_right k s.ring.capacity) ∙ ap (λ m. m % s.ring.capacity) e)

  pub receiver_full :
      (p : RecvPc A)
      → RecvOk s.ring s.sent p
      → (t : ℕ) → (slot_of (ring' p) t).seq ≡ suc t
      → (t < (ring' p).head) × ((slot_of (ring' p) t).elem ≡ get_elem? s.sent t)
  unfolding recv_step
  receiver_full (RecvPc.start st) h t q = full t q
  receiver_full (RecvPc.release k out) h t q = ground (arith, full t, next_round k t)
  receiver_full _ h t q = full t q

  receiver_own :
      (p : RecvPc A) → RecvOk s.ring s.sent p → RecvOk (ring' p) s.sent (recv_step p s.ring).0
  unfolding recv_step
  receiver_own (RecvPc.start st) h = ground arith
  receiver_own RecvPc.draw h = ground arith
  receiver_own (RecvPc.wait k) h = ground arith
  receiver_own (RecvPc.check k) h = ground arith
  receiver_own (RecvPc.copy k) h = (h.0, h.1, (full k h.1).0, (full k h.1).1)
  receiver_own _ h = tt

  -- A receiver's step beside another receiver with another ticket.
  beside :
      (p o : RecvPc A)
      → RecvOk s.ring s.sent p
      → ((t : ℕ) → recv_ticket p ≡ some t → recv_ticket o ≢ some t)
      → RecvOk s.ring s.sent o
      → RecvOk (ring' p) s.sent o
  unfolding recv_step
  beside (RecvPc.start st) o h ne g = g
  beside RecvPc.draw (RecvPc.wait t) h ne g = omega arith
  beside RecvPc.draw (RecvPc.check t) h ne g = omega arith
  beside RecvPc.draw (RecvPc.copy t) h ne g = ground arith
  beside RecvPc.draw (RecvPc.release t out) h ne g = ground arith
  beside RecvPc.draw _ h ne g = tt
  beside (RecvPc.release k x) (RecvPc.copy t) h ne g = ground (arith, ne k)
  beside (RecvPc.release k x) (RecvPc.release t out) h ne g = ground (arith, ne k)
  beside (RecvPc.release k x) (RecvPc.wait t) h ne g = g
  beside (RecvPc.release k x) (RecvPc.check t) h ne g = g
  beside (RecvPc.release k x) _ h ne g = tt
  beside _ o h ne g = g

  -- A receiver's step beside a sender.
  pub beside_sender :
      (p : RecvPc A) (o : SendPc A)
      → RecvOk s.ring s.sent p
      → SendOk s.ring s.sent o
      → SendOk (ring' p) s.sent o
  unfolding recv_step
  beside_sender (RecvPc.start st) o h g = g
  beside_sender RecvPc.draw (SendPc.wait t x) h g = g
  beside_sender RecvPc.draw (SendPc.check t x) h g = g
  beside_sender RecvPc.draw (SendPc.copy t x) h g = g
  beside_sender RecvPc.draw (SendPc.publish t x) h g = g
  beside_sender RecvPc.draw _ h g = tt
  beside_sender (RecvPc.release k x) (SendPc.copy t y) h g = ground (arith, place_ne k)
  beside_sender (RecvPc.release k x) (SendPc.publish t y) h g = ground (arith, place_ne k)
  beside_sender (RecvPc.release k x) (SendPc.wait t y) h g = g
  beside_sender (RecvPc.release k x) (SendPc.check t y) h g = g
  beside_sender (RecvPc.release k x) _ h g = tt
  beside_sender _ o h g = g

  pub new_ticket :
      (p : RecvPc A) (t : ℕ)
      → recv_ticket (recv_step p s.ring).0 ≡ some t
      → (recv_ticket p ≡ some t) ⊎ (t ≡ s.ring.tail)
  unfolding recv_step
  new_ticket (RecvPc.start st) t q = ground arith
  new_ticket RecvPc.draw t q = ground arith
  new_ticket (RecvPc.wait k) t q = ground arith
  new_ticket (RecvPc.check k) t q = ground arith
  new_ticket (RecvPc.copy k) t q = inl q
  new_ticket _ t q = ground arith

  ticket-lt-tail :
      (o : RecvPc A) (t : ℕ) → RecvOk s.ring s.sent o → recv_ticket o ≡ some t → t < s.ring.tail
  ticket-lt-tail (RecvPc.wait k) t h q = ground arith
  ticket-lt-tail (RecvPc.check k) t h q = ground arith
  ticket-lt-tail (RecvPc.copy k) t h q = ground arith
  ticket-lt-tail (RecvPc.release k out) t h q = ground arith
  ticket-lt-tail _ t h q = cc

  sizes :
      (p : RecvPc A)
      → ((ring' p).capacity ≡ cap)
        × (length s.sent ≡ (ring' p).head)
        × ((ring' p).head ≤ suc n)
        × ((ring' p).tail ≤ suc n)
        × (s.ring.tail ≤ (ring' p).tail)
  unfolding recv_step
  sizes RecvPc.draw = (sized, logged, omega arith, omega arith, omega arith)
  sizes _ = (sized, logged, omega arith, omega arith, omega arith)

  -- The call of receiver `i`.
  abbrev p : RecvPc A
  p = s.receivers i

  pub step_receiver-Inv : Inv cap (suc n) (happen (Event.step_receiver i) s)
  unfolding happen
  step_receiver-Inv = record {
    sized = (sizes p).0;
    logged = (sizes p).1;
    head_le = (sizes p).2;
    tail_le = (sizes p).3;
    full = receiver_full p (recv_ok i);
    send_ok = λ j. beside_sender p (s.senders j) (recv_ok i) (send_ok j);
    recv_ok = others;
    send_unique = send_unique;
    recv_unique = unique;
  }
    where
      others : (j : ℕ) → RecvOk (ring' p) s.sent (update s.receivers i (recv_step p s.ring).0 j)
      others j = elim (ℕ_discrete i j) [
        | yes e ↦ rw (if_pos (ℕ_discrete i j) e) (receiver_own p (recv_ok i))
        | no ne ↦
            rw (if_neg (ℕ_discrete i j) ne) (
              beside p (s.receivers j) (recv_ok i) (λ t a b. ne (recv_unique i j t a b))
                (recv_ok j))
      ]

      unique :
          (a b t : ℕ)
          → recv_ticket (update s.receivers i (recv_step p s.ring).0 a) ≡ some t
          → recv_ticket (update s.receivers i (recv_step p s.ring).0 b) ≡ some t
          → a ≡ b
      unique a b t qa qb = ground (
        arith,
        new_ticket p t,
        ticket-lt-tail (s.receivers a) t (recv_ok a),
        ticket-lt-tail (s.receivers b) t (recv_ok b),
        recv_unique a b t,
        recv_unique i a t,
        recv_unique i b t,
      )

  -- What the receivers have handed over, before and after the step.
  abbrev Valid : RecvPc A → ℕ × Option A → Type 0
  Valid o g = (g.0 < (ring' o).tail) × (g.0 < (ring' o).head) × (g.1 ≡ get_elem? s.sent g.0)

  Valid-kept :
      (o : RecvPc A) (g : ℕ × Option A)
      → (g.0 < s.ring.tail) × (g.0 < s.ring.head) × (g.1 ≡ get_elem? s.sent g.0)
      → Valid o g
  unfolding recv_step
  Valid-kept RecvPc.draw g h = (omega (arith, h.0), h.1, h.2)
  Valid-kept _ g h = h

  log-Valid :
      (o : RecvPc A)
      → RecvOk s.ring s.sent o
      → AllGot (Valid o) s.got
      → AllGot (Valid o) (log_got o s.got)
  unfolding recv_step
  log-Valid (RecvPc.release t out) h d = ((h.0, h.2, h.3), d)
  log-Valid _ h d = d

  log-Apart :
      (o : RecvPc A)
      → ((t : ℕ) → recv_ticket o ≡ some t → AllGot (λ g. g.0 ≢ t) s.got)
      → Apart s.got
      → Apart (log_got o s.got)
  log-Apart (RecvPc.release t out) h d = (h t refl, d)
  log-Apart _ h d = d

  -- Nobody keeps the ticket that is handed over.
  log_held :
      (o : RecvPc A) (t : ℕ)
      → AllGot (λ g. g.0 ≢ t) s.got
      → ((k : ℕ) (out : Option A) → o ≡ RecvPc.release k out → k ≢ t)
      → AllGot (λ g. g.0 ≢ t) (log_got o s.got)
  log_held (RecvPc.release k out) t h ne = (ne k out refl, h)
  log_held _ t h ne = h

  -- A ticket that the call holds after its step is new or was its own.
  held_self :
      (o : RecvPc A)
      → ((t : ℕ) → recv_ticket o ≡ some t → AllGot (λ g. g.0 ≢ t) s.got)
      → AllGot (λ g. g.0 < s.ring.tail) s.got
      → (t : ℕ) → recv_ticket (recv_step o s.ring).0 ≡ some t
      → AllGot (λ g. g.0 ≢ t) (log_got o s.got)
  unfolding recv_step
  held_self (RecvPc.start st) h d t q = absurd (ground arith)
  held_self RecvPc.draw h d t q = AllGot-map s.got (λ g lt. ground arith) d
  held_self (RecvPc.wait k) h d t q = h t (ground arith)
  held_self (RecvPc.check k) h d t q = h t (ground arith)
  held_self (RecvPc.copy k) h d t q = h t q
  held_self (RecvPc.release k out) h d t q = cc
  held_self (RecvPc.returned c out) h d t q = h t q
  held_self RecvPc.trapped h d t q = h t q

  pub step_receiver-Delivered : Delivered s → Delivered (happen (Event.step_receiver i) s)
  unfolding happen
  step_receiver-Delivered d = record {
    valid = log-Valid p (recv_ok i) (AllGot-map s.got (Valid-kept p) d.valid);
    apart = log-Apart p (d.held i) d.apart;
    held = held;
  }
    where
      held :
          (j t : ℕ)
          → recv_ticket (update s.receivers i (recv_step p s.ring).0 j) ≡ some t
          → AllGot (λ g. g.0 ≢ t) (log_got p s.got)
      held j t q = elim (ℕ_discrete i j) [
        | yes e ↦
            held_self p (d.held i) (AllGot-map s.got (λ g h. h.0) d.valid) t
              (rw (if_pos (ℕ_discrete i j) e) at q)
        | no ne ↦
            let q' : recv_ticket (s.receivers j) ≡ some t = rw (if_neg (ℕ_discrete i j) ne) at q in
            log_held p t (d.held j t q') (λ k out e same. ne (recv_unique i j t (rw (e, same)) q'))
      ]
