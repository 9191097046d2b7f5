-- ===== src/Mpmc/Tickets.antt =====
-- Where the tickets of an MPMC channel are: with a handle, served, or marked in their slot.
use mathlib.Core.Logic.{if_pos, if_neg}
use seakcutils.Base.{
  ℕ, suc, ◌+◌, ◌%◌, ◌^◌, ◌≤◌, ◌<◌, ◌≡◌, ◌≢◌, refl, some, none, List, [], ◌∷◌, arith, ◌⊎◌, inl, inr,
  ℕ_discrete, true, Option,
}
use seakcutils.Channel.{Ring, slot_of, SendPc, RecvPc, send_step, recv_step, opened}
use seakcutils.Mpmc.{System, update, log_got, send_rests, recv_rests}
use seakcutils.Mpmc.Invariant.{Inv, SendOk, RecvOk, send_ticket, recv_ticket}
use seakcutils.Mpmc.Senders.{suc_slot_ne}

module _ {A : Type 0} where
  -- Ticket `t` was served.
  abbrev pub GotAt : ℕ → List (ℕ × Option A) → Type 0
  GotAt t [] = ⊥
  GotAt t (g ∷ gs) = (g.0 ≡ t) ⊎ GotAt t gs

  -- A sender, or a receiver, has drawn ticket `t` and is not done with it.
  abbrev pub Sending : System A → ℕ → Type 0
  Sending s t = (i : ℕ) × (send_ticket (s.senders i) ≡ some t)

  abbrev pub Receiving : System A → ℕ → Type 0
  Receiving s t = (i : ℕ) × (recv_ticket (s.receivers i) ≡ some t)

  abbrev pub Marked : System A → ℕ → Type 0
  Marked s t = (slot_of s.ring t).seq ≡ suc t

  -- A ticket that a handle has stays with some handle when handle `i` changes, if handle `i` keeps
  -- the ones that it had.
  pub update-Sending :
      (s : System A) (i t : ℕ) (o : SendPc A)
      → (send_ticket (s.senders i) ≡ some t → send_ticket o ≡ some t)
      → Sending s t
      → (j : ℕ) × (send_ticket (update s.senders i o j) ≡ some t)
  update-Sending s i t o keeps (j, e) = elim (ℕ_discrete i j) [
    | yes same ↦ (j, rw (if_pos (ℕ_discrete i j) same) (keeps (rw (← same) at e)))
    | no ne ↦ (j, rw (if_neg (ℕ_discrete i j) ne) e)
  ]

  pub update-Receiving :
      (s : System A) (i t : ℕ) (o : RecvPc A)
      → (recv_ticket (s.receivers i) ≡ some t → recv_ticket o ≡ some t)
      → Receiving s t
      → (j : ℕ) × (recv_ticket (update s.receivers i o j) ≡ some t)
  update-Receiving s i t o keeps (j, e) = elim (ℕ_discrete i j) [
    | yes same ↦ (j, rw (if_pos (ℕ_discrete i j) same) (keeps (rw (← same) at e)))
    | no ne ↦ (j, rw (if_neg (ℕ_discrete i j) ne) e)
  ]

  pub rests-ticket : (p : SendPc A) → send_rests p ≡ true → send_ticket p ≡ none
  rests-ticket (SendPc.start v) e = cc
  rests-ticket (SendPc.draw v) e = cc
  rests-ticket (SendPc.wait t v) e = cc
  rests-ticket (SendPc.check t v) e = cc
  rests-ticket (SendPc.copy t v) e = cc
  rests-ticket (SendPc.publish t v) e = cc
  rests-ticket (SendPc.returned c) e = refl
  rests-ticket SendPc.trapped e = refl

  pub recv_rests-ticket : (p : RecvPc A) → recv_rests p ≡ true → recv_ticket p ≡ none
  recv_rests-ticket (RecvPc.start v) e = cc
  recv_rests-ticket RecvPc.draw e = cc
  recv_rests-ticket (RecvPc.wait t) e = cc
  recv_rests-ticket (RecvPc.check t) e = cc
  recv_rests-ticket (RecvPc.copy t) e = cc
  recv_rests-ticket (RecvPc.release t v) e = cc
  recv_rests-ticket (RecvPc.returned c v) e = refl
  recv_rests-ticket RecvPc.trapped e = refl

module _ {A : Type 0} {cap n : ℕ} {s : System A} (v : Inv cap n s) (two : 2 ≤ cap)
    (small : n + cap + 1 < 2 ^ 64) where
  open v use {sized, logged, head_le, tail_le, full, send_ok, recv_ok, send_unique, recv_unique}

  place_ne : (t : ℕ) → t % s.ring.capacity ≢ suc t % s.ring.capacity
  place_ne t = rw sized (suc_slot_ne t cap two)

  cap_ne : s.ring.capacity ≢ 0
  cap_ne e = omega (arith, sized, two)

  -- A step of a sender on an open channel: it keeps its ticket or marks the slot.
  pub sender_keeps :
      (p : SendPc A) (t : ℕ)
      → SendOk s.ring s.sent p
      → s.ring.state ≡ opened
      → send_ticket p ≡ some t
      → (send_ticket (send_step p s.ring).0 ≡ some t)
        ⊎ ((slot_of (send_step p s.ring).1 t).seq ≡ suc t)
  unfolding send_step
  sender_keeps (SendPc.wait k x) t h open_ e = inl (ground arith)
  sender_keeps (SendPc.check k x) t h open_ e = inl (ground arith)
  sender_keeps (SendPc.copy k x) t h open_ e = inl e
  sender_keeps (SendPc.publish k x) t h open_ e = inr (ground arith)
  sender_keeps _ t h open_ e = cc

  -- The ticket that a sender draws is the old head.
  pub sender_draws :
      (p : SendPc A) (t : ℕ)
      → t < (send_step p s.ring).1.head
      → (t < s.ring.head) ⊎ (send_ticket (send_step p s.ring).0 ≡ some t)
  unfolding send_step
  sender_draws (SendPc.draw x) t lt = elim (ℕ_discrete t s.ring.head) [
    | yes e ↦ inr (ground (arith, e, cap_ne))
    | no ne ↦ inl (omega arith)
  ]
  sender_draws (SendPc.start x) t lt = inl lt
  sender_draws _ t lt = inl lt

  pub sender_marked :
      (p : SendPc A) (t : ℕ)
      → SendOk s.ring s.sent p
      → Marked s t
      → (slot_of (send_step p s.ring).1 t).seq ≡ suc t
  unfolding send_step
  sender_marked (SendPc.start x) t h e = e
  sender_marked (SendPc.copy k x) t h e = ground arith
  sender_marked (SendPc.publish k x) t h e = ground (arith, place_ne t)
  sender_marked _ t h e = e

  -- A step of a receiver releases no slot that is marked for a ticket that it does not serve.
  pub receiver_marked :
      (p : RecvPc A) (t : ℕ)
      → RecvOk s.ring s.sent p
      → Marked s t
      → GotAt t (log_got p s.got) ⊎ ((slot_of (recv_step p s.ring).1 t).seq ≡ suc t)
  unfolding recv_step
  receiver_marked (RecvPc.start x) t h e = inr e
  receiver_marked (RecvPc.release k out) t h e = elim (ℕ_discrete k t) [
    | yes same ↦ inl (inl same)
    | no ne ↦ inr (ground (arith, ne))
  ]
  receiver_marked _ t h e = inr e

  pub receiver_draws :
      (p : RecvPc A) (t : ℕ)
      → t < (recv_step p s.ring).1.tail
      → (t < s.ring.tail) ⊎ (recv_ticket (recv_step p s.ring).0 ≡ some t)
  unfolding recv_step
  receiver_draws RecvPc.draw t lt = elim (ℕ_discrete t s.ring.tail) [
    | yes e ↦ inr (ground (arith, e, cap_ne))
    | no ne ↦ inl (omega arith)
  ]
  receiver_draws (RecvPc.start x) t lt = inl lt
  receiver_draws _ t lt = inl lt

  pub receiver_keeps :
      (p : RecvPc A) (t : ℕ)
      → s.ring.state ≡ opened
      → recv_ticket p ≡ some t
      → (recv_ticket (recv_step p s.ring).0 ≡ some t) ⊎ GotAt t (log_got p s.got)
  unfolding recv_step
  receiver_keeps (RecvPc.wait k) t open_ e = inl (ground arith)
  receiver_keeps (RecvPc.check k) t open_ e = inl (ground arith)
  receiver_keeps (RecvPc.copy k) t open_ e = inl e
  receiver_keeps (RecvPc.release k out) t open_ e = inr (inl (ground arith))
  receiver_keeps _ t open_ e = cc

  pub got_on : (p : RecvPc A) (t : ℕ) → GotAt t s.got → GotAt t (log_got p s.got)
  got_on (RecvPc.release k out) t g = inr g
  got_on (RecvPc.start x) t g = g
  got_on _ t g = g

module _ {A : Type 0} where
  pub send_state : (p : SendPc A) (r : Ring A) → (send_step p r).1.state ≡ r.state
  unfolding send_step
  send_state (SendPc.start x) r = refl
  send_state _ r = refl

  pub recv_state : (p : RecvPc A) (r : Ring A) → (recv_step p r).1.state ≡ r.state
  unfolding recv_step
  recv_state (RecvPc.start x) r = refl
  recv_state _ r = refl

  pub send_tail : (p : SendPc A) (r : Ring A) → (send_step p r).1.tail ≡ r.tail
  unfolding send_step
  send_tail (SendPc.start x) r = refl
  send_tail _ r = refl

  pub recv_head : (p : RecvPc A) (r : Ring A) → (recv_step p r).1.head ≡ r.head
  unfolding recv_step
  recv_head (RecvPc.start x) r = refl
  recv_head _ r = refl
