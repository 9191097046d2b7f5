-- ===== src/Mpmc/Invariant.antt =====
-- What every reachable state of an MPMC channel satisfies.
use seakcutils.Base.{
  ℕ, suc, ◌≤◌, ◌<◌, ◌≡◌, ◌≢◌, Option, none, some, List, [], ◌∷◌, length, get_elem?,
}
use seakcutils.Channel.{Ring, slot_of, SendPc, RecvPc}
use seakcutils.Mpmc.{System}

module _ {A : Type 0} where
  -- The ticket that a call of the sending routine has drawn.
  abbrev pub send_ticket : SendPc A → Option ℕ
  send_ticket (SendPc.wait t v) = some t
  send_ticket (SendPc.check t v) = some t
  send_ticket (SendPc.copy t v) = some t
  send_ticket (SendPc.publish t v) = some t
  send_ticket _ = none

  abbrev pub recv_ticket : RecvPc A → Option ℕ
  recv_ticket (RecvPc.wait t) = some t
  recv_ticket (RecvPc.check t) = some t
  recv_ticket (RecvPc.copy t) = some t
  recv_ticket (RecvPc.release t out) = some t
  recv_ticket _ = none

  -- What the locals of a call say about the shared memory and about the elements sent so far.
  abbrev pub SendOk : Ring A → List A → SendPc A → Type 0
  SendOk r sent (SendPc.wait t v) = (t < r.head) × (get_elem? sent t ≡ some v)
  SendOk r sent (SendPc.check t v) = (t < r.head) × (get_elem? sent t ≡ some v)
  SendOk r sent (SendPc.copy t v) =
      (t < r.head) × (get_elem? sent t ≡ some v) × ((slot_of r t).seq ≡ t)
  SendOk r sent (SendPc.publish t v) =
      (t < r.head)
      × (get_elem? sent t ≡ some v)
      × ((slot_of r t).seq ≡ t)
      × ((slot_of r t).elem ≡ some v)
  SendOk r sent _ = Unit

  abbrev pub RecvOk : Ring A → List A → RecvPc A → Type 0
  RecvOk r sent (RecvPc.wait t) = t < r.tail
  RecvOk r sent (RecvPc.check t) = t < r.tail
  RecvOk r sent (RecvPc.copy t) = (t < r.tail) × ((slot_of r t).seq ≡ suc t)
  RecvOk r sent (RecvPc.release t out) =
      (t < r.tail) × ((slot_of r t).seq ≡ suc t) × (t < r.head) × (out ≡ get_elem? sent t)
  RecvOk r sent _ = Unit

  abbrev pub AllGot : (ℕ × Option A → Type 0) → List (ℕ × Option A) → Type 0
  AllGot P [] = Unit
  AllGot P (g ∷ gs) = P g × AllGot P gs

  -- No slot is written twice before it is read, in at most `steps` steps.
  pub record Inv (cap steps : ℕ) (s : System A) : Type 0 where
    pub sized : s.ring.capacity ≡ cap
    pub logged : length s.sent ≡ s.ring.head
    pub head_le : s.ring.head ≤ steps
    pub tail_le : s.ring.tail ≤ steps
    pub full :
        (t : ℕ)
        → (slot_of s.ring t).seq ≡ suc t
        → (t < s.ring.head) × ((slot_of s.ring t).elem ≡ get_elem? s.sent t)
    pub send_ok : (i : ℕ) → SendOk s.ring s.sent (s.senders i)
    pub recv_ok : (i : ℕ) → RecvOk s.ring s.sent (s.receivers i)
    pub send_unique :
        (i j t : ℕ)
        → send_ticket (s.senders i) ≡ some t
        → send_ticket (s.senders j) ≡ some t
        → i ≡ j
    pub recv_unique :
        (i j t : ℕ)
        → recv_ticket (s.receivers i) ≡ some t
        → recv_ticket (s.receivers j) ≡ some t
        → i ≡ j

  abbrev pub Apart : List (ℕ × Option A) → Type 0
  Apart [] = Unit
  Apart ((t, out) ∷ gs) = AllGot (λ g. g.0 ≢ t) gs × Apart gs

  -- What was received on a ticket is what was sent on it, and no ticket was served twice or is
  -- still held by a receiver.
  pub record Delivered (s : System A) : Type 0 where
    pub valid :
        AllGot (λ g. (g.0 < s.ring.tail) × (g.0 < s.ring.head) × (g.1 ≡ get_elem? s.sent g.0)) s.got
    pub apart : Apart s.got
    pub held : (i t : ℕ) → recv_ticket (s.receivers i) ≡ some t → AllGot (λ g. g.0 ≢ t) s.got

  pub AllGot-map :
      {P Q : ℕ × Option A → Type 0} (gs : List (ℕ × Option A))
      → ((g : ℕ × Option A) → P g → Q g)
      → AllGot P gs
      → AllGot Q gs
  AllGot-map [] f h = tt
  AllGot-map (g ∷ gs) f h = (f g h.0, AllGot-map gs f h.1)
