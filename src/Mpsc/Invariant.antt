-- ===== src/Mpsc/Invariant.antt =====
-- What every reachable state of an MPSC channel satisfies. To the senders the one receiver is a
-- receiver of an MPMC channel that draws its ticket when it finds the slot full.
use seakcutils.Base.{ℕ, suc, ◌≡◌, Option, none, some, List, [], ◌∷◌, ◌++◌, length, get_elem?, sym}
use seakcutils.Channel.{Ring, slot_of, ok}
use seakcutils.Channel
use seakcutils.Mpmc
use seakcutils.Mpmc.Invariant.{Inv}
use seakcutils.Mpsc.{System, RecvPc}

module _ {A : Type 0} where
  -- The ticket in hand is below the tail of the MPMC ring.
  abbrev pub shown_tail : RecvPc A → ℕ → ℕ
  shown_tail (RecvPc.copy t) k = suc k
  shown_tail (RecvPc.release t out) k = suc k
  shown_tail (RecvPc.advance out) k = suc k
  shown_tail _ k = k

  abbrev pub shown : RecvPc A → Channel.RecvPc A
  shown (RecvPc.copy t) = Channel.RecvPc.copy t
  shown (RecvPc.release t out) = Channel.RecvPc.release t out
  shown _ = Channel.RecvPc.returned ok none

  abbrev pub at_first : Channel.RecvPc A → ℕ → Channel.RecvPc A
  at_first p ℕ.zero = p
  at_first p (suc i) = Channel.RecvPc.returned ok none

  -- The MPMC channel that the senders see.
  abbrev pub shown_ring : RecvPc A → Ring A → Ring A
  shown_ring p r = record r { tail = shown_tail p r.tail }

  abbrev pub show : System A → Mpmc.System A
  show s = record {
    ring = shown_ring s.receiver s.ring;
    senders = s.senders;
    receivers = at_first (shown s.receiver);
    sent = s.sent;
    got = [];
  }

  -- What the locals of the receiver say.
  abbrev pub Knows : ℕ → List A → RecvPc A → Type 0
  Knows tail sent (RecvPc.load_head t) = t ≡ tail
  Knows tail sent (RecvPc.test t) = t ≡ tail
  Knows tail sent (RecvPc.copy t) = t ≡ tail
  Knows tail sent (RecvPc.release t out) = t ≡ tail
  Knows tail sent (RecvPc.advance out) = (x : A) × (out ≡ some x) × (get_elem? sent tail ≡ some x)
  Knows tail sent _ = Unit

  -- The first elements of a list, in order.
  abbrev pub Received : List (Option A) → List A → Type 0
  Received [] xs = Unit
  Received (g ∷ gs) [] = ⊥
  Received (g ∷ gs) (x ∷ xs) = (g ≡ some x) × Received gs xs

  pub Received-append :
      (gs : List (Option A)) (xs ys : List A) → Received gs xs → Received gs (xs ++ ys)
  Received-append [] xs ys h = tt
  Received-append (g ∷ gs) [] ys h = absurd h
  Received-append (g ∷ gs) (x ∷ xs) ys h = (h.0, Received-append gs xs ys h.1)

  pub Received-snoc :
      (gs : List (Option A)) (xs : List A) {x : A}
      → Received gs xs
      → get_elem? xs (length gs) ≡ some x
      → Received (gs ++ some x ∷ []) xs
  Received-snoc [] [] h e = absurd (cc)
  Received-snoc [] (y ∷ xs) h e = (sym e, tt)
  Received-snoc (g ∷ gs) [] h e = absurd h
  Received-snoc (g ∷ gs) (y ∷ xs) h e = (h.0, Received-snoc gs xs h.1 e)

  pub record Ordered (cap n : ℕ) (s : System A) : Type 0 where
    pub inv : Inv cap n (show s)
    pub count : length s.got ≡ s.ring.tail
    pub in_order : Received s.got s.sent
    pub knows : Knows s.ring.tail s.sent s.receiver
