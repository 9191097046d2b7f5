-- ===== src/Deque/Peek.antt =====
-- The peeks of the deque: a pointer to the element that the pop of that end takes.
use native.Mathlib.Nat.{mod-eq_of_lt}
use seakcutils.Base.{
  ℕ, ◌+◌, ◌%◌, ◌≡◌, sym, ap, ◌∙◌, some, List, [], ◌∷◌, ◌++◌, done, arith, length, length-append,
  ne→==, get_elem?,
}
use seakcutils.Deque.{Deque, deque_peek_front, deque_peek_back}
use seakcutils.Deque.Place.{place, place-lt, place-add, wrap-place}
use seakcutils.Deque.Represents.{Represents, deque_is_empty_lem}
use seakcutils.Deque.Steps.{down, sub_one, one_part, HasRoom}
use seakcutils.Window.{Holds-unsnoc}

module _ {ℓ} {A : Type ℓ} where
  module _ {q : Deque A} (ys : List A) {y : A} where
    -- `deque_peek_back` points at the back element, and needs no room to move.
    pub peek_back_some :
        (r : Represents q (y ∷ ys))
        → (i : ℕ) × (deque_peek_back (some q) ≡ done (some i)) × (get_elem? r.buf i ≡ some y)
    unfolding deque_peek_back
    peek_back_some r = (
      place q.tail q.cap,
      simp (
        allocated,
        deque_is_empty_lem r,
        ne→== (length (y ∷ ys)) 0 (omega arith),
        wrap-place q.tail q.cap (omega arith) small,
      ),
      ap (get_elem? buf) (sym (mod-eq_of_lt (place-lt q.tail q.cap (omega arith)))) ∙ window.0,
    )
      where
        open r use {buf, allocated, small, room, window}

    -- `deque_peek_front` points at the front element.
    pub peek_front_some :
        (r : Represents q (ys ++ y ∷ []))
        → HasRoom 1 q
        → (i : ℕ) × (deque_peek_front (some q) ≡ done (some i)) × (get_elem? r.buf i ≡ some y)
    unfolding deque_peek_front
    peek_front_some r b = (
      place (down q.head) q.cap,
      simp (
        allocated,
        deque_is_empty_lem r,
        ne→== (length (ys ++ y ∷ [])) 0 (omega (arith, count)),
        sub_one q.head (omega (arith, b.above))
            (omega (arith, span, b.below, one_part q.head, one_part q.tail)),
        wrap-place (down q.head) q.cap (omega (arith, count)) small,
      ),
      ap (get_elem? buf) below_head ∙ (Holds-unsnoc buf q.cap (place q.tail q.cap) ys y window).1,
    )
      where
        open r use {buf, allocated, small, room, span, window}

        count : length (ys ++ y ∷ []) ≡ length ys + 1
        count = length-append ys (y ∷ [])

        below_head : place (down q.head) q.cap ≡ (place q.tail q.cap + length ys) % q.cap
        below_head =
            place-add (length ys) q.tail (down q.head) q.cap (omega (arith, count))
              (ground (arith, span, count))
