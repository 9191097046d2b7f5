-- ===== src/Deque/Pop.antt =====
-- The pops of the deque, on a deque that represents a list.
use seakcutils.Base.{
  suc, ◌+◌, ◌%◌, ◌≡◌, refl, sym, ap, ◌∙◌, none, some, List, [], ◌∷◌, ◌++◌, done, arith, length,
  length-append, load-some, eq→==, ne→==, get_elem?,
}
use seakcutils.Deque.{Deque, ok, err_bounds, deque_pop_front, deque_pop_back}
use seakcutils.Deque.Place.{place, place-lt, place-add, wrap-place}
use seakcutils.Deque.Represents.{Represents, deque_is_empty_lem}
use native.Mathlib.Nat.{mod-eq_of_lt, mod-mod}
use seakcutils.Window.{Holds, Holds-unsnoc, Holds-shift}
use seakcutils.Deque.Steps.{up, down, add_one, sub_one, one_part, HasRoom, Near}

module _ {ℓ} {A : Type ℓ} where
  module _ {q : Deque A} {xs : List A} (r : Represents q xs) where
    open r use {allocated}

    pub pop_back_empty : xs ≡ [] → deque_pop_back (some q) ≡ done (err_bounds, none, some q)
    unfolding deque_pop_back
    pop_back_empty e =
        simp (allocated, deque_is_empty_lem r, eq→== (length xs) 0 (omega (arith, ap length e)))

    pub pop_front_empty : xs ≡ [] → deque_pop_front (some q) ≡ done (err_bounds, none, some q)
    unfolding deque_pop_front
    pop_front_empty e =
        simp (allocated, deque_is_empty_lem r, eq→== (length xs) 0 (omega (arith, ap length e)))

  module _ {q : Deque A} {ys : List A} {y : A} where
    pub pop_back_some :
        Represents q (y ∷ ys)
        → HasRoom 1 q
        → (q' : Deque A) × (deque_pop_back (some q) ≡ done (ok, some y, some q'))
          × Represents q' ys
          × Near q q'
    unfolding deque_pop_back
    pop_back_some r b = (
      q',
      runs,
      valid,
      record { same_cap = refl; head_near = ground arith; tail_near = ground arith },
    )
      where
        open r use {buf, allocated, size, small, room, span, window}

        q' : Deque A
        q' = record q { tail = up q.tail }

        at_tail : get_elem? buf (place q.tail q.cap) ≡ some y
        at_tail =
            ap (get_elem? buf) (sym (mod-eq_of_lt (place-lt q.tail q.cap (omega arith)))) ∙ window.0

        runs : deque_pop_back (some q) ≡ done (ok, some y, some q')
        runs = simp (
          allocated,
          deque_is_empty_lem r,
          ne→== (length (y ∷ ys)) 0 (omega arith),
          wrap-place q.tail q.cap (omega arith) small,
          load-some buf (place q.tail q.cap) at_tail,
          add_one q.tail (omega (arith, span, b.above, one_part q.head, one_part q.tail))
              (omega (arith, b.below)),
        )

        valid : Represents q' ys
        valid = record {
          buf = buf;
          allocated = allocated;
          size = size;
          small = small;
          room = omega arith;
          span = ground (arith, span);
          window =
              Holds-shift buf q.cap (suc (place q.tail q.cap)) (place (up q.tail) q.cap) ys
                (sym (
                  ap (λ k. k % q.cap)
                    (place-add 1 q.tail (up q.tail) q.cap (omega arith) (ground arith))
                  ∙ mod-mod (place q.tail q.cap + 1) q.cap
                  ∙ ap (λ k. k % q.cap) (omega arith)))
                window.1;
        }

    pub pop_front_some :
        Represents q (ys ++ y ∷ [])
        → HasRoom 1 q
        → (q' : Deque A) × (deque_pop_front (some q) ≡ done (ok, some y, some q'))
          × Represents q' ys
          × Near q q'
    unfolding deque_pop_front
    pop_front_some r b = (
      q',
      runs,
      valid,
      record { same_cap = refl; head_near = ground arith; tail_near = ground arith },
    )
      where
        open r use {buf, allocated, size, small, room, span, window}

        q' : Deque A
        q' = record q { head = down q.head }

        count : length (ys ++ y ∷ []) ≡ suc (length ys)
        count = omega (arith, length-append ys (y ∷ []))

        split :
            Holds buf q.cap (place q.tail q.cap) ys
            × (get_elem? buf ((place q.tail q.cap + length ys) % q.cap) ≡ some y)
        split = Holds-unsnoc buf q.cap (place q.tail q.cap) ys y window

        below_head : place (down q.head) q.cap ≡ (place q.tail q.cap + length ys) % q.cap
        below_head =
            place-add (length ys) q.tail (down q.head) q.cap (omega (arith, count))
              (ground (arith, span, count))

        runs : deque_pop_front (some q) ≡ done (ok, some y, some q')
        runs = simp (
          allocated,
          deque_is_empty_lem r,
          ne→== (length (ys ++ y ∷ [])) 0 (omega (arith, count)),
          sub_one q.head (omega (arith, b.above))
              (omega (arith, span, b.below, one_part q.head, one_part q.tail)),
          wrap-place (down q.head) q.cap (omega (arith, count)) small,
          load-some buf (place (down q.head) q.cap) (ap (get_elem? buf) below_head ∙ split.1),
        )

        valid : Represents q' ys
        valid = record {
          buf = buf;
          allocated = allocated;
          size = size;
          small = small;
          room = omega (arith, count);
          span = ground (arith, span, count);
          window = split.0;
        }
