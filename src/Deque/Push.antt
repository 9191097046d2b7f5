-- ===== src/Deque/Push.antt =====
-- The pushes of the deque, on a deque that represents a list.
use seakcutils.Base.{
  ℕ, suc, ◌+◌, ◌%◌, ◌<◌, ◌≡◌, refl, sym, ap, ◌∙◌, some, List, [], ◌∷◌, ◌++◌, done, arith, length,
  set, length-set, length-append, store-lt, eq→==, ne→==, get_elem?, get_elem?-set_self,
}
use seakcutils.Deque.{Deque, ok, err_bounds, deque_push_front, deque_push_back}
use seakcutils.Deque.Place.{place, place-lt, place-add, wrap-place}
use seakcutils.Deque.Represents.{Represents, deque_is_full_lem}
use mathlib.Core.Path.{subst}
use native.Mathlib.Nat.{mod-eq_of_lt, add-mod_right, mod-mod}
use seakcutils.Window.{Holds, Holds-push, Holds-set, Holds-shift}
use seakcutils.Deque.Steps.{up, down, add_one, sub_one, one_part, HasRoom, Near}

module _ {ℓ} {A : Type ℓ} where
  module _ {q : Deque A} {xs : List A} (r : Represents q xs) where
    open r use {buf, allocated, size, small, room, span, window}

    -- The place of `head` is the place behind the last element.
    place-head : 0 < q.cap → place q.head q.cap ≡ (place q.tail q.cap + length xs) % q.cap
    place-head h = place-add (length xs) q.tail q.head q.cap h (omega arith)

    pub push_front_full :
        (v : A) → length xs ≡ q.cap → deque_push_front (some q) v ≡ done (err_bounds, some q)
    unfolding deque_push_front
    push_front_full v e = simp (allocated, deque_is_full_lem r, eq→== _ _ e)

    pub push_front_room :
        (v : A)
        → length xs < q.cap
        → HasRoom 1 q
        → (q' : Deque A) × (deque_push_front (some q) v ≡ done (ok, some q'))
          × Represents q' (xs ++ v ∷ [])
          × Near q q'
    unfolding deque_push_front
    push_front_room v h b = (
      q',
      runs,
      valid,
      record { same_cap = refl; head_near = ground arith; tail_near = ground arith },
    )
      where
        id : ℕ
        id = place q.head q.cap

        q' : Deque A
        q' = record q { items = some (set buf id v); head = up q.head }

        runs : deque_push_front (some q) v ≡ done (ok, some q')
        runs = rw (
          allocated,
          deque_is_full_lem r,
          ne→== (length xs) q.cap (omega arith),
          wrap-place q.head q.cap (omega arith) small,
          wrap-place q.tail q.cap (omega arith) small,
          store-lt buf id v (omega (arith, place-lt q.head q.cap)),
          add_one q.head b.above (omega (arith, span, b.below, one_part q.head, one_part q.tail)),
        )

        valid : Represents q' (xs ++ v ∷ [])
        valid = record {
          buf = set buf id v;
          allocated = refl;
          size = length-set buf id v ∙ size;
          small = small;
          room = omega (arith, length-append xs (v ∷ []));
          span = ground (arith, span, length-append xs (v ∷ []));
          window =
              rw (place-head (omega arith))
                (Holds-push buf q.cap (place q.tail q.cap) xs v size h window);
        }

    pub push_back_full :
        (v : A) → length xs ≡ q.cap → deque_push_back (some q) v ≡ done (err_bounds, some q)
    unfolding deque_push_back
    push_back_full v e = simp (allocated, deque_is_full_lem r, eq→== _ _ e)

    pub push_back_room :
        (v : A)
        → length xs < q.cap
        → HasRoom 1 q
        → (q' : Deque A) × (deque_push_back (some q) v ≡ done (ok, some q'))
          × Represents q' (v ∷ xs)
          × Near q q'
    unfolding deque_push_back
    push_back_room v h b = (
      q',
      runs,
      valid,
      record { same_cap = refl; head_near = ground arith; tail_near = ground arith },
    )
      where
        id : ℕ
        id = place (down q.tail) q.cap

        q' : Deque A
        q' = record q { items = some (set buf id v); tail = down q.tail }

        runs : deque_push_back (some q) v ≡ done (ok, some q')
        runs = rw (
          allocated,
          deque_is_full_lem r,
          ne→== (length xs) q.cap (omega arith),
          sub_one q.tail (omega (arith, span, b.above, one_part q.head, one_part q.tail)) b.below,
          wrap-place (down q.tail) q.cap (omega arith) small,
          store-lt buf id v (omega (arith, place-lt (down q.tail) q.cap)),
        )

        next : place q.tail q.cap ≡ (id + 1) % q.cap
        next = place-add 1 (down q.tail) q.tail q.cap (omega arith) (ground arith)

        -- `id` is the last place before the window, going round.
        around : id % q.cap ≡ (id + q.cap) % q.cap
        around = sym (add-mod_right id q.cap)

        id-mod : id % q.cap ≡ id
        id-mod = mod-eq_of_lt (place-lt (down q.tail) q.cap (omega arith))

        shifted : Holds buf q.cap (suc id) xs
        shifted =
            Holds-shift buf q.cap (place q.tail q.cap) (suc id) xs
              (ap (λ k. k % q.cap) next
                ∙ mod-mod (id + 1) q.cap
                ∙ ap (λ k. k % q.cap) (omega arith))
              window

        kept : Holds (set buf id v) q.cap (suc id) xs
        kept =
            subst (λ k. Holds (set buf k v) q.cap (suc id) xs) (sym around ∙ id-mod)
              (Holds-set buf q.cap (suc id) xs (id + q.cap) v (omega arith) (omega arith) shifted)

        valid : Represents q' (v ∷ xs)
        valid = record {
          buf = set buf id v;
          allocated = refl;
          size = length-set buf id v ∙ size;
          small = small;
          room = h;
          span = ground (arith, span);
          window = (
            ap (get_elem? (set buf id v)) id-mod
                ∙ get_elem?-set_self buf id v (omega (arith, place-lt (down q.tail) q.cap)),
            kept,
          );
        }
