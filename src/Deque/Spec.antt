-- ===== src/Deque/Spec.antt =====
-- The abstract deque: a list from the back element to the front one.
-- Each function gives the status, what goes through `out`, and the list left.
use seakcutils.Base.{
  ℕ, suc, refl, ap, Option, none, some, List, [], ◌∷◌, ◌++◌, length, ℤ, ◌==◌, if◌then◌else◌, ◌≡◌,
}
use seakcutils.Deque.{ok, err_bounds}

module _ {ℓ} {A : Type ℓ} where
  abbrev pub last : A → List A → A
  last x [] = x
  last x (y ∷ ys) = last y ys

  abbrev pub but_last : A → List A → List A
  but_last x [] = []
  but_last x (y ∷ ys) = x ∷ but_last y ys

  abbrev pub push_front : ℕ → A → List A → ℤ × List A
  push_front cap v xs = if length xs == cap then (err_bounds, xs) else (ok, xs ++ v ∷ [])

  abbrev pub push_back : ℕ → A → List A → ℤ × List A
  push_back cap v xs = if length xs == cap then (err_bounds, xs) else (ok, v ∷ xs)

  abbrev pub pop_front : List A → ℤ × Option A × List A
  pop_front [] = (err_bounds, none, [])
  pop_front (x ∷ xs) = (ok, some (last x xs), but_last x xs)

  abbrev pub pop_back : List A → ℤ × Option A × List A
  pop_back [] = (err_bounds, none, [])
  pop_back (x ∷ xs) = (ok, some x, xs)

  pub but_last-append-last : (x : A) (xs : List A) → but_last x xs ++ last x xs ∷ [] ≡ x ∷ xs
  but_last-append-last x [] = refl
  but_last-append-last x (y ∷ ys) = ap (λ l. x ∷ l) (but_last-append-last y ys)

  pub length-but_last : (x : A) (xs : List A) → length (but_last x xs) ≡ length xs
  length-but_last x [] = refl
  length-but_last x (y ∷ ys) = ap suc (length-but_last y ys)
