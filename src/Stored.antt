-- ===== src/Stored.antt =====
-- Elements in a row: which elements stand in an array from an index on.
use mathlib.Core.Path.{subst, ap₂}
use mathlib.Core.Option.{some-injective}
use seakcutils.Base.{
  take, ℕ, suc, ◌+◌, ◌≤◌, ◌<◌, ◌≡◌, ap, ◌∙◌, List, [], ◌∷◌, ◌++◌, some, arith, length, get_elem?,
  set, get_elem?-set_ne, ◌⊎◌, inl, inr, refl,
}

module _ {ℓ} {A : Type ℓ} where
  -- From index `i` on the array holds `xs`.
  abbrev pub Stored : List A → ℕ → List A → Type ℓ
  Stored buf i [] = Unit
  Stored buf i (x ∷ xs) = (get_elem? buf i ≡ some x) × Stored buf (suc i) xs

  -- A write beside the row leaves it alone.
  pub Stored-set :
      (buf : List A) (i : ℕ) (xs : List A) (j : ℕ) (v : A)
      → (j < i) ⊎ (i + length xs ≤ j)
      → Stored buf i xs
      → Stored (set buf j v) i xs
  Stored-set buf i [] j v away h = tt
  Stored-set buf i (x ∷ xs) j v away h = (
    get_elem?-set_ne buf v (λ e. omega (arith, away, e)) ∙ h.0,
    Stored-set buf (suc i) xs j v
        (elim away [ inl p ↦ inl (omega arith) | inr p ↦ inr (omega arith) ]) h.1,
  )

  pub Stored-append :
      (buf : List A) (i : ℕ) (xs ys : List A)
      → Stored buf i xs
      → Stored buf (i + length xs) ys
      → Stored buf i (xs ++ ys)
  Stored-append buf i [] ys h k = subst (λ n. Stored buf n ys) (omega arith) k
  Stored-append buf i (x ∷ xs) ys h k =
      (h.0, Stored-append buf (suc i) xs ys h.1 (subst (λ n. Stored buf n ys) (omega arith) k))

  pub Stored-split :
      (buf : List A) (i : ℕ) (xs ys : List A)
      → Stored buf i (xs ++ ys)
      → Stored buf i xs × Stored buf (i + length xs) ys
  Stored-split buf i [] ys h = (tt, subst (λ n. Stored buf n ys) (omega arith) h)
  Stored-split buf i (x ∷ xs) ys h =
      let (a, b) = Stored-split buf (suc i) xs ys h.1 in
      ((h.0, a), subst (λ n. Stored buf n ys) (omega arith) b)

  pub Stored-elem :
      (buf : List A) (i : ℕ) (xs : List A) (k : ℕ)
      → Stored buf i xs
      → k < length xs
      → get_elem? buf (i + k) ≡ get_elem? xs k
  Stored-elem buf i [] k h lt = absurd (omega arith)
  Stored-elem buf i (x ∷ xs) ℕ.zero h lt = ap (get_elem? buf) (omega arith) ∙ h.0
  Stored-elem buf i (x ∷ xs) (suc k) h lt =
      ap (get_elem? buf) (omega arith) ∙ Stored-elem buf (suc i) xs k h.1 (omega arith)

  -- The row at the start of an array is what `take` gives.
  Stored-cons :
      (a : A) (buf : List A) (i : ℕ) (xs : List A) → Stored (a ∷ buf) (suc i) xs → Stored buf i xs
  Stored-cons a buf i [] h = tt
  Stored-cons a buf i (x ∷ xs) h = (h.0, Stored-cons a buf (suc i) xs h.1)

  pub take-Stored : (buf xs : List A) → Stored buf 0 xs → take (length xs) buf ≡ xs
  take-Stored buf [] h = refl
  take-Stored [] (x ∷ xs) h = absurd (cc)
  take-Stored (b ∷ buf) (x ∷ xs) h =
      ap₂ ◌∷◌ (some-injective b x h.0) (take-Stored buf xs (Stored-cons b buf 0 xs h.1))
