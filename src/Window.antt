-- ===== src/Window.antt =====
-- Cyclic buffers: which elements stand in a buffer of `cap` elements from a running index on.
-- The deque and the channels keep their elements so, at `index % cap`.
use native.Mathlib.Nat.{div-add-mod, mod-lt, mod-add-mod, mul-le-mul_left}
use seakcutils.Base.{
  ℕ, suc, ◌+◌, ◌/◌, ◌%◌, ◌≤◌, ◌<◌, ◌≡◌, ◌≢◌, sym, ap, ◌∙◌, List, [], ◌∷◌, ◌++◌, some, arith, length,
  get_elem?, set, get_elem?-set_self, get_elem?-set_ne, dec_lt,
}

-- Two indices less than `cap` apart fall on different places.
pub mod_ne : (a b cap : ℕ) → a < b → b < a + cap → a % cap ≢ b % cap
mod_ne a b cap lt near e = elim (dec_lt (a / cap) (b / cap)) [
  | yes p ↦ omega (
    arith,
    div-add-mod a cap,
    div-add-mod b cap,
    mul-le-mul_left {m = suc (a / cap)} {n = b / cap} cap p,
  )
  | no p ↦ omega (
    arith,
    div-add-mod a cap,
    div-add-mod b cap,
    mul-le-mul_left {m = b / cap} {n = a / cap} cap (omega arith),
  )
]

pub mod-suc : (i cap : ℕ) → suc i % cap ≡ suc (i % cap) % cap
mod-suc i cap =
    ap (λ n. n % cap) (omega arith) ∙ sym (mod-add-mod i cap 1) ∙ ap (λ n. n % cap) (omega arith)

pub mod-suc_congr : (i j cap : ℕ) → i % cap ≡ j % cap → suc i % cap ≡ suc j % cap
mod-suc_congr i j cap e = mod-suc i cap ∙ ap (λ r. suc r % cap) e ∙ sym (mod-suc j cap)

module _ {ℓ} {A : Type ℓ} where
  -- From running index `i` on the buffer holds `xs`.
  abbrev pub Holds : List A → ℕ → ℕ → List A → Type ℓ
  Holds buf cap i [] = Unit
  Holds buf cap i (x ∷ xs) = (get_elem? buf (i % cap) ≡ some x) × Holds buf cap (suc i) xs

  module _ (buf : List A) (cap : ℕ) where
    -- A write between the end of the window and its start, going round, leaves it alone.
    pub Holds-set :
        (i : ℕ) (xs : List A) (j : ℕ) (v : A)
        → i + length xs ≤ j
        → j < i + cap
        → Holds buf cap i xs
        → Holds (set buf (j % cap) v) cap i xs
    Holds-set i [] j v past near h = tt
    Holds-set i (x ∷ xs) j v past near h = (
      get_elem?-set_ne buf v (λ e. mod_ne i j cap (omega arith) near (sym e)) ∙ h.0,
      Holds-set (suc i) xs j v (omega arith) (omega arith) h.1,
    )

    pub Holds-snoc :
        (i : ℕ) (xs : List A) (v : A)
        → Holds buf cap i xs
        → get_elem? buf ((i + length xs) % cap) ≡ some v
        → Holds buf cap i (xs ++ v ∷ [])
    Holds-snoc i [] v h e = (ap (λ n. get_elem? buf (n % cap)) (omega arith) ∙ e, tt)
    Holds-snoc i (x ∷ xs) v h e =
        (h.0, Holds-snoc (suc i) xs v h.1 (ap (λ n. get_elem? buf (n % cap)) (omega arith) ∙ e))

    pub Holds-unsnoc :
        (i : ℕ) (xs : List A) (v : A)
        → Holds buf cap i (xs ++ v ∷ [])
        → Holds buf cap i xs × (get_elem? buf ((i + length xs) % cap) ≡ some v)
    Holds-unsnoc i [] v h = (tt, ap (λ n. get_elem? buf (n % cap)) (omega arith) ∙ h.0)
    Holds-unsnoc i (x ∷ xs) v h =
        let rest = Holds-unsnoc (suc i) xs v h.1 in
        ((h.0, rest.0), ap (λ n. get_elem? buf (n % cap)) (omega arith) ∙ rest.1)

    -- Only the place of the first index matters.
    pub Holds-shift :
        (i j : ℕ) (xs : List A) → i % cap ≡ j % cap → Holds buf cap i xs → Holds buf cap j xs
    Holds-shift i j [] e h = tt
    Holds-shift i j (x ∷ xs) e h =
        (rw (← e) h.0, Holds-shift (suc i) (suc j) xs (mod-suc_congr i j cap e) h.1)

  -- Writing just past a window that is not full extends it.
  pub Holds-push :
      (buf : List A) (cap i : ℕ) (xs : List A) (v : A)
      → length buf ≡ cap
      → length xs < cap
      → Holds buf cap i xs
      → Holds (set buf ((i + length xs) % cap) v) cap i (xs ++ v ∷ [])
  Holds-push buf cap i xs v size room h =
      Holds-snoc _ cap i xs v
        (Holds-set buf cap i xs (i + length xs) v (omega arith) (omega arith) h)
        (get_elem?-set_self buf _ v (omega (arith, mod-lt (i + length xs) {m = cap})))
