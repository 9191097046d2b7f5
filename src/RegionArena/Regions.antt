-- ===== src/RegionArena/Regions.antt =====
-- arenas/r_arena.h: what the regions of an arena hold.
-- Element `k` of the list stands in region `k / rg_capacity`; past the list all places are zeroed.
use mathlib.Core.Path.{subst}
use native.Mathlib.Nat.{mod-add-div, mod-lt}
use seakcutils.Base.{
  ℕ, zero, suc, ◌+◌, ◌*◌, ◌/◌, ◌%◌, ◌≤◌, ◌<◌, ◌≡◌, ◌≢◌, ◌⊎◌, inl, inr, refl, some, Option, List, [],
  ◌∷◌, ◌++◌, length, get_elem?, replicate, arith,
}
use seakcutils.RegionArena.{Region, RegionArena}

-- Element `k`, or `z` behind the end.
abbrev pub cell {ℓ} : {A : Type ℓ} → A → List A → ℕ → A
cell z [] k = z
cell z (x ∷ xs) zero = x
cell z (x ∷ xs) (suc k) = cell z xs k

module _ {ℓ} {A : Type ℓ} where
  pub cell-le : (z : A) (xs : List A) (k : ℕ) → length xs ≤ k → cell z xs k ≡ z
  cell-le z [] k h = refl
  cell-le z (x ∷ xs) zero h = absurd (omega arith)
  cell-le z (x ∷ xs) (suc k) h = cell-le z xs k (omega arith)

  cell-last : (z : A) (xs : List A) (v : A) → cell z (xs ++ v ∷ []) (length xs) ≡ v
  cell-last z [] v = refl
  cell-last z (x ∷ xs) v = cell-last z xs v

  pub cell-snoc_ne :
      (z : A) (xs : List A) (v : A) (k : ℕ) → k ≢ length xs → cell z (xs ++ v ∷ []) k ≡ cell z xs k
  cell-snoc_ne z [] v zero ne = absurd (ne refl)
  cell-snoc_ne z [] v (suc k) ne = refl
  cell-snoc_ne z (x ∷ xs) v zero ne = refl
  cell-snoc_ne z (x ∷ xs) v (suc k) ne = cell-snoc_ne z xs v k (λ e. ne (omega arith))

  pub cell-at : (z : A) (xs : List A) (v : A) (k : ℕ) → length xs ≡ k → cell z (xs ++ v ∷ []) k ≡ v
  cell-at z xs v k e = subst (λ n. cell z (xs ++ v ∷ []) n ≡ v) e (cell-last z xs v)

  pub cell-snoc_eq :
      (z : A) (xs : List A) (v : A) → v ≡ z → (k : ℕ) → cell z (xs ++ v ∷ []) k ≡ cell z xs k
  cell-snoc_eq z [] v e zero = e
  cell-snoc_eq z [] v e (suc k) = refl
  cell-snoc_eq z (x ∷ xs) v e zero = refl
  cell-snoc_eq z (x ∷ xs) v e (suc k) = cell-snoc_eq z xs v e k

  pub cell-get_elem? :
      (z : A) (xs : List A) (k : ℕ) → k < length xs → get_elem? xs k ≡ some (cell z xs k)
  cell-get_elem? z [] k h = absurd (omega arith)
  cell-get_elem? z (x ∷ xs) zero h = refl
  cell-get_elem? z (x ∷ xs) (suc k) h = cell-get_elem? z xs k (omega arith)

  pub get_elem?-replicate : (n : ℕ) (a : A) (i : ℕ) → i < n → get_elem? (replicate n a) i ≡ some a
  get_elem?-replicate zero a i h = absurd (omega arith)
  get_elem?-replicate (suc n) a zero h = refl
  get_elem?-replicate (suc n) a (suc i) h = get_elem?-replicate n a i (omega arith)

-- The region and the place of an index.
pub div_place : (k cap : ℕ) → 0 < cap → (k / cap * cap + k % cap ≡ k) × (k % cap < cap)
div_place k cap pos = (grind (arith, mod-add-div k cap), mod-lt k pos)

pub mul_mono : (a b c : ℕ) → a ≤ b → a * c ≤ b * c
mul_mono a b c le = grind arith

pub trichotomy : (a b : ℕ) → (a < b) ⊎ ((a ≡ b) ⊎ (b < a))
trichotomy a b = omega arith

-- Two places of which one is in another region are different.
pub place_unique :
    (j j' i i' cap : ℕ) → i < cap → i' < cap → j * cap + i ≡ j' * cap + i' → (j ≡ j') × (i ≡ i')
place_unique j j' i i' cap h h' e = elim (trichotomy j j') [
  | inl lt ↦ absurd (omega (arith, mul_mono (suc j) j' cap lt))
  | inr (inl same) ↦ (same, grind (arith, same))
  | inr (inr gt) ↦ absurd (omega (arith, mul_mono (suc j') j cap gt))
]

pub lt_of_mul : (a b c : ℕ) → a * c < b * c → a < b
lt_of_mul a b c lt = elim (trichotomy a b) [
  | inl less ↦ less
  | inr (inl e) ↦ absurd (omega (arith, lt, mul_mono b a c (omega (arith, e))))
  | inr (inr gt) ↦ absurd (omega (arith, lt, gt, mul_mono b a c (omega (arith, gt))))
]

-- From `z` behind the end on, region `j` has its part of `xs`.
abbrev pub Filled {ℓ} : {A : Type ℓ} → A → ℕ → List A → List A → ℕ → Type ℓ
Filled z cap xs elems j = (i : ℕ) → i < cap → get_elem? elems i ≡ some (cell z xs (j * cap + i))

module _ {ℓ} {A : Type ℓ} (z : A) (cap epoch : ℕ) where
  -- What region `j` of an arena has, whose elements in the epoch are `xs`: a part of them, or stale
  -- elements where there are none.
  pub record RegionAt (xs : List A) (handler : List (Option (Region A))) (j : ℕ) : Type ℓ where
    pub rg : Region A
    pub elems : List A
    pub present : get_elem? handler j ≡ some (some rg)
    pub allocated : rg.data_elems ≡ some elems
    pub size : length elems ≡ cap
    pub now :
        ((rg.epoch ≡ epoch) × Filled z cap xs elems j)
        ⊎ ((rg.epoch < epoch) × (length xs ≤ j * cap))

  -- A region of the current epoch.
  pub record CurrentAt (xs : List A) (handler : List (Option (Region A))) (j : ℕ) : Type ℓ where
    pub rg : Region A
    pub elems : List A
    pub present : get_elem? handler j ≡ some (some rg)
    pub allocated : rg.data_elems ≡ some elems
    pub size : length elems ≡ cap
    pub at_epoch : rg.epoch ≡ epoch
    pub filled : Filled z cap xs elems j

-- The arena holds `xs`, whatever its count.
pub record Holds {ℓ} {A : Type ℓ} (z : A) (arena : RegionArena A) (xs : List A) : Type ℓ where
  pub handler : List (Option (Region A))
  pub held : arena.regions_handler ≡ some handler
  pub size : length handler ≡ arena.max_rgs
  pub cap_pos : 0 < arena.rg_capacity
  pub used_le : arena.rgs_in_use ≤ arena.max_rgs
  pub covered : length xs ≤ arena.rgs_in_use * arena.rg_capacity
  pub region :
      (j : ℕ) → j < arena.rgs_in_use → RegionAt z arena.rg_capacity arena.current_epoch xs handler j
