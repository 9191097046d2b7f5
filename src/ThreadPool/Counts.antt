-- ===== src/ThreadPool/Counts.antt =====
-- How many of the first numbers pass a test.
use seakcutils.Base.{
  ℕ, zero, suc, ◌+◌, ◌<◌, ◌≤◌, ◌≡◌, ◌≢◌, ◌∙◌, refl, sym, ap, Bool, true, false, arith, inl, inr,
  Bool-cases, ℕ_discrete,
}

abbrev pub one_if : Bool → ℕ
one_if true = 1
one_if false = 0

abbrev pub count : (ℕ → Bool) → ℕ → ℕ
count f zero = 0
count f (suc n) = one_if (f n) + count f n

module _ (f g : ℕ → Bool) where
  pub count-same : (n : ℕ) → ((j : ℕ) → j < n → g j ≡ f j) → count g n ≡ count f n
  count-same zero same = refl
  count-same (suc n) same =
      omega
        (arith, ap one_if (same n (omega arith)), count-same n (λ j lt. same j (omega (arith, lt))))

  -- One of the numbers passes now.
  pub count-one :
      (n i : ℕ)
      → i < n
      → f i ≡ false
      → g i ≡ true
      → ((j : ℕ) → i ≢ j → g j ≡ f j)
      → count g n ≡ suc (count f n)
  count-one zero i lt before after same = absurd (omega (arith, lt))
  count-one (suc n) i lt before after same = elim (ℕ_discrete i n) [
    | yes e ↦
        let now : one_if (g n) ≡ 1 = ap one_if (ap g (sym e) ∙ after) in
        let was : one_if (f n) ≡ 0 = ap one_if (ap f (sym e) ∙ before) in
        let rest = count-same n (λ j less. same j (λ e'. omega (arith, e, e', less))) in
        omega (arith, now, was, rest)
    | no ne ↦
        let rest = count-one n i (omega (arith, lt, ne)) before after same in
        omega (arith, rest, ap one_if (same n ne))
  ]

pub count_le : (f : ℕ → Bool) (n : ℕ) → count f n ≤ n
count_le f zero = omega arith
count_le f (suc n) = elim (Bool-cases (f n)) [
  | inl e ↦ omega (arith, ap one_if e, count_le f n)
  | inr e ↦ omega (arith, ap one_if e, count_le f n)
]

pub count_lt : (f : ℕ → Bool) (n i : ℕ) → i < n → f i ≡ false → suc (count f n) ≤ n
count_lt f zero i lt e = absurd (omega (arith, lt))
count_lt f (suc n) i lt e = elim (ℕ_discrete i n) [
  | yes same ↦ omega (arith, ap one_if (ap f (sym same) ∙ e), count_le f n)
  | no ne ↦ elim (Bool-cases (f n)) [
    | inl t ↦ omega (arith, ap one_if t, count_lt f n i (omega (arith, lt, ne)) e)
    | inr t ↦ omega (arith, ap one_if t, count_lt f n i (omega (arith, lt, ne)) e)
  ]
]

pub count-all : (f : ℕ → Bool) (n : ℕ) → ((j : ℕ) → j < n → f j ≡ true) → count f n ≡ n
count-all f zero all = refl
count-all f (suc n) all =
    omega
      (arith, ap one_if (all n (omega arith)), count-all f n (λ j lt. all j (omega (arith, lt))))

pub count-none : (f : ℕ → Bool) (n : ℕ) → ((j : ℕ) → f j ≡ false) → count f n ≡ 0
count-none f zero none_ = refl
count-none f (suc n) none_ = omega (arith, ap one_if (none_ n), count-none f n none_)
