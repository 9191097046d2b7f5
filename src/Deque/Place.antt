-- ===== src/Deque/Place.antt =====
-- The place in the buffer of a signed running index: what `wrap` computes, and how it moves.
use native.Mathlib.Nat.{mod-lt, mod-eq_of_lt, mod-add-mod, mod_self}
use seakcutils.Base.{
  ℕ, zero, suc, ◌+◌, ◌-◌, ◌%◌, ◌^◌, ◌<◌, ◌≡◌, sym, ap, ◌∙◌, done, arith, ℤ, pos, negsuc, pos_part,
  neg_part, dec_lt, ◌⊎◌, inl, inr,
}
use seakcutils.Deque.{wrap}
use seakcutils.Window.{mod-suc}

-- The remainder that is not negative.
unfoldable pub place : ℤ → ℕ → ℕ
place (pos n) cap = n % cap
place (negsuc n) cap = cap - suc (n % cap)

pub place-lt : (z : ℤ) (cap : ℕ) → 0 < cap → place z cap < cap
unfolding place
place-lt (pos n) cap h = mod-lt n h
place-lt (negsuc n) cap h = omega (arith, mod-lt n h)

-- Two ways that the remainder of a successor goes.
mod-suc-cases :
    (n cap : ℕ)
    → 0 < cap
    → ((suc n % cap ≡ suc (n % cap)) × (suc (n % cap) < cap))
      ⊎ ((suc n % cap ≡ 0) × (suc (n % cap) ≡ cap))
mod-suc-cases n cap h = elim (dec_lt (suc (n % cap)) cap) [
  | yes p ↦ inl (mod-suc n cap ∙ mod-eq_of_lt p, p)
  | no p ↦
      let e : suc (n % cap) ≡ cap = omega (arith, mod-lt n h) in
      inr (mod-suc n cap ∙ ap (λ k. k % cap) e ∙ mod_self cap, e)
]

pub wrap-place : (z : ℤ) (cap : ℕ) → 0 < cap → cap < 2 ^ 63 → wrap z cap ≡ done (place z cap)
unfolding wrap place
wrap-place (pos n) cap h small = ground (arith, mod-lt n h)
wrap-place (negsuc n) cap h small = ground (arith, mod-suc-cases n cap h)

-- One step up.
place-suc :
    (z w : ℤ) (cap : ℕ)
    → 0 < cap
    → pos_part w + neg_part z ≡ suc (pos_part z + neg_part w)
    → place w cap ≡ suc (place z cap) % cap
unfolding place
place-suc (pos n) (pos m) cap h e = ap (λ k. k % cap) (omega arith) ∙ mod-suc n cap
place-suc (pos n) (negsuc m) cap h e = absurd (omega arith)
place-suc (negsuc n) (pos m) cap h e =
    let en : n ≡ 0 = omega arith in
    let em : m ≡ 0 = omega arith in
    rw (en, em) (ground (arith, mod_self cap, mod-eq_of_lt {n = 0} {m = cap} h))
place-suc (negsuc n) (negsuc m) cap h e =
    let en : n ≡ suc m = omega arith in
    rw en (elim (mod-suc-cases m cap h) [
      | inl c ↦ ground (arith, mod-eq_of_lt {n = cap - suc (m % cap)} {m = cap} (omega arith))
      | inr c ↦ ground (arith, mod_self cap)
    ])

succ_ℤ : ℤ → ℤ
succ_ℤ (pos n) = pos (suc n)
succ_ℤ (negsuc zero) = pos 0
succ_ℤ (negsuc (suc n)) = negsuc n

succ_ℤ_parts : (z : ℤ) → pos_part (succ_ℤ z) + neg_part z ≡ suc (pos_part z + neg_part (succ_ℤ z))
unfolding succ_ℤ
succ_ℤ_parts (pos n) = omega arith
succ_ℤ_parts (negsuc zero) = omega arith
succ_ℤ_parts (negsuc (suc n)) = omega arith

pub eq_of_parts : (a b : ℤ) → pos_part a + neg_part b ≡ pos_part b + neg_part a → a ≡ b
eq_of_parts a b h = ground arith

-- Any number of steps up.
pub place-add :
    (n : ℕ) (z w : ℤ) (cap : ℕ)
    → 0 < cap
    → pos_part w + neg_part z ≡ pos_part z + neg_part w + n
    → place w cap ≡ (place z cap + n) % cap
place-add zero z w cap h e =
    ap (λ u. place u cap) (eq_of_parts w z (omega arith))
    ∙ sym (mod-eq_of_lt (place-lt z cap h))
    ∙ ap (λ k. k % cap) (omega arith)
place-add (suc n) z w cap h e =
    place-add n (succ_ℤ z) w cap h (omega (arith, succ_ℤ_parts z))
    ∙ ap (λ k. (k + n) % cap) (place-suc z (succ_ℤ z) cap h (succ_ℤ_parts z))
    ∙ mod-add-mod (suc (place z cap)) cap n
    ∙ ap (λ k. k % cap) (omega arith)
