-- ===== src/Deque/Steps.antt =====
-- The running indices of the deque, one step up or down, and how far they may still go.
use seakcutils.Base.{
  ℕ, suc, ◌+◌, ◌^◌, ◌≤◌, ◌<◌, ◌≡◌, refl, done, arith, ℤ, pos, negsuc, pos_part, neg_part, sub_ℕ,
  ◌⊎◌, inl, inr,
}
use seakcutils.Deque.{Deque, add_int64, sub_int64}

abbrev pub up : ℤ → ℤ
up z = sub_ℕ (pos_part z + 1) (neg_part z + 0)

abbrev pub down : ℤ → ℤ
down z = sub_ℕ (pos_part z + 0) (neg_part z + 1)

pub add_one :
    (z : ℤ) → pos_part z + 1 < 2 ^ 63 → neg_part z ≤ 2 ^ 63 → add_int64 z (pos 1) ≡ done (up z)
add_one z h k = ground arith

pub sub_one :
    (z : ℤ) → pos_part z < 2 ^ 63 → neg_part z + 1 ≤ 2 ^ 63 → sub_int64 z (pos 1) ≡ done (down z)
sub_one z h k = ground arith

pub one_part : (z : ℤ) → (pos_part z ≡ 0) ⊎ (neg_part z ≡ 0)
one_part (pos n) = inr refl
one_part (negsuc n) = inl refl

module _ {ℓ} {A : Type ℓ} where
  -- Room for `n` more calls: no running index is within `n` of the end of `int64_t`.
  pub record HasRoom (n : ℕ) (q : Deque A) : Type 0 where
    pub above : pos_part q.head + n < 2 ^ 63
    pub below : neg_part q.tail + n ≤ 2 ^ 63

  -- What a call may change besides the elements.
  pub record Near (q q' : Deque A) : Type 0 where
    pub same_cap : q'.cap ≡ q.cap
    pub head_near : pos_part q'.head ≤ pos_part q.head + 1
    pub tail_near : neg_part q'.tail ≤ neg_part q.tail + 1

  pub Near-refl : (q : Deque A) → Near q q
  Near-refl q = record { same_cap = refl; head_near = omega arith; tail_near = omega arith }

  pub HasRoom-Near : (n : ℕ) {q q' : Deque A} → Near q q' → HasRoom (suc n) q → HasRoom n q'
  HasRoom-Near n m h = omega arith
