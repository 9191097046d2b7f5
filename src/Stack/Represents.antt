-- ===== src/Stack/Represents.antt =====
-- When a stack of data_structures/stack.h stands for a list, the top element first, and the same
-- calls on the list: a push on a full list faults.
use seakcutils.Base.{
  ℕ, ◌+◌, ◌≡◌, Option, none, some, List, [], ◌∷◌, Run, done, fault, length, ℤ, ◌==◌, if◌then◌else◌,
}
use seakcutils.Stack.{Stack, live, ok, err}
use seakcutils.Stored.{Stored}

pub data Op {ℓ} (A : Type ℓ) : Type ℓ where
  push : A → Op A
  pop : Op A
  reset : Op A

module _ {ℓ} {A : Type ℓ} where
  pub record Represents (s : Stack A) (xs : List A) : Type ℓ where
    pub buf : List A
    pub allocated : s.items ≡ live buf
    pub size : length buf ≡ s.cap
    pub counted : s.count ≡ length xs
    pub top : s.sp + length xs ≡ s.cap
    pub row : Stored buf s.sp xs

  -- The status, what goes through `out`, and the list left.
  unfoldable pub answer : ℕ → Op A → List A → Run (ℤ × Option A × List A)
  answer cap (push v) xs = if length xs == cap then fault else done (ok, none, v ∷ xs)
  answer cap pop [] = done (err, none, [])
  answer cap pop (x ∷ xs) = done (ok, some x, xs)
  answer cap reset xs = done (ok, none, [])
