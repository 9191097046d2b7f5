-- ===== src/Stack/Tests.antt =====
-- Runs of the stack at small inputs.
use seakcutils.Base.{
  ℕ, ◌/◌, ◌≡◌, ◌≢◌, refl, Option, none, some, List, [], ◌∷◌, done, fault, arith, length, replicate,
  length-replicate, load, store,
}
use seakcutils.Stack.{Stack, live, ok, err, stack_push, stack_pop, stack_reset}
use seakcutils.Stack.Represents.{Represents, Op, push, pop}
use seakcutils.Stack.Refine.{call, run, answers, stack_run_refines, stack_reset-Represents}

-- 7 on top of 8, one place free
abbrev two : Stack ℕ
two = record { items = live (0 ∷ 7 ∷ 8 ∷ []); sp = 1; count = 2; elem_size = 4; cap = 3 }

two-Represents : Represents two (7 ∷ 8 ∷ [])
two-Represents = record {
  buf = 0 ∷ 7 ∷ 8 ∷ [];
  allocated = refl;
  size = refl;
  counted = refl;
  top = refl;
  row = (refl, (refl, tt));
}

abbrev script : List (Op ℕ)
script = push 1 ∷ pop ∷ pop ∷ pop ∷ pop ∷ push 2 ∷ []

run-two :
    run script two
    ≡ done ((ok, none) ∷ (ok, some 1) ∷ (ok, some 7) ∷ (ok, some 8) ∷ (err, none) ∷ (ok, none) ∷ [])
unfolding run call stack_push stack_pop load store
run-two = refl

-- The second push meets the full stack.
run-overflow : run (push 1 ∷ push 2 ∷ []) two ≡ fault
unfolding run call stack_push stack_pop load store
run-overflow = refl

stack_run_refines_example : run script two ≡ answers 3 script (7 ∷ 8 ∷ [])
stack_run_refines_example = stack_run_refines script two-Represents

stack_reset-Represents_example : Represents (stack_reset two) []
stack_reset-Represents_example = stack_reset-Represents two-Represents

two-ne-nil : ◌≢◌ {A = List ℕ} (7 ∷ 8 ∷ []) []
two-ne-nil e = cc

abbrev malloc_zeros : ℕ → Option (List ℕ)
malloc_zeros n = some (replicate (n / 4) 0)

malloc_zeros_law : (n : ℕ) (buf : List ℕ) → malloc_zeros n ≡ some buf → length buf ≡ n / 4
malloc_zeros_law n buf h = ground (arith, length-replicate {A = ℕ} (n / 4) 0)
