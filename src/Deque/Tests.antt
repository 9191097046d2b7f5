-- ===== src/Deque/Tests.antt =====
-- Runs of the deque at small inputs.
use seakcutils.Base.{
  load, store, ℕ, ◌/◌, ◌≡◌, refl, Option, none, some, List, [], ◌∷◌, done, arith, length, pos,
  negsuc, replicate, get_elem?, length-replicate,
}
use seakcutils.Deque.{
  Deque, ok, err_bounds, deque_new, deque_peek_back, deque_reset, deque_push_front, deque_push_back,
  deque_pop_front, deque_pop_back,
}
use seakcutils.Deque.Place.{place}
use seakcutils.Deque.Represents.{Represents}
use seakcutils.Deque.Steps.{HasRoom, Near}
use seakcutils.Deque.Peek.{peek_back_some}
use seakcutils.Deque.Refine.{
  Op, push_front, push_back, pop_front, pop_back, call, answer, run, answers, deque_call-Represents,
  deque_run_refines, deque_new-Represents, deque_reset-Represents,
}

-- 10 at the back, at place 2; 20 at the front, at place 0
abbrev wrapped : Deque ℕ
wrapped = record {
  items = some (20 ∷ 99 ∷ 10 ∷ []);
  head = pos 1;
  tail = negsuc 0;
  cap = 3;
  elem_size = 4;
}

wrapped-Represents : Represents wrapped (10 ∷ 20 ∷ [])
unfolding place
wrapped-Represents = record {
  buf = 20 ∷ 99 ∷ 10 ∷ [];
  allocated = refl;
  size = refl;
  small = omega arith;
  room = omega arith;
  span = refl;
  window = (refl, (refl, tt));
}

wrapped-HasRoom : (n : ℕ) → n ≡ 1 → HasRoom n wrapped
wrapped-HasRoom n e = omega arith

abbrev script : List (Op ℕ)
script = push_back 5 ∷ push_back 6 ∷ pop_front ∷ pop_back ∷ pop_back ∷ pop_back ∷ push_front 3 ∷ []

run-wrapped :
    run script (some wrapped)
    ≡ done (
        (ok, none)
        ∷ (err_bounds, none)
        ∷ (ok, some 20)
        ∷ (ok, some 5)
        ∷ (ok, some 10)
        ∷ (err_bounds, none)
        ∷ (ok, none)
        ∷ [])
unfolding load store run call deque_push_front deque_push_back deque_pop_front deque_pop_back
run-wrapped = refl

deque_call-Represents_example :
    let (s, out, ys) = answer {A = ℕ} 3 (push_front 7) (10 ∷ 20 ∷ []) in
    (q' : Deque ℕ) × (call (push_front 7) (some wrapped) ≡ done (s, out, some q'))
    × Represents q' ys
    × Near wrapped q'
deque_call-Represents_example =
    deque_call-Represents (push_front 7) wrapped-Represents (wrapped-HasRoom 1 refl)

deque_run_refines_example : run script (some wrapped) ≡ done (answers 3 script (10 ∷ 20 ∷ []))
deque_run_refines_example = deque_run_refines script wrapped-Represents (omega arith)

deque_reset-Represents_example : Represents (deque_reset wrapped) []
deque_reset-Represents_example = deque_reset-Represents wrapped-Represents

peek_back_some_example :
    (i : ℕ) × (deque_peek_back (some wrapped) ≡ done (some i))
    × (get_elem? {A = ℕ} (20 ∷ 99 ∷ 10 ∷ []) i ≡ some 10)
unfolding wrapped-Represents
peek_back_some_example = peek_back_some (20 ∷ []) wrapped-Represents

abbrev malloc_zeros : ℕ → Option (List ℕ)
malloc_zeros n = some (replicate (n / 4) 0)

malloc_zeros_law : (n : ℕ) (buf : List ℕ) → malloc_zeros n ≡ some buf → length buf ≡ n / 4
malloc_zeros_law n buf h = ground (arith, length-replicate {A = ℕ} (n / 4) 0)

deque_new-Represents_example : Represents (deque_new malloc_zeros 4 3) []
deque_new-Represents_example =
    deque_new-Represents malloc_zeros 4 3 malloc_zeros_law (omega arith) (omega arith) (omega arith)
      refl
