-- ===== src/WaitGroup/Counts.antt =====
-- The counter of a wait group counts the units of work that are not done, and a waiter goes on
-- at a load at which there are none.
use mathlib.Core.Option.{some-injective}
use seakcutils.Base.{
  ℕ, suc, ◌+◌, ◌%◌, ◌^◌, ◌≤◌, ◌<◌, ◌≡◌, ◌≢◌, none, some, List, [], ◌∷◌, ◌++◌, arith, ◌==◌, inl, inr,
  Bool-cases, ap,
}
use seakcutils.WaitGroup.{
  WaitGroup, Event, call, test, Call, add, finish, wg_init, apply, apply_all, wg_wait,
}

-- Units announced and units finished by some calls.
abbrev pub added : List Call → ℕ
added [] = 0
added (add n ∷ cs) = n + added cs
added (finish ∷ cs) = added cs

abbrev pub finished : List Call → ℕ
finished [] = 0
finished (add n ∷ cs) = finished cs
finished (finish ∷ cs) = suc (finished cs)

-- From a state with `m` units announced and `f` finished, modulo 2 ^ 64.
abbrev Counts : WaitGroup → ℕ → ℕ → Type 0
Counts wg m f = (wg.count < 2 ^ 64) × ((wg.count + f) % 2 ^ 64 ≡ m % 2 ^ 64)

add-Counts :
    (k : ℕ) (wg : WaitGroup) (m f : ℕ) → Counts wg m f → Counts (apply (add k) wg) (m + k) f
unfolding apply
add-Counts k wg m f h = omega arith

finish-Counts : (wg : WaitGroup) (m f : ℕ) → Counts wg m f → Counts (apply finish wg) m (suc f)
unfolding apply
finish-Counts wg m f h = omega arith

apply_all-Counts :
    (cs : List Call) (wg : WaitGroup) (m f : ℕ)
    → Counts wg m f
    → Counts (apply_all cs wg) (m + added cs) (f + finished cs)
unfolding apply_all
apply_all-Counts [] wg m f h = omega arith
apply_all-Counts (add k ∷ cs) wg m f h =
    omega (arith, apply_all-Counts cs (apply (add k) wg) (m + k) f (add-Counts k wg m f h))
apply_all-Counts (finish ∷ cs) wg m f h =
    omega (arith, apply_all-Counts cs (apply finish wg) m (suc f) (finish-Counts wg m f h))

-- Whatever the order of the calls: if no more units were finished than announced, and fewer than
-- 2 ^ 64 were announced, the counter is the number of units that are not done.
pub count-apply_all :
    (n : ℕ) (cs : List Call)
    → n + added cs < 2 ^ 64
    → finished cs ≤ n + added cs
    → (apply_all cs (wg_init n)).count + finished cs ≡ n + added cs
unfolding wg_init
count-apply_all n cs small le = omega (arith, apply_all-Counts cs (wg_init n) n 0 (omega arith))

-- The calls among some events.
abbrev pub calls : List Event → List Call
calls [] = []
calls (call c ∷ es) = c ∷ calls es
calls (test ∷ es) = calls es

-- The loop ends at a load at which all announced units are finished.
wait_ends :
    (es : List Event) (wg : WaitGroup) (m f : ℕ) (rest : List Event)
    → Counts wg m f
    → m + added (calls es) < 2 ^ 64
    → f + finished (calls es) < 2 ^ 64
    → wg_wait es wg ≡ some rest
    → (pre : List Event) × (es ≡ pre ++ test ∷ rest)
      × (f + finished (calls pre) ≡ m + added (calls pre))
unfolding wg_wait
wait_ends [] wg m f rest h sm sf e = absurd (ground arith)
wait_ends (call (add k) ∷ es) wg m f rest h sm sf e =
    let (pre, split, done) =
      wait_ends es (apply (add k) wg) (m + k) f rest (add-Counts k wg m f h) (omega arith)
        (omega arith) e in
    (call (add k) ∷ pre, ap (λ l. call (add k) ∷ l) split, omega (arith, done))
wait_ends (call finish ∷ es) wg m f rest h sm sf e =
    let (pre, split, done) =
      wait_ends es (apply finish wg) m (suc f) rest (finish-Counts wg m f h) (omega arith)
        (omega arith) e in
    (call finish ∷ pre, ap (λ l. call finish ∷ l) split, omega (arith, done))
wait_ends (test ∷ es) wg m f rest h sm sf e = elim (Bool-cases (wg.count == 0)) [
  | inl z ↦
      let all : wg.count ≡ 0 = ground (arith, z) in
      ([], ap (λ l. test ∷ l) (some-injective _ _ (rw z at e)), omega (arith, all))
  | inr nz ↦
      let (pre, split, done) = wait_ends es wg m f rest h sm sf (rw nz at e) in
      (test ∷ pre, ap (λ l. test ∷ l) split, done)
]

-- With fewer than 2 ^ 64 units announced and finished, however many calls stand between two loads,
-- `wg_wait` returns only at a load at which as many units are finished as were announced.
pub wg_wait-returns :
    (n : ℕ) (es : List Event) {rest : List Event}
    → n + added (calls es) < 2 ^ 64
    → finished (calls es) < 2 ^ 64
    → wg_wait es (wg_init n) ≡ some rest
    → (pre : List Event) × (es ≡ pre ++ test ∷ rest)
      × (finished (calls pre) ≡ n + added (calls pre))
unfolding wg_init
wg_wait-returns n es {rest} small fewer e =
    let (pre, split, done) =
      wait_ends es (wg_init n) n 0 rest (omega arith) small (omega arith) e in
    (pre, split, omega (arith, done))

wait_all :
    (pre rest : List Event) (wg : WaitGroup)
    → (apply_all (calls pre) wg).count ≡ 0
    → wg_wait (pre ++ test ∷ rest) wg ≢ none
unfolding wg_wait apply_all
wait_all [] rest wg e = ground arith
wait_all (call c ∷ pre) rest wg e = wait_all pre rest (apply c wg) e
wait_all (test ∷ pre) rest wg e = ground (arith, wait_all pre rest wg e)

-- With fewer than 2 ^ 64 units announced, a load at a moment at which all announced units are
-- finished ends `wg_wait`, if it has not ended before, whatever the calls and the loads were till then
-- and are afterwards.
pub wg_wait-ne-none :
    (n : ℕ) (pre rest : List Event)
    → n + added (calls pre) < 2 ^ 64
    → finished (calls pre) ≡ n + added (calls pre)
    → wg_wait (pre ++ test ∷ rest) (wg_init n) ≢ none
wg_wait-ne-none n pre rest small all =
    wait_all pre rest (wg_init n) (omega (arith, count-apply_all n (calls pre) small (omega arith)))
