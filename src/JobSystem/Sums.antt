-- ===== src/JobSystem/Sums.antt =====
-- job_system/jobsystem.h: a number for each thread, summed over the threads of a pool.
use seakcutils.Base.{ℕ, zero, suc, ◌+◌, ◌*◌, ◌≤◌, ◌<◌, ◌≡◌, ◌∙◌, refl, sym, ap, arith, ℕ_discrete}
use seakcutils.Mpmc.{update}
use seakcutils.ThreadPool.Hands.{update_at, update_off}
use seakcutils.JobSystem.Worker.{WorkerPc, exited}
use mathlib.Core.Path.{subst}

-- The sum over the threads below `n`.
abbrev pub sum : (WorkerPc → ℕ) → ℕ → (ℕ → WorkerPc) → ℕ
sum f zero workers = 0
sum f (suc n) workers = f (workers n) + sum f n workers

module _ (f : WorkerPc → ℕ) (workers : ℕ → WorkerPc) (i : ℕ) (pc : WorkerPc) where
  sum_same : (n : ℕ) → n ≤ i → sum f n (update workers i pc) ≡ sum f n workers
  sum_same zero le = refl
  sum_same (suc n) le =
      rw (update_off workers i pc n (λ e. omega (arith, e, le)), sum_same n (omega (arith, le)))
        refl

  pub sum-update :
      (n : ℕ) → i < n → sum f n (update workers i pc) + f (workers i) ≡ sum f n workers + f pc
  sum-update zero lt = absurd (omega (arith, lt))
  sum-update (suc n) lt = elim (ℕ_discrete i n) [
    | yes e ↦
        let at : update workers i pc n ≡ pc =
          ap (update workers i pc) (sym e) ∙ update_at workers i pc in
        let here : workers n ≡ workers i = ap workers (sym e) in
        let same = sum_same n (omega (arith, e)) in rw (at, here, same) (omega arith)
    | no ne ↦
        let off = update_off workers i pc n ne in
        let rest = sum-update n (omega (arith, lt, ne)) in rw off (omega (arith, rest))
  ]

pub sum_bound :
    (f : WorkerPc → ℕ) (m : ℕ) (n : ℕ) (workers : ℕ → WorkerPc)
    → ((pc : WorkerPc) → f pc ≤ m)
    → sum f n workers ≤ m * n
sum_bound f m zero workers h = omega arith
sum_bound f m (suc n) workers h = grind (arith, h (workers n), sum_bound f m n workers h)

pub sum_member :
    (f : WorkerPc → ℕ) (n i : ℕ) (workers : ℕ → WorkerPc) → i < n → f (workers i) ≤ sum f n workers
sum_member f zero i workers lt = absurd (omega (arith, lt))
sum_member f (suc n) i workers lt = elim (ℕ_discrete i n) [
  | yes e ↦ subst (λ k. f (workers i) ≤ f (workers k) + sum f n workers) e (omega arith)
  | no ne ↦ omega (arith, sum_member f n i workers (omega (arith, lt, ne)))
]

pub sum_exited :
    (f : WorkerPc → ℕ) (n : ℕ) (workers : ℕ → WorkerPc)
    → f exited ≡ 0
    → ((j : ℕ) → j < n → workers j ≡ exited)
    → sum f n workers ≡ 0
sum_exited f zero workers z h = refl
sum_exited f (suc n) workers z h =
    let at : f (workers n) ≡ 0 = ap f (h n (omega arith)) ∙ z in
    omega (arith, at, sum_exited f n workers z (λ j lt. h j (omega (arith, lt))))
