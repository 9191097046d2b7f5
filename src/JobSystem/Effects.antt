-- ===== src/JobSystem/Effects.antt =====
-- job_system/jobsystem.h: what a step of a thread does to the counters, while a job is active.
use mathlib.Core.Path.{subst}
use seakcutils.Base.{
  ℕ, ◌+◌, ◌-◌, ◌&&◌, ◌^◌, ◌≤◌, ◌<◌, ◌≡◌, ◌≢◌, ◌∙◌, refl, ap, List, [], ◌∷◌, inl, inr, Bool-cases,
  arith, ltb, ◌==◌, ne→==, Option-cases,
}
use seakcutils.Channel.{is_closed}
use seakcutils.JobSystem.{Pointer, JobHandle, ResetPc, reset_step, put, max_jobs}
use seakcutils.JobSystem.Links.{pointer_cases, put_at, put_off}
use seakcutils.JobSystem.Worker.{
  WorkerPc, Shared, receive, load, run_job, count, lower, follow, lower_next, schedule, send, check,
  reset, finish, test, leave_sender, leave_receiver, exited, set_worker, received, lowered,
}

-- The thread has not come past the loop of the reset.
abbrev pub IsBefore : WorkerPc → Type 0
IsBefore (reset ResetPc.reset_arena) = ⊥
IsBefore (reset ResetPc.zero_epoch) = ⊥
IsBefore (reset ResetPc.accept) = ⊥
IsBefore _ = Unit

-- The active jobs that the next step of the thread takes away.
abbrev pub lowers : WorkerPc → ℕ
lowers finish = 1
lowers _ = 0

pub record Effect (pc : WorkerPc) (s : Shared) (pc' : WorkerPc) (s' : Shared) : Type 0 where
  pub active : s'.base.sche.active_jobs + lowers pc ≡ s.base.sche.active_jobs
  pub epoch : s.base.sche.jobs_completed_epoch ≤ s'.base.sche.jobs_completed_epoch
  pub epoch_next : s'.base.sche.jobs_completed_epoch ≤ s.base.sche.jobs_completed_epoch + 1
  pub arena : s'.base.sche.job_arena ≡ s.base.sche.job_arena
  pub accepting : s.base.sche.accepting_jobs ≡ 0 → s'.base.sche.accepting_jobs ≡ 0
  pub next : (q : Pointer) → (s'.base.jobs q).continuation ≡ (s.base.jobs q).continuation
  pub before : IsBefore pc'

put_continuation :
    (jobs : Pointer → JobHandle) (p : Pointer) (h : JobHandle)
    → h.continuation ≡ (jobs p).continuation
    → (q : Pointer) → (put jobs p h q).continuation ≡ (jobs q).continuation
put_continuation jobs p h e q = elim (pointer_cases p q) [
  | inl same ↦
      subst (λ k. (put jobs p h k).continuation ≡ (jobs k).continuation) same
        (ap (λ k. k.continuation) (put_at jobs p h) ∙ e)
  | inr ne ↦ ap (λ k. k.continuation) (put_off jobs p h q ne)
]

module _ (s : Shared) where
  -- The scheduler stays as it is.
  beside :
      (pc pc' : WorkerPc) (s' : Shared)
      → IsBefore pc'
      → lowers pc ≡ 0
      → s'.base.sche ≡ s.base.sche
      → ((q : Pointer) → (s'.base.jobs q).continuation ≡ (s.base.jobs q).continuation)
      → Effect pc s pc' s'
  beside pc pc' s' before none_ sche next = record {
    active = rw sche (omega (arith, none_));
    epoch = rw sche (omega arith);
    epoch_next = rw sche (omega arith);
    arena = ap (λ x. x.job_arena) sche;
    accepting = λ e. ap (λ x. x.accepting_jobs) sche ∙ e;
    next = next;
    before = before;
  }

  received-Effect :
      (queue : List Pointer) → Effect receive s (received queue s).0 (received queue s).1
  received-Effect [] = elim (Bool-cases (is_closed s.base.state)) [
    | inl e ↦ rw e (beside _ _ s tt refl refl (λ q. refl))
    | inr e ↦ rw e (beside _ _ s tt refl refl (λ q. refl))
  ]
  received-Effect (p ∷ queue) = elim (Bool-cases (is_closed s.base.state && s.late s.taken)) [
    | inl e ↦ rw e (beside _ _ (received (p ∷ queue) s).1 tt refl refl (λ q. refl))
    | inr e ↦ rw e (beside _ _ (received (p ∷ queue) s).1 tt refl refl (λ q. refl))
  ]

  lowered-Effect :
      (p : Pointer) (pc pc' : WorkerPc)
      → IsBefore pc'
      → lowers pc ≡ 0
      → Effect pc s pc' (lowered p s)
  lowered-Effect p pc pc' before none_ =
      beside pc pc' (lowered p s) before none_ refl (put_continuation s.base.jobs p _ refl)

  -- The loop of the reset goes on.
  reset-Effect :
      (pc : ResetPc)
      → IsBefore (reset pc)
      → s.base.sche.active_jobs ≢ 0
      → Effect (reset pc) s (set_worker (reset pc) s).0 (set_worker (reset pc) s).1
  unfolding set_worker reset_step
  reset-Effect ResetPc.start before busy = record {
    active = omega arith;
    epoch = omega arith;
    epoch_next = omega arith;
    arena = refl;
    accepting = λ e. refl;
    next = λ q. refl;
    before = tt;
  }
  reset-Effect ResetPc.wait before busy =
      rw (ne→== _ _ busy) (beside _ _ s tt refl refl (λ q. refl))
  reset-Effect ResetPc.reset_arena before busy = absurd before
  reset-Effect ResetPc.zero_epoch before busy = absurd before
  reset-Effect ResetPc.accept before busy = absurd before
  reset-Effect ResetPc.returned before busy = beside _ _ s tt refl refl (λ q. refl)

  pub set_worker-Effect :
      (pc : WorkerPc)
      → IsBefore pc
      → s.base.sche.active_jobs ≢ 0
      → s.base.sche.active_jobs < 2 ^ 64
      → s.base.sche.jobs_completed_epoch + 1 < 2 ^ 64
      → Effect pc s (set_worker pc s).0 (set_worker pc s).1
  unfolding set_worker
  set_worker-Effect receive before busy few small = received-Effect s.base.queue
  set_worker-Effect (load k) before busy few small =
      elim (Bool-cases ((s.base.jobs k).unfinished == 1)) [
        | inl e ↦ rw e (beside _ _ s tt refl refl (λ q. refl))
        | inr e ↦ rw e (beside _ _ s tt refl refl (λ q. refl))
      ]
  set_worker-Effect (run_job k) before busy few small = beside _ _ _ tt refl refl (λ q. refl)
  set_worker-Effect (count k) before busy few small = record {
    active = omega arith;
    epoch = omega (arith, small);
    epoch_next = omega arith;
    arena = refl;
    accepting = λ e. e;
    next = λ q. refl;
    before = tt;
  }
  set_worker-Effect (lower k) before busy few small = lowered-Effect k _ _ tt refl
  set_worker-Effect (follow k) before busy few small =
      elim (Option-cases (s.base.jobs k).continuation) [
        | inl e ↦ rw e (beside _ _ s tt refl refl (λ q. refl))
        | inr (k', e) ↦ rw e (beside _ _ s tt refl refl (λ q. refl))
      ]
  set_worker-Effect (lower_next k) before busy few small = lowered-Effect k _ _ tt refl
  set_worker-Effect (schedule k) before busy few small =
      elim (Bool-cases ((s.base.jobs k).unfinished == 0)) [
        | inl e ↦ rw e (beside _ _ s tt refl refl (λ q. refl))
        | inr e ↦ rw e (beside _ _ s tt refl refl (λ q. refl))
      ]
  set_worker-Effect (send k) before busy few small = elim (Bool-cases (is_closed s.base.state)) [
    | inl e ↦ rw e (beside _ _ s tt refl refl (λ q. refl))
    | inr e ↦ rw e (beside _ _ _ tt refl refl (λ q. refl))
  ]
  set_worker-Effect check before busy few small =
      elim (Bool-cases (ltb (max_jobs - 20) s.base.sche.jobs_completed_epoch)) [
        | inl e ↦ rw e (beside _ _ s tt refl refl (λ q. refl))
        | inr e ↦ rw e (beside _ _ s tt refl refl (λ q. refl))
      ]
  set_worker-Effect (reset pc) before busy few small = reset-Effect pc before busy
  set_worker-Effect finish before busy few small = record {
    active = omega (arith, busy, few);
    epoch = omega arith;
    epoch_next = omega arith;
    arena = refl;
    accepting = λ e. e;
    next = λ q. refl;
    before = tt;
  }
  set_worker-Effect test before busy few small = elim (Bool-cases (is_closed s.base.state)) [
    | inl e ↦ rw e (beside _ _ s tt refl refl (λ q. refl))
    | inr e ↦ rw e (beside _ _ s tt refl refl (λ q. refl))
  ]
  set_worker-Effect leave_sender before busy few small = beside _ _ _ tt refl refl (λ q. refl)
  set_worker-Effect leave_receiver before busy few small = beside _ _ _ tt refl refl (λ q. refl)
  set_worker-Effect exited before busy few small = beside _ _ s tt refl refl (λ q. refl)
