-- ===== src/JobSystem/Budget.antt =====
-- job_system/jobsystem.h: what a thread still does once the channel is closed.
use seakcutils.Base.{
  suc, ◌⊎◌, inl, inr, ℕ, ◌+◌, ◌*◌, ◌-◌, ◌^◌, ◌≤◌, ◌<◌, ◌≡◌, ◌≢◌, ◌∙◌, refl, ap, List, [], ◌∷◌,
  length, inl, inr, Bool-cases, arith, ltb, le→ltb, ◌==◌, false, true, Option-cases,
}
use seakcutils.Channel.{closed, is_closed}
use seakcutils.JobSystem.{Pointer, max_jobs}
use seakcutils.JobSystem.Worker.{
  WorkerPc, Shared, receive, load, run_job, count, lower, follow, lower_next, schedule, send, check,
  reset, finish, test, leave_sender, leave_receiver, exited, set_worker, received,
}

-- How many steps a thread makes at most before it receives again, and from there to its end.
abbrev pub left : WorkerPc → ℕ
left (load p) = 13
left (run_job p) = 12
left (count p) = 11
left (lower p) = 10
left (follow p) = 9
left (lower_next p) = 8
left (schedule p) = 7
left (send p) = 6
left check = 6
left finish = 5
left receive = 4
left test = 3
left leave_sender = 2
left leave_receiver = 1
left _ = 0

pub left_bound : (pc : WorkerPc) → left pc ≤ 13
left_bound receive = omega arith
left_bound (load p) = omega arith
left_bound (run_job p) = omega arith
left_bound (count p) = omega arith
left_bound (lower p) = omega arith
left_bound (follow p) = omega arith
left_bound (lower_next p) = omega arith
left_bound (schedule p) = omega arith
left_bound (send p) = omega arith
left_bound check = omega arith
left_bound (reset pc) = omega arith
left_bound finish = omega arith
left_bound test = omega arith
left_bound leave_sender = omega arith
left_bound leave_receiver = omega arith
left_bound exited = omega arith

-- The handles of the channel that a thread has not closed yet.
abbrev pub senders : WorkerPc → ℕ
senders leave_receiver = 0
senders exited = 0
senders _ = 1

abbrev pub receivers : WorkerPc → ℕ
receivers exited = 0
receivers _ = 1

abbrev pub IsOut : WorkerPc → Type 0
IsOut (reset pc) = ⊥
IsOut _ = Unit

-- A step of a thread that has not ended, on a closed channel.
pub record Step (pc : WorkerPc) (s : Shared) (pc' : WorkerPc) (s' : Shared) : Type 0 where
  pub out : IsOut pc'
  pub state : s'.base.state ≡ closed
  pub arena : s'.base.sche.job_arena ≡ s.base.sche.job_arena
  pub less : left pc' + 10 * length s'.base.queue + 1 ≤ left pc + 10 * length s.base.queue
  pub epoch : s'.base.sche.jobs_completed_epoch ≤ s.base.sche.jobs_completed_epoch + 1
  pub fewer : (s'.prod_cont ≤ s.prod_cont) × (s'.cons_cont ≤ s.cons_cont)
  pub prods : s'.prod_cont + senders pc ≡ s.prod_cont + senders pc'
  pub conss : s'.cons_cont + receivers pc ≡ s.cons_cont + receivers pc'

-- No job is added, and the epoch grows by one at most.
module _ (s : Shared) (state : s.base.state ≡ closed) where
  simple :
      (pc pc' : WorkerPc) (s' : Shared)
      → IsOut pc'
      → s'.base.state ≡ s.base.state
      → s'.base.sche.job_arena ≡ s.base.sche.job_arena
      → s'.base.queue ≡ s.base.queue
      → left pc' + 1 ≤ left pc
      → s'.base.sche.jobs_completed_epoch ≤ s.base.sche.jobs_completed_epoch + 1
      → (s'.prod_cont ≡ s.prod_cont) × (senders pc' ≡ senders pc)
      → (s'.cons_cont ≡ s.cons_cont) × (receivers pc' ≡ receivers pc)
      → Step pc s pc' s'
  simple pc pc' s' out same arena queue less epoch (p, p') (c, c') = record {
    out = out;
    state = same ∙ state;
    arena = arena;
    less = rw queue (omega (arith, less));
    epoch = epoch;
    fewer = (omega (arith, p), omega (arith, c));
    prods = omega (arith, p, p');
    conss = omega (arith, c, c');
  }

  shut : is_closed s.base.state ≡ true
  shut = ap is_closed state

  -- A job was taken out of the queue.
  shorter :
      (p : Pointer) (queue : List Pointer)
      → s.base.queue ≡ p ∷ queue
      → (to : WorkerPc) → IsOut to
      → left to ≤ 13
      → (senders to ≡ 1) × (receivers to ≡ 1)
      → Step receive s to (record s { base = record s.base { queue = queue }; taken = suc s.taken })
  shorter p queue e to out le (one, one') = record {
    out = out;
    state = state;
    arena = refl;
    less = rw e (omega (arith, le));
    epoch = omega arith;
    fewer = (omega arith, omega arith);
    prods = omega (arith, one);
    conss = omega (arith, one');
  }

  receives_all :
      (queue : List Pointer)
      → s.base.queue ≡ queue
      → Step receive s (received queue s).0 (received queue s).1
  receives_all [] e = rw shut (
      simple receive test s tt refl refl refl (omega arith) (omega arith) (refl, refl) (refl, refl))
  receives_all (p ∷ queue) e = elim (Bool-cases (s.late s.taken)) [
    | inl late ↦ rw (shut, late) (shorter p queue e test tt (omega arith) (refl, refl))
    | inr early ↦ rw (shut, early) (shorter p queue e (load p) tt (omega arith) (refl, refl))
  ]

  pub set_worker-Step :
      (pc : WorkerPc)
      → IsOut pc
      → pc ≢ exited
      → s.base.sche.jobs_completed_epoch ≤ max_jobs - 20
      → senders pc ≤ s.prod_cont
      → s.prod_cont < 2 ^ 64
      → receivers pc ≤ s.cons_cont
      → s.cons_cont < 2 ^ 64
      → Step pc s (set_worker pc s).0 (set_worker pc s).1
  unfolding set_worker
  set_worker-Step receive out ne few p p' c c' = receives_all s.base.queue refl
  set_worker-Step (load k) out ne few p p' c c' =
      elim (Bool-cases ((s.base.jobs k).unfinished == 1)) [
        | inl e ↦
            rw e
              (simple _ _ _ tt refl refl refl (omega arith) (omega arith) (refl, refl) (refl, refl))
        | inr e ↦
            rw e
              (simple _ _ _ tt refl refl refl (omega arith) (omega arith) (refl, refl) (refl, refl))
      ]
  set_worker-Step (run_job k) out ne few p p' c c' =
      (simple _ _ _ tt refl refl refl (omega arith) (omega arith) (refl, refl) (refl, refl))
  set_worker-Step (count k) out ne few p p' c c' =
      (simple _ _ _ tt refl refl refl (omega arith) (omega arith) (refl, refl) (refl, refl))
  set_worker-Step (lower k) out ne few p p' c c' =
      (simple _ _ _ tt refl refl refl (omega arith) (omega arith) (refl, refl) (refl, refl))
  set_worker-Step (follow k) out ne few p p' c c' =
      elim (Option-cases (s.base.jobs k).continuation) [
        | inl e ↦
            rw e
              (simple _ _ _ tt refl refl refl (omega arith) (omega arith) (refl, refl) (refl, refl))
        | inr (next, e) ↦
            rw e
              (simple _ _ _ tt refl refl refl (omega arith) (omega arith) (refl, refl) (refl, refl))
      ]
  set_worker-Step (lower_next k) out ne few p p' c c' =
      (simple _ _ _ tt refl refl refl (omega arith) (omega arith) (refl, refl) (refl, refl))
  set_worker-Step (schedule k) out ne few p p' c c' =
      elim (Bool-cases ((s.base.jobs k).unfinished == 0)) [
        | inl e ↦
            rw e
              (simple _ _ _ tt refl refl refl (omega arith) (omega arith) (refl, refl) (refl, refl))
        | inr e ↦
            rw e
              (simple _ _ _ tt refl refl refl (omega arith) (omega arith) (refl, refl) (refl, refl))
      ]
  set_worker-Step (send k) out ne few p p' c c' =
      rw shut (simple _ _ _ tt refl refl refl (omega arith) (omega arith) (refl, refl) (refl, refl))
  set_worker-Step check out ne few p p' c c' =
      let healthy : ltb (max_jobs - 20) s.base.sche.jobs_completed_epoch ≡ false = le→ltb _ _ few in
      rw healthy
        (simple _ _ _ tt refl refl refl (omega arith) (omega arith) (refl, refl) (refl, refl))
  set_worker-Step (reset pc) out ne few p p' c c' = absurd out
  set_worker-Step finish out ne few p p' c c' =
      (simple _ _ _ tt refl refl refl (omega arith) (omega arith) (refl, refl) (refl, refl))
  set_worker-Step test out ne few p p' c c' =
      rw shut (simple _ _ _ tt refl refl refl (omega arith) (omega arith) (refl, refl) (refl, refl))
  set_worker-Step leave_sender out ne few p p' c c' = record {
    out = tt;
    state = state;
    arena = refl;
    less = omega arith;
    epoch = omega arith;
    fewer = (omega (arith, p, p'), omega arith);
    prods = omega (arith, p, p');
    conss = refl;
  }
  set_worker-Step leave_receiver out ne few p p' c c' = record {
    out = tt;
    state = state;
    arena = refl;
    less = omega arith;
    epoch = omega arith;
    fewer = (omega arith, omega (arith, c, c'));
    prods = refl;
    conss = omega (arith, c, c');
  }
  set_worker-Step exited out ne few p p' c c' = absurd (ne refl)

pub exited_cases : (pc : WorkerPc) → (pc ≡ exited) ⊎ (pc ≢ exited)
exited_cases exited = inl refl
exited_cases receive = inr (λ e. cc)
exited_cases (load p) = inr (λ e. cc)
exited_cases (run_job p) = inr (λ e. cc)
exited_cases (count p) = inr (λ e. cc)
exited_cases (lower p) = inr (λ e. cc)
exited_cases (follow p) = inr (λ e. cc)
exited_cases (lower_next p) = inr (λ e. cc)
exited_cases (schedule p) = inr (λ e. cc)
exited_cases (send p) = inr (λ e. cc)
exited_cases check = inr (λ e. cc)
exited_cases (reset pc) = inr (λ e. cc)
exited_cases finish = inr (λ e. cc)
exited_cases test = inr (λ e. cc)
exited_cases leave_sender = inr (λ e. cc)
exited_cases leave_receiver = inr (λ e. cc)
