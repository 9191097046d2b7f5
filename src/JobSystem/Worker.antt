-- ===== src/JobSystem/Worker.antt =====
-- job_system/jobsystem.h: the threads of a job system, each step of which is one access to what the
-- threads share. To receive, to send, and to run a job, is one step.
use seakcutils.Base.{
  Bool, suc, ◌&&◌, ℕ, ◌-◌, Option, none, some, List, [], ◌∷◌, ◌++◌, add_size, sub_size, ◌==◌, ltb,
  if◌then◌else◌,
}
use seakcutils.Channel.{is_closed}
use seakcutils.Mpmc.{update}
use seakcutils.JobSystem.{Pointer, System, ResetPc, put, reset_step, max_jobs}

-- Where a thread stands.
pub data WorkerPc : Type 0 where
  receive : WorkerPc  -- before the call of `mpmc_recv`
  load : Pointer → WorkerPc  -- before the load of `unfinished`
  run_job : Pointer → WorkerPc
  count : Pointer → WorkerPc  -- before the job is counted
  lower : Pointer → WorkerPc  -- before its `unfinished` is lowered
  follow : Pointer → WorkerPc  -- before the load of its continuation
  lower_next : Pointer → WorkerPc  -- before `unfinished` of the continuation is lowered
  schedule : Pointer → WorkerPc  -- in `threadpool_schedule`, before its load
  send : Pointer → WorkerPc  -- before `mpmc_send`
  check : WorkerPc  -- in `_job_scheduler_healthcheck`
  reset : ResetPc → WorkerPc
  finish : WorkerPc  -- before `active_jobs` is lowered
  test : WorkerPc  -- before `mpmc_is_closed`
  leave_sender : WorkerPc  -- before `mpmc_close_sender`
  leave_receiver : WorkerPc
  exited : WorkerPc

-- What the threads share, with the handles of the channel that are open, the elements that were taken
-- out of the queue, and, for each of them, whether the receiver with its ticket saw the slot before
-- the element was in it, and has not looked again since.
pub record Shared : Type 0 where
  pub base : System
  pub prod_cont : ℕ
  pub cons_cont : ℕ
  pub taken : ℕ
  pub late : ℕ → Bool

-- `mpmc_recv`: it waits on an empty channel until that is closed. A receiver that finds the channel
-- closed after it saw its slot empty gives up, and what was put into the slot in between is lost.
abbrev pub received : List Pointer → Shared → WorkerPc × Shared
received [] s = (if is_closed s.base.state then test else receive, s)
received (p ∷ queue) s = (
  if is_closed s.base.state && s.late s.taken then test else load p,
  record s { base = record s.base { queue = queue }; taken = suc s.taken },
)

abbrev pub followed : Option Pointer → WorkerPc
followed none = check
followed (some k) = lower_next k

abbrev pub in_reset : ResetPc × Shared → WorkerPc × Shared
in_reset (ResetPc.returned, s) = (finish, s)
in_reset (pc, s) = (reset pc, s)

abbrev pub lowered : Pointer → Shared → Shared
lowered p s =
    let h = s.base.jobs p in
    record s {
      base = record s.base {
        jobs = put s.base.jobs p (record h { unfinished = sub_size h.unfinished 1 });
      };
    }

-- One step of `__set_worker_scheduler`.
unfoldable pub set_worker : WorkerPc → Shared → WorkerPc × Shared
set_worker receive s = received s.base.queue s
set_worker (load p) s = (if (s.base.jobs p).unfinished == 1 then run_job p else receive, s)
set_worker (run_job p) s = (
  count p,
  record s {
    base = record s.base { ran = s.base.ran ++ ((s.base.jobs p).job, (s.base.jobs p).ctx) ∷ [] };
  },
)
set_worker (count p) s = (
  lower p,
  record s {
    base = record s.base {
      sche = record s.base.sche {
        jobs_completed_epoch = add_size s.base.sche.jobs_completed_epoch 1;
      };
    };
  },
)
set_worker (lower p) s = (follow p, lowered p s)
set_worker (follow p) s = (followed (s.base.jobs p).continuation, s)
set_worker (lower_next k) s = (schedule k, lowered k s)
set_worker (schedule k) s = (if (s.base.jobs k).unfinished == 0 then finish else send k, s)
set_worker (send k) s = (
  finish,
  if is_closed s.base.state
      then s
      else record s { base = record s.base { queue = s.base.queue ++ k ∷ [] } },
)
set_worker check s = (
  if ltb (max_jobs - 20) s.base.sche.jobs_completed_epoch then reset ResetPc.start else finish,
  s,
)
set_worker (reset pc) s =
    let (pc', sche) = reset_step pc s.base.sche in
    in_reset (pc', record s { base = record s.base { sche = sche } })
set_worker finish s = (
  receive,
  record s {
    base = record s.base {
      sche = record s.base.sche { active_jobs = sub_size s.base.sche.active_jobs 1 };
    };
  },
)
set_worker test s = (if is_closed s.base.state then leave_sender else receive, s)
set_worker leave_sender s = (leave_receiver, record s { prod_cont = sub_size s.prod_cont 1 })
set_worker leave_receiver s = (exited, record s { cons_cont = sub_size s.cons_cont 1 })
set_worker exited s = (exited, s)

pub record Crew : Type 0 where
  pub shared : Shared
  pub workers : ℕ → WorkerPc

-- A step of thread `i`.
unfoldable pub step : ℕ → Crew → Crew
step i s =
    let (pc, shared) = set_worker (s.workers i) s.shared in
    record { shared = shared; workers = update s.workers i pc }

unfoldable pub steps : List ℕ → Crew → Crew
steps [] s = s
steps (i ∷ is) s = steps is (step i s)
