-- ===== src/JobSystem.antt =====
-- job_system/jobsystem.h: jobs with continuations, which the threads of a pool run.
-- A call, and a worker's turn with one job, are one step here, and run alone; JobSystem.Worker has the
-- turn in single steps beside the other threads. The channel of the pool is taken to be a queue of the
-- pointers sent and not yet received, to which a send adds unless the channel is closed; it has a slot
-- for each place of the arena, and that it might be full is left out. The arena gives the places of
-- the handles, and what stands in them is beside it; a handle is not used after the reset of its arena.
pub mod Links
pub mod Chains
pub mod Order
pub mod Reset
pub mod Worker
pub mod Effects
pub mod Token
pub mod Threads
pub mod InOrder
pub mod Fan
pub mod Twice
pub mod Sums
pub mod Budget
pub mod Shutdown
pub mod Closing
pub mod Ends
pub mod Start
pub mod Stops
mod Tests
mod EndTests
mod ResetTests
use mathlib.Core.Logic.{ite}
use seakcutils.Base.{
  ℕ, ◌*◌, ◌-◌, Option, none, some, List, [], ◌∷◌, ◌++◌, Run, done, fault, ◌>>=◌, expect, add_size,
  sub_size, ◌==◌, ltb, if◌then◌else◌, ℕ_discrete,
}
use seakcutils.Channel.{ChanState, is_closed}
use seakcutils.RegionArena.{RegionArena, Memory, r_arena_create, r_arena_alloc, r_arena_reset}

-- JOB_SCHEDULER_REGION_CAPACITY, JOB_SCHEDULER_MAX_REGIONS and JOB_SCHEDULER_MAX_JOBS
abbrev pub region_capacity : ℕ
region_capacity = 4096

abbrev pub max_regions : ℕ
max_regions = 1024

abbrev pub max_jobs : ℕ
max_jobs = region_capacity * max_regions

abbrev pub Pointer : Type 0
Pointer = ℕ × ℕ

pub record JobHandle : Type 0 where
  pub job : ℕ
  pub ctx : ℕ
  pub unfinished : ℕ
  pub continuation : Option Pointer

pub record Scheduler : Type 0 where
  pub accepting_jobs : ℕ
  pub active_jobs : ℕ
  pub jobs_completed_epoch : ℕ
  pub job_arena : RegionArena {0} Unit

-- The scheduler, the handles, the channel, and the jobs that were run with their arguments, in order.
pub record System : Type 0 where
  pub sche : Scheduler
  pub jobs : Pointer → JobHandle
  pub queue : List Pointer
  pub state : ChanState
  pub ran : List (ℕ × ℕ)

abbrev pub put : (Pointer → JobHandle) → Pointer → JobHandle → Pointer → JobHandle
put jobs p h q = ite (ℕ_discrete p.0 q.0) (ite (ℕ_discrete p.1 q.1) h (jobs q)) (jobs q)

unfoldable pub job_scheduler_spawn : Memory {0} Unit → Run Scheduler
unfolding r_arena_create
job_scheduler_spawn memory = do
  arena ← r_arena_create memory 32 region_capacity max_regions
  done (record { accepting_jobs = 1; active_jobs = 0; jobs_completed_epoch = 0; job_arena = arena })

-- `none` while the call waits until jobs are accepted.
unfoldable pub job_spawn : Memory {0} Unit → ℕ → ℕ → System → Run (Option (Option Pointer × System))
unfolding r_arena_alloc
job_spawn memory fn ctx s =
    let active = record s.sche { active_jobs = add_size s.sche.active_jobs 1 } in
    if s.sche.accepting_jobs == 1
    then (do
      (pointer, after) ← r_arena_alloc memory (some active.job_arena)
      arena ← expect after
      let sche = record active { job_arena = arena }
      done (
          some (elim pointer [
            | none ↦ (
              none,
              record s { sche = record sche { active_jobs = sub_size sche.active_jobs 1 } },
            )
            | some p ↦ (
              some p,
              record s {
                sche = sche;
                jobs =
                    put s.jobs p
                      (record { job = fn; ctx = ctx; unfinished = 1; continuation = none });
              },
            )
          ])))
    else done none

unfoldable pub threadpool_schedule : Pointer → System → System
threadpool_schedule p s =
    if (s.jobs p).unfinished == 0
    then s
    else if is_closed s.state
    then s
    else record s { queue = s.queue ++ p ∷ [] }

-- `then` is to follow `first`.
unfoldable pub link : Pointer → Pointer → System → System
link first then_ s =
    let linked = put s.jobs first (record (s.jobs first) { continuation = some then_ }) in
    record s {
      jobs =
          put linked then_
            (record (linked then_) { unfinished = add_size (linked then_).unfinished 1 });
    }

unfoldable pub job_then : Pointer → Pointer → System → System
unfolding link threadpool_schedule
job_then first then_ s = threadpool_schedule first (link first then_ s)

-- The loop of `job_chain` after the first job.
unfoldable pub link_all : Pointer → List Pointer → System → System
unfolding link
link_all prev_job [] s = s
link_all prev_job (job ∷ list) s = link_all job list (link prev_job job s)

-- Without a job, the pointer that is scheduled is not initialised.
unfoldable pub job_chain_arr : List Pointer → System → Run System
unfolding link_all threadpool_schedule
job_chain_arr [] s = fault
job_chain_arr (job ∷ list) s = done (threadpool_schedule job (link_all job list s))

-- The variadic arguments are the list.
abbrev pub job_chain : List Pointer → System → Run System
job_chain = job_chain_arr

abbrev pub job_wait : Pointer → System → System
job_wait = threadpool_schedule

-- `none` while it waits for the active jobs; no job is accepted then.
unfoldable pub job_scheduler_reset : Scheduler → Option Scheduler
unfolding r_arena_reset
job_scheduler_reset sche =
    if sche.active_jobs == 0
    then some (record sche {
      job_arena = r_arena_reset sche.job_arena;
      jobs_completed_epoch = 0;
      accepting_jobs = 1;
    })
    else none

-- Where a call of `_job_scheduler_reset` stands, and one step of it.
pub data ResetPc : Type 0 where
  start : ResetPc  -- before no job is accepted
  wait : ResetPc  -- before the load of the active jobs
  reset_arena : ResetPc
  zero_epoch : ResetPc
  accept : ResetPc
  returned : ResetPc

unfoldable pub reset_step : ResetPc → Scheduler → ResetPc × Scheduler
unfolding r_arena_reset
reset_step ResetPc.start sche = (ResetPc.wait, record sche { accepting_jobs = 0 })
reset_step ResetPc.wait sche =
    (if sche.active_jobs == 0 then ResetPc.reset_arena else ResetPc.wait, sche)
reset_step ResetPc.reset_arena sche =
    (ResetPc.zero_epoch, record sche { job_arena = r_arena_reset sche.job_arena })
reset_step ResetPc.zero_epoch sche = (ResetPc.accept, record sche { jobs_completed_epoch = 0 })
reset_step ResetPc.accept sche = (ResetPc.returned, record sche { accepting_jobs = 1 })
reset_step ResetPc.returned sche = (ResetPc.returned, sche)

unfoldable pub job_scheduler_healthcheck : Scheduler → Option Scheduler
unfolding job_scheduler_reset
job_scheduler_healthcheck sche =
    if ltb (max_jobs - 20) sche.jobs_completed_epoch then job_scheduler_reset sche else some sche

abbrev pub checked : Option Scheduler → System → Option System
checked none s = none
checked (some sche) s = some (record s { sche = sche })

-- After the job: its continuation, if it has one, has one less to wait for and is scheduled.
unfoldable pub continues : Option Pointer → System → Option System
continues none s = checked (job_scheduler_healthcheck s.sche) s
continues (some k) s =
    let h = record (s.jobs k) { unfinished = sub_size (s.jobs k).unfinished 1 } in
    some (threadpool_schedule k (record s { jobs = put s.jobs k h }))

-- The job is called and counted.
unfoldable pub runs : Pointer → System → System
runs p s =
    let h = s.jobs p in
    record s {
      ran = s.ran ++ (h.job, h.ctx) ∷ [];
      sche = record s.sche { jobs_completed_epoch = add_size s.sche.jobs_completed_epoch 1 };
      jobs = put s.jobs p (record h { unfinished = sub_size h.unfinished 1 });
    }

-- Once the turn is over, one job less is active.
abbrev pub finish : System → System
finish s = record s { sche = record s.sche { active_jobs = sub_size s.sche.active_jobs 1 } }

abbrev pub finished : Option System → Option System
finished none = none
finished (some s) = some (finish s)

-- A worker's turn with the job that it has received, `none` while it waits in the reset.
unfoldable pub work : Pointer → System → Option System
unfolding runs continues
work p s =
    if (s.jobs p).unfinished == 1
    then finished (continues (s.jobs p).continuation (runs p s))
    else some s

unfoldable pub receive : List Pointer → System → Option System
unfolding work
receive [] s = none
receive (p ∷ queue) s = work p (record s { queue = queue })

-- Receives and works, `none` while there is nothing to receive or the turn does not end.
unfoldable pub worker_turn : System → Option System
unfolding receive
worker_turn s = receive s.queue s

abbrev pub next_turn : Option System → Option System
next_turn none = none
next_turn (some s) = worker_turn s

unfoldable pub worker_turns : ℕ → Option System → Option System
worker_turns ℕ.zero o = o
worker_turns (ℕ.suc n) o = worker_turns n (next_turn o)
