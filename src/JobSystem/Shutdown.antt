-- ===== src/JobSystem/Shutdown.antt =====
-- job_system/jobsystem.h: `job_scheduler_shutdown`, with `threadpool_shutdown` of
-- threadpool/threadpool.h and `mpmc_destroy` of channels/mpmc.h in steps beside the threads.
use seakcutils.Base.{
  ℕ, suc, ◌<◌, ◌≡◌, ◌≢◌, ◌⊎◌, Bool, true, false, Option, some, List, [], ◌∷◌, Run, done, sub_size,
  ◌==◌, if◌then◌else◌,
}
use seakcutils.Channel.{closed}
use seakcutils.RegionArena.{RegionArena, r_arena_free}
use seakcutils.JobSystem.Worker.{WorkerPc, Shared, exited, Crew, step}

-- Where the call stands.
pub data ClosingPc : Type 0 where
  close_dispatcher : ClosingPc
  close_channel : ClosingPc
  join : ℕ → ClosingPc
  close_again : ClosingPc  -- in `mpmc_destroy`, from here to its end
  load_cons : ClosingPc
  load_prod : (cons_cont : ℕ) → ClosingPc
  free_arena : ClosingPc
  returned : ClosingPc
  trapped : ClosingPc

abbrev pub is_exited : WorkerPc → Bool
is_exited exited = true
is_exited _ = false

abbrev pub close : Shared → Shared
close s = record s { base = record s.base { state = closed } }

-- The arena once it is free.
abbrev pub frees : Run (Option (RegionArena {0} Unit) × List ℕ) → Shared → ClosingPc × Shared
frees (done (some arena, regions)) s = (
  returned,
  record s { base = record s.base { sche = record s.base.sche { job_arena = arena } } },
)
frees _ s = (trapped, s)

-- One step of it, on a pool of `num_workers` threads.
unfoldable pub job_scheduler_shutdown : ℕ → ClosingPc → Crew → ClosingPc × Shared
unfolding r_arena_free
job_scheduler_shutdown num_workers close_dispatcher s =
    (close_channel, record s.shared { prod_cont = sub_size s.shared.prod_cont 1 })
job_scheduler_shutdown num_workers close_channel s = (join 0, close s.shared)
job_scheduler_shutdown num_workers (join x) s = (
  if x == num_workers
      then close_again
      else if is_exited (s.workers x)
      then join (suc x)
      else join x,
  s.shared,
)
job_scheduler_shutdown num_workers close_again s = (load_cons, close s.shared)
job_scheduler_shutdown num_workers load_cons s = (load_prod s.shared.cons_cont, s.shared)
job_scheduler_shutdown num_workers (load_prod cons_cont) s = (
  if cons_cont == 0 then (if s.shared.prod_cont == 0 then free_arena else load_cons) else load_cons,
  s.shared,
)
job_scheduler_shutdown num_workers free_arena s =
    frees (r_arena_free (some s.shared.base.sche.job_arena)) s.shared
job_scheduler_shutdown num_workers returned s = (returned, s.shared)
job_scheduler_shutdown num_workers trapped s = (trapped, s.shared)

pub record State : Type 0 where
  pub crew : Crew
  pub shutdown : ClosingPc

pub data Event : Type 0 where
  worker : ℕ → Event
  shutdown : Event

unfoldable pub happen : ℕ → Event → State → State
happen num_workers (worker i) s = record s { crew = step i s.crew }
happen num_workers shutdown s =
    let (pc, shared) = job_scheduler_shutdown num_workers s.shutdown s.crew in
    record { crew = record s.crew { shared = shared }; shutdown = pc }

unfoldable pub run : ℕ → List Event → State → State
run num_workers [] s = s
run num_workers (e ∷ es) s = run num_workers es (happen num_workers e s)

-- The shutdown does not wait at this step, and has not returned.
abbrev pub Advances : ℕ → ClosingPc → (ℕ → WorkerPc) → Type 0
Advances num_workers (join x) workers = (x ≡ num_workers) ⊎ (workers x ≡ exited)
Advances num_workers returned workers = ⊥
Advances num_workers trapped workers = ⊥
Advances num_workers _ workers = Unit

-- The event is a step of a thread that has not ended, or of the shutdown.
abbrev pub Effective : ℕ → Event → State → Type 0
Effective num_workers (worker i) s = (i < num_workers) × (s.crew.workers i ≢ exited)
Effective num_workers shutdown s = Advances num_workers s.shutdown s.crew.workers

abbrev pub AllEffective : ℕ → List Event → State → Type 0
AllEffective num_workers [] s = Unit
AllEffective num_workers (e ∷ es) s =
    Effective num_workers e s × AllEffective num_workers es (happen num_workers e s)
