-- ===== src/JobSystem/EndTests.antt =====
-- The shutdown of a job system of two threads.
use seakcutils.Base.{
  ℕ, false, replicate, true, done, ℕ_discrete, false, ◌≡◌, ◌≢◌, ◌≤◌, ◌+◌, ◌*◌, ◌⊎◌, none, some,
  List, [], ◌∷◌, refl, arith,
}
use seakcutils.Channel.{opened}
use seakcutils.RegionArena.{
  Memory, r_arena_create, new_region, RegionArena, r_arena_free, free_loop,
}
use seakcutils.Mpmc.{ChannelMpmc, channel_create_mpmc, mpmc_get_sender, mpmc_get_receiver}
use seakcutils.ThreadPool.{take_sender, take_receiver}
use seakcutils.JobSystem.{System, Pointer, Scheduler, job_scheduler_spawn}
use seakcutils.JobSystem.Start.{new_ring, start_workers, threadpool_init_for_scheduler}
use seakcutils.JobSystem.Stops.{started, job_system_stops}
use seakcutils.JobSystem.Worker.{
  WorkerPc, load, test, run_job, exited, Crew, receive, set_worker, step,
}
use seakcutils.JobSystem.Shutdown.{
  is_exited, Event, worker, shutdown, close_channel, close_dispatcher, happen, run, Effective,
  job_scheduler_shutdown,
}
use seakcutils.JobSystem.Ends.{Returned, job_scheduler_shutdown_returns}

abbrev half_full : RegionArena {0} Unit
half_full = record {
  elem_size = 32;
  rg_capacity = 4;
  rgs_in_use = 1;
  count = 3;
  max_rgs = 1;
  current_epoch = 0;
  regions_handler =
      some (some (record { data_elems = some (tt ∷ tt ∷ tt ∷ tt ∷ []); epoch = 0 }) ∷ []);
}

-- One job is in the queue.
abbrev one : System
one = record {
  sche = record {
    accepting_jobs = 1;
    active_jobs = 1;
    jobs_completed_epoch = 0;
    job_arena = half_full;
  };
  jobs = λ p. record { job = p.1; ctx = 7; unfinished = 1; continuation = none };
  queue = (0, 2) ∷ [];
  state = opened;
  ran = [];
}

abbrev emptied : RegionArena {0} Unit
emptied = record half_full { rg_capacity = 0; count = 0; regions_handler = none }

abbrev closing : Crew
closing = record {
  shared = record { base = one; prod_cont = 2; cons_cont = 2; taken = 0; late = λ t. false };
  workers = λ i. receive;
}

abbrev four : List Event
four = worker 1 ∷ worker 1 ∷ worker 1 ∷ worker 0 ∷ []

not_exited : (pc : WorkerPc) → is_exited pc ≡ false → pc ≢ exited
not_exited pc e same = cc

job_scheduler_shutdown_returns_example :
    (4 ≤ 14 * 2 + 10 * 1 + 5)
    × (Returned 2 emptied
          (run 2 four (happen 2 shutdown (record { crew = closing; shutdown = close_channel })))
        ⊎ ((e : Event) × Effective 2 e (
              run 2 four
                (happen 2 shutdown (record { crew = closing; shutdown = close_channel })))))
unfolding r_arena_free free_loop happen job_scheduler_shutdown step set_worker ℕ_discrete
job_scheduler_shutdown_returns_example =
    job_scheduler_shutdown_returns 2 {freed = emptied} closing four (λ j. tt) refl refl
      (omega arith, omega arith) (omega arith) refl
      (
        (omega arith, not_exited receive refl),
        (
          (omega arith, not_exited (load (0, 2)) refl),
          (
            (omega arith, not_exited (run_job (0, 2)) refl),
            ((omega arith, not_exited receive refl), tt),
          ),
        ),
      )

abbrev memory : Memory {0} Unit
memory = record {
  calloc_handler = λ n. true;
  malloc_region = λ j. true;
  calloc_data = λ j. true;
  zeroed = tt;
}

abbrev spawned : Scheduler
spawned = record {
  accepting_jobs = 1;
  active_jobs = 0;
  jobs_completed_epoch = 0;
  job_arena = record {
    elem_size = 32;
    rg_capacity = 4096;
    rgs_in_use = 1;
    count = 0;
    max_rgs = 1024;
    current_epoch = 0;
    regions_handler =
        some (
          some (record { data_elems = some (replicate 4096 tt); epoch = 0 }) ∷ replicate 1023 none);
  };
}

abbrev channel : ChannelMpmc Pointer
channel = record { ring = new_ring; elem_size = 8; prod_cont = 3; cons_cont = 2 }

-- Both threads have left their loop.
abbrev leaving : List Event
leaving = worker 1 ∷ worker 0 ∷ worker 1 ∷ worker 0 ∷ []

job_system_stops_example :
    (4 ≤ 14 * 2 + 5)
    × (freed : RegionArena {0} Unit) × (regions : List ℕ) × (r_arena_free (some spawned.job_arena)
        ≡ done (some freed, regions))
    × (Returned 2 freed (
          run 2 leaving (
            run 2
              (shutdown ∷ shutdown ∷ [])
              (record { crew = started spawned channel one.jobs; shutdown = close_dispatcher })))
        ⊎ ((e : Event) × Effective 2 e (
              run 2 leaving (
                run 2 (shutdown ∷ shutdown ∷ []) (record {
                  crew = started spawned channel one.jobs;
                  shutdown = close_dispatcher;
                })))))
unfolding run happen job_scheduler_shutdown step set_worker ℕ_discrete job_scheduler_spawn
    r_arena_create new_region threadpool_init_for_scheduler start_workers take_sender take_receiver
    channel_create_mpmc mpmc_get_sender mpmc_get_receiver
job_system_stops_example =
    job_system_stops memory 2 one.jobs leaving {sche = spawned} {chan = channel} (λ j. (refl, refl))
      refl (omega arith) refl refl
      (
        (omega arith, not_exited receive refl),
        (
          (omega arith, not_exited receive refl),
          ((omega arith, not_exited test refl), ((omega arith, not_exited test refl), tt)),
        ),
      )
