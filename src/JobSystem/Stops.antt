-- ===== src/JobSystem/Stops.antt =====
-- job_system/jobsystem.h: a job system from its start to its end, without a job.
use mathlib.Core.Option.{some-injective}
use mathlib.Core.Path.{subst}
use seakcutils.Base.{
  false, ℕ, zero, suc, ◌+◌, ◌*◌, ◌-◌, ◌≤◌, ◌≡◌, ◌∙◌, refl, sym, ap, true, some, List, [], ◌∷◌,
  length, ◌⊎◌, arith, sub_size, done,
}
use seakcutils.Mpmc.{ChannelMpmc}
use seakcutils.RegionArena.{RegionArena, Memory, r_arena_free}
use seakcutils.RegionArena.Calls.{Allocates}
use seakcutils.RegionArena.Epochs.{r_arena_create-Represents}
use seakcutils.RegionArena.Free.{r_arena_free_lem}
use seakcutils.JobSystem.{
  Pointer, JobHandle, Scheduler, job_scheduler_spawn, region_capacity, max_regions, max_jobs,
}
use seakcutils.JobSystem.Worker.{WorkerPc, receive, Crew}
use seakcutils.JobSystem.Sums.{sum}
use seakcutils.JobSystem.Budget.{senders, receivers}
use seakcutils.JobSystem.Start.{
  threadpool_init_for_scheduler, threadpool_init_for_scheduler-Started,
}
use seakcutils.JobSystem.Shutdown.{
  close_dispatcher, job_scheduler_shutdown, Event, shutdown, happen, run, Effective, AllEffective,
}
use seakcutils.JobSystem.Ends.{job_scheduler_shutdown_returns, Returned}

-- The scheduler and the channel of its pool, when the threads are about to receive.
abbrev pub started : Scheduler → ChannelMpmc Pointer → (Pointer → JobHandle) → Crew
started sche chan jobs = record {
  shared = record {
    base = record { sche = sche; jobs = jobs; queue = []; state = chan.ring.state; ran = [] };
    prod_cont = chan.prod_cont;
    cons_cont = chan.cons_cont;
    taken = 0;
    late = λ t. false;
  };
  workers = λ i. receive;
}

sum_ones : (f : WorkerPc → ℕ) (n : ℕ) → f receive ≡ 1 → sum f n (λ i. receive) ≡ n
sum_ones f zero one = refl
sum_ones f (suc n) one = omega (arith, one, sum_ones f n one)

done_injective : {a b : Scheduler} → done a ≡ done b → a ≡ b
done_injective e = cc

-- The arena of a new scheduler can be freed.
spawned :
    (memory : Memory {0} Unit) (sche : Scheduler)
    → Allocates memory
    → memory.calloc_handler max_regions ≡ true
    → job_scheduler_spawn memory ≡ done sche
    → (sche.jobs_completed_epoch ≡ 0)
      × ((freed : RegionArena {0} Unit) × (regions : List ℕ) × (r_arena_free (some sche.job_arena)
            ≡ done (some freed, regions)))
unfolding job_scheduler_spawn
spawned memory sche given got e =
    let (arena, makes, rep, _, _, _) =
      r_arena_create-Represents memory 32 region_capacity max_regions given got (omega arith)
        (omega arith) in
    let (freed, frees, _, _, _, _, _) = r_arena_free_lem memory tt 0 rep in
    let new : Scheduler = record {
      accepting_jobs = 1;
      active_jobs = 0;
      jobs_completed_epoch = 0;
      job_arena = arena;
    } in
    let same : new ≡ sche = done_injective (rw makes at e) in
    subst
      (λ x.
        (x.jobs_completed_epoch ≡ 0)
        × ((freed : RegionArena {0} Unit) × (regions : List ℕ) × (r_arena_free (some x.job_arena)
              ≡ done (some freed, regions))))
      same (refl, (freed, _, frees))

module _ (memory : Memory {0} Unit) (n : ℕ) (jobs : Pointer → JobHandle) (es : List Event)
    {sche : Scheduler} {chan : ChannelMpmc Pointer} where
  -- Where storage is given, and 14 * n + 5 is below the limit of the epoch: a job system that has no
  -- job and whose n threads are about to receive is shut down. The first two steps of
  -- `job_scheduler_shutdown` close the dispatcher and the channel. Whatever steps of it that do not
  -- wait, and of threads that have not ended, follow in any order, they are at most 14 * n + 5. After
  -- them such a step is left, or the shutdown has returned, all threads have ended and the arena is
  -- free.
  pub job_system_stops :
      Allocates memory
      → memory.calloc_handler max_regions ≡ true
      → 14 * n + 5 ≤ max_jobs - 20
      → job_scheduler_spawn memory ≡ done sche
      → (threadpool_init_for_scheduler true n).channel ≡ some chan
      → let start =
          run n
            (shutdown ∷ shutdown ∷ [])
            (record { crew = started sche chan jobs; shutdown = close_dispatcher }) in
        AllEffective n es start
        → (length es ≤ 14 * n + 5)
          × (freed : RegionArena {0} Unit) × (regions : List ℕ) × (r_arena_free
                (some sche.job_arena)
              ≡ done (some freed, regions))
          × (Returned n freed (run n es start) ⊎ ((e : Event) × Effective n e (run n es start)))
  unfolding run happen job_scheduler_shutdown
  job_system_stops given got few e e' all =
      let (zero_, (freed, regions, frees)) = spawned memory sche given got e in
      let st = threadpool_init_for_scheduler-Started n (omega (arith, few)) in
      let same : st.chan ≡ chan = some-injective _ _ (sym st.made ∙ e') in
      let prods : chan.prod_cont ≡ n + 1 = ap (λ c. c.prod_cont) (sym same) ∙ st.senders in
      let conss : chan.cons_cont ≡ n = ap (λ c. c.cons_cont) (sym same) ∙ st.receivers in
      let first = started sche chan jobs in
      let crew : Crew = record first {
        shared = record first.shared { prod_cont = sub_size chan.prod_cont 1 };
      } in
      let (bound, over) =
        job_scheduler_shutdown_returns n {freed = freed} crew es (λ j. tt)
          (omega (arith, prods, few, sum_ones senders n refl))
          (omega (arith, conss, sum_ones receivers n refl))
          (omega (arith, prods, few), omega (arith, conss, few)) (omega (arith, zero_, few)) frees
          all in
      (omega (arith, bound), freed, regions, frees, over)
