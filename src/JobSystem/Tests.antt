-- ===== src/JobSystem/Tests.antt =====
-- Chains of jobs, a job that follows two others, and a reset beside one other job.
use seakcutils.Base.{false, ℕ, ◌≡◌, ◌≢◌, refl, ap, none, some, [], ◌∷◌, arith, done}
use seakcutils.Channel.{opened}
use seakcutils.RegionArena.{RegionArena}
use seakcutils.JobSystem.{Pointer, System, job_then, job_chain_arr, worker_turns}
use seakcutils.JobSystem.Worker.{test, receive, steps}
use seakcutils.JobSystem.Twice.{alternate, job_then_runs_twice}
use seakcutils.JobSystem.InOrder.{RunsSome, job_chain_in_order}
use seakcutils.JobSystem.Order.{RanChain, job_chain_arr_runs}

abbrev half_full : RegionArena {0} Unit
half_full = record {
  elem_size = 32;
  rg_capacity = 4;
  rgs_in_use = 1;
  count = 3;
  max_rgs = 1;
  current_epoch = 0;
  regions_handler =
      some (some (record { data_elems = some (tt ∷ tt ∷ tt ∷ tt ∷ []); epoch = 0 }) ∷ []);
}

-- Three jobs have been spawned.
abbrev three : System
three = record {
  sche = record {
    accepting_jobs = 1;
    active_jobs = 3;
    jobs_completed_epoch = 0;
    job_arena = half_full;
  };
  jobs = λ p. record { job = p.1; ctx = 7; unfinished = 1; continuation = none };
  queue = [];
  state = opened;
  ran = [];
}

apart : (i j : ℕ) → i ≢ j → ◌≢◌ {A = Pointer} (0, i) (0, j)
apart i j ne e = ne (ap (λ p. p.1) e)

job_chain_arr_runs_example :
    (s1 s' : System) × (job_chain_arr ((0, 2) ∷ (0, 0) ∷ (0, 1) ∷ []) three ≡ done s1)
    × (worker_turns 3 (some s1) ≡ some s')
    × RanChain (0, 2) ((0, 0) ∷ (0, 1) ∷ []) three s'
job_chain_arr_runs_example =
    job_chain_arr_runs (0, 2) ((0, 0) ∷ (0, 1) ∷ []) three
      (
        (apart 2 0 (λ e. omega (arith, e)), (apart 2 1 (λ e. omega (arith, e)), tt)),
        ((apart 0 1 (λ e. omega (arith, e)), tt), (tt, tt)),
      )
      (refl, refl, (refl, refl, (refl, refl, tt))) refl refl (omega arith) (omega arith)
      (omega arith)

-- Two threads make nine steps beside a chain of two jobs.
job_chain_in_order_example :
    (s1 : System) × (job_chain_arr ((0, 2) ∷ (0, 0) ∷ []) three ≡ done s1)
    × RunsSome ((2, 7) ∷ (0, 7) ∷ []) (
        steps (1 ∷ 0 ∷ 1 ∷ 0 ∷ 0 ∷ 0 ∷ 0 ∷ 0 ∷ 0 ∷ []) (record {
          shared = record { base = s1; prod_cont = 3; cons_cont = 2; taken = 0; late = λ t. false };
          workers = λ i. test;
        }))
job_chain_in_order_example =
    job_chain_in_order (0, 2) ((0, 0) ∷ [])
      (record { base = three; prod_cont = 3; cons_cont = 2; taken = 0; late = λ t. false })
      (λ i. test) (1 ∷ 0 ∷ 1 ∷ 0 ∷ 0 ∷ 0 ∷ 0 ∷ 0 ∷ 0 ∷ [])
      ((apart 2 0 (λ e. omega (arith, e)), tt), (tt, tt)) (refl, refl, (refl, refl, tt)) refl refl
      (λ j. tt)

job_then_runs_twice_example :
    (steps (alternate 13 0 1) (record {
      shared = record {
        base = job_then (0, 1) (0, 2) (job_then (0, 0) (0, 2) three);
        prod_cont = 3;
        cons_cont = 2;
        taken = 0;
        late = λ t. false;
      };
      workers = λ i. receive;
    })).shared.base.ran
    ≡ (0, 7) ∷ (1, 7) ∷ (2, 7) ∷ (2, 7) ∷ []
job_then_runs_twice_example =
    job_then_runs_twice (0, 0) (0, 1) (0, 2)
      (record { base = three; prod_cont = 3; cons_cont = 2; taken = 0; late = λ t. false }) 0 1
      (λ i. receive)
      (
        (apart 0 1 (λ e. omega (arith, e)), (apart 0 2 (λ e. omega (arith, e)), tt)),
        ((apart 1 2 (λ e. omega (arith, e)), tt), (tt, tt)),
      )
      (refl, refl, (refl, refl, (refl, refl, tt))) refl refl (λ e. omega (arith, e)) refl refl
