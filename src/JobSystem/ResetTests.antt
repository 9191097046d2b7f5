-- ===== src/JobSystem/ResetTests.antt =====
-- The reset of a job system, beside a thread that ends a job of its own.
use seakcutils.Base.{ℕ, zero, suc, refl, none, some, List, [], ◌∷◌, false, arith, ℕ_discrete}
use seakcutils.Channel.{opened}
use seakcutils.RegionArena.{RegionArena}
use seakcutils.JobSystem.{reset_step}
use seakcutils.JobSystem.Worker.{follow, finish, Crew, set_worker, step}
use seakcutils.JobSystem.Effects.{IsBefore}
use seakcutils.JobSystem.Reset.{Move, worker, spawned, withdrawn, move, play, Spins, reset-Spins}

abbrev half_full : RegionArena {0} Unit
half_full = record {
  elem_size = 32;
  rg_capacity = 4;
  rgs_in_use = 1;
  count = 3;
  max_rgs = 1;
  current_epoch = 0;
  regions_handler =
      some (some (record { data_elems = some (tt ∷ tt ∷ tt ∷ tt ∷ []); epoch = 0 }) ∷ []);
}

-- Thread 0 has run a job, and the other threads are at the end of another one.
abbrev full : Crew
full = record {
  shared = record {
    base = record {
      sche = record {
        accepting_jobs = 1;
        active_jobs = 2;
        jobs_completed_epoch = 4194285;
        job_arena = half_full;
      };
      jobs = λ p. record { job = p.1; ctx = 7; unfinished = 0; continuation = none };
      queue = [];
      state = opened;
      ran = [];
    };
    prod_cont = 3;
    cons_cont = 2;
    taken = 0;
    late = λ t. false;
  };
  workers = elim [ zero ↦ follow (0, 2) | suc j ↦ finish ];
}

before : (j : ℕ) → IsBefore (full.workers j)
before zero = tt
before (suc j) = tt

abbrev moves : List Move
moves = worker 0 ∷ worker 0 ∷ worker 1 ∷ spawned ∷ worker 0 ∷ withdrawn ∷ worker 0 ∷ worker 0 ∷ []

reset-Spins_example : Spins 0 half_full (play moves full)
unfolding move step set_worker reset_step ℕ_discrete
reset-Spins_example =
    reset-Spins moves 0 1 (0, 2) full refl refl refl (omega arith) before (omega arith)
      (omega arith)
      (
        omega arith,
        (
          omega arith,
          (omega arith, (omega arith, (omega arith, (omega arith, (omega arith, tt))))),
        ),
      )
