-- ===== src/JobSystem/Token.antt =====
-- job_system/jobsystem.h: a chain of jobs is in one place at a time, the queue or one thread.
use seakcutils.Base.{
  ℕ, ◌≡◌, ◌∙◌, refl, sym, ap, List, [], ◌∷◌, ◌++◌, append_assoc, append-nil, sub_size,
}
use seakcutils.Channel.{opened}
use seakcutils.JobSystem.{Pointer, JobHandle, System}
use seakcutils.JobSystem.Links.{
  Distinct, Chained, Chained-head, calls, SameCalls, SameCalls-trans, put-SameCalls, lower-Chained,
}
use seakcutils.JobSystem.Worker.{
  WorkerPc, Shared, receive, load, run_job, count, lower, follow, lower_next, schedule, send, check,
  reset, finish, test, leave_sender, leave_receiver, exited, set_worker, lowered,
}

-- The thread has no job that is to be run, or whose continuation is to be scheduled.
abbrev pub IsIdle : WorkerPc → Type 0
IsIdle receive = Unit
IsIdle check = Unit
IsIdle (reset pc) = Unit
IsIdle finish = Unit
IsIdle test = Unit
IsIdle leave_sender = Unit
IsIdle leave_receiver = Unit
IsIdle exited = Unit
IsIdle _ = ⊥

-- What a step does not change.
abbrev pub Same : System → System → Type 0
Same s s' = (s'.jobs ≡ s.jobs) × (s'.queue ≡ s.queue) × (s'.ran ≡ s.ran) × (s'.state ≡ s.state)

module _ (first : Pointer → JobHandle) (total : List (ℕ × ℕ)) where
  -- The jobs to come, `list` last, when the chain is in a thread.
  abbrev pub Stage : (Pointer → JobHandle) → List (ℕ × ℕ) → WorkerPc → List Pointer → Type 0
  Stage jobs ran (load p) list =
      Distinct (p ∷ list) × Chained jobs 1 p list × (ran ++ calls first (p ∷ list) ≡ total)
  Stage jobs ran (run_job p) list =
      Distinct (p ∷ list) × Chained jobs 1 p list × (ran ++ calls first (p ∷ list) ≡ total)
  Stage jobs ran (count p) list =
      Distinct (p ∷ list) × Chained jobs 1 p list × (ran ++ calls first list ≡ total)
  Stage jobs ran (lower p) list =
      Distinct (p ∷ list) × Chained jobs 1 p list × (ran ++ calls first list ≡ total)
  Stage jobs ran (follow p) list =
      Distinct (p ∷ list) × Chained jobs 0 p list × (ran ++ calls first list ≡ total)
  Stage jobs ran (lower_next p) list =
      Distinct (p ∷ list) × Chained jobs 2 p list × (ran ++ calls first (p ∷ list) ≡ total)
  Stage jobs ran (schedule p) list =
      Distinct (p ∷ list) × Chained jobs 1 p list × (ran ++ calls first (p ∷ list) ≡ total)
  Stage jobs ran (send p) list =
      Distinct (p ∷ list) × Chained jobs 1 p list × (ran ++ calls first (p ∷ list) ≡ total)
  Stage jobs ran _ list = ⊥

  -- Where the chain is after a step of the thread that has it, which now stands at `pc`.
  pub data Place (s : System) (pc : WorkerPc) : Type 0 where
    holds : (list : List Pointer) → s.queue ≡ [] → Stage s.jobs s.ran pc list → Place s pc
    waits :
        (p : Pointer) (list : List Pointer)
        → IsIdle pc
        → s.queue ≡ p ∷ []
        → Stage s.jobs s.ran (load p) list
        → Place s pc
    ends : IsIdle pc → s.queue ≡ [] → s.ran ≡ total → Place s pc

  -- The calls are those of the chain, and the channel is open.
  pub record Kept (s : System) : Type 0 where
    pub same : SameCalls first s.jobs
    pub state : s.state ≡ opened

  module _ (s : Shared) (k : Kept s.base) where
    lowered-Kept : (p : Pointer) → Kept (lowered p s).base
    lowered-Kept p = record {
      same =
          SameCalls-trans first s.base.jobs (lowered p s).base.jobs k.same
            (put-SameCalls s.base.jobs p _ refl refl);
      state = k.state;
    }

    pub moves :
        (pc : WorkerPc) (list : List Pointer)
        → s.base.queue ≡ []
        → Stage s.base.jobs s.base.ran pc list
        → Kept (set_worker pc s).1.base × Place (set_worker pc s).1.base (set_worker pc s).0
    unfolding set_worker
    moves (load p) list queue (d, c, t) =
        rw (Chained-head s.base.jobs 1 p list c) (k, Place.holds list queue (d, c, t))
    moves (run_job p) list queue (d, c, t) =
        let (e, e') = k.same p in
        (
          record { same = k.same; state = k.state },
          Place.holds list queue
              (d, c, rw (e, e') (append_assoc s.base.ran _ (calls first list) ∙ t)),
        )
    moves (count p) list queue h =
        (record { same = k.same; state = k.state }, Place.holds list queue h)
    moves (lower p) list queue (d, c, t) =
        let zero_left : sub_size (s.base.jobs p).unfinished 1 ≡ 0 =
          rw (Chained-head s.base.jobs 1 p list c) refl in
        (
          lowered-Kept p,
          Place.holds list queue
              (d, lower-Chained s.base.jobs 1 0 p list _ zero_left refl d.0 c, t),
        )
    moves (follow p) [] queue (d, c, t) =
        rw c.1 (k, Place.ends tt queue (sym (append-nil s.base.ran) ∙ t))
    moves (follow p) (q ∷ list) queue (d, c, t) = rw c.1 (k, Place.holds list queue (d.1, c.2, t))
    moves (lower_next p) list queue (d, c, t) =
        let one_left : sub_size (s.base.jobs p).unfinished 1 ≡ 1 =
          rw (Chained-head s.base.jobs 2 p list c) refl in
        (
          lowered-Kept p,
          Place.holds list queue (d, lower-Chained s.base.jobs 2 1 p list _ one_left refl d.0 c, t),
        )
    moves (schedule p) list queue (d, c, t) =
        rw (Chained-head s.base.jobs 1 p list c) (k, Place.holds list queue (d, c, t))
    moves (send p) list queue h = rw k.state (
      record { same = k.same; state = refl },
      Place.waits p list tt (ap (λ q. q ++ p ∷ []) queue) h,
    )
    moves receive list queue h = absurd h
    moves check list queue h = absurd h
    moves (reset pc) list queue h = absurd h
    moves finish list queue h = absurd h
    moves test list queue h = absurd h
    moves leave_sender list queue h = absurd h
    moves leave_receiver list queue h = absurd h
    moves exited list queue h = absurd h
