-- ===== src/JobSystem/InOrder.antt =====
-- job_system/jobsystem.h: the jobs of a chain beside any steps of the threads.
use seakcutils.Base.{
  ℕ, ◌≡◌, ◌≢◌, ◌∙◌, refl, ap, List, [], ◌∷◌, ◌++◌, ◌⊎◌, inl, inr, append-nil, done,
}
use seakcutils.Channel.{opened}
use seakcutils.JobSystem.{Pointer, JobHandle, System, job_chain_arr, link_all, threadpool_schedule}
use seakcutils.JobSystem.Links.{Distinct, AllFresh, Chained-head, calls, link_all_lem}
use seakcutils.JobSystem.Chains.{schedule_one}
use seakcutils.JobSystem.Worker.{
  WorkerPc, Shared, receive, load, run_job, count, lower, follow, lower_next, schedule, send, check,
  reset, finish, test, leave_sender, leave_receiver, exited, Crew, steps,
}
use seakcutils.JobSystem.Token.{IsIdle, Stage, Place, holds, waits, ends}
use seakcutils.JobSystem.Threads.{Chain, steps-Chain}

-- A thread has a job, or one waits in the queue.
abbrev pub Goes : Crew → Type 0
Goes s = ((i : ℕ) × (¬ IsIdle (s.workers i))) ⊎ (s.shared.base.queue ≢ [])

-- What was run are the first of these calls, and all of them when nothing goes on.
abbrev pub RunsSome : List (ℕ × ℕ) → Crew → Type 0
RunsSome total s =
    (rest : List (ℕ × ℕ)) × (s.shared.base.ran ++ rest ≡ total) × ((rest ≡ []) ⊎ Goes s)

module _ (first : Pointer → JobHandle) (total : List (ℕ × ℕ)) where
  remaining :
      (jobs : Pointer → JobHandle) (ran : List (ℕ × ℕ)) (pc : WorkerPc) (list : List Pointer)
      → Stage first total jobs ran pc list
      → (rest : List (ℕ × ℕ)) × (ran ++ rest ≡ total) × (¬ IsIdle pc)
  remaining jobs ran (load p) list (d, c, t) = (calls first (p ∷ list), t, λ no. no)
  remaining jobs ran (run_job p) list (d, c, t) = (calls first (p ∷ list), t, λ no. no)
  remaining jobs ran (count p) list (d, c, t) = (calls first list, t, λ no. no)
  remaining jobs ran (lower p) list (d, c, t) = (calls first list, t, λ no. no)
  remaining jobs ran (follow p) list (d, c, t) = (calls first list, t, λ no. no)
  remaining jobs ran (lower_next p) list (d, c, t) = (calls first (p ∷ list), t, λ no. no)
  remaining jobs ran (schedule p) list (d, c, t) = (calls first (p ∷ list), t, λ no. no)
  remaining jobs ran (send p) list (d, c, t) = (calls first (p ∷ list), t, λ no. no)
  remaining jobs ran receive list h = absurd h
  remaining jobs ran check list h = absurd h
  remaining jobs ran (reset pc) list h = absurd h
  remaining jobs ran finish list h = absurd h
  remaining jobs ran test list h = absurd h
  remaining jobs ran leave_sender list h = absurd h
  remaining jobs ran leave_receiver list h = absurd h
  remaining jobs ran exited list h = absurd h

  Chain-RunsSome : (s : Crew) → Chain first total s → RunsSome total s
  Chain-RunsSome s c = elim c.place [
    | holds list queue stage ↦
        let (rest, t, busy) =
          remaining s.shared.base.jobs s.shared.base.ran (s.workers c.holder) list stage in
        (rest, t, inr (inl (c.holder, busy)))
    | waits p list idle queue (d, chained, t) ↦
        (calls first (p ∷ list), t, inr (inr (rw queue (λ e. cc))))
    | ends idle queue t ↦ ([], append-nil s.shared.base.ran ∙ t, inl refl)
  ]

module _ (p : Pointer) (list : List Pointer) (s : Shared) (workers : ℕ → WorkerPc)
    (is : List ℕ) where
  -- On an open channel with an empty queue, where no thread has a job, `job_chain_arr` of new,
  -- different handles is followed by any steps of any threads, in any order. The jobs that were run
  -- since are the first ones of the list, in its order, each one once, and all of them once no thread
  -- has a job and the queue is empty.
  pub job_chain_in_order :
      Distinct (p ∷ list)
      → AllFresh s.base.jobs (p ∷ list)
      → s.base.queue ≡ []
      → s.base.state ≡ opened
      → ((j : ℕ) → IsIdle (workers j))
      → (s1 : System) × (job_chain_arr (p ∷ list) s.base ≡ done s1)
        × RunsSome
            (s.base.ran ++ calls s.base.jobs (p ∷ list))
            (steps is (record { shared = record s { base = s1 }; workers = workers }))
  unfolding job_chain_arr
  job_chain_in_order distinct (u, c, fresh) queue open_ idle =
      let linked = link_all p list s.base in
      let (l, chained) = link_all_lem p list s.base 1 distinct u c fresh in
      let s1 : System = record linked { queue = p ∷ [] } in
      let scheduled : threadpool_schedule p linked ≡ s1 =
        schedule_one p linked (Chained-head linked.jobs 1 p list chained) (l.state ∙ open_)
        ∙ ap (λ q. record linked { queue = q ++ p ∷ [] }) (l.queue ∙ queue) in
      let total = s.base.ran ++ calls s.base.jobs (p ∷ list) in
      let start : Crew = record { shared = record s { base = s1 }; workers = workers } in
      let chain : Chain s.base.jobs total start = record {
        kept = record { same = l.same; state = l.state ∙ open_ };
        holder = 0;
        place =
            Place.waits p list (idle 0) refl
              (distinct, chained, ap (λ x. x ++ calls s.base.jobs (p ∷ list)) l.ran);
        others = λ j ne. idle j;
      } in
      (
        s1,
        ap done scheduled,
        Chain-RunsSome s.base.jobs total (steps is start)
            (steps-Chain s.base.jobs total is start chain),
      )
