-- ===== src/JobSystem/Ends.antt =====
-- job_system/jobsystem.h: the end of the threads and of `job_scheduler_shutdown`.
use mathlib.Core.Path.{subst}
use seakcutils.Base.{
  ℕ, suc, ◌+◌, ◌*◌, ◌-◌, ◌^◌, ◌≤◌, ◌<◌, ◌≡◌, ◌∙◌, refl, ap, some, List, [], ◌∷◌, length, ◌⊎◌, inl,
  inr, arith, ℕ_discrete, done, eq→==, ne→==,
}
use seakcutils.RegionArena.{RegionArena, r_arena_free}
use seakcutils.JobSystem.{max_jobs}
use seakcutils.JobSystem.Worker.{Shared, exited, Crew}
use seakcutils.JobSystem.Shutdown.{
  ClosingPc, close_dispatcher, close_channel, join, close_again, load_cons, load_prod, free_arena,
  returned, trapped, job_scheduler_shutdown, State, Event, worker, shutdown, happen, run, Advances,
  Effective, AllEffective,
}
use seakcutils.JobSystem.Sums.{sum, sum_bound}
use seakcutils.JobSystem.Budget.{left, left_bound, senders, receivers, IsOut, exited_cases}
use seakcutils.JobSystem.Closing.{
  Ended, Place, closing, budget, Inv, worker-Inv, moved, prods_zero, conss_zero,
}

module _ (n : ℕ) (freed : RegionArena {0} Unit) where
  module _ (s : State) (v : Inv n freed s) where
    open v use {state, out, prods, conss, small, room, place}

    -- What a step of the shutdown gives.
    abbrev After : ClosingPc → Shared → Type 0
    After pc shared =
        let s' : State = record { crew = record s.crew { shared = shared }; shutdown = pc } in
        Inv n freed s' × (budget n freed s' + 1 ≤ budget n freed s)

    freed-After :
        s.shutdown ≡ free_arena
        → Ended n freed s.crew.workers
        → After returned (record s.crew.shared {
          base = record s.crew.shared.base {
            sche = record s.crew.shared.base.sche { job_arena = freed };
          };
        })
    freed-After e ended =
        let less : closing n freed s.shutdown ≡ 1 = ap (closing n freed) e in
        (
          record {
            state = state;
            out = out;
            prods = prods;
            conss = conss;
            small = small;
            room = omega (arith, less, room);
            place = (ended, refl);
          },
          omega (arith, less),
        )

    joins :
        (x : ℕ)
        → s.shutdown ≡ join x
        → Place n freed (join x) s.crew
        → (x ≡ n) ⊎ (s.crew.workers x ≡ exited)
        → After
            (job_scheduler_shutdown n (join x) s.crew).0
            (job_scheduler_shutdown n (join x) s.crew).1
    unfolding job_scheduler_shutdown
    joins x e (le, ended, held) a =
        let at : closing n freed s.shutdown ≡ n - x + 5 = ap (closing n freed) e in
        elim (ℕ_discrete x n) [
          | yes all ↦ rw (eq→== x n all) (
              moved n freed s v close_again ((λ j lt. ended j (omega (arith, lt, all))), held)
                (omega (arith, at)))
          | no more ↦
              let here : s.crew.workers x ≡ exited = elim a [
                | inl all ↦ absurd (more all)
                | inr here ↦ here
              ] in
              rw (ne→== x n more, here)
                (moved n freed s v (join (suc x))
                  (
                    omega (arith, le, more),
                    (λ j lt. elim (ℕ_discrete j x) [
                      | yes same ↦ ap s.crew.workers same ∙ here
                      | no before ↦ ended j (omega (arith, lt, before))
                    ]),
                    held,
                  )
                  (omega (arith, at, le, more)))
        ]

    shutdown-After :
        (pc : ClosingPc)
        → s.shutdown ≡ pc
        → Place n freed pc s.crew
        → Advances n pc s.crew.workers
        → After (job_scheduler_shutdown n pc s.crew).0 (job_scheduler_shutdown n pc s.crew).1
    unfolding job_scheduler_shutdown
    shutdown-After (join x) e h a = joins x e h a
    shutdown-After close_again e h a =
        subst (After load_cons)
          (ap (λ x. record s.crew.shared { base = record s.crew.shared.base { state = x } }) state)
          (moved n freed s v load_cons h (omega (arith, ap (closing n freed) e)))
    shutdown-After load_cons e (ended, held) a =
        moved n freed s v (load_prod s.crew.shared.cons_cont)
          (ended, held, conss_zero n freed s v ended) (omega (arith, ap (closing n freed) e))
    shutdown-After (load_prod c) e (ended, held, zero_) a =
        rw (zero_, eq→== _ _ (prods_zero n freed s v ended))
          (moved n freed s v free_arena (ended, held) (omega (arith, ap (closing n freed) e)))
    shutdown-After free_arena e (ended, held) a = rw held.1 (freed-After e ended)
    shutdown-After returned e h a = absurd a
    shutdown-After close_dispatcher e h a = absurd h
    shutdown-After close_channel e h a = absurd h
    shutdown-After trapped e h a = absurd h

  happen-Inv :
      (e : Event) (s : State)
      → Inv n freed s
      → Effective n e s
      → Inv n freed (happen n e s) × (budget n freed (happen n e s) + 1 ≤ budget n freed s)
  unfolding happen
  happen-Inv (worker i) s v (lt, ne) = worker-Inv n freed s v i lt ne
  happen-Inv shutdown s v a = shutdown-After s v s.shutdown refl v.place a

  run-Inv :
      (es : List Event) (s : State)
      → Inv n freed s
      → AllEffective n es s
      → Inv n freed (run n es s) × (budget n freed (run n es s) + length es ≤ budget n freed s)
  unfolding run
  run-Inv [] s v a = (v, omega arith)
  run-Inv (e ∷ es) s v (a, more) =
      let (v', less) = happen-Inv e s v a in
      let (v'', less') = run-Inv es (happen n e s) v' more in (v'', omega (arith, less, less'))

  -- The call has returned, all threads have ended, and the arena is free.
  abbrev pub Returned : State → Type 0
  Returned s =
      (s.shutdown ≡ returned)
      × Ended n freed s.crew.workers
      × (s.crew.shared.base.sche.job_arena ≡ freed)

  goes_on :
      (pc : ClosingPc) (s : State)
      → s.shutdown ≡ pc
      → Place n freed pc s.crew
      → Returned s ⊎ ((e : Event) × Effective n e s)
  goes_on (join x) s e (le, ended, held) = elim (ℕ_discrete x n) [
    | yes all ↦ inr (shutdown, rw e (inl all))
    | no more ↦ elim (exited_cases (s.crew.workers x)) [
      | inl here ↦ inr (shutdown, rw e (inr here))
      | inr busy ↦ inr (worker x, (omega (arith, le, more), busy))
    ]
  ]
  goes_on close_again s e h = inr (shutdown, rw e tt)
  goes_on load_cons s e h = inr (shutdown, rw e tt)
  goes_on (load_prod c) s e h = inr (shutdown, rw e tt)
  goes_on free_arena s e h = inr (shutdown, rw e tt)
  goes_on returned s e (ended, free) = inl (e, ended, free)
  goes_on close_dispatcher s e h = absurd h
  goes_on close_channel s e h = absurd h
  goes_on trapped s e h = absurd h

module _ (n : ℕ) {freed : RegionArena {0} Unit} {regions : List ℕ} (crew : Crew)
    (es : List Event) where
  -- Where `job_scheduler_shutdown` closes the channel of `n` threads, whose open handles the channel
  -- counts, whose arena can be freed and none of which is in the reset, and the epoch stays below its
  -- limit by 14 * n + 5 and 10 for each job in the queue: whatever steps of the shutdown that do not
  -- wait, and of threads that have not ended, follow in any order, and whichever jobs of the queue the
  -- threads give up, they are at most that many. After them such a step is left, or the shutdown has
  -- returned, all threads have ended and the arena is free.
  pub job_scheduler_shutdown_returns :
      ((j : ℕ) → IsOut (crew.workers j))
      → crew.shared.prod_cont ≡ sum senders n crew.workers
      → crew.shared.cons_cont ≡ sum receivers n crew.workers
      → (crew.shared.prod_cont < 2 ^ 64) × (crew.shared.cons_cont < 2 ^ 64)
      → crew.shared.base.sche.jobs_completed_epoch
          + (14 * n + 10 * length crew.shared.base.queue + 5)
        ≤ max_jobs - 20
      → r_arena_free (some crew.shared.base.sche.job_arena) ≡ done (some freed, regions)
      → let start = happen n shutdown (record { crew = crew; shutdown = close_channel }) in
        AllEffective n es start
        → (length es ≤ 14 * n + 10 * length crew.shared.base.queue + 5)
          × (Returned n freed (run n es start) ⊎ ((e : Event) × Effective n e (run n es start)))
  unfolding happen job_scheduler_shutdown
  job_scheduler_shutdown_returns out prods conss small room held all =
      let bound = sum_bound left 13 n crew.workers left_bound in
      let (v, less) =
        run-Inv n freed es (happen n shutdown (record { crew = crew; shutdown = close_channel }))
          (record {
            state = refl;
            out = out;
            prods = prods;
            conss = conss;
            small = small;
            room = omega (arith, bound, room);
            place = (omega arith, (λ j lt. absurd (omega (arith, lt))), (_, held));
          })
          all in
      (omega (arith, bound, less), goes_on n freed _ _ refl v.place)
