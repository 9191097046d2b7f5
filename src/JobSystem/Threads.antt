-- ===== src/JobSystem/Threads.antt =====
-- job_system/jobsystem.h: a chain of jobs, whatever the order in which the threads make their steps.
use mathlib.Core.Path.{subst}
use seakcutils.Base.{
  ap, false, ◌-◌, ℕ, ◌≡◌, ◌≢◌, ◌∙◌, refl, sym, List, [], ◌∷◌, ◌⊎◌, inl, inr, Bool-cases, ltb, ◌==◌,
  ℕ_discrete,
}
use seakcutils.Channel.{is_closed, opened}
use seakcutils.Mpmc.{update}
use seakcutils.ThreadPool.Hands.{update_at, update_off}
use seakcutils.JobSystem.{Pointer, JobHandle, System, ResetPc, reset_step, max_jobs}
use seakcutils.JobSystem.Worker.{
  WorkerPc, Shared, receive, load, run_job, count, lower, follow, lower_next, schedule, send, check,
  reset, finish, test, leave_sender, leave_receiver, exited, set_worker, Crew, step, steps,
}
use seakcutils.JobSystem.Token.{IsIdle, Same, Stage, Place, holds, waits, ends, Kept, moves}

aside_reset :
    (pc : ResetPc) (s : Shared)
    → IsIdle (set_worker (reset pc) s).0 × Same s.base (set_worker (reset pc) s).1.base
unfolding set_worker reset_step
aside_reset ResetPc.start s = (tt, (refl, refl, refl, refl))
aside_reset ResetPc.wait s = elim (Bool-cases (s.base.sche.active_jobs == 0)) [
  | inl e ↦ rw e (tt, (refl, refl, refl, refl))
  | inr e ↦ rw e (tt, (refl, refl, refl, refl))
]
aside_reset ResetPc.reset_arena s = (tt, (refl, refl, refl, refl))
aside_reset ResetPc.zero_epoch s = (tt, (refl, refl, refl, refl))
aside_reset ResetPc.accept s = (tt, (refl, refl, refl, refl))
aside_reset ResetPc.returned s = (tt, (refl, refl, refl, refl))

-- A thread that is idle stays so, unless it receives.
aside :
    (pc : WorkerPc) (s : Shared)
    → IsIdle pc
    → (pc ≡ receive → s.base.queue ≡ [])
    → s.base.state ≡ opened
    → IsIdle (set_worker pc s).0 × Same s.base (set_worker pc s).1.base
unfolding set_worker
aside receive s idle empty open_ = rw (empty refl, open_) (tt, (refl, refl, refl, refl))
aside check s idle empty open_ =
    elim (Bool-cases (ltb (max_jobs - 20) s.base.sche.jobs_completed_epoch)) [
      | inl e ↦ rw e (tt, (refl, refl, refl, refl))
      | inr e ↦ rw e (tt, (refl, refl, refl, refl))
    ]
aside (reset pc) s idle empty open_ = aside_reset pc s
aside finish s idle empty open_ = (tt, (refl, refl, refl, refl))
aside test s idle empty open_ = rw open_ (tt, (refl, refl, refl, refl))
aside leave_sender s idle empty open_ = (tt, (refl, refl, refl, refl))
aside leave_receiver s idle empty open_ = (tt, (refl, refl, refl, refl))
aside exited s idle empty open_ = (tt, (refl, refl, refl, refl))
aside (load p) s idle empty open_ = absurd idle
aside (run_job p) s idle empty open_ = absurd idle
aside (count p) s idle empty open_ = absurd idle
aside (lower p) s idle empty open_ = absurd idle
aside (follow p) s idle empty open_ = absurd idle
aside (lower_next p) s idle empty open_ = absurd idle
aside (schedule p) s idle empty open_ = absurd idle
aside (send p) s idle empty open_ = absurd idle

module _ (first : Pointer → JobHandle) (total : List (ℕ × ℕ)) where
  -- One thread may have the chain; the others are idle.
  pub record Chain (s : Crew) : Type 0 where
    pub kept : Kept first total s.shared.base
    pub holder : ℕ
    pub place : Place first total s.shared.base (s.workers holder)
    pub others : (j : ℕ) → holder ≢ j → IsIdle (s.workers j)

  Same-Kept : (s s' : System) → Same s s' → Kept first total s → Kept first total s'
  Same-Kept s s' (jobs, queue, ran, state) k = record {
    same = rw jobs k.same;
    state = state ∙ k.state;
  }

  Same-Stage :
      (s s' : System) (pc : WorkerPc) (list : List Pointer)
      → Same s s'
      → Stage first total s.jobs s.ran pc list
      → Stage first total s'.jobs s'.ran pc list
  Same-Stage s s' pc list (jobs, queue, ran, state) h = rw (jobs, ran) h

  module _ (k : ℕ) (s : Crew) where
    others_idle :
        (pc : WorkerPc)
        → ((j : ℕ) → k ≢ j → IsIdle (s.workers j))
        → (j : ℕ) → k ≢ j
        → IsIdle (update s.workers k pc j)
    others_idle pc idle j ne = rw (update_off s.workers k pc j ne) (idle j ne)

    -- Thread `k` has the chain after its step, and the others are idle.
    at-Chain :
        Kept first total (set_worker (s.workers k) s.shared).1.base
        → Place first total
            (set_worker (s.workers k) s.shared).1.base
            (set_worker (s.workers k) s.shared).0
        → ((j : ℕ) → k ≢ j → IsIdle (s.workers j))
        → Chain (step k s)
    unfolding step
    at-Chain kept place idle = record {
      kept = kept;
      holder = k;
      place = rw (update_at s.workers k (set_worker (s.workers k) s.shared).0) place;
      others = others_idle (set_worker (s.workers k) s.shared).0 idle;
    }

    -- The chain waits in the queue, or it has come to its end.
    abbrev Away : Type 0
    Away =
        ((p : Pointer) × (list : List Pointer) × (s.shared.base.queue ≡ p ∷ [])
          × Stage first total s.shared.base.jobs s.shared.base.ran (load p) list)
        ⊎ ((s.shared.base.queue ≡ []) × (s.shared.base.ran ≡ total))

    away-Chain :
        Kept first total s.shared.base
        → ((j : ℕ) → IsIdle (s.workers j))
        → Away
        → (s.workers k ≡ receive → s.shared.base.queue ≡ [])
        → Chain (step k s)
    away-Chain kept idle where_ empty =
        let s' = (set_worker (s.workers k) s.shared).1.base in
        let (idle', same) = aside (s.workers k) s.shared (idle k) empty kept.state in
        let kept' = Same-Kept s.shared.base s' same kept in
        let others : (j : ℕ) → k ≢ j → IsIdle (s.workers j) = λ j ne. idle j in
        elim where_ [
          | inl (p, list, queue, stage) ↦
              at-Chain kept'
                (Place.waits p list idle' (same.1 ∙ queue)
                  (Same-Stage s.shared.base s' (load p) list same stage))
                others
          | inr (queue, ran) ↦
              at-Chain kept' (Place.ends idle' (same.1 ∙ queue) (same.2 ∙ ran)) others
        ]

    -- Thread `k` receives the chain.
    takes-Chain :
        (p : Pointer) (list : List Pointer)
        → Kept first total s.shared.base
        → ((j : ℕ) → IsIdle (s.workers j))
        → s.workers k ≡ receive
        → s.shared.base.queue ≡ p ∷ []
        → Stage first total s.shared.base.jobs s.shared.base.ran (load p) list
        → Chain (step k s)
    unfolding set_worker
    takes-Chain p list kept idle at queue stage =
        let open_ : is_closed s.shared.base.state ≡ false = ap is_closed kept.state in
        at-Chain (rw (at, queue) (record { same = kept.same; state = kept.state }))
          (rw (at, queue) (rw open_ (Place.holds list refl stage))) (λ j ne. idle j)

    free-Chain :
        (pc : WorkerPc)
        → s.workers k ≡ pc
        → Kept first total s.shared.base
        → ((j : ℕ) → IsIdle (s.workers j))
        → Away
        → Chain (step k s)
    free-Chain receive at kept idle (inl (p, list, queue, stage)) =
        takes-Chain p list kept idle at queue stage
    free-Chain receive at kept idle (inr (queue, ran)) =
        away-Chain kept idle (inr (queue, ran)) (λ e. queue)
    free-Chain _ at kept idle where_ = away-Chain kept idle where_ (λ e. cc)

  -- The thread that has the chain is `i`.
  held-Chain :
      (k i : ℕ) (s : Crew) (list : List Pointer)
      → Kept first total s.shared.base
      → s.shared.base.queue ≡ []
      → Stage first total s.shared.base.jobs s.shared.base.ran (s.workers i) list
      → ((j : ℕ) → i ≢ j → IsIdle (s.workers j))
      → Chain (step k s)
  unfolding step
  held-Chain k i s list kept queue stage others = elim (ℕ_discrete i k) [
    | yes e ↦
        let stage' : Stage first total s.shared.base.jobs s.shared.base.ran (s.workers k) list =
          subst (λ j. Stage first total s.shared.base.jobs s.shared.base.ran (s.workers j) list) e
            stage in
        let (kept', place) = moves first total s.shared kept (s.workers k) list queue stage' in
        at-Chain k s kept' place (λ j ne. others j (λ e'. ne (sym e ∙ e')))
    | no ne ↦
        let s' = (set_worker (s.workers k) s.shared).1.base in
        let (idle', same) = aside (s.workers k) s.shared (others k ne) (λ e. queue) kept.state in
        let still =
          update_off s.workers k (set_worker (s.workers k) s.shared).0 i (λ e. ne (sym e)) in
        record {
          kept = Same-Kept s.shared.base s' same kept;
          holder = i;
          place = rw still (
              Place.holds list (same.1 ∙ queue)
                (Same-Stage s.shared.base s' (s.workers i) list same stage));
          others = λ j ne'. elim (ℕ_discrete k j) [
            | yes e ↦
                subst (λ x. IsIdle (update s.workers k (set_worker (s.workers k) s.shared).0 x)) e
                  (rw (update_at s.workers k (set_worker (s.workers k) s.shared).0) idle')
            | no off ↦
                rw (update_off s.workers k (set_worker (s.workers k) s.shared).0 j off)
                  (others j ne')
          ];
        }
  ]

  -- When the holder is idle, all threads are.
  all_idle :
      (s : Crew) (i : ℕ)
      → IsIdle (s.workers i)
      → ((j : ℕ) → i ≢ j → IsIdle (s.workers j))
      → (j : ℕ) → IsIdle (s.workers j)
  all_idle s i idle others j = elim (ℕ_discrete i j) [
    | yes e ↦ subst (λ x. IsIdle (s.workers x)) e idle
    | no ne ↦ others j ne
  ]

  step-Chain : (k : ℕ) (s : Crew) → Chain s → Chain (step k s)
  step-Chain k s c = elim c.place [
    | holds list queue stage ↦ held-Chain k c.holder s list c.kept queue stage c.others
    | waits p list idle queue stage ↦
        free-Chain k s (s.workers k) refl c.kept (all_idle s c.holder idle c.others)
          (inl (p, list, queue, stage))
    | ends idle queue ran ↦
        free-Chain k s (s.workers k) refl c.kept (all_idle s c.holder idle c.others)
          (inr (queue, ran))
  ]

  pub steps-Chain : (is : List ℕ) (s : Crew) → Chain s → Chain (steps is s)
  unfolding steps
  steps-Chain [] s c = c
  steps-Chain (i ∷ is) s c = steps-Chain is (step i s) (step-Chain i s c)
