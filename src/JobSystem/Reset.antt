-- ===== src/JobSystem/Reset.antt =====
-- job_system/jobsystem.h: `_job_scheduler_reset`, as the worker calls it that has run a job, beside
-- the other threads and calls of `job_spawn`.
use mathlib.Core.Logic.{ite, if_pos, if_neg}
use mathlib.Core.Path.{subst}
use seakcutils.Base.{
  ℕ, suc, ◌+◌, ◌-◌, ◌^◌, ◌≤◌, ◌<◌, ◌≡◌, ◌≢◌, ◌∙◌, refl, sym, none, List, [], ◌∷◌, length, arith,
  sub_size, add_size, ℕ_discrete, ltb, lt→ltb, true, ne→==,
}
use seakcutils.Mpmc.{update}
use seakcutils.ThreadPool.Hands.{update_at, update_off}
use seakcutils.RegionArena.{RegionArena}
use seakcutils.JobSystem.{Pointer, System, ResetPc, reset_step, max_jobs}
use seakcutils.JobSystem.Worker.{WorkerPc, Shared, follow, check, reset, set_worker, Crew, step}
use seakcutils.JobSystem.Effects.{IsBefore, lowers, Effect, set_worker-Effect}

-- A step of a thread, a job that `job_spawn` counts, or one that it takes back for want of a place.
pub data Move : Type 0 where
  worker : ℕ → Move
  spawned : Move
  withdrawn : Move

-- Another number of active jobs.
abbrev recount : ℕ → Crew → Crew
recount n s = record s {
  shared = record s.shared {
    base = record s.shared.base { sche = record s.shared.base.sche { active_jobs = n } };
  };
}

unfoldable pub move : Move → Crew → Crew
unfolding step
move (worker j) s = step j s
move spawned s = recount (add_size s.shared.base.sche.active_jobs 1) s
move withdrawn s = recount (sub_size s.shared.base.sche.active_jobs 1) s

unfoldable pub play : List Move → Crew → Crew
play [] s = s
play (m ∷ ms) s = play ms (move m s)

-- The jobs that another thread than `i` takes away with its step.
abbrev pub taken_away : ℕ → ℕ → Crew → ℕ
taken_away i j s = ite (ℕ_discrete i j) 0 (lowers (s.workers j))

-- With `others` jobs active beside that of thread `i`, the others finish no more than are there.
abbrev pub FinishOthers : ℕ → List Move → ℕ → Crew → Type 0
FinishOthers i [] others s = Unit
FinishOthers i (worker j ∷ ms) others s =
    (taken_away i j s ≤ others) × FinishOthers i ms (others - taken_away i j s) (move (worker j) s)
FinishOthers i (spawned ∷ ms) others s = FinishOthers i ms (suc others) (move spawned s)
FinishOthers i (withdrawn ∷ ms) others s =
    (1 ≤ others) × FinishOthers i ms (others - 1) (move withdrawn s)

-- The thread is on the way into the reset, or in its loop, where no job is accepted.
abbrev pub Stays : WorkerPc → System → Type 0
Stays (follow p) s = (s.jobs p).continuation ≡ none
Stays check s = Unit
Stays (reset ResetPc.start) s = Unit
Stays (reset ResetPc.wait) s = s.sche.accepting_jobs ≡ 0
Stays _ s = ⊥

-- Thread `i` stays there, some job is active, and the arena is the one that it was.
abbrev pub Spins : ℕ → RegionArena {0} Unit → Crew → Type 0
Spins i arena s =
    Stays (s.workers i) s.shared.base
    × (s.shared.base.sche.active_jobs ≢ 0)
    × (s.shared.base.sche.job_arena ≡ arena)

record Inv (i others : ℕ) (arena : RegionArena {0} Unit) (s : Crew) : Type 0 where
  stays : Stays (s.workers i) s.shared.base
  active : s.shared.base.sche.active_jobs ≡ suc others
  late : max_jobs - 20 < s.shared.base.sche.jobs_completed_epoch
  same : s.shared.base.sche.job_arena ≡ arena
  before : (j : ℕ) → IsBefore (s.workers j)

-- The thread itself.
own :
    (pc : WorkerPc) (s : Shared)
    → Stays pc s.base
    → max_jobs - 20 < s.base.sche.jobs_completed_epoch
    → s.base.sche.active_jobs ≢ 0
    → Stays (set_worker pc s).0 (set_worker pc s).1.base × (lowers pc ≡ 0)
unfolding set_worker reset_step
own (follow p) s stays late busy = rw stays (tt, refl)
own check s stays late busy =
    let full : ltb (max_jobs - 20) s.base.sche.jobs_completed_epoch ≡ true = lt→ltb _ _ late in
    rw full (tt, refl)
own (reset ResetPc.start) s stays late busy = (refl, refl)
own (reset ResetPc.wait) s stays late busy = rw (ne→== _ _ busy) (stays, refl)
own _ s stays late busy = absurd stays

-- The thread while another one makes a step.
other :
    (pc : WorkerPc) {from to : WorkerPc} {s s' : Shared}
    → Effect from s to s'
    → Stays pc s.base
    → Stays pc s'.base
other (follow p) e stays = e.next p ∙ stays
other check e stays = tt
other (reset ResetPc.start) e stays = tt
other (reset ResetPc.wait) e stays = e.accepting stays
other _ e stays = absurd stays

before_on :
    (j : ℕ) (s : Crew) (to : WorkerPc)
    → IsBefore to
    → ((k : ℕ) → IsBefore (s.workers k))
    → (k : ℕ) → IsBefore (update s.workers j to k)
before_on j s to b h k = elim (ℕ_discrete j k) [
  | yes same ↦
      subst (λ x. IsBefore (update s.workers j to x)) same (rw (update_at s.workers j to) b)
  | no ne ↦ rw (update_off s.workers j to k ne) (h k)
]

-- The number of active jobs is changed by a call of `job_spawn`.
recount-Stays :
    (pc : WorkerPc) (n : ℕ) (s : Crew) → Stays pc s.shared.base → Stays pc (recount n s).shared.base
recount-Stays (follow p) n s h = h
recount-Stays check n s h = h
recount-Stays (reset ResetPc.start) n s h = h
recount-Stays (reset ResetPc.wait) n s h = h
recount-Stays _ n s h = absurd h

module _ {i : ℕ} {arena : RegionArena {0} Unit} where
  -- Who makes the step, and what it takes away.
  steps_on :
      (j others : ℕ) (s : Crew)
      → Inv i others arena s
      → Effect
          (s.workers j)
          s.shared
          (set_worker (s.workers j) s.shared).0
          (set_worker (s.workers j) s.shared).1
      → Stays ((step j s).workers i) (step j s).shared.base
        × (taken_away i j s ≡ lowers (s.workers j))
  unfolding step
  steps_on j others s v e = elim (ℕ_discrete i j) [
    | yes same ↦
        let mine : Stays (s.workers j) s.shared.base =
          subst (λ k. Stays (s.workers k) s.shared.base) same v.stays in
        let (stays, none_) =
          own (s.workers j) s.shared mine v.late (λ z. omega (arith, z, v.active)) in
        let at = update_at s.workers j (set_worker (s.workers j) s.shared).0 in
        (
          subst
              (λ k.
                Stays (update s.workers j (set_worker (s.workers j) s.shared).0 k)
                  (set_worker (s.workers j) s.shared).1.base)
              (sym same) (rw at stays),
          if_pos (ℕ_discrete i j) same 0 (lowers (s.workers j)) ∙ sym none_,
        )
    | no ne ↦
        let off =
          update_off s.workers j (set_worker (s.workers j) s.shared).0 i (λ q. ne (sym q)) in
        (
          rw off (other (s.workers i) e v.stays),
          if_neg (ℕ_discrete i j) ne 0 (lowers (s.workers j)),
        )
  ]

  worker-Inv :
      (j others : ℕ) (s : Crew)
      → Inv i others arena s
      → others + 1 < 2 ^ 64
      → s.shared.base.sche.jobs_completed_epoch + 1 < 2 ^ 64
      → taken_away i j s ≤ others
      → Inv i (others - taken_away i j s) arena (step j s)
        × ((step j s).shared.base.sche.jobs_completed_epoch
            ≤ s.shared.base.sche.jobs_completed_epoch + 1)
  unfolding step
  worker-Inv j others s v few small le =
      let e =
        set_worker-Effect s.shared (s.workers j) (v.before j) (λ z. omega (arith, z, v.active))
          (omega (arith, v.active, few)) small in
      let (stays, away) = steps_on j others s v e in
      (
        record {
          stays = stays;
          active = omega (arith, e.active, v.active, away, le);
          late = omega (arith, v.late, e.epoch);
          same = e.arena ∙ v.same;
          before = before_on j s _ e.before v.before;
        },
        e.epoch_next,
      )

  recount-Inv :
      (n others others' : ℕ) (s : Crew)
      → Inv i others arena s
      → n ≡ suc others'
      → Inv i others' arena (recount n s)
  recount-Inv n others others' s v e = record {
    stays = recount-Stays (s.workers i) n s v.stays;
    active = e;
    late = v.late;
    same = v.same;
    before = v.before;
  }

  play-Spins :
      (ms : List Move) (others : ℕ) (s : Crew)
      → Inv i others arena s
      → others + length ms + 1 < 2 ^ 64
      → s.shared.base.sche.jobs_completed_epoch + length ms < 2 ^ 64
      → FinishOthers i ms others s
      → Spins i arena (play ms s)
  unfolding play move
  play-Spins [] others s v few small f = (v.stays, (λ z. omega (arith, z, v.active)), v.same)
  play-Spins (worker j ∷ ms) others s v few small (le, f) =
      let (v', next) = worker-Inv j others s v (omega arith) (omega arith) le in
      play-Spins ms (others - taken_away i j s) (step j s) v' (omega arith) (omega (arith, next)) f
  play-Spins (spawned ∷ ms) others s v few small f =
      let n = add_size s.shared.base.sche.active_jobs 1 in
      play-Spins ms (suc others) (recount n s)
        (recount-Inv n others (suc others) s v (omega (arith, v.active, few))) (omega arith)
        (omega arith) f
  play-Spins (withdrawn ∷ ms) others s v few small (one, f) =
      let n = sub_size s.shared.base.sche.active_jobs 1 in
      play-Spins ms (others - 1) (recount n s)
        (recount-Inv n others (others - 1) s v (omega (arith, v.active, one, few))) (omega arith)
        (omega arith) f

-- A thread `i` has run a job that no job follows, and more jobs were run since the last reset than
-- trigger one; `others` jobs are active beside that one, no thread is past the loop of the reset, and
-- the counters are small. Then, whatever steps of any threads and whatever counts of `job_spawn`
-- follow, among which the other threads finish no more jobs than are active beside that one, thread
-- `i` is on its way into the reset or in its loop, where no job is accepted; some job is active, and
-- the arena was not reset.
pub reset-Spins :
    (ms : List Move) (i others : ℕ) (p : Pointer) (s : Crew)
    → s.workers i ≡ follow p
    → (s.shared.base.jobs p).continuation ≡ none
    → s.shared.base.sche.active_jobs ≡ suc others
    → max_jobs - 20 < s.shared.base.sche.jobs_completed_epoch
    → ((j : ℕ) → IsBefore (s.workers j))
    → others + length ms + 1 < 2 ^ 64
    → s.shared.base.sche.jobs_completed_epoch + length ms < 2 ^ 64
    → FinishOthers i ms others s
    → Spins i s.shared.base.sche.job_arena (play ms s)
reset-Spins ms i others p s at none_ active late before few small f =
    play-Spins ms others s
      (record { stays = rw at none_; active = active; late = late; same = refl; before = before })
      few small f
