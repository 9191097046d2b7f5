-- ===== src/JobSystem/Chains.antt =====
-- job_system/jobsystem.h: a chain of jobs, from `job_chain_arr` to its last job.
use seakcutils.Base.{
  false, ◌+◌, ◌-◌, ◌≤◌, ◌≡◌, ◌≢◌, ◌∙◌, refl, ap, none, some, [], ◌∷◌, ◌++◌, arith, false, sub_size,
  ltb, le→ltb,
}
use seakcutils.Channel.{opened}
use seakcutils.JobSystem.{
  Pointer, JobHandle, System, Scheduler, put, threadpool_schedule, continues, runs, work, receive,
  finish, finished, checked, worker_turn, job_scheduler_healthcheck, max_jobs,
}
use seakcutils.JobSystem.Links.{put_at, put_off}

pub schedule_one :
    (p : Pointer) (s : System)
    → (s.jobs p).unfinished ≡ 1
    → s.state ≡ opened
    → threadpool_schedule p s ≡ record s { queue = s.queue ++ p ∷ [] }
unfolding threadpool_schedule
schedule_one p s u open_ = rw (u, open_) refl

work_one :
    (p : Pointer) (s : System)
    → s.queue ≡ p ∷ []
    → (s.jobs p).unfinished ≡ 1
    → worker_turn s
      ≡ finished (continues (s.jobs p).continuation (runs p (record s { queue = [] })))
unfolding worker_turn receive work
work_one p s queue u =
    let turn : worker_turn s ≡ work p (record s { queue = [] }) = rw queue refl in turn ∙ rw u refl

-- The state after the turn with job `p`, which job `q` follows.
abbrev pub passed : Pointer → Pointer → System → System
passed p q s =
    let s' = runs p (record s { queue = [] }) in
    finish (record s' {
      jobs = put s'.jobs q (record (s'.jobs q) { unfinished = sub_size (s'.jobs q).unfinished 1 });
      queue = q ∷ [];
    })

pub turn_passes :
    (p q : Pointer) (s : System)
    → s.queue ≡ p ∷ []
    → s.state ≡ opened
    → p ≢ q
    → (s.jobs p).unfinished ≡ 1
    → (s.jobs p).continuation ≡ some q
    → (s.jobs q).unfinished ≡ 2
    → worker_turn s ≡ some (passed p q s)
unfolding continues runs
turn_passes p q s queue open_ ne u c uq =
    let s1 = runs p (record s { queue = [] }) in
    let h : JobHandle = record (s1.jobs q) { unfinished = sub_size (s1.jobs q).unfinished 1 } in
    let same : s1.jobs q ≡ s.jobs q = put_off s.jobs p _ q ne in
    let one : (put s1.jobs q h q).unfinished ≡ 1 = rw (put_at s1.jobs q h, same, uq) refl in
    work_one p s queue u
    ∙ ap (λ o. finished (continues o s1)) c
    ∙ ap (λ x. finished (some x)) (schedule_one q (record s1 { jobs = put s1.jobs q h }) one open_)

-- Far from the limit of the arena, nothing is reset.
healthy :
    (sche : Scheduler)
    → sche.jobs_completed_epoch ≤ max_jobs - 20
    → job_scheduler_healthcheck sche ≡ some sche
unfolding job_scheduler_healthcheck
healthy sche few =
    let below : ltb (max_jobs - 20) sche.jobs_completed_epoch ≡ false = le→ltb _ _ few in
    rw below refl

-- The state after the turn with job `p`, which no job follows.
abbrev pub ended : Pointer → System → System
ended p s = finish (runs p (record s { queue = [] }))

pub turn_ends :
    (p : Pointer) (s : System)
    → s.queue ≡ p ∷ []
    → (s.jobs p).unfinished ≡ 1
    → (s.jobs p).continuation ≡ none
    → s.sche.jobs_completed_epoch + 1 ≤ max_jobs - 20
    → worker_turn s ≡ some (ended p s)
unfolding continues runs
turn_ends p s queue u c few =
    let s1 = runs p (record s { queue = [] }) in
    work_one p s queue u
    ∙ ap (λ o. finished (continues o s1)) c
    ∙ ap (λ o. finished (checked o s1)) (healthy s1.sche (omega arith))
