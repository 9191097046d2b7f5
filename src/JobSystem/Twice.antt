-- ===== src/JobSystem/Twice.antt =====
-- job_system/jobsystem.h: a job that follows two others.
use seakcutils.Base.{
  suc, false, ℕ, ◌≡◌, ◌≢◌, ◌∙◌, refl, sym, ap, some, List, [], ◌∷◌, ◌++◌, append_assoc, add_size,
  sub_size,
}
use seakcutils.Channel.{is_closed, opened}
use seakcutils.ThreadPool.Hands.{update_at, update_off}
use seakcutils.JobSystem.{Pointer, JobHandle, link, job_then}
use seakcutils.JobSystem.Links.{Distinct, AllFresh, calls}
use seakcutils.JobSystem.Fan.{fan, linked_both, job_then_both, lower_ab, lower_cc}
use seakcutils.JobSystem.Worker.{
  load, WorkerPc, Shared, receive, run_job, follow, schedule, set_worker, lowered, Crew, step,
  steps,
}

-- Two threads, and what they share.
abbrev Pair : Type 0
Pair = WorkerPc × WorkerPc × Shared

-- A step of each of the two threads.
unfoldable round : Pair → Pair
round (p, q, s) = let (p', s') = set_worker p s in let (q', s'') = set_worker q s' in (p', q', s'')

unfoldable rounds : ℕ → Pair → Pair
rounds ℕ.zero x = x
rounds (ℕ.suc n) x = rounds n (round x)

-- `n` steps of each of the threads `i` and `j`, in turn.
unfoldable pub alternate : ℕ → ℕ → ℕ → List ℕ
alternate ℕ.zero i j = []
alternate (ℕ.suc n) i j = i ∷ j ∷ alternate n i j

module _ (i j : ℕ) (ne : i ≢ j) where
  alternate-rounds :
      (n : ℕ) (s : Crew) (p q : WorkerPc)
      → s.workers i ≡ p
      → s.workers j ≡ q
      → (steps (alternate n i j) s).shared ≡ (rounds n (p, q, s.shared)).2
  unfolding alternate steps step rounds round
  alternate-rounds ℕ.zero s p q at_i at_j = refl
  alternate-rounds (ℕ.suc n) s p q at_i at_j =
      let s1 = step i s in
      let at_j' : s1.workers j ≡ q = update_off s.workers i _ j ne ∙ at_j in
      let (p', shared') = set_worker p s.shared in
      let (q', shared'') = set_worker q shared' in
      let one : s1.shared ≡ shared' = ap (λ x. (set_worker x s.shared).1) at_i in
      let two : (step j s1).shared ≡ shared'' = rw (at_j', one) refl in
      let now_i : (step j s1).workers i ≡ p' =
        update_off s1.workers j _ i (λ e. ne (sym e))
        ∙ update_at s.workers i _
        ∙ ap (λ x. (set_worker x s.shared).0) at_i in
      let now_j : (step j s1).workers j ≡ q' = update_at s1.workers j _ ∙ rw (at_j', one) refl in
      alternate-rounds n (step j s1) p' q' now_i now_j ∙ ap (λ x. (rounds n (p', q', x)).2) two

module _ (a b : Pointer) (s : Shared) where
  takes :
      s.base.queue ≡ a ∷ b ∷ []
      → (s.base.jobs a).unfinished ≡ 1
      → (s.base.jobs b).unfinished ≡ 1
      → s.base.state ≡ opened
      → rounds 2 (receive, receive, s) ≡ (
        run_job a,
        run_job b,
        record s { base = record s.base { queue = [] }; taken = suc (suc s.taken) },
      )
  unfolding rounds round set_worker
  takes queue ua ub open_ =
      let free : is_closed s.base.state ≡ false = ap is_closed open_ in
      let s' : Shared = record s {
        base = record s.base { queue = [] };
        taken = suc (suc s.taken);
      } in
      let first : round (receive, receive, s) ≡ (load a, load b, s') = rw queue (rw free refl) in
      let second : round (load a, load b, s') ≡ (run_job a, run_job b, s') = rw (ua, ub) refl in
      ap round first ∙ second

  abbrev called : List (ℕ × ℕ)
  called =
      (s.base.ran ++ ((s.base.jobs a).job, (s.base.jobs a).ctx) ∷ [])
      ++ ((s.base.jobs b).job, (s.base.jobs b).ctx) ∷ []

  -- The two jobs are run, counted and lowered.
  abbrev ran_both : Shared
  ran_both =
      let s1 = record s {
        base = record s.base {
          ran = called;
          sche = record s.base.sche {
            jobs_completed_epoch = add_size (add_size s.base.sche.jobs_completed_epoch 1) 1;
          };
        };
      } in
      lowered b (lowered a s1)

  run_both : rounds 3 (run_job a, run_job b, s) ≡ (follow a, follow b, ran_both)
  unfolding rounds round set_worker
  run_both = refl

  follows :
      (c : Pointer)
      → (s.base.jobs a).continuation ≡ some c
      → (s.base.jobs b).continuation ≡ some c
      → rounds 2 (follow a, follow b, s) ≡ (schedule c, schedule c, lowered c (lowered c s))
  unfolding rounds round set_worker
  follows c ca cb = rw (ca, cb) refl

module _ (c : Pointer) (s : Shared) where
  abbrev sent_both : Shared
  sent_both =
      let active = sub_size (sub_size s.base.sche.active_jobs 1) 1 in
      record s {
        base = record s.base {
          queue = c ∷ c ∷ [];
          sche = record s.base.sche { active_jobs = active };
        };
      }

  sends_both :
      (s.base.jobs c).unfinished ≡ 1
      → s.base.queue ≡ []
      → s.base.state ≡ opened
      → rounds 3 (schedule c, schedule c, s) ≡ (receive, receive, sent_both)
  unfolding rounds round set_worker
  sends_both u queue open_ = rw (u, queue, open_) refl

listed :
    (r : List (ℕ × ℕ)) {k l m x y z : JobHandle}
    → k ≡ x
    → l ≡ y
    → m ≡ z
    → ◌≡◌ {A = List (ℕ × ℕ)}
        ((((r ++ (k.job, k.ctx) ∷ []) ++ (l.job, l.ctx) ∷ []) ++ (m.job, m.ctx) ∷ [])
          ++ (m.job, m.ctx) ∷ [])
        (r ++ (x.job, x.ctx) ∷ (y.job, y.ctx) ∷ (z.job, z.ctx) ∷ (z.job, z.ctx) ∷ [])
listed r e e' e'' = rw (e, e', e'') (simp (append_assoc))

module _ (a b c : Pointer) (s : Shared) (i j : ℕ) (workers : ℕ → WorkerPc) where
  -- On an open channel with an empty queue, a job is made to follow two others by `job_then`, the
  -- three of them new and different. Two threads that are about to receive, and make thirteen steps
  -- each in turn, run the two jobs and then the one that follows them twice.
  pub job_then_runs_twice :
      Distinct (a ∷ b ∷ c ∷ [])
      → AllFresh s.base.jobs (a ∷ b ∷ c ∷ [])
      → s.base.queue ≡ []
      → s.base.state ≡ opened
      → i ≢ j
      → workers i ≡ receive
      → workers j ≡ receive
      → (steps (alternate 13 i j) (record {
        shared = record s { base = job_then b c (job_then a c s.base) };
        workers = workers;
      })).shared.base.ran
        ≡ s.base.ran ++ calls s.base.jobs (a ∷ b ∷ c ∷ c ∷ [])
  unfolding rounds round set_worker link
  job_then_runs_twice d fresh queue open_ ne at_i at_j =
      let f0 = fan a b c s.base d fresh in
      let s0 : Shared = record s { base = linked_both a b c s.base } in
      let s1 : Shared = record s0 {
        base = record s0.base { queue = [] };
        taken = suc (suc s0.taken);
      } in
      let s2 = ran_both a b s1 in
      let f2 = lower_ab d s1 f0 in
      let s3 = lowered c (lowered c s2) in
      let f3 = lower_cc d s2 f2 in
      let u3 : (s3.base.jobs c).unfinished ≡ 1 =
        ap (λ k. k.unfinished) f3.at_c ∙ rw (fresh.2.2.0) refl in
      let s4 = sent_both c s3 in
      let s5 : Shared = record s4 {
        base = record s4.base { queue = [] };
        taken = suc (suc s4.taken);
      } in
      let ends : rounds 13 (receive, receive, s0) ≡ rounds 1 (run_job c, run_job c, s5) =
        ap (rounds 11) (
          takes a b s0 refl (ap (λ k. k.unfinished) f0.at_a ∙ fresh.0)
            (ap (λ k. k.unfinished) f0.at_b ∙ fresh.2.0) open_)
        ∙ ap (rounds 8) (run_both a b s1)
        ∙ ap (rounds 6)
            (follows a b s2 c (ap (λ k. k.continuation) f2.at_a) (ap (λ k. k.continuation) f2.at_b))
        ∙ ap (rounds 3) (sends_both c s3 u3 refl open_)
        ∙ ap (rounds 1) (takes c c s4 refl u3 u3 open_) in
      ap
        (λ t.
          (steps (alternate 13 i j)
            (record { shared = record s { base = t }; workers = workers })).shared.base.ran)
        (job_then_both a b c s.base d fresh queue open_)
      ∙ ap (λ t. t.base.ran)
          (alternate-rounds i j ne 13 (record { shared = s0; workers = workers }) receive receive
            at_i at_j)
      ∙ ap (λ t. t.2.base.ran) ends
      ∙ listed s.base.ran f0.at_a f0.at_b f3.at_c
