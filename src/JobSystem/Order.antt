-- ===== src/JobSystem/Order.antt =====
-- job_system/jobsystem.h: the jobs of a chain run in its order, each one once.
use seakcutils.Base.{
  done, suc, ◌+◌, ◌-◌, ◌^◌, ◌≤◌, ◌<◌, ◌≡◌, ◌∙◌, refl, sym, ap, some, List, [], ◌∷◌, ◌++◌, length,
  append_assoc, arith, sub_size,
}
use seakcutils.Channel.{opened}
use seakcutils.JobSystem.{
  job_chain_arr, threadpool_schedule, link_all, Pointer, JobHandle, System, put, runs, worker_turns,
  max_jobs,
}
use seakcutils.JobSystem.Links.{
  lower-Chained, AllFresh, link_all_lem, Chained-head, put_at, put_off, AllNe, Distinct, Chained,
  calls, SameCalls, calls-SameCalls, put-SameCalls, SameCalls-trans, put-Chained,
}
use seakcutils.JobSystem.Chains.{schedule_one, passed, turn_passes, ended, turn_ends}

abbrev pub AllDone : (Pointer → JobHandle) → List Pointer → Type 0
AllDone jobs [] = Unit
AllDone jobs (p ∷ list) = ((jobs p).unfinished ≡ 0) × AllDone jobs list

-- From `s` to `s'` the jobs of the chain were run, in its order, and nothing else.
pub record RanChain (p : Pointer) (list : List Pointer) (s s' : System) : Type 0 where
  pub queue : s'.queue ≡ []
  pub ran : s'.ran ≡ s.ran ++ calls s.jobs (p ∷ list)
  pub finished : AllDone s'.jobs (p ∷ list)
  pub active : s'.sche.active_jobs + suc (length list) ≡ s.sche.active_jobs
  pub off : (x : Pointer) → AllNe x (p ∷ list) → s'.jobs x ≡ s.jobs x

-- A waiting chain whose first job alone is in the queue.
record Ready (p : Pointer) (list : List Pointer) (s : System) : Type 0 where
  distinct : Distinct (p ∷ list)
  chained : Chained s.jobs 1 p list
  queue : s.queue ≡ p ∷ []
  state : s.state ≡ opened
  few : s.sche.jobs_completed_epoch + suc (length list) ≤ max_jobs - 20
  counted : suc (length list) ≤ s.sche.active_jobs
  small : s.sche.active_jobs < 2 ^ 64

module _ (p q : Pointer) (list : List Pointer) (s : System) (h : Ready p (q ∷ list) s) where
  passed-Ready : Ready q list (passed p q s)
  unfolding runs
  passed-Ready =
      let h0 : JobHandle = record (s.jobs p) { unfinished = sub_size (s.jobs p).unfinished 1 } in
      let jobs = put s.jobs p h0 in
      let h1 : JobHandle = record (jobs q) { unfinished = sub_size (jobs q).unfinished 1 } in
      let (u, c, more) = h.chained in
      let kept : Chained jobs 2 q list = put-Chained s.jobs p h0 2 q list h.distinct.0 more in
      let two : (jobs q).unfinished ≡ 2 = Chained-head jobs 2 q list kept in
      record {
        distinct = h.distinct.1;
        chained = lower-Chained jobs 2 1 q list h1 (rw two refl) refl h.distinct.1.0 kept;
        queue = refl;
        state = h.state;
        few = omega (arith, h.few);
        counted = omega (arith, h.counted, h.small);
        small = omega (arith, h.counted, h.small);
      }

  passed-SameCalls : SameCalls s.jobs (passed p q s).jobs
  unfolding runs
  passed-SameCalls =
      let jobs = (runs p (record s { queue = [] })).jobs in
      SameCalls-trans s.jobs jobs (passed p q s).jobs (put-SameCalls s.jobs p _ refl refl)
        (put-SameCalls jobs q _ refl refl)

  passed_off : (x : Pointer) → AllNe x (p ∷ q ∷ list) → (passed p q s).jobs x ≡ s.jobs x
  unfolding runs
  passed_off x (ne, (ne', _)) =
      put_off (runs p (record s { queue = [] })).jobs q _ x (λ e. ne' (sym e))
      ∙ put_off s.jobs p _ x (λ e. ne (sym e))

  passed_done : ((passed p q s).jobs p).unfinished ≡ 0
  unfolding runs
  passed_done =
      let jobs = (runs p (record s { queue = [] })).jobs in
      let kept =
        put_off jobs q (record (jobs q) { unfinished = sub_size (jobs q).unfinished 1 }) p
          (λ e. h.distinct.0.0 (sym e))
        ∙ put_at s.jobs p _ in
      ap (λ k. k.unfinished) kept ∙ zero_left
    where
      zero_left : sub_size (s.jobs p).unfinished 1 ≡ 0
      zero_left = rw h.chained.0 refl

ended-RanChain : (p : Pointer) (s : System) → Ready p [] s → RanChain p [] s (ended p s)
unfolding runs
ended-RanChain p s h = record {
  queue = refl;
  ran = refl;
  finished = (ap (λ k. k.unfinished) (put_at s.jobs p _) ∙ rw h.chained.0 refl, tt);
  active = omega (arith, h.counted, h.small);
  off = λ x ne. put_off s.jobs p _ x (λ e. ne.0 (sym e));
}

Ready-RanChain :
    (p : Pointer) (list : List Pointer) (s : System)
    → Ready p list s
    → (s' : System) × (worker_turns (suc (length list)) (some s) ≡ some s') × RanChain p list s s'
unfolding worker_turns runs
Ready-RanChain p [] s h =
    (ended p s, turn_ends p s h.queue h.chained.0 h.chained.1 h.few, ended-RanChain p s h)
Ready-RanChain p (q ∷ list) s h =
    let (u, c, more) = h.chained in
    let turn =
      turn_passes p q s h.queue h.state h.distinct.0.0 u c (Chained-head s.jobs 2 q list more) in
    let (s', goes, r) = Ready-RanChain q list (passed p q s) (passed-Ready p q list s h) in
    (
      s',
      ap (worker_turns (suc (length list))) turn ∙ goes,
      record {
        queue = r.queue;
        ran =
            r.ran
            ∙ ap (λ l. s.ran ++ ((s.jobs p).job, (s.jobs p).ctx) ∷ [] ++ l)
                (calls-SameCalls s.jobs (passed p q s).jobs (q ∷ list)
                  (passed-SameCalls p q list s h))
            ∙ append_assoc s.ran (((s.jobs p).job, (s.jobs p).ctx) ∷ []) (calls s.jobs (q ∷ list));
        finished =
            (ap (λ k. k.unfinished) (r.off p h.distinct.0) ∙ passed_done p q list s h, r.finished);
        active = omega (arith, r.active, h.counted, h.small);
        off = λ x ne. r.off x ne.1 ∙ passed_off p q list s h x ne;
      },
    )

module _ (p : Pointer) (list : List Pointer) (s : System) where
  -- On an open channel with an empty queue, `job_chain_arr` of new, different handles followed by as
  -- many turns of workers as there are jobs runs the jobs in the order of the list, each one once,
  -- and leaves them finished, the queue empty and that many jobs less active, when they were counted
  -- as active before and the epoch stays below its limit.
  pub job_chain_arr_runs :
      Distinct (p ∷ list)
      → AllFresh s.jobs (p ∷ list)
      → s.queue ≡ []
      → s.state ≡ opened
      → s.sche.jobs_completed_epoch + suc (length list) ≤ max_jobs - 20
      → suc (length list) ≤ s.sche.active_jobs
      → s.sche.active_jobs < 2 ^ 64
      → (s1 s' : System) × (job_chain_arr (p ∷ list) s ≡ done s1)
        × (worker_turns (suc (length list)) (some s1) ≡ some s')
        × RanChain p list s s'
  unfolding job_chain_arr
  job_chain_arr_runs distinct (u, c, fresh) queue open_ few counted small =
      let linked = link_all p list s in
      let (l, chained) = link_all_lem p list s 1 distinct u c fresh in
      let s1 : System = record linked { queue = p ∷ [] } in
      let scheduled : threadpool_schedule p linked ≡ s1 =
        schedule_one p linked (Chained-head linked.jobs 1 p list chained) (l.state ∙ open_)
        ∙ ap (λ q. record linked { queue = q ++ p ∷ [] }) (l.queue ∙ queue) in
      let (s', goes, r) = Ready-RanChain p list s1 (record {
        distinct = distinct;
        chained = chained;
        queue = refl;
        state = l.state ∙ open_;
        few = rw l.sche few;
        counted = rw l.sche counted;
        small = rw l.sche small;
      }) in
      (
        s1,
        s',
        ap done scheduled,
        goes,
        record {
          queue = r.queue;
          ran =
              r.ran
              ∙ ap (λ x. x ++ calls linked.jobs (p ∷ list)) l.ran
              ∙ ap (λ x. s.ran ++ x) (calls-SameCalls s.jobs linked.jobs (p ∷ list) l.same);
          finished = r.finished;
          active = r.active ∙ ap (λ x. x.active_jobs) l.sche;
          off = λ x ne. r.off x ne ∙ l.off x ne;
        },
      )
