-- ===== src/JobSystem/Closing.antt =====
-- job_system/jobsystem.h: the threads and the shutdown once the channel is closed.
use mathlib.Core.Path.{subst}
use seakcutils.Base.{
  List, ℕ, ◌+◌, ◌*◌, ◌-◌, ◌^◌, ◌≤◌, ◌<◌, ◌≡◌, ◌≢◌, ◌∙◌, refl, ap, some, length, arith, ℕ_discrete,
  done,
}
use seakcutils.Channel.{closed}
use seakcutils.Mpmc.{update}
use seakcutils.ThreadPool.Hands.{update_at, update_off}
use seakcutils.RegionArena.{RegionArena, r_arena_free}
use seakcutils.JobSystem.{max_jobs}
use seakcutils.JobSystem.Worker.{WorkerPc, Shared, exited, set_worker, Crew, step}
use seakcutils.JobSystem.Shutdown.{
  ClosingPc, close_dispatcher, close_channel, join, close_again, load_cons, load_prod, free_arena,
  returned, trapped, State, worker, happen,
}
use seakcutils.JobSystem.Sums.{sum, sum-update, sum_member, sum_exited}
use seakcutils.JobSystem.Budget.{left, senders, receivers, IsOut, set_worker-Step}

module _ (n : ℕ) (freed : RegionArena {0} Unit) where
  -- Every thread has ended.
  abbrev pub Ended : (ℕ → WorkerPc) → Type 0
  Ended workers = (j : ℕ) → j < n → workers j ≡ exited

  abbrev pub Held : RegionArena {0} Unit → Type 0
  Held arena = (regions : List ℕ) × (r_arena_free (some arena) ≡ done (some freed, regions))

  abbrev pub Place : ClosingPc → Crew → Type 0
  Place (join x) s =
      (x ≤ n) × ((j : ℕ) → j < x → s.workers j ≡ exited) × Held s.shared.base.sche.job_arena
  Place close_again s = Ended s.workers × Held s.shared.base.sche.job_arena
  Place load_cons s = Ended s.workers × Held s.shared.base.sche.job_arena
  Place (load_prod cons_cont) s =
      Ended s.workers × Held s.shared.base.sche.job_arena × (cons_cont ≡ 0)
  Place free_arena s = Ended s.workers × Held s.shared.base.sche.job_arena
  Place returned s = Ended s.workers × (s.shared.base.sche.job_arena ≡ freed)
  Place _ s = ⊥

  abbrev pub closing : ClosingPc → ℕ
  closing (join x) = n - x + 5
  closing close_again = 4
  closing load_cons = 3
  closing (load_prod cons_cont) = 2
  closing free_arena = 1
  closing _ = 0

  abbrev pub budget : State → ℕ
  budget s = sum left n s.crew.workers + 10 * length s.crew.shared.base.queue + closing s.shutdown

  pub record Inv (s : State) : Type 0 where
    pub state : s.crew.shared.base.state ≡ closed
    pub out : (j : ℕ) → IsOut (s.crew.workers j)
    pub prods : s.crew.shared.prod_cont ≡ sum senders n s.crew.workers
    pub conss : s.crew.shared.cons_cont ≡ sum receivers n s.crew.workers
    pub small : (s.crew.shared.prod_cont < 2 ^ 64) × (s.crew.shared.cons_cont < 2 ^ 64)
    pub room : s.crew.shared.base.sche.jobs_completed_epoch + budget s ≤ max_jobs - 20
    pub place : Place s.shutdown s.crew

  -- Beside a thread that has not ended, the shutdown is in its join.
  beside :
      (pc : ClosingPc) (s : Crew) (i : ℕ) (to : WorkerPc) (shared : Shared)
      → i < n
      → s.workers i ≢ exited
      → shared.base.sche.job_arena ≡ s.shared.base.sche.job_arena
      → Place pc s
      → Place pc (record { shared = shared; workers = update s.workers i to })
  beside (join x) s i to shared lt ne same (le, ended, held) = (
    le,
    λ j below.
        update_off s.workers i to j (λ e. ne (ap s.workers e ∙ ended j below)) ∙ ended j below,
    rw same held,
  )
  beside close_again s i to shared lt ne same h = absurd (ne (h.0 i lt))
  beside load_cons s i to shared lt ne same h = absurd (ne (h.0 i lt))
  beside (load_prod c) s i to shared lt ne same h = absurd (ne (h.0 i lt))
  beside free_arena s i to shared lt ne same h = absurd (ne (h.0 i lt))
  beside returned s i to shared lt ne same h = absurd (ne (h.0 i lt))
  beside close_dispatcher s i to shared lt ne same h = absurd h
  beside close_channel s i to shared lt ne same h = absurd h
  beside trapped s i to shared lt ne same h = absurd h

  module _ (s : State) (v : Inv s) where
    open v use {state, out, prods, conss, small, room, place}

    pub worker-Inv :
        (i : ℕ)
        → i < n
        → s.crew.workers i ≢ exited
        → Inv (happen n (worker i) s) × (budget (happen n (worker i) s) + 1 ≤ budget s)
    unfolding happen step
    worker-Inv i lt ne =
        let w = s.crew.workers in
        let pc = w i in
        let to = (set_worker pc s.crew.shared).0 in
        let p_in = sum_member senders n i w lt in
        let c_in = sum_member receivers n i w lt in
        let st =
          set_worker-Step s.crew.shared state pc (out i) ne (omega (arith, room))
            (omega (arith, p_in, prods)) small.0 (omega (arith, c_in, conss)) small.1 in
        let p_sum = sum-update senders w i to n lt in
        let c_sum = sum-update receivers w i to n lt in
        let l_sum = sum-update left w i to n lt in
        let less : budget (happen n (worker i) s) + 1 ≤ budget s = omega (arith, st.less, l_sum) in
        (
          record {
            state = st.state;
            out = λ j. elim (ℕ_discrete i j) [
              | yes e ↦ subst (λ k. IsOut (update w i to k)) e (rw (update_at w i to) st.out)
              | no off ↦ rw (update_off w i to j off) (out j)
            ];
            prods = omega (arith, st.prods, p_sum, prods);
            conss = omega (arith, st.conss, c_sum, conss);
            small = (omega (arith, st.fewer.0, small.0), omega (arith, st.fewer.1, small.1));
            room = omega (arith, st.epoch, less, room);
            place = beside s.shutdown s.crew i to _ lt ne st.arena place;
          },
          less,
        )

    -- The shutdown goes on to `pc`, and shares what it did.
    pub moved :
        (pc : ClosingPc)
        → Place pc s.crew
        → closing pc + 1 ≤ closing s.shutdown
        → Inv (record s { shutdown = pc }) × (budget (record s { shutdown = pc }) + 1 ≤ budget s)
    moved pc place' less = (
      record {
        state = state;
        out = out;
        prods = prods;
        conss = conss;
        small = small;
        room = omega (arith, less, room);
        place = place';
      },
      omega (arith, less),
    )

    pub prods_zero : Ended s.crew.workers → s.crew.shared.prod_cont ≡ 0
    prods_zero ended = prods ∙ sum_exited senders n s.crew.workers refl ended

    pub conss_zero : Ended s.crew.workers → s.crew.shared.cons_cont ≡ 0
    conss_zero ended = conss ∙ sum_exited receivers n s.crew.workers refl ended
