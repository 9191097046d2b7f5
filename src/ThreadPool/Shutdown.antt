-- ===== src/ThreadPool/Shutdown.antt =====
-- threadpool/threadpool.h: what becomes of the jobs in a pool that is shut down.
use seakcutils.Base.{
  ℕ, ◌+◌, ◌*◌, ◌<◌, ◌≤◌, ◌^◌, ◌≡◌, refl, ap, some, true, ◌⊎◌, inl, inr, arith, get_elem?,
  get_elem?-of_le, List, [], ◌∷◌, length, ◌∙◌, dec_lt,
}
use seakcutils.Channel.{RecvPc, opened}
use seakcutils.Mpmc.{ChannelMpmc, DestroyPc, send_rests}
use seakcutils.ThreadPool.{
  Job, System, Event, step_shutdown, happen, run, threadpool_init, system_of, close_channel,
  destroy, call, exited,
}
use seakcutils.ThreadPool.Books.{In}
use seakcutils.ThreadPool.Moves.{same_pool}
use seakcutils.ThreadPool.Draining.{run-Draining, closing-Draining, ended, AllNoExecute}
use seakcutils.ThreadPool.Joined.{Joined, next-Joined}
use seakcutils.ThreadPool.Init.{threadpool_init-Started}
use seakcutils.ThreadPool.Once.{run-Reached, start-Reached}

run-Joined :
    (es : List Event) (s : System) → Joined s → Joined (run es s) × ((run es s).pool ≡ s.pool)
unfolding run
run-Joined [] s h = (h, refl)
run-Joined (e ∷ es) s h =
    let (h', same) = run-Joined es (happen e s) (next-Joined s h e) in (h', same ∙ same_pool e s)

all_exited :
    {pc : DestroyPc} (s : System)
    → Joined s
    → s.shutdown ≡ destroy pc
    → (y : ℕ) → y < s.pool.num_workers
    → s.workers y ≡ exited
all_exited s h over = rw over at h.joined

ends :
    {pc : DestroyPc} (s : System)
    → Joined s
    → s.shutdown ≡ destroy pc
    → length s.pool.workers ≡ s.pool.num_workers
    → (i : ℕ) → (s.workers i ≡ exited) ⊎ (s.workers i ≡ call)
ends s h over len i = elim (dec_lt i s.pool.num_workers) [
  | yes lt ↦ inl (all_exited s h over i lt)
  | no ge ↦ inr (h.beyond i (get_elem?-of_le s.pool.workers i (omega (arith, ge, len))))
]

module _ (num_threads : ℕ) (one : 1 ≤ num_threads) {chan : ChannelMpmc Job}
    (e : (threadpool_init true num_threads).channel ≡ some chan) (es es' : List Event)
    (small : length es + length es' + num_threads * 4 + 2 < 2 ^ 64) where
  abbrev start : System
  start = system_of (threadpool_init true num_threads) chan

  -- A pool of at least one worker, where `malloc` gave storage for the channel, is about to close its
  -- open channel, no call of `threadpool_execute` is under way, and no worker stands with a ticket that
  -- has a job between its look at the slot and its look at the state. Then, with fewer than
  -- 2 ^ 64 - 4 * num_threads - 2 events of which none after the closing is a new call of
  -- `threadpool_execute`, once the shutdown has joined the threads and destroys the channel, each job
  -- submitted was run, on its ticket.
  pub threadpool_shutdown_drains :
      {pc : DestroyPc}
      → (run es start).shutdown ≡ close_channel
      → (run es start).chan.ring.state ≡ opened
      → ((i : ℕ) → send_rests ((run es start).chan.senders i) ≡ true)
      → ((i t : ℕ)
          → (run es start).chan.receivers i ≡ RecvPc.check t
          → (run es start).chan.ring.head ≤ t)
      → AllNoExecute es'
      → (run es' (happen step_shutdown (run es start))).shutdown ≡ destroy pc
      → (t : ℕ) → t < length (run es start).chan.sent
      → (x : Job) × (get_elem? (run es start).chan.sent t ≡ some x)
        × In (t, some x) (run es' (happen step_shutdown (run es start))).ran
  threadpool_shutdown_drains closing open_ rests waits no_execute over =
      let two : 2 ≤ num_threads * 4 = omega arith in
      let s = run es start in
      let h = run-Reached two es (omega arith) (start-Reached num_threads one (omega arith) e) in
      let s' = happen step_shutdown s in
      let d = closing-Draining num_threads two (omega arith) s h closing open_ rests waits in
      let last = run-Draining two es' (omega arith) no_execute d in
      let (before, pool) = run-Joined es start (record { joined = tt; beyond = λ i at. refl }) in
      let (after, pool') = run-Joined es' s' (next-Joined s before step_shutdown) in
      let same = pool' ∙ same_pool step_shutdown s ∙ pool in
      let (_, len, num) = threadpool_init-Started num_threads (omega arith) in
      let end = run es' s' in
      let workers : (i : ℕ) → (end.workers i ≡ exited) ⊎ (end.workers i ≡ call) =
        ends end after over (
          omega (arith, ap (λ p. length p.workers) same, ap (λ p. p.num_workers) same, len, num)) in
      let first : end.workers 0 ≡ exited =
        all_exited end after over 0 (omega (arith, one, num, ap (λ p. p.num_workers) same)) in
      ended end last workers first two
