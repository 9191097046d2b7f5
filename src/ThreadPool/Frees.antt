-- ===== src/ThreadPool/Frees.antt =====
-- threadpool/threadpool.h: `threadpool_shutdown` comes to its end once it has joined the threads.
use mathlib.Core.Option
use mathlib.Core.Option.{some-injective}
use mathlib.Core.Path.{subst}
use seakcutils.Base.{
  ℕ, ◌*◌, ◌^◌, ◌<◌, ◌≡◌, ◌∙◌, refl, sym, ap, some, true, List, [], ◌∷◌, arith, inl, inr,
  Option-cases,
}
use seakcutils.Channel.{opened}
use seakcutils.Mpmc.{ChannelMpmc, DestroyPc, ReceiverMpmc, mpmc_destroy, mpmc_close}
use seakcutils.ThreadPool.{
  Job, System, Worker, Event, step_shutdown, happen, run, threadpool_init, threadpool_shutdown,
  system_of, destroy, exited, call, is_exited,
}
use seakcutils.ThreadPool.Counts.{count-all, count-none}
use seakcutils.ThreadPool.Handles.{Handles, left_sender, dispatcher_left}
use seakcutils.ThreadPool.Closing.{Owned, next-Handles}
use seakcutils.ThreadPool.Joined.{Joined, next-Joined}
use seakcutils.ThreadPool.Moves.{same_pool}
use seakcutils.ThreadPool.Init.{threadpool_init-Started}

run-Handles :
    (es : List Event) (s : System)
    → Handles s
    → Owned s.pool
    → Joined s
    → Handles (run es s) × Joined (run es s)
unfolding run
run-Handles [] s h owned j = (h, j)
run-Handles (e ∷ es) s h owned j =
    run-Handles es (happen e s) (next-Handles s h owned e) (subst Owned (sym (same_pool e s)) owned)
      (next-Joined s j e)

-- With all handles closed, the loop of `mpmc_destroy` ends at once.
destroys :
    (s : System)
    → s.shutdown ≡ destroy DestroyPc.start
    → s.prod_cont ≡ 0
    → s.cons_cont ≡ 0
    → (run (step_shutdown ∷ step_shutdown ∷ step_shutdown ∷ []) s).shutdown
      ≡ destroy DestroyPc.freed
unfolding run happen threadpool_shutdown mpmc_destroy mpmc_close
destroys s at prods conss = rw (at, conss, prods) refl

has_receiver :
    (w : Worker)
    → Option.map (λ r. r.receiver_state) w.receiver ≡ some opened
    → (x : ReceiverMpmc) × (w.receiver ≡ some x)
has_receiver w e = elim (Option-cases w.receiver) [
  | inl none_ ↦ absurd (cc (rw none_ at e))
  | inr found ↦ found
]

-- When all threads have ended and the dispatcher is closed, no handle is open.
all_closed :
    (s : System)
    → Handles s
    → Joined s
    → s.shutdown ≡ destroy DestroyPc.start
    → (s.prod_cont ≡ 0) × (s.cons_cont ≡ 0)
all_closed s h j over =
    let out : (y : ℕ) → y < s.pool.num_workers → s.workers y ≡ exited = rw over at j.joined in
    let left =
      count-all (λ i. left_sender (s.workers i)) s.pool.num_workers
        (λ y lt. ap left_sender (out y lt)) in
    let gone =
      count-all (λ i. is_exited (s.workers i)) s.pool.num_workers
        (λ y lt. ap is_exited (out y lt)) in
    (omega (arith, h.0, left, ap dispatcher_left over), omega (arith, h.1, gone))

module _ (num_threads : ℕ) (lt : num_threads * 4 < 2 ^ 64) {chan : ChannelMpmc Job}
    (e : (threadpool_init true num_threads).channel ≡ some chan) where
  start-Owned : Owned (threadpool_init true num_threads)
  start-Owned =
      let (st, len, num) = threadpool_init-Started num_threads lt in
      record {
        sized = len ∙ sym num;
        senders = λ i w at. (st.ready i w at).1;
        receivers = λ i w at. has_receiver w (st.ready i w at).0;
        dispatcher = st.dispatched;
        small = omega (arith, num, lt);
      }

  start-Handles : Handles (system_of (threadpool_init true num_threads) chan)
  start-Handles =
      let (st, len, num) = threadpool_init-Started num_threads lt in
      let n = (threadpool_init true num_threads).num_workers in
      let same : chan ≡ st.chan = some-injective _ _ (sym e ∙ st.made) in
      let none_left = count-none (λ i. left_sender call) n (λ j. refl) in
      let none_gone = count-none (λ i. is_exited call) n (λ j. refl) in
      (
        omega (arith, ap (λ c. c.prod_cont) same, st.senders, num, none_left),
        omega (arith, ap (λ c. c.cons_cont) same, st.receivers, num, none_gone),
      )

  -- In a pool of which 4 * num_threads stays below 2 ^ 64, where `malloc` gives storage for the channel,
  -- whatever the events, once the shutdown has joined the threads, each handle of the channel was
  -- closed, and three more steps of it bring `mpmc_destroy` to the end of its loop.
  pub threadpool_shutdown_frees :
      (es : List Event)
      → (run es (system_of (threadpool_init true num_threads) chan)).shutdown
        ≡ destroy DestroyPc.start
      → ((run es (system_of (threadpool_init true num_threads) chan)).prod_cont ≡ 0)
        × ((run es (system_of (threadpool_init true num_threads) chan)).cons_cont ≡ 0)
        × ((run
              (step_shutdown ∷ step_shutdown ∷ step_shutdown ∷ [])
              (run es (system_of (threadpool_init true num_threads) chan))).shutdown
            ≡ destroy DestroyPc.freed)
  threadpool_shutdown_frees es over =
      let s = run es (system_of (threadpool_init true num_threads) chan) in
      let j : Joined (system_of (threadpool_init true num_threads) chan) = record {
        joined = tt;
        beyond = λ i at. refl;
      } in
      let (h, j') = run-Handles es _ start-Handles start-Owned j in
      let (prods, conss) = all_closed s h j' over in (prods, conss, destroys s over prods conss)
