-- ===== src/ThreadPool/Tests.antt =====
-- A pool of one thread, and one job: it runs, or it waits while the pool is shut down.
use seakcutils.ThreadPool.Hands.{update_off}
use seakcutils.Base.{
  ◌+◌, ℕ, zero, suc, ◌≤◌, ◌≡◌, refl, none, some, true, arith, get_elem?, List, [], ◌∷◌, ◌++◌,
  length, ℕ_discrete,
}
use seakcutils.Channel.{ok, err_null, SendPc, RecvPc, opened, recv_step, send_step}
use seakcutils.Mpmc
use seakcutils.Mpmc.{
  update, ChannelMpmc, DestroyPc, send_rests, channel_create_mpmc, mpmc_get_sender,
  mpmc_get_receiver,
}
use seakcutils.Mpmc.Invariant.{AllGot, Apart}
use seakcutils.ThreadPool.{
  Job, System, Event, execute, step_execute, step_worker, call_shutdown, step_shutdown, happen, run,
  turn, work, receives, threadpool_init, take_sender, take_receiver, init_workers,
  threadpool_shutdown, system_of, close_channel, destroy, closes_sender, closes_receiver,
}
use seakcutils.ThreadPool.Init.{Started, new_channel, threadpool_init-Started}
use seakcutils.ThreadPool.Books.{In}
use seakcutils.ThreadPool.Frees.{threadpool_shutdown_frees}
use seakcutils.ThreadPool.Once.{threadpool_runs_once}
use seakcutils.ThreadPool.Shutdown.{threadpool_shutdown_drains}

abbrev chan : ChannelMpmc Job
chan = record {
  ring = record {
    slots = λ i. record { elem = none; seq = i };
    capacity = 4;
    head = 0;
    tail = 0;
    state = opened;
  };
  elem_size = 16;
  prod_cont = 2;
  cons_cont = 1;
}

made : (threadpool_init true 1).channel ≡ some chan
unfolding threadpool_init init_workers take_sender take_receiver channel_create_mpmc mpmc_get_sender
    mpmc_get_receiver
made = refl

abbrev start : System
start = system_of (threadpool_init true 1) chan

abbrev executed : List Event
executed =
    execute 0 1 2
    ∷ step_execute 0
    ∷ step_execute 0
    ∷ step_execute 0
    ∷ step_execute 0
    ∷ step_execute 0
    ∷ []

-- A call of `mpmc_recv` and the job.
abbrev worked : List Event
worked =
    step_worker 0
    ∷ step_worker 0
    ∷ step_worker 0
    ∷ step_worker 0
    ∷ step_worker 0
    ∷ step_worker 0
    ∷ step_worker 0
    ∷ step_worker 0
    ∷ []

was_run : (run (executed ++ worked) start).ran ≡ (0, some (record { job = 1; arg = 2 })) ∷ []
unfolding run happen turn work receives Mpmc.happen send_step recv_step ℕ_discrete threadpool_init
    init_workers take_sender take_receiver channel_create_mpmc mpmc_get_sender mpmc_get_receiver
was_run = refl

threadpool_runs_once_example :
    AllGot
      (λ g.
        (x : Job) × (g.1 ≡ some x)
        × (get_elem? (run (executed ++ worked) start).chan.sent g.0 ≡ some x))
      (run (executed ++ worked) start).ran
    × Apart (run (executed ++ worked) start).ran
threadpool_runs_once_example =
    threadpool_runs_once 1 (omega arith) (omega arith) made (executed ++ worked) (omega arith)

-- The shutdown is about to close the channel.
abbrev closing : List Event
closing = executed ++ (call_shutdown ∷ step_shutdown ∷ [])

-- The job runs, the thread ends, and the shutdown joins it.
abbrev drained : List Event
drained = worked ++ worked ++ (step_worker 0 ∷ step_shutdown ∷ step_shutdown ∷ [])

-- The places where sender 0 has stood, the last one first.
abbrev senders_of : List (SendPc Job) → ℕ → SendPc Job
senders_of [] = λ i. SendPc.returned err_null
senders_of (p ∷ ps) = update (senders_of ps) 0 p

others_rest : (ps : List (SendPc Job)) (i : ℕ) → send_rests (senders_of ps (suc i)) ≡ true
others_rest [] i = refl
others_rest (p ∷ ps) i =
    rw (update_off (senders_of ps) 0 p (suc i) (λ e. omega (arith, e))) (others_rest ps i)

senders_rest : (i : ℕ) → send_rests ((run closing start).chan.senders i) ≡ true
unfolding run happen threadpool_shutdown closes_sender Mpmc.happen send_step ℕ_discrete
    threadpool_init init_workers take_sender take_receiver channel_create_mpmc mpmc_get_sender
    mpmc_get_receiver
senders_rest zero = refl
senders_rest (suc i) =
    let x : Job = record { job = 1; arg = 2 } in
    others_rest
      (SendPc.returned ok
        ∷ SendPc.publish 0 x
        ∷ SendPc.copy 0 x
        ∷ SendPc.wait 0 x
        ∷ SendPc.draw x
        ∷ SendPc.start x
        ∷ [])
      i

is_closing : (run closing start).shutdown ≡ close_channel
unfolding run happen threadpool_shutdown closes_sender Mpmc.happen send_step ℕ_discrete
    threadpool_init init_workers take_sender take_receiver channel_create_mpmc mpmc_get_sender
    mpmc_get_receiver
is_closing = refl

is_over :
    (run drained (happen step_shutdown (run closing start))).shutdown ≡ destroy DestroyPc.start
unfolding run happen turn work receives threadpool_shutdown closes_sender closes_receiver
    Mpmc.happen send_step recv_step ℕ_discrete threadpool_init init_workers take_sender
    take_receiver channel_create_mpmc mpmc_get_sender mpmc_get_receiver
is_over = refl

still_open : (run closing start).chan.ring.state ≡ opened
unfolding run happen threadpool_shutdown closes_sender Mpmc.happen send_step ℕ_discrete
    threadpool_init init_workers take_sender take_receiver channel_create_mpmc mpmc_get_sender
    mpmc_get_receiver
still_open = refl

none_waits :
    (i t : ℕ)
    → (run closing start).chan.receivers i ≡ RecvPc.check t
    → (run closing start).chan.ring.head ≤ t
unfolding run happen threadpool_shutdown closes_sender Mpmc.happen send_step ℕ_discrete
    threadpool_init init_workers take_sender take_receiver channel_create_mpmc mpmc_get_sender
    mpmc_get_receiver
none_waits i t e = cc

one_sent : length (run closing start).chan.sent ≡ 1
unfolding run happen threadpool_shutdown closes_sender Mpmc.happen send_step ℕ_discrete
    threadpool_init init_workers take_sender take_receiver channel_create_mpmc mpmc_get_sender
    mpmc_get_receiver
one_sent = refl

threadpool_shutdown_drains_example :
    (x : Job) × (get_elem? (run closing start).chan.sent 0 ≡ some x)
    × In (0, some x) (run drained (happen step_shutdown (run closing start))).ran
threadpool_shutdown_drains_example =
    threadpool_shutdown_drains 1 (omega arith) made closing drained (omega arith) is_closing
      still_open senders_rest none_waits
      (
        tt,
        (
          tt,
          (
            tt,
            (
              tt,
              (
                tt,
                (
                  tt,
                  (tt, (tt, (tt, (tt, (tt, (tt, (tt, (tt, (tt, (tt, (tt, (tt, (tt, tt))))))))))))),
                ),
              ),
            ),
          ),
        ),
      )
      is_over 0 (omega (arith, one_sent))

threadpool_init-Started_example :
    Started (new_channel 3).ring (1 + 3) 3 (threadpool_init true 3)
    × (length (threadpool_init true 3).workers ≡ 3)
    × ((threadpool_init true 3).num_workers ≡ 3)
threadpool_init-Started_example = threadpool_init-Started 3 (omega arith)

threadpool_shutdown_frees_example :
    ((run drained (happen step_shutdown (run closing start))).prod_cont ≡ 0)
    × ((run drained (happen step_shutdown (run closing start))).cons_cont ≡ 0)
    × ((run
          (step_shutdown ∷ step_shutdown ∷ step_shutdown ∷ [])
          (run drained (happen step_shutdown (run closing start)))).shutdown
        ≡ destroy DestroyPc.freed)
unfolding run
threadpool_shutdown_frees_example =
    threadpool_shutdown_frees 1 (omega arith) made (closing ++ step_shutdown ∷ drained) is_over
