-- ===== src/JobSystem/Start.antt =====
-- job_system/jobsystem.h: `threadpool_init_for_scheduler`, and a job system from its start to its end.
use seakcutils.Base.{
  ℕ, zero, suc, ◌+◌, ◌^◌, ◌<◌, ◌≡◌, refl, ap, Bool, true, Option, none, some, List, [], ◌∷◌, ◌++◌,
  length, arith, add_size,
}
use seakcutils.Channel.{Ring, opened}
use seakcutils.Mpmc.{
  ChannelMpmc, SenderMpmc, channel_create_mpmc, mpmc_get_sender, mpmc_get_receiver,
}
use seakcutils.ThreadPool.{Worker, take_sender, take_receiver}
use seakcutils.JobSystem.{Pointer, max_jobs}

-- The pool, whose channel has the pointers of jobs.
pub record Pool : Type 0 where
  pub workers : List Worker
  pub num_workers : ℕ
  pub channel : Option (ChannelMpmc Pointer)
  pub dispatcher : Option SenderMpmc

-- The loop, with `left` workers to go.
unfoldable pub start_workers : ℕ → Pool → Pool
unfolding take_sender take_receiver
start_workers zero tp = tp
start_workers (suc left) tp =
    let (receiver, chan) = take_receiver tp.channel in
    let (sender, chan') = take_sender chan in
    start_workers left (record tp {
      channel = chan';
      workers = tp.workers ++ record { receiver = receiver; sender = sender } ∷ [];
    })

-- `allocated` is the answer of `malloc` for the channel.
unfoldable pub threadpool_init_for_scheduler : (allocated : Bool) → ℕ → Pool
unfolding start_workers take_sender channel_create_mpmc
threadpool_init_for_scheduler allocated num_threads =
    let (dispatcher, chan) = take_sender (channel_create_mpmc allocated max_jobs 8) in
    start_workers num_threads
      (record { workers = []; num_workers = num_threads; channel = chan; dispatcher = dispatcher })

-- The pool has a channel with this ring, and this many handles and workers.
pub record Started (ring : Ring Pointer) (prods conss count : ℕ) (tp : Pool) : Type 0 where
  pub chan : ChannelMpmc Pointer
  pub made : tp.channel ≡ some chan
  pub same : chan.ring ≡ ring
  pub senders : chan.prod_cont ≡ prods
  pub receivers : chan.cons_cont ≡ conss
  pub all : length tp.workers ≡ count

length-snoc : (ws : List Worker) (w : Worker) → length (ws ++ w ∷ []) ≡ suc (length ws)
length-snoc [] w = refl
length-snoc (x ∷ ws) w = ap suc (length-snoc ws w)

start_workers-Started :
    (left : ℕ) (tp : Pool) (chan : ChannelMpmc Pointer)
    → chan.prod_cont + left < 2 ^ 64
    → chan.cons_cont + left < 2 ^ 64
    → Started chan.ring
        (chan.prod_cont + left)
        (chan.cons_cont + left)
        (length tp.workers + left)
        (start_workers left (record tp { channel = some chan }))
unfolding start_workers take_sender take_receiver mpmc_get_sender mpmc_get_receiver
start_workers-Started zero tp chan lt lt' = record {
  chan = chan;
  made = refl;
  same = refl;
  senders = omega arith;
  receivers = omega arith;
  all = omega arith;
}
start_workers-Started (suc left) tp chan lt lt' =
    let w : Worker = record {
      receiver = (take_receiver (some chan)).0;
      sender = (take_sender (some chan)).0;
    } in
    let chan' : ChannelMpmc Pointer = record chan {
      prod_cont = add_size chan.prod_cont 1;
      cons_cont = add_size chan.cons_cont 1;
    } in
    let prods : add_size chan.prod_cont 1 ≡ chan.prod_cont + 1 = omega arith in
    let conss : add_size chan.cons_cont 1 ≡ chan.cons_cont + 1 = omega arith in
    let st =
      start_workers-Started left (record tp { workers = tp.workers ++ w ∷ [] }) chan'
        (omega (arith, prods, lt)) (omega (arith, conss, lt')) in
    record {
      chan = st.chan;
      made = st.made;
      same = st.same;
      senders = omega (arith, st.senders, prods);
      receivers = omega (arith, st.receivers, conss);
      all = omega (arith, st.all, length-snoc tp.workers w);
    }

-- The ring of a new channel for the pointers of jobs.
abbrev pub new_ring : Ring Pointer
new_ring = record {
  slots = λ i. record { elem = none; seq = i };
  capacity = max_jobs;
  head = 0;
  tail = 0;
  state = opened;
}

-- Where `malloc` gives storage for the channel and fewer than 2 ^ 64 - 1 threads are asked for,
-- `threadpool_init_for_scheduler` gives a pool of as many workers, whose channel is open and empty,
-- has a slot for each job that there may be, and counts a sender and a receiver for each worker, and
-- one sender more for the dispatcher.
pub threadpool_init_for_scheduler-Started :
    (num_threads : ℕ)
    → num_threads + 1 < 2 ^ 64
    → Started new_ring
        (num_threads + 1)
        num_threads
        num_threads
        (threadpool_init_for_scheduler true num_threads)
unfolding threadpool_init_for_scheduler take_sender mpmc_get_sender channel_create_mpmc
threadpool_init_for_scheduler-Started num_threads lt =
    let chan : ChannelMpmc Pointer = record {
      ring = new_ring;
      elem_size = 8;
      prod_cont = 1;
      cons_cont = 0;
    } in
    let tp : Pool = record {
      workers = [];
      num_workers = num_threads;
      channel = none;
      dispatcher = (take_sender (some chan)).0;
    } in
    let st = start_workers-Started num_threads tp chan (omega (arith, lt)) (omega (arith, lt)) in
    record {
      chan = st.chan;
      made = st.made;
      same = st.same;
      senders = omega (arith, st.senders);
      receivers = omega (arith, st.receivers);
      all = omega (arith, st.all);
    }
