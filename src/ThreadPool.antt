-- ===== src/ThreadPool.antt =====
-- threadpool/threadpool.h: threads that run the jobs they receive from an MPMC channel.
-- A job is its function and its argument, as numbers; to run it is one step, and what it does is
-- among the other events. A worker receives as the receiver of its number, and each call of
-- `threadpool_execute` is a sender of the channel, with the handle of the dispatcher. `malloc` for
-- the pool, the workers and the handles succeeds.
pub mod Books
pub mod Hands
pub mod Work
pub mod Receives
pub mod Turns
pub mod Moves
pub mod Crews
pub mod Init
pub mod Once
pub mod Joined
pub mod Draining
pub mod Counts
pub mod Handles
pub mod Closing
pub mod Frees
pub mod Shutdown
mod Tests
use mathlib.Core.Logic.{ite}
use mathlib.Core.Option
use seakcutils.Base.{
  ℕ, zero, suc, ◌+◌, Bool, true, false, Option, none, some, List, [], ◌∷◌, ◌++◌, ℤ, mul_size, ◌==◌,
  if◌then◌else◌, get_elem?, eq_ℤ,
}
use seakcutils.Channel.{opened, closed, is_closed, ok, err_null, SendPc, RecvPc}
use seakcutils.Mpmc
use seakcutils.Mpmc.{
  ChannelMpmc, SenderMpmc, ReceiverMpmc, DestroyPc, update, channel_create_mpmc, mpmc_get_sender,
  mpmc_get_receiver, mpmc_close_sender, mpmc_close_receiver, mpmc_is_closed, mpmc_destroy,
  mpmc_destroy_call, mpmc_send_call,
}

-- `__Job__`
pub record Job : Type 0 where
  pub job : ℕ
  pub arg : ℕ

-- The handles may be NULL.
pub record Worker : Type 0 where
  pub receiver : Option ReceiverMpmc
  pub sender : Option SenderMpmc

pub record ThreadPool : Type 0 where
  pub workers : List Worker
  pub num_workers : ℕ
  pub channel : Option (ChannelMpmc Job)
  pub dispatcher : Option SenderMpmc

-- A handle, and the channel that has counted it.
unfoldable pub take_sender :
    {A : Type 0} → Option (ChannelMpmc A) → Option SenderMpmc × Option (ChannelMpmc A)
unfolding mpmc_get_sender
take_sender chan = elim (mpmc_get_sender chan) [
  | none ↦ (none, chan)
  | some (chan', sender) ↦ (some sender, some chan')
]

unfoldable pub take_receiver :
    {A : Type 0} → Option (ChannelMpmc A) → Option ReceiverMpmc × Option (ChannelMpmc A)
unfolding mpmc_get_receiver
take_receiver chan = elim (mpmc_get_receiver chan) [
  | none ↦ (none, chan)
  | some (chan', receiver) ↦ (some receiver, some chan')
]

-- The loop of `threadpool_init`, with `left` workers to go.
unfoldable pub init_workers : ℕ → ThreadPool → ThreadPool
unfolding take_sender take_receiver
init_workers zero tp = tp
init_workers (suc left) tp =
    let (receiver, chan) = take_receiver tp.channel in
    let (sender, chan') = take_sender chan in
    init_workers left (record tp {
      channel = chan';
      workers = tp.workers ++ record { receiver = receiver; sender = sender } ∷ [];
    })

-- `allocated` is the answer of `malloc` for the channel.
unfoldable pub threadpool_init : (allocated : Bool) → ℕ → ThreadPool
unfolding init_workers take_sender channel_create_mpmc
threadpool_init allocated num_threads =
    let (dispatcher, chan) =
      take_sender (channel_create_mpmc allocated (mul_size num_threads 4) 16) in
    init_workers num_threads
      (record { workers = []; num_workers = num_threads; channel = chan; dispatcher = dispatcher })

-- The event on the channel that a call by sender `i` is.
abbrev pub threadpool_execute : ℕ → ℕ → ℕ → Mpmc.Event Job
threadpool_execute i func arg = Mpmc.Event.send i false (record { job = func; arg = arg })

-- Where a worker's thread stands.
pub data WorkerPc : Type 0 where
  call : WorkerPc  -- before the call of `mpmc_recv`
  recv : WorkerPc  -- in the call
  run_job : Option Job → WorkerPc  -- before the call of the job
  test : WorkerPc  -- before `mpmc_is_closed`
  leave_sender : WorkerPc  -- before `mpmc_close_sender`
  leave_receiver : WorkerPc
  exited : WorkerPc

-- Where the call of `threadpool_shutdown` stands.
pub data ShutdownPc : Type 0 where
  not_called : ShutdownPc
  close_dispatcher : ShutdownPc
  close_channel : ShutdownPc
  join : ℕ → ShutdownPc
  destroy : DestroyPc → ShutdownPc

-- The handles of the pool, its channel with the calls on it and the two counters of handles, the
-- threads, and two records of the past that the code does not keep: the ticket on which each worker
-- received last, and the jobs that were run with their tickets, the last one first.
pub record System : Type 0 where
  pub pool : ThreadPool
  pub chan : Mpmc.System Job
  pub prod_cont : ℕ
  pub cons_cont : ℕ
  pub workers : ℕ → WorkerPc
  pub shutdown : ShutdownPc
  pub tickets : ℕ → ℕ
  pub ran : List (ℕ × Option Job)

pub data Event : Type 0 where
  execute : ℕ → ℕ → ℕ → Event  -- a call on a sender at rest, with its job
  step_execute : ℕ → Event
  step_worker : ℕ → Event
  call_shutdown : Event
  step_shutdown : Event

abbrev pub channel_of : System → ChannelMpmc Job
channel_of s = record {
  ring = s.chan.ring;
  elem_size = 16;
  prod_cont = s.prod_cont;
  cons_cont = s.cons_cont;
}

-- A step of a worker in its call of `mpmc_recv`.
unfoldable pub receives : ℕ → RecvPc Job → System → System
receives i (RecvPc.returned code out) s = record s {
  workers = update s.workers i (if eq_ℤ code ok then run_job out else test);
}
receives i (RecvPc.release t out) s = record s {
  chan = Mpmc.happen (Mpmc.Event.step_receiver i) s.chan;
  tickets = update s.tickets i t;
}
receives i _ s = record s { chan = Mpmc.happen (Mpmc.Event.step_receiver i) s.chan }

-- Handles are NULL only beside a NULL channel, on which no system starts.
unfoldable pub closes_sender : Option SenderMpmc → System → System
unfolding mpmc_close_sender
closes_sender none s = s
closes_sender (some sender) s = record s {
  prod_cont = (mpmc_close_sender (channel_of s) sender).0.prod_cont;
}

unfoldable pub closes_receiver : Option ReceiverMpmc → System → System
unfolding mpmc_close_receiver
closes_receiver none s = s
closes_receiver (some receiver) s = record s {
  cons_cont = (mpmc_close_receiver (channel_of s) receiver).0.cons_cont;
}

-- One step of `__set_worker`, by where it stands.
unfoldable pub work : ℕ → Worker → WorkerPc → System → System
unfolding receives closes_sender closes_receiver mpmc_is_closed
work i w call s = record s {
  chan = Mpmc.happen (Mpmc.Event.recv i (Option.map (λ r. r.receiver_state) w.receiver)) s.chan;
  workers = update s.workers i recv;
}
work i w recv s = receives i (s.chan.receivers i) s
work i w (run_job out) s = record s {
  ran = (s.tickets i, out) ∷ s.ran;
  workers = update s.workers i call;
}
work i w test s = record s {
  workers =
      update s.workers i (if is_closed (mpmc_is_closed (channel_of s)) then leave_sender else call);
}
work i w leave_sender s =
    closes_sender w.sender (record s { workers = update s.workers i leave_receiver })
work i w leave_receiver s =
    closes_receiver w.receiver (record s { workers = update s.workers i exited })
work i w exited s = s

-- A thread makes steps once it is created.
unfoldable pub turn : ℕ → Option Worker → System → System
unfolding work
turn i none s = s
turn i (some w) s = work i w (s.workers i) s

abbrev pub is_exited : WorkerPc → Bool
is_exited exited = true
is_exited _ = false

-- One step of `threadpool_shutdown`, by where it stands.
unfoldable pub threadpool_shutdown : ShutdownPc → System → System
unfolding closes_sender mpmc_destroy_call mpmc_destroy
threadpool_shutdown not_called s = s
threadpool_shutdown close_dispatcher s =
    closes_sender s.pool.dispatcher (record s { shutdown = close_channel })
threadpool_shutdown close_channel s = record s {
  chan = Mpmc.happen Mpmc.Event.close s.chan;
  shutdown = join 0;
}
threadpool_shutdown (join x) s =
    if x == s.pool.num_workers
    then record s { shutdown = destroy (mpmc_destroy_call (some (channel_of s))) }
    else if is_exited (s.workers x)
    then record s { shutdown = join (suc x) }
    else s
threadpool_shutdown (destroy pc) s =
    let (pc', chan') = mpmc_destroy pc (channel_of s) in
    record s { shutdown = destroy pc'; chan = record s.chan { ring = chan'.ring } }

-- A pool is shut down once.
abbrev pub calls_shutdown : ShutdownPc → System → System
calls_shutdown not_called s = record s { shutdown = close_dispatcher }
calls_shutdown _ s = s

unfoldable pub happen : Event → System → System
unfolding turn threadpool_shutdown
happen (execute i func arg) s = record s {
  chan = Mpmc.happen (threadpool_execute i func arg) s.chan;
}
happen (step_execute i) s = record s { chan = Mpmc.happen (Mpmc.Event.step_sender i) s.chan }
happen (step_worker i) s = turn i (get_elem? s.pool.workers i) s
happen call_shutdown s = calls_shutdown s.shutdown s
happen step_shutdown s = threadpool_shutdown s.shutdown s

unfoldable pub run : List Event → System → System
run [] s = s
run (e ∷ es) s = run es (happen e s)

-- A new pool with its channel: its threads have been created.
abbrev pub system_of : ThreadPool → ChannelMpmc Job → System
system_of tp chan = record {
  pool = tp;
  chan = Mpmc.system_of chan;
  prod_cont = chan.prod_cont;
  cons_cont = chan.cons_cont;
  workers = λ i. call;
  shutdown = not_called;
  tickets = λ i. 0;
  ran = [];
}
