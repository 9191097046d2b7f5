-- ===== src/ThreadPool/Closing.antt =====
-- threadpool/threadpool.h: every event keeps the counters of the channel equal to the open handles.
use mathlib.Core.Path.{subst}
use seakcutils.Base.{
  ℕ, ◌+◌, ◌^◌, ◌<◌, ◌≡◌, ◌∙◌, refl, sym, ap, Option, none, some, arith, inl, inr, Bool-cases, eq_ℤ,
  get_elem?, length, dec_lt, get_elem?-of_le, ◌==◌,
}
use seakcutils.Channel.{RecvPc, ok, is_closed}
use seakcutils.Mpmc.{
  SenderMpmc, ReceiverMpmc, update, mpmc_close_sender, mpmc_close_receiver, mpmc_is_closed,
}
use seakcutils.ThreadPool.{
  System, Worker, ThreadPool, WorkerPc, call, recv, run_job, test, leave_sender, leave_receiver,
  exited, work, turn, calls_shutdown, receives, closes_sender, closes_receiver, channel_of,
  is_exited, Job, ShutdownPc, not_called, close_dispatcher, close_channel, join, destroy,
  threadpool_shutdown, Event, execute, step_execute, step_worker, call_shutdown, step_shutdown,
  happen,
}
use seakcutils.ThreadPool.Counts.{count_le}
use seakcutils.ThreadPool.Handles.{
  Handles, left_sender, turn-Counted, sender-Counted, receiver-Counted,
}

-- The pool has as many workers as it says, and no handle is NULL.
pub record Owned (p : ThreadPool) : Type 0 where
  pub sized : length p.workers ≡ p.num_workers
  pub senders :
      (i : ℕ) (w : Worker) → get_elem? p.workers i ≡ some w → (x : SenderMpmc) × (w.sender ≡ some x)
  pub receivers :
      (i : ℕ) (w : Worker)
      → get_elem? p.workers i ≡ some w
      → (x : ReceiverMpmc) × (w.receiver ≡ some x)
  pub dispatcher : (x : SenderMpmc) × (p.dispatcher ≡ some x)
  pub small : 1 + p.num_workers < 2 ^ 64

module _ (s : System) (h : Handles s) (small : 1 + s.pool.num_workers < 2 ^ 64) (i : ℕ) where
  stays-Handles :
      (w w' : WorkerPc)
      → s.workers i ≡ w
      → left_sender w' ≡ left_sender w
      → is_exited w' ≡ is_exited w
      → Handles (record s { workers = update s.workers i w' })
  stays-Handles w w' at e e' =
      turn-Counted s.pool.num_workers s.prod_cont s.cons_cont s.workers s.shutdown i h small w'
        (e ∙ sym (ap left_sender at)) (e' ∙ sym (ap is_exited at))

  receives-Handles : (p : RecvPc Job) → s.workers i ≡ recv → Handles (receives i p s)
  unfolding receives
  receives-Handles (RecvPc.returned code out) at = elim (Bool-cases (eq_ℤ code ok)) [
    | inl e ↦ rw e (stays-Handles recv (run_job out) at refl refl)
    | inr e ↦ rw e (stays-Handles recv test at refl refl)
  ]
  receives-Handles (RecvPc.release t out) at = h
  receives-Handles (RecvPc.start st) at = h
  receives-Handles RecvPc.draw at = h
  receives-Handles (RecvPc.wait t) at = h
  receives-Handles (RecvPc.check t) at = h
  receives-Handles (RecvPc.copy t) at = h
  receives-Handles RecvPc.trapped at = h

  closes_sender-Handles :
      (x : SenderMpmc)
      → i < s.pool.num_workers
      → s.workers i ≡ leave_sender
      → Handles (closes_sender (some x) (record s { workers = update s.workers i leave_receiver }))
  unfolding closes_sender mpmc_close_sender
  closes_sender-Handles x lt at =
      sender-Counted s.pool.num_workers s.prod_cont s.cons_cont s.workers s.shutdown i h small lt at

  closes_receiver-Handles :
      (x : ReceiverMpmc)
      → i < s.pool.num_workers
      → s.workers i ≡ leave_receiver
      → Handles (closes_receiver (some x) (record s { workers = update s.workers i exited }))
  unfolding closes_receiver mpmc_close_receiver
  closes_receiver-Handles x lt at =
      receiver-Counted s.pool.num_workers s.prod_cont s.cons_cont s.workers s.shutdown i h small lt
        at

  work-Handles :
      (w : Worker)
      → i < s.pool.num_workers
      → (x : SenderMpmc) × (w.sender ≡ some x)
      → (x : ReceiverMpmc) × (w.receiver ≡ some x)
      → (pc : WorkerPc) → s.workers i ≡ pc
      → Handles (work i w pc s)
  unfolding work
  work-Handles w lt (x, e) (y, e') call at = stays-Handles call recv at refl refl
  work-Handles w lt (x, e) (y, e') recv at = receives-Handles (s.chan.receivers i) at
  work-Handles w lt (x, e) (y, e') (run_job out) at = stays-Handles (run_job out) call at refl refl
  work-Handles w lt (x, e) (y, e') test at =
      elim (Bool-cases (is_closed (mpmc_is_closed (channel_of s)))) [
        | inl c ↦ rw c (stays-Handles test leave_sender at refl refl)
        | inr c ↦ rw c (stays-Handles test call at refl refl)
      ]
  work-Handles w lt (x, e) (y, e') leave_sender at =
      subst
        (λ o. Handles (closes_sender o (record s { workers = update s.workers i leave_receiver })))
        (sym e) (closes_sender-Handles x lt at)
  work-Handles w lt (x, e) (y, e') leave_receiver at =
      subst (λ o. Handles (closes_receiver o (record s { workers = update s.workers i exited })))
        (sym e') (closes_receiver-Handles y lt at)
  work-Handles w lt (x, e) (y, e') exited at = h

module _ (s : System) (h : Handles s) (owned : Owned s.pool) where
  turn-Handles : (i : ℕ) (o : Option Worker) → get_elem? s.pool.workers i ≡ o → Handles (turn i o s)
  unfolding turn
  turn-Handles i none at = h
  turn-Handles i (some w) at = elim (dec_lt i s.pool.num_workers) [
    | yes lt ↦
        work-Handles s h owned.small i w lt (owned.senders i w at) (owned.receivers i w at)
          (s.workers i) refl
    | no ge ↦ absurd (cc (get_elem?-of_le s.pool.workers i (omega (arith, ge, owned.sized))))
  ]

  calls_shutdown-Handles : (pc : ShutdownPc) → s.shutdown ≡ pc → Handles (calls_shutdown pc s)
  calls_shutdown-Handles not_called at = rw at at h
  calls_shutdown-Handles close_dispatcher at = h
  calls_shutdown-Handles close_channel at = h
  calls_shutdown-Handles (join x) at = h
  calls_shutdown-Handles (destroy pc) at = h

  dispatcher-Handles :
      (x : SenderMpmc)
      → s.shutdown ≡ close_dispatcher
      → Handles (closes_sender (some x) (record s { shutdown = close_channel }))
  unfolding closes_sender mpmc_close_sender
  dispatcher-Handles x at =
      let (a, b) : Handles (record s { shutdown = close_dispatcher }) = rw at at h in
      (
        omega (arith, a, count_le (λ j. left_sender (s.workers j)) s.pool.num_workers, owned.small),
        b,
      )

  shutdown-Handles : (pc : ShutdownPc) → s.shutdown ≡ pc → Handles (threadpool_shutdown pc s)
  unfolding threadpool_shutdown
  shutdown-Handles not_called at = h
  shutdown-Handles close_dispatcher at =
      let (x, e) = owned.dispatcher in
      subst (λ o. Handles (closes_sender o (record s { shutdown = close_channel }))) (sym e)
        (dispatcher-Handles x at)
  shutdown-Handles close_channel at = rw at at h
  shutdown-Handles (join x) at =
      let here : Handles (record s { shutdown = join x }) = rw at at h in
      elim (Bool-cases (x == s.pool.num_workers)) [
        | inl e ↦ rw e here
        | inr e ↦ elim (Bool-cases (is_exited (s.workers x))) [
          | inl e' ↦ rw (e, e') here
          | inr e' ↦ rw (e, e') h
        ]
      ]
  shutdown-Handles (destroy pc) at = rw at at h

  pub next-Handles : (e : Event) → Handles (happen e s)
  unfolding happen
  next-Handles (execute i func arg) = h
  next-Handles (step_execute i) = h
  next-Handles (step_worker i) = turn-Handles i (get_elem? s.pool.workers i) refl
  next-Handles call_shutdown = calls_shutdown-Handles s.shutdown refl
  next-Handles step_shutdown = shutdown-Handles s.shutdown refl
