-- ===== src/ThreadPool/Handles.antt =====
-- threadpool/threadpool.h: the counters of the channel, and the handles that are not closed yet.
use mathlib.Core.Path.{subst}
use seakcutils.Base.{
  ℕ, ◌+◌, ◌^◌, ◌<◌, ◌≤◌, ◌≡◌, ◌≢◌, ◌∙◌, sym, ap, Bool, true, false, arith, ℕ_discrete, sub_size,
}
use seakcutils.Mpmc.{update}
use seakcutils.ThreadPool.{
  System, WorkerPc, leave_sender, leave_receiver, exited, is_exited, ShutdownPc, not_called,
  close_dispatcher, close_channel, join, destroy,
}
use seakcutils.ThreadPool.Hands.{update_at, update_off}
use seakcutils.ThreadPool.Counts.{count, count-same, count-one, count_lt}

-- The worker has closed its sender.
abbrev pub left_sender : WorkerPc → Bool
left_sender leave_receiver = true
left_sender exited = true
left_sender _ = false

-- How many dispatchers are closed.
abbrev pub dispatcher_left : ShutdownPc → ℕ
dispatcher_left not_called = 0
dispatcher_left close_dispatcher = 0
dispatcher_left _ = 1

abbrev pub Counted : ℕ → ℕ → ℕ → (ℕ → WorkerPc) → ShutdownPc → Type 0
Counted num prods conss workers pc =
    (prods + count (λ i. left_sender (workers i)) num + dispatcher_left pc ≡ 1 + num)
    × (conss + count (λ i. is_exited (workers i)) num ≡ num)

-- Each counter is the number of handles that are open.
abbrev pub Handles : System → Type 0
Handles s = Counted s.pool.num_workers s.prod_cont s.cons_cont s.workers s.shutdown

module _ (workers : ℕ → WorkerPc) (i : ℕ) (f : WorkerPc → Bool) (w : WorkerPc) where
  still_off : (j : ℕ) → i ≢ j → f (update workers i w j) ≡ f (workers j)
  still_off j ne = ap f (update_off workers i w j ne)

  still_same : f w ≡ f (workers i) → (j : ℕ) → f (update workers i w j) ≡ f (workers j)
  still_same same j = elim (ℕ_discrete i j) [
    | yes e ↦
        subst (λ k. f (update workers i w k) ≡ f (workers k)) e
          (ap f (update_at workers i w) ∙ same)
    | no ne ↦ still_off j ne
  ]

module _ (num prods conss : ℕ) (workers : ℕ → WorkerPc) (pc : ShutdownPc) (i : ℕ)
    (h : Counted num prods conss workers pc) (small : 1 + num < 2 ^ 64) where
  -- The worker closes nothing.
  pub turn-Counted :
      (w : WorkerPc)
      → left_sender w ≡ left_sender (workers i)
      → is_exited w ≡ is_exited (workers i)
      → Counted num prods conss (update workers i w) pc
  turn-Counted w same same' =
      let a =
        count-same (λ j. left_sender (workers j)) (λ j. left_sender (update workers i w j)) num
          (λ j lt. still_same workers i left_sender w same j) in
      let b =
        count-same (λ j. is_exited (workers j)) (λ j. is_exited (update workers i w j)) num
          (λ j lt. still_same workers i is_exited w same' j) in
      (omega (arith, a, h.0), omega (arith, b, h.1))

  pub sender-Counted :
      i < num
      → workers i ≡ leave_sender
      → Counted num (sub_size prods 1) conss (update workers i leave_receiver) pc
  sender-Counted lt at =
      let before : left_sender (workers i) ≡ false = ap left_sender at in
      let after : left_sender (update workers i leave_receiver i) ≡ true =
        ap left_sender (update_at workers i leave_receiver) in
      let a =
        count-one (λ j. left_sender (workers j))
          (λ j. left_sender (update workers i leave_receiver j)) num i lt before after
          (still_off workers i left_sender leave_receiver) in
      let b =
        count-same (λ j. is_exited (workers j)) (λ j. is_exited (update workers i leave_receiver j))
          num (λ j less. still_same workers i is_exited leave_receiver (sym (ap is_exited at)) j) in
      let room = count_lt (λ j. left_sender (workers j)) num i lt before in
      let one = dispatcher_le pc in (omega (arith, a, h.0, room, one, small), omega (arith, b, h.1))
    where
      dispatcher_le : (q : ShutdownPc) → dispatcher_left q ≤ 1
      dispatcher_le not_called = omega arith
      dispatcher_le close_dispatcher = omega arith
      dispatcher_le close_channel = omega arith
      dispatcher_le (join x) = omega arith
      dispatcher_le (destroy q) = omega arith

  pub receiver-Counted :
      i < num
      → workers i ≡ leave_receiver
      → Counted num prods (sub_size conss 1) (update workers i exited) pc
  receiver-Counted lt at =
      let before : is_exited (workers i) ≡ false = ap is_exited at in
      let after : is_exited (update workers i exited i) ≡ true =
        ap is_exited (update_at workers i exited) in
      let a =
        count-same (λ j. left_sender (workers j)) (λ j. left_sender (update workers i exited j)) num
          (λ j less. still_same workers i left_sender exited (sym (ap left_sender at)) j) in
      let b =
        count-one (λ j. is_exited (workers j)) (λ j. is_exited (update workers i exited j)) num i lt
          before after (still_off workers i is_exited exited) in
      let room = count_lt (λ j. is_exited (workers j)) num i lt before in
      (omega (arith, a, h.0), omega (arith, b, h.1, room, small))
