-- ===== src/ThreadPool/Joined.antt =====
-- threadpool/threadpool.h: which threads have ended when `threadpool_shutdown` has joined them.
use seakcutils.Base.{
  ℕ, ◌<◌, ◌≡◌, refl, ap, Option, none, some, true, inl, inr, arith, get_elem?, ◌∙◌, Bool-cases,
  ℕ_discrete, ◌==◌,
}
use seakcutils.Mpmc.{SenderMpmc, ReceiverMpmc}
use seakcutils.Channel.{RecvPc}
use seakcutils.ThreadPool.{
  Job, receives, System, Worker, WorkerPc, call, recv, run_job, test, leave_sender, leave_receiver,
  exited, work, turn, calls_shutdown, ShutdownPc, not_called, close_dispatcher, close_channel, join,
  destroy, threadpool_shutdown, is_exited, closes_sender, closes_receiver, Event, execute,
  step_execute, step_worker, call_shutdown, step_shutdown, happen,
}
use seakcutils.ThreadPool.Work.{work-Off}
use seakcutils.ThreadPool.Moves.{same_pool}

-- Where the shutdown stands, the threads below this number have ended.
abbrev pub JoinedOf : ℕ → (ℕ → WorkerPc) → ShutdownPc → Type 0
JoinedOf num workers (join x) = (y : ℕ) → y < x → workers y ≡ exited
JoinedOf num workers (destroy pc) = (y : ℕ) → y < num → workers y ≡ exited
JoinedOf num workers _ = Unit

pub record Joined (s : System) : Type 0 where
  pub joined : JoinedOf s.pool.num_workers s.workers s.shutdown
  pub beyond : (i : ℕ) → get_elem? s.pool.workers i ≡ none → s.workers i ≡ call

JoinedOf-map :
    (num : ℕ) (workers workers' : ℕ → WorkerPc) (pc : ShutdownPc)
    → ((y : ℕ) → workers y ≡ exited → workers' y ≡ exited)
    → JoinedOf num workers pc
    → JoinedOf num workers' pc
JoinedOf-map num workers workers' not_called f h = tt
JoinedOf-map num workers workers' close_dispatcher f h = tt
JoinedOf-map num workers workers' close_channel f h = tt
JoinedOf-map num workers workers' (join x) f h = λ y lt. f y (h y lt)
JoinedOf-map num workers workers' (destroy pc) f h = λ y lt. f y (h y lt)

is_exited_lem : (pc : WorkerPc) → is_exited pc ≡ true → pc ≡ exited
is_exited_lem exited e = refl
is_exited_lem call e = cc
is_exited_lem recv e = cc
is_exited_lem (run_job out) e = cc
is_exited_lem test e = cc
is_exited_lem leave_sender e = cc
is_exited_lem leave_receiver e = cc

-- A turn of a worker leaves the shutdown where it stands.
receives_shutdown : (i : ℕ) (p : RecvPc Job) (s : System) → (receives i p s).shutdown ≡ s.shutdown
unfolding receives
receives_shutdown i (RecvPc.start st) s = refl
receives_shutdown i (RecvPc.release t out) s = refl
receives_shutdown i (RecvPc.returned code out) s = refl
receives_shutdown i _ s = refl

closes_sender_keeps :
    (o : Option SenderMpmc) (s : System)
    → ((closes_sender o s).shutdown ≡ s.shutdown)
      × ((closes_sender o s).workers ≡ s.workers)
      × ((closes_sender o s).pool ≡ s.pool)
unfolding closes_sender
closes_sender_keeps none s = (refl, refl, refl)
closes_sender_keeps (some x) s = (refl, refl, refl)

closes_receiver_keeps :
    (o : Option ReceiverMpmc) (s : System) → (closes_receiver o s).shutdown ≡ s.shutdown
unfolding closes_receiver
closes_receiver_keeps none s = refl
closes_receiver_keeps (some x) s = refl

work_shutdown :
    (i : ℕ) (w : Worker) (pc : WorkerPc) (s : System) → (work i w pc s).shutdown ≡ s.shutdown
unfolding work
work_shutdown i w call s = refl
work_shutdown i w recv s = receives_shutdown i (s.chan.receivers i) s
work_shutdown i w (run_job out) s = refl
work_shutdown i w test s = refl
work_shutdown i w leave_sender s = (closes_sender_keeps w.sender _).0
work_shutdown i w leave_receiver s = closes_receiver_keeps w.receiver _
work_shutdown i w exited s = refl

-- A thread that has ended makes no step.
work_exited :
    (i : ℕ) (w : Worker) (pc : WorkerPc) (s : System)
    → s.workers i ≡ pc
    → pc ≡ exited
    → (work i w pc s).workers i ≡ exited
unfolding work
work_exited i w exited s at e = at
work_exited i w call s at e = cc
work_exited i w recv s at e = cc
work_exited i w (run_job out) s at e = cc
work_exited i w test s at e = cc
work_exited i w leave_sender s at e = cc
work_exited i w leave_receiver s at e = cc

module _ (s : System) (h : Joined s) where
  turn-Joined :
      (i : ℕ) (o : Option Worker)
      → get_elem? s.pool.workers i ≡ o
      → (turn i o s).pool ≡ s.pool
      → Joined (turn i o s)
  unfolding turn
  turn-Joined i none at same = h
  turn-Joined i (some w) at same =
      let s' = work i w (s.workers i) s in
      let off = work-Off i s w (s.workers i) in
      record {
        joined =
            rw (same, work_shutdown i w (s.workers i) s)
              (JoinedOf-map s.pool.num_workers s.workers s'.workers s.shutdown
                (λ y e. elim (ℕ_discrete i y) [
                  | yes e' ↦ rw (← e') (work_exited i w (s.workers i) s refl (ap s.workers e' ∙ e))
                  | no ne ↦ (off y ne).0 ∙ e
                ])
                h.joined);
        beyond = λ j none_.
            let here : get_elem? s.pool.workers j ≡ none = rw same at none_ in
            elim (ℕ_discrete i j) [
              | yes e' ↦ absurd (cc (ap (get_elem? s.pool.workers) e'))
              | no ne ↦ (off j ne).0 ∙ h.beyond j here
            ];
      }

  calls_shutdown-Joined : (pc : ShutdownPc) → Joined (calls_shutdown pc s)
  calls_shutdown-Joined not_called = record { joined = tt; beyond = h.beyond }
  calls_shutdown-Joined close_dispatcher = h
  calls_shutdown-Joined close_channel = h
  calls_shutdown-Joined (join x) = h
  calls_shutdown-Joined (destroy pc) = h

  dispatcher-Joined :
      (o : Option SenderMpmc) → Joined (closes_sender o (record s { shutdown = close_channel }))
  unfolding closes_sender
  dispatcher-Joined none = record { joined = tt; beyond = h.beyond }
  dispatcher-Joined (some x) = record { joined = tt; beyond = h.beyond }

  shutdown-Joined : (pc : ShutdownPc) → s.shutdown ≡ pc → Joined (threadpool_shutdown pc s)
  unfolding threadpool_shutdown
  shutdown-Joined not_called at = h
  shutdown-Joined close_dispatcher at = dispatcher-Joined s.pool.dispatcher
  shutdown-Joined close_channel at = record {
    joined = λ y lt. absurd (omega (arith, lt));
    beyond = h.beyond;
  }
  shutdown-Joined (join x) at =
      let before : (y : ℕ) → y < x → s.workers y ≡ exited = rw at at h.joined in
      elim (Bool-cases (x == s.pool.num_workers)) [
        | inl e ↦
            rw e (record { joined = λ y lt. before y (ground (arith, e, lt)); beyond = h.beyond })
        | inr e ↦ elim (Bool-cases (is_exited (s.workers x))) [
          | inl e' ↦
              rw (e, e')
                (record {
                  joined = λ y lt. elim (ℕ_discrete y x) [
                    | yes same ↦ ap s.workers same ∙ is_exited_lem (s.workers x) e'
                    | no ne ↦ before y (omega (arith, lt, ne))
                  ];
                  beyond = h.beyond;
                })
          | inr e' ↦ rw (e, e') h
        ]
      ]
  shutdown-Joined (destroy pc) at = record { joined = rw at at h.joined; beyond = h.beyond }

  pub next-Joined : (e : Event) → Joined (happen e s)
  unfolding happen
  next-Joined (execute i func arg) = record { joined = h.joined; beyond = h.beyond }
  next-Joined (step_execute i) = record { joined = h.joined; beyond = h.beyond }
  next-Joined (step_worker i) =
      turn-Joined i (get_elem? s.pool.workers i) refl (same_pool (step_worker i) s)
  next-Joined call_shutdown = calls_shutdown-Joined s.shutdown
  next-Joined step_shutdown = shutdown-Joined s.shutdown refl
