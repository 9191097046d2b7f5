-- ===== src/ThreadPool/Moves.antt =====
-- threadpool/threadpool.h: each step of a pool is at most one step of its channel.
use mathlib.Core.Path.{subst}
use seakcutils.Base.{
  ℕ, suc, ◌+◌, ◌<◌, ◌≤◌, ◌^◌, ◌≡◌, refl, sym, Option, none, some, ◌⊎◌, inl, inr, Bool-cases,
  get_elem?, ◌==◌,
}
use seakcutils.Channel.{RecvPc}
use seakcutils.Mpmc
use seakcutils.Mpmc.{DestroyPc, SenderMpmc, ReceiverMpmc, mpmc_close, mpmc_destroy}
use seakcutils.Mpmc.Drain.{IsNoSend}
use seakcutils.Mpmc.Calls.{later}
use seakcutils.Mpmc.Graceful.{Sound, happen-Sound}
use seakcutils.ThreadPool.{
  Job, System, Worker, WorkerPc, call, recv, run_job, test, leave_sender, leave_receiver, exited,
  work, turn, calls_shutdown, receives, closes_sender, closes_receiver, ShutdownPc, not_called,
  close_dispatcher, close_channel, join, destroy, threadpool_shutdown, is_exited, Event, execute,
  step_execute, step_worker, call_shutdown, step_shutdown, happen,
}

-- The channel is as it was, or one event has happened to it that is not a new send.
abbrev pub Changes : Mpmc.System Job → Mpmc.System Job → Type 0
Changes c c' = (c' ≡ c) ⊎ ((m : Mpmc.Event Job) × IsNoSend m × (c' ≡ Mpmc.happen m c))

-- Besides, the pool keeps its handles.
abbrev Turn : System → System → Type 0
Turn s s' = Changes s.chan s'.chan × (s'.pool ≡ s.pool)

closes_sender-Turn :
    (o : Option SenderMpmc) (s s' : System) → Turn s s' → Turn s (closes_sender o s')
unfolding closes_sender
closes_sender-Turn none s s' t = t
closes_sender-Turn (some x) s s' t = t

closes_receiver-Turn :
    (o : Option ReceiverMpmc) (s s' : System) → Turn s s' → Turn s (closes_receiver o s')
unfolding closes_receiver
closes_receiver-Turn none s s' t = t
closes_receiver-Turn (some x) s s' t = t

receives-Turn : (i : ℕ) (p : RecvPc Job) (s : System) → Turn s (receives i p s)
unfolding receives
receives-Turn i (RecvPc.returned code out) s = (inl refl, refl)
receives-Turn i (RecvPc.release t out) s = (inr (Mpmc.Event.step_receiver i, tt, refl), refl)
receives-Turn i (RecvPc.start st) s = (inr (Mpmc.Event.step_receiver i, tt, refl), refl)
receives-Turn i RecvPc.draw s = (inr (Mpmc.Event.step_receiver i, tt, refl), refl)
receives-Turn i (RecvPc.wait t) s = (inr (Mpmc.Event.step_receiver i, tt, refl), refl)
receives-Turn i (RecvPc.check t) s = (inr (Mpmc.Event.step_receiver i, tt, refl), refl)
receives-Turn i (RecvPc.copy t) s = (inr (Mpmc.Event.step_receiver i, tt, refl), refl)
receives-Turn i RecvPc.trapped s = (inr (Mpmc.Event.step_receiver i, tt, refl), refl)

work-Turn : (i : ℕ) (w : Worker) (pc : WorkerPc) (s : System) → Turn s (work i w pc s)
unfolding work
work-Turn i w call s = (inr (Mpmc.Event.recv i _, tt, refl), refl)
work-Turn i w recv s = receives-Turn i (s.chan.receivers i) s
work-Turn i w (run_job out) s = (inl refl, refl)
work-Turn i w test s = (inl refl, refl)
work-Turn i w leave_sender s = closes_sender-Turn w.sender s _ (inl refl, refl)
work-Turn i w leave_receiver s = closes_receiver-Turn w.receiver s _ (inl refl, refl)
work-Turn i w exited s = (inl refl, refl)

turn-Turn : (i : ℕ) (o : Option Worker) (s : System) → Turn s (turn i o s)
unfolding turn
turn-Turn i none s = (inl refl, refl)
turn-Turn i (some w) s = work-Turn i w (s.workers i) s

calls_shutdown-Turn : (pc : ShutdownPc) (s : System) → Turn s (calls_shutdown pc s)
calls_shutdown-Turn not_called s = (inl refl, refl)
calls_shutdown-Turn close_dispatcher s = (inl refl, refl)
calls_shutdown-Turn close_channel s = (inl refl, refl)
calls_shutdown-Turn (join x) s = (inl refl, refl)
calls_shutdown-Turn (destroy pc) s = (inl refl, refl)

shutdown-Turn : (pc : ShutdownPc) (s : System) → Turn s (threadpool_shutdown pc s)
unfolding threadpool_shutdown mpmc_destroy mpmc_close Mpmc.happen
shutdown-Turn not_called s = (inl refl, refl)
shutdown-Turn close_dispatcher s = closes_sender-Turn s.pool.dispatcher s _ (inl refl, refl)
shutdown-Turn close_channel s = (inr (Mpmc.Event.close, tt, refl), refl)
shutdown-Turn (join x) s = elim (Bool-cases (x == s.pool.num_workers)) [
  | inl e ↦ rw e (inl refl, refl)
  | inr e ↦ elim (Bool-cases (is_exited (s.workers x))) [
    | inl e' ↦ rw (e, e') (inl refl, refl)
    | inr e' ↦ rw (e, e') (inl refl, refl)
  ]
]
shutdown-Turn (destroy DestroyPc.start) s = (inr (Mpmc.Event.close, tt, refl), refl)
shutdown-Turn (destroy DestroyPc.load_cons) s = (inl refl, refl)
shutdown-Turn (destroy (DestroyPc.load_prod cons)) s = (inl refl, refl)
shutdown-Turn (destroy DestroyPc.freed) s = (inl refl, refl)
shutdown-Turn (destroy DestroyPc.returned_null) s = (inl refl, refl)

-- Every event but a new call of `threadpool_execute`.
abbrev pub IsNoExecute : Event → Type 0
IsNoExecute (execute i func arg) = ⊥
IsNoExecute _ = Unit

happen-Turn : (e : Event) (s : System) → IsNoExecute e → Turn s (happen e s)
unfolding happen
happen-Turn (execute i func arg) s no_execute = absurd no_execute
happen-Turn (step_execute i) s no_execute = (inr (Mpmc.Event.step_sender i, tt, refl), refl)
happen-Turn (step_worker i) s no_execute = turn-Turn i (get_elem? s.pool.workers i) s
happen-Turn call_shutdown s no_execute = calls_shutdown-Turn s.shutdown s
happen-Turn step_shutdown s no_execute = shutdown-Turn s.shutdown s

pub happen-Changes : (e : Event) (s : System) → IsNoExecute e → Changes s.chan (happen e s).chan
happen-Changes e s no_execute = (happen-Turn e s no_execute).0

pub same_pool : (e : Event) (s : System) → (happen e s).pool ≡ s.pool
unfolding happen
same_pool (execute i func arg) s = refl
same_pool (step_execute i) s = refl
same_pool (step_worker i) s = (happen-Turn (step_worker i) s tt).1
same_pool call_shutdown s = (happen-Turn call_shutdown s tt).1
same_pool step_shutdown s = (happen-Turn step_shutdown s tt).1

module _ {cap n : ℕ} (s : System) (two : 2 ≤ cap) (small : n + cap + 1 < 2 ^ 64)
    (sound : Sound cap n s.chan) where
  Changes-Sound : {c' : Mpmc.System Job} → Changes s.chan c' → Sound cap (suc n) c'
  Changes-Sound (inl e) = subst (Sound cap (suc n)) (sym e) (record {
    safe = record { inv = later sound.safe.inv; delivered = sound.safe.delivered };
    published = sound.published;
  })
  Changes-Sound (inr (m, no_send, e)) = rw e (happen-Sound two m small sound)

  pub next-Sound : (e : Event) → Sound cap (suc n) (happen e s).chan
  unfolding happen
  next-Sound (execute i func arg) = happen-Sound two _ small sound
  next-Sound (step_execute i) = Changes-Sound (happen-Changes (step_execute i) s tt)
  next-Sound (step_worker i) = Changes-Sound (happen-Changes (step_worker i) s tt)
  next-Sound call_shutdown = Changes-Sound (happen-Changes call_shutdown s tt)
  next-Sound step_shutdown = Changes-Sound (happen-Changes step_shutdown s tt)
