-- ===== src/ThreadPool/Work.antt =====
-- threadpool/threadpool.h: one step of `__set_worker`, from every place where it may stand.
use seakcutils.Base.{ℕ, refl, Option, none, some, inl, inr, eq_ℤ, if◌then◌else◌, Bool-cases}
use seakcutils.Channel.{ChanState, RecvPc, ok, recv_step}
use seakcutils.Mpmc
use seakcutils.Mpmc.{mpmc_recv_call, recv_rests, SenderMpmc, ReceiverMpmc, update, happen, log_got}
use seakcutils.ThreadPool.{
  Job, System, Worker, WorkerPc, call, recv, run_job, test, leave_sender, leave_receiver, exited,
  receives, work, closes_sender, closes_receiver,
}
use seakcutils.ThreadPool.Hands.{Off, update_off}

closes_sender-Off :
    (o : Option SenderMpmc) (i : ℕ) (s s' : System) → Off i s s' → Off i s (closes_sender o s')
unfolding closes_sender
closes_sender-Off none i s s' off = off
closes_sender-Off (some x) i s s' off = off

closes_receiver-Off :
    (o : Option ReceiverMpmc) (i : ℕ) (s s' : System) → Off i s s' → Off i s (closes_receiver o s')
unfolding closes_receiver
closes_receiver-Off none i s s' off = off
closes_receiver-Off (some x) i s s' off = off

module _ (i : ℕ) (s : System) where
  -- Only worker `i` and its receiver move.
  pub turn-Off : (w : WorkerPc) → Off i s (record s { workers = update s.workers i w })
  turn-Off w j ne = (update_off s.workers i w j ne, refl, refl)

  step-Off : Off i s (record s { chan = happen (Mpmc.Event.step_receiver i) s.chan })
  unfolding happen
  step-Off j ne = (
    refl,
    update_off s.chan.receivers i (recv_step (s.chan.receivers i) s.chan.ring).0 j ne,
    refl,
  )

  pub receives-Off : (p : RecvPc Job) → Off i s (receives i p s)
  unfolding receives happen
  receives-Off (RecvPc.returned code out) = turn-Off (if eq_ℤ code ok then run_job out else test)
  receives-Off (RecvPc.release t out) =
      λ j ne. (refl, (step-Off j ne).1, update_off s.tickets i t j ne)
  receives-Off (RecvPc.start st) = step-Off
  receives-Off RecvPc.draw = step-Off
  receives-Off (RecvPc.wait t) = step-Off
  receives-Off (RecvPc.check t) = step-Off
  receives-Off (RecvPc.copy t) = step-Off
  receives-Off RecvPc.trapped = step-Off

  pub call-Off :
      (o : Option ChanState)
      → Off i s (record s {
        chan = happen (Mpmc.Event.recv i o) s.chan;
        workers = update s.workers i recv;
      })
  unfolding happen
  call-Off o j ne = elim (Bool-cases (recv_rests (s.chan.receivers i))) [
    | inl e ↦ (
      update_off s.workers i recv j ne,
      rw e (update_off s.chan.receivers i (mpmc_recv_call o) j ne),
      refl,
    )
    | inr e ↦ (update_off s.workers i recv j ne, rw e refl, refl)
  ]

  pub work-Off : (w : Worker) (pc : WorkerPc) → Off i s (work i w pc s)
  unfolding work
  work-Off w call = call-Off _
  work-Off w recv = receives-Off (s.chan.receivers i)
  work-Off w (run_job out) = turn-Off call
  work-Off w test = turn-Off _
  work-Off w leave_sender = closes_sender-Off w.sender i s _ (turn-Off leave_receiver)
  work-Off w leave_receiver = closes_receiver-Off w.receiver i s _ (turn-Off exited)
  work-Off w exited = λ j ne. (refl, refl, refl)
