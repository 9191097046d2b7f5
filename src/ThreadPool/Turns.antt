-- ===== src/ThreadPool/Turns.antt =====
-- threadpool/threadpool.h: what every step of a pool keeps of its workers.
use mathlib.Core.Option
use mathlib.Core.Path.{subst}
use seakcutils.Base.{
  ℕ, ◌≤◌, ◌≡◌, ◌∙◌, sym, refl, Option, none, some, ◌∷◌, true, ◌⊎◌, inl, inr, if◌then◌else◌, Bool,
  false,
}
use seakcutils.Channel.{RecvPc, opened, is_closed}
use seakcutils.Mpmc
use seakcutils.Mpmc.{SenderMpmc, recv_rests, update, happen, ReceiverMpmc}
use seakcutils.Mpmc.Graceful.{Sound}
use seakcutils.ThreadPool.{
  Job, System, Worker, WorkerPc, call, recv, run_job, test, leave_sender, leave_receiver, exited,
  work,
}
use seakcutils.ThreadPool.Books.{Books, same-Books, run-Books}
use seakcutils.ThreadPool.Hands.{
  hand, hands, IsRecv, Loops, Crew, hands_off, hands_same, step-Crew, update_at, closes_sender-Crew,
  closes_receiver-Crew,
}
use seakcutils.ThreadPool.Work.{turn-Off, call-Off}
use seakcutils.ThreadPool.Receives.{receives-Crew}

-- The worker has an open receiver and a sender.
abbrev pub IsReady : Worker → Type 0
IsReady w =
    (Option.map (λ r. r.receiver_state) w.receiver ≡ some opened)
    × ((x : SenderMpmc) × (w.sender ≡ some x))

module _ {Over Over' : Type 0} {cap n : ℕ} (s : System) (i : ℕ) (two : 2 ≤ cap)
    (sound : Sound cap n s.chan) (c : Crew Over s) (keeps : Over → Over') where
  -- Outside the call of `mpmc_recv` nobody serves the worker.
  rests_at :
      (pc : WorkerPc) → s.workers i ≡ pc → ¬ IsRecv pc → recv_rests (s.chan.receivers i) ≡ true
  rests_at pc at ne = elim (c.idle i) [ inl r ↦ absurd (ne (subst IsRecv at r)) | inr rest ↦ rest ]

  turn-Crew :
      (pc pc' : WorkerPc)
      → s.workers i ≡ pc
      → ¬ IsRecv pc
      → hand pc (s.chan.receivers i) (s.tickets i) ≡ none
      → hand pc' (s.chan.receivers i) (s.tickets i) ≡ none
      → Loops pc' (s.chan.receivers i) ⊎ Over'
      → Crew Over' (record s { workers = update s.workers i pc' })
  turn-Crew pc pc' at ne empty empty' loops =
      let s' : System = record s { workers = update s.workers i pc' } in
      let there = update_at s.workers i pc' in
      let off = turn-Off i s pc' in
      let same : hands s' i ≡ hands s i = rw (there, at) (empty' ∙ sym empty) in
      step-Crew s s' i off c keeps (same-Books c.books (hands s') (hands_same s s' i off same))
        (inr (rests_at pc at ne)) (rw there loops)

  -- A worker that has left its loop.
  left_over : (pc : WorkerPc) → s.workers i ≡ pc → ¬ Loops pc (s.chan.receivers i) → Over'
  left_over pc at ne = elim (c.loops i) [ inl l ↦ absurd (ne (rw at at l)) | inr o ↦ keeps o ]

  call-Crew :
      s.workers i ≡ call
      → Crew Over' (record s {
        chan = happen (Mpmc.Event.recv i (some opened)) s.chan;
        workers = update s.workers i recv;
      })
  unfolding happen
  call-Crew at =
      let rest = rests_at call at (λ r. r) in
      let s' : System = record s {
        chan = happen (Mpmc.Event.recv i (some opened)) s.chan;
        workers = update s.workers i recv;
      } in
      let there = update_at s.workers i recv in
      let there' : s'.chan.receivers i ≡ RecvPc.start opened =
        rw rest (update_at s.chan.receivers i (RecvPc.start opened)) in
      let got : s'.chan.got ≡ s.chan.got = rw rest refl in
      let off = call-Off i s (some opened) in
      let same : hands s' i ≡ hands s i = rw (there, there', at) refl in
      step-Crew s s' i off c keeps
        (subst (λ g. Books g s.ran (hands s')) (sym got)
          (same-Books c.books (hands s') (hands_same s s' i off same)))
        (inl (rw there tt)) (inl (rw (there, there') refl))

  run_job-Crew :
      (out : Option Job)
      → s.workers i ≡ run_job out
      → Crew Over'
          (record s { ran = (s.tickets i, out) ∷ s.ran; workers = update s.workers i call })
  run_job-Crew out at =
      let s' : System = record s {
        ran = (s.tickets i, out) ∷ s.ran;
        workers = update s.workers i call;
      } in
      let there = update_at s.workers i call in
      let off = turn-Off i s call in
      let before : hands s i ≡ some (s.tickets i, out) = rw at refl in
      let after : hands s' i ≡ none = rw there refl in
      step-Crew s s' i off c keeps
        (run-Books c.books (hands s') i (s.tickets i, out) before after (hands_off s s' i off))
        (inr (rests_at (run_job out) at (λ r. r))) (inl (rw there tt))

  test-Crew :
      (shut : Bool)
      → s.workers i ≡ test
      → Crew Over' (record s { workers = update s.workers i (if shut then leave_sender else call) })
  test-Crew true at =
      turn-Crew test leave_sender at (λ r. r) refl refl (inr (left_over test at (λ r. r)))
  test-Crew false at = turn-Crew test call at (λ r. r) refl refl (inl tt)

  pub still-Crew : Crew Over' s
  still-Crew = record {
    books = c.books;
    idle = c.idle;
    loops = λ j. elim (c.loops j) [ inl l ↦ inl l | inr o ↦ inr (keeps o) ];
  }

  pub work-Crew :
      ((t : ℕ) → s.chan.receivers i ≡ RecvPc.check t → is_closed s.chan.ring.state ≡ true → Over')
      → (w : Worker) → IsReady w
      → (pc : WorkerPc) → s.workers i ≡ pc
      → Crew Over' (work i w pc s)
  unfolding work
  work-Crew gives w ready call at =
      subst
        (λ o. Crew Over' (record s {
          chan = happen (Mpmc.Event.recv i o) s.chan;
          workers = update s.workers i recv;
        }))
        (sym ready.0) (call-Crew at)
  work-Crew gives w ready recv at =
      receives-Crew s i two sound c keeps gives at (s.chan.receivers i) refl
  work-Crew gives w ready (run_job out) at = run_job-Crew out at
  work-Crew gives w ready test at = test-Crew _ at
  work-Crew gives w ready leave_sender at = closes_sender-Crew w.sender _ (
      turn-Crew leave_sender leave_receiver at (λ r. r) refl refl
        (inr (left_over leave_sender at (λ r. r))))
  work-Crew gives w ready leave_receiver at = closes_receiver-Crew w.receiver _ (
      turn-Crew leave_receiver exited at (λ r. r) refl refl
        (inr (left_over leave_receiver at (λ r. r))))
  work-Crew gives w ready exited at = still-Crew
