-- ===== src/ThreadPool/Crews.antt =====
-- threadpool/threadpool.h: every event of a pool keeps the books of its workers.
use seakcutils.Base.{
  ℕ, ◌≤◌, ◌≡◌, refl, Option, none, some, true, inl, inr, Bool-cases, get_elem?, ◌==◌,
}
use seakcutils.Channel.{RecvPc, is_closed}
use seakcutils.Mpmc
use seakcutils.Mpmc.{DestroyPc, mpmc_close, mpmc_destroy, send_rests}
use seakcutils.Mpmc.Graceful.{Sound}
use seakcutils.ThreadPool.{
  System, Worker, turn, calls_shutdown, ShutdownPc, not_called, close_dispatcher, close_channel,
  join, destroy, threadpool_shutdown, is_exited, Event, execute, step_execute, step_worker,
  call_shutdown, step_shutdown, happen,
}
use seakcutils.ThreadPool.Books.{same-Books}
use seakcutils.ThreadPool.Hands.{hands, Crew, closes_sender-Crew}
use seakcutils.ThreadPool.Turns.{IsReady, work-Crew}

-- The workers have not moved.
abbrev Still : System → System → Type 0
Still s s' =
    ((j : ℕ)
      → (s'.workers j ≡ s.workers j)
        × (s'.chan.receivers j ≡ s.chan.receivers j)
        × (s'.tickets j ≡ s.tickets j))
    × (s'.chan.got ≡ s.chan.got)
    × (s'.ran ≡ s.ran)

module _ {Over Over' : Type 0} (s : System) (c : Crew Over s) (keeps : Over → Over') where
  Still-Crew : (s' : System) → Still s s' → Crew Over' s'
  Still-Crew s' (still, got, ran) =
      let same : (j : ℕ) → hands s' j ≡ hands s j =
        λ j. let (w, p, t) = still j in rw (w, p, t) refl in
      record {
        books = rw (got, ran) (same-Books c.books (hands s') same);
        idle = λ j. let (w, p, t) = still j in rw (w, p) (c.idle j);
        loops = λ j.
            let (w, p, t) = still j in
            rw (w, p) (elim (c.loops j) [ inl l ↦ inl l | inr o ↦ inr (keeps o) ]);
      }

  same-Crew : Crew Over' s
  same-Crew = Still-Crew s ((λ j. (refl, refl, refl)), refl, refl)

  execute-Crew : (i func arg : ℕ) → Crew Over' (happen (execute i func arg) s)
  unfolding happen Mpmc.happen
  execute-Crew i func arg = elim (Bool-cases (send_rests (s.chan.senders i))) [
    | inl e ↦ Still-Crew _ ((λ j. (refl, rw e refl, refl)), rw e refl, refl)
    | inr e ↦ Still-Crew _ ((λ j. (refl, rw e refl, refl)), rw e refl, refl)
  ]

  calls_shutdown-Crew : (pc : ShutdownPc) → Crew Over' (calls_shutdown pc s)
  calls_shutdown-Crew not_called = Still-Crew _ ((λ j. (refl, refl, refl)), refl, refl)
  calls_shutdown-Crew close_dispatcher = same-Crew
  calls_shutdown-Crew close_channel = same-Crew
  calls_shutdown-Crew (join x) = same-Crew
  calls_shutdown-Crew (destroy pc) = same-Crew

  shutdown-Crew : (pc : ShutdownPc) → Crew Over' (threadpool_shutdown pc s)
  unfolding threadpool_shutdown Mpmc.happen mpmc_destroy mpmc_close
  shutdown-Crew not_called = same-Crew
  shutdown-Crew close_dispatcher =
      closes_sender-Crew s.pool.dispatcher _
        (Still-Crew (record s { shutdown = close_channel }) ((λ j. (refl, refl, refl)), refl, refl))
  shutdown-Crew close_channel = Still-Crew _ ((λ j. (refl, refl, refl)), refl, refl)
  shutdown-Crew (join x) = elim (Bool-cases (x == s.pool.num_workers)) [
    | inl e ↦ rw e (Still-Crew _ ((λ j. (refl, refl, refl)), refl, refl))
    | inr e ↦ elim (Bool-cases (is_exited (s.workers x))) [
      | inl e' ↦ rw (e, e') (Still-Crew _ ((λ j. (refl, refl, refl)), refl, refl))
      | inr e' ↦ rw (e, e') same-Crew
    ]
  ]
  shutdown-Crew (destroy DestroyPc.start) = Still-Crew _ ((λ j. (refl, refl, refl)), refl, refl)
  shutdown-Crew (destroy DestroyPc.load_cons) = Still-Crew _ ((λ j. (refl, refl, refl)), refl, refl)
  shutdown-Crew (destroy (DestroyPc.load_prod cons)) =
      Still-Crew _ ((λ j. (refl, refl, refl)), refl, refl)
  shutdown-Crew (destroy DestroyPc.freed) = Still-Crew _ ((λ j. (refl, refl, refl)), refl, refl)
  shutdown-Crew (destroy DestroyPc.returned_null) =
      Still-Crew _ ((λ j. (refl, refl, refl)), refl, refl)

-- All workers of the pool are ready.
abbrev pub AllReady : System → Type 0
AllReady s = (i : ℕ) (w : Worker) → get_elem? s.pool.workers i ≡ some w → IsReady w

module _ {Over Over' : Type 0} {cap n : ℕ} (s : System) (two : 2 ≤ cap) (sound : Sound cap n s.chan)
    (ready : AllReady s) (c : Crew Over s) (keeps : Over → Over')
    (gives : (i t : ℕ)
      → s.chan.receivers i ≡ RecvPc.check t
      → is_closed s.chan.ring.state ≡ true
      → Over') where
  turn-Crew : (i : ℕ) (o : Option Worker) → get_elem? s.pool.workers i ≡ o → Crew Over' (turn i o s)
  unfolding turn
  turn-Crew i none e = same-Crew s c keeps
  turn-Crew i (some w) e =
      work-Crew s i two sound c keeps (gives i) w (ready i w e) (s.workers i) refl

  -- `gives` is what a receiver brings about that finds its channel closed.
  pub next-Crew : (e : Event) → Crew Over' (happen e s)
  unfolding happen Mpmc.happen
  next-Crew (execute i func arg) = execute-Crew s c keeps i func arg
  next-Crew (step_execute i) = Still-Crew s c keeps _ ((λ j. (refl, refl, refl)), refl, refl)
  next-Crew (step_worker i) = turn-Crew i (get_elem? s.pool.workers i) refl
  next-Crew call_shutdown = calls_shutdown-Crew s c keeps s.shutdown
  next-Crew step_shutdown = shutdown-Crew s c keeps s.shutdown
