-- ===== src/ThreadPool/Receives.antt =====
-- threadpool/threadpool.h: a step of a worker in its call of `mpmc_recv`.
use mathlib.Core.Path.{subst}
use seakcutils.Base.{
  ℕ, ◌≤◌, ◌≡◌, ◌≢◌, ◌∙◌, sym, refl, ap, Option, none, some, List, true, ◌⊎◌, inl, inr, eq_ℤ,
  if◌then◌else◌, arith, Bool-cases, false, ◌==◌,
}
use seakcutils.Channel.{RecvPc, ok, recv_step, is_closed, Ring}
use seakcutils.Mpmc
use seakcutils.Mpmc.{recv_rests, update, happen, log_got}
use seakcutils.Mpmc.Invariant.{recv_ticket}
use seakcutils.Mpmc.Graceful.{Sound}
use seakcutils.ThreadPool.{Job, System, WorkerPc, recv, run_job, test, receives}
use seakcutils.ThreadPool.Books.{Books, same-Books, take-Books}
use seakcutils.ThreadPool.Hands.{
  hand, hands, LoopsIn, Loops, Crew, Off, hands_off, hands_same, step-Crew, update_at,
}
use seakcutils.ThreadPool.Work.{receives-Off}

-- The call has neither returned nor read its element.
abbrev IsWaiting : RecvPc Job → Type 0
IsWaiting (RecvPc.returned c out) = ⊥
IsWaiting (RecvPc.release t out) = ⊥
IsWaiting _ = Unit

waiting_hand : (p : RecvPc Job) (t : ℕ) → IsWaiting p → hand recv p t ≡ none
waiting_hand (RecvPc.start st) t w = refl
waiting_hand RecvPc.draw t w = refl
waiting_hand (RecvPc.wait k) t w = refl
waiting_hand (RecvPc.check k) t w = refl
waiting_hand (RecvPc.copy k) t w = refl
waiting_hand RecvPc.trapped t w = refl
waiting_hand (RecvPc.release k out) t w = absurd w
waiting_hand (RecvPc.returned c out) t w = absurd w

waiting_log : (p : RecvPc Job) (got : List (ℕ × Option Job)) → IsWaiting p → log_got p got ≡ got
waiting_log (RecvPc.release k out) got w = absurd w
waiting_log (RecvPc.start st) got w = refl
waiting_log _ got w = refl

step_hand :
    (p : RecvPc Job) (r : Ring Job) (t : ℕ) → IsWaiting p → hand recv (recv_step p r).0 t ≡ none
unfolding recv_step
step_hand (RecvPc.start st) r t w = elim (Bool-cases (is_closed st)) [
  | inl e ↦ rw e refl
  | inr e ↦ rw e refl
]
step_hand RecvPc.draw r t w = elim (Bool-cases (r.capacity == 0)) [
  | inl e ↦ rw e refl
  | inr e ↦ rw e refl
]
step_hand (RecvPc.wait k) r t w = ground arith
step_hand (RecvPc.check k) r t w = elim (Bool-cases (is_closed r.state)) [
  | inl e ↦ rw e refl
  | inr e ↦ rw e refl
]
step_hand (RecvPc.copy k) r t w = refl
step_hand RecvPc.trapped r t w = refl
step_hand (RecvPc.release k out) r t w = absurd w
step_hand (RecvPc.returned c out) r t w = absurd w

-- A call gives up its ticket only when it finds the channel closed.
step_loops :
    (p : RecvPc Job) (r : Ring Job)
    → IsWaiting p
    → r.capacity ≢ 0
    → LoopsIn p
    → LoopsIn (recv_step p r).0 ⊎ ((t : ℕ) × (p ≡ RecvPc.check t) × (is_closed r.state ≡ true))
unfolding recv_step
step_loops (RecvPc.start st) r w ne l = inl (rw l tt)
step_loops RecvPc.draw r w ne l = inl (ground (arith, ne))
step_loops (RecvPc.wait k) r w ne l = inl (ground arith)
step_loops (RecvPc.check k) r w ne l = elim (Bool-cases (is_closed r.state)) [
  | inl e ↦ inr (k, refl, e)
  | inr e ↦ inl (rw e tt)
]
step_loops (RecvPc.copy k) r w ne l = inl tt
step_loops RecvPc.trapped r w ne l = absurd l
step_loops (RecvPc.release k out) r w ne l = absurd w
step_loops (RecvPc.returned c out) r w ne l = absurd w

module _ {Over Over' : Type 0} {cap n : ℕ} (s : System) (i : ℕ) (two : 2 ≤ cap)
    (sound : Sound cap n s.chan) (c : Crew Over s) (keeps : Over → Over')
    (gives : (t : ℕ)
      → s.chan.receivers i ≡ RecvPc.check t
      → is_closed s.chan.ring.state ≡ true
      → Over')
    (at_recv : s.workers i ≡ recv) where
  waiting-Crew :
      IsWaiting (s.chan.receivers i)
      → Off i s (record s { chan = happen (Mpmc.Event.step_receiver i) s.chan })
      → Crew Over' (record s { chan = happen (Mpmc.Event.step_receiver i) s.chan })
  unfolding happen
  waiting-Crew w off =
      let p = s.chan.receivers i in
      let r = s.chan.ring in
      let p' = (recv_step p r).0 in
      let s' : System = record s { chan = happen (Mpmc.Event.step_receiver i) s.chan } in
      let there : s'.chan.receivers i ≡ p' = update_at s.chan.receivers i p' in
      let at : hands s' i ≡ hands s i =
        rw (at_recv, there)
          (step_hand p r (s.tickets i) w ∙ sym (waiting_hand p (s.tickets i) w)) in
      let books = same-Books c.books (hands s') (hands_same s s' i off at) in
      let here : Loops recv p ⊎ Over = rw at_recv at (c.loops i) in
      let ne : r.capacity ≢ 0 = λ e. omega (arith, sound.safe.inv.sized, two, e) in
      let loops : LoopsIn p' ⊎ Over' = elim here [
        | inl l ↦ elim (step_loops p r w ne l) [
          | inl l' ↦ inl l'
          | inr (t, checks, shut) ↦ inr (gives t checks shut)
        ]
        | inr o ↦ inr (keeps o)
      ] in
      step-Crew s s' i off c keeps
        (subst (λ got. Books got s.ran (hands s')) (sym (waiting_log p s.chan.got w)) books)
        (inl (rw at_recv tt)) (rw (at_recv, there) loops)

  -- The worker is served on a ticket on which nobody was served before.
  release-Crew :
      (t : ℕ) (out : Option Job)
      → s.chan.receivers i ≡ RecvPc.release t out
      → Crew Over' (receives i (RecvPc.release t out) s)
  unfolding receives happen recv_step
  release-Crew t out at =
      let p = s.chan.receivers i in
      let p' = (recv_step p s.chan.ring).0 in
      let s' = receives i (RecvPc.release t out) s in
      let there : s'.chan.receivers i ≡ RecvPc.returned ok out =
        update_at s.chan.receivers i p' ∙ ap (λ q. (recv_step q s.chan.ring).0) at in
      let before : hands s i ≡ none = rw (at_recv, at) refl in
      let after : hands s' i ≡ some (t, out) = rw (at_recv, there, update_at s.tickets i t) refl in
      let new = sound.safe.delivered.held i t (ap recv_ticket at) in
      let off = receives-Off i s (RecvPc.release t out) in
      let books =
        take-Books c.books (hands s') i (t, out) before after (hands_off s s' i off) new in
      step-Crew s s' i off c keeps
        (subst (λ q. Books (log_got q s.chan.got) s.ran (hands s')) (sym at) books)
        (inl (rw at_recv tt)) (inl (rw (at_recv, there) refl))

  -- The call has returned: the worker goes on to run what it has received, or to its test.
  returned-Crew :
      (code : _) (out : Option Job)
      → s.chan.receivers i ≡ RecvPc.returned code out
      → Crew Over' (receives i (RecvPc.returned code out) s)
  unfolding receives
  returned-Crew code out at = elim (Bool-cases (eq_ℤ code ok)) [
    | inl e ↦ turn (run_job out) (rw (at_recv, at, e) refl) (rw e refl) (inl tt)
    | inr e ↦
        turn test (rw (at_recv, at, e) refl) (rw e refl)
          (elim (left e) [ inl l ↦ absurd l | inr o ↦ inr (keeps o) ])
  ]
    where
      s' : System
      s' = receives i (RecvPc.returned code out) s

      here : Loops recv (RecvPc.returned code out) ⊎ Over
      here = rw (at_recv, at) at (c.loops i)

      left : eq_ℤ code ok ≡ false → ⊥ ⊎ Over
      left e = elim here [ inl l ↦ inl (cc (rw l at e)) | inr o ↦ inr o ]

      turn :
          (w : WorkerPc)
          → hands s i ≡ hand w (RecvPc.returned code out) (s.tickets i)
          → (if eq_ℤ code ok then run_job out else test) ≡ w
          → Loops w (RecvPc.returned code out) ⊎ Over'
          → Crew Over' s'
      turn w same e loops =
          let there : s'.workers i ≡ w = update_at s.workers i _ ∙ e in
          let off = receives-Off i s (RecvPc.returned code out) in
          let at' : hands s' i ≡ hands s i =
            ap (λ v. hand v (s.chan.receivers i) (s.tickets i)) there
            ∙ ap (λ q. hand w q (s.tickets i)) at
            ∙ sym same in
          step-Crew s s' i off c keeps (same-Books c.books (hands s') (hands_same s s' i off at'))
            (inr (rw at refl)) (rw (there, at) loops)

  pub receives-Crew : (p : RecvPc Job) → s.chan.receivers i ≡ p → Crew Over' (receives i p s)
  unfolding receives
  receives-Crew (RecvPc.returned code out) at = returned-Crew code out at
  receives-Crew (RecvPc.release t out) at = release-Crew t out at
  receives-Crew (RecvPc.start st) at = waiting-Crew (rw at tt) (receives-Off i s (RecvPc.start st))
  receives-Crew RecvPc.draw at = waiting-Crew (rw at tt) (receives-Off i s RecvPc.draw)
  receives-Crew (RecvPc.wait t) at = waiting-Crew (rw at tt) (receives-Off i s (RecvPc.wait t))
  receives-Crew (RecvPc.check t) at = waiting-Crew (rw at tt) (receives-Off i s (RecvPc.check t))
  receives-Crew (RecvPc.copy t) at = waiting-Crew (rw at tt) (receives-Off i s (RecvPc.copy t))
  receives-Crew RecvPc.trapped at = waiting-Crew (rw at tt) (receives-Off i s RecvPc.trapped)
