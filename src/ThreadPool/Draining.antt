-- ===== src/ThreadPool/Draining.antt =====
-- threadpool/threadpool.h: a pool that is at work after its channel was closed.
use mathlib.Core.Path.{subst}
use seakcutils.Base.{
  ℕ, suc, ◌+◌, ◌*◌, ◌<◌, ◌≤◌, ◌^◌, ◌≡◌, refl, sym, ap, Option, none, some, true, ◌⊎◌, inl, inr,
  arith, get_elem?, List, [], ◌∷◌, length, ◌∙◌,
}
use seakcutils.Channel.{Ring, RecvPc, opened, recv_step}
use seakcutils.Mpmc
use seakcutils.Mpmc.{ChannelMpmc, DestroyPc, send_rests, recv_rests}
use seakcutils.Mpmc.Invariant.{RecvOk}
use seakcutils.Mpmc.Tickets.{send_tail, recv_rests-ticket}
use seakcutils.Mpmc.Drain.{Quiet, happen-Quiet, same_sent, close-Quiet}
use seakcutils.Mpmc.Graceful.{Sound, Quiet-Served, Served}
use seakcutils.ThreadPool.{
  Job, System, Event, step_shutdown, happen, run, threadpool_shutdown, close_channel, call, exited,
}
use seakcutils.ThreadPool.Books.{In, In_AllGot}
use seakcutils.ThreadPool.Hands.{Crew, hands}
use seakcutils.ThreadPool.Moves.{Changes, happen-Changes, next-Sound, IsNoExecute}
use seakcutils.ThreadPool.Crews.{AllReady, next-Crew}
use seakcutils.ThreadPool.Once.{IsShut, Reached, ready_stays}

-- As many tickets were drawn by receivers as there are elements.
abbrev pub Drawn : Mpmc.System Job → Type 0
Drawn c = c.ring.head ≤ c.ring.tail

recv_tail : (p : RecvPc Job) (r : Ring Job) → r.tail + 1 < 2 ^ 64 → r.tail ≤ (recv_step p r).1.tail
unfolding recv_step
recv_tail RecvPc.draw r lt = omega arith
recv_tail (RecvPc.start st) r lt = omega arith
recv_tail _ r lt = omega arith

tail_grows :
    (m : Mpmc.Event Job) (c : Mpmc.System Job)
    → c.ring.tail + 1 < 2 ^ 64
    → c.ring.tail ≤ (Mpmc.happen m c).ring.tail
unfolding Mpmc.happen
tail_grows (Mpmc.Event.send i null x) c lt = ground arith
tail_grows (Mpmc.Event.recv i handle) c lt = ground arith
tail_grows (Mpmc.Event.step_sender i) c lt = omega (arith, send_tail (c.senders i) c.ring)
tail_grows (Mpmc.Event.step_receiver i) c lt = recv_tail (c.receivers i) c.ring lt
tail_grows Mpmc.Event.close c lt = omega arith

-- A pool whose channel was closed while it was quiet.
pub record Draining (cap n : ℕ) (sent : List Job) (s : System) : Type 0 where
  pub sound : Sound cap n s.chan
  pub crew : Crew (Drawn s.chan) s
  pub ready : AllReady s
  pub quiet : Quiet s.chan
  pub same : s.chan.sent ≡ sent

module _ {cap n : ℕ} {sent : List Job} (s : System) (two : 2 ≤ cap) (small : n + cap + 1 < 2 ^ 64)
    (h : Draining cap n sent s) where
  Changes-Quiet :
      (c' : Mpmc.System Job)
      → Changes s.chan c'
      → Sound cap (suc n) c'
      → Quiet c' × (c'.sent ≡ sent) × (Drawn s.chan → Drawn c')
  Changes-Quiet c' (inl e) sound = rw e (h.quiet, h.same, λ d. d)
  Changes-Quiet c' (inr (m, no_send, e)) sound =
      let safe = h.sound.safe in
      let same = same_sent safe two small h.quiet m no_send in
      let grows = tail_grows m s.chan (omega (arith, safe.inv.tail_le, small)) in
      let quiet : Quiet c' = rw e (happen-Quiet safe two small h.quiet m no_send) in
      let same' : c'.sent ≡ s.chan.sent = rw e same in
      (
        quiet,
        same' ∙ h.same,
        λ d. omega (
          arith,
          d,
          grows,
          ap (λ c. c.ring.tail) e,
          ap length same',
          safe.inv.logged,
          sound.safe.inv.logged,
        ),
      )

  next-Draining : (e : Event) → IsNoExecute e → Draining cap (suc n) sent (happen e s)
  next-Draining e no_execute =
      let sound = next-Sound s two small h.sound e in
      let (quiet, same, keeps) =
        Changes-Quiet (happen e s).chan (happen-Changes e s no_execute) sound in
      record {
        sound = sound;
        crew =
            next-Crew s two h.sound h.ready h.crew keeps
              (λ i t at shut.
                let drawn : t < s.chan.ring.tail =
                  subst (RecvOk s.chan.ring s.chan.sent) at (h.sound.safe.inv.recv_ok i) in
                keeps (omega (arith, h.quiet.waits i t at, drawn)))
              e;
        ready = ready_stays e s h.ready;
        quiet = quiet;
        same = same;
      }

abbrev pub AllNoExecute : List Event → Type 0
AllNoExecute [] = Unit
AllNoExecute (e ∷ es) = IsNoExecute e × AllNoExecute es

pub run-Draining :
    {cap : ℕ} (two : 2 ≤ cap) {sent : List Job} (es : List Event) {n : ℕ} {s : System}
    → length es + n + cap < 2 ^ 64
    → AllNoExecute es
    → Draining cap n sent s
    → Draining cap (length es + n) sent (run es s)
unfolding run
run-Draining {cap} two {sent} [] {s} small no_execute h =
    subst (λ k. Draining cap k sent s) (omega arith) h
run-Draining {cap} two {sent} (e ∷ es) {n} {s} small no_execute h =
    subst (λ k. Draining cap k sent (run es (happen e s))) (omega arith)
      (run-Draining two es {n = suc n} (omega arith) no_execute.1
        (next-Draining s two (omega arith) h e no_execute.0))

-- The step of `threadpool_shutdown` that closes the channel.
pub closing-Draining :
    {n : ℕ} (num_threads : ℕ) (two : 2 ≤ num_threads * 4)
    → n + num_threads * 4 + 1 < 2 ^ 64
    → (s : System) → Reached (num_threads * 4) n s
    → s.shutdown ≡ close_channel
    → s.chan.ring.state ≡ opened
    → ((i : ℕ) → send_rests (s.chan.senders i) ≡ true)
    → ((i t : ℕ) → s.chan.receivers i ≡ RecvPc.check t → s.chan.ring.head ≤ t)
    → Draining (num_threads * 4) (suc n) s.chan.sent (happen step_shutdown s)
unfolding happen threadpool_shutdown Mpmc.happen
closing-Draining num_threads two small s h closing open_ rests waits =
    let shuts : (threadpool_shutdown s.shutdown s).chan ≡ Mpmc.happen Mpmc.Event.close s.chan =
      ap (λ pc. (threadpool_shutdown pc s).chan) closing in
    let not_shut : ¬ IsShut s.chan = λ shut. cc (rw open_ at shut) in
    record {
      sound = next-Sound s two small h.sound step_shutdown;
      crew =
          next-Crew s two h.sound h.ready h.crew (λ shut. absurd (not_shut shut))
            (λ i t at shut. absurd (not_shut shut)) step_shutdown;
      ready = ready_stays step_shutdown s h.ready;
      quiet = subst Quiet (sym shuts) (close-Quiet h.sound.published open_ rests waits);
      same = ap (λ c. c.sent) shuts;
    }

Served-In : (t : ℕ) (x : Job) (gs : List (ℕ × Option Job)) → Served t x gs → In (t, some x) gs
Served-In t x [] v = v
Served-In t x (g ∷ gs) (inl (e, e')) = inl (ap (λ k. (k, g.1)) e ∙ ap (λ o. (t, o)) e')
Served-In t x (g ∷ gs) (inr v) = inr (Served-In t x gs v)

-- When all threads have ended, what was received was run.
pub ended :
    {cap n : ℕ} {sent : List Job} (s : System)
    → Draining cap n sent s
    → ((i : ℕ) → (s.workers i ≡ exited) ⊎ (s.workers i ≡ call))
    → s.workers 0 ≡ exited
    → (2 ≤ cap)
    → (t : ℕ) → t < length sent
    → (x : Job) × (get_elem? sent t ≡ some x) × In (t, some x) s.ran
ended {sent} s h out first two t lt =
    let at : (i : ℕ) → hands s i ≡ none =
      λ i. elim (out i) [ inl e ↦ rw e refl | inr e ↦ rw e refl ] in
    let drawn : Drawn s.chan = elim (h.crew.loops 0) [
      | inl l ↦ absurd (rw first at l)
      | inr d ↦ d
    ] in
    let (x, at_t, served) =
      Quiet-Served two h.sound h.quiet (λ i. recv_rests-ticket (s.chan.receivers i) (rests i)) drawn
        t (omega (arith, lt, ap length h.same)) in
    let done =
      In_AllGot _ (t, some x) s.chan.got h.crew.books.covered (Served-In t x s.chan.got served) in
    (
      x,
      ap (λ l. get_elem? l t) (sym h.same) ∙ at_t,
      elim done [ inl i ↦ i | inr (i, e) ↦ absurd (cc (at i)) ],
    )
  where
    rests : (i : ℕ) → recv_rests (s.chan.receivers i) ≡ true
    rests i = elim (h.crew.idle i) [
      | inl r ↦ absurd (elim (out i) [ inl e ↦ rw e at r | inr e ↦ rw e at r ])
      | inr e ↦ e
    ]
