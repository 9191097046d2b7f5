-- ===== src/ThreadPool/Once.antt =====
-- threadpool/threadpool.h: what a pool has run after any sequence of events on it.
use mathlib.Core.Option
use mathlib.Core.Path.{subst}
use seakcutils.Base.{
  ℕ, suc, ◌+◌, ◌*◌, ◌<◌, ◌≤◌, ◌^◌, ◌≡◌, refl, sym, ap, some, true, inl, inr, arith, get_elem?,
  get_elem?-of_lt, List, [], ◌∷◌, length, ◌∙◌, Bool-cases,
}
use seakcutils.Channel.{is_closed}
use seakcutils.Mpmc
use seakcutils.Mpmc.{ChannelMpmc, send_rests, recv_rests}
use seakcutils.Mpmc.Invariant.{AllGot, AllGot-map, Apart}
use seakcutils.Mpmc.Tickets.{send_state, recv_state}
use seakcutils.Mpmc.Graceful.{Sound, create-Sound}
use seakcutils.ThreadPool.{
  Job, System, Event, execute, step_execute, step_worker, call_shutdown, step_shutdown, happen, run,
  threadpool_init, system_of,
}
use seakcutils.ThreadPool.Books.{In_AllGot}
use seakcutils.ThreadPool.Hands.{Crew}
use seakcutils.ThreadPool.Moves.{Changes, happen-Changes, same_pool, next-Sound}
use seakcutils.ThreadPool.Crews.{AllReady, next-Crew}
use seakcutils.ThreadPool.Init.{threadpool_init-Started, new_channel, created}

abbrev pub IsShut : Mpmc.System Job → Type 0
IsShut c = is_closed c.ring.state ≡ true

IsShut-stays : (m : Mpmc.Event Job) (c : Mpmc.System Job) → IsShut c → IsShut (Mpmc.happen m c)
unfolding Mpmc.happen
IsShut-stays (Mpmc.Event.send i null x) c e = elim (Bool-cases (send_rests (c.senders i))) [
  | inl e' ↦ rw e' e
  | inr e' ↦ rw e' e
]
IsShut-stays (Mpmc.Event.recv i handle) c e = elim (Bool-cases (recv_rests (c.receivers i))) [
  | inl e' ↦ rw e' e
  | inr e' ↦ rw e' e
]
IsShut-stays (Mpmc.Event.step_sender i) c e = rw (send_state (c.senders i) c.ring) e
IsShut-stays (Mpmc.Event.step_receiver i) c e = rw (recv_state (c.receivers i) c.ring) e
IsShut-stays Mpmc.Event.close c e = refl

Changes-IsShut : {c c' : Mpmc.System Job} → Changes c c' → IsShut c → IsShut c'
Changes-IsShut (inl e) shut = rw e shut
Changes-IsShut {c} (inr (m, _, e)) shut = rw e (IsShut-stays m c shut)

next-IsShut : (e : Event) (s : System) → IsShut s.chan → IsShut (happen e s).chan
unfolding happen
next-IsShut (execute i func arg) s shut = IsShut-stays _ s.chan shut
next-IsShut (step_execute i) s shut = Changes-IsShut (happen-Changes (step_execute i) s tt) shut
next-IsShut (step_worker i) s shut = Changes-IsShut (happen-Changes (step_worker i) s tt) shut
next-IsShut call_shutdown s shut = Changes-IsShut (happen-Changes call_shutdown s tt) shut
next-IsShut step_shutdown s shut = Changes-IsShut (happen-Changes step_shutdown s tt) shut

-- A reachable state, after `n` events: while the channel is open, no worker has left its loop.
pub record Reached (cap n : ℕ) (s : System) : Type 0 where
  pub sound : Sound cap n s.chan
  pub crew : Crew (IsShut s.chan) s
  pub ready : AllReady s

pub ready_stays : (e : Event) (s : System) → AllReady s → AllReady (happen e s)
ready_stays e s ready i w at =
    ready i w (ap (λ p. get_elem? p.workers i) (sym (same_pool e s)) ∙ at)

module _ {cap : ℕ} (two : 2 ≤ cap) where
  pub run-Reached :
      (es : List Event) {n : ℕ} {s : System}
      → length es + n + cap < 2 ^ 64
      → Reached cap n s
      → Reached cap (length es + n) (run es s)
  unfolding run
  run-Reached [] {n} {s} small h = subst (λ k. Reached cap k s) (omega arith) h
  run-Reached (e ∷ es) {n} {s} small h =
      let keeps = next-IsShut e s in
      let h' : Reached cap (suc n) (happen e s) = record {
        sound = next-Sound s two (omega arith) h.sound e;
        crew = next-Crew s two h.sound h.ready h.crew keeps (λ i t at shut. keeps shut) e;
        ready = ready_stays e s h.ready;
      } in
      subst (λ k. Reached cap k (run es (happen e s))) (omega arith)
        (run-Reached es {n = suc n} (omega arith) h')

module _ (num_threads : ℕ) (one : 1 ≤ num_threads) (lt : num_threads * 4 < 2 ^ 64)
    {chan : ChannelMpmc Job} (e : (threadpool_init true num_threads).channel ≡ some chan) where
  pub start-Reached :
      Reached (num_threads * 4) 0 (system_of (threadpool_init true num_threads) chan)
  start-Reached =
      let st = (threadpool_init-Started num_threads lt).0 in
      let same : chan.ring ≡ (new_channel num_threads).ring =
        ap (λ c. c.ring) (Option.some-injective _ _ (sym e ∙ st.made)) ∙ st.same in
      record {
        sound =
            subst
              (λ r.
                Sound (num_threads * 4) 0
                  (record (Mpmc.system_of (new_channel num_threads)) { ring = r }))
              (sym same) (create-Sound (omega arith) 16 (created num_threads lt));
        crew = record {
          books = record {
            covered = tt;
            once = tt;
            taken = tt;
            real = λ i g at. cc;
            fresh = λ i g at. cc;
            own = λ i j g h at at' t. cc;
          };
          idle = λ i. inr refl;
          loops = λ i. inl tt;
        };
        ready = st.ready;
      }

  module _ (es : List Event) (small : length es + num_threads * 4 < 2 ^ 64) where
    -- In a pool of at least one worker, where `malloc` gives storage for the channel, whatever the
    -- order of fewer than 2 ^ 64 - 4 * num_threads events, each job that was run was submitted, on the
    -- ticket that its worker received it on, and no two were run on the same ticket.
    pub threadpool_runs_once :
        AllGot
          (λ g.
            (x : Job) × (g.1 ≡ some x)
            × (get_elem? (run es (system_of (threadpool_init true num_threads) chan)).chan.sent g.0
                ≡ some x))
          (run es (system_of (threadpool_init true num_threads) chan)).ran
        × Apart (run es (system_of (threadpool_init true num_threads) chan)).ran
    threadpool_runs_once =
        let h = run-Reached (omega arith) es (omega arith) start-Reached in
        let s = run es (system_of (threadpool_init true num_threads) chan) in
        (
          AllGot-map s.ran
              (λ g i.
                let (_, below, at) = In_AllGot _ g s.chan.got h.sound.safe.delivered.valid i in
                let (x, e') =
                  get_elem?-of_lt s.chan.sent g.0 (omega (arith, h.sound.safe.inv.logged, below)) in
                (x, at ∙ e', e'))
              h.crew.books.taken,
          h.crew.books.once,
        )
