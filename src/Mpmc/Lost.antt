-- ===== src/Mpmc/Lost.antt =====
-- The element on a ticket that a receiver has given up stays in its slot for ever.
use mathlib.Core.Logic.{if_pos, if_neg}
use mathlib.Core.Path.{subst}
use seakcutils.Base.{
  ℕ, suc, ◌+◌, ◌^◌, ◌≤◌, ◌<◌, ◌≡◌, ◌≢◌, refl, some, none, List, [], ◌∷◌, length, arith, inl, inr,
  ℕ_discrete, Bool-cases, true, ap,
}
use seakcutils.Channel.{RecvPc, recv_step, closed}
use seakcutils.Mpmc.{
  ChannelMpmc, channel_create_mpmc, Event, System, happen, run, system_of, log_got, send, recv,
  step_sender, step_receiver, close, send_rests, recv_rests,
}
use seakcutils.Mpmc.Invariant.{Inv, RecvOk, recv_ticket}
use seakcutils.Mpmc.Calls.{call_recv_ticket}
use seakcutils.Mpmc.Receivers.{new_ticket}
use seakcutils.Mpmc.Tickets.{GotAt, Marked, sender_marked, receiver_marked, send_tail}
use seakcutils.Mpmc.Reach.{Safe, happen-Safe, run-Safe, create-Safe}
use seakcutils.Mpmc.Drain.{not-GotAt}

-- Ticket `t` was drawn, no receiver has it, and its element is in the slot.
record Gone {A : Type 0} (t : ℕ) (s : System A) : Type 0 where
  past : t < s.ring.tail
  free : (i : ℕ) → recv_ticket (s.receivers i) ≢ some t
  unserved : ¬ GotAt t s.got
  marked : Marked s t

module _ {A : Type 0} {cap n : ℕ} {s : System A} (v : Inv cap n s) (two : 2 ≤ cap)
    (small : n + cap + 1 < 2 ^ 64) (t : ℕ) where
  not_logged :
      (p : RecvPc A) → recv_ticket p ≢ some t → ¬ GotAt t s.got → ¬ GotAt t (log_got p s.got)
  not_logged (RecvPc.release k out) ne un (inl e) = ne (cc)
  not_logged (RecvPc.release k out) ne un (inr g) = un g
  not_logged (RecvPc.start st) ne un g = un g
  not_logged _ ne un g = un g

  tail_kept : (p : RecvPc A) → t < s.ring.tail → t < (recv_step p s.ring).1.tail
  unfolding recv_step
  tail_kept RecvPc.draw lt = omega (arith, v.tail_le)
  tail_kept (RecvPc.start st) lt = lt
  tail_kept _ lt = lt

  happen-Gone : (e : Event A) → Gone t s → Gone t (happen e s)
  unfolding happen
  happen-Gone (send i null x) g = elim (Bool-cases (send_rests (s.senders i))) [
    | inl e ↦
        rw e (record { past = g.past; free = g.free; unserved = g.unserved; marked = g.marked })
    | inr e ↦ rw e g
  ]
  happen-Gone (recv i handle) g = elim (Bool-cases (recv_rests (s.receivers i))) [
    | inl e ↦ rw e (record {
      past = g.past;
      free = λ j. elim (ℕ_discrete i j) [
        | yes same ↦ rw (if_pos (ℕ_discrete i j) same) (λ e'. cc (call_recv_ticket v handle))
        | no ne ↦ rw (if_neg (ℕ_discrete i j) ne) (g.free j)
      ];
      unserved = g.unserved;
      marked = g.marked;
    })
    | inr e ↦ rw e g
  ]
  happen-Gone (step_sender i) g = record {
    past = rw (send_tail (s.senders i) s.ring) g.past;
    free = g.free;
    unserved = g.unserved;
    marked = sender_marked v two small (s.senders i) t (v.send_ok i) g.marked;
  }
  happen-Gone (step_receiver i) g =
      let p = s.receivers i in
      let served = not_logged p (g.free i) g.unserved in
      record {
        past = tail_kept p g.past;
        free = λ j. elim (ℕ_discrete i j) [
          | yes same ↦ rw (if_pos (ℕ_discrete i j) same) (λ e.
              elim (new_ticket v two small i p t e) [
                | inl old ↦ g.free i old
                | inr top ↦ omega (arith, top, g.past)
              ])
          | no ne ↦ rw (if_neg (ℕ_discrete i j) ne) (g.free j)
        ];
        unserved = served;
        marked = elim (receiver_marked v two small p t (v.recv_ok i) g.marked) [
          | inl got ↦ absurd (served got)
          | inr marked ↦ marked
        ];
      }
  happen-Gone close g = record {
    past = g.past;
    free = g.free;
    unserved = g.unserved;
    marked = g.marked;
  }

run-Gone :
    {A : Type 0} {cap : ℕ} (two : 2 ≤ cap) (t : ℕ) (es : List (Event A)) {n : ℕ} {s : System A}
    → length es + n + cap < 2 ^ 64
    → Safe cap n s
    → Gone t s
    → Gone t (run es s)
unfolding run
run-Gone two t [] small h g = g
run-Gone two t (e ∷ es) {n} small h g =
    run-Gone two t es {n = suc n} (omega arith) (happen-Safe two e (omega arith) h)
      (happen-Gone h.inv two (omega arith) t e g)

module _ {A : Type 0} (cap elem_size : ℕ) {chan : ChannelMpmc A} (es es' : List (Event A))
    (two : 2 ≤ cap) (small : length es + length es' + cap + 2 < 2 ^ 64)
    (e : channel_create_mpmc true cap elem_size ≡ some chan) (i t : ℕ) where
  -- On a channel of at least two slots, after fewer than 2 ^ 64 - capacity - 2 events, a receiver has
  -- found its slot unmarked, then a sender marked the slot as full and the channel was closed. The
  -- receiver's next step gives up the ticket: whatever happens after it, nobody receives the element,
  -- which stays in the slot.
  pub mpmc_loses :
      (run es (system_of chan)).ring.state ≡ closed
      → (run es (system_of chan)).receivers i ≡ RecvPc.check t
      → Marked (run es (system_of chan)) t
      → ¬ GotAt t (run es' (happen (step_receiver i) (run es (system_of chan)))).got
        × Marked (run es' (happen (step_receiver i) (run es (system_of chan)))) t
  unfolding happen recv_step
  mpmc_loses shut at marked =
      let s = run es (system_of chan) in
      let h = run-Safe two es (omega arith) (create-Safe two elem_size e) in
      let inv = h.inv in
      let h' = happen-Safe two (step_receiver i) (omega arith) h in
      let held : recv_ticket (s.receivers i) ≡ some t = ap recv_ticket at in
      let gives_up : recv_ticket (recv_step (s.receivers i) s.ring).0 ≡ none = rw (at, shut) refl in
      let g : Gone t (happen (step_receiver i) s) = record {
        past = rw at (subst (RecvOk s.ring s.sent) at (inv.recv_ok i));
        free = λ j. elim (ℕ_discrete i j) [
          | yes same ↦ rw (if_pos (ℕ_discrete i j) same) (λ e'. cc gives_up)
          | no ne ↦ rw (if_neg (ℕ_discrete i j) ne) (λ e'. ne (inv.recv_unique i j t held e'))
        ];
        unserved = rw at (not-GotAt t s.got (h.delivered.held i t held));
        marked = rw at marked;
      } in
      let last = run-Gone two t es' (omega arith) h' g in (last.unserved, last.marked)
