-- ===== src/Mpmc/Drain.antt =====
-- What becomes of the elements that are in an MPMC channel when it is closed.
use mathlib.Core.Logic.{if_pos, if_neg}
use seakcutils.Base.{
  ℕ, suc, ◌+◌, ◌^◌, ◌≤◌, ◌<◌, ◌≡◌, ◌≢◌, refl, some, none, List, [], ◌∷◌, arith, ◌⊎◌, inl, inr,
  ℕ_discrete, dec_lt, Bool-cases, true, Option, ap,
}
use seakcutils.Channel.{Ring, slot_of, SendPc, RecvPc, send_step, recv_step, opened}
use seakcutils.Mpmc.{
  Event, System, update, happen, log_got, log_sent, send, recv, step_sender, step_receiver, close,
  send_rests, recv_rests, mpmc_recv_call,
}
use seakcutils.Mpmc.Invariant.{RecvOk, AllGot, recv_ticket}
use seakcutils.Mpmc.Tickets.{
  GotAt, Receiving, Marked, update-Receiving, rests-ticket, recv_rests-ticket, receiver_marked,
  receiver_draws, got_on, recv_head,
}
use seakcutils.Mpmc.Published.{Published}
use seakcutils.Mpmc.Calls.{call_recv_ticket}
use seakcutils.Mpmc.Reach.{Safe}

module _ {A : Type 0} where
  -- No send is under way, each element sent is served or in its slot, each one drawn is served or
  -- with a receiver, and no receiver is about to give one up.
  pub record Quiet (s : System A) : Type 0 where
    pub rests : (i : ℕ) → send_rests (s.senders i) ≡ true
    pub published : (t : ℕ) → t < s.ring.head → GotAt t s.got ⊎ Marked s t
    pub drawn : (t : ℕ) → t < s.ring.head → t < s.ring.tail → Receiving s t ⊎ GotAt t s.got
    pub waits : (i t : ℕ) → s.receivers i ≡ RecvPc.check t → s.ring.head ≤ t

  -- Every event but a new send.
  abbrev pub IsNoSend : Event A → Type 0
  IsNoSend (send i null x) = ⊥
  IsNoSend _ = Unit

  abbrev pub AllNoSend : List (Event A) → Type 0
  AllNoSend [] = Unit
  AllNoSend (e ∷ es) = IsNoSend e × AllNoSend es

  -- A call that has returned makes no step.
  rests_still :
      (p : SendPc A) (r : Ring A) (sent : List A)
      → send_rests p ≡ true
      → (send_step p r ≡ (p, r)) × (log_sent p sent ≡ sent)
  unfolding send_step
  rests_still (SendPc.returned c) r sent e = (refl, refl)
  rests_still SendPc.trapped r sent e = cc
  rests_still (SendPc.start v) r sent e = cc
  rests_still (SendPc.draw v) r sent e = cc
  rests_still (SendPc.wait t v) r sent e = cc
  rests_still (SendPc.check t v) r sent e = cc
  rests_still (SendPc.copy t v) r sent e = cc
  rests_still (SendPc.publish t v) r sent e = cc

  pub not-GotAt : (t : ℕ) (gs : List (ℕ × Option A)) → AllGot (λ g. g.0 ≢ t) gs → ¬ GotAt t gs
  not-GotAt t [] h g = g
  not-GotAt t (x ∷ gs) h (inl e) = h.0 e
  not-GotAt t (x ∷ gs) h (inr g) = not-GotAt t gs h.1 g

  -- A receiver that has found its slot unmarked has drawn a ticket without an element.
  recv_check :
      (q : RecvPc A) (r : Ring A) (sent : List A) (t : ℕ)
      → RecvOk r sent q
      → r.tail < 2 ^ 64
      → (recv_step q r).0 ≡ RecvPc.check t
      → (q ≡ RecvPc.wait t) × ((slot_of r t).seq ≢ suc t)
  unfolding recv_step
  recv_check (RecvPc.wait k) r sent t h lt e = (ground arith, λ e'. ground arith)
  recv_check (RecvPc.check k) r sent t h lt e = ground arith
  recv_check (RecvPc.start st) r sent t h lt e = ground arith
  recv_check RecvPc.draw r sent t h lt e = ground arith
  recv_check (RecvPc.copy k) r sent t h lt e = cc
  recv_check (RecvPc.release k out) r sent t h lt e = cc
  recv_check (RecvPc.returned c out) r sent t h lt e = cc
  recv_check RecvPc.trapped r sent t h lt e = cc

  -- On a ticket without an element, a receiver keeps the ticket, serves it, or gives it up.
  recv_goes :
      (q : RecvPc A) (r : Ring A) (got : List (ℕ × Option A)) (t : ℕ)
      → recv_ticket q ≡ some t
      → (recv_ticket (recv_step q r).0 ≡ some t) ⊎ (GotAt t (log_got q got) ⊎ (q ≡ RecvPc.check t))
  unfolding recv_step
  recv_goes (RecvPc.wait k) r got t e = inl (ground arith)
  recv_goes (RecvPc.check k) r got t e = inr (inr (cc))
  recv_goes (RecvPc.copy k) r got t e = inl e
  recv_goes (RecvPc.release k out) r got t e = inr (inl (inl (cc)))
  recv_goes _ r got t e = cc

module _ {A : Type 0} {s : System A} (h : Quiet s) where
  recv-Quiet :
      (i : ℕ) (o : RecvPc A)
      → recv_rests (s.receivers i) ≡ true
      → recv_ticket o ≡ none
      → Quiet (record s { receivers = update s.receivers i o })
  recv-Quiet i o rest fresh = record {
    rests = h.rests;
    published = h.published;
    drawn = λ t lt lt'. elim (h.drawn t lt lt') [
      | inl held ↦
          inl (update-Receiving s i t o (λ e. cc (recv_rests-ticket (s.receivers i) rest)) held)
      | inr done ↦ inr done
    ];
    waits = λ j t. elim (ℕ_discrete i j) [
      | yes e ↦ rw (if_pos (ℕ_discrete i j) e) (λ e'. cc (ap recv_ticket e'))
      | no ne ↦ rw (if_neg (ℕ_discrete i j) ne) (h.waits j t)
    ];
  }

  step_sender-Quiet : (i : ℕ) → Quiet (happen (step_sender i) s)
  unfolding happen
  step_sender-Quiet i =
      let (still, log) = rests_still (s.senders i) s.ring s.sent (h.rests i) in
      record {
        rests = λ j. elim (ℕ_discrete i j) [
          | yes e ↦ rw (if_pos (ℕ_discrete i j) e, still) (h.rests i)
          | no ne ↦ rw (if_neg (ℕ_discrete i j) ne) (h.rests j)
        ];
        published = rw still h.published;
        drawn = rw still h.drawn;
        waits = rw still h.waits;
      }

module _ {A : Type 0} {cap n : ℕ} {s : System A} (safe : Safe cap n s) (two : 2 ≤ cap)
    (small : n + cap + 1 < 2 ^ 64) (h : Quiet s) where
  step_receiver-Quiet : (i : ℕ) → Quiet (happen (step_receiver i) s)
  unfolding happen
  step_receiver-Quiet i = record {
    rests = h.rests;
    published = λ t lt. elim (h.published t (rw (recv_head p s.ring) at lt)) [
      | inl got ↦ inl (got_on safe.inv two small p t got)
      | inr marked ↦ receiver_marked safe.inv two small p t (safe.inv.recv_ok i) marked
    ];
    drawn = λ t lt lt'.
        let below : t < s.ring.head = rw (recv_head p s.ring) at lt in
        elim (receiver_draws safe.inv two small p t lt') [
          | inl old ↦ elim (h.drawn t below old) [
            | inl (j, e) ↦ elim (ℕ_discrete i j) [
              | yes same ↦ elim (recv_goes p s.ring s.got t (rw same e)) [
                | inl keeps ↦ inl (i, rw (if_pos (ℕ_discrete i i) refl) keeps)
                | inr (inl got) ↦ inr got
                | inr (inr checks) ↦ absurd (omega (arith, below, h.waits i t checks))
              ]
              | no ne ↦ inl (j, rw (if_neg (ℕ_discrete i j) ne) e)
            ]
            | inr got ↦ inr (got_on safe.inv two small p t got)
          ]
          | inr new ↦ inl (i, rw (if_pos (ℕ_discrete i i) refl) new)
        ];
    waits = λ j t. elim (ℕ_discrete i j) [
      | yes e ↦ rw (if_pos (ℕ_discrete i j) e, recv_head p s.ring) (unmarked t)
      | no ne ↦ rw (if_neg (ℕ_discrete i j) ne, recv_head p s.ring) (h.waits j t)
    ];
  }
    where
      p : RecvPc A
      p = s.receivers i

      unmarked : (t : ℕ) → (recv_step p s.ring).0 ≡ RecvPc.check t → s.ring.head ≤ t
      unmarked t e =
          let (at, other) =
            recv_check p s.ring s.sent t (safe.inv.recv_ok i)
              (omega (arith, safe.inv.tail_le, small)) e in
          elim (dec_lt t s.ring.head) [
            | yes lt ↦ elim (h.published t lt) [
              | inl got ↦
                  absurd (not-GotAt t s.got (safe.delivered.held i t (ap recv_ticket at)) got)
              | inr marked ↦ absurd (other marked)
            ]
            | no ge ↦ omega (arith, ge)
          ]

  pub happen-Quiet : (e : Event A) → IsNoSend e → Quiet (happen e s)
  unfolding happen
  happen-Quiet (send i null x) no_send = absurd no_send
  happen-Quiet (recv i handle) no_send = elim (Bool-cases (recv_rests (s.receivers i))) [
    | inl e ↦ rw e (recv-Quiet h i (mpmc_recv_call handle) e (call_recv_ticket safe.inv handle))
    | inr e ↦ rw e h
  ]
  happen-Quiet (step_sender i) no_send = step_sender-Quiet h i
  happen-Quiet (step_receiver i) no_send = step_receiver-Quiet i
  happen-Quiet close no_send = record {
    rests = h.rests;
    published = h.published;
    drawn = h.drawn;
    waits = h.waits;
  }

  -- The elements sent stay the same.
  pub same_sent : (e : Event A) → IsNoSend e → (happen e s).sent ≡ s.sent
  unfolding happen
  same_sent (send i null x) no_send = absurd no_send
  same_sent (recv i handle) no_send = ground arith
  same_sent (step_sender i) no_send = (rests_still (s.senders i) s.ring s.sent (h.rests i)).1
  same_sent (step_receiver i) no_send = refl
  same_sent close no_send = refl

-- The closing of an open channel on which no send is under way, unless a receiver is about to give
-- up a ticket with an element.
pub close-Quiet :
    {A : Type 0} {s : System A}
    → Published s
    → s.ring.state ≡ opened
    → ((i : ℕ) → send_rests (s.senders i) ≡ true)
    → ((i t : ℕ) → s.receivers i ≡ RecvPc.check t → s.ring.head ≤ t)
    → Quiet (happen close s)
unfolding happen
close-Quiet {s} p open_ rests waits = record {
  rests = rests;
  published = λ t lt. elim (p.sent_on open_ t lt) [
    | inl (i, e) ↦ absurd (cc (rests-ticket (s.senders i) (rests i)))
    | inr done ↦ done
  ];
  drawn = λ t lt lt'. p.drawn open_ t lt';
  waits = waits;
}
