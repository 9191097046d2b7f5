-- ===== src/Mpmc/Published.antt =====
-- While an MPMC channel is open no ticket is given up: a sender or a receiver has it, or it is
-- served, or its slot is marked as full.
use mathlib.Core.Logic.{if_pos, if_neg}
use seakcutils.Base.{
  ℕ, ◌+◌, ◌^◌, ◌≤◌, ◌<◌, ◌≡◌, ◌∙◌, sym, refl, ◌⊎◌, inl, inr, ℕ_discrete, Bool-cases, true,
}
use seakcutils.Channel.{SendPc, RecvPc, opened}
use seakcutils.Mpmc.{
  Event, System, update, happen, send, recv, step_sender, step_receiver, close, send_rests,
  recv_rests, mpmc_send_call, mpmc_recv_call,
}
use seakcutils.Mpmc.Invariant.{Inv}
use seakcutils.Mpmc.Tickets.{
  GotAt, Sending, Receiving, Marked, update-Sending, update-Receiving, rests-ticket,
  recv_rests-ticket, sender_keeps, sender_draws, sender_marked, receiver_marked, receiver_draws,
  receiver_keeps, got_on, send_state, recv_state, send_tail, recv_head,
}

module _ {A : Type 0} where
  pub record Published (s : System A) : Type 0 where
    pub sent_on :
        s.ring.state ≡ opened
        → (t : ℕ) → t < s.ring.head
        → Sending s t ⊎ (GotAt t s.got ⊎ Marked s t)
    pub drawn : s.ring.state ≡ opened → (t : ℕ) → t < s.ring.tail → Receiving s t ⊎ GotAt t s.got

module _ {A : Type 0} {cap n : ℕ} {s : System A} (v : Inv cap n s) (two : 2 ≤ cap)
    (small : n + cap + 1 < 2 ^ 64) (h : Published s) where
  send-Published :
      (i : ℕ) (o : SendPc A)
      → send_rests (s.senders i) ≡ true
      → Published (record s { senders = update s.senders i o })
  send-Published i o rests = record {
    sent_on = λ open_ t lt. elim (h.sent_on open_ t lt) [
      | inl held ↦ inl (update-Sending s i t o (λ e. cc (rests-ticket (s.senders i) rests)) held)
      | inr done ↦ inr done
    ];
    drawn = h.drawn;
  }

  recv-Published :
      (i : ℕ) (o : RecvPc A)
      → recv_rests (s.receivers i) ≡ true
      → Published (record s { receivers = update s.receivers i o })
  recv-Published i o rests = record {
    sent_on = h.sent_on;
    drawn = λ open_ t lt. elim (h.drawn open_ t lt) [
      | inl held ↦
          inl (update-Receiving s i t o (λ e. cc (recv_rests-ticket (s.receivers i) rests)) held)
      | inr done ↦ inr done
    ];
  }

  step_sender-Published : (i : ℕ) → Published (happen (step_sender i) s)
  unfolding happen
  step_sender-Published i = record {
    sent_on = λ open_ t lt.
        let before = sym (send_state p s.ring) ∙ open_ in
        elim (sender_draws v two small p t lt) [
          | inl old ↦ elim (h.sent_on before t old) [
            | inl (j, e) ↦ elim (ℕ_discrete i j) [
              | yes same ↦ elim (sender_keeps v two small p t (v.send_ok i) before (rw same e)) [
                | inl keeps ↦ inl (i, rw (if_pos (ℕ_discrete i i) refl) keeps)
                | inr marked ↦ inr (inr marked)
              ]
              | no ne ↦ inl (j, rw (if_neg (ℕ_discrete i j) ne) e)
            ]
            | inr (inl got) ↦ inr (inl got)
            | inr (inr marked) ↦ inr (inr (sender_marked v two small p t (v.send_ok i) marked))
          ]
          | inr new ↦ inl (i, rw (if_pos (ℕ_discrete i i) refl) new)
        ];
    drawn =
        λ open_ t lt. h.drawn (sym (send_state p s.ring) ∙ open_) t (rw (send_tail p s.ring) at lt);
  }
    where
      p : SendPc A
      p = s.senders i

  step_receiver-Published : (i : ℕ) → Published (happen (step_receiver i) s)
  unfolding happen
  step_receiver-Published i = record {
    sent_on = λ open_ t lt.
        elim (h.sent_on (sym (recv_state p s.ring) ∙ open_) t (rw (recv_head p s.ring) at lt)) [
          | inl held ↦ inl held
          | inr (inl got) ↦ inr (inl (got_on v two small p t got))
          | inr (inr marked) ↦ inr (receiver_marked v two small p t (v.recv_ok i) marked)
        ];
    drawn = λ open_ t lt.
        let before = sym (recv_state p s.ring) ∙ open_ in
        elim (receiver_draws v two small p t lt) [
          | inl old ↦ elim (h.drawn before t old) [
            | inl (j, e) ↦ elim (ℕ_discrete i j) [
              | yes same ↦ elim (receiver_keeps v two small p t before (rw same e)) [
                | inl keeps ↦ inl (i, rw (if_pos (ℕ_discrete i i) refl) keeps)
                | inr got ↦ inr got
              ]
              | no ne ↦ inl (j, rw (if_neg (ℕ_discrete i j) ne) e)
            ]
            | inr got ↦ inr (got_on v two small p t got)
          ]
          | inr new ↦ inl (i, rw (if_pos (ℕ_discrete i i) refl) new)
        ];
  }
    where
      p : RecvPc A
      p = s.receivers i

  pub happen-Published : (e : Event A) → Published (happen e s)
  unfolding happen
  happen-Published (send i null x) = elim (Bool-cases (send_rests (s.senders i))) [
    | inl e ↦ rw e (send-Published i (mpmc_send_call null x) e)
    | inr e ↦ rw e h
  ]
  happen-Published (recv i handle) = elim (Bool-cases (recv_rests (s.receivers i))) [
    | inl e ↦ rw e (recv-Published i (mpmc_recv_call handle) e)
    | inr e ↦ rw e h
  ]
  happen-Published (step_sender i) = step_sender-Published i
  happen-Published (step_receiver i) = step_receiver-Published i
  happen-Published close = record { sent_on = λ open_. cc; drawn = λ open_. cc }
