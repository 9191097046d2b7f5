-- ===== src/Mpmc/CloseTests.antt =====
-- Two closings of an MPMC channel of two slots: one after its send, one while a receiver waits.
use mathlib.Core.Logic.{if_neg}
use seakcutils.Base.{
  ap, ℕ, ◌≡◌, refl, none, some, List, [], ◌∷◌, ◌++◌, arith, false, true, get_elem?, ℕ_discrete,
  length, ◌≤◌, zero, suc, inl, inr, Bool-cases, ◌≢◌, ◌∙◌,
}
use seakcutils.Channel.{RecvPc, send_step, recv_step, opened}
use seakcutils.Mpmc.{
  ChannelMpmc, channel_create_mpmc, Event, happen, run, send, recv, step_sender, step_receiver,
  close, System, system_of, send_rests, recv_rests,
}
use seakcutils.Mpmc.Tickets.{GotAt, Marked}
use seakcutils.Mpmc.Graceful.{Served, after_close, mpmc_drains}
use seakcutils.Mpmc.Lost.{mpmc_loses}

abbrev two_slots : ChannelMpmc ℕ
two_slots = record {
  ring = record {
    slots = λ i. record { elem = none; seq = i };
    capacity = 2;
    head = 0;
    tail = 0;
    state = opened;
  };
  elem_size = 4;
  prod_cont = 0;
  cons_cont = 0;
}

created : channel_create_mpmc true 2 4 ≡ some two_slots
unfolding channel_create_mpmc
created = refl

abbrev sent_seven : List (Event ℕ)
sent_seven =
    send 0 false 7
    ∷ step_sender 0
    ∷ step_sender 0
    ∷ step_sender 0
    ∷ step_sender 0
    ∷ step_sender 0
    ∷ []

-- A receiver that comes when the channel is closed.
abbrev received : List (Event ℕ)
received =
    recv 0 (some opened)
    ∷ step_receiver 0
    ∷ step_receiver 0
    ∷ step_receiver 0
    ∷ step_receiver 0
    ∷ step_receiver 0
    ∷ []

-- The event is not on the sender, or the receiver, of this number.
abbrev Elsewhere : ℕ → Event ℕ → Type 0
Elsewhere j (send i null x) = i ≢ j
Elsewhere j (recv i handle) = i ≢ j
Elsewhere j (step_sender i) = i ≢ j
Elsewhere j (step_receiver i) = i ≢ j
Elsewhere j close = Unit

abbrev AllElsewhere : ℕ → List (Event ℕ) → Type 0
AllElsewhere j [] = Unit
AllElsewhere j (e ∷ es) = Elsewhere j e × AllElsewhere j es

happen-Elsewhere :
    (e : Event ℕ) (s : System ℕ) (j : ℕ)
    → Elsewhere j e
    → ((happen e s).senders j ≡ s.senders j) × ((happen e s).receivers j ≡ s.receivers j)
unfolding happen
happen-Elsewhere (send i null x) s j ne = elim (Bool-cases (send_rests (s.senders i))) [
  | inl e ↦ rw (e, if_neg (ℕ_discrete i j) ne) (refl, refl)
  | inr e ↦ rw e (refl, refl)
]
happen-Elsewhere (recv i handle) s j ne = elim (Bool-cases (recv_rests (s.receivers i))) [
  | inl e ↦ rw (e, if_neg (ℕ_discrete i j) ne) (refl, refl)
  | inr e ↦ rw e (refl, refl)
]
happen-Elsewhere (step_sender i) s j ne = (rw (if_neg (ℕ_discrete i j) ne) refl, refl)
happen-Elsewhere (step_receiver i) s j ne = (refl, rw (if_neg (ℕ_discrete i j) ne) refl)
happen-Elsewhere close s j ne = (refl, refl)

run-Elsewhere :
    (es : List (Event ℕ)) (s : System ℕ) (j : ℕ)
    → AllElsewhere j es
    → ((run es s).senders j ≡ s.senders j) × ((run es s).receivers j ≡ s.receivers j)
unfolding run
run-Elsewhere [] s j h = (refl, refl)
run-Elsewhere (e ∷ es) s j h =
    let (later, later') = run-Elsewhere es (happen e s) j h.1 in
    let (now, now') = happen-Elsewhere e s j h.0 in (later ∙ now, later' ∙ now')

zero_ne : (i : ℕ) → zero ≢ suc i
zero_ne i e = omega (arith, e)

senders_rest : (i : ℕ) → send_rests ((run sent_seven (system_of two_slots)).senders i) ≡ true
unfolding run happen send_step ℕ_discrete
senders_rest zero = refl
senders_rest (suc i) =
    let ne = zero_ne i in
    rw
      (run-Elsewhere sent_seven (system_of two_slots) (suc i)
        (ne, (ne, (ne, (ne, (ne, (ne, tt))))))).0
      refl

receivers_rest :
    (i : ℕ) → recv_rests ((after_close two_slots sent_seven received).receivers i) ≡ true
unfolding run happen send_step recv_step ℕ_discrete
receivers_rest zero = refl
receivers_rest (suc i) =
    let ne = zero_ne i in
    let s = happen close (run sent_seven (system_of two_slots)) in
    let (_, later) = run-Elsewhere received s (suc i) (ne, (ne, (ne, (ne, (ne, (ne, tt)))))) in
    let (_, before) =
      run-Elsewhere sent_seven (system_of two_slots) (suc i)
        (ne, (ne, (ne, (ne, (ne, (ne, tt)))))) in
    ap recv_rests (later ∙ before)

none_waits :
    (i t : ℕ)
    → (run sent_seven (system_of two_slots)).receivers i ≡ RecvPc.check t
    → (run sent_seven (system_of two_slots)).ring.head ≤ t
unfolding run happen send_step ℕ_discrete
none_waits i t e = cc

still_open : (run sent_seven (system_of two_slots)).ring.state ≡ opened
unfolding run happen send_step ℕ_discrete
still_open = refl

all_drawn :
    (after_close two_slots sent_seven received).ring.head
    ≤ (after_close two_slots sent_seven received).ring.tail
unfolding run happen send_step recv_step ℕ_discrete
all_drawn = omega arith

one_sent : length (run sent_seven (system_of two_slots)).sent ≡ 1
unfolding run happen send_step ℕ_discrete
one_sent = refl

mpmc_drains_example :
    (x : ℕ) × (get_elem? (run sent_seven (system_of two_slots)).sent 0 ≡ some x)
    × Served 0 x (after_close two_slots sent_seven received).got
mpmc_drains_example =
    mpmc_drains 2 4 sent_seven received (omega arith) (omega arith) created still_open senders_rest
      none_waits (tt, (tt, (tt, (tt, (tt, (tt, tt)))))) receivers_rest all_drawn 0
      (omega (arith, one_sent))

-- A receiver that has looked at the slot before the send.
abbrev overtaken : List (Event ℕ)
overtaken =
    recv 0 (some opened) ∷ step_receiver 0 ∷ step_receiver 0 ∷ step_receiver 0 ∷ sent_seven
    ++ (close ∷ [])

mpmc_loses_example :
    ¬ GotAt 0 (run received (happen (step_receiver 0) (run overtaken (system_of two_slots)))).got
    × Marked (run received (happen (step_receiver 0) (run overtaken (system_of two_slots)))) 0
unfolding run happen send_step recv_step ℕ_discrete
mpmc_loses_example =
    mpmc_loses 2 4 overtaken received (omega arith) (omega arith) created 0 0 refl refl refl
