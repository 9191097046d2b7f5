-- ===== src/Mpmc/Graceful.antt =====
-- The closing of an MPMC channel: which elements still arrive, and which are lost.
use mathlib.Core.Path.{subst}
use mathlib.Core.Option.{some-injective}
use seakcutils.Base.{
  ℕ, suc, ◌+◌, ◌^◌, ◌≤◌, ◌<◌, ◌≡◌, ◌∙◌, sym, refl, some, none, List, [], ◌∷◌, length, arith, ◌⊎◌,
  inl, inr, true, Option, get_elem?, get_elem?-of_lt, ap,
}
use seakcutils.Channel.{RecvPc, opened}
use seakcutils.Mpmc.{
  ChannelMpmc, channel_create_mpmc, Event, System, happen, run, system_of, close, send_rests,
  recv_rests,
}
use seakcutils.Mpmc.Invariant.{AllGot, AllGot-map, recv_ticket}
use seakcutils.Mpmc.Tickets.{GotAt, recv_rests-ticket}
use seakcutils.Mpmc.Published.{Published, happen-Published}
use seakcutils.Mpmc.Reach.{Safe, happen-Safe, create-Safe}
use seakcutils.Mpmc.Drain.{Quiet, AllNoSend, happen-Quiet, same_sent, close-Quiet}

module _ {A : Type 0} where
  -- Element `x` was received on ticket `t`.
  abbrev pub Served : ℕ → A → List (ℕ × Option A) → Type 0
  Served t x [] = ⊥
  Served t x (g ∷ gs) = ((g.0 ≡ t) × (g.1 ≡ some x)) ⊎ Served t x gs

  pub GotAt-Served :
      {x : A} (t : ℕ) (sent : List A) (gs : List (ℕ × Option A))
      → AllGot (λ g. g.1 ≡ get_elem? sent g.0) gs
      → get_elem? sent t ≡ some x
      → GotAt t gs
      → Served t x gs
  GotAt-Served t sent [] h e g = g
  GotAt-Served t sent (g ∷ gs) h e (inl at) = inl (at, h.0 ∙ ap (get_elem? sent) at ∙ e)
  GotAt-Served t sent (g ∷ gs) h e (inr more) = inr (GotAt-Served t sent gs h.1 e more)

  -- What holds in every reachable state.
  pub record Sound (cap n : ℕ) (s : System A) : Type 0 where
    pub safe : Safe cap n s
    pub published : Published s

module _ {A : Type 0} {cap : ℕ} (two : 2 ≤ cap) where
  pub create-Sound :
      (elem_size : ℕ) {chan : ChannelMpmc A}
      → channel_create_mpmc true cap elem_size ≡ some chan
      → Sound cap 0 (system_of chan)
  unfolding channel_create_mpmc
  create-Sound elem_size {chan} e = record {
    safe = create-Safe two elem_size e;
    published =
        subst (λ c. Published (system_of c)) (some-injective _ _ e)
          (record {
            sent_on = λ open_ t lt. absurd (omega (arith, lt));
            drawn = λ open_ t lt. absurd (omega (arith, lt));
          });
  }

  pub happen-Sound :
      {n : ℕ} {s : System A} (e : Event A)
      → n + cap + 1 < 2 ^ 64
      → Sound cap n s
      → Sound cap (suc n) (happen e s)
  happen-Sound e small h = record {
    safe = happen-Safe two e small h.safe;
    published = happen-Published h.safe.inv two small h.published e;
  }

  pub run-Sound :
      (es : List (Event A)) {n : ℕ} {s : System A}
      → length es + n + cap < 2 ^ 64
      → Sound cap n s
      → Sound cap (length es + n) (run es s)
  unfolding run
  run-Sound [] {n} {s} small h = subst (λ k. Sound cap k s) (omega arith) h
  run-Sound (e ∷ es) {n} {s} small h =
      subst (λ k. Sound cap k (run es (happen e s))) (omega arith)
        (run-Sound es {n = suc n} (omega arith) (happen-Sound e (omega arith) h))

  pub run-Quiet :
      (es : List (Event A)) {n : ℕ} {s : System A}
      → length es + n + cap < 2 ^ 64
      → Sound cap n s
      → AllNoSend es
      → Quiet s
      → Quiet (run es s) × ((run es s).sent ≡ s.sent)
  unfolding run
  run-Quiet [] small h no_send q = (q, refl)
  run-Quiet (e ∷ es) {n} {s} small h no_send q =
      let (q', same) =
        run-Quiet es {n = suc n} (omega arith) (happen-Sound e (omega arith) h) no_send.1
          (happen-Quiet h.safe two (omega arith) q e no_send.0) in
      (q', same ∙ same_sent h.safe two (omega arith) q e no_send.0)

  -- With no receiver at work and as many tickets drawn as there are elements, all were received.
  pub Quiet-Served :
      {n : ℕ} {s : System A}
      → Sound cap n s
      → Quiet s
      → ((i : ℕ) → recv_ticket (s.receivers i) ≡ none)
      → s.ring.head ≤ s.ring.tail
      → (t : ℕ) → t < length s.sent
      → (x : A) × (get_elem? s.sent t ≡ some x) × Served t x s.got
  Quiet-Served {s} h q idle drawn t lt =
      let (x, at) = get_elem?-of_lt s.sent t lt in
      let below : t < s.ring.head = omega (arith, h.safe.inv.logged) in
      let got : GotAt t s.got = elim (q.drawn t below (omega (arith, drawn))) [
        | inl (i, e) ↦ absurd (cc (idle i))
        | inr got ↦ got
      ] in
      (
        x,
        at,
        GotAt-Served t s.sent s.got (AllGot-map s.got (λ g v. v.2) h.safe.delivered.valid) at got,
      )

-- The system after the events `es` on a new channel, its closing, and the events `es'`.
abbrev pub after_close : {A : Type 0} → ChannelMpmc A → List (Event A) → List (Event A) → System A
after_close chan es es' = run es' (happen close (run es (system_of chan)))

module _ {A : Type 0} (cap elem_size : ℕ) {chan : ChannelMpmc A} (es es' : List (Event A))
    (two : 2 ≤ cap) (small : length es + length es' + cap + 2 < 2 ^ 64)
    (e : channel_create_mpmc true cap elem_size ≡ some chan) where
  reached : Sound cap (length es + 0) (run es (system_of chan))
  reached = run-Sound two es (omega arith) (create-Sound two elem_size e)

  -- A channel of at least two slots is closed while it is open, no send is under way, and no receiver
  -- stands with a ticket that has an element between its look at the slot and its look at the state.
  -- Then, with fewer than 2 ^ 64 - capacity - 2 events of which none after the closing is a send, once
  -- all receivers have returned and have drawn as many tickets as elements were sent, each element
  -- sent was received on its ticket.
  pub mpmc_drains :
      (run es (system_of chan)).ring.state ≡ opened
      → ((i : ℕ) → send_rests ((run es (system_of chan)).senders i) ≡ true)
      → ((i t : ℕ)
          → (run es (system_of chan)).receivers i ≡ RecvPc.check t
          → (run es (system_of chan)).ring.head ≤ t)
      → AllNoSend es'
      → ((i : ℕ) → recv_rests ((after_close chan es es').receivers i) ≡ true)
      → (after_close chan es es').ring.head ≤ (after_close chan es es').ring.tail
      → (t : ℕ) → t < length (run es (system_of chan)).sent
      → (x : A) × (get_elem? (run es (system_of chan)).sent t ≡ some x)
        × Served t x (after_close chan es es').got
  unfolding happen
  mpmc_drains open_ rests waits no_send idle drawn t lt =
      let quiet = close-Quiet reached.published open_ rests waits in
      let shut = happen-Sound two close (omega arith) reached in
      let (q, same) = run-Quiet two es' (omega arith) shut no_send quiet in
      let (x, at, served) =
        Quiet-Served two (run-Sound two es' (omega arith) shut) q
          (λ i. recv_rests-ticket ((after_close chan es es').receivers i) (idle i)) drawn t
          (omega (arith, lt, ap length same)) in
      (x, ap (λ l. get_elem? l t) (sym same) ∙ at, served)
