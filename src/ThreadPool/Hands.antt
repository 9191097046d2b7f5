-- ===== src/ThreadPool/Hands.antt =====
-- threadpool/threadpool.h: what each worker of a pool has in hand, and whether it stays in its loop.
use mathlib.Core.Path.{subst}
use mathlib.Core.Logic.{if_pos, if_neg}
use seakcutils.Mpmc.{update}
use seakcutils.Base.{
  ℕ_discrete, inl, inr, ◌≢◌, ℕ, ◌≡◌, ◌≢◌, refl, Option, none, some, true, ◌⊎◌, inl, inr, ℕ_discrete,
  eq_ℤ, if◌then◌else◌,
}
use seakcutils.Channel.{RecvPc, opened, ok}
use seakcutils.Mpmc.{recv_rests, SenderMpmc, ReceiverMpmc}
use seakcutils.ThreadPool.{
  Job, System, WorkerPc, call, recv, run_job, closes_sender, closes_receiver,
}
use seakcutils.ThreadPool.Books.{Books}

module _ {A : Type 0} (f : ℕ → A) (i : ℕ) (a : A) where
  pub update_at : update f i a i ≡ a
  update_at = rw (if_pos (ℕ_discrete i i) refl) refl

  pub update_off : (j : ℕ) → i ≢ j → update f i a j ≡ f j
  update_off j ne = rw (if_neg (ℕ_discrete i j) ne) refl

-- What a worker has received on its last ticket and not yet run.
abbrev pub hand : WorkerPc → RecvPc Job → ℕ → Option (ℕ × Option Job)
hand recv (RecvPc.returned c out) t = if eq_ℤ c ok then some (t, out) else none
hand (run_job out) p t = some (t, out)
hand _ _ t = none

abbrev pub hands : System → ℕ → Option (ℕ × Option Job)
hands s i = hand (s.workers i) (s.chan.receivers i) (s.tickets i)

abbrev pub IsRecv : WorkerPc → Type 0
IsRecv recv = Unit
IsRecv _ = ⊥

-- A call of `mpmc_recv` that will return CHANNEL_OK unless it gives up its ticket.
abbrev pub LoopsIn : RecvPc Job → Type 0
LoopsIn (RecvPc.start st) = st ≡ opened
LoopsIn (RecvPc.returned c out) = c ≡ ok
LoopsIn RecvPc.trapped = ⊥
LoopsIn _ = Unit

abbrev pub Loops : WorkerPc → RecvPc Job → Type 0
Loops call p = Unit
Loops recv p = LoopsIn p
Loops (run_job out) p = Unit
Loops _ p = ⊥

-- Each job received is in the hand of one worker or was run once, only a worker in its call of
-- `mpmc_recv` is served, and no worker has left the loop unless `Over`.
pub record Crew (Over : Type 0) (s : System) : Type 0 where
  pub books : Books s.chan.got s.ran (hands s)
  pub idle : (i : ℕ) → IsRecv (s.workers i) ⊎ (recv_rests (s.chan.receivers i) ≡ true)
  pub loops : (i : ℕ) → Loops (s.workers i) (s.chan.receivers i) ⊎ Over

-- From `s` to `s'` the other workers than `i` have not moved.
abbrev pub Off : ℕ → System → System → Type 0
Off i s s' =
    (j : ℕ)
    → i ≢ j
    → (s'.workers j ≡ s.workers j)
      × (s'.chan.receivers j ≡ s.chan.receivers j)
      × (s'.tickets j ≡ s.tickets j)

module _ (s s' : System) (i : ℕ) (off : Off i s s') where
  pub hands_off : (j : ℕ) → i ≢ j → hands s' j ≡ hands s j
  hands_off j ne = let (w, p, t) = off j ne in rw (w, p, t) refl

  pub hands_same : hands s' i ≡ hands s i → (j : ℕ) → hands s' j ≡ hands s j
  hands_same at j = elim (ℕ_discrete i j) [
    | yes e ↦ subst (λ k. hands s' k ≡ hands s k) e at
    | no ne ↦ hands_off j ne
  ]

  pub step-Crew :
      {Over Over' : Type 0}
      → Crew Over s
      → (Over → Over')
      → Books s'.chan.got s'.ran (hands s')
      → IsRecv (s'.workers i) ⊎ (recv_rests (s'.chan.receivers i) ≡ true)
      → Loops (s'.workers i) (s'.chan.receivers i) ⊎ Over'
      → Crew Over' s'
  step-Crew {Over} {Over'} c keeps books idle loops = record {
    books = books;
    idle = λ j. elim (ℕ_discrete i j) [
      | yes e ↦
          subst (λ k. IsRecv (s'.workers k) ⊎ (recv_rests (s'.chan.receivers k) ≡ true)) e idle
      | no ne ↦ let (w, p, t) = off j ne in rw (w, p) (c.idle j)
    ];
    loops = λ j. elim (ℕ_discrete i j) [
      | yes e ↦ subst (λ k. Loops (s'.workers k) (s'.chan.receivers k) ⊎ Over') e loops
      | no ne ↦
          let (w, p, t) = off j ne in
          rw (w, p) (elim (c.loops j) [ inl l ↦ inl l | inr o ↦ inr (keeps o) ])
    ];
  }

module _ {Over : Type 0} where
  pub closes_sender-Crew :
      (o : Option SenderMpmc) (s : System) → Crew Over s → Crew Over (closes_sender o s)
  unfolding closes_sender
  closes_sender-Crew none s c = c
  closes_sender-Crew (some sender) s c = record { books = c.books; idle = c.idle; loops = c.loops }

  pub closes_receiver-Crew :
      (o : Option ReceiverMpmc) (s : System) → Crew Over s → Crew Over (closes_receiver o s)
  unfolding closes_receiver
  closes_receiver-Crew none s c = c
  closes_receiver-Crew (some receiver) s c = record {
    books = c.books;
    idle = c.idle;
    loops = c.loops;
  }
