-- ===== src/Mpmc/Destroy.antt =====
-- `mpmc_destroy` beside handles that are being closed.
use mathlib.Core.Path.{subst}
use seakcutils.Base.{ℕ, suc, ◌+◌, ◌^◌, ◌<◌, ◌≤◌, ◌≡◌, List, [], ◌∷◌, arith, refl, some}
use seakcutils.Mpmc.{
  ChannelMpmc, SenderMpmc, ReceiverMpmc, DestroyPc, mpmc_destroy, mpmc_destroy_call, mpmc_close,
  mpmc_close_sender, mpmc_close_receiver,
}

-- A step of the destroying thread, or a handle that another thread closes.
pub data Move : Type 0 where
  step : Move
  close_sender : SenderMpmc → Move
  close_receiver : ReceiverMpmc → Move

unfoldable pub play :
    {A : Type 0} → List Move → DestroyPc × ChannelMpmc A → DestroyPc × ChannelMpmc A
unfolding mpmc_close_sender mpmc_close_receiver
play [] s = s
play (step ∷ ms) (pc, chan) = play ms (mpmc_destroy pc chan)
play (close_sender sender ∷ ms) (pc, chan) = play ms (pc, (mpmc_close_sender chan sender).0)
play (close_receiver receiver ∷ ms) (pc, chan) = play ms (pc, (mpmc_close_receiver chan receiver).0)

-- How many handles of each kind are closed.
abbrev pub closed_senders : List Move → ℕ
closed_senders [] = 0
closed_senders (step ∷ ms) = closed_senders ms
closed_senders (close_sender sender ∷ ms) = suc (closed_senders ms)
closed_senders (close_receiver receiver ∷ ms) = closed_senders ms

abbrev pub closed_receivers : List Move → ℕ
closed_receivers [] = 0
closed_receivers (step ∷ ms) = closed_receivers ms
closed_receivers (close_sender sender ∷ ms) = closed_receivers ms
closed_receivers (close_receiver receiver ∷ ms) = suc (closed_receivers ms)

-- The local of the loop is no smaller than the number of receivers that are not closed yet.
abbrev Waits : ℕ → ℕ → DestroyPc → Type 0
Waits cons prod (DestroyPc.load_prod n) = cons ≤ n
Waits cons prod DestroyPc.freed = (cons ≡ 0) × (prod ≡ 0)
Waits cons prod DestroyPc.returned_null = ⊥
Waits cons prod _ = Unit

Waits-le :
    (pc : DestroyPc) (cons prod m n : ℕ) → m ≤ cons → n ≤ prod → Waits cons prod pc → Waits m n pc
Waits-le (DestroyPc.load_prod k) cons prod m n le le' h = omega arith
Waits-le DestroyPc.freed cons prod m n le le' h = omega arith
Waits-le DestroyPc.returned_null cons prod m n le le' h = h
Waits-le _ cons prod m n le le' h = tt

module _ {A : Type 0} where
  -- What is true while the call stands at `pc`.
  abbrev Now : DestroyPc → ChannelMpmc A → Type 0
  Now pc chan = Waits chan.cons_cont chan.prod_cont pc

  step-Waits :
      (pc : DestroyPc) (chan : ChannelMpmc A)
      → Now pc chan
      → let (pc', chan') = mpmc_destroy pc chan in
        Now pc' chan' × (chan'.prod_cont ≡ chan.prod_cont) × (chan'.cons_cont ≡ chan.cons_cont)
  unfolding mpmc_destroy mpmc_close
  step-Waits DestroyPc.start chan h = (tt, refl, refl)
  step-Waits DestroyPc.load_cons chan h = (omega arith, refl, refl)
  step-Waits (DestroyPc.load_prod n) chan h = (ground arith, refl, refl)
  step-Waits DestroyPc.freed chan h = (h, refl, refl)
  step-Waits DestroyPc.returned_null chan h = absurd h

  play-Waits :
      (ms : List Move) (pc : DestroyPc) (chan : ChannelMpmc A)
      → chan.prod_cont < 2 ^ 64
      → chan.cons_cont < 2 ^ 64
      → closed_senders ms ≤ chan.prod_cont
      → closed_receivers ms ≤ chan.cons_cont
      → Now pc chan
      → let (pc', chan') = play ms (pc, chan) in
        Now pc' chan'
        × (chan'.prod_cont + closed_senders ms ≡ chan.prod_cont)
        × (chan'.cons_cont + closed_receivers ms ≡ chan.cons_cont)
  unfolding play
  play-Waits [] pc chan small small' le le' h = (h, omega arith, omega arith)
  play-Waits (step ∷ ms) pc chan small small' le le' h =
      let (h', same, same') = step-Waits pc chan h in
      let (pc', chan') = mpmc_destroy pc chan in
      let (w, count, count') =
        play-Waits ms pc' chan' (omega (arith, same)) (omega (arith, same')) (omega (arith, same))
          (omega (arith, same')) h' in
      (w, omega (arith, count, same), omega (arith, count', same'))
  play-Waits (close_sender sender ∷ ms) pc chan small small' le le' h =
      let chan' = (mpmc_close_sender chan sender).0 in
      let less : chan'.prod_cont + 1 ≡ chan.prod_cont = omega arith in
      let (w, count, count') =
        play-Waits ms pc chan' (omega (arith, less)) small' (omega (arith, less)) le'
          (Waits-le pc _ _ _ _ (omega arith) (omega (arith, less)) h) in
      (w, omega (arith, count, less), count')
  play-Waits (close_receiver receiver ∷ ms) pc chan small small' le le' h =
      let chan' = (mpmc_close_receiver chan receiver).0 in
      let less : chan'.cons_cont + 1 ≡ chan.cons_cont = omega arith in
      let (w, count, count') =
        play-Waits ms pc chan' small (omega (arith, less)) le (omega (arith, less))
          (Waits-le pc _ _ _ _ (omega (arith, less)) (omega arith) h) in
      (w, count, omega (arith, count', less))

  frees :
      (pc : DestroyPc) (chan : ChannelMpmc A)
      → Waits 0 0 pc
      → chan.prod_cont ≡ 0
      → chan.cons_cont ≡ 0
      → (play (step ∷ step ∷ step ∷ []) (pc, chan)).0 ≡ DestroyPc.freed
  unfolding play mpmc_destroy mpmc_close
  frees DestroyPc.start chan w e e' = ground arith
  frees DestroyPc.load_cons chan w e e' = ground arith
  frees (DestroyPc.load_prod n) chan w e e' = ground arith
  frees DestroyPc.freed chan w e e' = refl
  frees DestroyPc.returned_null chan w e e' = absurd w

module _ {A : Type 0} (ms : List Move) (chan : ChannelMpmc A) (small : chan.prod_cont < 2 ^ 64)
    (small' : chan.cons_cont < 2 ^ 64) where
  -- Beside fewer than 2 ^ 64 senders and as many receivers, of which some are closed, each once, and
  -- to which none is added, `mpmc_destroy` has freed the channel only if all of them are closed.
  pub mpmc_destroy_waits :
      closed_senders ms ≤ chan.prod_cont
      → closed_receivers ms ≤ chan.cons_cont
      → (play ms (mpmc_destroy_call (some chan), chan)).0 ≡ DestroyPc.freed
      → (closed_senders ms ≡ chan.prod_cont) × (closed_receivers ms ≡ chan.cons_cont)
  unfolding mpmc_destroy_call
  mpmc_destroy_waits le le' done =
      let (w, count, count') = play-Waits ms DestroyPc.start chan small small' le le' tt in
      let chan' = (play ms (DestroyPc.start, chan)).1 in
      let none_left : (chan'.cons_cont ≡ 0) × (chan'.prod_cont ≡ 0) =
        subst (λ pc. Waits chan'.cons_cont chan'.prod_cont pc) done w in
      (omega (arith, count, none_left.1), omega (arith, count', none_left.0))

  -- When all of fewer than 2 ^ 64 senders and as many receivers are closed, three more steps of
  -- `mpmc_destroy` free the channel, wherever in its loop it stands.
  pub mpmc_destroy_frees :
      closed_senders ms ≡ chan.prod_cont
      → closed_receivers ms ≡ chan.cons_cont
      → (play (step ∷ step ∷ step ∷ []) (play ms (mpmc_destroy_call (some chan), chan))).0
        ≡ DestroyPc.freed
  unfolding mpmc_destroy_call
  mpmc_destroy_frees all all' =
      let (w, count, count') =
        play-Waits ms DestroyPc.start chan small small' (omega arith) (omega arith) tt in
      let (pc, chan') = play ms (DestroyPc.start, chan) in
      frees pc chan' (Waits-le pc _ _ 0 0 (omega arith) (omega arith) w) (omega (arith, count))
        (omega (arith, count'))
