-- ===== src/Mpsc/Destroy.antt =====
-- `mpsc_destroy` beside senders that are being closed.
use mathlib.Core.Path.{subst}
use seakcutils.Base.{ℕ, suc, ◌+◌, ◌^◌, ◌<◌, ◌≤◌, ◌≡◌, List, [], ◌∷◌, arith, refl, some}
use seakcutils.Mpsc.{
  ChannelMpsc, SenderMpsc, DestroyPc, mpsc_destroy, mpsc_destroy_call, mpsc_close_sender,
  mpsc_close,
}

-- A step of the destroying thread, or a sender that another thread closes.
pub data Move : Type 0 where
  step : Move
  close : SenderMpsc → Move

unfoldable pub play :
    {A : Type 0} → List Move → DestroyPc × ChannelMpsc A → DestroyPc × ChannelMpsc A
unfolding mpsc_close_sender
play [] s = s
play (step ∷ ms) (pc, chan) = play ms (mpsc_destroy pc chan)
play (close sender ∷ ms) (pc, chan) = play ms (pc, (mpsc_close_sender chan sender).0)

-- How many senders are closed.
abbrev pub closes : List Move → ℕ
closes [] = 0
closes (step ∷ ms) = closes ms
closes (close sender ∷ ms) = suc (closes ms)

-- With `open_` senders that are not closed yet, the local of the loop is no smaller.
abbrev Waits : ℕ → DestroyPc → Type 0
Waits left (DestroyPc.load_state n) = left ≤ n
Waits left DestroyPc.freed = left ≡ 0
Waits left DestroyPc.returned_null = ⊥
Waits left _ = Unit

Waits-le : (pc : DestroyPc) (m n : ℕ) → n ≤ m → Waits m pc → Waits n pc
Waits-le (DestroyPc.load_state k) m n le h = omega arith
Waits-le DestroyPc.freed m n le h = omega arith
Waits-le DestroyPc.returned_null m n le h = h
Waits-le _ m n le h = tt

module _ {A : Type 0} where
  step-Waits :
      (pc : DestroyPc) (chan : ChannelMpsc A)
      → Waits chan.prod_cont pc
      → let (pc', chan') = mpsc_destroy pc chan in
        Waits chan'.prod_cont pc' × (chan'.prod_cont ≡ chan.prod_cont)
  unfolding mpsc_destroy
  step-Waits DestroyPc.start chan h = (tt, refl)
  step-Waits DestroyPc.load_prod chan h = (omega arith, refl)
  step-Waits (DestroyPc.load_state n) chan h = (ground arith, refl)
  step-Waits DestroyPc.freed chan h = (h, refl)
  step-Waits DestroyPc.returned_null chan h = absurd h

  play-Waits :
      (ms : List Move) (pc : DestroyPc) (chan : ChannelMpsc A)
      → chan.prod_cont < 2 ^ 64
      → closes ms ≤ chan.prod_cont
      → Waits chan.prod_cont pc
      → let (pc', chan') = play ms (pc, chan) in
        Waits chan'.prod_cont pc' × (chan'.prod_cont + closes ms ≡ chan.prod_cont)
  unfolding play
  play-Waits [] pc chan small le h = (h, omega arith)
  play-Waits (step ∷ ms) pc chan small le h =
      let (h', same) = step-Waits pc chan h in
      let (pc', chan') = mpsc_destroy pc chan in
      let (w, count) = play-Waits ms pc' chan' (omega (arith, same)) (omega (arith, same)) h' in
      (w, omega (arith, count, same))
  play-Waits (close sender ∷ ms) pc chan small le h =
      let chan' = (mpsc_close_sender chan sender).0 in
      let less : chan'.prod_cont + 1 ≡ chan.prod_cont = omega arith in
      let (w, count) =
        play-Waits ms pc chan' (omega (arith, less)) (omega (arith, less))
          (Waits-le pc _ _ (omega (arith, less)) h) in
      (w, omega (arith, count, less))

  frees :
      (pc : DestroyPc) (chan : ChannelMpsc A)
      → Waits 0 pc
      → chan.prod_cont ≡ 0
      → (play (step ∷ step ∷ step ∷ []) (pc, chan)).0 ≡ DestroyPc.freed
  unfolding play mpsc_destroy mpsc_close
  frees DestroyPc.start chan w e = ground arith
  frees DestroyPc.load_prod chan w e = ground arith
  frees (DestroyPc.load_state n) chan w e = ground arith
  frees DestroyPc.freed chan w e = refl
  frees DestroyPc.returned_null chan w e = absurd w

module _ {A : Type 0} (ms : List Move) (chan : ChannelMpsc A)
    (small : chan.prod_cont < 2 ^ 64) where
  -- Beside fewer than 2 ^ 64 senders, of which some are closed, each once, and to which none is
  -- added, `mpsc_destroy` has freed the channel only if all of them are closed.
  pub mpsc_destroy_waits :
      closes ms ≤ chan.prod_cont
      → (play ms (mpsc_destroy_call (some chan), chan)).0 ≡ DestroyPc.freed
      → closes ms ≡ chan.prod_cont
  unfolding mpsc_destroy_call
  mpsc_destroy_waits le done =
      let (w, count) = play-Waits ms DestroyPc.start chan small le tt in
      let none_left : (play ms (DestroyPc.start, chan)).1.prod_cont ≡ 0 =
        (subst (λ pc. Waits (play ms (DestroyPc.start, chan)).1.prod_cont pc) done w) in
      omega (arith, count, none_left)

  -- When all of fewer than 2 ^ 64 senders are closed, three more steps of `mpsc_destroy` free the
  -- channel, wherever in its loop it stands.
  pub mpsc_destroy_frees :
      closes ms ≡ chan.prod_cont
      → (play (step ∷ step ∷ step ∷ []) (play ms (mpsc_destroy_call (some chan), chan))).0
        ≡ DestroyPc.freed
  unfolding mpsc_destroy_call
  mpsc_destroy_frees all =
      let (w, count) = play-Waits ms DestroyPc.start chan small (omega arith) tt in
      let (pc, chan') = play ms (DestroyPc.start, chan) in
      frees pc chan' (Waits-le pc _ 0 (omega arith) w) (omega (arith, count))
