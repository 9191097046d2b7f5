-- ===== src/Spmc/Safety.antt =====
-- What the sender and the receivers of an SPMC channel can rely on, however their steps interleave.
use mathlib.Core.Option.{some-injective}
use seakcutils.Base.{
  ℕ, ◌+◌, ◌^◌, ◌≤◌, ◌<◌, ◌≡◌, some, List, [], ◌∷◌, length, get_elem?, arith, refl, ap, true, done,
  map,
}
use seakcutils.Mpmc.{channel_create_mpmc, system_of}
use seakcutils.Mpmc.Invariant.{AllGot, Apart}
use seakcutils.Mpmc.Safety.{mpmc_delivers}
use seakcutils.Spmc.Order.{Keeps, offered, run-InOrder}
use seakcutils.Spmc.{ChannelSpmc, channel_create_spmc, Event, event, shared, after}

length-map : {A B : Type 0} (f : A → B) (xs : List A) → length (map f xs) ≡ length xs
length-map f [] = refl
length-map f (x ∷ xs) = ap ℕ.suc (length-map f xs)

done-injective : {B : Type 0} {a b : B} → done a ≡ done b → a ≡ b
done-injective e = cc

module _ {A : Type 0} where
  -- A new SPMC channel is a new MPMC channel.
  created :
      (cap elem_size : ℕ) {chan : ChannelSpmc A}
      → channel_create_spmc true true cap elem_size ≡ done (some chan)
      → channel_create_mpmc true cap elem_size ≡ some (shared chan)
  unfolding channel_create_spmc channel_create_mpmc
  created cap elem_size {chan} e = ap (λ c. some (shared c)) (some-injective _ _ (done-injective e))

module _ {A : Type 0} (cap elem_size : ℕ) {chan : ChannelSpmc A} (es : List (Event A))
    (two : 2 ≤ cap) (small : length es + cap + 1 < 2 ^ 64)
    (e : channel_create_spmc true true cap elem_size ≡ done (some chan)) where
  -- On a channel of at least two slots, after any interleaving of fewer than 2 ^ 64 - capacity - 1
  -- events, whatever a receiver was handed on a ticket is the element that the sender put in on that
  -- ticket, no ticket was served twice, and the elements that were put in are, in the order of their
  -- tickets, those of the sender's calls in the order of the calls, with some of them left out.
  pub spmc_delivers :
      AllGot
        (λ g. (x : A) × (g.1 ≡ some x) × (get_elem? (after chan es).sent g.0 ≡ some x))
        (after chan es).got
      × Apart (after chan es).got
      × Keeps (after chan es).sent (offered es)
  spmc_delivers =
      let (got, apart) =
        mpmc_delivers cap elem_size (map event es) two (omega (arith, length-map event es))
          (created cap elem_size e) in
      (got, apart, run-InOrder es (system_of (shared chan)) [] Keeps.nothing)
