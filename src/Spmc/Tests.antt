-- ===== src/Spmc/Tests.antt =====
-- A run of an SPMC channel of two slots with two receivers.
use seakcutils.Base.{
  ℕ, ◌≡◌, refl, none, some, List, [], ◌∷◌, ◌++◌, arith, true, ℕ_discrete, get_elem?, done,
}
use seakcutils.Channel.{opened, send_step, recv_step}
use seakcutils.Mpmc.{happen, run}
use seakcutils.Mpmc.Invariant.{AllGot, Apart}
use seakcutils.Spmc.{
  ChannelSpmc, channel_create_spmc, Event, send, recv, step_sender, step_receiver, after,
  spmc_get_sender,
}
use seakcutils.Spmc.Order.{Keeps}
use seakcutils.Spmc.Safety.{spmc_delivers}

abbrev two_slots : ChannelSpmc ℕ
two_slots = record {
  ring = record {
    slots = λ i. record { elem = none; seq = i };
    capacity = 2;
    head = 0;
    tail = 0;
    state = opened;
  };
  elem_size = 4;
  cons_cont = 0;
}

created : channel_create_spmc true true 2 4 ≡ done (some two_slots)
unfolding channel_create_spmc
created = refl

-- The second receiver copies the first element while the sender copies the second one.
abbrev copies : List (Event ℕ)
copies =
    send (spmc_get_sender (some two_slots)) 7
    ∷ recv 0 (some (record { inner_c_cap = 2; elem_size = 4; receiver_state = opened }))
    ∷ recv 1 (some (record { inner_c_cap = 2; elem_size = 4; receiver_state = opened }))
    ∷ step_sender
    ∷ step_receiver 0
    ∷ step_receiver 1
    ∷ step_sender
    ∷ step_receiver 1
    ∷ step_sender
    ∷ step_sender
    ∷ step_receiver 0
    ∷ step_sender
    ∷ send (spmc_get_sender (some two_slots)) 8
    ∷ step_sender
    ∷ step_sender
    ∷ step_receiver 1
    ∷ step_sender
    ∷ []

abbrev handed_over : List (Event ℕ)
handed_over = copies ++ (step_receiver 1 ∷ step_receiver 1 ∷ [])

got : (after two_slots handed_over).got ≡ (0, some 7) ∷ []
unfolding run happen send_step recv_step ℕ_discrete spmc_get_sender
got = refl

spmc_delivers_example :
    AllGot
      (λ g. (x : ℕ) × (g.1 ≡ some x) × (get_elem? (after two_slots handed_over).sent g.0 ≡ some x))
      (after two_slots handed_over).got
    × Apart (after two_slots handed_over).got
    × Keeps (after two_slots handed_over).sent (7 ∷ 8 ∷ [])
spmc_delivers_example = spmc_delivers 2 4 handed_over (omega arith) (omega arith) created
