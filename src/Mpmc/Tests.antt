-- ===== src/Mpmc/Tests.antt =====
-- A run of an MPMC channel of two slots: two senders and two receivers, interleaved.
use seakcutils.Base.{
  ℕ, ◌%◌, ◌≡◌, ◌≢◌, refl, none, some, List, [], ◌∷◌, ◌++◌, arith, false, true, get_elem?,
  ℕ_discrete,
}
use seakcutils.Channel.{send_step, recv_step, opened}
use seakcutils.Mpmc.{
  ChannelMpmc, channel_create_mpmc, Event, happen, run, send, recv, step_sender, step_receiver,
}
use seakcutils.Mpmc.{SenderMpmc, ReceiverMpmc, DestroyPc, mpmc_destroy, mpmc_destroy_call}
use seakcutils.Mpmc.Destroy.{
  Move, step, close_sender, close_receiver, play, closed_senders, closed_receivers,
  mpmc_destroy_waits, mpmc_destroy_frees,
}
use seakcutils.Mpmc.Invariant.{AllGot, Apart}
use seakcutils.Mpmc.Safety.{after, mpmc_delivers, mpmc_copies_apart}

abbrev two_slots : ChannelMpmc ℕ
two_slots = record {
  ring = record {
    slots = λ i. record { elem = none; seq = i };
    capacity = 2;
    head = 0;
    tail = 0;
    state = opened;
  };
  elem_size = 4;
  prod_cont = 0;
  cons_cont = 0;
}

created : channel_create_mpmc true 2 4 ≡ some two_slots
unfolding channel_create_mpmc
created = refl

-- Both senders have drawn a ticket, sender 1 the first one, and stand before their copies.
abbrev both_copy : List (Event ℕ)
both_copy =
    send 0 false 7
    ∷ send 1 false 8
    ∷ step_sender 0
    ∷ step_sender 1
    ∷ step_sender 1
    ∷ step_sender 0
    ∷ step_sender 0
    ∷ step_sender 1
    ∷ []

-- Sender 1 is done and receiver 0 copies, while sender 0 copies.
abbrev copies : List (Event ℕ)
copies =
    both_copy
    ++ (step_sender 1
        ∷ step_sender 1
        ∷ recv 0 (some opened)
        ∷ step_receiver 0
        ∷ step_receiver 0
        ∷ step_receiver 0
        ∷ [])

abbrev handed_over : List (Event ℕ)
handed_over = copies ++ (step_receiver 0 ∷ step_receiver 0 ∷ [])

got : (after two_slots handed_over).got ≡ (0, some 8) ∷ []
unfolding run happen send_step recv_step ℕ_discrete
got = refl

mpmc_delivers_example :
    AllGot
      (λ g. (x : ℕ) × (g.1 ≡ some x) × (get_elem? (after two_slots handed_over).sent g.0 ≡ some x))
      (after two_slots handed_over).got
    × Apart (after two_slots handed_over).got
mpmc_delivers_example = mpmc_delivers 2 4 handed_over (omega arith) (omega arith) created

mpmc_copies_apart_example : ◌≢◌ {A = ℕ} (1 % 2) (0 % 2)
unfolding run happen send_step recv_step ℕ_discrete
mpmc_copies_apart_example =
    mpmc_copies_apart 2 4 copies (omega arith) (omega arith) created 0 0 1 0 {x = 7} refl refl

-- One sender and two receivers, of which one is closed while the loop goes round.
abbrev in_use : ChannelMpmc ℕ
in_use = record two_slots { prod_cont = 1; cons_cont = 2 }

abbrev sender : SenderMpmc
sender = record { inner_c_cap = 2; elem_size = 4; sender_state = opened }

abbrev receiver : ReceiverMpmc
receiver = record { inner_c_cap = 2; elem_size = 4; receiver_state = opened }

abbrev script : List Move
script =
    step
    ∷ step
    ∷ close_receiver receiver
    ∷ step
    ∷ close_sender sender
    ∷ close_receiver receiver
    ∷ step
    ∷ step
    ∷ []

destroyed : (play script (mpmc_destroy_call (some in_use), in_use)).0 ≡ DestroyPc.freed
unfolding play mpmc_destroy_call mpmc_destroy
destroyed = refl

mpmc_destroy_waits_example : (closed_senders script ≡ 1) × (closed_receivers script ≡ 2)
mpmc_destroy_waits_example =
    mpmc_destroy_waits script in_use (omega arith) (omega arith) (omega arith) (omega arith)
      destroyed

abbrev all_closed : List Move
all_closed =
    step ∷ step ∷ close_receiver receiver ∷ close_sender sender ∷ close_receiver receiver ∷ []

mpmc_destroy_frees_example :
    (play (step ∷ step ∷ step ∷ []) (play all_closed (mpmc_destroy_call (some in_use), in_use))).0
    ≡ DestroyPc.freed
mpmc_destroy_frees_example =
    mpmc_destroy_frees all_closed in_use (omega arith) (omega arith) refl refl
