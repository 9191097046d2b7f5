-- ===== src/Mpsc/Tests.antt =====
-- A run of an MPSC channel of two slots with two senders.
use seakcutils.Base.{
  ℕ, ◌≡◌, refl, none, some, List, [], ◌∷◌, ◌++◌, length, arith, false, true, ℕ_discrete,
}
use seakcutils.Channel.{opened, send_step}
use seakcutils.Mpsc.{
  ChannelMpsc, channel_create_mpsc, Event, happen, run, mpsc_recv, send, recv, step_sender,
  step_receiver, mpsc_destroy, mpsc_destroy_call, DestroyPc, SenderMpsc,
}
use seakcutils.Mpsc.Invariant.{Received}
use seakcutils.Mpsc.Safety.{after, mpsc_fifo}
use seakcutils.Mpsc.Destroy.{Move, step, close, play}

abbrev two_slots : ChannelMpsc ℕ
two_slots = record {
  ring = record {
    slots = λ i. record { elem = none; seq = i };
    capacity = 2;
    head = 0;
    tail = 0;
    state = opened;
  };
  elem_size = 4;
  prod_cont = 0;
}

created : channel_create_mpsc true true (λ _. true) 2 4 ≡ some two_slots
unfolding channel_create_mpsc
created = refl

-- Sender 1 has sent on the first ticket; sender 0 copies its element while the receiver copies.
abbrev copies : List (Event ℕ)
copies =
    send 0 false 7
    ∷ send 1 false 8
    ∷ step_sender 0
    ∷ step_sender 1
    ∷ step_sender 1
    ∷ step_sender 0
    ∷ step_sender 0
    ∷ step_sender 1
    ∷ step_sender 1
    ∷ step_sender 1
    ∷ recv false
    ∷ step_receiver
    ∷ step_receiver
    ∷ step_receiver
    ∷ []

abbrev handed_over : List (Event ℕ)
handed_over = copies ++ (step_receiver ∷ step_sender 0 ∷ step_receiver ∷ step_receiver ∷ [])

got : (after two_slots handed_over).got ≡ some 8 ∷ []
unfolding run happen send_step mpsc_recv ℕ_discrete
got = refl

mpsc_fifo_example :
    Received (after two_slots handed_over).got (after two_slots handed_over).sent
    × (length (after two_slots handed_over).got ≡ (after two_slots handed_over).ring.tail)
    × (length (after two_slots handed_over).sent ≡ (after two_slots handed_over).ring.head)
mpsc_fifo_example = mpsc_fifo (λ _. true) 2 4 handed_over (omega arith) (omega arith) created

abbrev handle : SenderMpsc
handle = record { inner_c_cap = 2; elem_size = 4; sender_state = opened }

-- Two senders, of which the first is closed while the loop goes round.
abbrev in_use : ChannelMpsc ℕ
in_use = record two_slots { prod_cont = 2 }

abbrev script : List Move
script = step ∷ step ∷ close handle ∷ step ∷ close handle ∷ step ∷ step ∷ []

freed : (play script (mpsc_destroy_call (some in_use), in_use)).0 ≡ DestroyPc.freed
unfolding play mpsc_destroy_call mpsc_destroy
freed = refl
