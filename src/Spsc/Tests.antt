-- ===== src/Spsc/Tests.antt =====
-- A run of an SPSC channel of two elements.
use seakcutils.Base.{
  ℕ, ◌+◌, ◌≤◌, ◌≡◌, ◌≢◌, refl, none, some, List, [], ◌∷◌, ◌++◌, length, arith, false, true, take,
  map,
}
use seakcutils.Channel.{opened}
use seakcutils.Spsc.{
  ChannelSpsc, channel_create_spsc, Event, happen, run, spsc_try_send, spsc_recv, send, recv,
  step_sender, step_receiver,
}
use seakcutils.Spsc.Bounds.{SendsInBuffer, ReceivesInBuffer, spsc_in_bounds}
use seakcutils.Spsc.{spsc_get_sender, spsc_get_receiver}
use seakcutils.Spsc.Safety.{after, spsc_fifo, spsc_copies_apart}

abbrev two_places : ChannelSpsc ℕ
two_places = record {
  elems = λ _. none;
  capacity = 2;
  elem_size = 4;
  head = 0;
  tail = 0;
  state = opened;
}

created : channel_create_spsc (true) (λ _. true) 2 4 ≡ some two_places
unfolding channel_create_spsc
created = refl

abbrev send_steps : List (Event ℕ)
send_steps = step_sender ∷ step_sender ∷ step_sender ∷ step_sender ∷ step_sender ∷ []

-- One element is sent; then the sender copies the second one while the receiver copies the first.
abbrev copies : List (Event ℕ)
copies =
    send false 7
    ∷ (send_steps
        ++ (send false 8
            ∷ recv false
            ∷ step_sender
            ∷ step_receiver
            ∷ step_sender
            ∷ step_sender
            ∷ step_receiver
            ∷ []))

abbrev handed_over : List (Event ℕ)
handed_over = copies ++ (step_receiver ∷ step_sender ∷ step_receiver ∷ step_sender ∷ [])

got : (after two_places handed_over).got ≡ some 7 ∷ []
unfolding run happen spsc_try_send spsc_recv
got = refl

spsc_fifo_example :
    let s = after two_places handed_over in
    (s.got ≡ map some (take (length s.got) s.sent))
    × (length s.got ≤ length s.sent)
    × (length s.sent ≤ length s.got + 2)
spsc_fifo_example = spsc_fifo (λ _. true) 2 4 handed_over (omega arith) created

spsc_copies_apart_example : ◌≢◌ {A = ℕ} 1 0
unfolding run happen spsc_try_send spsc_recv
spsc_copies_apart_example =
    spsc_copies_apart (λ _. true) 2 4 copies (omega arith) created 1 0 {x = 8} refl refl

spsc_in_bounds_example :
    SendsInBuffer 8 (record { inner_c_cap = 2; elem_size = 4 }) (after two_places copies).sender
    × ReceivesInBuffer 8
        (record { inner_c_cap = 2; elem_size = 4 })
        (after two_places copies).receiver
unfolding spsc_get_sender spsc_get_receiver
spsc_in_bounds_example =
    spsc_in_bounds (λ _. true) 2 4 copies (omega arith) (omega arith) created refl refl
