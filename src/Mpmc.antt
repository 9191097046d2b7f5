-- ===== src/Mpmc.antt =====
-- channels/mpmc.h: a bounded channel for many senders and many receivers.
-- A handle is an index; a call on it stands at a program counter. The pointers in a handle lead to
-- the fields of the channel, and its capacity is the channel's, which never changes. Allocations
-- within `channel_create_mpmc` after the first one, and for a handle, succeed.
pub mod Invariant
pub mod Senders
pub mod Receivers
pub mod Calls
pub mod Reach
pub mod Safety
pub mod Destroy
pub mod Tickets
pub mod Published
pub mod Drain
pub mod Graceful
pub mod Lost
mod Tests
mod CloseTests
use mathlib.Core.Logic.{ite}
use seakcutils.Base.{
  ℕ, ◌+◌, ◌*◌, Bool, true, false, Option, none, some, List, [], ◌∷◌, ◌++◌, add_size, sub_size, ◌==◌,
  if◌then◌else◌, ℕ_discrete,
}
use seakcutils.Channel.{
  ChanState, opened, closed, err_null, Slot, Ring, SendPc, RecvPc, send_step, recv_step,
}

pub record ChannelMpmc {ℓ} (A : Type ℓ) : Type ℓ where
  pub ring : Ring A
  pub elem_size : ℕ
  pub prod_cont : ℕ
  pub cons_cont : ℕ

-- The fields of a handle that are not pointers into the channel.
pub record SenderMpmc : Type 0 where
  pub inner_c_cap : ℕ
  pub elem_size : ℕ
  pub sender_state : ChanState

pub record ReceiverMpmc : Type 0 where
  pub inner_c_cap : ℕ
  pub elem_size : ℕ
  pub receiver_state : ChanState

-- Where a call of `mpmc_destroy` stands.
pub data DestroyPc : Type 0 where
  start : DestroyPc  -- before the closing
  load_cons : DestroyPc
  load_prod : (cons_cont : ℕ) → DestroyPc
  freed : DestroyPc  -- the slots, their elements and the channel are given back
  returned_null : DestroyPc

abbrev pub update {ℓ} : {A : Type ℓ} → (ℕ → A) → ℕ → A → ℕ → A
update f i a j = ite (ℕ_discrete i j) a (f j)

module _ {ℓ} {A : Type ℓ} where
  -- `allocated` says whether the first `malloc` gives storage.
  unfoldable pub channel_create_mpmc : (allocated : Bool) → ℕ → ℕ → Option (ChannelMpmc A)
  channel_create_mpmc false capacity elem_size = none
  channel_create_mpmc true capacity elem_size = some (record {
    ring = record {
      slots = λ i. record { elem = none; seq = i };
      capacity = capacity;
      head = 0;
      tail = 0;
      state = opened;
    };
    elem_size = elem_size;
    prod_cont = 0;
    cons_cont = 0;
  })

  unfoldable pub mpmc_close : ChannelMpmc A → ChannelMpmc A
  mpmc_close chan = record chan { ring = record chan.ring { state = closed } }

  unfoldable pub mpmc_is_closed : ChannelMpmc A → ChanState
  mpmc_is_closed chan = chan.ring.state

  unfoldable pub mpmc_get_sender : Option (ChannelMpmc A) → Option (ChannelMpmc A × SenderMpmc)
  mpmc_get_sender none = none
  mpmc_get_sender (some chan) = some (
    record chan { prod_cont = add_size chan.prod_cont 1 },
    record { inner_c_cap = chan.ring.capacity; elem_size = chan.elem_size; sender_state = opened },
  )

  unfoldable pub mpmc_get_receiver : Option (ChannelMpmc A) → Option (ChannelMpmc A × ReceiverMpmc)
  mpmc_get_receiver none = none
  mpmc_get_receiver (some chan) = some (
    record chan { cons_cont = add_size chan.cons_cont 1 },
    record {
      inner_c_cap = chan.ring.capacity;
      elem_size = chan.elem_size;
      receiver_state = opened;
    },
  )

  unfoldable pub mpmc_close_receiver : ChannelMpmc A → ReceiverMpmc → ChannelMpmc A × ReceiverMpmc
  mpmc_close_receiver chan receiver = (
    record chan { cons_cont = sub_size chan.cons_cont 1 },
    record receiver { receiver_state = closed },
  )

  unfoldable pub mpmc_close_sender : ChannelMpmc A → SenderMpmc → ChannelMpmc A × SenderMpmc
  mpmc_close_sender chan sender = (
    record chan { prod_cont = sub_size chan.prod_cont 1 },
    record sender { sender_state = closed },
  )

  unfoldable pub mpmc_destroy_call : Option (ChannelMpmc A) → DestroyPc
  mpmc_destroy_call none = DestroyPc.returned_null
  mpmc_destroy_call (some chan) = DestroyPc.start

  -- One step of it.
  unfoldable pub mpmc_destroy : DestroyPc → ChannelMpmc A → DestroyPc × ChannelMpmc A
  unfolding mpmc_close
  mpmc_destroy DestroyPc.start chan = (DestroyPc.load_cons, mpmc_close chan)
  mpmc_destroy DestroyPc.load_cons chan = (DestroyPc.load_prod chan.cons_cont, chan)
  mpmc_destroy (DestroyPc.load_prod cons) chan = (
    if cons == 0
        then (if chan.prod_cont == 0 then DestroyPc.freed else DestroyPc.load_cons)
        else DestroyPc.load_cons,
    chan,
  )
  mpmc_destroy DestroyPc.freed chan = (DestroyPc.freed, chan)
  mpmc_destroy DestroyPc.returned_null chan = (DestroyPc.returned_null, chan)

  -- A call with its handle, NULL or not, and one step of it.
  abbrev pub mpmc_send_call : Bool → A → SendPc A
  mpmc_send_call null v = if null then SendPc.returned err_null else SendPc.start v

  abbrev pub mpmc_recv_call : Option ChanState → RecvPc A
  mpmc_recv_call none = RecvPc.returned err_null none
  mpmc_recv_call (some st) = RecvPc.start st

  abbrev pub mpmc_send : SendPc A → Ring A → SendPc A × Ring A
  mpmc_send = send_step

  abbrev pub mpmc_recv : RecvPc A → Ring A → RecvPc A × Ring A
  mpmc_recv = recv_step

-- The shared ring, a call on each handle, and two records of the past that the code does not keep:
-- the elements in the order of their tickets, and what was received on which ticket,
-- the last one first.
pub record System {ℓ} (A : Type ℓ) : Type ℓ where
  pub ring : Ring A
  pub senders : ℕ → SendPc A
  pub receivers : ℕ → RecvPc A
  pub sent : List A
  pub got : List (ℕ × Option A)

-- What may happen next: a call on a handle that is at rest, a step of a call, the closing.
pub data Event {ℓ} (A : Type ℓ) : Type ℓ where
  send : ℕ → Bool → A → Event A
  recv : ℕ → Option ChanState → Event A
  step_sender : ℕ → Event A
  step_receiver : ℕ → Event A
  close : Event A

module _ {ℓ} {A : Type ℓ} where
  abbrev pub send_rests : SendPc A → Bool
  send_rests (SendPc.returned c) = true
  send_rests _ = false

  abbrev pub recv_rests : RecvPc A → Bool
  recv_rests (RecvPc.returned c out) = true
  recv_rests _ = false

  -- A ticket drawn, and an element handed over.
  abbrev pub log_sent : SendPc A → List A → List A
  log_sent (SendPc.draw v) sent = sent ++ v ∷ []
  log_sent _ sent = sent

  abbrev pub log_got : RecvPc A → List (ℕ × Option A) → List (ℕ × Option A)
  log_got (RecvPc.release t out) got = (t, out) ∷ got
  log_got _ got = got

  unfoldable pub happen : Event A → System A → System A
  happen (send i null v) s =
      if send_rests (s.senders i)
      then record s { senders = update s.senders i (mpmc_send_call null v) }
      else s
  happen (recv i handle) s =
      if recv_rests (s.receivers i)
      then record s { receivers = update s.receivers i (mpmc_recv_call handle) }
      else s
  happen (step_sender i) s =
      let (p, r) = mpmc_send (s.senders i) s.ring in
      record s { ring = r; senders = update s.senders i p; sent = log_sent (s.senders i) s.sent }
  happen (step_receiver i) s =
      let (p, r) = mpmc_recv (s.receivers i) s.ring in
      record s { ring = r; receivers = update s.receivers i p; got = log_got (s.receivers i) s.got }
  happen close s = record s { ring = record s.ring { state = closed } }

  unfoldable pub run : List (Event A) → System A → System A
  run [] s = s
  run (e ∷ es) s = run es (happen e s)

  -- A new channel, and handles that have made no call.
  abbrev pub system_of : ChannelMpmc A → System A
  system_of chan = record {
    ring = chan.ring;
    senders = λ _. SendPc.returned err_null;
    receivers = λ _. RecvPc.returned err_null none;
    sent = [];
    got = [];
  }
