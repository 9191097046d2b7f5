-- ===== src/Spmc.antt =====
-- channels/spmc.h: a bounded channel for one sender and many receivers.
-- Its two routines are those of channels/mpmc.h word for word, so its system is that of an MPMC
-- channel of which only the handle 0 sends. The pointers in a handle lead to the fields of the
-- channel, and its capacity is the channel's, which never changes. `malloc` for a handle and for the
-- elements succeeds.
pub mod Order
pub mod Safety
mod Tests
use seakcutils.Base.{
  ℕ, Bool, true, false, Option, none, some, List, [], ◌∷◌, add_size, sub_size, ◌==◌, if◌then◌else◌,
  Run, done, fault, map,
}
use seakcutils.Channel.{
  ChanState, opened, closed, err_null, Ring, SendPc, RecvPc, send_step, recv_step,
}
use seakcutils.Mpmc

pub record ChannelSpmc {ℓ} (A : Type ℓ) : Type ℓ where
  pub ring : Ring A
  pub elem_size : ℕ
  pub cons_cont : ℕ

-- The fields of a handle that are not pointers into the channel.
pub record SenderSpmc : Type 0 where
  pub inner_c_cap : ℕ
  pub elem_size : ℕ

pub record ReceiverSpmc : Type 0 where
  pub inner_c_cap : ℕ
  pub elem_size : ℕ
  pub receiver_state : ChanState

-- Where a call of `spmc_destroy` stands.
pub data DestroyPc : Type 0 where
  start : DestroyPc  -- before the closing
  load_cons : DestroyPc
  freed : DestroyPc  -- the slots, their elements and the channel are given back
  returned_null : DestroyPc

module _ {ℓ} {A : Type ℓ} where
  -- The answers of `malloc` for the channel and for the slots. The second one is not tested, so a
  -- channel with slots is written through NULL.
  unfoldable pub channel_create_spmc : Bool → Bool → ℕ → ℕ → Run (Option (ChannelSpmc A))
  channel_create_spmc got_chan got_slots capacity elem_size =
      let chan : Option (ChannelSpmc A) = some (record {
        ring = record {
          slots = λ i. record { elem = none; seq = i };
          capacity = capacity;
          head = 0;
          tail = 0;
          state = opened;
        };
        elem_size = elem_size;
        cons_cont = 0;
      }) in
      if got_chan
      then (if got_slots then done chan else if capacity == 0 then done chan else fault)
      else done none

  unfoldable pub spmc_close : ChannelSpmc A → ChannelSpmc A
  spmc_close chan = record chan { ring = record chan.ring { state = closed } }

  unfoldable pub spmc_is_closed : ChannelSpmc A → ChanState
  spmc_is_closed chan = chan.ring.state

  unfoldable pub spmc_destroy_call : Option (ChannelSpmc A) → DestroyPc
  spmc_destroy_call none = DestroyPc.returned_null
  spmc_destroy_call (some chan) = DestroyPc.start

  -- One step of it.
  unfoldable pub spmc_destroy : DestroyPc → ChannelSpmc A → DestroyPc × ChannelSpmc A
  unfolding spmc_close
  spmc_destroy DestroyPc.start chan = (DestroyPc.load_cons, spmc_close chan)
  spmc_destroy DestroyPc.load_cons chan =
      (if chan.cons_cont == 0 then DestroyPc.freed else DestroyPc.load_cons, chan)
  spmc_destroy DestroyPc.freed chan = (DestroyPc.freed, chan)
  spmc_destroy DestroyPc.returned_null chan = (DestroyPc.returned_null, chan)

  unfoldable pub spmc_get_sender : Option (ChannelSpmc A) → Option SenderSpmc
  spmc_get_sender none = none
  spmc_get_sender (some chan) =
      some (record { inner_c_cap = chan.ring.capacity; elem_size = chan.elem_size })

  unfoldable pub spmc_get_receiver : Option (ChannelSpmc A) → Option (ChannelSpmc A × ReceiverSpmc)
  spmc_get_receiver none = none
  spmc_get_receiver (some chan) = some (
    record chan { cons_cont = add_size chan.cons_cont 1 },
    record {
      inner_c_cap = chan.ring.capacity;
      elem_size = chan.elem_size;
      receiver_state = opened;
    },
  )

  unfoldable pub spmc_close_receiver : ChannelSpmc A → ReceiverSpmc → ChannelSpmc A × ReceiverSpmc
  spmc_close_receiver chan receiver = (
    record chan { cons_cont = sub_size chan.cons_cont 1 },
    record receiver { receiver_state = closed },
  )

  -- A call with its handle, NULL or not, and one step of it.
  abbrev pub spmc_send_call : Option SenderSpmc → A → SendPc A
  spmc_send_call none v = SendPc.returned err_null
  spmc_send_call (some sender) v = SendPc.start v

  abbrev pub spmc_recv_call : Option ReceiverSpmc → RecvPc A
  spmc_recv_call none = RecvPc.returned err_null none
  spmc_recv_call (some receiver) = RecvPc.start receiver.receiver_state

  abbrev pub spmc_send : SendPc A → Ring A → SendPc A × Ring A
  spmc_send = send_step

  abbrev pub spmc_recv : RecvPc A → Ring A → RecvPc A × Ring A
  spmc_recv = recv_step

-- What may happen next: calls of the sender and of receivers, their steps, and the closing.
pub data Event {ℓ} (A : Type ℓ) : Type ℓ where
  send : Option SenderSpmc → A → Event A
  recv : ℕ → Option ReceiverSpmc → Event A
  step_sender : Event A
  step_receiver : ℕ → Event A
  close : Event A

abbrev pub is_null : Option SenderSpmc → Bool
is_null none = true
is_null (some sender) = false

abbrev pub state_of : Option ReceiverSpmc → Option ChanState
state_of none = none
state_of (some receiver) = some receiver.receiver_state

module _ {ℓ} {A : Type ℓ} where
  -- The event of an MPMC channel.
  abbrev pub event : Event A → Mpmc.Event A
  event (send sender v) = Mpmc.Event.send 0 (is_null sender) v
  event (recv i receiver) = Mpmc.Event.recv i (state_of receiver)
  event step_sender = Mpmc.Event.step_sender 0
  event (step_receiver i) = Mpmc.Event.step_receiver i
  event close = Mpmc.Event.close

  abbrev pub shared : ChannelSpmc A → Mpmc.ChannelMpmc A
  shared chan = record {
    ring = chan.ring;
    elem_size = chan.elem_size;
    prod_cont = 0;
    cons_cont = chan.cons_cont;
  }

  -- The system after the events `es` on a channel whose handles have made no call.
  abbrev pub after : ChannelSpmc A → List (Event A) → Mpmc.System A
  after chan es = Mpmc.run (map event es) (Mpmc.system_of (shared chan))
