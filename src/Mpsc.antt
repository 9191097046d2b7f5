-- ===== src/Mpsc.antt =====
-- channels/mpsc.h: a bounded channel for many senders and one receiver.
-- A handle is an index; a call on it stands at a program counter. The pointers in a handle lead to
-- the fields of the channel, and its capacity is the channel's, which never changes. `malloc` for a
-- handle succeeds.
pub mod Invariant
pub mod Receiver
pub mod Safety
pub mod Destroy
mod Tests
use seakcutils.Base.{
  ℕ, ◌+◌, ◌%◌, ◌<◌, Bool, true, false, Option, none, some, List, [], ◌∷◌, ◌++◌, ℤ, add_size,
  sub_size, ◌==◌, if◌then◌else◌, ◌&&◌, zero, suc,
}
use seakcutils.Channel.{
  ChanState, opened, closed, ok, err_null, err_empty, Slot, Ring, SendPc, send_step, slot_of,
  set_slot,
}
use seakcutils.Mpmc.{update, send_rests, log_sent}

pub record ChannelMpsc {ℓ} (A : Type ℓ) : Type ℓ where
  pub ring : Ring A
  pub elem_size : ℕ
  pub prod_cont : ℕ

-- The fields of a handle that are not pointers into the channel.
pub record SenderMpsc : Type 0 where
  pub inner_c_cap : ℕ
  pub elem_size : ℕ
  pub sender_state : ChanState

pub record ReceiverMpsc : Type 0 where
  pub inner_c_cap : ℕ
  pub elem_size : ℕ

-- Where a call of `mpsc_recv` stands, with the local `tail`.
pub data RecvPc {ℓ} (A : Type ℓ) : Type ℓ where
  load_tail : RecvPc A
  load_head : (tail : ℕ) → RecvPc A
  test : (tail : ℕ) → RecvPc A  -- before the load of `slot->seq`
  copy : (tail : ℕ) → RecvPc A  -- before `memcpy`
  release : (tail : ℕ) → Option A → RecvPc A  -- before the store to `slot->seq`
  advance : Option A → RecvPc A  -- before the `fetch_add` on `tail`
  returned : ℤ → Option A → RecvPc A
  trapped : RecvPc A  -- division by zero

-- Where a call of `mpsc_destroy` stands.
pub data DestroyPc : Type 0 where
  start : DestroyPc  -- before the closing
  load_prod : DestroyPc
  load_state : (prod_cont : ℕ) → DestroyPc
  freed : DestroyPc  -- the slots, their elements and the channel are given back
  returned_null : DestroyPc

-- Whether `realloc` gives storage for each of the first slots.
abbrev pub all_given : (ℕ → Bool) → ℕ → Bool
all_given given zero = true
all_given given (suc n) = all_given given n && given n

module _ {ℓ} {A : Type ℓ} where
  -- The answers of the allocator: for the channel, for the slots, for the element of each slot.
  unfoldable pub channel_create_mpsc : Bool → Bool → (ℕ → Bool) → ℕ → ℕ → Option (ChannelMpsc A)
  channel_create_mpsc got_chan got_slots got_elem capacity elem_size =
      if got_chan
      then (if got_slots
          then (if all_given got_elem capacity
              then some (record {
                ring = record {
                  slots = λ i. record { elem = none; seq = i };
                  capacity = capacity;
                  head = 0;
                  tail = 0;
                  state = opened;
                };
                elem_size = elem_size;
                prod_cont = 0;
              })
              else none)
          else none)
      else none

  unfoldable pub mpsc_close : ChannelMpsc A → ChannelMpsc A
  mpsc_close chan = record chan { ring = record chan.ring { state = closed } }

  unfoldable pub mpsc_is_closed : ChannelMpsc A → ChanState
  mpsc_is_closed chan = chan.ring.state

  unfoldable pub mpsc_get_sender : Option (ChannelMpsc A) → Option (ChannelMpsc A × SenderMpsc)
  mpsc_get_sender none = none
  mpsc_get_sender (some chan) = some (
    record chan { prod_cont = add_size chan.prod_cont 1 },
    record { inner_c_cap = chan.ring.capacity; elem_size = chan.elem_size; sender_state = opened },
  )

  unfoldable pub mpsc_get_receiver : Option (ChannelMpsc A) → Option ReceiverMpsc
  mpsc_get_receiver none = none
  mpsc_get_receiver (some chan) =
      some (record { inner_c_cap = chan.ring.capacity; elem_size = chan.elem_size })

  unfoldable pub mpsc_close_sender : ChannelMpsc A → SenderMpsc → ChannelMpsc A × SenderMpsc
  mpsc_close_sender chan sender = (
    record chan { prod_cont = sub_size chan.prod_cont 1 },
    record sender { sender_state = closed },
  )

  unfoldable pub mpsc_destroy_call : Option (ChannelMpsc A) → DestroyPc
  mpsc_destroy_call none = DestroyPc.returned_null
  mpsc_destroy_call (some chan) = DestroyPc.start

  -- One step of it. The state of the channel is loaded and not used.
  unfoldable pub mpsc_destroy : DestroyPc → ChannelMpsc A → DestroyPc × ChannelMpsc A
  unfolding mpsc_close
  mpsc_destroy DestroyPc.start chan = (DestroyPc.load_prod, mpsc_close chan)
  mpsc_destroy DestroyPc.load_prod chan = (DestroyPc.load_state chan.prod_cont, chan)
  mpsc_destroy (DestroyPc.load_state n) chan =
      (if n == 0 then DestroyPc.freed else DestroyPc.load_prod, chan)
  mpsc_destroy DestroyPc.freed chan = (DestroyPc.freed, chan)
  mpsc_destroy DestroyPc.returned_null chan = (DestroyPc.returned_null, chan)

  -- A call with its handle, NULL or not, and one step of it.
  abbrev pub mpsc_send_call : Bool → A → SendPc A
  mpsc_send_call null v = if null then SendPc.returned err_null else SendPc.start v

  abbrev pub mpsc_recv_call : Bool → RecvPc A
  mpsc_recv_call null = if null then RecvPc.returned err_null none else RecvPc.load_tail

  abbrev pub mpsc_send : SendPc A → Ring A → SendPc A × Ring A
  mpsc_send = send_step

  unfoldable pub mpsc_recv : RecvPc A → Ring A → RecvPc A × Ring A
  mpsc_recv RecvPc.load_tail r = (RecvPc.load_head r.tail, r)
  mpsc_recv (RecvPc.load_head t) r = (
    if t == r.head
        then RecvPc.returned err_empty none
        else if r.capacity == 0
        then RecvPc.trapped
        else RecvPc.test t,
    r,
  )
  mpsc_recv (RecvPc.test t) r = (
    if (slot_of r t).seq == add_size t 1 then RecvPc.copy t else RecvPc.returned err_empty none,
    r,
  )
  mpsc_recv (RecvPc.copy t) r = (RecvPc.release t (slot_of r t).elem, r)
  mpsc_recv (RecvPc.release t out) r = (
    RecvPc.advance out,
    set_slot r (t % r.capacity) (record (slot_of r t) { seq = add_size t r.capacity }),
  )
  mpsc_recv (RecvPc.advance out) r = (RecvPc.returned ok out, record r { tail = add_size r.tail 1 })
  mpsc_recv (RecvPc.returned c out) r = (RecvPc.returned c out, r)
  mpsc_recv RecvPc.trapped r = (RecvPc.trapped, r)

-- The shared ring, a call on each sender's handle and one on the receiver's, and two records of the
-- past that the code does not keep: the elements in the order of their tickets, and what was
-- received, in order.
pub record System {ℓ} (A : Type ℓ) : Type ℓ where
  pub ring : Ring A
  pub senders : ℕ → SendPc A
  pub receiver : RecvPc A
  pub sent : List A
  pub got : List (Option A)

-- What may happen next: a call on a handle that is at rest, a step of a call, the closing.
pub data Event {ℓ} (A : Type ℓ) : Type ℓ where
  send : ℕ → Bool → A → Event A
  recv : Bool → Event A
  step_sender : ℕ → Event A
  step_receiver : Event A
  close : Event A

module _ {ℓ} {A : Type ℓ} where
  -- A new call begins only when the last one has returned.
  abbrev pub next_recv : RecvPc A → RecvPc A → RecvPc A
  next_recv (RecvPc.returned code out) p = p
  next_recv busy p = busy

  abbrev pub log_got : RecvPc A → List (Option A) → List (Option A)
  log_got (RecvPc.advance out) got = got ++ out ∷ []
  log_got _ got = got

  unfoldable pub happen : Event A → System A → System A
  happen (send i null v) s =
      if send_rests (s.senders i)
      then record s { senders = update s.senders i (mpsc_send_call null v) }
      else s
  happen (recv null) s = record s { receiver = next_recv s.receiver (mpsc_recv_call null) }
  happen (step_sender i) s =
      let (p, r) = mpsc_send (s.senders i) s.ring in
      record s { ring = r; senders = update s.senders i p; sent = log_sent (s.senders i) s.sent }
  happen step_receiver s =
      let (p, r) = mpsc_recv s.receiver s.ring in
      record s { ring = r; receiver = p; got = log_got s.receiver s.got }
  happen close s = record s { ring = record s.ring { state = closed } }

  unfoldable pub run : List (Event A) → System A → System A
  run [] s = s
  run (e ∷ es) s = run es (happen e s)

  -- A new channel, and handles that have made no call.
  abbrev pub system_of : ChannelMpsc A → System A
  system_of chan = record {
    ring = chan.ring;
    senders = λ _. SendPc.returned err_null;
    receiver = RecvPc.returned err_null none;
    sent = [];
    got = [];
  }
