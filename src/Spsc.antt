-- ===== src/Spsc.antt =====
-- channels/spsc.h: a bounded channel for one sender and one receiver.
-- A call stands at a program counter with its live locals, and a step makes one access to memory
-- that the other thread may see. Each handle has one call at a time; the pointers in a handle lead to
-- the fields of the channel, and its capacity is the channel's, which never changes. `malloc` for a
-- handle succeeds.
pub mod Invariant
pub mod Safety
pub mod Bounds
mod Tests
use seakcutils.Base.{
  ℕ, ◌+◌, ◌%◌, Bool, true, false, Option, none, some, List, [], ◌∷◌, ◌++◌, ℤ, add_size, sub_size,
  mul_size, ◌==◌, if◌then◌else◌,
}
use seakcutils.Channel.{
  ChanState, opened, closed, is_closed, ok, err_null, err_empty, err_full, err_closed,
}

-- `elems` is the storage behind `buffer`, for the places below `capacity`.
pub record ChannelSpsc {ℓ} (A : Type ℓ) : Type ℓ where
  pub elems : ℕ → Option A
  pub capacity : ℕ
  pub elem_size : ℕ
  pub head : ℕ
  pub tail : ℕ
  pub state : ChanState

-- The fields of a handle that are not pointers into the channel.
pub record SenderSpsc : Type 0 where
  pub inner_c_cap : ℕ
  pub elem_size : ℕ

pub record ReceiverSpsc : Type 0 where
  pub inner_c_cap : ℕ
  pub elem_size : ℕ

pub data SendPc {ℓ} (A : Type ℓ) : Type ℓ where
  start : A → SendPc A  -- before the load of the state
  load_head : A → SendPc A
  load_tail : (head : ℕ) → A → SendPc A
  copy : (index : ℕ) → A → SendPc A  -- before `memcpy`
  advance : A → SendPc A  -- before the `fetch_add` on `head`
  returned : ℤ → SendPc A
  trapped : SendPc A  -- division by zero

pub data RecvPc {ℓ} (A : Type ℓ) : Type ℓ where
  load_tail : RecvPc A
  load_head : (tail : ℕ) → RecvPc A
  copy : (index : ℕ) → RecvPc A
  advance : Option A → RecvPc A
  returned : ℤ → Option A → RecvPc A
  trapped : RecvPc A

module _ {ℓ} {A : Type ℓ} where
  -- The first argument says whether the storage of the channel itself is there; the second is
  -- `realloc (NULL, n)`, whether there are that many bytes.
  unfoldable pub channel_create_spsc : Bool → (ℕ → Bool) → ℕ → ℕ → Option (ChannelSpsc A)
  channel_create_spsc got_chan realloc capacity elem_size =
      if got_chan
      then (if realloc (mul_size capacity elem_size)
          then some (record {
            elems = λ _. none;
            capacity = capacity;
            elem_size = elem_size;
            head = 0;
            tail = 0;
            state = opened;
          })
          else none)
      else none

  unfoldable pub spsc_close : ChannelSpsc A → ChannelSpsc A
  spsc_close chan = record chan { state = closed }

  unfoldable pub spsc_is_closed : ChannelSpsc A → ChanState
  spsc_is_closed chan = chan.state

  unfoldable pub spsc_get_sender : Option (ChannelSpsc A) → Option SenderSpsc
  spsc_get_sender none = none
  spsc_get_sender (some chan) =
      some (record { inner_c_cap = chan.capacity; elem_size = chan.elem_size })

  unfoldable pub spsc_get_receiver : Option (ChannelSpsc A) → Option ReceiverSpsc
  spsc_get_receiver none = none
  spsc_get_receiver (some chan) =
      some (record { inner_c_cap = chan.capacity; elem_size = chan.elem_size })

  -- A call with its handle, NULL or not.
  unfoldable pub send_call : Bool → A → SendPc A
  send_call null v = if null then SendPc.returned err_null else SendPc.start v

  unfoldable pub recv_call : Bool → RecvPc A
  recv_call null = if null then RecvPc.returned err_null none else RecvPc.load_tail

  -- One step of a call of `spsc_try_send`.
  unfoldable pub spsc_try_send : SendPc A → ChannelSpsc A → SendPc A × ChannelSpsc A
  spsc_try_send (SendPc.start v) c =
      (if is_closed c.state then SendPc.returned err_closed else SendPc.load_head v, c)
  spsc_try_send (SendPc.load_head v) c = (SendPc.load_tail c.head v, c)
  spsc_try_send (SendPc.load_tail head v) c = (
    if sub_size head c.tail == c.capacity
        then SendPc.returned err_full
        else if c.capacity == 0
        then SendPc.trapped
        else SendPc.copy (head % c.capacity) v,
    c,
  )
  spsc_try_send (SendPc.copy index v) c =
      (SendPc.advance v, record c { elems = λ j. if index == j then some v else c.elems j })
  spsc_try_send (SendPc.advance v) c = (SendPc.returned ok, record c { head = add_size c.head 1 })
  spsc_try_send (SendPc.returned code) c = (SendPc.returned code, c)
  spsc_try_send SendPc.trapped c = (SendPc.trapped, c)

  -- One step of a call of `spsc_recv`.
  unfoldable pub spsc_recv : RecvPc A → ChannelSpsc A → RecvPc A × ChannelSpsc A
  spsc_recv RecvPc.load_tail c = (RecvPc.load_head c.tail, c)
  spsc_recv (RecvPc.load_head tail) c = (
    if tail == c.head
        then RecvPc.returned err_empty none
        else if c.capacity == 0
        then RecvPc.trapped
        else RecvPc.copy (tail % c.capacity),
    c,
  )
  spsc_recv (RecvPc.copy index) c = (RecvPc.advance (c.elems index), c)
  spsc_recv (RecvPc.advance out) c = (RecvPc.returned ok out, record c { tail = add_size c.tail 1 })
  spsc_recv (RecvPc.returned code out) c = (RecvPc.returned code out, c)
  spsc_recv RecvPc.trapped c = (RecvPc.trapped, c)

-- The channel, the call of each side, and what the code does not keep: the elements sent and what
-- was received, in order.
pub record System {ℓ} (A : Type ℓ) : Type ℓ where
  pub chan : ChannelSpsc A
  pub sender : SendPc A
  pub receiver : RecvPc A
  pub sent : List A
  pub got : List (Option A)

pub data Event {ℓ} (A : Type ℓ) : Type ℓ where
  send : Bool → A → Event A
  recv : Bool → Event A
  step_sender : Event A
  step_receiver : Event A
  close : Event A

module _ {ℓ} {A : Type ℓ} where
  -- A new call begins only when the last one has returned.
  abbrev pub next_send : SendPc A → SendPc A → SendPc A
  next_send (SendPc.returned code) p = p
  next_send busy p = busy

  abbrev pub next_recv : RecvPc A → RecvPc A → RecvPc A
  next_recv (RecvPc.returned code out) p = p
  next_recv busy p = busy

  abbrev pub log_sent : SendPc A → List A → List A
  log_sent (SendPc.advance v) sent = sent ++ v ∷ []
  log_sent _ sent = sent

  abbrev pub log_got : RecvPc A → List (Option A) → List (Option A)
  log_got (RecvPc.advance out) got = got ++ out ∷ []
  log_got _ got = got

  unfoldable pub happen : Event A → System A → System A
  unfolding send_call recv_call
  happen (send null v) s = record s { sender = next_send s.sender (send_call null v) }
  happen (recv null) s = record s { receiver = next_recv s.receiver (recv_call null) }
  happen step_sender s =
      let (p, c) = spsc_try_send s.sender s.chan in
      record s { chan = c; sender = p; sent = log_sent s.sender s.sent }
  happen step_receiver s =
      let (p, c) = spsc_recv s.receiver s.chan in
      record s { chan = c; receiver = p; got = log_got s.receiver s.got }
  happen close s = record s { chan = spsc_close s.chan }

  unfoldable pub run : List (Event A) → System A → System A
  run [] s = s
  run (e ∷ es) s = run es (happen e s)

  abbrev pub system_of : ChannelSpsc A → System A
  system_of chan = record {
    chan = chan;
    sender = SendPc.returned ok;
    receiver = RecvPc.returned ok none;
    sent = [];
    got = [];
  }
