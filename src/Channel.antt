-- ===== src/Channel.antt =====
-- channels/channels.h, and the sending and the receiving routine that channels/mpmc.h and
-- channels/spmc.h share word for word (channels/mpsc.h has the same sending one).
-- A routine is a program counter with its live locals; one step of it makes one access to memory
-- that other threads may see, in a sequentially consistent order.
use seakcutils.Base.{
  ℕ, ◌%◌, Bool, true, false, Option, none, some, ℤ, pos, negsuc, add_size, ◌==◌, if◌then◌else◌,
}

pub data ChanState : Type 0 where
  opened : ChanState
  closed : ChanState

abbrev pub is_closed : ChanState → Bool
is_closed opened = false
is_closed closed = true

abbrev pub ok : ℤ
ok = pos 0

abbrev pub err_null : ℤ
err_null = negsuc 0

abbrev pub err_empty : ℤ
err_empty = negsuc 1

abbrev pub err_full : ℤ
err_full = negsuc 2

abbrev pub err_closed : ℤ
err_closed = negsuc 3

-- `Slot`. `elem` is the storage that `data` points to, `none` before the first write.
pub record Slot {ℓ} (A : Type ℓ) : Type ℓ where
  pub elem : Option A
  pub seq : ℕ

-- What the handles of a channel share: the slots below `capacity`, the cursors and the state.
pub record Ring {ℓ} (A : Type ℓ) : Type ℓ where
  pub slots : ℕ → Slot A
  pub capacity : ℕ
  pub head : ℕ
  pub tail : ℕ
  pub state : ChanState

-- Where a call of the sending routine stands. `ticket` is the local `head`.
pub data SendPc {ℓ} (A : Type ℓ) : Type ℓ where
  start : A → SendPc A  -- before the load of the channel's state
  draw : A → SendPc A  -- before the `fetch_add` on `head`
  wait : (ticket : ℕ) → A → SendPc A  -- before the load of `slot->seq`
  check : (ticket : ℕ) → A → SendPc A  -- in the loop, before the load of the state
  copy : (ticket : ℕ) → A → SendPc A  -- before `memcpy`
  publish : (ticket : ℕ) → A → SendPc A  -- before the store to `slot->seq`
  returned : ℤ → SendPc A
  trapped : SendPc A  -- division by zero

-- Where a call of the receiving routine stands. `ticket` is the local `tail`.
pub data RecvPc {ℓ} (A : Type ℓ) : Type ℓ where
  start : ChanState → RecvPc A  -- with `receiver_state`, before its load
  draw : RecvPc A
  wait : (ticket : ℕ) → RecvPc A
  check : (ticket : ℕ) → RecvPc A
  copy : (ticket : ℕ) → RecvPc A
  release : (ticket : ℕ) → Option A → RecvPc A
  returned : ℤ → Option A → RecvPc A
  trapped : RecvPc A

module _ {ℓ} {A : Type ℓ} where
  abbrev pub set_slot : Ring A → ℕ → Slot A → Ring A
  set_slot r i slot = record r { slots = λ j. if i == j then slot else r.slots j }

  abbrev pub slot_of : Ring A → ℕ → Slot A
  slot_of r ticket = r.slots (ticket % r.capacity)

  unfoldable pub send_step : SendPc A → Ring A → SendPc A × Ring A
  send_step (SendPc.start v) r =
      (if is_closed r.state then SendPc.returned err_closed else SendPc.draw v, r)
  send_step (SendPc.draw v) r = (
    if r.capacity == 0 then SendPc.trapped else SendPc.wait r.head v,
    record r { head = add_size r.head 1 },
  )
  send_step (SendPc.wait t v) r =
      (if (slot_of r t).seq == t then SendPc.copy t v else SendPc.check t v, r)
  send_step (SendPc.check t v) r =
      (if is_closed r.state then SendPc.returned err_closed else SendPc.wait t v, r)
  send_step (SendPc.copy t v) r =
      (SendPc.publish t v, set_slot r (t % r.capacity) (record (slot_of r t) { elem = some v }))
  send_step (SendPc.publish t v) r = (
    SendPc.returned ok,
    set_slot r (t % r.capacity) (record (slot_of r t) { seq = add_size t 1 }),
  )
  send_step (SendPc.returned c) r = (SendPc.returned c, r)
  send_step SendPc.trapped r = (SendPc.trapped, r)

  unfoldable pub recv_step : RecvPc A → Ring A → RecvPc A × Ring A
  recv_step (RecvPc.start st) r =
      (if is_closed st then RecvPc.returned err_closed none else RecvPc.draw, r)
  recv_step RecvPc.draw r = (
    if r.capacity == 0 then RecvPc.trapped else RecvPc.wait r.tail,
    record r { tail = add_size r.tail 1 },
  )
  recv_step (RecvPc.wait t) r =
      (if (slot_of r t).seq == add_size t 1 then RecvPc.copy t else RecvPc.check t, r)
  recv_step (RecvPc.check t) r =
      (if is_closed r.state then RecvPc.returned err_closed none else RecvPc.wait t, r)
  recv_step (RecvPc.copy t) r = (RecvPc.release t (slot_of r t).elem, r)
  recv_step (RecvPc.release t out) r = (
    RecvPc.returned ok out,
    set_slot r (t % r.capacity) (record (slot_of r t) { seq = add_size t r.capacity }),
  )
  recv_step (RecvPc.returned c out) r = (RecvPc.returned c out, r)
  recv_step RecvPc.trapped r = (RecvPc.trapped, r)
