-- ===== src/Spsc/Bounds.antt =====
-- channels/spsc.h: the bytes of the buffer that a copy of an element touches.
use mathlib.Core.Option.{some-injective}
use seakcutils.Base.{
  refl, inl, inr, Bool, Bool-cases, Bool, ℕ, ◌+◌, ◌*◌, ◌%◌, ◌^◌, ◌≤◌, ◌<◌, ◌≡◌, sym, some, true,
  List, length, arith, ◌∙◌, ap, mul_size,
}
use seakcutils.Spsc.{
  ChannelSpsc, SenderSpsc, ReceiverSpsc, channel_create_spsc, spsc_get_sender, spsc_get_receiver,
  SendPc, RecvPc, Event,
}
use seakcutils.Spsc.Invariant.{SendOk, RecvOk}
use seakcutils.Spsc.Safety.{after, run-Inv, create-Inv}

-- A copy of an element of this size to or from place `index` stays in the first `bytes` bytes.
abbrev pub InBuffer : ℕ → ℕ → ℕ → Type 0
InBuffer bytes elem_size index = index * elem_size + elem_size ≤ bytes

module _ {A : Type 0} where
  abbrev pub SendsInBuffer : ℕ → SenderSpsc → SendPc A → Type 0
  SendsInBuffer bytes sender (SendPc.copy index v) = InBuffer bytes sender.elem_size index
  SendsInBuffer bytes sender _ = Unit

  abbrev pub ReceivesInBuffer : ℕ → ReceiverSpsc → RecvPc A → Type 0
  ReceivesInBuffer bytes receiver (RecvPc.copy index) = InBuffer bytes receiver.elem_size index
  ReceivesInBuffer bytes receiver _ = Unit

index_in :
    (i k cap elem_size : ℕ) → 0 < cap → i ≡ k % cap → i * elem_size + elem_size ≤ cap * elem_size
index_in i k cap elem_size pos e = grind arith

-- A channel that is not full, or not empty, has a place.
module _ {A : Type 0} (c : ChannelSpsc A) (elem_size : ℕ) (fits : c.capacity * elem_size < 2 ^ 64)
    (order : c.tail ≤ c.head) (room : c.head ≤ c.tail + c.capacity) where
  sends_in :
      (p : SendPc A)
      → SendOk c p
      → SendsInBuffer
          (mul_size c.capacity elem_size)
          (record { inner_c_cap = c.capacity; elem_size = elem_size })
          p
  sends_in (SendPc.copy i v) (e, lt) =
      let inside = index_in i c.head c.capacity elem_size (omega (arith, lt, order)) e in
      let exact : mul_size c.capacity elem_size ≡ c.capacity * elem_size = omega (arith, fits) in
      omega (arith, inside, exact)
  sends_in (SendPc.start v) ok = tt
  sends_in _ ok = tt

  receives_in :
      (sent : List A) (p : RecvPc A)
      → RecvOk c sent p
      → ReceivesInBuffer
          (mul_size c.capacity elem_size)
          (record { inner_c_cap = c.capacity; elem_size = elem_size })
          p
  receives_in sent (RecvPc.copy i) (e, lt) =
      let inside = index_in i c.tail c.capacity elem_size (omega (arith, lt, room)) e in
      let exact : mul_size c.capacity elem_size ≡ c.capacity * elem_size = omega (arith, fits) in
      omega (arith, inside, exact)
  receives_in sent RecvPc.load_tail ok = tt
  receives_in sent _ ok = tt

created_size :
    {A : Type 0} (realloc : ℕ → Bool) (cap elem_size : ℕ) {chan : ChannelSpsc A}
    → channel_create_spsc true realloc cap elem_size ≡ some chan
    → chan.elem_size ≡ elem_size
unfolding channel_create_spsc
created_size realloc cap elem_size e = elim (Bool-cases (realloc (mul_size cap elem_size))) [
  | inl got ↦ sym (ap (λ c. c.elem_size) (some-injective _ _ (rw got at e)))
  | inr failed ↦ absurd (ground (arith, failed))
]

module _ {A : Type 0} (realloc : ℕ → Bool) (cap elem_size : ℕ) {chan : ChannelSpsc A}
    {sender : SenderSpsc} {receiver : ReceiverSpsc} (es : List (Event A)) where
  -- On a channel whose `capacity * elem_size` stays below 2 ^ 64, after fewer than
  -- 2 ^ 64 - capacity - 1 events, every copy that a side of the channel is about to make with its handle
  -- stays inside the bytes that the creation of the channel asked for.
  pub spsc_in_bounds :
      length es + cap + 1 < 2 ^ 64
      → cap * elem_size < 2 ^ 64
      → channel_create_spsc true realloc cap elem_size ≡ some chan
      → spsc_get_sender (some chan) ≡ some sender
      → spsc_get_receiver (some chan) ≡ some receiver
      → SendsInBuffer (mul_size cap elem_size) sender (after chan es).sender
        × ReceivesInBuffer (mul_size cap elem_size) receiver (after chan es).receiver
  unfolding spsc_get_sender spsc_get_receiver
  spsc_in_bounds small fits e e' e'' =
      let start = create-Inv realloc cap elem_size e in
      let v = run-Inv es {n = 0} (omega arith) start in
      let c = (after chan es).chan in
      let fits' : c.capacity * elem_size < 2 ^ 64 = rw v.sized fits in
      let room : c.head ≤ c.tail + c.capacity = omega (arith, v.head-le-tail, v.sized) in
      let handle : SenderSpsc = record { inner_c_cap = cap; elem_size = elem_size } in
      let handle' : ReceiverSpsc = record { inner_c_cap = cap; elem_size = elem_size } in
      let size = created_size realloc cap elem_size e in
      let is_handle : sender ≡ handle = sym (some-injective _ _ e') ∙ rw (start.sized, size) refl in
      let is_handle' : receiver ≡ handle' =
        sym (some-injective _ _ e'') ∙ rw (start.sized, size) refl in
      let sends = sends_in c elem_size fits' v.tail-le-head room (after chan es).sender v.send_ok in
      let receives =
        receives_in c elem_size fits' v.tail-le-head room (after chan es).sent
          (after chan es).receiver v.recv_ok in
      (rw is_handle (rw v.sized at sends), rw is_handle' (rw v.sized at receives))
