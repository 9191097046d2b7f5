-- ===== src/Mpmc/Safety.antt =====
-- What senders and receivers of an MPMC channel can rely on, however their steps interleave.
use seakcutils.Base.{
  ℕ, ◌+◌, ◌%◌, ◌^◌, ◌≤◌, ◌<◌, ◌≡◌, ◌≢◌, some, List, length, get_elem?, arith, ◌∙◌, true,
  get_elem?-of_lt,
}
use seakcutils.Channel.{SendPc, RecvPc}
use seakcutils.Mpmc.{ChannelMpmc, channel_create_mpmc, Event, System, run, system_of}
use seakcutils.Mpmc.Invariant.{AllGot, AllGot-map, Apart}
use seakcutils.Mpmc.Senders.{suc_slot_ne}
use seakcutils.Mpmc.Reach.{Safe, run-Safe, create-Safe}

-- The system after the events `es` on a new channel.
abbrev pub after : {A : Type 0} → ChannelMpmc A → List (Event A) → System A
after chan es = run es (system_of chan)

module _ {A : Type 0} (cap elem_size : ℕ) {chan : ChannelMpmc A} (es : List (Event A)) where
  reached :
      2 ≤ cap
      → length es + cap + 1 < 2 ^ 64
      → channel_create_mpmc true cap elem_size ≡ some chan
      → Safe cap (length es + 0) (after chan es)
  reached two small e = run-Safe two es (omega arith) (create-Safe two elem_size e)

  -- For a capacity of at least two and fewer than 2 ^ 64 - capacity - 1 events, whatever a receiver
  -- was handed on a ticket is the element that a sender put in on that ticket, and no ticket was
  -- served twice.
  pub mpmc_delivers :
      2 ≤ cap
      → length es + cap + 1 < 2 ^ 64
      → channel_create_mpmc true cap elem_size ≡ some chan
      → AllGot
          (λ g. (x : A) × (g.1 ≡ some x) × (get_elem? (after chan es).sent g.0 ≡ some x))
          (after chan es).got
        × Apart (after chan es).got
  mpmc_delivers two small e =
      let safe = reached two small e in
      (
        AllGot-map (after chan es).got
            (λ g h.
              let (x, has) =
                get_elem?-of_lt (after chan es).sent g.0 (omega (arith, h.1, safe.inv.logged)) in
              (x, h.2 ∙ has, has))
            safe.delivered.valid,
        safe.delivered.apart,
      )

  -- On a channel of at least two slots, after any interleaving of fewer than 2 ^ 64 - capacity - 1
  -- events, two senders never copy into one slot at the same time.
  pub mpmc_senders_apart :
      2 ≤ cap
      → length es + cap + 1 < 2 ^ 64
      → channel_create_mpmc true cap elem_size ≡ some chan
      → (i j t u : ℕ) {x y : A} → (after chan es).senders i ≡ SendPc.copy t x
      → (after chan es).senders j ≡ SendPc.copy u y
      → i ≢ j
      → t % cap ≢ u % cap
  mpmc_senders_apart two small e i j t u {x} {y} at_i at_j ne same =
      let safe = reached two small e in
      ne (
        ground (
          arith,
          safe.inv.sized,
          at_i,
          at_j,
          safe.inv.send_ok i,
          safe.inv.send_ok j,
          safe.inv.send_unique i j t,
        ))

  -- On a channel of at least two slots, after any interleaving of fewer than 2 ^ 64 - capacity - 1
  -- events, no sender copies into a slot while a receiver copies from it.
  pub mpmc_copies_apart :
      2 ≤ cap
      → length es + cap + 1 < 2 ^ 64
      → channel_create_mpmc true cap elem_size ≡ some chan
      → (i j t u : ℕ) {x : A} → (after chan es).senders i ≡ SendPc.copy t x
      → (after chan es).receivers j ≡ RecvPc.copy u
      → t % cap ≢ u % cap
  mpmc_copies_apart two small e i j t u {x} at_i at_j same =
      let safe = reached two small e in
      ground (
        arith,
        safe.inv.sized,
        at_i,
        at_j,
        safe.inv.send_ok i,
        safe.inv.recv_ok j,
        suc_slot_ne u cap two,
      )
