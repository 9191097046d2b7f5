-- ===== src/RegionArena.antt =====
-- arenas/r_arena.h: an arena over regions of equal size, allocated as they are needed.
-- The functions run one at a time here, so that the compare-exchange of `_ensure_region` always
-- succeeds and its loop is not entered. A pointer to an element is its region and its index there.
pub mod Regions
pub mod Change
pub mod Ensure
pub mod Extend
pub mod Calls
pub mod Epochs
pub mod Spec
pub mod Refine
pub mod Free
mod Tests
use seakcutils.Base.{
  [], ◌∷◌, ℕ, zero, suc, ◌+◌, ◌-◌, ◌/◌, ◌%◌, ◌||◌, Bool, Option, none, some, List, Run, done, fault,
  aborted, ◌>>=◌, load, store, expect, replicate, set, add_size, ◌==◌, ltb, leb, if◌then◌else◌,
}

-- `data`: NULL or the storage of the elements.
pub record Region {ℓ} (A : Type ℓ) : Type ℓ where
  pub data_elems : Option (List A)
  pub epoch : ℕ

-- `regions_handler`: NULL, or for each region NULL or the region.
pub record RegionArena {ℓ} (A : Type ℓ) : Type ℓ where
  pub elem_size : ℕ
  pub rg_capacity : ℕ
  pub rgs_in_use : ℕ
  pub count : ℕ
  pub max_rgs : ℕ
  pub current_epoch : ℕ
  pub regions_handler : Option (List (Option (Region A)))

-- What the C library gives: storage or not for the pointers to as many regions, for the region of a
-- number, and for its data. `zeroed` is the element whose bytes are all zero.
pub record Memory {ℓ} (A : Type ℓ) : Type ℓ where
  pub calloc_handler : ℕ → Bool
  pub malloc_region : ℕ → Bool
  pub calloc_data : ℕ → Bool
  pub zeroed : A

module _ {ℓ} {A : Type ℓ} where
  -- `*arena->regions_handler[region]`
  unfoldable pub region_of : RegionArena A → ℕ → Run (Region A)
  unfolding load
  region_of arena region = do
    handler ← expect arena.regions_handler
    slot ← load handler region
    expect slot

  unfoldable pub put_region : RegionArena A → ℕ → Region A → Run (RegionArena A)
  unfolding store
  put_region arena region rg = do
    handler ← expect arena.regions_handler
    handler' ← store handler region (some rg)
    done (record arena { regions_handler = some handler' })

  -- The pointer to an element of a region.
  unfoldable pub pointer_to : RegionArena A → ℕ → ℕ → Run (ℕ × ℕ)
  unfolding region_of
  pointer_to arena region index = do _ ← region_of arena region; done (region, index)

  -- `memcpy` of one element to it.
  unfoldable pub write_elem : RegionArena A → ℕ → ℕ → A → Run (RegionArena A)
  unfolding region_of put_region store
  write_elem arena region index val = do
    rg ← region_of arena region
    elems ← expect rg.data_elems
    elems' ← store elems index val
    put_region arena region (record rg { data_elems = some elems' })

module _ {ℓ} {A : Type ℓ} (memory : Memory A) where
  open memory use {calloc_handler, malloc_region, calloc_data, zeroed}

  -- A new region with its data and the epoch.
  unfoldable pub new_region : RegionArena A → ℕ → Run (RegionArena A)
  unfolding put_region
  new_region arena region =
      if malloc_region region
      then put_region arena region (record {
        data_elems = if calloc_data region then some (replicate arena.rg_capacity zeroed) else none;
        epoch = arena.current_epoch;
      })
      else fault

  unfoldable pub r_arena_create : ℕ → ℕ → ℕ → Run (RegionArena A)
  unfolding new_region
  r_arena_create elem_size region_capacity max_regions =
      let max_rgs = if max_regions == 0 then 1024 else max_regions in
      new_region
        (record {
          elem_size = elem_size;
          rg_capacity = region_capacity;
          rgs_in_use = 1;
          count = 0;
          max_rgs = max_rgs;
          current_epoch = 0;
          regions_handler = if calloc_handler max_rgs then some (replicate max_rgs none) else none;
        })
        0

  unfoldable pub ensure_region : RegionArena A → ℕ → Run (RegionArena A)
  unfolding region_of put_region new_region
  ensure_region arena region =
      if leb arena.max_rgs region
      then aborted
      else if ltb region arena.rgs_in_use
      then (do
        rg ← region_of arena region
        (if rg.epoch == arena.current_epoch then done arena else do
          _ ← expect rg.data_elems
          put_region arena region (record {
            data_elems = some (replicate arena.rg_capacity zeroed);
            epoch = arena.current_epoch;
          })))
      else new_region (record arena { rgs_in_use = add_size region 1 }) region

  unfoldable pub r_arena_add : Option (RegionArena A) → A → Run (ℕ × Option (RegionArena A))
  unfolding ensure_region write_elem
  r_arena_add none val = done (1, none)
  r_arena_add (some arena) val = if arena.rg_capacity == 0 then fault else do
    let region = arena.count / arena.rg_capacity
    let index = arena.count % arena.rg_capacity
    ensured ← ensure_region (record arena { count = add_size arena.count 1 }) region
    written ← write_elem ensured region index val
    done (0, some written)

  -- The pointer, NULL as `none`.
  unfoldable pub r_arena_alloc :
      Option (RegionArena A) → Run (Option (ℕ × ℕ) × Option (RegionArena A))
  unfolding ensure_region pointer_to
  r_arena_alloc none = done (none, none)
  r_arena_alloc (some arena) = if arena.rg_capacity == 0 then fault else do
    let region = arena.count / arena.rg_capacity
    let index = arena.count % arena.rg_capacity
    ensured ← ensure_region (record arena { count = add_size arena.count 1 }) region
    pointer ← pointer_to ensured region index
    done (some pointer, some ensured)

module _ {ℓ} {A : Type ℓ} where
  -- The count is loaded before `arena` is tested.
  unfoldable pub r_arena_get : Option (RegionArena A) → ℕ → Run (Option (ℕ × ℕ))
  unfolding pointer_to
  r_arena_get none i = fault
  r_arena_get (some arena) i =
      if leb arena.count i || (arena.count == 0)
      then done none
      else if arena.rg_capacity == 0
      then fault
      else do
        pointer ← pointer_to arena (i / arena.rg_capacity) (i % arena.rg_capacity)
        done (some pointer)

  unfoldable pub r_arena_get_last : Option (RegionArena A) → Run (Option (ℕ × ℕ))
  unfolding pointer_to
  r_arena_get_last none = fault
  r_arena_get_last (some arena) =
      if arena.count == 0 then done none else if arena.rg_capacity == 0 then fault else do
        let count = arena.count - 1
        pointer ← pointer_to arena (count / arena.rg_capacity) (count % arena.rg_capacity)
        done (some pointer)

  -- The loop, with `left` rounds to go from region `z` on: the arena, and the regions that were given
  -- to `free`, in order.
  unfoldable pub free_loop : ℕ → ℕ → RegionArena A → Run (RegionArena A × List ℕ)
  unfolding region_of store
  free_loop zero z arena = done (arena, [])
  free_loop (suc left) z arena = do
    _ ← region_of arena z
    handler ← expect arena.regions_handler
    handler' ← store handler z none
    (arena', regions) ← free_loop left (suc z) (record arena { regions_handler = some handler' })
    done (arena', z ∷ regions)

  -- The arena that is left, and the regions that were given to `free`.
  unfoldable pub r_arena_free : Option (RegionArena A) → Run (Option (RegionArena A) × List ℕ)
  unfolding free_loop
  r_arena_free none = done (none, [])
  r_arena_free (some arena) = do
    (freed, regions) ← free_loop arena.rgs_in_use 0 arena
    done (some (record freed { regions_handler = none; count = 0; rg_capacity = 0 }), regions)

  unfoldable pub r_arena_reset : RegionArena A → RegionArena A
  r_arena_reset arena = record arena { current_epoch = add_size arena.current_epoch 1; count = 0 }
