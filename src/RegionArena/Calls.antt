-- ===== src/RegionArena/Calls.antt =====
-- arenas/r_arena.h: what each function does on an arena that represents a list.
use seakcutils.Base.{
  ℕ, suc, ◌+◌, ◌*◌, ◌/◌, ◌%◌, ◌^◌, ◌≤◌, ◌<◌, ◌≡◌, refl, true, false, some, List, [], ◌∷◌, ◌++◌,
  length, arith, done, aborted, length-append, ne→==, le→leb, add_size, Run, ◌>>=◌, expect, load,
  ◌==◌, leb,
}
use seakcutils.Arena.Represents.{le_mul}
use seakcutils.RegionArena.{
  RegionArena, Memory, region_of, r_arena_add, r_arena_alloc, pointer_to, ensure_region,
}
use seakcutils.RegionArena.Regions.{div_place, lt_of_mul, Holds}
use seakcutils.RegionArena.Change.{recount-Holds, region_of_lem}
use seakcutils.RegionArena.Ensure.{Ensured, ensure_region-Ensured}
use seakcutils.RegionArena.Extend.{write_elem-Holds, zeroed-Holds}

-- Reading an element through a pointer.
abbrev pub read {ℓ} : {A : Type ℓ} → RegionArena A → ℕ × ℕ → Run A
read arena (region, index) = do
  rg ← region_of arena region
  elems ← expect rg.data_elems
  load elems index

module _ {ℓ} {A : Type ℓ} where
  abbrev pub Allocates : Memory A → Type 0
  Allocates memory = (j : ℕ) → (memory.malloc_region j ≡ true) × (memory.calloc_data j ≡ true)

  pub record Represents (z : A) (arena : RegionArena A) (xs : List A) : Type ℓ where
    pub holds : Holds z arena xs
    pub counted : arena.count ≡ length xs
    pub total : arena.max_rgs * arena.rg_capacity < 2 ^ 64

  -- An arena of the same shape and epoch.
  pub record Alike (arena arena' : RegionArena A) : Type 0 where
    pub cap : arena'.rg_capacity ≡ arena.rg_capacity
    pub max : arena'.max_rgs ≡ arena.max_rgs
    pub epoch : arena'.current_epoch ≡ arena.current_epoch

module _ {ℓ} {A : Type ℓ} (memory : Memory A) {arena : RegionArena A} {xs : List A}
    (r : Represents memory.zeroed arena xs) where
  abbrev region : ℕ
  region = length xs / arena.rg_capacity

  place :
      (length xs / arena.rg_capacity * arena.rg_capacity + length xs % arena.rg_capacity
        ≡ length xs)
      × (length xs % arena.rg_capacity < arena.rg_capacity)
  place = div_place (length xs) arena.rg_capacity r.holds.cap_pos

  cap_ne : (arena.rg_capacity == 0) ≡ false
  cap_ne = ne→== arena.rg_capacity 0 (omega (arith, r.holds.cap_pos))

  -- With fewer elements than the regions can hold, `_ensure_region` makes the next place ready.
  ensured :
      Allocates memory
      → length xs < arena.max_rgs * arena.rg_capacity
      → Ensured memory
          (record arena { count = add_size (length xs) 1 })
          xs
          (length xs / arena.rg_capacity)
  ensured given room =
      ensure_region-Ensured memory given (recount-Holds r.holds (add_size (length xs) 1)) region
        (lt_of_mul region arena.max_rgs arena.rg_capacity (omega (arith, room, place)))
        (omega (arith, r.total, le_mul arena.max_rgs arena.rg_capacity r.holds.cap_pos))
        (omega (
          arith,
          lt_of_mul region (suc arena.rgs_in_use) arena.rg_capacity
              (omega (arith, place, r.holds.covered, r.holds.cap_pos)),
        ))

  module _ (given : Allocates memory) (room : length xs < arena.max_rgs * arena.rg_capacity) where
    -- `r_arena_add` appends the element.
    pub r_arena_add_room :
        (v : A)
        → (arena' : RegionArena A) × (r_arena_add memory (some arena) v ≡ done (0, some arena'))
          × Represents memory.zeroed arena' (xs ++ v ∷ [])
          × Alike arena arena'
    unfolding r_arena_add
    r_arena_add_room v =
        let e = ensured given room in
        let (writes, holds) = write_elem-Holds e.holds v e.in_use e.ready in
        (
          _,
          rw (cap_ne, r.counted, e.runs, writes) refl,
          record {
            holds = holds;
            counted = omega (arith, length-append xs (v ∷ []), room, r.total);
            total = r.total;
          },
          record { cap = refl; max = refl; epoch = refl },
        )

    -- `r_arena_alloc` appends a zeroed element, and gives a pointer to it.
    pub r_arena_alloc_room :
        (arena' : RegionArena A) × (r_arena_alloc memory (some arena)
          ≡ done (some (length xs / arena.rg_capacity, length xs % arena.rg_capacity), some arena'))
        × Represents memory.zeroed arena' (xs ++ memory.zeroed ∷ [])
        × Alike arena arena'
    unfolding r_arena_alloc pointer_to
    r_arena_alloc_room =
        let e = ensured given room in
        (
          _,
          rw (cap_ne, r.counted, e.runs, region_of_lem e.holds region e.ready.present) refl,
          record {
            holds = zeroed-Holds e.holds memory.zeroed e.in_use e.ready refl;
            counted = omega (arith, length-append xs (memory.zeroed ∷ []), room, r.total);
            total = r.total;
          },
          record { cap = refl; max = refl; epoch = refl },
        )

  -- Without room both abort.
  module _ (full : arena.max_rgs * arena.rg_capacity ≤ length xs) where
    past : (leb arena.max_rgs (length xs / arena.rg_capacity)) ≡ true
    past = le→leb _ _ (
        omega (
          arith,
          lt_of_mul arena.max_rgs (suc region) arena.rg_capacity (omega (arith, place, full)),
        ))

    pub r_arena_add_full : (v : A) → r_arena_add memory (some arena) v ≡ aborted
    unfolding r_arena_add ensure_region
    r_arena_add_full v = rw (cap_ne, r.counted, past) refl

    pub r_arena_alloc_full : r_arena_alloc memory (some arena) ≡ aborted
    unfolding r_arena_alloc ensure_region
    r_arena_alloc_full = rw (cap_ne, r.counted, past) refl
