-- ===== src/RegionArena/Epochs.antt =====
-- arenas/r_arena.h: a new arena and one after `r_arena_reset` are empty, and what the two getters
-- give.
use seakcutils.Base.{
  ℕ, ◌+◌, ◌-◌, ◌*◌, ◌/◌, ◌%◌, ◌^◌, ◌≤◌, ◌<◌, ◌≡◌, refl, ap, ◌∙◌, true, false, Option, none, some,
  List, [], length, get_elem?, set, replicate, arith, done, ne→==, add_size, load-some, ◌==◌,
  if◌then◌else◌, le→leb, lt→leb, length-replicate, get_elem?-set_at, length-set, inl, inr,
}
use seakcutils.RegionArena.{
  Region, RegionArena, Memory, new_region, r_arena_create, r_arena_get, r_arena_get_last,
  r_arena_reset, pointer_to,
}
use seakcutils.RegionArena.Regions.{cell, div_place, lt_of_mul, RegionAt, get_elem?-replicate}
use seakcutils.RegionArena.Change.{region_of_lem, put_region_lem}
use seakcutils.RegionArena.Calls.{Allocates, Represents, read}

module _ {ℓ} {A : Type ℓ} where
  pub r_arena_reset-Represents :
      {z : A} {arena : RegionArena A} {xs : List A}
      → Represents z arena xs
      → arena.current_epoch + 1 < 2 ^ 64
      → Represents z (r_arena_reset arena) []
  unfolding r_arena_reset
  r_arena_reset-Represents {z} {arena} {xs} r small = record {
    holds = record {
      handler = r.holds.handler;
      held = r.holds.held;
      size = r.holds.size;
      cap_pos = r.holds.cap_pos;
      used_le = r.holds.used_le;
      covered = omega arith;
      region = λ j lt. old (r.holds.region j lt);
    };
    counted = refl;
    total = r.total;
  }
    where
      old :
          {j : ℕ}
          → RegionAt z arena.rg_capacity arena.current_epoch xs r.holds.handler j
          → RegionAt z arena.rg_capacity (add_size arena.current_epoch 1) [] r.holds.handler j
      old c = record {
        rg = c.rg;
        elems = c.elems;
        present = c.present;
        allocated = c.allocated;
        size = c.size;
        now = inr (
          elim c.now [ inl p ↦ omega (arith, p.0, small) | inr p ↦ omega (arith, p.0, small) ],
          omega arith,
        );
      }

  -- With storage for all that it asks for, `r_arena_create` gives an empty arena of epoch 0.
  pub r_arena_create-Represents :
      (memory : Memory A) (elem_size region_capacity max_regions : ℕ)
      → Allocates memory
      → let max_rgs = if max_regions == 0 then 1024 else max_regions in
        memory.calloc_handler max_rgs ≡ true
        → 0 < region_capacity
        → max_rgs * region_capacity < 2 ^ 64
        → (arena : RegionArena A) × (r_arena_create memory elem_size region_capacity max_regions
            ≡ done arena)
          × Represents memory.zeroed arena []
          × (arena.rg_capacity ≡ region_capacity)
          × (arena.max_rgs ≡ max_rgs)
          × (arena.current_epoch ≡ 0)
  unfolding r_arena_create new_region
  r_arena_create-Represents memory elem_size region_capacity max_regions given got pos total =
      let max_rgs = if max_regions == 0 then 1024 else max_regions in
      let some_max : 0 < max_rgs = ground arith in
      let rg : Region A = record {
        data_elems = some (replicate region_capacity memory.zeroed);
        epoch = 0;
      } in
      let nothing : Option (Region A) = none in
      let empty : List (Option (Region A)) = replicate max_rgs nothing in
      let in_handler : 0 < length empty =
        omega (arith, some_max, length-replicate max_rgs nothing) in
      let fresh : RegionArena A = record {
        elem_size = elem_size;
        rg_capacity = region_capacity;
        rgs_in_use = 1;
        count = 0;
        max_rgs = max_rgs;
        current_epoch = 0;
        regions_handler = some empty;
      } in
      (
        record fresh { regions_handler = some (set empty 0 (some rg)) },
        rw (got, (given 0).0, (given 0).1, put_region_lem fresh 0 rg refl in_handler) refl,
        record {
          holds = record {
            handler = set empty 0 (some rg);
            held = refl;
            size = length-set empty 0 (some rg) ∙ length-replicate max_rgs nothing;
            cap_pos = pos;
            used_le = some_max;
            covered = omega arith;
            region = λ j lt. record {
              rg = rg;
              elems = replicate region_capacity memory.zeroed;
              present = get_elem?-set_at empty (some rg) (omega (arith, lt)) in_handler;
              allocated = refl;
              size = length-replicate region_capacity memory.zeroed;
              now =
                  inl (refl, λ i small. get_elem?-replicate region_capacity memory.zeroed i small);
            };
          };
          counted = refl;
          total = total;
        },
        refl,
        refl,
        refl,
      )

  module _ {z : A} {arena : RegionArena A} {xs : List A} (r : Represents z arena xs) where
    pub found_place :
        (k : ℕ)
        → k < length xs
        → (pointer_to arena (k / arena.rg_capacity) (k % arena.rg_capacity)
            ≡ done (k / arena.rg_capacity, k % arena.rg_capacity))
          × (read arena (k / arena.rg_capacity, k % arena.rg_capacity) ≡ done (cell z xs k))
    unfolding pointer_to
    found_place k lt =
        let (sum, small) = div_place k arena.rg_capacity r.holds.cap_pos in
        let c = r.holds.region (k / arena.rg_capacity) (
          lt_of_mul (k / arena.rg_capacity) arena.rgs_in_use arena.rg_capacity
            (omega (arith, sum, r.holds.covered))) in
        let here : get_elem? c.elems (k % arena.rg_capacity) ≡ some (cell z xs k) = elim c.now [
          | inl p ↦ p.1 _ small ∙ ap (λ n. some (cell z xs n)) sum
          | inr p ↦ absurd (omega (arith, p.1, sum, lt))
        ] in
        (
          rw (region_of_lem r.holds _ c.present) refl,
          rw (region_of_lem r.holds _ c.present, c.allocated, load-some c.elems _ here) refl,
        )

    cap_ne' : (arena.rg_capacity == 0) ≡ false
    cap_ne' = ne→== arena.rg_capacity 0 (omega (arith, r.holds.cap_pos))

    pub r_arena_get-lt :
        (k : ℕ)
        → k < length xs
        → r_arena_get (some arena) k ≡ done (some (k / arena.rg_capacity, k % arena.rg_capacity))
    unfolding r_arena_get
    r_arena_get-lt k lt =
        rw
          (
            r.counted,
            lt→leb _ _ lt,
            ne→== (length xs) 0 (omega (arith, lt)),
            cap_ne',
            (found_place k lt).0,
          )
          refl

    pub r_arena_get-ge : (k : ℕ) → length xs ≤ k → r_arena_get (some arena) k ≡ done none
    unfolding r_arena_get
    r_arena_get-ge k le = rw (r.counted, le→leb _ _ le) refl

    pub r_arena_get_last-zero : length xs ≡ 0 → r_arena_get_last (some arena) ≡ done none
    unfolding r_arena_get_last
    r_arena_get_last-zero e = rw (r.counted, e) refl

    pub r_arena_get_last-pos :
        0 < length xs → r_arena_get_last (some arena) ≡ r_arena_get (some arena) (length xs - 1)
    unfolding r_arena_get_last r_arena_get
    r_arena_get_last-pos pos =
        rw
          (
            r.counted,
            ne→== (length xs) 0 (omega (arith, pos)),
            lt→leb (length xs - 1) (length xs) (omega (arith, pos)),
          )
          refl
