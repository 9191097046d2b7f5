-- ===== src/RegionArena/Tests.antt =====
-- An arena of two regions of two elements.
use seakcutils.Base.{
  ℕ, zero, suc, ◌*◌, ◌<◌, ◌≡◌, refl, arith, true, inl, none, some, List, [], ◌∷◌, done, fault,
  ◌>>=◌,
}
use seakcutils.RegionArena.{
  RegionArena, Memory, Region, r_arena_create, r_arena_add, r_arena_alloc, r_arena_get,
  r_arena_get_last, r_arena_free, r_arena_reset, ensure_region, new_region, put_region, region_of,
  pointer_to, write_elem,
}
use seakcutils.RegionArena.Regions.{Filled, RegionAt}
use seakcutils.RegionArena.Spec.{Op, add, alloc, get, get_last, reset, call, run, answers, read_opt}
use seakcutils.RegionArena.Refine.{r_arena_run_refines}
use seakcutils.RegionArena.Calls.{Represents}
use seakcutils.RegionArena.Free.{r_arena_free_lem}

abbrev memory : Memory ℕ
memory = record {
  calloc_handler = λ n. true;
  malloc_region = λ j. true;
  calloc_data = λ j. true;
  zeroed = 0;
}

abbrev ops : List (Op ℕ)
ops = add 7 ∷ alloc ∷ add 9 ∷ get 2 ∷ get_last ∷ get 3 ∷ reset ∷ get_last ∷ alloc ∷ get 0 ∷ []

ran :
    (do arena ← r_arena_create memory 8 2 2; run memory ops arena)
    ≡ done (
        (0, none)
        ∷ (0, some 0)
        ∷ (0, none)
        ∷ (0, some 9)
        ∷ (0, some 9)
        ∷ (0, none)
        ∷ (0, none)
        ∷ (0, none)
        ∷ (0, some 0)
        ∷ (0, some 0)
        ∷ [])
unfolding run call read_opt r_arena_create r_arena_add r_arena_alloc r_arena_get r_arena_get_last
    r_arena_reset ensure_region new_region put_region region_of pointer_to write_elem
ran = refl

r_arena_run_refines_example :
    (do arena ← r_arena_create memory 8 2 2; run memory ops arena) ≡ answers 0 (2 * 2) ops []
r_arena_run_refines_example =
    r_arena_run_refines memory (λ j. (refl, refl)) 8 2 2 ops refl (omega arith) (omega arith)
      (omega arith)

-- One element in the first region.
abbrev first_region : Region ℕ
first_region = record { data_elems = some (7 ∷ 0 ∷ []); epoch = 0 }

abbrev one : RegionArena ℕ
one = record {
  elem_size = 8;
  rg_capacity = 2;
  rgs_in_use = 1;
  count = 1;
  max_rgs = 2;
  current_epoch = 0;
  regions_handler = some (some first_region ∷ none ∷ []);
}

one-Filled : Filled {A = ℕ} 0 2 (7 ∷ []) (7 ∷ 0 ∷ []) 0
one-Filled zero lt = refl
one-Filled (suc zero) lt = refl
one-Filled (suc (suc i)) lt = absurd (omega arith)

one_region : (j : ℕ) → j < 1 → RegionAt 0 2 0 (7 ∷ []) (some first_region ∷ none ∷ []) j
one_region zero lt = record {
  rg = first_region;
  elems = 7 ∷ 0 ∷ [];
  present = refl;
  allocated = refl;
  size = refl;
  now = inl (refl, one-Filled);
}
one_region (suc j) lt = absurd (omega arith)

one-Represents : Represents 0 one (7 ∷ [])
one-Represents = record {
  holds = record {
    handler = some first_region ∷ none ∷ [];
    held = refl;
    size = refl;
    cap_pos = omega arith;
    used_le = omega arith;
    covered = omega arith;
    region = one_region;
  };
  counted = refl;
  total = omega arith;
}

r_arena_free_lem_example :
    (arena' : RegionArena ℕ) × (r_arena_free (some one) ≡ done (some arena', 0 ∷ []))
    × (arena'.regions_handler ≡ none)
    × (r_arena_get (some arena') 0 ≡ done none)
    × (r_arena_get_last (some arena') ≡ done none)
    × (r_arena_add memory (some arena') 5 ≡ fault)
    × (r_arena_alloc memory (some arena') ≡ fault)
r_arena_free_lem_example = r_arena_free_lem memory 5 0 one-Represents
