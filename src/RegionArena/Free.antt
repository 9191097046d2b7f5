-- ===== src/RegionArena/Free.antt =====
-- arenas/r_arena.h: `r_arena_free` frees each region once.
use seakcutils.Base.{
  [], ◌∷◌, ℕ, zero, suc, ◌+◌, ◌≤◌, ◌<◌, ◌≡◌, refl, ◌∙◌, none, some, Option, List, get_elem?, set,
  done, fault, arith, load-some, store-lt, get_elem?-set_ne, lt_of_get_elem?,
}
use seakcutils.RegionArena.{
  Region, RegionArena, Memory, region_of, free_loop, r_arena_free, r_arena_add, r_arena_alloc,
  r_arena_get, r_arena_get_last,
}
use seakcutils.RegionArena.Calls.{Represents}

-- `n` numbers from `z` on.
abbrev pub from : ℕ → ℕ → List ℕ
from z zero = []
from z (suc n) = z ∷ from (suc z) n

module _ {A : Type 0} where
  free_loop_lem :
      (left n : ℕ) (arena : RegionArena A) {handler : List (Option (Region A))}
      → arena.regions_handler ≡ some handler
      → ((k : ℕ) → n ≤ k → k < n + left → (rg : Region A) × (get_elem? handler k ≡ some (some rg)))
      → (handler' : Option (List (Option (Region A)))) × (free_loop left n arena
          ≡ done (record arena { regions_handler = handler' }, from n left))
  unfolding free_loop region_of
  free_loop_lem zero n arena held there = (arena.regions_handler, refl)
  free_loop_lem (suc left) n arena {handler} held there =
      let (rg, here) = there n (omega arith) (omega arith) in
      let (handler', runs) =
        free_loop_lem left (suc n) (record arena { regions_handler = some (set handler n none) })
          refl
          (λ k lo hi.
            let (rg', at_k) = there k (omega arith) (omega arith) in
            (rg', get_elem?-set_ne handler none (λ e. omega (arith, e, lo)) ∙ at_k)) in
      (
        handler',
        rw
            (
              held,
              load-some handler n here,
              store-lt handler n none (lt_of_get_elem? handler n here),
              runs,
            )
            refl,
      )

  -- `r_arena_free` of an arena that represents a list gives each region in use to `free` once, from the
  -- first one to the last, without a fault, and leaves an arena without storage, on which both getters
  -- give NULL, and the next `r_arena_add` and `r_arena_alloc` fault.
  pub r_arena_free_lem :
      (memory : Memory A) {arena : RegionArena A} {xs : List A} (v : A) (i : ℕ)
      → Represents memory.zeroed arena xs
      → (arena' : RegionArena A) × (r_arena_free (some arena)
          ≡ done (some arena', from 0 arena.rgs_in_use))
        × (arena'.regions_handler ≡ none)
        × (r_arena_get (some arena') i ≡ done none)
        × (r_arena_get_last (some arena') ≡ done none)
        × (r_arena_add memory (some arena') v ≡ fault)
        × (r_arena_alloc memory (some arena') ≡ fault)
  unfolding r_arena_free r_arena_get r_arena_get_last r_arena_add r_arena_alloc
  r_arena_free_lem memory {arena} v i r =
      let (handler', runs) =
        free_loop_lem arena.rgs_in_use 0 arena r.holds.held
          (λ k lo hi. let c = r.holds.region k (omega (arith, hi)) in (c.rg, c.present)) in
      (
        record arena { regions_handler = none; count = 0; rg_capacity = 0 },
        rw runs refl,
        refl,
        ground arith,
        refl,
        refl,
        refl,
      )
