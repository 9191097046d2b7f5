-- ===== src/RegionArena/Change.antt =====
-- arenas/r_arena.h: a change of one region keeps what the others hold.
use mathlib.Core.Path.{subst}
use seakcutils.Base.{
  ℕ, ◌+◌, ◌*◌, ◌≤◌, ◌<◌, ◌≡◌, ◌≢◌, inl, inr, refl, ap, sym, ◌∙◌, Option, some, List, length,
  get_elem?, replicate, set, arith, done, length-set, length-replicate, get_elem?-set_self,
  get_elem?-set_ne, store-lt, load-some, ℕ_discrete,
}
use seakcutils.RegionArena.{Region, RegionArena, region_of, put_region}
use seakcutils.RegionArena.Regions.{
  cell, cell-le, get_elem?-replicate, RegionAt, CurrentAt, Holds, mul_mono,
}

module _ {ℓ} {A : Type ℓ} {z : A} {cap epoch : ℕ} where
  pub CurrentAt-RegionAt :
      {xs : List A} {handler : List (Option (Region A))} {j : ℕ}
      → CurrentAt z cap epoch xs handler j
      → RegionAt z cap epoch xs handler j
  CurrentAt-RegionAt c = record {
    rg = c.rg;
    elems = c.elems;
    present = c.present;
    allocated = c.allocated;
    size = c.size;
    now = inl (c.at_epoch, c.filled);
  }

  -- A change of region `j` to one of the current epoch, and of the elements in that region only.
  module _ {xs ys : List A} {handler handler' : List (Option (Region A))} (j : ℕ)
      (other : (k : ℕ) → j ≢ k → get_elem? handler' k ≡ get_elem? handler k)
      (alike : (k i : ℕ) → j ≢ k → i < cap → cell z ys (k * cap + i) ≡ cell z xs (k * cap + i))
      (behind : (k : ℕ) → j ≢ k → length xs ≤ k * cap → length ys ≤ k * cap) where
    pub keep-RegionAt :
        (k : ℕ) → j ≢ k → RegionAt z cap epoch xs handler k → RegionAt z cap epoch ys handler' k
    keep-RegionAt k ne r = record {
      rg = r.rg;
      elems = r.elems;
      present = other k ne ∙ r.present;
      allocated = r.allocated;
      size = r.size;
      now = elim r.now [
        | inl p ↦ inl (p.0, λ i h. p.1 i h ∙ ap some (sym (alike k i ne h)))
        | inr p ↦ inr (p.0, behind k ne p.1)
      ];
    }

    pub change-RegionAt :
        (k : ℕ)
        → CurrentAt z cap epoch ys handler' j
        → (j ≢ k → RegionAt z cap epoch xs handler k)
        → RegionAt z cap epoch ys handler' k
    change-RegionAt k c r = elim (ℕ_discrete j k) [
      | yes e ↦ subst (RegionAt z cap epoch ys handler') e (CurrentAt-RegionAt c)
      | no ne ↦ keep-RegionAt k ne (r ne)
    ]

pub put_region_lem {ℓ} :
    {A : Type ℓ} (arena : RegionArena A) {handler : List (Option (Region A))} (j : ℕ)
    (rg : Region A)
    → arena.regions_handler ≡ some handler
    → j < length handler
    → put_region arena j rg
      ≡ done (record arena { regions_handler = some (set handler j (some rg)) })
unfolding put_region
put_region_lem arena {handler} j rg held lt = simp (held, store-lt handler j (some rg) lt)

module _ {ℓ} {A : Type ℓ} {z : A} {arena : RegionArena A} {xs : List A} (h : Holds z arena xs) where
  pub recount-Holds : (n : ℕ) → Holds z (record arena { count = n }) xs
  recount-Holds n = record {
    handler = h.handler;
    held = h.held;
    size = h.size;
    cap_pos = h.cap_pos;
    used_le = h.used_le;
    covered = h.covered;
    region = h.region;
  }

  pub region_of_lem :
      (j : ℕ) {rg : Region A} → get_elem? h.handler j ≡ some (some rg) → region_of arena j ≡ done rg
  unfolding region_of
  region_of_lem j e = simp (h.held, load-some h.handler j e)

  -- A zeroed region put at `j`, behind all elements.
  module _ (j used : ℕ) (lt : j < arena.max_rgs) (behind : length xs ≤ j * arena.rg_capacity)
      (in_use : j < used) (more : arena.rgs_in_use ≤ used) (at_most : used ≤ arena.max_rgs)
      (others : (k : ℕ) → k < used → j ≢ k → k < arena.rgs_in_use) where
    abbrev pub zeroed_region : Region A
    zeroed_region = record {
      data_elems = some (replicate arena.rg_capacity z);
      epoch = arena.current_epoch;
    }

    abbrev pub put_handler : List (Option (Region A))
    put_handler = set h.handler j (some zeroed_region)

    put-CurrentAt : CurrentAt z arena.rg_capacity arena.current_epoch xs put_handler j
    put-CurrentAt = record {
      rg = zeroed_region;
      elems = replicate arena.rg_capacity z;
      present = get_elem?-set_self h.handler j (some zeroed_region) (omega (arith, h.size));
      allocated = refl;
      size = length-replicate arena.rg_capacity z;
      at_epoch = refl;
      filled = λ i small.
          get_elem?-replicate arena.rg_capacity z i small
          ∙ ap some (sym (cell-le z xs (j * arena.rg_capacity + i) (omega (arith, behind))));
    }

    pub put-Holds :
        (holds : Holds z
          (record arena { rgs_in_use = used; regions_handler = some put_handler })
          xs)
        × CurrentAt z arena.rg_capacity arena.current_epoch xs holds.handler j
    put-Holds = (
      record {
        handler = put_handler;
        held = refl;
        size = length-set h.handler j (some zeroed_region) ∙ h.size;
        cap_pos = h.cap_pos;
        used_le = at_most;
        covered = omega (arith, h.covered, mul_mono arena.rgs_in_use used arena.rg_capacity more);
        region = λ k small.
            change-RegionAt j (λ k' ne. get_elem?-set_ne h.handler (some zeroed_region) ne)
              (λ k' i ne lt'. refl) (λ k' ne le. le) k put-CurrentAt
              (λ ne. h.region k (others k small ne));
      },
      put-CurrentAt,
    )
