-- ===== src/RegionArena/Extend.antt =====
-- arenas/r_arena.h: one more element, at the place behind the last one.
use seakcutils.Base.{
  ℕ, suc, ◌+◌, ◌*◌, ◌/◌, ◌%◌, ◌≤◌, ◌<◌, ◌≡◌, ◌≢◌, refl, ap, sym, ◌∙◌, Option, some, List, [], ◌∷◌,
  ◌++◌, length, get_elem?, set, arith, done, length-set, get_elem?-set_self, get_elem?-set_at, inl,
  inr, get_elem?-set_ne, store-lt, ℕ_discrete, length-append,
}
use seakcutils.RegionArena.{Region, RegionArena, write_elem}
use seakcutils.RegionArena.Regions.{
  cell, cell-at, cell-snoc_eq, cell-snoc_ne, div_place, place_unique, trichotomy, Filled, CurrentAt,
  Holds, mul_mono,
}
use seakcutils.RegionArena.Change.{change-RegionAt, region_of_lem, put_region_lem}

module _ {ℓ} {A : Type ℓ} {z : A} {arena : RegionArena A} {xs : List A} (h : Holds z arena xs)
    (v : A) (in_use : length xs / arena.rg_capacity < arena.rgs_in_use) where
  abbrev cap : ℕ
  cap = arena.rg_capacity

  -- The region and the index of the place.
  abbrev j : ℕ
  j = length xs / arena.rg_capacity

  abbrev i : ℕ
  i = length xs % arena.rg_capacity

  place : (j * cap + i ≡ length xs) × (i < cap)
  place = div_place (length xs) cap h.cap_pos

  longer : length (xs ++ v ∷ []) ≡ length xs + 1
  longer = length-append xs (v ∷ [])

  alike :
      (k n : ℕ) → j ≢ k → n < cap → cell z (xs ++ v ∷ []) (k * cap + n) ≡ cell z xs (k * cap + n)
  alike k n ne lt =
      cell-snoc_ne z xs v (k * cap + n)
        (λ e. ne (sym (place_unique k j n i cap lt place.1 (e ∙ sym place.0)).0))

  behind : (k : ℕ) → j ≢ k → length xs ≤ k * cap → length (xs ++ v ∷ []) ≤ k * cap
  behind k ne le = elim (trichotomy j k) [
    | inl lt ↦ omega (arith, longer, place, mul_mono (suc j) k cap lt)
    | inr (inl e) ↦ absurd (ne e)
    | inr (inr gt) ↦ absurd (omega (arith, le, place, h.cap_pos, mul_mono (suc k) j cap gt))
  ]

  extend-Holds :
      (regions : Option (List (Option (Region A)))) (handler : List (Option (Region A)))
      → regions ≡ some handler
      → length handler ≡ arena.max_rgs
      → ((k : ℕ) → j ≢ k → get_elem? handler k ≡ get_elem? h.handler k)
      → CurrentAt z cap arena.current_epoch (xs ++ v ∷ []) handler j
      → Holds z (record arena { regions_handler = regions }) (xs ++ v ∷ [])
  extend-Holds regions handler held size other c = record {
    handler = handler;
    held = held;
    size = size;
    cap_pos = h.cap_pos;
    used_le = h.used_le;
    covered = omega (arith, longer, place, mul_mono (suc j) arena.rgs_in_use cap in_use);
    region = λ k lt. change-RegionAt j other alike behind k c (λ ne. h.region k lt);
  }

  module _ (c : CurrentAt z cap arena.current_epoch xs h.handler j) where
    abbrev written : List A
    written = set c.elems i v

    abbrev handler' : List (Option (Region A))
    handler' = set h.handler j (some (record c.rg { data_elems = some written }))

    in_handler : j < length h.handler
    in_handler = omega (arith, in_use, h.used_le, h.size)

    filled : Filled z cap (xs ++ v ∷ []) written j
    filled n lt = elim (ℕ_discrete i n) [
      | yes e ↦
          get_elem?-set_at c.elems v e (omega (arith, c.size, place))
          ∙ ap some (sym (cell-at z xs v (j * cap + n) (omega (arith, e, place))))
      | no ne ↦
          get_elem?-set_ne c.elems v ne
          ∙ c.filled n lt
          ∙ ap some (sym (cell-snoc_ne z xs v (j * cap + n) (λ e. ne (omega (arith, e, place)))))
    ]

    -- Writing the element there.
    pub write_elem-Holds :
        (write_elem arena j i v ≡ done (record arena { regions_handler = some handler' }))
        × Holds z (record arena { regions_handler = some handler' }) (xs ++ v ∷ [])
    unfolding write_elem
    write_elem-Holds = (
      rw
          (
            region_of_lem h j c.present,
            c.allocated,
            store-lt c.elems i v (omega (arith, c.size, place)),
          )
          (put_region_lem arena j (record c.rg { data_elems = some written }) h.held in_handler),
      extend-Holds (some handler') handler' refl
          (length-set h.handler j (some (record c.rg { data_elems = some written })) ∙ h.size)
          (λ k ne. get_elem?-set_ne h.handler (some (record c.rg { data_elems = some written })) ne)
          (record {
            rg = record c.rg { data_elems = some written };
            elems = written;
            present =
                get_elem?-set_self h.handler j (some (record c.rg { data_elems = some written }))
                  in_handler;
            allocated = refl;
            size = length-set c.elems i v ∙ c.size;
            at_epoch = c.at_epoch;
            filled = filled;
          }),
    )

    -- Leaving the place as it is, zeroed.
    pub zeroed-Holds : v ≡ z → Holds z arena (xs ++ v ∷ [])
    zeroed-Holds e =
        extend-Holds arena.regions_handler h.handler h.held h.size (λ k ne. refl)
          (record {
            rg = c.rg;
            elems = c.elems;
            present = c.present;
            allocated = c.allocated;
            size = c.size;
            at_epoch = c.at_epoch;
            filled = λ n lt. c.filled n lt ∙ ap some (sym (cell-snoc_eq z xs v e (j * cap + n)));
          })
