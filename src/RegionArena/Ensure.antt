-- ===== src/RegionArena/Ensure.antt =====
-- arenas/r_arena.h: `_ensure_region` gives a region of the current epoch, and keeps what the others
-- hold.
use mathlib.Core.Path.{subst}
use seakcutils.Base.{
  ℕ, suc, ◌*◌, ◌^◌, ◌≤◌, ◌<◌, ◌≡◌, ◌≢◌, inl, inr, refl, sym, true, Option, some, List, length,
  replicate, set, arith, done, eq→==, ne→==, lt→ltb, le→ltb, lt→leb, add_size, ℕ_discrete,
}
use seakcutils.RegionArena.{Region, RegionArena, Memory, new_region, ensure_region}
use seakcutils.RegionArena.Change.{region_of_lem, put_region_lem, put-Holds}
use seakcutils.RegionArena.Regions.{CurrentAt, Holds}

lt_ne : {a b : ℕ} → a < b → a ≢ b
lt_ne h e = omega (arith, h, e)

-- What `_ensure_region` gives for region `j`.
pub record Ensured {ℓ} {A : Type ℓ} (memory : Memory A) (arena : RegionArena A) (xs : List A)
    (j : ℕ) : Type ℓ where
  pub used : ℕ
  pub handler : Option (List (Option (Region A)))
  pub runs :
      ensure_region memory arena j
      ≡ done (record arena { rgs_in_use = used; regions_handler = handler })
  pub holds : Holds memory.zeroed (record arena { rgs_in_use = used; regions_handler = handler }) xs
  pub in_use : j < used
  pub ready : CurrentAt memory.zeroed arena.rg_capacity arena.current_epoch xs holds.handler j

module _ {ℓ} {A : Type ℓ} (memory : Memory A)
    (given : (j : ℕ) → (memory.malloc_region j ≡ true) × (memory.calloc_data j ≡ true))
    {arena : RegionArena A} {xs : List A} (h : Holds memory.zeroed arena xs) (j : ℕ)
    (lt : j < arena.max_rgs) (small : arena.max_rgs < 2 ^ 64) where
  abbrev zeroed_at : RegionArena A → Region A
  zeroed_at a = record {
    data_elems = some (replicate a.rg_capacity memory.zeroed);
    epoch = a.current_epoch;
  }

  next_lem : add_size j 1 ≡ suc j
  next_lem = omega arith

  ensure_old : j < arena.rgs_in_use → Ensured memory arena xs j
  unfolding ensure_region
  ensure_old old =
      let r = h.region j old in
      elim r.now [
        | inl p ↦ record {
          used = arena.rgs_in_use;
          handler = arena.regions_handler;
          runs =
              rw (lt→leb _ _ lt, lt→ltb _ _ old, region_of_lem h j r.present, eq→== _ _ p.0) refl;
          holds = h;
          in_use = old;
          ready = record {
            rg = r.rg;
            elems = r.elems;
            present = r.present;
            allocated = r.allocated;
            size = r.size;
            at_epoch = p.0;
            filled = p.1;
          };
        }
        | inr p ↦
            let (holds, ready) =
              put-Holds h j arena.rgs_in_use lt p.1 old (omega arith) h.used_le (λ k kl ne. kl) in
            record {
              used = arena.rgs_in_use;
              handler = some (set h.handler j (some (zeroed_at arena)));
              runs =
                  rw
                    (
                      lt→leb _ _ lt,
                      lt→ltb _ _ old,
                      region_of_lem h j r.present,
                      ne→== _ _ (lt_ne p.0),
                      r.allocated,
                      put_region_lem arena j (zeroed_at arena) h.held (omega (arith, lt, h.size)),
                    )
                    refl;
              holds = holds;
              in_use = old;
              ready = ready;
            }
      ]

  ensure_new : j ≡ arena.rgs_in_use → Ensured memory arena xs j
  unfolding ensure_region new_region
  ensure_new new =
      let (holds, ready) =
        put-Holds h j (suc j) lt
          (subst (λ u. length xs ≤ u * arena.rg_capacity) (sym new) h.covered) (omega arith)
          (omega (arith, new)) lt (λ k kl ne. omega (arith, kl, ne, new)) in
      record {
        used = suc j;
        handler = some (set h.handler j (some (zeroed_at arena)));
        runs =
            rw
              (
                lt→leb _ _ lt,
                le→ltb j arena.rgs_in_use (omega (arith, new)),
                (given j).0,
                (given j).1,
                next_lem,
                put_region_lem (record arena { rgs_in_use = suc j }) j (zeroed_at arena) h.held
                    (omega (arith, lt, h.size)),
              )
              refl;
        holds = holds;
        in_use = omega arith;
        ready = ready;
      }

  pub ensure_region-Ensured : j ≤ arena.rgs_in_use → Ensured memory arena xs j
  ensure_region-Ensured le = elim (ℕ_discrete j arena.rgs_in_use) [
    | yes e ↦ ensure_new e
    | no ne ↦ ensure_old (omega (arith, ne))
  ]
