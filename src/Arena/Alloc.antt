-- ===== src/Arena/Alloc.antt =====
-- `arena_alloc`: a zeroed place for one more element, and what a full arena does.
use seakcutils.Base.{
  ℕ, ◌≤◌, ◌<◌, ◌≡◌, refl, ap, ◌∙◌, some, List, [], ◌∷◌, ◌++◌, true, false, done, arith, length, set,
  length-set, get_elem?, get_elem?-set_self, length-append, store-lt, inr, add_size, leb,
}
use seakcutils.Arena.{Arena, Memory, arena_alloc}
use seakcutils.Arena.Represents.{Represents}
use seakcutils.Stored.{Stored-set, Stored-append}

le→leb : (a b : ℕ) → a ≤ b → leb a b ≡ true
le→leb a b h = ground arith

lt→leb : (a b : ℕ) → b < a → leb a b ≡ false
lt→leb a b h = ground arith

module _ {ℓ} {A : Type ℓ} (memory : Memory A) {a : Arena A} {xs : List A}
    (r : Represents a xs) where
  open r use {buf, allocated, size, counted, room, small, row}

  -- With room, `arena_alloc` returns the place behind the last element, zeroed, which becomes the
  -- last element.
  pub arena_alloc_room :
      length xs < a.capacity
      → (a' : Arena A) × (arena_alloc memory (some a) ≡ done (some (length xs), some a'))
        × Represents a' (xs ++ memory.zeroed ∷ [])
  unfolding arena_alloc
  arena_alloc_room h = (a', runs, valid)
    where
      z : A
      z = memory.zeroed

      a' : Arena A
      a' = record a { bytes = some (set buf a.count z); count = add_size a.count 1 }

      runs : arena_alloc memory (some a) ≡ done (some (length xs), some a')
      runs =
          simp
            (
              lt→leb a.capacity a.count (omega arith),
              allocated,
              store-lt buf a.count z (omega arith),
            )
            (ap (λ i. done (some i, some a')) counted)

      valid : Represents a' (xs ++ z ∷ [])
      valid = record {
        buf = set buf a.count z;
        allocated = refl;
        size = length-set buf a.count z ∙ size;
        counted = omega (arith, length-append xs (z ∷ []));
        room = omega (arith, length-append xs (z ∷ []));
        small = small;
        row =
            Stored-append _ 0 xs (z ∷ []) (Stored-set buf 0 xs a.count z (inr (omega arith)) row) (
              ap (get_elem? (set buf a.count z)) (omega arith)
                  ∙ get_elem?-set_self buf a.count z (omega arith),
              tt,
            );
      }

  -- In a full arena, whatever its preference, `arena_alloc` drops every element and returns the first
  -- place, and leaves the count at 0 ...
  pub arena_alloc_full :
      length xs ≡ a.capacity
      → 0 < a.capacity
      → (a' : Arena A) × (arena_alloc memory (some a) ≡ done (some 0, some a'))
        × Represents a' []
        × (a'.capacity ≡ a.capacity)
  unfolding arena_alloc
  arena_alloc_full full some_room = (a', runs, valid, refl)
    where
      z : A
      z = memory.zeroed

      a' : Arena A
      a' = record a { bytes = some (set buf 0 z); count = 0 }

      runs : arena_alloc memory (some a) ≡ done (some 0, some a')
      runs =
          simp (le→leb a.capacity a.count (omega arith), allocated, store-lt buf 0 z (omega arith))

      valid : Represents a' []
      valid = record {
        buf = set buf 0 z;
        allocated = refl;
        size = length-set buf 0 z ∙ size;
        counted = refl;
        room = omega arith;
        small = small;
        row = tt;
      }

-- On an arena that represents a list as long as its positive capacity, two calls of `arena_alloc`
-- in a row return place 0 both times: two live pointers to one element.
pub arena_alloc_aliases {ℓ} :
    {A : Type ℓ} (memory : Memory A) {a : Arena A} {xs : List A}
    → Represents a xs
    → length xs ≡ a.capacity
    → 0 < a.capacity
    → (b c : Arena A) × (arena_alloc memory (some a) ≡ done (some 0, some b))
      × (arena_alloc memory (some b) ≡ done (some 0, some c))
arena_alloc_aliases memory r full some_room =
    let (b, first, valid, same) = arena_alloc_full memory r full some_room in
    let (c, second, _) = arena_alloc_room memory valid (omega arith) in (b, c, first, second)
