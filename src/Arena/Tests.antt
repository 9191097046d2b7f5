-- ===== src/Arena/Tests.antt =====
-- Runs of the arena at small inputs.
use mathlib.Core.Path.{subst}
use mathlib.Core.Option.{some-injective}
use seakcutils.Base.{
  ◌^◌, ◌+◌, pad, length-pad, get_elem?-pad, ℕ, ◌/◌, ◌<◌, ◌≡◌, refl, Option, none, some, List, [],
  ◌∷◌, done, arith, length, get_elem?, replicate, length-replicate, store,
}
use seakcutils.Arena.{
  rounded, grown, Arena, Memory, dynamic, fixed, arena_create, arena_add, arena_alloc,
}
use seakcutils.Arena.Represents.{Represents, arena_create-Represents}
use seakcutils.Arena.Add.{Reallocates, arena_add_room, arena_add_grows}
use seakcutils.Arena.Alloc.{arena_alloc_room, arena_alloc_aliases}

-- Elements of four bytes; `realloc` copies as much as fits and fills up with zeros.

abbrev elems : Option (List ℕ) → List ℕ
elems none = []
elems (some old) = old

abbrev zeros : Memory ℕ
zeros = record {
  malloc = λ n. some (replicate (n / 4) 0);
  realloc = λ old n. some (pad (n / 4) (elems old));
  zeroed = 0;
}

abbrev full : Arena ℕ
full = record {
  bytes = some (5 ∷ 6 ∷ []);
  elem_size = 4;
  count = 2;
  capacity = 2;
  preference = dynamic;
}

full-Represents : Represents full (5 ∷ 6 ∷ [])
full-Represents = record {
  buf = 5 ∷ 6 ∷ [];
  allocated = refl;
  size = refl;
  counted = refl;
  room = omega arith;
  small = omega arith;
  row = (refl, (refl, tt));
}

grows :
    arena_add zeros (some full) 7
    ≡ done (0, some (record full { bytes = some (5 ∷ 6 ∷ 7 ∷ []); count = 3; capacity = 3 }))
unfolding arena_add store rounded
grows = refl

-- The capacity of one element that a growth leaves at one.
abbrev one : Arena ℕ
one = record full { bytes = some (5 ∷ []); count = 1; capacity = 1 }

one-Represents : Represents one (5 ∷ [])
one-Represents = record {
  buf = 5 ∷ [];
  allocated = refl;
  size = refl;
  counted = refl;
  room = omega arith;
  small = omega arith;
  row = (refl, tt);
}

zeros_law : Reallocates zeros 4
zeros_law old n buf e =
    subst
      (λ b.
        (length b ≡ n / 4)
        × ((i : ℕ) → i < length old → i < length b → get_elem? b i ≡ get_elem? old i))
      (some-injective _ _ e)
      (
        length-pad (n / 4) old,
        λ i h k. get_elem?-pad (n / 4) old i h (omega (arith, length-pad (n / 4) old, k)),
      )

zeros_malloc : (n : ℕ) (buf : List ℕ) → zeros.malloc n ≡ some buf → length buf ≡ n / 4
zeros_malloc n buf e =
    subst (λ b. length b ≡ n / 4) (some-injective _ _ e) (length-replicate (n / 4) 0)

arena_create-Represents_example : Represents (arena_create zeros 4 0 fixed) []
arena_create-Represents_example =
    arena_create-Represents zeros 4 0 fixed zeros_malloc (omega arith) (omega arith) refl

arena_add_grows_example :
    (a' : Arena ℕ) × (arena_add zeros (some full) 7 ≡ done (0, some a'))
    × Represents a' (5 ∷ 6 ∷ 7 ∷ [])
    × (a'.capacity ≡ 3)
arena_add_grows_example =
    arena_add_grows zeros 7 full-Represents refl refl (omega arith) (omega arith) zeros_law
      (omega arith) (omega arith) refl

abbrev roomy : Arena ℕ
roomy = record full { bytes = some (5 ∷ 6 ∷ 0 ∷ []); capacity = 3 }

roomy-Represents : Represents roomy (5 ∷ 6 ∷ [])
roomy-Represents = record {
  buf = 5 ∷ 6 ∷ 0 ∷ [];
  allocated = refl;
  size = refl;
  counted = refl;
  room = omega arith;
  small = omega arith;
  row = (refl, (refl, tt));
}

arena_add_room_example :
    (a' : Arena ℕ) × (arena_add zeros (some roomy) 7 ≡ done (0, some a'))
    × Represents a' (5 ∷ 6 ∷ 7 ∷ [])
    × (a'.capacity ≡ 3)
arena_add_room_example = arena_add_room zeros 7 roomy-Represents (omega arith)

arena_alloc_room_example :
    (a' : Arena ℕ) × (arena_alloc zeros (some roomy) ≡ done (some 2, some a'))
    × Represents a' (5 ∷ 6 ∷ 0 ∷ [])
arena_alloc_room_example = arena_alloc_room zeros roomy-Represents (omega arith)

arena_alloc_aliases_example :
    (b c : Arena ℕ) × (arena_alloc zeros (some full) ≡ done (some 0, some b))
    × (arena_alloc zeros (some b) ≡ done (some 0, some c))
arena_alloc_aliases_example = arena_alloc_aliases zeros full-Represents refl (omega arith)

-- The first number that is no `double`, and what is left of one and a half times it.
grown_big : grown (2 ^ 53 + 1) ≡ 13510798882111488
unfolding rounded
grown_big = refl
