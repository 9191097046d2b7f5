-- ===== src/StringArena/Tests.antt =====
-- A string arena with the strings "hi" and "o".
use mathlib.Core.Path.{subst}
use mathlib.Core.Option.{some-injective}
use seakcutils.Base.{
  pad, length-pad, get_elem?-pad, length, get_elem?, ◌<◌, ℕ, ◌≡◌, refl, some, [], ◌∷◌, done, arith,
  store, ◌/◌, ◌>>=◌,
}
use seakcutils.StringArena.{StringArena, Memory, arena_s_create, arena_add_s}
use seakcutils.StringArena.Represents.{Represents, storage, arena_s_create-Represents}
use seakcutils.StringArena.Add.{Reallocates}
use seakcutils.StringArena.Grow.{arena_add_s_grows}

abbrev two : StringArena
two = record {
  chars = some (104 ∷ 105 ∷ 0 ∷ 111 ∷ 0 ∷ []);
  size = 5;
  offsets = some (0 ∷ 3 ∷ 9 ∷ 9 ∷ []);
  count = 2;
  capacity = 4;
}

two-Represents : Represents two ((104 ∷ 105 ∷ []) ∷ (111 ∷ []) ∷ [])
two-Represents = record {
  fits = omega arith;
  places = refl;
  counted = refl;
  room = omega arith;
  laid = (refl, (refl, (refl, (refl, tt))), (refl, (refl, (refl, tt)), refl));
}

-- Storage as large as asked for, with the old contents in front and zeros behind.
abbrev heap : Memory
heap = record {
  realloc_chars = λ old n. some (pad (n / 1) (storage old));
  realloc_offsets = λ old n. some (pad (n / 8) (storage old));
}

heap_law : (w : ℕ) → Reallocates w (λ old n. some (pad (n / w) (storage old)))
heap_law w old n buf e =
    subst
      (λ b.
        (length b ≡ n / w)
        × ((i : ℕ)
            → i < length (storage old)
            → i < length b
            → get_elem? b i ≡ get_elem? (storage old) i))
      (some-injective _ _ e)
      (
        length-pad (n / w) (storage old),
        λ i h k.
            get_elem?-pad (n / w) (storage old) i h
              (omega (arith, length-pad (n / w) (storage old))),
      )

-- Two additions to an empty arena.
adds_two :
    (do a ← arena_add_s heap arena_s_create (104 ∷ 105 ∷ []); arena_add_s heap a (111 ∷ []))
    ≡ done (record two { offsets = some (0 ∷ 3 ∷ 0 ∷ 0 ∷ []) })
unfolding arena_add_s arena_s_create store
adds_two = refl

arena_add_s_grows_example :
    (a' : StringArena) × (arena_add_s heap arena_s_create (112 ∷ []) ≡ done a')
    × Represents a' ((112 ∷ []) ∷ [])
    × (a'.capacity ≡ 4)
unfolding arena_s_create
arena_add_s_grows_example =
    arena_add_s_grows heap (112 ∷ []) arena_s_create-Represents (omega arith) (omega arith)
      (heap_law 1) refl refl (heap_law 8) refl
