-- ===== src/StringArena/Grow.antt =====
-- `arenas/string_arena.h`: `arena_addS` as a whole, with room for an offset and without.
use native.Mathlib.Nat.{mod-eq_of_lt}
use seakcutils.Base.{
  ℕ, ◌+◌, ◌*◌, ◌^◌, ◌%◌, ◌≤◌, ◌<◌, ◌≡◌, refl, ◌∙◌, some, List, [], ◌∷◌, ◌++◌, done, arith, length,
  eq→==, ne→==, if◌then◌else◌, ◌==◌,
}
use seakcutils.StringArena.{StringArena, Memory, grow_offsets, arena_add_s}
use seakcutils.StringArena.Represents.{storage, Represents}
use seakcutils.StringArena.Add.{Reallocates, Laid-agree, append_string-Represents}

-- The number of offsets after the array has grown.
abbrev pub grown : ℕ → ℕ
grown cap = if cap == 0 then 4 else cap * 2

grown_lem : (cap : ℕ) → (cap < grown cap) × (grown cap ≤ cap * 2 + 4)
grown_lem cap = ground arith

grown_small : (cap : ℕ) → cap < 2 ^ 60 → grown cap < 2 ^ 61
grown_small cap h = ground arith

grow_runs :
    (memory : Memory) (a : StringArena) {tmp : List ℕ}
    → a.count ≡ a.capacity
    → a.capacity < 2 ^ 60
    → memory.realloc_offsets a.offsets (grown a.capacity * 8) ≡ some tmp
    → grow_offsets memory a ≡ some (record a { offsets = some tmp; capacity = grown a.capacity })
unfolding grow_offsets
grow_runs memory a full small e =
    let wrap : (a.capacity * 2) % 2 ^ 64 ≡ a.capacity * 2 = mod-eq_of_lt (omega arith) in
    let bytes : (grown a.capacity * 8) % 2 ^ 64 ≡ grown a.capacity * 8 =
      mod-eq_of_lt (omega (arith, grown_small a.capacity small)) in
    simp (grow_offsets, eq→== a.count a.capacity full, wrap, bytes, e)

module _ (memory : Memory) {a : StringArena} {strs : List (List ℕ)} (s : List ℕ) {buf : List ℕ}
    (r : Represents a strs) (small : a.capacity < 2 ^ 60) (fits : a.size + (length s + 1) < 2 ^ 64)
    (law : Reallocates 1 memory.realloc_chars)
    (e : memory.realloc_chars a.chars (a.size + (length s + 1)) ≡ some buf) where
  -- On an arena that represents a list of strings and has room for one more offset, with fewer than
  -- 2 ^ 60 offsets and 2 ^ 64 characters, where `realloc` of the characters keeps the old ones, gives
  -- the storage asked for and does not fail, `arena_addS` appends the string and keeps the capacity.
  pub arena_add_s_room :
      length strs < a.capacity
      → (a' : StringArena) × (arena_add_s memory a s ≡ done a')
        × Represents a' (strs ++ s ∷ [])
        × (a'.capacity ≡ a.capacity)
  unfolding arena_add_s grow_offsets
  arena_add_s_room room =
      let counted = r.counted in
      rw (arena_add_s, grow_offsets, ne→== a.count a.capacity (omega arith))
        (append_string-Represents memory s r room (omega arith) fits law e)

  -- On an arena that represents a list of strings as long as its capacity, with fewer than 2 ^ 60
  -- offsets and 2 ^ 64 characters, where `realloc` of the characters and of the offsets keeps the old
  -- ones, gives the storage asked for and does not fail, `arena_addS` appends the string, and the
  -- capacity becomes 4 from 0 and twice as large from any other.
  pub arena_add_s_grows :
      {tmp : List ℕ}
      → length strs ≡ a.capacity
      → Reallocates 8 memory.realloc_offsets
      → memory.realloc_offsets a.offsets (grown a.capacity * 8) ≡ some tmp
      → (a' : StringArena) × (arena_add_s memory a s ≡ done a')
        × Represents a' (strs ++ s ∷ [])
        × (a'.capacity ≡ grown a.capacity)
  unfolding arena_add_s
  arena_add_s_grows {tmp} full law' e' =
      rw (arena_add_s, grow_runs memory a (r.counted ∙ full) small e')
        (append_string-Represents memory s moved (omega (arith, grown_lem a.capacity))
          (omega (arith, grown_small a.capacity small)) fits law e)
    where
      enough : length tmp ≡ grown a.capacity
      enough = omega (arith, (law' a.offsets (grown a.capacity * 8) tmp e').0)

      moved : Represents (record a { offsets = some tmp; capacity = grown a.capacity }) strs
      moved = record {
        fits = r.fits;
        places = enough;
        counted = r.counted;
        room = omega (arith, grown_lem a.capacity);
        laid =
            Laid-agree (storage a.chars) (storage a.offsets) (storage a.chars) tmp 0 0 a.size strs
              (λ k lt. refl)
              (λ k lt.
                (law' a.offsets (grown a.capacity * 8) tmp e').1 k (omega (arith, r.places))
                  (omega (arith, enough, grown_lem a.capacity)))
              r.laid;
      }
