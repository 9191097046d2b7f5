-- ===== src/StringArena.antt =====
-- arenas/string_arena.h: zero-terminated strings in one buffer, found by their offsets.
-- A character is a number, a string the list of its characters before the terminating zero. A
-- pointer into `data` is the number of characters before it. The functions run one at a time.
pub mod Represents
pub mod Add
pub mod Grow
mod Tests
use seakcutils.Base.{
  ℕ, suc, ◌+◌, ◌*◌, Option, none, some, List, [], ◌∷◌, ◌++◌, Run, done, ◌>>=◌, load, store, expect,
  length, add_size, mul_size, ◌==◌, leb, if◌then◌else◌,
}

-- `StringArena`. `chars` is the field `data`.
pub record StringArena : Type 0 where
  pub chars : Option (List ℕ)
  pub size : ℕ
  pub offsets : Option (List ℕ)
  pub count : ℕ
  pub capacity : ℕ

-- `realloc` of the C library for an array of characters and for one of `size_t`: the old storage
-- and a number of bytes give the new storage, or NULL.
pub record Memory : Type 0 where
  pub realloc_chars : Option (List ℕ) → ℕ → Option (List ℕ)
  pub realloc_offsets : Option (List ℕ) → ℕ → Option (List ℕ)

unfoldable pub arena_s_create : StringArena
arena_s_create = record { chars = none; size = 0; offsets = none; count = 0; capacity = 0 }

-- `memcpy` of a row of characters to place `i`.
unfoldable pub write_row : List ℕ → ℕ → List ℕ → Run (List ℕ)
write_row buf i [] = done buf
write_row buf i (c ∷ cs) = do buf' ← store buf i c; write_row buf' (suc i) cs

-- The first part of `arena_addS`: `none` for its early return.
unfoldable pub grow_offsets : Memory → StringArena → Option StringArena
grow_offsets memory a =
    if a.count == a.capacity
    then (let new_cap = (if a.capacity == 0 then 4 else mul_size a.capacity 2) in
        elim (memory.realloc_offsets a.offsets (mul_size new_cap 8)) [
          | none ↦ none
          | some tmp ↦ some (record a { offsets = some tmp; capacity = new_cap })
        ])
    else some a

-- The rest of it.
unfoldable pub append_string : Memory → StringArena → List ℕ → Run StringArena
unfolding write_row
append_string memory a val =
    let len = length val + 1 in
    elim (memory.realloc_chars a.chars (add_size a.size len)) [
      | none ↦ done a
      | some buf ↦ do
        offs ← expect a.offsets
        offs' ← store offs a.count a.size
        buf' ← write_row buf a.size (val ++ 0 ∷ [])
        done (record a {
          chars = some buf';
          offsets = some offs';
          size = add_size a.size len;
          count = add_size a.count 1;
        })
    ]

unfoldable pub arena_add_s : Memory → StringArena → List ℕ → Run StringArena
unfolding grow_offsets append_string
arena_add_s memory a val = elim (grow_offsets memory a) [
  | none ↦ done a
  | some b ↦ append_string memory b val
]

unfoldable pub arena_get_s : StringArena → ℕ → Run (Option ℕ)
arena_get_s a i =
    if leb a.count i
    then done none
    else do offs ← expect a.offsets; off ← load offs i; done (some off)

unfoldable pub arena_s_reset : StringArena → StringArena
arena_s_reset a = record a { size = 0; count = 0 }
