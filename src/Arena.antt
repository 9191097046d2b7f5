-- ===== src/Arena.antt =====
-- arenas/arena.h: a growable array of elements of one size.
-- The functions run one at a time here. A pointer into `data` is the number of elements before it.
pub mod Represents
pub mod Add
pub mod Alloc
mod Tests
use seakcutils.Base.{
  zero, suc, ◌^◌, ◌%◌, ◌&&◌, ℕ, ◌+◌, ◌-◌, ◌*◌, ◌/◌, ◌||◌, Bool, true, false, Option, none, some,
  List, Run, done, fault, ◌>>=◌, load, store, expect, add_size, sub_size, mul_size, ◌==◌, ltb, leb,
  if◌then◌else◌,
}

pub data AllocationPreference : Type 0 where
  dynamic : AllocationPreference
  fixed : AllocationPreference

abbrev pub is_fixed : AllocationPreference → Bool
is_fixed dynamic = false
is_fixed fixed = true

-- `Arena`. `bytes` is the field `data`: NULL or the storage of the elements.
pub record Arena {ℓ} (A : Type ℓ) : Type ℓ where
  pub bytes : Option (List A)
  pub elem_size : ℕ
  pub count : ℕ
  pub capacity : ℕ
  pub preference : AllocationPreference

-- What the C library gives: `malloc` and `realloc` take a number of bytes, and `zeroed` is the
-- element whose bytes are all zero.
pub record Memory {ℓ} (A : Type ℓ) : Type ℓ where
  pub malloc : ℕ → Option (List A)
  pub realloc : Option (List A) → ℕ → Option (List A)
  pub zeroed : A

-- The multiple of `unit` that is nearest to `n`, and the even one of two.
abbrev pub nearest : ℕ → ℕ → ℕ
nearest unit n =
    let below = n / unit in
    let rest = n % unit * 2 in
    if ltb rest unit || (rest == unit && below % 2 == 0) then below * unit else (below + 1) * unit

-- The `double` nearest to `n`, which has 53 binary digits, with `left` units to try from `unit` on.
unfoldable pub rounded : ℕ → ℕ → ℕ → ℕ
rounded zero unit n = n
rounded (suc left) unit n =
    let more = rounded left (unit * 2) n in if ltb n (2 ^ 53 * unit) then nearest unit n else more

-- Enough units for the numbers below 2 ^ 66.
abbrev pub to_double : ℕ → ℕ
to_double n = rounded 14 1 n

-- `capacity * 1.5`: the capacity as a `double`, its product as a `double`, twice as large here, and
-- what is behind the point cut off.
abbrev pub grown : ℕ → ℕ
grown capacity = to_double (to_double capacity * 3) / 2

module _ {ℓ} {A : Type ℓ} (memory : Memory A) where
  open memory use {malloc, realloc, zeroed}

  unfoldable pub arena_create : ℕ → ℕ → AllocationPreference → Arena A
  arena_create elem_size starting_capacity preference =
      let capacity = if starting_capacity == 0 then 8 else starting_capacity in
      record {
        bytes = malloc (mul_size capacity elem_size);
        elem_size = elem_size;
        count = 0;
        capacity = capacity;
        preference = preference;
      }

  -- `memcpy` of one element to place `i` of `data`, which faults at NULL.
  abbrev pub write_elem : Arena A → ℕ → A → Run (Arena A)
  write_elem a i v = do
    buf ← expect a.bytes
    buf' ← store buf i v
    done (record a { bytes = some buf' })

  abbrev pub append_elem : Arena A → A → Run (ℕ × Option (Arena A))
  append_elem a v = do
    a' ← write_elem (record a { count = add_size a.count 1 }) a.count v
    done (0, some a')

  -- The status, and the arena as it is left.
  unfoldable pub arena_add : Option (Arena A) → A → Run (ℕ × Option (Arena A))
  arena_add none v = done (1, none)
  arena_add (some a) v =
      if a.count == a.capacity
      then (if is_fixed a.preference
          then done (2, some a)
          else let new_cap = grown a.capacity in
            if leb (2 ^ 64) new_cap
            then fault
            else elim (realloc a.bytes (mul_size new_cap a.elem_size)) [
              | none ↦ done (3, some a)
              | some tmp ↦ append_elem (record a { bytes = some tmp; capacity = new_cap }) v
            ])
      else append_elem a v

  unfoldable pub arena_reset : Arena A → Arena A
  arena_reset a = record a { count = 0 }

  -- The pointer, NULL as `none`, and the arena as it is left.
  unfoldable pub arena_alloc : Option (Arena A) → Run (Option ℕ × Option (Arena A))
  unfolding arena_reset
  arena_alloc none = done (none, none)
  arena_alloc (some a) =
      let index = a.count in
      let taken = record a { count = add_size a.count 1 } in
      if leb a.capacity index
      then (do
        a' ← write_elem (arena_reset (record taken { count = sub_size taken.count 1 })) 0 zeroed
        done (some 0, some a'))
      else (do a' ← write_elem taken index zeroed; done (some index, some a'))

  unfoldable pub arena_free : Option (Arena A) → Option (Arena A)
  arena_free none = none
  arena_free (some a) = some (record a { bytes = none; count = 0; capacity = 0 })

module _ {ℓ} {A : Type ℓ} where
  unfoldable pub arena_get : Option (Arena A) → ℕ → Option ℕ
  arena_get none i = none
  arena_get (some a) i = if leb a.count i || (a.count == 0) then none else some i

  unfoldable pub arena_get_last : Option (Arena A) → Option ℕ
  arena_get_last none = none
  arena_get_last (some a) = if a.count == 0 then none else some (a.count - 1)

  -- The option in the middle is what is written through `out`.
  unfoldable pub arena_pop : Option (Arena A) → Run (ℕ × Option A × Option (Arena A))
  arena_pop none = done (0, none, none)
  arena_pop (some a) = if a.count == 0 then done (0, none, some a) else do
    let index = a.count - 1
    buf ← expect a.bytes
    out ← load buf index
    done (1, some out, some (record a { count = sub_size a.count 1 }))
