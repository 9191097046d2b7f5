-- ===== src/Arena/Represents.antt =====
-- When an arena of arenas/arena.h stands for a list, in the order of the calls of `arena_add`.
use native.Mathlib.Nat.{mul-div_cancel, mod-eq_of_lt}
use seakcutils.Base.{
  ℕ, ◌+◌, ◌-◌, ◌*◌, ◌/◌, ◌^◌, ◌≤◌, ◌<◌, ◌≡◌, refl, ap, ◌∙◌, none, some, List, [], ◌∷◌, ◌++◌, done,
  arith, length, take, ltb, get_elem?, length-append, load-some, sub_size, ◌==◌, if◌then◌else◌,
  ne→==,
}
use seakcutils.Arena.{
  Arena, Memory, AllocationPreference, arena_create, arena_pop, arena_get, arena_get_last,
  arena_reset,
}
use seakcutils.Stored.{Stored, Stored-split, take-Stored}

pub le_mul : (x k : ℕ) → 0 < k → x ≤ x * k
le_mul x k h = grind arith

module _ {ℓ} {A : Type ℓ} where
  pub record Represents (a : Arena A) (xs : List A) : Type ℓ where
    pub buf : List A
    pub allocated : a.bytes ≡ some buf
    pub size : length buf ≡ a.capacity
    pub counted : a.count ≡ length xs
    pub room : length xs ≤ a.capacity
    pub small : a.capacity < 2 ^ 64
    pub row : Stored buf 0 xs

  -- `malloc` gives as many elements as fit into the bytes asked for.
  abbrev pub Allocates : ℕ → Memory A → Type ℓ
  Allocates elem_size memory =
      (n : ℕ) (buf : List A) → memory.malloc n ≡ some buf → length buf ≡ n / elem_size

  -- A new arena is empty, and has room for eight elements where none are asked for.
  pub arena_create-Represents :
      (memory : Memory A) (elem_size cap : ℕ) (p : AllocationPreference) {buf : List A}
      → Allocates elem_size memory
      → 0 < elem_size
      → (if cap == 0 then 8 else cap) * elem_size < 2 ^ 64
      → memory.malloc ((if cap == 0 then 8 else cap) * elem_size) ≡ some buf
      → Represents (arena_create memory elem_size cap p) []
  unfolding arena_create
  arena_create-Represents memory elem_size cap p {buf} law some_size fits e = record {
    buf = buf;
    allocated = rw (mod-eq_of_lt fits) e;
    size = law _ _ e ∙ mul-div_cancel _ some_size;
    counted = refl;
    room = omega arith;
    small = omega (arith, fits, le_mul (if cap == 0 then 8 else cap) elem_size some_size);
    row = tt;
  }

  module _ {a : Arena A} {xs : List A} (r : Represents a xs) where
    open r use {buf, allocated, size, counted, room, small, row}

    -- `arena_get` points at the place of index `i` where that is an index of the list, which holds
    -- element `i` of the list, and is NULL for every other one; `arena_get_last` points at the last
    -- place, and is NULL in the empty arena.
    pub arena_get_lem :
        (i : ℕ)
        → (arena_get (some a) i ≡ (if ltb i (length xs) then some i else none))
          × (take (length xs) buf ≡ xs)
          × (arena_get_last (some a) ≡ (if length xs == 0 then none else some (length xs - 1)))
    unfolding arena_get arena_get_last
    arena_get_lem i = (ground (arith, counted), take-Stored buf xs row, rw counted)

    pub arena_reset-Represents : (memory : Memory A) → Represents (arena_reset memory a) []
    unfolding arena_reset
    arena_reset-Represents memory = record {
      buf = buf;
      allocated = allocated;
      size = size;
      counted = refl;
      room = omega arith;
      small = small;
      row = tt;
    }

  -- On an arena that represents a list with a last element, `arena_pop` returns 1 and that element
  -- and leaves an arena that represents the list without it.
  pub arena_pop-Represents :
      {a : Arena A} (xs : List A) {v : A}
      → Represents a (xs ++ v ∷ [])
      → (a' : Arena A) × (arena_pop (some a) ≡ done (1, some v, some a')) × Represents a' xs
  unfolding arena_pop
  arena_pop-Represents {a} xs {v} r = (a', runs, valid)
    where
      open r use {buf, allocated, size, counted, room, small, row}

      count : length (xs ++ v ∷ []) ≡ length xs + 1
      count = length-append xs (v ∷ [])

      a' : Arena A
      a' = record a { count = sub_size a.count 1 }

      last : get_elem? buf (a.count - 1) ≡ some v
      last = ap (get_elem? buf) (omega (arith, count)) ∙ (Stored-split buf 0 xs (v ∷ []) row).1.0

      runs : arena_pop (some a) ≡ done (1, some v, some a')
      runs =
          simp (ne→== a.count 0 (omega (arith, count)), allocated, load-some buf (a.count - 1) last)

      valid : Represents a' xs
      valid = record {
        buf = buf;
        allocated = allocated;
        size = size;
        counted = omega (arith, count);
        room = omega (arith, count);
        small = small;
        row = (Stored-split buf 0 xs (v ∷ []) row).0;
      }
