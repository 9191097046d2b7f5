-- ===== src/Stack.antt =====
-- data_structures/stack.h: a fixed array that fills from its end downwards.
-- A pointer into `items` is the number of elements before it. To move `sp` below `items`, and to
-- touch storage that is freed or outside the array, is a fault.
pub mod Represents
pub mod Refine
pub mod Freed
mod Tests
use seakcutils.Base.{
  ℕ, zero, suc, ◌+◌, ◌-◌, ◌||◌, Bool, true, false, Option, none, some, List, Run, done, fault,
  ◌>>=◌, load, store, ℤ, pos, negsuc, mul_size, ◌==◌, ltb, if◌then◌else◌,
}

-- What the field `items` points to.
pub data Items {ℓ} (A : Type ℓ) : Type ℓ where
  null : Items A
  live : List A → Items A
  freed : Items A

pub record Stack {ℓ} (A : Type ℓ) : Type ℓ where
  pub items : Items A
  pub sp : ℕ
  pub count : ℕ
  pub elem_size : ℕ
  pub cap : ℕ

abbrev pub ok : ℤ
ok = pos 0

abbrev pub err : ℤ
err = negsuc 0

-- `sp -= elem_size`
abbrev pub lower : ℕ → Run ℕ
lower zero = fault
lower (suc sp) = done sp

module _ {ℓ} {A : Type ℓ} where
  -- `malloc` is the C library's: storage for that many bytes, or NULL.
  unfoldable pub stack_new : (ℕ → Option (List A)) → ℕ → ℕ → Stack A
  stack_new malloc elem_size cap = record {
    items = elim (malloc (mul_size elem_size cap)) [ none ↦ null | some buf ↦ live buf ];
    sp = cap;
    count = 0;
    elem_size = elem_size;
    cap = cap;
  }

  unfoldable pub stack_reset : Stack A → Stack A
  stack_reset s = elim s.items [ null ↦ s | _ ↦ record s { count = 0; sp = s.cap } ]

  abbrev pub write_items : Items A → ℕ → A → Run (Items A)
  write_items null sp elem = fault
  write_items freed sp elem = fault
  write_items (live buf) sp elem = do buf' ← store buf sp elem; done (live buf')

  abbrev pub read_items : Items A → ℕ → Run A
  read_items null sp = fault
  read_items freed sp = fault
  read_items (live buf) sp = load buf sp

  abbrev pub is_null : Items A → Bool
  is_null null = true
  is_null _ = false

  unfoldable pub stack_push : Stack A → A → Run (ℤ × Stack A)
  stack_push s elem = if is_null s.items || ltb s.cap s.count then done (err, s) else do
    sp' ← lower s.sp
    items' ← write_items s.items sp' elem
    done (ok, record s { items = items'; sp = sp'; count = s.count + 1 })

  -- The option in the middle is what is written through `out`.
  unfoldable pub stack_pop : Stack A → Run (ℤ × Option A × Stack A)
  stack_pop s = if is_null s.items || (s.count == 0) then done (err, none, s) else do
    out ← read_items s.items s.sp
    done (ok, some out, record s { sp = s.sp + 1; count = s.count - 1 })

  -- The caller's stack after `stack_free (s)`: the function frees `items` and clears its own copy
  -- of the fields, for it takes the stack by value.
  unfoldable pub stack_free : Stack A → Stack A
  stack_free s = elim s.items [ null ↦ s | live _ ↦ record s { items = freed } | freed ↦ s ]
