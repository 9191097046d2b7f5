-- ===== src/Stack/Freed.antt =====
-- The beginning and the end of a stack: `stack_new`, and the caller's stack after `stack_free`.
use native.Mathlib.Nat.{mul-div_cancel_left, mod-eq_of_lt}
use seakcutils.Base.{
  ℕ, ◌*◌, ◌/◌, ◌^◌, ◌<◌, ◌≡◌, ◌≢◌, refl, ◌∙◌, Option, none, some, List, [], fault, done, arith,
  length, le→ltb, ne→==, length_pos_of_ne_nil,
}
use seakcutils.Stack.{Stack, freed, err, stack_new, stack_free, stack_push, stack_pop}
use seakcutils.Stack.Refine.{lower_pos}
use seakcutils.Stack.Represents.{Represents}

module _ {ℓ} {A : Type ℓ} where
  -- `malloc` gives as many elements as fit into the bytes asked for.
  abbrev pub Allocates : ℕ → (ℕ → Option (List A)) → Type ℓ
  Allocates elem_size malloc =
      (n : ℕ) (buf : List A) → malloc n ≡ some buf → length buf ≡ n / elem_size

  -- Where `malloc` gives as many elements as fit into the bytes asked for and does not fail,
  -- elements have a positive size and the size in bytes is below 2 ^ 64, `stack_new` gives a stack
  -- that represents the empty list.
  pub stack_new-Represents :
      (malloc : ℕ → Option (List A)) (elem_size cap : ℕ) {buf : List A}
      → Allocates elem_size malloc
      → 0 < elem_size
      → elem_size * cap < 2 ^ 64
      → malloc (elem_size * cap) ≡ some buf
      → Represents (stack_new malloc elem_size cap) []
  unfolding stack_new
  stack_new-Represents malloc elem_size cap {buf} law some_size fits e = record {
    buf = buf;
    allocated = rw (mod-eq_of_lt fits, e);
    size = law _ _ e ∙ mul-div_cancel_left cap some_size;
    counted = refl;
    top = omega arith;
    row = tt;
  }

  -- Where `malloc` fails, every push and pop of the new stack returns the error.
  pub stack_new-null :
      (malloc : ℕ → Option (List A)) (elem_size cap : ℕ) (v : A)
      → malloc (elem_size * cap) ≡ none
      → elem_size * cap < 2 ^ 64
      → let s = stack_new malloc elem_size cap in
        (stack_push s v ≡ done (err, s)) × (stack_pop s ≡ done (err, none, s))
  unfolding stack_new stack_push stack_pop
  stack_new-null malloc elem_size cap v e fits =
      (rw (mod-eq_of_lt fits, e), rw (mod-eq_of_lt fits, e))

  -- After `stack_free`, which takes the stack by value, the caller's `items` dangles and is not NULL:
  -- a push that had room, and a pop of a stack that was not empty, touch freed storage.
  pub stack_free_dangles :
      {s : Stack A} {xs : List A} (v : A)
      → Represents s xs
      → length xs < s.cap
      → xs ≢ []
      → ((stack_free s).items ≡ freed)
        × (stack_push (stack_free s) v ≡ fault)
        × (stack_pop (stack_free s) ≡ fault)
  unfolding stack_free stack_push stack_pop
  stack_free_dangles {s} {xs} v r room some_elem =
      let e : stack_free s ≡ record s { items = freed } = simp (stack_free, allocated) in
      rw e (
        refl,
        simp (le→ltb s.cap s.count (omega arith), lower_pos s.sp (omega arith)),
        simp (ne→== s.count 0 (omega (arith, length_pos_of_ne_nil xs some_elem))),
      )
    where
      open r use {allocated, counted, top}
