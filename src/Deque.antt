-- ===== src/Deque.antt =====
-- data_structures/deque.h: a bounded double-ended queue over a cyclic buffer with signed running
-- indices. `head` is one past the front element, `tail` is the back element.
-- A signed overflow, a division by zero and an access outside `items` are faults.
pub mod Place
pub mod Spec
pub mod Represents
pub mod Steps
pub mod Push
pub mod Pop
pub mod Peek
pub mod Refine
mod Tests
use seakcutils.Base.{
  ℕ, suc, ◌%◌, ◌^◌, Bool, ◌&&◌, Option, none, some, List, Run, done, fault, ◌>>=◌, load, store, ℤ,
  pos, negsuc, pos_part, neg_part, sub_ℕ, neg_ℕ, eq_ℤ, fits_int64, to_size, to_int64, add_size,
  mul_size, ◌==◌, if◌then◌else◌, ◌+◌,
}

-- `Deque`, its elements as values of one type. `items` is NULL or the storage of the elements.
pub record Deque {ℓ} (A : Type ℓ) : Type ℓ where
  pub items : Option (List A)
  pub head : ℤ
  pub tail : ℤ
  pub cap : ℕ
  pub elem_size : ℕ

-- What the functions return.
abbrev pub ok : ℤ
ok = pos 0

abbrev pub err_null : ℤ
err_null = negsuc 0

-- "full" of a push and "empty" of a pop
abbrev pub err_bounds : ℤ
err_bounds = negsuc 1

-- `a + b` and `a - b` of two `int64_t`
abbrev pub add_int64 : ℤ → ℤ → Run ℤ
add_int64 a b =
    let c = sub_ℕ (pos_part a + pos_part b) (neg_part a + neg_part b) in
    if fits_int64 c then done c else fault

abbrev pub sub_int64 : ℤ → ℤ → Run ℤ
sub_int64 a b =
    let c = sub_ℕ (pos_part a + neg_part b) (neg_part a + pos_part b) in
    if fits_int64 c then done c else fault

-- `a % b` of two `int64_t`: the sign is that of `a`.
unfoldable pub rem_int64 : ℤ → ℤ → Run ℤ
rem_int64 (pos n) (pos c) = if c == 0 then fault else done (pos (n % c))
rem_int64 (negsuc n) (pos c) = if c == 0 then fault else done (neg_ℕ (suc n % c))
rem_int64 (pos n) (negsuc c) = done (pos (n % suc c))
rem_int64 (negsuc n) (negsuc c) =
    if (c == 0) && (suc n == 2 ^ 63) then fault else done (neg_ℕ (suc n % suc c))

abbrev pub from_rem : ℕ → ℤ → ℕ
from_rem cap (pos r) = to_size (pos r)
from_rem cap (negsuc r) = add_size (to_size (negsuc r)) cap

unfoldable pub wrap : ℤ → ℕ → Run ℕ
unfolding rem_int64
wrap logical_num cap = do r ← rem_int64 logical_num (to_int64 cap); done (from_rem cap r)

module _ {ℓ} {A : Type ℓ} where
  unfoldable pub deque_size : Deque A → Run ℕ
  deque_size q = do d ← sub_int64 q.head q.tail; done (to_size d)

  unfoldable pub deque_is_empty : Deque A → Bool
  deque_is_empty q = eq_ℤ q.head q.tail

  unfoldable pub deque_is_full : Deque A → Run Bool
  unfolding deque_size
  deque_is_full q = do n ← deque_size q; done (n == q.cap)

  -- `malloc` is the C library's: storage for that many bytes, or NULL.
  unfoldable pub deque_new : (ℕ → Option (List A)) → ℕ → ℕ → Deque A
  deque_new malloc elem_size cap = record {
    items = malloc (mul_size cap elem_size);
    head = pos 0;
    tail = pos 0;
    cap = cap;
    elem_size = elem_size;
  }

  -- Each function below takes `q`, NULL or a deque, and gives it back as it leaves it.
  abbrev with_items {κ} : {B : Type κ} → Option (Deque A) → B → (Deque A → List A → B) → B
  with_items none null k = null
  with_items (some q) null k = elim q.items [ none ↦ null | some items ↦ k q items ]

  unfoldable pub deque_push_front : Option (Deque A) → A → Run (ℤ × Option (Deque A))
  unfolding deque_is_full wrap
  deque_push_front p elem = with_items p (done (err_null, p)) λ q items. do
    full ← deque_is_full q
    if full then done (err_bounds, p) else do
      id ← wrap q.head q.cap
      t_id ← wrap q.tail q.cap
      items' ← store items id elem
      head' ← add_int64 q.head (pos 1)
      done (ok, some (record q { items = some items'; head = head' }))

  unfoldable pub deque_push_back : Option (Deque A) → A → Run (ℤ × Option (Deque A))
  unfolding deque_is_full wrap
  deque_push_back p elem = with_items p (done (err_null, p)) λ q items. do
    full ← deque_is_full q
    if full then done (err_bounds, p) else do
      tail' ← sub_int64 q.tail (pos 1)
      id ← wrap tail' q.cap
      items' ← store items id elem
      done (ok, some (record q { items = some items'; tail = tail' }))

  -- The option in the middle is what is written through `out`.
  unfoldable pub deque_pop_front : Option (Deque A) → Run (ℤ × Option A × Option (Deque A))
  unfolding deque_is_empty wrap
  deque_pop_front p = with_items p (done (err_null, none, p)) λ q items.
      if deque_is_empty q then done (err_bounds, none, p) else do
        head' ← sub_int64 q.head (pos 1)
        id ← wrap head' q.cap
        out ← load items id
        done (ok, some out, some (record q { head = head' }))

  -- A pointer into `items` is the index of its element, NULL is `none`.
  unfoldable pub deque_peek_front : Option (Deque A) → Run (Option ℕ)
  unfolding deque_is_empty wrap
  deque_peek_front p = with_items {B = Run (Option ℕ)} p (done none) λ q items.
      if deque_is_empty q
      then done none
      else do i ← sub_int64 q.head (pos 1); id ← wrap i q.cap; done (some id)

  unfoldable pub deque_pop_back : Option (Deque A) → Run (ℤ × Option A × Option (Deque A))
  unfolding deque_is_empty wrap
  deque_pop_back p = with_items p (done (err_null, none, p)) λ q items.
      if deque_is_empty q then done (err_bounds, none, p) else do
        id ← wrap q.tail q.cap
        out ← load items id
        tail' ← add_int64 q.tail (pos 1)
        done (ok, some out, some (record q { tail = tail' }))

  unfoldable pub deque_peek_back : Option (Deque A) → Run (Option ℕ)
  unfolding deque_is_empty wrap
  deque_peek_back p =
      with_items p (done none)
        λ q items. if deque_is_empty q then done none else do id ← wrap q.tail q.cap; done (some id)

  unfoldable pub deque_free : Deque A → Deque A
  deque_free q = elim q.items [
    | none ↦ q
    | some _ ↦ record q { items = none; tail = pos 0; head = pos 0; cap = 0 }
  ]

  unfoldable pub deque_reset : Deque A → Deque A
  deque_reset q = elim q.items [ none ↦ q | some _ ↦ record q { head = pos 0; tail = pos 0 } ]
