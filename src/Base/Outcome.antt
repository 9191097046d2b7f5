-- ===== src/Base/Outcome.antt =====
-- How a piece of C code ends. `fault` is undefined behaviour: an access outside the storage or
-- through NULL, a division by zero, a signed overflow. `aborted` is a call of `abort`.
use Prim.Native.Nat.{ℕ, ◌<◌, ◌≤◌}
use mathlib.Core.Path.{◌≡◌}
use mathlib.Core.List.{List}
use mathlib.Core.Option.{Option, none, some}
use seakcutils.Base.Lists.{length, get_elem?, set, get_elem?-of_le}
use seakcutils.Base.Tests.{ltb, if◌then◌else◌, lt→ltb, le→ltb}

pub data Run {ℓ} (A : Type ℓ) : Type ℓ where
  done : A → Run A
  fault : Run A
  aborted : Run A

infixl 5 ◌>>=◌
abbrev pub ◌>>=◌ {ℓ κ} : {A : Type ℓ} {B : Type κ} → Run A → (A → Run B) → Run B
done a >>= f = f a
fault >>= f = fault
aborted >>= f = aborted

module _ {ℓ} {A : Type ℓ} where
  -- `*p` for a pointer that may be NULL or dangling
  abbrev pub expect : Option A → Run A
  expect none = fault
  expect (some a) = done a

  -- A read of element `i` of an allocated array.
  unfoldable pub load : List A → ℕ → Run A
  load xs i = expect (get_elem? xs i)

  -- A write of element `i`.
  unfoldable pub store : List A → ℕ → A → Run (List A)
  store xs i v = if ltb i (length xs) then done (set xs i v) else fault

  pub load-some : (xs : List A) (i : ℕ) {a : A} → get_elem? xs i ≡ some a → load xs i ≡ done a
  unfolding load
  load-some xs i h = rw h

  pub store-lt : (xs : List A) (i : ℕ) (v : A) → i < length xs → store xs i v ≡ done (set xs i v)
  unfolding store
  store-lt xs i v h = rw (lt→ltb _ _ h)

  pub store-ge : (xs : List A) (i : ℕ) (v : A) → length xs ≤ i → store xs i v ≡ fault
  unfolding store
  store-ge xs i v h = rw (le→ltb _ _ h)

  pub load-ge : (xs : List A) (i : ℕ) → length xs ≤ i → load xs i ≡ fault
  unfolding load
  load-ge xs i h = rw (get_elem?-of_le xs i h)
