-- ===== src/LinkedList/Secure.antt =====
-- data_structures/linkedlist.h: both searches look for the element among those of the list.
use Prim.Native.Nat.{◌/◌, max, bit_or, bit_xor, digits, differ, bit_or-bitwise, bit_xor-bitwise}
use seakcutils.Base.{
  ℕ, zero, suc, ◌+◌, ◌%◌, ◌≡◌, ◌≤◌, ◌&&◌, ◌==◌, if◌then◌else◌, some, List, [], ◌∷◌, refl, ◌∙◌, sym,
  ap, length, done, arith, pos, ℤ, get_elem?, load-some, Bool-cases, inl, inr,
}
use mathlib.Core.Bool.{and_assoc}
use seakcutils.Stored.{Stored}
use seakcutils.LinkedList.{LinkedList}
use seakcutils.LinkedList.Heap.{Bytes, Cells, at_lem}
use seakcutils.LinkedList.Chain.{Nodes, first, Chain, values}
use seakcutils.LinkedList.Represents.{Represents, Shape}
use seakcutils.LinkedList.Search.{
  memcmp, contains_loop, ll_contains, gather, secure_loop, ll_contains_secure,
}

or_zero : (n a b : ℕ) → a ≤ n → digits (λ c. c) max n a b ≡ 0 → (a ≡ 0) × (b ≡ 0)
or_zero zero a b h e = omega arith
or_zero (suc n) zero b h e = omega arith
or_zero (suc n) (suc a) b h e =
    omega (arith, or_zero n (suc a / 2) (b / 2) (omega arith) (omega arith))

differ_zero : (x y : ℕ) → differ x y ≡ 0 → x ≡ y
differ_zero zero y e = omega arith
differ_zero (suc x) zero e = e
differ_zero (suc x) (suc y) e = ap suc (differ_zero x y e)

differ_self : (x : ℕ) → differ x x ≡ 0
differ_self zero = refl
differ_self (suc x) = differ_self x

xor_zero : (n a b : ℕ) → a ≤ n → digits (λ c. c) differ n a b ≡ 0 → a ≡ b
xor_zero zero a b h e = omega arith
xor_zero (suc n) zero b h e = omega arith
xor_zero (suc n) (suc a) b h e = omega (
  arith,
  xor_zero n (suc a / 2) (b / 2) (omega arith) (omega arith),
  differ_zero (suc a % 2) (b % 2) (omega arith),
)

xor_self : (n a : ℕ) → a ≤ n → digits (λ c. c) differ n a a ≡ 0
xor_self zero a h = omega arith
xor_self (suc n) zero h = refl
xor_self (suc n) (suc a) h =
    omega (arith, xor_self n (suc a / 2) (omega arith), differ_self (suc a % 2))

bit_or_zero : (a b : ℕ) → bit_or a b ≡ 0 → (a ≡ 0) × (b ≡ 0)
bit_or_zero a b e = or_zero a a b (omega arith) (sym (bit_or-bitwise a b) ∙ e)

bit_or_zeros : (a b : ℕ) → a ≡ 0 → b ≡ 0 → bit_or a b ≡ 0
bit_or_zeros a b e f = rw (e, f)

bit_xor_zero : (a b : ℕ) → bit_xor a b ≡ 0 → a ≡ b
bit_xor_zero a b e = xor_zero a a b (omega arith) (sym (bit_xor-bitwise a b) ∙ e)

bit_xor_eq : (a b : ℕ) → a ≡ b → bit_xor a b ≡ 0
bit_xor_eq a b e = rw (← e) (bit_xor-bitwise a a ∙ xor_self a a (omega arith))

-- Nothing is gathered exactly from equal bytes.
gathered : (acum x y : ℕ) → (bit_or acum (bit_xor x y) == 0) ≡ ((acum == 0) && (x == y))
gathered acum x y = ground (
  arith,
  bit_or_zero acum (bit_xor x y),
  bit_or_zeros acum (bit_xor x y),
  bit_xor_zero x y,
  bit_xor_eq x y,
)

-- The inner loop compares two rows of bytes as `memcmp` does.
gather_lem :
    (v e : Bytes) (i acum : ℕ) (value elem : Bytes)
    → Stored value i v
    → Stored elem i e
    → length v ≡ length e
    → (r : ℕ) × (gather (length v) i value elem acum ≡ done r)
      × ((r == 0) ≡ ((acum == 0) && memcmp v e))
unfolding gather
gather_lem [] [] i acum value elem h k same = (acum, refl, ground arith)
gather_lem [] (y ∷ e) i acum value elem h k same = absurd (omega arith)
gather_lem (x ∷ v) [] i acum value elem h k same = absurd (omega arith)
gather_lem (x ∷ v) (y ∷ e) i acum value elem h k same =
    let (r, runs, test) =
      gather_lem v e (suc i) (bit_or acum (bit_xor x y)) value elem h.1 k.1 (omega arith) in
    (
      r,
      rw (load-some value i h.0, load-some elem i k.0) runs,
      test
          ∙ ap (λ b. b && memcmp v e) (gathered acum x y)
          ∙ and_assoc (acum == 0) (x == y) (memcmp v e),
    )

Stored-intro :
    (buf : Bytes) (i : ℕ) (xs : Bytes)
    → ((k : ℕ) → get_elem? buf (i + k) ≡ get_elem? xs k)
    → Stored buf i xs
Stored-intro buf i [] h = tt
Stored-intro buf i (x ∷ xs) h = (
  ap (get_elem? buf) (omega arith) ∙ h 0,
  Stored-intro buf (suc i) xs (λ k. ap (get_elem? buf) (omega arith) ∙ h (suc k)),
)

Stored-self : (xs : Bytes) → Stored xs 0 xs
Stored-self xs = Stored-intro xs 0 xs (λ k. ap (get_elem? xs) (omega arith))

-- Whether the list has the element, as the C functions tell it.
abbrev pub found : List Bytes → Bytes → ℤ → ℤ
found [] e c = c
found (x ∷ xs) e c = if memcmp x e then pos 1 else found xs e c

abbrev pub AllSized : ℕ → List Bytes → Type 0
AllSized n [] = Unit
AllSized n (x ∷ xs) = (length x ≡ n) × AllSized n xs

contains_loop_lem :
    (cells : Cells) (before : ℕ) (ns : Nodes) (after : ℕ) (e : Bytes)
    → Chain cells before ns after
    → contains_loop (length ns) (first ns after) e cells ≡ done (found (values ns) e (pos 0))
unfolding contains_loop
contains_loop_lem cells before [] after e h = refl
contains_loop_lem cells before ((p, v) ∷ ns) after e h =
    rw (at_lem h.0) (ground (arith, contains_loop_lem cells p ns after e h.2))

found_one : (xs : List Bytes) (e : Bytes) → found xs e (pos 1) ≡ pos 1
found_one [] e = refl
found_one (x ∷ xs) e = ground (arith, found_one xs e)

secure_loop_lem :
    (cells : Cells) (before : ℕ) (ns : Nodes) (after : ℕ) (e : Bytes) (c : ℤ)
    → Chain cells before ns after
    → AllSized (length e) (values ns)
    → secure_loop (length ns) (length e) (first ns after) e c cells ≡ done (found (values ns) e c)
unfolding secure_loop
secure_loop_lem cells before [] after e c h sized = refl
secure_loop_lem cells before ((p, v) ∷ ns) after e c h sized =
    let (r, runs, test) = gather_lem v e 0 0 v e (Stored-self v) (Stored-self e) sized.0 in
    let gathers : gather (length e) 0 v e 0 ≡ done r =
      ap (λ n. gather n 0 v e 0) (sym sized.0) ∙ runs in
    rw (at_lem h.0, gathers, test)
      (elim (Bool-cases (memcmp v e)) [
        | inl same ↦ rw same (
            secure_loop_lem cells p ns after e (pos 1) h.2 sized.1
            ∙ ap done (found_one (values ns) e))
        | inr other ↦ rw other (secure_loop_lem cells p ns after e c h.2 sized.1)
      ])

module _ {cells : Cells} {ll : LinkedList} {xs : List Bytes} (e : Bytes)
    (r : Represents cells ll xs) (size : ll.elem_size ≡ length e)
    (sized : AllSized (length e) xs) where
  -- On a list that represents elements of as many bytes as the one looked for, `ll_contains` and
  -- `ll_contains_secure` both return 1 if it is among them and 0 if not, and touch nothing else.
  pub ll_contains_secure-eq-ll_contains :
      (ll_contains (some ll) e cells ≡ done (found xs e (pos 0)))
      × (ll_contains_secure (some ll) e cells ≡ done (found xs e (pos 0)))
  unfolding ll_contains ll_contains_secure
  ll_contains_secure-eq-ll_contains =
      rw (r.counted, size, ← r.held) (by_nodes r.nodes r.shape (rw (← r.held) at sized))
    where
      by_nodes :
          (ns : Nodes)
          → Shape cells ll.head ll.tail ns
          → AllSized (length e) (values ns)
          → (contains_loop (length ns) ll.tail e cells ≡ done (found (values ns) e (pos 0)))
            × (secure_loop (length ns) (length e) ll.tail e (pos 0) cells
                ≡ done (found (values ns) e (pos 0)))
      by_nodes [] shape all = (
        contains_loop_lem cells 0 [] ll.tail e tt,
        secure_loop_lem cells 0 [] ll.tail e (pos 0) tt tt,
      )
      by_nodes ((p, v) ∷ ns) shape all = rw shape.0 (
        contains_loop_lem cells 0 ((p, v) ∷ ns) 0 e shape.2,
        secure_loop_lem cells 0 ((p, v) ∷ ns) 0 e (pos 0) shape.2 all,
      )
