-- ===== src/LinkedList/Search.antt =====
-- data_structures/linkedlist.h: the two searches, and the freeing.
use seakcutils.Base.{
  ℕ, zero, suc, Bool, true, false, Option, none, some, [], ◌∷◌, ℤ, pos, negsuc, Run, done, ◌>>=◌,
  expect, load, ◌==◌, if◌then◌else◌, ◌&&◌,
}
use Prim.Native.Nat.{bit_or, bit_xor}
use seakcutils.LinkedList.{LinkedList}
use seakcutils.LinkedList.Heap.{Bytes, Cells, at, free_node}

-- `memcmp (a, b, n) == 0` of the C library, for `n` bytes each.
abbrev pub memcmp : Bytes → Bytes → Bool
memcmp [] [] = true
memcmp (x ∷ xs) (y ∷ ys) = x == y && memcmp xs ys
memcmp _ _ = false

-- The loop of `ll_contains`, with `left` rounds to go.
unfoldable pub contains_loop : ℕ → ℕ → Bytes → Cells → Run ℤ
contains_loop zero tail elem cells = done (pos 0)
contains_loop (suc left) tail elem cells = do
  node ← at cells tail
  value ← expect node.elem
  let rest = contains_loop left node.next elem cells
  (if memcmp value elem then done (pos 1) else rest)

unfoldable pub ll_contains : Option LinkedList → Bytes → Cells → Run ℤ
ll_contains none elem cells = done (negsuc 0)
ll_contains (some ll) elem cells = contains_loop ll.count ll.tail elem cells

-- The inner loop of `ll_contains_secure`: what is gathered in `acum` from index `i` on.
unfoldable pub gather : ℕ → ℕ → Bytes → Bytes → ℕ → Run ℕ
unfolding load
gather zero i value elem acum = done acum
gather (suc left) i value elem acum = do
  x ← load value i
  y ← load elem i
  gather left (suc i) value elem (bit_or acum (bit_xor x y))

unfoldable pub secure_loop : ℕ → ℕ → ℕ → Bytes → ℤ → Cells → Run ℤ
unfolding gather
secure_loop zero elem_size tail elem contains cells = done contains
secure_loop (suc left) elem_size tail elem contains cells = do
  node ← at cells tail
  value ← expect node.elem
  acum ← gather elem_size 0 value elem 0
  secure_loop left elem_size node.next elem (if acum == 0 then pos 1 else contains) cells

unfoldable pub ll_contains_secure : Option LinkedList → Bytes → Cells → Run ℤ
ll_contains_secure none elem cells = done (negsuc 0)
ll_contains_secure (some ll) elem cells =
    secure_loop ll.count ll.elem_size ll.tail elem (pos 0) cells

-- The loop of `ll_free`. In its last round, without a next node, `tail` stays.
unfoldable pub free_loop : ℕ → ℕ → Cells → Run Cells
free_loop zero tail cells = done cells
free_loop (suc left) tail cells = do
  node ← at cells tail
  freed ← free_node cells tail
  free_loop left (if node.next == 0 then tail else node.next) freed

unfoldable pub ll_free : Option LinkedList → Cells → Run (Option LinkedList × Cells)
ll_free none cells = done (none, cells)
ll_free (some ll) cells = do
  freed ← free_loop ll.count ll.tail cells
  done (some (record ll { count = 0 }), freed)
