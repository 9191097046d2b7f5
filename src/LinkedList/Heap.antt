-- ===== src/LinkedList/Heap.antt =====
-- data_structures/linkedlist.h: the nodes of the lists at their addresses.
use seakcutils.Base.{
  [], ◌∷◌, sym, true, ℕ, ◌≡◌, ◌≢◌, Option, none, some, List, Run, done, fault, ◌>>=◌, expect, ◌==◌,
  if◌then◌else◌, Bool, arith, ne→==, ◌∙◌, sym, true,
}

abbrev pub Bytes : Type 0
Bytes = List ℕ

pub record LlNode : Type 0 where
  pub next : ℕ
  pub prev : ℕ
  pub elem : Option Bytes

-- What was written last at each address, the latest first.
abbrev pub Cells : Type 0
Cells = List (ℕ × Option LlNode)

abbrev pub find : Cells → ℕ → Option LlNode
find [] a = none
find ((p, c) ∷ cells) a = if a == p then c else find cells a

-- `malloc`: the address of a new node, 0 for NULL, and whether there is storage for an element.
pub record Memory : Type 0 where
  pub new_node : Cells → ℕ
  pub new_elem : Cells → Bool

unfoldable pub write : Cells → ℕ → Option LlNode → Cells
write cells p c = (p, c) ∷ cells

-- Storage for a node. Its fields are not read before they are written.
unfoldable pub malloc_node : Memory → Cells → ℕ × Cells
malloc_node memory cells =
    let p = memory.new_node cells in
    (p, if p == 0 then cells else write cells p (some (record { next = 0; prev = 0; elem = none })))

-- `*p`
unfoldable pub at : Cells → ℕ → Run LlNode
at cells p = if p == 0 then fault else expect (find cells p)

-- Assignments to all fields of a node.
unfoldable pub fill : Cells → ℕ → LlNode → Run Cells
unfolding at
fill cells p n = do _ ← at cells p; done (write cells p (some n))

unfoldable pub set_next : Cells → ℕ → ℕ → Run Cells
unfolding at
set_next cells p q = do n ← at cells p; done (write cells p (some (record n { next = q })))

unfoldable pub set_prev : Cells → ℕ → ℕ → Run Cells
unfolding at
set_prev cells p q = do n ← at cells p; done (write cells p (some (record n { prev = q })))

-- `p->elem = malloc (elem_size)` and the copy of the element to it.
unfoldable pub copy_elem : Memory → Cells → ℕ → Bytes → Run Cells
unfolding at
copy_elem memory cells p v = do
  n ← at cells p
  if memory.new_elem cells then done (write cells p (some (record n { elem = some v }))) else fault

-- A new node with an element and its links: its address and the heap.
unfoldable pub make_node : Memory → Bytes → ℕ → ℕ → Cells → Run (ℕ × Cells)
make_node memory elem next prev cells = do
  let (node, given) = malloc_node memory cells
  copied ← copy_elem memory given node elem
  linked ← set_next copied node next
  linked' ← set_prev linked node prev
  done (node, linked')

-- `free` of a node and of its element.
unfoldable pub free_node : Cells → ℕ → Run Cells
unfolding at
free_node cells p = do _ ← at cells p; done (write cells p none)

pub write_self : (cells : Cells) (p : ℕ) (c : Option LlNode) → find (write cells p c) p ≡ c
unfolding write
write_self cells p c = ground arith

pub write_ne :
    (cells : Cells) (p a : ℕ) (c : Option LlNode) → a ≢ p → find (write cells p c) a ≡ find cells a
unfolding write
write_ne cells p a c ne = ground arith

-- A pointer to a node.
pub record Points (cells : Cells) (p : ℕ) (n : LlNode) : Type 0 where
  pub proper : p ≢ 0
  pub holds : find cells p ≡ some n

module _ {cells : Cells} {p : ℕ} {n : LlNode} (h : Points cells p n) where
  pub at_lem : at cells p ≡ done n
  unfolding at
  at_lem = rw (ne→== p 0 h.proper, h.holds)

  pub fill_lem : (m : LlNode) → fill cells p m ≡ done (write cells p (some m))
  unfolding fill
  fill_lem m = rw at_lem

  pub set_next_lem :
      (q : ℕ) → set_next cells p q ≡ done (write cells p (some (record n { next = q })))
  unfolding set_next
  set_next_lem q = rw at_lem

  pub set_prev_lem :
      (q : ℕ) → set_prev cells p q ≡ done (write cells p (some (record n { prev = q })))
  unfolding set_prev
  set_prev_lem q = rw at_lem

  pub free_node_lem : free_node cells p ≡ done (write cells p none)
  unfolding free_node
  free_node_lem = rw at_lem

  pub copy_elem_lem :
      (memory : Memory) (v : Bytes)
      → memory.new_elem cells ≡ true
      → copy_elem memory cells p v ≡ done (write cells p (some (record n { elem = some v })))
  unfolding copy_elem
  copy_elem_lem memory v e = rw (at_lem, e)

  pub write-Points : (q : ℕ) (c : Option LlNode) → q ≢ p → Points (write cells q c) p n
  write-Points q c ne = record {
    proper = h.proper;
    holds = write_ne cells q p c (λ e. ne (sym e)) ∙ h.holds;
  }

pub written-Points :
    (cells : Cells) (p : ℕ) (n : LlNode) → p ≢ 0 → Points (write cells p (some n)) p n
written-Points cells p n ne = record { proper = ne; holds = write_self cells p (some n) }
