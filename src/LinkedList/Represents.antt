-- ===== src/LinkedList/Represents.antt =====
-- data_structures/linkedlist.h: when a linked list on a heap stands for a list of elements, from
-- `tail` to `head`.
use seakcutils.LinkedList.Heap.{
  find, make_node, copy_elem_lem, set_next_lem, set_prev_lem, write_ne,
}
use seakcutils.Base.{
  ◌<◌, arith, ◌≡◌, ◌∙◌, some, none, ne→==, ℕ, ◌≡◌, ◌≢◌, none, some, List, [], ◌∷◌, refl, length,
  done, true,
}
use seakcutils.LinkedList.{LinkedList, linkedlist_new, with_dummy}
use seakcutils.LinkedList.Heap.{
  Bytes, LlNode, Cells, Memory, malloc_node, Points, write, fill_lem, written-Points,
}
use seakcutils.LinkedList.Chain.{first, Nodes, last, Chain, values}

-- `malloc` gives storage that nobody has.
pub record Allocates (memory : Memory) : Type 0 where
  pub proper : (cells : Cells) → memory.new_node cells ≢ 0
  pub fresh : (cells : Cells) → find cells (memory.new_node cells) ≡ none
  pub stored : (cells : Cells) → memory.new_elem cells ≡ true

-- Without elements both ends lead to a node that has none.
abbrev pub Shape : Cells → ℕ → ℕ → Nodes → Type 0
Shape cells head tail [] =
    (head ≡ tail) × Points cells tail (record { next = 0; prev = 0; elem = none })
Shape cells head tail ((p, v) ∷ ns) =
    (tail ≡ p) × (head ≡ last ns p) × Chain cells 0 ((p, v) ∷ ns) 0

pub record Represents (cells : Cells) (ll : LinkedList) (xs : List Bytes) : Type 0 where
  pub nodes : Nodes
  pub held : values nodes ≡ xs
  pub counted : ll.count ≡ length nodes
  pub shape : Shape cells ll.head ll.tail nodes

module _ {memory : Memory} (law : Allocates memory) where
  pub malloc_node_lem :
      (cells : Cells)
      → malloc_node memory cells ≡ (
        memory.new_node cells,
        write cells (memory.new_node cells) (some (record { next = 0; prev = 0; elem = none })),
      )
  unfolding malloc_node
  malloc_node_lem cells = rw (ne→== (memory.new_node cells) 0 (law.proper cells))

  pub with_dummy-Represents :
      (ll : LinkedList) (cells : Cells)
      → ll.count ≡ 0
      → (ll' : LinkedList) × (cells' : Cells) × (with_dummy memory ll cells ≡ done (ll', cells'))
        × Represents cells' ll' []
        × (ll'.elem_size ≡ ll.elem_size)
  unfolding with_dummy
  with_dummy-Represents ll cells empty = (
    record ll { head = p; tail = p },
    write given p (some blank),
    rw (malloc_node_lem cells, fill_lem (written-Points cells p blank (law.proper cells)) blank),
    record {
      nodes = [];
      held = refl;
      counted = empty;
      shape = (refl, written-Points given p blank (law.proper cells));
    },
    refl,
  )
    where
      p : ℕ
      p = memory.new_node cells

      blank : LlNode
      blank = record { next = 0; prev = 0; elem = none }

      given : Cells
      given = write cells p (some blank)

  -- `linkedlist_new` gives an empty list.
  pub linkedlist_new-Represents :
      (elem_size : ℕ) (cells : Cells)
      → (ll : LinkedList) × (cells' : Cells) × (linkedlist_new memory elem_size cells
          ≡ done (ll, cells'))
        × Represents cells' ll []
        × (ll.elem_size ≡ elem_size)
  unfolding linkedlist_new
  linkedlist_new-Represents elem_size cells =
      with_dummy-Represents (record { head = 0; tail = 0; count = 0; elem_size = elem_size }) cells
        refl

  -- A new node with an element: what its address has, and that all else is as it was.
  pub make_node_lem :
      (elem : Bytes) (next prev : ℕ) (cells : Cells)
      → (q : ℕ) × (cells' : Cells) × (make_node memory elem next prev cells ≡ done (q, cells'))
        × Points cells' q (record { next = next; prev = prev; elem = some elem })
        × ((a : ℕ) → a ≢ q → find cells' a ≡ find cells a)
        × (find cells q ≡ none)
  unfolding make_node
  make_node_lem elem next prev cells = (
    q,
    c3,
    rw (
      malloc_node_lem cells,
      copy_elem_lem p0 memory elem (law.stored c0),
      set_next_lem p1 next,
      set_prev_lem p2 prev,
    ),
    p3,
    λ a ne.
        write_ne c2 q a _ ne
        ∙ write_ne c1 q a _ ne
        ∙ write_ne c0 q a _ ne
        ∙ write_ne cells q a _ ne,
    law.fresh cells,
  )
    where
      q : ℕ
      q = memory.new_node cells

      n0 : LlNode
      n0 = record { next = 0; prev = 0; elem = none }

      n1 : LlNode
      n1 = record { next = 0; prev = 0; elem = some elem }

      n2 : LlNode
      n2 = record { next = next; prev = 0; elem = some elem }

      n3 : LlNode
      n3 = record { next = next; prev = prev; elem = some elem }

      c0 : Cells
      c0 = write cells q (some n0)

      c1 : Cells
      c1 = write c0 q (some n1)

      c2 : Cells
      c2 = write c1 q (some n2)

      c3 : Cells
      c3 = write c2 q (some n3)

      p0 : Points c0 q n0
      p0 = written-Points cells q n0 (law.proper cells)

      p1 : Points c1 q n1
      p1 = written-Points c0 q n1 (law.proper cells)

      p2 : Points c2 q n2
      p2 = written-Points c1 q n2 (law.proper cells)

      p3 : Points c3 q n3
      p3 = written-Points c2 q n3 (law.proper cells)

-- The shape of a list with elements, whichever end is looked at.
pub Shape-intro :
    (cells : Cells) (head tail : ℕ) (ns : Nodes)
    → 0 < length ns
    → tail ≡ first ns 0
    → head ≡ last ns 0
    → Chain cells 0 ns 0
    → Shape cells head tail ns
Shape-intro cells head tail [] h a b c = absurd (omega arith)
Shape-intro cells head tail ((p, v) ∷ ns) h a b c = (a, b, c)
