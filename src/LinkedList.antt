-- ===== src/LinkedList.antt =====
-- data_structures/linkedlist.h: a doubly linked list. `next` leads from `tail` to `head`.
-- The heap has the nodes at their addresses, and 0 is NULL. An element is the list of its
-- `elem_size` bytes; its storage belongs to its node, is filled as it is allocated, and is freed
-- with it, just before. A function may fault: through NULL, a freed node or storage not given.
pub mod Heap
pub mod Search
pub mod Remove
pub mod Chain
pub mod Represents
pub mod Push
pub mod Pop
pub mod Refine
pub mod Secure
pub mod Removes
mod Tests
use seakcutils.Base.{
  ℕ, zero, suc, Option, none, some, List, [], ◌∷◌, ℤ, pos, negsuc, Run, done, fault, ◌>>=◌, expect,
  add_size, sub_size, ◌==◌, if◌then◌else◌,
}
use seakcutils.LinkedList.Heap.{
  Bytes, LlNode, Cells, Memory, malloc_node, at, fill, copy_elem, make_node, set_next, set_prev,
  free_node,
}

pub record LinkedList : Type 0 where
  pub head : ℕ
  pub tail : ℕ
  pub count : ℕ
  pub elem_size : ℕ

-- A fresh node with no element, to which both ends lead.
unfoldable pub with_dummy : Memory → LinkedList → Cells → Run (LinkedList × Cells)
with_dummy memory ll cells = do
  let (node, given) = malloc_node memory cells
  filled ← fill given node (record { next = 0; prev = 0; elem = none })
  done (record ll { head = node; tail = node }, filled)

unfoldable pub linkedlist_new : Memory → ℕ → Cells → Run (LinkedList × Cells)
unfolding with_dummy
linkedlist_new memory elem_size cells =
    with_dummy memory (record { head = 0; tail = 0; count = 0; elem_size = elem_size }) cells

-- The list after a call, with the heap.
abbrev pub counted : LinkedList × Cells → Run (ℤ × Option LinkedList × Cells)
counted (ll, cells) = done (pos 0, some (record ll { count = add_size ll.count 1 }), cells)

unfoldable pub ll_push_back :
    Memory → Option LinkedList → Bytes → Cells → Run (ℤ × Option LinkedList × Cells)
ll_push_back memory none elem cells = done (negsuc 0, none, cells)
ll_push_back memory (some ll) elem cells = do
  last ← at cells ll.tail
  (elim last.elem [
    | none ↦ do cells' ← copy_elem memory cells ll.tail elem; counted (ll, cells')
    | some bytes ↦ do
      (node_tail, linked) ← make_node memory elem ll.tail 0 cells
      joined ← set_prev linked ll.tail node_tail
      counted (record ll { tail = node_tail }, joined)
  ])

unfoldable pub ll_append :
    Memory → Option LinkedList → Bytes → Cells → Run (ℤ × Option LinkedList × Cells)
ll_append memory none elem cells = done (negsuc 0, none, cells)
ll_append memory (some ll) elem cells = do
  first ← at cells ll.head
  (elim first.elem [
    | none ↦ do cells' ← copy_elem memory cells ll.head elem; counted (ll, cells')
    | some bytes ↦ do
      (node_head, linked) ← make_node memory elem 0 ll.head cells
      joined ← set_next linked ll.head node_head
      counted (record ll { head = node_head }, joined)
  ])

abbrev pub ll_push_front :
    Memory → Option LinkedList → Bytes → Cells → Run (ℤ × Option LinkedList × Cells)
ll_push_front = ll_append

abbrev pub ll_len : Option LinkedList → ℕ
ll_len none = 0
ll_len (some ll) = ll.count

-- The integer that the C function returns.
abbrev pub ll_is_empty : Option LinkedList → ℤ
ll_is_empty none = negsuc 0
ll_is_empty (some ll) = if ll.count == 0 then pos 1 else pos 0

-- The end of both pops: the node is read and freed, and an empty list gets a new dummy.
unfoldable pub take_out :
    Memory → LinkedList → ℕ → Cells → Run (ℤ × Option Bytes × LinkedList × Cells)
unfolding with_dummy
take_out memory ll detached cells = do
  node ← at cells detached
  out ← expect node.elem
  freed ← free_node cells detached
  let ll' = record ll { count = sub_size ll.count 1 }
  (if ll'.count == 0
      then (do (ll'', cells') ← with_dummy memory ll' freed; done (pos 0, some out, ll'', cells'))
      else done (pos 0, some out, ll', freed))

unfoldable pub ll_pop :
    Memory → Option LinkedList → Cells → Run (ℤ × Option Bytes × LinkedList × Cells)
ll_pop memory none cells = fault
ll_pop memory (some ll) cells =
    if ll.head == 0
    then done (negsuc 0, none, ll, cells)
    else if ll.count == 0
    then done (negsuc 1, none, ll, cells)
    else do
      detached_head ← at cells ll.head
      (if detached_head.prev == 0
          then take_out memory (record ll { head = 0 }) ll.head cells
          else do
            cells' ← set_next cells detached_head.prev 0
            take_out memory (record ll { head = detached_head.prev }) ll.head cells')

unfoldable pub ll_pop_back :
    Memory → Option LinkedList → Cells → Run (ℤ × Option Bytes × LinkedList × Cells)
ll_pop_back memory none cells = fault
ll_pop_back memory (some ll) cells =
    if ll.tail == 0
    then done (negsuc 0, none, ll, cells)
    else if ll.count == 0
    then done (negsuc 1, none, ll, cells)
    else do
      detached_tail ← at cells ll.tail
      (if detached_tail.next == 0
          then take_out memory (record ll { tail = 0 }) ll.tail cells
          else do
            cells' ← set_prev cells detached_tail.next 0
            take_out memory (record ll { tail = detached_tail.next }) ll.tail cells')

abbrev pub ll_pop_front :
    Memory → Option LinkedList → Cells → Run (ℤ × Option Bytes × LinkedList × Cells)
ll_pop_front = ll_pop

-- Iteration: the address of a node, `none` for NULL.
unfoldable pub ll_iterable : Option LinkedList → Option ℕ
ll_iterable none = none
ll_iterable (some ll) = if ll.tail == 0 then none else some ll.tail

unfoldable pub ll_iterable_reverse : Option LinkedList → Option ℕ
ll_iterable_reverse none = none
ll_iterable_reverse (some ll) = if ll.head == 0 then none else some ll.head

unfoldable pub ll_next : Option ℕ → Cells → Run (Option ℕ)
ll_next none cells = done none
ll_next (some node) cells = do n ← at cells node; done (if n.next == 0 then none else some n.next)

unfoldable pub ll_prev : Option ℕ → Cells → Run (Option ℕ)
ll_prev none cells = done none
ll_prev (some node) cells = do n ← at cells node; done (if n.prev == 0 then none else some n.prev)
