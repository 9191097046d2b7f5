-- ===== src/LinkedList/Remove.antt =====
-- data_structures/linkedlist.h: `ll_remove`.
use seakcutils.Base.{
  ℕ, zero, suc, Option, none, some, ℤ, pos, negsuc, Run, done, ◌>>=◌, expect, sub_size, ◌==◌,
  if◌then◌else◌,
}
use seakcutils.LinkedList.{LinkedList}
use seakcutils.LinkedList.Heap.{Bytes, LlNode, Cells, at, set_next, set_prev, free_node}
use seakcutils.LinkedList.Search.{memcmp}

-- The links around the node at `tail`. A node with two neighbours is left where it is.
unfoldable pub unlink : LinkedList → LlNode → Cells → Run (LinkedList × Cells)
unlink ll node cells =
    if node.next == 0
    then (if node.prev == 0
        then (do
          cells' ← set_next cells node.prev node.next
          cells'' ← set_prev cells' node.next node.prev
          done (ll, cells''))
        else do cells' ← set_next cells node.prev 0; done (record ll { head = node.prev }, cells'))
    else if node.prev == 0
    then (do cells' ← set_prev cells node.next 0; done (record ll { tail = node.next }, cells'))
    else done (ll, cells)

-- The loop, with `left` rounds to go.
unfoldable pub remove_loop : ℕ → ℕ → Bytes → LinkedList → Cells → Run (ℤ × LinkedList × Cells)
remove_loop zero tail elem ll cells = done (pos 0, ll, cells)
remove_loop (suc left) tail elem ll cells = do
  node ← at cells tail
  value ← expect node.elem
  let rest = remove_loop left node.next elem ll cells
  let removed : Run (ℤ × LinkedList × Cells) = do
    (ll', cells') ← unlink ll node cells
    freed ← free_node cells' tail
    done (pos 1, record ll' { count = sub_size ll'.count 1 }, freed)
  (if memcmp value elem then removed else rest)

unfoldable pub ll_remove : Option LinkedList → Bytes → Cells → Run (ℤ × Option LinkedList × Cells)
ll_remove none elem cells = done (negsuc 0, none, cells)
ll_remove (some ll) elem cells = if ll.count == 0 then done (negsuc 0, some ll, cells) else do
  (code, ll', cells') ← remove_loop ll.count ll.tail elem ll cells
  done (code, some ll', cells')
