-- ===== src/LinkedList/Refine.antt =====
-- data_structures/linkedlist.h: a linked list answers every sequence of calls as the list from its
-- tail to its head.
use seakcutils.Deque.Spec
use seakcutils.Base.{
  ℕ, ◌+◌, ◌^◌, ◌<◌, ◌≡◌, Option, none, some, List, [], ◌∷◌, ◌++◌, refl, sym, ◌∙◌, ap, ℤ, pos,
  negsuc, Run, done, ◌>>=◌, length, arith, ne→==, eq→==, true, false, ◌==◌, ◌*◌, length-append,
}
use seakcutils.LinkedList.{
  LinkedList, ll_push_back, ll_push_front, ll_pop_front, ll_pop_back, ll_pop, ll_len, ll_is_empty,
  linkedlist_new,
}
use seakcutils.LinkedList.Heap.{Bytes, Cells, Memory}
use seakcutils.LinkedList.Chain.{Nodes, values, length-values}
use seakcutils.LinkedList.Represents.{Allocates, Represents, Shape, linkedlist_new-Represents}
use seakcutils.LinkedList.Push.{ll_push_back-Represents, ll_append-Represents}
use seakcutils.LinkedList.Pop.{ll_pop-Represents, ll_pop_back-Represents}

pub data Op : Type 0 where
  push_front : Bytes → Op
  push_back : Bytes → Op
  pop_front : Op
  pop_back : Op
  len : Op
  is_empty : Op

-- One call of the C functions: the number returned, what went through `out`, and the list left.
unfoldable pub call :
    Memory → Op → Option LinkedList → Cells → Run (ℤ × Option Bytes × Option LinkedList × Cells)
call memory (push_front v) ll cells = do
  (s, ll', cells') ← ll_push_front memory ll v cells
  done (s, none, ll', cells')
call memory (push_back v) ll cells = do
  (s, ll', cells') ← ll_push_back memory ll v cells
  done (s, none, ll', cells')
call memory pop_front ll cells = do
  (s, out, ll', cells') ← ll_pop_front memory ll cells
  done (s, out, some ll', cells')
call memory pop_back ll cells = do
  (s, out, ll', cells') ← ll_pop_back memory ll cells
  done (s, out, some ll', cells')
call memory len ll cells = done (pos (ll_len ll), none, ll, cells)
call memory is_empty ll cells = done (ll_is_empty ll, none, ll, cells)

unfoldable pub run : Memory → List Op → Option LinkedList → Cells → Run (List (ℤ × Option Bytes))
run memory [] ll cells = done []
run memory (op ∷ ops) ll cells = do
  (s, out, ll', cells') ← call memory op ll cells
  rest ← run memory ops ll' cells'
  done ((s, out) ∷ rest)

-- The same call of the list.
unfoldable pub answer : Op → List Bytes → ℤ × Option Bytes × List Bytes
answer (push_front v) xs = (pos 0, none, xs ++ v ∷ [])
answer (push_back v) xs = (pos 0, none, v ∷ xs)
answer pop_front [] = (negsuc 1, none, [])
answer pop_front (x ∷ xs) = (pos 0, some (Spec.last x xs), Spec.but_last x xs)
answer pop_back [] = (negsuc 1, none, [])
answer pop_back (x ∷ xs) = (pos 0, some x, xs)
answer len xs = (pos (length xs), none, xs)
answer is_empty [] = (pos 1, none, [])
answer is_empty (x ∷ xs) = (pos 0, none, x ∷ xs)

unfoldable pub answers : List Op → List Bytes → List (ℤ × Option Bytes)
unfolding answer
answers [] xs = []
answers (op ∷ ops) xs = let (s, out, ys) = answer op xs in (s, out) ∷ answers ops ys

module _ {memory : Memory} (law : Allocates memory) where
  empty_pops :
      {cells : Cells} {ll : LinkedList}
      → Represents cells ll []
      → (ll_pop memory (some ll) cells ≡ done (negsuc 1, none, ll, cells))
        × (ll_pop_back memory (some ll) cells ≡ done (negsuc 1, none, ll, cells))
  unfolding ll_pop ll_pop_back
  empty_pops {cells} {ll} r = by_nodes r.nodes r.held r.counted r.shape
    where
      by_nodes :
          (ns : Nodes)
          → values ns ≡ []
          → ll.count ≡ length ns
          → Shape cells ll.head ll.tail ns
          → (ll_pop memory (some ll) cells ≡ done (negsuc 1, none, ll, cells))
            × (ll_pop_back memory (some ll) cells ≡ done (negsuc 1, none, ll, cells))
      by_nodes [] held count shape =
          let tail : (ll.tail == 0) ≡ false = ne→== ll.tail 0 shape.1.proper in
          let head : (ll.head == 0) ≡ false =
            ne→== ll.head 0 (λ e. shape.1.proper (sym shape.0 ∙ e)) in
          let zero_count : (ll.count == 0) ≡ true = eq→== ll.count 0 count in
          (simp (head, zero_count), simp (tail, zero_count))
      by_nodes ((p, v) ∷ ns) held count shape = absurd (cc)

  -- What one call gives.
  Answers : Op → Option LinkedList → Cells → List Bytes → Type 0
  Answers op ll cells xs =
      let (s, out, ys) = answer op xs in
      (ll' : LinkedList) × (cells' : Cells) × (call memory op ll cells
        ≡ done (s, out, some ll', cells'))
      × Represents cells' ll' ys
      × (length ys < length xs + 2)

  count_is :
      {cells : Cells} {ll : LinkedList} {xs : List Bytes}
      → Represents cells ll xs
      → ll.count ≡ length xs
  count_is r = r.counted ∙ sym (length-values r.nodes) ∙ ap length r.held

  call-Answers :
      (op : Op) {cells : Cells} {ll : LinkedList} (xs : List Bytes)
      → Represents cells ll xs
      → length xs + 2 < 2 ^ 64
      → Answers op (some ll) cells xs
  unfolding Answers call answer
  call-Answers (push_front v) {cells} {ll} xs r small =
      let (ll', cells', runs, valid, _) = ll_append-Represents law v r small in
      (ll', cells', rw runs, valid, omega (arith, length-append xs (v ∷ [])))
  call-Answers (push_back v) xs r small =
      let (ll', cells', runs, valid, _) = ll_push_back-Represents law v r small in
      (ll', cells', rw runs, valid, omega arith)
  call-Answers pop_front {cells} {ll} [] r small = (ll, cells, rw (empty_pops r).0, r, omega arith)
  call-Answers pop_front (x ∷ xs) r small =
      let (ll', cells', runs, valid, _) = ll_pop-Represents law r (omega arith) in
      (ll', cells', rw runs, valid, omega (arith, Spec.length-but_last x xs))
  call-Answers pop_back {cells} {ll} [] r small = (ll, cells, rw (empty_pops r).1, r, omega arith)
  call-Answers pop_back (x ∷ xs) r small =
      let (ll', cells', runs, valid, _) = ll_pop_back-Represents law r (omega arith) in
      (ll', cells', rw runs, valid, omega arith)
  call-Answers len {cells} {ll} xs r small =
      (ll, cells, ap (λ n. done (pos n, none, some ll, cells)) (count_is r), r, omega arith)
  call-Answers is_empty {cells} {ll} [] r small =
      (ll, cells, rw (eq→== ll.count 0 (count_is r)), r, omega arith)
  call-Answers is_empty {cells} {ll} (x ∷ xs) r small =
      (ll, cells, rw (ne→== ll.count 0 (omega (arith, count_is r))), r, omega arith)

  run-Represents :
      (ops : List Op) {cells : Cells} {ll : LinkedList} (xs : List Bytes)
      → Represents cells ll xs
      → length xs + 2 * length ops + 2 < 2 ^ 64
      → run memory ops (some ll) cells ≡ done (answers ops xs)
  unfolding run answers Answers
  run-Represents [] xs r small = refl
  run-Represents (op ∷ ops) xs r small =
      let (ll', cells', runs, valid, grows) = call-Answers op xs r (omega arith) in
      rw (runs, run-Represents ops (answer op xs).2 valid (omega arith)) refl

  -- With a `malloc` that always gives storage that nobody has, a new linked list answers every
  -- sequence of fewer than 2 ^ 62 pushes and pops at both ends, `ll_len` and `ll_is_empty` with the
  -- numbers and the elements of the list that begins empty, without a fault.
  pub ll_run_refines :
      (elem_size : ℕ) (cells : Cells) (ops : List Op)
      → length ops < 2 ^ 62
      → (do (ll, cells') ← linkedlist_new memory elem_size cells; run memory ops (some ll) cells')
        ≡ done (answers ops [])
  ll_run_refines elem_size cells ops small =
      let (ll, cells', runs, valid, _) = linkedlist_new-Represents law elem_size cells in
      rw runs (run-Represents ops [] valid (omega arith))
