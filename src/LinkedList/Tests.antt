-- ===== src/LinkedList/Tests.antt =====
-- A linked list of elements of two bytes, with an allocator that takes the address above all others.
use seakcutils.Base.{
  ℕ, suc, ◌≤◌, ◌<◌, ◌≡◌, ◌≢◌, none, some, List, [], ◌∷◌, refl, pos, negsuc, done, fault, ◌>>=◌,
  arith, true, if◌then◌else◌, ltb,
}
use seakcutils.LinkedList.{
  LinkedList, linkedlist_new, ll_push_back, ll_append, ll_pop, ll_pop_back, with_dummy, take_out,
}
use seakcutils.LinkedList.Heap.{
  LlNode, Cells, Memory, Points, find, write, malloc_node, at, fill, make_node, copy_elem, set_next,
  set_prev, free_node,
}
use seakcutils.LinkedList.Represents.{Allocates, Represents}
use seakcutils.LinkedList.Refine.{
  Op, push_front, push_back, pop_front, pop_back, len, is_empty, run, call, answers, ll_run_refines,
}
use seakcutils.LinkedList.Search.{ll_contains, ll_contains_secure}
use seakcutils.LinkedList.Secure.{ll_contains_secure-eq-ll_contains}
use seakcutils.LinkedList.Remove.{ll_remove}
use seakcutils.LinkedList.Removes.{ll_remove_first-Represents, ll_remove_inner_dangles}

-- Above all addresses.
abbrev above : Cells → ℕ
above [] = 1
above ((p, c) ∷ cells) = if ltb p (above cells) then above cells else suc p

abbrev heap : Memory
heap = record { new_node = above; new_elem = λ _. true }

above_pos : (cells : Cells) → 0 < above cells
above_pos [] = omega arith
above_pos ((p, c) ∷ cells) = ground (arith, above_pos cells)

fresh_above : (cells : Cells) (a : ℕ) → above cells ≤ a → find cells a ≡ none
fresh_above [] a h = refl
fresh_above ((p, c) ∷ cells) a h = ground (arith, fresh_above cells a)

heap-Allocates : Allocates heap
heap-Allocates = record {
  proper = λ cells e. omega (arith, e, above_pos cells);
  fresh = λ cells. fresh_above cells (above cells) (omega arith);
  stored = λ cells. refl;
}

abbrev ops : List Op
ops =
    push_back (1 ∷ 2 ∷ [])
    ∷ push_front (3 ∷ 4 ∷ [])
    ∷ push_back (5 ∷ 6 ∷ [])
    ∷ len
    ∷ pop_front
    ∷ pop_back
    ∷ pop_back
    ∷ pop_back
    ∷ is_empty
    ∷ []

ran :
    (do (ll, cells) ← linkedlist_new heap 2 []; run heap ops (some ll) cells)
    ≡ done (
        (pos 0, none)
        ∷ (pos 0, none)
        ∷ (pos 0, none)
        ∷ (pos 3, none)
        ∷ (pos 0, some (3 ∷ 4 ∷ []))
        ∷ (pos 0, some (5 ∷ 6 ∷ []))
        ∷ (pos 0, some (1 ∷ 2 ∷ []))
        ∷ (negsuc 1, none)
        ∷ (pos 1, none)
        ∷ [])
unfolding run call linkedlist_new with_dummy ll_push_back ll_append ll_pop ll_pop_back take_out
    malloc_node at fill make_node copy_elem set_next set_prev free_node write
ran = refl

ll_run_refines_example :
    (do (ll, cells) ← linkedlist_new heap 2 []; run heap ops (some ll) cells)
    ≡ done (answers ops [])
ll_run_refines_example = ll_run_refines heap-Allocates 2 [] ops (omega arith)

-- Three nodes, from the tail at 1 to the head at 3.
abbrev three_cells : Cells
three_cells =
    (1, some (record { next = 2; prev = 0; elem = some (7 ∷ []) }))
    ∷ (2, some (record { next = 3; prev = 1; elem = some (8 ∷ []) }))
    ∷ (3, some (record { next = 0; prev = 2; elem = some (9 ∷ []) }))
    ∷ []

abbrev three : LinkedList
three = record { head = 3; tail = 1; count = 3; elem_size = 1 }

node_at : {p : ℕ} {n : LlNode} → p ≢ 0 → find three_cells p ≡ some n → Points three_cells p n
node_at ne e = record { proper = ne; holds = e }

three-Represents : Represents three_cells three ((7 ∷ []) ∷ (8 ∷ []) ∷ (9 ∷ []) ∷ [])
three-Represents = record {
  nodes = (1, 7 ∷ []) ∷ (2, 8 ∷ []) ∷ (3, 9 ∷ []) ∷ [];
  held = refl;
  counted = refl;
  shape = (
    refl,
    refl,
    (
      node_at (omega arith) refl,
      (omega arith, (omega arith, tt)),
      (node_at (omega arith) refl, (omega arith, tt), (node_at (omega arith) refl, tt, tt)),
    ),
  );
}

ll_contains_secure-eq-ll_contains_example :
    (ll_contains (some three) (8 ∷ []) three_cells ≡ done (pos 1))
    × (ll_contains_secure (some three) (8 ∷ []) three_cells ≡ done (pos 1))
ll_contains_secure-eq-ll_contains_example =
    ll_contains_secure-eq-ll_contains (8 ∷ []) three-Represents refl (refl, (refl, (refl, tt)))

ll_remove_first-Represents_example :
    (ll' : LinkedList) × (cells' : Cells) × (ll_remove (some three) (7 ∷ []) three_cells
      ≡ done (pos 1, some ll', cells'))
    × Represents cells' ll' ((8 ∷ []) ∷ (9 ∷ []) ∷ [])
ll_remove_first-Represents_example =
    ll_remove_first-Represents (7 ∷ []) refl three-Represents (omega arith)

ll_remove_inner_dangles_example :
    (ll' : LinkedList) × (cells' : Cells) × (ll_remove (some three) (8 ∷ []) three_cells
      ≡ done (pos 1, some ll', cells'))
    × (ll_contains (some ll') (9 ∷ []) cells' ≡ fault)
ll_remove_inner_dangles_example =
    ll_remove_inner_dangles (8 ∷ []) refl (9 ∷ []) three-Represents (omega arith) refl refl

abbrev one_cell : Cells
one_cell = (1, some (record { next = 0; prev = 0; elem = some (7 ∷ []) })) ∷ []

abbrev one : LinkedList
one = record { head = 1; tail = 1; count = 1; elem_size = 1 }

one-Represents : Represents one_cell one ((7 ∷ []) ∷ [])
one-Represents = record {
  nodes = (1, 7 ∷ []) ∷ [];
  held = refl;
  counted = refl;
  shape = (refl, refl, (record { proper = omega arith; holds = refl }, tt, tt));
}
