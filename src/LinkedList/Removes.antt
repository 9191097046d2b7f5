-- ===== src/LinkedList/Removes.antt =====
-- data_structures/linkedlist.h: where `ll_remove` removes, and where it leaves a pointer to a node
-- that it freed.
use mathlib.Core.List.{head-eq_of_cons-eq, tail-eq_of_cons-eq}
use seakcutils.Base.{
  ℕ, suc, ◌+◌, ◌^◌, ◌<◌, ◌≡◌, ◌≢◌, true, false, none, some, List, [], ◌∷◌, refl, sym, ap, pos, done,
  fault, length, arith, ne→==, sub_size,
}
use seakcutils.LinkedList.{LinkedList}
use seakcutils.LinkedList.Heap.{
  Bytes, Cells, Points, write, write_self, at, at_lem, set_next, set_prev_lem, free_node_lem,
  written-Points, write_self, write-Points,
}
use seakcutils.LinkedList.Chain.{Nodes, first, values, Chain-write, length-values}
use seakcutils.LinkedList.Represents.{Represents, Shape}
use seakcutils.LinkedList.Search.{memcmp, contains_loop, ll_contains}
use seakcutils.LinkedList.Remove.{unlink, remove_loop, ll_remove}

at_freed : (cells : Cells) (q : ℕ) → q ≢ 0 → at (write cells q none) q ≡ fault
unfolding at
at_freed cells q ne = rw (ne→== q 0 ne, write_self cells q none)

module _ {cells : Cells} {ll : LinkedList} {x : Bytes} (e : Bytes) (same : memcmp x e ≡ true) where
  -- On a list of one element, removing an element with equal bytes follows a NULL pointer.
  pub ll_remove_only_faults : Represents cells ll (x ∷ []) → ll_remove (some ll) e cells ≡ fault
  unfolding ll_remove remove_loop unlink set_next at
  ll_remove_only_faults r = by_nodes r.nodes r.held r.counted r.shape
    where
      by_nodes :
          (ns : Nodes)
          → values ns ≡ x ∷ []
          → ll.count ≡ length ns
          → Shape cells ll.head ll.tail ns
          → ll_remove (some ll) e cells ≡ fault
      by_nodes [] held count shape = absurd (cc)
      by_nodes ((p, v) ∷ []) held count shape =
          let same' : memcmp v e ≡ true = rw (head-eq_of_cons-eq held) same in
          rw (count, shape.0, ne→== p 0 shape.2.0.proper, shape.2.0.holds, same') refl
      by_nodes ((p, v) ∷ (q, w) ∷ ns) held count shape = absurd (cc)

  -- On a list of at least two and fewer than 2 ^ 64 elements, removing one with the bytes of the
  -- first one returns 1 and leaves a list that represents the others.
  pub ll_remove_first-Represents :
      {y : Bytes} {ys : List Bytes}
      → Represents cells ll (x ∷ y ∷ ys)
      → length ys + 2 < 2 ^ 64
      → (ll' : LinkedList) × (cells' : Cells) × (ll_remove (some ll) e cells
          ≡ done (pos 1, some ll', cells'))
        × Represents cells' ll' (y ∷ ys)
  unfolding ll_remove remove_loop unlink
  ll_remove_first-Represents {y} {ys} r small = by_nodes r.nodes r.held r.counted r.shape
    where
      by_nodes :
          (ns : Nodes)
          → values ns ≡ x ∷ y ∷ ys
          → ll.count ≡ length ns
          → Shape cells ll.head ll.tail ns
          → (ll' : LinkedList) × (cells' : Cells) × (ll_remove (some ll) e cells
              ≡ done (pos 1, some ll', cells'))
            × Represents cells' ll' (y ∷ ys)
      by_nodes [] held count shape = absurd (cc)
      by_nodes ((p, v) ∷ []) held count shape = absurd (cc)
      by_nodes ((p, v) ∷ (g, u) ∷ ns) held count shape =
          let same' : memcmp v e ≡ true = rw (head-eq_of_cons-eq held) same in
          let (at_p, apart, second) = shape.2 in
          let (at_g, apart', rest) = second in
          let c1 = write cells g (some (record { next = first ns 0; prev = 0; elem = some u })) in
          let at_p' : Points c1 p _ = write-Points at_p g _ (λ q. apart.0 (sym q)) in
          let left : sub_size (suc (suc (length ns))) 1 ≡ suc (length ns) =
            omega (arith, ap length held, length-values ns) in
          (
            record ll { tail = g; count = suc (length ns) },
            write c1 p none,
            rw
                (
                  count,
                  shape.0,
                  at_lem at_p,
                  same',
                  ne→== g 0 at_g.proper,
                  set_prev_lem at_g 0,
                  free_node_lem at_p',
                )
                (rw (ne→== (suc (suc (length ns))) 0 (omega arith), left) refl),
            record {
              nodes = (g, u) ∷ ns;
              held = tail-eq_of_cons-eq held;
              counted = refl;
              shape = (
                refl,
                shape.1,
                (
                  write-Points (written-Points cells g _ at_g.proper) p none apart.0,
                  apart',
                  Chain-write c1 g ns 0 p none apart.1 (Chain-write cells g ns 0 g _ apart' rest),
                ),
              );
            },
          )

  -- On a list of at least three and fewer than 2 ^ 64 elements of which the second one is the first
  -- with the bytes looked for, its node is freed and stays linked: the call returns 1, and a search
  -- for an element that is not the first one reads the freed node.
  pub ll_remove_inner_dangles :
      {a y : Bytes} {ys : List Bytes} (z : Bytes)
      → Represents cells ll (a ∷ x ∷ y ∷ ys)
      → length ys + 3 < 2 ^ 64
      → memcmp a e ≡ false
      → memcmp a z ≡ false
      → (ll' : LinkedList) × (cells' : Cells) × (ll_remove (some ll) e cells
          ≡ done (pos 1, some ll', cells'))
        × (ll_contains (some ll') z cells' ≡ fault)
  unfolding ll_remove remove_loop unlink ll_contains contains_loop
  ll_remove_inner_dangles {a} {y} {ys} z r small other other' =
      by_nodes r.nodes r.held r.counted r.shape
    where
      by_nodes :
          (ns : Nodes)
          → values ns ≡ a ∷ x ∷ y ∷ ys
          → ll.count ≡ length ns
          → Shape cells ll.head ll.tail ns
          → (ll' : LinkedList) × (cells' : Cells) × (ll_remove (some ll) e cells
              ≡ done (pos 1, some ll', cells'))
            × (ll_contains (some ll') z cells' ≡ fault)
      by_nodes [] held count shape = absurd (cc)
      by_nodes ((p, v) ∷ []) held count shape = absurd (cc)
      by_nodes ((p, v) ∷ (q, w) ∷ []) held count shape = absurd (cc)
      by_nodes ((p, v) ∷ (q, w) ∷ (g, u) ∷ ns) held count shape =
          let first_differs : memcmp v e ≡ false = rw (head-eq_of_cons-eq held) other in
          let first_differs' : memcmp v z ≡ false = rw (head-eq_of_cons-eq held) other' in
          let second_same : memcmp w e ≡ true =
            rw (head-eq_of_cons-eq (tail-eq_of_cons-eq held)) same in
          let (at_p, apart, (at_q, apart', (at_g, _, _))) = shape.2 in
          let left : sub_size (suc (suc (suc (length ns)))) 1 ≡ suc (suc (length ns)) =
            omega (arith, ap length held, length-values ns) in
          (
            record ll { count = suc (suc (length ns)) },
            write cells q none,
            rw
                (
                  count,
                  shape.0,
                  at_lem at_p,
                  first_differs,
                  at_lem at_q,
                  second_same,
                  ne→== g 0 at_g.proper,
                  ne→== p 0 at_p.proper,
                  free_node_lem at_q,
                )
                (rw (ne→== (suc (suc (suc (length ns)))) 0 (omega arith), left) refl),
            rw
                (
                  shape.0,
                  at_lem (write-Points at_p q none (λ i. apart.0 (sym i))),
                  first_differs',
                  at_freed cells q at_q.proper,
                )
                refl,
          )
