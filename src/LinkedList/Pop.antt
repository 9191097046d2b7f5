-- ===== src/LinkedList/Pop.antt =====
-- data_structures/linkedlist.h: the two pops take the element at their end.
use mathlib.Core.Path.{subst}
use seakcutils.Deque.Spec
use mathlib.Core.List.{head-eq_of_cons-eq, tail-eq_of_cons-eq}
use seakcutils.Base.{
  ℕ, suc, ◌+◌, ◌%◌, ◌^◌, ◌<◌, ◌≡◌, ◌≢◌, Option, none, some, List, [], ◌∷◌, ◌++◌, refl, ◌∙◌, sym, ap,
  length, done, Run, arith, pos, ℤ, ne→==, length-append, ◌-◌,
}
use seakcutils.LinkedList.{LinkedList, ll_pop, ll_pop_back, take_out}
use seakcutils.LinkedList.Heap.{
  Bytes, LlNode, Cells, Memory, Points, write, at_lem, set_next_lem, set_prev_lem, written-Points,
  write-Points, free_node_lem,
}
use seakcutils.LinkedList.Chain.{
  unsnoc, last-append, Apart-left, Apart-right, Nodes, first, last, Chain, values, Chain-write,
  Chain-unsnoc, Chain-snoc, unsnoc, last-append, first-append, length-values,
}
use seakcutils.LinkedList.Represents.{
  Allocates, Represents, Shape, Shape-intro, with_dummy-Represents,
}

-- The result of a pop of `v`, after which the list has the elements `ys`.
abbrev pub Popped :
    LinkedList → Run (ℤ × Option Bytes × LinkedList × Cells) → Bytes → List Bytes → Type 0
Popped ll run v ys =
    (ll' : LinkedList) × (cells' : Cells) × (run ≡ done (pos 0, some v, ll', cells'))
    × Represents cells' ll' ys
    × (ll'.elem_size ≡ ll.elem_size)

module _ {memory : Memory} (law : Allocates memory) (cells : Cells) (ll : LinkedList) where
  -- The only node.
  take_last :
      (d : ℕ) (v : Bytes)
      → Points cells d (record { next = 0; prev = 0; elem = some v })
      → ll.count ≡ 1
      → Popped ll (take_out memory ll d cells) v []
  unfolding take_out
  take_last d v here one =
      let ll' = record ll { count = 0 } in
      let (ll'', c2, runs, valid, size) = with_dummy-Represents law ll' (write cells d none) refl in
      (ll'', c2, rw (at_lem here, free_node_lem here, left, runs) refl, valid, size)
    where
      left : (ll.count + 2 ^ 64 - 1) % 2 ^ 64 ≡ 0
      left = omega arith

  -- One of more nodes.
  take_inner :
      (d k : ℕ) {n : LlNode} (v : Bytes)
      → Points cells d n
      → n.elem ≡ some v
      → ll.count ≡ suc (suc k)
      → suc (suc k) < 2 ^ 64
      → take_out memory ll d cells
        ≡ done (pos 0, some v, record ll { count = suc k }, write cells d none)
  unfolding take_out
  take_inner d k v here e count small =
      rw (at_lem here, free_node_lem here, e, left, ne→== (suc k) 0 (omega arith)) refl
    where
      left : (ll.count + 2 ^ 64 - 1) % 2 ^ 64 ≡ suc k
      left = omega arith

module _ {memory : Memory} (law : Allocates memory) (cells : Cells) (ll : LinkedList) where
  pop_only :
      (v : Bytes)
      → ll.count ≡ 1
      → Chain cells 0 ((ll.head, v) ∷ []) 0
      → Popped ll (ll_pop memory (some ll) cells) v []
  unfolding ll_pop
  pop_only v one chain =
      rw (ne→== ll.head 0 chain.0.proper, ne→== ll.count 0 (omega arith), at_lem chain.0)
        (take_last law cells (record ll { head = 0 }) ll.head v chain.0 one)

  pop_more :
      (ks : Nodes) (g : ℕ) (u v : Bytes)
      → ll.count ≡ length ks + 2
      → length ks + 2 < 2 ^ 64
      → ll.tail ≡ first ks g
      → Chain cells 0 ((ks ++ (g, u) ∷ []) ++ (ll.head, v) ∷ []) 0
      → Popped ll (ll_pop memory (some ll) cells) v (values (ks ++ (g, u) ∷ []))
  unfolding ll_pop
  pop_more ks g u v count small tail chain =
      let ms = ks ++ (g, u) ∷ [] in
      let (rest, at_head, apart) = Chain-unsnoc cells 0 ms ll.head v 0 chain in
      let (rest', at_g, apart') = Chain-unsnoc cells 0 ks g u ll.head rest in
      let before : last ms 0 ≡ g = last-append ks g u 0 in
      let ne : ll.head ≢ g = (Apart-right ll.head ks ((g, u) ∷ []) apart).0 in
      let c1 = write cells g (some (record { next = 0; prev = last ks 0; elem = some u })) in
      let at_head' : Points c1 ll.head _ = write-Points at_head g _ (λ e. ne (sym e)) in
      let ll' = record ll { head = g } in
      (
        record ll' { count = suc (length ks) },
        write c1 ll.head none,
        rw
            (
              ne→== ll.head 0 at_head.proper,
              ne→== ll.count 0 (omega arith),
              at_lem at_head,
              before,
              ne→== g 0 at_g.proper,
              set_next_lem at_g 0,
            )
            (take_inner law c1 ll' ll.head (length ks) v at_head' refl (omega arith) (omega arith)),
        record {
          nodes = ms;
          held = refl;
          counted = omega (arith, length-append ks ((g, u) ∷ []));
          shape =
              Shape-intro _ g ll.tail ms (omega (arith, length-append ks ((g, u) ∷ [])))
                (tail ∙ sym (first-append ks ((g, u) ∷ []) 0)) (sym before)
                (Chain-snoc _ 0 ks g u 0
                  (Chain-write c1 0 ks g ll.head none (Apart-left ll.head ks ((g, u) ∷ []) apart)
                    (Chain-write cells 0 ks g g _ apart' rest'))
                  (write-Points (written-Points cells g _ at_g.proper) ll.head none ne) apart');
        },
        refl,
      )

  pop_back_only :
      (v : Bytes)
      → ll.count ≡ 1
      → Chain cells 0 ((ll.tail, v) ∷ []) 0
      → Popped ll (ll_pop_back memory (some ll) cells) v []
  unfolding ll_pop_back
  pop_back_only v one chain =
      rw (ne→== ll.tail 0 chain.0.proper, ne→== ll.count 0 (omega arith), at_lem chain.0)
        (take_last law cells (record ll { tail = 0 }) ll.tail v chain.0 one)

  pop_back_more :
      (g : ℕ) (u v : Bytes) (ns : Nodes)
      → ll.count ≡ length ns + 2
      → length ns + 2 < 2 ^ 64
      → ll.head ≡ last ns g
      → Chain cells 0 ((ll.tail, v) ∷ (g, u) ∷ ns) 0
      → Popped ll (ll_pop_back memory (some ll) cells) v (u ∷ values ns)
  unfolding ll_pop_back
  pop_back_more g u v ns count small head chain =
      let (at_tail, apart, second) = chain in
      let (at_g, apart', rest) = second in
      let c1 = write cells g (some (record { next = first ns 0; prev = 0; elem = some u })) in
      let at_tail' : Points c1 ll.tail _ = write-Points at_tail g _ (λ e. apart.0 (sym e)) in
      let ll' = record ll { tail = g } in
      (
        record ll' { count = suc (length ns) },
        write c1 ll.tail none,
        rw
            (
              ne→== ll.tail 0 at_tail.proper,
              ne→== ll.count 0 (omega arith),
              at_lem at_tail,
              ne→== g 0 at_g.proper,
              set_prev_lem at_g 0,
            )
            (take_inner law c1 ll' ll.tail (length ns) v at_tail' refl (omega arith) (omega arith)),
        record {
          nodes = (g, u) ∷ ns;
          held = refl;
          counted = refl;
          shape = (
            refl,
            head,
            (
              write-Points (written-Points cells g _ at_g.proper) ll.tail none apart.0,
              apart',
              Chain-write c1 g ns 0 ll.tail none apart.1 (Chain-write cells g ns 0 g _ apart' rest),
            ),
          );
        },
        refl,
      )

  pop_nodes :
      (ms : Nodes) (v : Bytes)
      → ll.count ≡ length ms + 1
      → length ms + 1 < 2 ^ 64
      → ll.tail ≡ first ms ll.head
      → Chain cells 0 (ms ++ (ll.head, v) ∷ []) 0
      → Popped ll (ll_pop memory (some ll) cells) v (values ms)
  pop_nodes [] v count small tail chain = pop_only v (omega arith) chain
  pop_nodes ((a, c) ∷ ns) v count small tail chain =
      let (ks, g, u, e, _, _) = unsnoc a c ns in
      let long : length ks + 1 ≡ length ns + 1 =
        omega (arith, ap length e, length-append ks ((g, u) ∷ [])) in
      subst (λ l. Popped ll (ll_pop memory (some ll) cells) v (values l)) (sym e)
        (pop_more ks g u v (omega (arith, long)) (omega (arith, long))
          (tail ∙ ap (λ l. first l ll.head) e ∙ first-append ks ((g, u) ∷ []) ll.head)
          (subst (λ l. Chain cells 0 (l ++ (ll.head, v) ∷ []) 0) e chain))

module _ {memory : Memory} (law : Allocates memory) {cells : Cells} {ll : LinkedList} where
  -- `ll_pop` and `ll_pop_front` take the element at the head.
  pub ll_pop-Represents :
      {x : Bytes} {xs : List Bytes}
      → Represents cells ll (x ∷ xs)
      → length xs + 2 < 2 ^ 64
      → Popped ll (ll_pop memory (some ll) cells) (Spec.last x xs) (Spec.but_last x xs)
  ll_pop-Represents {x} {xs} r small = by_nodes r.nodes r.held r.counted r.shape
    where
      by_nodes :
          (ns : Nodes)
          → values ns ≡ x ∷ xs
          → ll.count ≡ length ns
          → Shape cells ll.head ll.tail ns
          → Popped ll (ll_pop memory (some ll) cells) (Spec.last x xs) (Spec.but_last x xs)
      by_nodes [] held count shape = absurd (cc)
      by_nodes ((p, w) ∷ ns) held count shape =
          let (ms, h, u, e, front, end) = unsnoc p w ns in
          let at_end : ll.head ≡ h = shape.1 ∙ ap (λ l. last l 0) e ∙ last-append ms h u 0 in
          let e' : (p, w) ∷ ns ≡ ms ++ (ll.head, u) ∷ [] =
            e ∙ ap (λ a. ms ++ (a, u) ∷ []) (sym at_end) in
          let long : length ms + 1 ≡ length ns + 1 =
            omega (arith, ap length e', length-append ms ((ll.head, u) ∷ [])) in
          rw (← head-eq_of_cons-eq held, ← tail-eq_of_cons-eq held, ← front, ← end)
            (pop_nodes law cells ll ms u (omega (arith, long))
              (omega (arith, long, ap length held, length-values ns))
              (shape.0 ∙ ap (λ l. first l 0) e' ∙ first-append ms ((ll.head, u) ∷ []) 0)
              (subst (λ l. Chain cells 0 l 0) e' shape.2))

  -- `ll_pop_back` takes the element at the tail.
  pub ll_pop_back-Represents :
      {x : Bytes} {xs : List Bytes}
      → Represents cells ll (x ∷ xs)
      → length xs + 2 < 2 ^ 64
      → Popped ll (ll_pop_back memory (some ll) cells) x xs
  ll_pop_back-Represents {x} {xs} r small = by_nodes r.nodes r.held r.counted r.shape
    where
      by_nodes :
          (ns : Nodes)
          → values ns ≡ x ∷ xs
          → ll.count ≡ length ns
          → Shape cells ll.head ll.tail ns
          → Popped ll (ll_pop_back memory (some ll) cells) x xs
      by_nodes [] held count shape = absurd (cc)
      by_nodes ((p, w) ∷ []) held count shape =
          rw (← head-eq_of_cons-eq held, ← tail-eq_of_cons-eq held)
            (pop_back_only law cells ll w count
              (subst (λ a. Chain cells 0 ((a, w) ∷ []) 0) (sym shape.0) shape.2))
      by_nodes ((p, w) ∷ (g, u) ∷ ns) held count shape =
          rw (← head-eq_of_cons-eq held, ← tail-eq_of_cons-eq held)
            (pop_back_more law cells ll g u w ns (omega arith)
              (omega (arith, ap length held, length-values ns)) shape.1
              (subst (λ a. Chain cells 0 ((a, w) ∷ (g, u) ∷ ns) 0) (sym shape.0) shape.2))
