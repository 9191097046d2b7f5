-- ===== src/LinkedList/Push.antt =====
-- data_structures/linkedlist.h: the two pushes add an element at their end.
use native.Mathlib.Nat.{mod-eq_of_lt}
use seakcutils.Base.{
  length-append, ◌%◌, ◌+◌, ◌^◌, ◌<◌, ◌≡◌, ◌≢◌, Option, none, some, List, [], ◌∷◌, ◌++◌, refl, ◌∙◌,
  sym, ap, length, done, Run, arith, pos, ℤ,
}
use seakcutils.LinkedList.{LinkedList, ll_push_back, ll_append}
use seakcutils.LinkedList.Heap.{
  Bytes, Cells, Memory, Points, write, at_lem, copy_elem_lem, set_next_lem, set_prev_lem,
  written-Points, write-Points,
}
use mathlib.Core.Path.{subst}
use seakcutils.LinkedList.Chain.{
  first-append, Apart-append, length-values, Nodes, Apart, first, last, Chain, values,
  values-append, Chain-frame, Chain-write, Apart-of_none, Chain-unsnoc, Chain-snoc, unsnoc,
  last-append,
}
use seakcutils.LinkedList.Represents.{Allocates, Represents, Shape, Shape-intro, make_node_lem}

-- The result of a push after which the list has the elements `ys`.
abbrev pub Pushed : LinkedList → Run (ℤ × Option LinkedList × Cells) → List Bytes → Type 0
Pushed ll run ys =
    (ll' : LinkedList) × (cells' : Cells) × (run ≡ done (pos 0, some ll', cells'))
    × Represents cells' ll' ys
    × (ll'.elem_size ≡ ll.elem_size)

module _ {memory : Memory} (law : Allocates memory) (cells : Cells) (ll : LinkedList)
    (v : Bytes) where
  -- On the dummy.
  push_back_first :
      ll.count ≡ 0
      → Shape cells ll.head ll.tail []
      → Pushed ll (ll_push_back memory (some ll) v cells) (v ∷ [])
  unfolding ll_push_back
  push_back_first count shape = (
    record ll { count = ll.count + 1 },
    write cells ll.tail (some (record { next = 0; prev = 0; elem = some v })),
    rw (at_lem shape.1, copy_elem_lem shape.1 memory v (law.stored cells), next_count),
    record {
      nodes = (ll.tail, v) ∷ [];
      held = refl;
      counted = omega arith;
      shape = (refl, shape.0, (written-Points cells ll.tail _ shape.1.proper, tt, tt));
    },
    refl,
  )
    where
      next_count : (ll.count + 1) % 2 ^ 64 ≡ ll.count + 1
      next_count = mod-eq_of_lt (omega arith)

  push_back_more :
      (w : Bytes) (ns : Nodes)
      → ll.count ≡ length ns + 1
      → length ns + 2 < 2 ^ 64
      → ll.head ≡ last ns ll.tail
      → Chain cells 0 ((ll.tail, w) ∷ ns) 0
      → Pushed ll (ll_push_back memory (some ll) v cells) (v ∷ w ∷ values ns)
  unfolding ll_push_back
  push_back_more w ns count small head chain =
      let (q, c1, runs, here, same, fresh) = make_node_lem law v ll.tail 0 cells in
      let away : q ≢ ll.tail = λ e. cc (chain.0.holds) in
      let at_tail : Points c1 ll.tail _ = record {
        proper = chain.0.proper;
        holds = same ll.tail (λ e. away (sym e)) ∙ chain.0.holds;
      } in
      let next_count : (ll.count + 1) % 2 ^ 64 ≡ ll.count + 1 = mod-eq_of_lt (omega arith) in
      (
        record ll { tail = q; count = ll.count + 1 },
        write c1 ll.tail (some (record { next = first ns 0; prev = q; elem = some w })),
        rw (at_lem chain.0, runs, set_prev_lem at_tail q, next_count),
        record {
          nodes = (q, v) ∷ (ll.tail, w) ∷ ns;
          held = refl;
          counted = omega arith;
          shape = (
            refl,
            head,
            (
              write-Points here ll.tail _ (λ e. away (sym e)),
              (away, Apart-of_none cells ll.tail ns 0 q fresh chain.2),
              (
                written-Points c1 ll.tail _ chain.0.proper,
                chain.1,
                Chain-write c1 ll.tail ns 0 ll.tail _ chain.1 (
                    Chain-frame cells c1 ll.tail ns 0 q same
                      (Apart-of_none cells ll.tail ns 0 q fresh chain.2) chain.2),
              ),
            ),
          );
        },
        refl,
      )

  append_first :
      ll.count ≡ 0
      → Shape cells ll.head ll.tail []
      → Pushed ll (ll_append memory (some ll) v cells) (v ∷ [])
  unfolding ll_append
  append_first count shape = (
    record ll { count = ll.count + 1 },
    write cells ll.head (some (record { next = 0; prev = 0; elem = some v })),
    rw (at_lem dummy, copy_elem_lem dummy memory v (law.stored cells), next_count),
    record {
      nodes = (ll.head, v) ∷ [];
      held = refl;
      counted = omega arith;
      shape = (sym shape.0, refl, (written-Points cells ll.head _ dummy.proper, tt, tt));
    },
    refl,
  )
    where
      dummy : Points cells ll.head (record { next = 0; prev = 0; elem = none })
      dummy =
          subst (λ a. Points cells a (record { next = 0; prev = 0; elem = none })) (sym shape.0)
            shape.1

      next_count : (ll.count + 1) % 2 ^ 64 ≡ ll.count + 1
      next_count = mod-eq_of_lt (omega arith)

  append_more :
      (ms : Nodes) (w : Bytes)
      → ll.count ≡ length ms + 1
      → length ms + 2 < 2 ^ 64
      → ll.tail ≡ first ms ll.head
      → Chain cells 0 (ms ++ (ll.head, w) ∷ []) 0
      → Pushed ll (ll_append memory (some ll) v cells) (values (ms ++ (ll.head, w) ∷ []) ++ v ∷ [])
  unfolding ll_append
  append_more ms w count small tail chain =
      let (rest, at_head, apart) = Chain-unsnoc cells 0 ms ll.head w 0 chain in
      let (q, c1, runs, here, same, fresh) = make_node_lem law v 0 ll.head cells in
      let away : q ≢ ll.head = λ e. cc (at_head.holds) in
      let at_head' : Points c1 ll.head _ = record {
        proper = at_head.proper;
        holds = same ll.head (λ e. away (sym e)) ∙ at_head.holds;
      } in
      let next_count : (ll.count + 1) % 2 ^ 64 ≡ ll.count + 1 = mod-eq_of_lt (omega arith) in
      let q_apart : Apart q ms = Apart-of_none cells 0 ms ll.head q fresh rest in
      let c2 = write c1 ll.head (some (record { next = q; prev = last ms 0; elem = some w })) in
      let ns = ms ++ (ll.head, w) ∷ [] in
      let rest' : Chain c2 0 ms ll.head =
        Chain-write c1 0 ms ll.head ll.head _ apart
          (Chain-frame cells c1 0 ms ll.head q same q_apart rest) in
      let grown : Chain c2 0 ns q =
        Chain-snoc c2 0 ms ll.head w q rest' (written-Points c1 ll.head _ at_head.proper) apart in
      let at_q : Points c2 q (record { next = 0; prev = last ns 0; elem = some v }) =
        rw (last-append ms ll.head w 0) (write-Points here ll.head _ (λ e. away (sym e))) in
      (
        record ll { head = q; count = ll.count + 1 },
        c2,
        rw (at_lem at_head, runs, set_next_lem at_head' q, next_count),
        record {
          nodes = ns ++ (q, v) ∷ [];
          held = values-append ns ((q, v) ∷ []);
          counted =
              omega (arith, length-append ns ((q, v) ∷ []), length-append ms ((ll.head, w) ∷ []));
          shape =
              Shape-intro c2 q ll.tail (ns ++ (q, v) ∷ [])
                (omega (arith, length-append ns ((q, v) ∷ [])))
                (tail
                  ∙ sym (first-append ns ((q, v) ∷ []) 0 ∙ first-append ms ((ll.head, w) ∷ []) q))
                (sym (last-append ns q v 0))
                (Chain-snoc c2 0 ns q v 0 grown at_q
                  (Apart-append q ms ((ll.head, w) ∷ []) q_apart (away, tt)));
        },
        refl,
      )

-- A push at either end adds the element there.
module _ {memory : Memory} (law : Allocates memory) {cells : Cells} {ll : LinkedList}
    {xs : List Bytes} (v : Bytes) (r : Represents cells ll xs)
    (small : length xs + 2 < 2 ^ 64) where
  pub ll_push_back-Represents : Pushed ll (ll_push_back memory (some ll) v cells) (v ∷ xs)
  ll_push_back-Represents =
      rw (← r.held) (
        by_nodes r.nodes r.counted (omega (arith, length-values r.nodes, ap length r.held)) r.shape)
    where
      by_nodes :
          (ns : Nodes)
          → ll.count ≡ length ns
          → length ns + 2 < 2 ^ 64
          → Shape cells ll.head ll.tail ns
          → Pushed ll (ll_push_back memory (some ll) v cells) (v ∷ values ns)
      by_nodes [] count lt shape = push_back_first law cells ll v count shape
      by_nodes ((p, w) ∷ ns) count lt shape =
          push_back_more law cells ll v w ns (omega arith) (omega arith)
            (shape.1 ∙ ap (last ns) (sym shape.0))
            (subst (λ a. Chain cells 0 ((a, w) ∷ ns) 0) (sym shape.0) shape.2)

  pub ll_append-Represents : Pushed ll (ll_append memory (some ll) v cells) (xs ++ v ∷ [])
  ll_append-Represents =
      rw (← r.held) (
        by_nodes r.nodes r.counted (omega (arith, length-values r.nodes, ap length r.held)) r.shape)
    where
      by_nodes :
          (ns : Nodes)
          → ll.count ≡ length ns
          → length ns + 2 < 2 ^ 64
          → Shape cells ll.head ll.tail ns
          → Pushed ll (ll_append memory (some ll) v cells) (values ns ++ v ∷ [])
      by_nodes [] count lt shape = append_first law cells ll v count shape
      by_nodes ((p, w) ∷ ns) count lt shape =
          let (ms, h, u, e, _, _) = unsnoc p w ns in
          let at_end : ll.head ≡ h = shape.1 ∙ ap (λ l. last l 0) e ∙ last-append ms h u 0 in
          let e' : (p, w) ∷ ns ≡ ms ++ (ll.head, u) ∷ [] =
            e ∙ ap (λ a. ms ++ (a, u) ∷ []) (sym at_end) in
          subst (λ l. Pushed ll (ll_append memory (some ll) v cells) (values l ++ v ∷ [])) (sym e')
            (append_more law cells ll v ms u
              (omega (arith, ap length e', length-append ms ((ll.head, u) ∷ [])))
              (omega (arith, ap length e', length-append ms ((ll.head, u) ∷ [])))
              (shape.0 ∙ ap (λ l. first l 0) e' ∙ first-append ms ((ll.head, u) ∷ []) 0)
              (subst (λ l. Chain cells 0 l 0) e' shape.2))
