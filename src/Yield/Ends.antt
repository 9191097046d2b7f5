-- ===== src/Yield/Ends.antt =====
-- yield/yield.h: what is left when a task ends.
use seakcutils.Base.{
  ℕ, ◌+◌, ◌<◌, ◌≡◌, ◌≢◌, refl, sym, ap, ◌∙◌, some, List, done, load-some, store-lt, length,
  length-set, set, get_elem?, get_elem?-set_ne, get_elem?-set_self, get_elem?-set_at, ℕ_discrete,
  arith, sub_size, ◌==◌, leb, if◌then◌else◌, eq→==, ne→==,
}
use seakcutils.Yield.{Context, ContextAnchor, Cpu, dead, swap, finish_run, remake_ctx}
use seakcutils.Yield.Rounds.{Live, Frame}

-- Two contexts that are there change places, and the others stay.
record Swapped (ctxs : List Context) (id last : ℕ) (a b : Context) : Type 0 where
  swapped : List Context
  runs : swap ctxs id last ≡ done swapped
  size : length swapped ≡ length ctxs
  at_id : get_elem? swapped id ≡ some b
  at_last : get_elem? swapped last ≡ some a
  others : (j : ℕ) → id ≢ j → last ≢ j → get_elem? swapped j ≡ get_elem? ctxs j

swap-Swapped :
    (ctxs : List Context) (id last : ℕ) {a b : Context}
    → id < length ctxs
    → last < length ctxs
    → get_elem? ctxs id ≡ some a
    → get_elem? ctxs last ≡ some b
    → Swapped ctxs id last a b
unfolding swap
swap-Swapped ctxs id last {a} {b} lt lt' ea eb = elim (ℕ_discrete id last) [
  | yes same ↦ record {
    swapped = ctxs;
    runs = rw (eq→== id last same) refl;
    size = refl;
    at_id = ap (get_elem? ctxs) same ∙ eb;
    at_last = ap (get_elem? ctxs) (sym same) ∙ ea;
    others = λ j ne ne'. refl;
  }
  | no ne ↦
      let moved = set ctxs id b in
      let long : length moved ≡ length ctxs = length-set ctxs id b in
      record {
        swapped = set moved last a;
        runs =
            rw
              (
                ne→== id last ne,
                load-some ctxs id ea,
                load-some ctxs last eb,
                store-lt ctxs id b lt,
                store-lt moved last a (omega (arith, long, lt')),
              )
              refl;
        size = length-set moved last a ∙ long;
        at_id = get_elem?-set_ne moved a (λ e. ne (sym e)) ∙ get_elem?-set_self ctxs id b lt;
        at_last = get_elem?-set_self moved last a (omega (arith, long, lt'));
        others = λ j ne1 ne2. get_elem?-set_ne moved a ne2 ∙ get_elem?-set_ne ctxs b ne1;
      }
]

module _ {g : ContextAnchor} (live : Live g) (more : 1 < g.count) where
  abbrev last : ℕ
  last = sub_size g.count 1

  last_lem : last + 1 ≡ g.count
  last_lem = omega (arith, more, live.small)

  here : (c : Context) × (get_elem? g.ctxs g.index ≡ some c)
  here = let (c, e, _) = live.frames g.index live.running in (c, e)

  abbrev ended : Context
  ended = record here.0 { state = dead }

  abbrev marked : List Context
  marked = set g.ctxs g.index ended

  in_ctxs : g.index < length g.ctxs
  in_ctxs = omega (arith, live.running, live.room)

  long : length marked ≡ length g.ctxs
  long = length-set g.ctxs g.index ended

  -- The last context, marked when it is the one that ends.
  at_last :
      (b : Context) × (get_elem? marked last ≡ some b)
      × (g.index ≢ last → (get_elem? g.ctxs last ≡ some b) × Frame b.rsp)
  at_last = elim (ℕ_discrete g.index last) [
    | yes e ↦ (ended, get_elem?-set_at g.ctxs ended e in_ctxs, λ ne. absurd (ne e))
    | no ne ↦
        let (b, e, frame) = live.frames last (omega (arith, last_lem)) in
        (b, get_elem?-set_ne g.ctxs ended ne ∙ e, λ ne'. (e, frame ne))
  ]

  swaps : Swapped marked g.index last ended at_last.0
  swaps =
      swap-Swapped marked g.index last (omega (arith, in_ctxs, long))
        (omega (arith, long, live.room, last_lem)) (get_elem?-set_self g.ctxs g.index ended in_ctxs)
        at_last.1

  left_over :
      (j : ℕ)
      → j < last
      → (c : Context) × (get_elem? swaps.swapped j ≡ some c)
        × Frame c.rsp
        × (get_elem? g.ctxs (if j == g.index then last else j) ≡ some c)
  left_over j lt = elim (ℕ_discrete g.index j) [
    | yes e ↦
        let (b, _, real) = at_last in
        let (at_b, frame) = real (λ e'. omega (arith, e, e', lt)) in
        (
          b,
          ap (get_elem? swaps.swapped) (sym e) ∙ swaps.at_id,
          frame,
          rw (eq→== j g.index (sym e)) at_b,
        )
    | no ne ↦
        let (c, e, frame) = live.frames j (omega (arith, lt, last_lem)) in
        (
          c,
          swaps.others j ne (λ e'. omega (arith, e', lt)) ∙ get_elem?-set_ne g.ctxs ended ne ∙ e,
          frame ne,
          rw (ne→== j g.index (λ e'. ne (sym e'))) e,
        )
  ]

  abbrev next_index : ℕ
  next_index = if leb last g.index then 0 else g.index

  next_lt : next_index < last
  next_lt = ground (arith, last_lem, more)

  -- When a task ends beside another live one, its context is marked as dead and no longer live, the
  -- last one takes its place, the other ones keep theirs, and a live one goes on where it was saved.
  pub finish_run_lem :
      (pc : ℕ) × (cpu : Cpu) × (g' : ContextAnchor) × (c : Context) × (finish_run (some g)
        ≡ done (pc, cpu, g'))
      × Live g'
      × (g'.count + 1 ≡ g.count)
      × ((j : ℕ)
          → j < g'.count
          → get_elem? g'.ctxs j ≡ get_elem? g.ctxs (if j == g.index then g'.count else j))
      × ((d : Context) × (get_elem? g'.ctxs g'.count ≡ some d) × (d.state ≡ dead))
      × (get_elem? g'.ctxs g'.index ≡ some c)
      × (remake_ctx c.rsp ≡ done (pc, cpu))
  unfolding finish_run remake_ctx
  finish_run_lem =
      let (c, e, frame, _) = left_over next_index next_lt in
      let g' : ContextAnchor = record g {
        ctxs = swaps.swapped;
        count = last;
        index = next_index;
      } in
      (
        frame.pc,
        frame.cpu,
        g',
        c,
        rw
            (
              load-some g.ctxs g.index here.1,
              store-lt g.ctxs g.index ended in_ctxs,
              swaps.runs,
              load-some swaps.swapped next_index e,
              frame.is_saved,
            )
            refl,
        record {
          running = next_lt;
          room = omega (arith, swaps.size, long, live.room, last_lem);
          small = omega (arith, last_lem, live.small);
          frames = λ j lt. let (c', e', frame', _) = left_over j lt in (c', e', λ _. frame');
        },
        last_lem,
        λ j lt. let (c', e', _, old) = left_over j lt in e' ∙ sym old,
        (ended, swaps.at_last, refl),
        e,
        ap remake_ctx frame.is_saved,
      )
