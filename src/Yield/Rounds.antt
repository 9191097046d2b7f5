-- ===== src/Yield/Rounds.antt =====
-- yield/yield.h: a task that yields goes on where it stopped, after one turn of each other task.
use mathlib.Core.Option.{some-injective}
use seakcutils.Base.{
  ℕ, suc, ◌+◌, ◌^◌, ◌≤◌, ◌<◌, ◌≡◌, ◌≢◌, ◌⊎◌, inl, inr, refl, sym, ap, ◌∙◌, some, List, [], ◌∷◌, Run,
  done, ◌>>=◌, load-some, store-lt, length, length-set, set, get_elem?, get_elem?-set_ne,
  get_elem?-set_self, get_elem?-set_at, ℕ_discrete, arith, add_size, Bool-cases, leb, if◌then◌else◌,
}
use seakcutils.Yield.{Context, ContextAnchor, Cpu, saved, remake_ctx, switch_context, yield}

-- The tasks that run yield one after the other: how the processor is at each of the calls, the first
-- one first.
unfoldable pub yields : Cpu → List Cpu → ContextAnchor → Run (ℕ × Cpu × ContextAnchor)
unfolding yield
yields cpu [] g = yield cpu (some g)
yields cpu (c ∷ cpus) g = do (pc, next, g') ← yield cpu (some g); yields c cpus g'

-- A stack from which a context can go on.
pub record Frame (rsp : List ℕ) : Type 0 where
  pub cpu : Cpu
  pub pc : ℕ
  pub is_saved : rsp ≡ saved (record cpu { rsp = pc ∷ cpu.rsp })

-- The live contexts are the first ones. One of them runs, the others have a frame.
pub record Live (g : ContextAnchor) : Type 0 where
  pub running : g.index < g.count
  pub room : g.count ≤ length g.ctxs
  pub small : g.count < 2 ^ 64
  pub frames :
      (j : ℕ)
      → j < g.count
      → (c : Context) × (get_elem? g.ctxs j ≡ some c) × (g.index ≢ j → Frame c.rsp)

-- Each of the tasks calls `yield`, so has a return address.
abbrev pub AllCalled : List Cpu → Type 0
AllCalled [] = Unit
AllCalled (c ∷ cs) = ((pc : ℕ) × (rest : List ℕ) × (c.rsp ≡ pc ∷ rest)) × AllCalled cs

abbrev next_index : ContextAnchor → ℕ
next_index g = if leb g.count (add_size g.index 1) then 0 else add_size g.index 1

-- One call of `yield`: the context is saved, and the next one goes on.
module _ {g : ContextAnchor} (live : Live g) (cpu : Cpu) (pc : ℕ) (rest : List ℕ)
    (called : cpu.rsp ≡ pc ∷ rest) where
  record Yielded : Type 0 where
    next : ℕ × Cpu
    g' : ContextAnchor
    runs : yield cpu (some g) ≡ done (next.0, next.1, g')
    valid : Live g'
    count : g'.count ≡ g.count
    moved : g'.index ≡ next_index g
    kept : (c : Context) × (get_elem? g'.ctxs g.index ≡ some c) × (c.rsp ≡ saved cpu)
    others : (j : ℕ) → g.index ≢ j → get_elem? g'.ctxs j ≡ get_elem? g.ctxs j
    -- What goes on is the next context.
    resumes : (c : Context) → get_elem? g'.ctxs g'.index ≡ some c → remake_ctx c.rsp ≡ done next

  here : (c : Context) × (get_elem? g.ctxs g.index ≡ some c)
  here = let (c, e, _) = live.frames g.index live.running in (c, e)

  abbrev saved_ctx : Context
  saved_ctx = record here.0 { rsp = saved cpu }

  abbrev ctxs' : List Context
  ctxs' = set g.ctxs g.index saved_ctx

  saved-Frame : Frame (saved cpu)
  saved-Frame = record {
    cpu = record cpu { rsp = rest };
    pc = pc;
    is_saved = ap (λ r. saved (record cpu { rsp = r })) called;
  }

  in_ctxs : g.index < length g.ctxs
  in_ctxs = omega (arith, live.running, live.room)

  frames' : (j : ℕ) → j < g.count → (c : Context) × (get_elem? ctxs' j ≡ some c) × Frame c.rsp
  frames' j lt = elim (ℕ_discrete g.index j) [
    | yes e ↦ (saved_ctx, get_elem?-set_at g.ctxs saved_ctx e in_ctxs, saved-Frame)
    | no ne ↦
        let (c, e, frame) = live.frames j lt in
        (c, get_elem?-set_ne g.ctxs saved_ctx ne ∙ e, frame ne)
  ]

  next_lt : next_index g < g.count
  next_lt = ground (arith, live.running)

  yield-Yielded : Yielded
  unfolding yield switch_context remake_ctx
  yield-Yielded =
      let (c, e, frame) = frames' (next_index g) next_lt in
      record {
        next = (frame.pc, frame.cpu);
        g' = record g { ctxs = ctxs'; index = next_index g };
        runs =
            rw
              (
                load-some g.ctxs g.index here.1,
                store-lt g.ctxs g.index saved_ctx in_ctxs,
                load-some ctxs' (next_index g) e,
                frame.is_saved,
              )
              refl;
        valid = record {
          running = next_lt;
          room = omega (arith, live.room, length-set g.ctxs g.index saved_ctx);
          small = live.small;
          frames = λ j lt. let (c', e', frame') = frames' j lt in (c', e', λ _. frame');
        };
        count = refl;
        moved = refl;
        kept = (saved_ctx, get_elem?-set_self g.ctxs g.index saved_ctx in_ctxs, refl);
        others = λ j ne. get_elem?-set_ne g.ctxs saved_ctx ne;
        resumes = λ c' e'.
            ap (λ x. remake_ctx x.rsp) (some-injective c' c (sym e' ∙ e))
            ∙ ap remake_ctx frame.is_saved;
      }

done-injective : {B : Type 0} {a b : B} → done a ≡ done b → a ≡ b
done-injective e = cc

-- A context saved at `i`.
abbrev pub Saved : ContextAnchor → ℕ → Cpu → Type 0
Saved g i cpu = (c : Context) × (get_elem? g.ctxs i ≡ some c) × (c.rsp ≡ saved cpu)

-- With as many calls of `yield` to go as lead from the running context to context `i`.
abbrev pub Leads : ContextAnchor → ℕ → ℕ → Type 0
Leads g i n = (n < g.count) × (i < g.count) × ((g.index + n ≡ i) ⊎ (g.index + n ≡ i + g.count))

-- Context `i` goes on at `pc`, and all others stay as they are or saved.
pub record Resumed (g : ContextAnchor) (i pc : ℕ) (cpu : Cpu)
    (result : Run (ℕ × Cpu × ContextAnchor)) : Type 0 where
  pub g' : ContextAnchor
  pub runs : result ≡ done (pc, cpu, g')
  pub index : g'.index ≡ i
  pub count : g'.count ≡ g.count
  pub valid : Live g'

-- One call less after one call.
leads_on :
    (g : ContextAnchor) (i n : ℕ)
    → Live g
    → i < g.count
    → (g.index + suc n ≡ i) ⊎ (g.index + suc n ≡ i + g.count)
    → (next_index g + n ≡ i) ⊎ (next_index g + n ≡ i + g.count)
leads_on g i n live lt (inl e) = inl (ground (arith, live.running, live.small, e))
leads_on g i n live lt (inr e) = elim (Bool-cases (leb g.count (add_size g.index 1))) [
  | inl wraps ↦ inl (ground (arith, live.running, live.small, e, wraps))
  | inr stays ↦ inr (ground (arith, live.running, live.small, e, stays))
]

module _ {pc : ℕ} {cpu : Cpu} (rest : List ℕ) (called : cpu.rsp ≡ pc ∷ rest) where
  saved_resumes :
      (c : Context) → c.rsp ≡ saved cpu → remake_ctx c.rsp ≡ done (pc, record cpu { rsp = rest })
  unfolding remake_ctx
  saved_resumes c e = ap remake_ctx (e ∙ ap (λ r. saved (record cpu { rsp = r })) called)

  pub yields-Resumed :
      {i : ℕ} (c : Cpu) (cpus : List Cpu) {g : ContextAnchor}
      → Live g
      → AllCalled (c ∷ cpus)
      → Saved g i cpu
      → Leads g i (suc (length cpus))
      → Resumed g i pc (record cpu { rsp = rest }) (yields c cpus g)
  unfolding yields
  yields-Resumed {i} c [] {g} live ((pc', rest', called'), all) (c0, at_i, e) (few, lt, leads) =
      let y = yield-Yielded live c pc' rest' called' in
      let here : y.g'.index ≡ i = y.moved ∙ ground (arith, live.running, live.small, leads) in
      let same : y.next ≡ (pc, record cpu { rsp = rest }) = done-injective (
        sym (
          y.resumes c0 (
            ap (get_elem? y.g'.ctxs) here
            ∙ y.others i (λ e'. omega (arith, e', few, leads))
            ∙ at_i))
        ∙ saved_resumes c0 e) in
      record {
        g' = y.g';
        runs = y.runs ∙ ap (λ n. done (n.0, n.1, y.g')) same;
        index = here;
        count = y.count;
        valid = y.valid;
      }
  yields-Resumed {i} c (c' ∷ cpus) {g} live ((pc', rest', called'), all) (c0, at_i, e)
        (few, lt, leads) =
      let y = yield-Yielded live c pc' rest' called' in
      let r =
        yields-Resumed c' cpus y.valid all
          (c0, y.others i (λ e'. omega (arith, e', few, leads)) ∙ at_i, e)
          (
            omega (arith, few, y.count),
            omega (arith, lt, y.count),
            rw (y.moved, y.count) (leads_on g i (suc (length cpus)) live lt leads),
          ) in
      record {
        g' = r.g';
        runs = rw y.runs r.runs;
        index = r.index;
        count = r.count ∙ y.count;
        valid = r.valid;
      }

  -- When every live task has called `yield` once, with no task started or ended in between, the
  -- one that was the first to do so goes on behind its call, with the registers and the stack that
  -- it had.
  pub yields_come_round :
      (cpus : List Cpu) {g : ContextAnchor}
      → Live g
      → AllCalled cpus
      → suc (length cpus) ≡ g.count
      → Resumed g g.index pc (record cpu { rsp = rest }) (yields cpu cpus g)
  unfolding yields
  yields_come_round [] {g} live all e =
      let y = yield-Yielded live cpu pc rest called in
      let here : y.g'.index ≡ g.index = y.moved ∙ ground (arith, live.running, live.small, e) in
      let same : y.next ≡ (pc, record cpu { rsp = rest }) = done-injective (
        sym (y.resumes y.kept.0 (ap (get_elem? y.g'.ctxs) here ∙ y.kept.1))
        ∙ saved_resumes y.kept.0 y.kept.2) in
      record {
        g' = y.g';
        runs = y.runs ∙ ap (λ n. done (n.0, n.1, y.g')) same;
        index = here;
        count = y.count;
        valid = y.valid;
      }
  yields_come_round (c ∷ cpus) {g} live all e =
      let y = yield-Yielded live cpu pc rest called in
      let r = yields-Resumed c cpus y.valid all y.kept (
        omega (arith, e, y.count),
        omega (arith, live.running, y.count),
        rw (y.moved, y.count)
            (leads_on g g.index (suc (length cpus)) live live.running (inr (omega (arith, e)))),
      ) in
      record {
        g' = r.g';
        runs = rw y.runs r.runs;
        index = r.index;
        count = r.count ∙ y.count;
        valid = r.valid;
      }
