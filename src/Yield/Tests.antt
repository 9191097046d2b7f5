-- ===== src/Yield/Tests.antt =====
-- The main context and two tasks, all of them stopped in a `yield`.
use seakcutils.Base.{
  ℕ, zero, suc, ◌+◌, ◌<◌, ◌≡◌, ◌≢◌, refl, arith, true, some, List, [], ◌∷◌, get_elem?, done,
  if◌then◌else◌, ◌==◌,
}
use seakcutils.Yield.{
  Context, ContextAnchor, Cpu, Memory, ready, dead, saved, remake_ctx, finish_run,
}
use seakcutils.Yield.Rounds.{Live, Frame, Resumed, yields, yields_come_round}
use seakcutils.Yield.Ends.{finish_run_lem}

abbrev memory : Memory
memory = record {
  malloc_stack = λ x. true;
  realloc_ctxs = λ n. true;
  malloc_anchor = true;
  finish_run_address = 900;
}

abbrev cpu_of : ℕ → List ℕ → Cpu
cpu_of n rsp = record { rdi = n; rbp = n; rbx = n; r12 = n; r13 = n; r14 = n; r15 = n; rsp = rsp }

abbrev ctx_of : ℕ → Context
ctx_of n = record { rsp = saved (cpu_of n (100 ∷ [])); stack = true; state = ready }

-- Room for one more, with context `index` running.
abbrev anchor : ℕ → ContextAnchor
anchor index = record {
  ctxs = ctx_of 0 ∷ ctx_of 1 ∷ ctx_of 2 ∷ record { rsp = []; stack = true; state = ready } ∷ [];
  count = 3;
  index = index;
  cap = 4;
}

frame_of : (n : ℕ) → Frame (saved (cpu_of n (100 ∷ [])))
frame_of n = record { cpu = cpu_of n []; pc = 100; is_saved = refl }

frames :
    (index j : ℕ)
    → j < 3
    → (c : Context) × (get_elem? (anchor index).ctxs j ≡ some c) × (index ≢ j → Frame c.rsp)
frames index zero lt = (ctx_of 0, refl, λ _. frame_of 0)
frames index (suc zero) lt = (ctx_of 1, refl, λ _. frame_of 1)
frames index (suc (suc zero)) lt = (ctx_of 2, refl, λ _. frame_of 2)
frames index (suc (suc (suc j))) lt = absurd (omega arith)

anchor-Live : (index : ℕ) → index < 3 → Live (anchor index)
anchor-Live index lt = record {
  running = lt;
  room = omega arith;
  small = omega arith;
  frames = frames index;
}

abbrev others : List Cpu
others = cpu_of 6 (201 ∷ []) ∷ cpu_of 7 (202 ∷ []) ∷ []

yields_come_round_example :
    Resumed
      (anchor 0)
      0
      200
      (cpu_of 5 (9 ∷ []))
      (yields (cpu_of 5 (200 ∷ 9 ∷ [])) others (anchor 0))
yields_come_round_example =
    yields_come_round {cpu = cpu_of 5 (200 ∷ 9 ∷ [])} (9 ∷ []) refl others
      (anchor-Live 0 (omega arith)) ((201, [], refl), ((202, [], refl), tt)) refl

finish_run_lem_example :
    (pc : ℕ) × (cpu : Cpu) × (g' : ContextAnchor) × (c : Context) × (finish_run (some (anchor 1))
      ≡ done (pc, cpu, g'))
    × Live g'
    × (g'.count + 1 ≡ 3)
    × ((j : ℕ)
        → j < g'.count
        → get_elem? g'.ctxs j ≡ get_elem? (anchor 1).ctxs (if j == 1 then g'.count else j))
    × ((d : Context) × (get_elem? g'.ctxs g'.count ≡ some d) × (d.state ≡ dead))
    × (get_elem? g'.ctxs g'.index ≡ some c)
    × (remake_ctx c.rsp ≡ done (pc, cpu))
finish_run_lem_example = finish_run_lem (anchor-Live 1 (omega arith)) (omega arith)
