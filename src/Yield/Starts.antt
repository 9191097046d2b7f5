-- ===== src/Yield/Starts.antt =====
-- yield/yield.h: a task starts when its turn comes.
use seakcutils.Base.{
  ℕ, ◌+◌, ◌^◌, ◌≤◌, ◌<◌, ◌≡◌, refl, true, some, List, ◌∷◌, done, fault, length, set, get_elem?,
  load-ge, if◌then◌else◌,
}
use seakcutils.Yield.{
  Context, ContextAnchor, Cpu, Memory, is_dead, remake_ctx_stack, first_frame, task_run,
}
use seakcutils.Yield.Rounds.{Live, Saved}

-- The context that `task_run` takes.
abbrev pub taken : Memory → ContextAnchor → Context → Context
taken memory g old = if is_dead old.state then remake_ctx_stack memory g.count else old

-- The processor where a task begins: its argument, and the return to `finish_run`.
abbrev pub at_start : Memory → ℕ → List ℕ → Cpu
at_start memory ctx rsp = record {
  rdi = ctx;
  rbp = 0;
  rbx = 0;
  r12 = 0;
  r13 = 0;
  r14 = 0;
  r15 = 0;
  rsp = memory.finish_run_address ∷ rsp;
}

module _ (memory : Memory) (func ctx : ℕ) {g : ContextAnchor} (live : Live g)
    (small : g.count + 1 < 2 ^ 64) {old : Context} (e : get_elem? g.ctxs g.count ≡ some old)
    (usable : (taken memory g old).stack ≡ true) where
  record Started : Type 0 where
    g' : ContextAnchor
    runs : task_run memory func ctx (some g) ≡ done g'
    valid : Live g'
    count : g'.count ≡ g.count + 1
    index : g'.index ≡ g.index
    starts : Saved g' g.count (record (at_start memory ctx (taken memory g old).rsp) {
      rsp = func ∷ memory.finish_run_address ∷ (taken memory g old).rsp;
    })

  abbrev new_ctx : Context
  new_ctx = record {
    rsp = first_frame memory func ctx (taken memory g old).rsp;
    stack = true;
    state = (taken memory g old).state;
  }

  abbrev put_ctxs : List Context
  put_ctxs = set g.ctxs g.count new_ctx

-- Where the array has no place left, as after a `realloc` that failed, `task_run` reads behind it.
pub task_run_full :
    (memory : Memory) (func ctx : ℕ) (g : ContextAnchor)
    → length g.ctxs ≤ g.count
    → task_run memory func ctx (some g) ≡ fault
unfolding task_run
task_run_full memory func ctx g le = rw (load-ge g.ctxs g.count le) refl
