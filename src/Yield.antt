-- ===== src/Yield.antt =====
-- yield/yield.h: tasks that give up the processor to each other in turn.
-- A stack pointer stands for the words on its stack from there up, so that a push is a cons. A task
-- writes to no stack but its own. Of the processor the registers are kept that `yield` saves; code
-- addresses are numbers. Stacks that grow past `STACK_SIZE` are left out.
pub mod Rounds
pub mod Starts
pub mod Ends
mod Tests
use seakcutils.Base.{
  ℕ, zero, suc, ◌+◌, ◌-◌, Bool, true, false, Option, none, some, List, [], ◌∷◌, ◌++◌, Run, done,
  fault, ◌>>=◌, load, store, add_size, sub_size, mul_size, ◌==◌, leb, ltb, if◌then◌else◌,
}

pub data ContextState : Type 0 where
  ready : ContextState
  dead : ContextState

-- `stack`: whether it points to storage.
pub record Context : Type 0 where
  pub rsp : List ℕ
  pub stack : Bool
  pub state : ContextState

pub record ContextAnchor : Type 0 where
  pub ctxs : List Context
  pub count : ℕ
  pub index : ℕ
  pub cap : ℕ

-- The processor as a task leaves it. `rsp` has the return address on top where a call has been made.
pub record Cpu : Type 0 where
  pub rdi : ℕ
  pub rbp : ℕ
  pub rbx : ℕ
  pub r12 : ℕ
  pub r13 : ℕ
  pub r14 : ℕ
  pub r15 : ℕ
  pub rsp : List ℕ

-- What the C library gives: a stack for a context, an array for as many contexts; and where
-- `finish_run` stands.
pub record Memory : Type 0 where
  pub malloc_stack : ℕ → Bool
  pub realloc_ctxs : ℕ → Bool
  pub malloc_anchor : Bool
  pub finish_run_address : ℕ

-- The registers and the return address from a stack, with which the processor goes on.
unfoldable pub remake_ctx : List ℕ → Run (ℕ × Cpu)
remake_ctx (r15 ∷ r14 ∷ r13 ∷ r12 ∷ rbx ∷ rbp ∷ rdi ∷ pc ∷ rest) = done (
  pc,
  record {
    rdi = rdi;
    rbp = rbp;
    rbx = rbx;
    r12 = r12;
    r13 = r13;
    r14 = r14;
    r15 = r15;
    rsp = rest;
  },
)
remake_ctx _ = fault

-- Where and how the processor goes on, and the contexts.
unfoldable pub switch_context : List ℕ → Option ContextAnchor → Run (ℕ × Cpu × ContextAnchor)
unfolding load store remake_ctx
switch_context rsp none = fault
switch_context rsp (some g) = do
  ctx ← load g.ctxs g.index
  ctxs ← store g.ctxs g.index (record ctx { rsp = rsp })
  let moved = add_size g.index 1
  let index = if leb g.count moved then 0 else moved
  next ← load ctxs index
  (pc, cpu) ← remake_ctx next.rsp
  done (pc, cpu, record g { ctxs = ctxs; index = index })

-- The words that `yield` pushes, the last one on top.
abbrev pub saved : Cpu → List ℕ
saved cpu = cpu.r15 ∷ cpu.r14 ∷ cpu.r13 ∷ cpu.r12 ∷ cpu.rbx ∷ cpu.rbp ∷ cpu.rdi ∷ cpu.rsp

unfoldable pub yield : Cpu → Option ContextAnchor → Run (ℕ × Cpu × ContextAnchor)
unfolding switch_context
yield cpu g = switch_context (saved cpu) g

-- Two contexts change places.
unfoldable pub swap : List Context → ℕ → ℕ → Run (List Context)
unfolding load store
swap ctxs id last = if id == last then done ctxs else do
  tmp ← load ctxs id
  other ← load ctxs last
  moved ← store ctxs id other
  store moved last tmp

unfoldable pub finish_run : Option ContextAnchor → Run (ℕ × Cpu × ContextAnchor)
unfolding load store swap remake_ctx
finish_run none = fault
finish_run (some g) = do
  ctx ← load g.ctxs g.index
  marked ← store g.ctxs g.index (record ctx { state = dead })
  ctxs ← swap marked g.index (sub_size g.count 1)
  let count = sub_size g.count 1
  let index = if leb count g.index then 0 else g.index
  next ← load ctxs index
  (pc, cpu) ← remake_ctx next.rsp
  done (pc, cpu, record g { ctxs = ctxs; count = count; index = index })

-- `__remake_ctx_stack` of context `x`.
unfoldable pub remake_ctx_stack : Memory → ℕ → Context
remake_ctx_stack memory x = record { rsp = []; stack = memory.malloc_stack x; state = ready }

-- Contexts `x`, `x + 1`, ... with new stacks, as many as the first number says.
unfoldable pub fresh_ctxs : Memory → ℕ → ℕ → List Context
unfolding remake_ctx_stack
fresh_ctxs memory zero x = []
fresh_ctxs memory (suc n) x = remake_ctx_stack memory x ∷ fresh_ctxs memory n (suc x)

-- `_ctx_anchor_healthcheck`
unfoldable pub ctx_anchor_healthcheck : Memory → ContextAnchor → ContextAnchor
unfolding fresh_ctxs
ctx_anchor_healthcheck memory g =
    let cap = mul_size g.cap 2 in
    if leb g.cap g.count
    then (if memory.realloc_ctxs cap
        then record g { ctxs = g.ctxs ++ fresh_ctxs memory (cap - g.cap) g.cap; cap = cap }
        else g)
    else g

abbrev pub is_dead : ContextState → Bool
is_dead ready = false
is_dead dead = true

-- The words that `task_run` pushes, the last one on top.
abbrev pub first_frame : Memory → ℕ → ℕ → List ℕ → List ℕ
first_frame memory func ctx rsp =
    0 ∷ 0 ∷ 0 ∷ 0 ∷ 0 ∷ 0 ∷ ctx ∷ func ∷ memory.finish_run_address ∷ rsp

unfoldable pub task_run : Memory → ℕ → ℕ → Option ContextAnchor → Run ContextAnchor
unfolding load store remake_ctx_stack ctx_anchor_healthcheck
task_run memory func ctx none = fault
task_run memory func ctx (some g) = do
  old ← load g.ctxs g.count
  let new = if is_dead old.state then remake_ctx_stack memory g.count else old
  (if new.stack
      then (do
        ctxs ← store g.ctxs g.count (record new { rsp = first_frame memory func ctx new.rsp })
        done (ctx_anchor_healthcheck memory (record g { ctxs = ctxs; count = add_size g.count 1 })))
      else fault)

-- Whether the loop of `wait_for_tasks` yields once more.
unfoldable pub wait_for_tasks : Option ContextAnchor → Run Bool
wait_for_tasks none = fault
wait_for_tasks (some g) = done (ltb 1 g.count)

unfoldable pub g_anchor_init : Memory → Option ContextAnchor → Run ContextAnchor
unfolding fresh_ctxs
g_anchor_init memory (some g) = done g
g_anchor_init memory none =
    if memory.malloc_anchor
    then done (record { ctxs = fresh_ctxs memory 1024 0; count = 1; index = 0; cap = 1024 })
    else fault

-- The loop of `g_anchor_free`, with `left` rounds to go from context `i` on.
unfoldable pub free_stacks : ℕ → ℕ → List Context → Run (List Context)
unfolding load
free_stacks zero i ctxs = done ctxs
free_stacks (suc left) i ctxs = do _ ← load ctxs i; free_stacks left (suc i) ctxs

unfoldable pub g_anchor_free : Option ContextAnchor → Run (Option ContextAnchor)
unfolding free_stacks
g_anchor_free none = done none
g_anchor_free (some g) = do _ ← free_stacks g.cap 0 g.ctxs; done none
