-- ===== src/RegionArena/Spec.antt =====
-- The calls of arenas/r_arena.h, and the same calls on a list that is emptied at a reset and has
-- room for a number of elements.
use seakcutils.Base.{
  ℕ, ◌-◌, Option, none, some, List, [], ◌∷◌, ◌++◌, length, get_elem?, done, aborted, ◌>>=◌, expect,
  Run, ltb, if◌then◌else◌,
}
use seakcutils.RegionArena.{
  RegionArena, Memory, r_arena_add, r_arena_alloc, r_arena_get, r_arena_get_last, r_arena_reset,
}
use seakcutils.RegionArena.Calls.{read}

pub data Op (A : Type 0) : Type 0 where
  add : A → Op A
  alloc : Op A
  get : ℕ → Op A
  get_last : Op A
  reset : Op A

module _ {A : Type 0} where
  -- What a pointer, NULL or not, leads to.
  unfoldable pub read_opt : RegionArena A → Option (ℕ × ℕ) → Run (Option A)
  read_opt arena none = done none
  read_opt arena (some p) = do x ← read arena p; done (some x)

  -- One call: the status with the element that the pointer returned leads to, and the arena.
  unfoldable pub call : Memory A → Op A → RegionArena A → Run (ℕ × Option A × RegionArena A)
  unfolding read_opt
  call memory (add v) arena = do
    (status, after) ← r_arena_add memory (some arena) v
    arena' ← expect after
    done (status, none, arena')
  call memory alloc arena = do
    (pointer, after) ← r_arena_alloc memory (some arena)
    arena' ← expect after
    x ← read_opt arena' pointer
    done (0, x, arena')
  call memory (get i) arena = do
    pointer ← r_arena_get (some arena) i
    x ← read_opt arena pointer
    done (0, x, arena)
  call memory get_last arena = do
    pointer ← r_arena_get_last (some arena)
    x ← read_opt arena pointer
    done (0, x, arena)
  call memory reset arena = done (0, none, r_arena_reset arena)

  unfoldable pub run : Memory A → List (Op A) → RegionArena A → Run (List (ℕ × Option A))
  unfolding call
  run memory [] arena = done []
  run memory (op ∷ ops) arena = do
    (status, x, arena') ← call memory op arena
    rest ← run memory ops arena'
    done ((status, x) ∷ rest)

  -- The same on a list with room for `room` elements, and with `z` as the zeroed element.
  unfoldable pub answer : A → ℕ → Op A → List A → Run (ℕ × Option A × List A)
  answer z room (add v) xs = if ltb (length xs) room then done (0, none, xs ++ v ∷ []) else aborted
  answer z room alloc xs = if ltb (length xs) room then done (0, some z, xs ++ z ∷ []) else aborted
  answer z room (get i) xs = done (0, get_elem? xs i, xs)
  answer z room get_last xs = done (0, get_elem? xs (length xs - 1), xs)
  answer z room reset xs = done (0, none, [])

  unfoldable pub answers : A → ℕ → List (Op A) → List A → Run (List (ℕ × Option A))
  unfolding answer
  answers z room [] xs = done []
  answers z room (op ∷ ops) xs = do
    (status, x, ys) ← answer z room op xs
    rest ← answers z room ops ys
    done ((status, x) ∷ rest)
