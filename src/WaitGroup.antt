-- ===== src/WaitGroup.antt =====
-- wait_group/waitg.h: one atomic counter and a busy wait. Every function makes one atomic access,
-- so the calls of all threads stand in one order.
pub mod Counts
mod Tests
use seakcutils.Base.{
  ℕ, zero, suc, ◌+◌, ◌≤◌, Option, none, some, List, [], ◌∷◌, add_size, sub_size, ◌==◌,
  if◌then◌else◌,
}

pub record WaitGroup : Type 0 where
  pub count : ℕ

unfoldable pub wg_init : ℕ → WaitGroup
wg_init initial = record { count = initial }

unfoldable pub wg_add : WaitGroup → ℕ → WaitGroup
wg_add wg n = record { count = add_size wg.count n }

unfoldable pub wg_done : WaitGroup → WaitGroup
wg_done wg = record { count = sub_size wg.count 1 }

-- The calls of the other threads.
pub data Call : Type 0 where
  add : ℕ → Call
  finish : Call

unfoldable pub apply : Call → WaitGroup → WaitGroup
unfolding wg_add wg_done
apply (add n) wg = wg_add wg n
apply finish wg = wg_done wg

unfoldable pub apply_all : List Call → WaitGroup → WaitGroup
unfolding apply
apply_all [] wg = wg
apply_all (c ∷ cs) wg = apply_all cs (apply c wg)

-- A call of another thread, or the load of the waiting one, in the order in which they take effect:
-- any number of calls may stand between two loads.
pub data Event : Type 0 where
  call : Call → Event
  test : Event

-- The loop of `wg_wait` beside the calls of other threads: the events still to come when the loop
-- ends, `none` while it goes on.
unfoldable pub wg_wait : List Event → WaitGroup → Option (List Event)
unfolding apply
wg_wait [] wg = none
wg_wait (call c ∷ es) wg = wg_wait es (apply c wg)
wg_wait (test ∷ es) wg = let rest = wg_wait es wg in if wg.count == 0 then some es else rest
