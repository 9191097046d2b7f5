-- ===== src/WaitGroup/Tests.antt =====
-- A wait group beside two finishing tasks.
use seakcutils.Base.{◌+◌, ◌≡◌, ◌≢◌, refl, none, some, List, [], ◌∷◌, ◌++◌, arith}
use seakcutils.WaitGroup.{Call, Event, call, test, add, finish, wg_init, apply_all, wg_wait}
use seakcutils.WaitGroup.Counts.{
  calls, added, finished, count-apply_all, wg_wait-returns, wg_wait-ne-none,
}

-- One task announces another before it finishes.
abbrev script : List Call
script = add 1 ∷ finish ∷ finish ∷ []

-- The first load comes after two calls, the second one after the third.
abbrev waiting : List Event
waiting =
    call (add 1) ∷ call finish ∷ test ∷ call finish ∷ test ∷ call (add 1) ∷ call finish ∷ test ∷ []

abbrev later : List Event
later = call (add 1) ∷ call finish ∷ test ∷ []

waits : wg_wait waiting (wg_init 1) ≡ some later
unfolding wg_wait wg_init
waits = refl

count-apply_all_example : (apply_all script (wg_init 1)).count + 2 ≡ 2
count-apply_all_example = count-apply_all 1 script (omega arith) (omega arith)

wg_wait-returns_example :
    (pre : List Event) × (waiting ≡ pre ++ test ∷ later)
    × (finished (calls pre) ≡ 1 + added (calls pre))
wg_wait-returns_example = wg_wait-returns 1 waiting (omega arith) (omega arith) waits

wg_wait-ne-none_example :
    wg_wait ((call (add 1) ∷ call finish ∷ test ∷ call finish ∷ []) ++ test ∷ later) (wg_init 1)
    ≢ none
wg_wait-ne-none_example =
    wg_wait-ne-none 1 (call (add 1) ∷ call finish ∷ test ∷ call finish ∷ []) later (omega arith)
      (omega arith)
