-- ===== src/RegionArena/Refine.antt =====
-- arenas/r_arena.h refines the list of Spec.
use seakcutils.Base.{
  ℕ, ◌+◌, ◌-◌, ◌*◌, ◌^◌, ◌≤◌, ◌<◌, ◌≡◌, refl, true, Option, none, some, List, [], ◌∷◌, ◌++◌, length,
  get_elem?, length-append, ◌⊎◌, arith, done, aborted, ◌>>=◌, ltb, inl, inr, Bool-cases,
  get_elem?-of_le, ◌==◌, if◌then◌else◌,
}
use seakcutils.RegionArena.{RegionArena, Memory, r_arena_create, r_arena_get, r_arena_reset}
use seakcutils.RegionArena.Regions.{cell-get_elem?, cell-at}
use seakcutils.RegionArena.Calls.{
  Allocates, Represents, r_arena_add_room, r_arena_alloc_room, r_arena_add_full, r_arena_alloc_full,
}
use seakcutils.RegionArena.Epochs.{
  r_arena_reset-Represents, r_arena_create-Represents, found_place, r_arena_get-lt, r_arena_get-ge,
  r_arena_get_last-zero, r_arena_get_last-pos,
}
use seakcutils.RegionArena.Spec.{
  Op, add, alloc, get, get_last, reset, read_opt, call, run, answer, answers,
}

module _ {A : Type 0} (memory : Memory A) (given : Allocates memory) where
  -- One call gives what the list gives, and leaves an arena that represents what is left there.
  record Goes (room epoch : ℕ) (op : Op A) (arena : RegionArena A) (xs : List A) : Type 0 where
    n : ℕ
    x : Option A
    arena' : RegionArena A
    ys : List A
    calls : call memory op arena ≡ done (n, x, arena')
    answers_it : answer memory.zeroed room op xs ≡ done (n, x, ys)
    valid : Represents memory.zeroed arena' ys
    shape : arena'.max_rgs * arena'.rg_capacity ≡ room
    bound : arena'.current_epoch ≤ epoch

  Agrees : ℕ → ℕ → Op A → RegionArena A → List A → Type 0
  Agrees room epoch op arena xs =
      ((call memory op arena ≡ aborted) × (answer memory.zeroed room op xs ≡ aborted))
      ⊎ Goes room epoch op arena xs

  module _ {room : ℕ} {arena : RegionArena A} {xs : List A} (r : Represents memory.zeroed arena xs)
      (shape : arena.max_rgs * arena.rg_capacity ≡ room)
      (small : arena.current_epoch + 1 < 2 ^ 64) where
    add-Agrees : (v : A) → Agrees room (arena.current_epoch + 1) (add v) arena xs
    unfolding Agrees call answer
    add-Agrees v = elim (Bool-cases (ltb (length xs) room)) [
      | inl e ↦
          let (arena', runs, valid, alike) =
            r_arena_add_room memory r given (ground (arith, e, shape)) v in
          inr (record {
            n = 0;
            x = none;
            arena' = arena';
            ys = xs ++ v ∷ [];
            calls = rw runs refl;
            answers_it = rw e refl;
            valid = valid;
            shape = rw (alike.max, alike.cap) shape;
            bound = omega (arith, alike.epoch);
          })
      | inr e ↦ inl (rw (r_arena_add_full memory r (ground (arith, e, shape)) v) refl, rw e refl)
    ]

    alloc-Agrees : Agrees room (arena.current_epoch + 1) alloc arena xs
    unfolding Agrees call answer read_opt
    alloc-Agrees = elim (Bool-cases (ltb (length xs) room)) [
      | inl e ↦
          let (arena', runs, valid, alike) =
            r_arena_alloc_room memory r given (ground (arith, e, shape)) in
          let reads =
            (found_place valid (length xs)
              (omega (arith, length-append xs (memory.zeroed ∷ [])))).1 in
          inr (record {
            n = 0;
            x = some memory.zeroed;
            arena' = arena';
            ys = xs ++ memory.zeroed ∷ [];
            calls =
                rw
                  (
                    runs,
                    ← alike.cap,
                    reads,
                    cell-at memory.zeroed xs memory.zeroed (length xs) refl,
                  )
                  refl;
            answers_it = rw e refl;
            valid = valid;
            shape = rw (alike.max, alike.cap) shape;
            bound = omega (arith, alike.epoch);
          })
      | inr e ↦ inl (rw (r_arena_alloc_full memory r (ground (arith, e, shape))) refl, rw e refl)
    ]

    -- Both getters leave the arena as it is.
    stays :
        (op : Op A) (x : Option A)
        → call memory op arena ≡ done (0, x, arena)
        → answer memory.zeroed room op xs ≡ done (0, x, xs)
        → Agrees room (arena.current_epoch + 1) op arena xs
    unfolding Agrees
    stays op x calls answers_it = inr (record {
      n = 0;
      x = x;
      arena' = arena;
      ys = xs;
      calls = calls;
      answers_it = answers_it;
      valid = r;
      shape = shape;
      bound = omega arith;
    })

    get_reads :
        (k : ℕ)
        → k < length xs
        → (do pointer ← r_arena_get (some arena) k; read_opt arena pointer) ≡ done (get_elem? xs k)
    unfolding read_opt
    get_reads k lt =
        rw (r_arena_get-lt r k lt, (found_place r k lt).1, cell-get_elem? memory.zeroed xs k lt)
          refl

    get-Agrees : (k : ℕ) → Agrees room (arena.current_epoch + 1) (get k) arena xs
    unfolding call answer read_opt
    get-Agrees k = elim (Bool-cases (ltb k (length xs))) [
      | inl e ↦
          let lt : k < length xs = ground (arith, e) in
          stays (get k) (get_elem? xs k)
            (rw
              (r_arena_get-lt r k lt, (found_place r k lt).1, cell-get_elem? memory.zeroed xs k lt)
              refl)
            refl
      | inr e ↦
          let le : length xs ≤ k = ground (arith, e) in
          stays (get k) (get_elem? xs k) (rw (r_arena_get-ge r k le, get_elem?-of_le xs k le) refl)
            refl
    ]

    get_last-Agrees : Agrees room (arena.current_epoch + 1) get_last arena xs
    unfolding call answer read_opt
    get_last-Agrees = elim (Bool-cases (ltb 0 (length xs))) [
      | inl e ↦
          let k = length xs - 1 in
          let lt : k < length xs = ground (arith, e) in
          stays get_last (get_elem? xs k)
            (rw
              (
                r_arena_get_last-pos r (ground (arith, e)),
                r_arena_get-lt r k lt,
                (found_place r k lt).1,
                cell-get_elem? memory.zeroed xs k lt,
              )
              refl)
            refl
      | inr e ↦
          let le : length xs ≤ length xs - 1 = ground (arith, e) in
          stays get_last (get_elem? xs (length xs - 1))
            (rw (r_arena_get_last-zero r (omega (arith, le)), get_elem?-of_le xs (length xs - 1) le)
              refl)
            refl
    ]

    call-Agrees : (op : Op A) → Agrees room (arena.current_epoch + 1) op arena xs
    unfolding Agrees call answer r_arena_reset
    call-Agrees (add v) = add-Agrees v
    call-Agrees alloc = alloc-Agrees
    call-Agrees (get k) = get-Agrees k
    call-Agrees get_last = get_last-Agrees
    call-Agrees reset = inr (record {
      n = 0;
      x = none;
      arena' = r_arena_reset arena;
      ys = [];
      calls = refl;
      answers_it = refl;
      valid = r_arena_reset-Represents r small;
      shape = shape;
      bound = omega arith;
    })

  run-answers :
      (ops : List (Op A)) {room : ℕ} {arena : RegionArena A} {xs : List A}
      → Represents memory.zeroed arena xs
      → arena.max_rgs * arena.rg_capacity ≡ room
      → arena.current_epoch + length ops < 2 ^ 64
      → run memory ops arena ≡ answers memory.zeroed room ops xs
  unfolding run answers Agrees
  run-answers [] r shape small = refl
  run-answers (op ∷ ops) r shape small = elim (call-Agrees r shape (omega arith) op) [
    | inl (aborts, aborts') ↦ rw (aborts, aborts')
    | inr goes ↦
        rw
          (
            goes.calls,
            goes.answers_it,
            run-answers ops goes.valid goes.shape (omega (arith, goes.bound, small)),
          )
          refl
  ]

  -- With storage for all regions and fewer than 2 ^ 64 places, a new arena answers every sequence of
  -- fewer than 2 ^ 64 calls as the list does that begins empty, is emptied at a reset and has room
  -- for `max_rgs * rg_capacity` elements: a slot allocated is zeroed, and a call past the room aborts.
  pub r_arena_run_refines :
      (elem_size region_capacity max_regions : ℕ) (ops : List (Op A))
      → let max_rgs = if max_regions == 0 then 1024 else max_regions in
        memory.calloc_handler max_rgs ≡ true
        → 0 < region_capacity
        → max_rgs * region_capacity < 2 ^ 64
        → length ops < 2 ^ 64
        → (do
          arena ← r_arena_create memory elem_size region_capacity max_regions
          run memory ops arena)
          ≡ answers memory.zeroed (max_rgs * region_capacity) ops []
  r_arena_run_refines elem_size region_capacity max_regions ops got pos total small =
      let (arena, runs, valid, cap, max, epoch) =
        r_arena_create-Represents memory elem_size region_capacity max_regions given got pos
          total in
      rw runs (run-answers ops valid (rw (cap, max) refl) (omega (arith, epoch, small)))
