-- ===== src/Stack/Refine.antt =====
-- A stack that represents a list answers every sequence of calls as that list, and faults exactly
-- where a push meets the full list.
use mathlib.Core.Path.{subst}
use seakcutils.Base.{
  ℕ, ◌-◌, aborted, zero, suc, ◌+◌, ◌<◌, ◌≡◌, refl, ap, ◌∙◌, Option, none, some, List, [], ◌∷◌, Run,
  done, fault, ◌>>=◌, arith, length, set, length-set, get_elem?-set_self, ℤ, eq→==, ne→==, inl,
  ℕ_discrete, store-lt, load-some, le→ltb,
}
use seakcutils.Stack.{Stack, lower, live, ok, err, stack_push, stack_pop, stack_reset}
use seakcutils.Stack.Represents.{Represents, Op, push, pop, reset, answer}
use seakcutils.Stored.{Stored, Stored-set}

pub lower_pos : (n : ℕ) → 0 < n → lower n ≡ done (n - 1)
lower_pos zero h = absurd (omega arith)
lower_pos (suc n) h = ap done (omega arith)

module _ {ℓ} {A : Type ℓ} where
  -- One call of the C functions. `stack_reset` has no status.
  unfoldable pub call : Op A → Stack A → Run (ℤ × Option A × Stack A)
  call (push v) s = do (r, s') ← stack_push s v; done (r, none, s')
  call pop s = stack_pop s
  call reset s = done (ok, none, stack_reset s)

  unfoldable pub run : List (Op A) → Stack A → Run (List (ℤ × Option A))
  run [] s = done []
  run (op ∷ ops) s = do (r, out, s') ← call op s; rest ← run ops s'; done ((r, out) ∷ rest)

  unfoldable pub answers : ℕ → List (Op A) → List A → Run (List (ℤ × Option A))
  answers cap [] xs = done []
  answers cap (op ∷ ops) xs = do
    (r, out, ys) ← answer cap op xs
    rest ← answers cap ops ys
    done ((r, out) ∷ rest)

  module _ {s : Stack A} {xs : List A} (r : Represents s xs) where
    open r use {buf, allocated, size, counted, top, row}

    -- The guard of `stack_push` compares with `>`, so a full stack passes it.
    push_full : (v : A) → length xs ≡ s.cap → stack_push s v ≡ fault
    unfolding stack_push
    push_full v e =
        let sp_zero : s.sp ≡ 0 = omega arith in
        simp (allocated, sp_zero, le→ltb s.cap s.count (omega arith))

    push_room :
        (v : A)
        → length xs < s.cap
        → (s' : Stack A) × (stack_push s v ≡ done (ok, s'))
          × Represents s' (v ∷ xs)
          × (s'.cap ≡ s.cap)
    unfolding stack_push
    push_room v h = (s', runs, valid, refl)
      where
        s' : Stack A
        s' = record s { items = live (set buf (s.sp - 1) v); sp = s.sp - 1; count = s.count + 1 }

        runs : stack_push s v ≡ done (ok, s')
        runs = simp (
          allocated,
          le→ltb s.cap s.count (omega arith),
          lower_pos s.sp (omega arith),
          store-lt buf (s.sp - 1) v (omega arith),
        )

        valid : Represents s' (v ∷ xs)
        valid = record {
          buf = set buf (s.sp - 1) v;
          allocated = refl;
          size = length-set buf (s.sp - 1) v ∙ size;
          counted = omega arith;
          top = omega arith;
          row = (
            get_elem?-set_self buf (s.sp - 1) v (omega arith),
            subst (λ i. Stored (set buf (s.sp - 1) v) i xs) (omega arith)
                (Stored-set buf s.sp xs (s.sp - 1) v (inl (omega arith)) row),
          );
        }

    pop_empty : xs ≡ [] → stack_pop s ≡ done (err, none, s)
    unfolding stack_pop
    pop_empty e = simp (allocated, eq→== s.count 0 (omega (arith, ap length e)))

  pop_some :
      {s : Stack A} {x : A} {xs : List A}
      → Represents s (x ∷ xs)
      → (s' : Stack A) × (stack_pop s ≡ done (ok, some x, s')) × Represents s' xs × (s'.cap ≡ s.cap)
  unfolding stack_pop
  pop_some {s} {x} {xs} r = (s', runs, valid, refl)
    where
      open r use {buf, allocated, size, counted, top, row}

      s' : Stack A
      s' = record s { sp = s.sp + 1; count = s.count - 1 }

      runs : stack_pop s ≡ done (ok, some x, s')
      runs = simp (allocated, ne→== s.count 0 (omega arith), load-some buf s.sp row.0)

      valid : Represents s' xs
      valid = record {
        buf = buf;
        allocated = allocated;
        size = size;
        counted = omega arith;
        top = omega arith;
        row = subst (λ i. Stored buf i xs) (omega arith) row.1;
      }

  pub stack_reset-Represents :
      {s : Stack A} {xs : List A} → Represents s xs → Represents (stack_reset s) []
  unfolding stack_reset
  stack_reset-Represents {s} r =
      let e : stack_reset s ≡ record s { count = 0; sp = s.cap } =
        simp (stack_reset, r.allocated) in
      rw e (record {
        buf = r.buf;
        allocated = r.allocated;
        size = r.size;
        counted = refl;
        top = omega arith;
        row = tt;
      })

  cap-stack_reset : (s : Stack A) → (stack_reset s).cap ≡ s.cap
  unfolding stack_reset
  cap-stack_reset s = ground arith

  -- Every call, on every branch.
  Answers : Stack A → Run (ℤ × Option A × Stack A) → Run (ℤ × Option A × List A) → Type ℓ
  Answers s m fault = m ≡ fault
  Answers s m aborted = m ≡ aborted
  Answers s m (done (c, out, ys)) =
      (s' : Stack A) × (m ≡ done (c, out, s')) × Represents s' ys × (s'.cap ≡ s.cap)

  call-Answers :
      (op : Op A) {s : Stack A} {xs : List A}
      → Represents s xs
      → Answers s (call op s) (answer s.cap op xs)
  unfolding call answer Answers
  call-Answers (push v) {s} {xs} r = elim (ℕ_discrete (length xs) s.cap) [
    | yes e ↦ rw (eq→== _ _ e) (rw (push_full r v e))
    | no n ↦
        let top = r.top in
        let (s', runs, valid, same) = push_room r v (omega arith) in
        rw (ne→== _ _ n) (s', rw runs, valid, same)
  ]
  call-Answers pop {s} {xs = []} r = (s, pop_empty r refl, r, refl)
  call-Answers pop {xs = x ∷ xs} r = pop_some r
  call-Answers reset {s} r = (stack_reset s, refl, stack_reset-Represents r, cap-stack_reset s)

  -- No sequence of calls tells a stack from its list, and the C code faults exactly where the
  -- list calls a push on the full list a fault.
  pub stack_run_refines :
      (ops : List (Op A)) {s : Stack A} {xs : List A}
      → Represents s xs
      → run ops s ≡ answers s.cap ops xs
  unfolding run answers Answers
  stack_run_refines [] r = refl
  stack_run_refines (op ∷ ops) {s} {xs} r =
      go (λ t ys v. stack_run_refines ops {s = t} {xs = ys} v) (answer s.cap op xs)
        (call-Answers op r)
    where
      go :
          ((t : Stack A) (ys : List A) → Represents t ys → run ops t ≡ answers t.cap ops ys)
          → (a : Run (ℤ × Option A × List A)) → Answers s (call op s) a
          → run (op ∷ ops) s
            ≡ (a >>= λ (c, out, ys). answers s.cap ops ys >>= λ rest. done ((c, out) ∷ rest))
      go ih fault e = rw e
      go ih aborted e = rw e
      go ih (done (c, out, ys)) (s', e, valid, same) = rw (e, ih s' ys valid, same)
