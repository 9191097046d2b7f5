-- ===== src/Deque/Refine.antt =====
-- A deque that represents a list answers every call, and every sequence of calls, as that list.
use native.Mathlib.Nat.{mul-div_cancel, mod-eq_of_lt}
use seakcutils.Base.{
  ℕ, ◌*◌, ◌/◌, ◌^◌, ◌<◌, ◌≡◌, refl, ◌∙◌, Option, none, some, List, [], ◌∷◌, Run, done, ◌>>=◌, arith,
  length, ℤ, pos, eq→==, ne→==, Option-cases, inl, inr, ℕ_discrete,
}
use seakcutils.Deque.{
  Deque, err_null, deque_new, deque_push_front, deque_push_back, deque_pop_front, deque_pop_back,
  deque_reset, deque_free,
}
use seakcutils.Deque.Spec
use seakcutils.Deque.Spec.{length-but_last, but_last-append-last}
use seakcutils.Deque.Represents.{Represents}
use seakcutils.Deque.Steps.{HasRoom, Near, Near-refl, HasRoom-Near}
use seakcutils.Deque.Push.{push_front_full, push_front_room, push_back_full, push_back_room}
use seakcutils.Deque.Pop.{pop_back_empty, pop_back_some, pop_front_empty, pop_front_some}

pub data Op {ℓ} (A : Type ℓ) : Type ℓ where
  push_front : A → Op A
  push_back : A → Op A
  pop_front : Op A
  pop_back : Op A

module _ {ℓ} {A : Type ℓ} where
  -- One call of the C functions: the status, what went through `out`, and the deque left.
  unfoldable pub call : Op A → Option (Deque A) → Run (ℤ × Option A × Option (Deque A))
  call (push_front v) q = do (s, q') ← deque_push_front q v; done (s, none, q')
  call (push_back v) q = do (s, q') ← deque_push_back q v; done (s, none, q')
  call pop_front q = deque_pop_front q
  call pop_back q = deque_pop_back q

  -- The same call of the list.
  unfoldable pub answer : ℕ → Op A → List A → ℤ × Option A × List A
  answer cap (push_front v) xs = let (s, ys) = Spec.push_front cap v xs in (s, none, ys)
  answer cap (push_back v) xs = let (s, ys) = Spec.push_back cap v xs in (s, none, ys)
  answer cap pop_front xs = Spec.pop_front xs
  answer cap pop_back xs = Spec.pop_back xs

  unfoldable pub run : List (Op A) → Option (Deque A) → Run (List (ℤ × Option A))
  run [] q = done []
  run (op ∷ ops) q = do (s, out, q') ← call op q; rest ← run ops q'; done ((s, out) ∷ rest)

  unfoldable pub answers : ℕ → List (Op A) → List A → List (ℤ × Option A)
  answers cap [] xs = []
  answers cap (op ∷ ops) xs = let (s, out, ys) = answer cap op xs in (s, out) ∷ answers cap ops ys

  -- Every call, on every branch: the C function has no fault, returns the status and the element
  -- that the list returns, and leaves a deque that represents the list left.
  pub deque_call-Represents :
      (op : Op A) {q : Deque A} {xs : List A}
      → Represents q xs
      → HasRoom 1 q
      → let (s, out, ys) = answer q.cap op xs in
        (q' : Deque A) × (call op (some q) ≡ done (s, out, some q')) × Represents q' ys × Near q q'
  unfolding call answer
  deque_call-Represents (push_front v) {q} {xs} r h = elim (ℕ_discrete (length xs) q.cap) [
    | yes e ↦ rw (eq→== _ _ e) (q, rw (push_front_full r v e), r, Near-refl q)
    | no n ↦
        let room = r.room in
        let (q', runs, valid, near) = push_front_room r v (omega arith) h in
        rw (ne→== _ _ n) (q', rw runs, valid, near)
  ]
  deque_call-Represents (push_back v) {q} {xs} r h = elim (ℕ_discrete (length xs) q.cap) [
    | yes e ↦ rw (eq→== _ _ e) (q, rw (push_back_full r v e), r, Near-refl q)
    | no n ↦
        let room = r.room in
        let (q', runs, valid, near) = push_back_room r v (omega arith) h in
        rw (ne→== _ _ n) (q', rw runs, valid, near)
  ]
  deque_call-Represents pop_front {q} {xs = []} r h = (q, pop_front_empty r refl, r, Near-refl q)
  deque_call-Represents pop_front {q} {xs = x ∷ xs} r h =
      pop_front_some (rw (but_last-append-last x xs) r) h
  deque_call-Represents pop_back {q} {xs = []} r h = (q, pop_back_empty r refl, r, Near-refl q)
  deque_call-Represents pop_back {xs = x ∷ xs} r h = pop_back_some r h

  -- A deque that represents a list, with running indices that as many calls as the sequence has do
  -- not take out of `int64_t`, answers every sequence of pushes and pops at both ends with the
  -- statuses and the elements of the bounded list, without a fault.
  pub deque_run_refines :
      (ops : List (Op A)) {q : Deque A} {xs : List A}
      → Represents q xs
      → HasRoom (length ops) q
      → run ops (some q) ≡ done (answers q.cap ops xs)
  unfolding run answers
  deque_run_refines [] r h = refl
  deque_run_refines (op ∷ ops) {q} {xs} r h =
      let (q', runs, valid, near) =
        deque_call-Represents op r (record { above = omega arith; below = omega arith }) in
      rw (runs, deque_run_refines ops valid (HasRoom-Near (length ops) near h), near.same_cap)

  -- `malloc` gives as many elements as fit into the bytes asked for.
  abbrev pub Allocates : ℕ → (ℕ → Option (List A)) → Type ℓ
  Allocates elem_size malloc =
      (n : ℕ) (buf : List A) → malloc n ≡ some buf → length buf ≡ n / elem_size

  pub deque_new-Represents :
      (malloc : ℕ → Option (List A)) (elem_size cap : ℕ) {buf : List A}
      → Allocates elem_size malloc
      → 0 < elem_size
      → cap < 2 ^ 63
      → cap * elem_size < 2 ^ 64
      → malloc (cap * elem_size) ≡ some buf
      → Represents (deque_new malloc elem_size cap) []
  unfolding deque_new
  deque_new-Represents malloc elem_size cap {buf} law some_size small fits e = record {
    buf = buf;
    allocated = rw (mod-eq_of_lt fits) e;
    size = law _ _ e ∙ mul-div_cancel cap some_size;
    small = small;
    room = omega arith;
    span = refl;
    window = tt;
  }

  pub deque_reset-Represents :
      {q : Deque A} {xs : List A} → Represents q xs → Represents (deque_reset q) []
  unfolding deque_reset
  deque_reset-Represents {q} r =
      let e : deque_reset q ≡ record q { head = pos 0; tail = pos 0 } =
        simp (deque_reset, r.allocated) in
      rw e (record {
        buf = r.buf;
        allocated = r.allocated;
        size = r.size;
        small = r.small;
        room = omega arith;
        span = refl;
        window = tt;
      })

  -- A NULL deque, or one without a buffer, is refused by every call and left as it is.
  pub deque_call-null :
      (op : Op A) (q : Option (Deque A))
      → ((d : Deque A) → q ≡ some d → d.items ≡ none)
      → call op q ≡ done (err_null, none, q)
  unfolding call deque_push_front deque_push_back deque_pop_front deque_pop_back
  deque_call-null (push_front v) none h = refl
  deque_call-null (push_front v) (some d) h = simp (h d refl)
  deque_call-null (push_back v) none h = refl
  deque_call-null (push_back v) (some d) h = simp (h d refl)
  deque_call-null pop_front none h = refl
  deque_call-null pop_front (some d) h = simp (h d refl)
  deque_call-null pop_back none h = refl
  deque_call-null pop_back (some d) h = simp (h d refl)

  -- After `deque_free` every call is refused as for NULL, and the deque stays as it is.
  pub call-deque_free :
      (op : Op A) (q : Deque A)
      → call op (some (deque_free q)) ≡ done (err_null, none, some (deque_free q))
  unfolding deque_free
  call-deque_free op q = elim (Option-cases q.items) [
    | inl e ↦ deque_call-null op _ (λ d h. ground (arith, e))
    | inr (buf, e) ↦ deque_call-null op _ (λ d h. ground (arith, e))
  ]
