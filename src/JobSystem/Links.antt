-- ===== src/JobSystem/Links.antt =====
-- job_system/jobsystem.h: the handles of a chain of jobs, as `job_chain_arr` links them.
use mathlib.Core.Logic.{if_pos, if_neg}
use mathlib.Core.Path.{subst}
use seakcutils.Base.{
  ℕ, ◌≡◌, ◌≢◌, ◌∙◌, refl, sym, ap, ◌⊎◌, inl, inr, none, some, List, [], ◌∷◌, ℕ_discrete, add_size,
}
use seakcutils.JobSystem.{Pointer, JobHandle, System, put, link, link_all}

pub pointer_cases : (p q : Pointer) → (p ≡ q) ⊎ (p ≢ q)
pointer_cases p q = elim (ℕ_discrete p.0 q.0) [
  | yes e ↦ elim (ℕ_discrete p.1 q.1) [
    | yes e' ↦ inl (ap (λ k. (k, p.1)) e ∙ ap (λ k. (q.0, k)) e')
    | no ne ↦ inr (λ same. ne (ap (λ k. k.1) same))
  ]
  | no ne ↦ inr (λ same. ne (ap (λ k. k.0) same))
]

module _ (jobs : Pointer → JobHandle) (p : Pointer) (h : JobHandle) where
  pub put_at : put jobs p h p ≡ h
  put_at = rw (if_pos (ℕ_discrete p.0 p.0) refl, if_pos (ℕ_discrete p.1 p.1) refl) refl

  pub put_off : (q : Pointer) → p ≢ q → put jobs p h q ≡ jobs q
  put_off q ne = elim (ℕ_discrete p.0 q.0) [
    | yes e ↦ elim (ℕ_discrete p.1 q.1) [
      | yes e' ↦ absurd (ne (ap (λ k. (k, p.1)) e ∙ ap (λ k. (q.0, k)) e'))
      | no ne' ↦ rw (if_pos (ℕ_discrete p.0 q.0) e, if_neg (ℕ_discrete p.1 q.1) ne') refl
    ]
    | no ne' ↦ rw (if_neg (ℕ_discrete p.0 q.0) ne') refl
  ]

abbrev pub AllNe : Pointer → List Pointer → Type 0
AllNe p [] = Unit
AllNe p (q ∷ list) = (p ≢ q) × AllNe p list

abbrev pub Distinct : List Pointer → Type 0
Distinct [] = Unit
Distinct (p ∷ list) = AllNe p list × Distinct list

-- As `job_spawn` leaves a handle.
abbrev pub AllFresh : (Pointer → JobHandle) → List Pointer → Type 0
AllFresh jobs [] = Unit
AllFresh jobs (p ∷ list) =
    ((jobs p).unfinished ≡ 1) × ((jobs p).continuation ≡ none) × AllFresh jobs list

-- The handles from `p` on: each one leads to the next, which waits for it and for itself.
abbrev pub Chained : (Pointer → JobHandle) → ℕ → Pointer → List Pointer → Type 0
Chained jobs n p [] = ((jobs p).unfinished ≡ n) × ((jobs p).continuation ≡ none)
Chained jobs n p (q ∷ list) =
    ((jobs p).unfinished ≡ n) × ((jobs p).continuation ≡ some q) × Chained jobs 2 q list

pub Chained-head :
    (jobs : Pointer → JobHandle) (n : ℕ) (p : Pointer) (list : List Pointer)
    → Chained jobs n p list
    → (jobs p).unfinished ≡ n
Chained-head jobs n p [] c = c.0
Chained-head jobs n p (q ∷ list) c = c.0

-- The same calls, in the order of the list.
abbrev pub calls : (Pointer → JobHandle) → List Pointer → List (ℕ × ℕ)
calls jobs [] = []
calls jobs (p ∷ list) = ((jobs p).job, (jobs p).ctx) ∷ calls jobs list

abbrev pub SameCalls : (Pointer → JobHandle) → (Pointer → JobHandle) → Type 0
SameCalls jobs jobs' =
    (p : Pointer) → ((jobs' p).job ≡ (jobs p).job) × ((jobs' p).ctx ≡ (jobs p).ctx)

pub calls-SameCalls :
    (jobs jobs' : Pointer → JobHandle) (list : List Pointer)
    → SameCalls jobs jobs'
    → calls jobs' list ≡ calls jobs list
calls-SameCalls jobs jobs' [] h = refl
calls-SameCalls jobs jobs' (p ∷ list) h =
    let (e, e') = h p in rw (e, e', calls-SameCalls jobs jobs' list h) refl

-- A change of what a job waits for, or of what follows it.
pub put-SameCalls :
    (jobs : Pointer → JobHandle) (p : Pointer) (h : JobHandle)
    → h.job ≡ (jobs p).job
    → h.ctx ≡ (jobs p).ctx
    → SameCalls jobs (put jobs p h)
put-SameCalls jobs p h e e' q = elim (pointer_cases p q) [
  | inl same ↦
      subst (λ k. ((put jobs p h k).job ≡ (jobs k).job) × ((put jobs p h k).ctx ≡ (jobs k).ctx))
        same (rw (put_at jobs p h) (e, e'))
  | inr ne ↦ rw (put_off jobs p h q ne) (refl, refl)
]

pub SameCalls-trans :
    (jobs jobs' jobs'' : Pointer → JobHandle)
    → SameCalls jobs jobs'
    → SameCalls jobs' jobs''
    → SameCalls jobs jobs''
SameCalls-trans jobs jobs' jobs'' h h' p = ((h' p).0 ∙ (h p).0, (h' p).1 ∙ (h p).1)

module _ (jobs : Pointer → JobHandle) (p : Pointer) (h : JobHandle) where
  pub put-Chained :
      (n : ℕ) (q : Pointer) (list : List Pointer)
      → AllNe p (q ∷ list)
      → Chained jobs n q list
      → Chained (put jobs p h) n q list
  put-Chained n q [] (ne, _) c = rw (put_off jobs p h q ne) c
  put-Chained n q (x ∷ list) (ne, more) (u, next, c) =
      (rw (put_off jobs p h q ne) u, rw (put_off jobs p h q ne) next, put-Chained 2 x list more c)

  pub put-AllFresh :
      (list : List Pointer) → AllNe p list → AllFresh jobs list → AllFresh (put jobs p h) list
  put-AllFresh [] ne f = tt
  put-AllFresh (q ∷ list) (ne, more) (u, c, f) =
      (rw (put_off jobs p h q ne) u, rw (put_off jobs p h q ne) c, put-AllFresh list more f)

-- The first job of a chain has another number of jobs to wait for.
pub lower-Chained :
    (jobs : Pointer → JobHandle) (n m : ℕ) (q : Pointer) (list : List Pointer) (h : JobHandle)
    → h.unfinished ≡ m
    → h.continuation ≡ (jobs q).continuation
    → AllNe q list
    → Chained jobs n q list
    → Chained (put jobs q h) m q list
lower-Chained jobs n m q [] h u same ne (_, c) = rw (put_at jobs q h) (u, same ∙ c)
lower-Chained jobs n m q (x ∷ list) h u same ne (_, c, more) =
    (rw (put_at jobs q h) u, rw (put_at jobs q h) (same ∙ c), put-Chained jobs q h 2 x list ne more)

-- What linking leaves as it was.
pub record Linked (s s' : System) (p : Pointer) (list : List Pointer) : Type 0 where
  pub queue : s'.queue ≡ s.queue
  pub state : s'.state ≡ s.state
  pub ran : s'.ran ≡ s.ran
  pub sche : s'.sche ≡ s.sche
  pub same : SameCalls s.jobs s'.jobs
  pub off : (x : Pointer) → AllNe x (p ∷ list) → s'.jobs x ≡ s.jobs x

pub link_all_lem :
    (p : Pointer) (list : List Pointer) (s : System) (n : ℕ)
    → Distinct (p ∷ list)
    → (s.jobs p).unfinished ≡ n
    → (s.jobs p).continuation ≡ none
    → AllFresh s.jobs list
    → Linked s (link_all p list s) p list × Chained (link_all p list s).jobs n p list
unfolding link_all link
link_all_lem p [] s n d u c f = (
  record {
    queue = refl;
    state = refl;
    ran = refl;
    sche = refl;
    same = λ x. (refl, refl);
    off = λ x ne. refl;
  },
  (u, c),
)
link_all_lem p (q ∷ list) s n (ne, d) u c (uq, cq, f) =
    let h : JobHandle = record (s.jobs p) { continuation = some q } in
    let linked = put s.jobs p h in
    let h' : JobHandle = record (linked q) { unfinished = add_size (linked q).unfinished 1 } in
    let jobs' = put linked q h' in
    let before : linked q ≡ s.jobs q = put_off s.jobs p h q ne.0 in
    let at_q : jobs' q ≡ h' = put_at linked q h' in
    let at_p : jobs' p ≡ h = put_off linked q h' p (λ e. ne.0 (sym e)) ∙ put_at s.jobs p h in
    let u' : (jobs' q).unfinished ≡ 2 = rw (at_q, before, uq) refl in
    let c' : (jobs' q).continuation ≡ none = rw (at_q, before, cq) refl in
    let f' = put-AllFresh linked q h' list d.0 (put-AllFresh s.jobs p h list ne.1 f) in
    let (l, chained) = link_all_lem q list (link p q s) 2 d u' c' f' in
    let final = link_all q list (link p q s) in
    let kept : final.jobs p ≡ h = l.off p ne ∙ at_p in
    (
      record {
        queue = l.queue;
        state = l.state;
        ran = l.ran;
        sche = l.sche;
        same =
            SameCalls-trans s.jobs jobs' final.jobs
              (SameCalls-trans s.jobs linked jobs' (put-SameCalls s.jobs p h refl refl)
                (put-SameCalls linked q h' refl refl))
              l.same;
        off = λ x (ne_p, ne_q).
            l.off x ne_q
            ∙ put_off linked q h' x (λ e. ne_q.0 (sym e))
            ∙ put_off s.jobs p h x (λ e. ne_p (sym e));
      },
      (ap (λ k. k.unfinished) kept ∙ u, ap (λ k. k.continuation) kept, chained),
    )
