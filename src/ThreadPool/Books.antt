-- ===== src/ThreadPool/Books.antt =====
-- Which jobs the workers of a pool have run, of those that they received.
use mathlib.Core.Option.{some-injective}
use mathlib.Core.Path.{subst}
use seakcutils.Base.{
  ℕ, ◌≡◌, ◌≢◌, ◌∙◌, sym, ap, Option, none, some, List, [], ◌∷◌, ◌⊎◌, inl, inr, ℕ_discrete,
}
use seakcutils.Mpmc.Invariant.{AllGot, AllGot-map, Apart}

module _ {A : Type 0} where
  abbrev pub In : ℕ × Option A → List (ℕ × Option A) → Type 0
  In g [] = ⊥
  In g (h ∷ hs) = (h ≡ g) ⊎ In g hs

  -- An entry that stands elsewhere has a different ticket.
  pub In_ticket :
      (g : ℕ × Option A) (t : ℕ) (gs : List (ℕ × Option A))
      → AllGot (λ h. h.0 ≢ t) gs
      → In g gs
      → g.0 ≢ t
  In_ticket g t [] h i = absurd i
  In_ticket g t (x ∷ gs) h (inl e) = λ e'. h.0 (ap (λ p. p.0) e ∙ e')
  In_ticket g t (x ∷ gs) h (inr i) = In_ticket g t gs h.1 i

  pub In_AllGot :
      (P : ℕ × Option A → Type 0) (g : ℕ × Option A) (gs : List (ℕ × Option A))
      → AllGot P gs
      → In g gs
      → P g
  In_AllGot P g [] h i = absurd i
  In_AllGot P g (x ∷ gs) h (inl e) = subst P e h.0
  In_AllGot P g (x ∷ gs) h (inr i) = In_AllGot P g gs h.1 i

  -- `hand i` is what worker `i` has received and not yet run.
  pub record Books (got ran : List (ℕ × Option A)) (hand : ℕ → Option (ℕ × Option A)) : Type 0 where
    pub covered : AllGot (λ g. In g ran ⊎ ((i : ℕ) × (hand i ≡ some g))) got
    pub once : Apart ran
    pub taken : AllGot (λ g. In g got) ran
    pub real : (i : ℕ) (g : ℕ × Option A) → hand i ≡ some g → In g got
    pub fresh : (i : ℕ) (g : ℕ × Option A) → hand i ≡ some g → AllGot (λ h. h.0 ≢ g.0) ran
    pub own : (i j : ℕ) (g h : ℕ × Option A) → hand i ≡ some g → hand j ≡ some h → g.0 ≡ h.0 → i ≡ j

  module _ {got ran : List (ℕ × Option A)} {hand : ℕ → Option (ℕ × Option A)}
      (b : Books got ran hand) (hand' : ℕ → Option (ℕ × Option A)) where
    -- Nothing changes hands.
    pub same-Books : ((j : ℕ) → hand' j ≡ hand j) → Books got ran hand'
    same-Books same = record {
      covered =
          AllGot-map got (λ g c. elim c [ inl i ↦ inl i | inr (i, e) ↦ inr (i, same i ∙ e) ])
            b.covered;
      once = b.once;
      taken = b.taken;
      real = λ i g e. b.real i g (sym (same i) ∙ e);
      fresh = λ i g e. b.fresh i g (sym (same i) ∙ e);
      own = λ i j g h e e'. b.own i j g h (sym (same i) ∙ e) (sym (same j) ∙ e');
    }

    -- Worker `i` receives on a new ticket.
    pub take-Books :
        (i : ℕ) (g : ℕ × Option A)
        → hand i ≡ none
        → hand' i ≡ some g
        → ((j : ℕ) → i ≢ j → hand' j ≡ hand j)
        → AllGot (λ h. h.0 ≢ g.0) got
        → Books (g ∷ got) ran hand'
    take-Books i g before after other new = record {
      covered = (
        inr (i, after),
        AllGot-map got
            (λ x c. elim c [ inl y ↦ inl y | inr (j, e) ↦ inr (j, other j (λ e'. cc) ∙ e) ])
            b.covered,
      );
      once = b.once;
      taken = AllGot-map ran (λ x y. inr y) b.taken;
      real = λ j x e. elim (ℕ_discrete i j) [
        | yes same ↦ inl (cc)
        | no ne ↦ inr (b.real j x (sym (other j ne) ∙ e))
      ];
      fresh = λ j x e. elim (ℕ_discrete i j) [
        | yes same ↦
            AllGot-map ran (λ y m. rw (← is_given j x same e) (In_ticket y g.0 got new m)) b.taken
        | no ne ↦ b.fresh j x (sym (other j ne) ∙ e)
      ];
      own = λ j k x y e e' t. elim (ℕ_discrete i j) [
        | yes same ↦ elim (ℕ_discrete i k) [
          | yes same' ↦ sym same ∙ same'
          | no ne ↦ absurd (not_given k y ne e' (sym t ∙ ap (λ p. p.0) (sym (is_given j x same e))))
        ]
        | no ne ↦ elim (ℕ_discrete i k) [
          | yes same ↦ absurd (not_given j x ne e (t ∙ ap (λ p. p.0) (sym (is_given k y same e'))))
          | no ne' ↦ b.own j k x y (sym (other j ne) ∙ e) (sym (other k ne') ∙ e') t
        ]
      ];
    }
      where
        is_given : (j : ℕ) (x : ℕ × Option A) → i ≡ j → hand' j ≡ some x → g ≡ x
        is_given j x same e = some-injective _ _ (sym after ∙ ap hand' same ∙ e)

        not_given : (j : ℕ) (x : ℕ × Option A) → i ≢ j → hand' j ≡ some x → x.0 ≢ g.0
        not_given j x ne e = In_ticket x g.0 got new (b.real j x (sym (other j ne) ∙ e))

    -- Worker `i` runs what it has received.
    pub run-Books :
        (i : ℕ) (g : ℕ × Option A)
        → hand i ≡ some g
        → hand' i ≡ none
        → ((j : ℕ) → i ≢ j → hand' j ≡ hand j)
        → Books got (g ∷ ran) hand'
    run-Books i g before after other = record {
      covered =
          AllGot-map got
            (λ x c. elim c [
              | inl y ↦ inl (inr y)
              | inr (j, e) ↦ elim (ℕ_discrete i j) [
                | yes same ↦ inl (inl (some-injective _ _ (sym before ∙ ap hand same ∙ e)))
                | no ne ↦ inr (j, other j ne ∙ e)
              ]
            ])
            b.covered;
      once = (b.fresh i g before, b.once);
      taken = (b.real i g before, b.taken);
      real = λ j x e. b.real j x (was j x e).1;
      fresh = λ j x e.
          let (ne, e') = was j x e in (λ t. ne (b.own i j g x before e' t), b.fresh j x e');
      own = λ j k x y e e' t. b.own j k x y (was j x e).1 (was k y e').1 t;
    }
      where
        was : (j : ℕ) (x : ℕ × Option A) → hand' j ≡ some x → (i ≢ j) × (hand j ≡ some x)
        was j x e = elim (ℕ_discrete i j) [
          | yes same ↦ absurd (cc)
          | no ne ↦ (ne, sym (other j ne) ∙ e)
        ]
