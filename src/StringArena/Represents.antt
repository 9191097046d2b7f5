-- ===== src/StringArena/Represents.antt =====
-- When a string arena stands for a list of strings, and that `arena_getS` finds each of them.
use seakcutils.Base.{
  ℕ, suc, ◌+◌, ◌≤◌, ◌≡◌, refl, ap, ◌∙◌, Option, none, some, List, [], ◌∷◌, ◌++◌, done, arith,
  length, get_elem?, load-some, leb, lt_of_get_elem?, false,
}
use mathlib.Core.Path.{subst}
use mathlib.Core.Option.{some-injective}
use seakcutils.StringArena.{StringArena, arena_s_create, arena_get_s, arena_s_reset}
use seakcutils.Stored.{Stored}

abbrev pub storage : Option (List ℕ) → List ℕ
storage none = []
storage (some buf) = buf

-- From index `i` of the offsets and place `off` of the characters on the strings stand one behind
-- the other, each with its zero, up to place `end`.
abbrev pub Laid : List ℕ → List ℕ → ℕ → ℕ → ℕ → List (List ℕ) → Type 0
Laid chars offs i off end [] = off ≡ end
Laid chars offs i off end (s ∷ ss) =
    (get_elem? offs i ≡ some off)
    × Stored chars off (s ++ 0 ∷ [])
    × Laid chars offs (suc i) (off + (length s + 1)) end ss

pub record Represents (a : StringArena) (strs : List (List ℕ)) : Type 0 where
  pub fits : a.size ≤ length (storage a.chars)
  pub places : length (storage a.offsets) ≡ a.capacity
  pub counted : a.count ≡ length strs
  pub room : length strs ≤ a.capacity
  pub laid : Laid (storage a.chars) (storage a.offsets) 0 0 a.size strs

pub storage-some :
    (o : Option (List ℕ)) (i : ℕ) {x : ℕ}
    → get_elem? (storage o) i ≡ some x
    → (buf : List ℕ) × (o ≡ some buf) × (get_elem? buf i ≡ some x)
storage-some none i h = absurd (cc)
storage-some (some buf) i h = (buf, refl, h)

pub arena_s_create-Represents : Represents arena_s_create []
unfolding arena_s_create
arena_s_create-Represents = record {
  fits = omega arith;
  places = refl;
  counted = refl;
  room = omega arith;
  laid = refl;
}

pub arena_s_reset-Represents :
    {a : StringArena} {strs : List (List ℕ)} → Represents a strs → Represents (arena_s_reset a) []
unfolding arena_s_reset
arena_s_reset-Represents r = record {
  fits = omega arith;
  places = r.places;
  counted = refl;
  room = omega arith;
  laid = refl;
}

-- Where string `k` of a row of strings stands.
Laid-at :
    (chars offs : List ℕ) (i off end : ℕ) (strs : List (List ℕ)) (k : ℕ) {s : List ℕ}
    → Laid chars offs i off end strs
    → get_elem? strs k ≡ some s
    → (p : ℕ) × (get_elem? offs (i + k) ≡ some p) × Stored chars p (s ++ 0 ∷ [])
Laid-at chars offs i off end [] k h e = absurd (cc)
Laid-at chars offs i off end (t ∷ ss) ℕ.zero h e = (
  off,
  ap (get_elem? offs) (omega arith) ∙ h.0,
  subst (λ l. Stored chars off (l ++ 0 ∷ [])) (some-injective t _ e) h.1,
)
Laid-at chars offs i off end (t ∷ ss) (suc k) h e =
    let (p, at, row) = Laid-at chars offs (suc i) (off + (length t + 1)) end ss k h.2 e in
    (p, ap (get_elem? offs) (omega arith) ∙ at, row)

module _ {a : StringArena} {strs : List (List ℕ)} (r : Represents a strs) (i : ℕ) where
  -- On an arena that represents a list of strings, for an index of the list `arena_getS` returns a
  -- pointer at which the characters of that string and a zero stand.
  pub arena_get_s-some :
      {s : List ℕ}
      → get_elem? strs i ≡ some s
      → (p : ℕ) × (arena_get_s a i ≡ done (some p)) × Stored (storage a.chars) p (s ++ 0 ∷ [])
  unfolding arena_get_s
  arena_get_s-some {s} e =
      let (p, at, row) = Laid-at _ _ 0 0 a.size strs i r.laid e in
      let at' : get_elem? (storage a.offsets) i ≡ some p =
        ap (get_elem? (storage a.offsets)) (omega arith) ∙ at in
      let below : leb a.count i ≡ false = ground (arith, r.counted, lt_of_get_elem? strs i e) in
      let (offs, here, at_offs) = storage-some a.offsets i at' in
      (p, simp (below, here, load-some offs i at_offs), row)

  -- On an arena that represents a list of strings, `arena_getS` returns NULL for an index past its end.
  pub arena_get_s-none : length strs ≤ i → arena_get_s a i ≡ done none
  unfolding arena_get_s
  arena_get_s-none h = let counted = r.counted in ground arith
