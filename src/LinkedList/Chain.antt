-- ===== src/LinkedList/Chain.antt =====
-- data_structures/linkedlist.h: nodes that are linked in both directions.
use seakcutils.Base.{
  length, ◌∙◌, ℕ, ◌≡◌, ◌≢◌, Option, none, some, List, [], ◌∷◌, ◌++◌, refl, sym, ap,
}
use seakcutils.Deque.Spec
use seakcutils.LinkedList.Heap.{find, Bytes, LlNode, Cells, Points, write, write_ne}

-- The address of each node with its element, from `tail` to `head`.
abbrev pub Nodes : Type 0
Nodes = List (ℕ × Bytes)

-- The address of the first node and of the last one, `q` where there is none.
abbrev pub first : Nodes → ℕ → ℕ
first [] q = q
first ((p, v) ∷ ns) q = p

abbrev pub last : Nodes → ℕ → ℕ
last [] q = q
last ((p, v) ∷ ns) q = last ns p

-- An address that is none of theirs.
abbrev pub Apart : ℕ → Nodes → Type 0
Apart a [] = Unit
Apart a ((p, v) ∷ ns) = (a ≢ p) × Apart a ns

-- The nodes `ns` stand between the nodes `before` and `after`.
abbrev pub Chain : Cells → ℕ → Nodes → ℕ → Type 0
Chain cells before [] after = Unit
Chain cells before ((p, v) ∷ ns) after =
    Points cells p (record { next = first ns after; prev = before; elem = some v })
    × Apart p ns
    × Chain cells p ns after

pub Apart-append : (a : ℕ) (ms ns : Nodes) → Apart a ms → Apart a ns → Apart a (ms ++ ns)
Apart-append a [] ns h k = k
Apart-append a ((p, v) ∷ ms) ns h k = (h.0, Apart-append a ms ns h.1 k)

pub Apart-left : (a : ℕ) (ms ns : Nodes) → Apart a (ms ++ ns) → Apart a ms
Apart-left a [] ns h = tt
Apart-left a ((p, v) ∷ ms) ns h = (h.0, Apart-left a ms ns h.1)

pub Apart-right : (a : ℕ) (ms ns : Nodes) → Apart a (ms ++ ns) → Apart a ns
Apart-right a [] ns h = h
Apart-right a ((p, v) ∷ ms) ns h = Apart-right a ms ns h.1

pub first-append : (ms ns : Nodes) (q : ℕ) → first (ms ++ ns) q ≡ first ms (first ns q)
first-append [] ns q = refl
first-append ((p, v) ∷ ms) ns q = refl

pub last-append : (ms : Nodes) (p : ℕ) (v : Bytes) (q : ℕ) → last (ms ++ (p, v) ∷ []) q ≡ p
last-append [] p v q = refl
last-append ((a, w) ∷ ms) p v q = last-append ms p v a

-- A heap that agrees but for an address that is none of theirs holds the nodes too.
pub Chain-frame :
    (cells cells' : Cells) (before : ℕ) (ns : Nodes) (after q : ℕ)
    → ((a : ℕ) → a ≢ q → find cells' a ≡ find cells a)
    → Apart q ns
    → Chain cells before ns after
    → Chain cells' before ns after
Chain-frame cells cells' before [] after q same away h = tt
Chain-frame cells cells' before ((p, v) ∷ ns) after q same away h = (
  record { proper = h.0.proper; holds = same p (λ e. away.0 (sym e)) ∙ h.0.holds },
  h.1,
  Chain-frame cells cells' p ns after q same away.1 h.2,
)

pub Chain-write :
    (cells : Cells) (before : ℕ) (ns : Nodes) (after a : ℕ) (c : Option LlNode)
    → Apart a ns
    → Chain cells before ns after
    → Chain (write cells a c) before ns after
Chain-write cells before ns after a c =
    Chain-frame cells (write cells a c) before ns after a (λ b ne. write_ne cells a b c ne)

-- An address without a node is none of theirs, and neither is NULL.
pub Apart-of_none :
    (cells : Cells) (before : ℕ) (ns : Nodes) (after a : ℕ)
    → find cells a ≡ none
    → Chain cells before ns after
    → Apart a ns
Apart-of_none cells before [] after a e h = tt
Apart-of_none cells before ((p, v) ∷ ns) after a e h =
    (λ same. cc (h.0.holds), Apart-of_none cells p ns after a e h.2)

-- The node at the head of a chain, taken off and put on.
pub Chain-unsnoc :
    (cells : Cells) (before : ℕ) (ms : Nodes) (p : ℕ) (v : Bytes) (after : ℕ)
    → Chain cells before (ms ++ (p, v) ∷ []) after
    → Chain cells before ms p
      × Points cells p (record { next = after; prev = last ms before; elem = some v })
      × Apart p ms
Chain-unsnoc cells before [] p v after h = (tt, h.0, tt)
Chain-unsnoc cells before ((a, w) ∷ ms) p v after h =
    let (chain, here, away) = Chain-unsnoc cells a ms p v after h.2 in
    (
      (rw (first-append ms ((p, v) ∷ []) after) at h.0, Apart-left a ms _ h.1, chain),
      here,
      (λ e. (Apart-right a ms ((p, v) ∷ []) h.1).0 (sym e), away),
    )

pub Chain-snoc :
    (cells : Cells) (before : ℕ) (ms : Nodes) (p : ℕ) (v : Bytes) (after : ℕ)
    → Chain cells before ms p
    → Points cells p (record { next = after; prev = last ms before; elem = some v })
    → Apart p ms
    → Chain cells before (ms ++ (p, v) ∷ []) after
Chain-snoc cells before [] p v after h here away = (here, tt, tt)
Chain-snoc cells before ((a, w) ∷ ms) p v after h here away = (
  rw (first-append ms ((p, v) ∷ []) after) (h.0),
  Apart-append a ms ((p, v) ∷ []) h.1 (λ e. away.0 (sym e), tt),
  Chain-snoc cells a ms p v after h.2 here away.1,
)

abbrev pub values : Nodes → List Bytes
values [] = []
values ((p, v) ∷ ns) = v ∷ values ns

-- Every list of nodes that is not empty has one at the head.
pub unsnoc :
    (a : ℕ) (w : Bytes) (ns : Nodes)
    → (ms : Nodes) × (p : ℕ) × (v : Bytes) × ((a, w) ∷ ns ≡ ms ++ (p, v) ∷ [])
      × (values ms ≡ Spec.but_last w (values ns))
      × (v ≡ Spec.last w (values ns))
unsnoc a w [] = ([], a, w, refl, refl, refl)
unsnoc a w ((b, u) ∷ ns) =
    let (ms, p, v, e, front, end) = unsnoc b u ns in
    ((a, w) ∷ ms, p, v, ap (λ l. (a, w) ∷ l) e, ap (λ l. w ∷ l) front, end)

pub values-append : (ms ns : Nodes) → values (ms ++ ns) ≡ values ms ++ values ns
values-append [] ns = refl
values-append ((p, v) ∷ ms) ns = ap (λ l. v ∷ l) (values-append ms ns)

pub length-values : (ns : Nodes) → length (values ns) ≡ length ns
length-values [] = refl
length-values ((p, v) ∷ ns) = ap ℕ.suc (length-values ns)
