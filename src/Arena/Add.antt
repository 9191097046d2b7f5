-- ===== src/Arena/Add.antt =====
-- `arena_add` on every branch.
use native.Mathlib.Nat.{mul-div_cancel, mod-eq_of_lt}
use seakcutils.Base.{
  lt→ltb, lt→leb, false, ltb, leb, ℕ, suc, true, add_size, ◌+◌, ◌*◌, ◌/◌, ◌^◌, ◌≤◌, ◌<◌, ◌≡◌, refl,
  ap, ◌∙◌, some, List, [], ◌∷◌, ◌++◌, done, fault, arith, length, set, length-set, get_elem?,
  get_elem?-set_self, length-append, store-lt, store-ge, ne→==, eq→==, inr,
}
use seakcutils.Arena.{Arena, Memory, dynamic, rounded, to_double, grown, append_elem, arena_add}
use seakcutils.Arena.Represents.{Represents, le_mul}
use seakcutils.Stored.{Stored, Stored-set, Stored-append}

-- A number of at most 53 binary digits is a `double`.
to_double-lt : (n : ℕ) → n < 2 ^ 53 → to_double n ≡ n
unfolding rounded
to_double-lt n lt =
    let small : ltb n (2 ^ 53 * 1) ≡ true = lt→ltb _ _ (omega (arith, lt)) in
    rw small (ground (arith, lt))

grown_exact : (capacity : ℕ) → capacity * 3 < 2 ^ 53 → grown capacity ≡ capacity * 3 / 2
grown_exact capacity lt =
    let same = to_double-lt capacity (omega (arith, lt)) in
    ap (λ c. to_double (c * 3) / 2) same ∙ ap (λ c. c / 2) (to_double-lt (capacity * 3) lt)

module _ {ℓ} {A : Type ℓ} (memory : Memory A) where
  append_elem-Represents :
      {a : Arena A} {xs : List A} (v : A)
      → Represents a xs
      → length xs < a.capacity
      → (a' : Arena A) × (append_elem memory a v ≡ done (0, some a'))
        × Represents a' (xs ++ v ∷ [])
        × (a'.capacity ≡ a.capacity)
  append_elem-Represents {a} {xs} v r h = (a', runs, valid, refl)
    where
      open r use {buf, allocated, size, counted, small, row}

      a' : Arena A
      a' = record a { bytes = some (set buf a.count v); count = add_size a.count 1 }

      runs : append_elem memory a v ≡ done (0, some a')
      runs = simp (allocated, store-lt buf a.count v (omega arith))

      valid : Represents a' (xs ++ v ∷ [])
      valid = record {
        buf = set buf a.count v;
        allocated = refl;
        size = length-set buf a.count v ∙ size;
        counted = omega (arith, length-append xs (v ∷ []));
        room = omega (arith, length-append xs (v ∷ []));
        small = small;
        row =
            Stored-append _ 0 xs (v ∷ []) (Stored-set buf 0 xs a.count v (inr (omega arith)) row) (
              ap (get_elem? (set buf a.count v)) (omega arith)
                  ∙ get_elem?-set_self buf a.count v (omega arith),
              tt,
            );
      }

  -- What `realloc` promises: as many elements as fit into the bytes asked for, and the old ones kept
  -- as far as they fit.
  abbrev pub Reallocates : ℕ → Type ℓ
  Reallocates elem_size =
      (old : List A) (n : ℕ) (buf : List A)
      → memory.realloc (some old) n ≡ some buf
      → (length buf ≡ n / elem_size)
        × ((i : ℕ) → i < length old → i < length buf → get_elem? buf i ≡ get_elem? old i)

  Stored-copy :
      (old buf : List A) (i : ℕ) (xs : List A)
      → ((k : ℕ) → k < length old → k < length buf → get_elem? buf k ≡ get_elem? old k)
      → i + length xs ≤ length old
      → i + length xs ≤ length buf
      → Stored old i xs
      → Stored buf i xs
  Stored-copy old buf i [] same h k row = tt
  Stored-copy old buf i (x ∷ xs) same h k row = (
    same i (omega arith) (omega arith) ∙ row.0,
    Stored-copy old buf (suc i) xs same (omega arith) (omega arith) row.1,
  )

  -- A new place for the elements, after a growth.
  moved :
      {a : Arena A} {xs : List A} {tmp : List A} {cap : ℕ}
      → Represents a xs
      → Reallocates a.elem_size
      → 0 < a.elem_size
      → a.capacity ≤ cap
      → cap * a.elem_size < 2 ^ 64
      → memory.realloc a.bytes (cap * a.elem_size) ≡ some tmp
      → Represents (record a { bytes = some tmp; capacity = cap }) xs
  moved {a} {xs} {tmp} {cap} r law some_size more fits e =
      let told = law buf (cap * a.elem_size) tmp (rw (← allocated) e) in
      let len : length tmp ≡ cap = told.0 ∙ mul-div_cancel cap some_size in
      record {
        buf = tmp;
        allocated = refl;
        size = len;
        counted = counted;
        room = omega arith;
        small = omega (arith, le_mul cap a.elem_size some_size);
        row = Stored-copy buf tmp 0 xs told.1 (omega arith) (omega arith) row;
      }
    where
      open r use {buf, allocated, size, counted, room, small, row}

  module _ {a : Arena A} {xs : List A} (v : A) (r : Represents a xs) where
    -- With room, and with a successful growth of an arena of two elements or more, `arena_add`
    -- appends the element.
    pub arena_add_room :
        length xs < a.capacity
        → (a' : Arena A) × (arena_add memory (some a) v ≡ done (0, some a'))
          × Represents a' (xs ++ v ∷ [])
          × (a'.capacity ≡ a.capacity)
    unfolding arena_add
    arena_add_room h =
        let counted = r.counted in
        rw (ne→== a.count a.capacity (omega arith)) (append_elem-Represents v r h)

    module _ {tmp : List A} (full : length xs ≡ a.capacity) (dyn : a.preference ≡ dynamic)
        (exact : a.capacity * 3 < 2 ^ 53) where
      grows :
          a.capacity * 3 / 2 * a.elem_size < 2 ^ 64
          → memory.realloc a.bytes (a.capacity * 3 / 2 * a.elem_size) ≡ some tmp
          → arena_add memory (some a) v
            ≡ append_elem memory (record a { bytes = some tmp; capacity = a.capacity * 3 / 2 }) v
      unfolding arena_add
      grows fits e =
          let counted = r.counted in
          let cap : grown a.capacity ≡ a.capacity * 3 / 2 = grown_exact a.capacity exact in
          let in_range : leb (2 ^ 64) (a.capacity * 3 / 2) ≡ false =
            lt→leb _ _ (omega (arith, exact)) in
          simp (
            eq→== a.count a.capacity (omega arith),
            dyn,
            cap,
            in_range,
            ap (memory.realloc a.bytes) (mod-eq_of_lt fits) ∙ e,
          )

    -- In a full dynamic arena of at least two and at most 2 ^ 53 / 3 elements, of a positive size
    -- each, where `realloc` keeps the old elements and gives the storage asked for, and the size in
    -- bytes stays below 2 ^ 64, `arena_add` returns 0, appends the element, keeps the others and makes
    -- the capacity one and a half times as large, without the half of an element.
    pub arena_add_grows :
        {tmp : List A}
        → length xs ≡ a.capacity
        → a.preference ≡ dynamic
        → 2 ≤ a.capacity
        → a.capacity * 3 < 2 ^ 53
        → Reallocates a.elem_size
        → 0 < a.elem_size
        → a.capacity * 3 / 2 * a.elem_size < 2 ^ 64
        → memory.realloc a.bytes (a.capacity * 3 / 2 * a.elem_size) ≡ some tmp
        → (a' : Arena A) × (arena_add memory (some a) v ≡ done (0, some a'))
          × Represents a' (xs ++ v ∷ [])
          × (a'.capacity ≡ a.capacity * 3 / 2)
    arena_add_grows full dyn two exact law some_size fits e =
        rw (grows full dyn exact fits e)
          (append_elem-Represents v (moved r law some_size (omega arith) fits e) (omega arith))

    -- A full arena of one element does not grow, for half of one is cut off: the write lands behind
    -- the storage.
    pub arena_add_one_faults :
        {tmp : List A}
        → length xs ≡ a.capacity
        → a.preference ≡ dynamic
        → a.capacity ≡ 1
        → Reallocates a.elem_size
        → 0 < a.elem_size
        → a.elem_size < 2 ^ 64
        → memory.realloc a.bytes a.elem_size ≡ some tmp
        → arena_add memory (some a) v ≡ fault
    arena_add_one_faults {tmp} full dyn one law some_size fits e =
        rw
          (grows full dyn (omega (arith, one)) (omega (arith, same, fits))
            (ap (memory.realloc a.bytes) same ∙ e))
          (store_faults)
      where
        open r use {buf, allocated, counted}

        same : a.capacity * 3 / 2 * a.elem_size ≡ a.elem_size
        same = ap (λ c. c * 3 / 2 * a.elem_size) one ∙ omega arith

        len : length tmp ≡ 1
        len =
            (law buf a.elem_size tmp (rw (← allocated) e)).0
            ∙ ap (λ n. n / a.elem_size) (omega arith)
            ∙ mul-div_cancel 1 some_size

        store_faults :
            append_elem memory (record a { bytes = some tmp; capacity = a.capacity * 3 / 2 }) v
            ≡ fault
        store_faults = simp (store-ge tmp a.count v (omega (arith, len)))
