-- ===== src/StringArena/Add.antt =====
-- `arenas/string_arena.h`: `realloc`, the copy of a string, and the second part of `arena_addS`.
use mathlib.Core.Path.{sym}
use native.Mathlib.Nat.{mod-eq_of_lt}
use seakcutils.Base.{
  ◌%◌, none, ◌^◌, ℕ, suc, ◌+◌, ◌/◌, ◌≤◌, ◌<◌, ◌≡◌, refl, ap, ◌∙◌, Option, some, List, [], ◌∷◌, ◌++◌,
  done, arith, length, set, length-set, get_elem?, store-lt, get_elem?-set_ne, get_elem?-set_self,
  length-append,
}
use seakcutils.StringArena.{StringArena, Memory, append_string, write_row}
use seakcutils.StringArena.Represents.{storage, Laid, Represents}
use seakcutils.Stored.{Stored}

-- What `realloc` promises: room for the bytes asked for, and the old contents as far as they fit.
abbrev pub Reallocates : ℕ → (Option (List ℕ) → ℕ → Option (List ℕ)) → Type 0
Reallocates elem_size realloc =
    (old : Option (List ℕ)) (n : ℕ) (buf : List ℕ)
    → realloc old n ≡ some buf
    → (length buf ≡ n / elem_size)
      × ((i : ℕ)
          → i < length (storage old)
          → i < length buf
          → get_elem? buf i ≡ get_elem? (storage old) i)

-- A copy that agrees below `end` holds the same row.
Stored-agree :
    (old buf : List ℕ) (i : ℕ) (xs : List ℕ) (end : ℕ)
    → ((k : ℕ) → k < end → get_elem? buf k ≡ get_elem? old k)
    → i + length xs ≤ end
    → Stored old i xs
    → Stored buf i xs
Stored-agree old buf i [] end same h row = tt
Stored-agree old buf i (x ∷ xs) end same h row =
    (same i (omega arith) ∙ row.0, Stored-agree old buf (suc i) xs end same (omega arith) row.1)

Laid-le :
    (chars offs : List ℕ) (i off end : ℕ) (strs : List (List ℕ))
    → Laid chars offs i off end strs
    → off ≤ end
Laid-le chars offs i off end [] h = omega arith
Laid-le chars offs i off end (s ∷ ss) h =
    omega (arith, Laid-le chars offs (suc i) (off + (length s + 1)) end ss h.2)

-- So does the whole row of strings.
pub Laid-agree :
    (chars offs chars' offs' : List ℕ) (i off end : ℕ) (strs : List (List ℕ))
    → ((k : ℕ) → k < end → get_elem? chars' k ≡ get_elem? chars k)
    → ((k : ℕ) → k < i + length strs → get_elem? offs' k ≡ get_elem? offs k)
    → Laid chars offs i off end strs
    → Laid chars' offs' i off end strs
Laid-agree chars offs chars' offs' i off end [] same same' h = h
Laid-agree chars offs chars' offs' i off end (s ∷ ss) same same' h = (
  same' i (omega arith) ∙ h.0,
  Stored-agree chars chars' off (s ++ 0 ∷ []) end same
      (omega (
        arith,
        length-append s (0 ∷ []),
        Laid-le chars offs (suc i) (off + (length s + 1)) end ss h.2,
      ))
      h.1,
  Laid-agree chars offs chars' offs' (suc i) (off + (length s + 1)) end ss same
      (λ k lt. same' k (omega arith)) h.2,
)

-- One more string at the end.
Laid-snoc :
    (chars offs : List ℕ) (i off end : ℕ) (strs : List (List ℕ)) (s : List ℕ)
    → Laid chars offs i off end strs
    → get_elem? offs (i + length strs) ≡ some end
    → Stored chars end (s ++ 0 ∷ [])
    → Laid chars offs i off (end + (length s + 1)) (strs ++ s ∷ [])
Laid-snoc chars offs i off end [] s h at row =
    rw h (ap (get_elem? offs) (omega arith) ∙ at, row, refl)
Laid-snoc chars offs i off end (t ∷ ss) s h at row = (
  h.0,
  h.1,
  Laid-snoc chars offs (suc i) (off + (length t + 1)) end ss s h.2
      (ap (get_elem? offs) (omega arith) ∙ at) row,
)

-- `memcpy` inside the storage writes the row and nothing else.
write_row-Stored :
    (buf : List ℕ) (i : ℕ) (xs : List ℕ)
    → i + length xs ≤ length buf
    → (buf' : List ℕ) × (write_row buf i xs ≡ done buf')
      × (length buf' ≡ length buf)
      × Stored buf' i xs
      × ((k : ℕ) → k < i → get_elem? buf' k ≡ get_elem? buf k)
unfolding write_row
write_row-Stored buf i [] h = (buf, refl, refl, tt, λ k lt. refl)
write_row-Stored buf i (x ∷ xs) h =
    let (buf', runs, len, row, same) =
      write_row-Stored (set buf i x) (suc i) xs (omega (arith, length-set buf i x)) in
    (
      buf',
      rw (store-lt buf i x (omega arith)) runs,
      len ∙ length-set buf i x,
      (same i (omega arith) ∙ get_elem?-set_self buf i x (omega arith), row),
      λ k lt. same k (omega arith) ∙ get_elem?-set_ne buf x (omega arith),
    )

-- A place of an array that has elements.
storage_pos : (o : Option (List ℕ)) → 0 < length (storage o) → (buf : List ℕ) × (o ≡ some buf)
storage_pos none h = absurd (omega (arith, h))
storage_pos (some buf) h = (buf, refl)

-- The run of the second part, from the runs of what it calls.
append_string_runs :
    (memory : Memory) (a : StringArena) (s : List ℕ) {buf offs buf' : List ℕ}
    → memory.realloc_chars a.chars (a.size + (length s + 1)) ≡ some buf
    → a.offsets ≡ some offs
    → a.count < length offs
    → write_row buf a.size (s ++ 0 ∷ []) ≡ done buf'
    → a.size + (length s + 1) < 2 ^ 64
    → (a.count + 1) % 2 ^ 64 ≡ a.count + 1
    → append_string memory a s
      ≡ done (record {
        chars = some buf';
        size = a.size + (length s + 1);
        offsets = some (set offs a.count a.size);
        count = a.count + 1;
        capacity = a.capacity;
      })
unfolding append_string
append_string_runs memory a s {offs = offs} e at lt runs fits one_more =
    simp (append_string, mod-eq_of_lt fits, e, at, store-lt offs a.count a.size lt, runs, one_more)

-- Where there is room for one more offset, `realloc` of the characters keeps the old ones and gives
-- the storage asked for, and the sizes stay below 2 ^ 64, the rest of `arena_addS` appends the
-- string.
pub append_string-Represents :
    (memory : Memory) {a : StringArena} {strs : List (List ℕ)} (s : List ℕ) {buf : List ℕ}
    → Represents a strs
    → length strs < a.capacity
    → a.capacity < 2 ^ 64
    → a.size + (length s + 1) < 2 ^ 64
    → Reallocates 1 memory.realloc_chars
    → memory.realloc_chars a.chars (a.size + (length s + 1)) ≡ some buf
    → (a' : StringArena) × (append_string memory a s ≡ done a')
      × Represents a' (strs ++ s ∷ [])
      × (a'.capacity ≡ a.capacity)
append_string-Represents memory {a} {strs} s {buf} r some_room small fits law e =
    let (offs, at_offs) = storage_pos a.offsets (omega (arith, r.places)) in
    let (enough, same) = law a.chars _ buf e in
    let one_more : (a.count + 1) % 2 ^ 64 ≡ a.count + 1 = mod-eq_of_lt (omega (arith, r.counted)) in
    let len_offs : length offs ≡ a.capacity =
      ap (λ o. length (storage o)) (sym at_offs) ∙ r.places in
    let (buf', runs, len, row, kept) =
      write_row-Stored buf a.size (s ++ 0 ∷ []) (omega (arith, length-append s (0 ∷ []), enough)) in
    (
      record {
        chars = some buf';
        size = a.size + (length s + 1);
        offsets = some (set offs a.count a.size);
        count = a.count + 1;
        capacity = a.capacity;
      },
      append_string_runs memory a s e at_offs (omega (arith, r.counted)) runs fits one_more,
      record {
        fits = omega (arith, len, enough);
        places = length-set offs a.count a.size ∙ len_offs;
        counted = omega (arith, r.counted, length-append strs (s ∷ []));
        room = omega (arith, length-append strs (s ∷ []));
        laid =
            Laid-snoc buf' (set offs a.count a.size) 0 0 a.size strs s
              (Laid-agree (storage a.chars) (storage a.offsets) buf' (set offs a.count a.size) 0 0
                a.size strs
                (λ k lt. kept k lt ∙ same k (omega (arith, r.fits)) (omega (arith, enough)))
                (λ k lt.
                  get_elem?-set_ne offs a.size (omega (arith, r.counted))
                  ∙ ap (λ o. get_elem? (storage o) k) (sym at_offs))
                r.laid)
              (ap (get_elem? (set offs a.count a.size)) (omega (arith, r.counted))
                ∙ get_elem?-set_self offs a.count a.size (omega (arith, r.counted)))
              row;
      },
      refl,
    )
