-- ===== src/Strings/Case.antt =====
-- What the case mappings do to every byte and to a whole string.
use seakcutils.Base.{
  ℕ, sym, ◌↔◌, ◌&&◌, leb, if◌then◌else◌, store-lt, length-append, append_assoc, ◌+◌, ◌-◌, ◌≤◌, ◌<◌,
  ◌≡◌, ◌≢◌, refl, ap, ◌∙◌, ◌⊎◌, List, [], ◌∷◌, ◌++◌, map, done, arith, length, set, load, store,
}
use seakcutils.Strings.{upper_byte, lower_byte, each_byte, ascii_to_uppercase, ascii_to_lowercase}

-- What the header promises: only lower case letters, only upper case letters.
unfoldable pub to_upper : ℕ → ℕ
to_upper c = if leb 0x61 c && leb c 0x7A then c - 0x20 else c

unfoldable pub to_lower : ℕ → ℕ
to_lower c = if leb 0x41 c && leb c 0x5A then c + 0x20 else c

-- `ascii_to_uppercase` turns a byte into what the header promises exactly if the byte is below 0x20
-- or at least 'a'.
upper_byte-eq-to_upper : (c : ℕ) → c < 256 → (upper_byte c ≡ to_upper c) ↔ ((c < 0x20) ⊎ (0x61 ≤ c))
unfolding upper_byte to_upper
upper_byte-eq-to_upper c h = (λ e. ground arith, λ p. ground arith)

-- `ascii_to_lowercase` does what the header promises to every byte but '@'.
lower_byte-eq-to_lower : (c : ℕ) → c < 256 → (lower_byte c ≡ to_lower c) ↔ (c ≢ 0x40)
unfolding lower_byte to_lower
lower_byte-eq-to_lower c h = (λ e d. ground arith, λ p. ground arith)

load-append : (pre zs : List ℕ) (c : ℕ) → load (pre ++ c ∷ zs) (length pre) ≡ done c
unfolding load
load-append [] zs c = refl
load-append (x ∷ pre) zs c = load-append pre zs c

set-append : (pre zs : List ℕ) (c d : ℕ) → set (pre ++ c ∷ zs) (length pre) d ≡ pre ++ d ∷ zs
set-append [] zs c d = refl
set-append (x ∷ pre) zs c d = ap (λ l. x ∷ l) (set-append pre zs c d)

store-append :
    (pre zs : List ℕ) (c d : ℕ) → store (pre ++ c ∷ zs) (length pre) d ≡ done (pre ++ d ∷ zs)
store-append pre zs c d =
    store-lt _ _ d (omega (arith, length-append pre (c ∷ zs))) ∙ ap done (set-append pre zs c d)

-- The loop maps the bytes in front of it, whatever stands before and behind them.
each_byte-map :
    (f : ℕ → ℕ) (pre xs ys : List ℕ)
    → each_byte f (length xs) (length pre) (pre ++ (xs ++ ys)) ≡ done (pre ++ (map f xs ++ ys))
unfolding each_byte
each_byte-map f pre [] ys = refl
each_byte-map f pre (x ∷ xs) ys =
    rw (load-append pre (xs ++ ys) x, store-append pre (xs ++ ys) x (f x))
      (ap (λ n. each_byte f (length xs) n (pre ++ f x ∷ (xs ++ ys)))
          (sym (length-append pre (f x ∷ [])))
        ∙ ap (each_byte f (length xs) (length (pre ++ f x ∷ [])))
            (sym (append_assoc pre (f x ∷ []) (xs ++ ys)))
        ∙ each_byte-map f (pre ++ f x ∷ []) xs ys
        ∙ ap done (append_assoc pre (f x ∷ []) (map f xs ++ ys)))

-- With at least `num_c` bytes of storage the functions map the first `num_c` bytes and keep the
-- rest; there is no access out of bounds.
ascii_case-map :
    (xs ys : List ℕ)
    → (ascii_to_uppercase (xs ++ ys) (length xs) ≡ done (map upper_byte xs ++ ys))
      × (ascii_to_lowercase (xs ++ ys) (length xs) ≡ done (map lower_byte xs ++ ys))
unfolding ascii_to_uppercase ascii_to_lowercase
ascii_case-map xs ys = (each_byte-map upper_byte [] xs ys, each_byte-map lower_byte [] xs ys)

abbrev pub All : (ℕ → Type 0) → List ℕ → Type 0
All P [] = Unit
All P (x ∷ xs) = P x × All P xs

done-injective : {a b : List ℕ} → done a ≡ done b → a ≡ b
done-injective e = cc

head_same : {x y : ℕ} {xs ys : List ℕ} → x ∷ xs ≡ y ∷ ys → x ≡ y
head_same e = cc

tail_same : {x y : ℕ} {xs ys : List ℕ} → x ∷ xs ≡ y ∷ ys → xs ≡ ys
tail_same e = cc

module _ (f g : ℕ → ℕ) (P : ℕ → Type 0) (agree : (c : ℕ) → c < 256 → (f c ≡ g c) ↔ P c)
    (ys : List ℕ) where
  agrees : (xs : List ℕ) → All (λ c. c < 256) xs → (map f xs ++ ys ≡ map g xs ++ ys) ↔ All P xs
  agrees [] bytes = (λ e. tt, λ h. refl)
  agrees (x ∷ xs) (byte, bytes) =
      let (to, from) = agrees xs bytes in
      (
        λ e. ((agree x byte).0 (head_same e), to (tail_same e)),
        λ h. rw ((agree x byte).1 h.0, from h.1) refl,
      )

-- On bytes, with at least `num_c` of them in the storage: `ascii_to_uppercase` makes of the first
-- `num_c` bytes what the header promises, keeps the rest and does not fault, exactly if each of them
-- is below 0x20 or at least 'a', and `ascii_to_lowercase` exactly if none of them is '@'.
pub ascii_case_lem :
    (xs ys : List ℕ)
    → All (λ c. c < 256) xs
    → ((ascii_to_uppercase (xs ++ ys) (length xs) ≡ done (map to_upper xs ++ ys))
        ↔ All (λ c. (c < 0x20) ⊎ (0x61 ≤ c)) xs)
      × ((ascii_to_lowercase (xs ++ ys) (length xs) ≡ done (map to_lower xs ++ ys))
          ↔ All (λ c. c ≢ 0x40) xs)
ascii_case_lem xs ys bytes =
    let (upper, lower) = ascii_case-map xs ys in
    let (to, from) = agrees upper_byte to_upper _ upper_byte-eq-to_upper ys xs bytes in
    let (to', from') = agrees lower_byte to_lower _ lower_byte-eq-to_lower ys xs bytes in
    (
      (λ e. to (done-injective (sym upper ∙ e)), λ h. upper ∙ ap done (from h)),
      (λ e. to' (done-injective (sym lower ∙ e)), λ h. lower ∙ ap done (from' h)),
    )
