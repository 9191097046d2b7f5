-- ===== src/Strings/Tests.antt =====
-- Runs of the string functions at small inputs.
use seakcutils.Base.{
  ◌<◌, ◌≤◌, ◌⊎◌, ◌≢◌, ◌↔◌, ◌≡◌, refl, [], ◌∷◌, ◌++◌, map, done, fault, arith, load, store,
}
use seakcutils.Strings.{upper_byte, lower_byte, each_byte, ascii_to_uppercase, ascii_to_lowercase}
use seakcutils.Strings.Case.{All, to_upper, to_lower, ascii_case_lem}

-- "a1B" becomes "A" 0x11 "\"": the digit and the upper case letter are changed too.
shouts : ascii_to_uppercase (b'a' ∷ b'1' ∷ b'B' ∷ []) 3 ≡ done (b'A' ∷ 0x11 ∷ b'"' ∷ [])
unfolding ascii_to_uppercase each_byte upper_byte load store
shouts = refl

-- One byte more than the storage holds.
overrun : ascii_to_lowercase (b'A' ∷ []) 2 ≡ fault
unfolding ascii_to_lowercase each_byte lower_byte load store
overrun = refl

ascii_case_lem_example :
    ((ascii_to_uppercase (b'a' ∷ b'1' ∷ b'b' ∷ []) 2
        ≡ done (map to_upper (b'a' ∷ b'1' ∷ []) ++ b'b' ∷ []))
      ↔ All (λ c. (c < 0x20) ⊎ (0x61 ≤ c)) (b'a' ∷ b'1' ∷ []))
    × ((ascii_to_lowercase (b'a' ∷ b'1' ∷ b'b' ∷ []) 2
          ≡ done (map to_lower (b'a' ∷ b'1' ∷ []) ++ b'b' ∷ []))
        ↔ All (λ c. c ≢ 0x40) (b'a' ∷ b'1' ∷ []))
ascii_case_lem_example =
    ascii_case_lem (b'a' ∷ b'1' ∷ []) (b'b' ∷ []) (omega arith, (omega arith, tt))
