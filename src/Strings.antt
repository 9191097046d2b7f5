-- ===== src/Strings.antt =====
-- strings/mystrings.h: ASCII case mapping and the bits of a character.
-- A byte (`ascii`, `uint8_t`) is a number below 256; `>>`, `&` and the cast to `uint8_t` are written
-- out as `/`, `%` and `% 256`.
pub mod Case
pub mod Bits
mod Tests
use seakcutils.Base.{
  ℕ, zero, suc, ◌+◌, ◌-◌, ◌/◌, ◌%◌, ◌^◌, Bool, ◌&&◌, not, List, [], ◌∷◌, ◌==◌, leb, if◌then◌else◌,
  Run, done, fault, ◌>>=◌, load, store,
}

-- The test of `ascii_to_uppercase`: `(c >> 5) & 0b11 && c <= 0x7A`.
abbrev pub upper_test : ℕ → Bool
upper_test c = not (c / 2 ^ 5 % 4 == 0) && leb c 0x7A

-- The test of `ascii_to_lowercase`: `(c >> 5) & 0b10 && c <= 0x5A`.
abbrev pub lower_test : ℕ → Bool
lower_test c = not (c / 2 ^ 5 / 2 % 2 == 0) && leb c 0x5A

unfoldable pub upper_byte : ℕ → ℕ
upper_byte c = if upper_test c then (c + 256 - 0x20) % 256 else c

unfoldable pub lower_byte : ℕ → ℕ
lower_byte c = if lower_test c then (c + 0x20) % 256 else c

-- The loop of both functions, from index `x` with `n` rounds to go.
unfoldable pub each_byte : (ℕ → ℕ) → ℕ → ℕ → List ℕ → Run (List ℕ)
each_byte f zero x string = done string
each_byte f (suc n) x string = do
  c ← load string x
  string' ← store string x (f c)
  each_byte f n (x + 1) string'

unfoldable pub ascii_to_uppercase : List ℕ → ℕ → Run (List ℕ)
ascii_to_uppercase string num_c = each_byte upper_byte num_c 0 string

unfoldable pub ascii_to_lowercase : List ℕ → ℕ → Run (List ℕ)
ascii_to_lowercase string num_c = each_byte lower_byte num_c 0 string

-- `bits[x] = (c >> x) & 1` for the `n` indices from `x` on.
abbrev pub bits_from : ℕ → ℕ → ℕ → List ℕ
bits_from zero x c = []
bits_from (suc n) x c = (c / 2 ^ x % 2) ∷ bits_from n (x + 1) c

unfoldable pub ascii2bits : ℕ → List ℕ
ascii2bits c = bits_from 8 0 c
