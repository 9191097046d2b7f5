-- ===== src/Strings/Bits.antt =====
-- The bits of a character.
use seakcutils.Base.{ℕ, ◌+◌, ◌*◌, ◌<◌, ◌≡◌, refl, List, [], ◌∷◌, arith, length}
use seakcutils.Strings.{ascii2bits}

-- The number with these bits, the lowest first.
abbrev pub value : List ℕ → ℕ
value [] = 0
value (b ∷ bs) = b + 2 * value bs

abbrev pub AllBits : List ℕ → Type 0
AllBits [] = Unit
AllBits (b ∷ bs) = (b < 2) × AllBits bs

-- `ascii2bits` gives eight bits, the lowest first, that make up the character.
pub value-ascii2bits :
    (c : ℕ)
    → c < 256
    → (value (ascii2bits c) ≡ c) × AllBits (ascii2bits c) × (length (ascii2bits c) ≡ 8)
unfolding ascii2bits
value-ascii2bits c h = (omega arith, omega arith, refl)
