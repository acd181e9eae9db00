-- ===== src/Bytes/Utf8.antt =====
-- `String::from_utf8`: the bytes of a string are well-formed UTF-8 (the Unicode standard's table
-- 3-7, which the standard library follows).
use sembazuru.Base.{
  ℕ, zero, suc, ◌≡◌, refl, Bool, true, false, ◌&&◌, Option, none, some, List, [], ◌∷◌, leb, ltb,
  ◌==◌, if◌then◌else◌, All, lt→ltb, ◌<◌,
}

-- What the decoder waits for: `left` continuation bytes, the next of them within `low` and `high`.
pub record Expect : Type 0 where
  pub left : ℕ
  pub low : ℕ
  pub high : ℕ

abbrev pub start : Expect
start = record { left = 0; low = 0x80; high = 0xBF }

unfoldable pub lead : ℕ → Option Expect
lead b =
    if ltb b 0x80
    then some start
    else if leb 0xC2 b && leb b 0xDF
    then some (record { left = 1; low = 0x80; high = 0xBF })
    else if b == 0xE0
    then some (record { left = 2; low = 0xA0; high = 0xBF })
    else if b == 0xED
    then some (record { left = 2; low = 0x80; high = 0x9F })
    else if leb 0xE1 b && leb b 0xEF
    then some (record { left = 2; low = 0x80; high = 0xBF })
    else if b == 0xF0
    then some (record { left = 3; low = 0x90; high = 0xBF })
    else if leb 0xF1 b && leb b 0xF3
    then some (record { left = 3; low = 0x80; high = 0xBF })
    else if b == 0xF4
    then some (record { left = 3; low = 0x80; high = 0x8F })
    else none

follow : ℕ → ℕ → ℕ → ℕ → Option Expect
follow zero low high b = lead b
follow (suc n) low high b =
    if leb low b && leb b high then some (record { left = n; low = 0x80; high = 0xBF }) else none

utf8_from : Expect → List ℕ → Bool
unfolding follow
utf8_from e [] = e.left == 0
utf8_from e (b ∷ bs) = elim (follow e.left e.low e.high b) [
  | none ↦ false
  | some e' ↦ utf8_from e' bs
]

unfoldable pub is_utf8 : List ℕ → Bool
unfolding utf8_from
is_utf8 bs = utf8_from start bs

abbrev pub IsUtf8 : List ℕ → Type 0
IsUtf8 bs = is_utf8 bs ≡ true

lead_ascii : (b : ℕ) → b < 0x80 → lead b ≡ some start
unfolding lead
lead_ascii b h = rw (lt→ltb b 0x80 h)

pub ascii-IsUtf8 : (bs : List ℕ) → All (λ b. b < 0x80) bs → IsUtf8 bs
unfolding is_utf8
ascii-IsUtf8 [] h = refl
ascii-IsUtf8 (b ∷ bs) h = rw (lead_ascii b h.0, utf8_from) (ascii-IsUtf8 bs h.1)

multibyte : is_utf8 (0x68 ∷ 0xC3 ∷ 0xA9 ∷ 0xF0 ∷ 0x9F ∷ 0x98 ∷ 0x80 ∷ []) ≡ true
unfolding is_utf8 lead
multibyte = refl

surrogate : is_utf8 (0xED ∷ 0xA0 ∷ 0x80 ∷ []) ≡ false
unfolding is_utf8 lead
surrogate = refl

cut_short : is_utf8 (0xC3 ∷ []) ≡ false
unfolding is_utf8 lead
cut_short = refl
