-- ===== src/Tracer/Utf16.antt =====
-- `String::from_utf16_lossy`: a surrogate without its other half is U+FFFD. A string is the list of its UTF-8 bytes.
use sembazuru.Base.{
  ℕ, ◌+◌, ◌-◌, ◌*◌, ◌/◌, ◌%◌, Bool, ◌&&◌, List, [], ◌∷◌, ◌++◌, ltb, leb, if◌then◌else◌,
}

-- The UTF-8 bytes of a scalar value.
unfoldable pub utf8_of : ℕ → List ℕ
utf8_of c =
    if ltb c 0x80
    then c ∷ []
    else if ltb c 0x800
    then (0xC0 + c / 64) ∷ (0x80 + c % 64) ∷ []
    else if ltb c 0x10000
    then (0xE0 + c / 4096) ∷ (0x80 + c / 64 % 64) ∷ (0x80 + c % 64) ∷ []
    else (0xF0 + c / 262144) ∷ (0x80 + c / 4096 % 64) ∷ (0x80 + c / 64 % 64) ∷ (0x80 + c % 64) ∷ []

abbrev is_high : ℕ → Bool
is_high u = leb 0xD800 u && ltb u 0xDC00

abbrev is_low : ℕ → Bool
is_low u = leb 0xDC00 u && ltb u 0xE000

abbrev replacement : List ℕ
replacement = 0xEF ∷ 0xBF ∷ 0xBD ∷ []

unfoldable pub from_utf16_lossy : List ℕ → List ℕ
unfolding utf8_of
from_utf16_lossy [] = []
from_utf16_lossy (u ∷ []) =
    if is_high u then replacement else if is_low u then replacement else utf8_of u
from_utf16_lossy (u ∷ v ∷ us) =
    let alone = from_utf16_lossy (v ∷ us) in
    let after = from_utf16_lossy us in
    if is_high u
    then (if is_low v
        then utf8_of (0x10000 + (u - 0xD800) * 1024 + (v - 0xDC00)) ++ after
        else replacement ++ alone)
    else if is_low u
    then replacement ++ alone
    else utf8_of u ++ alone
