-- ===== src/Agent/EnvFilter.antt =====
-- crates/agent/src/env_filter.rs: the variables of a command's environment that go to the workers. Names and values are
-- strings, as their UTF-8 bytes, and an environment has one entry for a name.
pub mod Kept
use sembazuru.Base.{
  ℕ, Bool, true, false, not, ◌||◌, ◌&&◌, List, [], ◌∷◌, Option, none, some, leb, ◌==◌,
  if◌then◌else◌,
}
use sembazuru.Base.Texts.{same}
use sembazuru.Base.Assoc.{text_eq, retain}
use sembazuru.Cas.Fingerprint.{upper, each, starts_with, listed}

abbrev pub env_passthrough_var : List ℕ
env_passthrough_var =
    b'S' ∷ b'E' ∷ b'M' ∷ b'B' ∷ b'A' ∷ b'Z' ∷ b'U' ∷ b'R' ∷ b'U' ∷ b'_' ∷ b'E' ∷ b'N' ∷ b'V' ∷ b'_'
    ∷ b'P' ∷ b'A' ∷ b'S' ∷ b'S' ∷ b'T' ∷ b'H' ∷ b'R' ∷ b'O' ∷ b'U' ∷ b'G' ∷ b'H' ∷ []

abbrev pub allow_exact : List (List ℕ)
allow_exact =
    (b'P' ∷ b'A' ∷ b'T' ∷ b'H' ∷ [])
    ∷ (b'I' ∷ b'N' ∷ b'C' ∷ b'L' ∷ b'U' ∷ b'D' ∷ b'E' ∷ [])
    ∷ (b'L' ∷ b'I' ∷ b'B' ∷ [])
    ∷ (b'L' ∷ b'I' ∷ b'B' ∷ b'P' ∷ b'A' ∷ b'T' ∷ b'H' ∷ [])
    ∷ (b'C' ∷ b'L' ∷ [])
    ∷ (b'_' ∷ b'C' ∷ b'L' ∷ b'_' ∷ [])
    ∷ (b'C' ∷ b'C' ∷ [])
    ∷ (b'C' ∷ b'X' ∷ b'X' ∷ [])
    ∷ (b'T' ∷ b'M' ∷ b'P' ∷ [])
    ∷ (b'T' ∷ b'E' ∷ b'M' ∷ b'P' ∷ [])
    ∷ (b'S' ∷ b'Y' ∷ b'S' ∷ b'T' ∷ b'E' ∷ b'M' ∷ b'R' ∷ b'O' ∷ b'O' ∷ b'T' ∷ [])
    ∷ (b'S' ∷ b'Y' ∷ b'S' ∷ b'T' ∷ b'E' ∷ b'M' ∷ b'D' ∷ b'R' ∷ b'I' ∷ b'V' ∷ b'E' ∷ [])
    ∷ (b'W' ∷ b'I' ∷ b'N' ∷ b'D' ∷ b'I' ∷ b'R' ∷ [])
    ∷ (b'C' ∷ b'O' ∷ b'M' ∷ b'S' ∷ b'P' ∷ b'E' ∷ b'C' ∷ [])
    ∷ (b'P' ∷ b'A' ∷ b'T' ∷ b'H' ∷ b'E' ∷ b'X' ∷ b'T' ∷ [])
    ∷ (b'O' ∷ b'S' ∷ [])
    ∷ (b'N' ∷ b'U' ∷ b'M' ∷ b'B' ∷ b'E' ∷ b'R' ∷ b'_' ∷ b'O' ∷ b'F' ∷ b'_' ∷ b'P' ∷ b'R' ∷ b'O'
        ∷ b'C' ∷ b'E' ∷ b'S' ∷ b'S' ∷ b'O' ∷ b'R' ∷ b'S' ∷ [])
    ∷ (b'P' ∷ b'R' ∷ b'O' ∷ b'C' ∷ b'E' ∷ b'S' ∷ b'S' ∷ b'O' ∷ b'R' ∷ b'_' ∷ b'A' ∷ b'R' ∷ b'C'
        ∷ b'H' ∷ b'I' ∷ b'T' ∷ b'E' ∷ b'C' ∷ b'T' ∷ b'U' ∷ b'R' ∷ b'E' ∷ [])
    ∷ (b'P' ∷ b'R' ∷ b'O' ∷ b'C' ∷ b'E' ∷ b'S' ∷ b'S' ∷ b'O' ∷ b'R' ∷ b'_' ∷ b'A' ∷ b'R' ∷ b'C'
        ∷ b'H' ∷ b'I' ∷ b'T' ∷ b'E' ∷ b'W' ∷ b'6' ∷ b'4' ∷ b'3' ∷ b'2' ∷ [])
    ∷ (b'P' ∷ b'R' ∷ b'O' ∷ b'C' ∷ b'E' ∷ b'S' ∷ b'S' ∷ b'O' ∷ b'R' ∷ b'_' ∷ b'I' ∷ b'D' ∷ b'E'
        ∷ b'N' ∷ b'T' ∷ b'I' ∷ b'F' ∷ b'I' ∷ b'E' ∷ b'R' ∷ [])
    ∷ (b'P' ∷ b'R' ∷ b'O' ∷ b'C' ∷ b'E' ∷ b'S' ∷ b'S' ∷ b'O' ∷ b'R' ∷ b'_' ∷ b'L' ∷ b'E' ∷ b'V'
        ∷ b'E' ∷ b'L' ∷ [])
    ∷ (b'P' ∷ b'R' ∷ b'O' ∷ b'C' ∷ b'E' ∷ b'S' ∷ b'S' ∷ b'O' ∷ b'R' ∷ b'_' ∷ b'R' ∷ b'E' ∷ b'V'
        ∷ b'I' ∷ b'S' ∷ b'I' ∷ b'O' ∷ b'N' ∷ [])
    ∷ (b'P' ∷ b'R' ∷ b'O' ∷ b'G' ∷ b'R' ∷ b'A' ∷ b'M' ∷ b'D' ∷ b'A' ∷ b'T' ∷ b'A' ∷ [])
    ∷ (b'P' ∷ b'R' ∷ b'O' ∷ b'G' ∷ b'R' ∷ b'A' ∷ b'M' ∷ b'F' ∷ b'I' ∷ b'L' ∷ b'E' ∷ b'S' ∷ [])
    ∷ (b'P' ∷ b'R' ∷ b'O' ∷ b'G' ∷ b'R' ∷ b'A' ∷ b'M' ∷ b'F' ∷ b'I' ∷ b'L' ∷ b'E' ∷ b'S' ∷ b'('
        ∷ b'X' ∷ b'8' ∷ b'6' ∷ b')' ∷ [])
    ∷ (b'P' ∷ b'R' ∷ b'O' ∷ b'G' ∷ b'R' ∷ b'A' ∷ b'M' ∷ b'W' ∷ b'6' ∷ b'4' ∷ b'3' ∷ b'2' ∷ [])
    ∷ (b'C' ∷ b'O' ∷ b'M' ∷ b'M' ∷ b'O' ∷ b'N' ∷ b'P' ∷ b'R' ∷ b'O' ∷ b'G' ∷ b'R' ∷ b'A' ∷ b'M'
        ∷ b'F' ∷ b'I' ∷ b'L' ∷ b'E' ∷ b'S' ∷ [])
    ∷ (b'C' ∷ b'O' ∷ b'M' ∷ b'M' ∷ b'O' ∷ b'N' ∷ b'P' ∷ b'R' ∷ b'O' ∷ b'G' ∷ b'R' ∷ b'A' ∷ b'M'
        ∷ b'F' ∷ b'I' ∷ b'L' ∷ b'E' ∷ b'S' ∷ b'(' ∷ b'X' ∷ b'8' ∷ b'6' ∷ b')' ∷ [])
    ∷ (b'C' ∷ b'O' ∷ b'M' ∷ b'M' ∷ b'O' ∷ b'N' ∷ b'P' ∷ b'R' ∷ b'O' ∷ b'G' ∷ b'R' ∷ b'A' ∷ b'M'
        ∷ b'W' ∷ b'6' ∷ b'4' ∷ b'3' ∷ b'2' ∷ [])
    ∷ (b'V' ∷ b'S' ∷ b'I' ∷ b'N' ∷ b'S' ∷ b'T' ∷ b'A' ∷ b'L' ∷ b'L' ∷ b'D' ∷ b'I' ∷ b'R' ∷ [])
    ∷ (b'V' ∷ b'C' ∷ b'I' ∷ b'N' ∷ b'S' ∷ b'T' ∷ b'A' ∷ b'L' ∷ b'L' ∷ b'D' ∷ b'I' ∷ b'R' ∷ [])
    ∷ (b'V' ∷ b'C' ∷ b'T' ∷ b'O' ∷ b'O' ∷ b'L' ∷ b'S' ∷ b'I' ∷ b'N' ∷ b'S' ∷ b'T' ∷ b'A' ∷ b'L'
        ∷ b'L' ∷ b'D' ∷ b'I' ∷ b'R' ∷ [])
    ∷ (b'V' ∷ b'C' ∷ b'T' ∷ b'O' ∷ b'O' ∷ b'L' ∷ b'S' ∷ b'V' ∷ b'E' ∷ b'R' ∷ b'S' ∷ b'I' ∷ b'O'
        ∷ b'N' ∷ [])
    ∷ (b'V' ∷ b'C' ∷ b'T' ∷ b'O' ∷ b'O' ∷ b'L' ∷ b'S' ∷ b'R' ∷ b'E' ∷ b'D' ∷ b'I' ∷ b'S' ∷ b'T'
        ∷ b'D' ∷ b'I' ∷ b'R' ∷ [])
    ∷ (b'V' ∷ b'C' ∷ b'I' ∷ b'D' ∷ b'E' ∷ b'I' ∷ b'N' ∷ b'S' ∷ b'T' ∷ b'A' ∷ b'L' ∷ b'L' ∷ b'D'
        ∷ b'I' ∷ b'R' ∷ [])
    ∷ (b'V' ∷ b'I' ∷ b'S' ∷ b'U' ∷ b'A' ∷ b'L' ∷ b'S' ∷ b'T' ∷ b'U' ∷ b'D' ∷ b'I' ∷ b'O' ∷ b'V'
        ∷ b'E' ∷ b'R' ∷ b'S' ∷ b'I' ∷ b'O' ∷ b'N' ∷ [])
    ∷ (b'D' ∷ b'E' ∷ b'V' ∷ b'E' ∷ b'N' ∷ b'V' ∷ b'D' ∷ b'I' ∷ b'R' ∷ [])
    ∷ (b'W' ∷ b'I' ∷ b'N' ∷ b'D' ∷ b'O' ∷ b'W' ∷ b'S' ∷ b'S' ∷ b'D' ∷ b'K' ∷ b'D' ∷ b'I' ∷ b'R'
        ∷ [])
    ∷ (b'W' ∷ b'I' ∷ b'N' ∷ b'D' ∷ b'O' ∷ b'W' ∷ b'S' ∷ b'S' ∷ b'D' ∷ b'K' ∷ b'V' ∷ b'E' ∷ b'R'
        ∷ b'S' ∷ b'I' ∷ b'O' ∷ b'N' ∷ [])
    ∷ (b'W' ∷ b'I' ∷ b'N' ∷ b'D' ∷ b'O' ∷ b'W' ∷ b'S' ∷ b'S' ∷ b'D' ∷ b'K' ∷ b'B' ∷ b'I' ∷ b'N'
        ∷ b'P' ∷ b'A' ∷ b'T' ∷ b'H' ∷ [])
    ∷ (b'W' ∷ b'I' ∷ b'N' ∷ b'D' ∷ b'O' ∷ b'W' ∷ b'S' ∷ b'S' ∷ b'D' ∷ b'K' ∷ b'V' ∷ b'E' ∷ b'R'
        ∷ b'B' ∷ b'I' ∷ b'N' ∷ b'P' ∷ b'A' ∷ b'T' ∷ b'H' ∷ [])
    ∷ (b'W' ∷ b'I' ∷ b'N' ∷ b'D' ∷ b'O' ∷ b'W' ∷ b'S' ∷ b'L' ∷ b'I' ∷ b'B' ∷ b'P' ∷ b'A' ∷ b'T'
        ∷ b'H' ∷ [])
    ∷ (b'U' ∷ b'C' ∷ b'R' ∷ b'T' ∷ b'V' ∷ b'E' ∷ b'R' ∷ b'S' ∷ b'I' ∷ b'O' ∷ b'N' ∷ [])
    ∷ (b'U' ∷ b'N' ∷ b'I' ∷ b'V' ∷ b'E' ∷ b'R' ∷ b'S' ∷ b'A' ∷ b'L' ∷ b'C' ∷ b'R' ∷ b'T' ∷ b'S'
        ∷ b'D' ∷ b'K' ∷ b'D' ∷ b'I' ∷ b'R' ∷ [])
    ∷ (b'E' ∷ b'X' ∷ b'T' ∷ b'E' ∷ b'N' ∷ b'S' ∷ b'I' ∷ b'O' ∷ b'N' ∷ b'S' ∷ b'D' ∷ b'K' ∷ b'D'
        ∷ b'I' ∷ b'R' ∷ [])
    ∷ (b'F' ∷ b'R' ∷ b'A' ∷ b'M' ∷ b'E' ∷ b'W' ∷ b'O' ∷ b'R' ∷ b'K' ∷ b'D' ∷ b'I' ∷ b'R' ∷ [])
    ∷ (b'F' ∷ b'R' ∷ b'A' ∷ b'M' ∷ b'E' ∷ b'W' ∷ b'O' ∷ b'R' ∷ b'K' ∷ b'D' ∷ b'I' ∷ b'R' ∷ b'6'
        ∷ b'4' ∷ [])
    ∷ (b'F' ∷ b'R' ∷ b'A' ∷ b'M' ∷ b'E' ∷ b'W' ∷ b'O' ∷ b'R' ∷ b'K' ∷ b'V' ∷ b'E' ∷ b'R' ∷ b'S'
        ∷ b'I' ∷ b'O' ∷ b'N' ∷ [])
    ∷ (b'F' ∷ b'R' ∷ b'A' ∷ b'M' ∷ b'E' ∷ b'W' ∷ b'O' ∷ b'R' ∷ b'K' ∷ b'V' ∷ b'E' ∷ b'R' ∷ b'S'
        ∷ b'I' ∷ b'O' ∷ b'N' ∷ b'6' ∷ b'4' ∷ [])
    ∷ (b'F' ∷ b'R' ∷ b'A' ∷ b'M' ∷ b'E' ∷ b'W' ∷ b'O' ∷ b'R' ∷ b'K' ∷ b'4' ∷ b'0' ∷ b'V' ∷ b'E'
        ∷ b'R' ∷ b'S' ∷ b'I' ∷ b'O' ∷ b'N' ∷ [])
    ∷ (b'N' ∷ b'E' ∷ b'T' ∷ b'F' ∷ b'X' ∷ b'S' ∷ b'D' ∷ b'K' ∷ b'D' ∷ b'I' ∷ b'R' ∷ [])
    ∷ []

abbrev pub allow_prefix : List (List ℕ)
allow_prefix =
    (b'V' ∷ b'S' ∷ b'C' ∷ b'M' ∷ b'D' ∷ b'_' ∷ [])
    ∷ (b'_' ∷ b'_' ∷ b'V' ∷ b'S' ∷ b'C' ∷ b'M' ∷ b'D' ∷ [])
    ∷ (b'W' ∷ b'I' ∷ b'N' ∷ b'D' ∷ b'O' ∷ b'W' ∷ b'S' ∷ b'S' ∷ b'D' ∷ b'K' ∷ [])
    ∷ (b'V' ∷ b'C' ∷ b'T' ∷ b'O' ∷ b'O' ∷ b'L' ∷ b'S' ∷ [])
    ∷ []

-- `str::eq_ignore_ascii_case`
unfoldable pub eq_ignore_ascii_case : List ℕ → List ℕ → Bool
unfolding each same
eq_ignore_ascii_case a b = same (each upper a) (each upper b)

-- `prefixes.iter().any(|p| name.starts_with(p))`
unfoldable pub any_prefix : List (List ℕ) → List ℕ → Bool
unfolding starts_with
any_prefix [] name = false
any_prefix (p ∷ ps) name = starts_with name p || any_prefix ps name

unfoldable pub any_named : List (List ℕ) → List ℕ → Bool
unfolding eq_ignore_ascii_case
any_named [] name = false
any_named (e ∷ extra) name = eq_ignore_ascii_case e name || any_named extra name

unfoldable pub is_compiler_env : List ℕ → List (List ℕ) → Bool
unfolding each listed any_prefix any_named
is_compiler_env name extra =
    let up = each upper name in
    listed allow_exact up || (any_prefix allow_prefix up || any_named extra name)

-- `str::split` at a character of one byte.
abbrev put_first : ℕ → List (List ℕ) → List (List ℕ)
put_first b [] = (b ∷ []) ∷ []
put_first b (s ∷ ss) = (b ∷ s) ∷ ss

unfoldable pub split : ℕ → List ℕ → List (List ℕ)
split c [] = [] ∷ []
split c (b ∷ bs) = let rest = split c bs in if b == c then [] ∷ rest else put_first b rest

-- The white space of the Unicode standard, in UTF-8: of one byte, of two, and of three.

abbrev white_1 : ℕ → Bool
white_1 a = (leb 0x09 a && leb a 0x0D) || a == 0x20

abbrev white_2 : ℕ → ℕ → Bool
white_2 a b = a == 0xC2 && (b == 0x85 || b == 0xA0)

abbrev white_3 : ℕ → ℕ → ℕ → Bool
white_3 a b c =
    (a == 0xE1 && (b == 0x9A && c == 0x80))
    || ((a == 0xE2
          && (b == 0x80 && ((leb 0x80 c && leb c 0x8A) || (c == 0xA8 || (c == 0xA9 || c == 0xAF)))))
        || ((a == 0xE2 && (b == 0x81 && c == 0x9F)) || (a == 0xE3 && (b == 0x80 && c == 0x80))))

unfoldable pub trim_start : List ℕ → List ℕ
trim_start [] = []
trim_start (a ∷ []) = if white_1 a then [] else a ∷ []
trim_start (a ∷ b ∷ []) =
    let after_one = trim_start (b ∷ []) in
    if white_1 a then after_one else if white_2 a b then [] else a ∷ b ∷ []
trim_start (a ∷ b ∷ c ∷ bs) =
    let after_one = trim_start (b ∷ c ∷ bs) in
    let after_two = trim_start (c ∷ bs) in
    let after_three = trim_start bs in
    if white_1 a
    then after_one
    else if white_2 a b
    then after_two
    else if white_3 a b c
    then after_three
    else a ∷ b ∷ c ∷ bs

abbrev pub is_empty : List ℕ → Bool
is_empty [] = true
is_empty (b ∷ bs) = false

unfoldable pub trim_end : List ℕ → List ℕ
unfolding trim_start
trim_end [] = []
trim_end (b ∷ bs) =
    let rest = trim_end bs in if is_empty (trim_start (b ∷ bs)) then [] else b ∷ rest

unfoldable pub trim : List ℕ → List ℕ
unfolding trim_start trim_end
trim s = trim_end (trim_start s)

unfoldable pub names_of : List (List ℕ) → List (List ℕ)
unfolding trim
names_of [] = []
names_of (s ∷ ss) = if is_empty (trim s) then names_of ss else trim s ∷ names_of ss

-- `full.iter().find(..)`, by the order of the list.
unfoldable pub find_named : List ℕ → List (List ℕ × List ℕ) → Option (List ℕ)
unfolding eq_ignore_ascii_case
find_named name [] = none
find_named name ((k, v) ∷ full) =
    if eq_ignore_ascii_case k name then some v else find_named name full

unfoldable pub passthrough_names : List (List ℕ × List ℕ) → List (List ℕ)
unfolding find_named names_of split
passthrough_names full = elim (find_named env_passthrough_var full) [
  | none ↦ []
  | some v ↦ names_of (split b',' v)
]

unfoldable pub filter_compiler_env : List (List ℕ × List ℕ) → List (List ℕ × List ℕ)
unfolding passthrough_names is_compiler_env retain
filter_compiler_env full = retain (λ k v. is_compiler_env k (passthrough_names full)) full
