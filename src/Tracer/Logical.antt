-- ===== src/Tracer/Logical.antt =====
-- crates/tracer/src/action_key.rs: is_under_build_root, the test of a path before it is joined to the build root.
pub mod Contained
pub mod Undotted
pub mod RoundTrip
use mathlib.Core.Bool.{not}
use sembazuru.Base.{
  ℕ, Bool, true, false, ◌&&◌, ◌||◌, List, [], ◌∷◌, Option, none, some, leb, ◌==◌, if◌then◌else◌,
  length,
}
use sembazuru.Base.Texts.{same, split_once}
use sembazuru.Cas.Fingerprint.{upper, each, starts_with, listed}
use sembazuru.Tracer.Paths.{Text, sep, slash, split, is_empty, is_dotdot}

unfoldable pub any : {A : Type 0} → (A → Bool) → List A → Bool
any test [] = false
any test (x ∷ xs) = test x || any test xs

unfoldable pub ends_with : ℕ → Text → Bool
ends_with c [] = false
ends_with c (b ∷ []) = b == c
ends_with c (b ∷ d ∷ bs) = ends_with c (d ∷ bs)

-- `component.split('.').next().unwrap_or(component)`
abbrev pub first_or : List Text → Text → Text
first_or [] d = d
first_or (s ∷ ss) d = s

abbrev pub reserved_names : List Text
reserved_names =
    (b'C' ∷ b'O' ∷ b'N' ∷ [])
    ∷ (b'P' ∷ b'R' ∷ b'N' ∷ [])
    ∷ (b'A' ∷ b'U' ∷ b'X' ∷ [])
    ∷ (b'N' ∷ b'U' ∷ b'L' ∷ [])
    ∷ (b'C' ∷ b'O' ∷ b'N' ∷ b'I' ∷ b'N' ∷ b'$' ∷ [])
    ∷ (b'C' ∷ b'O' ∷ b'N' ∷ b'O' ∷ b'U' ∷ b'T' ∷ b'$' ∷ [])
    ∷ []

abbrev pub ports : List Text
ports = (b'C' ∷ b'O' ∷ b'M' ∷ []) ∷ (b'L' ∷ b'P' ∷ b'T' ∷ []) ∷ []

unfoldable pub is_port : Text → Bool
unfolding listed same
is_port (a ∷ b ∷ c ∷ d ∷ []) = listed ports (a ∷ b ∷ c ∷ []) && (leb b'1' d && leb d b'9')
is_port _ = false

abbrev pub is_digit : ℕ → Bool
is_digit b = leb b'0' b && leb b b'9'

unfoldable pub all_digits : Text → Bool
all_digits [] = true
all_digits (b ∷ bs) = is_digit b && all_digits bs

-- The extension of a short name: none, or up to three characters without a dot.
unfoldable pub short_ext : Option Text → Bool
unfolding any
short_ext none = true
short_ext (some ext) = not (is_empty ext) && (leb (length ext) 3 && not (any (λ b. b == b'.') ext))

abbrev pub short_parts : Option (Text × Text) → Option Text → Bool
short_parts none ext = false
short_parts (some (prefix, generation)) ext =
    not (is_empty prefix)
    && (leb (length prefix) 6
        && (not (is_empty generation) && (all_digits generation && short_ext ext)))

abbrev pub short_split : Text → Option (Text × Text) → Bool
short_split component none = short_parts (split_once b'~' component) none
short_split component (some (name, ext)) = short_parts (split_once b'~' name) (some ext)

unfoldable pub is_ambiguous_windows_component : Text → Bool
unfolding any ends_with split listed is_port all_digits short_ext split_once same each
is_ambiguous_windows_component component =
    let stem_upper = each upper (first_or (split b'.' component) component) in
    if is_empty component || same component (b'.' ∷ [])
    then false
    else if any (λ b. b == b':') component || (ends_with b'.' component || ends_with b' ' component)
    then true
    else if listed reserved_names stem_upper || is_port stem_upper
    then true
    else short_split component (split_once b'.' component)

-- A colon as the second byte.
abbrev pub second_is_colon : Text → Bool
second_is_colon [] = false
second_is_colon (a ∷ []) = false
second_is_colon (a ∷ b ∷ rest) = b == b':'

unfoldable pub is_under_build_root : Text → Bool
unfolding each starts_with any split same is_ambiguous_windows_component
is_under_build_root logical =
    let u = each slash logical in
    if second_is_colon u
    then false
    else if starts_with u (sep ∷ [])
    then false
    else if any is_dotdot (split sep u)
    then false
    else if any is_ambiguous_windows_component (split sep u)
    then false
    else true
