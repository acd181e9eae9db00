-- ===== src/Tracer/Paths.antt =====
-- crates/tracer/src/graph.rs: the normal form of a traced path, and relativize of crates/tracer/src/determinism.rs.
-- A path is the list of its UTF-8 bytes; what the code tests and changes are ASCII characters.
pub mod Segments
pub mod Canonical
pub mod Unified
use mathlib.Core.List.{reverse}
use sembazuru.Base.{
  ℕ, Bool, true, false, ◌&&◌, ◌||◌, List, [], ◌∷◌, ◌++◌, Option, none, some, leb, ◌==◌,
  if◌then◌else◌, take, drop, concat_map,
}
use sembazuru.Base.Texts.{same}
use sembazuru.Cas.Fingerprint.{lower, each, starts_with}

abbrev pub Text : Type 0
Text = List ℕ

abbrev pub sep : ℕ
sep = 0x5C

abbrev pub is_empty : Text → Bool
is_empty [] = true
is_empty (b ∷ bs) = false

abbrev pub is_ascii_alphabetic : ℕ → Bool
is_ascii_alphabetic b = (leb b'a' b && leb b b'z') || (leb b'A' b && leb b b'Z')

-- `raw.replace('/', "\\")`, on one byte
abbrev pub slash : ℕ → ℕ
slash b = if b == b'/' then sep else b

abbrev pub folded : ℕ → ℕ
folded b = lower (slash b)

-- `s.strip_prefix(p)`
unfoldable pub strip_prefix : Text → Text → Option Text
strip_prefix s [] = some s
strip_prefix [] (c ∷ cs) = none
strip_prefix (b ∷ bs) (c ∷ cs) = if b == c then strip_prefix bs cs else none

-- `s.split(c)`
abbrev pub prepend : ℕ → List Text → List Text
prepend b [] = (b ∷ []) ∷ []
prepend b (s ∷ ss) = (b ∷ s) ∷ ss

unfoldable pub split : ℕ → Text → List Text
split c [] = [] ∷ []
split c (b ∷ bs) = let rest = split c bs in if b == c then [] ∷ rest else prepend b rest

-- `s.trim_end_matches('\\')`
unfoldable pub trim_end : Text → Text
trim_end [] = []
trim_end (b ∷ bs) = let rest = trim_end bs in if (b == sep) && is_empty rest then [] else b ∷ rest

-- `s.trim_start_matches('\\')`
unfoldable pub trim_start : Text → Text
trim_start [] = []
trim_start (b ∷ bs) = if b == sep then trim_start bs else b ∷ bs

abbrev pub unc_prefix : Text
unc_prefix = sep ∷ sep ∷ b'?' ∷ sep ∷ b'u' ∷ b'n' ∷ b'c' ∷ sep ∷ []

abbrev pub long_prefix : Text
long_prefix = sep ∷ sep ∷ b'?' ∷ sep ∷ []

abbrev pub nt_prefix : Text
nt_prefix = sep ∷ b'?' ∷ b'?' ∷ sep ∷ []

abbrev pub or_stripped : Option Text → Text → Text
or_stripped none s = s
or_stripped (some rest) s = rest

abbrev pub or_unc : Option Text → Text → Text
or_unc none s = s
or_unc (some rest) s = sep ∷ sep ∷ rest

-- The long-path prefixes go.
unfoldable pub peeled : Text → Text
unfolding strip_prefix
peeled low =
    or_unc (strip_prefix low unc_prefix)
      (or_stripped (strip_prefix low long_prefix) (or_stripped (strip_prefix low nt_prefix) low))

unfoldable pub unify : Text → Text
unfolding each peeled
unify raw = peeled (each folded raw)

pub data PathKind : Type 0 where
  unc_or_device drive_absolute verbatim relative : PathKind

-- A drive letter and a colon.
abbrev pub has_drive : Text → Bool
has_drive [] = false
has_drive (a ∷ []) = false
has_drive (a ∷ b ∷ rest) = is_ascii_alphabetic a && b == b':'

unfoldable pub classify : Text → PathKind
unfolding starts_with same
classify p =
    if starts_with p (sep ∷ sep ∷ [])
    then unc_or_device
    else if has_drive p
    then (if starts_with (drop 2 p) (sep ∷ []) then drive_absolute else verbatim)
    else if starts_with p (sep ∷ [])
    then verbatim
    else relative

abbrev pub is_dot : Text → Bool
is_dot seg = is_empty seg || same seg (b'.' ∷ [])

abbrev pub is_dotdot : Text → Bool
is_dotdot seg = same seg (b'.' ∷ b'.' ∷ [])

abbrev pub pop : List Text → List Text
pop [] = []
pop (c ∷ cs) = cs

-- `comps`, with the component that was pushed last in front
abbrev pub stepped : List Text → Text → List Text
stepped comps seg = if is_dot seg then comps else if is_dotdot seg then pop comps else seg ∷ comps

unfoldable pub walk : List Text → List Text → List Text
unfolding same
walk comps [] = comps
walk comps (seg ∷ segs) = walk (stepped comps seg) segs

abbrev pub rooted : Text → Text
rooted c = sep ∷ c

unfoldable pub canonicalize : Text → Text
unfolding walk split
canonicalize p = take 2 p ++ concat_map rooted (reverse (walk [] (split sep (drop 2 p))))

-- Whether the byte before was a separator.
unfoldable pub collapse_from : Bool → Text → Text
collapse_from prev_sep [] = []
collapse_from prev_sep (c ∷ cs) =
    let rest = collapse_from (c == sep) cs in if (c == sep) && prev_sep then rest else c ∷ rest

-- What follows the leading `\\`: the rest of the run goes, and the byte behind it is pushed as it is.
unfoldable pub collapse_unc : Text → Text
unfolding collapse_from
collapse_unc [] = []
collapse_unc (c ∷ cs) =
    let rest = collapse_unc cs in if c == sep then rest else c ∷ collapse_from false cs

unfoldable pub collapse_separators : Text → Text
unfolding starts_with same collapse_from collapse_unc
collapse_separators p =
    if starts_with p (sep ∷ sep ∷ [])
    then sep ∷ sep ∷ collapse_unc (drop 2 p)
    else collapse_from false p

abbrev pub joined : Text → Text → Text
joined base u = trim_end base ++ (sep ∷ u)

abbrev pub resolved : PathKind → Text → Text
resolved drive_absolute p = canonicalize p
resolved _ p = collapse_separators p

abbrev pub normalize_kind : PathKind → Text → Text → Text
normalize_kind drive_absolute u cwd = canonicalize u
normalize_kind relative u cwd =
    if is_empty cwd
    then collapse_separators u
    else resolved (classify (unify cwd)) (joined (unify cwd) u)
normalize_kind _ u cwd = collapse_separators u

unfoldable pub normalize_path : Text → Text → Text
unfolding unify classify canonicalize collapse_separators trim_end
normalize_path raw cwd = normalize_kind (classify (unify raw)) (unify raw) cwd

unfoldable pub normalize_for_compare : Text → Text
unfolding normalize_path
normalize_for_compare path = normalize_path path []

-- The part of `path` behind `w`, if it is strictly below `w`.
abbrev pub tail_below : Option Text → Option Text
tail_below none = none
tail_below (some rest) = strip_prefix rest (sep ∷ [])

abbrev pub relative_to : Text → Option Text → Text
relative_to path none = path
relative_to path (some tail) = if is_empty tail then path else trim_start tail

unfoldable pub relativize : Text → Text → Text
unfolding trim_end trim_start strip_prefix
relativize path workroot =
    let w = trim_end workroot in
    if is_empty w then path else relative_to path (tail_below (strip_prefix path w))
