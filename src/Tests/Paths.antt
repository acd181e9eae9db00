-- ===== src/Tests/Paths.antt =====
-- crates/tracer/src/graph.rs and action_key.rs: `sub/dir/x` below `C:\work`, and what is_under_build_root refuses.
use sembazuru.Base.{◌≡◌, refl, inr, true, false, [], ◌∷◌, ◌++◌, All, concat_map, arith}
use sembazuru.Base.Texts.{same, split_once}
use sembazuru.Cas.Fingerprint.{each, starts_with, listed}
use sembazuru.Tracer.Paths.{
  Text, sep, rooted, unify, classify, drive_absolute, relative, normalize_path, relativize,
}
use sembazuru.Tracer.Paths.Segments.{Plain}
use sembazuru.Tracer.Paths.Canonical.{normalize_path_normal}
use sembazuru.Tracer.Paths.Unified.{IsCanonical}
use sembazuru.Tracer.Logical.{is_under_build_root}
use sembazuru.Tracer.Logical.Contained.{added, under_build_root_contained}
use sembazuru.Tracer.Logical.RoundTrip.{relativize-normalize_path}

-- `sub/../Dir/x`
abbrev up_and_down : Text
up_and_down = b's' ∷ b'u' ∷ b'b' ∷ b'/' ∷ b'.' ∷ b'.' ∷ b'/' ∷ b'D' ∷ b'i' ∷ b'r' ∷ b'/' ∷ b'x' ∷ []

-- `sub/dir/x`
abbrev below : Text
below = b's' ∷ b'u' ∷ b'b' ∷ b'/' ∷ b'd' ∷ b'i' ∷ b'r' ∷ b'/' ∷ b'x' ∷ []

-- `C:\work`
abbrev work : Text
work = b'C' ∷ b':' ∷ sep ∷ b'w' ∷ b'o' ∷ b'r' ∷ b'k' ∷ []

abbrev work_dir : Text
work_dir = b'c' ∷ b':' ∷ sep ∷ b'w' ∷ b'o' ∷ b'r' ∷ b'k' ∷ []

-- `c:\work\dir\x`
abbrev file : Text
file = work_dir ++ (sep ∷ b'd' ∷ b'i' ∷ b'r' ∷ sep ∷ b'x' ∷ [])

up_and_down_resolved : normalize_path up_and_down work ≡ file
unfolding normalize_path same each starts_with
up_and_down_resolved = refl

work-classify : classify (unify work) ≡ drive_absolute
unfolding classify unify same each starts_with
work-classify = refl

up_and_down-classify : classify (unify up_and_down) ≡ relative
unfolding classify unify same each starts_with
up_and_down-classify = refl

normalize_path_normal_example :
    IsCanonical (normalize_path up_and_down work)
    × (normalize_path (normalize_path up_and_down work) [] ≡ normalize_path up_and_down work)
normalize_path_normal_example =
    normalize_path_normal up_and_down work [] (inr (up_and_down-classify, refl, work-classify))

below_passes : is_under_build_root below ≡ true
unfolding is_under_build_root same each starts_with listed
below_passes = refl

under_build_root_contained_example :
    All Plain (added below)
    × (normalize_path below work ≡ normalize_path work [] ++ concat_map rooted (added below))
under_build_root_contained_example =
    under_build_root_contained below work below_passes refl work-classify

-- The root itself passes, as the empty name and as a dot.
root_passes : (is_under_build_root [] ≡ true) × (is_under_build_root (b'.' ∷ []) ≡ true)
unfolding is_under_build_root same each starts_with listed
root_passes = (refl, refl)

-- `out.`, `obj/con`, `PROGRA~1/tool.exe` and `a/../../b` are refused.
refused :
    (is_under_build_root (b'o' ∷ b'u' ∷ b't' ∷ b'.' ∷ []) ≡ false)
    × (is_under_build_root (b'o' ∷ b'b' ∷ b'j' ∷ b'/' ∷ b'c' ∷ b'o' ∷ b'n' ∷ []) ≡ false)
    × (is_under_build_root (
          b'P' ∷ b'R' ∷ b'O' ∷ b'G' ∷ b'R' ∷ b'A' ∷ b'~' ∷ b'1' ∷ b'/' ∷ b't' ∷ b'o' ∷ b'o' ∷ b'l'
          ∷ b'.' ∷ b'e' ∷ b'x' ∷ b'e' ∷ [])
        ≡ false)
    × (is_under_build_root (b'a' ∷ b'/' ∷ b'.' ∷ b'.' ∷ b'/' ∷ b'.' ∷ b'.' ∷ b'/' ∷ b'b' ∷ [])
        ≡ false)
unfolding is_under_build_root same each starts_with listed split_once
refused = (refl, refl, refl, refl)

work_dir-IsCanonical : IsCanonical work_dir
unfolding same
work_dir-IsCanonical = record {
  drive = b'c';
  comps = (b'w' ∷ b'o' ∷ b'r' ∷ b'k' ∷ []) ∷ [];
  form = refl;
  letter = refl;
  drive_fixed = refl;
  plain = (record { no_sep = omega arith; not_dot = refl; not_dotdot = refl }, tt);
  fixed = omega arith;
}

file-IsCanonical : IsCanonical file
unfolding same
file-IsCanonical = record {
  drive = b'c';
  comps = (b'w' ∷ b'o' ∷ b'r' ∷ b'k' ∷ []) ∷ (b'd' ∷ b'i' ∷ b'r' ∷ []) ∷ (b'x' ∷ []) ∷ [];
  form = refl;
  letter = refl;
  drive_fixed = refl;
  plain = (
    record { no_sep = omega arith; not_dot = refl; not_dotdot = refl },
    (
      record { no_sep = omega arith; not_dot = refl; not_dotdot = refl },
      (record { no_sep = omega arith; not_dot = refl; not_dotdot = refl }, tt),
    ),
  );
  fixed = omega arith;
}

work_dir-drive : classify work_dir ≡ drive_absolute
unfolding classify same starts_with
work_dir-drive = refl

file_name_passes : is_under_build_root (relativize file work_dir) ≡ true
unfolding is_under_build_root relativize same each starts_with listed
file_name_passes = refl

relativize-normalize_path_example : normalize_path (relativize file work_dir) work_dir ≡ file
relativize-normalize_path_example =
    relativize-normalize_path file work_dir file-IsCanonical work_dir-IsCanonical work_dir-drive
      file_name_passes
