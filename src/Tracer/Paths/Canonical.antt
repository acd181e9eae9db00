-- ===== src/Tracer/Paths/Canonical.antt =====
-- crates/tracer/src/graph.rs: the form of a path that normalize_path resolves against a drive.
use mathlib.Core.List.{reverse, reverse-reverse}
use sembazuru.Base.{
  ℕ, ◌≡◌, refl, sym, ap, subst, ◌∙◌, true, false, ◌⊎◌, inl, inr, List, [], ◌∷◌, ◌++◌, append-nil,
  All, All-append, All-map, concat_map,
}
use sembazuru.Base.Texts.{same}
use sembazuru.Cas.Fingerprint.{starts_with}
use sembazuru.Tracer.Paths.{
  Text, sep, is_ascii_alphabetic, unify, drive_absolute, relative, classify, split, trim_end,
  is_empty, walk, rooted, canonicalize, collapse_from, collapse_separators, joined, normalize_kind,
  normalize_path,
}
use sembazuru.Tracer.Paths.Segments.{
  Plain, split-All, split-NoSep, split-rooted, walk_straight, walk-Plain, walk-All, reverse-All,
  rooted-All, trim_end-All,
}
use sembazuru.Tracer.Paths.Unified.{
  Fixed, IsCanonical, unify-Fixed, unify_fixed, letter-eq_sep, classify_drive, classify_bare,
  drive_form,
}

collapse_bare :
    (a : ℕ) → is_ascii_alphabetic a ≡ true → collapse_separators (a ∷ b':' ∷ []) ≡ a ∷ b':' ∷ []
unfolding collapse_separators collapse_from starts_with same
collapse_bare a h = rw (letter-eq_sep a h) refl

pub canonicalize-IsCanonical :
    (a : ℕ) (s : Text)
    → is_ascii_alphabetic a ≡ true
    → All Fixed (a ∷ b':' ∷ s)
    → IsCanonical (canonicalize (a ∷ b':' ∷ s))
unfolding canonicalize
canonicalize-IsCanonical a s l h = record {
  drive = a;
  comps = reverse (walk [] (split sep s));
  form = refl;
  letter = l;
  drive_fixed = h.0;
  plain = reverse-All Plain _ (walk-Plain [] (split sep s) tt (split-NoSep s));
  fixed =
      reverse-All (All Fixed) _
        (walk-All (All Fixed) [] (split sep s) tt (split-All Fixed s h.1.1));
}

pub canonicalize_comps :
    (a : ℕ) (cs : List Text)
    → All Plain cs
    → canonicalize (a ∷ b':' ∷ concat_map rooted cs) ≡ a ∷ b':' ∷ concat_map rooted cs
unfolding canonicalize walk
canonicalize_comps a cs h =
    ap (λ (st : List Text). a ∷ b':' ∷ concat_map rooted (reverse st))
      (ap (walk []) (split-rooted cs (All-map (λ c (p : Plain c). p.no_sep) cs h))
        ∙ walk_straight [] cs h
        ∙ append-nil (reverse cs))
    ∙ ap (λ (ds : List Text). a ∷ b':' ∷ concat_map rooted ds) (reverse-reverse cs)

normalize_comps :
    (a : ℕ) (cs : List Text) (cwd : Text)
    → is_ascii_alphabetic a ≡ true
    → All Plain cs
    → normalize_kind
        (classify (a ∷ b':' ∷ concat_map rooted cs))
        (a ∷ b':' ∷ concat_map rooted cs)
        cwd
      ≡ a ∷ b':' ∷ concat_map rooted cs
normalize_comps a [] cwd l h = rw (classify_bare a l) (collapse_bare a l)
normalize_comps a (c ∷ cs) cwd l h =
    rw (classify_drive a (c ++ concat_map rooted cs) l) (canonicalize_comps a (c ∷ cs) h)

pub IsCanonical-Fixed :
    {p : Text} (k : IsCanonical p) → All Fixed (k.drive ∷ b':' ∷ concat_map rooted k.comps)
IsCanonical-Fixed k = (k.drive_fixed, (refl, rooted-All Fixed k.comps refl k.fixed))

-- A path in this form is normal, whatever the working directory.
pub normalize_path-IsCanonical : (p cwd : Text) → IsCanonical p → normalize_path p cwd ≡ p
unfolding normalize_path
normalize_path-IsCanonical p cwd k =
    let q : Text = k.drive ∷ b':' ∷ concat_map rooted k.comps in
    let u : unify q ≡ q =
      unify_fixed k.drive (b':' ∷ concat_map rooted k.comps) (IsCanonical-Fixed k)
        (letter-eq_sep k.drive k.letter) in
    subst (λ (r : Text). normalize_kind (classify (unify r)) (unify r) cwd ≡ r) (sym k.form)
      (ap (λ (r : Text). normalize_kind (classify r) r cwd) u
        ∙ normalize_comps k.drive k.comps cwd k.letter k.plain)

trim_end_drive :
    (a : ℕ) (s : Text)
    → is_ascii_alphabetic a ≡ true
    → trim_end (a ∷ b':' ∷ s) ≡ a ∷ b':' ∷ trim_end s
unfolding trim_end
trim_end_drive a s l = rw (letter-eq_sep a l) refl

-- What a relative path is joined to a drive-absolute directory keeps the drive.
pub joined_form :
    (a : ℕ) (s u : Text)
    → is_ascii_alphabetic a ≡ true
    → joined (a ∷ b':' ∷ s) u ≡ a ∷ b':' ∷ (trim_end s ++ (sep ∷ u))
joined_form a s u l = ap (λ (r : Text). r ++ (sep ∷ u)) (trim_end_drive a s l)

-- The path is absolute, or relative to a directory that is.
abbrev pub Resolvable : Text → Text → Type 0
Resolvable raw cwd =
    (classify (unify raw) ≡ drive_absolute)
    ⊎ ((classify (unify raw) ≡ relative)
        × (is_empty cwd ≡ false)
        × (classify (unify cwd) ≡ drive_absolute))

resolved-IsCanonical :
    (base u : Text)
    → All Fixed base
    → All Fixed u
    → classify base ≡ drive_absolute
    → IsCanonical (canonicalize (joined base u))
resolved-IsCanonical base u hb hu d =
    let (a, s, e, l) = drive_form base d in
    let f : All Fixed (a ∷ b':' ∷ sep ∷ s) = subst (All Fixed) e hb in
    let t = trim_end-All Fixed (sep ∷ s) f.1.1 in
    subst (λ (r : Text). IsCanonical (canonicalize r))
      (sym (ap (λ (r : Text). joined r u) e ∙ joined_form a (sep ∷ s) u l))
      (canonicalize-IsCanonical a (trim_end (sep ∷ s) ++ (sep ∷ u)) l
        (f.0, (refl, All-append Fixed (trim_end (sep ∷ s)) (sep ∷ u) t (refl, hu))))

pub absolute-IsCanonical :
    (u : Text) → All Fixed u → classify u ≡ drive_absolute → IsCanonical (canonicalize u)
absolute-IsCanonical u h d =
    let (a, s, e, l) = drive_form u d in
    subst (λ (r : Text). IsCanonical (canonicalize r)) (sym e)
      (canonicalize-IsCanonical a (sep ∷ s) l (subst (All Fixed) e h))

pub normalize_path_relative :
    (raw cwd : Text)
    → classify (unify raw) ≡ relative
    → is_empty cwd ≡ false
    → classify (unify cwd) ≡ drive_absolute
    → normalize_path raw cwd ≡ canonicalize (joined (unify cwd) (unify raw))
unfolding normalize_path
normalize_path_relative raw cwd r n d = rw (r, n, d) refl

pub normalize_path_absolute :
    (raw cwd : Text)
    → classify (unify raw) ≡ drive_absolute
    → normalize_path raw cwd ≡ canonicalize (unify raw)
unfolding normalize_path
normalize_path_absolute raw cwd d = rw d refl

pub normalized-IsCanonical :
    (raw cwd : Text) → Resolvable raw cwd → IsCanonical (normalize_path raw cwd)
normalized-IsCanonical raw cwd (inl d) =
    subst IsCanonical (sym (normalize_path_absolute raw cwd d))
      (absolute-IsCanonical (unify raw) (unify-Fixed raw) d)
normalized-IsCanonical raw cwd (inr (r, n, d)) =
    subst IsCanonical (sym (normalize_path_relative raw cwd r n d))
      (resolved-IsCanonical (unify cwd) (unify raw) (unify-Fixed cwd) (unify-Fixed raw) d)

-- A path that is absolute, or relative to an absolute directory, is normalized to a drive and components of which none
-- is empty, a dot or two dots; normalizing it again, with any working directory, leaves it.
pub normalize_path_normal :
    (raw cwd again : Text)
    → Resolvable raw cwd
    → IsCanonical (normalize_path raw cwd)
      × (normalize_path (normalize_path raw cwd) again ≡ normalize_path raw cwd)
normalize_path_normal raw cwd again h =
    let k = normalized-IsCanonical raw cwd h in
    (k, normalize_path-IsCanonical (normalize_path raw cwd) again k)
