-- ===== src/Tracer/Logical/Contained.antt =====
-- crates/tracer/src/action_key.rs: where a path that passes is_under_build_root leads.
use mathlib.Core.List.{reverse, reverse-append, reverse-reverse}
use sembazuru.Base.{
  ℕ, ◌≡◌, refl, sym, ap, subst, ◌∙◌, true, false, inl, inr, List, [], ◌∷◌, ◌++◌, append_assoc, ◌==◌,
  All, concat_map, Bool-cases, arith,
}
use sembazuru.Base.Texts.{same}
use sembazuru.Cas.Fingerprint.{each, starts_with}
use sembazuru.Tracer.Paths.{
  Text, sep, folded, slash, peeled, unify, drive_absolute, relative, classify, split, trim_end,
  is_empty, is_dotdot, walk, rooted, canonicalize, joined, normalize_path,
}
use sembazuru.Tracer.Paths.Segments.{
  Plain, split-NoSep, split-append, walk-append, walk-split-trim_end,
}
use sembazuru.Tracer.Paths.Canonical.{joined_form, normalize_path_relative, normalize_path_absolute}
use sembazuru.Tracer.Paths.Unified.{Fixed, each_fixed, peeled_id, drive_form}
use sembazuru.Tracer.Logical.{any, second_is_colon, is_under_build_root}
use sembazuru.Tracer.Logical.Undotted.{
  each-folded, split-lower, any-lower, undotted, walk_climbless, undotted_id, undotted-Plain,
  folded-sep,
}

folded-colon : (a : ℕ) → (slash a == b':') ≡ false → (folded a == b':') ≡ false
folded-colon a h = ground arith

one_sep : (a : ℕ) (s : Text) → starts_with (a ∷ s) (sep ∷ []) ≡ false → (a == sep) ≡ false
unfolding starts_with same
one_sep a s h = ground arith

classify_relative :
    (a b : ℕ) (s : Text)
    → (a == sep) ≡ false
    → (b == b':') ≡ false
    → classify (a ∷ b ∷ s) ≡ relative
unfolding classify starts_with same
classify_relative a b s n c = ground (arith, n, c)

classify_short : (a : ℕ) → (a == sep) ≡ false → classify (a ∷ []) ≡ relative
unfolding classify starts_with same
classify_short a n = ground (arith, n)

relative_lem :
    (s : Text)
    → second_is_colon (each slash s) ≡ false
    → starts_with (each slash s) (sep ∷ []) ≡ false
    → (unify s ≡ each folded s) × (classify (each folded s) ≡ relative)
unfolding each unify
relative_lem [] c n = (unfold peeled in refl, unfold classify in refl)
relative_lem (a ∷ []) c n =
    let f = folded-sep a (one_sep (slash a) [] n) in
    (peeled_id (folded a) [] f, classify_short (folded a) f)
relative_lem (a ∷ b ∷ s) c n =
    let f = folded-sep a (one_sep (slash a) (slash b ∷ each slash s) n) in
    (
      peeled_id (folded a) (folded b ∷ each folded s) f,
      classify_relative (folded a) (folded b) (each folded s) f (folded-colon b c),
    )

-- What passes is relative, and has no component that goes up.
pub record IsBelow (logical : Text) : Type 0 where
  pub unified : unify logical ≡ each folded logical
  pub is_relative : classify (each folded logical) ≡ relative
  pub climbless : any is_dotdot (split sep (each folded logical)) ≡ false

under-IsBelow : (logical : Text) → is_under_build_root logical ≡ true → IsBelow logical
unfolding is_under_build_root
under-IsBelow logical h =
    let u = each slash logical in
    elim (Bool-cases (second_is_colon u)) [
      | inl y ↦ absurd (ground (arith, y, h))
      | inr c ↦ elim (Bool-cases (starts_with u (sep ∷ []))) [
        | inl y ↦ absurd (ground (arith, c, y, h))
        | inr n ↦ elim (Bool-cases (any is_dotdot (split sep u))) [
          | inl y ↦ absurd (ground (arith, c, n, y, h))
          | inr d ↦
              let (e, r) = relative_lem logical c n in
              record {
                unified = e;
                is_relative = r;
                climbless =
                    ap (λ (s : Text). any is_dotdot (split sep s)) (each-folded logical)
                    ∙ ap (any is_dotdot) (split-lower u)
                    ∙ any-lower (split sep u)
                    ∙ d;
              }
        ]
      ]
    ]

-- The components that a relative path adds to a directory.
-- Each folded as normalize_path folds them.
pub added : Text → List Text
added logical = undotted (split sep (each folded logical))

walk_joined :
    (s u : Text)
    → any is_dotdot (split sep u) ≡ false
    → reverse (walk [] (split sep (trim_end s ++ (sep ∷ u))))
      ≡ reverse (walk [] (split sep s)) ++ undotted (split sep u)
walk_joined s u h =
    let st = walk [] (split sep s) in
    ap reverse (
      ap (walk []) (split-append (trim_end s) u)
      ∙ walk-append [] (split sep (trim_end s)) (split sep u)
      ∙ ap (λ (r : List Text). walk r (split sep u)) (walk-split-trim_end [] s)
      ∙ walk_climbless st (split sep u) h)
    ∙ reverse-append (reverse (undotted (split sep u))) st
    ∙ ap (λ (r : List Text). reverse st ++ r) (reverse-reverse (undotted (split sep u)))

concat-append :
    (xs ys : List Text)
    → concat_map rooted (xs ++ ys) ≡ concat_map rooted xs ++ concat_map rooted ys
concat-append [] ys = refl
concat-append (x ∷ xs) ys =
    ap (λ r. rooted x ++ r) (concat-append xs ys)
    ∙ sym (append_assoc (rooted x) (concat_map rooted xs) (concat_map rooted ys))

canonicalize-joined :
    (base u : Text)
    → classify base ≡ drive_absolute
    → any is_dotdot (split sep u) ≡ false
    → canonicalize (joined base u) ≡ canonicalize base ++ concat_map rooted (undotted (split sep u))
canonicalize-joined base u d h =
    let (a, s, e, l) = drive_form base d in
    subst
      (λ (b : Text).
        canonicalize (joined b u) ≡ canonicalize b ++ concat_map rooted (undotted (split sep u)))
      (sym e)
      (ap canonicalize (joined_form a (sep ∷ s) u l)
        ∙ unfold canonicalize in
          (ap (λ (cs : List Text). a ∷ b':' ∷ concat_map rooted cs) (walk_joined (sep ∷ s) u h)
            ∙ ap (λ (r : Text). a ∷ b':' ∷ r)
                (concat-append (reverse (walk [] (split sep (sep ∷ s)))) (undotted (split sep u)))))

pub added_id : (t : Text) → All Fixed t → All Plain (split sep t) → added t ≡ split sep t
unfolding added
added_id t f h =
    ap (λ (s : Text). undotted (split sep s)) (each_fixed t f) ∙ undotted_id (split sep t) h

-- A path that passes, resolved against an absolute root, is the root's own path and behind it the components of the path
-- in their order, none of them empty, a dot or two dots: it leads to no place outside the root.
pub under_build_root_contained :
    (logical root : Text)
    → is_under_build_root logical ≡ true
    → is_empty root ≡ false
    → classify (unify root) ≡ drive_absolute
    → All Plain (added logical)
      × (normalize_path logical root ≡ normalize_path root [] ++ concat_map rooted (added logical))
unfolding added
under_build_root_contained logical root h n d =
    let k = under-IsBelow logical h in
    let r : classify (unify logical) ≡ relative = ap classify k.unified ∙ k.is_relative in
    (
      undotted-Plain (split sep (each folded logical)) k.climbless
          (split-NoSep (each folded logical)),
      normalize_path_relative logical root r n d
          ∙ ap (λ (u : Text). canonicalize (joined (unify root) u)) k.unified
          ∙ canonicalize-joined (unify root) (each folded logical) d k.climbless
          ∙ ap (λ (p : Text). p ++ concat_map rooted (added logical))
              (sym (normalize_path_absolute root [] d)),
    )
