-- ===== src/Tracer/Paths/Unified.antt =====
-- crates/tracer/src/graph.rs: the bytes of a path that is in lower case, and the shape of an absolute one.
use sembazuru.Base.{
  ℕ, ◌≡◌, refl, ap, ap₂, ◌∙◌, true, false, inl, inr, List, [], ◌∷◌, ◌==◌, All, concat_map,
  Bool-cases, arith,
}
use sembazuru.Base.Texts.{same}
use sembazuru.Cas.Fingerprint.{each, starts_with}
use sembazuru.Tracer.Paths.{
  Text, sep, folded, is_ascii_alphabetic, strip_prefix, unc_prefix, long_prefix, nt_prefix,
  or_stripped, or_unc, peeled, unify, drive_absolute, verbatim, classify, rooted,
}
use sembazuru.Tracer.Paths.Segments.{Plain}

-- A byte that unify leaves.
abbrev pub Fixed : ℕ → Type 0
Fixed b = folded b ≡ b

-- A drive and components: lower case, none of them empty, a dot or two dots.
pub record IsCanonical (p : Text) : Type 0 where
  pub drive : ℕ
  pub comps : List Text
  pub form : p ≡ (drive ∷ b':' ∷ concat_map rooted comps)
  pub letter : is_ascii_alphabetic drive ≡ true
  pub drive_fixed : Fixed drive
  pub plain : All Plain comps
  pub fixed : All (All Fixed) comps

folded-Fixed : (b : ℕ) → Fixed (folded b)
folded-Fixed b = ground arith

pub each-Fixed : (s : Text) → All Fixed (each folded s)
unfolding each
each-Fixed [] = tt
each-Fixed (b ∷ bs) = (folded-Fixed b, each-Fixed bs)

pub each_fixed : (s : Text) → All Fixed s → each folded s ≡ s
unfolding each
each_fixed [] h = refl
each_fixed (b ∷ bs) h = ap₂ (λ c cs. c ∷ cs) h.0 (each_fixed bs h.1)

or_stripped-All :
    (P : ℕ → Type 0) (s p d : Text) → All P s → All P d → All P (or_stripped (strip_prefix s p) d)
unfolding strip_prefix
or_stripped-All P s [] d h k = h
or_stripped-All P [] (c ∷ cs) d h k = k
or_stripped-All P (b ∷ bs) (c ∷ cs) d h k = elim (Bool-cases (b == c)) [
  | inl y ↦ rw y (or_stripped-All P bs cs d h.1 k)
  | inr y ↦ rw y k
]

or_unc-All :
    (P : ℕ → Type 0) (s p d : Text)
    → P sep
    → All P s
    → All P d
    → All P (or_unc (strip_prefix s p) d)
unfolding strip_prefix
or_unc-All P s [] d q h k = let below : P sep × All P s = (q, h) in (q, below)
or_unc-All P [] (c ∷ cs) d q h k = k
or_unc-All P (b ∷ bs) (c ∷ cs) d q h k = elim (Bool-cases (b == c)) [
  | inl y ↦ rw y (or_unc-All P bs cs d q h.1 k)
  | inr y ↦ rw y k
]

peeled-Fixed : (low : Text) → All Fixed low → All Fixed (peeled low)
unfolding peeled
peeled-Fixed low h =
    or_unc-All Fixed low unc_prefix _ refl h
      (or_stripped-All Fixed low long_prefix _ h (or_stripped-All Fixed low nt_prefix _ h h))

pub unify-Fixed : (raw : Text) → All Fixed (unify raw)
unfolding unify
unify-Fixed raw = peeled-Fixed (each folded raw) (each-Fixed raw)

pub peeled_id : (a : ℕ) (s : Text) → (a == sep) ≡ false → peeled (a ∷ s) ≡ a ∷ s
unfolding peeled strip_prefix
peeled_id a s n = rw n refl

-- What is in lower case and starts with no separator is left.
pub unify_fixed :
    (a : ℕ) (s : Text) → All Fixed (a ∷ s) → (a == sep) ≡ false → unify (a ∷ s) ≡ a ∷ s
unfolding unify
unify_fixed a s h n = ap peeled (each_fixed (a ∷ s) h) ∙ peeled_id a s n

pub letter-eq_sep : (a : ℕ) → is_ascii_alphabetic a ≡ true → (a == sep) ≡ false
letter-eq_sep a h = ground arith

pub classify_drive :
    (a : ℕ) (s : Text)
    → is_ascii_alphabetic a ≡ true
    → classify (a ∷ b':' ∷ sep ∷ s) ≡ drive_absolute
unfolding classify starts_with same
classify_drive a s h = rw (h, letter-eq_sep a h) refl

pub classify_bare : (a : ℕ) → is_ascii_alphabetic a ≡ true → classify (a ∷ b':' ∷ []) ≡ verbatim
unfolding classify starts_with same
classify_bare a h = rw (h, letter-eq_sep a h) refl

-- The shape of what classify calls absolute.
pub drive_form :
    (p : Text)
    → classify p ≡ drive_absolute
    → (a : ℕ) × (s : Text) × (p ≡ a ∷ b':' ∷ sep ∷ s) × (is_ascii_alphabetic a ≡ true)
unfolding classify starts_with same
drive_form [] h = cc
drive_form (a ∷ []) h = ground arith
drive_form (a ∷ b ∷ []) h = ground arith
drive_form (a ∷ b ∷ c ∷ s) h = (a, s, ground arith, ground arith)
