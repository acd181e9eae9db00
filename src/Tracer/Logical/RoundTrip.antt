-- ===== src/Tracer/Logical/RoundTrip.antt =====
-- crates/tracer: the way from a path to its logical name, by relativize, and back, by normalize_path.
use sembazuru.Base.{
  ℕ, ◌≡◌, ◌≢◌, refl, sym, ap, subst, ◌∙◌, Bool, true, false, ◌&&◌, ◌⊎◌, inl, inr, List, [], ◌∷◌,
  ◌++◌, append-nil, Option, none, some, ◌==◌, if◌then◌else◌, All, All-map, concat_map, Bool-cases,
  Option-cases, arith,
}
use sembazuru.Cas.Fingerprint.{each}
use sembazuru.Tracer.Paths.{
  Text, sep, strip_prefix, unify, drive_absolute, classify, split, prepend, trim_end, trim_start,
  is_empty, rooted, normalize_path, relativize, relative_to, tail_below,
}
use sembazuru.Tracer.Paths.Segments.{Plain, split-append, split-rooted}
use sembazuru.Tracer.Paths.Canonical.{IsCanonical-Fixed, normalize_path-IsCanonical}
use sembazuru.Tracer.Paths.Unified.{Fixed, IsCanonical, letter-eq_sep, unify_fixed}
use sembazuru.Tracer.Logical.{is_under_build_root}
use sembazuru.Tracer.Logical.Contained.{added, added_id, under_build_root_contained}

strip_prefix_sound : (s p : Text) {r : Text} → strip_prefix s p ≡ some r → s ≡ p ++ r
unfolding strip_prefix
strip_prefix_sound s [] e = cc
strip_prefix_sound [] (c ∷ cs) e = cc
strip_prefix_sound (b ∷ bs) (c ∷ cs) {r} e = ground (arith, e, strip_prefix_sound bs cs {r = r})

All-suffix {ℓ} : {A : Type 0} (P : A → Type ℓ) (xs ys : List A) → All P (xs ++ ys) → All P ys
All-suffix P [] ys h = h
All-suffix P (x ∷ xs) ys h = All-suffix P xs ys h.1

rooted_cons :
    (b : ℕ) (ss : List Text) (t : Text)
    → concat_map rooted ss ≡ sep ∷ t
    → concat_map rooted (prepend b ss) ≡ sep ∷ b ∷ t
rooted_cons b [] t e = cc
rooted_cons b (s ∷ ss) t e = cc

-- A path's components put together give the path.
rooted-split : (s : Text) → concat_map rooted (split sep s) ≡ sep ∷ s
unfolding split
rooted-split [] = refl
rooted-split (b ∷ bs) = elim (Bool-cases (b == sep)) [
  | inl y ↦ rw y (ap (λ (r : Text). sep ∷ r) (rooted-split bs) ∙ ground (arith, y))
  | inr n ↦ rw n (rooted_cons b (split sep bs) bs (rooted-split bs))
]

trim_start_id : (t : Text) → All Plain (split sep t) → trim_start t ≡ t
unfolding trim_start split
trim_start_id [] h = refl
trim_start_id (b ∷ bs) h = elim (Bool-cases (b == sep)) [
  | inl y ↦ let h' : All Plain ([] ∷ split sep bs) = rw y at h in absurd (cc (h'.0.not_dot))
  | inr n ↦ rw n refl
]

-- No text that starts with a drive passes.
drive_refused : (a : ℕ) (s : Text) → is_under_build_root (a ∷ b':' ∷ s) ≡ false
unfolding is_under_build_root each
drive_refused a s = refl

-- Behind the root of a canonical path stand components that are plain.
behind-Plain :
    (ps ws : List Text) (tail : Text)
    → All Plain ps
    → All Plain ws
    → concat_map rooted ps ≡ concat_map rooted ws ++ (sep ∷ tail)
    → All Plain (split sep tail)
behind-Plain ps ws tail hp hw e =
    let noseps = All-map (λ c (q : Plain c). q.no_sep) in
    let cut : ([] ∷ ps) ≡ ([] ∷ ws) ++ split sep tail =
      sym (split-rooted ps (All-map (λ c (q : Plain c). q.no_sep) ps hp))
      ∙ ap (split sep) e
      ∙ split-append (concat_map rooted ws) tail
      ∙ ap (λ (r : List Text). r ++ split sep tail)
          (split-rooted ws (All-map (λ c (q : Plain c). q.no_sep) ws hw)) in
    let same_parts : ps ≡ ws ++ split sep tail = cc cut in
    All-suffix Plain ws (split sep tail) (subst (All Plain) same_parts hp)

trim_end_behind :
    (s : Text) (b : ℕ) (t : Text)
    → trim_end (b ∷ t) ≡ b ∷ t
    → trim_end (s ++ (b ∷ t)) ≡ s ++ (b ∷ t)
unfolding trim_end
trim_end_behind [] b t e = e
trim_end_behind (c ∷ []) b t e = rw (e, ◌&&◌) (ground (arith))
trim_end_behind (c ∷ d ∷ s) b t e = ground (arith, trim_end_behind (d ∷ s) b t e)

trim_end_comp : (b : ℕ) (s : Text) → All (λ d. d ≢ sep) (b ∷ s) → trim_end (b ∷ s) ≡ b ∷ s
unfolding trim_end
trim_end_comp b [] h = ground (arith, h.0)
trim_end_comp b (c ∷ s) h = ground (arith, trim_end_comp c s h.1)

trim_end_last : (c : Text) → Plain c → trim_end (sep ∷ c) ≡ sep ∷ c
trim_end_last [] p = cc (p.not_dot)
trim_end_last (b ∷ s) p = trim_end_behind (sep ∷ []) b s (trim_end_comp b s p.no_sep)

trim_end_comps :
    (c : Text) (cs : List Text)
    → Plain c
    → All Plain cs
    → trim_end (concat_map rooted (c ∷ cs)) ≡ concat_map rooted (c ∷ cs)
trim_end_comps c [] p h =
    subst (λ (r : Text). trim_end (sep ∷ r) ≡ sep ∷ r) (sym (append-nil c)) (trim_end_last c p)
trim_end_comps c (d ∷ ds) p h =
    trim_end_behind (sep ∷ c) sep (d ++ concat_map rooted ds) (trim_end_comps d ds h.0 h.1)

trim_end_bare : (a : ℕ) → trim_end (a ∷ b':' ∷ []) ≡ a ∷ b':' ∷ []
unfolding trim_end
trim_end_bare a = ground arith

trim_end_path :
    (a : ℕ) (cs : List Text)
    → All Plain cs
    → trim_end (a ∷ b':' ∷ concat_map rooted cs) ≡ a ∷ b':' ∷ concat_map rooted cs
trim_end_path a [] h = trim_end_bare a
trim_end_path a (c ∷ cs) h =
    trim_end_behind (a ∷ b':' ∷ []) sep (c ++ concat_map rooted cs) (trim_end_comps c cs h.0 h.1)

-- The two ways that relativize goes: the path stays, or it is the root with a tail behind it.
relative_cases :
    (p w : Text) (o : Option Text)
    → strip_prefix p w ≡ o
    → (relative_to p (tail_below o) ≡ p)
      ⊎ ((tail : Text) × (p ≡ w ++ (sep ∷ tail)) × (relative_to p (tail_below o) ≡ trim_start tail))
relative_cases p w none e = inl refl
relative_cases p w (some rest) e = elim (Option-cases (strip_prefix rest (sep ∷ []))) [
  | inl n ↦ inl (ap (relative_to p) n)
  | inr (tail, n) ↦ elim (Bool-cases (is_empty tail)) [
    | inl y ↦ inl (ap (relative_to p) n ∙ ap (λ (b : Bool). if b then p else trim_start tail) y)
    | inr m ↦ inr (
      tail,
      strip_prefix_sound p w e ∙ ap (λ (r : Text). w ++ r) (strip_prefix_sound rest (sep ∷ []) n),
      ap (relative_to p) n ∙ ap (λ (b : Bool). if b then p else trim_start tail) m,
    )
  ]
]

relativize_cases :
    (p w : Text)
    → trim_end w ≡ w
    → (relativize p w ≡ p)
      ⊎ ((tail : Text) × (p ≡ w ++ (sep ∷ tail)) × (relativize p w ≡ trim_start tail))
unfolding relativize
relativize_cases p w t = rw t (elim (Bool-cases (is_empty w)) [
  | inl y ↦ inl (rw y refl)
  | inr n ↦ rw n (relative_cases p w (strip_prefix p w) refl)
])

unify-IsCanonical : {p : Text} → IsCanonical p → unify p ≡ p
unify-IsCanonical k =
    subst (λ (r : Text). unify r ≡ r) (sym k.form)
      (unify_fixed k.drive (b':' ∷ concat_map rooted k.comps) (IsCanonical-Fixed k)
        (letter-eq_sep k.drive k.letter))

p_fixed : {p : Text} → IsCanonical p → All Fixed p
p_fixed k = subst (All Fixed) (sym k.form) (IsCanonical-Fixed k)

root_untrimmed : {p : Text} → IsCanonical p → trim_end p ≡ p
root_untrimmed k =
    subst (λ (r : Text). trim_end r ≡ r) (sym k.form) (trim_end_path k.drive k.comps k.plain)

tail-Plain :
    {p root : Text} (tail : Text)
    → IsCanonical p
    → IsCanonical root
    → p ≡ root ++ (sep ∷ tail)
    → All Plain (split sep tail)
tail-Plain {p} {root} tail k w e =
    let whole : (k.drive ∷ b':' ∷ concat_map rooted k.comps)
        ≡ (w.drive ∷ b':' ∷ (concat_map rooted w.comps ++ (sep ∷ tail))) =
      sym k.form ∙ e ∙ ap (λ (r : Text). r ++ (sep ∷ tail)) w.form in
    behind-Plain k.comps w.comps tail k.plain w.plain (cc whole)

-- The name of a path below an absolute root, when it passes, leads from the root to the path again.
tail_leads :
    (p root tail : Text)
    → IsCanonical p
    → IsCanonical root
    → classify root ≡ drive_absolute
    → p ≡ root ++ (sep ∷ tail)
    → is_under_build_root tail ≡ true
    → normalize_path tail root ≡ p
tail_leads p root tail k w d e h =
    let plain = tail-Plain tail k w e in
    let fixed : All Fixed tail =
      (All-suffix Fixed root (sep ∷ tail) (subst (All Fixed) e (p_fixed k))).1 in
    (under_build_root_contained tail root h (ap is_empty w.form)
      (ap classify (unify-IsCanonical w) ∙ d)).1
    ∙ ap (λ (r : Text). r ++ concat_map rooted (added tail)) (normalize_path-IsCanonical root [] w)
    ∙ ap (λ (r : Text). root ++ r)
        (ap (concat_map rooted) (added_id tail fixed plain) ∙ rooted-split tail)
    ∙ sym e

-- Where the name that relativize gives to a canonical path passes is_under_build_root, resolving it against the canonical
-- root, which lies below its drive, gives the path again.
pub relativize-normalize_path :
    (p root : Text)
    → IsCanonical p
    → IsCanonical root
    → classify root ≡ drive_absolute
    → is_under_build_root (relativize p root) ≡ true
    → normalize_path (relativize p root) root ≡ p
relativize-normalize_path p root k w d h = elim (relativize_cases p root (root_untrimmed w)) [
  | inl stays ↦ absurd (
      cc (
        sym h
        ∙ ap is_under_build_root (stays ∙ k.form)
        ∙ drive_refused k.drive (concat_map rooted k.comps)))
  | inr (tail, e, q) ↦
      let name : relativize p root ≡ tail = q ∙ trim_start_id tail (tail-Plain tail k w e) in
      ap (λ (r : Text). normalize_path r root) name
      ∙ tail_leads p root tail k w d e (sym (ap is_under_build_root name) ∙ h)
]
