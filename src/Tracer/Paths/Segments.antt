-- ===== src/Tracer/Paths/Segments.antt =====
-- crates/tracer/src/graph.rs: the components that canonicalize collects, and how they are put together again.
use mathlib.Core.List.{reverse, reverse-append}
use sembazuru.Base.{
  ℕ, zero, suc, ◌≡◌, ◌≢◌, refl, sym, ap, subst, ◌∙◌, false, ◌&&◌, inl, inr, List, [], ◌∷◌, ◌++◌,
  append-nil, append_assoc, ◌==◌, if◌then◌else◌, All, All-append, replicate, concat_map, Bool-cases,
  arith,
}
use sembazuru.Tracer.Paths.{
  Text, sep, split, prepend, trim_end, is_empty, is_dot, is_dotdot, pop, stepped, walk, rooted,
}

-- A component that canonicalize keeps.
pub record Plain (c : Text) : Type 0 where
  pub no_sep : All (λ b. b ≢ sep) c
  pub not_dot : is_dot c ≡ false
  pub not_dotdot : is_dotdot c ≡ false

prepend-All :
    (P : ℕ → Type 0) (b : ℕ) (ss : List Text) → P b → All (All P) ss → All (All P) (prepend b ss)
prepend-All P b [] p h = ((p, tt), tt)
prepend-All P b (s ∷ ss) p h = ((p, h.0), h.1)

pub split-All : (P : ℕ → Type 0) (s : Text) → All P s → All (All P) (split sep s)
unfolding split
split-All P [] h = (tt, tt)
split-All P (b ∷ bs) h = elim (Bool-cases (b == sep)) [
  | inl e ↦ rw e (tt, split-All P bs h.1)
  | inr e ↦ rw e (prepend-All P b _ h.0 (split-All P bs h.1))
]

prepend-NoSep :
    (b : ℕ) (ss : List Text)
    → (b == sep) ≡ false
    → All (All (λ d. d ≢ sep)) ss
    → All (All (λ d. d ≢ sep)) (prepend b ss)
prepend-NoSep b ss e h = prepend-All (λ d. d ≢ sep) b ss (ground arith) h

pub split-NoSep : (s : Text) → All (All (λ d. d ≢ sep)) (split sep s)
unfolding split
split-NoSep [] = (tt, tt)
split-NoSep (b ∷ bs) = elim (Bool-cases (b == sep)) [
  | inl e ↦ rw e (tt, split-NoSep bs)
  | inr e ↦ rw e (prepend-NoSep b _ e (split-NoSep bs))
]

split-cons : (s : Text) → (h : Text) × (t : List Text) × (split sep s ≡ h ∷ t)
unfolding split
split-cons [] = ([], [], refl)
split-cons (b ∷ bs) =
    let (h, t, e) = split-cons bs in
    elim (Bool-cases (b == sep)) [
      | inl y ↦ ([], split sep bs, rw y)
      | inr n ↦ (b ∷ h, t, rw (n, e))
    ]

prepend-append :
    (b : ℕ) (s : Text) (ts : List Text)
    → prepend b (split sep s) ++ ts ≡ prepend b (split sep s ++ ts)
prepend-append b s ts = let (h, t, e) = split-cons s in rw e

-- A separator splits a path into the components before and behind it.
pub split-append : (xs ys : Text) → split sep (xs ++ (sep ∷ ys)) ≡ split sep xs ++ split sep ys
unfolding split
split-append [] ys = refl
split-append (b ∷ bs) ys = elim (Bool-cases (b == sep)) [
  | inl e ↦ rw (e, split-append bs ys)
  | inr e ↦ rw (e, split-append bs ys) (sym (prepend-append b bs (split sep ys)))
]

split_one : (c : Text) → All (λ b. b ≢ sep) c → split sep c ≡ c ∷ []
unfolding split
split_one [] h = refl
split_one (b ∷ bs) h = ground (arith, h.0, split_one bs h.1)

split_behind :
    (c : Text) (cs : List Text)
    → All (All (λ b. b ≢ sep)) (c ∷ cs)
    → split sep (c ++ concat_map rooted cs) ≡ c ∷ cs
split_behind c [] h = ap (split sep) (append-nil c) ∙ split_one c h.0
split_behind c (d ∷ ds) h =
    split-append c (d ++ concat_map rooted ds) ∙ cc (split_one c h.0, split_behind d ds h.1)

-- The components of a path that was put together are the ones that it was put together from.
pub split-rooted :
    (cs : List Text) → All (All (λ b. b ≢ sep)) cs → split sep (concat_map rooted cs) ≡ [] ∷ cs
split-rooted cs h = split_behind [] cs (tt, h)

pub walk-append : (st xs ys : List Text) → walk st (xs ++ ys) ≡ walk (walk st xs) ys
unfolding walk
walk-append st [] ys = refl
walk-append st (x ∷ xs) ys = walk-append (stepped st x) xs ys

pub walk_straight : (st cs : List Text) → All Plain cs → walk st cs ≡ reverse cs ++ st
unfolding walk
walk_straight st [] h = refl
walk_straight st (c ∷ cs) h =
    rw (h.0.not_dot, h.0.not_dotdot)
      (walk_straight (c ∷ st) cs h.1
        ∙ sym (
            ap (λ (r : List Text). r ++ st) (reverse-append (c ∷ []) cs)
            ∙ append_assoc (reverse cs) (c ∷ []) st))

pop-All {κ} : (P : Text → Type κ) (st : List Text) → All P st → All P (pop st)
pop-All P [] h = tt
pop-All P (c ∷ cs) h = h.1

stepped-Plain :
    (st : List Text) (seg : Text)
    → All Plain st
    → All (λ b. b ≢ sep) seg
    → All Plain (stepped st seg)
stepped-Plain st seg h n = elim (Bool-cases (is_dot seg)) [
  | inl d ↦ rw d h
  | inr d ↦ elim (Bool-cases (is_dotdot seg)) [
    | inl u ↦ rw (d, u) (pop-All Plain st h)
    | inr u ↦ rw (d, u) (record { no_sep = n; not_dot = d; not_dotdot = u }, h)
  ]
]

pub walk-Plain :
    (st segs : List Text) → All Plain st → All (All (λ b. b ≢ sep)) segs → All Plain (walk st segs)
unfolding walk
walk-Plain st [] h n = h
walk-Plain st (seg ∷ segs) h n = walk-Plain (stepped st seg) segs (stepped-Plain st seg h n.0) n.1

stepped-All :
    (P : Text → Type 0) (st : List Text) (seg : Text) → All P st → P seg → All P (stepped st seg)
stepped-All P st seg h p = elim (Bool-cases (is_dot seg)) [
  | inl d ↦ rw d h
  | inr d ↦ elim (Bool-cases (is_dotdot seg)) [
    | inl u ↦ rw (d, u) (pop-All P st h)
    | inr u ↦ rw (d, u) (p, h)
  ]
]

pub walk-All :
    (P : Text → Type 0) (st segs : List Text) → All P st → All P segs → All P (walk st segs)
unfolding walk
walk-All P st [] h n = h
walk-All P st (seg ∷ segs) h n = walk-All P (stepped st seg) segs (stepped-All P st seg h n.0) n.1

pub reverse-All {κ} : (P : Text → Type κ) (xs : List Text) → All P xs → All P (reverse xs)
reverse-All P [] h = tt
reverse-All P (x ∷ xs) h =
    subst (All P) (sym (reverse-append (x ∷ []) xs))
      (All-append P (reverse xs) (x ∷ []) (reverse-All P xs h.1) (h.0, tt))

pub rooted-All :
    (P : ℕ → Type 0) (cs : List Text) → P sep → All (All P) cs → All P (concat_map rooted cs)
rooted-All P [] p h = tt
rooted-All P (c ∷ cs) p h = (p, All-append P c (concat_map rooted cs) h.0 (rooted-All P cs p h.1))

trimmed :
    (b : ℕ) (t bs : Text) (n : ℕ)
    → bs ≡ t ++ replicate n sep
    → (m : ℕ) × ((b ∷ bs) ≡ (if (b == sep) && is_empty t then [] else b ∷ t) ++ replicate m sep)
trimmed b [] bs n e = elim (Bool-cases (b == sep)) [
  | inl y ↦ (suc n, ground (arith, y, e))
  | inr y ↦ (n, rw y (ap (λ r. b ∷ r) e))
]
trimmed b (c ∷ cs) bs n e = elim (Bool-cases (b == sep)) [
  | inl y ↦ (n, rw y (ap (λ r. b ∷ r) e))
  | inr y ↦ (n, rw y (ap (λ r. b ∷ r) e))
]

trim_end-append : (s : Text) → (n : ℕ) × (s ≡ trim_end s ++ replicate n sep)
unfolding trim_end
trim_end-append [] = (0, refl)
trim_end-append (b ∷ bs) = let (n, e) = trim_end-append bs in trimmed b (trim_end bs) bs n e

walk_blanks : (st : List Text) (n : ℕ) → walk st (split sep (replicate n sep)) ≡ st
unfolding walk split
walk_blanks st zero = refl
walk_blanks st (suc n) = walk_blanks st n

walk_padded :
    (st : List Text) (t : Text) (n : ℕ)
    → walk st (split sep (t ++ replicate n sep)) ≡ walk st (split sep t)
walk_padded st t zero = ap (λ (r : Text). walk st (split sep r)) (append-nil t)
walk_padded st t (suc n) =
    ap (walk st) (split-append t (replicate n sep))
    ∙ walk-append st (split sep t) (split sep (replicate n sep))
    ∙ walk_blanks (walk st (split sep t)) n

-- Trailing separators add no component.
pub walk-split-trim_end :
    (st : List Text) (s : Text) → walk st (split sep (trim_end s)) ≡ walk st (split sep s)
walk-split-trim_end st s =
    let (n, e) = trim_end-append s in
    sym (walk_padded st (trim_end s) n) ∙ ap (λ (r : Text). walk st (split sep r)) (sym e)

pub trim_end-All : (P : ℕ → Type 0) (s : Text) → All P s → All P (trim_end s)
unfolding trim_end
trim_end-All P [] h = tt
trim_end-All P (b ∷ bs) h = elim (Bool-cases ((b == sep) && is_empty (trim_end bs))) [
  | inl y ↦ rw y tt
  | inr y ↦ rw y (h.0, trim_end-All P bs h.1)
]
