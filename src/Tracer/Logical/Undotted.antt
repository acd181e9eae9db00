-- ===== src/Tracer/Logical/Undotted.antt =====
-- crates/tracer/src/action_key.rs: the components of a path that are no dots.
use mathlib.Core.List.{reverse, reverse-append}
use sembazuru.Base.{
  ℕ, ◌≡◌, ◌≢◌, refl, sym, ap, ◌∙◌, false, inl, inr, List, [], ◌∷◌, ◌++◌, map, append_assoc, ◌==◌,
  if◌then◌else◌, All, Bool-cases, arith,
}
use sembazuru.Base.Texts.{same}
use sembazuru.Cas.Fingerprint.{each, lower}
use sembazuru.Tracer.Paths.{Text, sep, folded, slash, split, prepend, is_dot, is_dotdot, walk}
use sembazuru.Tracer.Paths.Segments.{Plain}
use sembazuru.Tracer.Logical.{any}

pub each-folded : (s : Text) → each folded s ≡ each lower (each slash s)
unfolding each
each-folded [] = refl
each-folded (b ∷ bs) = ap (λ r. folded b ∷ r) (each-folded bs)

lower-sep : (b : ℕ) → (lower b == sep) ≡ (b == sep)
lower-sep b = ground arith

prepend-lower :
    (b : ℕ) (ss : List Text)
    → prepend (lower b) (map (each lower) ss) ≡ map (each lower) (prepend b ss)
unfolding each
prepend-lower b [] = refl
prepend-lower b (s ∷ ss) = refl

pub split-lower : (s : Text) → split sep (each lower s) ≡ map (each lower) (split sep s)
unfolding split each
split-lower [] = refl
split-lower (b ∷ bs) = elim (Bool-cases (b == sep)) [
  | inl y ↦ rw (y, lower-sep b ∙ y) (ap (λ r. [] ∷ r) (split-lower bs))
  | inr n ↦
      rw (n, lower-sep b ∙ n)
        (ap (prepend (lower b)) (split-lower bs) ∙ prepend-lower b (split sep bs))
]

is_dotdot-lower : (s : Text) → is_dotdot (each lower s) ≡ is_dotdot s
unfolding same each
is_dotdot-lower [] = refl
is_dotdot-lower (a ∷ []) = ground arith
is_dotdot-lower (a ∷ b ∷ []) = ground arith
is_dotdot-lower (a ∷ b ∷ c ∷ s) = ground arith

pub any-lower : (ss : List Text) → any is_dotdot (map (each lower) ss) ≡ any is_dotdot ss
unfolding any
any-lower [] = refl
any-lower (s ∷ ss) = rw (is_dotdot-lower s, any-lower ss)

-- The components that are no dots, in their order.
pub undotted : List Text → List Text
undotted [] = []
undotted (s ∷ ss) = if is_dot s then undotted ss else s ∷ undotted ss

pub walk_climbless :
    (st ss : List Text) → any is_dotdot ss ≡ false → walk st ss ≡ reverse (undotted ss) ++ st
unfolding walk any undotted
walk_climbless st [] h = refl
walk_climbless st (s ∷ ss) h = elim (Bool-cases (is_dotdot s)) [
  | inl y ↦ ground (arith, y, h)
  | inr n ↦
      let rest : any is_dotdot ss ≡ false = ground (arith, n, h) in
      elim (Bool-cases (is_dot s)) [
        | inl d ↦ rw d (walk_climbless st ss rest)
        | inr d ↦
            rw (d, n)
              (walk_climbless (s ∷ st) ss rest
                ∙ sym (
                    ap (λ (r : List Text). r ++ st) (reverse-append (s ∷ []) (undotted ss))
                    ∙ append_assoc (reverse (undotted ss)) (s ∷ []) st))
      ]
]

pub undotted_id : (cs : List Text) → All Plain cs → undotted cs ≡ cs
unfolding undotted
undotted_id [] h = refl
undotted_id (c ∷ cs) h = rw h.0.not_dot (ap (λ r. c ∷ r) (undotted_id cs h.1))

pub undotted-Plain :
    (ss : List Text)
    → any is_dotdot ss ≡ false
    → All (All (λ b. b ≢ sep)) ss
    → All Plain (undotted ss)
unfolding any undotted
undotted-Plain [] h n = tt
undotted-Plain (s ∷ ss) h n = elim (Bool-cases (is_dotdot s)) [
  | inl y ↦ ground (arith, y, h)
  | inr u ↦
      let rest : any is_dotdot ss ≡ false = ground (arith, u, h) in
      elim (Bool-cases (is_dot s)) [
        | inl d ↦ rw d (undotted-Plain ss rest n.1)
        | inr d ↦
            rw d (record { no_sep = n.0; not_dot = d; not_dotdot = u }, undotted-Plain ss rest n.1)
      ]
]

pub folded-sep : (a : ℕ) → (slash a == sep) ≡ false → (folded a == sep) ≡ false
folded-sep a h = ground arith
