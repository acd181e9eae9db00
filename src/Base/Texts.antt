-- ===== src/Base/Texts.antt =====
-- Equality of byte strings, and the string functions of the standard library that the sources use.
use mathlib.Core.Bool.{Bool, true, false, ◌&&◌}
use mathlib.Core.Logic.{◌≢◌, inl, inr}
use sembazuru.Base.{
  ℕ, ◌≡◌, refl, List, [], ◌∷◌, ◌++◌, Option, none, some, ◌==◌, if◌then◌else◌, All, Bool-cases,
  Option-cases, arith,
}

-- `a == b` on strings.
unfoldable pub same : List ℕ → List ℕ → Bool
same [] [] = true
same (x ∷ xs) (y ∷ ys) = x == y && same xs ys
same _ _ = false

pub same_refl : (xs : List ℕ) → same xs xs ≡ true
unfolding same
same_refl [] = refl
same_refl (x ∷ xs) = ground (arith, same_refl xs)

pub eq_of_same : (xs ys : List ℕ) → same xs ys ≡ true → xs ≡ ys
unfolding same
eq_of_same [] [] h = refl
eq_of_same [] (y ∷ ys) h = cc
eq_of_same (x ∷ xs) [] h = cc
eq_of_same (x ∷ xs) (y ∷ ys) h = ground (arith, eq_of_same xs ys)

pub same-eq_false : (xs ys : List ℕ) → xs ≢ ys → same xs ys ≡ false
same-eq_false xs ys h = elim (Bool-cases (same xs ys)) [
  | inl e ↦ absurd (h (eq_of_same xs ys e))
  | inr e ↦ e
]

-- `s.split_once(c)` at an ASCII character.
unfoldable pub split_once : ℕ → List ℕ → Option (List ℕ × List ℕ)
split_once c [] = none
split_once c (b ∷ bs) =
    if b == c
    then some ([], bs)
    else elim (split_once c bs) [ none ↦ none | some (front, back) ↦ some (b ∷ front, back) ]

pub split_once-append :
    (c : ℕ) (front back : List ℕ)
    → All (λ b. b ≢ c) front
    → split_once c (front ++ (c ∷ back)) ≡ some (front, back)
unfolding split_once
split_once-append c [] back h = ground arith
split_once-append c (b ∷ bs) back h = ground (arith, split_once-append c bs back h.1, h.0)

pub split_once_sound :
    (c : ℕ) (s front back : List ℕ) → split_once c s ≡ some (front, back) → s ≡ front ++ (c ∷ back)
unfolding split_once
split_once_sound c [] front back e = cc
split_once_sound c (b ∷ bs) front back e = elim (Option-cases (split_once c bs)) [
  | inl n ↦ ground (arith, n, e)
  | inr ((f, r), n) ↦ ground (arith, n, e, split_once_sound c bs f r n)
]
