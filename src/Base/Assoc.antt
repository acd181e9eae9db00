-- ===== src/Base/Assoc.antt =====
-- `HashMap<K, V>` as an association list with one entry for a key; the sources do not depend on
-- the order of its entries where a lemma here is used.
use mathlib.Core.Path.{ap₂}
use mathlib.Core.Bool.{Bool, true, false, ◌&&◌}
use mathlib.Core.Logic.{◌≢◌, inl, inr}
use sembazuru.Base.{
  ℕ, ◌≡◌, refl, sym, ap, subst, ◌∙◌, List, [], ◌∷◌, Option, none, some, if◌then◌else◌, Bool-cases,
  arith,
}
use sembazuru.Base.Texts.{same, same_refl, eq_of_same}

-- Equality of keys, by a test.
pub record Eq (K : Type 0) : Type 0 where
  pub beq : K → K → Bool
  pub beq_refl : (k : K) → beq k k ≡ true
  pub eq_of_beq : (j k : K) → beq j k ≡ true → j ≡ k

instance abbrev pub text_eq : Eq (List ℕ)
text_eq = record { beq = same; beq_refl = same_refl; eq_of_beq = eq_of_same }

abbrev pub same_pair : List ℕ × List ℕ → List ℕ × List ℕ → Bool
same_pair a b = same a.0 b.0 && same a.1 b.1

pub same_pair_refl : (a : List ℕ × List ℕ) → same_pair a a ≡ true
same_pair_refl (a, b) = ground (arith, same_refl a, same_refl b)

pub eq_of_same_pair : (a b : List ℕ × List ℕ) → same_pair a b ≡ true → a ≡ b
eq_of_same_pair (a, b) (c, d) h =
    ap₂ (λ x y. (x, y)) (eq_of_same a c (ground arith)) (eq_of_same b d (ground arith))

instance abbrev pub pair_eq : Eq (List ℕ × List ℕ)
pair_eq = record { beq = same_pair; beq_refl = same_pair_refl; eq_of_beq = eq_of_same_pair }

module _ {K : Type 0} ⦃o : Eq K⦄ where
  pub beq-eq_false : (j k : K) → j ≢ k → o.beq j k ≡ false
  beq-eq_false j k ne = elim (Bool-cases (o.beq j k)) [
    | inl y ↦ absurd (ne (o.eq_of_beq j k y))
    | inr n ↦ n
  ]

  pub ne_of_beq : (j k : K) → o.beq j k ≡ false → j ≢ k
  ne_of_beq j k n q = ground (arith, n, ap (λ (i : K). o.beq i k) q, o.beq_refl k)

module _ {K : Type 0} ⦃o : Eq K⦄ {V : Type 0} where
  unfoldable pub lookup : K → List (K × V) → Option V
  lookup k [] = none
  lookup k ((j, v) ∷ m) = if o.beq j k then some v else lookup k m

  unfoldable pub insert : K → V → List (K × V) → List (K × V)
  insert k v [] = (k, v) ∷ []
  insert k v ((j, w) ∷ m) = if o.beq j k then (k, v) ∷ m else (j, w) ∷ insert k v m

  unfoldable pub remove : K → List (K × V) → List (K × V)
  remove k [] = []
  remove k ((j, w) ∷ m) = if o.beq j k then m else (j, w) ∷ remove k m

  -- `HashMap::retain`
  unfoldable pub retain : (K → V → Bool) → List (K × V) → List (K × V)
  retain keep [] = []
  retain keep ((j, w) ∷ m) = if keep j w then (j, w) ∷ retain keep m else retain keep m

  -- One entry for a key.
  abbrev pub Distinct : List (K × V) → Type 0
  Distinct [] = Unit {0}
  Distinct ((j, w) ∷ m) = (lookup j m ≡ none) × Distinct m

  pub lookup-insert_self : (k : K) (v : V) (m : List (K × V)) → lookup k (insert k v m) ≡ some v
  unfolding lookup insert
  lookup-insert_self k v [] = rw (o.beq_refl k)
  lookup-insert_self k v ((j, w) ∷ m) = elim (Bool-cases (o.beq j k)) [
    | inl e ↦ rw (e, o.beq_refl k)
    | inr e ↦ rw (e, lookup, e) (lookup-insert_self k v m)
  ]

  pub lookup-insert_ne :
      (k j : K) (v : V) (m : List (K × V)) → k ≢ j → lookup j (insert k v m) ≡ lookup j m
  unfolding lookup insert
  lookup-insert_ne k j v [] ne = rw (beq-eq_false k j ne)
  lookup-insert_ne k j v ((i, w) ∷ m) ne = elim (Bool-cases (o.beq i k)) [
    | inl e ↦ let is : i ≡ k = o.eq_of_beq i k e in rw (e, lookup, is, beq-eq_false k j ne)
    | inr e ↦ ground (arith, e, lookup-insert_ne k j v m ne)
  ]

  pub lookup-remove_ne : (k j : K) (m : List (K × V)) → k ≢ j → lookup j (remove k m) ≡ lookup j m
  unfolding lookup remove
  lookup-remove_ne k j [] ne = refl
  lookup-remove_ne k j ((i, w) ∷ m) ne = elim (Bool-cases (o.beq i k)) [
    | inl e ↦ let is : i ≡ k = o.eq_of_beq i k e in rw (e, is, beq-eq_false k j ne)
    | inr e ↦ ground (arith, e, lookup-remove_ne k j m ne)
  ]

  pub lookup-remove_self : (k : K) (m : List (K × V)) → Distinct m → lookup k (remove k m) ≡ none
  unfolding lookup remove
  lookup-remove_self k [] d = refl
  lookup-remove_self k ((j, w) ∷ m) d = elim (Bool-cases (o.beq j k)) [
    | inl e ↦ rw (e, ← o.eq_of_beq j k e) d.0
    | inr e ↦ ground (arith, e, lookup-remove_self k m d.1)
  ]

  abbrev pub kept : (K → V → Bool) → K → Option V → Option V
  kept keep k none = none
  kept keep k (some v) = if keep k v then some v else none

  -- Entries that are kept stay, and others are gone.
  pub lookup-retain :
      (keep : K → V → Bool) (k : K) (m : List (K × V))
      → Distinct m
      → lookup k (retain keep m) ≡ kept keep k (lookup k m)
  unfolding lookup retain
  lookup-retain keep k [] d = refl
  lookup-retain keep k ((j, w) ∷ m) d = elim (Bool-cases (o.beq j k)) [
    | inl e ↦
        let is : j ≡ k = o.eq_of_beq j k e in
        let gone : lookup k (retain keep m) ≡ none =
          lookup-retain keep k m d.1
          ∙ ap (kept keep k) (subst (λ (i : K). lookup i m ≡ none) is d.0) in
        rw (is, o.beq_refl k)
          (elim (Bool-cases (keep k w)) [ inl y ↦ rw (y, o.beq_refl k) | inr n ↦ rw n gone ])
    | inr e ↦ elim (Bool-cases (keep j w)) [
      | inl y ↦ rw (y, e) (lookup-retain keep k m d.1)
      | inr n ↦ rw (n, e) (lookup-retain keep k m d.1)
    ]
  ]

  pub retain-Distinct :
      (keep : K → V → Bool) (m : List (K × V)) → Distinct m → Distinct (retain keep m)
  unfolding retain
  retain-Distinct keep [] d = tt
  retain-Distinct keep ((j, w) ∷ m) d = elim (Bool-cases (keep j w)) [
    | inl y ↦ rw y (lookup-retain keep j m d.1 ∙ ap (kept keep j) d.0, retain-Distinct keep m d.1)
    | inr n ↦ rw n (retain-Distinct keep m d.1)
  ]

  pub insert-Distinct : (k : K) (v : V) (m : List (K × V)) → Distinct m → Distinct (insert k v m)
  unfolding insert
  insert-Distinct k v [] d = (unfold lookup in refl, tt)
  insert-Distinct k v ((j, w) ∷ m) d = elim (Bool-cases (o.beq j k)) [
    | inl e ↦ rw e (subst (λ (i : K). lookup i m ≡ none) (o.eq_of_beq j k e) d.0, d.1)
    | inr e ↦ rw e (
      lookup-insert_ne k j v m (λ q. cc (e, ap (λ (i : K). o.beq i k) (sym q), o.beq_refl k)) ∙ d.0,
      insert-Distinct k v m d.1,
    )
  ]

  pub remove_missing :
      (k j : K) (m : List (K × V)) → Distinct m → lookup j m ≡ none → lookup j (remove k m) ≡ none
  unfolding lookup remove
  remove_missing k j [] d h = refl
  remove_missing k j ((i, w) ∷ m) d h = elim (Bool-cases (o.beq i k)) [
    | inl e ↦ ground (arith, e, h)
    | inr e ↦ ground (arith, e, h, remove_missing k j m d.1)
  ]

  pub remove-Distinct : (k : K) (m : List (K × V)) → Distinct m → Distinct (remove k m)
  unfolding remove
  remove-Distinct k [] d = tt
  remove-Distinct k ((j, w) ∷ m) d = elim (Bool-cases (o.beq j k)) [
    | inl e ↦ rw e d.1
    | inr e ↦ rw e (remove_missing k j m d.1 d.0, remove-Distinct k m d.1)
  ]

  pub lookup-insert :
      (k j : K) (v : V) (m : List (K × V))
      → lookup j (insert k v m) ≡ (if o.beq k j then some v else lookup j m)
  lookup-insert k j v m = elim (Bool-cases (o.beq k j)) [
    | inl e ↦ rw (e, ← o.eq_of_beq k j e) (lookup-insert_self k v m)
    | inr e ↦ rw e (lookup-insert_ne k j v m (ne_of_beq k j e))
  ]

  pub lookup-remove :
      (k j : K) (m : List (K × V))
      → Distinct m
      → lookup j (remove k m) ≡ (if o.beq k j then none else lookup j m)
  lookup-remove k j m d = elim (Bool-cases (o.beq k j)) [
    | inl e ↦ rw (e, ← o.eq_of_beq k j e) (lookup-remove_self k m d)
    | inr e ↦ rw e (lookup-remove_ne k j m (ne_of_beq k j e))
  ]
