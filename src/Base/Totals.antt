-- ===== src/Base/Totals.antt =====
-- Sums over the values of an association list, and what an insertion and a removal do to them.
use mathlib.Core.Logic.{◌≢◌, inl, inr}
use sembazuru.Base.{
  ℕ, suc, ◌+◌, ◌≤◌, ◌≡◌, refl, ap, List, [], ◌∷◌, Option, none, some, length, Bool-cases, arith,
}
use sembazuru.Base.Assoc.{Eq, lookup, insert, remove, lookup-remove_ne}

abbrev pub part : {V : Type 0} → (V → ℕ) → Option V → ℕ
part f none = 0
part f (some v) = f v

module _ {K : Type 0} ⦃o : Eq K⦄ {V : Type 0} (f : V → ℕ) where
  unfoldable pub total : List (K × V) → ℕ
  total [] = 0
  total ((j, v) ∷ m) = f v + total m

  pub total-insert :
      (k : K) (v : V) (m : List (K × V))
      → total (insert k v m) + part f (lookup k m) ≡ total m + f v
  unfolding total insert lookup
  total-insert k v [] = omega arith
  total-insert k v ((j, w) ∷ m) = elim (Bool-cases (o.beq j k)) [
    | inl e ↦ rw e (omega arith)
    | inr e ↦ rw e (omega (arith, total-insert k v m))
  ]

  pub total-remove : (k : K) (m : List (K × V)) → total (remove k m) + part f (lookup k m) ≡ total m
  unfolding total remove lookup
  total-remove k [] = omega arith
  total-remove k ((j, w) ∷ m) = elim (Bool-cases (o.beq j k)) [
    | inl e ↦ rw e (omega arith)
    | inr e ↦ rw e (omega (arith, total-remove k m))
  ]

  -- A value in the place of another.
  pub total_replaced :
      (k : K) (v w : V) (m : List (K × V))
      → lookup k m ≡ some w
      → total (insert k v m) + f w ≡ total m + f v
  total_replaced k v w m h = omega (arith, total-insert k v m, ap (part f) h)

  pub part-le-total : (k : K) (m : List (K × V)) → part f (lookup k m) ≤ total m
  part-le-total k m = omega (arith, total-remove k m)

  -- Two entries of different keys.
  pub parts-le-total :
      (j k : K) (m : List (K × V)) → j ≢ k → part f (lookup j m) + part f (lookup k m) ≤ total m
  parts-le-total j k m ne = omega (
    arith,
    total-remove j m,
    part-le-total k (remove j m),
    ap (part f) (lookup-remove_ne j k m ne),
  )

module _ {K : Type 0} ⦃o : Eq K⦄ {V : Type 0} where
  pub total-le-length : (f : V → ℕ) (m : List (K × V)) → ((v : V) → f v ≤ 1) → total f m ≤ length m
  unfolding total
  total-le-length f [] h = omega arith
  total-le-length f ((j, v) ∷ m) h = omega (arith, total-le-length f m h, h v)

  pub total_mono : (f g : V → ℕ) (m : List (K × V)) → ((v : V) → f v ≤ g v) → total f m ≤ total g m
  unfolding total
  total_mono f g [] h = omega arith
  total_mono f g ((j, v) ∷ m) h = omega (arith, total_mono f g m h, h v)

  pub length-insert : (k : K) (v : V) (m : List (K × V)) → length (insert k v m) ≤ length m + 1
  unfolding insert
  length-insert k v [] = omega arith
  length-insert k v ((j, w) ∷ m) = ground (arith, length-insert k v m)

  pub length_replaced :
      (k : K) (v w : V) (m : List (K × V)) → lookup k m ≡ some w → length (insert k v m) ≡ length m
  unfolding insert lookup
  length_replaced k v w [] h = absurd cc
  length_replaced k v w ((j, x) ∷ m) h = elim (Bool-cases (o.beq j k)) [
    | inl e ↦ rw e refl
    | inr e ↦ rw e (ap suc (length_replaced k v w m (rw e at h)))
  ]

  pub length-remove : (k : K) (m : List (K × V)) → length (remove k m) ≤ length m
  unfolding remove
  length-remove k [] = omega arith
  length-remove k ((j, w) ∷ m) = ground (arith, length-remove k m)

  pub length_removed :
      (k : K) (w : V) (m : List (K × V)) → lookup k m ≡ some w → length (remove k m) + 1 ≡ length m
  unfolding remove lookup
  length_removed k w [] h = absurd cc
  length_removed k w ((j, x) ∷ m) h = elim (Bool-cases (o.beq j k)) [
    | inl e ↦ rw e (omega arith)
    | inr e ↦ rw e (omega (arith, length_removed k w m (rw e at h)))
  ]
