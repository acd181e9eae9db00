-- ===== src/Cas/Listed.antt =====
-- Whether a list has a string, as a test and as membership.
use mathlib.Core.List.{Memᴰ}
use mathlib.Core.List.Memᴰ
use sembazuru.Base.{ℕ, ◌≡◌, refl, sym, Bool, true, false, ◌||◌, ◌⊎◌, inl, inr, List, [], ◌∷◌, arith}
use sembazuru.Base.Texts.{same, same_refl, eq_of_same}
use sembazuru.Cas.Fingerprint.{listed}

pub either : (a b : Bool) → (a || b) ≡ true → (a ≡ true) ⊎ (b ≡ true)
either true b h = inl refl
either false b h = inr h

pub listed→Memᴰ : (xs : List (List ℕ)) (x : List ℕ) → listed xs x ≡ true → Memᴰ x xs
unfolding listed
listed→Memᴰ [] x h = absurd cc
listed→Memᴰ (y ∷ ys) x h = elim (either (same y x) (listed ys x) h) [
  | inl e ↦ Memᴰ.head (sym (eq_of_same y x e))
  | inr e ↦ Memᴰ.tail (listed→Memᴰ ys x e)
]

pub Memᴰ→listed : (xs : List (List ℕ)) (x : List ℕ) → Memᴰ x xs → listed xs x ≡ true
unfolding listed
Memᴰ→listed [] x m = absurd (Memᴰ.not-nil m)
Memᴰ→listed (y ∷ ys) x (Memᴰ.head e) = rw (e, same_refl y) refl
Memᴰ→listed (y ∷ ys) x (Memᴰ.tail m) = ground (arith, Memᴰ→listed ys x m)
