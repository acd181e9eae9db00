-- ===== src/Tracer/Manifest/Sorted.antt =====
-- crates/tracer/src/action_key.rs: sorting keeps the elements.
use mathlib.Core.List.{Memᴰ}
use sembazuru.Base.{inl, inr, List, [], ◌∷◌, Bool-cases}
use sembazuru.Cas.Fingerprint.{at_most}
use sembazuru.Tracer.Paths.{Text}
use sembazuru.Tracer.Manifest.{place_text, sort_texts}

behind :
    {x t u : Text} {us ps : List Text}
    → (Memᴰ x (t ∷ us) → Memᴰ x ps)
    → Memᴰ x (t ∷ u ∷ us)
    → Memᴰ x (u ∷ ps)
behind ih (Memᴰ.head e) = Memᴰ.tail (ih (Memᴰ.head e))
behind ih (Memᴰ.tail (Memᴰ.head e)) = Memᴰ.head e
behind ih (Memᴰ.tail (Memᴰ.tail m)) = Memᴰ.tail (ih (Memᴰ.tail m))

over : {x t u : Text} {us : List Text} → Memᴰ x (t ∷ us) → Memᴰ x (t ∷ u ∷ us)
over (Memᴰ.head e) = Memᴰ.head e
over (Memᴰ.tail m) = Memᴰ.tail (Memᴰ.tail m)

ahead :
    {x t u : Text} {us ps : List Text}
    → (Memᴰ x ps → Memᴰ x (t ∷ us))
    → Memᴰ x (u ∷ ps)
    → Memᴰ x (t ∷ u ∷ us)
ahead ih (Memᴰ.head e) = Memᴰ.tail (Memᴰ.head e)
ahead ih (Memᴰ.tail m) = over (ih m)

same_head :
    {x t : Text} {us ps : List Text} → (Memᴰ x us → Memᴰ x ps) → Memᴰ x (t ∷ us) → Memᴰ x (t ∷ ps)
same_head ih (Memᴰ.head e) = Memᴰ.head e
same_head ih (Memᴰ.tail m) = Memᴰ.tail (ih m)

place-Memᴰ : (t : Text) (us : List Text) {x : Text} → Memᴰ x (t ∷ us) → Memᴰ x (place_text t us)
unfolding place_text
place-Memᴰ t [] m = m
place-Memᴰ t (u ∷ us) {x} m = elim (Bool-cases (at_most t u)) [
  | inl y ↦ rw y m
  | inr n ↦ rw n (behind (place-Memᴰ t us {x = x}) m)
]

of_place-Memᴰ : (t : Text) (us : List Text) {x : Text} → Memᴰ x (place_text t us) → Memᴰ x (t ∷ us)
unfolding place_text
of_place-Memᴰ t [] m = m
of_place-Memᴰ t (u ∷ us) {x} m = elim (Bool-cases (at_most t u)) [
  | inl y ↦ rw y at m
  | inr n ↦ ahead (of_place-Memᴰ t us {x = x}) (rw n at m)
]

pub sort-Memᴰ : (ts : List Text) {x : Text} → Memᴰ x ts → Memᴰ x (sort_texts ts)
unfolding sort_texts
sort-Memᴰ [] m = m
sort-Memᴰ (t ∷ ts) {x} m = place-Memᴰ t (sort_texts ts) (same_head (sort-Memᴰ ts {x = x}) m)

pub of_sort-Memᴰ : (ts : List Text) {x : Text} → Memᴰ x (sort_texts ts) → Memᴰ x ts
unfolding sort_texts
of_sort-Memᴰ [] m = m
of_sort-Memᴰ (t ∷ ts) {x} m =
    same_head (of_sort-Memᴰ ts {x = x}) (of_place-Memᴰ t (sort_texts ts) m)
