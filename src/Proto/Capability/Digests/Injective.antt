-- ===== src/Proto/Capability/Digests/Injective.antt =====
-- Commands that hash the same bytes are the same.
use mathlib.Core.Logic.{inl, inr}
use sembazuru.Base.{
  ℕ, suc, ◌^◌, ◌<◌, ◌≡◌, refl, sym, ap, ap₂, ◌∙◌, Bool, true, false, List, [], ◌∷◌, ◌++◌, Option,
  none, some, length, All, concat_map, append_assoc, if◌then◌else◌, Bool-cases, arith,
}
use sembazuru.Base.Texts.{same, same_refl, eq_of_same}
use sembazuru.Base.Assoc.{text_eq, lookup, Distinct}
use sembazuru.Bytes.{le_bytes, from_le}
use sembazuru.Bytes.Little.{length-le_bytes, from_le-le_bytes}
use sembazuru.Cas.Fingerprint.{at_most}
use sembazuru.Proto.Capability.{append_len_prefixed}
use sembazuru.Proto.Capability.Digests.{
  place, sorted, hash_count, hash_entry, command_bytes, command_digest_domain,
}

pub append-injective :
    (xs ys s t : List ℕ) → length xs ≡ length ys → xs ++ s ≡ ys ++ t → (xs ≡ ys) × (s ≡ t)
append-injective [] [] s t h e = (refl, e)
append-injective [] (y ∷ ys) s t h e = absurd (omega (arith, h))
append-injective (x ∷ xs) [] s t h e = absurd (omega (arith, h))
append-injective (x ∷ xs) (y ∷ ys) s t h e =
    let heads : x ≡ y = cc in
    let tails : xs ++ s ≡ ys ++ t = cc in
    let (xs_ys, s_t) = append-injective xs ys s t (omega (arith, h)) tails in
    (ap₂ (λ (a : ℕ) (r : List ℕ). a ∷ r) heads xs_ys, s_t)

abbrev pub IsShort : ℕ → Type 0
IsShort n = n < 2 ^ 32

count_read :
    (n m : ℕ) (s t : List ℕ)
    → IsShort n
    → IsShort m
    → hash_count n ++ s ≡ hash_count m ++ t
    → (n ≡ m) × (s ≡ t)
unfolding hash_count
count_read n m s t hn hm e =
    let (bytes, rest) =
      append-injective (le_bytes 4 n) (le_bytes 4 m) s t
        (length-le_bytes 4 n ∙ sym (length-le_bytes 4 m)) e in
    (
      sym (from_le-le_bytes 4 n (omega (arith, hn)))
          ∙ ap from_le bytes
          ∙ from_le-le_bytes 4 m (omega (arith, hm)),
      rest,
    )

abbrev pub Short : List ℕ → Type 0
Short bs = IsShort (length bs)

-- A function to bytes that says where its bytes end.
abbrev pub Delimited : {A : Type 0} → (A → List ℕ) → (A → Type 0) → Type 0
Delimited {A = A} f P =
    (x y : A) (s t : List ℕ) → P x → P y → f x ++ s ≡ f y ++ t → (x ≡ y) × (s ≡ t)

pub field-Delimited : Delimited append_len_prefixed Short
unfolding append_len_prefixed
field-Delimited x y s t hx hy e =
    let whole : hash_count (length x) ++ (x ++ s) ≡ hash_count (length y) ++ (y ++ t) =
      unfold hash_count in
      (sym (append_assoc (le_bytes 4 (length x)) x s)
        ∙ e
        ∙ append_assoc (le_bytes 4 (length y)) y t) in
    let (sizes, rest) = count_read (length x) (length y) (x ++ s) (y ++ t) hx hy whole in
    append-injective x y s t sizes rest

abbrev pub ShortEntry : List ℕ × List ℕ → Type 0
ShortEntry e = Short e.0 × Short e.1

entry-Delimited : Delimited hash_entry ShortEntry
unfolding hash_entry
entry-Delimited x y s t hx hy e =
    let whole : append_len_prefixed x.0 ++ (append_len_prefixed x.1 ++ s)
        ≡ append_len_prefixed y.0 ++ (append_len_prefixed y.1 ++ t) =
      sym (append_assoc (append_len_prefixed x.0) (append_len_prefixed x.1) s)
      ∙ e
      ∙ append_assoc (append_len_prefixed y.0) (append_len_prefixed y.1) t in
    let (keys, rest) =
      field-Delimited x.0 y.0 (append_len_prefixed x.1 ++ s) (append_len_prefixed y.1 ++ t) hx.0
        hy.0 whole in
    let (values, tail) = field-Delimited x.1 y.1 s t hx.1 hy.1 rest in
    (ap₂ (λ (k v : List ℕ). (k, v)) keys values, tail)

items_read :
    {A : Type 0} (f : A → List ℕ) (P : A → Type 0) (xs ys : List A) (s t : List ℕ)
    → Delimited f P
    → All P xs
    → All P ys
    → length xs ≡ length ys
    → concat_map f xs ++ s ≡ concat_map f ys ++ t
    → (xs ≡ ys) × (s ≡ t)
items_read f P [] [] s t d hx hy h e = (refl, e)
items_read f P [] (y ∷ ys) s t d hx hy h e = absurd (omega (arith, h))
items_read f P (x ∷ xs) [] s t d hx hy h e = absurd (omega (arith, h))
items_read {A = A} f P (x ∷ xs) (y ∷ ys) s t d hx hy h e =
    let whole : f x ++ (concat_map f xs ++ s) ≡ f y ++ (concat_map f ys ++ t) =
      sym (append_assoc (f x) (concat_map f xs) s) ∙ e ∙ append_assoc (f y) (concat_map f ys) t in
    let (heads, rest) = d x y (concat_map f xs ++ s) (concat_map f ys ++ t) hx.0 hy.0 whole in
    let (tails, end) = items_read f P xs ys s t d hx.1 hy.1 (omega (arith, h)) rest in
    (ap₂ (λ (a : A) (r : List A). a ∷ r) heads tails, end)

last_read :
    (x y : List ℕ) → Short x → Short y → append_len_prefixed x ≡ append_len_prefixed y → x ≡ y
last_read x y hx hy e = (field-Delimited x y [] [] hx hy (ap (λ (r : List ℕ). r ++ []) e)).0

-- The sorted entries.

module _ (P : List ℕ × List ℕ → Type 0) where
  place-All :
      (e : List ℕ × List ℕ) (es : List (List ℕ × List ℕ)) → P e → All P es → All P (place e es)
  unfolding place
  place-All e [] h g = (h, tt)
  place-All e (d ∷ ds) h g = elim (Bool-cases (at_most e.0 d.0)) [
    | inl q ↦ rw q (h, g)
    | inr q ↦ rw q (g.0, place-All e ds h g.1)
  ]

  sorted-All : (es : List (List ℕ × List ℕ)) → All P es → All P (sorted es)
  unfolding sorted
  sorted-All [] g = tt
  sorted-All (e ∷ es) g = place-All e (sorted es) g.0 (sorted-All es g.1)

length-place :
    (e : List ℕ × List ℕ) (es : List (List ℕ × List ℕ)) → length (place e es) ≡ suc (length es)
unfolding place
length-place e [] = refl
length-place e (d ∷ ds) = elim (Bool-cases (at_most e.0 d.0)) [
  | inl q ↦ rw q refl
  | inr q ↦ rw q (ap suc (length-place e ds))
]

length-sorted : (es : List (List ℕ × List ℕ)) → length (sorted es) ≡ length es
unfolding sorted
length-sorted [] = refl
length-sorted (e ∷ es) = length-place e (sorted es) ∙ ap suc (length-sorted es)

swapped :
    (b c : Bool) (v w : List ℕ) (o : Option (List ℕ))
    → (b ≡ true → c ≡ true → ⊥)
    → (if c then some w else (if b then some v else o))
      ≡ (if b then some v else (if c then some w else o))
swapped true true v w o h = absurd (h refl refl)
swapped true false v w o h = refl
swapped false true v w o h = refl
swapped false false v w o h = refl

some-none : (w : List ℕ) → ◌≡◌ {A = Option (List ℕ)} (some w) none → ⊥
some-none w h = absurd cc

not_same : (i : List ℕ) → same i i ≡ false → ⊥
not_same i h = let y = same_refl i in absurd (cc (y, h))

both_same : (i j k : List ℕ) → same i j ≡ false → same j k ≡ true → same i k ≡ true → ⊥
both_same i j k h jk ik = absurd (not_same i (rw (eq_of_same j k jk, ← eq_of_same i k ik) at h))

lookup-place :
    (j k v : List ℕ) (m : List (List ℕ × List ℕ))
    → lookup j m ≡ none
    → lookup k (place (j, v) m) ≡ (if same j k then some v else lookup k m)
unfolding lookup place
lookup-place j k v [] h = refl
lookup-place j k v ((i, w) ∷ m) h = elim (Bool-cases (at_most j i)) [
  | inl q ↦ rw q refl
  | inr q ↦ elim (Bool-cases (same i j)) [
    | inl is ↦ absurd (some-none w (rw is at h))
    | inr ne ↦
        rw (q, lookup-place j k v m (rw ne at h))
          (swapped (same j k) (same i k) v w (lookup k m) (λ jk ik. both_same i j k ne jk ik))
  ]
]

lookup-sorted :
    (k : List ℕ) (m : List (List ℕ × List ℕ)) → Distinct m → lookup k (sorted m) ≡ lookup k m
unfolding lookup sorted
lookup-sorted k [] d = refl
lookup-sorted k ((j, v) ∷ m) d =
    lookup-place j k v (sorted m) (lookup-sorted j m d.1 ∙ d.0)
    ∙ ap (λ (o : Option (List ℕ)). if same j k then some v else o) (lookup-sorted k m d.1)

-- What `command_digest` does not panic on.
pub record Hashable (argv : List (List ℕ)) (env : List (List ℕ × List ℕ)) (cwd : List ℕ)
    : Type 0 where
  pub argc : IsShort (length argv)
  pub args : All Short argv
  pub envc : IsShort (length env)
  pub entries : All ShortEntry env
  pub distinct : Distinct env
  pub place : Short cwd

-- Two commands for which the digest hashes the same bytes have the same arguments in order, give each
-- variable the same value, and have the same working directory: no byte of one field can pass for another's.
pub command_bytes-injective :
    (argv argv' : List (List ℕ)) (env env' : List (List ℕ × List ℕ)) (cwd cwd' : List ℕ)
    → Hashable argv env cwd
    → Hashable argv' env' cwd'
    → command_bytes argv env cwd ≡ command_bytes argv' env' cwd'
    → (argv ≡ argv') × ((k : List ℕ) → lookup k env ≡ lookup k env') × (cwd ≡ cwd')
unfolding command_bytes
command_bytes-injective argv argv' env env' cwd cwd' h h' e =
    let (_, after_domain) =
      append-injective command_digest_domain command_digest_domain _ _ refl e in
    let (argc, after_argc) =
      count_read (length argv) (length argv') _ _ h.argc h'.argc after_domain in
    let (args, after_args) =
      items_read append_len_prefixed Short argv argv' _ _ field-Delimited h.args h'.args argc
        after_argc in
    let (envc, after_envc) =
      count_read (length (sorted env)) (length (sorted env')) _ _
        (omega (arith, h.envc, length-sorted env)) (omega (arith, h'.envc, length-sorted env'))
        after_args in
    let (entries, after_entries) =
      items_read hash_entry ShortEntry (sorted env) (sorted env') _ _ entry-Delimited
        (sorted-All ShortEntry env h.entries) (sorted-All ShortEntry env' h'.entries) envc
        after_envc in
    (
      args,
      λ k.
          sym (lookup-sorted k env h.distinct)
          ∙ ap (lookup k) entries
          ∙ lookup-sorted k env' h'.distinct,
      last_read cwd cwd' h.place h'.place after_entries,
    )
