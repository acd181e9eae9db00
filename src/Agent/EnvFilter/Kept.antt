-- ===== src/Agent/EnvFilter/Kept.antt =====
-- What is left of an environment.
use mathlib.Core.List.{Memᴰ}
use mathlib.Core.List.Memᴰ
use sembazuru.Base.{
  inl, inr, sym, ◌∙◌, ◌++◌, ◌==◌, both_true, ==_iff, ℕ, ◌≡◌, ◌↔◌, refl, ap, ap₂, Bool, true, false,
  ◌||◌, List, [], ◌∷◌, arith,
}
use sembazuru.Base.Texts.{same, same_refl, eq_of_same}
use sembazuru.Base.Assoc.{text_eq}
use sembazuru.Cas.Listed.{either, listed→Memᴰ, Memᴰ→listed}
use sembazuru.Cas.Fingerprint.{upper, each, listed, starts_with}
use sembazuru.Agent.EnvFilter.{
  eq_ignore_ascii_case, any_named, any_prefix, allow_exact, allow_prefix, is_compiler_env,
}

upper_once : (c : ℕ) → upper (upper c) ≡ upper c
upper_once c = ground arith

each-each : (s : List ℕ) → each upper (each upper s) ≡ each upper s
unfolding each
each-each [] = refl
each-each (c ∷ cs) = ap₂ (λ (x : ℕ) (xs : List ℕ). x ∷ xs) (upper_once c) (each-each cs)

any_named-upper :
    (extra : List (List ℕ)) (name : List ℕ)
    → any_named extra (each upper name) ≡ any_named extra name
unfolding any_named eq_ignore_ascii_case
any_named-upper [] name = refl
any_named-upper (e ∷ extra) name =
    ap₂ (λ (a b : Bool). a || b) (ap (same (each upper e)) (each-each name))
      (any_named-upper extra name)

-- Whether a variable is forwarded does not depend on the case of its name's letters.
pub is_compiler_env-upper :
    (name : List ℕ) (extra : List (List ℕ))
    → is_compiler_env (each upper name) extra ≡ is_compiler_env name extra
unfolding is_compiler_env
is_compiler_env-upper name extra = rw (each-each name, any_named-upper extra name) refl

-- The name is one that compilers need, in any case of its letters: it is one of the list, begins with one of the
-- prefixes, or is one that the environment itself asks to pass.
pub data Needed (extra : List (List ℕ)) (name : List ℕ) : Type 0 where
  named : Memᴰ (each upper name) allow_exact → Needed extra name
  prefixed :
      (p rest : List ℕ) → Memᴰ p allow_prefix → each upper name ≡ p ++ rest → Needed extra name
  asked : (e : List ℕ) → Memᴰ e extra → each upper e ≡ each upper name → Needed extra name

last_true : (a b : Bool) → b ≡ true → (a || b) ≡ true
last_true true b h = refl
last_true false b h = h

front_of : (s p : List ℕ) → starts_with s p ≡ true → (rest : List ℕ) × (s ≡ p ++ rest)
unfolding starts_with same
front_of s [] h = (s, refl)
front_of [] (b ∷ p) h = absurd cc
front_of (a ∷ s) (b ∷ p) h =
    let (first, more) = both_true (a == b) (starts_with s p) h in
    let (rest, e) = front_of s p more in
    (rest, ap₂ (λ (x : ℕ) (xs : List ℕ). x ∷ xs) ((==_iff a b).0 first) e)

starts_with-append : (p rest : List ℕ) → starts_with (p ++ rest) p ≡ true
unfolding starts_with same
starts_with-append [] rest = refl
starts_with-append (b ∷ p) rest = rw ((==_iff b b).1 refl) (starts_with-append p rest)

any_prefix→Needed :
    (ps : List (List ℕ)) (s : List ℕ)
    → any_prefix ps s ≡ true
    → (p : List ℕ) × (rest : List ℕ) × Memᴰ p ps × (s ≡ p ++ rest)
unfolding any_prefix
any_prefix→Needed [] s h = absurd cc
any_prefix→Needed (p ∷ ps) s h = elim (either (starts_with s p) (any_prefix ps s) h) [
  | inl y ↦ let (rest, e) = front_of s p y in (p, rest, Memᴰ.head refl, e)
  | inr y ↦ let (q, rest, m, e) = any_prefix→Needed ps s y in (q, rest, Memᴰ.tail m, e)
]

Needed→any_prefix :
    (ps : List (List ℕ)) (s p rest : List ℕ) → Memᴰ p ps → s ≡ p ++ rest → any_prefix ps s ≡ true
unfolding any_prefix
Needed→any_prefix [] s p rest m e = absurd (Memᴰ.not-nil m)
Needed→any_prefix (q ∷ ps) s p rest (Memᴰ.head i) e = rw (e, i, starts_with-append q rest) refl
Needed→any_prefix (q ∷ ps) s p rest (Memᴰ.tail m) e =
    ground (arith, Needed→any_prefix ps s p rest m e)

any_named→Needed :
    (es : List (List ℕ)) (name : List ℕ)
    → any_named es name ≡ true
    → (e : List ℕ) × Memᴰ e es × (each upper e ≡ each upper name)
unfolding any_named eq_ignore_ascii_case
any_named→Needed [] name h = absurd cc
any_named→Needed (f ∷ es) name h =
    elim (either (same (each upper f) (each upper name)) (any_named es name) h) [
      | inl y ↦ (f, Memᴰ.head refl, eq_of_same (each upper f) (each upper name) y)
      | inr y ↦ let (g, m, e) = any_named→Needed es name y in (g, Memᴰ.tail m, e)
    ]

Needed→any_named :
    (es : List (List ℕ)) (name e : List ℕ)
    → Memᴰ e es
    → each upper e ≡ each upper name
    → any_named es name ≡ true
unfolding any_named eq_ignore_ascii_case
Needed→any_named [] name e m q = absurd (Memᴰ.not-nil m)
Needed→any_named (f ∷ es) name e (Memᴰ.head i) q =
    rw (sym (ap (each upper) i) ∙ q, same_refl (each upper name)) refl
Needed→any_named (f ∷ es) name e (Memᴰ.tail m) q = ground (arith, Needed→any_named es name e m q)

is_compiler_env-Needed :
    (name : List ℕ) (extra : List (List ℕ)) → Needed extra name → is_compiler_env name extra ≡ true
unfolding is_compiler_env
is_compiler_env-Needed name extra (named m) = rw (Memᴰ→listed allow_exact (each upper name) m) refl
is_compiler_env-Needed name extra (prefixed p rest m e) =
    last_true (listed allow_exact (each upper name)) _
      (rw (Needed→any_prefix allow_prefix (each upper name) p rest m e) refl)
is_compiler_env-Needed name extra (asked e m q) =
    last_true (listed allow_exact (each upper name)) _
      (last_true (any_prefix allow_prefix (each upper name)) _ (Needed→any_named extra name e m q))

-- Whether a variable is forwarded, against the lists.
pub is_compiler_env_iff :
    (name : List ℕ) (extra : List (List ℕ))
    → (is_compiler_env name extra ≡ true) ↔ Needed extra name
unfolding is_compiler_env
is_compiler_env_iff name extra = (
  λ h. elim (either (listed allow_exact (each upper name)) _ h) [
    | inl y ↦ named (listed→Memᴰ allow_exact (each upper name) y)
    | inr y ↦ elim (either (any_prefix allow_prefix (each upper name)) _ y) [
      | inl z ↦
          let (p, rest, m, e) = any_prefix→Needed allow_prefix (each upper name) z in
          prefixed p rest m e
      | inr z ↦ let (e, m, q) = any_named→Needed extra name z in asked e m q
    ]
  ],
  λ n. is_compiler_env-Needed name extra n,
)
