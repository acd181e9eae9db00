-- ===== src/Proto/Auth.antt =====
-- `auth` of crates/proto/src/lib.rs: the shared cluster token.
use sembazuru.Base.{
  ℕ, ◌≡◌, ◌≢◌, ◌↔◌, ◌⊎◌, refl, ap, ap₂, Bool, true, false, List, [], ◌∷◌, Option, none, some,
  Result, ok, err, length, All, ◌==◌, ==_iff, if◌then◌else◌, bit_or, bit_xor, Bool-cases, inl, inr,
  arith,
}
use sembazuru.Bytes.{IsByte}
use sembazuru.Bytes.Bits.{bit_xor-IsByte, bit_or-IsByte, bit_xor_self}

-- `diff |= x ^ y` over the pairs of bytes.
unfoldable pub diff_of : ℕ → List ℕ → List ℕ → ℕ
diff_of diff [] bs = diff
diff_of diff (a ∷ as_) [] = diff
diff_of diff (a ∷ as_) (b ∷ bs) = diff_of (bit_or diff (bit_xor a b)) as_ bs

unfoldable pub token_eq : List ℕ → List ℕ → Bool
unfolding diff_of
token_eq a b = if length a == length b then diff_of 0 a b == 0 else false

pub data AuthError : Type 0 where
  missing_token invalid_token : AuthError

unfoldable pub check_token : List ℕ → List ℕ → Result AuthError (Unit {0})
unfolding token_eq
check_token expected [] = err missing_token
check_token expected (b ∷ bs) = if token_eq expected (b ∷ bs) then ok tt else err invalid_token

-- No expected token: authentication is off.
unfoldable pub check : Option (List ℕ) → List ℕ → Result AuthError (Unit {0})
unfolding check_token
check none presented = ok tt
check (some expected) presented = check_token expected presented

-- The accumulated difference is a byte, and is 0 only if it began so and the pairs are equal.
diff_of_sound :
    (diff : ℕ) (a b : List ℕ)
    → IsByte diff
    → All IsByte a
    → All IsByte b
    → length a ≡ length b
    → diff_of diff a b ≡ 0
    → (diff ≡ 0) × (a ≡ b)
unfolding diff_of
diff_of_sound diff [] [] hd ha hb n z = (z, refl)
diff_of_sound diff [] (y ∷ b) hd ha hb n z = absurd (omega arith)
diff_of_sound diff (x ∷ a) [] hd ha hb n z = absurd (omega arith)
diff_of_sound diff (x ∷ a) (y ∷ b) hd ha hb n z =
    let (bx, ex) = bit_xor-IsByte x y ha.0 hb.0 in
    let (bo, eo) = bit_or-IsByte diff (bit_xor x y) hd bx in
    let (zero_, rest) =
      diff_of_sound (bit_or diff (bit_xor x y)) a b bo ha.1 hb.1 (omega arith) z in
    ((eo zero_).0, ap₂ (λ h t. h ∷ t) (ex (eo zero_).1) rest)

diff_of_refl : (a : List ℕ) → All IsByte a → diff_of 0 a a ≡ 0
unfolding diff_of
diff_of_refl [] h = refl
diff_of_refl (x ∷ a) h = rw (bit_xor_self x h.0) (diff_of_refl a h.1)

-- The comparison that looks at every byte is equality, on byte strings.
pub token_eq_iff : (a b : List ℕ) → All IsByte a → All IsByte b → (token_eq a b ≡ true) ↔ (a ≡ b)
unfolding token_eq
token_eq_iff a b ha hb = (
  λ h. (diff_of_sound 0 a b (omega arith) ha hb (ground (arith, h)) (ground (arith, h))).1,
  λ e. rw (← e, (==_iff (length a) (length a)).1 refl, diff_of_refl a ha),
)

some_inj : (a b : List ℕ) → some a ≡ some b → a ≡ b
some_inj a b e = cc

-- `cluster_token_from_env` gives no empty token.
abbrev pub IsConfigured : Option (List ℕ) → Type 0
IsConfigured none = Unit {0}
IsConfigured (some token) = (token ≢ []) × All IsByte token

-- With an expected token, which is not empty, a peer is accepted exactly when it presents that
-- token; with none, every peer is accepted.
pub check_iff :
    (expected : Option (List ℕ)) (presented : List ℕ)
    → All IsByte presented
    → IsConfigured expected
    → (check expected presented ≡ ok tt) ↔ ((expected ≡ none) ⊎ (expected ≡ some presented))
unfolding check check_token
check_iff none presented hp he = (λ h. inl refl, λ h. refl)
check_iff (some token) [] hp he =
    (λ h. cc, λ h. elim h [ inl e ↦ cc | inr e ↦ absurd (he.0 (some_inj token _ e)) ])
check_iff (some token) (b ∷ bs) hp he =
    let (forth, back) = token_eq_iff token (b ∷ bs) he.1 hp in
    elim (Bool-cases (token_eq token (b ∷ bs))) [
      | inl t ↦ (λ h. inr (ap some (forth t)), λ h. rw t)
      | inr t ↦ (
        λ h. cc (rw t at h),
        λ h. elim h [ inl e ↦ cc | inr e ↦ cc (t, back (some_inj token _ e)) ],
      )
    ]
