-- ===== src/Tests/Inputs.antt =====
-- The inputs that the examples share.
use sembazuru.Base.{
  ℕ, zero, suc, ◌<◌, ◌≡◌, refl, Bool, true, ◌&&◌, List, [], ◌∷◌, replicate, All, ltb, arith,
}
use sembazuru.Bytes.{IsByte}
use sembazuru.Bytes.Utf8.{IsUtf8, ascii-IsUtf8}
use sembazuru.Blake3.{Blake3, IsLowerHex}
use sembazuru.Dataplane.Payload.Fields.{IsText}

abbrev pub all_below : ℕ → List ℕ → Bool
all_below n [] = true
all_below n (b ∷ bs) = ltb b n && all_below n bs

pub all_below-All : (n : ℕ) (bs : List ℕ) → all_below n bs ≡ true → All (λ b. b < n) bs
all_below-All n [] h = tt
all_below-All n (b ∷ bs) h = (ground (arith, h), all_below-All n bs (ground (arith, h)))

abbrev pub ab : List ℕ
ab = 97 ∷ 98 ∷ []

pub ab-IsUtf8 : IsUtf8 ab
ab-IsUtf8 = ascii-IsUtf8 ab (all_below-All 128 ab refl)

pub ab-IsText : IsText ab
ab-IsText = record { utf8 = ab-IsUtf8; short = omega arith }

pub ab-bytes : All IsByte ab
ab-bytes = all_below-All 256 ab refl

pub lower_zeros : (n : ℕ) → All IsLowerHex (replicate n b'0')
lower_zeros zero = tt
lower_zeros (suc n) = (refl, lower_zeros n)

-- Functions of the right shapes.
abbrev pub zeros : Blake3
zeros = record {
  hash = λ bs. replicate 32 0;
  hash_length = λ bs. refl;
  hash_bytes = λ bs. all_below-All 256 (replicate 32 0) refl;
  to_hex = λ h. replicate 64 b'0';
  to_hex_length = λ h n. refl;
  to_hex_lower = λ h n. lower_zeros 64;
  keyed_hash = λ key bs. replicate 32 0;
  keyed_hash_length = λ key bs. refl;
  derive_key = λ context bs. replicate 32 0;
  derive_key_length = λ context bs. refl;
}
