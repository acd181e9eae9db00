-- ===== src/Bytes/Bits.antt =====
-- `|` and `^` on bytes, by a table of all pairs.
use sembazuru.Base.{
  ℕ, zero, suc, ◌≡◌, refl, ◌<◌, Bool, true, false, ◌&&◌, ltb, ◌==◌, if◌then◌else◌, bit_or, bit_xor,
  arith,
}
use sembazuru.Bytes.{IsByte}

-- The test holds of the numbers below the bound.
rows : (ℕ → Bool) → ℕ → Bool
rows test zero = true
rows test (suc k) = if rows test k then test k else false

row : (test : ℕ → Bool) (bound k : ℕ) → k < bound → rows test bound ≡ true → test k ≡ true
unfolding rows
row test zero k small h = absurd (omega arith)
row test (suc bound) k small h = ground (arith, row test bound k)

xor_entry : ℕ → ℕ → Bool
xor_entry a b = if bit_xor a b == 0 then a == b else ltb (bit_xor a b) 256

or_entry : ℕ → ℕ → Bool
or_entry a b = if bit_or a b == 0 then a == 0 && b == 0 else ltb (bit_or a b) 256

xor_table : rows (λ a. rows (xor_entry a) 256) 256 ≡ true
unfolding rows xor_entry
xor_table = refl

or_table : rows (λ a. rows (or_entry a) 256) 256 ≡ true
unfolding rows or_entry
or_table = refl

xor_at : (a b : ℕ) → IsByte a → IsByte b → xor_entry a b ≡ true
xor_at a b ha hb = row (xor_entry a) 256 b hb (row (λ x. rows (xor_entry x) 256) 256 a ha xor_table)

or_at : (a b : ℕ) → IsByte a → IsByte b → or_entry a b ≡ true
or_at a b ha hb = row (or_entry a) 256 b hb (row (λ x. rows (or_entry x) 256) 256 a ha or_table)

pub bit_xor-IsByte :
    (a b : ℕ) → IsByte a → IsByte b → IsByte (bit_xor a b) × (bit_xor a b ≡ 0 → a ≡ b)
unfolding xor_entry
bit_xor-IsByte a b ha hb =
    let t = xor_at a b ha hb in (ground (arith, t), λ z. ground (arith, t, z))

pub bit_or-IsByte :
    (a b : ℕ) → IsByte a → IsByte b → IsByte (bit_or a b) × (bit_or a b ≡ 0 → (a ≡ 0) × (b ≡ 0))
unfolding or_entry
bit_or-IsByte a b ha hb = let t = or_at a b ha hb in (ground (arith, t), λ z. ground (arith, t, z))

same_table : rows (λ a. bit_xor a a == 0) 256 ≡ true
unfolding rows
same_table = refl

pub bit_xor_self : (a : ℕ) → IsByte a → bit_xor a a ≡ 0
bit_xor_self a h = let t = row (λ x. bit_xor x x == 0) 256 a h same_table in ground (arith, t)
