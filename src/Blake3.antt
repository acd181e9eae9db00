-- ===== src/Blake3.antt =====
-- The blake3 crate, which the sources only call: its functions as an interface, with the shapes
-- that its documentation states.
use sembazuru.Base.{ℕ, ◌≡◌, ◌&&◌, ◌||◌, Bool, true, leb, List, length, All}
use sembazuru.Bytes.{IsByte}

-- `b.is_ascii_digit() || (b'a'..=b'f').contains(&b)`
abbrev pub is_lower_hex : ℕ → Bool
is_lower_hex b = leb b'0' b && leb b b'9' || leb b'a' b && leb b b'f'

abbrev pub IsLowerHex : ℕ → Type 0
IsLowerHex b = is_lower_hex b ≡ true

pub record Blake3 : Type 0 where
  -- `blake3::hash`, as the 32 bytes of the hash.
  pub hash : List ℕ → List ℕ
  pub hash_length : (bs : List ℕ) → length (hash bs) ≡ 32
  pub hash_bytes : (bs : List ℕ) → All IsByte (hash bs)
  -- `Hash::to_hex`
  pub to_hex : List ℕ → List ℕ
  pub to_hex_length : (h : List ℕ) → length h ≡ 32 → length (to_hex h) ≡ 64
  pub to_hex_lower : (h : List ℕ) → length h ≡ 32 → All IsLowerHex (to_hex h)
  -- `blake3::keyed_hash`, of a key and a message.
  pub keyed_hash : List ℕ → List ℕ → List ℕ
  pub keyed_hash_length : (key bs : List ℕ) → length (keyed_hash key bs) ≡ 32
  -- `blake3::derive_key`, of a context and the key material.
  pub derive_key : List ℕ → List ℕ → List ℕ
  pub derive_key_length : (context bs : List ℕ) → length (derive_key context bs) ≡ 32
