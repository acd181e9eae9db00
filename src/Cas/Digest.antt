-- ===== src/Cas/Digest.antt =====
-- `Digest` of crates/cas/src/lib.rs. A string is the list of its bytes.
pub mod Canonical
use sembazuru.Base.{
  ℕ, ◌≡◌, Bool, true, false, ◌&&◌, List, [], ◌∷◌, ◌++◌, Option, none, some, Result, ok, err, ◌>>=◌,
  ok_or, length, take, ◌==◌, if◌then◌else◌,
}
use sembazuru.Base.Texts.{same, split_once}
use sembazuru.Blake3.{Blake3, is_lower_hex}

pub data DigestAlgo : Type 0 where
  blake3 : DigestAlgo

abbrev pub hex_len : DigestAlgo → ℕ
hex_len blake3 = 64

abbrev pub tag : DigestAlgo → List ℕ
tag blake3 = b'b' ∷ b'l' ∷ b'a' ∷ b'k' ∷ b'e' ∷ b'3' ∷ []

pub from_tag : List ℕ → Option DigestAlgo
unfolding same
from_tag t = if same t (tag blake3) then some blake3 else none

pub record Digest : Type 0 where
  pub algo : DigestAlgo
  pub hex : List ℕ

pub data DigestError : Type 0 where
  wrong_length : ℕ → ℕ → DigestError
  not_lower_hex unknown_algo : DigestError

unfoldable pub all_lower_hex : List ℕ → Bool
all_lower_hex [] = true
all_lower_hex (b ∷ bs) = is_lower_hex b && all_lower_hex bs

unfoldable pub from_hex : DigestAlgo → List ℕ → Result DigestError Digest
unfolding all_lower_hex
from_hex algo hex =
    if length hex == hex_len algo
    then (if all_lower_hex hex then ok (record { algo = algo; hex = hex }) else err not_lower_hex)
    else err (wrong_length (hex_len algo) (length hex))

parse_parts : Option (List ℕ × List ℕ) → Result DigestError Digest
unfolding from_hex from_tag
parse_parts none = err unknown_algo
parse_parts (some (t, hex)) = do algo ← ok_or (from_tag t) unknown_algo; from_hex algo hex

unfoldable pub parse : List ℕ → Result DigestError Digest
unfolding parse_parts split_once
parse s = parse_parts (split_once b':' s)

unfoldable pub canonical : Digest → List ℕ
canonical d = tag d.algo ++ (b':' ∷ d.hex)

module _ (b3 : Blake3) where
  unfoldable pub of : List ℕ → Digest
  of bytes = record { algo = blake3; hex = b3.to_hex (b3.hash bytes) }

  -- The first eight bytes of the hash.
  unfoldable pub codec_checksum : List ℕ → List ℕ
  codec_checksum bytes = take 8 (b3.hash bytes)
