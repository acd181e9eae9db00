-- ===== src/Cas/Digest/Canonical.antt =====
-- Digests and their canonical strings: what is validated, and the round trip both ways.
use sembazuru.Base.{
  ℕ, ◌≡◌, ◌≢◌, ◌↔◌, refl, sym, ap, subst, ◌∙◌, true, List, [], ◌∷◌, ◌++◌, some, ok, length, All,
  Bool-cases, Option-cases, inl, inr, ==_iff, arith,
}
use sembazuru.Base.Texts.{same, eq_of_same, split_once, split_once-append, split_once_sound}
use sembazuru.Blake3.{Blake3, IsLowerHex}
use sembazuru.Cas.Digest.{
  DigestAlgo, blake3, Digest, hex_len, tag, from_tag, all_lower_hex, from_hex, parse_parts, parse,
  canonical, of,
}

-- What a digest's text must be: as long as the algorithm's, and of lowercase hex digits, so that it
-- holds no separator, no dot and no colon.
pub record IsValid (d : Digest) : Type 0 where
  pub exact : length d.hex ≡ hex_len d.algo
  pub lower : All IsLowerHex d.hex

lower_each : (bs : List ℕ) → all_lower_hex bs ≡ true → All IsLowerHex bs
unfolding all_lower_hex
lower_each [] h = tt
lower_each (b ∷ bs) h = ground (arith, lower_each bs)

All→all_lower_hex : (bs : List ℕ) → All IsLowerHex bs → all_lower_hex bs ≡ true
unfolding all_lower_hex
All→all_lower_hex [] h = refl
All→all_lower_hex (b ∷ bs) h = rw (h.0, All→all_lower_hex bs h.1)

abbrev digest : DigestAlgo → List ℕ → Digest
digest algo hex = record { algo = algo; hex = hex }

from_hex_valid :
    (algo : DigestAlgo) (hex : List ℕ)
    → length hex ≡ hex_len algo
    → All IsLowerHex hex
    → from_hex algo hex ≡ ok (digest algo hex)
unfolding from_hex
from_hex_valid algo hex n h = rw ((==_iff (length hex) (hex_len algo)).1 n, All→all_lower_hex hex h)

from_hex_sound :
    (algo : DigestAlgo) (hex : List ℕ) {d : Digest}
    → from_hex algo hex ≡ ok d
    → (d ≡ digest algo hex) × (length hex ≡ hex_len algo) × All IsLowerHex hex
unfolding from_hex
from_hex_sound algo hex {d} e = elim (Bool-cases (all_lower_hex hex)) [
  | inl good ↦
      let lower : All IsLowerHex hex = lower_each hex good in
      (ground (arith, e, good), ground (arith, e, good), lower)
  | inr bad ↦ absurd (ground (arith, e, bad))
]

-- `from_hex` accepts a text exactly when it is a valid digest's, and answers that digest.
pub from_hex_iff :
    (algo : DigestAlgo) (hex : List ℕ) (d : Digest)
    → (from_hex algo hex ≡ ok d) ↔ ((d ≡ record { algo = algo; hex = hex }) × IsValid d)
from_hex_iff algo hex d = (
  λ e.
      let (same_digest, n, lower) = from_hex_sound algo hex e in
      (same_digest, rw same_digest (record { exact = n; lower = lower })),
  λ (e, v).
      let v' : IsValid (digest algo hex) = subst IsValid e v in
      from_hex_valid algo hex v'.exact v'.lower ∙ ap ok (sym e),
)

tag_plain : (algo : DigestAlgo) → All (λ b. b ≢ b':') (tag algo)
tag_plain blake3 = omega arith

from_tag-tag : (algo : DigestAlgo) → from_tag (tag algo) ≡ some algo
unfolding from_tag
from_tag-tag blake3 = refl

tag-from_tag : (t : List ℕ) (algo : DigestAlgo) → from_tag t ≡ some algo → t ≡ tag algo
unfolding from_tag
tag-from_tag t blake3 e = elim (Bool-cases (same t (tag blake3))) [
  | inl h ↦ eq_of_same t (tag blake3) h
  | inr h ↦ absurd (ground (arith, e, h))
]

-- A valid digest is parsed from its canonical string.
pub parse-canonical : (d : Digest) → IsValid d → parse (canonical d) ≡ ok d
unfolding parse canonical parse_parts
parse-canonical d v =
    rw (split_once-append b':' (tag d.algo) d.hex (tag_plain d.algo), from_tag-tag d.algo)
      (from_hex_valid d.algo d.hex v.exact v.lower)

parse_parts_sound :
    (t hex : List ℕ) {d : Digest}
    → parse_parts (some (t, hex)) ≡ ok d
    → (t ++ (b':' ∷ hex) ≡ canonical d) × IsValid d
unfolding parse_parts canonical
parse_parts_sound t hex {d} e = elim (Option-cases (from_tag t)) [
  | inl n ↦ cc (rw n at e)
  | inr (algo, n) ↦
      let (is, size, lower) = from_hex_sound algo hex {d = d} (rw n at e) in
      rw (is, tag-from_tag t algo n) (refl, record { exact = size; lower = lower })
]

-- A string that is parsed is the canonical string of the digest that it gives, which is valid: so two
-- strings never name one digest, and no other text becomes a path.
pub canonical-parse : (s : List ℕ) (d : Digest) → parse s ≡ ok d → (canonical d ≡ s) × IsValid d
unfolding parse
canonical-parse s d e = elim (Option-cases (split_once b':' s)) [
  | inl n ↦ cc (rw (n, parse_parts) at e)
  | inr ((t, hex), n) ↦
      let (whole, v) = parse_parts_sound t hex {d = d} (rw n at e) in
      (sym (split_once_sound b':' s t hex n ∙ whole), v)
]

-- A digest that is computed is valid, so its canonical string is parsed to itself.
pub of-IsValid : (b3 : Blake3) (bytes : List ℕ) → IsValid (of b3 bytes)
unfolding of
of-IsValid b3 bytes = record {
  exact = b3.to_hex_length (b3.hash bytes) (b3.hash_length bytes);
  lower = b3.to_hex_lower (b3.hash bytes) (b3.hash_length bytes);
}
