-- ===== src/Tests/Digests.antt =====
-- crates/tracer/src/determinism.rs: the digest of `abc`.
use sembazuru.Base.{◌≡◌, refl, [], ◌∷◌}
use sembazuru.Tracer.Sha256.{sha256_hex}

abc_digest : sha256_hex (b'a' ∷ b'b' ∷ b'c' ∷ []) ≡ (
    b'b' ∷ b'a' ∷ b'7' ∷ b'8' ∷ b'1' ∷ b'6' ∷ b'b' ∷ b'f' ∷ b'8' ∷ b'f' ∷ b'0' ∷ b'1' ∷ b'c' ∷ b'f'
    ∷ b'e' ∷ b'a' ∷ b'4' ∷ b'1' ∷ b'4' ∷ b'1' ∷ b'4' ∷ b'0' ∷ b'd' ∷ b'e' ∷ b'5' ∷ b'd' ∷ b'a'
    ∷ b'e' ∷ b'2' ∷ b'2' ∷ b'2' ∷ b'3' ∷ b'b' ∷ b'0' ∷ b'0' ∷ b'3' ∷ b'6' ∷ b'1' ∷ b'a' ∷ b'3'
    ∷ b'9' ∷ b'6' ∷ b'1' ∷ b'7' ∷ b'7' ∷ b'a' ∷ b'9' ∷ b'c' ∷ b'b' ∷ b'4' ∷ b'1' ∷ b'0' ∷ b'f'
    ∷ b'f' ∷ b'6' ∷ b'1' ∷ b'f' ∷ b'2' ∷ b'0' ∷ b'0' ∷ b'1' ∷ b'5' ∷ b'a' ∷ b'd' ∷ [])
unfolding sha256_hex
abc_digest = refl
