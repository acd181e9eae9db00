-- ===== src/Tests/Store.antt =====
-- crates/cas at concrete inputs.
use sembazuru.Base.{ℕ, ◌≡◌, refl, List, [], ◌∷◌, none, some, ok, replicate, arith}
use sembazuru.Bytes.{le_bytes, IsSlice}
use sembazuru.Cas.Digest.{Digest, DigestAlgo.blake3, codec_checksum}
use sembazuru.Cas.Digest.Canonical.{IsValid}
use sembazuru.Cas.ActionResult.{ActionResult, body_of, encode, decode}
use sembazuru.Cas.ActionResult.RoundTrip.{decode_result-encode, ResultFits}
use sembazuru.Tests.Inputs.{ab, ab-IsUtf8, zeros, lower_zeros}

abbrev null_digest : Digest
null_digest = record { algo = blake3; hex = replicate 64 b'0' }

null_digest-IsValid : IsValid null_digest
null_digest-IsValid = record { exact = refl; lower = lower_zeros 64 }

abbrev result : ActionResult
result = record {
  exit_code = 1;
  outputs = record { logical_path = ab; digest = null_digest } ∷ [];
  stdout = some null_digest;
  stderr = none;
}

result-IsSlice : IsSlice (encode zeros result)
unfolding encode body_of codec_checksum le_bytes
result-IsSlice = omega arith

result-ResultFits : ResultFits zeros result
result-ResultFits = record {
  exit_code = omega arith;
  count = omega arith;
  each = (
    record {
      path = record { utf8 = ab-IsUtf8; short = omega arith };
      digest = null_digest-IsValid;
    },
    tt,
  );
  stdout = null_digest-IsValid;
  stderr = tt;
  slice = result-IsSlice;
}

decode_result-encode_example : decode zeros (encode zeros result) ≡ ok result
decode_result-encode_example = decode_result-encode zeros result result-ResultFits

abbrev stored : List ℕ
stored = encode zeros result
