-- ===== src/Dataplane/Ops/Read.antt =====
-- Read of crates/dataplane/src/ops.rs: a range of the content that a digest names.
use sembazuru.Base.{ℕ, List, ◌++◌, Result}
use sembazuru.Cursor.{pure, ◌>>=◌, finish, run}
use sembazuru.Dataplane.Wire.{Error, trailing_bytes}
use sembazuru.Dataplane.Payload.{
  put_u32, put_u64, put_bytes, put_str, get_u32, get_u64, get_bytes, get_str,
}

pub record ReadRequest : Type 0 where
  pub digest_hex : List ℕ
  pub offset : ℕ
  pub len : ℕ

pub record ReadResponse : Type 0 where
  pub bytes : List ℕ

unfoldable pub encode_request : ReadRequest → List ℕ
unfolding put_str put_u64 put_u32
encode_request r = put_str r.digest_hex ++ (put_u64 r.offset ++ put_u32 r.len)

unfoldable pub decode_request : List ℕ → Result Error ReadRequest
unfolding get_str get_u64 get_u32 finish ◌>>=◌
decode_request = run do
  digest_hex ← get_str
  offset ← get_u64
  len ← get_u32
  _ ← finish trailing_bytes
  pure (record { digest_hex = digest_hex; offset = offset; len = len })

unfoldable pub encode_response : ReadResponse → List ℕ
unfolding put_bytes
encode_response r = put_bytes r.bytes

unfoldable pub decode_response : List ℕ → Result Error ReadResponse
unfolding get_bytes finish ◌>>=◌
decode_response =
    run do bytes ← get_bytes; _ ← finish trailing_bytes; pure (record { bytes = bytes })
