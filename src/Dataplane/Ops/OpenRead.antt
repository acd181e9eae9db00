-- ===== src/Dataplane/Ops/OpenRead.antt =====
-- OpenRead of crates/dataplane/src/ops.rs: a path's content identity, with its first bytes.
use sembazuru.Base.{ℕ, Bool, List, ◌++◌, Result}
use sembazuru.Cursor.{pure, ◌>>=◌, finish, run}
use sembazuru.Dataplane.Wire.{Error, trailing_bytes}
use sembazuru.Dataplane.Payload.{
  put_bool, put_u64, put_bytes, put_str, get_bool, get_u64, get_bytes, get_str,
}

pub record OpenReadRequest : Type 0 where
  pub path : List ℕ
  pub want_inline : Bool

pub record OpenReadResponse : Type 0 where
  pub exists : Bool
  pub size : ℕ
  pub digest_hex : List ℕ
  pub first_chunk : List ℕ

unfoldable pub encode_request : OpenReadRequest → List ℕ
unfolding put_str put_bool
encode_request r = put_str r.path ++ put_bool r.want_inline

unfoldable pub decode_request : List ℕ → Result Error OpenReadRequest
unfolding get_str get_bool finish ◌>>=◌
decode_request = run do
  path ← get_str
  want_inline ← get_bool
  _ ← finish trailing_bytes
  pure (record { path = path; want_inline = want_inline })

unfoldable pub encode_response : OpenReadResponse → List ℕ
unfolding put_bool put_u64 put_str put_bytes
encode_response r =
    put_bool r.exists ++ (put_u64 r.size ++ (put_str r.digest_hex ++ put_bytes r.first_chunk))

unfoldable pub decode_response : List ℕ → Result Error OpenReadResponse
unfolding get_bool get_u64 get_str get_bytes finish ◌>>=◌
decode_response = run do
  exists ← get_bool
  size ← get_u64
  digest_hex ← get_str
  first_chunk ← get_bytes
  _ ← finish trailing_bytes
  pure (record { exists = exists; size = size; digest_hex = digest_hex; first_chunk = first_chunk })
