-- ===== src/Dataplane/Ops/WriteBack.antt =====
-- WriteBack of crates/dataplane/src/ops.rs: one chunk of an output, from a worker.
use sembazuru.Base.{ℕ, Bool, List, ◌++◌, Result}
use sembazuru.Cursor.{pure, ◌>>=◌, finish, run}
use sembazuru.Dataplane.Wire.{Error, trailing_bytes}
use sembazuru.Dataplane.Payload.{
  put_bool, put_u32, put_u64, put_bytes, put_str, get_bool, get_u32, get_u64, get_bytes, get_str,
}

pub record WriteBackRequest : Type 0 where
  pub output_id : ℕ
  pub digest_hex : List ℕ
  pub offset : ℕ
  pub bytes : List ℕ
  pub last : Bool

pub record WriteBackResponse : Type 0 where
  pub accepted : Bool
  pub detail : List ℕ

unfoldable pub encode_request : WriteBackRequest → List ℕ
unfolding put_u32 put_str put_u64 put_bytes put_bool
encode_request r =
    put_u32 r.output_id
    ++ (put_str r.digest_hex ++ (put_u64 r.offset ++ (put_bytes r.bytes ++ put_bool r.last)))

unfoldable pub decode_request : List ℕ → Result Error WriteBackRequest
unfolding get_u32 get_str get_u64 get_bytes get_bool finish ◌>>=◌
decode_request = run do
  output_id ← get_u32
  digest_hex ← get_str
  offset ← get_u64
  bytes ← get_bytes
  last ← get_bool
  _ ← finish trailing_bytes
  pure (record {
    output_id = output_id;
    digest_hex = digest_hex;
    offset = offset;
    bytes = bytes;
    last = last;
  })

unfoldable pub encode_response : WriteBackResponse → List ℕ
unfolding put_bool put_str
encode_response r = put_bool r.accepted ++ put_str r.detail

unfoldable pub decode_response : List ℕ → Result Error WriteBackResponse
unfolding get_bool get_str finish ◌>>=◌
decode_response = run do
  accepted ← get_bool
  detail ← get_str
  _ ← finish trailing_bytes
  pure (record { accepted = accepted; detail = detail })
