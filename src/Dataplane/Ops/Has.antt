-- ===== src/Dataplane/Ops/Has.antt =====
-- Has of crates/dataplane/src/ops.rs: which of these digests does the peer hold.
use sembazuru.Base.{ℕ, Bool, List, ◌++◌, Result, leb, length, concat_map}
use sembazuru.Cursor.{pure, ◌>>=◌, guard, repeat, finish, run}
use sembazuru.Dataplane.Wire.{Error, too_large, trailing_bytes}
use sembazuru.Dataplane.Payload.{put_bool, put_u32, put_str, get_bool, get_u32, get_str}

abbrev pub max_has_digests : ℕ
max_has_digests = 4096

pub record HasRequest : Type 0 where
  pub digests : List (List ℕ)

pub record HasResponse : Type 0 where
  pub present : List Bool

unfoldable pub encode_request : HasRequest → List ℕ
unfolding put_u32 put_str
encode_request r = put_u32 (length r.digests) ++ concat_map put_str r.digests

unfoldable pub decode_request : List ℕ → Result Error HasRequest
unfolding get_u32 get_str repeat finish ◌>>=◌
decode_request = run do
  n ← get_u32
  _ ← guard (leb n max_has_digests) too_large
  digests ← repeat n get_str
  _ ← finish trailing_bytes
  pure (record { digests = digests })

unfoldable pub encode_response : HasResponse → List ℕ
unfolding put_u32 put_bool
encode_response r = put_u32 (length r.present) ++ concat_map put_bool r.present

unfoldable pub decode_response : List ℕ → Result Error HasResponse
unfolding get_u32 get_bool repeat finish ◌>>=◌
decode_response = run do
  n ← get_u32
  present ← repeat n get_bool
  _ ← finish trailing_bytes
  pure (record { present = present })
