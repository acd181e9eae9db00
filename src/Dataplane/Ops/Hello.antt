-- ===== src/Dataplane/Ops/Hello.antt =====
-- Hello of crates/dataplane/src/ops.rs: the handshake that opens a session.
use sembazuru.Base.{ℕ, Bool, List, [], ◌++◌, Result}
use sembazuru.Cursor.{pure, ◌>>=◌, finish, or_else, run}
use sembazuru.Dataplane.Wire.{Error, trailing_bytes}
use sembazuru.Dataplane.Payload.{put_bool, put_str, get_bool, get_str}

pub record HelloRequest : Type 0 where
  pub token : List ℕ
  pub root : List ℕ
  pub session_id : List ℕ

pub record HelloResponse : Type 0 where
  pub accepted : Bool
  pub detail : List ℕ

unfoldable pub encode_request : HelloRequest → List ℕ
unfolding put_str
encode_request r = put_str r.token ++ (put_str r.root ++ put_str r.session_id)

-- A failed read of the session id is dropped, wherever in the field it failed.
unfoldable pub decode_request : List ℕ → Result Error HelloRequest
unfolding get_str finish ◌>>=◌
decode_request = run do
  token ← get_str
  root ← get_str
  session_id ← or_else get_str []
  _ ← finish trailing_bytes
  pure (record { token = token; root = root; session_id = session_id })

unfoldable pub encode_response : HelloResponse → List ℕ
unfolding put_bool put_str
encode_response r = put_bool r.accepted ++ put_str r.detail

unfoldable pub decode_response : List ℕ → Result Error HelloResponse
unfolding get_bool get_str finish ◌>>=◌
decode_response = run do
  accepted ← get_bool
  detail ← get_str
  _ ← finish trailing_bytes
  pure (record { accepted = accepted; detail = detail })
