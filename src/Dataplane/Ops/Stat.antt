-- ===== src/Dataplane/Ops/Stat.antt =====
-- StatBatch of crates/dataplane/src/ops.rs: existence, attributes and digests of many paths.
use sembazuru.Base.{ℕ, Bool, List, ◌++◌, Result, leb, length, concat_map}
use sembazuru.Cursor.{pure, ◌>>=◌, guard, repeat, finish, run}
use sembazuru.Dataplane.Wire.{Error, too_large, trailing_bytes}
use sembazuru.Dataplane.Payload.{
  Reader, put_bool, put_u32, put_u64, put_str, get_bool, get_u32, get_u64, get_str,
}

abbrev pub max_stat_paths : ℕ
max_stat_paths = 4096

pub record StatRequest : Type 0 where
  pub paths : List (List ℕ)

pub record StatEntry : Type 0 where
  pub exists : Bool
  pub is_dir : Bool
  pub size : ℕ
  pub digest_hex : List ℕ

pub record StatResponse : Type 0 where
  pub entries : List StatEntry

unfoldable pub encode_request : StatRequest → List ℕ
unfolding put_u32 put_str
encode_request r = put_u32 (length r.paths) ++ concat_map put_str r.paths

unfoldable pub decode_request : List ℕ → Result Error StatRequest
unfolding get_u32 get_str repeat finish ◌>>=◌
decode_request = run do
  n ← get_u32
  _ ← guard (leb n max_stat_paths) too_large
  paths ← repeat n get_str
  _ ← finish trailing_bytes
  pure (record { paths = paths })

unfoldable pub put_entry : StatEntry → List ℕ
unfolding put_bool put_u64 put_str
put_entry e = put_bool e.exists ++ (put_bool e.is_dir ++ (put_u64 e.size ++ put_str e.digest_hex))

unfoldable pub get_entry : Reader StatEntry
unfolding get_bool get_u64 get_str ◌>>=◌
get_entry = do
  exists ← get_bool
  is_dir ← get_bool
  size ← get_u64
  digest_hex ← get_str
  pure (record { exists = exists; is_dir = is_dir; size = size; digest_hex = digest_hex })

unfoldable pub encode_response : StatResponse → List ℕ
unfolding put_u32 put_entry
encode_response r = put_u32 (length r.entries) ++ concat_map put_entry r.entries

-- No bound is put on the number of entries.
unfoldable pub decode_response : List ℕ → Result Error StatResponse
unfolding get_u32 get_entry repeat finish ◌>>=◌
decode_response = run do
  n ← get_u32
  entries ← repeat n get_entry
  _ ← finish trailing_bytes
  pure (record { entries = entries })
