-- ===== src/Dataplane/Ops/DirList.antt =====
-- DirList of crates/dataplane/src/ops.rs: a snapshot of a directory.
use sembazuru.Base.{ℕ, Bool, List, ◌++◌, Result, leb, length, concat_map}
use sembazuru.Cursor.{pure, ◌>>=◌, guard, repeat, finish, run}
use sembazuru.Dataplane.Wire.{Error, too_large, trailing_bytes}
use sembazuru.Dataplane.Payload.{
  Reader, put_bool, put_u32, put_u64, put_str, get_bool, get_u32, get_u64, get_str,
}

abbrev pub max_dirlist_entries : ℕ
max_dirlist_entries = 4096

pub record DirListRequest : Type 0 where
  pub path : List ℕ
  pub depth : ℕ

pub record DirEntry : Type 0 where
  pub rel_path : List ℕ
  pub is_dir : Bool
  pub size : ℕ

pub record DirListResponse : Type 0 where
  pub exists : Bool
  pub entries : List DirEntry

unfoldable pub encode_request : DirListRequest → List ℕ
unfolding put_str put_u32
encode_request r = put_str r.path ++ put_u32 r.depth

unfoldable pub decode_request : List ℕ → Result Error DirListRequest
unfolding get_str get_u32 finish ◌>>=◌
decode_request = run do
  path ← get_str
  depth ← get_u32
  _ ← finish trailing_bytes
  pure (record { path = path; depth = depth })

unfoldable pub put_entry : DirEntry → List ℕ
unfolding put_str put_bool put_u64
put_entry e = put_str e.rel_path ++ (put_bool e.is_dir ++ put_u64 e.size)

unfoldable pub get_entry : Reader DirEntry
unfolding get_str get_bool get_u64 ◌>>=◌
get_entry = do
  rel_path ← get_str
  is_dir ← get_bool
  size ← get_u64
  pure (record { rel_path = rel_path; is_dir = is_dir; size = size })

unfoldable pub encode_response : DirListResponse → List ℕ
unfolding put_bool put_u32 put_entry
encode_response r =
    put_bool r.exists ++ (put_u32 (length r.entries) ++ concat_map put_entry r.entries)

unfoldable pub decode_response : List ℕ → Result Error DirListResponse
unfolding get_bool get_u32 get_entry repeat finish ◌>>=◌
decode_response = run do
  exists ← get_bool
  n ← get_u32
  _ ← guard (leb n max_dirlist_entries) too_large
  entries ← repeat n get_entry
  _ ← finish trailing_bytes
  pure (record { exists = exists; entries = entries })
