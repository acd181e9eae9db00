-- ===== src/Dataplane/Ops/Metadata.antt =====
-- MetadataBatchV1 of crates/dataplane/src/ops.rs: Win32 attributes of many paths, in entries of a
-- fixed width.
use sembazuru.Base.{
  ℕ, ◌-◌, ◌^◌, Bool, false, not, ◌&&◌, List, [], ◌∷◌, ◌++◌, Result, ok, err, leb, ltb, ◌==◌,
  if◌then◌else◌, length, concat_map, checked_add, checked_mul, and_then, Option, none, some, ◌||◌,
  ◌>>=◌ as and_ok,
}
use sembazuru.Cursor.{pure, fail, ◌>>=◌, guard, repeat, finish, run}
use sembazuru.Dataplane.Wire.{
  Error, truncated, too_large, trailing_bytes, invalid_value, max_frame_body, header_bytes,
}
use sembazuru.Dataplane.Payload.{
  Reader, put_u8, put_u32, put_u64, put_str, get_u8, get_u32, get_u64, get_str,
}

abbrev pub max_metadata_paths : ℕ
max_metadata_paths = 4096

pub record MetadataRequest : Type 0 where
  pub paths : List (List ℕ)

pub data MetadataEntry : Type 0 where
  present : ℕ → ℕ → ℕ → ℕ → ℕ → MetadataEntry
  filesystem_error : ℕ → MetadataEntry

pub record MetadataResponse : Type 0 where
  pub entries : List MetadataEntry

abbrev pub metadata_entry_bytes : ℕ
metadata_entry_bytes = 41

abbrev pub metadata_present : ℕ
metadata_present = 0

abbrev pub metadata_filesystem_error : ℕ
metadata_filesystem_error = 1

abbrev pub u32_max : ℕ
u32_max = 2 ^ 32 - 1

unfoldable pub is_metadata_filesystem_error : ℕ → Bool
is_metadata_filesystem_error e =
    e == 2 || e == 3 || e == 5 || e == 123 || e == 161 || e == 206 || e == 267

add_path : ℕ → List ℕ → Option ℕ
add_path body path =
    if ltb u32_max (length path)
    then none
    else and_then (checked_add body 4) (λ b. checked_add b (length path))

-- The size that the loop over the paths adds up, by checked additions.
unfoldable pub request_body : ℕ → List (List ℕ) → Option ℕ
unfolding add_path
request_body body [] = some body
request_body body (path ∷ paths) = elim (add_path body path) [
  | none ↦ none
  | some b ↦ request_body b paths
]

-- The last test of both encoders; a size that overflowed is too large as well.
unfoldable pub fits_frame : Option ℕ → Bool
fits_frame body = elim (and_then body (λ b. checked_add b header_bytes)) [
  | none ↦ false
  | some total ↦ leb total max_frame_body
]

unfoldable pub encode_request : MetadataRequest → Result Error (List ℕ)
unfolding request_body fits_frame put_u32 put_str
encode_request r =
    if ltb max_metadata_paths (length r.paths)
    then err too_large
    else if fits_frame (request_body 4 r.paths)
    then ok (put_u32 (length r.paths) ++ concat_map put_str r.paths)
    else err too_large

unfoldable pub decode_request : List ℕ → Result Error MetadataRequest
unfolding get_u32 get_str repeat finish ◌>>=◌
decode_request = run do
  n ← get_u32
  _ ← guard (leb n max_metadata_paths) too_large
  paths ← repeat n get_str
  _ ← finish trailing_bytes
  pure (record { paths = paths })

-- `n` entries behind their count.
unfoldable pub response_bytes : ℕ → Option ℕ
response_bytes n = and_then (checked_mul n metadata_entry_bytes) (λ body. checked_add 4 body)

unfoldable pub put_entry : MetadataEntry → Result Error (List ℕ)
unfolding put_u8 put_u32 put_u64
put_entry (present attributes size creation_time access_time write_time) =
    if attributes == u32_max
    then err invalid_value
    else ok (
        put_u8 metadata_present
        ++ (put_u32 attributes
            ++ (put_u64 size
                ++ (put_u64 creation_time
                    ++ (put_u64 access_time ++ (put_u64 write_time ++ put_u32 0))))))
put_entry (filesystem_error raw_error) =
    if is_metadata_filesystem_error raw_error
    then ok (
        put_u8 metadata_filesystem_error
        ++ (put_u32 0
            ++ (put_u64 0 ++ (put_u64 0 ++ (put_u64 0 ++ (put_u64 0 ++ put_u32 raw_error))))))
    else err invalid_value

-- The loop stops at the first entry that is refused.
unfoldable pub put_entries : List MetadataEntry → Result Error (List ℕ)
unfolding put_entry
put_entries [] = ok []
put_entries (e ∷ es) = and_ok (put_entry e) (λ b. and_ok (put_entries es) (λ bs. ok (b ++ bs)))

unfoldable pub encode_response : MetadataResponse → Result Error (List ℕ)
unfolding response_bytes fits_frame put_u32 put_entries
encode_response r =
    if ltb max_metadata_paths (length r.entries)
    then err too_large
    else if fits_frame (response_bytes (length r.entries))
    then and_ok (put_entries r.entries) (λ bs. ok (put_u32 (length r.entries) ++ bs))
    else err too_large

unfoldable pub classify : ℕ → ℕ → ℕ → ℕ → ℕ → ℕ → ℕ → Reader MetadataEntry
classify tag attributes size creation_time access_time write_time raw_error =
    if tag == metadata_present && (not (attributes == u32_max) && raw_error == 0)
    then pure (present attributes size creation_time access_time write_time)
    else if tag == metadata_filesystem_error
        && (attributes == 0
            && (size == 0
                && (creation_time == 0
                    && (access_time == 0
                        && (write_time == 0 && is_metadata_filesystem_error raw_error)))))
    then pure (filesystem_error raw_error)
    else fail invalid_value

unfoldable pub get_entry : Reader MetadataEntry
unfolding get_u8 get_u32 get_u64 classify ◌>>=◌
get_entry = do
  tag ← get_u8
  attributes ← get_u32
  size ← get_u64
  creation_time ← get_u64
  access_time ← get_u64
  write_time ← get_u64
  raw_error ← get_u32
  classify tag attributes size creation_time access_time write_time raw_error

-- A response of `n` entries has exactly one size.
unfoldable pub sized : ℕ → Option ℕ → Reader (Unit {0})
sized size none = fail too_large
sized size (some byte_len) =
    if size == byte_len
    then pure tt
    else if ltb size byte_len
    then fail truncated
    else fail trailing_bytes

unfoldable pub decode_response : List ℕ → Result Error MetadataResponse
unfolding get_u32 response_bytes sized get_entry repeat finish ◌>>=◌
decode_response buf =
    run
      (do
        n ← get_u32
        _ ← guard (leb n max_metadata_paths) too_large
        _ ← sized (length buf) (response_bytes n)
        entries ← repeat n get_entry
        _ ← finish trailing_bytes
        pure (record { entries = entries }))
      buf
