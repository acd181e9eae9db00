-- ===== src/Dataplane/Ops/RoundTrip/Queries.antt =====
-- The read path: StatBatch, OpenRead, Read, DirList and Has.
use sembazuru.Base.{ℕ, ◌≤◌, ◌≡◌, List, ok, Bool, length, All, All-map, All-All, le→leb, arith}
use sembazuru.Bytes.{IsSlice}
use sembazuru.Cursor.Reads.{
  Reads, ReadsAll-bind, ReadsAll-last, ReadsAll-guard, ReadsAll-finish, ReadsAll-run, Reads-bind,
  Reads-last, Reads-pure, Reads-repeat,
}
use sembazuru.Dataplane.Wire.{too_large, trailing_bytes}
use sembazuru.Dataplane.Payload.{put_str, put_bool, get_str, get_bool}
use sembazuru.Dataplane.Payload.Fields.{
  IsU32, IsU64, IsText, IsBlob, Reads-u32, Reads-u64, Reads-bool, Reads-str, Reads-bytes,
}
use sembazuru.Dataplane.Ops.Stat
use sembazuru.Dataplane.Ops.OpenRead
use sembazuru.Dataplane.Ops.Read
use sembazuru.Dataplane.Ops.DirList
use sembazuru.Dataplane.Ops.Has

strings : (xs : List (List ℕ)) → All IsText xs → All (λ x. Reads get_str (put_str x) x) xs
strings xs h = All-map Reads-str xs h

flags : (xs : List Bool) → All (λ x. Reads get_bool (put_bool x) x) xs
flags xs = All-All Reads-bool xs

pub record StatRequestFits (r : Stat.StatRequest) : Type 0 where
  pub count : length r.paths ≤ Stat.max_stat_paths
  pub texts : All IsText r.paths
  pub slice : IsSlice (Stat.encode_request r)

pub record StatEntryFits (e : Stat.StatEntry) : Type 0 where
  pub size : IsU64 e.size
  pub digest : IsText e.digest_hex

pub record StatResponseFits (r : Stat.StatResponse) : Type 0 where
  pub count : IsU32 (length r.entries)
  pub each : All StatEntryFits r.entries
  pub slice : IsSlice (Stat.encode_response r)

stat_entry : (e : Stat.StatEntry) → StatEntryFits e → Reads Stat.get_entry (Stat.put_entry e) e
unfolding Stat.get_entry Stat.put_entry
stat_entry e h = Reads-bind _ (Reads-bool e.exists) (
    Reads-bind _ (Reads-bool e.is_dir) (
      Reads-bind _ (Reads-u64 e.size h.size)
        (Reads-last _ (Reads-str e.digest_hex h.digest) (Reads-pure e))))

-- A stat request of at most 4096 readable paths, and a stat response whose entries are readable, are
-- decoded as they were encoded.
pub stat_round_trip :
    (q : Stat.StatRequest) (r : Stat.StatResponse)
    → StatRequestFits q
    → StatResponseFits r
    → (Stat.decode_request (Stat.encode_request q) ≡ ok q)
      × (Stat.decode_response (Stat.encode_response r) ≡ ok r)
unfolding Stat.decode_request Stat.encode_request Stat.decode_response Stat.encode_response
stat_round_trip q r hq hr = (
  ReadsAll-run hq.slice (
      ReadsAll-bind _ (Reads-u32 (length q.paths) (omega (arith, hq.count))) (
        ReadsAll-guard too_large _ (le→leb _ _ hq.count) (
          ReadsAll-last _ (Reads-repeat get_str put_str q.paths (strings q.paths hq.texts))
            (ReadsAll-finish trailing_bytes q)))),
  ReadsAll-run hr.slice (
      ReadsAll-bind _ (Reads-u32 (length r.entries) hr.count) (
        ReadsAll-last _
          (Reads-repeat Stat.get_entry Stat.put_entry r.entries
            (All-map stat_entry r.entries hr.each))
          (ReadsAll-finish trailing_bytes r))),
)

pub record OpenReadRequestFits (r : OpenRead.OpenReadRequest) : Type 0 where
  pub text : IsText r.path
  pub slice : IsSlice (OpenRead.encode_request r)

pub record OpenReadResponseFits (r : OpenRead.OpenReadResponse) : Type 0 where
  pub size : IsU64 r.size
  pub digest : IsText r.digest_hex
  pub chunk : IsBlob r.first_chunk
  pub slice : IsSlice (OpenRead.encode_response r)

-- An open-read request with a readable path, and a response with a readable digest and first chunk,
-- are decoded as they were encoded.
pub open_read_round_trip :
    (q : OpenRead.OpenReadRequest) (r : OpenRead.OpenReadResponse)
    → OpenReadRequestFits q
    → OpenReadResponseFits r
    → (OpenRead.decode_request (OpenRead.encode_request q) ≡ ok q)
      × (OpenRead.decode_response (OpenRead.encode_response r) ≡ ok r)
unfolding OpenRead.decode_request OpenRead.encode_request OpenRead.decode_response
    OpenRead.encode_response
open_read_round_trip q r hq hr = (
  ReadsAll-run hq.slice (
      ReadsAll-bind _ (Reads-str q.path hq.text)
        (ReadsAll-last _ (Reads-bool q.want_inline) (ReadsAll-finish trailing_bytes q))),
  ReadsAll-run hr.slice (
      ReadsAll-bind _ (Reads-bool r.exists) (
        ReadsAll-bind _ (Reads-u64 r.size hr.size) (
          ReadsAll-bind _ (Reads-str r.digest_hex hr.digest) (
            ReadsAll-last _ (Reads-bytes r.first_chunk hr.chunk)
              (ReadsAll-finish trailing_bytes r))))),
)

pub record ReadRequestFits (r : Read.ReadRequest) : Type 0 where
  pub digest : IsText r.digest_hex
  pub offset : IsU64 r.offset
  pub len : IsU32 r.len
  pub slice : IsSlice (Read.encode_request r)

pub record ReadResponseFits (r : Read.ReadResponse) : Type 0 where
  pub blob : IsBlob r.bytes
  pub slice : IsSlice (Read.encode_response r)

-- A read request with a readable digest, and a response of at most 64 MiB, are decoded as they were
-- encoded.
pub read_round_trip :
    (q : Read.ReadRequest) (r : Read.ReadResponse)
    → ReadRequestFits q
    → ReadResponseFits r
    → (Read.decode_request (Read.encode_request q) ≡ ok q)
      × (Read.decode_response (Read.encode_response r) ≡ ok r)
unfolding Read.decode_request Read.encode_request Read.decode_response Read.encode_response
read_round_trip q r hq hr = (
  ReadsAll-run hq.slice (
      ReadsAll-bind _ (Reads-str q.digest_hex hq.digest) (
        ReadsAll-bind _ (Reads-u64 q.offset hq.offset)
          (ReadsAll-last _ (Reads-u32 q.len hq.len) (ReadsAll-finish trailing_bytes q)))),
  ReadsAll-run hr.slice
      (ReadsAll-last _ (Reads-bytes r.bytes hr.blob) (ReadsAll-finish trailing_bytes r)),
)

pub record DirListRequestFits (r : DirList.DirListRequest) : Type 0 where
  pub text : IsText r.path
  pub depth : IsU32 r.depth
  pub slice : IsSlice (DirList.encode_request r)

pub record DirEntryFits (e : DirList.DirEntry) : Type 0 where
  pub text : IsText e.rel_path
  pub size : IsU64 e.size

pub record DirListResponseFits (r : DirList.DirListResponse) : Type 0 where
  pub count : length r.entries ≤ DirList.max_dirlist_entries
  pub each : All DirEntryFits r.entries
  pub slice : IsSlice (DirList.encode_response r)

dir_entry :
    (e : DirList.DirEntry) → DirEntryFits e → Reads DirList.get_entry (DirList.put_entry e) e
unfolding DirList.get_entry DirList.put_entry
dir_entry e h =
    Reads-bind _ (Reads-str e.rel_path h.text)
      (Reads-bind _ (Reads-bool e.is_dir) (Reads-last _ (Reads-u64 e.size h.size) (Reads-pure e)))

-- A directory request, and a snapshot of at most 4096 readable entries, are decoded as they were
-- encoded.
pub dir_list_round_trip :
    (q : DirList.DirListRequest) (r : DirList.DirListResponse)
    → DirListRequestFits q
    → DirListResponseFits r
    → (DirList.decode_request (DirList.encode_request q) ≡ ok q)
      × (DirList.decode_response (DirList.encode_response r) ≡ ok r)
unfolding DirList.decode_request DirList.encode_request DirList.decode_response
    DirList.encode_response
dir_list_round_trip q r hq hr = (
  ReadsAll-run hq.slice (
      ReadsAll-bind _ (Reads-str q.path hq.text)
        (ReadsAll-last _ (Reads-u32 q.depth hq.depth) (ReadsAll-finish trailing_bytes q))),
  ReadsAll-run hr.slice (
      ReadsAll-bind _ (Reads-bool r.exists) (
        ReadsAll-bind _ (Reads-u32 (length r.entries) (omega (arith, hr.count))) (
          ReadsAll-guard too_large _ (le→leb _ _ hr.count) (
            ReadsAll-last _
              (Reads-repeat DirList.get_entry DirList.put_entry r.entries
                (All-map dir_entry r.entries hr.each))
              (ReadsAll-finish trailing_bytes r))))),
)

pub record HasRequestFits (r : Has.HasRequest) : Type 0 where
  pub count : length r.digests ≤ Has.max_has_digests
  pub texts : All IsText r.digests
  pub slice : IsSlice (Has.encode_request r)

pub record HasResponseFits (r : Has.HasResponse) : Type 0 where
  pub count : IsU32 (length r.present)
  pub slice : IsSlice (Has.encode_response r)

-- A probe for at most 4096 readable digests, and its flags, are decoded as they were encoded.
pub has_round_trip :
    (q : Has.HasRequest) (r : Has.HasResponse)
    → HasRequestFits q
    → HasResponseFits r
    → (Has.decode_request (Has.encode_request q) ≡ ok q)
      × (Has.decode_response (Has.encode_response r) ≡ ok r)
unfolding Has.decode_request Has.encode_request Has.decode_response Has.encode_response
has_round_trip q r hq hr = (
  ReadsAll-run hq.slice (
      ReadsAll-bind _ (Reads-u32 (length q.digests) (omega (arith, hq.count))) (
        ReadsAll-guard too_large _ (le→leb _ _ hq.count) (
          ReadsAll-last _ (Reads-repeat get_str put_str q.digests (strings q.digests hq.texts))
            (ReadsAll-finish trailing_bytes q)))),
  ReadsAll-run hr.slice (
      ReadsAll-bind _ (Reads-u32 (length r.present) hr.count) (
        ReadsAll-last _ (Reads-repeat get_bool put_bool r.present (flags r.present))
          (ReadsAll-finish trailing_bytes r))),
)
