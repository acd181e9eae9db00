-- ===== src/Dataplane/Ops/RoundTrip/Metadata.antt =====
-- MetadataBatchV1: decoding inverts encoding, whose own checks make every entry readable.
use sembazuru.Base.{
  ℕ, ◌+◌, ◌*◌, ◌≤◌, ◌<◌, ◌≡◌, refl, sym, subst, true, false, List, [], ◌∷◌, ◌++◌, some, ok,
  ok-injective, >>=-eq-ok, inl, inr, length, length-append, All, All-map, concat_map, ltb, le→leb,
  Bool-cases, ◌==◌, ==_iff, arith,
}
use sembazuru.Bytes.{IsSlice, le_bytes}
use sembazuru.Bytes.Little.{length-le_bytes}
use sembazuru.Cursor.{pure, repeat}
use sembazuru.Cursor.Reads.{
  Reads, Reads-bind, Reads-last, Reads-pure, Reads-repeat, ReadsAll-bind, ReadsAll-last,
  ReadsAll-guard, ReadsAll-finish, ReadsAll-run,
}
use sembazuru.Dataplane.Wire.{Error, too_large, trailing_bytes}
use sembazuru.Dataplane.Payload.{put_u8, put_u32, put_u64, put_str, get_str}
use sembazuru.Dataplane.Payload.Fields.{
  IsU32, IsU64, IsText, Reads-u8, Reads-u32, Reads-u64, Reads-str,
}
use sembazuru.Dataplane.Ops.Metadata.{
  MetadataRequest, MetadataResponse, MetadataEntry, present, filesystem_error, encode_request,
  decode_request, encode_response, decode_response, put_entry, put_entries, get_entry, classify,
  is_metadata_filesystem_error, response_bytes, request_body, fits_frame, sized, max_metadata_paths,
  u32_max,
}

-- The ranges that the fields' types give.
abbrev pub EntryFits : MetadataEntry → Type 0
EntryFits (present attributes size creation_time access_time write_time) =
    IsU32 attributes × IsU64 size × IsU64 creation_time × IsU64 access_time × IsU64 write_time
EntryFits (filesystem_error raw_error) = IsU32 raw_error

module _ (tag a s c t w e : ℕ) where
  abbrev fixed : List ℕ
  fixed =
      put_u8 tag
      ++ (put_u32 a ++ (put_u64 s ++ (put_u64 c ++ (put_u64 t ++ (put_u64 w ++ put_u32 e)))))

  length-fixed : length fixed ≡ 41
  unfolding put_u8 put_u32 put_u64 le_bytes
  length-fixed = refl

  Reads-fixed :
      (entry : MetadataEntry)
      → tag < 2
      → IsU32 a × IsU64 s × IsU64 c × IsU64 t × IsU64 w
      → IsU32 e
      → classify tag a s c t w e ≡ pure entry
      → Reads get_entry fixed entry
  unfolding get_entry
  Reads-fixed entry h fits he k = Reads-bind _ (Reads-u8 tag (omega arith)) (
      Reads-bind _ (Reads-u32 a fits.0) (
        Reads-bind _ (Reads-u64 s fits.1) (
          Reads-bind _ (Reads-u64 c fits.2) (
            Reads-bind _ (Reads-u64 t fits.3) (
              Reads-bind _ (Reads-u64 w fits.4)
                (Reads-last _ (Reads-u32 e he) (rw k (Reads-pure entry))))))))

-- What `put_entry` accepts, it writes in 41 bytes that are read back.
record EntryWritten (e : MetadataEntry) (bs : List ℕ) : Type 0 where
  width : length bs ≡ 41
  back : Reads get_entry bs e

classify_present :
    (a s c t w : ℕ) → (a == u32_max) ≡ false → classify 0 a s c t w 0 ≡ pure (present a s c t w)
unfolding classify
classify_present a s c t w h = rw h

classify_error :
    (e : ℕ)
    → is_metadata_filesystem_error e ≡ true
    → classify 1 0 0 0 0 0 e ≡ pure (filesystem_error e)
unfolding classify
classify_error e h = rw h

entry_written :
    (e : MetadataEntry) (bs : List ℕ) → EntryFits e → put_entry e ≡ ok bs → EntryWritten e bs
unfolding put_entry
entry_written (present a s c t w) bs fits p = elim (Bool-cases (a == u32_max)) [
  | inl top ↦ cc (rw top at p)
  | inr free ↦
      subst (EntryWritten (present a s c t w)) (ok-injective {E = Error} _ _ (rw free at p))
        (record {
          width = length-fixed 0 a s c t w 0;
          back =
              Reads-fixed 0 a s c t w 0 _ (omega arith) fits (omega arith)
                (classify_present a s c t w free);
        })
]
entry_written (filesystem_error e) bs fits p = elim (Bool-cases (is_metadata_filesystem_error e)) [
  | inr bad ↦ cc (rw bad at p)
  | inl good ↦
      subst (EntryWritten (filesystem_error e)) (ok-injective {E = Error} _ _ (rw good at p))
        (record {
          width = length-fixed 1 0 0 0 0 0 e;
          back =
              Reads-fixed 1 0 0 0 0 0 e _ (omega arith) (omega arith) fits (classify_error e good);
        })
]

length-put_u32 : (v : ℕ) → length (put_u32 v) ≡ 4
unfolding put_u32
length-put_u32 v = length-le_bytes 4 v

record EntriesWritten (es : List MetadataEntry) (bs : List ℕ) : Type 0 where
  width : length bs ≡ length es * 41
  back : Reads (repeat (length es) get_entry) bs es

entries_written :
    (es : List MetadataEntry) (bs : List ℕ)
    → All EntryFits es
    → put_entries es ≡ ok bs
    → EntriesWritten es bs
unfolding put_entries repeat
entries_written [] bs fits p =
    subst (EntriesWritten []) (ok-injective {E = Error} [] bs p)
      (record { width = omega arith; back = Reads-pure [] })
entries_written (e ∷ es) bs fits p =
    let (b, first, q) = >>=-eq-ok (put_entry e) _ p in
    let (rest, others, k) = >>=-eq-ok (put_entries es) _ q in
    let one = entry_written e b fits.0 first in
    let all = entries_written es rest fits.1 others in
    subst (EntriesWritten (e ∷ es)) (ok-injective {E = Error} (b ++ rest) bs k) (record {
      width = omega (arith, length-append b rest, one.width, all.width);
      back = Reads-bind _ one.back (Reads-last _ all.back (Reads-pure (e ∷ es)));
    })

pub response_bytes-eq : (n : ℕ) → n ≤ max_metadata_paths → response_bytes n ≡ some (4 + n * 41)
unfolding response_bytes
response_bytes-eq n h = ground arith

sized_exact :
    (n size : ℕ)
    → n ≤ max_metadata_paths
    → size ≡ 4 + n * 41
    → sized size (response_bytes n) ≡ pure tt
unfolding sized
sized_exact n size h e =
    rw (response_bytes-eq n h, e, sized, (==_iff (4 + n * 41) (4 + n * 41)).1 refl)

Reads-sized :
    (n size : ℕ)
    → n ≤ max_metadata_paths
    → size ≡ 4 + n * 41
    → Reads (sized size (response_bytes n)) [] tt
Reads-sized n size h e = rw (sized_exact n size h e) (Reads-pure tt)

record Encoded (r : MetadataResponse) (bs : List ℕ) : Type 0 where
  body : List ℕ
  count : length r.entries ≤ max_metadata_paths
  written : put_entries r.entries ≡ ok body
  shape : bs ≡ put_u32 (length r.entries) ++ body

encoded : (r : MetadataResponse) (bs : List ℕ) → encode_response r ≡ ok bs → Encoded r bs
unfolding encode_response
encoded r bs p = elim (Bool-cases (ltb max_metadata_paths (length r.entries))) [
  | inl over ↦ cc (rw over at p)
  | inr within ↦ elim (Bool-cases (fits_frame (response_bytes (length r.entries)))) [
    | inr large ↦ cc (rw (within, large) at p)
    | inl fits ↦
        let (body, w, k) = >>=-eq-ok (put_entries r.entries) _ (rw (within, fits) at p) in
        record {
          body = body;
          count = ground (arith, within);
          written = w;
          shape = sym (ok-injective {E = Error} _ _ k);
        }
  ]
]

-- An encoded response has 41 bytes for each entry behind its count, and is decoded as it was
-- encoded; its entries lie in the ranges of their types.
pub metadata_response_round_trip :
    (r : MetadataResponse) (bs : List ℕ)
    → All EntryFits r.entries
    → encode_response r ≡ ok bs
    → (length bs ≡ 4 + length r.entries * 41) × (decode_response bs ≡ ok r)
unfolding decode_response
metadata_response_round_trip r bs fits p = rw c.shape (size, done)
  where
    c : Encoded r bs
    c = encoded r bs p

    n : ℕ
    n = length r.entries

    all : EntriesWritten r.entries c.body
    all = entries_written r.entries c.body fits c.written

    whole : List ℕ
    whole = put_u32 n ++ c.body

    size : length whole ≡ 4 + n * 41
    size = omega (arith, length-append (put_u32 n) c.body, all.width, length-put_u32 n)

    done : decode_response whole ≡ ok r
    done = ReadsAll-run {bs = whole} (omega (arith, size, c.count)) (
        ReadsAll-bind _ (Reads-u32 n (omega (arith, c.count))) (
          ReadsAll-guard too_large _ (le→leb _ _ c.count) (
            ReadsAll-bind _ (Reads-sized n (length whole) c.count size)
              (ReadsAll-last _ all.back (ReadsAll-finish trailing_bytes r)))))

-- An encoded request was within its limits, and is decoded as it was encoded.
pub metadata_request_round_trip :
    (q : MetadataRequest) (bs : List ℕ)
    → All IsText q.paths
    → IsSlice bs
    → encode_request q ≡ ok bs
    → (length q.paths ≤ max_metadata_paths) × (decode_request bs ≡ ok q)
unfolding encode_request decode_request
metadata_request_round_trip q bs texts slice p =
    elim (Bool-cases (ltb max_metadata_paths (length q.paths))) [
      | inl over ↦ cc (rw over at p)
      | inr within ↦ elim (Bool-cases (fits_frame (request_body 4 q.paths))) [
        | inr large ↦ cc (rw (within, large) at p)
        | inl fits ↦
            let shape : put_u32 (length q.paths) ++ concat_map put_str q.paths ≡ bs =
              ok-injective {E = Error} _ _ (rw (within, fits) at p) in
            let count : length q.paths ≤ max_metadata_paths = ground (arith, within) in
            (
              count,
              subst (λ (xs : List ℕ). IsSlice xs → decode_request xs ≡ ok q) shape
                  (λ k. ReadsAll-run k (
                    ReadsAll-bind _ (Reads-u32 (length q.paths) (omega (arith, count))) (
                      ReadsAll-guard too_large _ (le→leb _ _ count) (
                        ReadsAll-last _
                          (Reads-repeat get_str put_str q.paths (All-map Reads-str q.paths texts))
                          (ReadsAll-finish trailing_bytes q)))))
                  slice,
            )
      ]
    ]
