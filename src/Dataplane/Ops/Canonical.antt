-- ===== src/Dataplane/Ops/Canonical.antt =====
-- MetadataBatchV1 responses have one encoding: what is decoded is encoded to the same bytes.
use sembazuru.Base.{
  ℕ, ◌≤◌, ◌≡◌, Bool, true, not, ◌&&◌, List, [], ◌∷◌, ◌++◌, append-nil, Option, none, some, ok,
  length, All, Bool-cases, inl, inr, ltb, leb, leb→le, le→ltb, ◌==◌, arith,
}
use sembazuru.Bytes.{IsByte}
use sembazuru.Cursor.Accepts.{
  Accepts, Accepts-pure, Accepts-fail, Accepts-weaken, AcceptsAll-bind, AcceptsAll-guard,
  AcceptsAll-finish, AcceptsAll-run,
}
use sembazuru.Cursor.Sliced.{
  Accepts-exact, AcceptsAll-exact, Accepts-repeat, AcceptsAll-skip, Items,
}
use sembazuru.Dataplane.Wire.{too_large, trailing_bytes}
use sembazuru.Dataplane.Payload.{put_u8, put_u32, put_u64}
use sembazuru.Dataplane.Payload.Accepted.{Accepts-IsU8, Accepts-IsU32, Accepts-IsU64}
use sembazuru.Dataplane.Ops.Metadata.{
  MetadataResponse, MetadataEntry, encode_response, decode_response, put_entry, put_entries,
  get_entry, classify, is_metadata_filesystem_error, response_bytes, fits_frame, sized, u32_max,
  max_metadata_paths,
}
use sembazuru.Dataplane.Ops.RoundTrip.Metadata.{response_bytes-eq}

abbrev is_error : ℕ → ℕ → ℕ → ℕ → ℕ → ℕ → ℕ → Bool
is_error tag a s c t w e =
    tag == 1
    && (a == 0 && (s == 0 && (c == 0 && (t == 0 && (w == 0 && is_metadata_filesystem_error e)))))

module _ (tag a s c t w e : ℕ) where
  -- The bytes that `classify`'s caller has read.
  abbrev read_bytes : List ℕ
  read_bytes =
      put_u8 tag
      ++ (put_u32 a ++ (put_u64 s ++ (put_u64 c ++ (put_u64 t ++ (put_u64 w ++ put_u32 e)))))

  Accepts-classify :
      Accepts (classify tag a s c t w e) (λ entry bs. (put_entry entry ≡ ok read_bytes) × (bs ≡ []))
  unfolding classify put_entry
  Accepts-classify = elim (Bool-cases (tag == 0 && (not (a == u32_max) && e == 0))) [
    | inl y ↦ rw y (
        Accepts-weaken _ (λ entry bs (is, none_). (rw is (ground (arith, y)), none_))
          (Accepts-pure _))
    | inr n ↦ elim (Bool-cases (is_error tag a s c t w e)) [
      | inl y ↦
          rw (n, y)
            (Accepts-weaken _ (λ entry bs (is, none_). (rw is (ground (arith, y)), none_))
              (Accepts-pure _))
      | inr m ↦ rw (n, m) (Accepts-fail _ _)
    ]
  ]

Accepts-entry : Accepts get_entry (λ entry bs. put_entry entry ≡ ok bs)
unfolding get_entry
Accepts-entry = Accepts-exact _ put_u8 _ Accepts-IsU8 λ tag _.
    Accepts-exact _ put_u32 _ Accepts-IsU32 λ a _. Accepts-exact _ put_u64 _ Accepts-IsU64 λ s _.
      Accepts-exact _ put_u64 _ Accepts-IsU64 λ c _. Accepts-exact _ put_u64 _ Accepts-IsU64 λ t _.
        Accepts-exact _ put_u64 _ Accepts-IsU64 λ w _.
          Accepts-exact _ put_u32 _ Accepts-IsU32 λ e _.
            Accepts-weaken _ (λ entry bs (written, none_). rw (none_, append-nil) written)
              (Accepts-classify tag a s c t w e)

put_entries-Items :
    (es : List MetadataEntry) (bs : List ℕ)
    → Items (λ e b. put_entry e ≡ ok b) es bs
    → put_entries es ≡ ok bs
unfolding put_entries
put_entries-Items [] bs none_ = rw none_
put_entries-Items (e ∷ es) bs (b, c, split, first, rest) =
    rw (first, put_entries-Items es c rest, split)

response_fits : (n : ℕ) → n ≤ max_metadata_paths → fits_frame (response_bytes n) ≡ true
unfolding fits_frame
response_fits n h = rw (response_bytes-eq n h) (ground arith)

encoded :
    (r : MetadataResponse) (bs : List ℕ) (n : ℕ)
    → n ≤ max_metadata_paths
    → length r.entries ≡ n
    → put_entries r.entries ≡ ok bs
    → encode_response r ≡ ok (put_u32 n ++ bs)
unfolding encode_response
encoded r bs n h count written =
    rw (count, le→ltb max_metadata_paths n h, response_fits n h, written)

-- The test of the size reads nothing.
Accepts-sized : (size : ℕ) (expected : Option ℕ) → Accepts (sized size expected) (λ _ bs. bs ≡ [])
unfolding sized
Accepts-sized size none = Accepts-fail _ _
Accepts-sized size (some k) = elim (Bool-cases (size == k)) [
  | inl y ↦ rw y (Accepts-weaken _ (λ _ bs (is, none_). none_) (Accepts-pure tt))
  | inr n ↦ elim (Bool-cases (ltb size k)) [
    | inl y ↦ rw (n, y) (Accepts-fail _ _)
    | inr m ↦ rw (n, m) (Accepts-fail _ _)
  ]
]

-- A byte string that decodes as a metadata response is what that response encodes to: no two byte
-- strings decode to one response.
pub metadata_response_canonical :
    (buf : List ℕ) (r : MetadataResponse)
    → All IsByte buf
    → decode_response buf ≡ ok r
    → encode_response r ≡ ok buf
unfolding decode_response
metadata_response_canonical buf r all e =
    AcceptsAll-run
      (AcceptsAll-exact _ put_u32 (λ (v : MetadataResponse) bs. encode_response v ≡ ok bs)
        Accepts-IsU32
        λ n _. AcceptsAll-guard {b = leb n max_metadata_paths} too_large _ _ λ h.
          AcceptsAll-skip _ _ (Accepts-sized (length buf) (response_bytes n)) λ _.
            AcceptsAll-bind _ _ (Accepts-repeat get_entry _ n Accepts-entry) λ es bs (count, items).
              AcceptsAll-finish trailing_bytes (record { entries = es }) _
                (rw append-nil (
                  encoded (record { entries = es }) bs n (leb→le n max_metadata_paths h) count
                    (put_entries-Items es bs items))))
      buf r all e
