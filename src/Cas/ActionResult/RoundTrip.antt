-- ===== src/Cas/ActionResult/RoundTrip.antt =====
-- Results of actions: the codec's round trip, and what a decoded buffer must hold.
use sembazuru.Base.{
  ℕ, ◌+◌, ◌-◌, ◌^◌, ◌≤◌, ◌<◌, ◌≡◌, refl, sym, ap, ◌∙◌, true, false, List, [], ◌∷◌, ◌++◌, Option,
  none, some, Result, ok, length, take, drop, All, All-append, All-map, length-append, length-take,
  take-length_append, drop-length_append, le→leb, le→ltb, ltb, Bool-cases, inl, inr, arith,
}
use sembazuru.Base.Texts.{same, same_refl, eq_of_same}
use sembazuru.Bytes.{IsSlice, le_bytes}
use sembazuru.Bytes.Utf8.{IsUtf8, ascii-IsUtf8}
use sembazuru.Blake3.{Blake3, IsLowerHex}
use sembazuru.Cas.Digest.{Digest, DigestAlgo, blake3, hex_len, tag, canonical, codec_checksum}
use sembazuru.Cas.Digest.Canonical.{IsValid, parse-canonical}
use sembazuru.Cursor.{Cursor, pure, ◌>>=◌}
use sembazuru.Cursor.Reads.{
  Reads, ReadsAll, Reads-bind, Reads-last, Reads-pure, Reads-guard_bind, Reads-uint,
  Reads-take_bytes, Reads-repeat, ReadsAll-bind, ReadsAll-last, ReadsAll-guard, ReadsAll-finish,
}
use sembazuru.Cas.ActionResult.{
  ActionResult, OutputFile, CacheCodecError, codec_error, result_codec_magic, result_codec_version,
  max_outputs, max_string_len, put_str, get_str, get_u32, parse_digest, opt_digest, get_opt_digest,
  canonical_or_empty, put_output, get_output, fields, get_fields, body_of, encode, decode_body,
  decode,
}

pub record IsText (s : List ℕ) : Type 0 where
  pub utf8 : IsUtf8 s
  pub short : length s ≤ max_string_len

Reads-u32 : (v : ℕ) → v < 2 ^ 32 → Reads get_u32 (le_bytes 4 v) v
unfolding get_u32
Reads-u32 v h = Reads-uint codec_error codec_error 4 v (omega arith)

Reads-str : (s : List ℕ) → IsText s → Reads get_str (put_str s) s
unfolding get_str put_str
Reads-str s h = Reads-bind _ (Reads-u32 (length s) (omega (arith, h.short))) (
    Reads-guard_bind codec_error _ (le→leb _ _ h.short) (
      Reads-last _ (Reads-take_bytes codec_error codec_error (length s) s refl)
        (Reads-guard_bind codec_error _ h.utf8 (Reads-pure s))))

IsLowerHex-ascii : (b : ℕ) → IsLowerHex b → b < 0x80
IsLowerHex-ascii b h = ground arith

hex_len_eq : (algo : DigestAlgo) → hex_len algo ≡ 64
hex_len_eq blake3 = refl

tag_ascii : (algo : DigestAlgo) → (All (λ b. b < 0x80) (tag algo)) × (length (tag algo) ≡ 6)
tag_ascii blake3 = omega arith

canonical_ascii : (d : Digest) → IsValid d → All (λ b. b < 0x80) (canonical d)
unfolding canonical
canonical_ascii d v =
    All-append (λ b. b < 0x80) (tag d.algo) (b':' ∷ d.hex) (tag_ascii d.algo).0
      (omega arith, All-map IsLowerHex-ascii d.hex v.lower)

length-canonical : (d : Digest) → length (canonical d) ≡ 7 + length d.hex
unfolding canonical
length-canonical d = omega (arith, length-append (tag d.algo) (b':' ∷ d.hex), (tag_ascii d.algo).1)

-- The canonical string of a digest is short and ASCII.
canonical-IsText : (d : Digest) → IsValid d → IsText (canonical d)
canonical-IsText d v = record {
  utf8 = ascii-IsUtf8 (canonical d) (canonical_ascii d v);
  short = omega (arith, length-canonical d, v.exact, hex_len_eq d.algo);
}

Reads-digest : (d : Digest) → IsValid d → Reads (parse_digest (canonical d)) [] d
unfolding parse_digest
Reads-digest d v = rw (parse-canonical d v) (Reads-pure d)

pub record OutputFits (o : OutputFile) : Type 0 where
  pub path : IsText o.logical_path
  pub digest : IsValid o.digest

Reads-output : (o : OutputFile) → OutputFits o → Reads get_output (put_output o) o
unfolding get_output put_output
Reads-output o h = Reads-bind _ (Reads-str o.logical_path h.path) (
    Reads-last _ (Reads-str (canonical o.digest) (canonical-IsText o.digest h.digest))
      (Reads-bind _ (Reads-digest o.digest h.digest) (Reads-pure o)))

abbrev pub OptionValid : Option Digest → Type 0
OptionValid none = Unit {0}
OptionValid (some d) = IsValid d

-- A canonical string is not empty, so it is read as a digest.
opt_digest-canonical :
    (algo : DigestAlgo) (hex : List ℕ)
    → opt_digest (canonical (record { algo = algo; hex = hex }))
      ≡ (parse_digest (canonical (record { algo = algo; hex = hex })) >>= λ d. pure (some d))
unfolding opt_digest canonical
opt_digest-canonical blake3 hex = refl

Reads-opt_some : (d : Digest) → IsValid d → Reads (opt_digest (canonical d)) [] (some d)
Reads-opt_some d v =
    rw (opt_digest-canonical d.algo d.hex) (Reads-bind _ (Reads-digest d v) (Reads-pure (some d)))

Reads-opt_digest :
    (o : Option Digest) → OptionValid o → Reads get_opt_digest (put_str (canonical_or_empty o)) o
unfolding get_opt_digest canonical_or_empty opt_digest
Reads-opt_digest none v =
    Reads-last _ (Reads-str [] (record { utf8 = ascii-IsUtf8 [] tt; short = omega arith }))
      (Reads-pure none)
Reads-opt_digest (some d) v =
    Reads-last _ (Reads-str (canonical d) (canonical-IsText d v)) (Reads-opt_some d v)

-- What the codec can store: the fields within their types and bounds.
pub record ResultFits (b3 : Blake3) (r : ActionResult) : Type 0 where
  pub exit_code : r.exit_code < 2 ^ 32
  pub count : length r.outputs ≤ max_outputs
  pub each : All OutputFits r.outputs
  pub stdout : OptionValid r.stdout
  pub stderr : OptionValid r.stderr
  pub slice : IsSlice (encode b3 r)

ReadsAll-fields :
    {b3 : Blake3} (r : ActionResult) → ResultFits b3 r → ReadsAll get_fields (fields r) r
unfolding get_fields fields
ReadsAll-fields r h =
    ReadsAll-bind _ (Reads-uint codec_error codec_error 4 r.exit_code (omega (arith, h.exit_code)))
      (ReadsAll-bind _ (Reads-u32 (length r.outputs) (omega (arith, h.count))) (
        ReadsAll-guard codec_error _ (le→leb _ _ h.count) (
          ReadsAll-bind _
            (Reads-repeat get_output put_output r.outputs (All-map Reads-output r.outputs h.each))
            (ReadsAll-bind _ (Reads-opt_digest r.stdout h.stdout) (
              ReadsAll-last _ (Reads-opt_digest r.stderr h.stderr)
                (ReadsAll-finish codec_error r))))))

module _ (b3 : Blake3) where
  length-codec_checksum : (bs : List ℕ) → length (codec_checksum b3 bs) ≡ 8
  unfolding codec_checksum
  length-codec_checksum bs = omega (arith, length-take 8 (b3.hash bs), b3.hash_length bs)

  length-encode : (r : ActionResult) → length (encode b3 r) ≡ length (body_of r) + 8
  unfolding encode
  length-encode r = omega (
    arith,
    length-append (body_of r) (codec_checksum b3 (body_of r)),
    length-codec_checksum (body_of r),
  )

  decode_body-body_of : (r : ActionResult) → ResultFits b3 r → decode_body (body_of r) ≡ ok r
  decode_body-body_of r h = gated (omega (arith, h.slice, length-encode r))
    where
      gated : IsSlice (body_of r) → decode_body (body_of r) ≡ ok r
      gated s =
          unfold decode_body body_of same in
          ap (λ (p : Result CacheCodecError ActionResult × Cursor). p.0)
            ((ReadsAll-fields r h).reads_all (body_of r) 5 s (omega arith) refl)

  decode_split :
      (body sum : List ℕ)
      → length sum ≡ 8
      → sum ≡ codec_checksum b3 body
      → decode b3 (body ++ sum) ≡ decode_body body
  unfolding decode
  decode_split body sum n e =
      let size : length (body ++ sum) - 8 ≡ length body = omega (arith, length-append body sum) in
      let long : ltb (length (body ++ sum)) 8 ≡ false =
        le→ltb (length (body ++ sum)) 8 (omega (arith, length-append body sum)) in
      rw (
        long,
        size,
        take-length_append body sum,
        drop-length_append body sum,
        e,
        same_refl (codec_checksum b3 body),
      )

  -- A result whose fields are within their bounds and whose digests are valid is decoded as it was
  -- encoded.
  pub decode_result-encode : (r : ActionResult) → ResultFits b3 r → decode b3 (encode b3 r) ≡ ok r
  unfolding encode
  decode_result-encode r h =
      decode_split (body_of r) (codec_checksum b3 (body_of r)) (length-codec_checksum (body_of r))
        refl
      ∙ decode_body-body_of r h

  body_tests :
      (body : List ℕ) (r : ActionResult)
      → decode_body body ≡ ok r
      → (same (take 4 body) result_codec_magic ≡ true)
        × (same (take 1 (drop 4 body)) (result_codec_version ∷ []) ≡ true)
  unfolding decode_body
  body_tests body r e = elim (Bool-cases (same (take 4 body) result_codec_magic)) [
    | inr m ↦ cc (rw m at e)
    | inl m ↦ elim (Bool-cases (same (take 1 (drop 4 body)) (result_codec_version ∷ []))) [
      | inr v ↦ cc (rw (m, v) at e)
      | inl v ↦ (m, v)
    ]
  ]

  decode_tests :
      (buf : List ℕ) (r : ActionResult)
      → decode b3 buf ≡ ok r
      → (8 ≤ length buf)
        × (same (codec_checksum b3 (take (length buf - 8) buf)) (drop (length buf - 8) buf) ≡ true)
        × (decode_body (take (length buf - 8) buf) ≡ ok r)
  unfolding decode
  decode_tests buf r e = elim (Bool-cases (ltb (length buf) 8)) [
    | inl short ↦ cc (rw short at e)
    | inr long ↦
        elim (Bool-cases
          (same (codec_checksum b3 (take (length buf - 8) buf)) (drop (length buf - 8) buf))) [
            | inr c ↦ cc (rw (long, c) at e)
            | inl c ↦ (ground (arith, long), c, rw (long, c) at e)
          ]
  ]

  -- A buffer that decodes ends with the checksum of what comes before it, which begins with the magic
  -- and the version: anything else is a miss.
  pub decode_checked :
      (buf : List ℕ) (r : ActionResult)
      → decode b3 buf ≡ ok r
      → (8 ≤ length buf)
        × (drop (length buf - 8) buf ≡ codec_checksum b3 (take (length buf - 8) buf))
        × (take 4 (take (length buf - 8) buf) ≡ result_codec_magic)
        × (take 1 (drop 4 (take (length buf - 8) buf)) ≡ result_codec_version ∷ [])
  decode_checked buf r e =
      let (long, sum, inner) = decode_tests buf r e in
      let (magic, version) = body_tests (take (length buf - 8) buf) r inner in
      (long, sym (eq_of_same _ _ sum), eq_of_same _ _ magic, eq_of_same _ _ version)
