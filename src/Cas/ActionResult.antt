-- ===== src/Cas/ActionResult.antt =====
-- `ActionResult` of crates/cas/src/action_cache.rs and its codec on disk. The exit code is its 32-bit
-- pattern, which `to_le_bytes` and `from_le_bytes` keep.
pub mod RoundTrip
use sembazuru.Base.{
  ℕ, zero, suc, ◌+◌, ◌-◌, ◌*◌, ◌^◌, Bool, true, false, ◌&&◌, List, [], ◌∷◌, ◌++◌, Option, none,
  some, Result, ok, err, length, take, drop, concat_map, leb, ltb, ◌==◌, if◌then◌else◌,
}
use sembazuru.Base.Texts.{same}
use sembazuru.Bytes.{le_bytes}
use sembazuru.Bytes.Utf8.{is_utf8}
use sembazuru.Blake3.{Blake3}
use sembazuru.Cas.Digest.{Digest, canonical, parse, codec_checksum}
use sembazuru.Cursor.{Cursor, Parser, pure, fail, ◌>>=◌, guard, take_bytes, uint, repeat, finish}

pub record OutputFile : Type 0 where
  pub logical_path : List ℕ
  pub digest : Digest

pub record ActionResult : Type 0 where
  pub exit_code : ℕ
  pub outputs : List OutputFile
  pub stdout : Option Digest
  pub stderr : Option Digest

pub data CacheCodecError : Type 0 where
  codec_error : CacheCodecError

abbrev pub result_codec_magic : List ℕ
result_codec_magic = b'S' ∷ b'B' ∷ b'Z' ∷ b'R' ∷ []

abbrev pub result_codec_version : ℕ
result_codec_version = 2

abbrev pub max_outputs : ℕ
max_outputs = 65536

abbrev pub max_string_len : ℕ
max_string_len = 16 * 2 ^ 20

unfoldable pub put_str : List ℕ → List ℕ
put_str s = le_bytes 4 (length s) ++ s

abbrev pub Decoder : Type 0 → Type 0
Decoder A = Parser CacheCodecError A

unfoldable pub get_u32 : Decoder ℕ
unfolding uint
get_u32 = uint codec_error codec_error 4

-- An error ends the decoding, so where the position stands then does not matter.
unfoldable pub get_str : Decoder (List ℕ)
unfolding get_u32 take_bytes ◌>>=◌
get_str = do
  len ← get_u32
  _ ← guard (leb len max_string_len) codec_error
  slice ← take_bytes codec_error codec_error len
  _ ← guard (is_utf8 slice) codec_error
  pure slice

-- `Digest::parse(s).map_err(|_| CacheCodecError)`
abbrev parsed : {E : Type 0} → Result E Digest → Decoder Digest
parsed (ok d) = pure d
parsed (err e) = fail codec_error

unfoldable pub parse_digest : List ℕ → Decoder Digest
unfolding parse
parse_digest s = parsed (parse s)

unfoldable pub opt_digest : List ℕ → Decoder (Option Digest)
unfolding parse_digest ◌>>=◌
opt_digest [] = pure none
opt_digest (b ∷ bs) = do d ← parse_digest (b ∷ bs); pure (some d)

unfoldable pub get_opt_digest : Decoder (Option Digest)
unfolding get_str opt_digest ◌>>=◌
get_opt_digest = do s ← get_str; opt_digest s

-- `d.as_ref().map(|d| d.canonical()).unwrap_or_default()`
unfoldable pub canonical_or_empty : Option Digest → List ℕ
unfolding canonical
canonical_or_empty none = []
canonical_or_empty (some d) = canonical d

unfoldable pub put_output : OutputFile → List ℕ
unfolding put_str canonical
put_output o = put_str o.logical_path ++ put_str (canonical o.digest)

unfoldable pub get_output : Decoder OutputFile
unfolding get_str parse_digest ◌>>=◌
get_output = do
  logical_path ← get_str
  s ← get_str
  digest ← parse_digest s
  pure (record { logical_path = logical_path; digest = digest })

-- What stands between the version and the checksum.
unfoldable pub fields : ActionResult → List ℕ
unfolding put_output put_str canonical_or_empty
fields r =
    le_bytes 4 r.exit_code
    ++ (le_bytes 4 (length r.outputs)
        ++ (concat_map put_output r.outputs
            ++ (put_str (canonical_or_empty r.stdout) ++ put_str (canonical_or_empty r.stderr))))

unfoldable pub get_fields : Decoder ActionResult
unfolding get_u32 get_output get_opt_digest uint repeat finish ◌>>=◌
get_fields = do
  exit_code ← uint codec_error codec_error 4
  n ← get_u32
  _ ← guard (leb n max_outputs) codec_error
  outputs ← repeat n get_output
  stdout ← get_opt_digest
  stderr ← get_opt_digest
  _ ← finish codec_error
  pure (record { exit_code = exit_code; outputs = outputs; stdout = stdout; stderr = stderr })

-- The bytes before the checksum.
unfoldable pub body_of : ActionResult → List ℕ
unfolding fields
body_of r = result_codec_magic ++ (result_codec_version ∷ fields r)

unfoldable pub decode_body : List ℕ → Result CacheCodecError ActionResult
decode_body body =
    if same (take 4 body) result_codec_magic
      && same (take 1 (drop 4 body)) (result_codec_version ∷ [])
    then (get_fields (record { buf = body; pos = 5 })).0
    else err codec_error

module _ (b3 : Blake3) where
  unfoldable pub encode : ActionResult → List ℕ
  encode r = body_of r ++ codec_checksum b3 (body_of r)

  unfoldable pub decode : List ℕ → Result CacheCodecError ActionResult
  decode buf =
      if ltb (length buf) 8
      then err codec_error
      else (let body = take (length buf - 8) buf in
          if same (codec_checksum b3 body) (drop (length buf - 8) buf)
          then decode_body body
          else err codec_error)
