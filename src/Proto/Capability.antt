-- ===== src/Proto/Capability.antt =====
-- crates/proto/src/capability.rs: the signed permission to run one action on one worker.
pub mod Verify
pub mod Digests
pub mod Sound
use sembazuru.Base.{
  ℕ, ◌+◌, ◌-◌, ◌^◌, ◌≡◌, Bool, true, false, List, [], ◌∷◌, ◌++◌, Option, none, some, Result, ok,
  err, length, take, drop, leb, ltb, ◌==◌, if◌then◌else◌, min, concat_map,
}
use sembazuru.Base.Texts.{same}
use sembazuru.Bytes.{le_bytes}
use sembazuru.Bytes.Utf8.{is_utf8}
use sembazuru.Blake3.{Blake3}
use sembazuru.Cursor.{Cursor, Parser, pure, ◌>>=◌, guard, take_bytes, uint, finish, run}

abbrev pub capability_version : ℕ
capability_version = 1

abbrev pub capability_ttl_secs : ℕ
capability_ttl_secs = 300

abbrev pub clock_skew_secs : ℕ
clock_skew_secs = 60

abbrev pub cap_magic : List ℕ
cap_magic = b'S' ∷ b'B' ∷ b'Z' ∷ b'C' ∷ []

pub record ActionCapability : Type 0 where
  pub version : ℕ
  pub worker_id : List ℕ
  pub action_id : List ℕ
  pub session_id : List ℕ
  pub command_digest : List ℕ
  pub vfs_digest : List ℕ
  pub issued_at : ℕ
  pub expires_at : ℕ
  pub nonce : List ℕ

pub data CapError : Type 0 where
  too_short bad_mac bad_magic bad_version truncated expired not_yet_valid : CapError

-- `u32::try_from` panics on a length that a 64-bit slice of 4 GiB could reach; the model keeps the
-- low 32 bits there, and its theorems ask for shorter fields.
unfoldable pub append_len_prefixed : List ℕ → List ℕ
append_len_prefixed bytes = le_bytes 4 (length bytes) ++ bytes

unfoldable pub signing_fields : ActionCapability → List ℕ
unfolding append_len_prefixed
signing_fields cap =
    append_len_prefixed cap.worker_id
    ++ (append_len_prefixed cap.action_id
        ++ (append_len_prefixed cap.session_id
            ++ (cap.vfs_digest
                ++ (cap.command_digest
                    ++ (le_bytes 8 cap.issued_at ++ (le_bytes 8 cap.expires_at ++ cap.nonce))))))

unfoldable pub signing_bytes : ActionCapability → List ℕ
unfolding signing_fields
signing_bytes cap = cap_magic ++ ((cap.version ∷ []) ++ signing_fields cap)

-- Cursor: a failed slice of any kind is `Truncated`.

abbrev pub Decoder : Type 0 → Type 0
Decoder A = Parser CapError A

unfoldable pub fixed : ℕ → Decoder (List ℕ)
unfolding take_bytes
fixed n = take_bytes truncated truncated n

unfoldable pub get_byte : Decoder ℕ
unfolding uint
get_byte = uint truncated truncated 1

unfoldable pub get_u64 : Decoder ℕ
unfolding uint
get_u64 = uint truncated truncated 8

unfoldable pub get_string : Decoder (List ℕ)
unfolding uint fixed ◌>>=◌
get_string = do
  len ← uint truncated truncated 4
  bytes ← fixed len
  _ ← guard (is_utf8 bytes) truncated
  pure bytes

unfoldable pub get_capability : Decoder ActionCapability
unfolding fixed get_byte get_string get_u64 finish ◌>>=◌
get_capability = do
  magic ← fixed 4
  _ ← guard (same magic cap_magic) bad_magic
  version ← get_byte
  _ ← guard (version == capability_version) bad_version
  worker_id ← get_string
  action_id ← get_string
  session_id ← get_string
  vfs_digest ← fixed 32
  command_digest ← fixed 32
  issued_at ← get_u64
  expires_at ← get_u64
  nonce ← fixed 16
  _ ← finish truncated
  pure (record {
    version = version;
    worker_id = worker_id;
    action_id = action_id;
    session_id = session_id;
    command_digest = command_digest;
    vfs_digest = vfs_digest;
    issued_at = issued_at;
    expires_at = expires_at;
    nonce = nonce;
  })

-- `now.saturating_add(CLOCK_SKEW_SECS)`, at 64 bits.
abbrev pub latest_issue : ℕ → ℕ
latest_issue now = min (now + clock_skew_secs) (2 ^ 64 - 1)

unfoldable pub check_times : ℕ → Result CapError ActionCapability → Result CapError ActionCapability
check_times now (err e) = err e
check_times now (ok cap) =
    if ltb cap.expires_at now
    then err expired
    else if ltb (latest_issue now) cap.issued_at
    then err not_yet_valid
    else ok cap

module _ (b3 : Blake3) where
  unfoldable pub encode : ActionCapability → List ℕ → List ℕ
  encode cap key = signing_bytes cap ++ b3.keyed_hash key (signing_bytes cap)

  -- The front of the buffer and the code behind it, 32 bytes long.
  unfoldable pub verify_split : List ℕ → List ℕ → List ℕ → ℕ → Result CapError ActionCapability
  verify_split body mac key now =
      if same (b3.keyed_hash key body) mac
      then check_times now (run get_capability body)
      else err bad_mac

  unfoldable pub decode_and_verify : List ℕ → List ℕ → ℕ → Result CapError ActionCapability
  unfolding verify_split
  decode_and_verify bytes key now =
      if ltb (length bytes) 32
      then err too_short
      else verify_split (take (length bytes - 32) bytes) (drop (length bytes - 32) bytes) key now
