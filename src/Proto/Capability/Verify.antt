-- ===== src/Proto/Capability/Verify.antt =====
-- What `decode_and_verify` answers on a capability that was encoded, and what it accepts.
use sembazuru.Base.{
  ℕ, ◌-◌, ◌%◌, ◌^◌, ◌<◌, ◌≡◌, ◌≢◌, refl, subst, ◌∙◌, false, List, [], ◌∷◌, ◌++◌, ok, err, length,
  length-append, take-length_append, drop-length_append, le→ltb, ltb, ==_iff, arith,
}
use sembazuru.Base.Texts.{same_refl, same-eq_false}
use sembazuru.Bytes.{IsSlice, le_bytes}
use sembazuru.Bytes.Utf8.{IsUtf8}
use sembazuru.Blake3.{Blake3}
use sembazuru.Cursor.Reads.{
  Reads, ReadsAll, Reads-bind, Reads-last, Reads-pure, Reads-guard_bind, Reads-uint,
  Reads-take_bytes, ReadsAll-bind, ReadsAll-last, ReadsAll-guard, ReadsAll-finish, ReadsAll-run,
}
use sembazuru.Proto.Capability.{
  ActionCapability, bad_mac, bad_magic, bad_version, truncated, capability_version, cap_magic,
  append_len_prefixed, signing_fields, signing_bytes, fixed, get_byte, get_u64, get_string,
  get_capability, check_times, encode, verify_split, decode_and_verify,
}

pub record IsId (s : List ℕ) : Type 0 where
  pub utf8 : IsUtf8 s
  pub short : length s < 2 ^ 32

-- The ranges of the fields' types.
pub record CapFits (cap : ActionCapability) : Type 0 where
  pub version : cap.version ≡ capability_version
  pub worker_id : IsId cap.worker_id
  pub action_id : IsId cap.action_id
  pub session_id : IsId cap.session_id
  pub vfs_digest : length cap.vfs_digest ≡ 32
  pub command_digest : length cap.command_digest ≡ 32
  pub issued_at : cap.issued_at < 2 ^ 64
  pub expires_at : cap.expires_at < 2 ^ 64
  pub nonce : length cap.nonce ≡ 16
  pub slice : IsSlice (signing_bytes cap)

Reads-fixed : (n : ℕ) (bs : List ℕ) → length bs ≡ n → Reads (fixed n) bs bs
unfolding fixed
Reads-fixed n bs e = Reads-take_bytes truncated truncated n bs e

Reads-u64 : (v : ℕ) → v < 2 ^ 64 → Reads get_u64 (le_bytes 8 v) v
unfolding get_u64
Reads-u64 v h = Reads-uint truncated truncated 8 v (omega arith)

Reads-byte : (v : ℕ) → v < 256 → Reads get_byte (v ∷ []) v
unfolding get_byte le_bytes
Reads-byte v h =
    let e : v % 256 ≡ v = omega arith in
    subst (λ (w : ℕ). Reads get_byte (w ∷ []) v) e
      (Reads-uint truncated truncated 1 v (omega arith))

Reads-string : (s : List ℕ) → IsId s → Reads get_string (append_len_prefixed s) s
unfolding get_string append_len_prefixed
Reads-string s h =
    Reads-bind _ (Reads-uint truncated truncated 4 (length s) (omega (arith, h.short))) (
      Reads-last _ (Reads-fixed (length s) s refl)
        (Reads-guard_bind truncated _ h.utf8 (Reads-pure s)))

ReadsAll-capability :
    (cap : ActionCapability) → CapFits cap → ReadsAll get_capability (signing_bytes cap) cap
unfolding get_capability signing_bytes signing_fields
ReadsAll-capability cap h = ReadsAll-bind _ (Reads-fixed 4 cap_magic refl) (
    ReadsAll-guard bad_magic _ (same_refl cap_magic) (
      ReadsAll-bind _ (Reads-byte cap.version (omega (arith, h.version))) (
        ReadsAll-guard bad_version _ ((==_iff _ _).1 h.version) (
          ReadsAll-bind _ (Reads-string cap.worker_id h.worker_id) (
            ReadsAll-bind _ (Reads-string cap.action_id h.action_id) (
              ReadsAll-bind _ (Reads-string cap.session_id h.session_id) (
                ReadsAll-bind _ (Reads-fixed 32 cap.vfs_digest h.vfs_digest) (
                  ReadsAll-bind _ (Reads-fixed 32 cap.command_digest h.command_digest) (
                    ReadsAll-bind _ (Reads-u64 cap.issued_at h.issued_at) (
                      ReadsAll-bind _ (Reads-u64 cap.expires_at h.expires_at) (
                        ReadsAll-last _ (Reads-fixed 16 cap.nonce h.nonce)
                          (ReadsAll-finish truncated cap))))))))))))

module _ (b3 : Blake3) (key : List ℕ) (now : ℕ) where
  verify_joined :
      (body mac : List ℕ)
      → length mac ≡ 32
      → decode_and_verify b3 (body ++ mac) key now ≡ verify_split b3 body mac key now
  unfolding decode_and_verify
  verify_joined body mac n =
      let size : length (body ++ mac) - 32 ≡ length body = omega (arith, length-append body mac) in
      let long : ltb (length (body ++ mac)) 32 ≡ false =
        le→ltb (length (body ++ mac)) 32 (omega (arith, length-append body mac)) in
      rw (long, size, take-length_append body mac, drop-length_append body mac)

  -- A capability of the current version whose fields lie in the ranges of their types, signed with
  -- this key, passes to the test of its times, whose result is the answer.
  pub verify-encode :
      (cap : ActionCapability)
      → CapFits cap
      → decode_and_verify b3 (encode b3 cap key) key now ≡ check_times now (ok cap)
  unfolding encode verify_split
  verify-encode cap h =
      let body : List ℕ = signing_bytes cap in
      verify_joined body (b3.keyed_hash key body) (b3.keyed_hash_length key body)
      ∙ rw (same_refl (b3.keyed_hash key body), ReadsAll-run h.slice (ReadsAll-capability cap h))

  -- A body with any other code of 32 bytes behind it is refused for its signature, whatever it holds.
  pub verify_forged :
      (body mac : List ℕ)
      → length mac ≡ 32
      → b3.keyed_hash key body ≢ mac
      → decode_and_verify b3 (body ++ mac) key now ≡ err bad_mac
  unfolding verify_split
  verify_forged body mac n other =
      verify_joined body mac n ∙ rw (same-eq_false (b3.keyed_hash key body) mac other)
