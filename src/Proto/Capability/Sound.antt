-- ===== src/Proto/Capability/Sound.antt =====
-- Whatever `decode_and_verify` accepts was signed with the key, byte for byte, and is in time.
use sembazuru.Base.{
  ℕ, ◌+◌, ◌-◌, ◌%◌, ◌^◌, ◌≤◌, ◌<◌, ◌≡◌, refl, sym, ap, ap₂, ◌∙◌, List, [], ◌∷◌, ◌++◌, append-nil,
  Result, ok, err, length, take, drop, All, All-take, take-append-drop, ltb, ◌==◌, ==_iff,
  Bool-cases, inl, inr, arith,
}
use sembazuru.Base.Texts.{same, eq_of_same}
use sembazuru.Bytes.{IsByte, le_bytes}
use sembazuru.Bytes.Utf8.{is_utf8}
use sembazuru.Blake3.{Blake3}
use sembazuru.Cursor.{run}
use sembazuru.Cursor.Accepts.{
  Accepts, AcceptsAll, Accepts-pure, Accepts-weaken, Accepts-guard, AcceptsAll-guard,
  AcceptsAll-finish, AcceptsAll-run,
}
use sembazuru.Cursor.Sliced.{Accepts-exact, AcceptsAll-exact, Accepts-uint, Accepts-take_bytes}
use sembazuru.Proto.Capability.{
  ActionCapability, CapError, bad_magic, bad_version, truncated, capability_version, cap_magic,
  clock_skew_secs, append_len_prefixed, signing_fields, signing_bytes, fixed, get_byte, get_u64,
  get_string, get_capability, check_times, encode, verify_split, decode_and_verify,
}

Accepts-fixed : (n : ℕ) → Accepts (fixed n) (λ a bs. (bs ≡ a) × (length a ≡ n))
unfolding fixed
Accepts-fixed n =
    Accepts-weaken _ (λ a bs s. (s.same, s.size)) (Accepts-take_bytes truncated truncated n)

Accepts-IsU64 : Accepts get_u64 (λ v bs. (bs ≡ le_bytes 8 v) × (v < 2 ^ 64))
unfolding get_u64
Accepts-IsU64 =
    Accepts-weaken _ (λ v bs (e, h). (e, omega (arith, h))) (Accepts-uint truncated truncated 8)

Accepts-byte : Accepts get_byte (λ v bs. (bs ≡ v ∷ []) × (v < 256))
unfolding get_byte le_bytes
Accepts-byte =
    Accepts-weaken _
      (λ v bs (e, h).
        let small : v % 256 ≡ v = omega (arith, h) in
        (e ∙ ap (λ (x : ℕ). x ∷ []) small, omega (arith, h)))
      (Accepts-uint truncated truncated 1)

Accepts-string : Accepts get_string (λ s bs. (bs ≡ append_len_prefixed s) × Unit {0})
unfolding get_string append_len_prefixed
Accepts-string = Accepts-exact _ (le_bytes 4) _ (Accepts-uint truncated truncated 4) λ n _.
    Accepts-exact _ (λ s. s) _ (Accepts-fixed n)
      λ s size. Accepts-guard {b = is_utf8 s} truncated _ _ λ good.
        Accepts-weaken _
          (λ a bs (is, none_). (
            rw (is, none_, ← size)
                (ap (λ (xs : List ℕ). le_bytes 4 (length s) ++ xs) (append-nil s)),
            tt,
          ))
          (Accepts-pure s)

-- The signed bytes of a capability that is read, and its version.
abbrev Signed : ActionCapability → List ℕ → Type 0
Signed cap bs = (bs ≡ signing_bytes cap) × (cap.version ≡ capability_version)

AcceptsAll-capability : AcceptsAll get_capability Signed
unfolding get_capability signing_bytes signing_fields
AcceptsAll-capability =
    AcceptsAll-exact _ (λ s. s) Signed (Accepts-fixed 4)
      λ magic _. AcceptsAll-guard {b = same magic cap_magic} bad_magic _ _ λ is_magic.
        AcceptsAll-exact _ (λ v. v ∷ []) _ Accepts-byte
          λ version _.
            AcceptsAll-guard {b = version == capability_version} bad_version _ _ λ is_one.
              AcceptsAll-exact _ append_len_prefixed _ Accepts-string λ worker_id _.
                AcceptsAll-exact _ append_len_prefixed _ Accepts-string λ action_id _.
                  AcceptsAll-exact _ append_len_prefixed _ Accepts-string λ session_id _.
                    AcceptsAll-exact _ (λ s. s) _ (Accepts-fixed 32)
                      λ vfs_digest _.
                        AcceptsAll-exact _ (λ s. s) _ (Accepts-fixed 32)
                          λ command_digest _.
                            AcceptsAll-exact _ (le_bytes 8) _ Accepts-IsU64 λ issued_at _.
                              AcceptsAll-exact _ (le_bytes 8) _ Accepts-IsU64 λ expires_at _.
                                AcceptsAll-exact _ (λ s. s) _ (Accepts-fixed 16)
                                  λ nonce _. AcceptsAll-finish truncated _ _ (
                                    rw (append-nil nonce, eq_of_same magic cap_magic is_magic)
                                      (refl, (==_iff version capability_version).0 is_one))

times_inv :
    (now : ℕ) (r : Result CapError ActionCapability) (cap : ActionCapability)
    → check_times now r ≡ ok cap
    → (r ≡ ok cap) × (now ≤ cap.expires_at) × (cap.issued_at ≤ now + clock_skew_secs)
unfolding check_times
times_inv now (err e) cap h = cc
times_inv now (ok c) cap h = ground (arith, h)

-- A byte string that is accepted is, byte for byte, what `encode` gives for the capability that is
-- answered and this key; its version is the current one, `now` is not past its end, and it was
-- issued at most the skew after `now`.
pub encode-verify :
    (b3 : Blake3) (bytes key : List ℕ) (now : ℕ) (cap : ActionCapability)
    → All IsByte bytes
    → decode_and_verify b3 bytes key now ≡ ok cap
    → (bytes ≡ encode b3 cap key)
      × (cap.version ≡ capability_version)
      × (now ≤ cap.expires_at)
      × (cap.issued_at ≤ now + clock_skew_secs)
unfolding decode_and_verify verify_split encode
encode-verify b3 bytes key now cap all e = elim (Bool-cases (ltb (length bytes) 32)) [
  | inl short ↦ cc (rw short at e)
  | inr long ↦
      let body : List ℕ = take (length bytes - 32) bytes in
      let mac : List ℕ = drop (length bytes - 32) bytes in
      elim (Bool-cases (same (b3.keyed_hash key body) mac)) [
        | inr forged ↦ cc (rw (long, forged) at e)
        | inl signed ↦
            let (read, in_time, skew) =
              times_inv now (run get_capability body) cap (rw (long, signed) at e) in
            let (whole, version) =
              AcceptsAll-run AcceptsAll-capability body cap
                (All-take IsByte (length bytes - 32) bytes all) read in
            (
              sym (take-append-drop (length bytes - 32) bytes)
                  ∙ ap₂ (λ xs ys. xs ++ ys) whole
                      (sym (eq_of_same _ _ signed) ∙ ap (b3.keyed_hash key) whole),
              version,
              in_time,
              skew,
            )
      ]
]
