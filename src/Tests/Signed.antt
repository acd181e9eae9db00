-- ===== src/Tests/Signed.antt =====
-- crates/proto at concrete inputs.
use sembazuru.Base.{
  ℕ, ◌≤◌, ◌+◌, ◌≡◌, refl, ◌∙◌, List, [], ◌∷◌, ◌++◌, some, Option, true, false, ok, replicate, All,
  arith,
}
use sembazuru.Bytes.{IsByte, IsSlice, le_bytes}
use sembazuru.Proto.Auth.{IsConfigured}
use sembazuru.Proto.Capability.{
  ActionCapability, signing_bytes, encode, decode_and_verify, check_times, capability_version,
  clock_skew_secs,
}
use sembazuru.Proto.Capability.Verify.{verify-encode, CapFits}
use sembazuru.Proto.Capability.Sound.{encode-verify}
use sembazuru.Base.Assoc.{text_eq, lookup}
use sembazuru.Base.Texts.{same}
use sembazuru.Cas.Fingerprint.{at_most}
use sembazuru.Proto.Capability.Digests.{command_bytes, sorted, place, VfsExecution}
use sembazuru.Proto.Capability.Digests.Injective.{Hashable, command_bytes-injective}
use sembazuru.Tests.Inputs.{ab, ab-IsUtf8, ab-bytes, all_below-All, zeros}

abbrev other : List ℕ
other = 97 ∷ 99 ∷ []

pub ab-IsConfigured : IsConfigured (some ab)
ab-IsConfigured = (λ e. cc, ab-bytes)

abbrev capability : ActionCapability
capability = record {
  version = 1;
  worker_id = ab;
  action_id = ab;
  session_id = ab;
  command_digest = replicate 32 7;
  vfs_digest = replicate 32 8;
  issued_at = 1000;
  expires_at = 1300;
  nonce = replicate 16 9;
}

capability-IsSlice : IsSlice (signing_bytes capability)
unfolding signing_bytes le_bytes
capability-IsSlice = omega arith

capability-CapFits : CapFits capability
capability-CapFits = record {
  version = refl;
  worker_id = record { utf8 = ab-IsUtf8; short = omega arith };
  action_id = record { utf8 = ab-IsUtf8; short = omega arith };
  session_id = record { utf8 = ab-IsUtf8; short = omega arith };
  vfs_digest = refl;
  command_digest = refl;
  issued_at = omega arith;
  expires_at = omega arith;
  nonce = refl;
  slice = capability-IsSlice;
}

verify-encode_example :
    decode_and_verify zeros (encode zeros capability ab) ab 1200 ≡ check_times 1200 (ok capability)
verify-encode_example = verify-encode zeros ab 1200 capability capability-CapFits

in_time : check_times 1200 (ok capability) ≡ ok capability
unfolding check_times
in_time = refl

capability_bytes : All IsByte (encode zeros capability ab)
unfolding encode signing_bytes le_bytes
capability_bytes = all_below-All 256 (encode zeros capability ab) refl

encode-verify_example :
    (encode zeros capability ab ≡ encode zeros capability ab)
    × (capability.version ≡ capability_version)
    × (1200 ≤ 1300)
    × (1000 ≤ 1200 + clock_skew_secs)
encode-verify_example =
    encode-verify zeros (encode zeros capability ab) ab 1200 capability capability_bytes
      (verify-encode zeros ab 1200 capability capability-CapFits ∙ in_time)

-- Two listings of one environment.
abbrev variables : List (List ℕ × List ℕ)
variables = (ab, ab) ∷ (ab ++ ab, ab) ∷ []

abbrev turned : List (List ℕ × List ℕ)
turned = (ab ++ ab, ab) ∷ (ab, ab) ∷ []

variables-Hashable : Hashable (ab ∷ []) variables ab
unfolding lookup same
variables-Hashable = record {
  argc = omega arith;
  args = (omega arith, tt);
  envc = omega arith;
  entries = ((omega arith, omega arith), ((omega arith, omega arith), tt));
  distinct = (refl, (refl, tt));
  place = omega arith;
}

turned-Hashable : Hashable (ab ∷ []) turned ab
unfolding lookup same
turned-Hashable = record {
  argc = omega arith;
  args = (omega arith, tt);
  envc = omega arith;
  entries = ((omega arith, omega arith), ((omega arith, omega arith), tt));
  distinct = (refl, (refl, tt));
  place = omega arith;
}

same_bytes : command_bytes (ab ∷ []) variables ab ≡ command_bytes (ab ∷ []) turned ab
unfolding command_bytes sorted place at_most
same_bytes = refl

command_bytes-injective_example :
    (◌≡◌ {A = List (List ℕ)} (ab ∷ []) (ab ∷ []))
    × ((k : List ℕ) → lookup k variables ≡ lookup k turned)
    × (◌≡◌ {A = List ℕ} ab ab)
command_bytes-injective_example =
    command_bytes-injective (ab ∷ []) (ab ∷ []) variables turned ab ab variables-Hashable
      turned-Hashable same_bytes

abbrev view : Option VfsExecution
view = some (record {
  agent_fileserver = ab;
  vfs_root = ab;
  trace_dir = [];
  strict = true;
  allow_original_cwd = false;
})
