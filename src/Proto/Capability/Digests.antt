-- ===== src/Proto/Capability/Digests.antt =====
-- crates/proto/src/capability.rs: the digests that bind a capability to one command and to one view of the files. The
-- hasher takes the bytes piece by piece, and hashes what they make together.
pub mod Injective
pub mod Views
use sembazuru.Base.{
  ℕ, Bool, true, false, List, [], ◌∷◌, ◌++◌, Option, none, some, length, concat_map, if◌then◌else◌,
}
use sembazuru.Bytes.{le_bytes}
use sembazuru.Blake3.{Blake3}
use sembazuru.Cas.Fingerprint.{at_most}
use sembazuru.Proto.Capability.{append_len_prefixed}

abbrev pub command_digest_domain : List ℕ
command_digest_domain =
    b's' ∷ b'e' ∷ b'm' ∷ b'b' ∷ b'a' ∷ b'z' ∷ b'u' ∷ b'r' ∷ b'u' ∷ b' ' ∷ b'c' ∷ b'o' ∷ b'm' ∷ b'm'
    ∷ b'a' ∷ b'n' ∷ b'd' ∷ b'-' ∷ b'd' ∷ b'i' ∷ b'g' ∷ b'e' ∷ b's' ∷ b't' ∷ b' ' ∷ b'v' ∷ b'1' ∷ []

abbrev pub vfs_digest_domain : List ℕ
vfs_digest_domain =
    b's' ∷ b'e' ∷ b'm' ∷ b'b' ∷ b'a' ∷ b'z' ∷ b'u' ∷ b'r' ∷ b'u' ∷ b' ' ∷ b'v' ∷ b'f' ∷ b's' ∷ b'-'
    ∷ b'e' ∷ b'x' ∷ b'e' ∷ b'c' ∷ b'u' ∷ b't' ∷ b'i' ∷ b'o' ∷ b'n' ∷ b' ' ∷ b'v' ∷ b'1' ∷ []

-- `sort_by_key` on the entries of a map, no two of which have one key.
unfoldable pub place : List ℕ × List ℕ → List (List ℕ × List ℕ) → List (List ℕ × List ℕ)
unfolding at_most
place e [] = e ∷ []
place e (d ∷ ds) = if at_most e.0 d.0 then e ∷ d ∷ ds else d ∷ place e ds

unfoldable pub sorted : List (List ℕ × List ℕ) → List (List ℕ × List ℕ)
unfolding place
sorted [] = []
sorted (e ∷ es) = place e (sorted es)

unfoldable pub hash_count : ℕ → List ℕ
hash_count n = le_bytes 4 n

unfoldable pub hash_entry : List ℕ × List ℕ → List ℕ
unfolding append_len_prefixed
hash_entry e = append_len_prefixed e.0 ++ append_len_prefixed e.1

-- What `command_digest` hashes.
unfoldable pub command_bytes : List (List ℕ) → List (List ℕ × List ℕ) → List ℕ → List ℕ
unfolding append_len_prefixed hash_count hash_entry sorted
command_bytes argv env cwd =
    command_digest_domain
    ++ (hash_count (length argv)
        ++ (concat_map append_len_prefixed argv
            ++ (hash_count (length (sorted env))
                ++ (concat_map hash_entry (sorted env) ++ append_len_prefixed cwd))))

unfoldable pub command_digest : Blake3 → List (List ℕ) → List (List ℕ × List ℕ) → List ℕ → List ℕ
unfolding command_bytes
command_digest b3 argv env cwd = b3.hash (command_bytes argv env cwd)

pub record VfsExecution : Type 0 where
  pub agent_fileserver : List ℕ
  pub vfs_root : List ℕ
  pub trace_dir : List ℕ
  pub strict : Bool
  pub allow_original_cwd : Bool

abbrev pub as_u8 : Bool → ℕ
as_u8 true = 1
as_u8 false = 0

unfoldable pub vfs_bytes : Option VfsExecution → List ℕ
unfolding append_len_prefixed
vfs_bytes none = vfs_digest_domain ++ (0 ∷ [])
vfs_bytes (some v) =
    vfs_digest_domain
    ++ ((1 ∷ [])
        ++ (append_len_prefixed v.agent_fileserver
            ++ (append_len_prefixed v.vfs_root
                ++ (append_len_prefixed v.trace_dir
                    ++ ((as_u8 v.strict ∷ []) ++ (as_u8 v.allow_original_cwd ∷ []))))))

unfoldable pub vfs_digest : Blake3 → Option VfsExecution → List ℕ
unfolding vfs_bytes
vfs_digest b3 vfs = b3.hash (vfs_bytes vfs)
