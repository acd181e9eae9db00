-- ===== src/Proto/Capability/Digests/Views.antt =====
-- Views of the files that hash the same bytes are the same.
use sembazuru.Base.{ℕ, ◌≡◌, refl, Bool, true, false, List, [], ◌∷◌, Option, none, some}
use sembazuru.Proto.Capability.Digests.{VfsExecution, as_u8, vfs_bytes, vfs_digest_domain}
use sembazuru.Proto.Capability.Digests.Injective.{Short, append-injective, field-Delimited}

abbrev pub ViewFits : Option VfsExecution → Type 0
ViewFits none = Unit {0}
ViewFits (some v) = Short v.agent_fileserver × Short v.vfs_root × Short v.trace_dir

flag_read : (b c : Bool) (s t : List ℕ) → (as_u8 b ∷ s) ≡ (as_u8 c ∷ t) → (b ≡ c) × (s ≡ t)
flag_read true true s t e = (refl, cc)
flag_read true false s t e = absurd cc
flag_read false true s t e = absurd cc
flag_read false false s t e = (refl, cc)

views_equal :
    (v w : VfsExecution)
    → v.agent_fileserver ≡ w.agent_fileserver
    → v.vfs_root ≡ w.vfs_root
    → v.trace_dir ≡ w.trace_dir
    → v.strict ≡ w.strict
    → v.allow_original_cwd ≡ w.allow_original_cwd
    → ◌≡◌ {A = Option VfsExecution} (some v) (some w)
views_equal v w a b c d e = cc

-- Two views of the files for which the digest hashes the same bytes are the same, an absent one among them.
pub vfs_bytes-injective :
    (v w : Option VfsExecution) → ViewFits v → ViewFits w → vfs_bytes v ≡ vfs_bytes w → v ≡ w
unfolding vfs_bytes
vfs_bytes-injective none none hv hw e = refl
vfs_bytes-injective none (some w) hv hw e =
    let (_, rest) = append-injective vfs_digest_domain vfs_digest_domain _ _ refl e in absurd cc
vfs_bytes-injective (some v) none hv hw e =
    let (_, rest) = append-injective vfs_digest_domain vfs_digest_domain _ _ refl e in absurd cc
vfs_bytes-injective (some v) (some w) (sv, rv, dv) (sw, rw', dw) e =
    let (_, tagged) = append-injective vfs_digest_domain vfs_digest_domain _ _ refl e in
    let (_, fields) = append-injective (1 ∷ []) (1 ∷ []) _ _ refl tagged in
    let (servers, after_server) =
      field-Delimited v.agent_fileserver w.agent_fileserver _ _ sv sw fields in
    let (roots, after_root) = field-Delimited v.vfs_root w.vfs_root _ _ rv rw' after_server in
    let (dirs, after_dir) = field-Delimited v.trace_dir w.trace_dir _ _ dv dw after_root in
    let (stricts, after_strict) =
      flag_read v.strict w.strict (as_u8 v.allow_original_cwd ∷ [])
        (as_u8 w.allow_original_cwd ∷ []) after_dir in
    let (originals, _) = flag_read v.allow_original_cwd w.allow_original_cwd [] [] after_strict in
    views_equal v w servers roots dirs stricts originals
