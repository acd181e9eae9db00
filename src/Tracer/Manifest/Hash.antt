-- ===== src/Tracer/Manifest/Hash.antt =====
-- crates/tracer/src/action_key.rs: manifest_hash and hash_components.
use sembazuru.Base.{List, [], ◌∷◌, ◌++◌, Option, none, some}
use sembazuru.Tracer.Paths.{Text}
use sembazuru.Tracer.Sha256.{sha256_hex}
use sembazuru.Tracer.Manifest.{
  ReadOutcome, bytes, not_found, failed, Disk, InputKind, content, absent, InputEntry,
  InputManifest, sort_texts,
}

abbrev pub missing_marker : Text
missing_marker = b'<' ∷ b'm' ∷ b'i' ∷ b's' ∷ b's' ∷ b'i' ∷ b'n' ∷ b'g' ∷ b'>' ∷ []

abbrev pub absent_marker : Text
absent_marker = b'a' ∷ b'b' ∷ b's' ∷ b'e' ∷ b'n' ∷ b't' ∷ []

abbrev pub appeared_prefix : Text
appeared_prefix = b'a' ∷ b'p' ∷ b'p' ∷ b'e' ∷ b'a' ∷ b'r' ∷ b'e' ∷ b'd' ∷ b':' ∷ []

abbrev pub cmd_marker : Text
cmd_marker = b'-' ∷ b'-' ∷ b'c' ∷ b'm' ∷ b'd' ∷ b'-' ∷ b'-' ∷ []

-- None is an error other than `NotFound`.
unfoldable pub token_of : InputKind → ReadOutcome → Option Text
token_of content (bytes b) = some (sha256_hex b)
token_of content not_found = some missing_marker
token_of absent (bytes b) = some (appeared_prefix ++ sha256_hex b)
token_of absent not_found = some absent_marker
token_of _ failed = none

abbrev pub keyed_line : Text → Text → Text
keyed_line logical token = logical ++ (0 ∷ token)

abbrev pub with_line : Text → Option Text → Option (List Text) → Option (List Text)
with_line logical (some token) (some lines) = some (keyed_line logical token ∷ lines)
with_line logical _ _ = none

unfoldable pub lines_of : Disk → List InputEntry → Option (List Text)
unfolding token_of
lines_of disk [] = some []
lines_of disk (e ∷ es) =
    with_line e.logical (token_of e.kind (disk.read e.absolute)) (lines_of disk es)

abbrev pub finished : InputManifest → Option (List Text) → Option (List Text)
finished manifest none = none
finished manifest (some lines) = some (sort_texts lines ++ (cmd_marker ∷ manifest.cmds))

-- What `manifest_hash` hashes.
unfoldable pub manifest_components : Disk → InputManifest → Option (List Text)
unfolding lines_of sort_texts
manifest_components disk manifest = finished manifest (lines_of disk manifest.inputs)

unfoldable pub component_bytes : List Text → Text
component_bytes [] = []
component_bytes (c ∷ cs) = c ++ (0x0A ∷ component_bytes cs)

unfoldable pub hash_components : List Text → Text
unfolding component_bytes sha256_hex
hash_components components = sha256_hex (component_bytes components)

abbrev pub hash_of : Option (List Text) → Option Text
hash_of none = none
hash_of (some components) = some (hash_components components)

unfoldable pub manifest_hash : Disk → InputManifest → Option Text
unfolding manifest_components hash_components
manifest_hash disk manifest = hash_of (manifest_components disk manifest)
