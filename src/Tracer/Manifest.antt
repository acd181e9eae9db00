-- ===== src/Tracer/Manifest.antt =====
-- crates/tracer/src/action_key.rs: the manifest of the inputs that a traced run observed, and whether the run may be
-- cached. The file system is a parameter: what reading a path gives, and which paths are directories.
pub mod Allowed
pub mod Covered
pub mod Hash
pub mod Sorted
pub mod Unchanged
use sembazuru.Base.{
  ℕ, zero, suc, ◌-◌, Bool, true, false, not, ◌&&◌, ◌||◌, List, [], ◌∷◌, ◌++◌, map, Option, none,
  some, leb, ltb, ◌==◌, if◌then◌else◌, length,
}
use sembazuru.Base.Texts.{same}
use sembazuru.Cas.Fingerprint.{lower, each, starts_with, listed, at_most}
use sembazuru.Tracer.Model.{AccessKind}
use sembazuru.Tracer.Paths.{Text, sep, is_ascii_alphabetic, is_empty, normalize_path, relativize}
use sembazuru.Tracer.Logical.{any}
use sembazuru.Tracer.Graph.{
  env_block_name, PathAccess, RegistryAccess, EnvAccess, PathMap, Accumulator, has_kind,
  contains_text,
}

-- Of a process, the command line.
pub record DependencyGraph : Type 0 where
  pub command_lines : List Text
  pub inputs : List PathAccess
  pub outputs : List PathAccess
  pub registry : List RegistryAccess
  pub env : List EnvAccess
  pub warnings : List Text

-- `into_values`
abbrev pub values : {K V : Type 0} → List (K × V) → List V
values [] = []
values ((k, v) ∷ m) = v ∷ values m

-- The end of `build_graph`, from the processes, the warnings and the accumulator.
unfoldable pub assembled : List Text → List Text → Accumulator → DependencyGraph
assembled command_lines warnings acc = record {
  command_lines = command_lines;
  inputs = values acc.inputs;
  outputs = values acc.outputs;
  registry = values acc.registry;
  env = values acc.env;
  warnings = warnings;
}

pub data ReadOutcome : Type 0 where
  bytes : Text → ReadOutcome
  not_found failed : ReadOutcome

pub record Disk : Type 0 where
  pub read : Text → ReadOutcome
  pub is_dir : Text → Bool

pub data InputKind : Type 0 where
  content absent : InputKind

pub record InputEntry : Type 0 where
  pub logical : Text
  pub absolute : Text
  pub kind : InputKind

pub record InputManifest : Type 0 where
  pub inputs : List InputEntry
  pub cmds : List Text
  pub cacheable : Bool

pub record SideEffectPolicy : Type 0 where
  pub allow_env_block : Bool
  pub allowed_registry : List (Text × Text)
  pub allowed_enumerate : List Text

abbrev pub conservative : SideEffectPolicy
conservative = record { allow_env_block = false; allowed_registry = []; allowed_enumerate = [] }

unfoldable pub allows_registry : SideEffectPolicy → Text → Text → Bool
unfolding any same
allows_registry policy key value =
    any (λ (a : Text × Text). same a.0 key && same a.1 value) policy.allowed_registry

unfoldable pub allows_enumerate : SideEffectPolicy → Text → Bool
unfolding listed
allows_enumerate policy dir = listed policy.allowed_enumerate dir

abbrev pub root_processes_found : Text
root_processes_found =
    b'r' ∷ b'o' ∷ b'o' ∷ b't' ∷ b' ' ∷ b'p' ∷ b'r' ∷ b'o' ∷ b'c' ∷ b'e' ∷ b's' ∷ b's' ∷ b'e' ∷ b's'
    ∷ b' ' ∷ b'f' ∷ b'o' ∷ b'u' ∷ b'n' ∷ b'd' ∷ []

unfoldable pub is_cache_blocking_warning : Text → Bool
unfolding contains_text
is_cache_blocking_warning w = not (contains_text w root_processes_found)

unfoldable pub is_drive_absolute : Text → Bool
is_drive_absolute (a ∷ b ∷ c ∷ rest) = is_ascii_alphabetic a && ((b == b':') && (c == sep))
is_drive_absolute _ = false

unfoldable pub anchor : Text → Text → Option Text
unfolding normalize_path is_drive_absolute
anchor root path =
    let normalized = normalize_path path root in
    if is_drive_absolute normalized then some normalized else none

abbrev pub is_content_read : PathAccess → Bool
is_content_read inp = has_kind AccessKind.read inp.kinds

unfoldable pub logical_outputs : DependencyGraph → Text → List Text
unfolding relativize
logical_outputs graph cwd = map (λ (o : PathAccess). relativize o.path cwd) graph.outputs

-- What the loop over the inputs does with one of them: nothing, an entry, or the action is not cacheable.
pub data Classified : Type 0 where
  skipped : Classified
  entered : InputEntry → Classified
  blocked : Classified

abbrev pub unreadable : Disk → PathAccess → Text → Text → Classified
unreadable disk inp logical absolute =
    if disk.is_dir absolute
    then skipped
    else if has_kind AccessKind.probe_miss inp.kinds
    then entered (record { logical = logical; absolute = absolute; kind = absent })
    else blocked

unfoldable pub classify_read : Disk → PathAccess → Text → Text → ReadOutcome → Classified
unfolding has_kind
classify_read disk inp logical absolute (bytes _) =
    entered (record { logical = logical; absolute = absolute; kind = content })
classify_read disk inp logical absolute not_found = unreadable disk inp logical absolute
classify_read disk inp logical absolute failed = unreadable disk inp logical absolute

unfoldable pub classify_anchored : Disk → PathAccess → Text → Option Text → Classified
unfolding classify_read has_kind
classify_anchored disk inp logical none = if is_content_read inp then blocked else skipped
classify_anchored disk inp logical (some absolute) =
    classify_read disk inp logical absolute (disk.read absolute)

unfoldable pub classify_input : Disk → Text → List Text → PathAccess → Classified
unfolding classify_anchored anchor relativize listed
classify_input disk root outputs inp =
    let logical = relativize inp.path root in
    if listed outputs logical
    then skipped
    else classify_anchored disk inp logical (anchor root inp.path)

abbrev pub noted : Classified → List InputEntry → List InputEntry
noted (entered e) rest = e ∷ rest
noted _ rest = rest

abbrev pub passes : Classified → Bool
passes blocked = false
passes _ = true

unfoldable pub entries : Disk → Text → List Text → List PathAccess → List InputEntry
unfolding classify_input
entries disk root outputs [] = []
entries disk root outputs (i ∷ is) =
    noted (classify_input disk root outputs i) (entries disk root outputs is)

unfoldable pub all_pass : Disk → Text → List Text → List PathAccess → Bool
unfolding classify_input
all_pass disk root outputs [] = true
all_pass disk root outputs (i ∷ is) =
    passes (classify_input disk root outputs i) && all_pass disk root outputs is

-- The reads that the policy has to allow.

unfoldable pub side_effects_allowed : SideEffectPolicy → DependencyGraph → Bool
unfolding any allows_registry allows_enumerate has_kind same
side_effects_allowed policy graph =
    not (any (λ (r : RegistryAccess). not (allows_registry policy r.key r.value)) graph.registry)
    && (not (
          not policy.allow_env_block
          && any (λ (e : EnvAccess). same e.name env_block_name) graph.env)
        && not (
            any
              (λ (i : PathAccess).
                has_kind AccessKind.enumerate i.kinds && not (allows_enumerate policy i.path))
              graph.inputs))

-- `s.replace(root, ".")`: the occurrences from the left, and around every character where `root` is empty.

abbrev continues : ℕ → Bool
continues b = leb 0x80 b && ltb b 0xC0

unfoldable pub dotted : Text → Text
dotted [] = b'.' ∷ []
dotted (b ∷ bs) = let rest = b ∷ dotted bs in if continues b then rest else b'.' ∷ rest

unfoldable pub replace_from : Text → ℕ → Text → Text
unfolding starts_with
replace_from root skip [] = []
replace_from root (suc skip) (b ∷ bs) = replace_from root skip bs
replace_from root zero (b ∷ bs) =
    let found = starts_with (b ∷ bs) root in
    let rest = replace_from root (if found then length root - 1 else 0) bs in
    (if found then b'.' else b) ∷ rest

unfoldable pub replace_root : Text → Text → Text
unfolding dotted replace_from
replace_root root s = if is_empty root then dotted s else replace_from root 0 s

unfoldable pub place_text : Text → List Text → List Text
unfolding at_most
place_text t [] = t ∷ []
place_text t (u ∷ us) = let rest = u ∷ place_text t us in if at_most t u then t ∷ u ∷ us else rest

unfoldable pub sort_texts : List Text → List Text
unfolding place_text
sort_texts [] = []
sort_texts (t ∷ ts) = place_text t (sort_texts ts)

unfoldable pub input_manifest_with_policy :
    Disk → DependencyGraph → Text → SideEffectPolicy → InputManifest
unfolding logical_outputs entries all_pass any is_cache_blocking_warning side_effects_allowed
    replace_root sort_texts each
input_manifest_with_policy disk graph root policy =
    let outputs = logical_outputs graph root in
    record {
      inputs = entries disk root outputs graph.inputs;
      cmds = sort_texts (map (λ (c : Text). replace_root root (each lower c)) graph.command_lines);
      cacheable =
          not (any is_cache_blocking_warning graph.warnings)
          && (all_pass disk root outputs graph.inputs && side_effects_allowed policy graph);
    }

unfoldable pub input_manifest : Disk → DependencyGraph → Text → InputManifest
unfolding input_manifest_with_policy
input_manifest disk graph root = input_manifest_with_policy disk graph root conservative
