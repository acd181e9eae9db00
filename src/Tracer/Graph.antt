-- ===== src/Tracer/Graph.antt =====
-- crates/tracer/src/graph.rs: what the accesses of the traced processes leave in the sets of inputs, outputs and
-- deletions. A BTreeMap is a list with one entry for a key, and a BTreeSet a list without repetitions.
pub mod Fold
pub mod Inputs
pub mod Own
pub mod Made
pub mod Unproduced
pub mod Reads
pub mod Keyed
pub mod Lost
use sembazuru.Base.{
  ℕ, ◌≡◌, Bool, true, false, ◌&&◌, ◌||◌, List, [], ◌∷◌, Option, none, some, ◌==◌, if◌then◌else◌,
}
use sembazuru.Base.Texts.{same}
use sembazuru.Base.Assoc.{Eq, text_eq, lookup, insert, remove}
use sembazuru.Cas.Fingerprint.{lower, each, starts_with, listed}
use sembazuru.Tracer.Model.{
  FileOp, RegistryOp, EnvOp, EventKind, Event, succeeded, Trace, AccessKind,
}
use sembazuru.Tracer.Paths.{Text, sep, slash, split, is_empty, normalize_path}

abbrev pub telemetry_exes : List Text
telemetry_exes = (b'v' ∷ b'c' ∷ b't' ∷ b'i' ∷ b'p' ∷ b'.' ∷ b'e' ∷ b'x' ∷ b'e' ∷ []) ∷ []

abbrev pub env_block_name : Text
env_block_name =
    b'<' ∷ b'e' ∷ b'n' ∷ b'v' ∷ b'i' ∷ b'r' ∷ b'o' ∷ b'n' ∷ b'm' ∷ b'e' ∷ b'n' ∷ b't' ∷ b'-' ∷ b'b'
    ∷ b'l' ∷ b'o' ∷ b'c' ∷ b'k' ∷ b'>' ∷ []

-- `Trace::exe_name`: the last component, in lower case.
abbrev pub last_or : Text → List Text → Text
last_or d [] = d
last_or d (s ∷ ss) = last_or s ss

unfoldable pub exe_name : Trace → Text
unfolding each split
exe_name t = each lower (last_or t.exe_path (split sep (each slash t.exe_path)))

unfoldable pub same_kind : AccessKind → AccessKind → Bool
same_kind AccessKind.read AccessKind.read = true
same_kind AccessKind.write AccessKind.write = true
same_kind AccessKind.probe AccessKind.probe = true
same_kind AccessKind.probe_miss AccessKind.probe_miss = true
same_kind AccessKind.enumerate AccessKind.enumerate = true
same_kind AccessKind.delete AccessKind.delete = true
same_kind AccessKind.move AccessKind.move = true
same_kind _ _ = false

unfoldable pub has_kind : AccessKind → List AccessKind → Bool
unfolding same_kind
has_kind k [] = false
has_kind k (j ∷ js) = same_kind j k || has_kind k js

unfoldable pub has_pid : ℕ → List ℕ → Bool
has_pid p [] = false
has_pid p (q ∷ qs) = (q == p) || has_pid p qs

-- `BTreeSet::insert`
abbrev pub put_kind : AccessKind → List AccessKind → List AccessKind
put_kind k ks = if has_kind k ks then ks else k ∷ ks

abbrev pub put_pid : ℕ → List ℕ → List ℕ
put_pid p ps = if has_pid p ps then ps else p ∷ ps

-- `BTreeSet::remove`
unfoldable pub without : ℕ → List ℕ → List ℕ
without p [] = []
without p (q ∷ qs) = let rest = without p qs in if q == p then rest else q ∷ rest

pub record PathAccess : Type 0 where
  pub path : Text
  pub kinds : List AccessKind
  pub pids : List ℕ

pub record RegistryAccess : Type 0 where
  pub key : Text
  pub value : Text
  pub pids : List ℕ

pub record EnvAccess : Type 0 where
  pub name : Text
  pub found : Bool
  pub pids : List ℕ

abbrev pub PathMap : Type 0
PathMap = List (Text × PathAccess)

pub record Accumulator : Type 0 where
  pub inputs : PathMap
  pub outputs : PathMap
  pub deletions : PathMap
  pub registry : List ((Text × Text) × RegistryAccess)
  pub env : List (Text × EnvAccess)

abbrev pub empty_accumulator : Accumulator
empty_accumulator = record { inputs = []; outputs = []; deletions = []; registry = []; env = [] }

abbrev pub touched : AccessKind → ℕ → Text → Option PathAccess → PathAccess
touched kind pid norm none = record { path = norm; kinds = kind ∷ []; pids = pid ∷ [] }
touched kind pid norm (some e) = record e {
  kinds = put_kind kind e.kinds;
  pids = put_pid pid e.pids;
}

-- `add_path` and `remove_path_for_pid` on the map that the bucket names.
unfoldable pub add_path : PathMap → Text → AccessKind → ℕ → PathMap
unfolding lookup insert
add_path m norm kind pid = insert norm (touched kind pid norm (lookup norm m)) m

abbrev pub is_nil : List ℕ → Bool
is_nil [] = true
is_nil (p ∷ ps) = false

unfoldable pub dropped : PathMap → Text → ℕ → Option PathAccess → PathMap
unfolding insert remove without
dropped m norm pid none = m
dropped m norm pid (some e) =
    if is_nil (without pid e.pids)
    then remove norm m
    else insert norm (record e { pids = without pid e.pids }) m

unfoldable pub remove_path_for_pid : PathMap → Text → ℕ → PathMap
unfolding dropped lookup
remove_path_for_pid m norm pid = dropped m norm pid (lookup norm m)

-- `s.contains(p)`
unfoldable pub contains_text : Text → Text → Bool
unfolding starts_with
contains_text [] p = is_empty p
contains_text (b ∷ bs) p = starts_with (b ∷ bs) p || contains_text bs p

unfoldable pub is_device : Text → Bool
unfolding starts_with contains_text
is_device norm =
    starts_with norm (sep ∷ sep ∷ b'.' ∷ sep ∷ [])
    || contains_text norm (sep ∷ b'p' ∷ b'i' ∷ b'p' ∷ b'e' ∷ sep ∷ [])
