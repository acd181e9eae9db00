-- ===== src/Tracer/Graph/Fold.antt =====
-- crates/tracer/src/graph.rs: fold_file, and the fold of all events of the traces in build_graph.
use sembazuru.Base.{
  ℕ, Bool, true, false, ◌&&◌, ◌||◌, List, [], ◌∷◌, Option, none, some, if◌then◌else◌,
}
use sembazuru.Base.Assoc.{text_eq, pair_eq, lookup, insert}
use sembazuru.Cas.Fingerprint.{listed}
use sembazuru.Tracer.Model.{
  FileOp, RegistryOp, EnvOp, EventKind, Event, succeeded, Trace, AccessKind,
}
use sembazuru.Tracer.Paths.{Text, is_empty, normalize_path}
use sembazuru.Tracer.Graph.{
  telemetry_exes, env_block_name, exe_name, put_pid, RegistryAccess, EnvAccess, Accumulator,
  add_path, remove_path_for_pid, is_device,
}

-- What `fold_file` changes: the accumulator, and the paths that this trace produced.
pub record Folding : Type 0 where
  pub acc : Accumulator
  pub produced : List Text

abbrev pub add_input : Text → AccessKind → ℕ → Folding → Folding
add_input norm kind pid s = record s {
  acc = record s.acc { inputs = add_path s.acc.inputs norm kind pid };
}

abbrev pub add_deletion : Text → AccessKind → ℕ → Folding → Folding
add_deletion norm kind pid s = record s {
  acc = record s.acc { deletions = add_path s.acc.deletions norm kind pid };
}

-- A write: the path is an output, and produced by the trace.
abbrev pub produce : Text → ℕ → Folding → Folding
produce norm pid s = record {
  acc = record s.acc { outputs = add_path s.acc.outputs norm AccessKind.write pid };
  produced = norm ∷ s.produced;
}

abbrev pub drop_output : Text → ℕ → Folding → Folding
drop_output norm pid s = record s {
  acc = record s.acc { outputs = remove_path_for_pid s.acc.outputs norm pid };
}

abbrev pub drop_both : Text → ℕ → Folding → Folding
drop_both norm pid s = record s {
  acc = record s.acc {
    outputs = remove_path_for_pid s.acc.outputs norm pid;
    inputs = remove_path_for_pid s.acc.inputs norm pid;
  };
}

abbrev pub removed : Bool → Text → ℕ → Folding → Folding
removed ok norm pid s = if ok && listed s.produced norm then drop_output norm pid s else s

abbrev pub renamed_away : Bool → Text → ℕ → Folding → Folding
renamed_away ok norm pid s = if ok && listed s.produced norm then drop_both norm pid s else s

-- The destination of a rename that succeeded and names a file.
abbrev pub destination : Bool → Text → Text → Option Text
destination ok aux cwd =
    if ok && (if is_empty aux then false else true)
    then (if is_device (normalize_path aux cwd) then none else some (normalize_path aux cwd))
    else none

abbrev pub arrived : Option Text → ℕ → Folding → Folding
arrived none pid s = s
arrived (some dst) pid s = produce dst pid s

unfoldable pub fold_op : FileOp → Bool → Text → Option Text → ℕ → Folding → Folding
unfolding add_path remove_path_for_pid listed
fold_op FileOp.open_read ok norm dst pid s =
    add_input norm (if ok then AccessKind.read else AccessKind.probe_miss) pid s
fold_op FileOp.open_read_write ok norm dst pid s =
    produce norm pid (add_input norm AccessKind.read pid s)
fold_op FileOp.open_write ok norm dst pid s = produce norm pid s
fold_op FileOp.probe ok norm dst pid s =
    add_input norm (if ok then AccessKind.probe else AccessKind.probe_miss) pid s
fold_op FileOp.enumerate ok norm dst pid s = add_input norm AccessKind.enumerate pid s
fold_op FileOp.delete ok norm dst pid s =
    add_deletion norm AccessKind.delete pid (removed ok norm pid s)
fold_op FileOp.move ok norm dst pid s =
    arrived dst pid (add_deletion norm AccessKind.move pid (renamed_away ok norm pid s))
fold_op FileOp.create_dir ok norm dst pid s = produce norm pid s
fold_op FileOp.remove_dir ok norm dst pid s =
    add_deletion norm AccessKind.delete pid (removed ok norm pid s)

unfoldable pub fold_file : ℕ → FileOp → Event → Text → Folding → Folding
unfolding fold_op is_device normalize_path succeeded
fold_file pid op ev cwd s =
    let norm = normalize_path ev.path cwd in
    if is_device norm
    then s
    else fold_op op (succeeded ev) norm (destination (succeeded ev) ev.aux cwd) pid s

abbrev pub queried : Text → Text → ℕ → Option RegistryAccess → RegistryAccess
queried key value pid none = record { key = key; value = value; pids = pid ∷ [] }
queried key value pid (some e) = record e { pids = put_pid pid e.pids }

abbrev pub env_read : Text → Bool → ℕ → Option EnvAccess → EnvAccess
env_read name ok pid none = record { name = name; found = ok; pids = pid ∷ [] }
env_read name ok pid (some e) = record e { found = e.found || ok; pids = put_pid pid e.pids }

abbrev pub block_read : ℕ → Option EnvAccess → EnvAccess
block_read pid none = record { name = env_block_name; found = true; pids = pid ∷ [] }
block_read pid (some e) = record e { pids = put_pid pid e.pids }

abbrev pub with_registry : Event → ℕ → Accumulator → Accumulator
with_registry ev pid acc = record acc {
  registry =
      insert (ev.path, ev.aux) (queried ev.path ev.aux pid (lookup (ev.path, ev.aux) acc.registry))
        acc.registry;
}

abbrev pub with_env : Text → (Option EnvAccess → EnvAccess) → Accumulator → Accumulator
with_env name entry acc = record acc { env = insert name (entry (lookup name acc.env)) acc.env }

unfoldable pub fold_kind : EventKind → Event → ℕ → Text → Folding → Folding
unfolding fold_file insert lookup succeeded
fold_kind (EventKind.file op flags) ev pid cwd s = fold_file pid op ev cwd s
fold_kind (EventKind.registry RegistryOp.query_value kind) ev pid cwd s = record s {
  acc = with_registry ev pid s.acc;
}
fold_kind (EventKind.env EnvOp.read) ev pid cwd s = record s {
  acc = with_env ev.path (env_read ev.path (succeeded ev) pid) s.acc;
}
fold_kind (EventKind.env EnvOp.block_read) ev pid cwd s = record s {
  acc = with_env env_block_name (block_read pid) s.acc;
}
fold_kind (EventKind.registry RegistryOp.open_key kind) ev pid cwd s = s
fold_kind (EventKind.process op child_pid) ev pid cwd s = s
fold_kind (EventKind.unknown category op) ev pid cwd s = s

unfoldable pub fold_events : ℕ → Text → List Event → Folding → Folding
unfolding fold_kind
fold_events pid cwd [] s = s
fold_events pid cwd (ev ∷ evs) s = fold_events pid cwd evs (fold_kind ev.kind ev pid cwd s)

abbrev pub is_telemetry : Trace → Bool
is_telemetry t = listed telemetry_exes (exe_name t)

unfoldable pub fold_trace : Accumulator → Trace → Accumulator
unfolding fold_events exe_name listed
fold_trace acc t =
    if is_telemetry t
    then acc
    else (fold_events t.pid t.cwd t.events (record { acc = acc; produced = [] })).acc

-- The second half of `build_graph`.
unfoldable pub fold_traces : Accumulator → List Trace → Accumulator
unfolding fold_trace
fold_traces acc [] = acc
fold_traces acc (t ∷ ts) = fold_traces (fold_trace acc t) ts
