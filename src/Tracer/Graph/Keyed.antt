-- ===== src/Tracer/Graph/Keyed.antt =====
-- crates/tracer/src/graph.rs: the entry for a path carries the path.
use mathlib.Core.List.{Memᴰ}
use sembazuru.Base.{
  ℕ, ◌≡◌, refl, Bool, ◌&&◌, inl, inr, List, [], ◌∷◌, Option, none, some, All, Bool-cases,
  Option-cases,
}
use sembazuru.Base.Texts.{same, eq_of_same}
use sembazuru.Base.Assoc.{text_eq, lookup, insert, remove}
use sembazuru.Cas.Fingerprint.{listed}
use sembazuru.Tracer.Model.{
  FileOp, RegistryOp, EnvOp, EventKind, Event, succeeded, Trace, AccessKind,
}
use sembazuru.Tracer.Paths.{Text, normalize_path}
use sembazuru.Tracer.Graph.{
  PathAccess, PathMap, Accumulator, touched, add_path, without, is_nil, dropped,
  remove_path_for_pid, is_device,
}
use sembazuru.Tracer.Graph.Fold.{
  Folding, destination, removed, renamed_away, arrived, fold_op, fold_file, fold_kind, fold_events,
  is_telemetry, fold_trace, fold_traces,
}

abbrev pub Keyed : PathMap → Type 0
Keyed m = All (λ (e : Text × PathAccess). e.1.path ≡ e.0) m

insert-Keyed :
    (k : Text) (v : PathAccess) (m : PathMap) → v.path ≡ k → Keyed m → Keyed (insert k v m)
unfolding insert
insert-Keyed k v [] e h = (e, tt)
insert-Keyed k v ((j, w) ∷ m) e h = elim (Bool-cases (same j k)) [
  | inl y ↦ rw y (e, h.1)
  | inr n ↦ rw n (h.0, insert-Keyed k v m e h.1)
]

remove-Keyed : (k : Text) (m : PathMap) → Keyed m → Keyed (remove k m)
unfolding remove
remove-Keyed k [] h = tt
remove-Keyed k ((j, w) ∷ m) h = elim (Bool-cases (same j k)) [
  | inl y ↦ rw y h.1
  | inr n ↦ rw n (h.0, remove-Keyed k m h.1)
]

-- The entry that a map has for a path is one of its values.
pub lookup-Memᴰ : (k : Text) (m : PathMap) {e : PathAccess} → lookup k m ≡ some e → Memᴰ (k, e) m
unfolding lookup
lookup-Memᴰ k [] h = cc
lookup-Memᴰ k ((j, w) ∷ m) {e} h = elim (Bool-cases (same j k)) [
  | inl y ↦ Memᴰ.head (let q : some w ≡ some e = rw y at h in cc (eq_of_same j k y))
  | inr n ↦ Memᴰ.tail (lookup-Memᴰ k m (rw n at h))
]

pub Keyed-lookup :
    (k : Text) (m : PathMap) {e : PathAccess} → Keyed m → lookup k m ≡ some e → e.path ≡ k
unfolding lookup
Keyed-lookup k [] h q = cc
Keyed-lookup k ((j, w) ∷ m) {e} h q = elim (Bool-cases (same j k)) [
  | inl y ↦ (let r : some w ≡ some e = rw y at q in cc (eq_of_same j k y, h.0))
  | inr n ↦ Keyed-lookup k m h.1 (rw n at q)
]

add_path-Keyed :
    (m : PathMap) (norm : Text) (kind : AccessKind) (pid : ℕ)
    → Keyed m
    → Keyed (add_path m norm kind pid)
unfolding add_path
add_path-Keyed m norm kind pid h =
    insert-Keyed norm (touched kind pid norm (lookup norm m)) m
      (elim (Option-cases (lookup norm m)) [
        | inl n ↦ rw n refl
        | inr (a, e) ↦ rw e (Keyed-lookup norm m h e)
      ])
      h

dropped-Keyed :
    (m : PathMap) (norm : Text) (pid : ℕ) (o : Option PathAccess)
    → lookup norm m ≡ o
    → Keyed m
    → Keyed (dropped m norm pid o)
unfolding dropped
dropped-Keyed m norm pid none q h = h
dropped-Keyed m norm pid (some e) q h = elim (Bool-cases (is_nil (without pid e.pids))) [
  | inl y ↦ rw y (remove-Keyed norm m h)
  | inr y ↦
      rw y
        (insert-Keyed norm (record e { pids = without pid e.pids }) m (Keyed-lookup norm m h q) h)
]

remove_path-Keyed :
    (m : PathMap) (norm : Text) (pid : ℕ) → Keyed m → Keyed (remove_path_for_pid m norm pid)
unfolding remove_path_for_pid
remove_path-Keyed m norm pid h = dropped-Keyed m norm pid (lookup norm m) refl h

renamed-Keyed :
    (ok : Bool) (norm : Text) (pid : ℕ) (s : Folding)
    → Keyed s.acc.inputs
    → Keyed (renamed_away ok norm pid s).acc.inputs
renamed-Keyed ok norm pid s h = elim (Bool-cases (ok && listed s.produced norm)) [
  | inl y ↦ rw y (remove_path-Keyed s.acc.inputs norm pid h)
  | inr y ↦ rw y h
]

removed-Keyed :
    (ok : Bool) (norm : Text) (pid : ℕ) (s : Folding)
    → Keyed s.acc.inputs
    → Keyed (removed ok norm pid s).acc.inputs
removed-Keyed ok norm pid s h = elim (Bool-cases (ok && listed s.produced norm)) [
  | inl y ↦ rw y h
  | inr y ↦ rw y h
]

arrived-Keyed :
    (dst : Option Text) (pid : ℕ) (s : Folding)
    → Keyed s.acc.inputs
    → Keyed (arrived dst pid s).acc.inputs
arrived-Keyed none pid s h = h
arrived-Keyed (some d) pid s h = h

fold_op-Keyed :
    (op : FileOp) (ok : Bool) (norm : Text) (dst : Option Text) (pid : ℕ) (s : Folding)
    → Keyed s.acc.inputs
    → Keyed (fold_op op ok norm dst pid s).acc.inputs
unfolding fold_op
fold_op-Keyed FileOp.open_read ok norm dst pid s h = add_path-Keyed s.acc.inputs norm _ pid h
fold_op-Keyed FileOp.open_read_write ok norm dst pid s h = add_path-Keyed s.acc.inputs norm _ pid h
fold_op-Keyed FileOp.open_write ok norm dst pid s h = h
fold_op-Keyed FileOp.probe ok norm dst pid s h = add_path-Keyed s.acc.inputs norm _ pid h
fold_op-Keyed FileOp.enumerate ok norm dst pid s h = add_path-Keyed s.acc.inputs norm _ pid h
fold_op-Keyed FileOp.delete ok norm dst pid s h = removed-Keyed ok norm pid s h
fold_op-Keyed FileOp.move ok norm dst pid s h =
    arrived-Keyed dst pid _ (renamed-Keyed ok norm pid s h)
fold_op-Keyed FileOp.create_dir ok norm dst pid s h = h
fold_op-Keyed FileOp.remove_dir ok norm dst pid s h = removed-Keyed ok norm pid s h

fold_kind-Keyed :
    (kind : EventKind) (ev : Event) (pid : ℕ) (cwd : Text) (s : Folding)
    → Keyed s.acc.inputs
    → Keyed (fold_kind kind ev pid cwd s).acc.inputs
unfolding fold_kind fold_file
fold_kind-Keyed (EventKind.file op flags) ev pid cwd s h =
    elim (Bool-cases (is_device (normalize_path ev.path cwd))) [
      | inl y ↦ rw y h
      | inr d ↦ rw d (
          fold_op-Keyed op (succeeded ev) (normalize_path ev.path cwd)
            (destination (succeeded ev) ev.aux cwd) pid s h)
    ]
fold_kind-Keyed (EventKind.registry RegistryOp.query_value k) ev pid cwd s h = h
fold_kind-Keyed (EventKind.env EnvOp.read) ev pid cwd s h = h
fold_kind-Keyed (EventKind.env EnvOp.block_read) ev pid cwd s h = h
fold_kind-Keyed (EventKind.registry RegistryOp.open_key k) ev pid cwd s h = h
fold_kind-Keyed (EventKind.process op c) ev pid cwd s h = h
fold_kind-Keyed (EventKind.unknown c op) ev pid cwd s h = h

fold_events-Keyed :
    (pid : ℕ) (cwd : Text) (evs : List Event) (s : Folding)
    → Keyed s.acc.inputs
    → Keyed (fold_events pid cwd evs s).acc.inputs
unfolding fold_events
fold_events-Keyed pid cwd [] s h = h
fold_events-Keyed pid cwd (ev ∷ evs) s h =
    fold_events-Keyed pid cwd evs (fold_kind ev.kind ev pid cwd s)
      (fold_kind-Keyed ev.kind ev pid cwd s h)

fold_trace-Keyed :
    (acc : Accumulator) (t : Trace) → Keyed acc.inputs → Keyed (fold_trace acc t).inputs
unfolding fold_trace
fold_trace-Keyed acc t h = elim (Bool-cases (is_telemetry t)) [
  | inl y ↦ rw y h
  | inr y ↦ rw y (fold_events-Keyed t.pid t.cwd t.events (record { acc = acc; produced = [] }) h)
]

pub fold_traces-Keyed :
    (acc : Accumulator) (ts : List Trace) → Keyed acc.inputs → Keyed (fold_traces acc ts).inputs
unfolding fold_traces
fold_traces-Keyed acc [] h = h
fold_traces-Keyed acc (t ∷ ts) h =
    fold_traces-Keyed (fold_trace acc t) ts (fold_trace-Keyed acc t h)
