-- ===== src/Tracer/Graph/Made.antt =====
-- crates/tracer/src/graph.rs: the outputs of the graph are paths that some process wrote, made, or renamed a file to.
use sembazuru.Base.{
  ℕ, ◌≡◌, refl, ap, Bool, true, false, not, ◌&&◌, inl, inr, List, [], ◌∷◌, ◌++◌, Option, none, some,
  All, Bool-cases, Option-cases, arith,
}
use sembazuru.Base.Texts.{same, eq_of_same}
use sembazuru.Base.Assoc.{text_eq, lookup, insert, remove}
use sembazuru.Cas.Fingerprint.{listed}
use sembazuru.Tracer.Model.{
  FileOp, RegistryOp, EnvOp, EventKind, Event, succeeded, Trace, AccessKind,
}
use sembazuru.Tracer.Paths.{Text, normalize_path}
use sembazuru.Tracer.Logical.{any}
use sembazuru.Tracer.Graph.{
  PathAccess, PathMap, Accumulator, touched, add_path, without, is_nil, dropped,
  remove_path_for_pid, is_device,
}
use sembazuru.Tracer.Graph.Fold.{
  Folding, destination, removed, renamed_away, arrived, fold_op, fold_file, fold_kind, fold_events,
  is_telemetry, fold_trace, fold_traces,
}
use sembazuru.Tracer.Graph.Own.{makes_dst, makes, makes_event, makes_any}

-- Whether an operation leaves a path that passes the test as an output.
unfoldable pub leaves_dst : (Text → Bool) → Option Text → Bool
leaves_dst test none = false
leaves_dst test (some d) = test d

unfoldable pub leaves : (Text → Bool) → FileOp → Text → Option Text → Bool
unfolding leaves_dst
leaves test FileOp.open_read_write norm dst = test norm
leaves test FileOp.open_write norm dst = test norm
leaves test FileOp.create_dir norm dst = test norm
leaves test FileOp.move norm dst = leaves_dst test dst
leaves test _ norm dst = false

unfoldable pub leaves_event : (Text → Bool) → Text → Event → EventKind → Bool
unfolding leaves is_device normalize_path succeeded
leaves_event test cwd ev (EventKind.file op flags) =
    not (is_device (normalize_path ev.path cwd))
    && leaves test op (normalize_path ev.path cwd) (destination (succeeded ev) ev.aux cwd)
leaves_event test cwd ev _ = false

abbrev pub leaves_trace : (Text → Bool) → Trace → Bool
leaves_trace test t = any (λ (ev : Event). leaves_event test t.cwd ev ev.kind) t.events

-- Some process of the build, other than its telemetry, leaves such a path.
abbrev pub leaves_any : (Text → Bool) → List Trace → Bool
leaves_any test ts = any (λ (t : Trace). not (is_telemetry t) && leaves_trace test t) ts

module _ (test : Text → Bool) where
  -- No path of the map passes the test.
  abbrev pub Free : PathMap → Type 0
  Free m = All (λ (e : Text × PathAccess). test e.1.path ≡ false) m

  insert-Free :
      (k : Text) (v : PathAccess) (m : PathMap) → test v.path ≡ false → Free m → Free (insert k v m)
  unfolding insert
  insert-Free k v [] e h = (e, tt)
  insert-Free k v ((j, w) ∷ m) e h = elim (Bool-cases (same j k)) [
    | inl y ↦ rw y (e, h.1)
    | inr n ↦ rw n (h.0, insert-Free k v m e h.1)
  ]

  remove-Free : (k : Text) (m : PathMap) → Free m → Free (remove k m)
  unfolding remove
  remove-Free k [] h = tt
  remove-Free k ((j, w) ∷ m) h = elim (Bool-cases (same j k)) [
    | inl y ↦ rw y h.1
    | inr n ↦ rw n (h.0, remove-Free k m h.1)
  ]

  Free-lookup :
      (k : Text) (m : PathMap) {e : PathAccess} → Free m → lookup k m ≡ some e → test e.path ≡ false
  unfolding lookup
  Free-lookup k [] h q = absurd cc
  Free-lookup k ((j, w) ∷ m) {e} h q = elim (Bool-cases (same j k)) [
    | inl y ↦ (let r : some w ≡ some e = rw y at q in cc h.0)
    | inr n ↦ Free-lookup k m h.1 (rw n at q)
  ]

  add_path-Free :
      (m : PathMap) (norm : Text) (kind : AccessKind) (pid : ℕ)
      → test norm ≡ false
      → Free m
      → Free (add_path m norm kind pid)
  unfolding add_path
  add_path-Free m norm kind pid new h =
      insert-Free norm (touched kind pid norm (lookup norm m)) m
        (elim (Option-cases (lookup norm m)) [
          | inl n ↦ rw n new
          | inr (a, e) ↦ rw e (Free-lookup norm m h e)
        ])
        h

  dropped-Free :
      (m : PathMap) (norm : Text) (pid : ℕ) (o : Option PathAccess)
      → lookup norm m ≡ o
      → Free m
      → Free (dropped m norm pid o)
  unfolding dropped
  dropped-Free m norm pid none q h = h
  dropped-Free m norm pid (some e) q h = elim (Bool-cases (is_nil (without pid e.pids))) [
    | inl y ↦ rw y (remove-Free norm m h)
    | inr y ↦
        rw y
          (insert-Free norm (record e { pids = without pid e.pids }) m (Free-lookup norm m h q) h)
  ]

  remove_path-Free :
      (m : PathMap) (norm : Text) (pid : ℕ) → Free m → Free (remove_path_for_pid m norm pid)
  unfolding remove_path_for_pid
  remove_path-Free m norm pid h = dropped-Free m norm pid (lookup norm m) refl h

  renamed-Free :
      (ok : Bool) (norm : Text) (pid : ℕ) (s : Folding)
      → Free s.acc.outputs
      → Free (renamed_away ok norm pid s).acc.outputs
  renamed-Free ok norm pid s h = elim (Bool-cases (ok && listed s.produced norm)) [
    | inl y ↦ rw y (remove_path-Free s.acc.outputs norm pid h)
    | inr y ↦ rw y h
  ]

  removed-Free :
      (ok : Bool) (norm : Text) (pid : ℕ) (s : Folding)
      → Free s.acc.outputs
      → Free (removed ok norm pid s).acc.outputs
  removed-Free ok norm pid s h = elim (Bool-cases (ok && listed s.produced norm)) [
    | inl y ↦ rw y (remove_path-Free s.acc.outputs norm pid h)
    | inr y ↦ rw y h
  ]

  arrived-Free :
      (dst : Option Text) (pid : ℕ) (s : Folding)
      → leaves_dst test dst ≡ false
      → Free s.acc.outputs
      → Free (arrived dst pid s).acc.outputs
  unfolding leaves_dst
  arrived-Free none pid s l h = h
  arrived-Free (some d) pid s l h = add_path-Free s.acc.outputs d AccessKind.write pid l h

  fold_op-Free :
      (op : FileOp) (ok : Bool) (norm : Text) (dst : Option Text) (pid : ℕ) (s : Folding)
      → leaves test op norm dst ≡ false
      → Free s.acc.outputs
      → Free (fold_op op ok norm dst pid s).acc.outputs
  unfolding fold_op leaves
  fold_op-Free FileOp.open_read ok norm dst pid s l h = h
  fold_op-Free FileOp.open_read_write ok norm dst pid s l h =
      add_path-Free s.acc.outputs norm AccessKind.write pid l h
  fold_op-Free FileOp.open_write ok norm dst pid s l h =
      add_path-Free s.acc.outputs norm AccessKind.write pid l h
  fold_op-Free FileOp.probe ok norm dst pid s l h = h
  fold_op-Free FileOp.enumerate ok norm dst pid s l h = h
  fold_op-Free FileOp.delete ok norm dst pid s l h = removed-Free ok norm pid s h
  fold_op-Free FileOp.move ok norm dst pid s l h =
      arrived-Free dst pid _ l (renamed-Free ok norm pid s h)
  fold_op-Free FileOp.create_dir ok norm dst pid s l h =
      add_path-Free s.acc.outputs norm AccessKind.write pid l h
  fold_op-Free FileOp.remove_dir ok norm dst pid s l h = removed-Free ok norm pid s h

  fold_kind-Free :
      (kind : EventKind) (ev : Event) (pid : ℕ) (cwd : Text) (s : Folding)
      → leaves_event test cwd ev kind ≡ false
      → Free s.acc.outputs
      → Free (fold_kind kind ev pid cwd s).acc.outputs
  unfolding fold_kind fold_file leaves_event
  fold_kind-Free (EventKind.file op flags) ev pid cwd s l h =
      elim (Bool-cases (is_device (normalize_path ev.path cwd))) [
        | inl y ↦ rw y h
        | inr d ↦ rw d (
            fold_op-Free op (succeeded ev) (normalize_path ev.path cwd)
              (destination (succeeded ev) ev.aux cwd) pid s (rw d at l) h)
      ]
  fold_kind-Free (EventKind.registry RegistryOp.query_value k) ev pid cwd s l h = h
  fold_kind-Free (EventKind.env EnvOp.read) ev pid cwd s l h = h
  fold_kind-Free (EventKind.env EnvOp.block_read) ev pid cwd s l h = h
  fold_kind-Free (EventKind.registry RegistryOp.open_key k) ev pid cwd s l h = h
  fold_kind-Free (EventKind.process op c) ev pid cwd s l h = h
  fold_kind-Free (EventKind.unknown c op) ev pid cwd s l h = h

  fold_events-Free :
      (pid : ℕ) (cwd : Text) (evs : List Event) (s : Folding)
      → any (λ (ev : Event). leaves_event test cwd ev ev.kind) evs ≡ false
      → Free s.acc.outputs
      → Free (fold_events pid cwd evs s).acc.outputs
  unfolding fold_events any
  fold_events-Free pid cwd [] s l h = h
  fold_events-Free pid cwd (ev ∷ evs) s l h =
      let now : leaves_event test cwd ev ev.kind ≡ false = ground arith in
      let later : any (λ (e : Event). leaves_event test cwd e e.kind) evs ≡ false = ground arith in
      fold_events-Free pid cwd evs (fold_kind ev.kind ev pid cwd s) later
        (fold_kind-Free ev.kind ev pid cwd s now h)

  fold_trace-Free :
      (acc : Accumulator) (t : Trace)
      → (not (is_telemetry t) && leaves_trace test t) ≡ false
      → Free acc.outputs
      → Free (fold_trace acc t).outputs
  unfolding fold_trace
  fold_trace-Free acc t l h = elim (Bool-cases (is_telemetry t)) [
    | inl y ↦ rw y h
    | inr y ↦
        rw y (
          fold_events-Free t.pid t.cwd t.events (record { acc = acc; produced = [] }) (rw y at l) h)
  ]

  -- No output of the graph passes a test that no path passes which a process leaves.
  pub fold_traces-Free :
      (acc : Accumulator) (ts : List Trace)
      → leaves_any test ts ≡ false
      → Free acc.outputs
      → Free (fold_traces acc ts).outputs
  unfolding fold_traces any
  fold_traces-Free acc [] l h = h
  fold_traces-Free acc (t ∷ ts) l h =
      let now : (not (is_telemetry t) && leaves_trace test t) ≡ false = ground arith in
      let later : leaves_any test ts ≡ false = ground arith in
      fold_traces-Free (fold_trace acc t) ts later (fold_trace-Free acc t now h)

  -- A process that leaves no such path marks none as produced.
  module _ (p : Text) (passes : test p ≡ true) where
    other_path : (norm : Text) → test norm ≡ false → same norm p ≡ false
    other_path norm l = elim (Bool-cases (same norm p)) [
      | inl y ↦ absurd (cc (ap test (eq_of_same norm p y), l, passes))
      | inr n ↦ n
    ]

    leaves-makes :
        (op : FileOp) (norm : Text) (dst : Option Text)
        → leaves test op norm dst ≡ false
        → makes op norm dst p ≡ false
    unfolding leaves leaves_dst makes makes_dst
    leaves-makes FileOp.open_read norm dst l = refl
    leaves-makes FileOp.open_read_write norm dst l = other_path norm l
    leaves-makes FileOp.open_write norm dst l = other_path norm l
    leaves-makes FileOp.probe norm dst l = refl
    leaves-makes FileOp.enumerate norm dst l = refl
    leaves-makes FileOp.delete norm dst l = refl
    leaves-makes FileOp.move norm none l = refl
    leaves-makes FileOp.move norm (some d) l = other_path d l
    leaves-makes FileOp.create_dir norm dst l = other_path norm l
    leaves-makes FileOp.remove_dir norm dst l = refl

    leaves-makes_event :
        (cwd : Text) (ev : Event) (kind : EventKind)
        → leaves_event test cwd ev kind ≡ false
        → makes_event cwd ev kind p ≡ false
    unfolding leaves_event makes_event
    leaves-makes_event cwd ev (EventKind.file op flags) l =
        elim (Bool-cases (is_device (normalize_path ev.path cwd))) [
          | inl y ↦ rw y refl
          | inr d ↦ rw d (
              leaves-makes op (normalize_path ev.path cwd) (destination (succeeded ev) ev.aux cwd)
                (rw d at l))
        ]
    leaves-makes_event cwd ev _ l = refl

    pub leaves-makes_any :
        (cwd : Text) (evs : List Event)
        → any (λ (ev : Event). leaves_event test cwd ev ev.kind) evs ≡ false
        → makes_any cwd p evs ≡ false
    unfolding any
    leaves-makes_any cwd [] l = refl
    leaves-makes_any cwd (ev ∷ evs) l =
        let now : leaves_event test cwd ev ev.kind ≡ false = ground arith in
        let later : any (λ (e : Event). leaves_event test cwd e e.kind) evs ≡ false =
          ground arith in
        ground (arith, leaves-makes_event cwd ev ev.kind now, leaves-makes_any cwd evs later)

-- A process of the build leaves no such path where the build leaves none.
pub leaves-trace :
    (test : Text → Bool) (before : List Trace) (t : Trace) (after : List Trace)
    → is_telemetry t ≡ false
    → leaves_any test (before ++ (t ∷ after)) ≡ false
    → leaves_trace test t ≡ false
unfolding any
leaves-trace test [] t after e l =
    let now : (not (is_telemetry t) && leaves_trace test t) ≡ false = ground arith in rw e at now
leaves-trace test (b ∷ bs) t after e l =
    let rest : leaves_any test (bs ++ (t ∷ after)) ≡ false = ground arith in
    leaves-trace test bs t after e rest
