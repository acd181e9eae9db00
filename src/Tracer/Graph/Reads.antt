-- ===== src/Tracer/Graph/Reads.antt =====
-- crates/tracer/src/graph.rs: the reads of every process reach the inputs of the graph.
use sembazuru.Base.{
  ℕ, ◌≡◌, ◌≢◌, refl, Bool, true, false, not, ◌&&◌, inl, inr, List, [], ◌∷◌, ◌++◌, Option, none,
  some, All, Bool-cases, both_true, eq_false_of_not, arith,
}
use sembazuru.Base.Texts.{eq_of_same}
use sembazuru.Cas.Fingerprint.{listed}
use sembazuru.Tracer.Model.{FileOp, RegistryOp, EnvOp, EventKind, Event, succeeded, Trace}
use sembazuru.Tracer.Paths.{Text, normalize_path}
use sembazuru.Tracer.Logical.{any}
use sembazuru.Tracer.Graph.{Accumulator, is_device}
use sembazuru.Tracer.Graph.Fold.{
  Folding, destination, removed, renamed_away, arrived, fold_op, fold_file, fold_kind, fold_events,
  is_telemetry, fold_trace, fold_traces,
}
use sembazuru.Tracer.Graph.Inputs.{HasRead, added_read, add_path-HasRead, remove_path-HasRead}
use sembazuru.Tracer.Graph.Own.{makes_event, reads_event, makes_any, reads_any, fold_events-Stays}
use sembazuru.Tracer.Graph.Unproduced.{fold_kind-unproduced}

-- A read that succeeded puts its path among the inputs.
read_event_added :
    (kind : EventKind) (ev : Event) (pid : ℕ) (cwd p : Text) (s : Folding)
    → reads_event cwd ev kind p ≡ true
    → HasRead pid p (fold_kind kind ev pid cwd s).acc.inputs
unfolding fold_kind fold_file fold_op reads_event
read_event_added (EventKind.file FileOp.open_read flags) ev pid cwd p s h =
    let (ok, rest) = both_true (succeeded ev) _ h in
    let (d, at) = both_true (not (is_device (normalize_path ev.path cwd))) _ rest in
    let file : is_device (normalize_path ev.path cwd) ≡ false = eq_false_of_not _ d in
    rw (file, ok, eq_of_same (normalize_path ev.path cwd) p at) (added_read pid p s.acc.inputs)
read_event_added _ ev pid cwd p s h = cc

read_any-Stays :
    (pid : ℕ) (cwd p : Text) (evs : List Event) (s : Folding)
    → reads_any cwd p evs ≡ true
    → makes_any cwd p evs ≡ false
    → listed s.produced p ≡ false
    → HasRead pid p (fold_events pid cwd evs s).acc.inputs
unfolding fold_events any
read_any-Stays pid cwd p [] s r n h = cc
read_any-Stays pid cwd p (ev ∷ evs) s r n h =
    let now : makes_event cwd ev ev.kind p ≡ false = ground arith in
    let later : makes_any cwd p evs ≡ false = ground arith in
    let free = fold_kind-unproduced ev.kind ev pid cwd p s now h in
    elim (Bool-cases (reads_event cwd ev ev.kind p)) [
      | inl y ↦
          (fold_events-Stays pid cwd p evs (fold_kind ev.kind ev pid cwd s) later (record {
            has_read = read_event_added ev.kind ev pid cwd p s y;
            unproduced = free;
          })).has_read
      | inr y ↦
          read_any-Stays pid cwd p evs (fold_kind ev.kind ev pid cwd s) (ground arith) later free
    ]

-- Another process takes no read away.

module _ (q pid : ℕ) (p : Text) (other : q ≢ pid) where
  renamed_other :
      (ok : Bool) (norm : Text) (s : Folding)
      → HasRead pid p s.acc.inputs
      → HasRead pid p (renamed_away ok norm q s).acc.inputs
  renamed_other ok norm s h = elim (Bool-cases (ok && listed s.produced norm)) [
    | inl y ↦ rw y (remove_path-HasRead pid q p norm s.acc.inputs (inr other) h)
    | inr n ↦ rw n h
  ]

  removed_other :
      (ok : Bool) (norm : Text) (s : Folding)
      → HasRead pid p s.acc.inputs
      → HasRead pid p (removed ok norm q s).acc.inputs
  removed_other ok norm s h = elim (Bool-cases (ok && listed s.produced norm)) [
    | inl y ↦ rw y h
    | inr n ↦ rw n h
  ]

  arrived_other :
      (dst : Option Text) (s : Folding)
      → HasRead pid p s.acc.inputs
      → HasRead pid p (arrived dst q s).acc.inputs
  arrived_other none s h = h
  arrived_other (some d) s h = h

  fold_op_other :
      (op : FileOp) (ok : Bool) (norm : Text) (dst : Option Text) (s : Folding)
      → HasRead pid p s.acc.inputs
      → HasRead pid p (fold_op op ok norm dst q s).acc.inputs
  unfolding fold_op
  fold_op_other FileOp.open_read ok norm dst s h = add_path-HasRead pid q p norm _ s.acc.inputs h
  fold_op_other FileOp.open_read_write ok norm dst s h =
      add_path-HasRead pid q p norm _ s.acc.inputs h
  fold_op_other FileOp.open_write ok norm dst s h = h
  fold_op_other FileOp.probe ok norm dst s h = add_path-HasRead pid q p norm _ s.acc.inputs h
  fold_op_other FileOp.enumerate ok norm dst s h = add_path-HasRead pid q p norm _ s.acc.inputs h
  fold_op_other FileOp.delete ok norm dst s h = removed_other ok norm s h
  fold_op_other FileOp.move ok norm dst s h = arrived_other dst _ (renamed_other ok norm s h)
  fold_op_other FileOp.create_dir ok norm dst s h = h
  fold_op_other FileOp.remove_dir ok norm dst s h = removed_other ok norm s h

  fold_kind_other :
      (kind : EventKind) (ev : Event) (cwd : Text) (s : Folding)
      → HasRead pid p s.acc.inputs
      → HasRead pid p (fold_kind kind ev q cwd s).acc.inputs
  unfolding fold_kind fold_file
  fold_kind_other (EventKind.file op flags) ev cwd s h =
      elim (Bool-cases (is_device (normalize_path ev.path cwd))) [
        | inl y ↦ rw y h
        | inr d ↦ rw d (
            fold_op_other op (succeeded ev) (normalize_path ev.path cwd)
              (destination (succeeded ev) ev.aux cwd) s h)
      ]
  fold_kind_other (EventKind.registry RegistryOp.query_value k) ev cwd s h = h
  fold_kind_other (EventKind.env EnvOp.read) ev cwd s h = h
  fold_kind_other (EventKind.env EnvOp.block_read) ev cwd s h = h
  fold_kind_other (EventKind.registry RegistryOp.open_key k) ev cwd s h = h
  fold_kind_other (EventKind.process op c) ev cwd s h = h
  fold_kind_other (EventKind.unknown c op) ev cwd s h = h

  fold_events_other :
      (cwd : Text) (evs : List Event) (s : Folding)
      → HasRead pid p s.acc.inputs
      → HasRead pid p (fold_events q cwd evs s).acc.inputs
  unfolding fold_events
  fold_events_other cwd [] s h = h
  fold_events_other cwd (ev ∷ evs) s h =
      fold_events_other cwd evs (fold_kind ev.kind ev q cwd s) (fold_kind_other ev.kind ev cwd s h)

fold_trace_other :
    (pid : ℕ) (p : Text) (acc : Accumulator) (t : Trace)
    → t.pid ≢ pid
    → HasRead pid p acc.inputs
    → HasRead pid p (fold_trace acc t).inputs
unfolding fold_trace
fold_trace_other pid p acc t n h = elim (Bool-cases (is_telemetry t)) [
  | inl y ↦ rw y h
  | inr y ↦
      rw y (fold_events_other t.pid pid p n t.cwd t.events (record { acc = acc; produced = [] }) h)
]

fold_traces_others :
    (pid : ℕ) (p : Text) (acc : Accumulator) (ts : List Trace)
    → All (λ (t : Trace). t.pid ≢ pid) ts
    → HasRead pid p acc.inputs
    → HasRead pid p (fold_traces acc ts).inputs
unfolding fold_traces
fold_traces_others pid p acc [] n h = h
fold_traces_others pid p acc (t ∷ ts) n h =
    fold_traces_others pid p (fold_trace acc t) ts n.1 (fold_trace_other pid p acc t n.0 h)

fold_trace_read :
    (acc : Accumulator) (t : Trace) (p : Text)
    → is_telemetry t ≡ false
    → reads_any t.cwd p t.events ≡ true
    → makes_any t.cwd p t.events ≡ false
    → HasRead t.pid p (fold_trace acc t).inputs
unfolding fold_trace
fold_trace_read acc t p e r n = rw e (
    read_any-Stays t.pid t.cwd p t.events (record { acc = acc; produced = [] }) r n
      (unfold listed in refl))

-- A file that a process opened for reading, with success, and itself marked as produced nowhere, is among the inputs of
-- the graph as read by that process, whatever the processes folded before and after it did, if these have other ids.
pub read_reaches_inputs :
    (before : List Trace) (t : Trace) (after : List Trace) (acc : Accumulator) (p : Text)
    → is_telemetry t ≡ false
    → reads_any t.cwd p t.events ≡ true
    → makes_any t.cwd p t.events ≡ false
    → All (λ (u : Trace). u.pid ≢ t.pid) after
    → HasRead t.pid p (fold_traces acc (before ++ (t ∷ after))).inputs
unfolding fold_traces
read_reaches_inputs [] t after acc p e r n o =
    fold_traces_others t.pid p (fold_trace acc t) after o (fold_trace_read acc t p e r n)
read_reaches_inputs (b ∷ bs) t after acc p e r n o =
    read_reaches_inputs bs t after (fold_trace acc b) p e r n o
