-- ===== src/Tracer/Graph/Lost.antt =====
-- crates/tracer/src/graph.rs: an input that fold_file drops at a rename.
use sembazuru.Base.{
  ℕ, ◌≡◌, refl, ap, ◌∙◌, Bool, true, false, List, [], ◌∷◌, Option, none, some, ◌==◌, arith,
}
use sembazuru.Base.Texts.{same_refl}
use sembazuru.Base.Assoc.{
  text_eq, lookup, insert, Distinct, lookup-insert_self, insert-Distinct, lookup-remove_self,
}
use sembazuru.Cas.Fingerprint.{listed}
use sembazuru.Tracer.Model.{FileOp, EventKind, Event, succeeded, AccessKind}
use sembazuru.Tracer.Paths.{Text, normalize_path}
use sembazuru.Tracer.Graph.{
  without, PathMap, Accumulator, touched, add_path, dropped, remove_path_for_pid, is_device,
}
use sembazuru.Tracer.Graph.Fold.{
  Folding, destination, arrived, fold_op, fold_file, fold_kind, fold_events,
}

abbrev pub file_event : FileOp → Text → Text → ℕ → Event
file_event op path aux status = record {
  kind = EventKind.file op 0;
  status = status;
  tid = 0;
  qpc = 0;
  path = path;
  aux = aux;
}

without_only : (pid : ℕ) → without pid (pid ∷ []) ≡ []
unfolding without
without_only pid = ground arith

-- What one read put in, a removal for the same process takes out.
taken_out :
    (m : PathMap) (p : Text) (pid : ℕ)
    → Distinct m
    → lookup p m ≡ none
    → lookup p (remove_path_for_pid (add_path m p AccessKind.read pid) p pid) ≡ none
unfolding add_path remove_path_for_pid dropped
taken_out m p pid d h =
    rw (h, lookup-insert_self p (touched AccessKind.read pid p none) m, without_only pid)
      (lookup-remove_self p (insert p (touched AccessKind.read pid p none) m)
        (insert-Distinct p (touched AccessKind.read pid p none) m d))

arrived-inputs :
    (dst : Option Text) (pid : ℕ) (s : Folding) → (arrived dst pid s).acc.inputs ≡ s.acc.inputs
arrived-inputs none pid s = refl
arrived-inputs (some d) pid s = refl

fold_at :
    (pid : ℕ) (op : FileOp) (path aux cwd : Text) (status : ℕ) (s : Folding)
    → is_device (normalize_path path cwd) ≡ false
    → fold_file pid op (file_event op path aux status) cwd s
      ≡ fold_op op (status == 0) (normalize_path path cwd) (destination (status == 0) aux cwd) pid s
unfolding fold_file succeeded
fold_at pid op path aux cwd status s d = rw d refl

listed_head : (p : Text) (ps : List Text) → listed (p ∷ ps) p ≡ true
unfolding listed
listed_head p ps = rw (same_refl p) refl

-- The fold of a read, a write and a rename of one path.
three :
    (pid : ℕ) (p : Text) (first second dst : Option Text) (ok : Bool) (acc : Accumulator)
    → Distinct acc.inputs
    → lookup p acc.inputs ≡ none
    → lookup p
        (fold_op FileOp.move true p dst pid (
          fold_op FileOp.open_write ok p second pid (
            fold_op FileOp.open_read true p first pid
              (record { acc = acc; produced = [] })))).acc.inputs
      ≡ none
unfolding fold_op
three pid p first second dst ok acc d h =
    ap (lookup p) (arrived-inputs dst pid _)
    ∙ rw (listed_head p []) (taken_out acc.inputs p pid d h)

-- A path that a process first read, then opened for writing, whatever came of that, and then renamed with success is not
-- among the inputs, if no process folded before had put it there.
pub read_lost_at_rename :
    (pid : ℕ) (cwd path aux : Text) (status : ℕ) (acc : Accumulator)
    → is_device (normalize_path path cwd) ≡ false
    → Distinct acc.inputs
    → lookup (normalize_path path cwd) acc.inputs ≡ none
    → lookup
        (normalize_path path cwd)
        (fold_events pid cwd
          (file_event FileOp.open_read path [] 0
            ∷ file_event FileOp.open_write path [] status
            ∷ file_event FileOp.move path aux 0
            ∷ [])
          (record { acc = acc; produced = [] })).acc.inputs
      ≡ none
unfolding fold_events fold_kind
read_lost_at_rename pid cwd path aux status acc file d h =
    let p = normalize_path path cwd in
    rw
      (
        fold_at pid FileOp.open_read path [] cwd 0 (record { acc = acc; produced = [] }) file,
        fold_at pid FileOp.open_write path [] cwd status _ file,
        fold_at pid FileOp.move path aux cwd 0 _ file,
      )
      (three pid p (destination true [] cwd) (destination (status == 0) [] cwd) _ (status == 0) acc
        d h)
