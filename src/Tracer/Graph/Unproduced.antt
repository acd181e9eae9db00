-- ===== src/Tracer/Graph/Unproduced.antt =====
-- crates/tracer/src/graph.rs: a path that no event marks as produced is not among those produced.
use sembazuru.Base.{
  ℕ, ◌≡◌, refl, ap, ◌∙◌, Bool, false, ◌&&◌, inl, inr, List, Option, none, some, Bool-cases,
}
use sembazuru.Base.Assoc.{text_eq}
use sembazuru.Cas.Fingerprint.{listed}
use sembazuru.Tracer.Model.{FileOp, RegistryOp, EnvOp, EventKind, Event, succeeded}
use sembazuru.Tracer.Paths.{Text, normalize_path}
use sembazuru.Tracer.Graph.{is_device}
use sembazuru.Tracer.Graph.Fold.{
  Folding, destination, removed, renamed_away, arrived, fold_op, fold_file, fold_kind,
}
use sembazuru.Tracer.Graph.Own.{makes_dst, makes, makes_event, produced_more}

removed-produced :
    (ok : Bool) (norm : Text) (pid : ℕ) (s : Folding)
    → (removed ok norm pid s).produced ≡ s.produced
removed-produced ok norm pid s = elim (Bool-cases (ok && listed s.produced norm)) [
  | inl y ↦ rw y refl
  | inr y ↦ rw y refl
]

renamed-produced :
    (ok : Bool) (norm : Text) (pid : ℕ) (s : Folding)
    → (renamed_away ok norm pid s).produced ≡ s.produced
renamed-produced ok norm pid s = elim (Bool-cases (ok && listed s.produced norm)) [
  | inl y ↦ rw y refl
  | inr y ↦ rw y refl
]

arrived-unproduced :
    (dst : Option Text) (pid : ℕ) (p : Text) (s : Folding)
    → makes_dst dst p ≡ false
    → listed s.produced p ≡ false
    → listed (arrived dst pid s).produced p ≡ false
unfolding makes_dst
arrived-unproduced none pid p s n h = h
arrived-unproduced (some d) pid p s n h = produced_more d s.produced p n h

fold_op-unproduced :
    (op : FileOp) (ok : Bool) (norm : Text) (dst : Option Text) (pid : ℕ) (p : Text) (s : Folding)
    → makes op norm dst p ≡ false
    → listed s.produced p ≡ false
    → listed (fold_op op ok norm dst pid s).produced p ≡ false
unfolding fold_op makes
fold_op-unproduced FileOp.open_read ok norm dst pid p s n h = h
fold_op-unproduced FileOp.open_read_write ok norm dst pid p s n h =
    produced_more norm s.produced p n h
fold_op-unproduced FileOp.open_write ok norm dst pid p s n h = produced_more norm s.produced p n h
fold_op-unproduced FileOp.probe ok norm dst pid p s n h = h
fold_op-unproduced FileOp.enumerate ok norm dst pid p s n h = h
fold_op-unproduced FileOp.delete ok norm dst pid p s n h =
    ap (λ (l : List Text). listed l p) (removed-produced ok norm pid s) ∙ h
fold_op-unproduced FileOp.move ok norm dst pid p s n h =
    arrived-unproduced dst pid p _ n
      (ap (λ (l : List Text). listed l p) (renamed-produced ok norm pid s) ∙ h)
fold_op-unproduced FileOp.create_dir ok norm dst pid p s n h = produced_more norm s.produced p n h
fold_op-unproduced FileOp.remove_dir ok norm dst pid p s n h =
    ap (λ (l : List Text). listed l p) (removed-produced ok norm pid s) ∙ h

pub fold_kind-unproduced :
    (kind : EventKind) (ev : Event) (pid : ℕ) (cwd p : Text) (s : Folding)
    → makes_event cwd ev kind p ≡ false
    → listed s.produced p ≡ false
    → listed (fold_kind kind ev pid cwd s).produced p ≡ false
unfolding fold_kind fold_file makes_event
fold_kind-unproduced (EventKind.file op flags) ev pid cwd p s n h =
    elim (Bool-cases (is_device (normalize_path ev.path cwd))) [
      | inl y ↦ rw y h
      | inr d ↦ rw d (
          fold_op-unproduced op (succeeded ev) (normalize_path ev.path cwd)
            (destination (succeeded ev) ev.aux cwd) pid p s (rw d at n) h)
    ]
fold_kind-unproduced (EventKind.registry RegistryOp.query_value k) ev pid cwd p s n h = h
fold_kind-unproduced (EventKind.env EnvOp.read) ev pid cwd p s n h = h
fold_kind-unproduced (EventKind.env EnvOp.block_read) ev pid cwd p s n h = h
fold_kind-unproduced (EventKind.registry RegistryOp.open_key k) ev pid cwd p s n h = h
fold_kind-unproduced (EventKind.process op c) ev pid cwd p s n h = h
fold_kind-unproduced (EventKind.unknown c op) ev pid cwd p s n h = h
