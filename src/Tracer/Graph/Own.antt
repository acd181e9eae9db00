-- ===== src/Tracer/Graph/Own.antt =====
-- crates/tracer/src/graph.rs: the reads of a process stay among the inputs while it folds its own events.
use sembazuru.Base.{
  ℕ, ◌≡◌, refl, sym, ap, subst, ◌∙◌, Bool, false, not, ◌&&◌, inl, inr, List, [], ◌∷◌, Option, none,
  some, if◌then◌else◌, Bool-cases, arith,
}
use sembazuru.Base.Texts.{same}
use sembazuru.Base.Assoc.{text_eq}
use sembazuru.Cas.Fingerprint.{listed}
use sembazuru.Tracer.Model.{FileOp, RegistryOp, EnvOp, EventKind, Event, succeeded}
use sembazuru.Tracer.Paths.{Text, normalize_path}
use sembazuru.Tracer.Logical.{any}
use sembazuru.Tracer.Graph.{is_device}
use sembazuru.Tracer.Graph.Fold.{
  Folding, destination, removed, renamed_away, arrived, fold_op, fold_file, fold_kind, fold_events,
}
use sembazuru.Tracer.Graph.Inputs.{HasRead, add_path-HasRead, remove_path-HasRead}

-- The path that an operation marks as produced.
unfoldable pub makes_dst : Option Text → Text → Bool
makes_dst none p = false
makes_dst (some dst) p = same dst p

unfoldable pub makes : FileOp → Text → Option Text → Text → Bool
unfolding makes_dst
makes FileOp.open_write norm dst p = same norm p
makes FileOp.open_read_write norm dst p = same norm p
makes FileOp.create_dir norm dst p = same norm p
makes FileOp.move norm dst p = makes_dst dst p
makes _ norm dst p = false

unfoldable pub makes_event : Text → Event → EventKind → Text → Bool
unfolding makes
makes_event cwd ev (EventKind.file op flags) p =
    let norm = normalize_path ev.path cwd in
    if is_device norm then false else makes op norm (destination (succeeded ev) ev.aux cwd) p
makes_event cwd ev _ p = false

-- The event is a read of the path that succeeded.
unfoldable pub reads_event : Text → Event → EventKind → Text → Bool
reads_event cwd ev (EventKind.file FileOp.open_read flags) p =
    succeeded ev
    && (not (is_device (normalize_path ev.path cwd)) && same (normalize_path ev.path cwd) p)
reads_event cwd ev _ p = false

-- The read is there, and the path is not among those that the trace produced.
pub record Stays (pid : ℕ) (p : Text) (s : Folding) : Type 0 where
  pub has_read : HasRead pid p s.acc.inputs
  pub unproduced : listed s.produced p ≡ false

renamed-Stays :
    (ok : Bool) (norm : Text) (pid : ℕ) (p : Text) (s : Folding)
    → Stays pid p s
    → Stays pid p (renamed_away ok norm pid s)
renamed-Stays ok norm pid p s h = elim (Bool-cases (ok && listed s.produced norm)) [
  | inl y ↦ rw y (record {
    has_read =
        remove_path-HasRead pid pid p norm s.acc.inputs
          (inl (λ e. ground (arith, y, ap (listed s.produced) e, h.unproduced))) h.has_read;
    unproduced = h.unproduced;
  })
  | inr n ↦ rw n h
]

removed-Stays :
    (ok : Bool) (norm : Text) (pid : ℕ) (p : Text) (s : Folding)
    → Stays pid p s
    → Stays pid p (removed ok norm pid s)
removed-Stays ok norm pid p s h = elim (Bool-cases (ok && listed s.produced norm)) [
  | inl y ↦ rw y (record { has_read = h.has_read; unproduced = h.unproduced })
  | inr n ↦ rw n h
]

pub produced_more :
    (d : Text) (ps : List Text) (p : Text)
    → same d p ≡ false
    → listed ps p ≡ false
    → listed (d ∷ ps) p ≡ false
unfolding listed
produced_more d ps p n h = rw n h

arrived-Stays :
    (dst : Option Text) (pid : ℕ) (p : Text) (s : Folding)
    → makes_dst dst p ≡ false
    → Stays pid p s
    → Stays pid p (arrived dst pid s)
unfolding makes_dst
arrived-Stays none pid p s n h = h
arrived-Stays (some d) pid p s n h = record {
  has_read = h.has_read;
  unproduced = produced_more d s.produced p n h.unproduced;
}

fold_op-Stays :
    (op : FileOp) (ok : Bool) (norm : Text) (dst : Option Text) (pid : ℕ) (p : Text) (s : Folding)
    → makes op norm dst p ≡ false
    → Stays pid p s
    → Stays pid p (fold_op op ok norm dst pid s)
unfolding fold_op makes
fold_op-Stays FileOp.open_read ok norm dst pid p s n h = record {
  has_read = add_path-HasRead pid pid p norm _ s.acc.inputs h.has_read;
  unproduced = h.unproduced;
}
fold_op-Stays FileOp.open_read_write ok norm dst pid p s n h = record {
  has_read = add_path-HasRead pid pid p norm _ s.acc.inputs h.has_read;
  unproduced = produced_more norm s.produced p n h.unproduced;
}
fold_op-Stays FileOp.open_write ok norm dst pid p s n h = record {
  has_read = h.has_read;
  unproduced = produced_more norm s.produced p n h.unproduced;
}
fold_op-Stays FileOp.probe ok norm dst pid p s n h = record {
  has_read = add_path-HasRead pid pid p norm _ s.acc.inputs h.has_read;
  unproduced = h.unproduced;
}
fold_op-Stays FileOp.enumerate ok norm dst pid p s n h = record {
  has_read = add_path-HasRead pid pid p norm _ s.acc.inputs h.has_read;
  unproduced = h.unproduced;
}
fold_op-Stays FileOp.delete ok norm dst pid p s n h =
    let k = removed-Stays ok norm pid p s h in
    record { has_read = k.has_read; unproduced = k.unproduced }
fold_op-Stays FileOp.move ok norm dst pid p s n h =
    let k = renamed-Stays ok norm pid p s h in
    arrived-Stays dst pid p _ n (record { has_read = k.has_read; unproduced = k.unproduced })
fold_op-Stays FileOp.create_dir ok norm dst pid p s n h = record {
  has_read = h.has_read;
  unproduced = produced_more norm s.produced p n h.unproduced;
}
fold_op-Stays FileOp.remove_dir ok norm dst pid p s n h =
    let k = removed-Stays ok norm pid p s h in
    record { has_read = k.has_read; unproduced = k.unproduced }

fold_file-Stays :
    (pid : ℕ) (op : FileOp) (flags : ℕ) (ev : Event) (cwd p : Text) (s : Folding)
    → makes_event cwd ev (EventKind.file op flags) p ≡ false
    → Stays pid p s
    → Stays pid p (fold_file pid op ev cwd s)
unfolding fold_file makes_event
fold_file-Stays pid op flags ev cwd p s n h =
    elim (Bool-cases (is_device (normalize_path ev.path cwd))) [
      | inl y ↦ rw y h
      | inr d ↦ rw d (
          fold_op-Stays op (succeeded ev) (normalize_path ev.path cwd)
            (destination (succeeded ev) ev.aux cwd) pid p s (rw d at n) h)
    ]

same_lists :
    (pid : ℕ) (p : Text) (s t : Folding)
    → t.acc.inputs ≡ s.acc.inputs
    → t.produced ≡ s.produced
    → Stays pid p s
    → Stays pid p t
same_lists pid p s t e f h = record {
  has_read = subst (HasRead pid p) (sym e) h.has_read;
  unproduced = ap (λ (l : List Text). listed l p) f ∙ h.unproduced;
}

fold_kind-Stays :
    (kind : EventKind) (ev : Event) (pid : ℕ) (cwd p : Text) (s : Folding)
    → makes_event cwd ev kind p ≡ false
    → Stays pid p s
    → Stays pid p (fold_kind kind ev pid cwd s)
unfolding fold_kind
fold_kind-Stays (EventKind.file op flags) ev pid cwd p s n h =
    fold_file-Stays pid op flags ev cwd p s n h
fold_kind-Stays (EventKind.registry RegistryOp.query_value k) ev pid cwd p s n h =
    same_lists pid p s _ refl refl h
fold_kind-Stays (EventKind.env EnvOp.read) ev pid cwd p s n h = same_lists pid p s _ refl refl h
fold_kind-Stays (EventKind.env EnvOp.block_read) ev pid cwd p s n h =
    same_lists pid p s _ refl refl h
fold_kind-Stays (EventKind.registry RegistryOp.open_key k) ev pid cwd p s n h = h
fold_kind-Stays (EventKind.process op c) ev pid cwd p s n h = h
fold_kind-Stays (EventKind.unknown c op) ev pid cwd p s n h = h

-- No event of the list marks the path as produced.
abbrev pub makes_any : Text → Text → List Event → Bool
makes_any cwd p evs = any (λ (ev : Event). makes_event cwd ev ev.kind p) evs

abbrev pub reads_any : Text → Text → List Event → Bool
reads_any cwd p evs = any (λ (ev : Event). reads_event cwd ev ev.kind p) evs

pub fold_events-Stays :
    (pid : ℕ) (cwd p : Text) (evs : List Event) (s : Folding)
    → makes_any cwd p evs ≡ false
    → Stays pid p s
    → Stays pid p (fold_events pid cwd evs s)
unfolding fold_events any
fold_events-Stays pid cwd p [] s n h = h
fold_events-Stays pid cwd p (ev ∷ evs) s n h =
    fold_events-Stays pid cwd p evs (fold_kind ev.kind ev pid cwd s) (ground arith)
      (fold_kind-Stays ev.kind ev pid cwd p s (ground arith) h)
