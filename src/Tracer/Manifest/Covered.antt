-- ===== src/Tracer/Manifest/Covered.antt =====
-- crates/tracer/src/action_key.rs: what the manifest of a cacheable action covers.
use mathlib.Core.List.{Memᴰ}
use mathlib.Core.List.Memᴰ
use sembazuru.Tracer.Manifest.Allowed.{Allowed, cacheable-Allowed}
use sembazuru.Base.Texts.{same, same_refl}
use sembazuru.Base.Assoc.{text_eq}
use sembazuru.Tracer.Graph.Made.{Free, leaves_any, leaves-trace, leaves-makes_any, fold_traces-Free}
use sembazuru.Base.{
  Bool, map, ◌≡◌, ◌≢◌, refl, sym, ap, subst, ◌∙◌, true, false, not, inl, inr, List, [], ◌∷◌, ◌++◌,
  Option, none, some, All, Bool-cases, both_true, eq_false_of_not,
}
use sembazuru.Cas.Fingerprint.{listed}
use sembazuru.Tracer.Model.{Trace, AccessKind}
use sembazuru.Tracer.Paths.{Text, relativize}
use sembazuru.Tracer.Logical.{any}
use sembazuru.Tracer.Graph.{PathAccess, PathMap, has_kind, empty_accumulator}
use sembazuru.Tracer.Graph.Fold.{is_telemetry, fold_traces}
use sembazuru.Tracer.Graph.Inputs.{HasRead}
use sembazuru.Tracer.Graph.Own.{reads_any, makes_any}
use sembazuru.Tracer.Graph.Reads.{read_reaches_inputs}
use sembazuru.Tracer.Graph.Keyed.{lookup-Memᴰ, Keyed-lookup, fold_traces-Keyed}
use sembazuru.Tracer.Manifest.{
  DependencyGraph, values, assembled, ReadOutcome, InputKind, content, absent, bytes, not_found,
  failed, Disk, InputEntry, SideEffectPolicy, is_cache_blocking_warning, anchor, is_content_read,
  logical_outputs, Classified, skipped, entered, blocked, unreadable, classify_read,
  classify_anchored, classify_input, noted, passes, entries, all_pass, input_manifest_with_policy,
}

-- What the entry of a file says of it: it had a content, or was absent.
abbrev pub kind_for : ReadOutcome → InputKind
kind_for (bytes b) = content
kind_for _ = absent

-- How a file that was read enters the key: it is an output of the action, a directory, or an entry of the manifest.
pub data Covered (disk : Disk) (root : Text) (outputs : List Text) (path : Text)
    (found : List InputEntry) : Type 0 where
  an_output : listed outputs (relativize path root) ≡ true → Covered disk root outputs path found
  a_directory :
      (a : Text)
      → anchor root path ≡ some a
      → disk.is_dir a ≡ true
      → Covered disk root outputs path found
  keyed :
      (e : InputEntry)
      → e.logical ≡ relativize path root
      → anchor root path ≡ some e.absolute
      → e.kind ≡ kind_for (disk.read e.absolute)
      → Memᴰ e found
      → Covered disk root outputs path found

later :
    {disk : Disk} {root : Text} {outputs : List Text} {path : Text} {found : List InputEntry}
    (c : Classified)
    → Covered disk root outputs path found
    → Covered disk root outputs path (noted c found)
later skipped h = h
later (entered e) (an_output o) = an_output o
later (entered e) (a_directory a q d) = a_directory a q d
later (entered e) (keyed f l q k m) = keyed f l q k (Memᴰ.tail m)
later blocked h = h

module _ (disk : Disk) (root : Text) (outputs : List Text) (inp : PathAccess)
    (found : List InputEntry) where
  unreadable-Covered :
      (a : Text)
      → anchor root inp.path ≡ some a
      → kind_for (disk.read a) ≡ absent
      → passes (unreadable disk inp (relativize inp.path root) a) ≡ true
      → Covered disk root outputs inp.path
          (noted (unreadable disk inp (relativize inp.path root) a) found)
  unreadable-Covered a q k p = elim (Bool-cases (disk.is_dir a)) [
    | inl d ↦ a_directory a q d
    | inr d ↦ elim (Bool-cases (has_kind AccessKind.probe_miss inp.kinds)) [
      | inl m ↦ rw (d, m) (keyed _ refl q (sym k) (Memᴰ.head refl))
      | inr m ↦ absurd (let no : false ≡ true = rw (d, m) at p in cc no)
    ]
  ]

  read-Covered :
      (a : Text) (o : ReadOutcome)
      → anchor root inp.path ≡ some a
      → disk.read a ≡ o
      → passes (classify_read disk inp (relativize inp.path root) a o) ≡ true
      → Covered disk root outputs inp.path
          (noted (classify_read disk inp (relativize inp.path root) a o) found)
  unfolding classify_read
  read-Covered a (bytes b) q r p = keyed _ refl q (sym (ap kind_for r)) (Memᴰ.head refl)
  read-Covered a not_found q r p = unreadable-Covered a q (ap kind_for r) p
  read-Covered a failed q r p = unreadable-Covered a q (ap kind_for r) p

  anchored-Covered :
      (o : Option Text)
      → anchor root inp.path ≡ o
      → is_content_read inp ≡ true
      → passes (classify_anchored disk inp (relativize inp.path root) o) ≡ true
      → Covered disk root outputs inp.path
          (noted (classify_anchored disk inp (relativize inp.path root) o) found)
  unfolding classify_anchored
  anchored-Covered none q r p = absurd (let no : false ≡ true = rw r at p in cc no)
  anchored-Covered (some a) q r p = read-Covered a (disk.read a) q refl p

  input-Covered :
      is_content_read inp ≡ true
      → passes (classify_input disk root outputs inp) ≡ true
      → Covered disk root outputs inp.path (noted (classify_input disk root outputs inp) found)
  unfolding classify_input
  input-Covered r p = elim (Bool-cases (listed outputs (relativize inp.path root))) [
    | inl y ↦ an_output y
    | inr n ↦ rw n (anchored-Covered (anchor root inp.path) refl r (rw n at p))
  ]

entries-Covered :
    (disk : Disk) (root : Text) (outputs : List Text) (is : List PathAccess) (inp : PathAccess)
    → Memᴰ inp is
    → is_content_read inp ≡ true
    → all_pass disk root outputs is ≡ true
    → Covered disk root outputs inp.path (entries disk root outputs is)
unfolding entries all_pass
entries-Covered disk root outputs [] inp m r p = absurd (Memᴰ.not-nil m)
entries-Covered disk root outputs (i ∷ is) inp (Memᴰ.head e) r p =
    subst
      (λ (x : PathAccess). Covered disk root outputs x.path (entries disk root outputs (i ∷ is)))
      (sym e)
      (input-Covered disk root outputs i (entries disk root outputs is)
        (ap is_content_read (sym e) ∙ r)
        (both_true (passes (classify_input disk root outputs i)) _ p).0)
entries-Covered disk root outputs (i ∷ is) inp (Memᴰ.tail m) r p =
    later (classify_input disk root outputs i) (
      entries-Covered disk root outputs is inp m r
        (both_true (passes (classify_input disk root outputs i)) _ p).1)

pub cacheable_covers :
    (disk : Disk) (graph : DependencyGraph) (root : Text) (policy : SideEffectPolicy)
    (inp : PathAccess)
    → (input_manifest_with_policy disk graph root policy).cacheable ≡ true
    → Memᴰ inp graph.inputs
    → is_content_read inp ≡ true
    → Covered disk root
        (logical_outputs graph root)
        inp.path
        (input_manifest_with_policy disk graph root policy).inputs
      × Allowed policy graph
unfolding input_manifest_with_policy
cacheable_covers disk graph root policy inp c m r =
    let (quiet, rest) = both_true (not (any is_cache_blocking_warning graph.warnings)) _ c in
    let (pass, allowed) =
      both_true (all_pass disk root (logical_outputs graph root) graph.inputs) _ rest in
    (
      entries-Covered disk root (logical_outputs graph root) graph.inputs inp m r pass,
      cacheable-Allowed policy graph (eq_false_of_not _ quiet) allowed,
    )

values-Memᴰ : (k : Text) (e : PathAccess) (m : PathMap) → Memᴰ (k, e) m → Memᴰ e (values m)
values-Memᴰ k e [] h = absurd (Memᴰ.not-nil h)
values-Memᴰ k e ((j, w) ∷ m) (Memᴰ.head q) = Memᴰ.head (ap (λ (x : Text × PathAccess). x.1) q)
values-Memᴰ k e ((j, w) ∷ m) (Memᴰ.tail h) = Memᴰ.tail (values-Memᴰ k e m h)

-- The entry of the manifest for a path: its place, and whether it has a content there.
pub record Entered (disk : Disk) (root path : Text) (found : List InputEntry) : Type 0 where
  pub entry : InputEntry
  pub named : entry.logical ≡ relativize path root
  pub placed : anchor root path ≡ some entry.absolute
  pub kind : entry.kind ≡ kind_for (disk.read entry.absolute)
  pub member : Memᴰ entry found

Covered-Entered :
    {disk : Disk} {root : Text} {outputs : List Text} {path : Text} {found : List InputEntry}
    → Covered disk root outputs path found
    → listed outputs (relativize path root) ≡ false
    → ((a : Text) → anchor root path ≡ some a → disk.is_dir a ≡ false)
    → Entered disk root path found
Covered-Entered (an_output o) l d = absurd cc
Covered-Entered (a_directory a q y) l d = absurd (cc (d a q, y))
Covered-Entered (keyed e n q k m) l d = record {
  entry = e;
  named = n;
  placed = q;
  kind = k;
  member = m;
}

-- Whether a path has the logical name of the other.
abbrev pub namesake : Text → Text → Text → Bool
namesake root p q = same (relativize q root) (relativize p root)

Free-outputs :
    (root p : Text) (m : PathMap)
    → Free (namesake root p) m
    → listed (map (λ (o : PathAccess). relativize o.path root) (values m)) (relativize p root)
      ≡ false
unfolding listed
Free-outputs root p [] h = refl
Free-outputs root p ((k, e) ∷ m) h = rw h.0 (Free-outputs root p m h.1)

-- From the traces to the key: a file that a process opened for reading, with success, has an entry in the manifest of the
-- action, under its logical name, at the place to which the root anchors it, and as having a content exactly when
-- that place can be read; if the process is not one of telemetry, the action is cacheable, no process but those of
-- telemetry opened for writing, made, or renamed a file to a path of this logical name, the place is no directory, and
-- the processes folded later have other ids.
pub traced_read_covered :
    (disk : Disk) (command_lines warnings : List Text) (before : List Trace) (t : Trace)
    (after : List Trace) (root : Text) (policy : SideEffectPolicy) (p : Text)
    → is_telemetry t ≡ false
    → reads_any t.cwd p t.events ≡ true
    → leaves_any (namesake root p) (before ++ (t ∷ after)) ≡ false
    → All (λ (u : Trace). u.pid ≢ t.pid) after
    → ((a : Text) → anchor root p ≡ some a → disk.is_dir a ≡ false)
    → (input_manifest_with_policy disk
        (assembled command_lines warnings (fold_traces empty_accumulator (before ++ (t ∷ after))))
        root
        policy).cacheable
      ≡ true
    → Entered disk root p
        (input_manifest_with_policy disk
          (assembled command_lines warnings (fold_traces empty_accumulator (before ++ (t ∷ after))))
          root
          policy).inputs
unfolding assembled logical_outputs
traced_read_covered disk command_lines warnings before t after root policy p e r n o d c =
    let acc = fold_traces empty_accumulator (before ++ (t ∷ after)) in
    let own : makes_any t.cwd p t.events ≡ false =
      leaves-makes_any (namesake root p) p (same_refl (relativize p root)) t.cwd t.events
        (leaves-trace (namesake root p) before t after e n) in
    let h : HasRead t.pid p acc.inputs =
      read_reaches_inputs before t after empty_accumulator p e r own o in
    let at : h.entry.path ≡ p =
      Keyed-lookup p acc.inputs (fold_traces-Keyed empty_accumulator (before ++ (t ∷ after)) tt)
        h.found in
    let graph : DependencyGraph = assembled command_lines warnings acc in
    let covered : Covered disk root (logical_outputs graph root) h.entry.path
        (input_manifest_with_policy disk graph root policy).inputs =
      (cacheable_covers disk graph root policy h.entry c
        (values-Memᴰ p h.entry acc.inputs (lookup-Memᴰ p acc.inputs h.found)) h.reads).0 in
    Covered-Entered
      (subst
        (λ (q : Text).
          Covered disk root (logical_outputs graph root) q
            (input_manifest_with_policy disk graph root policy).inputs)
        at covered)
      (Free-outputs root p acc.outputs
        (fold_traces-Free (namesake root p) empty_accumulator (before ++ (t ∷ after)) n tt))
      d
