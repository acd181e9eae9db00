-- ===== src/Tracer/Graph/Inputs.antt =====
-- crates/tracer/src/graph.rs: a read among the inputs, under what is added and removed.
use sembazuru.Base.{
  ℕ, ◌≡◌, ◌≢◌, refl, sym, ap, subst, ◌∙◌, true, false, ◌⊎◌, inl, inr, List, [], ◌∷◌, Option, none,
  some, Bool-cases, Option-cases, arith,
}
use sembazuru.Base.Texts.{same, same_refl, eq_of_same}
use sembazuru.Base.Assoc.{
  text_eq, lookup, insert, lookup-insert_self, lookup-insert_ne, lookup-remove_ne,
}
use sembazuru.Tracer.Model.{AccessKind}
use sembazuru.Tracer.Paths.{Text}
use sembazuru.Tracer.Graph.{
  same_kind, has_kind, has_pid, put_kind, put_pid, without, PathAccess, PathMap, touched, add_path,
  is_nil, dropped, remove_path_for_pid,
}

-- The map says that the process read the path.
pub record HasRead (pid : ℕ) (p : Text) (m : PathMap) : Type 0 where
  pub entry : PathAccess
  pub found : lookup p m ≡ some entry
  pub reads : has_kind AccessKind.read entry.kinds ≡ true
  pub by : has_pid pid entry.pids ≡ true

same_kind_refl : (k : AccessKind) → same_kind k k ≡ true
unfolding same_kind
same_kind_refl AccessKind.read = refl
same_kind_refl AccessKind.write = refl
same_kind_refl AccessKind.probe = refl
same_kind_refl AccessKind.probe_miss = refl
same_kind_refl AccessKind.enumerate = refl
same_kind_refl AccessKind.delete = refl
same_kind_refl AccessKind.move = refl

put_kind_self : (k : AccessKind) (ks : List AccessKind) → has_kind k (put_kind k ks) ≡ true
unfolding has_kind
put_kind_self k ks = ground (arith, same_kind_refl k)

put_kind_keeps :
    (k j : AccessKind) (ks : List AccessKind)
    → has_kind k ks ≡ true
    → has_kind k (put_kind j ks) ≡ true
unfolding has_kind
put_kind_keeps k j ks h = ground arith

put_pid_self : (p : ℕ) (ps : List ℕ) → has_pid p (put_pid p ps) ≡ true
unfolding has_pid
put_pid_self p ps = ground arith

put_pid_keeps : (p q : ℕ) (ps : List ℕ) → has_pid p ps ≡ true → has_pid p (put_pid q ps) ≡ true
unfolding has_pid
put_pid_keeps p q ps h = ground arith

without_keeps :
    (p q : ℕ) (ps : List ℕ) → q ≢ p → has_pid p ps ≡ true → has_pid p (without q ps) ≡ true
unfolding has_pid without
without_keeps p q [] n h = cc
without_keeps p q (r ∷ rs) n h = ground (arith, without_keeps p q rs n)

has_pid-is_nil : (p : ℕ) (ps : List ℕ) → has_pid p ps ≡ true → is_nil ps ≡ false
unfolding has_pid
has_pid-is_nil p [] h = cc
has_pid-is_nil p (q ∷ qs) h = refl

-- A read that is added is there.
pub added_read :
    (pid : ℕ) (p : Text) (m : PathMap) → HasRead pid p (add_path m p AccessKind.read pid)
unfolding add_path
added_read pid p m = elim (Option-cases (lookup p m)) [
  | inl e ↦ record {
    entry = touched AccessKind.read pid p (lookup p m);
    found = lookup-insert_self p _ m;
    reads = rw e (unfold has_kind in (rw (same_kind_refl AccessKind.read) refl));
    by = rw e (unfold has_pid in (ground arith));
  }
  | inr (a, e) ↦ record {
    entry = touched AccessKind.read pid p (lookup p m);
    found = lookup-insert_self p _ m;
    reads = rw e (put_kind_self AccessKind.read a.kinds);
    by = rw e (put_pid_self pid a.pids);
  }
]

-- What is added to the map takes no read away.
pub add_path-HasRead :
    (pid q : ℕ) (p norm : Text) (kind : AccessKind) (m : PathMap)
    → HasRead pid p m
    → HasRead pid p (add_path m norm kind q)
unfolding add_path
add_path-HasRead pid q p norm kind m h = elim (Bool-cases (same norm p)) [
  | inl y ↦
      let e : norm ≡ p = eq_of_same norm p y in
      record {
        entry = touched kind q norm (some h.entry);
        found = rw e (
            ap (λ (o : Option PathAccess). lookup p (insert p (touched kind q p o) m)) h.found
            ∙ lookup-insert_self p _ m);
        reads = put_kind_keeps AccessKind.read kind h.entry.kinds h.reads;
        by = put_pid_keeps pid q h.entry.pids h.by;
      }
  | inr n ↦ record {
    entry = h.entry;
    found =
        lookup-insert_ne norm p _ m (λ e. cc (n, ap (λ (r : Text). same r p) e, same_refl p))
        ∙ h.found;
    reads = h.reads;
    by = h.by;
  }
]

dropped-lookup_ne :
    (m : PathMap) (norm p : Text) (q : ℕ) (o : Option PathAccess)
    → norm ≢ p
    → lookup p (dropped m norm q o) ≡ lookup p m
unfolding dropped
dropped-lookup_ne m norm p q none n = refl
dropped-lookup_ne m norm p q (some e) n = elim (Bool-cases (is_nil (without q e.pids))) [
  | inl y ↦ rw y (lookup-remove_ne norm p m n)
  | inr y ↦ rw y (lookup-insert_ne norm p _ m n)
]

dropped_other :
    (pid q : ℕ) (p : Text) (m : PathMap) (e : PathAccess)
    → q ≢ pid
    → has_kind AccessKind.read e.kinds ≡ true
    → has_pid pid e.pids ≡ true
    → HasRead pid p (dropped m p q (some e))
unfolding dropped
dropped_other pid q p m e n r b =
    let b' = without_keeps pid q e.pids n b in
    rw (has_pid-is_nil pid (without q e.pids) b') (record {
      entry = record e { pids = without q e.pids };
      found = lookup-insert_self p _ m;
      reads = r;
      by = b';
    })

-- A removal takes a read away only if it is for the same path and the same process.
pub remove_path-HasRead :
    (pid q : ℕ) (p norm : Text) (m : PathMap)
    → (norm ≢ p) ⊎ (q ≢ pid)
    → HasRead pid p m
    → HasRead pid p (remove_path_for_pid m norm q)
unfolding remove_path_for_pid
remove_path-HasRead pid q p norm m (inl n) h = record {
  entry = h.entry;
  found = dropped-lookup_ne m norm p q (lookup norm m) n ∙ h.found;
  reads = h.reads;
  by = h.by;
}
remove_path-HasRead pid q p norm m (inr n) h = elim (Bool-cases (same norm p)) [
  | inl y ↦
      subst (λ (r : Text). HasRead pid p (dropped m r q (lookup r m))) (sym (eq_of_same norm p y))
        (subst (λ (o : Option PathAccess). HasRead pid p (dropped m p q o)) (sym h.found)
          (dropped_other pid q p m h.entry n h.reads h.by))
  | inr y ↦ record {
    entry = h.entry;
    found =
        dropped-lookup_ne m norm p q (lookup norm m)
          (λ e. cc (y, ap (λ (r : Text). same r p) e, same_refl p))
        ∙ h.found;
    reads = h.reads;
    by = h.by;
  }
]
