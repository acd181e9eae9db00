-- ===== src/Agent/Tracker/Living.antt =====
-- An attempt that has not ended stays in the table.
use mathlib.Core.Logic.{inl, inr}
use sembazuru.Base.{
  ℕ, ◌≡◌, refl, sym, ap, ◌∙◌, subst, Bool, true, false, List, [], ◌∷◌, Option, none, some, ltb,
  length, Bool-cases,
}
use sembazuru.Base.Assoc.{lookup, remove, lookup-insert, lookup-remove}
use sembazuru.Blake3.{Blake3}
use sembazuru.Agent.Tracker.{
  AttemptKey, same_key, eq_of_same_key, key_eq, ExecutionKind, AttemptRecord, LaneAllocator,
  TrackerState, is_terminal, max_activity_attempts, bounded_id,
}
use sembazuru.Agent.Tracker.Attempts.{
  prune_locked, prune_from, make_room, roomy, admitted, begin_attempt, new_record, outlived,
  finished_of,
}
use sembazuru.Agent.Tracker.Invariant.{
  Sound, TrackerSound, over, times, times_self, over_true, remove-Sound,
}
use sembazuru.Agent.Tracker.Steps.{prune_from-Sound}

module _ (lanes : List (List ℕ × LaneAllocator)) where
  pub head_over :
      (m : List (AttemptKey × AttemptRecord)) (order : List AttemptKey) (k : AttemptKey)
      → Sound m (k ∷ order) lanes
      → over (lookup k m) ≡ true
  head_over m order k f =
      over_true (over (lookup k m)) (times k order) (sym (times_self k order) ∙ f.ended_once k)

  removed_living :
      (m : List (AttemptKey × AttemptRecord)) (order : List AttemptKey) (k j : AttemptKey)
      (r : AttemptRecord)
      → Sound m (k ∷ order) lanes
      → lookup j m ≡ some r
      → is_terminal r.state ≡ false
      → lookup j (remove k m) ≡ some r
  removed_living m order k j r f was alive =
      lookup-remove k j m f.attempts ∙ elim (Bool-cases (same_key k j)) [
        | inl e ↦
            let ended : is_terminal r.state ≡ true =
              ap over (sym was)
              ∙ subst (λ (i : AttemptKey). over (lookup i m) ≡ true) (eq_of_same_key k j e)
                  (head_over m order k f) in
            absurd cc
        | inr e ↦ rw e was
      ]

  prune_from_living :
      (m : List (AttemptKey × AttemptRecord)) (order : List AttemptKey) (now : ℕ) (j : AttemptKey)
      (r : AttemptRecord)
      → Sound m order lanes
      → lookup j m ≡ some r
      → is_terminal r.state ≡ false
      → lookup j (prune_from m order now).0 ≡ some r
  unfolding prune_from
  prune_from_living m [] now j r f was alive = was
  prune_from_living m (k ∷ ks) now j r f was alive =
      elim (Bool-cases (outlived now (finished_of (lookup k m)))) [
        | inl e ↦ rw e (
            prune_from_living (remove k m) ks now j r (remove-Sound m ks lanes k f)
              (removed_living m ks k j r f was alive) alive)
        | inr e ↦ rw e was
      ]

  make_room_living :
      (m : List (AttemptKey × AttemptRecord)) (order : List AttemptKey) (j : AttemptKey)
      (r : AttemptRecord)
      → Sound m order lanes
      → lookup j m ≡ some r
      → is_terminal r.state ≡ false
      → lookup j (make_room m order).0.0 ≡ some r
  unfolding make_room
  make_room_living m [] j r f was alive = was
  make_room_living m (k ∷ ks) j r f was alive =
      elim (Bool-cases (ltb (length m) max_activity_attempts)) [
        | inl e ↦ rw e was
        | inr e ↦ rw e (
            make_room_living (remove k m) ks j r (remove-Sound m ks lanes k f)
              (removed_living m ks k j r f was alive) alive)
      ]

roomy_living :
    (s : TrackerState) (key j : AttemptKey) (r q : AttemptRecord)
    (room : (List (AttemptKey × AttemptRecord) × List AttemptKey) × Bool)
    → lookup j room.0.0 ≡ some r
    → same_key key j ≡ false
    → lookup j (roomy s key q room).0.attempts ≡ some r
unfolding roomy
roomy_living s key j r q ((m, order), false) was ne = was
roomy_living s key j r q ((m, order), true) was ne = rw (lookup-insert key j q m, ne) was

admitted_living :
    (s : TrackerState) (key j : AttemptKey) (r q : AttemptRecord) (o : Option AttemptRecord)
    → TrackerSound s
    → o ≡ lookup key s.attempts
    → lookup j s.attempts ≡ some r
    → is_terminal r.state ≡ false
    → lookup j (admitted s key q o).0.attempts ≡ some r
unfolding admitted
admitted_living s key j r q (some _) f h was alive = was
admitted_living s key j r q none f h was alive =
    roomy_living s key j r q (make_room s.attempts s.terminal_order)
      (make_room_living s.worker_lanes s.attempts s.terminal_order j r f was alive)
      (elim (Bool-cases (same_key key j)) [
        | inl e ↦
            let same_place : lookup key s.attempts ≡ lookup j s.attempts =
              ap (λ (i : AttemptKey). lookup i s.attempts) (eq_of_same_key key j e) in
            absurd cc
        | inr e ↦ e
      ])

-- A new attempt, entered or refused, leaves each attempt that has not ended as it is, however full the table is.
pub begin_attempt_living :
    (b3 : Blake3) (s : TrackerState) (action_id : List ℕ) (attempt_no : ℕ)
    → (worker_id : List ℕ) → (kind : ExecutionKind) → (display : List ℕ) → (now : ℕ)
    → (j : AttemptKey) → (r : AttemptRecord) → TrackerSound s
    → lookup j s.attempts ≡ some r
    → is_terminal r.state ≡ false
    → lookup j (begin_attempt b3 s action_id attempt_no worker_id kind display now).0.attempts
      ≡ some r
unfolding begin_attempt prune_locked
begin_attempt_living b3 s action_id attempt_no worker_id kind display now j r f was alive =
    let pruned : TrackerState = prune_locked s now in
    let key : AttemptKey = record {
      action_id = bounded_id b3 action_id;
      attempt_no = attempt_no;
    } in
    admitted_living pruned key j r (new_record b3 worker_id kind display now)
      (lookup key pruned.attempts)
      (prune_from-Sound s.attempts s.terminal_order s.worker_lanes now f) refl
      (prune_from_living s.worker_lanes s.attempts s.terminal_order now j r f was alive) alive
