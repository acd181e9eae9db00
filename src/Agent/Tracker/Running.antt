-- ===== src/Agent/Tracker/Running.antt =====
-- The lanes when an attempt starts to run, and when one that runs ends.
use mathlib.Core.Logic.{inl, inr}
use sembazuru.Base.{
  ℕ, suc, ◌+◌, ◌≤◌, ◌≡◌, refl, ap, subst, Bool, true, false, ◌&&◌, List, ◌==◌, length, Bool-cases,
  arith,
}
use sembazuru.Base.Texts.{same, same_refl, eq_of_same}
use sembazuru.Base.Assoc.{text_eq, lookup, insert, lookup-insert_ne, lookup-insert_self, ne_of_beq}
use sembazuru.Base.Totals.{total, total-insert, total-le-length}
use sembazuru.Agent.Tracker.{
  AttemptKey, key_eq, AttemptRecord, LaneAllocator, running, same_state, allocate_lane, pop_lane,
  max_activity_attempts, or_default,
}
use sembazuru.Agent.Tracker.Lanes.{bit, Fits, Fits-eq, Popped, pop_lane-Fits}
use sembazuru.Agent.Tracker.Invariant.{
  runs_on, holds_lane, LanesFit, busy, idle-runs_on, idle-holds_lane, bit-once,
}

module _ (m : List (AttemptKey × AttemptRecord)) (lanes : List (List ℕ × LaneAllocator))
    (k : AttemptKey) (r : AttemptRecord) (cap : length (insert k r m) ≤ max_activity_attempts)
    (f : LanesFit m lanes) (before : busy (lookup k m) ≡ false)
    (runs : same_state r.state running ≡ true) where
  more_runs :
      (w : List ℕ)
      → total (runs_on w) (insert k r m) ≡ total (runs_on w) m + bit (same r.worker_id w)
  more_runs w = omega (
    arith,
    total-insert (runs_on w) k r m,
    idle-runs_on w (lookup k m) before,
    ap (λ (b : Bool). bit (b && same r.worker_id w)) runs,
  )

  more_holds :
      (w : List ℕ) (l : ℕ)
      → total (holds_lane w l) (insert k r m)
        ≡ total (holds_lane w l) m + bit (same r.worker_id w && r.lane_index == l)
  more_holds w l = omega (
    arith,
    total-insert (holds_lane w l) k r m,
    idle-holds_lane w l (lookup k m) before,
    ap (λ (b : Bool). bit ((b && same r.worker_id w) && r.lane_index == l)) runs,
  )

  room : total (runs_on r.worker_id) m + 1 ≤ max_activity_attempts
  room = omega (
    arith,
    cap,
    total-le-length (runs_on r.worker_id) (insert k r m)
        (λ q. bit-once (same_state q.state running && same q.worker_id r.worker_id)),
    more_runs r.worker_id,
    ap bit (same_refl r.worker_id),
  )

  abbrev popped : ℕ × LaneAllocator
  popped =
      pop_lane (or_default (lookup r.worker_id lanes))
        (or_default (lookup r.worker_id lanes)).free_lanes

  own-Popped :
      Popped
        (total (runs_on r.worker_id) m)
        (λ l. total (holds_lane r.worker_id l) m)
        popped.0
        popped.1
  own-Popped =
      pop_lane-Fits (total (runs_on r.worker_id) m) (λ l. total (holds_lane r.worker_id l) m)
        (or_default (lookup r.worker_id lanes)) (or_default (lookup r.worker_id lanes)).free_lanes
        refl room (f r.worker_id)

  own-Fits :
      r.lane_index ≡ popped.0
      → Fits
          (total (runs_on r.worker_id) (insert k r m))
          (λ l. total (holds_lane r.worker_id l) (insert k r m))
          popped.1
  own-Fits lane =
      Fits-eq (suc (total (runs_on r.worker_id) m)) (total (runs_on r.worker_id) (insert k r m))
        (λ l. total (holds_lane r.worker_id l) m + bit (popped.0 == l))
        (λ l. total (holds_lane r.worker_id l) (insert k r m)) popped.1
        (omega (arith, more_runs r.worker_id, ap bit (same_refl r.worker_id)))
        (λ l. omega (
          arith,
          more_holds r.worker_id l,
          ap (λ (b : Bool). bit (b && r.lane_index == l)) (same_refl r.worker_id),
          ap (λ (x : ℕ). bit (x == l)) lane,
        ))
        own-Popped.after_fits

  other-Fits :
      (w : List ℕ)
      → same r.worker_id w ≡ false
      → Fits
          (total (runs_on w) (insert k r m))
          (λ l. total (holds_lane w l) (insert k r m))
          (or_default (lookup w lanes))
  other-Fits w ne =
      Fits-eq (total (runs_on w) m) (total (runs_on w) (insert k r m))
        (λ l. total (holds_lane w l) m) (λ l. total (holds_lane w l) (insert k r m))
        (or_default (lookup w lanes)) (omega (arith, more_runs w, ap bit ne))
        (λ l. omega (arith, more_holds w l, ap (λ (b : Bool). bit (b && r.lane_index == l)) ne))
        (f w)

  -- An attempt that starts to run takes a lane of its worker.
  pub started-LanesFit :
      r.lane_index ≡ (allocate_lane lanes r.worker_id).0
      → LanesFit (insert k r m) (allocate_lane lanes r.worker_id).1
  unfolding allocate_lane
  started-LanesFit lane w = elim (Bool-cases (same r.worker_id w)) [
    | inl e ↦
        subst
          (λ (v : List ℕ).
            Fits (total (runs_on v) (insert k r m)) (λ l. total (holds_lane v l) (insert k r m))
              (or_default (lookup v (insert r.worker_id popped.1 lanes))))
          (eq_of_same r.worker_id w e)
          (rw (lookup-insert_self r.worker_id popped.1 lanes) (own-Fits lane))
    | inr e ↦
        rw (lookup-insert_ne r.worker_id w popped.1 lanes (ne_of_beq r.worker_id w e))
          (other-Fits w e)
  ]

  pub allocate_lane_positive : 1 ≤ (allocate_lane lanes r.worker_id).0
  unfolding allocate_lane
  allocate_lane_positive = own-Popped.one
