-- ===== src/Agent/Tracker/Ending.antt =====
-- The lanes when an attempt that runs ends: its lane is free again, and a worker with none active is forgotten.
use mathlib.Core.Logic.{inl, inr, ◌≢◌}
use sembazuru.Base.{
  ℕ, suc, ◌+◌, ◌≤◌, ◌≡◌, refl, sym, ap, subst, Bool, true, false, ◌&&◌, List, Option, none, some,
  ◌==◌, Bool-cases, Option-cases, ==_iff, arith,
}
use sembazuru.Base.Texts.{same, same_refl, eq_of_same}
use sembazuru.Base.Assoc.{
  text_eq, lookup, insert, Distinct, lookup-insert_ne, lookup-insert_self, lookup-remove_ne,
  lookup-remove_self, insert-Distinct, remove-Distinct, ne_of_beq,
}
use sembazuru.Base.Totals.{total, total_replaced, total_mono}
use sembazuru.Agent.Tracker.{
  AttemptKey, key_eq, AttemptRecord, LaneAllocator, running, same_state, release_lane, released,
  freed, or_default,
}
use sembazuru.Agent.Tracker.Lanes.{bit, Fits, Fits-eq, freed-Fits, default-Fits}
use sembazuru.Agent.Tracker.Invariant.{
  runs_on, holds_lane, LanesFit, busy, idle-runs_on, idle-holds_lane,
}

pub bit_and_le : (b c : Bool) → bit (b && c) ≤ bit b
bit_and_le true true = omega arith
bit_and_le true false = omega arith
bit_and_le false c = omega arith

released-Distinct :
    (lanes : List (List ℕ × LaneAllocator)) (w : List ℕ) (lane : ℕ) (o : Option LaneAllocator)
    → Distinct lanes
    → Distinct (released lanes w lane o)
unfolding released
released-Distinct lanes w lane none d = d
released-Distinct lanes w lane (some a) d = elim (Bool-cases ((freed a lane).active == 0)) [
  | inl e ↦ rw e (remove-Distinct w lanes d)
  | inr e ↦ rw e (insert-Distinct w (freed a lane) lanes d)
]

pub release_lane-Distinct :
    (lanes : List (List ℕ × LaneAllocator)) (w : List ℕ) (lane : ℕ)
    → Distinct lanes
    → Distinct (release_lane lanes w lane)
unfolding release_lane
release_lane-Distinct lanes w lane d = released-Distinct lanes w lane (lookup w lanes) d

module _ (m : List (AttemptKey × AttemptRecord)) (lanes : List (List ℕ × LaneAllocator))
    (k : AttemptKey) (r₀ r : AttemptRecord) (workers : Distinct lanes) (f : LanesFit m lanes)
    (was : lookup k m ≡ some r₀) (ran : same_state r₀.state running ≡ true)
    (idle : busy (some r) ≡ false) where
  fewer_run :
      (w : List ℕ)
      → total (runs_on w) m ≡ total (runs_on w) (insert k r m) + bit (same r₀.worker_id w)
  fewer_run w = omega (
    arith,
    total_replaced (runs_on w) k r r₀ m was,
    idle-runs_on w (some r) idle,
    ap (λ (b : Bool). bit (b && same r₀.worker_id w)) ran,
  )

  fewer_hold :
      (w : List ℕ) (l : ℕ)
      → total (holds_lane w l) m
        ≡ total (holds_lane w l) (insert k r m) + bit (same r₀.worker_id w && r₀.lane_index == l)
  fewer_hold w l = omega (
    arith,
    total_replaced (holds_lane w l) k r r₀ m was,
    idle-holds_lane w l (some r) idle,
    ap (λ (b : Bool). bit ((b && same r₀.worker_id w) && r₀.lane_index == l)) ran,
  )

  own_freed :
      (a : LaneAllocator)
      → lookup r₀.worker_id lanes ≡ some a
      → Fits
          (total (runs_on r₀.worker_id) (insert k r m))
          (λ l. total (holds_lane r₀.worker_id l) (insert k r m))
          (freed a r₀.lane_index)
  own_freed a e =
      freed-Fits (total (runs_on r₀.worker_id) (insert k r m))
        (λ l. total (holds_lane r₀.worker_id l) m)
        (λ l. total (holds_lane r₀.worker_id l) (insert k r m)) a r₀.lane_index
        (λ l. omega (
          arith,
          fewer_hold r₀.worker_id l,
          ap (λ (b : Bool). bit (b && r₀.lane_index == l)) (same_refl r₀.worker_id),
        ))
        (Fits-eq (total (runs_on r₀.worker_id) m)
          (suc (total (runs_on r₀.worker_id) (insert k r m)))
          (λ l. total (holds_lane r₀.worker_id l) m) (λ l. total (holds_lane r₀.worker_id l) m) a
          (omega (arith, fewer_run r₀.worker_id, ap bit (same_refl r₀.worker_id))) (λ l. refl)
          (subst
            (λ (o : Option LaneAllocator).
              Fits (total (runs_on r₀.worker_id) m) (λ l. total (holds_lane r₀.worker_id l) m)
                (or_default o))
            e (f r₀.worker_id)))

  -- No attempt holds a lane of a worker with none active.
  own_forgotten :
      (a : LaneAllocator)
      → lookup r₀.worker_id lanes ≡ some a
      → ((freed a r₀.lane_index).active == 0) ≡ true
      → Fits
          (total (runs_on r₀.worker_id) (insert k r m))
          (λ l. total (holds_lane r₀.worker_id l) (insert k r m))
          (or_default none)
  own_forgotten a e gone =
      let nobody : total (runs_on r₀.worker_id) (insert k r m) ≡ 0 =
        omega (arith, (own_freed a e).active, (==_iff (freed a r₀.lane_index).active 0).0 gone) in
      Fits-eq 0 (total (runs_on r₀.worker_id) (insert k r m)) (λ l. 0)
        (λ l. total (holds_lane r₀.worker_id l) (insert k r m)) (or_default none) (sym nobody)
        (λ l. omega (
          arith,
          nobody,
          total_mono (holds_lane r₀.worker_id l) (runs_on r₀.worker_id) (insert k r m) (λ q.
              bit_and_le (same_state q.state running && same q.worker_id r₀.worker_id)
                (q.lane_index == l)),
        ))
        (default-Fits (λ l. 0) (λ l. refl))

  -- The worker is in the table: an attempt of it runs.
  known : lookup r₀.worker_id lanes ≢ none
  known e = absurd (
      omega (
        arith,
        (f r₀.worker_id).active,
        fewer_run r₀.worker_id,
        ap bit (same_refl r₀.worker_id),
        ap (λ (o : Option LaneAllocator). (or_default o).active) e,
      ))

  other_kept :
      (w : List ℕ)
      → same r₀.worker_id w ≡ false
      → Fits
          (total (runs_on w) (insert k r m))
          (λ l. total (holds_lane w l) (insert k r m))
          (or_default (lookup w lanes))
  other_kept w ne =
      Fits-eq (total (runs_on w) m) (total (runs_on w) (insert k r m))
        (λ l. total (holds_lane w l) m) (λ l. total (holds_lane w l) (insert k r m))
        (or_default (lookup w lanes)) (omega (arith, fewer_run w, ap bit ne))
        (λ l. omega (arith, fewer_hold w l, ap (λ (b : Bool). bit (b && r₀.lane_index == l)) ne))
        (f w)

  abbrev Fitting : List ℕ → Option LaneAllocator → Type 0
  Fitting w o =
      Fits (total (runs_on w) (insert k r m)) (λ l. total (holds_lane w l) (insert k r m))
        (or_default o)

  own_released :
      (a : LaneAllocator)
      → lookup r₀.worker_id lanes ≡ some a
      → Fitting r₀.worker_id
          (lookup r₀.worker_id (released lanes r₀.worker_id r₀.lane_index (some a)))
  unfolding released
  own_released a e = elim (Bool-cases ((freed a r₀.lane_index).active == 0)) [
    | inl gone ↦ rw (gone, lookup-remove_self r₀.worker_id lanes workers) (own_forgotten a e gone)
    | inr stays ↦
        rw (stays, lookup-insert_self r₀.worker_id (freed a r₀.lane_index) lanes) (own_freed a e)
  ]

  other_released :
      (w : List ℕ) (a : LaneAllocator)
      → same r₀.worker_id w ≡ false
      → lookup w (released lanes r₀.worker_id r₀.lane_index (some a)) ≡ lookup w lanes
  unfolding released
  other_released w a ne = elim (Bool-cases ((freed a r₀.lane_index).active == 0)) [
    | inl gone ↦ rw gone (lookup-remove_ne r₀.worker_id w lanes (ne_of_beq r₀.worker_id w ne))
    | inr stays ↦ rw stays (
        lookup-insert_ne r₀.worker_id w (freed a r₀.lane_index) lanes (ne_of_beq r₀.worker_id w ne))
  ]

  pub ended-LanesFit : LanesFit (insert k r m) (release_lane lanes r₀.worker_id r₀.lane_index)
  unfolding release_lane
  ended-LanesFit w = elim (Option-cases (lookup r₀.worker_id lanes)) [
    | inl e ↦ absurd (known e)
    | inr (a, e) ↦ rw e (elim (Bool-cases (same r₀.worker_id w)) [
      | inl is ↦
          subst
            (λ (v : List ℕ).
              Fitting v (lookup v (released lanes r₀.worker_id r₀.lane_index (some a))))
            (eq_of_same r₀.worker_id w is) (own_released a e)
      | inr ne ↦ rw (other_released w a ne) (other_kept w ne)
    ])
  ]
