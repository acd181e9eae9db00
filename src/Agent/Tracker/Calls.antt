-- ===== src/Agent/Tracker/Calls.antt =====
-- Every call of the tracker keeps what holds of its state, and two attempts that run share no lane.
use mathlib.Core.Logic.{inl, inr}
use sembazuru.Base.{
  ℕ, ◌<◌, ◌≡◌, refl, ap, ◌∙◌, Bool, true, false, not, ◌&&◌, List, [], ◌∷◌, Option, none, some, ltb,
  length, Bool-cases, Option-cases, arith,
}
use sembazuru.Base.Assoc.{lookup, remove, Distinct, remove-Distinct, remove_missing}
use sembazuru.Base.Totals.{length-insert}
use sembazuru.Blake3.{Blake3}
use sembazuru.Agent.Tracker.{
  AttemptKey, same_key, key_eq, ActivityState, ExecutionKind, AttemptRecord, TrackerState, created,
  running, interrupted, is_terminal, same_state, state_rank, max_activity_attempts, rejected,
  bounded_id,
}
use sembazuru.Agent.Tracker.Attempts.{
  moved, transition_record, transition_found, transition_locked, finish, AttemptLease, lease_drop,
  prune_locked, make_room, roomy, admitted, begin_attempt, new_record,
}
use sembazuru.Agent.Tracker.Invariant.{
  times, Sound, TrackerSound, over, busy, insert-Sound, quiet-LanesFit,
}
use sembazuru.Agent.Tracker.Steps.{
  prune_from-Sound, make_room-Sound, room_made, same_times, start_idle, advance_idle, started-Sound,
  advanced-Sound, ended-Sound,
}

module _ (s : TrackerState) (key : AttemptKey) (r : AttemptRecord) (f : TrackerSound s)
    (was : lookup key s.attempts ≡ some r) (goes : is_terminal r.state ≡ false) where
  moved-Sound :
      (next : ActivityState) (now : ℕ)
      → same_state next r.state ≡ false
      → (not (is_terminal next) && ltb (state_rank next) (state_rank r.state)) ≡ false
      → TrackerSound (moved s key r next now)
  unfolding moved
  moved-Sound next now new forward = elim (Bool-cases (same_state next running)) [
    | inl starts ↦ rw starts (started-Sound s key r f was goes (start_idle next r.state starts new))
    | inr still ↦ elim (Bool-cases (is_terminal next)) [
      | inl ends ↦ rw (still, ends) (ended-Sound s key r f was goes next now ends)
      | inr on ↦
          let idle : same_state r.state running ≡ false =
            advance_idle next r.state goes still on (rw on at forward) in
          rw (still, on) (advanced-Sound s key r f was goes next idle still on)
    ]
  ]

rejected-Sound : (s : TrackerState) → TrackerSound s → TrackerSound (rejected s)
unfolding rejected
rejected-Sound s f = f

transition_record-Sound :
    (s : TrackerState) (key : AttemptKey) (r : AttemptRecord) (next : ActivityState) (now : ℕ)
    → TrackerSound s
    → lookup key s.attempts ≡ some r
    → TrackerSound (transition_record s key r next now)
unfolding transition_record
transition_record-Sound s key r next now f was = elim (Bool-cases (is_terminal r.state)) [
  | inl ends ↦ rw ends (elim (Bool-cases (same_state r.state next)) [
    | inl e ↦ rw e f
    | inr e ↦ rw e (rejected-Sound s f)
  ])
  | inr goes ↦ elim (Bool-cases (same_state next r.state)) [
    | inl e ↦ rw (goes, e) f
    | inr new ↦
        elim (Bool-cases (not (is_terminal next) && ltb (state_rank next) (state_rank r.state))) [
          | inl back ↦ rw (goes, new, back) (rejected-Sound s f)
          | inr forward ↦
              rw (goes, new, forward) (moved-Sound s key r f was goes next now new forward)
        ]
  ]
]

-- A transition, allowed or refused, keeps the table, the order of endings and the lanes consistent.
pub transition_locked-Sound :
    (s : TrackerState) (key : AttemptKey) (next : ActivityState) (now : ℕ)
    → TrackerSound s
    → TrackerSound (transition_locked s key next now)
unfolding transition_locked transition_found
transition_locked-Sound s key next now f = elim (Option-cases (lookup key s.attempts)) [
  | inl e ↦ rw e (rejected-Sound s f)
  | inr (r, e) ↦ rw e (transition_record-Sound s key r next now f e)
]

pub finish-Sound :
    (s : TrackerState) (key : AttemptKey) (terminal : ActivityState) (now : ℕ)
    → TrackerSound s
    → TrackerSound (finish s key terminal now)
unfolding finish
finish-Sound s key terminal now f = elim (Bool-cases (is_terminal terminal)) [
  | inl e ↦ rw e (transition_locked-Sound s key terminal now f)
  | inr e ↦ rw e (rejected-Sound s f)
]

pub prune_locked-Sound :
    (s : TrackerState) (now : ℕ) → TrackerSound s → TrackerSound (prune_locked s now)
unfolding prune_locked
prune_locked-Sound s now f = prune_from-Sound s.attempts s.terminal_order s.worker_lanes now f

-- A new attempt.

room_missing :
    (m : List (AttemptKey × AttemptRecord)) (order : List AttemptKey) (k : AttemptKey)
    → Distinct m
    → lookup k m ≡ none
    → lookup k (make_room m order).0.0 ≡ none
unfolding make_room
room_missing m [] k d h = h
room_missing m (j ∷ js) k d h = elim (Bool-cases (ltb (length m) max_activity_attempts)) [
  | inl e ↦ rw e h
  | inr e ↦ rw e (room_missing (remove j m) js k (remove-Distinct j m d) (remove_missing j k m d h))
]

roomy-Sound :
    (s : TrackerState) (key : AttemptKey) (r : AttemptRecord)
    (room : (List (AttemptKey × AttemptRecord) × List AttemptKey) × Bool)
    → Sound room.0.0 room.0.1 s.worker_lanes
    → (room.1 ≡ true → length room.0.0 < max_activity_attempts)
    → lookup key room.0.0 ≡ none
    → r.state ≡ created
    → r.lane_index ≡ 0
    → TrackerSound (roomy s key r room).0
unfolding roomy
roomy-Sound s key r ((m, order), false) f small new is lane = f
roomy-Sound s key r ((m, order), true) f small new is lane =
    let goes : is_terminal r.state ≡ false = ap is_terminal is ∙ (unfold is_terminal in refl) in
    let idle : same_state r.state running ≡ false =
      ap (λ (q : ActivityState). same_state q running) is ∙ (unfold same_state in refl) in
    insert-Sound m order order s.worker_lanes s.worker_lanes key r f f.workers
      (omega (arith, small refl, length-insert key r m)) (ap over new)
      (λ j. same_times (times j order) (same_key key j) (is_terminal r.state) goes)
      (rw (goes, idle, lane) refl)
      (quiet-LanesFit m s.worker_lanes key r f.lanes_fit (ap busy new) idle)

admitted-Sound :
    (s : TrackerState) (key : AttemptKey) (r : AttemptRecord) (o : Option AttemptRecord)
    → TrackerSound s
    → lookup key s.attempts ≡ o
    → r.state ≡ created
    → r.lane_index ≡ 0
    → TrackerSound (admitted s key r o).0
unfolding admitted
admitted-Sound s key r (some q) f h is lane = f
admitted-Sound s key r none f h is lane =
    roomy-Sound s key r (make_room s.attempts s.terminal_order)
      (make_room-Sound s.attempts s.terminal_order s.worker_lanes f)
      (room_made s.attempts s.terminal_order)
      (room_missing s.attempts s.terminal_order key f.attempts h) is lane

pub begin_attempt-Sound :
    (b3 : Blake3) (s : TrackerState) (action_id : List ℕ) (attempt_no : ℕ)
    → (worker_id : List ℕ) → (kind : ExecutionKind) → (display : List ℕ) → (now : ℕ)
    → TrackerSound s
    → TrackerSound (begin_attempt b3 s action_id attempt_no worker_id kind display now).0
unfolding begin_attempt new_record
begin_attempt-Sound b3 s action_id attempt_no worker_id kind display now f =
    let pruned : TrackerState = prune_locked s now in
    let key : AttemptKey = record {
      action_id = bounded_id b3 action_id;
      attempt_no = attempt_no;
    } in
    admitted-Sound pruned key (new_record b3 worker_id kind display now)
      (lookup key pruned.attempts) (prune_locked-Sound s now f) refl refl refl

pub lease_drop-Sound :
    (s : TrackerState) (lease : AttemptLease) (now : ℕ)
    → TrackerSound s
    → TrackerSound (lease_drop s lease now)
unfolding lease_drop
lease_drop-Sound s lease now f = elim (Bool-cases lease.finished) [
  | inl e ↦ rw e f
  | inr e ↦ rw e (finish-Sound s lease.key interrupted now f)
]
