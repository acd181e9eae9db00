-- ===== src/Agent/Tracker/Admitted.antt =====
-- A new attempt is refused only for a full table of attempts that have not ended.
use mathlib.Core.Logic.{inl, inr}
use sembazuru.Base.{
  ◌⊎◌, Option-cases, ◌+◌, ◌∙◌, ℕ, ◌≤◌, ◌<◌, ◌≡◌, refl, ap, subst, Bool, true, false, not, List, [],
  ◌∷◌, Option, none, some, ltb, if◌then◌else◌, length, Bool-cases, arith,
}
use sembazuru.Base.Assoc.{
  lookup-insert_self, lookup, remove, Distinct, remove-Distinct, remove_missing,
}
use sembazuru.Base.Totals.{total, part, total-remove, total-insert}
use sembazuru.Blake3.{Blake3}
use sembazuru.Agent.Tracker.{
  AttemptKey, created, same_key, same_key_refl, eq_of_same_key, key_eq, ExecutionKind,
  AttemptRecord, LaneAllocator, TrackerState, is_terminal, max_activity_attempts, bounded_id,
}
use sembazuru.Agent.Tracker.Attempts.{
  prune_locked, prune_from, make_room, roomy, admitted, begin_attempt, new_record, outlived,
  finished_of,
}
use sembazuru.Agent.Tracker.Lanes.{bit}
use sembazuru.Agent.Tracker.Invariant.{Sound, TrackerSound, over, times, remove-Sound}
use sembazuru.Agent.Tracker.Steps.{prune_from-Sound}
use sembazuru.Agent.Tracker.Living.{head_over}

abbrev pub lives : AttemptRecord → ℕ
lives r = bit (not (is_terminal r.state))

tail_live :
    (b : Bool) (v : AttemptRecord) (o : Option AttemptRecord)
    → over (if b then some v else o) ≡ false
    → (b ≡ true → o ≡ none)
    → over o ≡ false
tail_live true v o h g = ap over (g refl)
tail_live false v o h g = h

head_live :
    (b : Bool) (v : AttemptRecord) (o : Option AttemptRecord)
    → b ≡ true
    → over (if b then some v else o) ≡ false
    → is_terminal v.state ≡ false
head_live true v o e h = h
head_live false v o e h = absurd cc

all_live :
    (m : List (AttemptKey × AttemptRecord))
    → Distinct m
    → ((k : AttemptKey) → over (lookup k m) ≡ false)
    → total lives m ≡ length m
unfolding total lookup
all_live [] d h = refl
all_live ((j, v) ∷ m) d h =
    let rest : total lives m ≡ length m = all_live m d.1 (λ k.
      tail_live (same_key j k) v (lookup k m) (h k)
        (λ e. subst (λ (i : AttemptKey). lookup i m ≡ none) (eq_of_same_key j k e) d.0)) in
    let live : is_terminal v.state ≡ false =
      head_live (same_key j j) v (lookup j m) (same_key_refl j) (h j) in
    omega (arith, rest, ap (λ (b : Bool). bit (not b)) live)

over-lives : (o : Option AttemptRecord) → over o ≡ true → part lives o ≡ 0
over-lives none h = refl
over-lives (some r) h = rw h refl

eq_false_of_not : (b : Bool) → 0 ≡ bit b → b ≡ false
eq_false_of_not true h = absurd (omega (arith, h))
eq_false_of_not false h = refl

none_over :
    (m : List (AttemptKey × AttemptRecord)) (lanes : List (List ℕ × LaneAllocator))
    → Sound m [] lanes
    → (k : AttemptKey) → over (lookup k m) ≡ false
unfolding times
none_over m lanes f k = eq_false_of_not (over (lookup k m)) (f.ended_once k)

not_small : (n : ℕ) → ltb n max_activity_attempts ≡ false → max_activity_attempts ≤ n
not_small n h = ground arith

true_not_false : true ≡ false → ⊥
true_not_false h = absurd cc

make_room_full :
    (m : List (AttemptKey × AttemptRecord)) (order : List AttemptKey)
    (lanes : List (List ℕ × LaneAllocator))
    → Sound m order lanes
    → (make_room m order).1 ≡ false
    → max_activity_attempts ≤ total lives m
unfolding make_room
make_room_full m [] lanes f h =
    omega (arith, all_live m f.attempts (none_over m lanes f), not_small (length m) h)
make_room_full m (k ∷ ks) lanes f h = elim (Bool-cases (ltb (length m) max_activity_attempts)) [
  | inl e ↦ absurd (true_not_false (rw e at h))
  | inr e ↦ omega (
    arith,
    make_room_full (remove k m) ks lanes (remove-Sound m ks lanes k f) (rw e at h),
    total-remove lives k m,
    over-lives (lookup k m) (head_over lanes m ks k f),
  )
]

pruned_lives :
    (m : List (AttemptKey × AttemptRecord)) (order : List AttemptKey)
    (lanes : List (List ℕ × LaneAllocator)) (now : ℕ)
    → Sound m order lanes
    → total lives (prune_from m order now).0 ≡ total lives m
unfolding prune_from
pruned_lives m [] lanes now f = refl
pruned_lives m (k ∷ ks) lanes now f = elim (Bool-cases (outlived now (finished_of (lookup k m)))) [
  | inl e ↦ rw e (
      omega (
        arith,
        pruned_lives (remove k m) ks lanes now (remove-Sound m ks lanes k f),
        total-remove lives k m,
        over-lives (lookup k m) (head_over lanes m ks k f),
      ))
  | inr e ↦ rw e refl
]

pruned_missing :
    (m : List (AttemptKey × AttemptRecord)) (order : List AttemptKey) (now : ℕ) (k : AttemptKey)
    → Distinct m
    → lookup k m ≡ none
    → lookup k (prune_from m order now).0 ≡ none
unfolding prune_from
pruned_missing m [] now k d h = h
pruned_missing m (j ∷ js) now k d h = elim (Bool-cases (outlived now (finished_of (lookup j m)))) [
  | inl e ↦
      rw e (pruned_missing (remove j m) js now k (remove-Distinct j m d) (remove_missing j k m d h))
  | inr e ↦ rw e h
]

make_room_missing :
    (m : List (AttemptKey × AttemptRecord)) (order : List AttemptKey) (k : AttemptKey)
    → Distinct m
    → lookup k m ≡ none
    → lookup k (make_room m order).0.0 ≡ none
unfolding make_room
make_room_missing m [] k d h = h
make_room_missing m (j ∷ js) k d h = elim (Bool-cases (ltb (length m) max_activity_attempts)) [
  | inl e ↦ rw e h
  | inr e ↦
      rw e (make_room_missing (remove j m) js k (remove-Distinct j m d) (remove_missing j k m d h))
]

total-make_room :
    (m : List (AttemptKey × AttemptRecord)) (order : List AttemptKey)
    (lanes : List (List ℕ × LaneAllocator))
    → Sound m order lanes
    → total lives (make_room m order).0.0 ≡ total lives m
unfolding make_room
total-make_room m [] lanes f = refl
total-make_room m (k ∷ ks) lanes f = elim (Bool-cases (ltb (length m) max_activity_attempts)) [
  | inl e ↦ rw e refl
  | inr e ↦ rw e (
      omega (
        arith,
        total-make_room (remove k m) ks lanes (remove-Sound m ks lanes k f),
        total-remove lives k m,
        over-lives (lookup k m) (head_over lanes m ks k f),
      ))
]

refused_roomy :
    (s : TrackerState) (key : AttemptKey) (r : AttemptRecord)
    (room : (List (AttemptKey × AttemptRecord) × List AttemptKey) × Bool) (n : ℕ)
    → room.1 ≡ false
    → total lives room.0.0 ≡ n
    → ((roomy s key r room).1 ≡ none) × (total lives (roomy s key r room).0.attempts ≡ n)
unfolding roomy
refused_roomy s key r (mo, true) n h c = absurd cc
refused_roomy s key r (mo, false) n h c = (refl, c)

-- The attempt of a key is in the table, new and without a lane, and one more than `n` there have not ended.
pub record Entered (n : ℕ) (key : AttemptKey) (worker_id : List ℕ) (now : ℕ)
    (answer : TrackerState × Option AttemptKey) : Type 0 where
  pub answered : answer.1 ≡ some key
  pub attempt : AttemptRecord
  pub found : lookup key answer.0.attempts ≡ some attempt
  pub is_new : attempt.state ≡ created
  pub worker : attempt.worker_id ≡ worker_id
  pub no_lane : attempt.lane_index ≡ 0
  pub started : attempt.started_at ≡ now
  pub unfinished : attempt.finished_at ≡ none
  pub living : total lives answer.0.attempts ≡ n + 1

module _ (b3 : Blake3) (worker_id : List ℕ) (kind : ExecutionKind) (display : List ℕ) (now : ℕ)
    (n : ℕ) (key : AttemptKey) where
  roomy-Entered :
      (s : TrackerState) (room : (List (AttemptKey × AttemptRecord) × List AttemptKey) × Bool)
      → room.1 ≡ true
      → lookup key room.0.0 ≡ none
      → total lives room.0.0 ≡ n
      → Entered n key
          (bounded_id b3 worker_id)
          now
          (roomy s key (new_record b3 worker_id kind display now) room)
  unfolding roomy new_record is_terminal
  roomy-Entered s ((m, order), true) h none_there count = record {
    answered = refl;
    attempt = new_record b3 worker_id kind display now;
    found = lookup-insert_self key (new_record b3 worker_id kind display now) m;
    is_new = refl;
    worker = refl;
    no_lane = refl;
    started = refl;
    unfinished = refl;
    living = omega (
      arith,
      total-insert lives key (new_record b3 worker_id kind display now) m,
      ap (part lives) none_there,
      count,
    );
  }
  roomy-Entered s (mo, false) h none_there count = absurd cc

  admitted-Entered :
      (s : TrackerState) (o : Option AttemptRecord)
      → o ≡ none
      → Sound s.attempts s.terminal_order s.worker_lanes
      → lookup key s.attempts ≡ none
      → total lives s.attempts ≡ n
      → (make_room s.attempts s.terminal_order).1 ≡ true
      → Entered n key
          (bounded_id b3 worker_id)
          now
          (admitted s key (new_record b3 worker_id kind display now) o)
  unfolding admitted
  admitted-Entered s (some q) e f new count h = absurd cc
  admitted-Entered s none e f new count h =
      roomy-Entered s (make_room s.attempts s.terminal_order) h
        (make_room_missing s.attempts s.terminal_order key f.attempts new)
        (total-make_room s.attempts s.terminal_order s.worker_lanes f ∙ count)

-- A new attempt is refused, and then as many as before have not ended, or entered.
pub begin_attempt_cases :
    (b3 : Blake3) (s : TrackerState) (action_id : List ℕ) (attempt_no : ℕ)
    → (worker_id : List ℕ) → (kind : ExecutionKind) → (display : List ℕ) → (now : ℕ)
    → TrackerSound s
    → (((begin_attempt b3 s action_id attempt_no worker_id kind display now).1 ≡ none)
        × (total lives
              (begin_attempt b3 s action_id attempt_no worker_id kind display now).0.attempts
            ≡ total lives s.attempts))
      ⊎ Entered
          (total lives s.attempts)
          (record { action_id = bounded_id b3 action_id; attempt_no = attempt_no })
          (bounded_id b3 worker_id)
          now
          (begin_attempt b3 s action_id attempt_no worker_id kind display now)
unfolding begin_attempt prune_locked admitted
begin_attempt_cases b3 s action_id attempt_no worker_id kind display now f =
    let pruned : TrackerState = prune_locked s now in
    let key : AttemptKey = record {
      action_id = bounded_id b3 action_id;
      attempt_no = attempt_no;
    } in
    let sound : Sound pruned.attempts pruned.terminal_order pruned.worker_lanes =
      prune_from-Sound s.attempts s.terminal_order s.worker_lanes now f in
    let count : total lives pruned.attempts ≡ total lives s.attempts =
      pruned_lives s.attempts s.terminal_order s.worker_lanes now f in
    elim (Option-cases (lookup key pruned.attempts)) [
      | inr (r, e) ↦ rw e (inl (refl, count))
      | inl missing ↦ elim (Bool-cases (make_room pruned.attempts pruned.terminal_order).1) [
        | inl room ↦ inr (
            admitted-Entered b3 worker_id kind display now (total lives s.attempts) key pruned
              (lookup key pruned.attempts) missing sound missing count room)
        | inr full ↦ rw missing (
            inl (
              refused_roomy pruned key (new_record b3 worker_id kind display now)
                (make_room pruned.attempts pruned.terminal_order) (total lives s.attempts) full
                (total-make_room pruned.attempts pruned.terminal_order s.worker_lanes sound
                  ∙ count)))
      ]
    ]

-- While fewer than 4096 attempts in the table have not ended, a new attempt under a key that the table does not
-- have is entered under that key, as created now for its worker, without a lane; and it is one more than before that
-- has not ended, so what made room in a full table had ended.
pub begin_attempt_admitted :
    (b3 : Blake3) (s : TrackerState) (action_id : List ℕ) (attempt_no : ℕ)
    → (worker_id : List ℕ) → (kind : ExecutionKind) → (display : List ℕ) → (now : ℕ)
    → TrackerSound s
    → lookup (record { action_id = bounded_id b3 action_id; attempt_no = attempt_no }) s.attempts
      ≡ none
    → total lives s.attempts < max_activity_attempts
    → Entered
        (total lives s.attempts)
        (record { action_id = bounded_id b3 action_id; attempt_no = attempt_no })
        (bounded_id b3 worker_id)
        now
        (begin_attempt b3 s action_id attempt_no worker_id kind display now)
unfolding begin_attempt prune_locked
begin_attempt_admitted b3 s action_id attempt_no worker_id kind display now f new few =
    let pruned : TrackerState = prune_locked s now in
    let key : AttemptKey = record {
      action_id = bounded_id b3 action_id;
      attempt_no = attempt_no;
    } in
    let sound : Sound pruned.attempts pruned.terminal_order pruned.worker_lanes =
      prune_from-Sound s.attempts s.terminal_order s.worker_lanes now f in
    let room : (make_room pruned.attempts pruned.terminal_order).1 ≡ true =
      elim (Bool-cases (make_room pruned.attempts pruned.terminal_order).1) [
        | inl e ↦ e
        | inr full ↦ absurd (
            omega (
              arith,
              few,
              make_room_full pruned.attempts pruned.terminal_order s.worker_lanes sound full,
              pruned_lives s.attempts s.terminal_order s.worker_lanes now f,
            ))
      ] in
    let missing : lookup key pruned.attempts ≡ none =
      pruned_missing s.attempts s.terminal_order now key f.attempts new in
    admitted-Entered b3 worker_id kind display now (total lives s.attempts) key pruned
      (lookup key pruned.attempts) missing sound missing
      (pruned_lives s.attempts s.terminal_order s.worker_lanes now f) room
