-- ===== src/Agent/Tracker/Steps.antt =====
-- Every call of the tracker keeps what holds of its state.
use mathlib.Core.Logic.{inl, inr}
use sembazuru.Base.{
  ℕ, ◌+◌, ◌≤◌, ◌<◌, ◌≡◌, refl, sym, ap, ◌∙◌, Bool, true, false, ◌&&◌, ◌||◌, List, [], ◌∷◌, ◌++◌,
  some, ltb, leb, ◌==◌, ltb→lt, le→leb, if◌then◌else◌, length, Bool-cases, arith,
}
use sembazuru.Base.Assoc.{text_eq, lookup, insert, remove, Distinct, insert-Distinct}
use sembazuru.Base.Totals.{total, length_replaced}
use sembazuru.Agent.Tracker.{
  AttemptKey, same_key, key_eq, ActivityState, AttemptRecord, LaneAllocator, TrackerState,
  default_state, running, is_terminal, same_state, state_rank, max_activity_attempts, allocate_lane,
  pop_lane, or_default, release_lane,
}
use sembazuru.Agent.Tracker.Attempts.{
  started_running, ended, advanced, prune_from, make_room, outlived, finished_of,
}
use sembazuru.Agent.Tracker.Lanes.{bit, default-Fits}
use sembazuru.Agent.Tracker.Invariant.{
  times, times-append, Sound, TrackerSound, LanesFit, over, busy, laned, remove-Sound, insert-Sound,
  quiet-LanesFit,
}
use sembazuru.Agent.Tracker.Running.{started-LanesFit, allocate_lane_positive}
use sembazuru.Agent.Tracker.Ending.{ended-LanesFit, release_lane-Distinct}

pub default-Sound : TrackerSound default_state
unfolding lookup times total
default-Sound = record {
  attempts = tt;
  workers = tt;
  cap = omega arith;
  ended_once = λ j. refl;
  lane_of = λ j. refl;
  lanes_fit = λ w. default-Fits (λ l. 0) (λ l. refl);
}

pub prune_from-Sound :
    (m : List (AttemptKey × AttemptRecord)) (order : List AttemptKey)
    (lanes : List (List ℕ × LaneAllocator)) (now : ℕ)
    → Sound m order lanes
    → Sound (prune_from m order now).0 (prune_from m order now).1 lanes
unfolding prune_from
prune_from-Sound m [] lanes now f = f
prune_from-Sound m (k ∷ ks) lanes now f =
    elim (Bool-cases (outlived now (finished_of (lookup k m)))) [
      | inl e ↦ rw e (prune_from-Sound (remove k m) ks lanes now (remove-Sound m ks lanes k f))
      | inr e ↦ rw e f
    ]

pub make_room-Sound :
    (m : List (AttemptKey × AttemptRecord)) (order : List AttemptKey)
    (lanes : List (List ℕ × LaneAllocator))
    → Sound m order lanes
    → Sound (make_room m order).0.0 (make_room m order).0.1 lanes
unfolding make_room
make_room-Sound m [] lanes f = f
make_room-Sound m (k ∷ ks) lanes f = elim (Bool-cases (ltb (length m) max_activity_attempts)) [
  | inl e ↦ rw e f
  | inr e ↦ rw e (make_room-Sound (remove k m) ks lanes (remove-Sound m ks lanes k f))
]

pub room_made :
    (m : List (AttemptKey × AttemptRecord)) (order : List AttemptKey)
    → (make_room m order).1 ≡ true
    → length (make_room m order).0.0 < max_activity_attempts
unfolding make_room
room_made m [] h = ltb→lt (length m) max_activity_attempts h
room_made m (k ∷ ks) h = elim (Bool-cases (ltb (length m) max_activity_attempts)) [
  | inl e ↦ rw e (ltb→lt (length m) max_activity_attempts e)
  | inr e ↦ rw e (room_made (remove k m) ks (rw e at h))
]

times-end :
    (j k : AttemptKey) (order : List AttemptKey)
    → times j (order ++ (k ∷ [])) ≡ times j order + bit (same_key k j)
unfolding times
times-end j k order = omega (arith, times-append j order (k ∷ []))

pub same_times : (n : ℕ) (b c : Bool) → c ≡ false → n ≡ n + bit (b && c)
same_times n true c h = rw h (omega arith)
same_times n false c h = omega arith

more_times : (n n' : ℕ) (b c : Bool) → c ≡ true → n' ≡ n + bit b → n' ≡ n + bit (b && c)
more_times n n' true c h g = rw h g
more_times n n' false c h g = g

-- States.

pub start_idle :
    (next state : ActivityState)
    → same_state next running ≡ true
    → same_state next state ≡ false
    → same_state state running ≡ false
unfolding same_state
start_idle next state h g = ground arith

running_not_over :
    (state : ActivityState) → same_state state running ≡ true → is_terminal state ≡ false
unfolding same_state is_terminal
running_not_over state h = ground arith

over_idle : (state : ActivityState) → is_terminal state ≡ true → same_state state running ≡ false
unfolding same_state is_terminal
over_idle state h = ground arith

pub advance_idle :
    (next state : ActivityState)
    → is_terminal state ≡ false
    → same_state next running ≡ false
    → is_terminal next ≡ false
    → ltb (state_rank next) (state_rank state) ≡ false
    → same_state state running ≡ false
unfolding same_state is_terminal state_rank
advance_idle next state h i j g = ground arith

-- Changes of one attempt.

lane_not_zero : (lane : ℕ) → leb 1 lane ≡ true → (lane == 0) ≡ false
lane_not_zero lane h = ground arith

allocate_lane-Distinct :
    (lanes : List (List ℕ × LaneAllocator)) (w : List ℕ)
    → Distinct lanes
    → Distinct (allocate_lane lanes w).1
unfolding allocate_lane
allocate_lane-Distinct lanes w d =
    insert-Distinct w
      (pop_lane (or_default (lookup w lanes)) (or_default (lookup w lanes)).free_lanes).1 lanes d

module _ (s : TrackerState) (key : AttemptKey) (r : AttemptRecord) (f : TrackerSound s)
    (was : lookup key s.attempts ≡ some r) (goes : is_terminal r.state ≡ false) where
  capped : (r' : AttemptRecord) → length (insert key r' s.attempts) ≤ max_activity_attempts
  capped r' = omega (arith, length_replaced key r' r s.attempts was, f.cap)

  not_over : over (lookup key s.attempts) ≡ false
  not_over = ap over was ∙ goes

  idle_before : same_state r.state running ≡ false → busy (lookup key s.attempts) ≡ false
  idle_before idle = ap busy was ∙ idle

  lane_before :
      is_terminal r.state
        || (if same_state r.state running then leb 1 r.lane_index else r.lane_index == 0)
      ≡ true
  lane_before = ap laned (sym was) ∙ f.lane_of key

  pub started-Sound :
      same_state r.state running ≡ false
      → TrackerSound (started_running s key r (allocate_lane s.worker_lanes r.worker_id))
  unfolding started_running
  started-Sound idle =
      let lane : ℕ = (allocate_lane s.worker_lanes r.worker_id).0 in
      let r' : AttemptRecord = record r { state = running; lane_index = lane } in
      let runs : same_state running running ≡ true = unfold same_state in refl in
      let goes_on : is_terminal running ≡ false = unfold is_terminal in refl in
      let positive : leb 1 lane ≡ true = le→leb 1 lane (
        allocate_lane_positive s.attempts s.worker_lanes key r' (capped r') f.lanes_fit
          (idle_before idle) runs) in
      insert-Sound s.attempts s.terminal_order s.terminal_order s.worker_lanes
        (allocate_lane s.worker_lanes r.worker_id).1 key r' f
        (allocate_lane-Distinct s.worker_lanes r.worker_id f.workers) (capped r') not_over
        (λ j. same_times (times j s.terminal_order) (same_key key j) (is_terminal running) goes_on)
        (rw (goes_on, runs) positive)
        (started-LanesFit s.attempts s.worker_lanes key r' (capped r') f.lanes_fit
          (idle_before idle) runs refl)

  pub advanced-Sound :
      (next : ActivityState)
      → same_state r.state running ≡ false
      → same_state next running ≡ false
      → is_terminal next ≡ false
      → TrackerSound (advanced s key r next)
  unfolding advanced
  advanced-Sound next idle still goes_on =
      let r' : AttemptRecord = record r { state = next } in
      insert-Sound s.attempts s.terminal_order s.terminal_order s.worker_lanes s.worker_lanes key r'
        f f.workers (capped r') not_over
        (λ j. same_times (times j s.terminal_order) (same_key key j) (is_terminal next) goes_on)
        (rw (goes_on, still) (rw (goes, idle) at lane_before))
        (quiet-LanesFit s.attempts s.worker_lanes key r' f.lanes_fit (idle_before idle) still)

  ended_with :
      (next : ActivityState) (now : ℕ) (lanes : List (List ℕ × LaneAllocator))
      → is_terminal next ≡ true
      → Distinct lanes
      → LanesFit (insert key (record r { state = next; finished_at = some now }) s.attempts) lanes
      → Sound
          (insert key (record r { state = next; finished_at = some now }) s.attempts)
          (s.terminal_order ++ (key ∷ []))
          lanes
  ended_with next now lanes ends d fit =
      let r' : AttemptRecord = record r { state = next; finished_at = some now } in
      insert-Sound s.attempts s.terminal_order (s.terminal_order ++ (key ∷ [])) s.worker_lanes lanes
        key r' f d (capped r') not_over
        (λ j.
          more_times (times j s.terminal_order) (times j (s.terminal_order ++ (key ∷ [])))
            (same_key key j) (is_terminal next) ends (times-end j key s.terminal_order))
        (rw ends refl) fit

  pub ended-Sound :
      (next : ActivityState) (now : ℕ)
      → is_terminal next ≡ true
      → TrackerSound (ended s key r next now)
  unfolding ended
  ended-Sound next now ends =
      let r' : AttemptRecord = record r { state = next; finished_at = some now } in
      elim (Bool-cases (same_state r.state running)) [
        | inl ran ↦
            let lane : (r.lane_index == 0) ≡ false =
              lane_not_zero r.lane_index (rw (goes, ran) at lane_before) in
            rw lane (
              ended_with next now (release_lane s.worker_lanes r.worker_id r.lane_index) ends
                (release_lane-Distinct s.worker_lanes r.worker_id r.lane_index f.workers)
                (ended-LanesFit s.attempts s.worker_lanes key r r' f.workers f.lanes_fit was ran
                  (over_idle next ends)))
        | inr idle ↦
            let lane : (r.lane_index == 0) ≡ true = rw (goes, idle) at lane_before in
            rw lane (
              ended_with next now s.worker_lanes ends f.workers (
                quiet-LanesFit s.attempts s.worker_lanes key r' f.lanes_fit (idle_before idle)
                  (over_idle next ends)))
      ]
