-- ===== src/Agent/Tracker/Attempts.antt =====
-- crates/agent/src/action_tracker.rs: the transitions of an attempt, its entry into the table, the expiry and
-- the eviction of those that have ended, and the lease.
use sembazuru.Base.{
  ℕ, ◌-◌, Bool, true, false, not, ◌&&◌, List, [], ◌∷◌, ◌++◌, Option, none, some, ltb, leb, ◌==◌,
  if◌then◌else◌, length,
}
use sembazuru.Base.Assoc.{lookup, insert, remove}
use sembazuru.Blake3.{Blake3}
use sembazuru.Agent.Tracker.{
  key_eq, ActivityState, AttemptKey, AttemptRecord, ExecutionKind, LaneAllocator, TrackerState,
  activity_ttl, allocate_lane, bounded_id, created, interrupted, is_terminal, max_activity_attempts,
  max_display_chars, rejected, release_lane, running, same_state, state_rank, truncate_chars,
}

-- Transitions.

unfoldable pub started_running :
    TrackerState → AttemptKey → AttemptRecord → ℕ × List (List ℕ × LaneAllocator) → TrackerState
unfolding insert
started_running s key r (lane, lanes) = record s {
  attempts = insert key (record r { state = running; lane_index = lane }) s.attempts;
  worker_lanes = lanes;
}

unfoldable pub ended : TrackerState → AttemptKey → AttemptRecord → ActivityState → ℕ → TrackerState
unfolding insert release_lane
ended s key r next now = record s {
  attempts = insert key (record r { state = next; finished_at = some now }) s.attempts;
  terminal_order = s.terminal_order ++ (key ∷ []);
  worker_lanes =
      if r.lane_index == 0
      then s.worker_lanes
      else release_lane s.worker_lanes r.worker_id r.lane_index;
}

unfoldable pub advanced : TrackerState → AttemptKey → AttemptRecord → ActivityState → TrackerState
unfolding insert
advanced s key r next = record s { attempts = insert key (record r { state = next }) s.attempts }

-- A change of state that the guards let through.
unfoldable pub moved : TrackerState → AttemptKey → AttemptRecord → ActivityState → ℕ → TrackerState
unfolding started_running ended advanced allocate_lane same_state is_terminal
moved s key r next now =
    if same_state next running
    then started_running s key r (allocate_lane s.worker_lanes r.worker_id)
    else if is_terminal next
    then ended s key r next now
    else advanced s key r next

unfoldable pub transition_record :
    TrackerState → AttemptKey → AttemptRecord → ActivityState → ℕ → TrackerState
unfolding moved rejected is_terminal same_state state_rank
transition_record s key r next now =
    if is_terminal r.state
    then (if same_state r.state next then s else rejected s)
    else if same_state next r.state
    then s
    else if not (is_terminal next) && ltb (state_rank next) (state_rank r.state)
    then rejected s
    else moved s key r next now

unfoldable pub transition_found :
    TrackerState → AttemptKey → ActivityState → ℕ → Option AttemptRecord → TrackerState
unfolding transition_record rejected
transition_found s key next now none = rejected s
transition_found s key next now (some r) = transition_record s key r next now

unfoldable pub transition_locked : TrackerState → AttemptKey → ActivityState → ℕ → TrackerState
unfolding transition_found lookup
transition_locked s key next now = transition_found s key next now (lookup key s.attempts)

unfoldable pub finish : TrackerState → AttemptKey → ActivityState → ℕ → TrackerState
unfolding transition_locked rejected is_terminal
finish s key terminal now =
    if not (is_terminal terminal) then rejected s else transition_locked s key terminal now

-- The end of attempts.

abbrev age : ℕ → ℕ → ℕ
age later earlier = later - earlier

abbrev pub outlived : ℕ → Option ℕ → Bool
outlived now none = true
outlived now (some finished) = leb activity_ttl (age now finished)

abbrev pub finished_of : Option AttemptRecord → Option ℕ
finished_of none = none
finished_of (some r) = r.finished_at

unfoldable pub prune_from :
    List (AttemptKey × AttemptRecord)
    → List AttemptKey
    → ℕ
    → List (AttemptKey × AttemptRecord) × List AttemptKey
unfolding lookup remove
prune_from m [] now = (m, [])
prune_from m (k ∷ ks) now =
    let rest = prune_from (remove k m) ks now in
    if outlived now (finished_of (lookup k m)) then rest else (m, k ∷ ks)

unfoldable pub prune_locked : TrackerState → ℕ → TrackerState
unfolding prune_from
prune_locked s now =
    let (attempts, order) = prune_from s.attempts s.terminal_order now in
    record s { attempts = attempts; terminal_order = order }

-- `while state.attempts.len() >= MAX { evict_oldest_terminal }`, which pops keys until an attempt goes; the
-- Boolean says whether there is room.
unfoldable pub make_room :
    List (AttemptKey × AttemptRecord)
    → List AttemptKey
    → (List (AttemptKey × AttemptRecord) × List AttemptKey) × Bool
unfolding remove
make_room m [] = ((m, []), ltb (length m) max_activity_attempts)
make_room m (k ∷ ks) =
    let rest = make_room (remove k m) ks in
    if ltb (length m) max_activity_attempts then ((m, k ∷ ks), true) else rest

unfoldable pub new_record : Blake3 → List ℕ → ExecutionKind → List ℕ → ℕ → AttemptRecord
unfolding bounded_id truncate_chars
new_record b3 worker_id kind display now = record {
  worker_id = bounded_id b3 worker_id;
  execution_kind = kind;
  display_name = truncate_chars display max_display_chars;
  state = created;
  lane_index = 0;
  started_at = now;
  finished_at = none;
}

unfoldable pub roomy :
    TrackerState
    → AttemptKey
    → AttemptRecord
    → (List (AttemptKey × AttemptRecord) × List AttemptKey) × Bool
    → TrackerState × Option AttemptKey
unfolding insert
roomy s key r ((m, order), true) =
    (record s { attempts = insert key r m; terminal_order = order }, some key)
roomy s key r ((m, order), false) = (record s { attempts = m; terminal_order = order }, none)

unfoldable pub admitted :
    TrackerState
    → AttemptKey
    → AttemptRecord
    → Option AttemptRecord
    → TrackerState × Option AttemptKey
unfolding roomy make_room
admitted s key r (some _) = (s, none)
admitted s key r none = roomy s key r (make_room s.attempts s.terminal_order)

unfoldable pub begin_attempt :
    Blake3
    → TrackerState
    → List ℕ
    → ℕ
    → List ℕ
    → ExecutionKind
    → List ℕ
    → ℕ
    → TrackerState × Option AttemptKey
unfolding admitted prune_locked bounded_id new_record lookup
begin_attempt b3 s action_id attempt_no worker_id kind display now =
    let key : AttemptKey = record {
      action_id = bounded_id b3 action_id;
      attempt_no = attempt_no;
    } in
    let pruned = prune_locked s now in
    admitted pruned key (new_record b3 worker_id kind display now) (lookup key pruned.attempts)

-- `AttemptLease`: its end interrupts an attempt that it did not finish.

pub record AttemptLease : Type 0 where
  pub key : AttemptKey
  pub finished : Bool

unfoldable pub lease_finish :
    TrackerState → AttemptLease → ActivityState → ℕ → TrackerState × AttemptLease
unfolding finish is_terminal
lease_finish s lease terminal now = (
  finish s lease.key terminal now,
  record lease { finished = if is_terminal terminal then true else lease.finished },
)

unfoldable pub lease_drop : TrackerState → AttemptLease → ℕ → TrackerState
unfolding finish
lease_drop s lease now = if not lease.finished then finish s lease.key interrupted now else s
