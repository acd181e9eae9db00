-- ===== src/Tests/Tracker.antt =====
-- crates/agent/src/action_tracker.rs at concrete inputs.
use mathlib.Core.Logic.{◌≢◌}
use sembazuru.Base.{ℕ, ◌≡◌, ◌<◌, refl, ap, List, [], ◌∷◌, none, some, arith}
use sembazuru.Base.Assoc.{lookup, insert}
use sembazuru.Base.Texts.{same}
use sembazuru.Base.Totals.{total}
use sembazuru.Agent.Tracker.{
  AttemptKey, key_eq, AttemptRecord, default_state, running, completed, remote, local, is_terminal,
  same_state, state_rank, max_activity_attempts, bounded_id, chars_count, truncate_chars,
  allocate_lane, pop_lane,
}
use sembazuru.Agent.Tracker.Attempts.{
  begin_attempt, new_record, prune_locked, prune_from, make_room, roomy, admitted,
  transition_locked, transition_found, transition_record, moved, started_running,
}
use sembazuru.Agent.Tracker.Invariant.{TrackerSound}
use sembazuru.Agent.Tracker.Runs.{Call, begun, changed, calls, tracker_sound, lanes_apart}
use sembazuru.Agent.Tracker.States.{Forwards, transition_locked-Forwards}
use sembazuru.Agent.Tracker.Living.{begin_attempt_living}
use sembazuru.Agent.Tracker.Admitted.{lives, Entered, begin_attempt_admitted}
use sembazuru.Tests.Inputs.{ab, zeros}

abbrev first : AttemptKey
first = record { action_id = ab; attempt_no = 0 }

abbrev second : AttemptKey
second = record { action_id = ab; attempt_no = 1 }

abbrev two : List Call
two =
    begun ab 0 ab remote ab 5
    ∷ begun ab 1 ab local ab 6
    ∷ changed first running 7
    ∷ changed second running 8
    ∷ []

abbrev attempt : ℕ → AttemptRecord
attempt lane = record {
  worker_id = ab;
  execution_kind = remote;
  display_name = ab;
  state = running;
  lane_index = lane;
  started_at = 5;
  finished_at = none;
}

abbrev later : AttemptRecord
later = record (attempt 2) { execution_kind = local; started_at = 6 }

first-ne-second : first ≢ second
first-ne-second e = omega (arith, ap (λ (k : AttemptKey). k.attempt_no) e)

first_runs : lookup first (calls zeros default_state two).attempts ≡ some (attempt 1)
unfolding lookup insert begin_attempt new_record bounded_id chars_count truncate_chars prune_locked
    prune_from make_room roomy admitted transition_locked transition_found transition_record moved
    started_running allocate_lane pop_lane is_terminal same_state state_rank same
first_runs = refl

second_runs : lookup second (calls zeros default_state two).attempts ≡ some later
unfolding lookup insert begin_attempt new_record bounded_id chars_count truncate_chars prune_locked
    prune_from make_room roomy admitted transition_locked transition_found transition_record moved
    started_running allocate_lane pop_lane is_terminal same_state state_rank same
second_runs = refl

tracker_sound_example : TrackerSound (calls zeros default_state two)
tracker_sound_example = tracker_sound zeros two

lanes_apart_example : (attempt 1).lane_index ≢ later.lane_index
lanes_apart_example =
    lanes_apart zeros two first second (attempt 1) later first-ne-second first_runs second_runs
      (unfold same_state in refl) (unfold same_state in refl) refl

transition_locked-Forwards_example :
    Forwards
      (lookup first (calls zeros default_state two).attempts)
      (lookup first (transition_locked (calls zeros default_state two) second completed 9).attempts)
transition_locked-Forwards_example =
    transition_locked-Forwards (calls zeros default_state two) second first completed 9

begin_attempt_living_example :
    lookup first
      (begin_attempt zeros (calls zeros default_state two) ab 2 ab remote ab 9).0.attempts
    ≡ some (attempt 1)
begin_attempt_living_example =
    begin_attempt_living zeros (calls zeros default_state two) ab 2 ab remote ab 9 first (attempt 1)
      (tracker_sound zeros two) first_runs (unfold is_terminal in refl)

two_left : total lives (calls zeros default_state two).attempts < max_activity_attempts
unfolding lookup insert begin_attempt new_record bounded_id chars_count truncate_chars prune_locked
    prune_from make_room roomy admitted transition_locked transition_found transition_record moved
    started_running allocate_lane pop_lane is_terminal same_state state_rank same total
two_left = omega arith

third_new :
    lookup
      (record { action_id = bounded_id zeros ab; attempt_no = 2 })
      (calls zeros default_state two).attempts
    ≡ none
unfolding lookup insert begin_attempt new_record bounded_id chars_count truncate_chars prune_locked
    prune_from make_room roomy admitted transition_locked transition_found transition_record moved
    started_running allocate_lane pop_lane is_terminal same_state state_rank same
third_new = refl

begin_attempt_admitted_example :
    Entered
      (total lives (calls zeros default_state two).attempts)
      (record { action_id = bounded_id zeros ab; attempt_no = 2 })
      (bounded_id zeros ab)
      9
      (begin_attempt zeros (calls zeros default_state two) ab 2 ab remote ab 9)
begin_attempt_admitted_example =
    begin_attempt_admitted zeros (calls zeros default_state two) ab 2 ab remote ab 9
      (tracker_sound zeros two) third_new two_left
