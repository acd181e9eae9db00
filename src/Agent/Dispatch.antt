-- ===== src/Agent/Dispatch.antt =====
-- crates/agent/src/scheduler.rs: one action from its first worker to its end, and crates/agent/src/lib.rs: the
-- observer that shows a worker's states. What the outside does is a parameter: the table and the clock at each attempt,
-- what an attempt came to, and the exit code of the local run. Exit codes are bit patterns of 32 bits.
pub mod Loop
pub mod Ends
pub mod Finished
pub mod Slots
pub mod Shown
use sembazuru.Base.{
  ℕ, zero, suc, ◌+◌, ◌-◌, ◌^◌, min, Bool, true, false, List, [], ◌∷◌, ◌++◌, Option, none, some,
  ◌==◌, if◌then◌else◌,
}
use sembazuru.Blake3.{Blake3}
use sembazuru.Agent.Workers.{WorkerEntry, WorkerTable}
use sembazuru.Agent.Scheduler.{InFlight, release, pick_and_reserve}
use sembazuru.Agent.Tracker.{
  AttemptKey, ActivityState, ExecutionKind, TrackerState, queued, preparing, running, completed,
  failed, interrupted, remote, local, fallback, u32_max,
}
use sembazuru.Agent.Tracker.Attempts.{
  AttemptLease, begin_attempt, transition_locked, lease_finish, lease_drop,
}

-- `ActionState` of the protocol; `unknown` stands for a number that is none of its values.
pub data ActionState : Type 0 where
  is_unspecified is_queued is_preparing is_running is_completed is_failed is_aborted : ActionState
  unknown : ActionState

unfoldable pub shown_as : ActionState → Option ActivityState
shown_as is_queued = some queued
shown_as is_preparing = some preparing
shown_as is_running = some running
shown_as _ = none

-- What came of an attempt at a worker.
pub data Attempt : Type 0 where
  no_channel : List ℕ → Attempt
  exited : ℕ → Attempt
  incomplete : Attempt
  errored : List ℕ → Attempt
  timed_out : Attempt

pub data LocalFallbackReason : Type 0 where
  no_worker : LocalFallbackReason
  route_away : List ℕ → LocalFallbackReason
  remote_exhausted : List ℕ → LocalFallbackReason

pub data Execution : Type 0 where
  on_worker : List ℕ → ℕ → Execution
  local_fallback : ℕ → LocalFallbackReason → Execution

-- The outside, by the number of the attempt.
pub record Outside : Type 0 where
  pub agent_version : List ℕ
  pub route_away_reason : Option (List ℕ)
  pub table : ℕ → WorkerTable
  pub now : ℕ → ℕ
  pub ended_at : ℕ → ℕ
  pub attempt : ℕ → WorkerEntry → Attempt
  pub states : ℕ → WorkerEntry → List ActionState
  pub run_local : Option ℕ

-- What `dispatch` keeps from one worker to the next, with the shared state that it changes.
pub record Progress : Type 0 where
  pub attempt_no : ℕ
  pub tried : List (List ℕ)
  pub reason : LocalFallbackReason
  pub in_flight : InFlight
  pub tracker : TrackerState

pub record ObservedExecution : Type 0 where
  pub execution : Execution
  pub next_attempt_no : ℕ
  pub after : Progress

-- The lease of an attempt, if the tracker took it.

unfoldable pub shown : TrackerState → Option AttemptKey → ActivityState → ℕ → TrackerState
unfolding transition_locked
shown s none next now = s
shown s (some key) next now = transition_locked s key next now

unfoldable pub seen : TrackerState → Option AttemptKey → Option ActivityState → ℕ → TrackerState
unfolding shown
seen s key none now = s
seen s key (some next) now = shown s key next now

unfoldable pub observe : TrackerState → Option AttemptKey → List ActionState → ℕ → TrackerState
unfolding shown_as seen
observe s key [] now = s
observe s key (a ∷ actions) now = observe (seen s key (shown_as a) now) key actions now

-- `finish` on the lease, and its end.
unfoldable pub closed : TrackerState → Option AttemptKey → ActivityState → ℕ → TrackerState
unfolding lease_finish lease_drop
closed s none terminal now = s
closed s (some key) terminal now =
    let (after, lease) = lease_finish s (record { key = key; finished = false }) terminal now in
    lease_drop after lease now

abbrev pub by_code : ℕ → ActivityState
by_code code = if code == 0 then completed else failed

-- `outcome.states.contains(Failed)`
unfoldable pub has_failed : List ActionState → Bool
has_failed [] = false
has_failed (is_failed ∷ actions) = true
has_failed (a ∷ actions) = has_failed actions

unfoldable pub terminal_of : Attempt → List ActionState → ActivityState
unfolding has_failed
terminal_of (exited code) actions = by_code code
terminal_of incomplete actions = if has_failed actions then failed else interrupted
terminal_of (no_channel _) actions = interrupted
terminal_of (errored _) actions = interrupted
terminal_of timed_out actions = interrupted

-- An attempt without a channel has no stream to observe.
unfoldable pub observed_of : Attempt → List ActionState → List ActionState
observed_of (no_channel _) actions = []
observed_of _ actions = actions

abbrev pub next_no : ℕ → ℕ
next_no n = min (n + 1) u32_max

-- `unwrap_or(-1)`
abbrev pub exit_or : Option ℕ → ℕ
exit_or none = u32_max
exit_or (some code) = code

abbrev pub local_id : List ℕ
local_id = b'l' ∷ b'o' ∷ b'c' ∷ b'a' ∷ b'l' ∷ []

-- The texts of the reasons.

abbrev worker_text : List ℕ
worker_text = b'w' ∷ b'o' ∷ b'r' ∷ b'k' ∷ b'e' ∷ b'r' ∷ b' ' ∷ []

abbrev unreachable_text : List ℕ
unreachable_text =
    b' ' ∷ b'u' ∷ b'n' ∷ b'r' ∷ b'e' ∷ b'a' ∷ b'c' ∷ b'h' ∷ b'a' ∷ b'b' ∷ b'l' ∷ b'e' ∷ b':' ∷ b' '
    ∷ []

abbrev not_completed_text : List ℕ
not_completed_text =
    b' ' ∷ b'd' ∷ b'i' ∷ b'd' ∷ b' ' ∷ b'n' ∷ b'o' ∷ b't' ∷ b' ' ∷ b'c' ∷ b'o' ∷ b'm' ∷ b'p' ∷ b'l'
    ∷ b'e' ∷ b't' ∷ b'e' ∷ b' ' ∷ b't' ∷ b'h' ∷ b'e' ∷ b' ' ∷ b'a' ∷ b'c' ∷ b't' ∷ b'i' ∷ b'o'
    ∷ b'n' ∷ []

abbrev failed_text : List ℕ
failed_text = b' ' ∷ b'f' ∷ b'a' ∷ b'i' ∷ b'l' ∷ b'e' ∷ b'd' ∷ b':' ∷ b' ' ∷ []

abbrev budget_text : List ℕ
budget_text =
    b' ' ∷ b'e' ∷ b'x' ∷ b'c' ∷ b'e' ∷ b'e' ∷ b'd' ∷ b'e' ∷ b'd' ∷ b' ' ∷ b'l' ∷ b'a' ∷ b't' ∷ b'e'
    ∷ b'n' ∷ b'c' ∷ b'y' ∷ b' ' ∷ b'b' ∷ b'u' ∷ b'd' ∷ b'g' ∷ b'e' ∷ b't' ∷ []

abbrev exhausted : List ℕ → List ℕ → LocalFallbackReason
exhausted id rest = remote_exhausted (worker_text ++ (id ++ rest))

unfoldable pub reason_of : Attempt → List ℕ → LocalFallbackReason → LocalFallbackReason
reason_of (no_channel e) id before = exhausted id (unreachable_text ++ e)
reason_of (exited code) id before = before
reason_of incomplete id before = exhausted id not_completed_text
reason_of (errored e) id before = exhausted id (failed_text ++ e)
reason_of timed_out id before = exhausted id budget_text
