-- ===== src/Agent/Submission.antt =====
-- crates/agent/src/session_registry.rs: SubmissionDeadline, whose phase every thread changes by an atomic compare and
-- exchange, and the DaemonTaskScope that shuts the tasks of the daemon down.
pub mod Settled
pub mod Shutdown
use sembazuru.Base.{ℕ, ◌+◌, Bool, true, false, ◌&&◌, ◌||◌, List, [], ◌∷◌, ◌==◌, if◌then◌else◌}

pub data SubmissionPhase : Type 0 where
  idle setting_up active terminating natural_reaped retry_safe_reaped forced_reaped force_failed
        aborted_no_child :
      SubmissionPhase

-- `from as u8`, which the compare and exchange compares.
unfoldable pub as_u8 : SubmissionPhase → ℕ
as_u8 idle = 0
as_u8 setting_up = 1
as_u8 active = 2
as_u8 terminating = 3
as_u8 natural_reaped = 4
as_u8 retry_safe_reaped = 5
as_u8 forced_reaped = 6
as_u8 force_failed = 7
as_u8 aborted_no_child = 8

unfoldable pub is_terminal : SubmissionPhase → Bool
is_terminal natural_reaped = true
is_terminal retry_safe_reaped = true
is_terminal forced_reaped = true
is_terminal force_failed = true
is_terminal aborted_no_child = true
is_terminal _ = false

-- `woken` counts the calls of `notify_waiters`.
pub record SubmissionDeadline : Type 0 where
  pub phase : SubmissionPhase
  pub force : Bool
  pub woken : ℕ

abbrev pub new : SubmissionDeadline
new = record { phase = idle; force = false; woken = 0 }

-- The two steps of `transition`: the compare and exchange, and the waking that follows if it reached an end.

unfoldable pub exchange :
    SubmissionDeadline → SubmissionPhase → SubmissionPhase → SubmissionDeadline × Bool
unfolding as_u8
exchange s from to =
    if as_u8 s.phase == as_u8 from then (record s { phase = to }, true) else (s, false)

unfoldable pub notify_waiters : SubmissionDeadline → SubmissionDeadline
notify_waiters s = record s { woken = s.woken + 1 }

unfoldable pub transition :
    SubmissionDeadline → SubmissionPhase → SubmissionPhase → SubmissionDeadline × Bool
unfolding exchange notify_waiters is_terminal
transition s from to =
    let (t, changed) = exchange s from to in
    (if changed && is_terminal to then notify_waiters t else t, changed)

-- The methods that change the phase.
pub data Call : Type 0 where
  try_begin_setup publish_active try_begin_terminating publish_natural_reaped
        publish_retry_safe_reaped publish_forced_reaped publish_force_failed try_abort_no_child :
      Call

-- The transitions that a method tries, one after the other, until one succeeds.
unfoldable pub attempts : Call → List (SubmissionPhase × SubmissionPhase)
attempts try_begin_setup = (idle, setting_up) ∷ []
attempts publish_active = (setting_up, active) ∷ []
attempts try_begin_terminating = (active, terminating) ∷ (setting_up, terminating) ∷ []
attempts publish_natural_reaped = (active, natural_reaped) ∷ []
attempts publish_retry_safe_reaped =
    (setting_up, retry_safe_reaped) ∷ (terminating, retry_safe_reaped) ∷ []
attempts publish_forced_reaped = (terminating, forced_reaped) ∷ []
attempts publish_force_failed =
    (setting_up, force_failed) ∷ (terminating, force_failed) ∷ (active, force_failed) ∷ []
attempts try_abort_no_child = (idle, aborted_no_child) ∷ []

unfoldable pub try_each :
    List (SubmissionPhase × SubmissionPhase) → SubmissionDeadline → SubmissionDeadline × Bool
unfolding transition
try_each [] s = (s, false)
try_each ((from, to) ∷ rest) s =
    let (t, changed) = transition s from to in
    let otherwise = try_each rest s in if changed then (t, true) else otherwise

-- A method that no other thread interrupts.
unfoldable pub call : Call → SubmissionDeadline → SubmissionDeadline × Bool
unfolding try_each attempts
call c s = try_each (attempts c) s

unfoldable pub request_force : SubmissionDeadline → SubmissionDeadline
request_force s = record s { force = true }

-- `submissions` names deadlines by numbers, and a weak pointer is one that may be dead. The two trackers count the tasks
-- that they got.
pub record DaemonTaskScope : Type 0 where
  pub cancelled : Bool
  pub cancel_closed : Bool
  pub drain_closed : Bool
  pub shutting_down : Bool
  pub cancel_tasks : ℕ
  pub drain_tasks : ℕ
  pub submissions : List ℕ

abbrev pub new_scope : DaemonTaskScope
new_scope = record {
  cancelled = false;
  cancel_closed = false;
  drain_closed = false;
  shutting_down = false;
  cancel_tasks = 0;
  drain_tasks = 0;
  submissions = [];
}

unfoldable pub spawn_cancel : DaemonTaskScope → DaemonTaskScope × Bool
spawn_cancel s =
    if s.shutting_down || s.cancel_closed
    then (s, false)
    else (record s { cancel_tasks = s.cancel_tasks + 1 }, true)

unfoldable pub spawn : DaemonTaskScope → DaemonTaskScope × Bool
unfolding spawn_cancel
spawn s = spawn_cancel s

abbrev pub push : ℕ → List ℕ → List ℕ
push i [] = i ∷ []
push i (j ∷ js) = j ∷ push i js

unfoldable pub spawn_drain : DaemonTaskScope → ℕ → DaemonTaskScope × Bool
spawn_drain s deadline = if s.shutting_down || s.drain_closed then (s, false) else (
  record s { drain_tasks = s.drain_tasks + 1; submissions = push deadline s.submissions },
  true,
)

unfoldable pub begin_shutdown : DaemonTaskScope → DaemonTaskScope
begin_shutdown s = record s {
  shutting_down = true;
  cancelled = true;
  cancel_closed = true;
  drain_closed = true;
}

-- The deadlines that exist, by their numbers.
abbrev pub Store : Type 0
Store = ℕ → SubmissionDeadline

abbrev pub force_at : ℕ → Store → Store
force_at i store = λ j. if i == j then request_force (store j) else store j

-- `retain`, with what its closure does to each.
unfoldable pub retained : (ℕ → Bool) → List ℕ → List ℕ
retained alive [] = []
retained alive (i ∷ is) = if alive i then i ∷ retained alive is else retained alive is

unfoldable pub force_each : (ℕ → Bool) → List ℕ → Store → Store
unfolding request_force
force_each alive [] store = store
force_each alive (i ∷ is) store = force_each alive is (if alive i then force_at i store else store)

unfoldable pub request_force_all : (ℕ → Bool) → DaemonTaskScope → Store → DaemonTaskScope × Store
unfolding retained force_each
request_force_all alive s store =
    (record s { submissions = retained alive s.submissions }, force_each alive s.submissions store)
