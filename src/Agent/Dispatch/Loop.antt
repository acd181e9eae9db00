-- ===== src/Agent/Dispatch/Loop.antt =====
-- crates/agent/src/scheduler.rs: what the tracker shows of one attempt, the local run, a turn of the loop over
-- the workers, and the loop from its start.
use sembazuru.Base.{ℕ, zero, suc, List, [], ◌∷◌, Option, none, some}
use sembazuru.Blake3.{Blake3}
use sembazuru.Agent.Workers.{WorkerEntry}
use sembazuru.Agent.Scheduler.{InFlight, release, pick_and_reserve}
use sembazuru.Agent.Tracker.{ActivityState, ExecutionKind, TrackerState, remote, local, fallback}
use sembazuru.Agent.Tracker.Attempts.{begin_attempt}
use sembazuru.Agent.Dispatch.{
  ActionState, Attempt, LocalFallbackReason, ObservedExecution, Outside, Progress, by_code, closed,
  exit_or, exited, is_running, local_fallback, local_id, next_no, no_worker, observe, observed_of,
  on_worker, reason_of, route_away, terminal_of,
}

-- What the tracker shows of an attempt: it begins, goes through states, and is closed.
unfoldable pub track :
    Blake3
    → TrackerState
    → List ℕ
    → ℕ
    → List ℕ
    → ExecutionKind
    → List ℕ
    → List ActionState
    → ActivityState
    → ℕ
    → ℕ
    → TrackerState
unfolding begin_attempt observe closed
track b3 s action_id n worker_id kind display actions terminal now ended_at =
    let (begun, key) = begin_attempt b3 s action_id n worker_id kind display now in
    closed (observe begun key actions now) key terminal ended_at

-- The local run, at the end or from the start; it is shown as running at once.
unfoldable pub run_here :
    Blake3
    → Outside
    → List ℕ
    → List ℕ
    → ExecutionKind
    → LocalFallbackReason
    → Progress
    → ObservedExecution
unfolding track
run_here b3 env action_id display kind reason p =
    let n = p.attempt_no in
    let code = exit_or env.run_local in
    let shown_states = is_running ∷ [] in
    record {
      execution = local_fallback code reason;
      next_attempt_no = next_no n;
      after = record p {
        attempt_no = next_no n;
        tracker =
            track b3 p.tracker action_id n local_id kind display shown_states (by_code code)
              (env.now n) (env.ended_at n);
      };
    }

-- The attempt at the worker that was picked, with its slot held: what the loop goes on with.
unfoldable pub tried_at :
    Blake3 → Outside → List ℕ → List ℕ → Progress → WorkerEntry → InFlight → Progress
unfolding track terminal_of observed_of reason_of release
tried_at b3 env action_id display p w reserved =
    let n = p.attempt_no in
    let came = env.attempt n w in
    let actions = observed_of came (env.states n w) in
    record {
      attempt_no = next_no n;
      tried = w.worker_id ∷ p.tried;
      reason = reason_of came w.worker_id p.reason;
      in_flight = release reserved w.worker_id;
      tracker =
          track b3 p.tracker action_id n w.worker_id remote display actions
            (terminal_of came actions) (env.now n) (env.ended_at n);
    }

unfoldable pub code_of : Attempt → Option ℕ
code_of (exited code) = some code
code_of _ = none

abbrev pub Rest : Type 0
Rest = Progress → Option ObservedExecution

unfoldable pub went : WorkerEntry → Progress → Option ℕ → Rest → Option ObservedExecution
went w q none rest = rest q
went w q (some code) rest =
    some
      (record { execution = on_worker w.worker_id code; next_attempt_no = q.attempt_no; after = q })

-- A turn of the loop that picked a worker, or none.
unfoldable pub turn :
    Blake3
    → Outside
    → List ℕ
    → List ℕ
    → Progress
    → Option (WorkerEntry × InFlight)
    → Rest
    → Option ObservedExecution
unfolding run_here tried_at code_of went
turn b3 env action_id display p none rest =
    some (run_here b3 env action_id display fallback p.reason p)
turn b3 env action_id display p (some (w, reserved)) rest =
    went w (tried_at b3 env action_id display p w reserved) (code_of (env.attempt p.attempt_no w))
      rest

-- The `while let` over the workers; none when the fuel is used up.
unfoldable pub dispatch_loop : Blake3 → Outside → List ℕ → List ℕ → ℕ → ℕ → Rest
unfolding turn pick_and_reserve
dispatch_loop b3 env action_id display key zero p = none
dispatch_loop b3 env action_id display key (suc fuel) p =
    turn b3 env action_id display p
      (pick_and_reserve env.agent_version (env.table p.attempt_no) p.in_flight key p.tried
        (env.now p.attempt_no))
      (dispatch_loop b3 env action_id display key fuel)

abbrev pub fresh : InFlight → TrackerState → Progress
fresh in_flight tracker = record {
  attempt_no = 0;
  tried = [];
  reason = no_worker;
  in_flight = in_flight;
  tracker = tracker;
}

unfoldable pub started :
    Blake3
    → Outside
    → List ℕ
    → List ℕ
    → ℕ
    → ℕ
    → Progress
    → Option (List ℕ)
    → Option ObservedExecution
unfolding run_here dispatch_loop
started b3 env action_id display key fuel p (some why) =
    some (run_here b3 env action_id display local (route_away why) p)
started b3 env action_id display key fuel p none = dispatch_loop b3 env action_id display key fuel p

unfoldable pub dispatch :
    Blake3 → Outside → List ℕ → List ℕ → ℕ → ℕ → InFlight → TrackerState → Option ObservedExecution
unfolding started
dispatch b3 env action_id display key fuel in_flight tracker =
    started b3 env action_id display key fuel (fresh in_flight tracker) env.route_away_reason
