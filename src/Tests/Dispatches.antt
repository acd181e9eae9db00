-- ===== src/Tests/Dispatches.antt =====
-- crates/agent/src/scheduler.rs and the stream of one action at concrete inputs.
use mathlib.Core.Logic.{◌≢◌}
use mathlib.Core.List.{Memᴰ}
use mathlib.Core.List.Memᴰ
use sembazuru.Base.{
  ℕ, ◌+◌, ◌^◌, ◌<◌, ◌≡◌, refl, true, false, List, [], ◌∷◌, ◌++◌, Option, none, some, arith,
}
use sembazuru.Base.Texts.{same, same_refl}
use sembazuru.Base.Assoc.{text_eq, lookup}
use sembazuru.Agent.Workers.{Capabilities, WorkerEntry, live_snapshot}
use sembazuru.Agent.Scheduler.{count, contains, pick_and_reserve}
use sembazuru.Agent.Tracker.{default_state}
use sembazuru.Agent.Tracker.Invariant.{TrackerSound}
use sembazuru.Agent.Tracker.Steps.{default-Sound}
use sembazuru.Agent.Dispatch.{
  Outside, ObservedExecution, timed_out, is_running, no_worker, local_fallback,
}
use sembazuru.Agent.Dispatch.Loop.{started, dispatch, fresh}
use sembazuru.Agent.Dispatch.Finished.{living, dispatch_finishes}
use sembazuru.Agent.Dispatch.Slots.{Balanced, dispatch-Balanced}
use sembazuru.Agent.Dispatch.Ends.{visits, Knows, dispatch_ends}
use sembazuru.Agent.Drive.{max_console_bytes, stdio, drive_execute}
use sembazuru.Agent.Drive.Console.{drive_execute-Capped}
use sembazuru.Agent.Drive.Chunks.{Capped}
use sembazuru.Tests.Inputs.{ab, zeros}

abbrev four : Capabilities
four = record { cpu_count = 4; worker_version = ab; participation_mode = [] }

abbrev worker : WorkerEntry
worker = record {
  worker_id = ab;
  execution_endpoint = ab;
  caps = four;
  running_actions = 0;
  idle_slots = 4;
  idle_cpu_pct = some 50;
  last_ping = 100;
}

-- One worker, which times out.
abbrev outside : Outside
outside = record {
  agent_version = ab;
  route_away_reason = none;
  table = λ n. record { inner = (ab, worker) ∷ []; dead_timeout = 15 };
  now = λ n. 100;
  ended_at = λ n. 105;
  attempt = λ n w. timed_out;
  states = λ n w. is_running ∷ [];
  run_local = some 0;
}

abbrev answer : Option ObservedExecution → ObservedExecution
answer none = record {
  execution = local_fallback 0 no_worker;
  next_attempt_no = 0;
  after = fresh [] default_state;
}
answer (some x) = x

abbrev ran : Option ObservedExecution
ran = dispatch zeros outside ab ab 7 2 [] default_state

ran_ends : dispatch zeros outside ab ab 7 2 [] default_state ≡ some (answer ran)
unfolding dispatch started same
ran_ends = refl

dispatch_finishes_example :
    TrackerSound (answer ran).after.tracker
    × (living (answer ran).after.tracker ≡ living default_state)
dispatch_finishes_example =
    dispatch_finishes zeros outside ab ab 7 2 [] default_state (answer ran) default-Sound ran_ends

no_actions : (j : List ℕ) → count [] j + 1 < 2 ^ 32
unfolding count lookup
no_actions j = omega arith

dispatch-Balanced_example : Balanced [] (answer ran).after.in_flight
dispatch-Balanced_example =
    dispatch-Balanced zeros outside ab ab 7 2 [] default_state (answer ran) tt no_actions ran_ends

-- The attempt at the worker times out, and the next turn finds no other.
one_visit : visits zeros outside ab ab 7 2 (fresh [] default_state) ≡ ab ∷ []
unfolding visits same pick_and_reserve
one_visit = refl

drive_execute-Capped_example :
    Capped max_console_bytes (ab ++ []) (drive_execute (stdio false ab ∷ [])).stdout
    × Capped max_console_bytes [] (drive_execute (stdio false ab ∷ [])).stderr
drive_execute-Capped_example = drive_execute-Capped (stdio false ab ∷ [])

only_worker : (w v : WorkerEntry) → Memᴰ w (v ∷ []) → contains (v.worker_id ∷ []) w.worker_id ≡ true
unfolding contains
only_worker w v (Memᴰ.head e) = rw (e, same_refl v.worker_id) refl
only_worker w v (Memᴰ.tail mem) = absurd (Memᴰ.not-nil mem)

outside-Knows : Knows (ab ∷ []) outside
unfolding live_snapshot
outside-Knows n w mem = only_worker w worker mem

dispatch_ends_example : dispatch zeros outside ab ab 7 2 [] default_state ≢ none
dispatch_ends_example =
    dispatch_ends zeros outside ab ab 7 2 [] default_state (ab ∷ []) outside-Knows (omega arith)
