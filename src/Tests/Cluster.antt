-- ===== src/Tests/Cluster.antt =====
-- crates/agent at concrete inputs.
use mathlib.Core.List.{Memᴰ}
use sembazuru.Base.{
  ℕ, ◌^◌, ◌<◌, ◌+◌, ◌≡◌, ◌≢◌, refl, true, false, List, [], ◌∷◌, none, some, get_or, ap, arith,
}
use sembazuru.Base.Assoc.{text_eq, lookup}
use sembazuru.Base.Texts.{same}
use sembazuru.Agent.Workers.{
  Capabilities, WorkerEntry, WorkerTable, RegisterRequest, HeartbeatPing, upsert_register, register,
  heartbeat, live_snapshot,
}
use sembazuru.Agent.Workers.Ownership.{HeldAt, registers, handle, live_endpoint_stable}
use sembazuru.Agent.Workers.Registered.{Sane, holds}
use sembazuru.Agent.Workers.Access.{wrong_token_unchanged}
use sembazuru.Agent.Scheduler.{
  InFlight, count, reserve, effective_idle, exclusion_reason, eligible, allowed, contains,
  pick_and_reserve,
}
use sembazuru.Agent.Scheduler.Placement.{pick_sound, pick_free, pick_total}
use sembazuru.Tests.Inputs.{ab, all_below-All}
use sembazuru.Tests.Signed.{ab-IsConfigured}

abbrev four : Capabilities
four = record { cpu_count = 4; worker_version = ab; participation_mode = [] }

abbrev here : List ℕ
here = 104 ∷ []

abbrev there : List ℕ
there = 116 ∷ []

here-ne-there : here ≢ there
here-ne-there e = omega (arith, ap (λ (l : List ℕ). get_or l 0 0) e)

ab-ne-here : ab ≢ here
ab-ne-here e = omega (arith, ap (λ (l : List ℕ). get_or l 0 0) e)

abbrev worker : WorkerEntry
worker = record {
  worker_id = ab;
  execution_endpoint = here;
  caps = four;
  running_actions = 0;
  idle_slots = 4;
  idle_cpu_pct = some 50;
  last_ping = 100;
}

abbrev table : WorkerTable
table = record { inner = (ab, worker) ∷ []; dead_timeout = 15 }

table-Sane : Sane table
table-Sane = record { distinct = (unfold lookup in refl, tt); window = omega arith }

held : holds table ab ≡ some worker
unfolding lookup same
held = refl

-- The holder is silent for 20, and its id goes to the other endpoint.
taken_over : (upsert_register table ab there four 120).1 ≡ true
unfolding upsert_register lookup same
taken_over = refl

-- A worker of another id, heard of at the same time.
abbrev other : WorkerEntry
other = record worker { worker_id = here }

abbrev both : WorkerTable
both = record { inner = (ab, worker) ∷ (here, other) ∷ []; dead_timeout = 15 }

live_endpoint_stable_example : HeldAt (handle table (registers ab there four) 110) ab here
live_endpoint_stable_example =
    live_endpoint_stable table (registers ab there four) 110 ab worker table-Sane held refl

abbrev wrong_request : RegisterRequest
wrong_request = record {
  worker_id = ab;
  execution_endpoint = there;
  auth_token = here;
  caps = none;
}

abbrev wrong_ping : HeartbeatPing
wrong_ping = record {
  worker_id = ab;
  auth_token = [];
  running_actions = 1;
  idle_slots = 1;
  idle_cpu_pct = none;
}

wrong_token_unchanged_example :
    ((register table (some ab) wrong_request 110).0 ≡ table)
    × (heartbeat table (some ab) wrong_ping 110 ≡ (table, false))
wrong_token_unchanged_example =
    wrong_token_unchanged table ab wrong_request wrong_ping 110 ab-IsConfigured
      (all_below-All 256 here refl) tt ab-ne-here (λ e. cc)

abbrev busy : InFlight
busy = (ab, 1) ∷ []

small : count busy ab + 1 < 2 ^ 32
unfolding count lookup same
small = omega arith

-- Two of the four slots count, of which one is in use.
one_free : 0 < effective_idle worker busy
unfolding effective_idle lookup same
one_free = omega arith

may_run : allowed ab [] worker ≡ true
unfolding allowed same
may_run = refl

live_one : Memᴰ worker (live_snapshot table 110)
unfolding live_snapshot
live_one = Memᴰ.head refl

pick_total_example :
    (r : WorkerEntry × InFlight) × (pick_and_reserve ab table busy 7 [] 110 ≡ some r)
pick_total_example = pick_total ab table busy 7 [] 110 worker live_one may_run

one_picked : pick_and_reserve ab table busy 7 [] 110 ≡ some (worker, reserve busy ab)
unfolding pick_and_reserve reserve lookup same
one_picked = refl

pick_sound_example :
    Memᴰ worker (live_snapshot table 110)
    × (contains [] ab ≡ false)
    × (exclusion_reason ab worker ≡ eligible)
    × (reserve busy ab ≡ reserve busy ab)
pick_sound_example = pick_sound ab table busy (reserve busy ab) 7 [] 110 worker one_picked

pick_free_example : 0 < effective_idle worker busy
pick_free_example =
    pick_free ab table busy (reserve busy ab) 7 [] 110 worker worker one_picked live_one may_run
      one_free
