-- ===== src/Agent/Workers.antt =====
-- crates/agent/src/coordination.rs: the table of workers and the two handlers that change it. A time
-- is a number that the caller gives, since the sources read the clock at each call.
pub mod Access
pub mod Ownership
pub mod Registered
use sembazuru.Base.{
  ℕ, suc, ◌+◌, ◌-◌, ◌*◌, ◌≡◌, Bool, true, false, not, ◌&&◌, List, [], ◌∷◌, Option, none, some,
  Result, ok, err, ltb, if◌then◌else◌, length,
}
use sembazuru.Base.Texts.{same}
use sembazuru.Base.Assoc.{text_eq, lookup, insert, retain}
use sembazuru.Proto.Auth.{AuthError, check}

-- What a worker reports of itself (`Capabilities` of the protocol), as far as the agent reads it.
pub record Capabilities : Type 0 where
  pub cpu_count : ℕ
  pub worker_version : List ℕ
  pub participation_mode : List ℕ

abbrev pub default_caps : Capabilities
default_caps = record { cpu_count = 0; worker_version = []; participation_mode = [] }

pub record WorkerEntry : Type 0 where
  pub worker_id : List ℕ
  pub execution_endpoint : List ℕ
  pub caps : Capabilities
  pub running_actions : ℕ
  pub idle_slots : ℕ
  pub idle_cpu_pct : Option ℕ
  pub last_ping : ℕ

pub record WorkerTable : Type 0 where
  pub inner : List (List ℕ × WorkerEntry)
  pub dead_timeout : ℕ

abbrev pub reap_factor : ℕ
reap_factor = 20

unfoldable pub empty : ℕ → WorkerTable
empty dead_timeout = record { inner = []; dead_timeout = dead_timeout }

-- `Instant::elapsed`, which is zero for a time to come.
abbrev pub elapsed : ℕ → WorkerEntry → ℕ
elapsed now e = now - e.last_ping

abbrev pub alive : WorkerTable → ℕ → WorkerEntry → Bool
alive t now e = ltb (elapsed now e) t.dead_timeout

unfoldable pub reap : WorkerTable → ℕ → List (List ℕ × WorkerEntry)
unfolding retain
reap t now = retain (λ _ e. ltb (elapsed now e) (t.dead_timeout * reap_factor)) t.inner

-- A live worker that holds the id at another endpoint.
unfoldable pub collides : WorkerTable → ℕ → List ℕ → Option WorkerEntry → Bool
collides t now endpoint none = false
collides t now endpoint (some e) = not (same e.execution_endpoint endpoint) && alive t now e

unfoldable pub joined : List ℕ → List ℕ → Capabilities → ℕ → WorkerEntry
joined worker_id endpoint caps now = record {
  worker_id = worker_id;
  execution_endpoint = endpoint;
  caps = caps;
  running_actions = 0;
  idle_slots = caps.cpu_count;
  idle_cpu_pct = none;
  last_ping = now;
}

unfoldable pub upsert_register :
    WorkerTable → List ℕ → List ℕ → Capabilities → ℕ → WorkerTable × Bool
unfolding reap collides joined lookup insert
upsert_register t worker_id endpoint caps now =
    let map = reap t now in
    if collides t now endpoint (lookup worker_id map)
    then (record t { inner = map }, false)
    else (record t { inner = insert worker_id (joined worker_id endpoint caps now) map }, true)

unfoldable pub pinged : ℕ → ℕ → Option ℕ → ℕ → WorkerEntry → WorkerEntry
pinged running_actions idle_slots idle_cpu_pct now e = record e {
  running_actions = running_actions;
  idle_slots = idle_slots;
  idle_cpu_pct = idle_cpu_pct;
  last_ping = now;
}

unfoldable pub on_ping : WorkerTable → List ℕ → ℕ → ℕ → Option ℕ → ℕ → WorkerTable
unfolding lookup insert pinged
on_ping t worker_id running_actions idle_slots idle_cpu_pct now = elim (lookup worker_id t.inner) [
  | none ↦ t
  | some e ↦ record t {
    inner = insert worker_id (pinged running_actions idle_slots idle_cpu_pct now e) t.inner;
  }
]

unfoldable pub is_live : WorkerTable → List ℕ → ℕ → Bool
unfolding lookup
is_live t worker_id now = elim (lookup worker_id t.inner) [ none ↦ false | some e ↦ alive t now e ]

live_of : WorkerTable → ℕ → List (List ℕ × WorkerEntry) → List WorkerEntry
live_of t now [] = []
live_of t now ((j, e) ∷ m) = if alive t now e then e ∷ live_of t now m else live_of t now m

unfoldable pub live_snapshot : WorkerTable → ℕ → List WorkerEntry
unfolding live_of
live_snapshot t now = live_of t now t.inner

unfoldable pub live_count : WorkerTable → ℕ → ℕ
unfolding live_snapshot
live_count t now = length (live_snapshot t now)

-- The handlers of the `Coordination` service.

pub record RegisterRequest : Type 0 where
  pub worker_id : List ℕ
  pub execution_endpoint : List ℕ
  pub auth_token : List ℕ
  pub caps : Option Capabilities

pub data Rejection : Type 0 where
  no_worker_id no_endpoint : Rejection

pub data Detail : Type 0 where
  accepted taken : Detail
  unauthorized : AuthError → Detail

abbrev caps_or_default : Option Capabilities → Capabilities
caps_or_default none = default_caps
caps_or_default (some c) = c

answer : WorkerTable × Bool → WorkerTable × Result Rejection Detail
answer (t, true) = (t, ok accepted)
answer (t, false) = (t, ok taken)

admit :
    WorkerTable
    → RegisterRequest
    → ℕ
    → Result AuthError (Unit {0})
    → WorkerTable × Result Rejection Detail
unfolding answer upsert_register
admit t req now (err e) = (t, ok (unauthorized e))
admit t req now (ok _) =
    answer (upsert_register t req.worker_id req.execution_endpoint (caps_or_default req.caps) now)

unfoldable pub register :
    WorkerTable → Option (List ℕ) → RegisterRequest → ℕ → WorkerTable × Result Rejection Detail
unfolding admit check
register t expected_token req now =
    if same req.worker_id []
    then (t, err no_worker_id)
    else if same req.execution_endpoint []
    then (t, err no_endpoint)
    else admit t req now (check expected_token req.auth_token)

pub record HeartbeatPing : Type 0 where
  pub worker_id : List ℕ
  pub auth_token : List ℕ
  pub running_actions : ℕ
  pub idle_slots : ℕ
  pub idle_cpu_pct : Option ℕ

-- One ping of a heartbeat stream: the table, and whether the stream goes on.
unfoldable pub heartbeat : WorkerTable → Option (List ℕ) → HeartbeatPing → ℕ → WorkerTable × Bool
unfolding check on_ping
heartbeat t expected_token ping now = elim (check expected_token ping.auth_token) [
  | err _ ↦ (t, false)
  | ok _ ↦
      (on_ping t ping.worker_id ping.running_actions ping.idle_slots ping.idle_cpu_pct now, true)
]
