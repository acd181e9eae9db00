-- ===== src/Agent/Scheduler.antt =====
-- crates/agent/src/scheduler.rs: which worker gets an action, and the count of the actions that each
-- has. `AGENT_VERSION` is fixed by the build, and is a parameter.
pub mod Placement
pub mod Preferred
pub mod Slots
use sembazuru.Base.{
  ℕ, zero, suc, ◌+◌, ◌-◌, ◌*◌, ◌/◌, ◌%◌, ◌^◌, min, max, bit_xor, ◌≡◌, Bool, true, false, not, ◌&&◌,
  List, [], ◌∷◌, ◌++◌, Option, none, some, ltb, ◌==◌, if◌then◌else◌, length, get_or, map,
}
use sembazuru.Base.Texts.{same}
use sembazuru.Base.Assoc.{text_eq, lookup, insert, remove}
use sembazuru.Agent.Workers.{Capabilities, WorkerEntry, WorkerTable, live_snapshot}

abbrev pub max_trusted_cpu : ℕ
max_trusted_cpu = 256

unfoldable pub mix64 : ℕ → ℕ
mix64 z =
    let a = (bit_xor z (z / 2 ^ 30) * 0xbf58476d1ce4e5b9) % 2 ^ 64 in
    let b = (bit_xor a (a / 2 ^ 27) * 0x94d049bb133111eb) % 2 ^ 64 in bit_xor b (b / 2 ^ 31)

-- FNV-1a over the bytes.
unfoldable pub accumulate : ℕ → List ℕ → ℕ
accumulate h [] = h
accumulate h (b ∷ bytes) = accumulate ((bit_xor h b * 0x100000001b3) % 2 ^ 64) bytes

unfoldable pub stable_hash : List ℕ → ℕ
unfolding accumulate mix64
stable_hash bytes = mix64 (accumulate 0xcbf29ce484222325 bytes)

-- Each argument with a zero byte after it.
unfoldable pub joined_args : List (List ℕ) → List ℕ
joined_args [] = []
joined_args (a ∷ argv) = a ++ 0 ∷ joined_args argv

unfoldable pub affinity_key : List (List ℕ) → ℕ
unfolding stable_hash joined_args
affinity_key argv = stable_hash (joined_args argv)

unfoldable pub score : ℕ → WorkerEntry → ℕ
unfolding mix64 stable_hash
score key w = mix64 (bit_xor (stable_hash w.worker_id) key)

-- The loop of `preferred_index`: the next index, the best index and the best score so far.
unfoldable pub preferred_from : ℕ → ℕ → ℕ → ℕ → List WorkerEntry → ℕ
unfolding score
preferred_from key i best best_score [] = best
preferred_from key i best best_score (w ∷ ws) =
    let with_this = preferred_from key (suc i) i (score key w) ws in
    let without = preferred_from key (suc i) best best_score ws in
    if ltb best_score (score key w) then with_this else without

unfoldable pub preferred_index : List WorkerEntry → ℕ → ℕ
unfolding preferred_from
preferred_index workers key = preferred_from key 0 0 0 workers

-- The order on ids, which is that of their bytes.
unfoldable pub before : List ℕ → List ℕ → Bool
before a [] = false
before [] (y ∷ b) = true
before (x ∷ a) (y ∷ b) = if ltb x y then true else if x == y then before a b else false

unfoldable pub version_matched : List ℕ → WorkerEntry → Bool
version_matched agent_version w = same w.caps.worker_version agent_version

-- The bytes are those of "off".
unfoldable pub mode_participating : WorkerEntry → Bool
mode_participating w = not (same w.caps.participation_mode (111 ∷ 102 ∷ 102 ∷ []))

unfoldable pub admissible : List ℕ → WorkerEntry → Bool
unfolding version_matched mode_participating
admissible agent_version w = version_matched agent_version w && mode_participating w

abbrev pub trusted_cpu : WorkerEntry → ℕ
trusted_cpu w = min (max w.caps.cpu_count 1) max_trusted_cpu

unfoldable pub scaled : ℕ → Option ℕ → ℕ
scaled base none = base
scaled base (some pct) = min (base * min pct 100) (2 ^ 32 - 1) / 100

unfoldable pub effective_capacity : WorkerEntry → ℕ
unfolding scaled
effective_capacity w = scaled (trusted_cpu w) w.idle_cpu_pct

pub data Exclusion : Type 0 where
  version_mismatch off cpu_busy eligible : Exclusion

unfoldable pub exclusion_reason : List ℕ → WorkerEntry → Exclusion
unfolding version_matched mode_participating effective_capacity
exclusion_reason agent_version w =
    if not (version_matched agent_version w)
    then version_mismatch
    else if not (mode_participating w)
    then off
    else if effective_capacity w == 0
    then cpu_busy
    else eligible

-- The agent's own count of the actions that each worker has.
abbrev pub InFlight : Type 0
InFlight = List (List ℕ × ℕ)

abbrev or_zero : Option ℕ → ℕ
or_zero none = 0
or_zero (some c) = c

unfoldable pub count : InFlight → List ℕ → ℕ
unfolding lookup
count m k = or_zero (lookup k m)

unfoldable pub effective_idle : WorkerEntry → InFlight → ℕ
unfolding effective_capacity count
effective_idle w m = effective_capacity w - count m w.worker_id

unfoldable pub contains : List (List ℕ) → List ℕ → Bool
contains [] k = false
contains (j ∷ tried) k = if same j k then true else contains tried k

-- A worker that may get the action.
unfoldable pub allowed : List ℕ → List (List ℕ) → WorkerEntry → Bool
unfolding contains admissible effective_capacity
allowed agent_version tried w =
    not (contains tried w.worker_id) && (admissible agent_version w && ltb 0 (effective_capacity w))

unfoldable pub allowed_of : List ℕ → List (List ℕ) → List WorkerEntry → List WorkerEntry
unfolding allowed
allowed_of agent_version tried [] = []
allowed_of agent_version tried (w ∷ ws) =
    let rest = allowed_of agent_version tried ws in
    if allowed agent_version tried w then w ∷ rest else rest

-- The comparison of `max_by` says that `a` is greater: more free slots, or the same with an id before.
unfoldable pub greater : InFlight → WorkerEntry → WorkerEntry → Bool
unfolding effective_idle before
greater m a b =
    if ltb (effective_idle b m) (effective_idle a m)
    then true
    else if effective_idle a m == effective_idle b m
    then before a.worker_id b.worker_id
    else false

-- `max_by`, which takes the later of two equal ones.
unfoldable pub most_idle : InFlight → WorkerEntry → List WorkerEntry → WorkerEntry
unfolding greater
most_idle m best [] = best
most_idle m best (w ∷ ws) =
    let stays = most_idle m best ws in
    let goes = most_idle m w ws in if greater m best w then stays else goes

-- The index of `preferred_index` is in range, so the first worker, which stands in for a panic, is not used.
unfoldable pub chosen : InFlight → ℕ → WorkerEntry → List WorkerEntry → WorkerEntry
unfolding preferred_index effective_idle most_idle
chosen m key w ws =
    let preferred = get_or (w ∷ ws) (preferred_index (w ∷ ws) key) w in
    if ltb 0 (effective_idle preferred m) then preferred else most_idle m w ws

unfoldable pub reserve : InFlight → List ℕ → InFlight
unfolding insert count
reserve m k = insert k ((count m k + 1) % 2 ^ 32) m

-- `AssignGuard::drop`
unfoldable pub release : InFlight → List ℕ → InFlight
unfolding lookup insert remove
release m k = elim (lookup k m) [
  | none ↦ m
  | some c ↦ if c - 1 == 0 then remove k m else insert k (c - 1) m
]

unfoldable pub picked : InFlight → ℕ → List WorkerEntry → Option (WorkerEntry × InFlight)
unfolding chosen reserve
picked m key [] = none
picked m key (w ∷ ws) = some (chosen m key w ws, reserve m (chosen m key w ws).worker_id)

unfoldable pub pick_and_reserve :
    List ℕ → WorkerTable → InFlight → ℕ → List (List ℕ) → ℕ → Option (WorkerEntry × InFlight)
unfolding picked allowed_of live_snapshot
pick_and_reserve agent_version t m key tried now =
    picked m key (allowed_of agent_version tried (live_snapshot t now))

unfoldable pub capacity_of : List ℕ → List WorkerEntry → ℕ
unfolding admissible
capacity_of agent_version [] = 0
capacity_of agent_version (w ∷ ws) =
    let rest = capacity_of agent_version ws in
    if admissible agent_version w then trusted_cpu w + rest else rest

unfoldable pub cluster_capacity : List ℕ → WorkerTable → ℕ → ℕ
unfolding capacity_of live_snapshot
cluster_capacity agent_version t now = capacity_of agent_version (live_snapshot t now)
