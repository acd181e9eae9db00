-- ===== src/Agent/Tracker.antt =====
-- crates/agent/src/action_tracker.rs: what the agent shows of each attempt at an action. The state that the
-- mutex guards is passed on, a time is a number that the caller's clock gives, and a character of a string
-- begins at each byte that is no continuation byte.
pub mod Attempts
pub mod Lanes
pub mod Invariant
pub mod Running
pub mod Ending
pub mod Steps
pub mod Calls
pub mod Runs
pub mod States
pub mod Living
pub mod Admitted
use sembazuru.Base.{
  ℕ, zero, suc, ◌+◌, ◌-◌, ◌*◌, ◌^◌, ◌≡◌, min, max, refl, Bool, true, false, not, ◌&&◌, ◌||◌, List,
  [], ◌∷◌, ◌++◌, Option, none, some, ltb, leb, ◌==◌, if◌then◌else◌, length, take, arith,
}
use sembazuru.Base.Texts.{same, same_refl, eq_of_same}
use sembazuru.Base.Assoc.{Eq, text_eq, lookup, insert, remove}
use sembazuru.Blake3.{Blake3}
use sembazuru.Cas.Digest.{Digest, of}

abbrev pub activity_ttl : ℕ
activity_ttl = 60

abbrev pub max_activity_attempts : ℕ
max_activity_attempts = 4096

abbrev pub max_display_chars : ℕ
max_display_chars = 128

abbrev pub max_id_chars : ℕ
max_id_chars = 128

abbrev pub u32_max : ℕ
u32_max = 2 ^ 32 - 1

pub record AttemptKey : Type 0 where
  pub action_id : List ℕ
  pub attempt_no : ℕ

abbrev pub same_key : AttemptKey → AttemptKey → Bool
same_key j k = same j.action_id k.action_id && j.attempt_no == k.attempt_no

pub data ExecutionKind : Type 0 where
  remote local fallback : ExecutionKind

pub data ActivityState : Type 0 where
  created queued preparing running completed failed interrupted : ActivityState

unfoldable pub is_terminal : ActivityState → Bool
is_terminal completed = true
is_terminal failed = true
is_terminal interrupted = true
is_terminal _ = false

-- Every rank is another state's, but for the three that are terminal.
unfoldable pub state_rank : ActivityState → ℕ
state_rank created = 0
state_rank queued = 1
state_rank preparing = 2
state_rank running = 3
state_rank _ = 4

-- `==` on states.
unfoldable pub same_state : ActivityState → ActivityState → Bool
same_state created created = true
same_state queued queued = true
same_state preparing preparing = true
same_state running running = true
same_state completed completed = true
same_state failed failed = true
same_state interrupted interrupted = true
same_state _ _ = false

pub record AttemptRecord : Type 0 where
  pub worker_id : List ℕ
  pub execution_kind : ExecutionKind
  pub display_name : List ℕ
  pub state : ActivityState
  pub lane_index : ℕ
  pub started_at : ℕ
  pub finished_at : Option ℕ

-- The heap gives its least lane first: it is the list of its lanes in order.
pub record LaneAllocator : Type 0 where
  pub next_lane : ℕ
  pub free_lanes : List ℕ
  pub active : ℕ

abbrev pub default_allocator : LaneAllocator
default_allocator = record { next_lane = 1; free_lanes = []; active = 0 }

pub record TrackerState : Type 0 where
  pub attempts : List (AttemptKey × AttemptRecord)
  pub terminal_order : List AttemptKey
  pub worker_lanes : List (List ℕ × LaneAllocator)
  pub rejected_transitions : ℕ

abbrev pub default_state : TrackerState
default_state = record {
  attempts = [];
  terminal_order = [];
  worker_lanes = [];
  rejected_transitions = 0;
}

pub same_key_refl : (k : AttemptKey) → same_key k k ≡ true
same_key_refl k = ground (arith, same_refl k.action_id)

pub eq_of_same_key : (j k : AttemptKey) → same_key j k ≡ true → j ≡ k
eq_of_same_key j k h = ground (arith, eq_of_same j.action_id k.action_id)

instance abbrev pub key_eq : Eq AttemptKey
key_eq = record { beq = same_key; beq_refl = same_key_refl; eq_of_beq = eq_of_same_key }

-- Strings.

abbrev continues : ℕ → Bool
continues b = leb 0x80 b && ltb b 0xC0

unfoldable pub chars_count : List ℕ → ℕ
chars_count [] = 0
chars_count (b ∷ bs) = if continues b then chars_count bs else suc (chars_count bs)

-- `value.chars().take(limit)`
unfoldable pub truncate_chars : List ℕ → ℕ → List ℕ
truncate_chars [] limit = []
truncate_chars (b ∷ bs) limit =
    let within = b ∷ truncate_chars bs limit in
    let next = b ∷ truncate_chars bs (limit - 1) in
    if continues b then within else if limit == 0 then [] else next

unfoldable pub bounded_id : Blake3 → List ℕ → List ℕ
unfolding chars_count truncate_chars
bounded_id b3 value =
    if leb (chars_count value) max_id_chars
    then value
    else truncate_chars value 96 ++ (b'#' ∷ take 16 (of b3 value).hex)

-- Lanes.

unfoldable pub rejected : TrackerState → TrackerState
rejected s = record s { rejected_transitions = min (s.rejected_transitions + 1) (2 ^ 64 - 1) }

unfoldable pub push_lane : ℕ → List ℕ → List ℕ
push_lane l [] = l ∷ []
push_lane l (x ∷ xs) = if leb l x then l ∷ x ∷ xs else x ∷ push_lane l xs

abbrev pub or_default : Option LaneAllocator → LaneAllocator
or_default none = default_allocator
or_default (some a) = a

unfoldable pub pop_lane : LaneAllocator → List ℕ → ℕ × LaneAllocator
pop_lane a [] = (
  a.next_lane,
  record a { next_lane = min (a.next_lane + 1) u32_max; active = min (a.active + 1) (2 ^ 64 - 1) },
)
pop_lane a (l ∷ ls) = (l, record a { free_lanes = ls; active = min (a.active + 1) (2 ^ 64 - 1) })

unfoldable pub allocate_lane :
    List (List ℕ × LaneAllocator) → List ℕ → ℕ × List (List ℕ × LaneAllocator)
unfolding pop_lane lookup insert
allocate_lane worker_lanes worker_id =
    let a = or_default (lookup worker_id worker_lanes) in
    let (lane, after) = pop_lane a a.free_lanes in (lane, insert worker_id after worker_lanes)

unfoldable pub freed : LaneAllocator → ℕ → LaneAllocator
unfolding push_lane
freed a lane = record a { active = a.active - 1; free_lanes = push_lane lane a.free_lanes }

unfoldable pub released :
    List (List ℕ × LaneAllocator)
    → List ℕ
    → ℕ
    → Option LaneAllocator
    → List (List ℕ × LaneAllocator)
unfolding freed insert remove
released worker_lanes worker_id lane_index none = worker_lanes
released worker_lanes worker_id lane_index (some a) =
    if (freed a lane_index).active == 0
    then remove worker_id worker_lanes
    else insert worker_id (freed a lane_index) worker_lanes

unfoldable pub release_lane :
    List (List ℕ × LaneAllocator) → List ℕ → ℕ → List (List ℕ × LaneAllocator)
unfolding released lookup
release_lane worker_lanes worker_id lane_index =
    released worker_lanes worker_id lane_index (lookup worker_id worker_lanes)
