-- ===== src/Agent/Drive.antt =====
-- crates/agent/src/lib.rs: the events that a worker streams of one action, folded into an outcome.
pub mod Console
pub mod Chunks
use sembazuru.Base.{
  ℕ, ◌+◌, ◌-◌, ◌*◌, ◌^◌, min, Bool, true, false, List, [], ◌∷◌, ◌++◌, Option, none, some, leb, ltb,
  if◌then◌else◌, length, take,
}

abbrev pub max_console_bytes : ℕ
max_console_bytes = 8 * 1024 * 1024

abbrev pub console_truncation_notice : List ℕ
console_truncation_notice =
    10 ∷ b'[' ∷ b's' ∷ b'e' ∷ b'm' ∷ b'b' ∷ b'a' ∷ b'z' ∷ b'u' ∷ b'r' ∷ b'u' ∷ b':' ∷ b' ' ∷ b'c'
    ∷ b'o' ∷ b'n' ∷ b's' ∷ b'o' ∷ b'l' ∷ b'e' ∷ b' ' ∷ b'o' ∷ b'u' ∷ b't' ∷ b'p' ∷ b'u' ∷ b't'
    ∷ b' ' ∷ b'c' ∷ b'a' ∷ b'p' ∷ b'p' ∷ b'e' ∷ b'd' ∷ b' ' ∷ b'a' ∷ b't' ∷ b' ' ∷ b'8' ∷ b' '
    ∷ b'M' ∷ b'i' ∷ b'B' ∷ b']' ∷ 10 ∷ []

-- For any bound in the place of `max_console_bytes`.
unfoldable pub append_capped : ℕ → List ℕ → List ℕ → List ℕ
append_capped bound buf chunk =
    let room = bound - length buf in
    let taken = min (length chunk) room in
    let notice = if ltb taken (length chunk) then console_truncation_notice else [] in
    if leb bound (length buf) then buf else (buf ++ take taken chunk) ++ notice

unfoldable pub append_console_capped : List ℕ → List ℕ → List ℕ
unfolding append_capped
append_console_capped buf chunk = append_capped max_console_bytes buf chunk

-- `execute_event::Event`, an event without one among them. The output events are not read.
pub data ExecuteEvent : Type 0 where
  state : ℕ → ExecuteEvent
  exit : ℕ → ℕ → List ℕ → ExecuteEvent
  stdio : Bool → List ℕ → ExecuteEvent
  output : ExecuteEvent
  absent : ExecuteEvent

pub record ActionOutcome : Type 0 where
  pub states : List ℕ
  pub exit_code : Option ℕ
  pub wall_time_us : ℕ
  pub resolved_tool_digest : List ℕ
  pub stdout : List ℕ
  pub stderr : List ℕ

abbrev pub default_outcome : ActionOutcome
default_outcome = record {
  states = [];
  exit_code = none;
  wall_time_us = 0;
  resolved_tool_digest = [];
  stdout = [];
  stderr = [];
}

unfoldable pub on_event : ActionOutcome → ExecuteEvent → ActionOutcome
unfolding append_console_capped
on_event o (state s) = record o { states = o.states ++ (s ∷ []) }
on_event o (exit code wall digest) = record o {
  exit_code = some code;
  wall_time_us = wall;
  resolved_tool_digest = digest;
}
on_event o (stdio true chunk) = record o { stderr = append_console_capped o.stderr chunk }
on_event o (stdio false chunk) = record o { stdout = append_console_capped o.stdout chunk }
on_event o output = o
on_event o absent = o

-- The loop of `drive_execute`, over the events of a stream that ends without an error.
unfoldable pub drive_from : ActionOutcome → List ExecuteEvent → ActionOutcome
unfolding on_event
drive_from o [] = o
drive_from o (e ∷ es) = drive_from (on_event o e) es

unfoldable pub drive_execute : List ExecuteEvent → ActionOutcome
unfolding drive_from
drive_execute es = drive_from default_outcome es
