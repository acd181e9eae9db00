-- ===== src/Tracer/Model.antt =====
-- crates/tracer/src/model.rs: one process's trace and its events.
use sembazuru.Base.{ℕ, Bool, List, Option, none, some, ◌==◌, if◌then◌else◌}

pub data FileOp : Type 0 where
  open_read open_write open_read_write probe enumerate delete move create_dir remove_dir : FileOp

pub data ProcessOp : Type 0 where
  child_created : ProcessOp

pub data RegistryOp : Type 0 where
  open_key query_value : RegistryOp

pub data EnvOp : Type 0 where
  read block_read : EnvOp

-- The names of the associated functions carry their type's.
unfoldable pub file_op_from_u8 : ℕ → Option FileOp
file_op_from_u8 v =
    if v == 1
    then some open_read
    else if v == 2
    then some open_write
    else if v == 3
    then some open_read_write
    else if v == 4
    then some probe
    else if v == 5
    then some enumerate
    else if v == 6
    then some delete
    else if v == 7
    then some move
    else if v == 8
    then some create_dir
    else if v == 9
    then some remove_dir
    else none

unfoldable pub process_op_from_u8 : ℕ → Option ProcessOp
process_op_from_u8 v = if v == 1 then some child_created else none

unfoldable pub registry_op_from_u8 : ℕ → Option RegistryOp
registry_op_from_u8 v = if v == 1 then some open_key else if v == 2 then some query_value else none

unfoldable pub env_op_from_u8 : ℕ → Option EnvOp
env_op_from_u8 v = if v == 1 then some read else if v == 2 then some block_read else none

pub data EventKind : Type 0 where
  file : FileOp → ℕ → EventKind
  process : ProcessOp → ℕ → EventKind
  registry : RegistryOp → ℕ → EventKind
  env : EnvOp → EventKind
  unknown : ℕ → ℕ → EventKind

pub record Event : Type 0 where
  pub kind : EventKind
  pub status : ℕ
  pub tid : ℕ
  pub qpc : ℕ
  pub path : List ℕ
  pub aux : List ℕ

unfoldable pub succeeded : Event → Bool
succeeded e = e.status == 0

pub record Trace : Type 0 where
  pub version : ℕ
  pub pid : ℕ
  pub parent_pid : ℕ
  pub qpc_frequency : ℕ
  pub start_qpc : ℕ
  pub start_filetime : ℕ
  pub exe_path : List ℕ
  pub command_line : List ℕ
  pub cwd : List ℕ
  pub events : List Event
  pub truncated : Bool

pub data AccessKind : Type 0 where
  read write probe probe_miss enumerate delete move : AccessKind
