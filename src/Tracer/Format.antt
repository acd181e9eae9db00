-- ===== src/Tracer/Format.antt =====
-- crates/tracer/src/format.rs: the parser of the binary trace format. `None` of a read is an error that the caller
-- names, and the loop over the records answers none when its fuel, one more than the bytes, is used up.
pub mod Layout
pub mod Records
pub mod Ends
pub mod Total
use sembazuru.Base.{
  ℕ, zero, suc, ◌+◌, ◌*◌, ◌%◌, ◌^◌, Bool, true, false, not, List, [], ◌∷◌, Option, none, some,
  Result, ok, err, leb, ◌==◌, if◌then◌else◌, length,
}
use sembazuru.Base.Texts.{same}
use sembazuru.Cursor.{Cursor, Parser, pure, fail, ◌>>=◌, guard, take_bytes, uint, run}
use sembazuru.Tracer.Utf16.{from_utf16_lossy}
use sembazuru.Tracer.Model.{
  FileOp, ProcessOp, RegistryOp, EnvOp, EventKind, file, process, registry, env, unknown, Event,
  Trace, file_op_from_u8, process_op_from_u8, registry_op_from_u8, env_op_from_u8,
}

abbrev pub magic : List ℕ
magic = b'S' ∷ b'B' ∷ b'Z' ∷ b'T' ∷ []

abbrev pub supported_version : ℕ
supported_version = 0

abbrev pub max_string_units : ℕ
max_string_units = 2 ^ 24

pub data ParseError : Type 0 where
  bad_magic : ParseError
  short_header : ParseError
  unsupported_version : ℕ → ParseError

-- `chunks_exact(2)`, each read as a little-endian number.
unfoldable pub units : List ℕ → List ℕ
units [] = []
units (a ∷ []) = []
units (a ∷ b ∷ bs) = (a + 256 * b) ∷ units bs

unfoldable pub string : {E : Type 0} → E → Parser E (List ℕ)
unfolding uint take_bytes units from_utf16_lossy ◌>>=◌
string e = do
  count ← uint e e 4
  _ ← guard (leb count max_string_units) e
  bytes ← take_bytes e e (count * 2)
  pure (from_utf16_lossy (units bytes))

abbrev or_unknown : {A : Type 0} → ℕ → ℕ → (A → EventKind) → Option A → EventKind
or_unknown record_type op make none = unknown record_type op
or_unknown record_type op make (some a) = make a

unfoldable pub kind_of : ℕ → ℕ → ℕ → EventKind
unfolding file_op_from_u8 process_op_from_u8 registry_op_from_u8 env_op_from_u8
kind_of record_type op extra =
    if record_type == 1
    then or_unknown record_type op (λ o. file o extra) (file_op_from_u8 op)
    else if record_type == 2
    then or_unknown record_type op (λ o. process o (extra % 2 ^ 32)) (process_op_from_u8 op)
    else if record_type == 3
    then or_unknown record_type op (λ o. registry o (extra % 2 ^ 32)) (registry_op_from_u8 op)
    else if record_type == 4
    then or_unknown record_type op env (env_op_from_u8 op)
    else unknown record_type op

unfoldable pub parse_record : Parser (Unit {0}) Event
unfolding uint string kind_of ◌>>=◌
parse_record = do
  record_type ← uint tt tt 1
  op ← uint tt tt 1
  _reserved ← uint tt tt 2
  status ← uint tt tt 4
  tid ← uint tt tt 4
  qpc ← uint tt tt 8
  extra ← uint tt tt 8
  path ← string tt
  aux ← string tt
  pure (record {
    kind = kind_of record_type op extra;
    status = status;
    tid = tid;
    qpc = qpc;
    path = path;
    aux = aux;
  })

-- A turn of the loop, from the record that was read, what the further turns make of the rest, and the cursor before it.
abbrev pub turn :
    Result (Unit {0}) Event → Option (List Event × Bool) → Cursor → Option (List Event × Bool)
turn (ok e) none c = none
turn (ok e) (some (es, truncated)) c = some (e ∷ es, truncated)
turn (err _) rest c = some ([], not (c.pos == length c.buf))

unfoldable pub parse_records : ℕ → Cursor → Option (List Event × Bool)
unfolding parse_record
parse_records zero c = none
parse_records (suc fuel) c =
    let rest = parse_records fuel (parse_record c).1 in turn (parse_record c).0 rest c

abbrev pub with_events : Trace → Option (List Event × Bool) → Option Trace
with_events t none = none
with_events t (some (events, truncated)) =
    some (record t { events = events; truncated = truncated })

unfoldable pub parse_body : Trace → Parser ParseError (Option Trace)
unfolding parse_records
parse_body t c = (ok (with_events t (parse_records (suc (length c.buf)) c)), c)

-- The header's fields after the version.
unfoldable pub parse_fields : ℕ → Parser ParseError Trace
unfolding uint string ◌>>=◌
parse_fields version = do
  pid ← uint short_header short_header 4
  parent_pid ← uint short_header short_header 4
  qpc_frequency ← uint short_header short_header 8
  start_qpc ← uint short_header short_header 8
  start_filetime ← uint short_header short_header 8
  exe_path ← string short_header
  command_line ← string short_header
  cwd ← string short_header
  pure (record {
    version = version;
    pid = pid;
    parent_pid = parent_pid;
    qpc_frequency = qpc_frequency;
    start_qpc = start_qpc;
    start_filetime = start_filetime;
    exe_path = exe_path;
    command_line = command_line;
    cwd = cwd;
    events = [];
    truncated = false;
  })

unfoldable pub parse_header : Parser ParseError Trace
unfolding take_bytes uint same parse_fields ◌>>=◌
parse_header = do
  m ← take_bytes short_header short_header 4
  _ ← guard (same m magic) bad_magic
  version ← uint short_header short_header 4
  _ ← guard (version == supported_version) (unsupported_version version)
  parse_fields version

unfoldable pub parse : List ℕ → Result ParseError (Option Trace)
unfolding parse_header parse_body ◌>>=◌
parse buf = run (parse_header >>= parse_body) buf
