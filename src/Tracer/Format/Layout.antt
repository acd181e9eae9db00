-- ===== src/Tracer/Format/Layout.antt =====
-- The layout of docs/trace-format.md, sections 3 to 5: how a writer puts a header and a record down.
use sembazuru.Base.{ℕ, ◌^◌, ◌≤◌, ◌<◌, Bool, List, ◌++◌, length, All, concat_map}
use sembazuru.Bytes.{le_bytes}
use sembazuru.Tracer.Utf16.{from_utf16_lossy}
use sembazuru.Tracer.Model.{Event, Trace}
use sembazuru.Tracer.Format.{magic, supported_version, max_string_units, kind_of}

abbrev pub put_units : List ℕ → List ℕ
put_units us = concat_map (le_bytes 2) us

abbrev pub put_string : List ℕ → List ℕ
put_string us = le_bytes 4 (length us) ++ put_units us

pub record IsWide (us : List ℕ) : Type 0 where
  pub short : length us ≤ max_string_units
  pub wide : All (λ u. u < 256 ^ 2) us

-- A record as a writer has it: its strings are UTF-16 code units.
pub record RawRecord : Type 0 where
  pub record_type : ℕ
  pub op : ℕ
  pub reserved : ℕ
  pub status : ℕ
  pub tid : ℕ
  pub qpc : ℕ
  pub extra : ℕ
  pub path : List ℕ
  pub aux : List ℕ

pub record IsRecord (r : RawRecord) : Type 0 where
  pub record_type : r.record_type < 256 ^ 1
  pub op : r.op < 256 ^ 1
  pub reserved : r.reserved < 256 ^ 2
  pub status : r.status < 256 ^ 4
  pub tid : r.tid < 256 ^ 4
  pub qpc : r.qpc < 256 ^ 8
  pub extra : r.extra < 256 ^ 8
  pub path : IsWide r.path
  pub aux : IsWide r.aux

abbrev pub put_record : RawRecord → List ℕ
put_record r =
    le_bytes 1 r.record_type
    ++ (le_bytes 1 r.op
        ++ (le_bytes 2 r.reserved
            ++ (le_bytes 4 r.status
                ++ (le_bytes 4 r.tid
                    ++ (le_bytes 8 r.qpc
                        ++ (le_bytes 8 r.extra ++ (put_string r.path ++ put_string r.aux)))))))

abbrev pub event_of : RawRecord → Event
event_of r = record {
  kind = kind_of r.record_type r.op r.extra;
  status = r.status;
  tid = r.tid;
  qpc = r.qpc;
  path = from_utf16_lossy r.path;
  aux = from_utf16_lossy r.aux;
}

pub record RawHeader : Type 0 where
  pub pid : ℕ
  pub parent_pid : ℕ
  pub qpc_frequency : ℕ
  pub start_qpc : ℕ
  pub start_filetime : ℕ
  pub exe_path : List ℕ
  pub command_line : List ℕ
  pub cwd : List ℕ

pub record IsHeader (h : RawHeader) : Type 0 where
  pub pid : h.pid < 256 ^ 4
  pub parent_pid : h.parent_pid < 256 ^ 4
  pub qpc_frequency : h.qpc_frequency < 256 ^ 8
  pub start_qpc : h.start_qpc < 256 ^ 8
  pub start_filetime : h.start_filetime < 256 ^ 8
  pub exe_path : IsWide h.exe_path
  pub command_line : IsWide h.command_line
  pub cwd : IsWide h.cwd

abbrev pub put_fields : RawHeader → List ℕ
put_fields h =
    le_bytes 4 h.pid
    ++ (le_bytes 4 h.parent_pid
        ++ (le_bytes 8 h.qpc_frequency
            ++ (le_bytes 8 h.start_qpc
                ++ (le_bytes 8 h.start_filetime
                    ++ (put_string h.exe_path
                        ++ (put_string h.command_line ++ put_string h.cwd))))))

abbrev pub put_header : RawHeader → List ℕ
put_header h = magic ++ (le_bytes 4 supported_version ++ put_fields h)

abbrev pub trace_of : RawHeader → List Event → Bool → Trace
trace_of h events truncated = record {
  version = supported_version;
  pid = h.pid;
  parent_pid = h.parent_pid;
  qpc_frequency = h.qpc_frequency;
  start_qpc = h.start_qpc;
  start_filetime = h.start_filetime;
  exe_path = from_utf16_lossy h.exe_path;
  command_line = from_utf16_lossy h.command_line;
  cwd = from_utf16_lossy h.cwd;
  events = events;
  truncated = truncated;
}
