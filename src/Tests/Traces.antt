-- ===== src/Tests/Traces.antt =====
-- crates/tracer at concrete inputs.
use mathlib.Core.Logic.{◌≢◌}
use sembazuru.Base.{
  ◌^◌, ◌≡◌, refl, true, [], ◌∷◌, ◌++◌, none, some, ok, take, drop, concat_map, arith,
}
use sembazuru.Bytes.{le_bytes}
use sembazuru.Tracer.Format.{parse}
use sembazuru.Tracer.Format.Layout.{
  IsWide, RawRecord, IsRecord, put_record, event_of, RawHeader, IsHeader, put_header, trace_of,
}
use sembazuru.Tracer.Format.Ends.{parse-crashed}
use sembazuru.Tracer.Format.Total.{parse_total}
use sembazuru.Tests.Inputs.{ab, ab-bytes, all_below-All}

ab-IsWide : IsWide ab
ab-IsWide = record { short = omega arith; wide = all_below-All (256 ^ 2) ab refl }

-- The file `ab` was opened for reading.
abbrev opened : RawRecord
opened = record {
  record_type = 1;
  op = 1;
  reserved = 0;
  status = 0;
  tid = 7;
  qpc = 100;
  extra = 0;
  path = ab;
  aux = [];
}

opened-IsRecord : IsRecord opened
opened-IsRecord = record {
  record_type = omega arith;
  op = omega arith;
  reserved = omega arith;
  status = omega arith;
  tid = omega arith;
  qpc = omega arith;
  extra = omega arith;
  path = ab-IsWide;
  aux = record { short = omega arith; wide = tt };
}

abbrev compiler : RawHeader
compiler = record {
  pid = 42;
  parent_pid = 1;
  qpc_frequency = 1000;
  start_qpc = 5;
  start_filetime = 6;
  exe_path = ab;
  command_line = ab;
  cwd = ab;
}

compiler-IsHeader : IsHeader compiler
compiler-IsHeader = record {
  pid = omega arith;
  parent_pid = omega arith;
  qpc_frequency = omega arith;
  start_qpc = omega arith;
  start_filetime = omega arith;
  exe_path = ab-IsWide;
  command_line = ab-IsWide;
  cwd = ab-IsWide;
}

-- One record, and three bytes of another.
parse-crashed_example :
    parse
      (put_header compiler ++ (concat_map put_record (opened ∷ []) ++ take 3 (put_record opened)))
    ≡ ok (some (trace_of compiler (event_of opened ∷ []) true))
unfolding le_bytes
parse-crashed_example =
    parse-crashed compiler (opened ∷ []) opened (take 3 (put_record opened))
      (drop 3 (put_record opened)) compiler-IsHeader (opened-IsRecord, tt) opened-IsRecord
      (unfold le_bytes in refl) (unfold le_bytes in omega arith) (unfold le_bytes in omega arith)

parse_total_example : parse ab ≢ ok none
parse_total_example = parse_total ab ab-bytes
