-- ===== src/Tracer/Format/Records.antt =====
-- The parts of a trace are read back, and a part that is cut short is an error.
use sembazuru.Base.{
  ℕ, ◌*◌, ◌^◌, ◌<◌, ◌≡◌, refl, ap, false, List, [], ◌∷◌, ◌++◌, length, All, arith, ◌==◌, le→leb,
}
use sembazuru.Base.Texts.{same, same_refl}
use sembazuru.Bytes.{le_bytes}
use sembazuru.Cursor.{Parser, ◌>>=◌, guard, take_bytes, uint}
use sembazuru.Cursor.Cuts.{
  Field, Field-bind, Field-last, Field-pure, Field-guard, Field-take_bytes, Field-uint,
}
use sembazuru.Tracer.Utf16.{from_utf16_lossy}
use sembazuru.Tracer.Model.{Trace}
use sembazuru.Tracer.Format.{
  magic, supported_version, short_header, bad_magic, unsupported_version, ParseError, units, string,
  parse_record, parse_fields, parse_header, max_string_units,
}
use sembazuru.Tracer.Format.Layout.{
  put_units, put_string, IsWide, RawRecord, IsRecord, put_record, event_of, RawHeader, IsHeader,
  put_fields, put_header, trace_of,
}

pub length-put_units : (us : List ℕ) → length (put_units us) ≡ length us * 2
unfolding le_bytes
length-put_units [] = refl
length-put_units (u ∷ us) = omega (arith, length-put_units us)

pub units-put_units : (us : List ℕ) → All (λ u. u < 256 ^ 2) us → units (put_units us) ≡ us
unfolding units le_bytes
units-put_units [] h = refl
units-put_units (u ∷ us) h =
    rw (units-put_units us h.1) (ap (λ (v : ℕ). v ∷ us) (omega (arith, h.0)))

pub Field-string :
    {E : Type 0} (e : E) (us : List ℕ)
    → IsWide us
    → Field e (string e) (put_string us) (from_utf16_lossy us)
unfolding string
Field-string e us h = Field-bind _ (Field-uint e 4 (length us) (omega (arith, h.short))) (
    Field-guard e e _ (le→leb (length us) max_string_units h.short) (
      Field-last _ (Field-take_bytes e (length us * 2) (put_units us) (length-put_units us))
        (rw (units-put_units us h.wide) (Field-pure e (from_utf16_lossy us)))))

pub Field-parse_record :
    (r : RawRecord) → IsRecord r → Field tt parse_record (put_record r) (event_of r)
unfolding parse_record
Field-parse_record r h = Field-bind _ (Field-uint tt 1 r.record_type h.record_type) (
    Field-bind _ (Field-uint tt 1 r.op h.op) (
      Field-bind _ (Field-uint tt 2 r.reserved h.reserved) (
        Field-bind _ (Field-uint tt 4 r.status h.status) (
          Field-bind _ (Field-uint tt 4 r.tid h.tid) (
            Field-bind _ (Field-uint tt 8 r.qpc h.qpc) (
              Field-bind _ (Field-uint tt 8 r.extra h.extra) (
                Field-bind _ (Field-string tt r.path h.path)
                  (Field-last _ (Field-string tt r.aux h.aux) (Field-pure tt (event_of r))))))))))

Field-parse_fields :
    (h : RawHeader)
    → IsHeader h
    → Field short_header (parse_fields supported_version) (put_fields h) (trace_of h [] false)
unfolding parse_fields
Field-parse_fields h w =
    let e : ParseError = short_header in
    Field-bind _ (Field-uint e 4 h.pid w.pid) (
      Field-bind _ (Field-uint e 4 h.parent_pid w.parent_pid) (
        Field-bind _ (Field-uint e 8 h.qpc_frequency w.qpc_frequency) (
          Field-bind _ (Field-uint e 8 h.start_qpc w.start_qpc) (
            Field-bind _ (Field-uint e 8 h.start_filetime w.start_filetime) (
              Field-bind _ (Field-string e h.exe_path w.exe_path) (
                Field-bind _ (Field-string e h.command_line w.command_line) (
                  Field-last _ (Field-string e h.cwd w.cwd)
                    (Field-pure e (trace_of h [] false)))))))))

abbrev after_version : ℕ → Parser ParseError Trace
after_version v = guard (v == supported_version) (unsupported_version v) >>= λ _. parse_fields v

abbrev after_magic : List ℕ → Parser ParseError Trace
after_magic m =
    guard (same m magic) bad_magic >>= λ _. uint short_header short_header 4 >>= after_version

Field-after_magic :
    (h : RawHeader)
    → IsHeader h
    → Field short_header
        (after_magic magic)
        (le_bytes 4 supported_version ++ put_fields h)
        (trace_of h [] false)
Field-after_magic h w =
    let e : ParseError = short_header in
    Field-guard e bad_magic (λ _. uint e e 4 >>= after_version) (same_refl magic)
      (Field-bind after_version (Field-uint e 4 supported_version (omega arith)) (
        Field-guard e (unsupported_version supported_version) (λ _. parse_fields supported_version)
          refl (Field-parse_fields h w)))

pub Field-parse_header :
    (h : RawHeader)
    → IsHeader h
    → Field short_header parse_header (put_header h) (trace_of h [] false)
unfolding parse_header
Field-parse_header h w =
    Field-bind {m = take_bytes short_header short_header 4} after_magic {bs = magic} {a = magic}
      {cs = le_bytes 4 supported_version ++ put_fields h}
      (Field-take_bytes short_header 4 magic refl) (Field-after_magic h w)
