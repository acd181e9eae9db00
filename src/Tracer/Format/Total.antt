-- ===== src/Tracer/Format/Total.antt =====
-- The loop over the records ends: a record that is read is not empty.
use mathlib.Core.Logic.{◌≢◌}
use sembazuru.Base.{
  ℕ, zero, suc, ◌+◌, ◌*◌, ◌≤◌, ◌<◌, ◌≡◌, refl, sym, ap, ◌∙◌, Bool, List, length, All, Option, none,
  some, Result, ok, err, ok-injective, ◌==◌, leb, length-append, arith,
}
use sembazuru.Bytes.{IsByte}
use sembazuru.Bytes.Little.{length-le_bytes}
use sembazuru.Cursor.{Cursor, Parser, ◌>>=◌, pure, guard, uint, take_bytes}
use sembazuru.Cursor.Reads.{at}
use sembazuru.Cursor.Cuts.{bind_ok, bind_err}
use sembazuru.Cursor.Accepts.{Accepts, Accepts-bind, Accepts-weaken, Accepts-pure, Accepts-guard}
use sembazuru.Cursor.Sliced.{Accepts-uint, Accepts-take_bytes}
use sembazuru.Base.Texts.{same}
use sembazuru.Tracer.Utf16.{from_utf16_lossy}
use sembazuru.Tracer.Model.{Event, Trace}
use sembazuru.Tracer.Format.{
  ParseError, short_header, bad_magic, unsupported_version, magic, supported_version, units, string,
  max_string_units, parse_record, parse_fields, parse_header, turn, parse_records, parse_body,
  with_events, parse,
}

abbrev Anything : {A : Type 0} → A → List ℕ → Type 0
Anything a bs = Unit {0}

not_ok : (e : ParseError) → ◌≡◌ {A = Result ParseError (Option Trace)} (err e) (ok none) → ⊥
not_ok e h = absurd cc

through :
    {E A B : Type 0} {m : Parser E A} {f : A → Parser E B} (R : A → List ℕ → Type 0)
    → Accepts m R
    → ((a : A) → Accepts (f a) Anything)
    → Accepts (m >>= f) Anything
through {f = f} R first rest = Accepts-bind f Anything first (λ a bs r. rest a)

ends : {E A : Type 0} (a : A) → Accepts {E = E} (pure a) Anything
ends a = Accepts-weaken Anything (λ b bs r. tt) (Accepts-pure a)

Accepts-string : {E : Type 0} (e : E) → Accepts (string e) Anything
unfolding string
Accepts-string e = through _ (Accepts-uint e e 4) (λ count.
    Accepts-guard {b = leb count max_string_units} e
      (λ _. take_bytes e e (count * 2) >>= λ bytes. pure (from_utf16_lossy (units bytes))) Anything
      (λ h.
        through _ (Accepts-take_bytes e e (count * 2))
          (λ bytes. ends (from_utf16_lossy (units bytes)))))

Accepts-parse_record : Accepts parse_record (λ a bs. 1 ≤ length bs)
unfolding parse_record
Accepts-parse_record =
    Accepts-bind _ (λ a bs. 1 ≤ length bs) (Accepts-uint tt tt 1)
      (λ v bs r.
        Accepts-weaken _
          (λ a cs q. omega (arith, ap length r.0, length-le_bytes 1 v, length-append bs cs))
          (through _ (Accepts-uint tt tt 1) (λ op. through _ (Accepts-uint tt tt 2) (λ reserved.
            through _ (Accepts-uint tt tt 4) (λ status. through _ (Accepts-uint tt tt 4) (λ tid.
              through _ (Accepts-uint tt tt 8) (λ qpc. through _ (Accepts-uint tt tt 8) (λ extra.
                through _ (Accepts-string tt)
                  (λ path. through _ (Accepts-string tt) (λ aux. ends _))))))))))

record_moves :
    (buf : List ℕ) (pos : ℕ) (e : Event) (c : Cursor)
    → All IsByte buf
    → pos ≤ length buf
    → parse_record (at buf pos) ≡ (ok e, c)
    → (n : ℕ) × (c ≡ at buf n) × (n ≤ length buf) × (pos < n)
record_moves buf pos e c bytes within h =
    let r = Accepts-parse_record.accepts buf pos e c bytes within h in
    (pos + length r.bs, r.moved, r.within, omega (arith, r.related))

turn_ended :
    (e : Event) (o : Option (List Event × Bool)) (c : Cursor) → o ≢ none → turn (ok e) o c ≢ none
turn_ended e none c h = absurd (h refl)
turn_ended e (some q) c h = λ g. absurd cc

turn_ends :
    (fuel : ℕ) (buf : List ℕ) (pos : ℕ) (r : Result (Unit {0}) Event × Cursor)
    → All IsByte buf
    → pos ≤ length buf
    → parse_record (at buf pos) ≡ r
    → ((n : ℕ) → n ≤ length buf → pos < n → parse_records fuel (at buf n) ≢ none)
    → turn r.0 (parse_records fuel r.1) (at buf pos) ≢ none
turn_ends fuel buf pos (err _, c) bytes within h rest = λ g. absurd cc
turn_ends fuel buf pos (ok e, c) bytes within h rest =
    let (n, is, small, further) = record_moves buf pos e c bytes within h in
    turn_ended e (parse_records fuel c) (at buf pos) (rw is (rest n small further))

records_end :
    (fuel : ℕ) (buf : List ℕ) (pos : ℕ)
    → All IsByte buf
    → pos ≤ length buf
    → length buf < pos + fuel
    → parse_records fuel (at buf pos) ≢ none
unfolding parse_records
records_end zero buf pos bytes within enough = absurd (omega (arith, within, enough))
records_end (suc fuel) buf pos bytes within enough =
    turn_ends fuel buf pos (parse_record (at buf pos)) bytes within refl
      (λ n small further. records_end fuel buf n bytes small (omega (arith, enough, further)))

Accepts-parse_fields : (v : ℕ) → Accepts (parse_fields v) Anything
unfolding parse_fields
Accepts-parse_fields v =
    let e : ParseError = short_header in
    through _ (Accepts-uint e e 4) (λ pid. through _ (Accepts-uint e e 4) (λ parent_pid.
      through _ (Accepts-uint e e 8) (λ qpc_frequency. through _ (Accepts-uint e e 8) (λ start_qpc.
        through _ (Accepts-uint e e 8) (λ start_filetime. through _ (Accepts-string e) (λ exe_path.
          through _ (Accepts-string e)
            (λ command_line. through _ (Accepts-string e) (λ cwd. ends _))))))))

Accepts-parse_header : Accepts parse_header Anything
unfolding parse_header
Accepts-parse_header =
    let e : ParseError = short_header in
    through _ (Accepts-take_bytes e e 4) (λ m.
      Accepts-guard {b = same m magic} bad_magic
        (λ _. uint e e 4 >>= λ v.
          guard (v == supported_version) (unsupported_version v) >>= λ _. parse_fields v)
        Anything
        (λ h. through _ (Accepts-uint e e 4) (λ v.
          Accepts-guard {b = v == supported_version} (unsupported_version v) (λ _. parse_fields v)
            Anything (λ g. Accepts-parse_fields v))))

with_events_ended : (t : Trace) (o : Option (List Event × Bool)) → o ≢ none → with_events t o ≢ none
with_events_ended t none h = absurd (h refl)
with_events_ended t (some q) h = λ g. absurd cc

parsed_from :
    (buf : List ℕ) (r : Result ParseError Trace × Cursor)
    → All IsByte buf
    → parse_header (at buf 0) ≡ r
    → parse buf ≢ ok none
unfolding parse parse_body
parsed_from buf (err e, c) bytes h = λ g. absurd (
    not_ok e (
      sym (
        bind_err e parse_header parse_body (at buf 0)
          (ap (λ (r : Result ParseError Trace × Cursor). r.0) h))
      ∙ g))
parsed_from buf (ok t, c) bytes h =
    let r = Accepts-parse_header.accepts buf 0 t c bytes (omega arith) h in
    let n : ℕ = 0 + length r.bs in
    let whole =
      bind_ok parse_header parse_body (at buf 0) (at buf n) t
        (h ∙ ap (λ (d : Cursor). (ok t, d)) r.moved) in
    λ g.
      with_events_ended t (parse_records (suc (length buf)) (at buf n))
        (records_end (suc (length buf)) buf n bytes r.within (omega arith))
        (ok-injective _ _
          (sym (ap (λ (q : Result ParseError (Option Trace) × Cursor). q.0) whole) ∙ g))

-- The parser ends on every sequence of bytes, with a trace or with an error of the header: one turn more than the
-- buffer has bytes is enough for the loop over the records.
pub parse_total : (buf : List ℕ) → All IsByte buf → parse buf ≢ ok none
parse_total buf bytes = parsed_from buf (parse_header (at buf 0)) bytes refl
