-- ===== src/Tracer/Format/Ends.antt =====
-- A trace is read back up to where its writer stopped.
use sembazuru.Base.{
  ℕ, zero, suc, ◌+◌, ◌≤◌, ◌<◌, ◌≡◌, refl, ap, ◌∙◌, Bool, true, false, not, List, [], ◌∷◌, ◌++◌, map,
  length, All, concat_map, Option, some, Result, ok, err, ◌==◌, drop, length-append, length-drop,
  append_assoc, arith,
}
use sembazuru.Bytes.{IsSlice, le_bytes}
use sembazuru.Cursor.{Cursor}
use sembazuru.Cursor.Reads.{at, drop_past, still_within}
use sembazuru.Cursor.Cuts.{bind_ok, bind_err}
use sembazuru.Tracer.Model.{Event, Trace}
use sembazuru.Tracer.Format.{
  ParseError, short_header, parse_record, turn, parse_records, with_events, parse_body,
  parse_header, parse,
}
use sembazuru.Tracer.Format.Layout.{
  RawRecord, IsRecord, put_record, event_of, RawHeader, IsHeader, put_header, trace_of,
}
use sembazuru.Tracer.Format.Records.{Field-parse_record, Field-parse_header}

abbrev pub is_empty : List ℕ → Bool
is_empty [] = true
is_empty (b ∷ bs) = false

turn_err :
    (r : Result (Unit {0}) Event) (rest : Option (List Event × Bool)) (c : Cursor)
    → r ≡ err tt
    → turn r rest c ≡ some ([], not (c.pos == length c.buf))
turn_err (ok e) rest c h = absurd cc
turn_err (err _) rest c h = refl

at_end : (front : List ℕ) (pos n : ℕ) → n ≡ pos + length front → (pos == n) ≡ is_empty front
at_end [] pos n h = ground arith
at_end (b ∷ bs) pos n h = ground arith

length-put_record : (r : RawRecord) → 1 ≤ length (put_record r)
unfolding le_bytes
length-put_record r = omega arith

-- Where the complete records `rs` and part of another come next, the loop answers their events.
records_read :
    (rs : List RawRecord) (last : RawRecord) (front back buf : List ℕ) (pos fuel : ℕ)
    → IsSlice buf
    → pos ≤ length buf
    → drop pos buf ≡ concat_map put_record rs ++ front
    → All IsRecord rs
    → IsRecord last
    → front ++ back ≡ put_record last
    → 0 < length back
    → length buf < pos + fuel
    → parse_records fuel (at buf pos) ≡ some (map event_of rs, not (is_empty front))
unfolding parse_records
records_read rs last front back buf pos zero s within e h g cut some_back enough =
    absurd (omega (arith, within, enough))
records_read [] last front back buf pos (suc fuel) s within e h g cut some_back enough =
    let fails : (parse_record (at buf pos)).0 ≡ err tt =
      (Field-parse_record last g).cut.cuts buf pos back s within
        (ap (λ (x : List ℕ). x ++ back) e ∙ cut) some_back in
    let size : length buf ≡ pos + length front =
      omega (arith, within, ap length e, length-drop pos buf) in
    turn_err (parse_record (at buf pos)).0 (parse_records fuel (parse_record (at buf pos)).1)
      (at buf pos) fails
    ∙ ap (λ (b : Bool). some ([], not b)) (at_end front pos (length buf) size)
records_read (r ∷ rs) last front back buf pos (suc fuel) s within e h g cut some_back enough =
    let rest : List ℕ = concat_map put_record rs ++ front in
    let e' : drop pos buf ≡ put_record r ++ rest =
      e ∙ append_assoc (put_record r) (concat_map put_record rs) front in
    let reads : parse_record (at buf pos)
        ≡ (ok (event_of r), at buf (pos + length (put_record r))) =
      (Field-parse_record r h.0).whole.reads buf pos rest s within e' in
    rw reads (
      ap (λ (o : Option (List Event × Bool)). turn (ok (event_of r)) o (at buf pos))
        (records_read rs last front back buf (pos + length (put_record r)) fuel s
          (still_within buf (put_record r) rest pos within e')
          (drop_past buf (put_record r) rest pos e') h.1 g cut some_back
          (omega (arith, enough, length-put_record r))))

body_parsed :
    (buf : List ℕ) (pos : ℕ) (t : Trace) (o : Option (List Event × Bool))
    → parse_header (at buf 0) ≡ (ok t, at buf pos)
    → parse_records (suc (length buf)) (at buf pos) ≡ o
    → parse buf ≡ ok (with_events t o)
unfolding parse parse_body
body_parsed buf pos t o h e =
    ap (λ (r : Result ParseError (Option Trace) × Cursor). r.0)
      (bind_ok parse_header parse_body (at buf 0) (at buf pos) t h)
    ∙ ap (λ (q : Option (List Event × Bool)). ok (with_events t q)) e

-- A trace of a header, complete records and the part of a last record that its writer had put down when it stopped is
-- read as the header and the events of the complete records, and is marked as truncated exactly when that part
-- is not empty.
pub parse-crashed :
    (h : RawHeader) (rs : List RawRecord) (last : RawRecord) (front back : List ℕ)
    → IsHeader h
    → All IsRecord rs
    → IsRecord last
    → front ++ back ≡ put_record last
    → 0 < length back
    → IsSlice (put_header h ++ (concat_map put_record rs ++ front))
    → parse (put_header h ++ (concat_map put_record rs ++ front))
      ≡ ok (some (trace_of h (map event_of rs) (not (is_empty front))))
parse-crashed h rs last front back w ws wl cut some_back s =
    let rest : List ℕ = concat_map put_record rs ++ front in
    let buf : List ℕ = put_header h ++ rest in
    body_parsed buf (0 + length (put_header h)) (trace_of h [] false)
      (some (map event_of rs, not (is_empty front)))
      ((Field-parse_header h w).whole.reads buf 0 rest s (omega arith) refl)
      (records_read rs last front back buf (0 + length (put_header h)) (suc (length buf)) s
        (omega (arith, length-append (put_header h) rest))
        (drop_past buf (put_header h) rest 0 refl) ws wl cut some_back (omega arith))

-- A file that ends within the header is refused as too short.
pub parse-short :
    (h : RawHeader) (front back : List ℕ)
    → IsHeader h
    → front ++ back ≡ put_header h
    → 0 < length back
    → IsSlice front
    → parse front ≡ err short_header
unfolding parse
parse-short h front back w cut some_back s =
    bind_err short_header parse_header parse_body (at front 0)
      ((Field-parse_header h w).cut.cuts front 0 back s (omega arith) cut some_back)
