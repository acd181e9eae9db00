-- ===== src/Dataplane/Ops/RoundTrip/Legacy.antt =====
-- A handshake whose session id is missing or broken.
use sembazuru.Base.{
  ℕ, ◌+◌, ◌^◌, ◌≤◌, ◌<◌, ◌≡◌, ap, subst, ◌∙◌, List, [], ◌++◌, append-nil, ok, err, length, drop,
  length-drop, Bool, false, Bool-cases, inl, inr, leb, ltb, arith,
}
use sembazuru.Bytes.{IsSlice}
use sembazuru.Bytes.Utf8.{is_utf8}
use sembazuru.Cursor.{Parser, ◌>>=◌, guard, or_else, take_bytes, uint}
use sembazuru.Cursor.Reads.{
  Reads, Reads-guard, ReadsAll-then, ReadsAll, ReadsAll-bind, ReadsAll-finish, ReadsAll-run, at,
  drop_past, still_within,
}
use sembazuru.Dataplane.Wire.{Error, too_large, truncated, trailing_bytes, bad_utf8, max_frame_body}
use sembazuru.Dataplane.Payload.{put_str, put_u32, put_bytes, get_str, get_bytes, get_u32}
use sembazuru.Dataplane.Payload.Fields.{IsU32, IsText, IsBlob, Reads-u32, Reads-str, Reads-bytes}
use sembazuru.Dataplane.Ops.Hello

-- `m` fails on the bytes `bs`, the buffer's last, with the cursor at the end.
record FailsAtEnd {A : Type 0} (m : Parser Error A) (bs : List ℕ) : Type 0 where
  fails :
      (buf : List ℕ) (pos : ℕ)
      → IsSlice buf
      → pos ≤ length buf
      → drop pos buf ≡ bs
      → (e : Error) × (m (at buf pos) ≡ (err e, at buf (length buf)))

module _ {A : Type 0} {m : Parser Error A} {bs : List ℕ} where
  ReadsAll-or_else : (d : A) → FailsAtEnd m bs → ReadsAll (or_else m d) bs d
  ReadsAll-or_else d h = record {
    reads_all = λ buf pos s k e. let (x, p) = h.fails buf pos s k e in rw p;
  }

take_bytes_short :
    (n : ℕ) (buf : List ℕ) (pos : ℕ)
    → length buf < pos + n
    → (e : Error) × (take_bytes too_large truncated n (at buf pos) ≡ (err e, at buf pos))
unfolding take_bytes
take_bytes_short n buf pos h = elim (Bool-cases (ltb (pos + n) (2 ^ 64))) [
  | inl fits ↦ (truncated, ground (arith, fits, h))
  | inr over ↦ (too_large, ground (arith, over))
]

at_end : (buf : List ℕ) (pos : ℕ) → pos ≤ length buf → drop pos buf ≡ [] → pos ≡ length buf
at_end buf pos h e = omega (arith, ap length e, length-drop pos buf)

FailsAtEnd-take_bytes : (n : ℕ) → 0 < n → FailsAtEnd (take_bytes too_large truncated n) []
FailsAtEnd-take_bytes n pos_n = record {
  fails = λ buf pos s k e.
      let p : pos ≡ length buf = at_end buf pos k e in
      let (x, q) = take_bytes_short n buf pos (omega arith) in
      (x, q ∙ ap (λ (j : ℕ). (err x, at buf j)) p);
}

FailsAtEnd-guard : (e : Error) (b : Bool) → b ≡ false → FailsAtEnd (guard b e) []
FailsAtEnd-guard e b f = record {
  fails = λ buf pos s k d. let p : pos ≡ length buf = at_end buf pos k d in (e, rw (f, p));
}

module _ {A B : Type 0} {m : Parser Error A} (f : A → Parser Error B) {bs cs : List ℕ} {a : A} where
  FailsAtEnd-bind : Reads m bs a → FailsAtEnd (f a) cs → FailsAtEnd (m >>= f) (bs ++ cs)
  unfolding ◌>>=◌
  FailsAtEnd-bind first then_ = record {
    fails = λ buf pos s k e.
        let (x, q) =
          then_.fails buf (pos + length bs) s (still_within buf bs cs pos k e)
            (drop_past buf bs cs pos e) in
        (x, rw (first.reads buf pos cs s k e) q);
  }

module _ {A B : Type 0} {m : Parser Error A} (f : A → Parser Error B) {bs : List ℕ} where
  FailsAtEnd-first : FailsAtEnd m bs → FailsAtEnd (m >>= f) bs
  unfolding ◌>>=◌
  FailsAtEnd-first h = record {
    fails = λ buf pos s k e. let (x, q) = h.fails buf pos s k e in (x, rw q);
  }

missing : FailsAtEnd get_str []
unfolding get_str get_bytes get_u32 uint
missing =
    FailsAtEnd-first _
      (FailsAtEnd-first _ (FailsAtEnd-first _ (FailsAtEnd-take_bytes 4 (omega arith))))

-- A length with no content behind it, readable or not.
announced : (n : ℕ) → IsU32 n → 0 < n → FailsAtEnd get_str (put_u32 n)
unfolding get_str get_bytes
announced n small some_ = FailsAtEnd-first _ (
    subst (λ (bs : List ℕ). FailsAtEnd get_bytes bs) (append-nil (put_u32 n))
      (FailsAtEnd-bind _ (Reads-u32 n small) (elim (Bool-cases (leb n max_frame_body)) [
        | inl fits ↦ FailsAtEnd-bind _ (Reads-guard too_large fits) (FailsAtEnd-take_bytes n some_)
        | inr over ↦ FailsAtEnd-first _ (FailsAtEnd-guard too_large _ over)
      ])))

garbled : (b : List ℕ) → IsBlob b → is_utf8 b ≡ false → FailsAtEnd get_str (put_bytes b)
unfolding get_str
garbled b short bad =
    subst (λ (bs : List ℕ). FailsAtEnd get_str bs) (append-nil (put_bytes b))
      (FailsAtEnd-bind _ (Reads-bytes b short)
        (FailsAtEnd-first _ (FailsAtEnd-guard bad_utf8 _ bad)))

-- The last field of a handshake, where it is missing, is announced with no content behind it, or is
-- no UTF-8.
pub data BrokenSession (tail : List ℕ) : Type 0 where
  absent : tail ≡ [] → BrokenSession tail
  cut : (n : ℕ) → IsU32 n → 0 < n → tail ≡ put_u32 n → BrokenSession tail
  no_utf8 : (b : List ℕ) → IsBlob b → is_utf8 b ≡ false → tail ≡ put_bytes b → BrokenSession tail

broken_fails : (tail : List ℕ) → BrokenSession tail → FailsAtEnd get_str tail
broken_fails tail (absent e) = rw e missing
broken_fails tail (cut n small some_ e) = rw e (announced n small some_)
broken_fails tail (no_utf8 b short bad e) = rw e (garbled b short bad)

-- A handshake with a readable token and root is accepted with an empty session id not only where
-- the third field is missing (an old peer), but also where its length is there with no content, and
-- where its content is no UTF-8.
pub hello-BrokenSession :
    (token root tail : List ℕ)
    → IsText token
    → IsText root
    → BrokenSession tail
    → IsSlice (put_str token ++ (put_str root ++ tail))
    → Hello.decode_request (put_str token ++ (put_str root ++ tail))
      ≡ ok (record { token = token; root = root; session_id = [] })
unfolding Hello.decode_request
hello-BrokenSession token root tail ht hr broken slice = ReadsAll-run slice (
    ReadsAll-bind _ (Reads-str token ht) (
      ReadsAll-bind _ (Reads-str root hr) (
        ReadsAll-then _ (ReadsAll-or_else [] (broken_fails tail broken))
          (ReadsAll-finish trailing_bytes _))))
