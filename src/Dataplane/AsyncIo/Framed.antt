-- ===== src/Dataplane/AsyncIo/Framed.antt =====
-- What crates/dataplane/src/async_io.rs reads is what `decode_frame` decodes.
use sembazuru.Base.{
  ℕ, ◌+◌, ◌<◌, ◌≤◌, ◌^◌, ◌≡◌, ap, ◌∙◌, false, List, ◌++◌, Result, ok, err, >>=-eq-ok, ok-injective,
  ltb, length, take, drop, Bool-cases, inl, inr, drop-drop, length-drop, drop-length_append, arith,
}
use sembazuru.Bytes.{from_le}
use sembazuru.Dataplane.Wire.{
  Error, FrameHeader, max_frame_body, decode_frame_body, try_encode_frame, decode_prefixed,
  frame_end, decode_frame,
}
use sembazuru.Dataplane.Wire.Frames.{decode_frame-encode}
use sembazuru.Dataplane.AsyncIo.{
  read_exact, invalid, write_frame, read_frame_with_body_guard, read_frame,
}

frame_end_inv :
    (buf : List ℕ) (k n : ℕ)
    → 4 ≤ length buf
    → frame_end buf k ≡ ok n
    → (ltb max_frame_body k ≡ false) × (n ≡ 4 + k) × (4 + k ≤ length buf)
unfolding frame_end
frame_end_inv buf k n long h = (ground (arith, h), ground (arith, h), ground (arith, h))

module _ (h : FrameHeader) (p : List ℕ) (h2 : FrameHeader) (p2 : List ℕ) (n stop : ℕ) where
  abbrev SameTriple : Type 0
  SameTriple = ◌≡◌ {A = Result Error (FrameHeader × List ℕ × ℕ)} (ok (h2, p2, stop)) (ok (h, p, n))

  triple_stop : SameTriple → stop ≡ n
  triple_stop e = ap (λ x. x.2) (ok-injective (h2, p2, stop) (h, p, n) e)

  triple_frame :
      SameTriple → ◌≡◌ {A = Result Error (FrameHeader × List ℕ)} (ok (h2, p2)) (ok (h, p))
  triple_frame e = ap (λ x. ok (x.0, x.1)) (ok-injective (h2, p2, stop) (h, p, n) e)

prefixed_inv :
    (buf : List ℕ) (k n : ℕ) (h : FrameHeader) (p : List ℕ)
    → decode_prefixed buf k ≡ ok (h, p, n)
    → (frame_end buf k ≡ ok n) × (decode_frame_body (take k (drop 4 buf)) ≡ ok (h, p))
unfolding decode_prefixed
prefixed_inv buf k n h p e =
    let (stop, first, next) = >>=-eq-ok (frame_end buf k) _ e in
    let ((h2, p2), second, last) = >>=-eq-ok (decode_frame_body (take k (drop 4 buf))) _ next in
    (first ∙ ap ok (triple_stop h p h2 p2 n stop last), second ∙ triple_frame h p h2 p2 n stop last)

valid : (r : Result Error (List ℕ)) (out : List ℕ) → invalid r ≡ ok out → r ≡ ok out
valid (ok a) out e = cc
valid (err x) out e = cc

-- What `decode_frame` finds at the head of a stream is read, and the rest of the stream is left.
pub read_frame-decode_frame :
    (stream : List ℕ) (h : FrameHeader) (p : List ℕ) (n : ℕ)
    → decode_frame stream ≡ ok (h, p, n)
    → read_frame stream ≡ ok ((h, p), drop n stream)
unfolding decode_frame read_frame read_frame_with_body_guard read_exact
read_frame-decode_frame stream h p n e = elim (Bool-cases (ltb (length stream) 4)) [
  | inl short ↦ absurd (ground (arith, short, e))
  | inr long ↦
      let k = from_le (take 4 stream) in
      let (stop, body) = prefixed_inv stream k n h p (rw long at e) in
      let (small, is, fits) = frame_end_inv stream k n (ground (arith, long)) stop in
      let enough : ltb (length (drop 4 stream)) k ≡ false =
        ground (arith, length-drop 4 stream, fits) in
      rw (long, small, enough, body, is) (ap (λ r. ok ((h, p), r)) (drop-drop 4 k stream))
]

-- A frame with a 64-bit request id that is written is read back, whatever comes behind it.
pub read_frame-write_frame :
    (h : FrameHeader) (p out rest : List ℕ)
    → h.request_id < 2 ^ 64
    → write_frame h p ≡ ok out
    → read_frame (out ++ rest) ≡ ok ((h, p), rest)
unfolding write_frame
read_frame-write_frame h p out rest small e =
    read_frame-decode_frame (out ++ rest) h p (length out)
      (decode_frame-encode h p out rest small (valid (try_encode_frame h p) out e))
    ∙ ap (λ r. ok ((h, p), r)) (drop-length_append out rest)
