-- ===== src/Dataplane/AsyncIo.antt =====
-- crates/dataplane/src/async_io.rs: a frame read from a stream. The stream is the list of the bytes that
-- come, and `read_exact` fails where it ends too early, as tokio documents.
pub mod Framed
use sembazuru.Base.{
  ℕ, ◌-◌, Bool, List, [], ◌∷◌, ◌++◌, Result, ok, err, ◌>>=◌, ltb, if◌then◌else◌, length, take, drop,
}
use sembazuru.Bytes.{from_le}
use sembazuru.Dataplane.Wire.{
  Error, FrameHeader, max_frame_body, decode_frame_body, try_encode_frame,
}

pub data IoError : Type 0 where
  invalid_data unexpected_eof : IoError
  other : ℕ → IoError

unfoldable pub read_exact : ℕ → List ℕ → Result IoError (List ℕ × List ℕ)
read_exact n stream =
    if ltb (length stream) n then err unexpected_eof else ok (take n stream, drop n stream)

abbrev pub invalid : {A : Type 0} → Result Error A → Result IoError A
invalid (ok a) = ok a
invalid (err e) = err invalid_data

-- What `write_all` is given.
unfoldable pub write_frame : FrameHeader → List ℕ → Result IoError (List ℕ)
write_frame header payload = invalid (try_encode_frame header payload)

abbrev pub check_len : ℕ → Result IoError (Unit {0})
check_len body_len = if ltb max_frame_body body_len then err invalid_data else ok tt

-- The frame, what the guard gave, and the rest of the stream.
unfoldable pub read_frame_with_body_guard :
    {G : Type 0}
    → (ℕ → Result IoError G)
    → List ℕ
    → Result IoError ((FrameHeader × List ℕ) × G × List ℕ)
unfolding read_exact
read_frame_with_body_guard acquire_body_guard stream = do
  (len_buf, behind) ← read_exact 4 stream
  _ ← check_len (from_le len_buf)
  guard ← acquire_body_guard (from_le len_buf)
  (body, rest) ← read_exact (from_le len_buf) behind
  frame ← invalid (decode_frame_body body)
  ok (frame, guard, rest)

unfoldable pub read_frame : List ℕ → Result IoError ((FrameHeader × List ℕ) × List ℕ)
unfolding read_frame_with_body_guard
read_frame stream = do
  (frame, _, rest) ← read_frame_with_body_guard {G = Unit {0}} (λ n. ok tt) stream
  ok (frame, rest)
