-- ===== src/Dataplane/Wire.antt =====
-- crates/dataplane/src/wire.rs: frames, and the fields of a payload. The writer only appends, so
-- its methods are given as the bytes that each appends.
pub mod Frames
use sembazuru.Base.{
  ℕ, zero, suc, ◌+◌, ◌*◌, ◌^◌, ◌<◌, ◌≤◌, Bool, true, false, not, List, [], ◌∷◌, ◌++◌, Option, none,
  some, Result, ok, err, ◌>>=◌, ok_or, ltb, leb, ◌==◌, if◌then◌else◌, length, take, drop, get_or,
  bit_and, checked_add,
}
use sembazuru.Bytes.{le_bytes, from_le, IsSlice}

abbrev pub max_frame_body : ℕ
max_frame_body = 64 * 1024 * 1024

pub data Error : Type 0 where
  truncated too_large bad_utf8 trailing_bytes invalid_value : Error
  unknown_op : ℕ → Error

pub data OpCode : Type 0 where
  stat_batch open_read read dir_list write_back has hello metadata_batch_v1 : OpCode

-- `op as u8`
abbrev pub op_byte : OpCode → ℕ
op_byte OpCode.stat_batch = 1
op_byte OpCode.open_read = 2
op_byte OpCode.read = 3
op_byte OpCode.dir_list = 4
op_byte OpCode.write_back = 5
op_byte OpCode.has = 6
op_byte OpCode.hello = 7
op_byte OpCode.metadata_batch_v1 = 8

unfoldable pub from_u8 : ℕ → Result Error OpCode
from_u8 v =
    if v == 1
    then ok OpCode.stat_batch
    else if v == 2
    then ok OpCode.open_read
    else if v == 3
    then ok OpCode.read
    else if v == 4
    then ok OpCode.dir_list
    else if v == 5
    then ok OpCode.write_back
    else if v == 6
    then ok OpCode.has
    else if v == 7
    then ok OpCode.hello
    else if v == 8
    then ok OpCode.metadata_batch_v1
    else err (unknown_op v)

pub record FrameHeader : Type 0 where
  pub request_id : ℕ
  pub op : OpCode
  pub is_response : Bool

abbrev pub flag_response : ℕ
flag_response = 0x01

abbrev pub header_bytes : ℕ
header_bytes = 12

unfoldable pub encode_frame : FrameHeader → List ℕ → List ℕ
encode_frame header payload =
    le_bytes 4 (header_bytes + length payload)
    ++ (le_bytes 8 header.request_id
        ++ (op_byte header.op
            ∷ (if header.is_response then flag_response else 0)
            ∷ (le_bytes 2 0 ++ payload)))

-- The sum of two lengths, or `too_large` where it overflows.
abbrev add_lengths : ℕ → ℕ → Result Error ℕ
add_lengths a b = ok_or (checked_add a b) too_large

unfoldable pub try_encode_frame : FrameHeader → List ℕ → Result Error (List ℕ)
unfolding encode_frame
try_encode_frame header payload = do
  body_len ← add_lengths header_bytes (length payload)
  if ltb max_frame_body body_len then err too_large else ok (encode_frame header payload)

body_header : List ℕ → OpCode → FrameHeader
body_header body op = record {
  request_id = from_le (take 8 body);
  op = op;
  is_response = not (bit_and (get_or body 9 0) flag_response == 0);
}

-- The bytes that are indexed stand within the twelve that the first test asks for.
unfoldable pub decode_frame_body : List ℕ → Result Error (FrameHeader × List ℕ)
unfolding body_header
decode_frame_body body =
    if ltb (length body) header_bytes
    then err truncated
    else (do op ← from_u8 (get_or body 8 0); ok (body_header body op, drop header_bytes body))

-- The frame's last byte, from its length prefix.
unfoldable pub frame_end : List ℕ → ℕ → Result Error ℕ
frame_end buf body_len = do
  stop ← if ltb max_frame_body body_len then err too_large else add_lengths 4 body_len
  if ltb (length buf) stop then err truncated else ok stop

-- A frame's body of the given length, behind the prefix.
unfoldable pub decode_prefixed : List ℕ → ℕ → Result Error (FrameHeader × List ℕ × ℕ)
unfolding decode_frame_body frame_end
decode_prefixed buf body_len = do
  stop ← frame_end buf body_len
  (header, payload) ← decode_frame_body (take body_len (drop 4 buf))
  ok (header, payload, stop)

unfoldable pub decode_frame : List ℕ → Result Error (FrameHeader × List ℕ × ℕ)
unfolding decode_prefixed
decode_frame buf =
    if ltb (length buf) 4 then err truncated else decode_prefixed buf (from_le (take 4 buf))
