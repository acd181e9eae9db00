-- ===== src/Tests/Frames.antt =====
-- Frames and metadata of crates/dataplane at concrete inputs.
use sembazuru.Base.{ℕ, ◌+◌, ◌*◌, ◌≡◌, refl, true, List, [], ◌∷◌, ◌++◌, ok, length, All, arith}
use sembazuru.Bytes.{le_bytes, IsByte}
use sembazuru.Dataplane.Wire.{OpCode, FrameHeader, encode_frame, try_encode_frame, decode_frame}
use sembazuru.Dataplane.Wire.Frames.{decode_frame-encode}
use sembazuru.Dataplane.AsyncIo.{write_frame, read_frame}
use sembazuru.Dataplane.AsyncIo.Framed.{read_frame-decode_frame}
use sembazuru.Dataplane.Ops.Metadata as Metadata
use sembazuru.Dataplane.Ops.Metadata.{present, filesystem_error, max_metadata_paths}
use sembazuru.Dataplane.Ops.RoundTrip.Metadata.{metadata_response_round_trip}
use sembazuru.Dataplane.Ops.Canonical.{metadata_response_canonical}
use sembazuru.Tests.Inputs.{ab, all_below-All}

abbrev header : FrameHeader
header = record { request_id = 258; op = OpCode.hello; is_response = true }

abbrev frame : List ℕ
frame = 14 ∷ 0 ∷ 0 ∷ 0 ∷ 2 ∷ 1 ∷ 0 ∷ 0 ∷ 0 ∷ 0 ∷ 0 ∷ 0 ∷ 7 ∷ 1 ∷ 0 ∷ 0 ∷ 9 ∷ 8 ∷ []

framed : try_encode_frame header (9 ∷ 8 ∷ []) ≡ ok frame
unfolding try_encode_frame encode_frame le_bytes
framed = refl

decode_frame-encode_example : decode_frame (frame ++ (5 ∷ [])) ≡ ok (header, 9 ∷ 8 ∷ [], 18)
decode_frame-encode_example =
    decode_frame-encode header (9 ∷ 8 ∷ []) frame (5 ∷ []) (omega arith) framed

abbrev two_entries : Metadata.MetadataResponse
two_entries = record { entries = present 32 5 1 2 3 ∷ filesystem_error 2 ∷ [] }

abbrev two_bytes : List ℕ
two_bytes =
    2 ∷ 0 ∷ 0 ∷ 0 ∷ 0 ∷ 32 ∷ 0 ∷ 0 ∷ 0 ∷ 5 ∷ 0 ∷ 0 ∷ 0 ∷ 0 ∷ 0 ∷ 0 ∷ 0 ∷ 1 ∷ 0 ∷ 0 ∷ 0 ∷ 0 ∷ 0 ∷ 0
    ∷ 0 ∷ 2 ∷ 0 ∷ 0 ∷ 0 ∷ 0 ∷ 0 ∷ 0 ∷ 0 ∷ 3 ∷ 0 ∷ 0 ∷ 0 ∷ 0 ∷ 0 ∷ 0 ∷ 0 ∷ 0 ∷ 0 ∷ 0 ∷ 0 ∷ 1 ∷ 0 ∷ 0
    ∷ 0 ∷ 0 ∷ 0 ∷ 0 ∷ 0 ∷ 0 ∷ 0 ∷ 0 ∷ 0 ∷ 0 ∷ 0 ∷ 0 ∷ 0 ∷ 0 ∷ 0 ∷ 0 ∷ 0 ∷ 0 ∷ 0 ∷ 0 ∷ 0 ∷ 0 ∷ 0 ∷ 0
    ∷ 0 ∷ 0 ∷ 0 ∷ 0 ∷ 0 ∷ 0 ∷ 0 ∷ 0 ∷ 0 ∷ 0 ∷ 2 ∷ 0 ∷ 0 ∷ 0 ∷ []

two_encoded : Metadata.encode_response two_entries ≡ ok two_bytes
unfolding Metadata.encode_response le_bytes Metadata.is_metadata_filesystem_error
two_encoded = refl

metadata_response_round_trip_example :
    (length two_bytes ≡ 4 + 2 * 41) × (Metadata.decode_response two_bytes ≡ ok two_entries)
metadata_response_round_trip_example =
    metadata_response_round_trip two_entries two_bytes
      ((omega arith, omega arith, omega arith, omega arith, omega arith), (omega arith, tt))
      two_encoded

abbrev one_path : Metadata.MetadataRequest
one_path = record { paths = ab ∷ [] }

abbrev one_path_bytes : List ℕ
one_path_bytes = 1 ∷ 0 ∷ 0 ∷ 0 ∷ 2 ∷ 0 ∷ 0 ∷ 0 ∷ 97 ∷ 98 ∷ []

one_path_encoded : Metadata.encode_request one_path ≡ ok one_path_bytes
unfolding Metadata.encode_request le_bytes
one_path_encoded = refl

abbrev error_bytes : List ℕ
error_bytes =
    1 ∷ 0 ∷ 0 ∷ 0 ∷ 1 ∷ 0 ∷ 0 ∷ 0 ∷ 0 ∷ 0 ∷ 0 ∷ 0 ∷ 0 ∷ 0 ∷ 0 ∷ 0 ∷ 0 ∷ 0 ∷ 0 ∷ 0 ∷ 0 ∷ 0 ∷ 0 ∷ 0
    ∷ 0 ∷ 0 ∷ 0 ∷ 0 ∷ 0 ∷ 0 ∷ 0 ∷ 0 ∷ 0 ∷ 0 ∷ 0 ∷ 0 ∷ 0 ∷ 0 ∷ 0 ∷ 0 ∷ 0 ∷ 2 ∷ 0 ∷ 0 ∷ 0 ∷ []

abbrev one_error : Metadata.MetadataResponse
one_error = record { entries = filesystem_error 2 ∷ [] }

one_error_encoded : Metadata.encode_response one_error ≡ ok error_bytes
unfolding Metadata.encode_response le_bytes Metadata.is_metadata_filesystem_error
one_error_encoded = refl

error_bytes_are : All IsByte error_bytes
error_bytes_are = all_below-All 256 error_bytes refl

metadata_response_canonical_example : Metadata.encode_response one_error ≡ ok error_bytes
metadata_response_canonical_example =
    metadata_response_canonical error_bytes one_error error_bytes_are
      (metadata_response_round_trip one_error error_bytes (omega arith, tt) one_error_encoded).1

frame_written : write_frame header (9 ∷ 8 ∷ []) ≡ ok frame
unfolding write_frame try_encode_frame encode_frame le_bytes
frame_written = refl

read_frame-decode_frame_example : read_frame (frame ++ []) ≡ ok ((header, 9 ∷ 8 ∷ []), [])
read_frame-decode_frame_example =
    read_frame-decode_frame (frame ++ []) header (9 ∷ 8 ∷ []) 18
      (decode_frame-encode header (9 ∷ 8 ∷ []) frame [] (omega arith) framed)
