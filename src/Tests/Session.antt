-- ===== src/Tests/Session.antt =====
-- The handshake and the write-back of crates/dataplane/src/ops.rs at concrete inputs.
use sembazuru.Base.{◌≡◌, refl, true, false, [], ◌∷◌, ◌++◌, ok, arith}
use sembazuru.Bytes.{le_bytes, IsSlice}
use sembazuru.Dataplane.Payload.{put_u32, put_str}
use sembazuru.Dataplane.Ops.WriteBack as WriteBack
use sembazuru.Dataplane.Ops.Hello as Hello
use sembazuru.Dataplane.Ops.RoundTrip.Legacy.{hello-BrokenSession, cut}
use sembazuru.Tests.Inputs.{ab, ab-IsText}

abbrev write_request : WriteBack.WriteBackRequest
write_request = record { output_id = 3; digest_hex = ab; offset = 7; bytes = 200 ∷ []; last = true }

abbrev write_response : WriteBack.WriteBackResponse
write_response = record { accepted = false; detail = ab }

write_request-IsSlice : IsSlice (WriteBack.encode_request write_request)
unfolding WriteBack.encode_request le_bytes
write_request-IsSlice = omega arith

write_response-IsSlice : IsSlice (WriteBack.encode_response write_response)
unfolding WriteBack.encode_response le_bytes
write_response-IsSlice = omega arith

abbrev hello_request : Hello.HelloRequest
hello_request = record { token = ab; root = ab; session_id = ab }

abbrev hello_response : Hello.HelloResponse
hello_response = record { accepted = true; detail = ab }

hello_request-IsSlice : IsSlice (Hello.encode_request hello_request)
unfolding Hello.encode_request le_bytes
hello_request-IsSlice = omega arith

hello_response-IsSlice : IsSlice (Hello.encode_response hello_response)
unfolding Hello.encode_response le_bytes
hello_response-IsSlice = omega arith

cut-IsSlice : IsSlice (put_str ab ++ (put_str ab ++ put_u32 9))
unfolding put_str put_u32 le_bytes
cut-IsSlice = omega arith

-- The session id is announced with nine bytes, and none follows.
hello-BrokenSession_example :
    Hello.decode_request (put_str ab ++ (put_str ab ++ put_u32 9))
    ≡ ok (record { token = ab; root = ab; session_id = [] })
hello-BrokenSession_example =
    hello-BrokenSession ab ab (put_u32 9) ab-IsText ab-IsText
      (cut 9 (omega arith) (omega arith) refl) cut-IsSlice
