-- ===== src/Dataplane/Ops/RoundTrip/Session.antt =====
-- Output return and the handshake: WriteBack and Hello.
use sembazuru.Base.{ℕ, ◌≡◌, List, [], Result, ok}
use sembazuru.Bytes.{IsSlice}
use sembazuru.Cursor.{Cursor, or_else}
use sembazuru.Cursor.Reads.{Reads, ReadsAll-bind, ReadsAll-last, ReadsAll-finish, ReadsAll-run}
use sembazuru.Dataplane.Wire.{trailing_bytes}
use sembazuru.Dataplane.Payload.Fields.{
  IsU32, IsU64, IsText, IsBlob, Reads-u32, Reads-u64, Reads-bool, Reads-str, Reads-bytes,
}
use sembazuru.Dataplane.Ops.WriteBack
use sembazuru.Dataplane.Ops.Hello

pub record WriteBackRequestFits (r : WriteBack.WriteBackRequest) : Type 0 where
  pub output_id : IsU32 r.output_id
  pub digest : IsText r.digest_hex
  pub offset : IsU64 r.offset
  pub blob : IsBlob r.bytes
  pub slice : IsSlice (WriteBack.encode_request r)

pub record WriteBackResponseFits (r : WriteBack.WriteBackResponse) : Type 0 where
  pub detail : IsText r.detail
  pub slice : IsSlice (WriteBack.encode_response r)

-- A chunk of at most 64 MiB with a readable digest, and the agent's answer, are decoded as they were
-- encoded.
pub write_back_round_trip :
    (q : WriteBack.WriteBackRequest) (r : WriteBack.WriteBackResponse)
    → WriteBackRequestFits q
    → WriteBackResponseFits r
    → (WriteBack.decode_request (WriteBack.encode_request q) ≡ ok q)
      × (WriteBack.decode_response (WriteBack.encode_response r) ≡ ok r)
unfolding WriteBack.decode_request WriteBack.encode_request WriteBack.decode_response
    WriteBack.encode_response
write_back_round_trip q r hq hr = (
  ReadsAll-run hq.slice (
      ReadsAll-bind _ (Reads-u32 q.output_id hq.output_id) (
        ReadsAll-bind _ (Reads-str q.digest_hex hq.digest) (
          ReadsAll-bind _ (Reads-u64 q.offset hq.offset) (
            ReadsAll-bind _ (Reads-bytes q.bytes hq.blob)
              (ReadsAll-last _ (Reads-bool q.last) (ReadsAll-finish trailing_bytes q)))))),
  ReadsAll-run hr.slice (
      ReadsAll-bind _ (Reads-bool r.accepted)
        (ReadsAll-last _ (Reads-str r.detail hr.detail) (ReadsAll-finish trailing_bytes r))),
)

pub record HelloRequestFits (r : Hello.HelloRequest) : Type 0 where
  pub token : IsText r.token
  pub root : IsText r.root
  pub session_id : IsText r.session_id
  pub slice : IsSlice (Hello.encode_request r)

pub record HelloResponseFits (r : Hello.HelloResponse) : Type 0 where
  pub detail : IsText r.detail
  pub slice : IsSlice (Hello.encode_response r)

module _ {E A : Type 0} {m : Cursor → Result E A × Cursor} {bs : List ℕ} {a : A} where
  Reads-or_else : (d : A) → Reads m bs a → Reads (or_else m d) bs a
  Reads-or_else d h = record { reads = λ buf pos rest s k e. rw (h.reads buf pos rest s k e) }

-- A handshake of readable texts, and the agent's verdict, are decoded as they were encoded.
pub hello_round_trip :
    (q : Hello.HelloRequest) (r : Hello.HelloResponse)
    → HelloRequestFits q
    → HelloResponseFits r
    → (Hello.decode_request (Hello.encode_request q) ≡ ok q)
      × (Hello.decode_response (Hello.encode_response r) ≡ ok r)
unfolding Hello.decode_request Hello.encode_request Hello.decode_response Hello.encode_response
hello_round_trip q r hq hr = (
  ReadsAll-run hq.slice (
      ReadsAll-bind _ (Reads-str q.token hq.token) (
        ReadsAll-bind _ (Reads-str q.root hq.root) (
          ReadsAll-last _ (Reads-or_else [] (Reads-str q.session_id hq.session_id))
            (ReadsAll-finish trailing_bytes q)))),
  ReadsAll-run hr.slice (
      ReadsAll-bind _ (Reads-bool r.accepted)
        (ReadsAll-last _ (Reads-str r.detail hr.detail) (ReadsAll-finish trailing_bytes r))),
)
