-- ===== src/Dataplane/Wire/Frames.antt =====
-- Frames: what is encoded is decoded, a cut frame is reported, and what the decoder accepts.
use sembazuru.Base.{
  ℕ, zero, suc, ◌+◌, ◌-◌, ◌^◌, ◌≤◌, ◌<◌, ◌≡◌, refl, sym, ap, ◌∙◌, subst, Bool, true, false, not,
  List, [], ◌∷◌, ◌++◌, append_assoc, ok, err, Result-cases, inl, inr, length, take, drop,
  length-append, length-take, length-drop, take-length_append, drop-length_append, Bool-cases, ltb,
  ◌==◌, le→ltb, if◌then◌else◌, bit_and, min, arith,
}
use sembazuru.Bytes.{le_bytes, from_le}
use sembazuru.Bytes.Little.{length-le_bytes, from_le-le_bytes}
use sembazuru.Dataplane.Wire.{
  truncated, OpCode, op_byte, from_u8, FrameHeader, flag_response, max_frame_body, try_encode_frame,
  decode_frame_body, frame_end, decode_prefixed, decode_frame, body_header,
}

pub from_u8-op_byte : (op : OpCode) → from_u8 (op_byte op) ≡ ok op
unfolding from_u8
from_u8-op_byte OpCode.stat_batch = refl
from_u8-op_byte OpCode.open_read = refl
from_u8-op_byte OpCode.read = refl
from_u8-op_byte OpCode.dir_list = refl
from_u8-op_byte OpCode.write_back = refl
from_u8-op_byte OpCode.has = refl
from_u8-op_byte OpCode.hello = refl
from_u8-op_byte OpCode.metadata_batch_v1 = refl

-- The body of an encoded frame.
abbrev body_of : FrameHeader → List ℕ → List ℕ
body_of h p =
    le_bytes 8 h.request_id
    ++ (op_byte h.op ∷ (if h.is_response then flag_response else 0) ∷ (le_bytes 2 0 ++ p))

length-body_of : (h : FrameHeader) (p : List ℕ) → length (body_of h p) ≡ 12 + length p
unfolding le_bytes
length-body_of h p = omega arith

flag_back : (b : Bool) → not (bit_and (if b then flag_response else 0) flag_response == 0) ≡ b
flag_back true = refl
flag_back false = refl

decode-body_of :
    (h : FrameHeader) (p : List ℕ)
    → h.request_id < 2 ^ 64
    → decode_frame_body (body_of h p) ≡ ok (h, p)
unfolding decode_frame_body le_bytes
decode-body_of h p small =
    let id : from_le (le_bytes 8 h.request_id) ≡ h.request_id =
      from_le-le_bytes 8 h.request_id small in
    ground (arith, id, from_u8-op_byte h.op, flag_back h.is_response)

encode-body_of :
    (h : FrameHeader) (p out : List ℕ)
    → try_encode_frame h p ≡ ok out
    → (12 + length p ≤ max_frame_body) × (out ≡ le_bytes 4 (12 + length p) ++ body_of h p)
unfolding try_encode_frame
encode-body_of h p out e = ground arith

frame_end_within :
    (buf : List ℕ) (n : ℕ) → n ≤ max_frame_body → 4 + n ≤ length buf → frame_end buf n ≡ ok (4 + n)
unfolding frame_end
frame_end_within buf n h k = ground arith

frame_end_cut :
    (buf : List ℕ) (n : ℕ)
    → n ≤ max_frame_body
    → length buf < 4 + n
    → frame_end buf n ≡ err truncated
unfolding frame_end
frame_end_cut buf n h k = ground arith

take_prefix : (n : ℕ) (xs ys : List ℕ) → n ≤ length xs → take n (xs ++ ys) ≡ take n xs
take_prefix zero xs ys h = refl
take_prefix (suc n) [] ys h = absurd (omega arith)
take_prefix (suc n) (x ∷ xs) ys h = ap (λ r. x ∷ r) (take_prefix n xs ys (omega arith))

prefix_read : (n : ℕ) (r : List ℕ) → n ≤ max_frame_body → from_le (take 4 (le_bytes 4 n ++ r)) ≡ n
prefix_read n r h =
    let four : take 4 (le_bytes 4 n ++ r) ≡ le_bytes 4 n =
      subst (λ (k : ℕ). take k (le_bytes 4 n ++ r) ≡ le_bytes 4 n) (length-le_bytes 4 n)
        (take-length_append (le_bytes 4 n) r) in
    rw four (from_le-le_bytes 4 n (omega arith))

drop_prefix : (n : ℕ) (r : List ℕ) → drop 4 (le_bytes 4 n ++ r) ≡ r
drop_prefix n r =
    subst (λ (k : ℕ). drop k (le_bytes 4 n ++ r) ≡ r) (length-le_bytes 4 n)
      (drop-length_append (le_bytes 4 n) r)

decode_prefixed-body :
    (h : FrameHeader) (p rest : List ℕ) (n : ℕ)
    → h.request_id < 2 ^ 64
    → n ≡ 12 + length p
    → n ≤ max_frame_body
    → decode_prefixed (le_bytes 4 n ++ (body_of h p ++ rest)) n ≡ ok (h, p, 4 + n)
unfolding decode_prefixed
decode_prefixed-body h p rest n small e fits =
    let size : length (le_bytes 4 n ++ (body_of h p ++ rest)) ≡ 4 + n + length rest = omega (
      arith,
      length-append (le_bytes 4 n) (body_of h p ++ rest),
      length-append (body_of h p) rest,
      length-le_bytes 4 n,
      length-body_of h p,
    ) in
    let body : take n (body_of h p ++ rest) ≡ body_of h p =
      subst (λ (k : ℕ). take k (body_of h p ++ rest) ≡ body_of h p) (length-body_of h p ∙ sym e)
        (take-length_append (body_of h p) rest) in
    rw (
      frame_end_within (le_bytes 4 n ++ (body_of h p ++ rest)) n fits (omega arith),
      drop_prefix n (body_of h p ++ rest),
      body,
      decode-body_of h p small,
    )

-- Decoding inverts encoding on a stream: of the frame `try_encode_frame` made of a header with a
-- 64-bit request id and a payload, followed by any bytes, `decode_frame` answers that header, that
-- payload and the frame's length.
pub decode_frame-encode :
    (h : FrameHeader) (p out rest : List ℕ)
    → h.request_id < 2 ^ 64
    → try_encode_frame h p ≡ ok out
    → decode_frame (out ++ rest) ≡ ok (h, p, length out)
unfolding decode_frame
decode_frame-encode h p out rest small e =
    let (fits, shape) = encode-body_of h p out e in
    let n : ℕ = 12 + length p in
    let split : out ++ rest ≡ le_bytes 4 n ++ (body_of h p ++ rest) =
      ap (λ (xs : List ℕ). xs ++ rest) shape ∙ append_assoc (le_bytes 4 n) (body_of h p) rest in
    let size : length out ≡ 4 + n = omega (
      arith,
      ap length shape,
      length-append (le_bytes 4 n) (body_of h p),
      length-le_bytes 4 n,
      length-body_of h p,
    ) in
    rw (
      le→ltb (length (out ++ rest)) 4 (omega (arith, length-append out rest)),
      split,
      prefix_read n (body_of h p ++ rest) fits,
      decode_prefixed-body h p rest n small refl fits,
      size,
    )

-- A proper prefix of a frame that `try_encode_frame` made is reported as truncated.
pub decode_truncated :
    (h : FrameHeader) (p front back : List ℕ) (x : ℕ)
    → try_encode_frame h p ≡ ok (front ++ (x ∷ back))
    → decode_frame front ≡ err truncated
unfolding decode_frame decode_prefixed
decode_truncated h p front back x e = elim (Bool-cases (ltb (length front) 4)) [
  | inl short ↦ rw short
  | inr long ↦
      let (fits, shape) = encode-body_of h p (front ++ (x ∷ back)) e in
      let n : ℕ = 12 + length p in
      let size : length (front ++ (x ∷ back)) ≡ 4 + n = omega (
        arith,
        ap length shape,
        length-append (le_bytes 4 n) (body_of h p),
        length-le_bytes 4 n,
        length-body_of h p,
      ) in
      let four : 4 ≤ length front = ground arith in
      let read : from_le (take 4 front) ≡ n =
        ap from_le (sym (take_prefix 4 front (x ∷ back) four))
        ∙ ap (λ (xs : List ℕ). from_le (take 4 xs)) shape
        ∙ prefix_read n (body_of h p) fits in
      rw (long, read, frame_end_cut front n fits (omega (arith, length-append front (x ∷ back))))
]

body_takes :
    (body : List ℕ) {h : FrameHeader} {p : List ℕ}
    → decode_frame_body body ≡ ok (h, p)
    → (length body ≡ 12 + length p) × (h.request_id ≡ from_le (take 8 body))
unfolding decode_frame_body body_header
body_takes body e = ground (arith, length-drop 12 body)

decode_prefixed_bounds :
    (buf : List ℕ) (k : ℕ) (h : FrameHeader) (p : List ℕ) (n : ℕ)
    → decode_prefixed buf k ≡ ok (h, p, n)
    → (n ≤ length buf) × (n ≡ 16 + length p) × (n ≤ 4 + max_frame_body)
unfolding decode_prefixed frame_end
decode_prefixed_bounds buf k h p n e =
    let size : length (take k (drop 4 buf)) ≡ min k (length buf - 4) =
      length-take k (drop 4 buf) ∙ ap (min k) (length-drop 4 buf) in
    elim (Result-cases (decode_frame_body (take k (drop 4 buf)))) [
      | inl ((h', p'), d) ↦ ground (arith, d, e, size, body_takes (take k (drop 4 buf)) d)
      | inr (x, d) ↦ ground (arith, d, e)
    ]

-- A frame that `decode_frame` accepts lies within the buffer, takes sixteen bytes and its payload,
-- and its body is within `MAX_FRAME_BODY`.
pub decode_bounds :
    (buf : List ℕ) (h : FrameHeader) (p : List ℕ) (n : ℕ)
    → decode_frame buf ≡ ok (h, p, n)
    → (n ≤ length buf) × (n ≡ 16 + length p) × (n ≤ 4 + max_frame_body)
unfolding decode_frame
decode_bounds buf h p n e =
    ground (arith, e, decode_prefixed_bounds buf (from_le (take 4 buf)) h p n)
