-- ===== src/Dataplane/Payload/Fields.antt =====
-- Each read primitive reads what its write primitive appends.
use sembazuru.Base.{
  ℕ, ◌%◌, ◌^◌, ◌≤◌, ◌<◌, ◌≡◌, refl, subst, Bool, true, false, List, [], ◌∷◌, length, le→leb, arith,
}
use sembazuru.Bytes.{le_bytes}
use sembazuru.Bytes.Utf8.{IsUtf8}
use sembazuru.Cursor.Reads.{
  Reads, Reads-bind, Reads-last, Reads-pure, Reads-guard_bind, Reads-uint, Reads-take_bytes,
}
use sembazuru.Dataplane.Wire.{truncated, too_large, bad_utf8, max_frame_body}
use sembazuru.Dataplane.Payload.{
  put_u8, put_bool, put_u32, put_u64, put_bytes, put_str, get_u8, get_bool, get_u32, get_u64,
  get_bytes, get_str,
}

abbrev pub IsU8 : ℕ → Type 0
IsU8 v = v < 2 ^ 8

abbrev pub IsU32 : ℕ → Type 0
IsU32 v = v < 2 ^ 32

abbrev pub IsU64 : ℕ → Type 0
IsU64 v = v < 2 ^ 64

-- A byte string that a reader accepts.
abbrev pub IsBlob : List ℕ → Type 0
IsBlob bs = length bs ≤ max_frame_body

-- A string that a reader accepts.
pub record IsText (s : List ℕ) : Type 0 where
  pub utf8 : IsUtf8 s
  pub short : IsBlob s

pub Reads-u8 : (v : ℕ) → IsU8 v → Reads get_u8 (put_u8 v) v
unfolding get_u8 put_u8 le_bytes
Reads-u8 v h =
    let e : v % 256 ≡ v = omega arith in
    subst (λ (w : ℕ). Reads get_u8 (w ∷ []) v) e (Reads-uint too_large truncated 1 v (omega arith))

pub Reads-u32 : (v : ℕ) → IsU32 v → Reads get_u32 (put_u32 v) v
unfolding get_u32 put_u32
Reads-u32 v h = Reads-uint too_large truncated 4 v (omega arith)

pub Reads-u64 : (v : ℕ) → IsU64 v → Reads get_u64 (put_u64 v) v
unfolding get_u64 put_u64
Reads-u64 v h = Reads-uint too_large truncated 8 v (omega arith)

pub Reads-bool : (b : Bool) → Reads get_bool (put_bool b) b
unfolding get_bool put_bool put_u8
Reads-bool true = Reads-last _ (Reads-u8 1 (omega arith)) (Reads-pure true)
Reads-bool false = Reads-last _ (Reads-u8 0 (omega arith)) (Reads-pure false)

pub Reads-bytes : (bs : List ℕ) → IsBlob bs → Reads get_bytes (put_bytes bs) bs
unfolding get_bytes put_bytes
Reads-bytes bs h = Reads-bind _ (Reads-u32 (length bs) (omega arith)) (
    Reads-guard_bind too_large _ (le→leb (length bs) max_frame_body h)
      (Reads-take_bytes too_large truncated (length bs) bs refl))

pub Reads-str : (s : List ℕ) → IsText s → Reads get_str (put_str s) s
unfolding get_str put_str
Reads-str s h =
    Reads-last _ (Reads-bytes s h.short) (Reads-guard_bind bad_utf8 _ h.utf8 (Reads-pure s))
