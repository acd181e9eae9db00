-- ===== src/Dataplane/Payload.antt =====
-- The payload primitives of crates/dataplane/src/wire.rs. `Writer` only appends, so its methods are
-- given as the bytes that each appends; `Reader` is the shared cursor with the wire's errors.
pub mod Fields
pub mod Accepted
use sembazuru.Base.{
  ℕ, ◌≡◌, Bool, true, false, not, List, [], ◌∷◌, ◌++◌, ltb, leb, ◌==◌, if◌then◌else◌, length,
}
use sembazuru.Bytes.{le_bytes}
use sembazuru.Bytes.Utf8.{is_utf8}
use sembazuru.Cursor.{Parser, pure, ◌>>=◌, guard, take_bytes, uint}
use sembazuru.Dataplane.Wire.{Error, truncated, too_large, bad_utf8, max_frame_body}

unfoldable pub put_u8 : ℕ → List ℕ
put_u8 v = v ∷ []

unfoldable pub put_bool : Bool → List ℕ
put_bool v = (if v then 1 else 0) ∷ []

unfoldable pub put_u32 : ℕ → List ℕ
put_u32 v = le_bytes 4 v

unfoldable pub put_u64 : ℕ → List ℕ
put_u64 v = le_bytes 8 v

unfoldable pub put_bytes : List ℕ → List ℕ
unfolding put_u32
put_bytes v = put_u32 (length v) ++ v

-- `v.as_bytes()` is what the string is modelled by.
unfoldable pub put_str : List ℕ → List ℕ
unfolding put_bytes
put_str v = put_bytes v

-- Reader: the position and its bounds are those of `Cursor`.

abbrev pub Reader : Type 0 → Type 0
Reader A = Parser Error A

unfoldable pub get_u8 : Reader ℕ
unfolding uint
get_u8 = uint too_large truncated 1

unfoldable pub get_bool : Reader Bool
unfolding get_u8 ◌>>=◌
get_bool = do v ← get_u8; pure (not (v == 0))

unfoldable pub get_u32 : Reader ℕ
unfolding uint
get_u32 = uint too_large truncated 4

unfoldable pub get_u64 : Reader ℕ
unfolding uint
get_u64 = uint too_large truncated 8

unfoldable pub get_bytes : Reader (List ℕ)
unfolding get_u32 take_bytes ◌>>=◌
get_bytes = do
  n ← get_u32
  _ ← guard (leb n max_frame_body) too_large
  take_bytes too_large truncated n

unfoldable pub get_str : Reader (List ℕ)
unfolding get_bytes ◌>>=◌
get_str = do b ← get_bytes; _ ← guard (is_utf8 b) bad_utf8; pure b
