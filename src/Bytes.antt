-- ===== src/Bytes.antt =====
-- Byte sequences: a byte is a number below 256, a `Vec<u8>` or `&[u8]` a list of numbers, and a
-- Rust string the list of its UTF-8 bytes.
pub mod Little
pub mod Utf8
pub mod Bits
use sembazuru.Base.{ℕ, zero, suc, ◌+◌, ◌*◌, ◌/◌, ◌%◌, ◌^◌, ◌<◌, List, [], ◌∷◌, length}

abbrev pub IsByte : ℕ → Type 0
IsByte b = b < 256

-- Every Rust slice is shorter than the address space.
abbrev pub IsSlice : List ℕ → Type 0
IsSlice bs = length bs < 2 ^ 64

-- `to_le_bytes` of an unsigned integer of `k` bytes; a larger number wraps, as a cast does.
unfoldable pub le_bytes : ℕ → ℕ → List ℕ
le_bytes zero v = []
le_bytes (suc k) v = (v % 256) ∷ le_bytes k (v / 256)

-- `from_le_bytes`.
unfoldable pub from_le : List ℕ → ℕ
from_le [] = 0
from_le (b ∷ bs) = b + 256 * from_le bs
