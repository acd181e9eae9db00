-- ===== src/Tracer/Sha256.antt =====
-- crates/tracer/src/determinism.rs: sha256 and sha256_hex. A word is a number below 2 ^ 32.
pub mod Padded
use sembazuru.Base.{
  ℕ, zero, suc, ◌+◌, ◌-◌, ◌*◌, ◌/◌, ◌%◌, ◌^◌, ◌≡◌, refl, bit_and, bit_xor, List, [], ◌∷◌, ◌++◌, ltb,
  ◌==◌, if◌then◌else◌, length, get_or, take, drop, concat_map,
}

-- The eight words of the state: in `h`, and from `a` to `hh` in a round.
pub record State : Type 0 where
  pub a : ℕ
  pub b : ℕ
  pub c : ℕ
  pub d : ℕ
  pub e : ℕ
  pub f : ℕ
  pub g : ℕ
  pub hh : ℕ

abbrev pub sha256_h0 : State
sha256_h0 = record {
  a = 0x6A09E667;
  b = 0xBB67AE85;
  c = 0x3C6EF372;
  d = 0xA54FF53A;
  e = 0x510E527F;
  f = 0x9B05688C;
  g = 0x1F83D9AB;
  hh = 0x5BE0CD19;
}

abbrev pub sha256_k : List ℕ
sha256_k =
    0x428A2F98 ∷ 0x71374491 ∷ 0xB5C0FBCF ∷ 0xE9B5DBA5 ∷ 0x3956C25B ∷ 0x59F111F1 ∷ 0x923F82A4
    ∷ 0xAB1C5ED5 ∷ 0xD807AA98 ∷ 0x12835B01 ∷ 0x243185BE ∷ 0x550C7DC3 ∷ 0x72BE5D74 ∷ 0x80DEB1FE
    ∷ 0x9BDC06A7 ∷ 0xC19BF174 ∷ 0xE49B69C1 ∷ 0xEFBE4786 ∷ 0x0FC19DC6 ∷ 0x240CA1CC ∷ 0x2DE92C6F
    ∷ 0x4A7484AA ∷ 0x5CB0A9DC ∷ 0x76F988DA ∷ 0x983E5152 ∷ 0xA831C66D ∷ 0xB00327C8 ∷ 0xBF597FC7
    ∷ 0xC6E00BF3 ∷ 0xD5A79147 ∷ 0x06CA6351 ∷ 0x14292967 ∷ 0x27B70A85 ∷ 0x2E1B2138 ∷ 0x4D2C6DFC
    ∷ 0x53380D13 ∷ 0x650A7354 ∷ 0x766A0ABB ∷ 0x81C2C92E ∷ 0x92722C85 ∷ 0xA2BFE8A1 ∷ 0xA81A664B
    ∷ 0xC24B8B70 ∷ 0xC76C51A3 ∷ 0xD192E819 ∷ 0xD6990624 ∷ 0xF40E3585 ∷ 0x106AA070 ∷ 0x19A4C116
    ∷ 0x1E376C08 ∷ 0x2748774C ∷ 0x34B0BCB5 ∷ 0x391C0CB3 ∷ 0x4ED8AA4A ∷ 0x5B9CCA4F ∷ 0x682E6FF3
    ∷ 0x748F82EE ∷ 0x78A5636F ∷ 0x84C87814 ∷ 0x8CC70208 ∷ 0x90BEFFFA ∷ 0xA4506CEB ∷ 0xBEF9A3F7
    ∷ 0xC67178F2 ∷ []

abbrev word_mod : ℕ
word_mod = 2 ^ 32

abbrev pub wrapping_add : ℕ → ℕ → ℕ
wrapping_add x y = (x + y) % word_mod

abbrev pub rotate_right : ℕ → ℕ → ℕ
rotate_right x n = x / 2 ^ n + (x % 2 ^ n) * 2 ^ (32 - n)

abbrev pub complement : ℕ → ℕ
complement x = word_mod - 1 - x

-- `while msg.len() % 64 != 56 { msg.push(0) }`: 64 turns are enough.
unfoldable pub pad_zeros : ℕ → List ℕ → List ℕ
pad_zeros zero msg = msg
pad_zeros (suc turns) msg =
    let rest = pad_zeros turns (msg ++ (0 ∷ [])) in if length msg % 64 == 56 then msg else rest

abbrev pub byte_at : ℕ → ℕ → ℕ
byte_at n x = x / 2 ^ n % 256

abbrev pub be_bytes_64 : ℕ → List ℕ
be_bytes_64 n =
    byte_at 56 n
    ∷ byte_at 48 n
    ∷ byte_at 40 n
    ∷ byte_at 32 n
    ∷ byte_at 24 n
    ∷ byte_at 16 n
    ∷ byte_at 8 n
    ∷ byte_at 0 n
    ∷ []

unfoldable pub padded : List ℕ → List ℕ
unfolding pad_zeros
padded data_bytes =
    pad_zeros 64 (data_bytes ++ (0x80 ∷ [])) ++ be_bytes_64 (length data_bytes * 8 % 2 ^ 64)

-- `chunks_exact(64)`: as many turns as there are bytes are enough.
unfoldable pub chunks : ℕ → List ℕ → List (List ℕ)
chunks zero msg = []
chunks (suc turns) msg =
    let rest = take 64 msg ∷ chunks turns (drop 64 msg) in if ltb (length msg) 64 then [] else rest

-- The words of a chunk, most significant byte first.
unfoldable pub words : List ℕ → List ℕ
words (p ∷ q ∷ r ∷ s ∷ rest) = (p * 2 ^ 24 + q * 2 ^ 16 + r * 2 ^ 8 + s) ∷ words rest
words _ = []

-- `w[i]` from the words before it.
unfoldable pub next_word : List ℕ → ℕ → ℕ
next_word w i =
    let w15 = get_or w (i - 15) 0 in
    let w2 = get_or w (i - 2) 0 in
    let s0 = bit_xor (bit_xor (rotate_right w15 7) (rotate_right w15 18)) (w15 / 2 ^ 3) in
    let s1 = bit_xor (bit_xor (rotate_right w2 17) (rotate_right w2 19)) (w2 / 2 ^ 10) in
    wrapping_add (wrapping_add (wrapping_add (get_or w (i - 16) 0) s0) (get_or w (i - 7) 0)) s1

unfoldable pub extend : ℕ → List ℕ → List ℕ
unfolding next_word
extend zero w = w
extend (suc turns) w = extend turns (w ++ (next_word w (length w) ∷ []))

unfoldable pub round : State → ℕ → ℕ → State
round s k w =
    let s1 = bit_xor (bit_xor (rotate_right s.e 6) (rotate_right s.e 11)) (rotate_right s.e 25) in
    let ch = bit_xor (bit_and s.e s.f) (bit_and (complement s.e) s.g) in
    let t1 = wrapping_add (wrapping_add (wrapping_add (wrapping_add s.hh s1) ch) k) w in
    let s0 = bit_xor (bit_xor (rotate_right s.a 2) (rotate_right s.a 13)) (rotate_right s.a 22) in
    let maj = bit_xor (bit_xor (bit_and s.a s.b) (bit_and s.a s.c)) (bit_and s.b s.c) in
    let t2 = wrapping_add s0 maj in
    record {
      a = wrapping_add t1 t2;
      b = s.a;
      c = s.b;
      d = s.c;
      e = wrapping_add s.d t1;
      f = s.e;
      g = s.f;
      hh = s.g;
    }

unfoldable pub rounds : State → List ℕ → List ℕ → State
unfolding round
rounds s (k ∷ ks) (w ∷ ws) = rounds (round s k w) ks ws
rounds s _ _ = s

unfoldable pub compress : State → List ℕ → State
unfolding extend words rounds
compress h chunk =
    let s = rounds h sha256_k (extend 48 (words chunk)) in
    record {
      a = wrapping_add h.a s.a;
      b = wrapping_add h.b s.b;
      c = wrapping_add h.c s.c;
      d = wrapping_add h.d s.d;
      e = wrapping_add h.e s.e;
      f = wrapping_add h.f s.f;
      g = wrapping_add h.g s.g;
      hh = wrapping_add h.hh s.hh;
    }

unfoldable pub compress_all : State → List (List ℕ) → State
unfolding compress
compress_all h [] = h
compress_all h (chunk ∷ rest) = compress_all (compress h chunk) rest

abbrev pub be_bytes_32 : ℕ → List ℕ
be_bytes_32 x = byte_at 24 x ∷ byte_at 16 x ∷ byte_at 8 x ∷ byte_at 0 x ∷ []

abbrev pub out : State → List ℕ
out s = concat_map be_bytes_32 (s.a ∷ s.b ∷ s.c ∷ s.d ∷ s.e ∷ s.f ∷ s.g ∷ s.hh ∷ [])

unfoldable pub sha256 : List ℕ → List ℕ
unfolding compress_all chunks padded
sha256 data_bytes =
    let msg = padded data_bytes in out (compress_all sha256_h0 (chunks (length msg) msg))

abbrev pub hex : ℕ → ℕ
hex n = if ltb n 10 then b'0' + n else b'a' + (n - 10)

abbrev pub hex_pair : ℕ → List ℕ
hex_pair byte = hex (byte / 2 ^ 4) ∷ hex (byte % 16) ∷ []

unfoldable pub sha256_hex : List ℕ → List ℕ
unfolding sha256
sha256_hex data_bytes = concat_map hex_pair (sha256 data_bytes)

pub length-sha256_hex : (data_bytes : List ℕ) → length (sha256_hex data_bytes) ≡ 64
unfolding sha256_hex
length-sha256_hex data_bytes = refl
