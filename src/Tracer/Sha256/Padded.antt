-- ===== src/Tracer/Sha256/Padded.antt =====
-- crates/tracer/src/determinism.rs: the turns that pad_zeros and chunks are given are enough.
use sembazuru.Base.{
  false, ℕ, zero, suc, ◌+◌, ◌-◌, ◌*◌, ◌/◌, ◌%◌, ◌≤◌, ◌^◌, ◌≡◌, ◌≢◌, List, [], ◌∷◌, ◌++◌, ltb, ◌==◌,
  length, length-append, length-drop, drop, Bool-cases, inl, inr, ltb→lt, ==_iff, arith,
}
use sembazuru.Tracer.Sha256.{pad_zeros, padded, chunks, be_bytes_64}

-- How many zeros there are to push.
abbrev missing : ℕ → ℕ
missing n = (56 + 64 - n % 64) % 64

step :
    (n turns m : ℕ) → m ≡ n + 1 → (n % 64 == 56) ≡ false → missing n ≤ suc turns → missing m ≤ turns
step n turns m e o h = let off : n % 64 ≢ 56 = ground arith in omega (arith, off, e, h)

pad_zeros_aligned :
    (turns : ℕ) (msg : List ℕ)
    → missing (length msg) ≤ turns
    → length (pad_zeros turns msg) % 64 ≡ 56
unfolding pad_zeros
pad_zeros_aligned zero msg h = omega arith
pad_zeros_aligned (suc turns) msg h = elim (Bool-cases (length msg % 64 == 56)) [
  | inl y ↦ rw y ((==_iff _ _).0 y)
  | inr n ↦ rw n (
      pad_zeros_aligned turns (msg ++ (0 ∷ []))
        (step (length msg) turns (length (msg ++ (0 ∷ []))) (length-append msg (0 ∷ [])) n h))
]

aligned : (n m : ℕ) → n % 64 ≡ 56 → m ≡ n + 8 → m % 64 ≡ 0
aligned n m h e = omega arith

-- The padded message is made of whole chunks.
pub length-padded : (data_bytes : List ℕ) → length (padded data_bytes) % 64 ≡ 0
unfolding padded
length-padded data_bytes =
    let zeros = pad_zeros 64 (data_bytes ++ (0x80 ∷ [])) in
    aligned (length zeros) (length (padded data_bytes))
      (pad_zeros_aligned 64 (data_bytes ++ (0x80 ∷ [])) (omega arith))
      (length-append zeros (be_bytes_64 (length data_bytes * 8 % 2 ^ 64)))

-- Every whole chunk is taken.
pub length-chunks :
    (turns : ℕ) (msg : List ℕ) → length msg ≤ turns → length (chunks turns msg) ≡ length msg / 64
unfolding chunks
length-chunks zero msg h = omega arith
length-chunks (suc turns) msg h = elim (Bool-cases (ltb (length msg) 64)) [
  | inl y ↦ rw y (omega (arith, ltb→lt _ _ y))
  | inr n ↦ rw n (
      let at : 64 ≤ length msg = ground arith in
      omega (
        arith,
        at,
        length-drop 64 msg,
        length-chunks turns (drop 64 msg) (omega (arith, at, h, length-drop 64 msg)),
      ))
]
