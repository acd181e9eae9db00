-- ===== src/Dataplane/Payload/Accepted.antt =====
-- What each read primitive has read when it succeeds: the bytes that the write primitive appends.
use sembazuru.Base.{ℕ, ◌%◌, ◌≡◌, ap, ◌∙◌, [], ◌∷◌, arith}
use sembazuru.Bytes.{le_bytes}
use sembazuru.Cursor.Accepts.{Accepts, Accepts-weaken}
use sembazuru.Cursor.Sliced.{Accepts-uint}
use sembazuru.Dataplane.Wire.{truncated, too_large}
use sembazuru.Dataplane.Payload.{put_u8, put_u32, put_u64, get_u8, get_u32, get_u64}
use sembazuru.Dataplane.Payload.Fields.{IsU8, IsU32, IsU64}

pub Accepts-IsU8 : Accepts get_u8 (λ v bs. (bs ≡ put_u8 v) × IsU8 v)
unfolding get_u8 put_u8 le_bytes
Accepts-IsU8 =
    Accepts-weaken _
      (λ v bs (e, h).
        let small : v % 256 ≡ v = omega (arith, h) in
        (e ∙ ap (λ (x : ℕ). x ∷ []) small, omega (arith, h)))
      (Accepts-uint too_large truncated 1)

pub Accepts-IsU32 : Accepts get_u32 (λ v bs. (bs ≡ put_u32 v) × IsU32 v)
unfolding get_u32 put_u32
Accepts-IsU32 =
    Accepts-weaken _ (λ v bs (e, h). (e, omega (arith, h))) (Accepts-uint too_large truncated 4)

pub Accepts-IsU64 : Accepts get_u64 (λ v bs. (bs ≡ put_u64 v) × IsU64 v)
unfolding get_u64 put_u64
Accepts-IsU64 =
    Accepts-weaken _ (λ v bs (e, h). (e, omega (arith, h))) (Accepts-uint too_large truncated 8)
