-- ===== src/Agent/Drive/Chunks.antt =====
-- What a console buffer holds after append_console_capped.
use mathlib.Core.Logic.{inl, inr}
use sembazuru.Base.{
  ℕ, zero, suc, ◌+◌, ◌-◌, ◌≤◌, ◌<◌, min, ◌≡◌, refl, sym, ap, ◌∙◌, false, List, [], ◌∷◌, ◌++◌, leb,
  ltb, length, take, length-append, length-take, append-nil, Bool-cases, leb→le, ltb→lt, le→leb,
  subst, arith,
}
use sembazuru.Agent.Drive.{append_capped, console_truncation_notice}

-- The buffer `buf` after the bytes `all`: all of them while they fit, and else the first `bound` of them, with the notice
-- at most after.
pub record Capped (bound : ℕ) (all buf : List ℕ) : Type 0 where
  pub whole : length all ≤ bound → buf ≡ all
  pub front : take bound buf ≡ take bound all
  pub small : length buf ≤ bound + length console_truncation_notice
  pub reached : bound ≤ length all → bound ≤ length buf

take_front : (n : ℕ) (xs ys : List ℕ) → n ≤ length xs → take n (xs ++ ys) ≡ take n xs
take_front zero xs ys h = refl
take_front (suc n) [] ys h = absurd (omega (arith, h))
take_front (suc n) (x ∷ xs) ys h =
    ap (λ (r : List ℕ). x ∷ r) (take_front n xs ys (omega (arith, h)))

take_all : (n : ℕ) (xs : List ℕ) → length xs ≤ n → take n xs ≡ xs
take_all zero [] h = refl
take_all zero (x ∷ xs) h = absurd (omega (arith, h))
take_all (suc n) [] h = refl
take_all (suc n) (x ∷ xs) h = ap (λ (r : List ℕ). x ∷ r) (take_all n xs (omega (arith, h)))

take_past :
    (n : ℕ) (xs ys : List ℕ) → length xs ≤ n → take n (xs ++ ys) ≡ xs ++ take (n - length xs) ys
take_past n [] ys h = ap (λ (k : ℕ). take k ys) (omega arith)
take_past zero (x ∷ xs) ys h = absurd (omega (arith, h))
take_past (suc n) (x ∷ xs) ys h =
    ap (λ (r : List ℕ). x ∷ r)
      (take_past n xs ys (omega (arith, h)) ∙ ap (λ (k : ℕ). xs ++ take k ys) (omega arith))

nil_of_length : (xs : List ℕ) → length xs ≡ 0 → xs ≡ []
nil_of_length [] h = refl
nil_of_length (x ∷ xs) h = absurd (omega (arith, h))

not_full : (bound n : ℕ) → leb bound n ≡ false → n < bound
not_full bound n h = ground arith

lt→leb_false : (bound n : ℕ) → n < bound → leb bound n ≡ false
lt→leb_false bound n h = ground arith

not_less : (a b : ℕ) → ltb a b ≡ false → b ≤ a
not_less a b h = ground arith

-- A buffer at its bound takes no more.
full-Capped :
    (bound : ℕ) (all buf chunk : List ℕ)
    → bound ≤ length buf
    → Capped bound all buf
    → Capped bound (all ++ chunk) buf
full-Capped bound all buf chunk full c =
    let long : bound ≤ length all = elim (Bool-cases (leb bound (length all))) [
      | inl e ↦ leb→le bound (length all) e
      | inr e ↦
          let short : length all < bound = not_full bound (length all) e in
          omega (arith, full, ap length (c.whole (omega (arith, short))))
    ] in
    record {
      whole = λ h.
          let sizes : length chunk ≡ 0 = omega (arith, h, long, length-append all chunk) in
          c.whole (omega (arith, h, length-append all chunk))
          ∙ sym (ap (λ (r : List ℕ). all ++ r) (nil_of_length chunk sizes) ∙ append-nil all);
      front = c.front ∙ sym (take_front bound all chunk long);
      small = c.small;
      reached = λ h. full;
    }

fits-Capped :
    (bound : ℕ) (all chunk : List ℕ)
    → length chunk ≤ bound - length all
    → length all < bound
    → Capped bound
        (all ++ chunk)
        ((all ++ take (min (length chunk) (bound - length all)) chunk) ++ [])
fits-Capped bound all chunk fits room =
    let whole : (all ++ take (min (length chunk) (bound - length all)) chunk) ++ [] ≡ all ++ chunk =
      append-nil (all ++ take (min (length chunk) (bound - length all)) chunk)
      ∙ ap (λ (r : List ℕ). all ++ r)
          (take_all (min (length chunk) (bound - length all)) chunk (omega (arith, fits))) in
    record {
      whole = λ h. whole;
      front = ap (take bound) whole;
      small = omega (arith, ap length whole, length-append all chunk, fits, room);
      reached = λ h. omega (arith, ap length whole, h);
    }

over-Capped :
    (bound : ℕ) (all chunk : List ℕ)
    → bound - length all < length chunk
    → length all < bound
    → Capped bound
        (all ++ chunk)
        ((all ++ take (min (length chunk) (bound - length all)) chunk) ++ console_truncation_notice)
over-Capped bound all chunk over room =
    let t : ℕ = min (length chunk) (bound - length all) in
    let size : length (all ++ take t chunk) ≡ bound =
      omega (arith, length-append all (take t chunk), length-take t chunk, over, room) in
    let front : take bound ((all ++ take t chunk) ++ console_truncation_notice)
        ≡ all ++ take t chunk =
      take_front bound (all ++ take t chunk) console_truncation_notice (omega (arith, size))
      ∙ take_all bound (all ++ take t chunk) (omega (arith, size)) in
    let rest : take bound (all ++ chunk) ≡ all ++ take t chunk =
      take_past bound all chunk (omega (arith, room))
      ∙ ap (λ (k : ℕ). all ++ take k chunk) (omega (arith, over)) in
    record {
      whole = λ h. absurd (omega (arith, h, over, room, length-append all chunk));
      front = front ∙ sym rest;
      small = omega (arith, size, length-append (all ++ take t chunk) console_truncation_notice);
      reached =
          λ h. omega (arith, size, length-append (all ++ take t chunk) console_truncation_notice);
    }

room-Capped :
    (bound : ℕ) (all chunk : List ℕ)
    → length all < bound
    → Capped bound (all ++ chunk) (append_capped bound all chunk)
unfolding append_capped
room-Capped bound all chunk room =
    rw (lt→leb_false bound (length all) room)
      (elim (Bool-cases (ltb (min (length chunk) (bound - length all)) (length chunk))) [
        | inl over ↦
            let less : min (length chunk) (bound - length all) < length chunk =
              ltb→lt (min (length chunk) (bound - length all)) (length chunk) over in
            rw over (over-Capped bound all chunk (omega (arith, less)) room)
        | inr fits ↦
            let all_of : length chunk ≤ min (length chunk) (bound - length all) =
              not_less (min (length chunk) (bound - length all)) (length chunk) fits in
            rw fits (fits-Capped bound all chunk (omega (arith, all_of)) room)
      ])

pub full_same :
    (bound : ℕ) (buf chunk : List ℕ) → bound ≤ length buf → append_capped bound buf chunk ≡ buf
unfolding append_capped
full_same bound buf chunk h = rw (le→leb bound (length buf) h) refl

-- A chunk keeps what the buffer holds of the bytes so far.
pub append_capped-Capped :
    (bound : ℕ) (all buf chunk : List ℕ)
    → Capped bound all buf
    → Capped bound (all ++ chunk) (append_capped bound buf chunk)
append_capped-Capped bound all buf chunk c = elim (Bool-cases (leb bound (length buf))) [
  | inl e ↦
      let full : bound ≤ length buf = leb→le bound (length buf) e in
      subst (Capped bound (all ++ chunk)) (sym (full_same bound buf chunk full))
        (full-Capped bound all buf chunk full c)
  | inr e ↦
      let room : length buf < bound = not_full bound (length buf) e in
      let short : length all < bound = elim (Bool-cases (leb bound (length all))) [
        | inl g ↦ absurd (omega (arith, room, c.reached (leb→le bound (length all) g)))
        | inr g ↦ not_full bound (length all) g
      ] in
      subst (λ (b : List ℕ). Capped bound (all ++ chunk) (append_capped bound b chunk))
        (sym (c.whole (omega (arith, short)))) (room-Capped bound all chunk short)
]
