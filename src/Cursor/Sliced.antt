-- ===== src/Cursor/Sliced.antt =====
-- What a decoder that reads slices or items one after the other has read.
use sembazuru.Base.{
  ℕ, zero, suc, ◌+◌, ◌^◌, ◌≤◌, ◌<◌, ◌≡◌, refl, sym, ap, ap₂, subst, ◌∙◌, List, [], ◌∷◌, ◌++◌,
  append-nil, length, take, drop, All, All-take, All-drop, length-drop, length-take,
  take-append-drop, drop-drop, Bool-cases, inl, inr, leb, ltb, leb→le, arith,
}
use sembazuru.Bytes.{IsByte, le_bytes, from_le}
use sembazuru.Bytes.Little.{le_bytes-from_le, from_le-lt}
use sembazuru.Cursor.Defs.{Parser, ◌>>=◌, slice_to, take_bytes, uint, repeat}
use sembazuru.Cursor.Reads.{at}
use sembazuru.Cursor.Accepts.{
  Accepts, AcceptsAll, AcceptsAll-bind, Accepts-bind, Accepts-weaken, ok_inj, err_no_ok,
  Accepts-pure,
}

-- The `n` bytes that a slice of `n` bytes is.
pub record IsSliceOf (n : ℕ) (a bs : List ℕ) : Type 0 where
  pub same : bs ≡ a
  pub size : length a ≡ n
  pub bytes : All IsByte a

module _ {E : Type 0} (too_large truncated : E) where
  pub Accepts-take_bytes : (n : ℕ) → Accepts (take_bytes too_large truncated n) (IsSliceOf n)
  unfolding take_bytes slice_to
  Accepts-take_bytes n = record {
    accepts = λ buf pos a c all h e. elim (Bool-cases (ltb (pos + n) (2 ^ 64))) [
      | inr over ↦ absurd (err_no_ok (rw (over, slice_to) at e))
      | inl fits ↦ elim (Bool-cases (leb (pos + n) (length buf))) [
        | inr cut ↦ absurd (err_no_ok (rw (fits, slice_to, cut) at e))
        | inl inside ↦
            let (same, moved) = ok_inj (rw (fits, slice_to, inside) at e) in
            let within : pos + n ≤ length buf = leb→le _ _ inside in
            let size : length (take n (drop pos buf)) ≡ n =
              omega (arith, length-take n (drop pos buf), length-drop pos buf) in
            let stop : pos + n ≡ pos + length (take n (drop pos buf)) = omega (arith, size) in
            record {
              bs = take n (drop pos buf);
              moved = sym moved ∙ ap (at buf) stop;
              within = omega (arith, size);
              front =
                  sym (take-append-drop n (drop pos buf))
                  ∙ ap (λ (xs : List ℕ). take n (drop pos buf) ++ xs)
                      (drop-drop pos n buf ∙ ap (λ (j : ℕ). drop j buf) stop);
              related = record {
                same = same;
                size = subst (λ (xs : List ℕ). length xs ≡ n) same size;
                bytes = subst (All IsByte) same (All-take IsByte n _ (All-drop IsByte pos buf all));
              };
            }
      ]
    ];
  }

  -- An integer stands for the bytes that write it, and lies in its range.
  pub Accepts-uint :
      (k : ℕ) → Accepts (uint too_large truncated k) (λ v bs. (bs ≡ le_bytes k v) × (v < 256 ^ k))
  unfolding uint
  Accepts-uint k = Accepts-bind _ _ (Accepts-take_bytes k) λ a bs s.
      Accepts-weaken _
        (λ v cs (is, none_). (
          ap₂ (λ xs ys. xs ++ ys) s.same none_
              ∙ append-nil a
              ∙ sym (le_bytes-from_le a s.bytes)
              ∙ ap₂ le_bytes s.size (sym is),
          rw is (from_le-lt k a s.size s.bytes),
        ))
        (Accepts-pure (from_le a))

-- The bytes of a list of items, under a relation of an item and its bytes.
abbrev pub Items : {A : Type 0} → (A → List ℕ → Type 0) → List A → List ℕ → Type 0
Items R [] bs = bs ≡ []
Items R (x ∷ xs) bs = (b : List ℕ) × (c : List ℕ) × (bs ≡ b ++ c) × R x b × Items R xs c

pub Accepts-repeat :
    {E A : Type 0} (item : Parser E A) (R : A → List ℕ → Type 0) (n : ℕ)
    → Accepts item R
    → Accepts (repeat n item) (λ xs bs. (length xs ≡ n) × Items R xs bs)
unfolding repeat
Accepts-repeat item R zero h =
    Accepts-weaken _ (λ xs bs (is, none_). rw (is, none_) (refl, refl)) (Accepts-pure [])
Accepts-repeat item R (suc n) h = Accepts-bind _ _ h λ x b r.
    Accepts-bind _ _ (Accepts-repeat item R n h) λ xs c (count, items).
      Accepts-weaken _
        (λ ys d (is, none_).
          rw (is, none_)
            (ap suc count, (b, c, ap (λ (t : List ℕ). b ++ t) (append-nil c), r, items)))
        (Accepts-pure (x ∷ xs))

-- A step whose bytes are those that `enc` writes for its answer.
module _ {E A B : Type 0} {m : Parser E A} (f : A → Parser E B) (enc : A → List ℕ)
    {P : A → Type 0} where
  pub AcceptsAll-exact :
      (T : B → List ℕ → Type 0)
      → Accepts m (λ a bs. (bs ≡ enc a) × P a)
      → ((a : A) → P a → AcceptsAll (f a) (λ b cs. T b (enc a ++ cs)))
      → AcceptsAll (m >>= f) T
  AcceptsAll-exact T first then_ = AcceptsAll-bind f T first (λ a bs (e, p). rw e (then_ a p))

  pub Accepts-exact :
      (T : B → List ℕ → Type 0)
      → Accepts m (λ a bs. (bs ≡ enc a) × P a)
      → ((a : A) → P a → Accepts (f a) (λ b cs. T b (enc a ++ cs)))
      → Accepts (m >>= f) T
  Accepts-exact T first then_ = Accepts-bind f T first (λ a bs (e, p). rw e (then_ a p))

-- A step that reads nothing.
pub AcceptsAll-skip :
    {E A B : Type 0} {m : Parser E A} (f : A → Parser E B) (T : B → List ℕ → Type 0)
    → Accepts m (λ _ bs. bs ≡ [])
    → ((a : A) → AcceptsAll (f a) T)
    → AcceptsAll (m >>= f) T
AcceptsAll-skip f T first then_ = AcceptsAll-bind f T first (λ a bs e. rw e (then_ a))
