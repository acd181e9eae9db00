-- ===== src/Cursor/Cuts.antt =====
-- What a decoder makes of bytes that end too early: `Cuts e m bs` says that `m`, where the buffer ends within
-- the bytes `bs`, answers the error `e`.
use mathlib.Core.Logic.{inl, inr}
use sembazuru.Base.{
  ℕ, ◌+◌, ◌^◌, ◌≤◌, ◌<◌, ◌≡◌, refl, ap, subst, ◌∙◌, Bool, true, false, List, [], ◌∷◌, ◌++◌,
  append-nil, Result, ok, err, length, drop, length-append, length-drop, ltb, leb, Bool-cases,
  arith,
}
use sembazuru.Bytes.{IsSlice, le_bytes, from_le}
use sembazuru.Bytes.Little.{length-le_bytes, from_le-le_bytes}
use sembazuru.Cursor.Defs.{Cursor, Parser, pure, ◌>>=◌, continue, guard, slice_to, take_bytes, uint}
use sembazuru.Cursor.Reads.{
  at, Reads, Reads-bind, Reads-pure, Reads-guard, Reads-take_bytes, drop_past, still_within,
}

pub record Cuts {E A : Type 0} (e : E) (m : Parser E A) (bs : List ℕ) : Type 0 where
  pub cuts :
      (buf : List ℕ) (pos : ℕ) (back : List ℕ)
      → IsSlice buf
      → pos ≤ length buf
      → drop pos buf ++ back ≡ bs
      → 0 < length back
      → (m (at buf pos)).0 ≡ err e

-- Where an end within `bs ++ cs` lies.
data Division (front back bs cs : List ℕ) : Type 0 where
  early : (back' : List ℕ) → front ++ back' ≡ bs → 0 < length back' → Division front back bs cs
  late : (front' : List ℕ) → front ≡ bs ++ front' → front' ++ back ≡ cs → Division front back bs cs

consed_split :
    (a b : ℕ) (front back bs cs : List ℕ)
    → a ≡ b
    → Division front back bs cs
    → Division (a ∷ front) back (b ∷ bs) cs
consed_split a b front back bs cs e (early back' g h) = early back' (cc) h
consed_split a b front back bs cs e (late front' g h) = late front' (cc) h

split : (front back bs cs : List ℕ) → front ++ back ≡ bs ++ cs → Division front back bs cs
split front back [] cs e = late front refl e
split [] back (b ∷ bs) cs e = early (b ∷ bs) refl (omega arith)
split (a ∷ front) back (b ∷ bs) cs e =
    consed_split a b front back bs cs (cc) (split front back bs cs (cc))

continue_err :
    {E A B : Type 0} (e : E) (r : Result E A × Cursor) (f : A → Parser E B)
    → r.0 ≡ err e
    → (continue r f).0 ≡ err e
continue_err e (ok a, c) f h = absurd cc
continue_err e (err d, c) f h = cc

pub bind_ok :
    {E A B : Type 0} (m : Parser E A) (f : A → Parser E B) (c c' : Cursor) (a : A)
    → m c ≡ (ok a, c')
    → (m >>= f) c ≡ f a c'
unfolding ◌>>=◌
bind_ok m f c c' a h = ap (λ (r : Result _ _ × Cursor). continue r f) h

pub bind_err :
    {E A B : Type 0} (e : E) (m : Parser E A) (f : A → Parser E B) (c : Cursor)
    → (m c).0 ≡ err e
    → ((m >>= f) c).0 ≡ err e
unfolding ◌>>=◌
bind_err e m f c h = continue_err e (m c) f h

module _ {E A B : Type 0} {e : E} {m : Parser E A} (f : A → Parser E B) {bs cs : List ℕ}
    {a : A} where
  cut_first :
      (buf : List ℕ) (pos : ℕ) (back : List ℕ)
      → IsSlice buf
      → pos ≤ length buf
      → 0 < length back
      → Reads m bs a
      → Cuts e m bs
      → Cuts e (f a) cs
      → Division (drop pos buf) back bs cs
      → ((m >>= f) (at buf pos)).0 ≡ err e
  unfolding ◌>>=◌
  cut_first buf pos back s h some_back reads first then_ (early back' g l) =
      continue_err e (m (at buf pos)) f (first.cuts buf pos back' s h g l)
  cut_first buf pos back s h some_back reads first then_ (late front' g l) =
      rw (reads.reads buf pos front' s h g) (
        then_.cuts buf (pos + length bs) back s (still_within buf bs front' pos h g)
          (ap (λ (x : List ℕ). x ++ back) (drop_past buf bs front' pos g) ∙ l) some_back)

  pub Cuts-bind : Reads m bs a → Cuts e m bs → Cuts e (f a) cs → Cuts e (m >>= f) (bs ++ cs)
  Cuts-bind reads first then_ = record {
    cuts = λ buf pos back s h g l.
        cut_first buf pos back s h l reads first then_ (split (drop pos buf) back bs cs g);
  }

-- No end lies within no bytes.
pub Cuts-nil : {E A : Type 0} (e : E) (m : Parser E A) → Cuts e m []
Cuts-nil e m = record {
  cuts = λ buf pos back s h g l.
      absurd (omega (arith, l, ap length g, length-append (drop pos buf) back));
}

out_of : (stop n : ℕ) → n < stop → leb stop n ≡ false
out_of stop n h = ground arith

module _ {E : Type 0} (e : E) where
  slice_err :
      (n pos : ℕ) (buf : List ℕ) → length buf < pos + n → (take_bytes e e n (at buf pos)).0 ≡ err e
  unfolding take_bytes slice_to
  slice_err n pos buf h = elim (Bool-cases (ltb (pos + n) (2 ^ 64))) [
    | inl g ↦ rw (g, slice_to, out_of (pos + n) (length buf) h) refl
    | inr g ↦ rw (g, slice_to) refl
  ]

  pub Cuts-take_bytes : (n : ℕ) (bs : List ℕ) → length bs ≡ n → Cuts e (take_bytes e e n) bs
  Cuts-take_bytes n bs is = record {
    cuts = λ buf pos back s h g l.
        slice_err n pos buf (
          omega
            (arith, is, l, ap length g, length-append (drop pos buf) back, length-drop pos buf));
  }

-- A decoder that reads the bytes and does not read fewer.
pub record Field {E A : Type 0} (e : E) (m : Parser E A) (bs : List ℕ) (a : A) : Type 0 where
  pub whole : Reads m bs a
  pub cut : Cuts e m bs

module _ {E A B : Type 0} {e : E} {m : Parser E A} (f : A → Parser E B) {bs : List ℕ} {a : A}
    {b : B} where
  pub Field-bind :
      {cs : List ℕ} → Field e m bs a → Field e (f a) cs b → Field e (m >>= f) (bs ++ cs) b
  Field-bind first then_ = record {
    whole = Reads-bind f first.whole then_.whole;
    cut = Cuts-bind f first.whole first.cut then_.cut;
  }

  pub Field-last : Field e m bs a → Field e (f a) [] b → Field e (m >>= f) bs b
  Field-last first then_ =
      subst (λ (cs : List ℕ). Field e (m >>= f) cs b) (append-nil bs) (Field-bind first then_)

module _ {E : Type 0} (e : E) where
  pub Field-pure : {A : Type 0} (a : A) → Field e (pure a) [] a
  Field-pure a = record { whole = Reads-pure a; cut = Cuts-nil e (pure a) }

  -- A test that holds, whatever its error is.
  pub Field-guard :
      {B : Type 0} {c : Bool} (d : E) (f : Unit {0} → Parser E B) {bs : List ℕ} {b : B}
      → c ≡ true
      → Field e (f tt) bs b
      → Field e (guard c d >>= f) bs b
  Field-guard {c = c} d f p then_ =
      Field-bind f (record { whole = Reads-guard d p; cut = Cuts-nil e (guard c d) }) then_

  pub Field-take_bytes : (n : ℕ) (bs : List ℕ) → length bs ≡ n → Field e (take_bytes e e n) bs bs
  Field-take_bytes n bs is = record {
    whole = Reads-take_bytes e e n bs is;
    cut = Cuts-take_bytes e n bs is;
  }

  pub Field-uint : (k v : ℕ) → v < 256 ^ k → Field e (uint e e k) (le_bytes k v) v
  unfolding uint
  Field-uint k v h =
      let back : from_le (le_bytes k v) ≡ v = from_le-le_bytes k v h in
      Field-last _ (Field-take_bytes k (le_bytes k v) (length-le_bytes k v))
        (rw back (Field-pure v))
