-- ===== src/Cursor/Accepts.antt =====
-- What a decoder that succeeds has read: `Accepts m R` says that wherever `m` answers `a`, it has
-- moved past bytes `bs` with `R a bs`.
use sembazuru.Base.{
  ℕ, ◌+◌, ◌≤◌, ◌≡◌, refl, sym, ap, subst, ◌∙◌, Bool, true, List, [], ◌++◌, append_assoc, Result, ok,
  err, length, drop, All, length-append, drop-length_all, Bool-cases, inl, inr, ◌==◌, ==_iff, arith,
}
use sembazuru.Bytes.{IsByte}
use sembazuru.Cursor.Defs.{Cursor, Parser, pure, fail, continue, ◌>>=◌, guard, finish, run}
use sembazuru.Cursor.Reads.{at}

-- What `m` read from the position: `bs`, within the buffer.
pub record Read {A : Type 0} (R : A → List ℕ → Type 0) (buf : List ℕ) (pos : ℕ) (a : A) (c : Cursor)
    : Type 0 where
  pub bs : List ℕ
  pub moved : c ≡ at buf (pos + length bs)
  pub within : pos + length bs ≤ length buf
  pub front : drop pos buf ≡ bs ++ drop (pos + length bs) buf
  pub related : R a bs

pub record Accepts {E A : Type 0} (m : Parser E A) (R : A → List ℕ → Type 0) : Type 0 where
  pub accepts :
      (buf : List ℕ) (pos : ℕ) (a : A) (c : Cursor)
      → All IsByte buf
      → pos ≤ length buf
      → m (at buf pos) ≡ (ok a, c)
      → Read R buf pos a c

-- The same for a decoder that ends with the buffer.
pub record AcceptsAll {E A : Type 0} (m : Parser E A) (T : A → List ℕ → Type 0) : Type 0 where
  pub accepts_all :
      (buf : List ℕ) (pos : ℕ) (a : A) (c : Cursor)
      → All IsByte buf
      → pos ≤ length buf
      → m (at buf pos) ≡ (ok a, c)
      → T a (drop pos buf)

record Continued {E A B : Type 0} (r : Result E A × Cursor) (f : A → Parser E B) (b : B)
    (c : Cursor) : Type 0 where
  mid : A
  next : Cursor
  pub first : r ≡ (ok mid, next)
  rest : f mid next ≡ (ok b, c)

continue_inv :
    {E A B : Type 0} (r : Result E A × Cursor) (f : A → Parser E B) (b : B) (c : Cursor)
    → continue r f ≡ (ok b, c)
    → Continued r f b c
continue_inv (ok a, n) f b c h = record { mid = a; next = n; first = refl; rest = h }
continue_inv {E} {B = B} (err e, n) f b c h =
    absurd (err_ne_ok (ap (λ (p : Result E B × Cursor). p.0) h))
  where
    err_ne_ok : ◌≡◌ {A = Result E B} (err e) (ok b) → ⊥
    err_ne_ok q = cc

module _ {E A B : Type 0} {m : Parser E A} (f : A → Parser E B) {R : A → List ℕ → Type 0} where
  pub AcceptsAll-bind :
      (T : B → List ℕ → Type 0)
      → Accepts m R
      → ((a : A) (bs : List ℕ) → R a bs → AcceptsAll (f a) (λ b cs. T b (bs ++ cs)))
      → AcceptsAll (m >>= f) T
  unfolding ◌>>=◌
  AcceptsAll-bind T first then_ = record {
    accepts_all = λ buf pos b c all h e.
        let k = continue_inv (m (at buf pos)) f b c e in
        let r = first.accepts buf pos k.mid k.next all h k.first in
        let tail : f k.mid (at buf (pos + length r.bs)) ≡ (ok b, c) =
          subst (λ (n : Cursor). f k.mid n ≡ (ok b, c)) r.moved k.rest in
        subst (T b) (sym r.front)
          ((then_ k.mid r.bs r.related).accepts_all buf (pos + length r.bs) b c all r.within tail);
  }

  pub Accepts-bind :
      (T : B → List ℕ → Type 0)
      → Accepts m R
      → ((a : A) (bs : List ℕ) → R a bs → Accepts (f a) (λ b cs. T b (bs ++ cs)))
      → Accepts (m >>= f) T
  unfolding ◌>>=◌
  Accepts-bind T first then_ = record {
    accepts = λ buf pos b c all h e.
        let k = continue_inv (m (at buf pos)) f b c e in
        let r = first.accepts buf pos k.mid k.next all h k.first in
        let tail : f k.mid (at buf (pos + length r.bs)) ≡ (ok b, c) =
          subst (λ (n : Cursor). f k.mid n ≡ (ok b, c)) r.moved k.rest in
        let s =
          (then_ k.mid r.bs r.related).accepts buf (pos + length r.bs) b c all r.within tail in
        let size : pos + length r.bs + length s.bs ≡ pos + length (r.bs ++ s.bs) =
          omega (arith, length-append r.bs s.bs) in
        record {
          bs = r.bs ++ s.bs;
          moved = s.moved ∙ ap (at buf) size;
          within = omega (arith, s.within, size);
          front =
              r.front
              ∙ ap (λ (xs : List ℕ). r.bs ++ xs) s.front
              ∙ sym (append_assoc r.bs s.bs (drop (pos + length r.bs + length s.bs) buf))
              ∙ ap (λ (j : ℕ). (r.bs ++ s.bs) ++ drop j buf) size;
          related = s.related;
        };
  }

-- The relation may be weakened.
pub Accepts-weaken :
    {E A : Type 0} {m : Parser E A} {R : A → List ℕ → Type 0} (S : A → List ℕ → Type 0)
    → ((a : A) (bs : List ℕ) → R a bs → S a bs)
    → Accepts m R
    → Accepts m S
Accepts-weaken S weaker h = record {
  accepts = λ buf pos a c all k e.
      let r = h.accepts buf pos a c all k e in
      record {
        bs = r.bs;
        moved = r.moved;
        within = r.within;
        front = r.front;
        related = weaker a r.bs r.related;
      };
}

pub ok_inj :
    {E A : Type 0} {a b : A} {c d : Cursor}
    → ◌≡◌ {A = Result E A × Cursor} (ok a, c) (ok b, d)
    → (a ≡ b) × (c ≡ d)
ok_inj {E} {A} {a} {b} h =
    (under (ap (λ (p : Result E A × Cursor). p.0) h), ap (λ (p : Result E A × Cursor). p.1) h)
  where
    under : ◌≡◌ {A = Result E A} (ok a) (ok b) → a ≡ b
    under q = cc

pub err_no_ok :
    {E A : Type 0} {e : E} {b : A} {c d : Cursor}
    → ◌≡◌ {A = Result E A × Cursor} (err e, c) (ok b, d)
    → ⊥
err_no_ok {E} {A} {e} {b} h = under (ap (λ (p : Result E A × Cursor). p.0) h)
  where
    under : ◌≡◌ {A = Result E A} (err e) (ok b) → ⊥
    under q = cc

module _ {E A : Type 0} where
  pub Accepts-pure : (v : A) → Accepts {E = E} (pure v) (λ a bs. (a ≡ v) × (bs ≡ []))
  Accepts-pure v = record {
    accepts = λ buf pos a c all h e.
        let stay : pos ≡ pos + 0 = omega arith in
        record {
          bs = [];
          moved = sym (ok_inj e).1 ∙ ap (at buf) stay;
          within = omega arith;
          front = ap (λ (j : ℕ). drop j buf) stay;
          related = (sym (ok_inj e).0, refl);
        };
  }

  pub Accepts-fail : (e : E) (R : A → List ℕ → Type 0) → Accepts (fail e) R
  Accepts-fail e R = record { accepts = λ buf pos a c all h q. absurd (err_no_ok q) }

  pub AcceptsAll-run :
      {m : Parser E A} {T : A → List ℕ → Type 0}
      → AcceptsAll m T
      → (bs : List ℕ) (a : A) → All IsByte bs
      → run m bs ≡ ok a
      → T a bs
  AcceptsAll-run {m} h bs a all e =
      h.accepts_all bs 0 a (m (at bs 0)).1 all (omega arith) (λ i. (e i, (m (at bs 0)).1))

  pub AcceptsAll-finish :
      (trailing : E) (v : A) (T : A → List ℕ → Type 0)
      → T v []
      → AcceptsAll (finish trailing >>= λ _. pure v) T
  unfolding finish ◌>>=◌
  AcceptsAll-finish trailing v T t = record {
    accepts_all = λ buf pos a c all h e. elim (Bool-cases (pos == length buf)) [
      | inr other ↦ absurd (err_no_ok (rw other at e))
      | inl done ↦
          let p : pos ≡ length buf = (==_iff pos (length buf)).0 done in
          rw (p, drop-length_all buf, ← (ok_inj (rw done at e)).0) t
    ];
  }

module _ {E B : Type 0} {b : Bool} (e : E) (f : Unit {0} → Parser E B)
    (T : B → List ℕ → Type 0) where
  pub AcceptsAll-guard : (b ≡ true → AcceptsAll (f tt) T) → AcceptsAll (guard b e >>= f) T
  unfolding ◌>>=◌
  AcceptsAll-guard h = elim (Bool-cases b) [
    | inl t ↦
        rw t (record { accepts_all = λ buf pos a c all k q. (h t).accepts_all buf pos a c all k q })
    | inr t ↦ rw t (record { accepts_all = λ buf pos a c all k q. absurd (err_no_ok q) })
  ]

  pub Accepts-guard : (b ≡ true → Accepts (f tt) T) → Accepts (guard b e >>= f) T
  unfolding ◌>>=◌
  Accepts-guard h = elim (Bool-cases b) [
    | inl t ↦ rw t (record { accepts = λ buf pos a c all k q. (h t).accepts buf pos a c all k q })
    | inr t ↦ rw t (record { accepts = λ buf pos a c all k q. absurd (err_no_ok q) })
  ]
