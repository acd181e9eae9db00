-- ===== src/Cursor/Reads.antt =====
-- What a decoder reads: `Reads m bs a` says that `m`, wherever the bytes `bs` come next, answers
-- `a` and moves past them.
use sembazuru.Base.{
  ℕ, ◌+◌, ◌^◌, ◌≤◌, ◌<◌, ◌≡◌, refl, sym, ap, subst, ◌∙◌, Bool, true, List, [], ◌∷◌, ◌++◌,
  append-nil, append_assoc, Result, ok, length, drop, All, concat_map, length-append, length-drop,
  take-length_append, drop-length_append, drop-length_all, drop-drop, lt→ltb, le→leb, ==_iff, arith,
}
use sembazuru.Bytes.{IsSlice, le_bytes, from_le}
use sembazuru.Bytes.Little.{length-le_bytes, from_le-le_bytes}
use sembazuru.Cursor.Defs.{
  Cursor, Parser, pure, ◌>>=◌, guard, slice_to, take_bytes, uint, repeat, finish, run,
}

abbrev pub at : List ℕ → ℕ → Cursor
at buf pos = record { buf = buf; pos = pos }

pub record Reads {E A : Type 0} (m : Parser E A) (bs : List ℕ) (a : A) : Type 0 where
  pub reads :
      (buf : List ℕ) (pos : ℕ) (rest : List ℕ)
      → IsSlice buf
      → pos ≤ length buf
      → drop pos buf ≡ bs ++ rest
      → m (at buf pos) ≡ (ok a, at buf (pos + length bs))

-- The same for a decoder that ends with the buffer.
pub record ReadsAll {E A : Type 0} (m : Parser E A) (bs : List ℕ) (a : A) : Type 0 where
  pub reads_all :
      (buf : List ℕ) (pos : ℕ)
      → IsSlice buf
      → pos ≤ length buf
      → drop pos buf ≡ bs
      → m (at buf pos) ≡ (ok a, at buf (length buf))

pub drop_past :
    (buf bs rest : List ℕ) (pos : ℕ) → drop pos buf ≡ bs ++ rest → drop (pos + length bs) buf ≡ rest
drop_past buf bs rest pos e =
    sym (drop-drop pos (length bs) buf) ∙ ap (drop (length bs)) e ∙ drop-length_append bs rest

pub still_within :
    (buf bs rest : List ℕ) (pos : ℕ)
    → pos ≤ length buf
    → drop pos buf ≡ bs ++ rest
    → pos + length bs ≤ length buf
still_within buf bs rest pos h e =
    omega (arith, ap length e, length-drop pos buf, length-append bs rest)

module _ {E A B : Type 0} {m : Parser E A} (f : A → Parser E B) {bs cs : List ℕ} {a : A}
    {b : B} where
  pub Reads-bind : Reads m bs a → Reads (f a) cs b → Reads (m >>= f) (bs ++ cs) b
  unfolding ◌>>=◌
  Reads-bind first then_ = record {
    reads = λ buf pos rest s h e.
        let e' : drop pos buf ≡ bs ++ (cs ++ rest) = e ∙ append_assoc bs cs rest in
        rw (first.reads buf pos (cs ++ rest) s h e') (
          then_.reads buf (pos + length bs) rest s (still_within buf bs (cs ++ rest) pos h e')
            (drop_past buf bs (cs ++ rest) pos e')
          ∙ ap (λ (p : ℕ). (ok b, at buf p)) (omega (arith, length-append bs cs)));
  }

  pub ReadsAll-bind : Reads m bs a → ReadsAll (f a) cs b → ReadsAll (m >>= f) (bs ++ cs) b
  unfolding ◌>>=◌
  ReadsAll-bind first then_ = record {
    reads_all = λ buf pos s h e. rw (first.reads buf pos cs s h e) (
        then_.reads_all buf (pos + length bs) s (still_within buf bs cs pos h e)
          (drop_past buf bs cs pos e));
  }

-- The last step reads what is left.
module _ {E A B : Type 0} {m : Parser E A} (f : A → Parser E B) {bs : List ℕ} {a : A} {b : B} where
  pub Reads-last : Reads m bs a → Reads (f a) [] b → Reads (m >>= f) bs b
  Reads-last first then_ =
      subst (λ (cs : List ℕ). Reads (m >>= f) cs b) (append-nil bs) (Reads-bind f first then_)

  pub ReadsAll-last : Reads m bs a → ReadsAll (f a) [] b → ReadsAll (m >>= f) bs b
  ReadsAll-last first then_ =
      subst (λ (cs : List ℕ). ReadsAll (m >>= f) cs b) (append-nil bs) (ReadsAll-bind f first then_)

-- A step that ends at the buffer's end, before a step that reads nothing.
pub ReadsAll-then :
    {E A B : Type 0} {m : Parser E A} (f : A → Parser E B) {bs : List ℕ} {a : A} {b : B}
    → ReadsAll m bs a
    → ReadsAll (f a) [] b
    → ReadsAll (m >>= f) bs b
unfolding ◌>>=◌
ReadsAll-then f first then_ = record {
  reads_all = λ buf pos s h e.
      rw (first.reads_all buf pos s h e)
        (then_.reads_all buf (length buf) s (omega arith) (drop-length_all buf));
}

module _ {E A : Type 0} where
  pub Reads-pure : (a : A) → Reads {E = E} (pure a) [] a
  Reads-pure a = record {
    reads = λ buf pos rest s h e. ap (λ (p : ℕ). (ok a, at buf p)) (omega arith);
  }

  pub ReadsAll-run :
      {m : Parser E A} {bs : List ℕ} {a : A} → IsSlice bs → ReadsAll m bs a → run m bs ≡ ok a
  ReadsAll-run {bs = bs} s h =
      ap (λ (r : Result E A × Cursor). r.0) (h.reads_all bs 0 s (omega arith) refl)

  pub ReadsAll-finish : (trailing : E) (a : A) → ReadsAll (finish trailing >>= λ _. pure a) [] a
  unfolding finish ◌>>=◌
  ReadsAll-finish trailing a = record {
    reads_all = λ buf pos s h e.
        let p : pos ≡ length buf = omega (arith, ap length e, length-drop pos buf) in
        rw (p, (==_iff (length buf) (length buf)).1 refl);
  }

pub Reads-guard : {E : Type 0} {b : Bool} (e : E) → b ≡ true → Reads (guard b e) [] tt
Reads-guard e p = rw p (Reads-pure tt)

module _ {E B : Type 0} {c : Bool} (e : E) (f : Unit {0} → Parser E B) {bs : List ℕ} {b : B} where
  pub Reads-guard_bind : c ≡ true → Reads (f tt) bs b → Reads (guard c e >>= f) bs b
  Reads-guard_bind p h = Reads-bind f (Reads-guard e p) h

  pub ReadsAll-guard : c ≡ true → ReadsAll (f tt) bs b → ReadsAll (guard c e >>= f) bs b
  ReadsAll-guard p h = ReadsAll-bind f (Reads-guard e p) h

module _ {E : Type 0} (too_large truncated : E) where
  pub Reads-take_bytes :
      (n : ℕ) (bs : List ℕ) → length bs ≡ n → Reads (take_bytes too_large truncated n) bs bs
  unfolding take_bytes slice_to
  Reads-take_bytes n bs e = rw (← e) (record {
    reads = λ buf pos rest s h e. rw (
      lt→ltb (pos + length bs) (2 ^ 64) (omega (arith, still_within buf bs rest pos h e)),
      slice_to,
      le→leb (pos + length bs) (length buf) (still_within buf bs rest pos h e),
      e,
      take-length_append bs rest,
    );
  })

  pub Reads-uint : (k v : ℕ) → v < 256 ^ k → Reads (uint too_large truncated k) (le_bytes k v) v
  unfolding uint
  Reads-uint k v h =
      let back : from_le (le_bytes k v) ≡ v = from_le-le_bytes k v h in
      Reads-last _ (Reads-take_bytes k (le_bytes k v) (length-le_bytes k v))
        (rw back (Reads-pure v))

-- A counted loop reads the items one after the other.
pub Reads-repeat :
    {E A : Type 0} (item : Parser E A) (enc : A → List ℕ) (xs : List A)
    → All (λ x. Reads item (enc x) x) xs
    → Reads (repeat (length xs) item) (concat_map enc xs) xs
unfolding repeat
Reads-repeat item enc [] h = Reads-pure []
Reads-repeat item enc (x ∷ xs) h =
    Reads-bind _ h.0 (Reads-last _ (Reads-repeat item enc xs h.1) (Reads-pure (x ∷ xs)))
