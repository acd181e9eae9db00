-- ===== src/Cursor/Defs.antt =====
-- A buffer with a position, and decoders that move it; a failed decoder keeps the position that
-- it had reached.
use sembazuru.Base.{
  ℕ, zero, suc, Bool, true, false, List, [], ◌∷◌, Option, none, some, Result, ok, err, leb, ◌==◌,
  if◌then◌else◌, length, take, drop, checked_add,
}
use sembazuru.Bytes.{from_le}

pub record Cursor : Type 0 where
  pub buf : List ℕ
  pub pos : ℕ

abbrev pub Parser : Type 0 → Type 0 → Type 0
Parser E A = Cursor → Result E A × Cursor

abbrev pub pure : {E A : Type 0} → A → Parser E A
pure a c = (ok a, c)

abbrev pub fail : {E A : Type 0} → E → Parser E A
fail e c = (err e, c)

abbrev pub continue :
    {E A B : Type 0} → Result E A × Cursor → (A → Parser E B) → Result E B × Cursor
continue (ok a, c) f = f a c
continue (err e, c) f = (err e, c)

infixl 5 ◌>>=◌
unfoldable pub ◌>>=◌ : {E A B : Type 0} → Parser E A → (A → Parser E B) → Parser E B
◌>>=◌ m f c = continue (m c) f

abbrev pub guard : {E : Type 0} → Bool → E → Parser E (Unit {0})
guard true e = pure tt
guard false e = fail e

-- `buf.get(pos..end)` for an end that did not overflow.
unfoldable pub slice_to : {E : Type 0} → E → ℕ → Option ℕ → E → Parser E (List ℕ)
slice_to too_large n none truncated c = (err too_large, c)
slice_to too_large n (some stop) truncated c =
    if leb stop (length c.buf)
    then (ok (take n (drop c.pos c.buf)), record c { pos = stop })
    else (err truncated, c)

-- `take`: the next `n` bytes, by a checked addition and a checked slice.
unfoldable pub take_bytes : {E : Type 0} → E → E → ℕ → Parser E (List ℕ)
unfolding slice_to
take_bytes too_large truncated n c = slice_to too_large n (checked_add c.pos n) truncated c

-- An unsigned integer of `k` bytes.
unfoldable pub uint : {E : Type 0} → E → E → ℕ → Parser E ℕ
unfolding take_bytes ◌>>=◌
uint too_large truncated k = do bs ← take_bytes too_large truncated k; pure (from_le bs)

-- `for _ in 0..n { items.push(item()?) }`
unfoldable pub repeat : {E A : Type 0} → ℕ → Parser E A → Parser E (List A)
unfolding ◌>>=◌
repeat zero item = pure []
repeat (suc n) item = do x ← item; xs ← repeat n item; pure (x ∷ xs)

unfoldable pub finish : {E : Type 0} → E → Parser E (Unit {0})
finish trailing c = if c.pos == length c.buf then (ok tt, c) else (err trailing, c)

abbrev recover : {E A : Type 0} → Result E A × Cursor → A → Result E A × Cursor
recover (ok a, c) d = (ok a, c)
recover (err e, c) d = (ok d, c)

-- `m.unwrap_or(d)`: an error is dropped, and the cursor stays where the failed decoder left it.
abbrev pub or_else : {E A : Type 0} → Parser E A → A → Parser E A
or_else m d c = recover (m c) d

abbrev pub run : {E A : Type 0} → Parser E A → List ℕ → Result E A
run m buf = (m (record { buf = buf; pos = 0 })).0
