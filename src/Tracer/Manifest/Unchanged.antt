-- ===== src/Tracer/Manifest/Unchanged.antt =====
-- crates/tracer/src/action_key.rs: what equal components say of the files that a manifest names.
use mathlib.Core.List.{Memᴰ, append_cancel_right}
use mathlib.Core.List.Memᴰ
use sembazuru.Base.{
  ◌≡◌, ◌≢◌, refl, sym, ap, subst, ◌∙◌, inl, inr, List, [], ◌∷◌, ◌++◌, Option, none, some, length,
  All, arith,
}
use sembazuru.Base.Texts.{split_once, split_once-append}
use sembazuru.Tracer.Paths.{Text}
use sembazuru.Tracer.Sha256.{sha256_hex, length-sha256_hex}
use sembazuru.Tracer.Manifest.{
  ReadOutcome, bytes, not_found, failed, Disk, InputKind, content, absent, InputEntry,
  InputManifest, sort_texts,
}
use sembazuru.Tracer.Manifest.Hash.{
  missing_marker, cmd_marker, token_of, keyed_line, with_line, lines_of, finished,
  manifest_components,
}
use sembazuru.Tracer.Manifest.Sorted.{sort-Memᴰ, of_sort-Memᴰ}

-- The two reads give the same: no file, or contents of one digest.
abbrev pub SameRead : ReadOutcome → ReadOutcome → Type 0
SameRead (bytes b) (bytes c) = sha256_hex b ≡ sha256_hex c
SameRead not_found not_found = Unit {0}
SameRead _ _ = ⊥

-- Equal tokens come from equal reads.
token-SameRead :
    (k : InputKind) (r s : ReadOutcome) {t : Text}
    → token_of k r ≡ some t
    → token_of k s ≡ some t
    → SameRead r s
unfolding token_of
token-SameRead content (bytes b) (bytes c) p q = cc
token-SameRead content (bytes b) not_found p q =
    let e : sha256_hex b ≡ missing_marker = cc in omega (arith, ap length e, length-sha256_hex b)
token-SameRead content not_found (bytes c) p q =
    let e : sha256_hex c ≡ missing_marker = cc in omega (arith, ap length e, length-sha256_hex c)
token-SameRead content not_found not_found p q = tt
token-SameRead absent (bytes b) (bytes c) p q = cc
token-SameRead absent (bytes b) not_found p q = cc
token-SameRead absent not_found (bytes c) p q = cc
token-SameRead absent not_found not_found p q = tt
token-SameRead content failed s p q = cc
token-SameRead absent failed s p q = cc
token-SameRead content (bytes b) failed p q = cc
token-SameRead content not_found failed p q = cc
token-SameRead absent (bytes b) failed p q = cc
token-SameRead absent not_found failed p q = cc

-- A line of a manifest, and the entry and the token that it was made of.
record IsLine (disk : Disk) (e : InputEntry) (line : Text) : Type 0 where
  token : Text
  read_as : token_of e.kind (disk.read e.absolute) ≡ some token
  joined : line ≡ keyed_line e.logical token

with_line-some :
    (logical : Text) (o : Option Text) (ls : Option (List Text)) {out : List Text}
    → with_line logical o ls ≡ some out
    → (t : Text) × (rest : List Text) × (o ≡ some t)
      × (ls ≡ some rest)
      × (out ≡ keyed_line logical t ∷ rest)
with_line-some logical (some t) (some rest) h = (t, rest, refl, refl, cc)
with_line-some logical none ls h = cc
with_line-some logical (some t) none h = cc

lines-entry :
    (disk : Disk) (es : List InputEntry) (ls : List Text)
    → lines_of disk es ≡ some ls
    → (e : InputEntry) → Memᴰ e es
    → (line : Text) × IsLine disk e line × Memᴰ line ls
unfolding lines_of
lines-entry disk [] ls h e m = absurd (Memᴰ.not-nil m)
lines-entry disk (f ∷ es) ls h e m =
    let (t, rest, a, b, c) =
      with_line-some f.logical (token_of f.kind (disk.read f.absolute)) (lines_of disk es) h in
    elim (Memᴰ.cases_cons m) [
      | inl q ↦ (
        keyed_line f.logical t,
        subst (λ (g : InputEntry). IsLine disk g (keyed_line f.logical t)) (sym q)
            (record { token = t; read_as = a; joined = refl }),
        subst (λ (l : List Text). Memᴰ (keyed_line f.logical t) l) (sym c) (Memᴰ.head refl),
      )
      | inr m' ↦
          let (line, i, n) = lines-entry disk es rest b e m' in
          (line, i, subst (λ (l : List Text). Memᴰ line l) (sym c) (Memᴰ.tail n))
    ]

entry-lines :
    (disk : Disk) (es : List InputEntry) (ls : List Text)
    → lines_of disk es ≡ some ls
    → (line : Text) → Memᴰ line ls
    → (e : InputEntry) × IsLine disk e line × Memᴰ e es
unfolding lines_of
entry-lines disk [] ls h line m =
    let e : ls ≡ [] = cc h in absurd (Memᴰ.not-nil (subst (λ (l : List Text). Memᴰ line l) e m))
entry-lines disk (f ∷ es) ls h line m =
    let (t, rest, a, b, c) =
      with_line-some f.logical (token_of f.kind (disk.read f.absolute)) (lines_of disk es) h in
    elim (Memᴰ.cases_cons (subst (λ (l : List Text). Memᴰ line l) c m)) [
      | inl q ↦ (f, record { token = t; read_as = a; joined = q }, Memᴰ.head refl)
      | inr m' ↦ let (e, i, n) = entry-lines disk es rest b line m' in (e, i, Memᴰ.tail n)
    ]

-- Names without NUL, and one entry for a name.
pub record IsNamed (es : List InputEntry) : Type 0 where
  pub no_nul : (e : InputEntry) → Memᴰ e es → All (λ b. b ≢ 0) e.logical
  pub one : (e f : InputEntry) → Memᴰ e es → Memᴰ f es → e.logical ≡ f.logical → e ≡ f

finished-some :
    (manifest : InputManifest) (o : Option (List Text)) {out : List Text}
    → finished manifest o ≡ some out
    → (ls : List Text) × (o ≡ some ls) × (out ≡ sort_texts ls ++ (cmd_marker ∷ manifest.cmds))
finished-some manifest none h = cc
finished-some manifest (some ls) h = (ls, refl, cc)

same_line :
    (e f : InputEntry) (d d' : Disk) (line : Text)
    → All (λ b. b ≢ 0) e.logical
    → All (λ b. b ≢ 0) f.logical
    → IsLine d e line
    → IsLine d' f line
    → (e.logical ≡ f.logical)
      × ((t : Text) × (token_of e.kind (d.read e.absolute) ≡ some t)
          × (token_of f.kind (d'.read f.absolute) ≡ some t))
same_line e f d d' line he hf i j =
    let cut : some (e.logical, i.token) ≡ some (f.logical, j.token) =
      sym (split_once-append 0 e.logical i.token he)
      ∙ ap (split_once 0) (sym i.joined ∙ j.joined)
      ∙ split_once-append 0 f.logical j.token hf in
    let names : e.logical ≡ f.logical = cc cut in
    let tokens : i.token ≡ j.token = cc cut in
    (names, (j.token, i.read_as ∙ ap some tokens, j.read_as))

-- If a manifest, with one entry for a name and no NUL in a name, gives the same components on two states of the file
-- system, then each file that it names is missing in both, or has contents of the same digest in both.
pub equal_components_unchanged :
    (d d' : Disk) (manifest : InputManifest) (out : List Text)
    → IsNamed manifest.inputs
    → manifest_components d manifest ≡ some out
    → manifest_components d' manifest ≡ some out
    → (e : InputEntry) → Memᴰ e manifest.inputs
    → SameRead (d.read e.absolute) (d'.read e.absolute)
unfolding manifest_components
equal_components_unchanged d d' manifest out n h h' e m =
    let (ls, p, q) = finished-some manifest (lines_of d manifest.inputs) h in
    let (ls', p', q') = finished-some manifest (lines_of d' manifest.inputs) h' in
    let sorts : sort_texts ls ≡ sort_texts ls' =
      append_cancel_right (sort_texts ls) (sort_texts ls') (cmd_marker ∷ manifest.cmds)
        (sym q ∙ q') in
    let (line, i, at) = lines-entry d manifest.inputs ls p e m in
    let at' : Memᴰ line ls' =
      of_sort-Memᴰ ls' (subst (λ (l : List Text). Memᴰ line l) sorts (sort-Memᴰ ls at)) in
    let (f, j, mf) = entry-lines d' manifest.inputs ls' p' line at' in
    let (names, (t, r, r')) = same_line e f d d' line (n.no_nul e m) (n.no_nul f mf) i j in
    let same : e ≡ f = n.one e f m mf names in
    token-SameRead e.kind (d.read e.absolute) (d'.read e.absolute) r
      (subst (λ (g : InputEntry). token_of g.kind (d'.read g.absolute) ≡ some t) (sym same) r')
