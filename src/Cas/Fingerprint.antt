-- ===== src/Cas/Fingerprint.antt =====
-- The fingerprints of crates/cas/src/action_cache.rs: the key of an action before it runs, and the key with
-- the hash of its inputs. Literals of the sources are written as their bytes.
use sembazuru.Base.{
  ℕ, ◌+◌, ◌-◌, ◌≡◌, refl, Bool, true, false, ◌&&◌, ◌||◌, List, [], ◌∷◌, ◌++◌, length, take, leb,
  ltb, ◌==◌, if◌then◌else◌, concat_map,
}
use sembazuru.Base.Texts.{same}
use sembazuru.Bytes.{le_bytes}
use sembazuru.Blake3.{Blake3}
use sembazuru.Cas.Digest.{Digest, of, canonical}

abbrev pub volatile_env : List (List ℕ)
volatile_env =
    (80 ∷ 65 ∷ 84 ∷ 72 ∷ [])
    ∷ (84 ∷ 69 ∷ 77 ∷ 80 ∷ [])
    ∷ (84 ∷ 77 ∷ 80 ∷ [])
    ∷ (84 ∷ 77 ∷ 80 ∷ 68 ∷ 73 ∷ 82 ∷ [])
    ∷ (85 ∷ 83 ∷ 69 ∷ 82 ∷ 78 ∷ 65 ∷ 77 ∷ 69 ∷ [])
    ∷ (85 ∷ 83 ∷ 69 ∷ 82 ∷ 80 ∷ 82 ∷ 79 ∷ 70 ∷ 73 ∷ 76 ∷ 69 ∷ [])
    ∷ (85 ∷ 83 ∷ 69 ∷ 82 ∷ 68 ∷ 79 ∷ 77 ∷ 65 ∷ 73 ∷ 78 ∷ [])
    ∷ (72 ∷ 79 ∷ 77 ∷ 69 ∷ 80 ∷ 65 ∷ 84 ∷ 72 ∷ [])
    ∷ (72 ∷ 79 ∷ 77 ∷ 69 ∷ 68 ∷ 82 ∷ 73 ∷ 86 ∷ 69 ∷ [])
    ∷ (67 ∷ 79 ∷ 77 ∷ 80 ∷ 85 ∷ 84 ∷ 69 ∷ 82 ∷ 78 ∷ 65 ∷ 77 ∷ 69 ∷ [])
    ∷ (76 ∷ 79 ∷ 71 ∷ 79 ∷ 78 ∷ 83 ∷ 69 ∷ 82 ∷ 86 ∷ 69 ∷ 82 ∷ [])
    ∷ (83 ∷ 69 ∷ 83 ∷ 83 ∷ 73 ∷ 79 ∷ 78 ∷ 78 ∷ 65 ∷ 77 ∷ 69 ∷ [])
    ∷ (80 ∷ 82 ∷ 79 ∷ 77 ∷ 80 ∷ 84 ∷ [])
    ∷ (82 ∷ 65 ∷ 78 ∷ 68 ∷ 79 ∷ 77 ∷ [])
    ∷ []

-- `u8::to_ascii_uppercase` and its inverse on letters.
abbrev pub upper : ℕ → ℕ
upper c = if leb 97 c && leb c 122 then c - 32 else c

abbrev pub lower : ℕ → ℕ
lower c = if leb 65 c && leb c 90 then c + 32 else c

unfoldable pub each : (ℕ → ℕ) → List ℕ → List ℕ
each f [] = []
each f (c ∷ cs) = f c ∷ each f cs

unfoldable pub starts_with : List ℕ → List ℕ → Bool
starts_with s prefix = same (take (length prefix) s) prefix

unfoldable pub listed : List (List ℕ) → List ℕ → Bool
listed [] name = false
listed (v ∷ vs) name = same v name || listed vs name

unfoldable pub is_volatile : List ℕ → Bool
unfolding each starts_with listed
is_volatile name =
    let upper_name = each upper name in
    starts_with upper_name (86 ∷ 83 ∷ 67 ∷ 77 ∷ 68 ∷ 95 ∷ [])
    || (starts_with upper_name (95 ∷ 95 ∷ 86 ∷ 83 ∷ 67 ∷ 77 ∷ 68 ∷ [])
        || listed volatile_env upper_name)

abbrev pub weak_key_schema : ℕ
weak_key_schema = 3

-- `/` becomes a backslash, and letters become lower case.
unfoldable pub normalized : List ℕ → List ℕ
unfolding each
normalized cwd = each (λ c. lower (if c == 47 then 92 else c)) cwd

-- The order on strings, and on pairs of them.
unfoldable pub at_most : List ℕ → List ℕ → Bool
at_most [] b = true
at_most (x ∷ a) [] = false
at_most (x ∷ a) (y ∷ b) = if ltb x y then true else if x == y then at_most a b else false

unfoldable pub pair_at_most : List ℕ × List ℕ → List ℕ × List ℕ → Bool
unfolding at_most
pair_at_most (k, v) (j, w) = if same k j then at_most v w else at_most k j

unfoldable pub placed : List ℕ × List ℕ → List (List ℕ × List ℕ) → List (List ℕ × List ℕ)
unfolding pair_at_most
placed e [] = e ∷ []
placed e (d ∷ ds) = if pair_at_most e d then e ∷ d ∷ ds else d ∷ placed e ds

-- The pairs that are kept, in order; equal pairs have equal bytes, so any sort gives this list.
unfoldable pub kept_env : List (List ℕ × List ℕ) → List (List ℕ × List ℕ)
unfolding is_volatile placed each
kept_env [] = []
kept_env ((k, v) ∷ env) =
    if is_volatile k then kept_env env else placed (each upper k, v) (kept_env env)

unfoldable pub env_bytes : List ℕ × List ℕ → List ℕ
env_bytes (k, v) = k ++ (61 ∷ (v ++ (0 ∷ [])))

unfoldable pub weak_blob : List (List ℕ) → List (List ℕ × List ℕ) → List ℕ → Digest → List ℕ
unfolding normalized kept_env env_bytes
weak_blob argv env cwd toolchain =
    (115 ∷ 98 ∷ 122 ∷ 45 ∷ 119 ∷ 101 ∷ 97 ∷ 107 ∷ 0 ∷ [])
    ++ (le_bytes 4 weak_key_schema
        ++ ((0 ∷ 97 ∷ 114 ∷ 103 ∷ 118 ∷ 0 ∷ [])
            ++ (concat_map (λ a. a ++ (0 ∷ [])) argv
                ++ ((0 ∷ 99 ∷ 119 ∷ 100 ∷ 0 ∷ [])
                    ++ (normalized cwd
                        ++ ((0 ∷ 101 ∷ 110 ∷ 118 ∷ 0 ∷ [])
                            ++ (concat_map env_bytes (kept_env env)
                                ++ ((0 ∷ 116 ∷ 111 ∷ 111 ∷ 108 ∷ 0 ∷ [])
                                    ++ canonical toolchain))))))))

module _ (b3 : Blake3) where
  unfoldable pub weak_fingerprint :
      List (List ℕ) → List (List ℕ × List ℕ) → List ℕ → Digest → Digest
  unfolding weak_blob
  weak_fingerprint argv env cwd toolchain = of b3 (weak_blob argv env cwd toolchain)

  unfoldable pub strong_fingerprint : Digest → List ℕ → Digest
  unfolding canonical
  strong_fingerprint weak input_hash = of b3 (canonical weak ++ (0 ∷ input_hash))

  -- A variable of the volatile set does not reach the key, wherever it stands in front.
  pub weak_fingerprint-is_volatile :
      (argv : List (List ℕ)) (k v : List ℕ) (env : List (List ℕ × List ℕ)) (cwd : List ℕ)
      (toolchain : Digest)
      → is_volatile k ≡ true
      → weak_fingerprint argv ((k, v) ∷ env) cwd toolchain ≡ weak_fingerprint argv env cwd toolchain
  unfolding weak_fingerprint weak_blob kept_env
  weak_fingerprint-is_volatile argv k v env cwd toolchain h = rw h refl

volatile_path : is_volatile (112 ∷ 97 ∷ 116 ∷ 104 ∷ []) ≡ true
unfolding is_volatile same
volatile_path = refl
