-- ===== src/Tests/Environment.antt =====
-- crates/agent/src/env_filter.rs at concrete inputs.
use mathlib.Core.List.{Memᴰ}
use sembazuru.Base.{ℕ, ◌≡◌, refl, List, [], ◌∷◌, ◌++◌}
use sembazuru.Base.Texts.{same}
use sembazuru.Base.Assoc.{text_eq}
use sembazuru.Cas.Fingerprint.{each}
use sembazuru.Agent.EnvFilter.{
  env_passthrough_var, passthrough_names, eq_ignore_ascii_case, find_named, split, names_of, trim,
  trim_start, trim_end,
}
use sembazuru.Agent.EnvFilter.Kept.{Needed, asked}
use sembazuru.Tests.Inputs.{ab}

-- Two names, with a space before the second, and an empty one.
abbrev passed : List ℕ
passed = ab ++ (b',' ∷ 32 ∷ b'c' ∷ b',' ∷ [])

abbrev environment : List (List ℕ × List ℕ)
environment = (env_passthrough_var, passed) ∷ (b'C' ∷ [], ab) ∷ (b'S' ∷ [], ab) ∷ []

two_names : passthrough_names environment ≡ ab ∷ (b'c' ∷ []) ∷ []
unfolding passthrough_names find_named eq_ignore_ascii_case each same split names_of trim trim_start
    trim_end
two_names = refl

-- The environment asks for it in lower case.
c-Needed : Needed (passthrough_names environment) (b'C' ∷ [])
unfolding each
c-Needed = asked (b'c' ∷ []) (rw two_names (Memᴰ.tail (Memᴰ.head refl))) refl
