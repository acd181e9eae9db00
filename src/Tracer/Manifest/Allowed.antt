-- ===== src/Tracer/Manifest/Allowed.antt =====
-- crates/tracer/src/action_key.rs: the reads of a cacheable action that the manifest does not key.
use mathlib.Core.List.{Memᴰ}
use sembazuru.Base.Texts.{same}
use sembazuru.Base.Assoc.{text_eq, eq_of_same_pair, ne_of_beq}
use sembazuru.Cas.Listed.{listed→Memᴰ}
use sembazuru.Base.{
  Bool, ◌&&◌, ◌⊎◌, All-All, arith, ◌≡◌, ◌≢◌, refl, sym, true, false, not, inl, inr, List, [], ◌∷◌,
  All, Bool-cases, both_true, eq_false_of_not,
}
use sembazuru.Tracer.Model.{AccessKind}
use sembazuru.Tracer.Paths.{Text}
use sembazuru.Tracer.Logical.{any}
use sembazuru.Tracer.Graph.{
  RegistryAccess, EnvAccess, env_block_name, contains_text, PathAccess, has_kind,
}
use sembazuru.Tracer.Manifest.{
  DependencyGraph, root_processes_found, allows_registry, allows_enumerate, SideEffectPolicy,
  is_cache_blocking_warning, side_effects_allowed,
}

-- What else the processes of the graph did is known and allowed: the warnings are none but that of root processes, and
-- the policy lists each registry value and each directory that was listed, and lets the environment block be read if it
-- was.
pub record Allowed (policy : SideEffectPolicy) (graph : DependencyGraph) : Type 0 where
  pub observed : All (λ (w : Text). contains_text w root_processes_found ≡ true) graph.warnings
  pub registry :
      All (λ (r : RegistryAccess). Memᴰ (r.key, r.value) policy.allowed_registry) graph.registry
  pub block :
      All (λ (e : EnvAccess). (e.name ≢ env_block_name) ⊎ (policy.allow_env_block ≡ true)) graph.env
  pub listings :
      All
        (λ (i : PathAccess).
          (has_kind AccessKind.enumerate i.kinds ≡ false) ⊎ Memᴰ i.path policy.allowed_enumerate)
        graph.inputs

not_any :
    {A : Type 0} (test : A → Bool) (P : A → Type 0)
    → ((x : A) → test x ≡ false → P x)
    → (xs : List A) → any test xs ≡ false
    → All P xs
unfolding any
not_any test P f [] h = tt
not_any test P f (x ∷ xs) h =
    let now : test x ≡ false = ground arith in
    let later : any test xs ≡ false = ground arith in (f x now, not_any test P f xs later)

true_of_not : (b : Bool) → not b ≡ false → b ≡ true
true_of_not true h = refl
true_of_not false h = absurd cc

pair_listed :
    (key value : Text) (ps : List (Text × Text))
    → any (λ (a : Text × Text). same a.0 key && same a.1 value) ps ≡ true
    → Memᴰ (key, value) ps
unfolding any
pair_listed key value [] h = absurd cc
pair_listed key value ((k, v) ∷ ps) h = elim (Bool-cases (same k key && same v value)) [
  | inl y ↦ Memᴰ.head (sym (eq_of_same_pair (k, v) (key, value) y))
  | inr n ↦ Memᴰ.tail (pair_listed key value ps (rw n at h))
]

allows-Memᴰ :
    (policy : SideEffectPolicy) (r : RegistryAccess)
    → not (allows_registry policy r.key r.value) ≡ false
    → Memᴰ (r.key, r.value) policy.allowed_registry
unfolding allows_registry
allows-Memᴰ policy r h = pair_listed r.key r.value policy.allowed_registry (true_of_not _ h)

listing_allowed :
    (policy : SideEffectPolicy) (i : PathAccess)
    → (has_kind AccessKind.enumerate i.kinds && not (allows_enumerate policy i.path)) ≡ false
    → (has_kind AccessKind.enumerate i.kinds ≡ false) ⊎ Memᴰ i.path policy.allowed_enumerate
unfolding allows_enumerate
listing_allowed policy i h = elim (Bool-cases (has_kind AccessKind.enumerate i.kinds)) [
  | inl y ↦ inr (listed→Memᴰ policy.allowed_enumerate i.path (true_of_not _ (rw y at h)))
  | inr n ↦ inl n
]

block_allowed :
    (policy : SideEffectPolicy) (es : List EnvAccess)
    → (not policy.allow_env_block && any (λ (e : EnvAccess). same e.name env_block_name) es) ≡ false
    → All (λ (e : EnvAccess). (e.name ≢ env_block_name) ⊎ (policy.allow_env_block ≡ true)) es
block_allowed policy es h = elim (Bool-cases policy.allow_env_block) [
  | inl y ↦ All-All (λ e. inr y) es
  | inr n ↦
      not_any (λ (e : EnvAccess). same e.name env_block_name) _
        (λ e q. inl (ne_of_beq e.name env_block_name q)) es (rw n at h)
]

-- What the tests of the policy and of the warnings establish.
pub cacheable-Allowed :
    (policy : SideEffectPolicy) (graph : DependencyGraph)
    → any is_cache_blocking_warning graph.warnings ≡ false
    → side_effects_allowed policy graph ≡ true
    → Allowed policy graph
unfolding side_effects_allowed is_cache_blocking_warning
cacheable-Allowed policy graph quiet h =
    let (reg, rest) =
      both_true
        (not
          (any (λ (r : RegistryAccess). not (allows_registry policy r.key r.value)) graph.registry))
        _ h in
    let (env, dirs) =
      both_true
        (not (
          not policy.allow_env_block
          && any (λ (e : EnvAccess). same e.name env_block_name) graph.env))
        _ rest in
    record {
      observed = not_any is_cache_blocking_warning _ (λ w q. true_of_not _ q) graph.warnings quiet;
      registry =
          not_any (λ (r : RegistryAccess). not (allows_registry policy r.key r.value)) _
            (λ r q. allows-Memᴰ policy r q) graph.registry (eq_false_of_not _ reg);
      block = block_allowed policy graph.env (eq_false_of_not _ env);
      listings =
          not_any
            (λ (i : PathAccess).
              has_kind AccessKind.enumerate i.kinds && not (allows_enumerate policy i.path))
            _ (λ i q. listing_allowed policy i q) graph.inputs (eq_false_of_not _ dirs);
    }
