-- ===== src/Agent/Workers/Registered.antt =====
-- crates/agent/src/coordination.rs: what a registration does with the entry of its worker id.
use mathlib.Core.Bool.{true, false}
use mathlib.Core.Logic.{◌≢◌}
use sembazuru.Base.{ℕ, ◌*◌, ◌<◌, ◌≡◌, refl, ◌∙◌, List, Option, some, ltb, arith}
use sembazuru.Base.Texts.{same-eq_false}
use sembazuru.Base.Assoc.{text_eq, lookup, Distinct, kept, lookup-retain, retain-Distinct}
use sembazuru.Agent.Workers.{
  Capabilities, WorkerEntry, WorkerTable, elapsed, alive, reap, reap_factor, collides,
  upsert_register, is_live,
}

-- The entry of a worker, if the table has one.
abbrev pub holds : WorkerTable → List ℕ → Option WorkerEntry
holds t k = lookup k t.inner

-- One entry for an id, and a time limit that is not zero.
pub record Sane (t : WorkerTable) : Type 0 where
  pub distinct : Distinct t.inner
  pub window : 0 < t.dead_timeout

pub reap-Distinct : (t : WorkerTable) (now : ℕ) → Sane t → Distinct (reap t now)
unfolding reap
reap-Distinct t now s = retain-Distinct _ t.inner s.distinct

lookup-reap :
    (t : WorkerTable) (now : ℕ) (k : List ℕ)
    → Sane t
    → lookup k (reap t now)
      ≡ kept (λ _ e. ltb (elapsed now e) (t.dead_timeout * reap_factor)) k (holds t k)
unfolding reap
lookup-reap t now k s = lookup-retain _ k t.inner s.distinct

-- An entry that is not too old survives the clearing.
pub lookup-reap_fresh :
    (t : WorkerTable) (now : ℕ) (k : List ℕ) (e : WorkerEntry)
    → Sane t
    → holds t k ≡ some e
    → elapsed now e < t.dead_timeout * reap_factor
    → lookup k (reap t now) ≡ some e
lookup-reap_fresh t now k e s h fresh = lookup-reap t now k s ∙ (rw h (ground (arith, fresh)))

pub alive-fresh :
    (t : WorkerTable) (now : ℕ) (e : WorkerEntry)
    → alive t now e ≡ true
    → elapsed now e < t.dead_timeout * reap_factor
alive-fresh t now e a = ground (arith, a)

owned_lem :
    (t : WorkerTable) (k p : List ℕ) (e : WorkerEntry) (now : ℕ)
    → e.execution_endpoint ≢ p
    → alive t now e ≡ true
    → collides t now p (some e) ≡ true
unfolding collides
owned_lem t k p e now ne a = rw (same-eq_false e.execution_endpoint p ne, a)

-- In a table with one entry for an id and a time limit above zero: while the holder of an id is
-- alive, a registration of the id from another endpoint is refused, and the holder's entry stays
-- as it was.
pub live_owner_kept :
    (t : WorkerTable) (k p : List ℕ) (caps : Capabilities) (now : ℕ) (e : WorkerEntry)
    → Sane t
    → holds t k ≡ some e
    → alive t now e ≡ true
    → e.execution_endpoint ≢ p
    → ((upsert_register t k p caps now).1 ≡ false)
      × (holds (upsert_register t k p caps now).0 k ≡ some e)
unfolding upsert_register
live_owner_kept t k p caps now e s h a ne =
    let kept_e : lookup k (reap t now) ≡ some e =
      lookup-reap_fresh t now k e s h (alive-fresh t now e a) in
    rw (kept_e, owned_lem t k p e now ne a) (refl, kept_e)

-- A worker that has just registered.
pub record Newcomer (t : WorkerTable) (k p : List ℕ) (caps : Capabilities) (now : ℕ) : Type 0 where
  pub entry : WorkerEntry
  pub held : holds t k ≡ some entry
  pub endpoint : entry.execution_endpoint ≡ p
  pub capabilities : entry.caps ≡ caps
  pub idle : entry.running_actions ≡ 0
  pub slots : entry.idle_slots ≡ caps.cpu_count
  pub dated : entry.last_ping ≡ now
  pub live : is_live t k now ≡ true
