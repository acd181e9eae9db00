-- ===== src/Agent/Workers/Ownership.antt =====
-- crates/agent/src/coordination.rs: who holds a worker id. Each step of the table is one registration or
-- one ping.
use mathlib.Core.Bool.{true, false}
use mathlib.Core.Logic.{◌≢◌, inl, inr}
use sembazuru.Base.{
  ℕ, ◌≡◌, refl, sym, ap, subst, ◌∙◌, List, Option, some, Bool-cases, Option-cases, arith,
}
use sembazuru.Base.Texts.{same, same_refl, eq_of_same}
use sembazuru.Base.Assoc.{text_eq, lookup, lookup-insert_self, lookup-insert_ne, insert-Distinct}
use sembazuru.Agent.Workers.{
  Capabilities, WorkerEntry, WorkerTable, alive, reap, collides, joined, upsert_register, pinged,
  on_ping,
}
use sembazuru.Agent.Workers.Registered.{
  holds, Sane, reap-Distinct, lookup-reap_fresh, alive-fresh, live_owner_kept,
}

-- The messages that change the table.
pub data Message : Type 0 where
  registers : List ℕ → List ℕ → Capabilities → Message
  pings : List ℕ → ℕ → ℕ → Option ℕ → Message

abbrev pub handle : WorkerTable → Message → ℕ → WorkerTable
handle t (registers k p caps) now = (upsert_register t k p caps now).0
handle t (pings k running slots pct) now = on_ping t k running slots pct now

registered-Sane :
    (t : WorkerTable) (k p : List ℕ) (caps : Capabilities) (now : ℕ)
    → Sane t
    → Sane (upsert_register t k p caps now).0
unfolding upsert_register
registered-Sane t k p caps now s = elim (Bool-cases (collides t now p (lookup k (reap t now)))) [
  | inl c ↦ rw c (record { distinct = reap-Distinct t now s; window = s.window })
  | inr c ↦ rw c (record {
    distinct = insert-Distinct k _ (reap t now) (reap-Distinct t now s);
    window = s.window;
  })
]

pinged-Sane :
    (t : WorkerTable) (k : List ℕ) (running slots : ℕ) (pct : Option ℕ) (now : ℕ)
    → Sane t
    → Sane (on_ping t k running slots pct now)
unfolding on_ping
pinged-Sane t k running slots pct now s = elim (Option-cases (lookup k t.inner)) [
  | inl n ↦ rw (on_ping, n) s
  | inr (e, h) ↦
      rw (on_ping, h)
        (record {
          distinct = insert-Distinct k (pinged running slots pct now e) t.inner s.distinct;
          window = s.window;
        })
]

-- A registration and a ping each keep one entry for an id, and the time limit above zero.
pub handle-Sane : (t : WorkerTable) (m : Message) (now : ℕ) → Sane t → Sane (handle t m now)
handle-Sane t (registers k p caps) now s = registered-Sane t k p caps now s
handle-Sane t (pings k running slots pct) now s = pinged-Sane t k running slots pct now s

-- The id is held, at this endpoint.
abbrev pub HeldAt : WorkerTable → List ℕ → List ℕ → Type 0
HeldAt t k p = (e : WorkerEntry) × (holds t k ≡ some e) × (e.execution_endpoint ≡ p)

ne_of_same : (j k : List ℕ) → same j k ≡ false → j ≢ k
ne_of_same j k e q = ground (arith, e, ap (λ (i : List ℕ). same i k) q, same_refl k)

registered_other :
    (t : WorkerTable) (j k p : List ℕ) (caps : Capabilities) (now : ℕ)
    → j ≢ k
    → holds (upsert_register t j p caps now).0 k ≡ lookup k (reap t now)
unfolding upsert_register
registered_other t j k p caps now ne =
    elim (Bool-cases (collides t now p (lookup j (reap t now)))) [
      | inl c ↦ rw c refl
      | inr c ↦ rw c (lookup-insert_ne j k (joined j p caps now) (reap t now) ne)
    ]

registered_again :
    (t : WorkerTable) (k p : List ℕ) (caps : Capabilities) (now : ℕ) (e : WorkerEntry)
    → lookup k (reap t now) ≡ some e
    → same e.execution_endpoint p ≡ true
    → holds (upsert_register t k p caps now).0 k ≡ some (joined k p caps now)
unfolding upsert_register collides
registered_again t k p caps now e h q =
    rw (h, q) (lookup-insert_self k (joined k p caps now) (reap t now))

joined_endpoint :
    (k p : List ℕ) (caps : Capabilities) (now : ℕ) → (joined k p caps now).execution_endpoint ≡ p
unfolding joined
joined_endpoint k p caps now = refl

registered_held :
    (t : WorkerTable) (j k p : List ℕ) (caps : Capabilities) (now : ℕ) (e : WorkerEntry)
    → Sane t
    → holds t k ≡ some e
    → alive t now e ≡ true
    → HeldAt (upsert_register t j p caps now).0 k e.execution_endpoint
registered_held t j k p caps now e s h a =
    let there : lookup k (reap t now) ≡ some e =
      lookup-reap_fresh t now k e s h (alive-fresh t now e a) in
    elim (Bool-cases (same j k)) [
      | inr n ↦ (e, registered_other t j k p caps now (ne_of_same j k n) ∙ there, refl)
      | inl y ↦
          subst (λ (i : List ℕ). HeldAt (upsert_register t i p caps now).0 k e.execution_endpoint)
            (sym (eq_of_same j k y))
            (elim (Bool-cases (same e.execution_endpoint p)) [
              | inl q ↦ (
                joined k p caps now,
                registered_again t k p caps now e there q,
                joined_endpoint k p caps now ∙ sym (eq_of_same e.execution_endpoint p q),
              )
              | inr q ↦ (
                e,
                (live_owner_kept t k p caps now e s h a (ne_of_same e.execution_endpoint p q)).1,
                refl,
              )
            ])
    ]

pinged_self :
    (t : WorkerTable) (k : List ℕ) (running slots : ℕ) (pct : Option ℕ) (now : ℕ) (e : WorkerEntry)
    → holds t k ≡ some e
    → HeldAt (on_ping t k running slots pct now) k e.execution_endpoint
unfolding on_ping pinged
pinged_self t k running slots pct now e h =
    rw (on_ping, h)
      (
        pinged running slots pct now e,
        lookup-insert_self k (pinged running slots pct now e) t.inner,
        refl,
      )

pinged_other :
    (t : WorkerTable) (j k : List ℕ) (running slots : ℕ) (pct : Option ℕ) (now : ℕ)
    → j ≢ k
    → holds (on_ping t j running slots pct now) k ≡ holds t k
unfolding on_ping
pinged_other t j k running slots pct now ne = elim (Option-cases (lookup j t.inner)) [
  | inl n ↦ rw (on_ping, n) refl
  | inr (d, g) ↦ rw (on_ping, g) (lookup-insert_ne j k (pinged running slots pct now d) t.inner ne)
]

pinged_held :
    (t : WorkerTable) (j k : List ℕ) (running slots : ℕ) (pct : Option ℕ) (now : ℕ)
    (e : WorkerEntry)
    → holds t k ≡ some e
    → HeldAt (on_ping t j running slots pct now) k e.execution_endpoint
pinged_held t j k running slots pct now e h = elim (Bool-cases (same j k)) [
  | inr n ↦ (e, pinged_other t j k running slots pct now (ne_of_same j k n) ∙ h, refl)
  | inl y ↦
      subst (λ (i : List ℕ). HeldAt (on_ping t i running slots pct now) k e.execution_endpoint)
        (sym (eq_of_same j k y)) (pinged_self t k running slots pct now e h)
]

-- In a table with one entry for an id and a time limit above zero: while the holder of an id is
-- alive, no registration and no ping, of any worker, moves the id to another endpoint or drops it.
pub live_endpoint_stable :
    (t : WorkerTable) (m : Message) (now : ℕ) (k : List ℕ) (e : WorkerEntry)
    → Sane t
    → holds t k ≡ some e
    → alive t now e ≡ true
    → HeldAt (handle t m now) k e.execution_endpoint
live_endpoint_stable t (registers j p caps) now k e s h a = registered_held t j k p caps now e s h a
live_endpoint_stable t (pings j running slots pct) now k e s h a =
    pinged_held t j k running slots pct now e h
