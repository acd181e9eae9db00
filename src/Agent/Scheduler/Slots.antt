-- ===== src/Agent/Scheduler/Slots.antt =====
-- crates/agent/src/scheduler.rs: the count of the actions in flight, and the bounds on capacity.
use native.Mathlib.Nat.{mul-le-mul_left}
use sembazuru.Base.{
  ℕ, zero, suc, ◌+◌, ◌-◌, ◌*◌, ◌/◌, ◌%◌, ◌^◌, ◌<◌, ◌≤◌, min, ◌≡◌, ◌≢◌, refl, ap, ◌∙◌, false, List,
  Option, none, some, Bool-cases, inl, inr, arith,
}
use sembazuru.Base.Texts.{same, same_refl, eq_of_same}
use sembazuru.Base.Assoc.{
  text_eq, lookup, insert, remove, Distinct, lookup-insert_self, lookup-insert_ne, lookup-remove_ne,
  lookup-remove_self, insert-Distinct,
}
use sembazuru.Agent.Workers.{WorkerEntry}
use sembazuru.Agent.Scheduler.{
  InFlight, count, reserve, release, effective_capacity, scaled, trusted_cpu,
}

ne_of_same : (j k : List ℕ) → same j k ≡ false → j ≢ k
ne_of_same j k e q = ground (arith, e, ap (λ (i : List ℕ). same i k) q, same_refl k)

count-insert_self : (m : InFlight) (k : List ℕ) (c : ℕ) → count (insert k c m) k ≡ c
unfolding count
count-insert_self m k c = rw (lookup-insert_self k c m) refl

count-insert_ne : (m : InFlight) (k j : List ℕ) (c : ℕ) → k ≢ j → count (insert k c m) j ≡ count m j
unfolding count
count-insert_ne m k j c ne = rw (lookup-insert_ne k j c m ne) refl

reserved_self :
    (m : InFlight) (k : List ℕ)
    → count m k + 1 < 2 ^ 32
    → lookup k (reserve m k) ≡ some (count m k + 1)
unfolding reserve
reserved_self m k h = lookup-insert_self k ((count m k + 1) % 2 ^ 32) m ∙ ap some (omega arith)

-- Reserving a slot adds one to the count of the worker and to no other.
pub count-reserve :
    (m : InFlight) (k j : List ℕ)
    → count m k + 1 < 2 ^ 32
    → (count (reserve m k) k ≡ count m k + 1) × (k ≢ j → count (reserve m k) j ≡ count m j)
unfolding reserve
count-reserve m k j h = (
  count-insert_self m k ((count m k + 1) % 2 ^ 32) ∙ omega arith,
  count-insert_ne m k j ((count m k + 1) % 2 ^ 32),
)

release_last :
    (m : InFlight) (k : List ℕ) (c : ℕ) → lookup k m ≡ some c → c ≡ 1 → release m k ≡ remove k m
unfolding release
release_last m k c h e = rw (release, h, e) refl

release_more :
    (m : InFlight) (k : List ℕ) (c : ℕ)
    → lookup k m ≡ some (suc (suc c))
    → release m k ≡ insert k (suc c) m
unfolding release
release_more m k c h =
    let less : suc (suc c) - 1 ≡ suc c = omega arith in rw (release, h, less) (ground arith)

count-remove_ne : (m : InFlight) (k j : List ℕ) → k ≢ j → count (remove k m) j ≡ count m j
unfolding count
count-remove_ne m k j ne = rw (lookup-remove_ne k j m ne) refl

count-remove_self : (m : InFlight) (k : List ℕ) → Distinct m → count (remove k m) k ≡ 0
unfolding count
count-remove_self m k d = rw (lookup-remove_self k m d) refl

-- What a guard gives back, for each worker.
released :
    (m : InFlight) (k j : List ℕ) (c : ℕ)
    → Distinct m
    → lookup k m ≡ some (suc c)
    → (count (release m k) k ≡ c) × (k ≢ j → count (release m k) j ≡ count m j)
released m k j zero d h =
    rw (release_last m k 1 h refl) (count-remove_self m k d, count-remove_ne m k j)
released m k j (suc c) d h =
    rw (release_more m k c h) (count-insert_self m k (suc c), count-insert_ne m k j (suc c))

pub reserve-Distinct : (m : InFlight) (k : List ℕ) → Distinct m → Distinct (reserve m k)
unfolding reserve
reserve-Distinct m k d = insert-Distinct k ((count m k + 1) % 2 ^ 32) m d

-- In a map with one entry for an id, where the worker's count stays below 2^32: a reservation that
-- its guard gives back leaves every worker's count as it was.
pub release-reserve :
    (m : InFlight) (k j : List ℕ)
    → Distinct m
    → count m k + 1 < 2 ^ 32
    → count (release (reserve m k) k) j ≡ count m j
release-reserve m k j d h =
    let (self, other) =
      released (reserve m k) k j (count m k) (reserve-Distinct m k d)
        (reserved_self m k h ∙ ap some (omega arith)) in
    elim (Bool-cases (same k j)) [
      | inl y ↦ rw (← eq_of_same k j y) self
      | inr n ↦ let ne = ne_of_same k j n in other ne ∙ (count-reserve m k j h).1 ne
    ]

scaled_some : (base pct : ℕ) → base ≤ 256 → min (base * min pct 100) (2 ^ 32 - 1) / 100 ≤ base
scaled_some base pct h =
    let part : base * min pct 100 ≤ base * 100 = mul-le-mul_left base (omega arith) in omega arith

scaled_le : (base : ℕ) (o : Option ℕ) → base ≤ 256 → scaled base o ≤ 256
unfolding scaled
scaled_le base none h = h
scaled_le base (some pct) h = let part = scaled_some base pct h in omega arith

scaled_full :
    (base pct : ℕ) → 100 ≤ pct → base ≤ 256 → min (base * min pct 100) (2 ^ 32 - 1) / 100 ≡ base
scaled_full base pct g h = let all_of : min pct 100 ≡ 100 = omega arith in rw all_of (omega arith)

-- A worker that reports no idle share has 1 to 256 slots; one that does has at most 256, and the share of
-- 100 or more gives the same number as no report.
pub effective_capacity_bounds :
    (w : WorkerEntry)
    → (effective_capacity w ≤ 256)
      × (w.idle_cpu_pct ≡ none → 1 ≤ effective_capacity w)
      × ((pct : ℕ)
          → 100 ≤ pct
          → effective_capacity (record w { idle_cpu_pct = some pct })
            ≡ effective_capacity (record w { idle_cpu_pct = none }))
      × ((pct : ℕ)
          → effective_capacity (record w { idle_cpu_pct = some pct })
            ≤ effective_capacity (record w { idle_cpu_pct = none }))
unfolding effective_capacity
effective_capacity_bounds w = (
  scaled_le (trusted_cpu w) w.idle_cpu_pct (omega arith),
  λ e. rw e (omega arith),
  λ pct h. scaled_full (trusted_cpu w) pct h (omega arith),
  λ pct. scaled_some (trusted_cpu w) pct (omega arith),
)
