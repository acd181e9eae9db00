-- ===== src/Agent/Scheduler/Preferred.antt =====
-- crates/agent/src/scheduler.rs: the preferred worker of a list, and the most idle one.
use mathlib.Core.List.{Memᴰ}
use mathlib.Core.List.Memᴰ
use sembazuru.Base.{
  ℕ, zero, suc, ◌+◌, ◌<◌, ◌≤◌, ◌≡◌, ◌↔◌, true, false, List, [], ◌∷◌, ltb, Bool-cases, inl, inr,
  length, All, get_or, arith,
}
use sembazuru.Agent.Workers.{WorkerEntry}
use sembazuru.Agent.Scheduler.{
  InFlight, admissible, effective_idle, eligible, exclusion_reason, contains, allowed,
  preferred_from, preferred_index, score, greater, most_idle, chosen,
}

-- A worker has no reason of exclusion exactly when the filter of `pick_and_reserve` lets it through, for
-- an action that no worker has tried.
pub exclusion_iff :
    (v : List ℕ) (w : WorkerEntry) → (exclusion_reason v w ≡ eligible) ↔ (allowed v [] w ≡ true)
unfolding exclusion_reason allowed admissible contains
exclusion_iff v w = (λ h. ground (arith, h), λ h. ground (arith, h))

preferred_from_lt :
    (key i best best_score n : ℕ) (ws : List WorkerEntry)
    → best < n
    → i + length ws ≤ n
    → preferred_from key i best best_score ws < n
unfolding preferred_from
preferred_from_lt key i best best_score n [] h g = h
preferred_from_lt key i best best_score n (w ∷ ws) h g =
    elim (Bool-cases (ltb best_score (score key w))) [
      | inl y ↦
          rw y (preferred_from_lt key (suc i) i (score key w) n ws (omega arith) (omega arith))
      | inr n₀ ↦ rw n₀ (preferred_from_lt key (suc i) best best_score n ws h (omega arith))
    ]

-- The preferred worker of a list that is not empty is one of the list.
pub preferred_index_lt :
    (key : ℕ) (w : WorkerEntry) (ws : List WorkerEntry)
    → preferred_index (w ∷ ws) key < length (w ∷ ws)
unfolding preferred_index
preferred_index_lt key w ws =
    preferred_from_lt key 0 0 0 (length (w ∷ ws)) (w ∷ ws) (omega arith) (omega arith)

module _ (P : WorkerEntry → Type 0) where
  get_or_all :
      (i : ℕ) (d : WorkerEntry) (ws : List WorkerEntry) → P d → All P ws → P (get_or ws i d)
  get_or_all i d [] h a = h
  get_or_all zero d (w ∷ ws) h a = a.0
  get_or_all (suc i) d (w ∷ ws) h a = get_or_all i d ws h a.1

  most_idle_all :
      (m : InFlight) (best : WorkerEntry) (ws : List WorkerEntry)
      → P best
      → All P ws
      → P (most_idle m best ws)
  unfolding most_idle
  most_idle_all m best [] h a = h
  most_idle_all m best (w ∷ ws) h a = elim (Bool-cases (greater m best w)) [
    | inl y ↦ rw y (most_idle_all m best ws h a.1)
    | inr n ↦ rw n (most_idle_all m w ws a.0 a.1)
  ]

  pub chosen_all :
      (m : InFlight) (key : ℕ) (w : WorkerEntry) (ws : List WorkerEntry)
      → P w
      → All P ws
      → P (chosen m key w ws)
  unfolding chosen
  chosen_all m key w ws h a =
      let preferred = get_or (w ∷ ws) (preferred_index (w ∷ ws) key) w in
      elim (Bool-cases (ltb 0 (effective_idle preferred m))) [
        | inl y ↦ rw y (get_or_all (preferred_index (w ∷ ws) key) w (w ∷ ws) h (h, a))
        | inr n ↦ rw n (most_idle_all m w ws h a)
      ]

greater-false :
    (m : InFlight) (a b : WorkerEntry)
    → greater m a b ≡ false
    → effective_idle a m ≤ effective_idle b m
unfolding greater
greater-false m a b h = ground (arith, h)

greater-true :
    (m : InFlight) (a b : WorkerEntry)
    → greater m a b ≡ true
    → effective_idle b m ≤ effective_idle a m
unfolding greater
greater-true m a b h = ground (arith, h)

pub most_idle_ge_first :
    (m : InFlight) (best : WorkerEntry) (ws : List WorkerEntry)
    → effective_idle best m ≤ effective_idle (most_idle m best ws) m
unfolding most_idle
most_idle_ge_first m best [] = omega arith
most_idle_ge_first m best (w ∷ ws) = elim (Bool-cases (greater m best w)) [
  | inl y ↦ rw y (most_idle_ge_first m best ws)
  | inr n ↦
      let g = greater-false m best w n in let rest = most_idle_ge_first m w ws in rw n (omega arith)
]

-- No worker has more free slots than the most idle one.
pub most_idle_ge :
    (m : InFlight) (best : WorkerEntry) (ws : List WorkerEntry) (u : WorkerEntry)
    → Memᴰ u ws
    → effective_idle u m ≤ effective_idle (most_idle m best ws) m
unfolding most_idle
most_idle_ge m best [] u mem = absurd (Memᴰ.not-nil mem)
most_idle_ge m best (w ∷ ws) u (Memᴰ.head e) = elim (Bool-cases (greater m best w)) [
  | inl y ↦
      let g = greater-true m best w y in
      let rest = most_idle_ge_first m best ws in rw (y, e) (omega arith)
  | inr n ↦ rw (n, e) (most_idle_ge_first m w ws)
]
most_idle_ge m best (w ∷ ws) u (Memᴰ.tail mem) = elim (Bool-cases (greater m best w)) [
  | inl y ↦ rw y (most_idle_ge m best ws u mem)
  | inr n ↦ rw n (most_idle_ge m w ws u mem)
]
