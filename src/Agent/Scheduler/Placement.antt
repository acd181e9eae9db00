-- ===== src/Agent/Scheduler/Placement.antt =====
-- crates/agent/src/scheduler.rs: the worker that gets an action.
use mathlib.Core.List.{Memᴰ}
use mathlib.Core.List.Memᴰ
use sembazuru.Base.{
  ℕ, ◌<◌, ◌≡◌, refl, sym, ap, subst, ◌∙◌, true, false, List, [], ◌∷◌, some, ltb, Bool-cases, inl,
  inr, All, All-map, get_or, arith,
}
use sembazuru.Agent.Workers.{WorkerTable, WorkerEntry, live_snapshot}
use sembazuru.Agent.Scheduler.{
  InFlight, admissible, effective_idle, eligible, exclusion_reason, contains, allowed, allowed_of,
  preferred_index, chosen, reserve, picked, pick_and_reserve,
}
use sembazuru.Agent.Scheduler.Preferred.{chosen_all, most_idle_ge_first, most_idle_ge}

self_mem : (ws : List WorkerEntry) → All (λ u. Memᴰ u ws) ws
self_mem [] = tt
self_mem (w ∷ ws) = (Memᴰ.head refl, All-map (λ u h. Memᴰ.tail h) ws (self_mem ws))

-- What the filter keeps.
allowed-All :
    (P : WorkerEntry → Type 0) (v : List ℕ) (tried : List (List ℕ)) (ws : List WorkerEntry)
    → All P ws
    → All (λ u. (allowed v tried u ≡ true) × P u) (allowed_of v tried ws)
unfolding allowed_of
allowed-All P v tried [] h = tt
allowed-All P v tried (w ∷ ws) h = elim (Bool-cases (allowed v tried w)) [
  | inl y ↦ rw y ((y, h.0), allowed-All P v tried ws h.1)
  | inr n ↦ rw n (allowed-All P v tried ws h.1)
]

some_of : (a b : WorkerEntry × InFlight) → some a ≡ some b → a ≡ b
some_of a b e = cc

picked-All :
    (P : WorkerEntry → Type 0) (m m2 : InFlight) (key : ℕ) (c : WorkerEntry) (ws : List WorkerEntry)
    → All P ws
    → picked m key ws ≡ some (c, m2)
    → P c × (m2 ≡ reserve m c.worker_id)
unfolding picked
picked-All P m m2 key c [] h e = absurd cc
picked-All P m m2 key c (w ∷ ws) h e =
    let same_pair =
      some_of (chosen m key w ws, reserve m (chosen m key w ws).worker_id) (c, m2) e in
    let same_one : chosen m key w ws ≡ c = ap (λ x. x.0) same_pair in
    (
      subst P same_one (chosen_all P m key w ws h.0 h.1),
      sym (ap (λ x. x.1) same_pair) ∙ ap (λ x. reserve m x.worker_id) same_one,
    )

allowed_split :
    (v : List ℕ) (tried : List (List ℕ)) (w : WorkerEntry)
    → allowed v tried w ≡ true
    → (contains tried w.worker_id ≡ false) × (exclusion_reason v w ≡ eligible)
unfolding allowed admissible exclusion_reason
allowed_split v tried w h = (ground (arith, h), ground (arith, h))

-- The worker that is picked is live, of the same version, taking part, not busy and not tried, and one slot
-- of it is counted.
pub pick_sound :
    (v : List ℕ) (t : WorkerTable) (m m2 : InFlight) (key : ℕ) (tried : List (List ℕ)) (now : ℕ)
    (c : WorkerEntry)
    → pick_and_reserve v t m key tried now ≡ some (c, m2)
    → Memᴰ c (live_snapshot t now)
      × (contains tried c.worker_id ≡ false)
      × (exclusion_reason v c ≡ eligible)
      × (m2 ≡ reserve m c.worker_id)
unfolding pick_and_reserve
pick_sound v t m m2 key tried now c e =
    let live = live_snapshot t now in
    let ((a, mem), r) =
      picked-All (λ u. (allowed v tried u ≡ true) × Memᴰ u live) m m2 key c
        (allowed_of v tried live) (allowed-All (λ u. Memᴰ u live) v tried live (self_mem live)) e in
    let (fresh, free) = allowed_split v tried c a in (mem, fresh, free, r)

chosen_free :
    (m : InFlight) (key : ℕ) (w u : WorkerEntry) (ws : List WorkerEntry)
    → Memᴰ u (w ∷ ws)
    → 0 < effective_idle u m
    → 0 < effective_idle (chosen m key w ws) m
unfolding chosen
chosen_free m key w u ws mem free =
    let preferred = get_or (w ∷ ws) (preferred_index (w ∷ ws) key) w in
    elim (Bool-cases (ltb 0 (effective_idle preferred m))) [
      | inl y ↦ rw y (ground (arith, y))
      | inr n ↦ rw n (elim mem [
        | Memᴰ.head e ↦ let g = most_idle_ge_first m w ws in ground (arith, free, g, e)
        | Memᴰ.tail rest ↦ let g = most_idle_ge m w ws u rest in omega arith
      ])
    ]

mem_allowed :
    (v : List ℕ) (tried : List (List ℕ)) (ws : List WorkerEntry) (u : WorkerEntry)
    → Memᴰ u ws
    → allowed v tried u ≡ true
    → Memᴰ u (allowed_of v tried ws)
unfolding allowed_of
mem_allowed v tried [] u mem h = absurd (Memᴰ.not-nil mem)
mem_allowed v tried (w ∷ ws) u (Memᴰ.head e) h = rw (ap (allowed v tried) (sym e), h) (Memᴰ.head e)
mem_allowed v tried (w ∷ ws) u (Memᴰ.tail mem) h = elim (Bool-cases (allowed v tried w)) [
  | inl y ↦ rw y (Memᴰ.tail (mem_allowed v tried ws u mem h))
  | inr n ↦ rw n (mem_allowed v tried ws u mem h)
]

picked_free :
    (m m2 : InFlight) (key : ℕ) (c u : WorkerEntry) (ws : List WorkerEntry)
    → Memᴰ u ws
    → picked m key ws ≡ some (c, m2)
    → 0 < effective_idle u m
    → 0 < effective_idle c m
unfolding picked
picked_free m m2 key c u [] mem e free = absurd (Memᴰ.not-nil mem)
picked_free m m2 key c u (w ∷ ws) mem e free =
    let same_pair =
      some_of (chosen m key w ws, reserve m (chosen m key w ws).worker_id) (c, m2) e in
    subst (λ x. 0 < effective_idle x m) (ap (λ x. x.0) same_pair)
      (chosen_free m key w u ws mem free)

picked_total :
    (m : InFlight) (key : ℕ) (ws : List WorkerEntry) (u : WorkerEntry)
    → Memᴰ u ws
    → (r : WorkerEntry × InFlight) × (picked m key ws ≡ some r)
unfolding picked
picked_total m key [] u mem = absurd (Memᴰ.not-nil mem)
picked_total m key (w ∷ ws) u mem =
    ((chosen m key w ws, reserve m (chosen m key w ws).worker_id), refl)

-- While some live worker that may get the action has a free slot, the worker that is picked has one.
pub pick_free :
    (v : List ℕ) (t : WorkerTable) (m m2 : InFlight) (key : ℕ) (tried : List (List ℕ)) (now : ℕ)
    (c u : WorkerEntry)
    → pick_and_reserve v t m key tried now ≡ some (c, m2)
    → Memᴰ u (live_snapshot t now)
    → allowed v tried u ≡ true
    → 0 < effective_idle u m
    → 0 < effective_idle c m
unfolding pick_and_reserve
pick_free v t m m2 key tried now c u e mem ok_u free =
    picked_free m m2 key c u (allowed_of v tried (live_snapshot t now))
      (mem_allowed v tried (live_snapshot t now) u mem ok_u) e free

-- Where a live worker may get the action, some worker is picked.
pub pick_total :
    (v : List ℕ) (t : WorkerTable) (m : InFlight) (key : ℕ) (tried : List (List ℕ)) (now : ℕ)
    (u : WorkerEntry)
    → Memᴰ u (live_snapshot t now)
    → allowed v tried u ≡ true
    → (r : WorkerEntry × InFlight) × (pick_and_reserve v t m key tried now ≡ some r)
unfolding pick_and_reserve
pick_total v t m key tried now u mem ok_u =
    picked_total m key (allowed_of v tried (live_snapshot t now)) u
      (mem_allowed v tried (live_snapshot t now) u mem ok_u)
