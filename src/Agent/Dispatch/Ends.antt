-- ===== src/Agent/Dispatch/Ends.antt =====
-- `dispatch` ends: it tries no worker twice, so it tries each that the tables know at most once.
use mathlib.Core.Logic.{inl, inr, ◌≢◌}
use mathlib.Core.List.{Memᴰ}
use sembazuru.Base.{
  All, ℕ, zero, suc, ◌+◌, ◌<◌, ◌≤◌, ◌≡◌, refl, true, false, List, [], ◌∷◌, Option, none, some,
  if◌then◌else◌, length, Bool-cases, arith,
}
use sembazuru.Base.Texts.{same, same_refl, eq_of_same}
use sembazuru.Blake3.{Blake3}
use sembazuru.Agent.Workers.{WorkerEntry, live_snapshot}
use sembazuru.Agent.Scheduler.{InFlight, contains}
use sembazuru.Agent.Scheduler.Placement.{pick_sound}
use sembazuru.Agent.Tracker.{TrackerState}
use sembazuru.Agent.Dispatch.{Outside, Progress}
use sembazuru.Agent.Dispatch.Loop.{
  Rest, tried_at, code_of, went, turn, dispatch_loop, started, dispatch, fresh,
}
use sembazuru.Agent.Dispatch.Shown.{pick}

-- No id twice.
abbrev pub Once : List (List ℕ) → Type 0
Once [] = Unit {0}
Once (k ∷ ks) = (contains ks k ≡ false) × Once ks

abbrev unless_code : Option ℕ → List (List ℕ) → List (List ℕ)
unless_code none rest = rest
unless_code (some code) rest = []

-- The workers that the turns of the loop go to, in their order: each turn's pick, until an attempt gives an exit code.
unfoldable pub visited :
    Blake3
    → Outside
    → List ℕ
    → List ℕ
    → Progress
    → Option (WorkerEntry × InFlight)
    → (Progress → List (List ℕ))
    → List (List ℕ)
unfolding tried_at code_of
visited b3 env action_id display p none rest = []
visited b3 env action_id display p (some (w, r)) rest =
    w.worker_id
    ∷ unless_code (code_of (env.attempt p.attempt_no w))
        (rest (tried_at b3 env action_id display p w r))

unfoldable pub visits : Blake3 → Outside → List ℕ → List ℕ → ℕ → ℕ → Progress → List (List ℕ)
unfolding visited
visits b3 env action_id display key zero p = []
visits b3 env action_id display key (suc fuel) p =
    visited b3 env action_id display p (pick env key p) (visits b3 env action_id display key fuel)

-- No id of the list was tried before.
abbrev Untried : List (List ℕ) → List (List ℕ) → Type 0
Untried tried ks = All (λ (k : List ℕ). contains tried k ≡ false) ks

-- The ids of `known` that were not tried.
unfoldable untried : List (List ℕ) → List (List ℕ) → ℕ
untried tried [] = 0
untried tried (k ∷ known) = (if contains tried k then 0 else 1) + untried tried known

untried-le_length : (tried known : List (List ℕ)) → untried tried known ≤ length known
unfolding untried
untried-le_length tried [] = omega arith
untried-le_length tried (k ∷ known) = ground (arith, untried-le_length tried known)

contains_more :
    (tried : List (List ℕ)) (j k : List ℕ) → contains tried k ≡ true → contains (j ∷ tried) k ≡ true
unfolding contains
contains_more tried j k h = elim (Bool-cases (same j k)) [ inl e ↦ rw e refl | inr e ↦ rw e h ]

contains_self : (tried : List (List ℕ)) (k : List ℕ) → contains (k ∷ tried) k ≡ true
unfolding contains
contains_self tried k = rw (same_refl k) refl

fewer_or_same :
    (tried known : List (List ℕ)) (j : List ℕ) → untried (j ∷ tried) known ≤ untried tried known
unfolding untried
fewer_or_same tried [] j = omega arith
fewer_or_same tried (k ∷ known) j = elim (Bool-cases (contains tried k)) [
  | inl e ↦ rw (e, contains_more tried j k e) (omega (arith, fewer_or_same tried known j))
  | inr e ↦ rw e (ground (arith, fewer_or_same tried known j))
]

not_in_nil : (j : List ℕ) → contains [] j ≡ true → ⊥
unfolding contains
not_in_nil j h = absurd cc

contains_tail :
    (known : List (List ℕ)) (k j : List ℕ)
    → same k j ≡ false
    → contains (k ∷ known) j ≡ true
    → contains known j ≡ true
unfolding contains
contains_tail known k j e h = rw e at h

fewer :
    (tried known : List (List ℕ)) (j : List ℕ)
    → contains tried j ≡ false
    → contains known j ≡ true
    → untried (j ∷ tried) known < untried tried known
unfolding untried
fewer tried [] j new h = absurd (not_in_nil j h)
fewer tried (k ∷ known) j new h = elim (Bool-cases (same k j)) [
  | inl e ↦
      rw (eq_of_same k j e, new, contains_self tried j) (omega (arith, fewer_or_same tried known j))
  | inr e ↦
      let rest : untried (j ∷ tried) known < untried tried known =
        fewer tried known j new (contains_tail known k j e h) in
      elim (Bool-cases (contains tried k)) [
        | inl g ↦ rw (g, contains_more tried j k g) (omega (arith, rest))
        | inr g ↦ rw g (ground (arith, rest))
      ]
]

-- Every worker that a table lists as live when an attempt begins is one of `known`.
abbrev pub Knows : List (List ℕ) → Outside → Type 0
Knows known env =
    (n : ℕ) (w : WorkerEntry)
    → Memᴰ w (live_snapshot (env.table n) (env.now n))
    → contains known w.worker_id ≡ true

module _ (b3 : Blake3) (env : Outside) (action_id display : List ℕ) (key : ℕ)
    (known : List (List ℕ)) (knows : Knows known env) where
  went_ends :
      (w : WorkerEntry) (q : Progress) (o : Option ℕ) (rest : Rest)
      → rest q ≢ none
      → went w q o rest ≢ none
  unfolding went
  went_ends w q none rest h = h
  went_ends w q (some code) rest h = λ e. absurd cc

  turn_ends :
      (p : Progress) (o : Option (WorkerEntry × InFlight)) (rest : Rest)
      → pick env key p ≡ o
      → ((q : Progress) → untried q.tried known < untried p.tried known → rest q ≢ none)
      → turn b3 env action_id display p o rest ≢ none
  unfolding turn tried_at
  turn_ends p none rest is more = λ e. absurd cc
  turn_ends p (some (w, r)) rest is more =
      let (mem, new, _, _) =
        pick_sound env.agent_version (env.table p.attempt_no) p.in_flight r key p.tried
          (env.now p.attempt_no) w is in
      let q : Progress = tried_at b3 env action_id display p w r in
      went_ends w q (code_of (env.attempt p.attempt_no w)) rest
        (more q (fewer p.tried known w.worker_id new (knows p.attempt_no w mem)))

  loop_ends :
      (fuel : ℕ) (p : Progress)
      → untried p.tried known < fuel
      → dispatch_loop b3 env action_id display key fuel p ≢ none
  unfolding dispatch_loop
  loop_ends zero p h = absurd (omega (arith, h))
  loop_ends (suc fuel) p h =
      turn_ends p (pick env key p) (dispatch_loop b3 env action_id display key fuel) refl
        (λ q less. loop_ends fuel q (omega (arith, h, less)))

  started_ends :
      (fuel : ℕ) (p : Progress) (o : Option (List ℕ))
      → untried p.tried known < fuel
      → started b3 env action_id display key fuel p o ≢ none
  unfolding started
  started_ends fuel p none h = loop_ends fuel p h
  started_ends fuel p (some why) h = λ e. absurd cc

-- A dispatch ends with an execution, on a worker or local, whatever the attempts come to and however the table changes
-- meanwhile: when the tables list no more than n workers, the loop has at most n + 1 turns.
pub dispatch_ends :
    (b3 : Blake3) (env : Outside) (action_id display : List ℕ) (key fuel : ℕ) (in_flight : InFlight)
    → (tracker : TrackerState) → (known : List (List ℕ)) → Knows known env
    → length known < fuel
    → dispatch b3 env action_id display key fuel in_flight tracker ≢ none
unfolding dispatch
dispatch_ends b3 env action_id display key fuel in_flight tracker known knows enough =
    started_ends b3 env action_id display key known knows fuel (fresh in_flight tracker)
      env.route_away_reason (omega (arith, enough, untried-le_length [] known))
