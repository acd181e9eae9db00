-- ===== src/Agent/Tracker/States.antt =====
-- The states of an attempt: they go forward, an end is for good, and only ended attempts leave the table.
use mathlib.Core.Logic.{inl, inr}
use sembazuru.Base.{
  ℕ, ◌≤◌, ◌≡◌, refl, ap, true, false, not, ◌&&◌, List, Option, none, some, ltb, Bool-cases,
  Option-cases, arith,
}
use sembazuru.Base.Assoc.{lookup, insert, lookup-insert}
use sembazuru.Agent.Tracker.{
  AttemptKey, same_key, eq_of_same_key, key_eq, ActivityState, AttemptRecord, TrackerState, running,
  is_terminal, same_state, state_rank, allocate_lane, rejected,
}
use sembazuru.Agent.Tracker.Attempts.{
  started_running, ended, advanced, moved, transition_record, transition_found, transition_locked,
}
use sembazuru.Agent.Tracker.Invariant.{over}

-- What a transition of one attempt may do to it: nothing, or a change forward of one that has not ended.
pub data Forward : AttemptRecord → AttemptRecord → Type 0 where
  stays : (r : AttemptRecord) → Forward r r
  goes :
      (r q : AttemptRecord)
      → is_terminal r.state ≡ false
      → state_rank r.state ≤ state_rank q.state
      → r.worker_id ≡ q.worker_id
      → r.started_at ≡ q.started_at
      → Forward r q

abbrev pub Forwards : Option AttemptRecord → Option AttemptRecord → Type 0
Forwards none o = o ≡ none
Forwards (some r) none = ⊥
Forwards (some r) (some q) = Forward r q

Forwards-refl : (o : Option AttemptRecord) → Forwards o o
Forwards-refl none = refl
Forwards-refl (some r) = stays r

inserted-Forwards :
    (m : List (AttemptKey × AttemptRecord)) (key j : AttemptKey) (r q : AttemptRecord)
    → lookup key m ≡ some r
    → Forward r q
    → Forwards (lookup j m) (lookup j (insert key q m))
inserted-Forwards m key j r q was f =
    rw (lookup-insert key j q m) (elim (Bool-cases (same_key key j)) [
      | inl e ↦ rw (e, ← eq_of_same_key key j e, was) f
      | inr e ↦ rw e (Forwards-refl (lookup j m))
    ])

rank_of_over : (s next : ActivityState) → is_terminal next ≡ true → state_rank s ≤ state_rank next
unfolding state_rank is_terminal
rank_of_over s next h = ground arith

rank_kept :
    (s next : ActivityState)
    → (not (is_terminal next) && ltb (state_rank next) (state_rank s)) ≡ false
    → state_rank s ≤ state_rank next
unfolding state_rank is_terminal
rank_kept s next h = ground arith

eq_of_running : (s : ActivityState) → same_state s running ≡ true → s ≡ running
unfolding same_state
eq_of_running s h = ground arith

moved-Forwards :
    (s : TrackerState) (key j : AttemptKey) (r : AttemptRecord) (next : ActivityState) (now : ℕ)
    → lookup key s.attempts ≡ some r
    → is_terminal r.state ≡ false
    → (not (is_terminal next) && ltb (state_rank next) (state_rank r.state)) ≡ false
    → Forwards (lookup j s.attempts) (lookup j (moved s key r next now).attempts)
unfolding moved started_running ended advanced
moved-Forwards s key j r next now was live forward =
    let rank : state_rank r.state ≤ state_rank next = rank_kept r.state next forward in
    elim (Bool-cases (same_state next running)) [
      | inl starts ↦
          let lane : ℕ = (allocate_lane s.worker_lanes r.worker_id).0 in
          let q : AttemptRecord = record r { state = running; lane_index = lane } in
          rw starts (
            inserted-Forwards s.attempts key j r q was (
              goes r q live (omega (arith, rank, ap state_rank (eq_of_running next starts))) refl
                refl))
      | inr still ↦ elim (Bool-cases (is_terminal next)) [
        | inl ends ↦
            let q : AttemptRecord = record r { state = next; finished_at = some now } in
            rw (still, ends)
              (inserted-Forwards s.attempts key j r q was (goes r q live rank refl refl))
        | inr on ↦
            let q : AttemptRecord = record r { state = next } in
            rw (still, on)
              (inserted-Forwards s.attempts key j r q was (goes r q live rank refl refl))
      ]
    ]

record-Forwards :
    (s : TrackerState) (key j : AttemptKey) (r : AttemptRecord) (next : ActivityState) (now : ℕ)
    → lookup key s.attempts ≡ some r
    → Forwards (lookup j s.attempts) (lookup j (transition_record s key r next now).attempts)
unfolding transition_record rejected
record-Forwards s key j r next now was = elim (Bool-cases (is_terminal r.state)) [
  | inl over ↦ rw over (elim (Bool-cases (same_state r.state next)) [
    | inl e ↦ rw e (Forwards-refl (lookup j s.attempts))
    | inr e ↦ rw e (Forwards-refl (lookup j s.attempts))
  ])
  | inr live ↦ elim (Bool-cases (same_state next r.state)) [
    | inl e ↦ rw (live, e) (Forwards-refl (lookup j s.attempts))
    | inr new ↦
        elim (Bool-cases (not (is_terminal next) && ltb (state_rank next) (state_rank r.state))) [
          | inl back ↦ rw (live, new, back) (Forwards-refl (lookup j s.attempts))
          | inr forward ↦
              rw (live, new, forward) (moved-Forwards s key j r next now was live forward)
        ]
  ]
]

-- A transition, whatever is asked, adds and removes no attempt, and each attempt stays as it is or, when it has not
-- ended, goes to a state of no lower rank on the same worker.
pub transition_locked-Forwards :
    (s : TrackerState) (key j : AttemptKey) (next : ActivityState) (now : ℕ)
    → Forwards (lookup j s.attempts) (lookup j (transition_locked s key next now).attempts)
unfolding transition_locked transition_found rejected
transition_locked-Forwards s key j next now = elim (Option-cases (lookup key s.attempts)) [
  | inl e ↦ rw e (Forwards-refl (lookup j s.attempts))
  | inr (r, e) ↦ rw e (record-Forwards s key j r next now e)
]
