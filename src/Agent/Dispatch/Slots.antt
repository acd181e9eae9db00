-- ===== src/Agent/Dispatch/Slots.antt =====
-- The slots that `dispatch` holds are given back.
use mathlib.Core.Logic.{inl, inr}
use sembazuru.Base.{
  ℕ, ◌+◌, ◌-◌, ◌^◌, ◌<◌, ◌≡◌, refl, ◌∙◌, List, none, some, ◌==◌, if◌then◌else◌, Bool-cases, arith,
}
use sembazuru.Base.Assoc.{
  text_eq, lookup, insert, remove, Distinct, insert-Distinct, remove-Distinct,
}
use sembazuru.Blake3.{Blake3}
use sembazuru.Agent.Scheduler.{InFlight, count, reserve, release}
use sembazuru.Agent.Scheduler.Slots.{release-reserve, reserve-Distinct}
use sembazuru.Agent.Scheduler.Placement.{pick_sound}
use sembazuru.Agent.Tracker.{TrackerState}
use sembazuru.Agent.Dispatch.{Outside, ObservedExecution}
use sembazuru.Agent.Dispatch.Loop.{run_here, tried_at, dispatch}
use sembazuru.Agent.Dispatch.Shown.{dispatch_keeps}

-- The counts are those of `m`, which leave room for one more.
pub record Balanced (m : InFlight) (p : InFlight) : Type 0 where
  pub distinct : Distinct p
  pub counts : (j : List ℕ) → count p j ≡ count m j
  pub room : (j : List ℕ) → count m j + 1 < 2 ^ 32

release-Distinct : (m : InFlight) (k : List ℕ) → Distinct m → Distinct (release m k)
unfolding release
release-Distinct m k d =
    elim (lookup k m)
      as (λ o.
        Distinct
          (elim o [ none ↦ m | some c ↦ if c - 1 == 0 then remove k m else insert k (c - 1) m ])) [
            | none ↦ d
            | some c ↦ elim (Bool-cases (c - 1 == 0)) [
              | inl g ↦ rw g (remove-Distinct k m d)
              | inr g ↦ rw g (insert-Distinct k (c - 1) m d)
            ]
          ]

returned-Balanced :
    (m p : InFlight) (k : List ℕ) → Balanced m p → Balanced m (release (reserve p k) k)
returned-Balanced m p k b = record {
  distinct = release-Distinct (reserve p k) k (reserve-Distinct p k b.distinct);
  counts = λ j. release-reserve p k j b.distinct (omega (arith, b.counts k, b.room k)) ∙ b.counts j;
  room = b.room;
}

-- A dispatch that ends has given back every slot that it held, wherever it ended: each worker's count of actions is
-- what it was, when no count was at its bound.
pub dispatch-Balanced :
    (b3 : Blake3) (env : Outside) (action_id display : List ℕ) (key fuel : ℕ) (in_flight : InFlight)
    → (tracker : TrackerState) → (x : ObservedExecution) → Distinct in_flight
    → ((j : List ℕ) → count in_flight j + 1 < 2 ^ 32)
    → dispatch b3 env action_id display key fuel in_flight tracker ≡ some x
    → Balanced in_flight x.after.in_flight
unfolding run_here tried_at
dispatch-Balanced b3 env action_id display key fuel in_flight tracker x d room e =
    dispatch_keeps b3 env action_id display key (λ p. Balanced in_flight p.in_flight) fuel in_flight
      tracker x
      (record {
        attempted = λ p w r h is.
            let (_, _, _, reserved) =
              pick_sound env.agent_version (env.table p.attempt_no) p.in_flight r key p.tried
                (env.now p.attempt_no) w is in
            rw reserved (returned-Balanced in_flight p.in_flight w.worker_id h);
        here = λ p kind reason h. h;
      })
      (record { distinct = d; counts = λ j. refl; room = room }) e
