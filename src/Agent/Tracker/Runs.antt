-- ===== src/Agent/Tracker/Runs.antt =====
-- The tracker over any sequence of calls: lanes, states and the attempts that are still alive.
use mathlib.Core.Logic.{◌≢◌}
use sembazuru.Base.{
  ℕ, ◌≤◌, ◌≡◌, refl, ap, Bool, true, false, ◌&&◌, List, [], ◌∷◌, some, ltb, leb, ◌==◌, ==_iff,
  arith,
}
use sembazuru.Base.Texts.{same, same_refl}
use sembazuru.Base.Assoc.{text_eq, lookup}
use sembazuru.Base.Totals.{total, part, parts-le-total}
use sembazuru.Blake3.{Blake3}
use sembazuru.Agent.Tracker.{
  AttemptKey, key_eq, ActivityState, ExecutionKind, AttemptRecord, TrackerState, default_state,
  running, same_state, or_default,
}
use sembazuru.Agent.Tracker.Attempts.{
  transition_locked, finish, AttemptLease, lease_drop, prune_locked, begin_attempt,
}
use sembazuru.Agent.Tracker.Lanes.{bit, Fits}
use sembazuru.Agent.Tracker.Invariant.{TrackerSound, holds_lane, runs_on}
use sembazuru.Agent.Tracker.Steps.{default-Sound}
use sembazuru.Agent.Tracker.Calls.{
  begin_attempt-Sound, transition_locked-Sound, finish-Sound, lease_drop-Sound, prune_locked-Sound,
}

-- A call, with the time at which it is made.
pub data Call : Type 0 where
  begun : List ℕ → ℕ → List ℕ → ExecutionKind → List ℕ → ℕ → Call
  changed : AttemptKey → ActivityState → ℕ → Call
  finished : AttemptKey → ActivityState → ℕ → Call
  dropped : AttemptLease → ℕ → Call
  observed : ℕ → Call

abbrev pub call : Blake3 → TrackerState → Call → TrackerState
call b3 s (begun action attempt worker kind display now) =
    (begin_attempt b3 s action attempt worker kind display now).0
call b3 s (changed key next now) = transition_locked s key next now
call b3 s (finished key terminal now) = finish s key terminal now
call b3 s (dropped lease now) = lease_drop s lease now
call b3 s (observed now) = prune_locked s now

abbrev pub calls : Blake3 → TrackerState → List Call → TrackerState
calls b3 s [] = s
calls b3 s (c ∷ cs) = calls b3 (call b3 s c) cs

call-Sound :
    (b3 : Blake3) (s : TrackerState) (c : Call) → TrackerSound s → TrackerSound (call b3 s c)
call-Sound b3 s (begun a n w kind d now) f = begin_attempt-Sound b3 s a n w kind d now f
call-Sound b3 s (changed key next now) f = transition_locked-Sound s key next now f
call-Sound b3 s (finished key terminal now) f = finish-Sound s key terminal now f
call-Sound b3 s (dropped lease now) f = lease_drop-Sound s lease now f
call-Sound b3 s (observed now) f = prune_locked-Sound s now f

pub calls-Sound :
    (b3 : Blake3) (s : TrackerState) (cs : List Call)
    → TrackerSound s
    → TrackerSound (calls b3 s cs)
calls-Sound b3 s [] f = f
calls-Sound b3 s (c ∷ cs) f = calls-Sound b3 (call b3 s c) cs (call-Sound b3 s c f)

-- Whatever calls are made of a new tracker, at whatever times, its table, its order of endings and
-- its lanes are consistent: at most 4096 attempts, each ended attempt put down once and no other, and for each
-- worker a number of active lanes that is the number of its running attempts, each lane below the next held by
-- one of these or free.
pub tracker_sound : (b3 : Blake3) (cs : List Call) → TrackerSound (calls b3 default_state cs)
tracker_sound b3 cs = calls-Sound b3 default_state cs default-Sound

bit_of_true : (b : Bool) → b ≡ true → bit b ≡ 1
bit_of_true b h = ap bit h

bit_small : (b : Bool) → bit b ≤ 1
bit_small true = omega arith
bit_small false = omega arith

holds_own :
    (r : AttemptRecord) (w : List ℕ) (l : ℕ)
    → same_state r.state running ≡ true
    → r.worker_id ≡ w
    → r.lane_index ≡ l
    → holds_lane w l r ≡ 1
holds_own r w l h e g =
    bit_of_true ((same_state r.state running && same r.worker_id w) && r.lane_index == l)
      (rw (h, e, g, same_refl w) ((==_iff l l).1 refl))

-- Two attempts that run on one worker hold different lanes, after any calls.
pub lanes_apart :
    (b3 : Blake3) (cs : List Call) (j k : AttemptKey) (p q : AttemptRecord)
    → j ≢ k
    → lookup j (calls b3 default_state cs).attempts ≡ some p
    → lookup k (calls b3 default_state cs).attempts ≡ some q
    → same_state p.state running ≡ true
    → same_state q.state running ≡ true
    → p.worker_id ≡ q.worker_id
    → p.lane_index ≢ q.lane_index
lanes_apart b3 cs j k p q ne hp hq rp rq workers lanes =
    let s : TrackerState = calls b3 default_state cs in
    let f : Fits (total (runs_on q.worker_id) s.attempts)
        (λ l. total (holds_lane q.worker_id l) s.attempts)
        (or_default (lookup q.worker_id s.worker_lanes)) =
      (tracker_sound b3 cs).lanes_fit q.worker_id in
    absurd (
      omega (
        arith,
        parts-le-total (holds_lane q.worker_id q.lane_index) j k s.attempts ne,
        ap (part (holds_lane q.worker_id q.lane_index)) hp,
        ap (part (holds_lane q.worker_id q.lane_index)) hq,
        holds_own p q.worker_id q.lane_index rp workers lanes,
        holds_own q q.worker_id q.lane_index rq refl refl,
        f.cover q.lane_index,
        bit_small (
            leb 1 q.lane_index
            && ltb q.lane_index (or_default (lookup q.worker_id s.worker_lanes)).next_lane),
      ))
