-- ===== src/Agent/Dispatch/Shown.antt =====
-- What a property of the progress needs to hold at the end of `dispatch`: that an attempt and the local run keep it.
use sembazuru.Base.{ℕ, zero, suc, false, ◌≡◌, refl, subst, List, [], ◌∷◌, Option, none, some}
use sembazuru.Blake3.{Blake3}
use sembazuru.Agent.Workers.{WorkerEntry}
use sembazuru.Agent.Scheduler.{InFlight, pick_and_reserve}
use sembazuru.Agent.Tracker.{TrackerState, AttemptKey, ActivityState, ExecutionKind, local, remote}
use sembazuru.Agent.Tracker.Attempts.{begin_attempt, lease_finish}
use sembazuru.Agent.Tracker.Invariant.{TrackerSound}
use sembazuru.Agent.Tracker.Calls.{
  begin_attempt-Sound, transition_locked-Sound, finish-Sound, lease_drop-Sound,
}
use sembazuru.Agent.Dispatch.{
  ActionState, is_running, observed_of, terminal_of, by_code, exit_or, local_id, route_away,
  Outside, LocalFallbackReason, Progress, ObservedExecution, shown_as, shown, seen, observe, closed,
}
use sembazuru.Agent.Dispatch.Loop.{
  track, Rest, run_here, tried_at, code_of, went, turn, dispatch_loop, started, dispatch, fresh,
}

abbrev pub pick : Outside → ℕ → Progress → Option (WorkerEntry × InFlight)
pick env key p =
    pick_and_reserve env.agent_version (env.table p.attempt_no) p.in_flight key p.tried
      (env.now p.attempt_no)

module _ (b3 : Blake3) (env : Outside) (action_id display : List ℕ) (key : ℕ)
    (P : Progress → Type 0) where
  pub record Kept : Type 0 where
    pub attempted :
        (p : Progress) (w : WorkerEntry) (r : InFlight)
        → P p
        → pick env key p ≡ some (w, r)
        → P (tried_at b3 env action_id display p w r)
    pub here :
        (p : Progress) (kind : ExecutionKind) (reason : LocalFallbackReason)
        → P p
        → P (run_here b3 env action_id display kind reason p).after

  answered : (x y : ObservedExecution) → P x.after → some x ≡ some y → P y.after
  answered x y h e = let is : x ≡ y = cc in subst (λ (z : ObservedExecution). P z.after) is h

  went_keeps :
      (w : WorkerEntry) (q : Progress) (o : Option ℕ) (rest : Rest) (x : ObservedExecution)
      → P q
      → (rest q ≡ some x → P x.after)
      → went w q o rest ≡ some x
      → P x.after
  unfolding went
  went_keeps w q none rest x h more e = more e
  went_keeps w q (some code) rest x h more e = answered _ x h e

  turn_keeps :
      (p : Progress) (o : Option (WorkerEntry × InFlight)) (rest : Rest) (x : ObservedExecution)
      → Kept
      → P p
      → pick env key p ≡ o
      → ((q : Progress) → P q → rest q ≡ some x → P x.after)
      → turn b3 env action_id display p o rest ≡ some x
      → P x.after
  unfolding turn
  turn_keeps p none rest x k h is more e = answered _ x (k.here p _ p.reason h) e
  turn_keeps p (some (w, r)) rest x k h is more e =
      let q : Progress = tried_at b3 env action_id display p w r in
      let hq : P q = k.attempted p w r h is in
      went_keeps w q (code_of (env.attempt p.attempt_no w)) rest x hq (more q hq) e

  loop_keeps :
      (fuel : ℕ) (p : Progress) (x : ObservedExecution)
      → Kept
      → P p
      → dispatch_loop b3 env action_id display key fuel p ≡ some x
      → P x.after
  unfolding dispatch_loop
  loop_keeps zero p x k h e = absurd cc
  loop_keeps (suc fuel) p x k h e =
      turn_keeps p (pick env key p) (dispatch_loop b3 env action_id display key fuel) x k h refl
        (λ q hq g. loop_keeps fuel q x k hq g) e

  started_keeps :
      (fuel : ℕ) (p : Progress) (o : Option (List ℕ)) (x : ObservedExecution)
      → Kept
      → P p
      → started b3 env action_id display key fuel p o ≡ some x
      → P x.after
  unfolding started
  started_keeps fuel p none x k h e = loop_keeps fuel p x k h e
  started_keeps fuel p (some why) x k h e = answered _ x (k.here p local (route_away why) h) e

  pub dispatch_keeps :
      (fuel : ℕ) (in_flight : InFlight) (tracker : TrackerState) (x : ObservedExecution)
      → Kept
      → P (fresh in_flight tracker)
      → dispatch b3 env action_id display key fuel in_flight tracker ≡ some x
      → P x.after
  unfolding dispatch
  dispatch_keeps fuel in_flight tracker x k h e =
      started_keeps fuel (fresh in_flight tracker) env.route_away_reason x k h e

-- The tracker.

shown-Sound :
    (s : TrackerState) (key : Option AttemptKey) (next : ActivityState) (now : ℕ)
    → TrackerSound s
    → TrackerSound (shown s key next now)
unfolding shown
shown-Sound s none next now f = f
shown-Sound s (some key) next now f = transition_locked-Sound s key next now f

seen-Sound :
    (s : TrackerState) (key : Option AttemptKey) (next : Option ActivityState) (now : ℕ)
    → TrackerSound s
    → TrackerSound (seen s key next now)
unfolding seen
seen-Sound s key none now f = f
seen-Sound s key (some next) now f = shown-Sound s key next now f

observe-Sound :
    (s : TrackerState) (key : Option AttemptKey) (actions : List ActionState) (now : ℕ)
    → TrackerSound s
    → TrackerSound (observe s key actions now)
unfolding observe
observe-Sound s key [] now f = f
observe-Sound s key (a ∷ actions) now f =
    observe-Sound (seen s key (shown_as a) now) key actions now
      (seen-Sound s key (shown_as a) now f)

closed-Sound :
    (s : TrackerState) (key : Option AttemptKey) (terminal : ActivityState) (now : ℕ)
    → TrackerSound s
    → TrackerSound (closed s key terminal now)
unfolding closed lease_finish
closed-Sound s none terminal now f = f
closed-Sound s (some key) terminal now f =
    lease_drop-Sound (lease_finish s (record { key = key; finished = false }) terminal now).0
      (lease_finish s (record { key = key; finished = false }) terminal now).1 now
      (finish-Sound s key terminal now f)

pub track-Sound :
    (b3 : Blake3) (s : TrackerState) (action_id : List ℕ) (n : ℕ) (worker_id : List ℕ)
    (kind : ExecutionKind)
    → (display : List ℕ) → (actions : List ActionState) → (terminal : ActivityState)
    → (now ended_at : ℕ) → TrackerSound s
    → TrackerSound (track b3 s action_id n worker_id kind display actions terminal now ended_at)
unfolding track
track-Sound b3 s action_id n worker_id kind display actions terminal now ended_at f =
    let begun = begin_attempt b3 s action_id n worker_id kind display now in
    closed-Sound (observe begun.0 begun.1 actions now) begun.1 terminal ended_at (
      observe-Sound begun.0 begun.1 actions now
        (begin_attempt-Sound b3 s action_id n worker_id kind display now f))

-- A dispatch, whatever its workers do, keeps the tracker's table, order of endings and lanes consistent.
pub dispatch-TrackerSound :
    (b3 : Blake3) (env : Outside) (action_id display : List ℕ) (key fuel : ℕ) (in_flight : InFlight)
    → (tracker : TrackerState) → (x : ObservedExecution) → TrackerSound tracker
    → dispatch b3 env action_id display key fuel in_flight tracker ≡ some x
    → TrackerSound x.after.tracker
unfolding run_here tried_at
dispatch-TrackerSound b3 env action_id display key fuel in_flight tracker x f e =
    dispatch_keeps b3 env action_id display key (λ p. TrackerSound p.tracker) fuel in_flight tracker
      x
      (record {
        attempted = λ p w r h is.
            let n : ℕ = p.attempt_no in
            let actions : List ActionState = observed_of (env.attempt n w) (env.states n w) in
            track-Sound b3 p.tracker action_id n w.worker_id remote display actions
              (terminal_of (env.attempt n w) actions) (env.now n) (env.ended_at n) h;
        here = λ p kind reason h.
            let n : ℕ = p.attempt_no in
            track-Sound b3 p.tracker action_id n local_id kind display (is_running ∷ [])
              (by_code (exit_or env.run_local)) (env.now n) (env.ended_at n) h;
      })
      f e
