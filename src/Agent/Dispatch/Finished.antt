-- ===== src/Agent/Dispatch/Finished.antt =====
-- crates/agent/src/scheduler.rs: the attempts that a dispatch begins have ended when it ends.
use sembazuru.Base.{
  Bool, subst, sym, ℕ, ◌+◌, ◌≡◌, refl, ap, ◌∙◌, inl, inr, true, false, not, ◌&&◌, List, [], ◌∷◌,
  Option, none, some, ltb, Bool-cases, arith,
}
use sembazuru.Base.Assoc.{lookup, insert, lookup-insert_self}
use sembazuru.Base.Totals.{total, total_replaced}
use sembazuru.Blake3.{Blake3}
use sembazuru.Agent.Tracker.{
  AttemptKey, key_eq, ActivityState, AttemptRecord, ExecutionKind, TrackerState, queued, preparing,
  running, is_terminal, same_state, state_rank, allocate_lane, rejected, bounded_id, remote,
}
use sembazuru.Agent.Tracker.Attempts.{
  started_running, ended, advanced, moved, transition_record, transition_found, transition_locked,
  finish, lease_finish, lease_drop, begin_attempt,
}
use sembazuru.Agent.Tracker.Lanes.{bit}
use sembazuru.Agent.Tracker.Invariant.{TrackerSound}
use sembazuru.Agent.Tracker.Admitted.{lives, begin_attempt_cases}
use sembazuru.Agent.Scheduler.{InFlight}
use sembazuru.Agent.Dispatch.{
  ActionState, is_unspecified, is_queued, is_preparing, is_running, is_completed, is_failed,
  is_aborted, unknown, shown_as, Attempt, no_channel, exited, incomplete, errored, timed_out,
  observed_of, terminal_of, by_code, exit_or, local_id, Outside, ObservedExecution, shown, seen,
  observe, closed,
}
use sembazuru.Agent.Dispatch.Loop.{track, run_here, tried_at, dispatch}
use sembazuru.Agent.Dispatch.Shown.{dispatch_keeps, track-Sound}

-- The attempts that have not ended.
abbrev pub living : TrackerState → ℕ
living s = total lives s.attempts

-- The attempt of the key has not ended, and it is one of `n`.
record Live (key : AttemptKey) (n : ℕ) (s : TrackerState) : Type 0 where
  attempt : AttemptRecord
  found : lookup key s.attempts ≡ some attempt
  goes : is_terminal attempt.state ≡ false
  count : living s ≡ n

bit-not : (b : Bool) → b ≡ false → bit (not b) ≡ 1
bit-not true h = absurd cc
bit-not false h = refl

stops : (next : ActivityState) → is_terminal next ≡ true → same_state next running ≡ false
unfolding same_state is_terminal
stops next over = ground (arith, over)

differ :
    (next state : ActivityState)
    → is_terminal next ≡ true
    → is_terminal state ≡ false
    → same_state next state ≡ false
unfolding same_state is_terminal
differ next state over live = ground (arith, over, live)

module _ (s : TrackerState) (key : AttemptKey) (r : AttemptRecord)
    (was : lookup key s.attempts ≡ some r) (live : is_terminal r.state ≡ false) where
  replaced_living :
      (q : AttemptRecord)
      → is_terminal q.state ≡ false
      → total lives (insert key q s.attempts) ≡ living s
  replaced_living q on =
      omega (arith, total_replaced lives key q r s.attempts was, bit-not _ live, bit-not _ on)

  replaced_ended :
      (q : AttemptRecord)
      → is_terminal q.state ≡ true
      → total lives (insert key q s.attempts) + 1 ≡ living s
  replaced_ended q over = omega (
    arith,
    total_replaced lives key q r s.attempts was,
    bit-not _ live,
    ap (λ (b : Bool). bit (not b)) over,
  )

  moved-Live :
      (next : ActivityState) (now n : ℕ)
      → is_terminal next ≡ false
      → living s ≡ n
      → Live key n (moved s key r next now)
  unfolding moved started_running advanced is_terminal
  moved-Live next now n on c = elim (Bool-cases (same_state next running)) [
    | inl y ↦
        let q : AttemptRecord = record r {
          state = running;
          lane_index = (allocate_lane s.worker_lanes r.worker_id).0;
        } in
        rw y (record {
          attempt = q;
          found = lookup-insert_self key q s.attempts;
          goes = refl;
          count = replaced_living q refl ∙ c;
        })
    | inr z ↦
        let q : AttemptRecord = record r { state = next } in
        rw (z, on)
          (record {
            attempt = q;
            found = lookup-insert_self key q s.attempts;
            goes = on;
            count = replaced_living q on ∙ c;
          })
  ]

  record-Live :
      (next : ActivityState) (now n : ℕ)
      → is_terminal next ≡ false
      → living s ≡ n
      → Live key n (transition_record s key r next now)
  unfolding transition_record rejected
  record-Live next now n on c =
      let same : Live key n s = record { attempt = r; found = was; goes = live; count = c } in
      elim (Bool-cases (same_state next r.state)) [
        | inl e ↦ rw (live, e) same
        | inr new ↦
            elim (Bool-cases
              (not (is_terminal next) && ltb (state_rank next) (state_rank r.state))) [
                | inl back ↦
                    rw (live, new, back)
                      (record { attempt = r; found = was; goes = live; count = c })
                | inr forward ↦ rw (live, new, forward) (moved-Live next now n on c)
              ]
      ]

  record_ended :
      (next : ActivityState) (now : ℕ)
      → is_terminal next ≡ true
      → living (transition_record s key r next now) + 1 ≡ living s
  unfolding transition_record moved ended
  record_ended next now over =
      let starts : same_state next running ≡ false = stops next over in
      rw (live, differ next r.state over live, over, starts)
        (replaced_ended (record r { state = next; finished_at = some now }) over)

found_record :
    (s : TrackerState) (key : AttemptKey) (r : AttemptRecord) (next : ActivityState) (now : ℕ)
    → lookup key s.attempts ≡ some r
    → transition_locked s key next now ≡ transition_record s key r next now
unfolding transition_locked transition_found
found_record s key r next now h = rw h refl

shown-Live :
    (s : TrackerState) (key : AttemptKey) (next : ActivityState) (now n : ℕ)
    → is_terminal next ≡ false
    → Live key n s
    → Live key n (shown s (some key) next now)
unfolding shown
shown-Live s key next now n on l =
    subst (Live key n) (sym (found_record s key l.attempt next now l.found))
      (record-Live s key l.attempt l.found l.goes next now n on l.count)

seen-Live :
    (s : TrackerState) (key : AttemptKey) (a : ActionState) (now n : ℕ)
    → Live key n s
    → Live key n (seen s (some key) (shown_as a) now)
unfolding seen shown_as is_terminal
seen-Live s key is_unspecified now n l = l
seen-Live s key is_queued now n l = shown-Live s key queued now n refl l
seen-Live s key is_preparing now n l = shown-Live s key preparing now n refl l
seen-Live s key is_running now n l = shown-Live s key running now n refl l
seen-Live s key is_completed now n l = l
seen-Live s key is_failed now n l = l
seen-Live s key is_aborted now n l = l
seen-Live s key unknown now n l = l

observe-Live :
    (s : TrackerState) (key : AttemptKey) (actions : List ActionState) (now n : ℕ)
    → Live key n s
    → Live key n (observe s (some key) actions now)
unfolding observe
observe-Live s key [] now n l = l
observe-Live s key (a ∷ actions) now n l =
    observe-Live (seen s (some key) (shown_as a) now) key actions now n (seen-Live s key a now n l)

seen-none : (s : TrackerState) (next : Option ActivityState) (now : ℕ) → seen s none next now ≡ s
unfolding seen shown
seen-none s none now = refl
seen-none s (some next) now = refl

observe-none :
    (s : TrackerState) (actions : List ActionState) (now : ℕ) → observe s none actions now ≡ s
unfolding observe
observe-none s [] now = refl
observe-none s (a ∷ actions) now =
    ap (λ (t : TrackerState). observe t none actions now) (seen-none s (shown_as a) now)
    ∙ observe-none s actions now

closed_ended :
    (s : TrackerState) (key : AttemptKey) (terminal : ActivityState) (now n : ℕ)
    → is_terminal terminal ≡ true
    → Live key (n + 1) s
    → living (closed s (some key) terminal now) ≡ n
unfolding closed lease_finish lease_drop finish
closed_ended s key terminal now n over l =
    rw (over, found_record s key l.attempt terminal now l.found)
      (omega (arith, record_ended s key l.attempt l.found l.goes terminal now over, l.count))

by_code-over : (code : ℕ) → is_terminal (by_code code) ≡ true
unfolding is_terminal
by_code-over code = ground arith

terminal_of-over :
    (came : Attempt) (actions : List ActionState) → is_terminal (terminal_of came actions) ≡ true
unfolding terminal_of is_terminal
terminal_of-over (exited code) actions = by_code-over code
terminal_of-over incomplete actions = ground arith
terminal_of-over (no_channel e) actions = refl
terminal_of-over (errored e) actions = refl
terminal_of-over timed_out actions = refl

module _ (b3 : Blake3) (s : TrackerState) (action_id : List ℕ) (n : ℕ) (worker_id : List ℕ)
    (kind : ExecutionKind) (display : List ℕ) (actions : List ActionState)
    (terminal : ActivityState) (now ended_at : ℕ) (over : is_terminal terminal ≡ true) where
  track_refused :
      (begun : TrackerState) (answer : Option AttemptKey)
      → answer ≡ none
      → living begun ≡ living s
      → living (closed (observe begun answer actions now) answer terminal ended_at) ≡ living s
  unfolding closed
  track_refused begun (some k) e c = absurd cc
  track_refused begun none e c = ap living (observe-none begun actions now) ∙ c

  track_entered :
      (begun : TrackerState) (answer : Option AttemptKey) (key : AttemptKey)
      → answer ≡ some key
      → Live key (living s + 1) begun
      → living (closed (observe begun answer actions now) answer terminal ended_at) ≡ living s
  track_entered begun answer key e l = rw e (
      closed_ended (observe begun (some key) actions now) key terminal ended_at (living s) over
        (observe-Live begun key actions now (living s + 1) l))

  track_living :
      TrackerSound s
      → living (track b3 s action_id n worker_id kind display actions terminal now ended_at)
        ≡ living s
  unfolding track is_terminal
  track_living f =
      let begun = begin_attempt b3 s action_id n worker_id kind display now in
      elim (begin_attempt_cases b3 s action_id n worker_id kind display now f) [
        | inl (refused, c) ↦ track_refused begun.0 begun.1 refused c
        | inr e ↦
            track_entered begun.0 begun.1
              (record { action_id = bounded_id b3 action_id; attempt_no = n }) e.answered
              (record {
                attempt = e.attempt;
                found = e.found;
                goes = ap is_terminal e.is_new;
                count = e.living;
              })
      ]

-- A dispatch that ends leaves the tracker sound, and as many attempts that have not ended as it found: every attempt that
-- it began, on a worker or local, it has also ended, whatever came of it and whatever states were shown of it.
pub dispatch_finishes :
    (b3 : Blake3) (env : Outside) (action_id display : List ℕ) (key fuel : ℕ) (in_flight : InFlight)
    → (tracker : TrackerState) → (x : ObservedExecution) → TrackerSound tracker
    → dispatch b3 env action_id display key fuel in_flight tracker ≡ some x
    → TrackerSound x.after.tracker × (living x.after.tracker ≡ living tracker)
unfolding run_here tried_at
dispatch_finishes b3 env action_id display key fuel in_flight tracker x f e =
    dispatch_keeps b3 env action_id display key
      (λ p. TrackerSound p.tracker × (living p.tracker ≡ living tracker)) fuel in_flight tracker x
      (record {
        attempted = λ p w r h is.
            let n : ℕ = p.attempt_no in
            let came : Attempt = env.attempt n w in
            let actions : List ActionState = observed_of came (env.states n w) in
            let terminal : ActivityState = terminal_of came actions in
            (
              track-Sound b3 p.tracker action_id n w.worker_id remote display actions terminal
                  (env.now n) (env.ended_at n) h.0,
              track_living b3 p.tracker action_id n w.worker_id remote display actions terminal
                    (env.now n) (env.ended_at n) (terminal_of-over came actions) h.0
                  ∙ h.1,
            );
        here = λ p kind reason h.
            let n : ℕ = p.attempt_no in
            let code : ℕ = exit_or env.run_local in
            (
              track-Sound b3 p.tracker action_id n local_id kind display (is_running ∷ [])
                  (by_code code) (env.now n) (env.ended_at n) h.0,
              track_living b3 p.tracker action_id n local_id kind display (is_running ∷ [])
                    (by_code code) (env.now n) (env.ended_at n) (by_code-over code) h.0
                  ∙ h.1,
            );
      })
      (f, refl) e
