-- ===== src/Tests/Submissions.antt =====
-- crates/agent/src/session_registry.rs: a submission that is forced, and a daemon that shuts down.
use mathlib.Core.List.{Memᴰ}
use sembazuru.Base.{List, ◌==◌, ◌≡◌, refl, true, false, [], ◌∷◌}
use sembazuru.Agent.Submission.{
  idle, setting_up, active, force_failed, SubmissionDeadline, new, transition, exchange,
  notify_waiters, try_begin_setup, publish_force_failed, attempts, call, as_u8, is_terminal,
  DaemonTaskScope, new_scope, spawn_drain,
}
use sembazuru.Agent.Submission.Settled.{
  Reached, fresh, swapped, woke, Settled, reached_ended, ended_final,
}
use sembazuru.Agent.Submission.Shutdown.{
  to_shut_down, Ask, answered, to_force_all, run, accepted_forced,
}

-- A setup that failed and could not be undone.
abbrev stuck : SubmissionDeadline
stuck = record { phase = force_failed; force = false; woken = 1 }

abbrev set_up : SubmissionDeadline
set_up = record { phase = setting_up; force = false; woken = 0 }

-- The setup has failed, and its thread is about to wake the waiters.
abbrev not_woken : SubmissionDeadline
not_woken = record { phase = force_failed; force = false; woken = 0 }

not_woken-Reached : Reached (record { deadline = not_woken; owed = 1 })
unfolding attempts exchange as_u8 is_terminal
not_woken-Reached =
    swapped {s = record { deadline = set_up; owed = 0 }}
      (swapped {s = record { deadline = new; owed = 0 }} fresh try_begin_setup idle setting_up
        (Memᴰ.head refl) refl)
      publish_force_failed setting_up force_failed (Memᴰ.head refl) refl

stuck-Reached : Reached (record { deadline = stuck; owed = 0 })
unfolding notify_waiters
stuck-Reached = woke {n = 0} not_woken-Reached refl refl

-- The same by the methods.
stuck_by_calls : (call publish_force_failed (call try_begin_setup new).0) ≡ (stuck, true)
unfolding call as_u8 is_terminal
stuck_by_calls = refl

reached_ended_example : Settled (record { deadline = stuck; owed = 0 })
reached_ended_example = reached_ended stuck-Reached

active_last : Memᴰ (active, force_failed) (attempts publish_force_failed)
unfolding attempts
active_last = Memᴰ.tail (Memᴰ.tail (Memᴰ.head refl))

ended_final_example : transition stuck active force_failed ≡ (stuck, false)
ended_final_example =
    ended_final stuck publish_force_failed active force_failed (unfold is_terminal in refl)
      active_last

abbrev one_task : DaemonTaskScope
one_task = record new_scope { drain_tasks = 1; submissions = 5 ∷ [] }

accepted : spawn_drain new_scope 5 ≡ (one_task, true)
unfolding spawn_drain
accepted = refl

-- The daemon has shut down and forced the submissions once when it forces them again.
abbrev between : List Ask
between = to_shut_down ∷ to_force_all (λ i. i == 5) ∷ []

accepted_forced_example :
    ((answered (run between (one_task, λ i. new)) (to_force_all (λ i. true))).1 5).force ≡ true
accepted_forced_example =
    accepted_forced new_scope one_task 5 between (λ i. true) (λ i. new) accepted (tt, (refl, tt))
      refl
