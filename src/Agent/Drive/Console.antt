-- ===== src/Agent/Drive/Console.antt =====
-- What the console buffers hold of what a worker wrote.
use sembazuru.Base.{
  ℕ, ◌≡◌, refl, sym, ap, ◌∙◌, Bool, true, false, List, [], ◌∷◌, ◌++◌, length, append-nil,
  append_assoc, subst, arith,
}
use sembazuru.Agent.Drive.{
  append_capped, append_console_capped, max_console_bytes, ExecuteEvent, state, exit, stdio, output,
  absent, ActionOutcome, default_outcome, on_event, drive_from, drive_execute,
}
use sembazuru.Agent.Drive.Chunks.{Capped, full_same, append_capped-Capped}

-- What a stream wrote to one of the two outputs.

abbrev pub written_by : Bool → ExecuteEvent → List ℕ
written_by true (stdio true chunk) = chunk
written_by false (stdio false chunk) = chunk
written_by _ _ = []

abbrev pub written : Bool → List ExecuteEvent → List ℕ
written to_stderr [] = []
written to_stderr (e ∷ es) = written_by to_stderr e ++ written to_stderr es

abbrev pub console : Bool → ActionOutcome → List ℕ
console true o = o.stderr
console false o = o.stdout

same-Capped : (bound : ℕ) (all buf : List ℕ) → Capped bound all buf → Capped bound (all ++ []) buf
same-Capped bound all buf c = subst (λ (r : List ℕ). Capped bound r buf) (sym (append-nil all)) c

on_event-Capped :
    (to_stderr : Bool) (e : ExecuteEvent) (o : ActionOutcome) (all : List ℕ)
    → Capped max_console_bytes all (console to_stderr o)
    → Capped max_console_bytes (all ++ written_by to_stderr e) (console to_stderr (on_event o e))
unfolding on_event append_console_capped
on_event-Capped true (stdio true chunk) o all c =
    append_capped-Capped max_console_bytes all o.stderr chunk c
on_event-Capped false (stdio false chunk) o all c =
    append_capped-Capped max_console_bytes all o.stdout chunk c
on_event-Capped true (stdio false chunk) o all c = same-Capped max_console_bytes all o.stderr c
on_event-Capped false (stdio true chunk) o all c = same-Capped max_console_bytes all o.stdout c
on_event-Capped true (state s) o all c = same-Capped max_console_bytes all o.stderr c
on_event-Capped false (state s) o all c = same-Capped max_console_bytes all o.stdout c
on_event-Capped true (exit code wall digest) o all c = same-Capped max_console_bytes all o.stderr c
on_event-Capped false (exit code wall digest) o all c = same-Capped max_console_bytes all o.stdout c
on_event-Capped true output o all c = same-Capped max_console_bytes all o.stderr c
on_event-Capped false output o all c = same-Capped max_console_bytes all o.stdout c
on_event-Capped true absent o all c = same-Capped max_console_bytes all o.stderr c
on_event-Capped false absent o all c = same-Capped max_console_bytes all o.stdout c

drive_from-Capped :
    (to_stderr : Bool) (es : List ExecuteEvent) (o : ActionOutcome) (all : List ℕ)
    → Capped max_console_bytes all (console to_stderr o)
    → Capped max_console_bytes (all ++ written to_stderr es) (console to_stderr (drive_from o es))
unfolding drive_from
drive_from-Capped to_stderr [] o all c = same-Capped max_console_bytes all (console to_stderr o) c
drive_from-Capped to_stderr (e ∷ es) o all c =
    subst
      (λ (r : List ℕ).
        Capped max_console_bytes r (console to_stderr (drive_from (on_event o e) es)))
      (append_assoc all (written_by to_stderr e) (written to_stderr es))
      (drive_from-Capped to_stderr es (on_event o e) (all ++ written_by to_stderr e)
        (on_event-Capped to_stderr e o all c))

nothing-Capped : (bound : ℕ) → Capped bound [] []
nothing-Capped bound = record {
  whole = λ h. refl;
  front = refl;
  small = omega arith;
  reached = λ h. h;
}

-- Whatever a worker streams, each console buffer holds all that was written to its output while that fits in 8 MiB, and
-- else begins with the first 8 MiB of it and is at most the notice longer.
pub drive_execute-Capped :
    (es : List ExecuteEvent)
    → Capped max_console_bytes (written false es) (drive_execute es).stdout
      × Capped max_console_bytes (written true es) (drive_execute es).stderr
unfolding drive_execute
drive_execute-Capped es = (
  drive_from-Capped false es default_outcome [] (nothing-Capped max_console_bytes),
  drive_from-Capped true es default_outcome [] (nothing-Capped max_console_bytes),
)

-- A chunk that ends exactly at the bound leaves no room, and what is written after it is dropped without the notice.
pub append_capped_silent :
    (bound : ℕ) (exact more : List ℕ)
    → length exact ≡ bound
    → append_capped bound (append_capped bound [] exact) more ≡ exact
append_capped_silent bound exact more h =
    let once : append_capped bound [] exact ≡ exact =
      (append_capped-Capped bound [] [] exact (nothing-Capped bound)).whole (omega (arith, h)) in
    ap (λ (b : List ℕ). append_capped bound b more) once
    ∙ full_same bound exact more (omega (arith, h))
