-- ===== src/Agent/Submission/Settled.antt =====
-- crates/agent/src/session_registry.rs: a submission ends once, however the threads interleave.
use mathlib.Core.List.{Memᴰ}
use mathlib.Core.List.Memᴰ
use sembazuru.Base.{
  ℕ, ◌≡◌, refl, sym, ap, subst, ◌∙◌, Bool, true, false, List, [], ◌∷◌, ◌==◌, ◌+◌, suc, ◌&&◌,
  if◌then◌else◌, All, Bool-cases, inl, inr, ==_iff, arith,
}
use sembazuru.Agent.Submission.{
  SubmissionPhase, idle, setting_up, active, terminating, natural_reaped, retry_safe_reaped,
  forced_reaped, force_failed, aborted_no_child, as_u8, is_terminal, SubmissionDeadline, new,
  exchange, notify_waiters, transition, Call, try_begin_setup, publish_active,
  try_begin_terminating, publish_natural_reaped, publish_retry_safe_reaped, publish_forced_reaped,
  publish_force_failed, try_abort_no_child, attempts, request_force,
}

-- A deadline and the threads that share it: `owed` of them have exchanged a phase for an end and not yet woken the
-- waiters.
pub record Shared : Type 0 where
  pub deadline : SubmissionDeadline
  pub owed : ℕ

abbrev pub owing : Bool → SubmissionPhase → ℕ
owing changed to = if changed && is_terminal to then 1 else 0

-- The states that threads reach which call the methods. A thread may be interrupted between any two compares and
-- exchanges, and between one and the waking of the waiters.
pub data Reached : Shared → Type 0 where
  fresh : Reached (record { deadline = new; owed = 0 })
  swapped :
      {s t : Shared}
      → Reached s
      → (c : Call) (from to : SubmissionPhase) → Memᴰ (from, to) (attempts c)
      → t ≡ record {
        deadline = (exchange s.deadline from to).0;
        owed = owing (exchange s.deadline from to).1 to + s.owed;
      }
      → Reached t
  woke :
      {s t : Shared} {n : ℕ}
      → Reached s
      → s.owed ≡ suc n
      → t ≡ record { deadline = notify_waiters s.deadline; owed = n }
      → Reached t
  forced :
      {s t : Shared} → Reached s → t ≡ record s { deadline = request_force s.deadline } → Reached t

-- No method starts from a terminal phase.
abbrev Living : SubmissionPhase × SubmissionPhase → Type 0
Living e = is_terminal e.0 ≡ false

attempts-Living : (c : Call) → All Living (attempts c)
unfolding attempts is_terminal
attempts-Living try_begin_setup = (refl, tt)
attempts-Living publish_active = (refl, tt)
attempts-Living try_begin_terminating = (refl, (refl, tt))
attempts-Living publish_natural_reaped = (refl, tt)
attempts-Living publish_retry_safe_reaped = (refl, (refl, tt))
attempts-Living publish_forced_reaped = (refl, tt)
attempts-Living publish_force_failed = (refl, (refl, (refl, tt)))
attempts-Living try_abort_no_child = (refl, tt)

All-Memᴰ :
    (e : SubmissionPhase × SubmissionPhase) (es : List (SubmissionPhase × SubmissionPhase))
    → All Living es
    → Memᴰ e es
    → Living e
All-Memᴰ e [] h m = absurd (Memᴰ.not-nil m)
All-Memᴰ e (f ∷ fs) h (Memᴰ.head q) = subst Living (sym q) h.0
All-Memᴰ e (f ∷ fs) h (Memᴰ.tail m) = All-Memᴰ e fs h.1 m

-- Different phases have different numbers.
phase_of : ℕ → SubmissionPhase
phase_of n =
    if n == 0
    then idle
    else if n == 1
    then setting_up
    else if n == 2
    then active
    else if n == 3
    then terminating
    else if n == 4
    then natural_reaped
    else if n == 5
    then retry_safe_reaped
    else if n == 6
    then forced_reaped
    else if n == 7
    then force_failed
    else aborted_no_child

phase_of-as_u8 : (p : SubmissionPhase) → phase_of (as_u8 p) ≡ p
unfolding phase_of as_u8
phase_of-as_u8 idle = refl
phase_of-as_u8 setting_up = refl
phase_of-as_u8 active = refl
phase_of-as_u8 terminating = refl
phase_of-as_u8 natural_reaped = refl
phase_of-as_u8 retry_safe_reaped = refl
phase_of-as_u8 forced_reaped = refl
phase_of-as_u8 force_failed = refl
phase_of-as_u8 aborted_no_child = refl

eq_of_as_u8 : (p q : SubmissionPhase) → as_u8 p ≡ as_u8 q → p ≡ q
eq_of_as_u8 p q e = sym (phase_of-as_u8 p) ∙ ap phase_of e ∙ phase_of-as_u8 q

abbrev pub ended : SubmissionPhase → ℕ
ended p = if is_terminal p then 1 else 0

-- The waiters were woken for the end, or one thread is about to wake them.
abbrev pub Settled : Shared → Type 0
Settled s = s.deadline.woken + s.owed ≡ ended s.deadline.phase

exchange-Settled :
    (s : SubmissionDeadline) (from to : SubmissionPhase) (owed : ℕ)
    → is_terminal from ≡ false
    → s.woken + owed ≡ ended s.phase
    → (exchange s from to).0.woken + (owing (exchange s from to).1 to + owed)
      ≡ ended (exchange s from to).0.phase
unfolding exchange
exchange-Settled s from to owed l h = elim (Bool-cases (as_u8 s.phase == as_u8 from)) [
  | inl y ↦
      let at : s.phase ≡ from = eq_of_as_u8 s.phase from ((==_iff _ _).0 y) in
      let none_yet : s.woken + owed ≡ 0 =
        h ∙ ap ended at ∙ ap (λ (b : Bool). if b then 1 else 0) l in
      rw y (elim (Bool-cases (is_terminal to)) [
        | inl t ↦ rw t (omega (arith, none_yet))
        | inr t ↦ rw t (omega (arith, none_yet))
      ])
  | inr n ↦ rw n (omega (arith, h))
]

-- In every state that threads reach which call the methods, however they are interrupted: where the phase is no end, the
-- waiters have not been woken and no thread is about to; where it is one, they have been woken once, or they have not and
-- one thread is about to. So of all attempts to publish an end one succeeds at most.
pub reached_ended : {s : Shared} → Reached s → Settled s
unfolding is_terminal request_force notify_waiters
reached_ended fresh = refl
reached_ended (swapped {s} {t} r c from to m e) = subst Settled (sym e) (
    exchange-Settled s.deadline from to s.owed
      (All-Memᴰ (from, to) (attempts c) (attempts-Living c) m) (reached_ended r))
reached_ended (woke {s} {t} {n} r o e) = subst Settled (sym e) (omega (arith, o, reached_ended r))
reached_ended (forced {s} {t} r e) = subst Settled (sym e) (reached_ended r)

-- After an end no compare and exchange of any method succeeds, and none changes the state.
pub ended_final :
    (s : SubmissionDeadline) (c : Call) (from to : SubmissionPhase)
    → is_terminal s.phase ≡ true
    → Memᴰ (from, to) (attempts c)
    → transition s from to ≡ (s, false)
unfolding transition exchange
ended_final s c from to t m = elim (Bool-cases (as_u8 s.phase == as_u8 from)) [
  | inl y ↦
      let at : s.phase ≡ from = eq_of_as_u8 s.phase from ((==_iff _ _).0 y) in
      absurd (cc (ap is_terminal at, t, All-Memᴰ (from, to) (attempts c) (attempts-Living c) m))
  | inr n ↦ rw n refl
]
