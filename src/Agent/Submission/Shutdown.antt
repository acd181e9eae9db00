-- ===== src/Agent/Submission/Shutdown.antt =====
-- crates/agent/src/session_registry.rs: what the daemon's shutdown stops and forces.
use mathlib.Core.List.{Memᴰ}
use mathlib.Core.List.Memᴰ
use sembazuru.Base.{
  All, length, ◌≤◌, ℕ, ◌+◌, ◌≡◌, refl, sym, ap, subst, ◌∙◌, Bool, true, false, ◌||◌, List, [], ◌∷◌,
  if◌then◌else◌, Bool-cases, inl, inr, ==_iff, arith,
}
use sembazuru.Agent.Submission.{
  request_force, DaemonTaskScope, spawn_cancel, push, spawn_drain, begin_shutdown, Store, force_at,
  force_each, retained, request_force_all,
}

-- What the daemon asks of the scope; request_force_all meets the deadlines that are alive at its time.
pub data Ask : Type 0 where
  to_spawn_cancel : Ask
  to_spawn_drain : ℕ → Ask
  to_shut_down : Ask
  to_force_all : (ℕ → Bool) → Ask

abbrev pub World : Type 0
World = DaemonTaskScope × Store

unfoldable pub answered : World → Ask → World
unfolding spawn_cancel spawn_drain begin_shutdown request_force_all
answered (s, store) to_spawn_cancel = ((spawn_cancel s).0, store)
answered (s, store) (to_spawn_drain i) = ((spawn_drain s i).0, store)
answered (s, store) to_shut_down = (begin_shutdown s, store)
answered (s, store) (to_force_all alive) = request_force_all alive s store

unfoldable pub run : List Ask → World → World
unfolding answered
run [] w = w
run (a ∷ asks) w = run asks (answered w a)

-- The deadline is alive whenever the daemon meets it.
abbrev pub AliveAt : ℕ → Ask → Type 0
AliveAt i (to_force_all alive) = alive i ≡ true
AliveAt i _ = Unit {0}

-- No task of the scope `t` is none of the scope `s`.
pub record SameTasks (s t : DaemonTaskScope) : Type 0 where
  pub shut : t.shutting_down ≡ true
  pub cancel_same : t.cancel_tasks ≡ s.cancel_tasks
  pub drain_same : t.drain_tasks ≡ s.drain_tasks
  pub no_more : length t.submissions ≤ length s.submissions

first_if :
    (b : Bool) (t u : DaemonTaskScope)
    → b ≡ true
    → (if◌then◌else◌ {A = DaemonTaskScope × Bool} b (t, false) (u, true)).0 ≡ t
first_if b t u h = rw h refl

shut_cancel : (t : DaemonTaskScope) → t.shutting_down ≡ true → (spawn_cancel t).0 ≡ t
unfolding spawn_cancel
shut_cancel t h =
    first_if (t.shutting_down || t.cancel_closed) t _ (ap (λ (b : Bool). b || t.cancel_closed) h)

shut_drain : (t : DaemonTaskScope) (i : ℕ) → t.shutting_down ≡ true → (spawn_drain t i).0 ≡ t
unfolding spawn_drain
shut_drain t i h =
    first_if (t.shutting_down || t.drain_closed) t _ (ap (λ (b : Bool). b || t.drain_closed) h)

retained-length : (alive : ℕ → Bool) (is : List ℕ) → length (retained alive is) ≤ length is
unfolding retained
retained-length alive [] = omega arith
retained-length alive (i ∷ is) = elim (Bool-cases (alive i)) [
  | inl y ↦ rw y (omega (arith, retained-length alive is))
  | inr n ↦ rw n (omega (arith, retained-length alive is))
]

answered-SameTasks :
    (s t : DaemonTaskScope) (store : Store) (a : Ask)
    → SameTasks s t
    → SameTasks s (answered (t, store) a).0
unfolding answered begin_shutdown request_force_all
answered-SameTasks s t store to_spawn_cancel h = subst (SameTasks s) (sym (shut_cancel t h.shut)) h
answered-SameTasks s t store (to_spawn_drain i) h =
    subst (SameTasks s) (sym (shut_drain t i h.shut)) h
answered-SameTasks s t store to_shut_down h = record {
  shut = refl;
  cancel_same = h.cancel_same;
  drain_same = h.drain_same;
  no_more = h.no_more;
}
answered-SameTasks s t store (to_force_all alive) h = record {
  shut = h.shut;
  cancel_same = h.cancel_same;
  drain_same = h.drain_same;
  no_more = omega (arith, h.no_more, retained-length alive t.submissions);
}

run-SameTasks :
    (s : DaemonTaskScope) (w : World) (asks : List Ask)
    → SameTasks s w.0
    → SameTasks s (run asks w).0
unfolding run
run-SameTasks s w [] h = h
run-SameTasks s w (a ∷ asks) h =
    run-SameTasks s (answered w a) asks (answered-SameTasks s w.0 w.1 a h)

-- Once the shutdown has begun, whatever is asked of the scope, no task and no submission is added.
pub shutdown_closes :
    (s : DaemonTaskScope) (store : Store) (asks : List Ask)
    → SameTasks s (run asks (begin_shutdown s, store)).0
unfolding begin_shutdown
shutdown_closes s store asks =
    run-SameTasks s (begin_shutdown s, store) asks
      (record { shut = refl; cancel_same = refl; drain_same = refl; no_more = omega arith })

push-Memᴰ : (i : ℕ) (js : List ℕ) → Memᴰ i (push i js)
push-Memᴰ i [] = Memᴰ.head refl
push-Memᴰ i (j ∷ js) = Memᴰ.tail (push-Memᴰ i js)

push_keeps : (i k : ℕ) (js : List ℕ) → Memᴰ i js → Memᴰ i (push k js)
push_keeps i k [] m = absurd (Memᴰ.not-nil m)
push_keeps i k (j ∷ js) (Memᴰ.head e) = Memᴰ.head e
push_keeps i k (j ∷ js) (Memᴰ.tail m) = Memᴰ.tail (push_keeps i k js m)

cancel_keeps :
    (i : ℕ) (s : DaemonTaskScope) → Memᴰ i s.submissions → Memᴰ i (spawn_cancel s).0.submissions
unfolding spawn_cancel
cancel_keeps i s m = elim (Bool-cases (s.shutting_down || s.cancel_closed)) [
  | inl y ↦ rw y m
  | inr n ↦ rw n m
]

drain_keeps :
    (i k : ℕ) (s : DaemonTaskScope) → Memᴰ i s.submissions → Memᴰ i (spawn_drain s k).0.submissions
unfolding spawn_drain
drain_keeps i k s m = elim (Bool-cases (s.shutting_down || s.drain_closed)) [
  | inl y ↦ rw y m
  | inr n ↦ rw n (push_keeps i k s.submissions m)
]

retained_keeps :
    (alive : ℕ → Bool) (i : ℕ) (js : List ℕ)
    → alive i ≡ true
    → Memᴰ i js
    → Memᴰ i (retained alive js)
unfolding retained
retained_keeps alive i [] a m = absurd (Memᴰ.not-nil m)
retained_keeps alive i (j ∷ js) a (Memᴰ.head e) = rw (ap alive (sym e) ∙ a) (Memᴰ.head e)
retained_keeps alive i (j ∷ js) a (Memᴰ.tail m) = elim (Bool-cases (alive j)) [
  | inl y ↦ rw y (Memᴰ.tail (retained_keeps alive i js a m))
  | inr n ↦ rw n (retained_keeps alive i js a m)
]

answered_keeps :
    (i : ℕ) (w : World) (a : Ask)
    → AliveAt i a
    → Memᴰ i w.0.submissions
    → Memᴰ i (answered w a).0.submissions
unfolding answered begin_shutdown request_force_all
answered_keeps i (s, store) to_spawn_cancel l m = cancel_keeps i s m
answered_keeps i (s, store) (to_spawn_drain k) l m = drain_keeps i k s m
answered_keeps i (s, store) to_shut_down l m = m
answered_keeps i (s, store) (to_force_all alive) l m = retained_keeps alive i s.submissions l m

run_keeps :
    (i : ℕ) (w : World) (asks : List Ask)
    → All (AliveAt i) asks
    → Memᴰ i w.0.submissions
    → Memᴰ i (run asks w).0.submissions
unfolding run
run_keeps i w [] l m = m
run_keeps i w (a ∷ asks) l m = run_keeps i (answered w a) asks l.1 (answered_keeps i w a l.0 m)

spawned_listed :
    (s t : DaemonTaskScope) (i : ℕ) → spawn_drain s i ≡ (t, true) → Memᴰ i t.submissions
unfolding spawn_drain
spawned_listed s t i h = elim (Bool-cases (s.shutting_down || s.drain_closed)) [
  | inl y ↦
      absurd (let e : ◌≡◌ {A = DaemonTaskScope × Bool} (s, false) (t, true) = rw y at h in cc e)
  | inr n ↦
      let e : ◌≡◌ {A = DaemonTaskScope × Bool}
          (record s { drain_tasks = s.drain_tasks + 1; submissions = push i s.submissions }, true)
          (t, true) =
        rw n at h in
      subst (λ (l : List ℕ). Memᴰ i l) (ap (λ (p : DaemonTaskScope × Bool). p.0.submissions) e)
        (push-Memᴰ i s.submissions)
]

forced_more :
    (alive : ℕ → Bool) (i j : ℕ) (store : Store)
    → (store j).force ≡ true
    → ((if alive i then force_at i store else store) j).force ≡ true
unfolding request_force
forced_more alive i j store h = ground (arith, h)

forced_here :
    (alive : ℕ → Bool) (i j : ℕ) (store : Store)
    → j ≡ i
    → alive j ≡ true
    → ((if alive i then force_at i store else store) j).force ≡ true
unfolding request_force
forced_here alive i j store e h = rw (ap alive (sym e) ∙ h) (rw ((==_iff i j).1 (sym e)) refl)

force_stays :
    (alive : ℕ → Bool) (is : List ℕ) (store : Store) (j : ℕ)
    → (store j).force ≡ true
    → (force_each alive is store j).force ≡ true
unfolding force_each
force_stays alive [] store j h = h
force_stays alive (i ∷ is) store j h =
    force_stays alive is (if alive i then force_at i store else store) j
      (forced_more alive i j store h)

force_reaches :
    (alive : ℕ → Bool) (is : List ℕ) (store : Store) (j : ℕ)
    → Memᴰ j is
    → alive j ≡ true
    → (force_each alive is store j).force ≡ true
unfolding force_each
force_reaches alive [] store j m h = absurd (Memᴰ.not-nil m)
force_reaches alive (i ∷ is) store j (Memᴰ.head e) h =
    force_stays alive is (if alive i then force_at i store else store) j
      (forced_here alive i j store e h)
force_reaches alive (i ∷ is) store j (Memᴰ.tail m) h =
    force_reaches alive is (if alive i then force_at i store else store) j m h

-- A submission whose drain task the scope accepted is forced by a request_force_all, whatever the scope was asked between,
-- the tasks of others, the shutdown and earlier calls of request_force_all included, if its deadline is alive at each of
-- these calls.
pub accepted_forced :
    (s t : DaemonTaskScope) (i : ℕ) (asks : List Ask) (alive : ℕ → Bool) (store : Store)
    → spawn_drain s i ≡ (t, true)
    → All (AliveAt i) asks
    → alive i ≡ true
    → ((answered (run asks (t, store)) (to_force_all alive)).1 i).force ≡ true
unfolding answered request_force_all
accepted_forced s t i asks alive store h l a =
    let w : World = run asks (t, store) in
    force_reaches alive w.0.submissions w.1 i
      (run_keeps i (t, store) asks l (spawned_listed s t i h)) a
