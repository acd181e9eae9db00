-- ===== src/Agent/Tracker/Invariant.antt =====
-- What holds of the tracker's state between two calls: the attempts, their order of ending, and the lanes.
use mathlib.Core.Logic.{inl, inr}
use sembazuru.Base.{
  ℕ, ◌+◌, ◌≤◌, ◌≡◌, refl, sym, ap, ◌∙◌, subst, Bool, true, false, ◌&&◌, ◌||◌, List, [], ◌∷◌, ◌++◌,
  Option, none, some, leb, ◌==◌, if◌then◌else◌, length, Bool-cases, arith,
}
use sembazuru.Base.Texts.{same}
use sembazuru.Base.Assoc.{
  text_eq, lookup, insert, remove, Distinct, lookup-insert, lookup-remove, insert-Distinct,
  remove-Distinct,
}
use sembazuru.Base.Totals.{part, total, total-insert, total-remove, length-remove}
use sembazuru.Agent.Tracker.{
  AttemptKey, same_key, same_key_refl, eq_of_same_key, key_eq, AttemptRecord, LaneAllocator,
  TrackerState, running, is_terminal, same_state, max_activity_attempts, or_default,
}
use sembazuru.Agent.Tracker.Lanes.{bit, Fits, Fits-eq}

abbrev pub runs_on : List ℕ → AttemptRecord → ℕ
runs_on w r = bit (same_state r.state running && same r.worker_id w)

abbrev pub holds_lane : List ℕ → ℕ → AttemptRecord → ℕ
holds_lane w l r = bit ((same_state r.state running && same r.worker_id w) && r.lane_index == l)

-- An attempt that has not ended holds a lane when it runs, and none before.
abbrev pub laned : Option AttemptRecord → Bool
laned none = true
laned (some r) =
    is_terminal r.state
    || (if same_state r.state running then leb 1 r.lane_index else r.lane_index == 0)

abbrev pub over : Option AttemptRecord → Bool
over none = false
over (some r) = is_terminal r.state

unfoldable pub times : AttemptKey → List AttemptKey → ℕ
times k [] = 0
times k (j ∷ js) = bit (same_key j k) + times k js

pub times_self : (k : AttemptKey) (ks : List AttemptKey) → times k (k ∷ ks) ≡ 1 + times k ks
unfolding times
times_self k ks = ap (λ (b : Bool). bit b + times k ks) (same_key_refl k)

pub times-append :
    (k : AttemptKey) (js ks : List AttemptKey) → times k (js ++ ks) ≡ times k js + times k ks
unfolding times
times-append k [] ks = omega arith
times-append k (j ∷ js) ks = omega (arith, times-append k js ks)

-- The lanes of every worker, against the attempts.
abbrev pub LanesFit : List (AttemptKey × AttemptRecord) → List (List ℕ × LaneAllocator) → Type 0
LanesFit m lanes =
    (w : List ℕ)
    → Fits (total (runs_on w) m) (λ l. total (holds_lane w l) m) (or_default (lookup w lanes))

pub record Sound (m : List (AttemptKey × AttemptRecord)) (order : List AttemptKey)
    (lanes : List (List ℕ × LaneAllocator)) : Type 0 where
  pub attempts : Distinct m
  pub workers : Distinct lanes
  pub cap : length m ≤ max_activity_attempts
  pub ended_once : (k : AttemptKey) → times k order ≡ bit (over (lookup k m))
  pub lane_of : (k : AttemptKey) → laned (lookup k m) ≡ true
  pub lanes_fit : LanesFit m lanes

abbrev pub TrackerSound : TrackerState → Type 0
TrackerSound s = Sound s.attempts s.terminal_order s.worker_lanes

pub bit-once : (b : Bool) → bit b ≤ 1
bit-once true = omega arith
bit-once false = omega arith

once_less :
    (b : Bool) (o : Option AttemptRecord) (n : ℕ)
    → bit b + n ≡ bit (over o)
    → n ≡ bit (over (if b then none else o))
once_less true o n h = omega (arith, h, bit-once (over o))
once_less false o n h = omega (arith, h)

laned_less :
    (b : Bool) (o : Option AttemptRecord) → laned o ≡ true → laned (if b then none else o) ≡ true
laned_less true o h = refl
laned_less false o h = h

pub over_true : (b : Bool) (n : ℕ) → 1 + n ≡ bit b → b ≡ true
over_true true n h = refl
over_true false n h = absurd (omega (arith, h))

abbrev pub busy : Option AttemptRecord → Bool
busy none = false
busy (some r) = same_state r.state running

over-busy : (o : Option AttemptRecord) → over o ≡ true → busy o ≡ false
unfolding is_terminal same_state
over-busy none h = refl
over-busy (some r) h = ground arith

-- An attempt that does not run counts for no worker.
pub idle-runs_on : (w : List ℕ) (o : Option AttemptRecord) → busy o ≡ false → part (runs_on w) o ≡ 0
idle-runs_on w none h = refl
idle-runs_on w (some r) h = rw h refl

pub idle-holds_lane :
    (w : List ℕ) (l : ℕ) (o : Option AttemptRecord) → busy o ≡ false → part (holds_lane w l) o ≡ 0
idle-holds_lane w l none h = refl
idle-holds_lane w l (some r) h = rw h refl

-- An attempt that has ended leaves the table.
pub remove-Sound :
    (m : List (AttemptKey × AttemptRecord)) (order : List AttemptKey)
    (lanes : List (List ℕ × LaneAllocator)) (k : AttemptKey)
    → Sound m (k ∷ order) lanes
    → Sound (remove k m) order lanes
unfolding times
remove-Sound m order lanes k f =
    let gone : over (lookup k m) ≡ true =
      over_true (over (lookup k m)) (times k order) (sym (times_self k order) ∙ f.ended_once k) in
    let idle : busy (lookup k m) ≡ false = over-busy (lookup k m) gone in
    record {
      attempts = remove-Distinct k m f.attempts;
      workers = f.workers;
      cap = omega (arith, length-remove k m, f.cap);
      ended_once = λ j.
          once_less (same_key k j) (lookup j m) (times j order) (f.ended_once j)
          ∙ ap (λ (o : Option AttemptRecord). bit (over o)) (sym (lookup-remove k j m f.attempts));
      lane_of = λ j.
          ap laned (lookup-remove k j m f.attempts)
          ∙ laned_less (same_key k j) (lookup j m) (f.lane_of j);
      lanes_fit = λ w.
          Fits-eq (total (runs_on w) m) (total (runs_on w) (remove k m))
            (λ l. total (holds_lane w l) m) (λ l. total (holds_lane w l) (remove k m))
            (or_default (lookup w lanes))
            (omega (arith, total-remove (runs_on w) k m, idle-runs_on w (lookup k m) idle))
            (λ l.
              omega
                (arith, total-remove (holds_lane w l) k m, idle-holds_lane w l (lookup k m) idle))
            (f.lanes_fit w);
    }

kept_once :
    (m : List (AttemptKey × AttemptRecord)) (k j : AttemptKey) (r : AttemptRecord) (n n' : ℕ)
    → over (lookup k m) ≡ false
    → n ≡ bit (over (lookup j m))
    → n' ≡ n + bit (same_key k j && is_terminal r.state)
    → n' ≡ bit (over (if same_key k j then some r else lookup j m))
kept_once m k j r n n' not_over was is = elim (Bool-cases (same_key k j)) [
  | inl e ↦
      let none_yet : over (lookup j m) ≡ false =
        subst (λ (i : AttemptKey). over (lookup i m) ≡ false) (eq_of_same_key k j e) not_over in
      rw e (
        omega (
          arith,
          is ∙ ap (λ (b : Bool). n + bit (b && is_terminal r.state)) e,
          was ∙ ap bit none_yet,
        ))
  | inr e ↦ rw e (omega (arith, is ∙ ap (λ (b : Bool). n + bit (b && is_terminal r.state)) e, was))
]

laned_with :
    (b : Bool) (r : AttemptRecord) (o : Option AttemptRecord)
    → laned (some r) ≡ true
    → laned o ≡ true
    → laned (if b then some r else o) ≡ true
laned_with true r o h g = h
laned_with false r o h g = g

-- An attempt is entered, or changed: its end is put down once, and its worker's lanes follow.
pub insert-Sound :
    (m : List (AttemptKey × AttemptRecord))
    → (order order' : List AttemptKey) → (lanes lanes' : List (List ℕ × LaneAllocator))
    → (k : AttemptKey) → (r : AttemptRecord) → Sound m order lanes
    → Distinct lanes'
    → length (insert k r m) ≤ max_activity_attempts
    → over (lookup k m) ≡ false
    → ((j : AttemptKey)
        → times j order' ≡ times j order + bit (same_key k j && is_terminal r.state))
    → laned (some r) ≡ true
    → LanesFit (insert k r m) lanes'
    → Sound (insert k r m) order' lanes'
insert-Sound m order order' lanes lanes' k r f workers cap not_over grown lane fit = record {
  attempts = insert-Distinct k r m f.attempts;
  workers = workers;
  cap = cap;
  ended_once = λ j.
      kept_once m k j r (times j order) (times j order') not_over (f.ended_once j) (grown j)
      ∙ ap (λ (o : Option AttemptRecord). bit (over o)) (sym (lookup-insert k j r m));
  lane_of = λ j.
      ap laned (lookup-insert k j r m)
      ∙ laned_with (same_key k j) r (lookup j m) lane (f.lane_of j);
  lanes_fit = fit;
}

-- An attempt that runs neither before nor after leaves the lanes as they are.
pub quiet-LanesFit :
    (m : List (AttemptKey × AttemptRecord)) (lanes : List (List ℕ × LaneAllocator)) (k : AttemptKey)
    (r : AttemptRecord)
    → LanesFit m lanes
    → busy (lookup k m) ≡ false
    → busy (some r) ≡ false
    → LanesFit (insert k r m) lanes
quiet-LanesFit m lanes k r f before after w =
    Fits-eq (total (runs_on w) m) (total (runs_on w) (insert k r m)) (λ l. total (holds_lane w l) m)
      (λ l. total (holds_lane w l) (insert k r m)) (or_default (lookup w lanes))
      (omega (
        arith,
        total-insert (runs_on w) k r m,
        idle-runs_on w (lookup k m) before,
        idle-runs_on w (some r) after,
      ))
      (λ l. omega (
        arith,
        total-insert (holds_lane w l) k r m,
        idle-holds_lane w l (lookup k m) before,
        idle-holds_lane w l (some r) after,
      ))
      (f w)
