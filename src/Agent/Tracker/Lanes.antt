-- ===== src/Agent/Tracker/Lanes.antt =====
-- The lanes of one worker: each lane below the next is held by one running attempt, or is free.
use sembazuru.Base.{
  ℕ, suc, ◌+◌, ◌≤◌, ◌≡◌, refl, sym, ap, ◌∙◌, min, Bool, true, false, ◌&&◌, List, [], ◌∷◌, ltb, leb,
  ◌==◌, length, Bool-cases, inl, inr, arith,
}
use sembazuru.Agent.Tracker.{
  LaneAllocator, default_allocator, max_activity_attempts, u32_max, push_lane, pop_lane, freed,
}

abbrev pub bit : Bool → ℕ
bit true = 1
bit false = 0

unfoldable pub occurs : ℕ → List ℕ → ℕ
occurs l [] = 0
occurs l (x ∷ xs) = bit (x == l) + occurs l xs

-- A number of attempts that run, and how many of them hold a lane.
pub record Fits (running : ℕ) (held : ℕ → ℕ) (a : LaneAllocator) : Type 0 where
  pub active : a.active ≡ running
  pub next : a.next_lane ≡ 1 + a.active + length a.free_lanes
  pub top : a.next_lane ≤ max_activity_attempts + 1
  pub cover : (l : ℕ) → held l + occurs l a.free_lanes ≡ bit (leb 1 l && ltb l a.next_lane)

pub Fits-eq :
    (n n' : ℕ) (held held' : ℕ → ℕ) (a : LaneAllocator)
    → n ≡ n'
    → ((l : ℕ) → held l ≡ held' l)
    → Fits n held a
    → Fits n' held' a
Fits-eq n n' held held' a e h f = record {
  active = f.active ∙ e;
  next = f.next;
  top = f.top;
  cover = λ l. ap (λ (x : ℕ). x + occurs l a.free_lanes) (sym (h l)) ∙ f.cover l;
}

pub default-Fits : (held : ℕ → ℕ) → ((l : ℕ) → held l ≡ 0) → Fits 0 held default_allocator
default-Fits held none_held = record {
  active = refl;
  next = omega arith;
  top = omega arith;
  cover = λ l. unfold occurs in ground (arith, none_held l);
}

occurs-push_lane : (l x : ℕ) (xs : List ℕ) → occurs l (push_lane x xs) ≡ bit (x == l) + occurs l xs
unfolding occurs push_lane
occurs-push_lane l x [] = refl
occurs-push_lane l x (y ∷ ys) = elim (Bool-cases (leb x y)) [
  | inl e ↦ rw e refl
  | inr e ↦ rw e (omega (arith, occurs-push_lane l x ys))
]

length-push_lane : (x : ℕ) (xs : List ℕ) → length (push_lane x xs) ≡ suc (length xs)
unfolding push_lane
length-push_lane x [] = refl
length-push_lane x (y ∷ ys) = elim (Bool-cases (leb x y)) [
  | inl e ↦ rw e refl
  | inr e ↦ rw e (ap suc (length-push_lane x ys))
]

-- The lane that an attempt gets is its own.
pub record Popped (running : ℕ) (held : ℕ → ℕ) (lane : ℕ) (after : LaneAllocator) : Type 0 where
  pub one : 1 ≤ lane
  pub after_fits : Fits (suc running) (λ l. held l + bit (lane == l)) after

occurs-nil : (l : ℕ) (xs : List ℕ) → [] ≡ xs → occurs l xs ≡ 0
occurs-nil l xs e = sym (unfold occurs in ap (occurs l) e)

occurs-cons : (l x : ℕ) (ls xs : List ℕ) → (x ∷ ls) ≡ xs → occurs l xs ≡ bit (x == l) + occurs l ls
occurs-cons l x ls xs e = sym (unfold occurs in ap (occurs l) e)

next_bit :
    (next l : ℕ)
    → 1 ≤ next
    → next ≤ max_activity_attempts
    → bit (leb 1 l && ltb l next) + bit (next == l)
      ≡ bit (leb 1 l && ltb l (min (next + 1) u32_max))
next_bit next l p h = ground arith

lane_of_free : (x o : ℕ) (b : Bool) → bit (x == x) + o ≤ bit (leb 1 x && b) → 1 ≤ x
lane_of_free x o b h = ground arith

pub pop_lane-Fits :
    (n : ℕ) (held : ℕ → ℕ) (a : LaneAllocator) (ls : List ℕ)
    → ls ≡ a.free_lanes
    → n + 1 ≤ max_activity_attempts
    → Fits n held a
    → Popped n held (pop_lane a ls).0 (pop_lane a ls).1
unfolding pop_lane
pop_lane-Fits n held a [] e room f =
    let no_free : length a.free_lanes ≡ 0 = sym (ap length e) in
    let is : a.next_lane ≡ 1 + n = omega (arith, f.next, f.active, no_free) in
    record {
      one = omega (arith, f.next);
      after_fits = record {
        active = omega (arith, f.active);
        next = omega (arith, f.next, f.active, f.top, no_free);
        top = omega (arith, f.next, f.active, f.top, no_free);
        cover = λ l.
            let c : held l ≡ bit (leb 1 l && ltb l a.next_lane) =
              omega (arith, f.cover l, occurs-nil l a.free_lanes e) in
            omega (
              arith,
              c,
              occurs-nil l a.free_lanes e,
              next_bit a.next_lane l (omega arith) (omega arith),
            );
      };
    }
pop_lane-Fits n held a (x ∷ ls) e room f = record {
  one =
      lane_of_free x (held x + occurs x ls) (ltb x a.next_lane)
        (omega (arith, f.cover x, occurs-cons x x ls a.free_lanes e));
  after_fits = record {
    active = omega (arith, f.active);
    next = omega (arith, f.next, f.active, ap length e);
    top = f.top;
    cover = λ l. omega (arith, f.cover l, occurs-cons l x ls a.free_lanes e);
  };
}

pub freed-Fits :
    (n : ℕ) (held held' : ℕ → ℕ) (a : LaneAllocator) (lane : ℕ)
    → ((l : ℕ) → held l ≡ held' l + bit (lane == l))
    → Fits (suc n) held a
    → Fits n held' (freed a lane)
unfolding freed
freed-Fits n held held' a lane was f = record {
  active = omega (arith, f.active);
  next = omega (arith, f.next, f.active, length-push_lane lane a.free_lanes);
  top = f.top;
  cover = λ l. omega (arith, f.cover l, was l, occurs-push_lane l lane a.free_lanes);
}
