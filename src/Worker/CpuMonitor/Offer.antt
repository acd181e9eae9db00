-- ===== src/Worker/CpuMonitor/Offer.antt =====
-- The policy of crates/worker/src/cpu_monitor.rs: ranges, and when a worker drops out and comes back.
use native.Mathlib.Nat.{mul-le-mul_left}
use sembazuru.Base.{
  ℕ, ◌+◌, ◌-◌, ◌*◌, ◌≤◌, ◌<◌, min, ◌≡◌, refl, Bool, true, false, Option, none, some, arith,
}
use sembazuru.Worker.CpuMonitor.{
  IdleCpuSettings, IdleCpuPolicy, new, smoothed, latched, offered, observe,
}

abbrev pub EmaFits : Option ℕ → Type 0
EmaFits none = Unit {0}
EmaFits (some ema) = ema ≤ 100

pub record PolicyFits (p : IdleCpuPolicy) : Type 0 where
  pub alpha : 1 ≤ p.alpha_pct
  pub alpha_top : p.alpha_pct ≤ 100
  pub reserve : p.reserve_pct ≤ 100
  pub floor : p.participation_floor_pct ≤ 100
  pub ema : EmaFits p.ema

pub new-PolicyFits : (s : IdleCpuSettings) → PolicyFits (new s)
unfolding new
new-PolicyFits s = record {
  alpha = omega arith;
  alpha_top = omega arith;
  reserve = omega arith;
  floor = omega arith;
  ema = tt;
}

smoothed_le :
    (a : ℕ) (o : Option ℕ) (raw : ℕ) → a ≤ 100 → EmaFits o → raw ≤ 100 → smoothed a o raw ≤ 100
unfolding smoothed
smoothed_le a none raw ha ho hr = hr
smoothed_le a (some prev) raw ha ho hr =
    let left : a * raw ≤ a * 100 = mul-le-mul_left a hr in
    let right : (100 - a) * prev ≤ (100 - a) * 100 = mul-le-mul_left (100 - a) ho in
    omega (arith, left, right)

offered_le :
    (p : IdleCpuPolicy) (ema : ℕ) (b : Bool) → PolicyFits p → ema ≤ 100 → offered p ema b ≤ 100
unfolding offered
offered_le p ema true h g = let f = h.floor in omega arith
offered_le p ema false h g = omega arith

-- For a policy whose percentages are at most 100, with a weight of at least 1: a sample keeps
-- these ranges, and the offer is at most 100 percent.
pub observe-PolicyFits :
    (p : IdleCpuPolicy) (raw : ℕ)
    → PolicyFits p
    → PolicyFits (observe p raw).0 × ((observe p raw).1 ≤ 100)
unfolding observe
observe-PolicyFits p raw h =
    let top : smoothed p.alpha_pct p.ema (min raw 100) ≤ 100 =
      smoothed_le p.alpha_pct p.ema (min raw 100) h.alpha_top h.ema (omega arith) in
    (
      record {
        alpha = h.alpha;
        alpha_top = h.alpha_top;
        reserve = h.reserve;
        floor = h.floor;
        ema = top;
      },
      offered_le p (smoothed p.alpha_pct p.ema (min raw 100))
          (latched p (smoothed p.alpha_pct p.ema (min raw 100))) h top,
    )

-- The smoothed value after a sample.
abbrev pub level : IdleCpuPolicy → ℕ → ℕ
level p raw = smoothed p.alpha_pct p.ema (min raw 100)

offered_out : (p : IdleCpuPolicy) (ema : ℕ) (b : Bool) → b ≡ false → offered p ema b ≡ 0
unfolding offered
offered_out p ema true e = absurd cc
offered_out p ema false e = refl

offered_on :
    (p : IdleCpuPolicy) (ema : ℕ) (b : Bool)
    → b ≡ true
    → p.participation_floor_pct ≤ offered p ema b
unfolding offered
offered_on p ema true e = omega arith
offered_on p ema false e = absurd cc

-- A worker that takes part drops out exactly when the smoothed value falls below the reserve; one that is out
-- comes back exactly when it reaches the reserve and the band, or 100. One that is out offers nothing, and one
-- that takes part offers at least the floor.
pub observe_latch :
    (p : IdleCpuPolicy) (raw : ℕ)
    → (p.participating ≡ true
        → (observe p raw).0.participating ≡ true
        → p.reserve_pct ≤ level p raw)
      × (p.participating ≡ true
          → (observe p raw).0.participating ≡ false
          → level p raw < p.reserve_pct)
      × (p.participating ≡ false
          → (observe p raw).0.participating ≡ true
          → min (p.reserve_pct + p.hysteresis_pct) 100 ≤ level p raw)
      × (p.participating ≡ false
          → (observe p raw).0.participating ≡ false
          → level p raw < min (p.reserve_pct + p.hysteresis_pct) 100)
      × ((observe p raw).0.participating ≡ false → (observe p raw).1 ≡ 0)
      × ((observe p raw).0.participating ≡ true → p.participation_floor_pct ≤ (observe p raw).1)
unfolding observe latched
observe_latch p raw = (
  λ on stays. ground (arith, on, stays),
  λ on leaves. ground (arith, on, leaves),
  λ out back. ground (arith, out, back),
  λ out stays. ground (arith, out, stays),
  λ out. offered_out p (level p raw) (latched p (level p raw)) out,
  λ on. offered_on p (level p raw) (latched p (level p raw)) on,
)
