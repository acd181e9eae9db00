-- ===== src/Worker/CpuMonitor.antt =====
-- crates/worker/src/cpu_monitor.rs: the share of idle time that a worker offers.
pub mod Offer
use sembazuru.Base.{
  ℕ, ◌+◌, ◌-◌, ◌*◌, ◌/◌, ◌%◌, ◌^◌, min, max, Bool, true, false, Option, none, some, ltb, leb, ◌==◌,
  if◌then◌else◌, checked_add,
}

-- The product of the idle time is kept to 64 bits, as the sources' is in a release build.
abbrev idle_share : ℕ → ℕ → ℕ
idle_share idle total = (min idle total * 100) % 2 ^ 64 / total

shared : ℕ → Option ℕ → Option ℕ
shared idle_d none = none
shared idle_d (some total) = if total == 0 then none else some (idle_share idle_d total % 2 ^ 32)

unfoldable pub idle_pct_from_deltas : ℕ → ℕ → ℕ → Option ℕ
unfolding shared
idle_pct_from_deltas idle_d kernel_d user_d = shared idle_d (checked_add kernel_d user_d)

pub record IdleCpuSettings : Type 0 where
  pub ema_alpha_pct : ℕ
  pub reserve_pct : ℕ
  pub hysteresis_pct : ℕ
  pub participation_floor_pct : ℕ

pub record IdleCpuPolicy : Type 0 where
  pub alpha_pct : ℕ
  pub reserve_pct : ℕ
  pub hysteresis_pct : ℕ
  pub participation_floor_pct : ℕ
  pub ema : Option ℕ
  pub participating : Bool

unfoldable pub new : IdleCpuSettings → IdleCpuPolicy
new settings = record {
  alpha_pct = min (max settings.ema_alpha_pct 1) 100;
  reserve_pct = min settings.reserve_pct 100;
  hysteresis_pct = min settings.hysteresis_pct 100;
  participation_floor_pct = min settings.participation_floor_pct 100;
  ema = none;
  participating = true;
}

-- The policy's fields are at most 100, so no product or sum reaches 32 bits.
unfoldable pub smoothed : ℕ → Option ℕ → ℕ → ℕ
smoothed a none raw = raw
smoothed a (some prev) raw = (a * raw + (100 - a) * prev + 50) / 100

-- The latch: out below the reserve, and in again from the reserve and the band on.
unfoldable pub latched : IdleCpuPolicy → ℕ → Bool
latched p ema =
    if p.participating
    then (if ltb ema p.reserve_pct then false else true)
    else leb (min (p.reserve_pct + p.hysteresis_pct) 100) ema

unfoldable pub offered : IdleCpuPolicy → ℕ → Bool → ℕ
offered p ema true = max (ema - p.reserve_pct) p.participation_floor_pct
offered p ema false = 0

unfoldable pub observe : IdleCpuPolicy → ℕ → IdleCpuPolicy × ℕ
unfolding smoothed latched offered
observe p raw_idle_pct =
    let ema = smoothed p.alpha_pct p.ema (min raw_idle_pct 100) in
    let participating = latched p ema in
    (record p { ema = some ema; participating = participating }, offered p ema participating)

pub record SystemTimes : Type 0 where
  pub idle : ℕ
  pub kernel : ℕ
  pub user : ℕ

since : Option SystemTimes → SystemTimes → Option ℕ
unfolding idle_pct_from_deltas
since none cur = none
since (some prev) cur =
    idle_pct_from_deltas (cur.idle - prev.idle) (cur.kernel - prev.kernel) (cur.user - prev.user)

-- One reading, which the operating system may refuse: the reading to remember, and the share since the last.
unfoldable pub sample : Option SystemTimes → Option SystemTimes → Option SystemTimes × Option ℕ
unfolding since
sample prev none = (prev, none)
sample prev (some cur) = (some cur, since prev cur)
