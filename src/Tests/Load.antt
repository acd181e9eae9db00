-- ===== src/Tests/Load.antt =====
-- crates/worker/src/cpu_monitor.rs at concrete inputs.
use sembazuru.Base.{◌+◌, ◌≤◌, ◌<◌, ◌≡◌, true, false, min}
use sembazuru.Worker.CpuMonitor.{IdleCpuSettings, IdleCpuPolicy, new, observe}
use sembazuru.Worker.CpuMonitor.Offer.{observe_latch, level}

abbrev settings : IdleCpuSettings
settings = record {
  ema_alpha_pct = 50;
  reserve_pct = 20;
  hysteresis_pct = 10;
  participation_floor_pct = 5;
}

abbrev lowered : IdleCpuPolicy
lowered = (observe (new settings) 7).0

observe_latch_example :
    (lowered.participating ≡ true
      → (observe lowered 60).0.participating ≡ true
      → lowered.reserve_pct ≤ level lowered 60)
    × (lowered.participating ≡ true
        → (observe lowered 60).0.participating ≡ false
        → level lowered 60 < lowered.reserve_pct)
    × (lowered.participating ≡ false
        → (observe lowered 60).0.participating ≡ true
        → min (lowered.reserve_pct + lowered.hysteresis_pct) 100 ≤ level lowered 60)
    × (lowered.participating ≡ false
        → (observe lowered 60).0.participating ≡ false
        → level lowered 60 < min (lowered.reserve_pct + lowered.hysteresis_pct) 100)
    × ((observe lowered 60).0.participating ≡ false → (observe lowered 60).1 ≡ 0)
    × ((observe lowered 60).0.participating ≡ true
        → lowered.participation_floor_pct ≤ (observe lowered 60).1)
observe_latch_example = observe_latch lowered 60
