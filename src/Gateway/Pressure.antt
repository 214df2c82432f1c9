-- ===== src/Gateway/Pressure.antt =====
-- The pressure state machine of internal/gateway/kvguard.go: pressureConfig, pressureState,
-- observe and resetConsecutive. One goroutine drives a state, so a step is a function.
pub mod Invariant
pub mod Thresholds
pub mod Engage
pub mod Streaks
pub mod Release
pub mod Stuck
use gpu_platform_control_pla.Base.{
  ℕ, ◌+◌, ◌≡◌, Bool, true, false, not, ◌&&◌, ◌||◌, List, [], ◌∷◌, ltb, leb, if◌then◌else◌,
}
use gpu_platform_control_pla.Base.Int.{ℤ, ltb_ℤ, leb_ℤ, half}
use gpu_platform_control_pla.Base.Float.{Float, ltb_f}
use gpu_platform_control_pla.Base.Clock.{Time, Duration, is_zero_time, since}
use gpu_platform_control_pla.Gateway.Exposition.{KvSample}

pub record PressureConfig : Type 0 where
  pub engage_usage : Float
  pub waiting_thresh : ℤ
  pub release_usage : Float
  pub release_sustain : Duration

pub record PressureState : Type 0 where
  pub cfg : PressureConfig
  pub engaged : Bool
  pub over_threshold_count : ℕ
  pub under_since : Time  -- the zero time: not under both thresholds

unfoldable pub new_pressure_state : PressureConfig → PressureState
new_pressure_state cfg = record {
  cfg = cfg;
  engaged = false;
  over_threshold_count = 0;
  under_since = 0;
}

unfoldable pub reset_consecutive : PressureState → PressureState
reset_consecutive p = record p { over_threshold_count = 0; under_since = 0 }

unfoldable pub is_over : PressureConfig → KvSample → Bool
is_over c s = ltb_f c.engage_usage s.cache_usage || ltb_ℤ c.waiting_thresh s.waiting

unfoldable pub is_under : PressureConfig → KvSample → Bool
is_under c s = ltb_f s.cache_usage c.release_usage && ltb_ℤ s.waiting (half c.waiting_thresh)

-- The branch taken while released.
observe_released : PressureState → KvSample → PressureState
unfolding is_over
observe_released p s =
    let count = if is_over p.cfg s then p.over_threshold_count + 1 else 0 in
    if leb 2 count
    then record p { engaged = true; over_threshold_count = 0 }
    else record p { over_threshold_count = count }

-- The branch taken while engaged.
observe_engaged : PressureState → KvSample → Time → PressureState
unfolding is_under
observe_engaged p s now =
    let began = if is_zero_time p.under_since then now else p.under_since in
    if not (is_under p.cfg s)
    then record p { under_since = 0 }
    else if leb_ℤ p.cfg.release_sustain (since now began)
    then record p { engaged = false; under_since = 0 }
    else record p { under_since = began }

unfoldable pub observe : PressureState → KvSample → Time → PressureState
unfolding observe_released observe_engaged
observe p s now = if p.engaged then observe_engaged p s now else observe_released p s

-- What the scraper does to a state between two looks at it.
pub data Event : Type 0 where
  observed : KvSample → Time → Event
  gap : Event

unfoldable pub step : PressureState → Event → PressureState
unfolding observe reset_consecutive
step p (observed s now) = observe p s now
step p gap = reset_consecutive p

-- A history is written newest first.
unfoldable pub run : PressureConfig → List Event → PressureState
unfolding new_pressure_state
run cfg [] = new_pressure_state cfg
run cfg (e ∷ es) = step (run cfg es) e
