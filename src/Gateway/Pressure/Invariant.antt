-- ===== src/Gateway/Pressure/Invariant.antt =====
-- What holds of a pressure state between two steps.
use gpu_platform_control_pla.Base.{◌≤◌, ◌≡◌, refl, true, false, List, [], ◌∷◌, arith}
use gpu_platform_control_pla.Gateway.Pressure.{
  PressureConfig, PressureState, Event, observed, gap, step, run,
}

-- The counters are used one at a time: the engage count only while released, the release clock only
-- while engaged.
pub record IsConsistent (p : PressureState) : Type 0 where
  pub one_short : p.over_threshold_count ≤ 1
  pub quiet_engaged : p.engaged ≡ true → p.over_threshold_count ≡ 0
  pub quiet_released : p.engaged ≡ false → p.under_since ≡ 0

pub step-IsConsistent : (p : PressureState) (e : Event) → IsConsistent p → IsConsistent (step p e)
unfolding step
step-IsConsistent p (observed s now) v = ground arith
step-IsConsistent p gap v = ground arith

pub step-cfg : (p : PressureState) (e : Event) → (step p e).cfg ≡ p.cfg
unfolding step
step-cfg p (observed s now) = ground arith
step-cfg p gap = refl

pub run-IsConsistent : (cfg : PressureConfig) (es : List Event) → IsConsistent (run cfg es)
unfolding run
run-IsConsistent cfg [] = ground arith
run-IsConsistent cfg (e ∷ es) = step-IsConsistent (run cfg es) e (run-IsConsistent cfg es)

pub run-cfg : (cfg : PressureConfig) (es : List Event) → (run cfg es).cfg ≡ cfg
unfolding run
run-cfg cfg [] = refl
run-cfg cfg (e ∷ es) = ground (arith, step-cfg (run cfg es) e, run-cfg cfg es)
