-- ===== src/Gateway/Pressure/Stuck.antt =====
-- A waiting threshold that can never be released.
use gpu_platform_control_pla.Base.{◌≡◌, true, false, List, [], ◌∷◌, ◌++◌, arith, All}
use gpu_platform_control_pla.Base.Int.{ℤ, pos, negsuc, ◌≤ℤ◌, ltb_ℤ, half}
use gpu_platform_control_pla.Gateway.Exposition.{KvSample}
use gpu_platform_control_pla.Gateway.Pressure.{
  PressureConfig, PressureState, Event, observed, gap, step, run, is_under,
}
use gpu_platform_control_pla.Gateway.Pressure.Invariant.{run-cfg}

-- A queue depth is never negative.
abbrev pub Counts : Event → Type 0
Counts (observed s now) = pos 0 ≤ℤ s.waiting
Counts gap = Unit

half_small : (t w : ℤ) → t ≤ℤ pos 1 → pos 0 ≤ℤ w → ltb_ℤ w (half t) ≡ false
half_small (pos t) w h p = ground arith
half_small (negsuc t) w h p = ground arith

never_under :
    (cfg : PressureConfig) (s : KvSample)
    → cfg.waiting_thresh ≤ℤ pos 1
    → pos 0 ≤ℤ s.waiting
    → is_under cfg s ≡ false
unfolding is_under
never_under cfg s h p = ground (arith, half_small cfg.waiting_thresh s.waiting h p)

step_stuck :
    (p : PressureState) (e : Event)
    → p.cfg.waiting_thresh ≤ℤ pos 1
    → Counts e
    → p.engaged ≡ true
    → (step p e).engaged ≡ true
unfolding step is_under
step_stuck p (observed s now) h c on = let n = never_under p.cfg s h c in ground arith
step_stuck p gap h c on = on

-- With a waiting threshold of 1 or less, which no flag check refuses, a guard that has engaged
-- never releases again, whatever samples and gaps come after it, queue depths never being negative:
-- half the threshold is 0 and no queue is shorter.
pub engaged_for_good :
    (cfg : PressureConfig) (later es : List Event)
    → cfg.waiting_thresh ≤ℤ pos 1
    → All Counts later
    → (run cfg es).engaged ≡ true
    → (run cfg (later ++ es)).engaged ≡ true
unfolding run
engaged_for_good cfg [] es h c on = on
engaged_for_good cfg (e ∷ later) es h c on =
    step_stuck (run cfg (later ++ es)) e (let same = run-cfg cfg (later ++ es) in ground arith) c.0
      (engaged_for_good cfg later es h c.1 on)
