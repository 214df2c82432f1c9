-- ===== src/Gateway/Pressure/Thresholds.antt =====
-- The two pairs of thresholds, and what their order rules out.
use gpu_platform_control_pla.Base.{◌≡◌, true, false, arith}
use gpu_platform_control_pla.Base.Int.{ℤ, pos, negsuc, ◌≤ℤ◌, ltb_ℤ, half}
use gpu_platform_control_pla.Base.Float.{Float, nan, inf, fin, ltb_f}
use gpu_platform_control_pla.Gateway.Exposition.{KvSample}
use gpu_platform_control_pla.Gateway.Pressure.{PressureConfig, is_over, is_under}

ltb_f_trans : (a b c : Float) → ltb_f a b ≡ true → ltb_f b c ≡ true → ltb_f a c ≡ true
ltb_f_trans nan b c h k = cc
ltb_f_trans (inf s) nan c h k = cc
ltb_f_trans (inf s) (inf t) nan h k = cc
ltb_f_trans (inf s) (inf t) (inf r) h k = ground arith
ltb_f_trans (inf s) (inf t) (fin z) h k = ground arith
ltb_f_trans (inf s) (fin y) nan h k = cc
ltb_f_trans (inf s) (fin y) (inf r) h k = ground arith
ltb_f_trans (inf s) (fin y) (fin z) h k = h
ltb_f_trans (fin x) nan c h k = cc
ltb_f_trans (fin x) (inf t) nan h k = cc
ltb_f_trans (fin x) (inf t) (inf r) h k = ground arith
ltb_f_trans (fin x) (inf t) (fin z) h k = ground arith
ltb_f_trans (fin x) (fin y) nan h k = cc
ltb_f_trans (fin x) (fin y) (inf r) h k = k
ltb_f_trans (fin x) (fin y) (fin z) h k = ground arith

-- The thresholds are ordered: nothing is over the one and under the other.
pub record IsOrdered (cfg : PressureConfig) : Type 0 where
  pub usage_ordered : ltb_f cfg.engage_usage cfg.release_usage ≡ false
  pub waiting_ordered : pos 0 ≤ℤ cfg.waiting_thresh

waiting_not_both : (w t : ℤ) → pos 0 ≤ℤ t → ltb_ℤ t w ≡ true → ltb_ℤ w (half t) ≡ true → ⊥
waiting_not_both w (pos t) h o u = ground arith
waiting_not_both w (negsuc t) h o u = absurd (omega arith)

pub over_not_under :
    (cfg : PressureConfig) (s : KvSample)
    → IsOrdered cfg
    → is_over cfg s ≡ true
    → is_under cfg s ≡ false
unfolding is_over is_under
over_not_under cfg s v o = ground (
  arith,
  ltb_f_trans cfg.engage_usage s.cache_usage cfg.release_usage,
  waiting_not_both s.waiting cfg.waiting_thresh v.waiting_ordered,
)
