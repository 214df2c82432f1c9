-- ===== src/Gateway/Limiter.antt =====
-- golang.org/x/time/rate, which the repository only calls: the calls that it makes, and what the
-- package documents of them.
use gpu_platform_control_pla.Base.{ℕ, ◌≡◌, Bool}
use gpu_platform_control_pla.Base.Int.{ℤ}
use gpu_platform_control_pla.Base.Float.{Float}
use gpu_platform_control_pla.Base.Clock.{Time}

pub record LimiterLib : Type 1 where
  pub Limiter : Type 0
  pub new_limiter : Float → ℤ → Limiter
  pub set_limit : Float → Limiter → Limiter
  pub set_burst : ℤ → Limiter → Limiter
  -- AllowN at a time for n tokens.
  pub allow_n : Time → ℕ → Limiter → Bool × Limiter
  -- Limit() and Burst().
  pub limit_of : Limiter → Float
  pub burst_of : Limiter → ℤ
  pub limit_of-new : (r : Float) (b : ℤ) → limit_of (new_limiter r b) ≡ r
  pub burst_of-new : (r : Float) (b : ℤ) → burst_of (new_limiter r b) ≡ b
  pub limit_of-set_limit : (r : Float) (l : Limiter) → limit_of (set_limit r l) ≡ r
  pub burst_of-set_limit : (r : Float) (l : Limiter) → burst_of (set_limit r l) ≡ burst_of l
  pub limit_of-set_burst : (b : ℤ) (l : Limiter) → limit_of (set_burst b l) ≡ limit_of l
  pub burst_of-set_burst : (b : ℤ) (l : Limiter) → burst_of (set_burst b l) ≡ b
  pub limit_of-allow_n : (t : Time) (n : ℕ) (l : Limiter) → limit_of (allow_n t n l).1 ≡ limit_of l
  pub burst_of-allow_n : (t : Time) (n : ℕ) (l : Limiter) → burst_of (allow_n t n l).1 ≡ burst_of l
