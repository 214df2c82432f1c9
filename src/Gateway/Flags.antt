-- ===== src/Gateway/Flags.antt =====
-- The admitter that the gateway starts with: newAdmitter of cmd/gateway/main.go, NewKVAwareAdmitter
-- of internal/gateway/kvguard.go.
use gpu_platform_control_pla.Base.{if◌then◌else◌}
use gpu_platform_control_pla.Base.Text.{Text, text_eq}
use gpu_platform_control_pla.Base.Int.{ℤ}
use gpu_platform_control_pla.Base.Float.{Float}
use gpu_platform_control_pla.Base.Clock.{Duration}
use gpu_platform_control_pla.Base.Results.{Result, ok, err}
use gpu_platform_control_pla.Gateway.Types.{
  AdmissionMode, admission_off, admission_static_cap, admission_kv_aware,
}
use gpu_platform_control_pla.Gateway.Scraper.{ScraperConfig}
use gpu_platform_control_pla.Gateway.Manager.{new_scraper_manager}
use gpu_platform_control_pla.Gateway.Limiter.{LimiterLib}
use gpu_platform_control_pla.Gateway.Admission.{
  KvAwareAdmitter, Admitter, off, static_cap, kv_aware, new_static_cap_admitter,
}

pub record KvAwareConfig : Type 0 where
  pub engage_usage : Float
  pub release_usage : Float
  pub waiting_thresh : ℤ
  pub release_sustain : Duration
  pub scrape_interval : Duration
  pub max_staleness : Duration
  pub http_timeout : Duration
  pub idle_timeout : Duration
  pub long_threshold : ℤ

unfoldable pub to_scraper_config : KvAwareConfig → ScraperConfig
to_scraper_config c = record {
  engage_usage = c.engage_usage;
  release_usage = c.release_usage;
  waiting_thresh = c.waiting_thresh;
  release_sustain = c.release_sustain;
  scrape_interval = c.scrape_interval;
  max_staleness = c.max_staleness;
  http_timeout = c.http_timeout;
  idle_timeout = c.idle_timeout;
}

unfoldable pub new_kv_aware_admitter : KvAwareConfig → KvAwareAdmitter
unfolding to_scraper_config new_scraper_manager
new_kv_aware_admitter cfg = record {
  manager = new_scraper_manager (to_scraper_config cfg);
  long_threshold = cfg.long_threshold;
}

pub record AdmitterFlags : Type 0 where
  pub static_rate : Float
  pub static_burst : ℤ
  pub long_threshold : ℤ
  pub kv : KvAwareConfig

module _ (lib : LimiterLib) where
  -- The error holds the mode that is not known.
  unfoldable pub new_admitter : AdmissionMode → AdmitterFlags → Result Text (Admitter lib)
  unfolding admission_off admission_static_cap admission_kv_aware new_static_cap_admitter
      new_kv_aware_admitter
  new_admitter mode f =
      if text_eq mode admission_off
      then ok off
      else if text_eq mode admission_static_cap
      then ok
          (static_cap (new_static_cap_admitter lib f.static_rate f.static_burst f.long_threshold))
      else if text_eq mode admission_kv_aware
      then ok (kv_aware (new_kv_aware_admitter f.kv))
      else err mode
