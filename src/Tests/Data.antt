-- ===== src/Tests/Data.antt =====
-- Concrete values: a configuration, two backends, some samples, and a token bucket without refill.
use gpu_platform_control_pla.Base.{
  ℕ, ◌-◌, ◌≡◌, refl, Bool, true, false, List, [], ◌∷◌, leb, if◌then◌else◌, Bool-cases, inl, inr,
}
use gpu_platform_control_pla.Base.Text.{text}
use gpu_platform_control_pla.Base.Int.{ℤ, pos, pos_part}
use gpu_platform_control_pla.Base.Float.{Float, fin}
use gpu_platform_control_pla.Base.Clock.{Time}
use gpu_platform_control_pla.Gateway.Types.{BackendRef, RequestMeta}
use gpu_platform_control_pla.Gateway.Exposition.{KvSample}
use gpu_platform_control_pla.Gateway.Pressure.{PressureConfig, Event, observed}
use gpu_platform_control_pla.Gateway.Scraper.{ScraperConfig, new_backend_scraper}
use gpu_platform_control_pla.Gateway.Manager.{ScraperManager}
use gpu_platform_control_pla.Gateway.Limiter.{LimiterLib}
use gpu_platform_control_pla.Gateway.Admission.{KvAwareAdmitter}

abbrev pub guard_cfg : PressureConfig
guard_cfg = record {
  engage_usage = fin (pos 85);
  waiting_thresh = pos 10;
  release_usage = fin (pos 70);
  release_sustain = pos 5;
}

abbrev pub high : KvSample
high = record { cache_usage = fin (pos 90); waiting = pos 0 }

abbrev pub low : KvSample
low = record { cache_usage = fin (pos 10); waiting = pos 1 }

-- Two samples over the threshold, newest first.
abbrev pub spikes : List Event
spikes = observed high 20 ∷ (observed high 10 ∷ [])

abbrev pub scraper_cfg : ScraperConfig
scraper_cfg = record {
  engage_usage = fin (pos 85);
  release_usage = fin (pos 70);
  waiting_thresh = pos 10;
  release_sustain = pos 5;
  scrape_interval = pos 1;
  max_staleness = pos 3;
  http_timeout = pos 1;
  idle_timeout = pos 100;
}

abbrev pub head_backend : BackendRef
head_backend = record {
  namespace = text "a";
  name = text "h";
  port = 8080;
  url = record { host = text "h.a.svc"; port = 8080 };
  model = text "m";
}

abbrev pub spare_backend : BackendRef
spare_backend = record {
  namespace = text "a";
  name = text "s";
  port = 8080;
  url = record { host = text "s.a.svc"; port = 8080 };
  model = text "m";
}

abbrev pub long_meta : RequestMeta
long_meta = record { model = text "m"; est_input_tokens = 9; non_text_content = false }

abbrev pub manager : ScraperManager
manager = record {
  cfg = scraper_cfg;
  scrapers = (text "a/h", new_backend_scraper head_backend scraper_cfg) ∷ [];
  last_routed = (text "a/h", 40) ∷ [];
  stopped = false;
  gauges = record {
    guard_engaged = [];
    cache_usage = [];
    waiting_requests = [];
    telemetry_fresh = [];
    scrape_errors = [];
  };
}

abbrev pub kv_arm : KvAwareAdmitter
kv_arm = record { manager = manager; long_threshold = pos 8 }

-- A bucket that is never filled again.
pub record Bucket : Type 0 where
  pub limit : Float
  pub burst : ℤ
  pub tokens : ℕ

abbrev pub spend : Time → ℕ → Bucket → Bool × Bucket
spend t n l = if leb n l.tokens then (true, record l { tokens = l.tokens - n }) else (false, l)

pub spend-limit : (t : Time) (n : ℕ) (l : Bucket) → (spend t n l).1.limit ≡ l.limit
spend-limit t n l = elim (Bool-cases (leb n l.tokens)) [ inl e ↦ rw (e) refl | inr e ↦ rw (e) refl ]

pub spend-burst : (t : Time) (n : ℕ) (l : Bucket) → (spend t n l).1.burst ≡ l.burst
spend-burst t n l = elim (Bool-cases (leb n l.tokens)) [ inl e ↦ rw (e) refl | inr e ↦ rw (e) refl ]

abbrev pub buckets_lib : LimiterLib
buckets_lib = record {
  Limiter = Bucket;
  new_limiter = λ r b. record { limit = r; burst = b; tokens = pos_part b };
  set_limit = λ r l. record l { limit = r };
  set_burst = λ b l. record l { burst = b };
  allow_n = spend;
  limit_of = λ l. l.limit;
  burst_of = λ l. l.burst;
  limit_of-new = λ r b. refl;
  burst_of-new = λ r b. refl;
  limit_of-set_limit = λ r l. refl;
  burst_of-set_limit = λ r l. refl;
  limit_of-set_burst = λ b l. refl;
  burst_of-set_burst = λ b l. refl;
  limit_of-allow_n = λ t n l. spend-limit t n l;
  burst_of-allow_n = λ t n l. spend-burst t n l;
}
