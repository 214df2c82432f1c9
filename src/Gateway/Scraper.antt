-- ===== src/Gateway/Scraper.antt =====
-- One backend's scraper (internal/gateway/kvguard.go): scrape, tick, publish and the gauges that
-- mirror the published snapshot (internal/gateway/metrics.go). A scraper is driven by one
-- goroutine, so a tick is a function of the state, the clock and the outcome of the HTTP request.
use gpu_platform_control_pla.Base.{
  ℕ, ◌+◌, Bool, true, false, not, ◌&&◌, [], ◌∷◌, ◌++◌, Option, none, some, ◌==◌, if◌then◌else◌,
}
use gpu_platform_control_pla.Base.Text.{Text}
use gpu_platform_control_pla.Base.Maps.{Map, lookup, insert}
use gpu_platform_control_pla.Base.Int.{ℤ, pos, ltb_ℤ, leb_ℤ}
use gpu_platform_control_pla.Base.Float.{Float, one, zero_f, of_int}
use gpu_platform_control_pla.Base.Results.{Result, ok, err}
use gpu_platform_control_pla.Base.Clock.{Time, Duration, since}
use gpu_platform_control_pla.Gateway.Types.{BackendRef}
use gpu_platform_control_pla.Gateway.Exposition.{
  MetricFamily, ScrapeError, build_failed, transport_failed, unexpected_status, KvSample,
  parse_kv_metrics,
}
use gpu_platform_control_pla.Gateway.Pressure.{
  PressureConfig, PressureState, new_pressure_state, observe, reset_consecutive,
}

pub record ScraperConfig : Type 0 where
  pub engage_usage : Float
  pub release_usage : Float
  pub waiting_thresh : ℤ
  pub release_sustain : Duration
  pub scrape_interval : Duration
  pub max_staleness : Duration
  pub http_timeout : Duration
  pub idle_timeout : Duration

unfoldable pub pressure_config : ScraperConfig → PressureConfig
pressure_config c = record {
  engage_usage = c.engage_usage;
  waiting_thresh = c.waiting_thresh;
  release_usage = c.release_usage;
  release_sustain = c.release_sustain;
}

pub record BackendSnapshot : Type 0 where
  pub engaged : Bool
  pub cache_usage : Float
  pub waiting : ℤ
  pub fresh : Bool

pub record BackendScraper : Type 0 where
  pub ref : BackendRef
  pub cfg : ScraperConfig
  pub state : PressureState
  pub last_success_at : Time
  pub ever_succeeded : Bool
  pub last_sample : KvSample
  pub snap : BackendSnapshot

abbrev pub zero_sample : KvSample
zero_sample = record { cache_usage = zero_f; waiting = pos 0 }

abbrev pub zero_snapshot : BackendSnapshot
zero_snapshot = record { engaged = false; cache_usage = zero_f; waiting = pos 0; fresh = false }

unfoldable pub new_backend_scraper : BackendRef → ScraperConfig → BackendScraper
unfolding new_pressure_state pressure_config
new_backend_scraper ref cfg = record {
  ref = ref;
  cfg = cfg;
  state = new_pressure_state (pressure_config cfg);
  last_success_at = 0;
  ever_succeeded = false;
  last_sample = zero_sample;
  snap = zero_snapshot;
}

-- What the HTTP client made of one GET: no request, no response (a refused redirect is one), or a
-- status with the families that the text parser read from the body.
pub data ScrapeOutcome : Type 0 where
  no_request no_response : ScrapeOutcome
  response : ℕ → Option (Map MetricFamily) → ScrapeOutcome

unfoldable pub scrape : ℤ → ScrapeOutcome → Result ScrapeError KvSample
scrape wild no_request = err build_failed
scrape wild no_response = err transport_failed
scrape wild (response status families) =
    if not (status == 200) then err (unexpected_status status) else parse_kv_metrics wild families

-- The gauge and counter series, each keyed by its labels.
pub record Gauges : Type 0 where
  pub guard_engaged : Map Float
  pub cache_usage : Map Float
  pub waiting_requests : Map Float
  pub telemetry_fresh : Map Float
  pub scrape_errors : Map ℕ

-- A label tuple as one key: the separator is no code point, so no label holds it.
abbrev pub label_separator : Text
label_separator = 1114112 ∷ []

unfoldable pub labels2 : BackendRef → Text
labels2 r = r.namespace ++ (label_separator ++ r.name)

unfoldable pub labels3 : BackendRef → Text
labels3 r = r.namespace ++ (label_separator ++ (r.name ++ (label_separator ++ r.model)))

abbrev pub bool_to_float : Bool → Float
bool_to_float true = one
bool_to_float false = zero_f

unfoldable pub publish : BackendScraper → Gauges → Time → BackendScraper × Gauges
publish b g now =
    let fresh = b.ever_succeeded && leb_ℤ (since now b.last_success_at) b.cfg.max_staleness in
    (
      record b {
        snap = record {
          engaged = b.state.engaged;
          cache_usage = b.last_sample.cache_usage;
          waiting = b.last_sample.waiting;
          fresh = fresh;
        };
      },
      record g {
        guard_engaged = insert (labels3 b.ref) (bool_to_float b.state.engaged) g.guard_engaged;
        cache_usage = insert (labels3 b.ref) b.last_sample.cache_usage g.cache_usage;
        waiting_requests = insert (labels3 b.ref) (of_int b.last_sample.waiting) g.waiting_requests;
        telemetry_fresh = insert (labels2 b.ref) (bool_to_float fresh) g.telemetry_fresh;
      },
    )

abbrev pub or_zero : Option ℕ → ℕ
or_zero none = 0
or_zero (some n) = n

-- backendScrapeErrors.Inc().
count_scrape_error : BackendRef → Gauges → Gauges
count_scrape_error ref g = record g {
  scrape_errors =
      insert (labels2 ref) (or_zero (lookup (labels2 ref) g.scrape_errors) + 1) g.scrape_errors;
}

-- The state before a sample is fed in: a gap longer than the staleness bound clears the streaks.
abbrev pub ready_state : BackendScraper → Time → PressureState
ready_state b now =
    if b.ever_succeeded && ltb_ℤ b.cfg.max_staleness (since now b.last_success_at)
    then reset_consecutive b.state
    else b.state

-- The rest of a tick, from the outcome of the scrape on: a failure leaves the pressure state alone.
unfoldable pub finish_tick :
    BackendScraper → Gauges → Result ScrapeError KvSample → Time → BackendScraper × Gauges
unfolding count_scrape_error publish
finish_tick b g (err e) now = publish b (count_scrape_error b.ref g) now
finish_tick b g (ok sample) now =
    publish
      (record b {
        state = observe (ready_state b now) sample now;
        last_success_at = now;
        ever_succeeded = true;
        last_sample = sample;
      })
      g now

-- tick, with `wild` as in round_to_int.
unfoldable pub tick : ℤ → BackendScraper → Gauges → ScrapeOutcome → Time → BackendScraper × Gauges
unfolding scrape finish_tick
tick wild b g outcome now = finish_tick b g (scrape wild outcome) now
