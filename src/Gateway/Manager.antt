-- ===== src/Gateway/Manager.antt =====
-- The scraper manager of internal/gateway/kvguard.go. An operation here is one section under the
-- manager's lock; Unregister and Stop, which unlock in between, are composed of theirs in Fleet. A sweep
-- holds the lock while it waits for a scraper to exit and deletes its gauges.
pub mod Sweep
pub mod Fleet
pub mod States
pub mod Removal
pub mod Departures
pub mod Rounds
pub mod Invariant
use gpu_platform_control_pla.Base.{
  ℕ, ◌+◌, ◌≡◌, Bool, true, false, not, ◌&&◌, List, [], ◌∷◌, Option, none, some, if◌then◌else◌,
}
use gpu_platform_control_pla.Base.Text.{Text}
use gpu_platform_control_pla.Base.Maps.{Map, lookup, insert, erase, keys}
use gpu_platform_control_pla.Base.Int.{ℤ, pos, sub_ℕ, ltb_ℤ, leb_ℤ, pos_part, neg_part}
use gpu_platform_control_pla.Base.Clock.{Time, Duration, times_ten}
use gpu_platform_control_pla.Gateway.Types.{BackendRef, backend_key}
use gpu_platform_control_pla.Gateway.Scraper.{
  ScraperConfig, BackendSnapshot, BackendScraper, ScrapeOutcome, Gauges, labels2, labels3,
  new_backend_scraper, tick,
}

pub record ScraperManager : Type 0 where
  pub cfg : ScraperConfig
  pub scrapers : Map BackendScraper
  pub last_routed : Map Time
  pub stopped : Bool
  pub gauges : Gauges

-- 15 minutes.
abbrev pub default_scraper_idle_timeout : Duration
default_scraper_idle_timeout = pos 900000000000

-- The idle timeout that a manager runs with.
unfoldable pub settled_idle_timeout : ScraperConfig → Duration
settled_idle_timeout cfg =
    let first =
      if leb_ℤ cfg.idle_timeout (pos 0) then times_ten cfg.scrape_interval else cfg.idle_timeout in
    if leb_ℤ first (pos 0) then default_scraper_idle_timeout else first

abbrev pub no_gauges : Gauges
no_gauges = record {
  guard_engaged = [];
  cache_usage = [];
  waiting_requests = [];
  telemetry_fresh = [];
  scrape_errors = [];
}

unfoldable pub new_scraper_manager : ScraperConfig → ScraperManager
unfolding settled_idle_timeout
new_scraper_manager cfg = record {
  cfg = record cfg { idle_timeout = settled_idle_timeout cfg };
  scrapers = [];
  last_routed = [];
  stopped = false;
  gauges = no_gauges;
}

-- The error counter is left: it says what the backend did, not how it is.
unfoldable pub delete_backend_gauges : BackendRef → Gauges → Gauges
delete_backend_gauges ref g = record g {
  guard_engaged = erase (labels3 ref) g.guard_engaged;
  cache_usage = erase (labels3 ref) g.cache_usage;
  waiting_requests = erase (labels3 ref) g.waiting_requests;
  telemetry_fresh = erase (labels2 ref) g.telemetry_fresh;
}

unfoldable pub register : ScraperManager → BackendRef → Time → ScraperManager
register m backend now =
    let key = backend_key backend in
    let stamped = record m { last_routed = insert key now m.last_routed } in
    if m.stopped then m else elim (lookup key m.scrapers) [
      | some s ↦ stamped
      | none ↦ record stamped {
        scrapers = insert key (new_backend_scraper backend m.cfg) m.scrapers;
      }
    ]

-- The locked section of Unregister on a key that has a scraper.
unfoldable pub take_key : Text → ScraperManager → ScraperManager
take_key key m = record m { scrapers = erase key m.scrapers; last_routed = erase key m.last_routed }

-- The key was handed to Register after the cutoff.
unfoldable pub routed_after : ℤ → Map Time → Text → Bool
routed_after cutoff routed key = elim (lookup key routed) [
  | none ↦ false
  | some at ↦ ltb_ℤ cutoff (pos at)
]

unfoldable pub evict : Text → BackendScraper → ScraperManager → ScraperManager
evict key s m = record m {
  scrapers = erase key m.scrapers;
  last_routed = erase key m.last_routed;
  gauges = delete_backend_gauges s.ref m.gauges;
}

-- The loop of sweep over the keys of the map; a key that has gone is not produced.
unfoldable pub sweep_keys : ℤ → List Text → ScraperManager → ScraperManager
unfolding routed_after evict
sweep_keys cutoff [] m = m
sweep_keys cutoff (key ∷ rest) m = sweep_keys cutoff rest (elim (lookup key m.scrapers) [
  | none ↦ m
  | some s ↦ if routed_after cutoff m.last_routed key then m else evict key s m
])

-- clock().Add(-idleTimeout).
abbrev pub cutoff_at : ScraperConfig → Time → ℤ
cutoff_at cfg now = sub_ℕ (now + neg_part cfg.idle_timeout) (pos_part cfg.idle_timeout)

unfoldable pub sweep : ScraperManager → Time → ScraperManager
unfolding sweep_keys
sweep m now = sweep_keys (cutoff_at m.cfg now) (keys m.scrapers) m

-- The two locked sections of Stop.
unfoldable pub mark_stopped : ScraperManager → ScraperManager
mark_stopped m = record m { stopped = true }

unfoldable pub take_all : ScraperManager → ScraperManager
take_all m = record m { scrapers = []; last_routed = [] }

unfoldable pub snapshot_for : ScraperManager → Text → Option BackendSnapshot
snapshot_for m key = elim (lookup key m.scrapers) [ none ↦ none | some s ↦ some s.snap ]

-- One round of the scraper that runs for a key, in its own goroutine.
unfoldable pub tick_for : ℤ → ScraperManager → Text → ScrapeOutcome → Time → ScraperManager
tick_for wild m key outcome now = elim (lookup key m.scrapers) [
  | none ↦ m
  | some s ↦
      let after = tick wild s m.gauges outcome now in
      record m { scrapers = insert key after.0 m.scrapers; gauges = after.1 }
]
