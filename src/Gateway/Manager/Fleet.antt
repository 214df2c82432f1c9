-- ===== src/Gateway/Manager/Fleet.antt =====
-- The scraper manager with the calls of Unregister and Stop that are under way
-- (internal/gateway/kvguard.go): both unlock before they wait for a scraper's goroutine to exit, and
-- until then it goes on with its rounds.
use gpu_platform_control_pla.Base.{Bool, true, false, not, ◌&&◌, [], none, some, if◌then◌else◌}
use gpu_platform_control_pla.Base.Text.{Text}
use gpu_platform_control_pla.Base.Maps.{Map, lookup, insert, erase}
use gpu_platform_control_pla.Base.Int.{ℤ}
use gpu_platform_control_pla.Base.Clock.{Time}
use gpu_platform_control_pla.Gateway.Types.{BackendRef, backend_key}
use gpu_platform_control_pla.Gateway.Scraper.{ScraperConfig, BackendScraper, ScrapeOutcome, tick}
use gpu_platform_control_pla.Gateway.Manager.{
  ScraperManager, new_scraper_manager, delete_backend_gauges, cutoff_at, routed_after, take_key,
  mark_stopped, take_all,
}

-- A call of Unregister, or an eviction of a sweep, that has taken its scraper out of the map.
pub record Departure : Type 0 where
  pub backend : BackendRef
  pub scraper : BackendScraper
  -- The scraper's goroutine has not exited.
  pub running : Bool

pub record Fleet : Type 0 where
  pub manager : ScraperManager
  pub departures : Map Departure  -- by the call
  pub closing : Map BackendScraper  -- what Stop took and has not stopped yet
  pub emptied : Bool  -- Stop has emptied the map

unfoldable pub new_fleet : ScraperConfig → Fleet
unfolding new_scraper_manager
new_fleet cfg = record {
  manager = new_scraper_manager cfg;
  departures = [];
  closing = [];
  emptied = false;
}

-- Unregister up to its unlock.
unfoldable pub unregister_takes : Text → BackendRef → Fleet → Fleet
unfolding take_key
unregister_takes call backend f =
    let key = backend_key backend in
    elim (lookup key f.manager.scrapers) [
      | none ↦ f
      | some s ↦ record f {
        manager = take_key key f.manager;
        departures =
            insert call (record { backend = backend; scraper = s; running = true }) f.departures;
      }
    ]

-- An eviction of a sweep up to s.Stop: like Unregister's, with the scraper's own backend.
unfoldable pub sweep_takes : Text → Text → Time → Fleet → Fleet
unfolding take_key routed_after
sweep_takes call key now f = elim (lookup key f.manager.scrapers) [
  | none ↦ f
  | some s ↦
      if routed_after (cutoff_at f.manager.cfg now) f.manager.last_routed key then f else record f {
        manager = take_key key f.manager;
        departures =
            insert call (record { backend = s.ref; scraper = s; running = true }) f.departures;
      }
]

-- s.Stop returns: the goroutine has exited.
unfoldable pub unregister_waits : Text → Fleet → Fleet
unregister_waits call f = elim (lookup call f.departures) [
  | none ↦ f
  | some d ↦ record f { departures = insert call (record d { running = false }) f.departures }
]

-- The end of Unregister.
unfoldable pub unregister_ends : Text → Fleet → Fleet
unregister_ends call f = elim (lookup call f.departures) [
  | none ↦ f
  | some d ↦ if d.running then f else record f {
    manager = record (f.manager) { gauges = delete_backend_gauges d.backend f.manager.gauges };
    departures = erase call f.departures;
  }
]

-- A round of a scraper that an Unregister waits for.
unfoldable pub tick_departing : ℤ → Text → ScrapeOutcome → Time → Fleet → Fleet
tick_departing wild call outcome now f = elim (lookup call f.departures) [
  | none ↦ f
  | some d ↦
      let after = tick wild d.scraper f.manager.gauges outcome now in
      if d.running
      then record f {
        manager = record (f.manager) { gauges = after.1 };
        departures = insert call (record d { scraper = after.0 }) f.departures;
      }
      else f
]

-- Stop up to its first unlock; a second call of Stop returns there.
unfoldable pub stop_marks : Fleet → Fleet
unfolding mark_stopped
stop_marks f = record f { manager = mark_stopped f.manager }

-- Stop's second section, once the janitor has gone: only the call that marked the manager gets there.
unfoldable pub stop_empties : Fleet → Fleet
unfolding take_all
stop_empties f =
    if f.manager.stopped && not f.emptied
    then record f { manager = take_all f.manager; closing = f.manager.scrapers; emptied = true }
    else f

-- One of the scrapers that Stop stops has exited.
unfoldable pub stop_waits : Text → Fleet → Fleet
stop_waits key f = record f { closing = erase key f.closing }

-- A round of a scraper that Stop has taken and not stopped yet.
unfoldable pub tick_closing : ℤ → Text → ScrapeOutcome → Time → Fleet → Fleet
tick_closing wild key outcome now f = elim (lookup key f.closing) [
  | none ↦ f
  | some s ↦
      let after = tick wild s f.manager.gauges outcome now in
      record f {
        manager = record (f.manager) { gauges = after.1 };
        closing = insert key after.0 f.closing;
      }
]
