-- ===== src/Gateway/Manager/States.antt =====
-- The fleet's steps, its reachable states, and the invariant.
use gpu_platform_control_pla.Base.{◌≡◌, ◌⊎◌, true, false, none, some}
use gpu_platform_control_pla.Base.Text.{Text}
use gpu_platform_control_pla.Base.Maps.{Map, lookup}
use gpu_platform_control_pla.Base.Int.{ℤ}
use gpu_platform_control_pla.Base.Float.{Float}
use gpu_platform_control_pla.Base.Clock.{Time}
use gpu_platform_control_pla.Gateway.Types.{BackendRef, backend_key}
use gpu_platform_control_pla.Gateway.Scraper.{BackendScraper, ScrapeOutcome, labels3}
use gpu_platform_control_pla.Gateway.Manager.{register, sweep, tick_for}
use gpu_platform_control_pla.Gateway.Manager.Fleet.{
  Departure, Fleet, sweep_takes, unregister_takes, unregister_waits, unregister_ends,
  tick_departing, stop_marks, stop_empties, stop_waits, tick_closing,
}

-- The sections of the operations and the scrapers' rounds. A call of Unregister is new when it takes
-- its scraper, and it is given the backend that the scraper was started for, up to the address.
pub data Step (f : Fleet) : Fleet → Type 0 where
  registered :
      (b : BackendRef) (now : Time) → Step f (record f { manager = register f.manager b now })
  swept : (now : Time) → Step f (record f { manager = sweep f.manager now })
  -- An eviction of a sweep by its parts, since the scrapers' rounds take no lock; its wait and its end
  -- are those of Unregister.
  sweep_took :
      (call key : Text) (now : Time)
      → lookup call f.departures ≡ none
      → Step f (sweep_takes call key now f)
  ticked :
      (wild : ℤ) (key : Text) (outcome : ScrapeOutcome) (now : Time)
      → Step f (record f { manager = tick_for wild f.manager key outcome now })
  unregister_took :
      (call : Text) (b : BackendRef)
      → lookup call f.departures ≡ none
      → ((s : BackendScraper)
          → lookup (backend_key b) f.manager.scrapers ≡ some s
          → labels3 s.ref ≡ labels3 b)
      → Step f (unregister_takes call b f)
  unregister_waited : (call : Text) → Step f (unregister_waits call f)
  unregister_ended : (call : Text) → Step f (unregister_ends call f)
  departing_ticked :
      (wild : ℤ) (call : Text) (outcome : ScrapeOutcome) (now : Time)
      → Step f (tick_departing wild call outcome now f)
  stop_marked : Step f (stop_marks f)
  stop_emptied : Step f (stop_empties f)
  stop_waited : (key : Text) → Step f (stop_waits key f)
  closing_ticked :
      (wild : ℤ) (key : Text) (outcome : ScrapeOutcome) (now : Time)
      → Step f (tick_closing wild key outcome now f)

pub data Reach (f : Fleet) : Fleet → Type 0 where
  here : Reach f f
  next : {g h : Fleet} → Reach f g → Step g h → Reach f h

-- Whose gauges are shown under a label: a scraper of the map's, or one that an Unregister or a sweep has taken and
-- whose gauges it is still to delete.
abbrev pub Owner : Map BackendScraper → Map Departure → Text → Type 0
Owner scrapers departures l =
    ((k : Text) × (s : BackendScraper) × (lookup k scrapers ≡ some s) × (labels3 s.ref ≡ l))
    ⊎ ((call : Text) × (d : Departure) × (lookup call departures ≡ some d)
        × (labels3 d.scraper.ref ≡ l))

pub record Inv (f : Fleet) : Type 0 where
  -- A scraper is filed under its backend's key.
  pub filed :
      (k : Text) (s : BackendScraper) → lookup k f.manager.scrapers ≡ some s → backend_key s.ref ≡ k
  -- A scraper's backend has been routed to.
  pub routed :
      (k : Text) (s : BackendScraper)
      → lookup k f.manager.scrapers ≡ some s
      → (t : Time) × (lookup k f.manager.last_routed ≡ some t)
  -- An Unregister or a sweep deletes the gauges of the scraper that it took.
  pub departing :
      (call : Text) (d : Departure)
      → lookup call f.departures ≡ some d
      → labels3 d.scraper.ref ≡ labels3 d.backend
  -- Once Stop has emptied the map, the manager is stopped and no scraper is in the map.
  pub closed :
      f.emptied ≡ true
      → (f.manager.stopped ≡ true) × ((k : Text) → lookup k f.manager.scrapers ≡ none)
  -- Until then Stop has taken no scraper.
  pub untaken : f.emptied ≡ false → (k : Text) → lookup k f.closing ≡ none
  -- Until then a pressure gauge has an owner.
  pub gauged :
      f.emptied ≡ false
      → (l : Text) (x : Float) → lookup l f.manager.gauges.guard_engaged ≡ some x
      → Owner f.manager.scrapers f.departures l
