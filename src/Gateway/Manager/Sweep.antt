-- ===== src/Gateway/Manager/Sweep.antt =====
-- What one pass of the janitor keeps and what it removes.
use gpu_platform_control_pla.Base.{
  ◌≡◌, refl, ◌∙◌, inl, inr, Bool, true, false, not, ◌&&◌, List, [], ◌∷◌, Option, none, some,
  if◌then◌else◌, arith, Option-cases,
}
use gpu_platform_control_pla.Base.Text.{Text, text_eq, text_eq_iff, text_eq_refl}
use gpu_platform_control_pla.Base.Maps.{
  lookup, keys, has_key, lookup-has_key, lookup-insert, lookup-erase,
}
use gpu_platform_control_pla.Base.Int.{ℤ, pos, ◌<ℤ◌}
use gpu_platform_control_pla.Base.Clock.{Time}
use gpu_platform_control_pla.Gateway.Types.{BackendRef, backend_key}
use gpu_platform_control_pla.Gateway.Scraper.{BackendScraper, new_backend_scraper}
use gpu_platform_control_pla.Gateway.Manager.{
  ScraperManager, register, evict, routed_after, sweep_keys, sweep, cutoff_at,
}

abbrev pub is_none {ℓ} : {A : Type ℓ} → Option A → Bool
is_none none = true
is_none (some a) = false

-- One key of the loop.
abbrev visit : ℤ → Text → ScraperManager → ScraperManager
visit cutoff key m = elim (lookup key m.scrapers) [
  | none ↦ m
  | some s ↦ if routed_after cutoff m.last_routed key then m else evict key s m
]

visit-scrapers :
    (cutoff : ℤ) (key k : Text) (m : ScraperManager)
    → lookup k (visit cutoff key m).scrapers ≡ (
        if text_eq key k && not (routed_after cutoff m.last_routed key)
        then none
        else lookup k m.scrapers)
unfolding evict
visit-scrapers cutoff key k m = ground (arith, text_eq_iff key k, lookup-erase key k m.scrapers)

visit-routed :
    (cutoff : ℤ) (key k : Text) (m : ScraperManager)
    → routed_after cutoff (visit cutoff key m).last_routed k ≡ routed_after cutoff m.last_routed k
unfolding evict routed_after
visit-routed cutoff key k m = ground (arith, text_eq_iff key k, lookup-erase key k m.last_routed)

sweep_keys-scrapers :
    (cutoff : ℤ) (js : List Text) (k : Text) (m : ScraperManager)
    → lookup k (sweep_keys cutoff js m).scrapers ≡ (
        if has_key k js && not (routed_after cutoff m.last_routed k)
        then none
        else lookup k m.scrapers)
unfolding sweep_keys has_key
sweep_keys-scrapers cutoff [] k m = refl
sweep_keys-scrapers cutoff (j ∷ js) k m =
    let ih = sweep_keys-scrapers cutoff js k (visit cutoff j m) in
    ih
    ∙ rw (visit-routed cutoff j k m, visit-scrapers cutoff j k m) (ground (arith, text_eq_iff j k))

-- A pass keeps a backend's scraper, unchanged, exactly when the backend was routed to after the
-- cutoff; any other scraper is gone after it.
lookup-sweep :
    (m : ScraperManager) (now : Time) (k : Text)
    → lookup k (sweep m now).scrapers
      ≡ (if routed_after (cutoff_at m.cfg now) m.last_routed k then lookup k m.scrapers else none)
unfolding sweep
lookup-sweep m now k =
    sweep_keys-scrapers (cutoff_at m.cfg now) (keys m.scrapers) k m
    ∙ ground (arith, lookup-has_key k m.scrapers)

pub register-scrapers :
    (m : ScraperManager) (b : BackendRef) (now : Time) (k : Text)
    → lookup k (register m b now).scrapers ≡ (
        if text_eq (backend_key b) k && (not m.stopped && is_none (lookup k m.scrapers))
        then some (new_backend_scraper b m.cfg)
        else lookup k m.scrapers)
unfolding register
register-scrapers m b now k = ground (
  arith,
  text_eq_iff (backend_key b) k,
  lookup-insert (backend_key b) k (new_backend_scraper b m.cfg) m.scrapers,
)

pub register-last_routed :
    (m : ScraperManager) (b : BackendRef) (now : Time) (k : Text)
    → lookup k (register m b now).last_routed
      ≡ (if text_eq (backend_key b) k && not m.stopped then some now else lookup k m.last_routed)
unfolding register
register-last_routed m b now k = ground (arith, lookup-insert (backend_key b) k now m.last_routed)

pub register-cfg :
    (m : ScraperManager) (b : BackendRef) (now : Time) → (register m b now).cfg ≡ m.cfg
unfolding register
register-cfg m b now = ground arith

register_found :
    (m : ScraperManager) (b : BackendRef) (now : Time)
    → m.stopped ≡ false
    → (s : BackendScraper) × (lookup (backend_key b) (register m b now).scrapers ≡ some s)
register_found m b now on = elim (Option-cases (lookup (backend_key b) m.scrapers)) [
  | inl e ↦ (
    new_backend_scraper b m.cfg,
    ground (arith, register-scrapers m b now (backend_key b), text_eq_refl (backend_key b)),
  )
  | inr (s, e) ↦ (s, ground (arith, register-scrapers m b now (backend_key b)))
]

-- In a manager that is not stopped, a backend that is routed to later than a pass's cutoff has a scraper
-- after the routing, and the pass that follows leaves that scraper where it is and as it is, whether
-- the request found it running or started it.
pub register-survives_sweep :
    (m : ScraperManager) (b : BackendRef) (routed now : Time)
    → m.stopped ≡ false
    → cutoff_at m.cfg now <ℤ pos routed
    → (s : BackendScraper) × (lookup (backend_key b) (register m b routed).scrapers ≡ some s)
      × (lookup (backend_key b) (sweep (register m b routed) now).scrapers ≡ some s)
register-survives_sweep m b routed now on recent =
    let (s, found) = register_found m b routed on in
    let key = backend_key b in
    let r = register m b routed in
    let after : routed_after (cutoff_at r.cfg now) r.last_routed key ≡ true =
      unfold routed_after in
      ground
        (arith, register-last_routed m b routed key, text_eq_refl key, register-cfg m b routed) in
    (s, found, lookup-sweep r now key ∙ rw after found)
