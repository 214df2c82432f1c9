-- ===== src/Gateway/Admission/Guard.antt =====
-- What the kv-aware arm refuses, and what it lets through when it cannot see.
use gpu_platform_control_pla.Base.{
  ◌≡◌, refl, ap, ◌⊎◌, inl, inr, ◌↔◌, true, false, Option, none, some, arith,
}
use gpu_platform_control_pla.Base.Text.{Text, text_eq_refl}
use gpu_platform_control_pla.Base.Maps.{lookup, lookup-insert}
use gpu_platform_control_pla.Base.Int.{ℤ, pos, ◌≤ℤ◌, ◌<ℤ◌, leb_ℤ}
use gpu_platform_control_pla.Base.Results.{err}
use gpu_platform_control_pla.Base.Clock.{Time, since}
use gpu_platform_control_pla.Gateway.Types.{
  BackendRef, backend_key, RequestMeta, Tier, standard, telemetry_stale, kv_cache_pressure,
}
use gpu_platform_control_pla.Gateway.Exposition.{ScrapeError}
use gpu_platform_control_pla.Gateway.Scraper.{
  BackendSnapshot, BackendScraper, ScrapeOutcome, Gauges, finish_tick, scrape, tick,
}
use gpu_platform_control_pla.Gateway.Manager.{ScraperManager, snapshot_for, tick_for}
use gpu_platform_control_pla.Gateway.Admission.{
  Verdict, admit_with, refuse_with, KvAwareAdmitter, kv_decide, kv_admit,
}

decide_refuses :
    (threshold : ℤ) (meta : RequestMeta) (tier : Tier) (o : Option BackendSnapshot)
    → (kv_decide threshold meta tier o ≡ refuse_with kv_cache_pressure) ↔ (
        (snap : BackendSnapshot) × (o ≡ some snap)
        × (snap.fresh ≡ true)
        × (snap.engaged ≡ true)
        × (tier ≡ standard)
        × (threshold ≤ℤ pos meta.est_input_tokens))
unfolding kv_decide
decide_refuses threshold meta tier none = (λ h. absurd (cc), λ h. absurd (ground arith))
decide_refuses threshold meta tier (some snap) = (
  (λ h. (snap, refl, ground arith, ground arith, ground arith, ground arith)),
  (λ h. ground arith),
)

decide_admits :
    (threshold : ℤ) (meta : RequestMeta) (tier : Tier) (o : Option BackendSnapshot)
    → ((kv_decide threshold meta tier o).admitted ≡ false)
      ↔ (kv_decide threshold meta tier o ≡ refuse_with kv_cache_pressure)
unfolding kv_decide
decide_admits threshold meta tier none = (λ h. absurd (cc), λ h. absurd (cc))
decide_admits threshold meta tier (some snap) = ground arith

-- The kv-aware arm refuses a request exactly when its backend's published snapshot is fresh and
-- engaged, the tenant is of the standard tier, and the estimated input reaches the threshold; and
-- each refusal gives kv_cache_pressure as its reason.
pub kv_refuses_iff :
    (a : KvAwareAdmitter) (meta : RequestMeta) (backend : BackendRef) (tier : Tier)
    → (((kv_admit a meta backend tier).admitted ≡ false) ↔ (
        (snap : BackendSnapshot) × (snapshot_for a.manager (backend_key backend) ≡ some snap)
        × (snap.fresh ≡ true)
        × (snap.engaged ≡ true)
        × (tier ≡ standard)
        × (a.long_threshold ≤ℤ pos meta.est_input_tokens)))
      × ((kv_admit a meta backend tier).admitted ≡ false
          → (kv_admit a meta backend tier).reason ≡ kv_cache_pressure)
unfolding kv_admit
kv_refuses_iff a meta backend tier =
    let o = snapshot_for a.manager (backend_key backend) in
    let says = decide_admits a.long_threshold meta tier o in
    let means = decide_refuses a.long_threshold meta tier o in
    (
      ((λ h. means.0 (says.0 h)), (λ h. says.1 (means.1 h))),
      (λ h. ap (λ (v : Verdict). v.reason) (says.0 h)),
    )

failed-fresh :
    (s : BackendScraper) (g : Gauges) (e : ScrapeError) (now : Time)
    → (s.ever_succeeded ≡ false) ⊎ (s.cfg.max_staleness <ℤ since now s.last_success_at)
    → (finish_tick s g (err e) now).0.snap.fresh ≡ false
unfolding finish_tick
failed-fresh s g e now (inl h) = ground arith
failed-fresh s g e now (inr h) =
    let late : leb_ℤ (since now s.last_success_at) s.cfg.max_staleness ≡ false = ground arith in
    ground arith

tick_for-snapshot :
    (wild : ℤ) (m : ScraperManager) (key : Text) (s : BackendScraper) (o : ScrapeOutcome)
    (now : Time)
    → lookup key m.scrapers ≡ some s
    → snapshot_for (tick_for wild m key o now) key ≡ some (tick wild s m.gauges o now).0.snap
unfolding tick_for snapshot_for
tick_for-snapshot wild m key s o now h =
    ground
      (arith, lookup-insert key key (tick wild s m.gauges o now).0 m.scrapers, text_eq_refl key)

-- A guard that cannot see lets everything through: after a failed scrape of a backend that never
-- answered, or whose last answer is older than the staleness bound, every request to it is admitted
-- as telemetry_stale, also where the guard was engaged.
pub blind_admits :
    (wild : ℤ) (a : KvAwareAdmitter) (b : BackendRef) (s : BackendScraper) (o : ScrapeOutcome)
    (e : ScrapeError) (now : Time) (meta : RequestMeta) (tier : Tier)
    → lookup (backend_key b) a.manager.scrapers ≡ some s
    → scrape wild o ≡ err e
    → (s.ever_succeeded ≡ false) ⊎ (s.cfg.max_staleness <ℤ since now s.last_success_at)
    → kv_admit (record a { manager = tick_for wild a.manager (backend_key b) o now }) meta b tier
      ≡ admit_with telemetry_stale
unfolding kv_admit
blind_admits wild a b s o e now meta tier found failed stale =
    let unread : (tick wild s a.manager.gauges o now).0.snap.fresh ≡ false =
      unfold tick in rw failed (failed-fresh s a.manager.gauges e now stale) in
    rw (tick_for-snapshot wild a.manager (backend_key b) s o now found)
      (unfold kv_decide in ground arith)
