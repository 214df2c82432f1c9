-- ===== src/Gateway/Admission/Candidates.antt =====
-- The kv-aware arm asked about every backend that a request could reach.
use gpu_platform_control_pla.Base.{
  ◌≡◌, refl, ◌∙◌, inl, inr, ◌↔◌, true, false, List, [], ◌∷◌, some, arith, All, Option-cases,
}
use gpu_platform_control_pla.Base.Text.{Text, text_eq_refl}
use gpu_platform_control_pla.Base.Maps.{lookup}
use gpu_platform_control_pla.Base.Clock.{Time}
use gpu_platform_control_pla.Gateway.Types.{BackendRef, backend_key, RequestMeta, Tier, no_reason}
use gpu_platform_control_pla.Gateway.Scraper.{BackendScraper, new_backend_scraper}
use gpu_platform_control_pla.Gateway.Manager.{ScraperManager, register}
use gpu_platform_control_pla.Gateway.Manager.Sweep.{register-scrapers}
use gpu_platform_control_pla.Gateway.Limiter.{LimiterLib}
use gpu_platform_control_pla.Gateway.Admission.{
  Verdict, KvAwareAdmitter, kv_admit, register_backend, register_all, ask_all, Admitter, kv_aware,
  admit_candidates,
}

ask_all_iff :
    (a : KvAwareAdmitter) (meta : RequestMeta) (ts : List BackendRef) (tier : Tier)
    → ((ask_all a meta ts tier).admitted ≡ true)
      ↔ All (λ t. (kv_admit a meta t tier).admitted ≡ true) ts
unfolding ask_all
ask_all_iff a meta [] tier = (λ h. tt, λ h. refl)
ask_all_iff a meta (t ∷ ts) tier = ground (arith, ask_all_iff a meta ts tier)

ask_all-reason :
    (a : KvAwareAdmitter) (meta : RequestMeta) (ts : List BackendRef) (tier : Tier)
    → (ask_all a meta ts tier).admitted ≡ true
    → (ask_all a meta ts tier).reason ≡ no_reason
unfolding ask_all
ask_all-reason a meta [] tier h = refl
ask_all-reason a meta (t ∷ ts) tier h = ground (arith, ask_all-reason a meta ts tier)

register-stopped :
    (m : ScraperManager) (b : BackendRef) (now : Time) → (register m b now).stopped ≡ m.stopped
unfolding register
register-stopped m b now = ground arith

register_all-keeps :
    (a : KvAwareAdmitter) (ts : List BackendRef) (now : Time) (k : Text) {s : BackendScraper}
    → lookup k a.manager.scrapers ≡ some s
    → lookup k (register_all a ts now).manager.scrapers ≡ some s
unfolding register_all register_backend
register_all-keeps a [] now k h = h
register_all-keeps a (t ∷ ts) now k h =
    register_all-keeps (register_backend a t now) ts now k
      (ground (arith, register-scrapers a.manager t now k))

register_all-found :
    (a : KvAwareAdmitter) (ts : List BackendRef) (now : Time)
    → a.manager.stopped ≡ false
    → All
        (λ t.
          (s : BackendScraper) × (lookup (backend_key t) (register_all a ts now).manager.scrapers
            ≡ some s))
        ts
unfolding register_all register_backend
register_all-found a [] now on = tt
register_all-found a (t ∷ ts) now on = (
  elim (Option-cases (lookup (backend_key t) a.manager.scrapers)) [
    | inr (s, e) ↦ (
      s,
      register_all-keeps (register_backend a t now) ts now (backend_key t)
          (ground (arith, register-scrapers a.manager t now (backend_key t))),
    )
    | inl e ↦ (
      new_backend_scraper t a.manager.cfg,
      register_all-keeps (register_backend a t now) ts now (backend_key t) (
          ground (
            arith,
            register-scrapers a.manager t now (backend_key t),
            text_eq_refl (backend_key t),
          )),
    )
  ],
  register_all-found (register_backend a t now) ts now (register-stopped a.manager t now ∙ on),
)

-- In front of a running manager the kv-aware arm admits a request exactly when each backend that
-- the request could reach would take it, by the telemetry that the manager holds once all of them
-- are registered; and each of them then has a scraper.
pub candidates_agree :
    (lib : LimiterLib) (a : KvAwareAdmitter) (now : Time) (meta : RequestMeta)
    (targets : List BackendRef) (tier : Tier)
    → a.manager.stopped ≡ false
    → (v : Verdict) × (a' : KvAwareAdmitter) × (admit_candidates lib
          (kv_aware a)
          now
          meta
          targets
          tier
        ≡ some (v, kv_aware a'))
      × ((v.admitted ≡ true) ↔ All (λ t. (kv_admit a' meta t tier).admitted ≡ true) targets)
      × All
          (λ t. (s : BackendScraper) × (lookup (backend_key t) a'.manager.scrapers ≡ some s))
          targets
candidates_agree lib a now meta targets tier on =
    let a' = register_all a targets now in
    (
      ask_all a' meta targets tier,
      a',
      unfold admit_candidates in refl,
      ask_all_iff a' meta targets tier,
      register_all-found a targets now on,
    )

-- An admission by the kv-aware arm carries no reason: not_engaged, premium_tier, below_threshold
-- and the two bypasses, backend_unregistered and telemetry_stale, are all dropped.
pub admission_drops_reason :
    (lib : LimiterLib) (a : KvAwareAdmitter) (now : Time) (meta : RequestMeta)
    (targets : List BackendRef) (tier : Tier) {v : Verdict} {b : Admitter lib}
    → admit_candidates lib (kv_aware a) now meta targets tier ≡ some (v, b)
    → v.admitted ≡ true
    → v.reason ≡ no_reason
unfolding admit_candidates
admission_drops_reason lib a now meta targets tier h admitted =
    ground (arith, ask_all-reason (register_all a targets now) meta targets tier)
