-- ===== src/Gateway/Admission.antt =====
-- The admitters of internal/gateway/admission.go and kvguard.go, and admitCandidates of server.go.
pub mod Guard
pub mod Cap
pub mod Candidates
use gpu_platform_control_pla.Base.{
  ℕ, ◌≡◌, Bool, true, false, not, ◌&&◌, List, [], ◌∷◌, Option, none, some, if◌then◌else◌,
}
use gpu_platform_control_pla.Base.Text.{Text, text, text_eq}
use gpu_platform_control_pla.Base.Maps.{Map, lookup, insert}
use gpu_platform_control_pla.Base.Int.{ℤ, pos, ltb_ℤ, leb_ℤ}
use gpu_platform_control_pla.Base.Float.{Float}
use gpu_platform_control_pla.Base.Clock.{Time}
use gpu_platform_control_pla.Gateway.Types.{
  BackendRef, backend_key, RequestMeta, Tier, premium, standard, is_standard, is_premium, Reason,
  input_rate_limit, backend_unregistered, telemetry_stale, not_engaged, premium_tier,
  below_threshold, admission_is_off, within_budget, input_exceeds_burst, kv_cache_pressure,
  no_reason, BackendState,
}
use gpu_platform_control_pla.Gateway.Scraper.{BackendSnapshot}
use gpu_platform_control_pla.Gateway.Manager.{ScraperManager, register, snapshot_for}
use gpu_platform_control_pla.Gateway.Limiter.{LimiterLib}

-- The annotations of a GPUQuotaPolicy; `none` is a nil policy.
unfoldable pub tier_annotation : Text
tier_annotation = text "platform.lkhun9311.github.io/tier"

-- A missing annotation reads as the empty text.
abbrev pub annotation : Option Text → Text
annotation none = []
annotation (some v) = v

unfoldable pub tier_for_policy : Option (Map Text) → Tier
tier_for_policy none = standard
tier_for_policy (some annotations) =
    if text_eq (annotation (lookup tier_annotation annotations)) (text "premium")
    then premium
    else standard

pub record Verdict : Type 0 where
  pub admitted : Bool
  pub reason : Reason

abbrev pub admit_with : Reason → Verdict
admit_with r = record { admitted = true; reason = r }

abbrev pub refuse_with : Reason → Verdict
refuse_with r = record { admitted = false; reason = r }

-- The kv-aware arm.
pub record KvAwareAdmitter : Type 0 where
  pub manager : ScraperManager
  pub long_threshold : ℤ

unfoldable pub register_backend : KvAwareAdmitter → BackendRef → Time → KvAwareAdmitter
register_backend a backend now = record a { manager = register a.manager backend now }

-- The decision on a snapshot.
unfoldable pub kv_decide : ℤ → RequestMeta → Tier → Option BackendSnapshot → Verdict
kv_decide threshold meta tier none = admit_with backend_unregistered
kv_decide threshold meta tier (some snap) =
    if not snap.fresh
    then admit_with telemetry_stale
    else if not snap.engaged
    then admit_with not_engaged
    else if is_premium tier
    then admit_with premium_tier
    else if leb_ℤ threshold (pos meta.est_input_tokens)
    then refuse_with kv_cache_pressure
    else admit_with below_threshold

unfoldable pub kv_admit : KvAwareAdmitter → RequestMeta → BackendRef → Tier → Verdict
unfolding kv_decide
kv_admit a meta backend tier =
    kv_decide a.long_threshold meta tier (snapshot_for a.manager (backend_key backend))

unfoldable pub observed : KvAwareAdmitter → BackendRef → Option BackendState
observed a backend = elim (snapshot_for a.manager (backend_key backend)) [
  | none ↦ none
  | some snap ↦ some (record {
    cache_usage = snap.cache_usage;
    waiting = snap.waiting;
    engaged = snap.engaged;
    fresh = snap.fresh;
  })
]

module _ (lib : LimiterLib) where
  open lib use {Limiter, new_limiter, allow_n}

  -- The static-cap arm.
  pub record StaticCapAdmitter : Type 0 where
    pub rate : Float
    pub burst : ℤ
    pub long_threshold : ℤ
    pub limiters : Map Limiter

  unfoldable pub new_static_cap_admitter : Float → ℤ → ℤ → StaticCapAdmitter
  new_static_cap_admitter tokens_per_sec burst long_threshold = record {
    rate = tokens_per_sec;
    burst = burst;
    long_threshold = long_threshold;
    limiters = [];
  }

  -- The bucket of a key, made full the first time the key is seen.
  unfoldable pub limiter_for : StaticCapAdmitter → Text → Limiter
  limiter_for a key = elim (lookup key a.limiters) [
    | some l ↦ l
    | none ↦ new_limiter a.rate a.burst
  ]

  unfoldable pub cap_admit :
      StaticCapAdmitter → Time → RequestMeta → BackendRef → Tier → Verdict × StaticCapAdmitter
  unfolding limiter_for
  cap_admit a now meta backend tier =
      let eligible = is_standard tier && leb_ℤ a.long_threshold (pos meta.est_input_tokens) in
      let key = backend_key backend in
      let answer = allow_n now meta.est_input_tokens (limiter_for a key) in
      if not eligible
      then (if not (is_standard tier)
          then (admit_with premium_tier, a)
          else (admit_with below_threshold, a))
      else if ltb_ℤ a.burst (pos meta.est_input_tokens)
      then (refuse_with input_exceeds_burst, a)
      else (
        if answer.0 then admit_with within_budget else refuse_with input_rate_limit,
        record a { limiters = insert key answer.1 a.limiters },
      )

  -- What SetAdmitter installs.
  pub data Admitter : Type 0 where
    off : Admitter
    static_cap : StaticCapAdmitter → Admitter
    kv_aware : KvAwareAdmitter → Admitter

-- The registration loop of admitCandidates.
unfoldable pub register_all : KvAwareAdmitter → List BackendRef → Time → KvAwareAdmitter
unfolding register_backend
register_all a [] now = a
register_all a (t ∷ ts) now = register_all (register_backend a t now) ts now

-- The loop over the candidates of a stateless admitter: one dissent refuses.
unfoldable pub ask_all : KvAwareAdmitter → RequestMeta → List BackendRef → Tier → Verdict
unfolding kv_admit
ask_all a meta [] tier = admit_with no_reason
ask_all a meta (t ∷ ts) tier =
    let rest = ask_all a meta ts tier in
    if not (kv_admit a meta t tier).admitted
    then refuse_with (kv_admit a meta t tier).reason
    else rest

module _ (lib : LimiterLib) where
  -- A stateful admitter is asked once, about the head. Routing gives at least one candidate; with
  -- none `targets[0]` panics, which is the last clause.
  unfoldable pub admit_candidates :
      Admitter lib → Time → RequestMeta → List BackendRef → Tier → Option (Verdict × Admitter lib)
  unfolding cap_admit register_all ask_all
  admit_candidates (kv_aware a) now meta targets tier =
      let a' = register_all a targets now in some (ask_all a' meta targets tier, kv_aware a')
  admit_candidates off now meta (t ∷ ts) tier = some (admit_with admission_is_off, off)
  admit_candidates (static_cap a) now meta (t ∷ ts) tier =
      let (v, a') = cap_admit lib a now meta t tier in some (v, static_cap a')
  admit_candidates _ now meta [] tier = none
