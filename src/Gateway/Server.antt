-- ===== src/Gateway/Server.antt =====
-- The request path of internal/gateway/server.go: chatCompletions, stage by stage, and the
-- composition of the admitter in cmd/gateway/main.go.
pub mod Accounting
pub mod Answered
pub mod Charging
pub mod Silence
pub mod Status
use gpu_platform_control_pla.Base.{
  ℕ, ◌≡◌, Bool, true, false, not, ◌&&◌, ◌||◌, List, [], ◌∷◌, ◌++◌, map, Option, none, some, ltb,
  leb, ◌==◌, if◌then◌else◌,
}
use gpu_platform_control_pla.Base.Text.{Text, text, text_eq}
use gpu_platform_control_pla.Base.Maps.{Map}
use gpu_platform_control_pla.Base.Results.{Result, ok, err}
use gpu_platform_control_pla.Base.Clock.{Time}
use gpu_platform_control_pla.Gateway.Types.{
  BackendRef, RequestMeta, AdmissionMode, admission_off, Tier, Reason, input_exceeds_burst,
  no_reason, BackendState,
}
use gpu_platform_control_pla.Gateway.Limiter.{LimiterLib}
use gpu_platform_control_pla.Gateway.Policy.{
  QuotaPolicy, PolicyResult, policy_for_tenant, list_failed, no_policy, found, failed,
  BucketRegistry, configured, allow,
}
use gpu_platform_control_pla.Gateway.Tenant.{
  TenantResult, resolve_tenant, tenant_is, unauthorized, key_store_unavailable,
}
use gpu_platform_control_pla.Gateway.Body.{
  Buffered, read_request_meta, BodyError, too_large, not_read, no_model,
}
use gpu_platform_control_pla.Gateway.Router.{
  InferenceDeployment, backends_for, RouteResult, backends, no_route,
}
use gpu_platform_control_pla.Gateway.Router
use gpu_platform_control_pla.Gateway.Admission.{
  tier_for_policy, Verdict, Admitter, off, static_cap, kv_aware, admit_candidates, KvAwareAdmitter,
  observed,
}
use gpu_platform_control_pla.Gateway.Writer.{Headers, set_header, StatusRecorder}
use gpu_platform_control_pla.Gateway.Forward.{
  Attempt, Forwarded, cap_backend_attempts, try_backends,
}
use gpu_platform_control_pla.Gateway.Reply.{
  Event, requests, rate_limited, admission_decisions, admission_input_tokens, upstream_errors,
  backend_fallbacks, Told, forwarded, fail, fail_unresolved_model, fail_reason, reason_text,
  tier_text, format_backend_state,
}
use gpu_platform_control_pla.Gateway.Stages.{
  Cluster, Request, on_tenant, authenticate, on_policy, find_policy, on_body, read_body, on_route,
  resolve_targets, last_failure, settled_code, fresh_recorder, proxy_stage, first_observed,
  set_reason, set_state, settled_mode, refuse, admission_events, served_or_refused, after,
}

module _ (lib : LimiterLib) where
  pub record Gateway : Type 0 where
    pub buckets : BucketRegistry lib
    pub admitter : Option (Admitter lib)
    pub mode : AdmissionMode
    pub report_backend_state : Bool
    pub ready : Bool  -- the cache has synced

  -- The setters that cmd/gateway/main.go calls while it assembles the server.
  unfoldable pub init_rate_limiter : Gateway → Gateway
  init_rate_limiter g = record g { buckets = some [] }

  unfoldable pub set_report_backend_state : Bool → Gateway → Gateway
  set_report_backend_state on g = record g { report_backend_state = on }

  -- The gauge of the active mode is left out.
  unfoldable pub set_admitter : AdmissionMode → Admitter lib → Gateway → Gateway
  set_admitter mode a g = record g { mode = mode; admitter = some a }

  unfoldable pub mark_ready : Gateway → Gateway
  mark_ready g = record g { ready = true }

  -- The status of the readiness probe.
  unfoldable pub readyz : Gateway → ℕ
  readyz g = if not g.ready then 503 else 200

  -- Stage 4: a refusal where there is one, and the registry.
  unfoldable pub take_token :
      BucketRegistry lib → Text → QuotaPolicy → Time → Headers → Option Told × BucketRegistry lib
  unfolding configured allow fail after
  take_token buckets tenant policy now h =
      let (allowed, buckets') = allow lib buckets tenant policy.rate_limit now in
      if not (configured lib buckets)
      then (some (fail h tenant [] 503), buckets)
      else if allowed
      then (none, buckets')
      else (some (after (rate_limited tenant ∷ []) (fail h tenant [] 429)), buckets')

  abbrev pub or_off : Option (Admitter lib) → Admitter lib
  or_off none = off
  or_off (some a) = a

  -- The observer part of stage 7: only the kv-aware admitter has readings.
  unfoldable pub reported : Bool → Admitter lib → List BackendRef → Option BackendState
  unfolding first_observed
  reported false a targets = none
  reported true off targets = none
  reported true (static_cap a) targets = none
  reported true (kv_aware a) targets = first_observed a targets

  -- A gateway without an admitter keeps none.
  abbrev pub keep_admitter : Option (Admitter lib) → Admitter lib → Option (Admitter lib)
  keep_admitter none a = none
  keep_admitter (some _) a = some a

  -- The headers that tell the decision.
  unfoldable pub decided_headers :
      Gateway → Tier → Verdict → Admitter lib → List BackendRef → Headers → Headers
  unfolding reported
  decided_headers g tier v a targets h =
      let tiered = set_header (text "X-Admission-Tier") (tier_text tier) h in
      let reasoned = set_reason (reason_text v.reason) tiered in
      set_state (reported g.report_backend_state a targets) reasoned

  -- Stage 7 from the verdict on, and stage 8.
  unfoldable pub on_verdict :
      Gateway
      → Text
      → Tier
      → RequestMeta
      → List BackendRef
      → (BackendRef → Attempt)
      → Headers
      → Option (Verdict × Admitter lib)
      → Option (Told × Gateway)
  unfolding decided_headers served_or_refused admission_events after
  on_verdict g tenant tier meta targets upstream h none = none
  on_verdict g tenant tier meta targets upstream h (some (v, a)) =
      let h' = decided_headers g tier v a targets h in
      let told = served_or_refused v h' tenant meta.model (map upstream targets) in
      some (
        after (admission_events (settled_mode g.mode) tenant meta v) told,
        record g { admitter = keep_admitter g.admitter a },
      )

  unfoldable pub admission_stage :
      Gateway
      → Text
      → Tier
      → RequestMeta
      → List BackendRef
      → Time
      → (BackendRef → Attempt)
      → Headers
      → Option (Told × Gateway)
  unfolding admit_candidates on_verdict
  admission_stage g tenant tier meta targets now upstream h =
      on_verdict g tenant tier meta targets upstream h
        (admit_candidates lib (or_off g.admitter) now meta targets tier)

  -- Stage 7 on, where there are targets.
  unfoldable pub on_targets :
      Gateway
      → Request
      → Text
      → QuotaPolicy
      → RequestMeta
      → Headers
      → Result Told (List BackendRef)
      → Option (Told × Gateway)
  unfolding admission_stage
  on_targets g r tenant policy meta h (err told) = some (told, g)
  on_targets g r tenant policy meta h (ok targets) =
      admission_stage g tenant (tier_for_policy (some policy.annotations)) meta targets
        r.admitted_at r.upstream h

  -- Stage 6 on, where the body was read.
  unfoldable pub on_meta :
      Gateway
      → Cluster
      → Request
      → Text
      → QuotaPolicy
      → Headers
      → Result Told RequestMeta
      → Option (Told × Gateway)
  unfolding resolve_targets on_targets
  on_meta g cluster r tenant policy h (err told) = some (told, g)
  on_meta g cluster r tenant policy h (ok meta) =
      let listed = cluster.deployments policy.target_namespace meta.model in
      on_targets g r tenant policy meta h (resolve_targets listed meta.model tenant h)

  -- Stage 5 on, where a token was taken.
  unfoldable pub on_token :
      Gateway
      → Cluster
      → Request
      → Text
      → QuotaPolicy
      → Headers
      → Option Told
      → Option (Told × Gateway)
  unfolding read_body on_meta
  on_token g cluster r tenant policy h (some told) = some (told, g)
  on_token g cluster r tenant policy h none =
      on_meta g cluster r tenant policy h (read_body r.body tenant h)

  -- Stage 4 on, where there is a policy.
  unfoldable pub on_found :
      Gateway
      → Cluster
      → Request
      → Text
      → Headers
      → Result Told QuotaPolicy
      → Option (Told × Gateway)
  unfolding take_token on_token
  on_found g cluster r tenant h (err told) = some (told, g)
  on_found g cluster r tenant h (ok policy) =
      let taken = take_token g.buckets tenant policy r.limited_at h in
      on_token (record g { buckets = taken.1 }) cluster r tenant policy h taken.0

  -- Stage 3 on, where the tenant is known.
  unfoldable pub on_authenticated :
      Gateway → Cluster → Request → Headers → Result Told Text → Option (Told × Gateway)
  unfolding find_policy on_found
  on_authenticated g cluster r h (err told) = some (told, g)
  on_authenticated g cluster r h (ok tenant) =
      on_found g cluster r tenant h (find_policy cluster.policies tenant h)

  abbrev pub or_fresh : Text → Text → Text
  or_fresh [] fresh = fresh
  or_fresh (c ∷ cs) fresh = c ∷ cs

  -- The handler. `none` is a panic of its own code; that the reverse proxy left it by a panic is in
  -- what it tells.
  unfoldable pub chat_completions : Gateway → Cluster → Request → Option (Told × Gateway)
  unfolding authenticate on_authenticated
  chat_completions g cluster r =
      let h = set_header (text "X-Request-Id") (or_fresh r.request_id r.fresh_id) [] in
      on_authenticated g cluster r h (authenticate cluster.api_keys r.authorization h)
