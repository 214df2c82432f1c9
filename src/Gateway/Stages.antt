-- ===== src/Gateway/Stages.antt =====
-- The stages of chatCompletions (internal/gateway/server.go) that keep no state, by what each one found.
use gpu_platform_control_pla.Base.{
  ℕ, Bool, true, false, not, ◌&&◌, List, [], ◌∷◌, ◌++◌, map, Option, none, some, ltb, leb, ◌==◌,
  if◌then◌else◌,
}
use gpu_platform_control_pla.Base.Text.{Text, text}
use gpu_platform_control_pla.Base.Maps.{Map}
use gpu_platform_control_pla.Base.Results.{Result, ok, err}
use gpu_platform_control_pla.Base.Clock.{Time}
use gpu_platform_control_pla.Gateway.Types.{
  BackendRef, RequestMeta, AdmissionMode, admission_off, Reason, input_exceeds_burst, BackendState,
}
use gpu_platform_control_pla.Gateway.Policy.{
  QuotaPolicy, PolicyResult, policy_for_tenant, list_failed, no_policy, found, failed,
}
use gpu_platform_control_pla.Gateway.Tenant.{
  TenantResult, resolve_tenant, tenant_is, unauthorized, key_store_unavailable,
}
use gpu_platform_control_pla.Gateway.Body.{
  Buffered, read_request_meta, BodyError, too_large, not_read, no_model,
}
use gpu_platform_control_pla.Gateway.Router.{
  InferenceDeployment, backends_for, RouteResult, backends, no_route,
}
use gpu_platform_control_pla.Gateway.Router
use gpu_platform_control_pla.Gateway.Admission.{Verdict, KvAwareAdmitter, observed}
use gpu_platform_control_pla.Gateway.Writer.{Headers, set_header, StatusRecorder}
use gpu_platform_control_pla.Gateway.Forward.{
  Attempt, Forwarded, cap_backend_attempts, try_backends,
}
use gpu_platform_control_pla.Gateway.Reply.{
  Event, requests, admission_decisions, admission_input_tokens, upstream_errors, backend_fallbacks,
  Told, forwarded, fail, fail_unresolved_model, fail_reason, format_backend_state,
}

-- What the gateway reads of the cluster through its cache; `none` is a read that failed.
pub record Cluster : Type 0 where
  pub api_keys : Option (Map Text)
  pub policies : Option (List QuotaPolicy)
  -- The deployments of a namespace that serve a model.
  pub deployments : Text → Text → Option (List InferenceDeployment)

pub record Request : Type 0 where
  pub request_id : Text  -- X-Request-Id, empty where the caller gave none
  pub fresh_id : Text
  pub authorization : Text
  pub body : Buffered
  pub limited_at : Time
  pub admitted_at : Time
  -- What would become of the request at a backend.
  pub upstream : BackendRef → Attempt

-- Steps 2 to 6 by what each one found out; `err` is an answer at once.
unfoldable pub on_tenant : Headers → TenantResult → Result Told Text
unfolding fail
on_tenant h key_store_unavailable = err (fail h [] [] 503)
on_tenant h unauthorized = err (fail h [] [] 401)
on_tenant h (tenant_is tenant) = ok tenant

unfoldable pub authenticate : Option (Map Text) → Text → Headers → Result Told Text
unfolding resolve_tenant on_tenant
authenticate api_keys authorization h = on_tenant h (resolve_tenant api_keys authorization)

unfoldable pub on_policy : Text → Headers → PolicyResult → Result Told QuotaPolicy
unfolding fail
on_policy tenant h (failed no_policy) = err (fail h tenant [] 403)
on_policy tenant h (failed list_failed) = err (fail h tenant [] 502)
on_policy tenant h (found p) = ok p

unfoldable pub find_policy : Option (List QuotaPolicy) → Text → Headers → Result Told QuotaPolicy
unfolding policy_for_tenant on_policy
find_policy policies tenant h = on_policy tenant h (policy_for_tenant policies tenant)

unfoldable pub on_body : Text → Headers → Result BodyError RequestMeta → Result Told RequestMeta
unfolding fail
on_body tenant h (ok meta) = ok meta
on_body tenant h (err too_large) = err (fail h tenant [] 413)
on_body tenant h (err not_read) = err (fail h tenant [] 400)
on_body tenant h (err no_model) = err (fail h tenant [] 400)

unfoldable pub read_body : Buffered → Text → Headers → Result Told RequestMeta
unfolding read_request_meta on_body
read_body body tenant h = on_body tenant h (read_request_meta body)

unfoldable pub on_route : Text → Text → Headers → RouteResult → Result Told (List BackendRef)
unfolding fail_unresolved_model cap_backend_attempts
on_route model tenant h (Router.failed no_route) = err (fail_unresolved_model h tenant model 404)
on_route model tenant h (Router.failed Router.list_failed) =
    err (fail_unresolved_model h tenant model 502)
on_route model tenant h (backends targets) = ok (cap_backend_attempts targets)

unfoldable pub resolve_targets :
    Option (List InferenceDeployment) → Text → Text → Headers → Result Told (List BackendRef)
unfolding backends_for on_route
resolve_targets listed model tenant h = on_route model tenant h (backends_for listed model)

-- The codes of the failure callbacks, the last of them kept.
unfoldable pub last_failure : ℕ → List (ℕ × Bool) → ℕ
last_failure code [] = code
last_failure code ((c, final) ∷ fs) = last_failure c fs

-- The code of the recorder after the request: the failure's where nothing reached the client.
unfoldable pub settled_code : Forwarded → ℕ
unfolding last_failure
settled_code f =
    let failure_code = last_failure 0 f.failures in
    if not f.rec.answered && not (failure_code == 0) then failure_code else f.rec.code

-- The recorder of a request whose response headers so far are these.
unfoldable pub fresh_recorder : Headers → StatusRecorder
fresh_recorder h = record {
  client = record { live = h; sent = none; body = [] };
  code = 200;
  answered = false;
}

-- What is counted once tryBackends has returned.
unfoldable pub ended : Bool → Text → Text → ℕ → List Event
ended advanced tenant model code =
    (if advanced && leb 200 code && ltb code 400 then backend_fallbacks tenant model ∷ [] else [])
    ++ (requests tenant model code ∷ [])

-- Stage 8, from the targets on. Every body can be read again.
unfoldable pub proxy_stage : Headers → Text → Text → List Attempt → Told
unfolding try_backends settled_code fresh_recorder ended
proxy_stage h tenant model attempts =
    let f = try_backends true (fresh_recorder h) attempts in
    let code = settled_code f in
    record {
      events =
          map (λ e. upstream_errors tenant model) f.failures
          ++ (if f.aborted then [] else ended f.advanced tenant model code);
      answer = forwarded f.rec.client;
      aborted = f.aborted;
    }

-- The reading of the first target that has one.
unfoldable pub first_observed : KvAwareAdmitter → List BackendRef → Option BackendState
unfolding observed
first_observed a [] = none
first_observed a (b ∷ bs) =
    let rest = first_observed a bs in elim (observed a b) [ none ↦ rest | some st ↦ some st ]

abbrev pub set_reason : Text → Headers → Headers
set_reason [] h = h
set_reason (c ∷ cs) h = set_header (text "X-Admission-Reason") (c ∷ cs) h

abbrev pub set_state : Option BackendState → Headers → Headers
set_state none h = h
set_state (some st) h = set_header (text "X-Backend-State") (format_backend_state st) h

abbrev pub settled_mode : AdmissionMode → AdmissionMode
settled_mode [] = admission_off
settled_mode (c ∷ cs) = c ∷ cs

-- The answer to a refused request.
unfoldable pub refuse : Headers → Text → Text → Reason → Told
unfolding fail fail_reason
refuse h tenant model input_exceeds_burst = fail h tenant model 413
refuse h tenant model reason = fail_reason h tenant model 429 reason

unfoldable pub admission_events : AdmissionMode → Text → RequestMeta → Verdict → List Event
admission_events mode tenant meta v =
    let decision = if v.admitted then text "admit" else text "reject" in
    admission_decisions mode tenant meta.model decision v.reason
    ∷ (admission_input_tokens mode tenant decision meta.est_input_tokens ∷ [])

unfoldable pub served_or_refused : Verdict → Headers → Text → Text → List Attempt → Told
unfolding refuse proxy_stage
served_or_refused v h tenant model attempts =
    if v.admitted then proxy_stage h tenant model attempts else refuse h tenant model v.reason

-- What an earlier stage counted comes first.
unfoldable pub after : List Event → Told → Told
after es t = record t { events = es ++ t.events }
