-- ===== src/Gateway/Server/Charging.antt =====
-- When a request reaches the admitter.
use gpu_platform_control_pla.Base.{
  ℕ, suc, ◌≡◌, refl, subst, List, [], ◌∷◌, Option, none, some, arith,
}
use gpu_platform_control_pla.Base.Text.{Text, text}
use gpu_platform_control_pla.Base.Results.{Result, ok, err}
use gpu_platform_control_pla.Gateway.Types.{BackendRef, RequestMeta, Tier}
use gpu_platform_control_pla.Gateway.Limiter.{LimiterLib}
use gpu_platform_control_pla.Gateway.Admission.{
  Verdict, Admitter, admit_candidates, tier_for_policy,
}
use gpu_platform_control_pla.Gateway.Policy.{QuotaPolicy}
use gpu_platform_control_pla.Gateway.Writer.{Headers, set_header}
use gpu_platform_control_pla.Gateway.Forward.{Attempt}
use gpu_platform_control_pla.Gateway.Reply.{
  Event, requests, rate_limited, admission_decisions, admission_input_tokens, upstream_errors,
  backend_fallbacks, Told,
}
use gpu_platform_control_pla.Gateway.Stages.{
  Cluster, Request, authenticate, find_policy, read_body, resolve_targets, admission_events, after,
}
use gpu_platform_control_pla.Gateway.Server.{
  Gateway, or_off, or_fresh, take_token, on_verdict, admission_stage, on_targets, on_meta, on_token,
  on_found, on_authenticated, chat_completions,
}

-- The decisions that admission_decisions_total counts.
unfoldable pub decisions : List Event → ℕ
decisions [] = 0
decisions (admission_decisions _ _ _ _ _ ∷ es) = suc (decisions es)
decisions (requests _ _ _ ∷ es) = decisions es
decisions (rate_limited _ ∷ es) = decisions es
decisions (admission_input_tokens _ _ _ _ ∷ es) = decisions es
decisions (upstream_errors _ _ ∷ es) = decisions es
decisions (backend_fallbacks _ _ ∷ es) = decisions es

module _ (lib : LimiterLib) where
  -- Without a counted decision the admitter is the one from before.
  KeepsAdmitter : Option (Admitter lib) → Option (Told × Gateway lib) → Type 0
  unfolding decisions
  KeepsAdmitter a none = Unit
  KeepsAdmitter a (some (told, g)) = decisions told.events ≡ 0 → g.admitter ≡ a

  on_verdict-KeepsAdmitter :
      (g : Gateway lib) (tenant : Text) (tier : Tier) (meta : RequestMeta)
      (targets : List BackendRef) (upstream : BackendRef → Attempt) (h : Headers)
      (o : Option (Verdict × Admitter lib))
      → KeepsAdmitter g.admitter (on_verdict lib g tenant tier meta targets upstream h o)
  unfolding on_verdict KeepsAdmitter admission_events after decisions
  on_verdict-KeepsAdmitter g tenant tier meta targets upstream h none = tt
  on_verdict-KeepsAdmitter g tenant tier meta targets upstream h (some (v, a)) =
      λ k. absurd (omega (arith, k))

  on_targets-KeepsAdmitter :
      (g : Gateway lib) (r : Request) (tenant : Text) (policy : QuotaPolicy) (meta : RequestMeta)
      (h : Headers) (res : Result Told (List BackendRef))
      → KeepsAdmitter g.admitter (on_targets lib g r tenant policy meta h res)
  unfolding on_targets admission_stage KeepsAdmitter
  on_targets-KeepsAdmitter g r tenant policy meta h (err told) = λ _. refl
  on_targets-KeepsAdmitter g r tenant policy meta h (ok targets) =
      let tier = tier_for_policy (some policy.annotations) in
      on_verdict-KeepsAdmitter g tenant tier meta targets r.upstream h
        (admit_candidates lib (or_off lib g.admitter) r.admitted_at meta targets tier)

  on_meta-KeepsAdmitter :
      (g : Gateway lib) (cluster : Cluster) (r : Request) (tenant : Text) (policy : QuotaPolicy)
      (h : Headers) (res : Result Told RequestMeta)
      → KeepsAdmitter g.admitter (on_meta lib g cluster r tenant policy h res)
  unfolding on_meta KeepsAdmitter
  on_meta-KeepsAdmitter g cluster r tenant policy h (err told) = λ _. refl
  on_meta-KeepsAdmitter g cluster r tenant policy h (ok meta) =
      let listed = cluster.deployments policy.target_namespace meta.model in
      on_targets-KeepsAdmitter g r tenant policy meta h (resolve_targets listed meta.model tenant h)

  on_token-KeepsAdmitter :
      (g : Gateway lib) (cluster : Cluster) (r : Request) (tenant : Text) (policy : QuotaPolicy)
      (h : Headers) (refusal : Option Told)
      → KeepsAdmitter g.admitter (on_token lib g cluster r tenant policy h refusal)
  unfolding on_token KeepsAdmitter
  on_token-KeepsAdmitter g cluster r tenant policy h (some told) = λ _. refl
  on_token-KeepsAdmitter g cluster r tenant policy h none =
      on_meta-KeepsAdmitter g cluster r tenant policy h (read_body r.body tenant h)

  on_found-KeepsAdmitter :
      (g : Gateway lib) (cluster : Cluster) (r : Request) (tenant : Text) (h : Headers)
      (res : Result Told QuotaPolicy)
      → KeepsAdmitter g.admitter (on_found lib g cluster r tenant h res)
  unfolding on_found KeepsAdmitter
  on_found-KeepsAdmitter g cluster r tenant h (err told) = λ _. refl
  on_found-KeepsAdmitter g cluster r tenant h (ok policy) =
      let taken = take_token lib g.buckets tenant policy r.limited_at h in
      on_token-KeepsAdmitter (record g { buckets = taken.1 }) cluster r tenant policy h taken.0

  on_authenticated-KeepsAdmitter :
      (g : Gateway lib) (cluster : Cluster) (r : Request) (h : Headers) (res : Result Told Text)
      → KeepsAdmitter g.admitter (on_authenticated lib g cluster r h res)
  unfolding on_authenticated KeepsAdmitter
  on_authenticated-KeepsAdmitter g cluster r h (err told) = λ _. refl
  on_authenticated-KeepsAdmitter g cluster r h (ok tenant) =
      on_found-KeepsAdmitter g cluster r tenant h (find_policy cluster.policies tenant h)

  -- A request for which no admission decision is counted, because an earlier stage refused it, costs no
  -- backend's budget, registers no backend and starts no scraper: the admitter is as it was.
  pub undecided_request_is_free :
      (g : Gateway lib) (cluster : Cluster) (r : Request) {told : Told} {g' : Gateway lib}
      → chat_completions lib g cluster r ≡ some (told, g')
      → decisions told.events ≡ 0
      → g'.admitter ≡ g.admitter
  unfolding chat_completions authenticate KeepsAdmitter
  undecided_request_is_free g cluster r e =
      let h = set_header (text "X-Request-Id") (or_fresh lib r.request_id r.fresh_id) [] in
      subst (KeepsAdmitter g.admitter) e (
        on_authenticated-KeepsAdmitter g cluster r h
          (authenticate cluster.api_keys r.authorization h))
