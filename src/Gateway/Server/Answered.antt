-- ===== src/Gateway/Server/Answered.antt =====
-- Every request is answered and counted once.
use gpu_platform_control_pla.Base.{
  ◌≡◌, refl, sym, subst, inl, inr, List, [], ◌∷◌, map, Option, none, some, Bool-cases,
}
use gpu_platform_control_pla.Base.Text.{Text, text}
use gpu_platform_control_pla.Base.Results.{Result, ok, err}
use gpu_platform_control_pla.Base.Clock.{Time}
use gpu_platform_control_pla.Gateway.Types.{BackendRef, RequestMeta, Tier, AdmissionMode}
use gpu_platform_control_pla.Gateway.Limiter.{LimiterLib}
use gpu_platform_control_pla.Gateway.Admission.{
  Verdict, Admitter, off, static_cap, kv_aware, admit_candidates, tier_for_policy,
}
use gpu_platform_control_pla.Gateway.Policy.{
  QuotaPolicy, policy_for_tenant, BucketRegistry, configured, allow,
}
use gpu_platform_control_pla.Gateway.Tenant.{resolve_tenant}
use gpu_platform_control_pla.Gateway.Body.{read_request_meta}
use gpu_platform_control_pla.Gateway.Writer.{Headers, set_header}
use gpu_platform_control_pla.Gateway.Forward.{Attempt}
use gpu_platform_control_pla.Gateway.Reply.{rate_limited, Told, fail}
use gpu_platform_control_pla.Gateway.Server.{
  on_verdict, on_targets, on_meta, on_token, on_found, on_authenticated, or_fresh, or_off,
  decided_headers, take_token, admission_stage, chat_completions, Gateway,
}
use gpu_platform_control_pla.Gateway.Stages.{
  settled_mode, authenticate, find_policy, read_body, resolve_targets, served_or_refused,
  admission_events, Cluster, Request,
}
use gpu_platform_control_pla.Gateway.Server.Accounting.{
  counted, IsSilent, IsAccounted, Ends, AccountedErr, RoutedErr, fail-IsAccounted,
  after-IsAccounted, after-Ends, proxy_stage-Ends, refuse-IsAccounted, on_tenant-Accounted,
  on_policy-Accounted, on_body-Accounted, resolve_targets-Routed,
}

admission_events-IsSilent :
    (mode : AdmissionMode) (tenant : Text) (meta : RequestMeta) (v : Verdict)
    → IsSilent (admission_events mode tenant meta v)
unfolding admission_events IsSilent counted
admission_events-IsSilent mode tenant meta v = refl

served_or_refused-Ends :
    (v : Verdict) (h : Headers) (tenant model : Text) (up : BackendRef → Attempt)
    (bs : List BackendRef)
    → Ends up (served_or_refused v h tenant model (map up bs))
unfolding served_or_refused
served_or_refused-Ends v h tenant model up bs = elim (Bool-cases v.admitted) [
  | inl e ↦ rw (e) (proxy_stage-Ends h tenant model up bs)
  | inr e ↦ rw (e) (unfold Ends in inl (refuse-IsAccounted h tenant model v.reason))
]

module _ (lib : LimiterLib) where
  -- The handler's code does not panic, and the request ends as `Ends` says.
  unfoldable pub IsServed : (BackendRef → Attempt) → Option (Told × Gateway lib) → Type 0
  unfolding Ends
  IsServed up o = (p : Told × Gateway lib) × (o ≡ some p) × Ends up p.0

  on_verdict-IsServed :
      (g : Gateway lib) (tenant : Text) (tier : Tier) (meta : RequestMeta)
      (targets : List BackendRef) (upstream : BackendRef → Attempt) (h : Headers) (v : Verdict)
      (a : Admitter lib)
      → IsServed upstream (on_verdict lib g tenant tier meta targets upstream h (some (v, a)))
  unfolding on_verdict IsServed
  on_verdict-IsServed g tenant tier meta targets upstream h v a =
      let h' = decided_headers lib g tier v a targets h in
      (
        _,
        refl,
        after-Ends upstream (admission_events (settled_mode g.mode) tenant meta v)
            (served_or_refused v h' tenant meta.model (map upstream targets))
            (admission_events-IsSilent (settled_mode g.mode) tenant meta v)
            (served_or_refused-Ends v h' tenant meta.model upstream targets),
      )

  answers :
      (a : Admitter lib) (now : Time) (meta : RequestMeta) (t : BackendRef) (ts : List BackendRef)
      (tier : Tier)
      → (p : Verdict × Admitter lib) × (admit_candidates lib a now meta (t ∷ ts) tier ≡ some p)
  unfolding admit_candidates
  answers off now meta t ts tier = (_, refl)
  answers (static_cap a) now meta t ts tier = (_, refl)
  answers (kv_aware a) now meta t ts tier = (_, refl)

  -- With a target there, no admitter panics.
  admission_stage-IsServed :
      (g : Gateway lib) (tenant : Text) (tier : Tier) (meta : RequestMeta) (t : BackendRef)
      (ts : List BackendRef) (now : Time) (upstream : BackendRef → Attempt) (h : Headers)
      → IsServed upstream (admission_stage lib g tenant tier meta (t ∷ ts) now upstream h)
  unfolding admission_stage
  admission_stage-IsServed g tenant tier meta t ts now upstream h =
      let (p, e) = answers (or_off lib g.admitter) now meta t ts tier in
      subst (λ o. IsServed upstream (on_verdict lib g tenant tier meta (t ∷ ts) upstream h o))
        (sym e) (on_verdict-IsServed g tenant tier meta (t ∷ ts) upstream h p.0 p.1)

  on_targets-IsServed :
      (g : Gateway lib) (r : Request) (tenant : Text) (policy : QuotaPolicy) (meta : RequestMeta)
      (h : Headers) (res : Result Told (List BackendRef))
      → RoutedErr res
      → IsServed r.upstream (on_targets lib g r tenant policy meta h res)
  unfolding on_targets RoutedErr IsServed
  on_targets-IsServed g r tenant policy meta h (err told) k =
      ((told, g), refl, unfold Ends in inl k)
  on_targets-IsServed g r tenant policy meta h (ok targets) (b, bs, e) =
      subst
        (λ ts. IsServed r.upstream (
          admission_stage lib g tenant (tier_for_policy (some policy.annotations)) meta ts
            r.admitted_at r.upstream h))
        (sym e)
        (admission_stage-IsServed g tenant (tier_for_policy (some policy.annotations)) meta b bs
          r.admitted_at r.upstream h)

  on_meta-IsServed :
      (g : Gateway lib) (cluster : Cluster) (r : Request) (tenant : Text) (policy : QuotaPolicy)
      (h : Headers) (res : Result Told RequestMeta)
      → AccountedErr res
      → IsServed r.upstream (on_meta lib g cluster r tenant policy h res)
  unfolding on_meta AccountedErr IsServed
  on_meta-IsServed g cluster r tenant policy h (err told) k =
      ((told, g), refl, unfold Ends in inl k)
  on_meta-IsServed g cluster r tenant policy h (ok meta) k =
      let listed = cluster.deployments policy.target_namespace meta.model in
      on_targets-IsServed g r tenant policy meta h (resolve_targets listed meta.model tenant h)
        (resolve_targets-Routed listed meta.model tenant h)

  RefusalIsAccounted : Option Told → Type 0
  unfolding IsAccounted
  RefusalIsAccounted none = Unit
  RefusalIsAccounted (some t) = IsAccounted t

  on_token-IsServed :
      (g : Gateway lib) (cluster : Cluster) (r : Request) (tenant : Text) (policy : QuotaPolicy)
      (h : Headers) (refusal : Option Told)
      → RefusalIsAccounted refusal
      → IsServed r.upstream (on_token lib g cluster r tenant policy h refusal)
  unfolding on_token RefusalIsAccounted IsServed read_body
  on_token-IsServed g cluster r tenant policy h (some told) k =
      ((told, g), refl, unfold Ends in inl k)
  on_token-IsServed g cluster r tenant policy h none k =
      on_meta-IsServed g cluster r tenant policy h (read_body r.body tenant h)
        (on_body-Accounted tenant h (read_request_meta r.body))

  take_token-Accounted :
      (buckets : BucketRegistry lib) (tenant : Text) (policy : QuotaPolicy) (now : Time)
      (h : Headers)
      → RefusalIsAccounted (take_token lib buckets tenant policy now h).0
  unfolding take_token RefusalIsAccounted
  take_token-Accounted buckets tenant policy now h = elim (Bool-cases (configured lib buckets)) [
    | inr off_ ↦ rw (off_) (fail-IsAccounted h tenant [] 503)
    | inl on ↦ elim (Bool-cases (allow lib buckets tenant policy.rate_limit now).0) [
      | inl taken ↦ rw (on, taken) tt
      | inr spent ↦
          rw (on, spent)
            (after-IsAccounted (rate_limited tenant ∷ []) (fail h tenant [] 429)
              (unfold IsSilent counted in refl) (fail-IsAccounted h tenant [] 429))
    ]
  ]

  on_found-IsServed :
      (g : Gateway lib) (cluster : Cluster) (r : Request) (tenant : Text) (h : Headers)
      (res : Result Told QuotaPolicy)
      → AccountedErr res
      → IsServed r.upstream (on_found lib g cluster r tenant h res)
  unfolding on_found AccountedErr IsServed
  on_found-IsServed g cluster r tenant h (err told) k = ((told, g), refl, unfold Ends in inl k)
  on_found-IsServed g cluster r tenant h (ok policy) k =
      let taken = take_token lib g.buckets tenant policy r.limited_at h in
      on_token-IsServed (record g { buckets = taken.1 }) cluster r tenant policy h taken.0
        (take_token-Accounted g.buckets tenant policy r.limited_at h)

  on_authenticated-IsServed :
      (g : Gateway lib) (cluster : Cluster) (r : Request) (h : Headers) (res : Result Told Text)
      → AccountedErr res
      → IsServed r.upstream (on_authenticated lib g cluster r h res)
  unfolding on_authenticated AccountedErr IsServed find_policy
  on_authenticated-IsServed g cluster r h (err told) k = ((told, g), refl, unfold Ends in inl k)
  on_authenticated-IsServed g cluster r h (ok tenant) k =
      on_found-IsServed g cluster r tenant h (find_policy cluster.policies tenant h)
        (on_policy-Accounted tenant h (policy_for_tenant cluster.policies tenant))

  -- Whatever the request and the cluster hold, the handler's own code does not panic, and either it
  -- runs to its end and counts the request exactly once in requests_total, a failure that the gateway
  -- composes under the status it has; or the body of some backend's response cannot be copied to its
  -- end, the reverse proxy's http.ErrAbortHandler leaves the handler, and requests_total counts
  -- nothing.
  pub answered_and_counted_once :
      (g : Gateway lib) (cluster : Cluster) (r : Request)
      → (told : Told) × (g' : Gateway lib) × (chat_completions lib g cluster r ≡ some (told, g'))
        × Ends r.upstream told
  unfolding chat_completions authenticate IsServed
  answered_and_counted_once g cluster r =
      let h = set_header (text "X-Request-Id") (or_fresh lib r.request_id r.fresh_id) [] in
      let ((told, g'), e, k) =
        on_authenticated-IsServed g cluster r h (authenticate cluster.api_keys r.authorization h)
          (on_tenant-Accounted h (resolve_tenant cluster.api_keys r.authorization)) in
      (told, g', e, k)
