-- ===== src/Gateway/Server/Accounting.antt =====
-- The count of a request in requests_total, stage by stage.
use gpu_platform_control_pla.Base.{
  ℕ, zero, suc, ◌≡◌, refl, sym, ◌∙◌, ap, ◌⊎◌, inl, inr, Bool, true, false, List, [], ◌∷◌, ◌++◌, map,
  Option, none, some, if◌then◌else◌, ltb, leb, ◌&&◌, Bool-cases, take,
}
use gpu_platform_control_pla.Base.Text.{Text}
use gpu_platform_control_pla.Base.Results.{Result, ok, err}
use gpu_platform_control_pla.Gateway.Types.{BackendRef, RequestMeta, Reason, input_exceeds_burst}
use gpu_platform_control_pla.Gateway.Policy.{PolicyResult, list_failed, no_policy, found, failed}
use gpu_platform_control_pla.Gateway.Tenant.{
  TenantResult, tenant_is, unauthorized, key_store_unavailable,
}
use gpu_platform_control_pla.Gateway.Writer.{Headers, StatusRecorder}
use gpu_platform_control_pla.Gateway.Forward.{
  aborts, Attempt, Forwarded, attempt, try_from, try_backends, cap_backend_attempts,
}
use gpu_platform_control_pla.Gateway.Forward.Replay.{stops, aborted-stop, aborted-next}
use gpu_platform_control_pla.Gateway.Reply.{
  Event, requests, rate_limited, admission_decisions, admission_input_tokens, upstream_errors,
  backend_fallbacks, Told, Answer, failure, forwarded, fail, fail_unresolved_model, fail_reason,
}
use gpu_platform_control_pla.Gateway.Body.{BodyError, too_large, not_read, no_model}
use gpu_platform_control_pla.Gateway.Router.{
  InferenceDeployment, older_infd, backend_ref, backends_for,
}
use gpu_platform_control_pla.Base.Sort.{sort_func, insert_sorted}
use gpu_platform_control_pla.Gateway.Stages.{
  on_tenant, on_policy, on_body, on_route, resolve_targets, proxy_stage, fresh_recorder,
  settled_code, ended, refuse, after,
}

-- The codes that requests_total counts.
unfoldable pub counted : List Event → List ℕ
counted [] = []
counted (requests tenant model code ∷ es) = code ∷ counted es
counted (rate_limited _ ∷ es) = counted es
counted (admission_decisions _ _ _ _ _ ∷ es) = counted es
counted (admission_input_tokens _ _ _ _ ∷ es) = counted es
counted (upstream_errors _ _ ∷ es) = counted es
counted (backend_fallbacks _ _ ∷ es) = counted es

-- A failure that the gateway composes is counted under the status it has.
unfoldable pub Matches : Answer → ℕ → Type 0
Matches (failure status _ _ _) code = code ≡ status
Matches (forwarded _) code = Unit

unfoldable pub IsAccounted : Told → Type 0
unfolding counted Matches
IsAccounted t =
    (t.aborted ≡ false) × ((code : ℕ) × (counted t.events ≡ code ∷ []) × Matches t.answer code)

-- How a request ends: it is accounted for, or the reverse proxy's abort left the handler, because the
-- body of some backend's response could not be copied to its end, and nothing is counted.
unfoldable pub Ends : (BackendRef → Attempt) → Told → Type 0
unfolding IsAccounted counted
Ends upstream t =
    IsAccounted t
    ⊎ ((t.aborted ≡ true)
        × (counted t.events ≡ [])
        × ((b : BackendRef) × (aborts (upstream b).outcome ≡ true)))

pub fail-IsAccounted :
    (h : Headers) (tenant model : Text) (code : ℕ) → IsAccounted (fail h tenant model code)
unfolding fail IsAccounted counted Matches
fail-IsAccounted h tenant model code = (refl, (code, refl, refl))

-- What is counted in front of the request's own count.
unfoldable pub IsSilent : List Event → Type 0
unfolding counted
IsSilent es = counted es ≡ []

counted-append : (es fs : List Event) → IsSilent es → counted (es ++ fs) ≡ counted fs
unfolding IsSilent counted
counted-append [] fs h = refl
counted-append (requests tenant model code ∷ es) fs h = absurd (cc)
counted-append (rate_limited _ ∷ es) fs h = counted-append es fs h
counted-append (admission_decisions _ _ _ _ _ ∷ es) fs h = counted-append es fs h
counted-append (admission_input_tokens _ _ _ _ ∷ es) fs h = counted-append es fs h
counted-append (upstream_errors _ _ ∷ es) fs h = counted-append es fs h
counted-append (backend_fallbacks _ _ ∷ es) fs h = counted-append es fs h

pub after-IsAccounted :
    (es : List Event) (t : Told) → IsSilent es → IsAccounted t → IsAccounted (after es t)
unfolding after IsAccounted
after-IsAccounted es t h (whole, (code, k, m)) =
    (whole, (code, counted-append es t.events h ∙ k, m))

pub after-Ends :
    (up : BackendRef → Attempt) (es : List Event) (t : Told)
    → IsSilent es
    → Ends up t
    → Ends up (after es t)
unfolding Ends
after-Ends up es t h (inl k) = inl (after-IsAccounted es t h k)
after-Ends up es t h (inr (left, none_counted, cause)) =
    inr (unfold after in (left, counted-append es t.events h ∙ none_counted, cause))

errors-IsSilent :
    (tenant model : Text) (fs : List (ℕ × Bool))
    → IsSilent (map (λ e. upstream_errors tenant model) fs)
unfolding IsSilent counted
errors-IsSilent tenant model [] = refl
errors-IsSilent tenant model (f ∷ fs) = errors-IsSilent tenant model fs

fallback-IsSilent :
    (b : Bool) (tenant model : Text)
    → IsSilent (if b then backend_fallbacks tenant model ∷ [] else [])
unfolding IsSilent counted
fallback-IsSilent true tenant model = refl
fallback-IsSilent false tenant model = refl

counted-ended :
    (fs : List (ℕ × Bool)) (advanced : Bool) (tenant model : Text) (code : ℕ)
    → counted (map (λ e. upstream_errors tenant model) fs ++ ended advanced tenant model code)
      ≡ code ∷ []
unfolding counted ended
counted-ended fs advanced tenant model code =
    let fell_back = advanced && leb 200 code && ltb code 400 in
    let last = requests tenant model code ∷ [] in
    let fallback = if fell_back then backend_fallbacks tenant model ∷ [] else [] in
    counted-append (map (λ e. upstream_errors tenant model) fs) (fallback ++ last)
      (errors-IsSilent tenant model fs)
    ∙ counted-append fallback last (fallback-IsSilent fell_back tenant model)

counted-left :
    (fs : List (ℕ × Bool)) (tenant model : Text)
    → counted (map (λ e. upstream_errors tenant model) fs ++ []) ≡ []
unfolding counted
counted-left fs tenant model =
    counted-append (map (λ e. upstream_errors tenant model) fs) [] (errors-IsSilent tenant model fs)

-- The code that the recorder settled on is counted, unless the handler was left.
pub proxy_counts :
    (h : Headers) (tenant model : Text) (attempts : List Attempt)
    → let f = try_backends true (fresh_recorder h) attempts in
      counted (proxy_stage h tenant model attempts).events
      ≡ (if f.aborted then [] else settled_code f ∷ [])
unfolding proxy_stage
proxy_counts h tenant model attempts =
    let f : Forwarded = try_backends true (fresh_recorder h) attempts in
    elim (Bool-cases f.aborted) [
      | inl left ↦ rw (left) (counted-left f.failures tenant model)
      | inr whole ↦ rw (whole) (counted-ended f.failures f.advanced tenant model (settled_code f))
    ]

-- The handler is left only where a backend's body could not be copied.
aborted-cause :
    (rewinds : Bool) (r : StatusRecorder) (advanced : Bool) (n : ℕ) (up : BackendRef → Attempt)
    (bs : List BackendRef)
    → (try_from rewinds r advanced (take n (map up bs))).aborted ≡ true
    → (b : BackendRef) × (aborts (up b).outcome ≡ true)
unfolding try_from
aborted-cause rewinds r advanced zero up bs h = absurd (cc)
aborted-cause rewinds r advanced (suc n) up [] h = absurd (cc)
aborted-cause rewinds r advanced (suc zero) up (b ∷ bs) h = (b, h)
aborted-cause rewinds r advanced (suc (suc n)) up (b ∷ []) h = (b, h)
aborted-cause rewinds r advanced (suc (suc n)) up (b ∷ (c ∷ bs)) h =
    elim (Bool-cases (stops rewinds r (up b))) [
      | inl s ↦ (b, sym (aborted-stop rewinds r advanced (up b) (up c) (take n (map up bs)) s) ∙ h)
      | inr s ↦
          aborted-cause rewinds (attempt r false (up b)).rec true (suc n) up (c ∷ bs)
            (sym (aborted-next rewinds r advanced (up b) (up c) (take n (map up bs)) s) ∙ h)
    ]

pub proxy_stage-Ends :
    (h : Headers) (tenant model : Text) (up : BackendRef → Attempt) (bs : List BackendRef)
    → Ends up (proxy_stage h tenant model (map up bs))
unfolding Ends IsAccounted Matches
proxy_stage-Ends h tenant model up bs =
    let f : Forwarded = try_backends true (fresh_recorder h) (map up bs) in
    let k = proxy_counts h tenant model (map up bs) in
    elim (Bool-cases f.aborted) [
      | inl left ↦ inr (
        unfold proxy_stage in left,
        k ∙ ap (λ c. if c then [] else settled_code f ∷ []) left,
        unfold try_backends cap_backend_attempts in
            aborted-cause true (fresh_recorder h) false 2 up bs left,
      )
      | inr whole ↦ inl (
        unfold proxy_stage in whole,
        (
          settled_code f,
          k ∙ ap (λ c. if c then [] else settled_code f ∷ []) whole,
          unfold proxy_stage in tt,
        ),
      )
    ]

pub refuse-IsAccounted :
    (h : Headers) (tenant model : Text) (reason : Reason)
    → IsAccounted (refuse h tenant model reason)
unfolding refuse fail fail_reason IsAccounted counted Matches
refuse-IsAccounted h tenant model reason =
    elim reason as (λ k. IsAccounted (refuse h tenant model k)) [
      | input_exceeds_burst ↦ (refl, (413, refl, refl))
      | _ ↦ (refl, (429, refl, refl))
    ]

unfoldable pub AccountedErr : {A : Type 0} → Result Told A → Type 0
unfolding IsAccounted
AccountedErr (ok a) = Unit
AccountedErr (err t) = IsAccounted t

pub on_tenant-Accounted : (h : Headers) (r : TenantResult) → AccountedErr (on_tenant h r)
unfolding on_tenant AccountedErr
on_tenant-Accounted h key_store_unavailable = fail-IsAccounted h [] [] 503
on_tenant-Accounted h unauthorized = fail-IsAccounted h [] [] 401
on_tenant-Accounted h (tenant_is t) = tt

pub on_policy-Accounted :
    (tenant : Text) (h : Headers) (r : PolicyResult) → AccountedErr (on_policy tenant h r)
unfolding on_policy AccountedErr
on_policy-Accounted tenant h (failed no_policy) = fail-IsAccounted h tenant [] 403
on_policy-Accounted tenant h (failed list_failed) = fail-IsAccounted h tenant [] 502
on_policy-Accounted tenant h (found p) = tt

pub on_body-Accounted :
    (tenant : Text) (h : Headers) (r : Result BodyError RequestMeta)
    → AccountedErr (on_body tenant h r)
unfolding on_body AccountedErr
on_body-Accounted tenant h (ok meta) = tt
on_body-Accounted tenant h (err too_large) = fail-IsAccounted h tenant [] 413
on_body-Accounted tenant h (err not_read) = fail-IsAccounted h tenant [] 400
on_body-Accounted tenant h (err no_model) = fail-IsAccounted h tenant [] 400

-- The targets of a routed model are some.
unfoldable pub RoutedErr : Result Told (List BackendRef) → Type 0
unfolding IsAccounted
RoutedErr (err t) = IsAccounted t
RoutedErr (ok targets) = (b : BackendRef) × (bs : List BackendRef) × (targets ≡ b ∷ bs)

insert_sorted-head :
    (before : InferenceDeployment → InferenceDeployment → Bool) (x : InferenceDeployment)
    (ys : List InferenceDeployment)
    → (d : InferenceDeployment) × (ds : List InferenceDeployment) × (insert_sorted before x ys
        ≡ d ∷ ds)
unfolding insert_sorted
insert_sorted-head before x [] = (x, [], refl)
insert_sorted-head before x (y ∷ ys) = elim (Bool-cases (before x y)) [
  | inl e ↦ (x, y ∷ ys, rw (e) refl)
  | inr e ↦ (y, insert_sorted before x ys, rw (e) refl)
]

pub resolve_targets-Routed :
    (listed : Option (List InferenceDeployment)) (model tenant : Text) (h : Headers)
    → RoutedErr (resolve_targets listed model tenant h)
unfolding resolve_targets on_route backends_for RoutedErr fail_unresolved_model IsAccounted counted
    Matches
resolve_targets-Routed none model tenant h = (refl, (502, refl, refl))
resolve_targets-Routed (some []) model tenant h = (refl, (404, refl, refl))
resolve_targets-Routed (some (d ∷ ds)) model tenant h =
    let (x, xs, e) = insert_sorted-head older_infd d (sort_func older_infd ds) in
    unfold sort_func cap_backend_attempts in
    rw (e) (backend_ref model x, take 1 (map (backend_ref model) xs), refl)
