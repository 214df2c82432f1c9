-- ===== src/Webhook/QuotaMode.antt =====
-- Whether a namespace's GPUs are metered by a ResourceQuota (internal/webhook/v1/quota_mode.go).
use gpu_platform_control_pla.Base.{
  Bool, true, false, not, List, [], ◌∷◌, ◌++◌, Option, none, some, if◌then◌else◌,
}
use gpu_platform_control_pla.Base.Text.{Text, text, text_eq}
use gpu_platform_control_pla.Base.Results.{Result, ok, err}

-- A GPUQuotaPolicy, as far as the webhooks read it.
pub record PolicyMode : Type 0 where
  pub name : Text
  pub target_namespace : Text
  pub training_quota : Bool

-- A read of one object by its key.
pub data Read (A : Type 0) : Type 0 where
  not_found read_failed : Read A
  found : A → Read A

pub data ReadError : Type 0 where
  no_reader list_failed get_failed : ReadError

pub record Reader : Type 0 where
  pub policies : Option (List PolicyMode)  -- `none` is a list that failed
  -- By name and namespace, whether the ResourceQuota caps GPU requests.
  pub resource_quota : Text → Text → Read Bool
  -- By name and namespace, the queue label of a Job; a missing one reads as empty.
  pub job_queue : Text → Text → Read Text

unfoldable pub quota_name : Text → Text
quota_name policy_name = text "gpuquota-" ++ policy_name

-- The policies of the namespace; `none` where one of them has a training quota.
unfoldable pub resource_quota_only : Text → List PolicyMode → Option (List PolicyMode)
resource_quota_only namespace [] = some []
resource_quota_only namespace (p ∷ ps) =
    let rest = resource_quota_only namespace ps in
    if not (text_eq p.target_namespace namespace)
    then rest
    else if p.training_quota
    then none
    else elim rest [ none ↦ none | some qs ↦ some (p ∷ qs) ]

-- The loop over the quotas of those policies.
unfoldable pub any_capped : Reader → Text → List PolicyMode → Result ReadError Bool
unfolding quota_name
any_capped reader namespace [] = ok false
any_capped reader namespace (p ∷ ps) =
    let rest = any_capped reader namespace ps in
    elim (reader.resource_quota (quota_name p.name) namespace) [
      | not_found ↦ rest
      | read_failed ↦ err get_failed
      | found capped ↦ if capped then ok true else rest
    ]

unfoldable pub metered_by_resource_quota : Option Reader → Text → Result ReadError Bool
unfolding resource_quota_only any_capped
metered_by_resource_quota none namespace = err no_reader
metered_by_resource_quota (some reader) namespace = elim reader.policies [
  | none ↦ err list_failed
  | some items ↦ elim (resource_quota_only namespace items) [
    | none ↦ ok false
    | some ps ↦ any_capped reader namespace ps
  ]
]
