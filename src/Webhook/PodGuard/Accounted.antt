-- ===== src/Webhook/PodGuard/Accounted.antt =====
-- Which Pods that ask for GPUs are let in.
use gpu_platform_control_pla.Base.{◌≡◌, Bool, true, false, List, some, All}
use gpu_platform_control_pla.Base.Text.{Text}
use gpu_platform_control_pla.Base.Maps.{lookup}
use gpu_platform_control_pla.Base.Results.{ok}
use gpu_platform_control_pla.Webhook.QuotaMode.{PolicyMode, Reader, found, quota_name}
use gpu_platform_control_pla.Webhook.PodGuard.{
  Pod, job_controller_user, system_namespace_prefix, kueue_queue_label, quota_exempt_annotation,
  has_prefix, is_present, is_nonempty, or_missing, traces_to_a_queue, Response, allowed,
  allowed_with_warning, denied, errored,
}

-- The namespace has policies, none with a training quota, and one whose ResourceQuota caps GPUs.
pub record IsMetered (reader : Reader) (namespace : Text) : Type 0 where
  pub items : List PolicyMode
  pub listed : reader.policies ≡ some items
  pub no_training : All (λ p. p.target_namespace ≡ namespace → p.training_quota ≡ false) items
  pub capping : PolicyMode
  pub capped : reader.resource_quota (quota_name capping.name) namespace ≡ found true

-- The ways in which somebody is charged for a Pod, or the cluster vouches for it.
pub data IsAccounted (reader : Reader) (user : Text) (pod : Pod) : Type 0 where
  -- Infrastructure that kube-system creates and that says it is exempt.
  exempt :
      is_present (lookup quota_exempt_annotation pod.annotations) ≡ true
      → has_prefix user system_namespace_prefix ≡ true
      → IsAccounted reader user pod
  -- The Pod itself goes through a queue.
  queued :
      is_nonempty (or_missing (lookup kueue_queue_label pod.labels)) ≡ true
      → IsAccounted reader user pod
  -- The Job controller made it, for a Job that goes through a queue.
  queued_job :
      user ≡ job_controller_user
      → traces_to_a_queue reader pod ≡ ok true
      → IsAccounted reader user pod
  -- The Job controller made it, in a namespace that a ResourceQuota meters.
  metered :
      user ≡ job_controller_user
      → traces_to_a_queue reader pod ≡ ok false
      → IsMetered reader pod.namespace
      → IsAccounted reader user pod

abbrev pub is_allowed : Response → Bool
is_allowed allowed = true
is_allowed allowed_with_warning = true
is_allowed (denied d) = false
is_allowed (errored code) = false
