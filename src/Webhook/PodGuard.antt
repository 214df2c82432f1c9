-- ===== src/Webhook/PodGuard.antt =====
-- The validating webhook of Pods that ask for GPUs (internal/webhook/v1/gpupod_webhook.go), on a
-- decoded Pod.
pub mod Accounted
use gpu_platform_control_pla.Base.{
  ℕ, ◌+◌, ◌%◌, ◌^◌, ◌≡◌, Bool, true, false, not, ◌&&◌, ◌||◌, List, [], ◌∷◌, ◌++◌, Option, none,
  some, ◌==◌, if◌then◌else◌,
}
unfoldable pub use gpu_platform_control_pla.Base.Strings.{has_prefix}
use gpu_platform_control_pla.Base.Text.{Text, text, text_eq}
use gpu_platform_control_pla.Base.Maps.{Map, lookup}
use gpu_platform_control_pla.Base.Int.{ℤ, pos, leb_ℤ}
use gpu_platform_control_pla.Base.Results.{Result, ok, err}
use gpu_platform_control_pla.Webhook.QuotaMode.{
  Reader, Read, not_found, read_failed, found, ReadError, get_failed, metered_by_resource_quota,
}

-- The GPUs in a container's limits and requests, by Quantity.Value.
pub record Container : Type 0 where
  pub gpu_limit : Option ℕ
  pub gpu_request : Option ℕ

pub record OwnerRef : Type 0 where
  pub api_version : Text
  pub kind : Text
  pub name : Text

pub record Pod : Type 0 where
  pub namespace : Text
  pub annotations : Map Text
  pub labels : Map Text
  pub init_containers : List Container
  pub containers : List Container
  pub grace_period : Option ℤ
  pub controller : Option OwnerRef  -- metav1.GetControllerOf

abbrev pub kueue_queue_label : Text
kueue_queue_label = text "kueue.x-k8s.io/queue-name"

abbrev pub job_controller_user : Text
job_controller_user = text "system:serviceaccount:kube-system:job-controller"

abbrev pub system_namespace_prefix : Text
system_namespace_prefix = text "system:serviceaccount:kube-system:"

abbrev pub quota_exempt_annotation : Text
quota_exempt_annotation = text "platform.lkhun9311.github.io/quota-exempt"

abbrev pub max_grace_seconds : ℤ
max_grace_seconds = pos 120

-- A limit counts before a request.
abbrev pub devices_of : Option ℕ → Option ℕ → ℕ
devices_of (some n) request = n
devices_of none (some n) = n
devices_of none none = 0

-- The loop over the containers, in an int64.
unfoldable pub add_devices : ℕ → List Container → ℕ
add_devices total [] = total
add_devices total (c ∷ cs) =
    add_devices ((total + devices_of c.gpu_limit c.gpu_request) % 2 ^ 64) cs

unfoldable pub gpu_request : Pod → ℕ
unfolding add_devices
gpu_request pod = add_devices 0 (pod.init_containers ++ pod.containers)

unfoldable pub grace_too_long : Pod → Bool
grace_too_long pod = elim pod.grace_period [
  | none ↦ false
  | some g ↦ not (leb_ℤ g max_grace_seconds)
]

abbrev pub is_present : Option Text → Bool
is_present none = false
is_present (some v) = true

abbrev pub is_nonempty : Text → Bool
is_nonempty [] = false
is_nonempty (c ∷ cs) = true

-- A label of a map, empty where it is missing.
abbrev pub or_missing : Option Text → Text
or_missing none = []
or_missing (some v) = v

-- What the lookup of the owning Job says.
abbrev pub on_job : Read Text → Result ReadError Bool
on_job not_found = ok false
on_job read_failed = err get_failed
on_job (found queue) = ok (is_nonempty queue)

unfoldable pub traces_to_a_queue : Reader → Pod → Result ReadError Bool
traces_to_a_queue reader pod = elim pod.controller [
  | none ↦ ok false
  | some owner ↦
      if not (text_eq owner.kind (text "Job")) || not (text_eq owner.api_version (text "batch/v1"))
      then ok false
      else on_job (reader.job_queue owner.name pod.namespace)
]

pub data Denial : Type 0 where
  grace_period_too_long exempt_is_reserved not_through_a_queue charged_to_nobody : Denial

pub data Response : Type 0 where
  allowed allowed_with_warning : Response
  denied : Denial → Response
  errored : ℕ → Response

-- Where no queue is found the namespace must be metered otherwise.
abbrev pub on_metered : Result ReadError Bool → Response
on_metered (err e) = errored 500
on_metered (ok true) = allowed
on_metered (ok false) = denied charged_to_nobody

abbrev pub on_queued : Result ReadError Bool → Result ReadError Bool → Response
on_queued (err e) metered = errored 500
on_queued (ok true) metered = allowed
on_queued (ok false) metered = on_metered metered

-- The branches of Handle, in their order: no device, a long grace period, the exemption and whether
-- it is kube-system's, the queue label, the Job controller, and what is left to look up.
unfoldable pub decide_pod : Bool → Bool → Bool → Bool → Bool → Bool → Response → Response
decide_pod no_device long_grace exempt by_system labelled by_job_controller looked_up =
    if no_device
    then allowed
    else if long_grace
    then denied grace_period_too_long
    else if exempt
    then (if not by_system then denied exempt_is_reserved else allowed_with_warning)
    else if labelled
    then allowed
    else if not by_job_controller
    then denied not_through_a_queue
    else looked_up

-- Handle on a decoded Pod; one that does not decode is answered 400.
unfoldable pub handle_pod : Reader → Text → Pod → Response
unfolding decide_pod gpu_request grace_too_long has_prefix traces_to_a_queue
    metered_by_resource_quota
handle_pod reader user pod =
    decide_pod (gpu_request pod == 0) (grace_too_long pod)
      (is_present (lookup quota_exempt_annotation pod.annotations))
      (has_prefix user system_namespace_prefix)
      (is_nonempty (or_missing (lookup kueue_queue_label pod.labels)))
      (text_eq user job_controller_user)
      (on_queued (traces_to_a_queue reader pod)
        (metered_by_resource_quota (some reader) pod.namespace))

unfoldable pub handle : Reader → Text → Option Pod → Response
unfolding handle_pod
handle reader user none = errored 400
handle reader user (some pod) = handle_pod reader user pod
