-- ===== src/Tests/Pods.antt =====
-- The Pod webhook's result at a concrete Pod.
use gpu_platform_control_pla.Base.{true, false, [], ◌∷◌, none, some}
use gpu_platform_control_pla.Base.Text.{text}
use gpu_platform_control_pla.Base.Int.{pos}
use gpu_platform_control_pla.Webhook.QuotaMode.{Reader, not_found, found}
use gpu_platform_control_pla.Webhook.PodGuard.{Pod, gpu_request}

abbrev reader : Reader
reader = record {
  policies =
      some (record { name = text "p"; target_namespace = text "a"; training_quota = false } ∷ []);
  resource_quota = λ name namespace. found true;
  job_queue = λ name namespace. not_found;
}

abbrev job_pod : Pod
job_pod = record {
  namespace = text "a";
  annotations = [];
  labels = [];
  init_containers = [];
  containers = record { gpu_limit = some 2; gpu_request = none } ∷ [];
  grace_period = some (pos 30);
  controller = some (record { api_version = text "batch/v1"; kind = text "Job"; name = text "j" });
}
