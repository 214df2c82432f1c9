-- ===== src/Controller/TrainingApi.antt =====
-- What the training job controller calls of Kubernetes, with what each call documents.
use gpu_platform_control_pla.Base.{◌≡◌, Bool, true, false, List, Option, none, some}
use gpu_platform_control_pla.Base.Text.{Text}
use gpu_platform_control_pla.Base.Clock.{Time}
use gpu_platform_control_pla.Controller.Objects.{Condition}
use gpu_platform_control_pla.Controller.TrainingObjects.{TrainingStatus, TrainingJob, Job}

pub record TrainingApi : Type 0 where
  -- meta.SetStatusCondition at a time, and meta.IsStatusConditionTrue.
  pub set_status_condition : Condition → Time → List Condition → List Condition
  pub is_status_condition_true : List Condition → Text → Bool
  -- equality.Semantic.DeepEqual.
  pub deep_equal : TrainingStatus → TrainingStatus → Bool
  pub deep_equal_same : (s t : TrainingStatus) → deep_equal s t ≡ true → s ≡ t
  -- controllerutil's finalizer helpers.
  pub contains_finalizer : Text → List Text → Bool
  pub add_finalizer : Text → List Text → List Text
  pub remove_finalizer : Text → List Text → List Text
  -- What is stored after an update of a training job, none once it is gone.
  pub updated : TrainingJob → Option TrainingJob
  -- controllerutil.SetControllerReference, none where it returns an error. It sets the controller
  -- reference and nothing else that is modelled.
  pub set_controller_reference : TrainingJob → Job → Option Job
  pub reference_sets :
      (t : TrainingJob) (j k : Job)
      → set_controller_reference t j ≡ some k
      → k ≡ record j { controller = some t.uid }
  -- What the API server stores for a Job that is created: it sets a UID and a creation time, and
  -- admission may set more.
  pub stored_new : Job → Job
  -- controllerutil.CreateOrUpdate: of a mutation that may fail, the object as it is given, the one
  -- that is stored, and whether a call fails. The result is what is stored then, none for an error;
  -- an update is stored as it is sent.
  pub create_or_update : (Job → Option Job) → Job → Option Job → Bool → Option Job
  pub creates :
      (f : Job → Option Job) (given k : Job)
      → create_or_update f given none false ≡ some k
      → (m : Job) × (f given ≡ some m) × (k ≡ stored_new m)
  pub updates :
      (f : Job → Option Job) (given j k : Job)
      → create_or_update f given (some j) false ≡ some k
      → f j ≡ some k
  pub fails_whole :
      (f : Job → Option Job) (given : Job) (before : Option Job)
      → create_or_update f given before true ≡ none
