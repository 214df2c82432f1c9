-- ===== src/Controller/Api.antt =====
-- What the controllers call of Kubernetes: the API server's answer to a write, and the helpers of
-- apimachinery and controller-runtime, with what each documents.
use gpu_platform_control_pla.Base.{◌≡◌, ◌≢◌, Bool, true, false, List, Option, some}
use gpu_platform_control_pla.Base.Text.{Text}
use gpu_platform_control_pla.Base.Clock.{Time}
use gpu_platform_control_pla.Controller.Objects.{Taint, Condition, NodeHealth, NodeHealthStatus}

pub record Api : Type 0 where
  -- meta.SetStatusCondition at a time. Setting a condition that is there already changes nothing.
  pub set_status_condition : Condition → Time → List Condition → List Condition
  pub set_again :
      (c : Condition) (t u : Time) (cs : List Condition)
      → set_status_condition c u (set_status_condition c t cs) ≡ set_status_condition c t cs
  -- equality.Semantic.DeepEqual, which tells a nil list from an empty one no more than the model does.
  pub deep_equal : NodeHealthStatus → NodeHealthStatus → Bool
  pub deep_equal_same : (s t : NodeHealthStatus) → deep_equal s t ≡ true → s ≡ t
  pub deep_equal_refl : (s : NodeHealthStatus) → deep_equal s s ≡ true
  -- controllerutil's finalizer helpers.
  pub contains_finalizer : Text → List Text → Bool
  pub add_finalizer : Text → List Text → List Text
  pub remove_finalizer : Text → List Text → List Text
  pub contains-add : (f : Text) (fs : List Text) → contains_finalizer f (add_finalizer f fs) ≡ true
  pub contains-remove :
      (f : Text) (fs : List Text) → contains_finalizer f (remove_finalizer f fs) ≡ false
  -- A JSON merge patch from a base to a changed list, applied to the stored list: RFC 7386 replaces a
  -- list as a whole.
  pub merge_patch : List Taint → List Taint → List Taint → List Taint
  pub merge_replaces :
      (base changed stored : List Taint)
      → base ≢ changed
      → merge_patch base changed stored ≡ changed
  -- What is stored after an update: an object that is not being deleted is stored as it is given;
  -- one that is may go with its last finalizer.
  pub updated : NodeHealth → Option NodeHealth
  pub updated-kept : (n : NodeHealth) → n.deleting ≡ false → updated n ≡ some n
