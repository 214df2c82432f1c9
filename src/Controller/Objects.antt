-- ===== src/Controller/Objects.antt =====
-- The Kubernetes objects that the node health controller reads and writes: corev1.Node as far as it
-- is read, and NodeHealth of api/v1/nodehealth_types.go.
use gpu_platform_control_pla.Base.{ℕ, Bool, List, Option}
use gpu_platform_control_pla.Base.Text.{Text}
use gpu_platform_control_pla.Base.Clock.{Time}

pub data TaintEffect : Type 0 where
  no_schedule prefer_no_schedule no_execute : TaintEffect

pub record Taint : Type 0 where
  pub key : Text
  pub value : Text
  pub effect : TaintEffect

pub data ConditionStatus : Type 0 where
  is_true is_false is_unknown : ConditionStatus

pub record NodeCondition : Type 0 where
  pub kind : Text
  pub status : ConditionStatus

pub record Node : Type 0 where
  pub name : Text
  pub taints : List Taint
  pub conditions : List NodeCondition

-- metav1.Condition as the caller gives it; its transition time is set by apimachinery.
pub record Condition : Type 0 where
  pub kind : Text
  pub status : ConditionStatus
  pub reason : Text
  pub message : Text
  pub observed_generation : ℕ
  pub last_transition_time : Time

pub record FaultSignal : Type 0 where
  pub source : Text
  pub code : Text

pub record NodeHealthStatus : Type 0 where
  pub phase : Text
  pub observed_generation : ℕ
  pub fault_signal : Option FaultSignal
  pub last_transition_time : Option Time
  pub conditions : List Condition

pub record NodeHealth : Type 0 where
  pub name : Text
  pub node_name : Text
  pub generation : ℕ
  pub deleting : Bool
  pub finalizers : List Text
  pub status : NodeHealthStatus
