-- ===== src/Controller/TrainingObjects.antt =====
-- The Kubernetes objects that the training job controller reads and writes: MLTrainingJob of
-- api/v1/mltrainingjob_types.go, and batch/v1 Jobs and Kueue Workloads as far as they are read.
use gpu_platform_control_pla.Base.{ℕ, Bool, List, Option}
use gpu_platform_control_pla.Base.Int.{ℤ}
use gpu_platform_control_pla.Base.Text.{Text}
use gpu_platform_control_pla.Base.Maps.{Map}
use gpu_platform_control_pla.Base.Clock.{Time}
use gpu_platform_control_pla.Controller.Objects.{Condition, ConditionStatus}

pub record TrainingSpec : Type 0 where
  pub queue : Text
  pub image : Text
  pub command : List Text
  pub gpu_class : Text
  pub gpu_count : ℤ
  pub parallelism : ℤ
  pub completions : ℤ

pub record TrainingStatus : Type 0 where
  pub phase : Text
  pub observed_generation : ℕ
  pub last_transition_time : Option Time
  pub admitted_at : Option Time
  pub running_observed_at : Option Time
  pub admit_to_running_seconds : Text
  pub conditions : List Condition

pub record TrainingJob : Type 0 where
  pub name : Text
  pub namespace : Text
  pub uid : Text
  pub generation : ℕ
  pub deleting : Bool
  pub finalizers : List Text
  pub spec : TrainingSpec
  pub status : TrainingStatus

-- The Pod template that BuildJob renders.
pub record PodTemplate : Type 0 where
  pub restart_policy : Text
  pub container_name : Text
  pub image : Text
  pub command : List Text
  pub env : List (Text × Text)
  pub gpu_limit : ℤ

pub record JobCondition : Type 0 where
  pub kind : Text
  pub status : ConditionStatus

-- `created` is a creation time that is not zero, `controller` the UID of the controller reference.
pub record Job : Type 0 where
  pub name : Text
  pub namespace : Text
  pub uid : Text
  pub created : Bool
  pub labels : Map Text
  pub controller : Option Text
  pub suspend : Option Bool
  pub parallelism : Option ℤ
  pub completions : Option ℤ
  pub template : Option PodTemplate
  pub conditions : List JobCondition
  pub active : ℤ

pub record Workload : Type 0 where
  pub name : Text
  pub creation : Time
  pub labels : Map Text
  pub owner_uids : List Text
  pub conditions : List Condition
