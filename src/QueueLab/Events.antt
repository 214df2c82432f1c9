-- ===== src/QueueLab/Events.antt =====
-- The ledger's events and the rows of the frozen trace (ledger.go, trace.go of internal/queuelab).
use gpu_platform_control_pla.Base.{Bool, true, false, Option, none, some, List, [], ◌∷◌}
use gpu_platform_control_pla.Base.Int.{ℤ, pos}
use gpu_platform_control_pla.Base.Text.{Text, text, text_eq}
use gpu_platform_control_pla.Base.Float.{Float}

-- The type of an event is a string: `unknown` is any other than the six.
pub data EventType : Type 0 where
  submitted : EventType
  admitted : EventType
  pod_ready : EventType
  preempted : EventType
  attempt_stopped : EventType
  completed : EventType
  unknown : Text → EventType

-- `==` on event types.
unfoldable pub type_eq : EventType → EventType → Bool
type_eq EventType.submitted EventType.submitted = true
type_eq EventType.admitted EventType.admitted = true
type_eq EventType.pod_ready EventType.pod_ready = true
type_eq EventType.preempted EventType.preempted = true
type_eq EventType.attempt_stopped EventType.attempt_stopped = true
type_eq EventType.completed EventType.completed = true
type_eq (EventType.unknown s) (EventType.unknown t) = text_eq s t
type_eq s t = false

abbrev pub stop_reason_succeeded : Text
stop_reason_succeeded = text "Succeeded"

abbrev pub stop_reason_failed : Text
stop_reason_failed = text "Failed"

pub record LifecycleEvent : Type 0 where
  pub elapsed_ns : ℤ
  pub wall_unix_nanos : ℤ
  pub kind : Text
  pub type : EventType
  pub exit_code : Option ℤ
  pub iterations : Option ℤ
  pub workload_kind : Text
  pub device_status : Text
  pub duty_cycle : Option Float
  pub job : Text
  pub component_stamp_unix_nanos : Option ℤ
  pub observed_skew_ns : Option ℤ
  pub object_uid : Text
  pub resource_version : Text
  pub reason : Text

pub record TrainingTraceRow : Type 0 where
  pub index : ℤ
  pub name : Text
  pub offset_ms : ℤ
  pub tenant : Text
  pub gpu_count : ℤ
  pub duration_sec : ℤ
  pub duty : Float

-- The component's own clock for an event, zero when it published none.
unfoldable pub stamp_of : LifecycleEvent → ℤ
stamp_of e = elim (e.component_stamp_unix_nanos) [ none ↦ pos 0 | some t ↦ t ]

abbrev pub names_of : List TrainingTraceRow → List Text
names_of [] = []
names_of (row ∷ rows) = row.name ∷ names_of rows
