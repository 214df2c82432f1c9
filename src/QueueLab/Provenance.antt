-- ===== src/QueueLab/Provenance.antt =====
-- What a watched object says (internal/queuelab/provenance.go): the classification of a Workload, a
-- Job or a Pod, and the workload's own account in its termination message.
use gpu_platform_control_pla.Base.{
  Bool, false, not, ◌&&◌, ◌||◌, Option, none, some, List, [], ◌∷◌, if◌then◌else◌,
}
use gpu_platform_control_pla.Base.Int.{ℤ, pos, ltb_ℤ, leb_ℤ}
use gpu_platform_control_pla.Base.Float.{Float, nan, inf, fin, zero_f, one, ltb_f}
use gpu_platform_control_pla.Base.Text.{Text, text, text_eq}
use gpu_platform_control_pla.Base.Maps.{has_key}
use gpu_platform_control_pla.Base.Strings.{has_prefix, trim_prefix, fields, atoi}
use gpu_platform_control_pla.QueueLab.Events.{EventType, stop_reason_succeeded, stop_reason_failed}

-- A condition of a Kubernetes object. `none` is a zero LastTransitionTime.
pub record Condition : Type 0 where
  pub type : Text
  pub status : Text
  pub reason : Text
  pub transition_unix_nanos : Option ℤ

pub record Workload : Type 0 where
  pub conditions : List Condition
  pub has_admission : Bool

pub record Job : Type 0 where
  pub conditions : List Condition

-- State.Terminated of a container; `none` is a zero FinishedAt.
pub record Terminated : Type 0 where
  pub exit_code : ℤ
  pub message : Text
  pub finished_unix_nanos : Option ℤ

pub record Pod : Type 0 where
  pub phase : Text
  pub conditions : List Condition
  pub containers : List (Option Terminated)

-- Why a run is invalid. Each stands for the code's message, none of which is empty.
pub data Cause : Type 0 where
  unexpected_eviction : Text → Cause
  job_failed : Text → Cause
  ready_pod_deleted : Text → Cause
  ready_pod_vanished : Text → Cause
  desynced : Text → Cause

-- `event` is `none` for the empty type; `invalid` is Invalid with its InvalidReason.
pub record ObservedState : Type 0 where
  pub event : Option EventType
  pub reason : Text
  pub invalid : Option Cause
  pub component_stamp_unix_nanos : Option ℤ
  pub exit_code : Option ℤ
  pub iterations : Option ℤ
  pub workload_kind : Text
  pub device_status : Text
  pub duty_cycle : Option Float

abbrev pub no_state : ObservedState
no_state = record {
  event = none;
  reason = [];
  invalid = none;
  component_stamp_unix_nanos = none;
  exit_code = none;
  iterations = none;
  workload_kind = [];
  device_status = [];
  duty_cycle = none;
}

abbrev pub condition_status_true : Text
condition_status_true = text "True"

unfoldable pub condition_true : List Condition → Text → Bool × Text
condition_true [] type = (false, [])
condition_true (c ∷ cs) type =
    if text_eq c.type type
    then (text_eq c.status condition_status_true, c.reason)
    else condition_true cs type

-- podConditionTrue.
unfoldable pub pod_condition_true : List Condition → Text → Bool
pod_condition_true [] type = false
pod_condition_true (c ∷ cs) type =
    if text_eq c.type type
    then text_eq c.status condition_status_true
    else pod_condition_true cs type

-- conditionStamp and podConditionStamp.
unfoldable pub condition_stamp : List Condition → Text → Option ℤ
condition_stamp [] type = none
condition_stamp (c ∷ cs) type =
    if text_eq c.type type then c.transition_unix_nanos else condition_stamp cs type

unfoldable pub classify_evicted : Workload → Text → ObservedState
unfolding condition_true
classify_evicted wl reason =
    let preempted = condition_true wl.conditions (text "Preempted") in
    if text_eq reason (text "Preempted")
      && (preempted.0 && text_eq preempted.1 (text "InCohortReclamation"))
    then record no_state { event = some EventType.preempted; reason = text "InCohortReclamation" }
    else record no_state { invalid = some (unexpected_eviction reason) }

unfoldable pub classify_workload : Workload → ObservedState
unfolding condition_true classify_evicted condition_stamp
classify_workload wl =
    let evicted = condition_true wl.conditions (text "Evicted") in
    if evicted.0
    then classify_evicted wl evicted.1
    else if (condition_true wl.conditions (text "Admitted")).0 && wl.has_admission
    then record no_state {
      event = some EventType.admitted;
      reason = text "Admitted";
      component_stamp_unix_nanos = condition_stamp wl.conditions (text "Admitted");
    }
    else no_state

-- The first condition that is true and ends the Job decides.
unfoldable pub classify_job_conditions : List Condition → ObservedState
classify_job_conditions [] = no_state
classify_job_conditions (c ∷ cs) =
    let rest = classify_job_conditions cs in
    if not (text_eq c.status condition_status_true)
    then rest
    else if text_eq c.type (text "Complete")
    then record no_state { event = some EventType.completed; reason = c.type }
    else if text_eq c.type (text "Failed")
    then record no_state { invalid = some (job_failed c.reason) }
    else rest

unfoldable pub classify_job : Job → ObservedState
unfolding classify_job_conditions
classify_job job = classify_job_conditions job.conditions

abbrev pub kind_cpu_float : Text
kind_cpu_float = text "cpu-float"

abbrev pub kind_cuda_fma : Text
kind_cuda_fma = text "cuda-fma"

abbrev pub device_ok : Text
device_ok = text "ok"

abbrev pub device_launch_failed_midrun : Text
device_launch_failed_midrun = text "launch-failed-midrun"

abbrev pub device_statuses : List Text
device_statuses =
    device_ok
    ∷ (text "not-attempted"
        ∷ (text "no-libcuda"
            ∷ (text "cuinit-failed"
                ∷ (text "no-device"
                    ∷ (text "ctx-failed"
                        ∷ (text "ptx-load-failed"
                            ∷ (text "no-kernel"
                                ∷ (text "alloc-failed"
                                    ∷ (text "memset-failed"
                                        ∷ (text "launch-failed"
                                            ∷ (device_launch_failed_midrun ∷ [])))))))))))

-- The workload's account of itself; nothing at all when the message is not of its shape.
pub record Report : Type 0 where
  pub iters : Option ℤ
  pub kind : Text
  pub device : Text
  pub duty : Float

abbrev pub no_report : Report
no_report = record { iters = none; kind = []; device = []; duty = zero_f }

-- Which device statuses a kind of workload can carry.
unfoldable pub tokens_agree : Text → Text → Bool
tokens_agree kind device =
    (text_eq kind kind_cpu_float && not (text_eq device device_ok))
    || (text_eq kind kind_cuda_fma
        && (text_eq device device_ok || text_eq device device_launch_failed_midrun))

-- v <= 0, which NaN is not.
unfoldable pub at_most_zero : Float → Bool
at_most_zero nan = false
at_most_zero (inf s) = not s
at_most_zero (fin z) = leb_ℤ z (pos 0)

-- `parse_float` is strconv.ParseFloat.
module _ (parse_float : Text → Option Float) where
  -- The duty of a report: full where the message has no fourth field.
  unfoldable pub duty_of : List Text → Option Float
  unfolding at_most_zero
  duty_of [] = some one
  duty_of (d ∷ ds) =
      if not (has_prefix d (text "duty="))
      then none
      else elim (parse_float (trim_prefix d (text "duty="))) [
        | none ↦ none
        | some v ↦ if at_most_zero v || ltb_f one v then none else some v
      ]

  unfoldable pub read_tokens : ℤ → Text → Text → List Text → Report
  unfolding tokens_agree duty_of
  read_tokens n kind device more =
      if not (has_key device device_statuses) || not (tokens_agree kind device)
      then no_report
      else elim (duty_of more) [
        | none ↦ no_report
        | some u ↦ record { iters = some n; kind = kind; device = device; duty = u }
      ]

  -- The message's fields: `more` are those after the third, at most one.
  unfoldable pub read_fields : Text → Text → Text → List Text → Report
  unfolding read_tokens
  read_fields iters kind dev more = elim (atoi (trim_prefix iters (text "iters="))) [
    | none ↦ no_report
    | some n ↦
        if not (has_prefix iters (text "iters=")) || ltb_ℤ n (pos 0)
        then no_report
        else if not (has_prefix kind (text "kind=")) || not (has_prefix dev (text "dev="))
        then no_report
        else read_tokens n (trim_prefix kind (text "kind=")) (trim_prefix dev (text "dev=")) more
  ]

  unfoldable pub split_message : List Text → Report
  unfolding read_fields
  split_message (a ∷ (b ∷ (c ∷ []))) = read_fields a b c []
  split_message (a ∷ (b ∷ (c ∷ (d ∷ [])))) = read_fields a b c (d ∷ [])
  split_message other = no_report

  unfoldable pub report_from_message : Text → Report
  unfolding split_message
  report_from_message msg = split_message (fields msg)

  -- What soleTerminated returns: the code, the report and the finish of the one terminated
  -- container, nothing where there are several.
  unfoldable pub sole_from :
      Option ℤ × Report × Option ℤ → List (Option Terminated) → Option ℤ × Report × Option ℤ
  sole_from found [] = found
  sole_from found (none ∷ cs) = sole_from found cs
  sole_from (some code, report, finished) (some t ∷ cs) = (none, no_report, none)
  sole_from (none, report, finished) (some t ∷ cs) =
      sole_from (some t.exit_code, report_from_message t.message, t.finished_unix_nanos) cs

  unfoldable pub sole_terminated : Pod → Option ℤ × Report × Option ℤ
  unfolding sole_from
  sole_terminated pod = sole_from (none, no_report, none) pod.containers

  unfoldable pub stopped_state : Text → Option ℤ × Report × Option ℤ → ObservedState
  stopped_state phase (code, report, finished) = record no_state {
    event = some EventType.attempt_stopped;
    reason = phase;
    exit_code = code;
    iterations = report.iters;
    component_stamp_unix_nanos = finished;
    workload_kind = report.kind;
    device_status = report.device;
    duty_cycle = if ltb_f zero_f report.duty then some report.duty else none;
  }

  unfoldable pub classify_pod : Pod → ObservedState
  unfolding pod_condition_true condition_stamp sole_terminated stopped_state
  classify_pod pod =
      if text_eq pod.phase stop_reason_succeeded || text_eq pod.phase stop_reason_failed
      then stopped_state pod.phase (sole_terminated pod)
      else if text_eq pod.phase (text "Running") && pod_condition_true pod.conditions (text "Ready")
      then record no_state {
        event = some EventType.pod_ready;
        reason = text "Ready";
        component_stamp_unix_nanos = condition_stamp pod.conditions (text "Ready");
      }
      else no_state
