-- ===== src/QueueLab/Timeline.antt =====
-- foldEvent of internal/queuelab/ledger.go: one event after the other, into one timeline per row.
pub mod Invariant
pub mod Folding
use gpu_platform_control_pla.Base.{
  ℕ, Bool, true, false, not, ◌&&◌, ◌||◌, Option, none, some, List, [], ◌∷◌, ◌++◌, if◌then◌else◌,
}
use gpu_platform_control_pla.Base.Int.{ℤ, pos, ltb_ℤ, eq_ℤ}
use gpu_platform_control_pla.Base.Text.{Text, text_eq}
use gpu_platform_control_pla.Base.Maps.{Map, lookup, insert}
use gpu_platform_control_pla.Base.Results.{Result, ok, err, ◌>>=◌, on_ok}
use gpu_platform_control_pla.QueueLab.Events.{
  EventType, LifecycleEvent, TrainingTraceRow, stamp_of, type_eq, stop_reason_succeeded,
  stop_reason_failed,
}

-- One Pod's execution.
pub record Attempt : Type 0 where
  pub ready_stamp_ns : ℤ
  pub uid : Text
  pub ready_ns : ℤ
  pub stopped : Bool
  pub stop_ns : ℤ
  pub stop_reason : Text

pub record JobTimeline : Type 0 where
  pub tenant : Text
  pub gpu_count : ℤ
  pub duration_sec : ℤ
  pub submitted : Bool
  pub submitted_ns : ℤ
  pub admitted : Bool
  pub admit_ns : ℤ
  pub admit_stamp_ns : ℤ
  pub completed : Bool
  pub completed_ns : ℤ
  pub attempts : Map Attempt
  pub attempt_seq : List Text
  pub preempted_ns : List ℤ

-- The errors of Reconstruct. `nil_pointer` is no error: it is the panic of a nil pointer.
pub data Refusal : Type 0 where
  duplicate_job : Refusal
  negative_time : Refusal
  unknown_job : Refusal
  no_pod_uid : Refusal
  bad_reason : Refusal
  unknown_type : Refusal
  submitted_twice : Refusal
  completed_twice : Refusal
  never_ready : Refusal
  never_submitted : Refusal
  never_admitted : Refusal
  ready_too_early : Refusal
  stopped_before_ready : Refusal
  overlap : Refusal
  too_many_preemptions : Refusal
  nil_pointer : Refusal

-- The shape that an event must have wherever it lands.
unfoldable pub check_shape : EventType → LifecycleEvent → Option Refusal
check_shape EventType.submitted e = none
check_shape EventType.admitted e = none
check_shape EventType.preempted e = none
check_shape EventType.completed e = none
check_shape EventType.pod_ready e = if text_eq e.object_uid [] then some no_pod_uid else none
check_shape EventType.attempt_stopped e =
    if text_eq e.object_uid []
    then some no_pod_uid
    else if not (text_eq e.reason stop_reason_succeeded)
        && not (text_eq e.reason stop_reason_failed)
    then some bad_reason
    else none
check_shape (EventType.unknown s) e = some unknown_type

-- The first sight of a Pod that is ready.
unfoldable pub new_attempt : LifecycleEvent → Attempt
new_attempt e = record {
  ready_stamp_ns = stamp_of e;
  uid = e.object_uid;
  ready_ns = e.elapsed_ns;
  stopped = false;
  stop_ns = pos 0;
  stop_reason = [];
}

-- PodReady, by what the row's map holds under the Pod's UID.
unfoldable pub fold_ready : JobTimeline → LifecycleEvent → Option Attempt → JobTimeline
unfolding new_attempt
fold_ready t e none = record t {
  attempts = insert e.object_uid (new_attempt e) t.attempts;
  attempt_seq = t.attempt_seq ++ (e.object_uid ∷ []);
}
fold_ready t e (some a) =
    if ltb_ℤ e.elapsed_ns a.ready_ns
    then record t {
      attempts =
          insert e.object_uid (record a { ready_ns = e.elapsed_ns; ready_stamp_ns = stamp_of e })
            t.attempts;
    }
    else t

-- AttemptStopped, likewise.
unfoldable pub fold_stop :
    JobTimeline → LifecycleEvent → ℤ → Option Attempt → Result Refusal JobTimeline
fold_stop t e horizon none = if ltb_ℤ horizon e.elapsed_ns then ok t else err never_ready
fold_stop t e horizon (some a) =
    if not a.stopped || ltb_ℤ e.elapsed_ns a.stop_ns
    then ok (record t {
      attempts =
          insert e.object_uid
            (record a { stopped = true; stop_ns = e.elapsed_ns; stop_reason = e.reason })
            t.attempts;
    })
    else ok t

-- The switch that folds an event of a known row.
unfoldable pub fold_into : EventType → JobTimeline → LifecycleEvent → ℤ → Result Refusal JobTimeline
unfolding fold_ready fold_stop
fold_into EventType.submitted t e horizon =
    if t.submitted && not (eq_ℤ t.submitted_ns e.elapsed_ns)
    then err submitted_twice
    else ok (record t { submitted = true; submitted_ns = e.elapsed_ns })
fold_into EventType.admitted t e horizon =
    if not t.admitted || ltb_ℤ e.elapsed_ns t.admit_ns
    then ok (record t { admitted = true; admit_ns = e.elapsed_ns; admit_stamp_ns = stamp_of e })
    else ok t
fold_into EventType.pod_ready t e horizon = ok (fold_ready t e (lookup e.object_uid t.attempts))
fold_into EventType.preempted t e horizon =
    ok (record t { preempted_ns = t.preempted_ns ++ (e.elapsed_ns ∷ []) })
fold_into EventType.attempt_stopped t e horizon =
    fold_stop t e horizon (lookup e.object_uid t.attempts)
fold_into EventType.completed t e horizon =
    if t.completed && not (eq_ℤ t.completed_ns e.elapsed_ns)
    then err completed_twice
    else ok (record t { completed = true; completed_ns = e.elapsed_ns })
fold_into (EventType.unknown s) t e horizon = ok t

-- A well-shaped event after the horizon counts only if it is a stop.
unfoldable pub fold_shaped :
    Map JobTimeline
    → LifecycleEvent
    → ℤ
    → JobTimeline
    → Option Refusal
    → Result Refusal (Map JobTimeline)
fold_shaped by_job e horizon t (some r) = err r
fold_shaped by_job e horizon t none =
    if ltb_ℤ horizon e.elapsed_ns && not (type_eq e.type EventType.attempt_stopped)
    then ok by_job
    else fold_into e.type t e horizon >>= λ t'. ok (insert e.job t' by_job)

unfoldable pub fold_known :
    Map JobTimeline → LifecycleEvent → ℤ → Option JobTimeline → Result Refusal (Map JobTimeline)
unfolding fold_shaped
fold_known by_job e horizon none = err unknown_job
fold_known by_job e horizon (some t) = fold_shaped by_job e horizon t (check_shape e.type e)

unfoldable pub fold_event : Map JobTimeline → LifecycleEvent → ℤ → Result Refusal (Map JobTimeline)
unfolding fold_known
fold_event by_job e horizon =
    if ltb_ℤ e.elapsed_ns (pos 0)
    then err negative_time
    else fold_known by_job e horizon (lookup e.job by_job)

-- The loop over the events.
unfoldable pub fold_events :
    Map JobTimeline → List LifecycleEvent → ℤ → Result Refusal (Map JobTimeline)
fold_events by_job [] horizon = ok by_job
fold_events by_job (e ∷ es) horizon =
    fold_event by_job e horizon >>= λ next. fold_events next es horizon

-- A row's timeline before any event.
unfoldable pub seeded : TrainingTraceRow → JobTimeline
seeded row = record {
  tenant = row.tenant;
  gpu_count = row.gpu_count;
  duration_sec = row.duration_sec;
  submitted = false;
  submitted_ns = pos 0;
  admitted = false;
  admit_ns = pos 0;
  admit_stamp_ns = pos 0;
  completed = false;
  completed_ns = pos 0;
  attempts = [];
  attempt_seq = [];
  preempted_ns = [];
}

-- A row whose name is taken is refused.
abbrev pub unless_taken :
    Option JobTimeline → Result Refusal (Map JobTimeline) → Result Refusal (Map JobTimeline)
unless_taken none rest = rest
unless_taken (some t) rest = err duplicate_job

-- The loop over the trace: one timeline per row.
unfoldable pub seed : Map JobTimeline → List TrainingTraceRow → Result Refusal (Map JobTimeline)
unfolding seeded
seed by_job [] = ok by_job
seed by_job (row ∷ rows) =
    unless_taken (lookup row.name by_job) (seed (insert row.name (seeded row) by_job) rows)
