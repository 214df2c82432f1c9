-- ===== src/Controller/TrainingJob.antt =====
-- internal/controller/mltrainingjob_controller.go: the controller of training jobs.
pub mod Window
pub mod Reconcile
use gpu_platform_control_pla.Base.{
  ℕ, ◌+◌, ◌*◌, ◌/◌, Bool, true, false, not, ◌&&◌, ◌||◌, List, [], ◌∷◌, ◌++◌, Option, none, some,
  ltb, ◌==◌, if◌then◌else◌,
}
use gpu_platform_control_pla.Base.Int.{ℤ, pos, ltb_ℤ, leb_ℤ}
use gpu_platform_control_pla.Base.Float.{Float}
use gpu_platform_control_pla.Base.Text.{Text, text, text_eq, text_lt}
use gpu_platform_control_pla.Base.Maps.{Map, lookup, insert}
use gpu_platform_control_pla.Base.Clock.{Time}
use gpu_platform_control_pla.Controller.Objects.{Condition, ConditionStatus, is_true, is_false}
use gpu_platform_control_pla.Controller.TrainingObjects.{
  TrainingSpec, TrainingStatus, TrainingJob, PodTemplate, JobCondition, Job, Workload,
}
use gpu_platform_control_pla.Controller.TrainingApi.{TrainingApi}
use gpu_platform_control_pla.Controller.AdmitToRunning.{
  phase_pending, phase_admitted, phase_running, phase_succeeded, phase_failed, Outcome, nothing,
  observed, unobserved, status_eq, kueue_admitted_stamp, record_admit_to_running,
}

abbrev pub ml_training_job_finalizer : Text
ml_training_job_finalizer = text "mltrainingjob.platform.lkhun9311.github.io/finalizer"

abbrev pub kueue_queue_label : Text
kueue_queue_label = text "kueue.x-k8s.io/queue-name"

abbrev pub kueue_job_uid_label : Text
kueue_job_uid_label = text "kueue.x-k8s.io/job-uid"

abbrev pub cond_synced : Text
cond_synced = text "JobSynced"

abbrev pub cond_admitted : Text
cond_admitted = text "Admitted"

abbrev pub reason_conflict : Text
reason_conflict = text "JobConflict"

unfoldable pub default_one : ℤ → ℤ
default_one v = if leb_ℤ v (pos 0) then pos 1 else v

unfoldable pub driver_capabilities : ℤ → List (Text × Text)
driver_capabilities gpu_count =
    if leb_ℤ gpu_count (pos 0)
    then []
    else (text "NVIDIA_DRIVER_CAPABILITIES", text "compute,utility") ∷ []

-- The parts of the Job that BuildJob renders.
pub record DesiredJob : Type 0 where
  pub labels : Map Text
  pub parallelism : ℤ
  pub completions : ℤ
  pub template : PodTemplate

unfoldable pub build_job : TrainingJob → DesiredJob
unfolding default_one driver_capabilities
build_job t = record {
  labels = (kueue_queue_label, t.spec.queue) ∷ [];
  parallelism = default_one t.spec.parallelism;
  completions = default_one t.spec.completions;
  template = record {
    restart_policy = text "Never";
    container_name = text "trainer";
    image = t.spec.image;
    command = t.spec.command;
    env = driver_capabilities t.spec.gpu_count;
    gpu_limit = t.spec.gpu_count;
  };
}

-- isJobConditionTrue: the first condition of the type decides.
unfoldable pub is_job_condition_true : List JobCondition → Text → Bool
unfolding status_eq
is_job_condition_true [] type = false
is_job_condition_true (c ∷ cs) type =
    let rest = is_job_condition_true cs type in
    if text_eq c.kind type then status_eq c.status is_true else rest

unfoldable pub admitted_condition : ConditionStatus → Text → Condition
admitted_condition status reason = record {
  kind = cond_admitted;
  status = status;
  reason = reason;
  message = [];
  observed_generation = 0;
  last_transition_time = 0;
}

-- olderWorkload: by creation time, then by name.
unfoldable pub older_workload : Workload → Workload → Bool
older_workload a b =
    if not (a.creation == b.creation) then ltb a.creation b.creation else text_lt a.name b.name

abbrev or_empty : Option Text → Text
or_empty none = []
or_empty (some t) = t

unfoldable pub is_labelled : Text → Workload → Bool
is_labelled uid wl = text_eq (or_empty (lookup kueue_job_uid_label wl.labels)) uid

-- The older of the best so far and one more.
unfoldable pub keep_older : Option Workload → Workload → Option Workload
unfolding older_workload
keep_older none wl = some wl
keep_older (some best) wl = if older_workload wl best then some wl else some best

-- The loop over the claimed Workloads: the oldest labelled one and the oldest of the others.
unfoldable pub choose_from :
    Text → List Workload → Option Workload → Option Workload → Option Workload × Option Workload
unfolding is_labelled keep_older
choose_from uid [] labelled owned = (labelled, owned)
choose_from uid (wl ∷ wls) labelled owned =
    choose_from uid wls (if is_labelled uid wl then keep_older labelled wl else labelled)
      (if is_labelled uid wl then owned else keep_older owned wl)

abbrev or_else : Option Workload → Option Workload → Option Workload
or_else none b = b
or_else (some a) b = some a

-- getWorkloadForJob on the list that the index gave.
unfoldable pub get_workload_for_job : Text → List Workload → Option Workload
unfolding choose_from
get_workload_for_job uid claimed =
    let (labelled, owned) = choose_from uid claimed none none in or_else labelled owned

-- indexWorkloadByJobRef.
unfoldable pub with_uids : List Text → List Text
with_uids [] = []
with_uids (u ∷ us) = let rest = with_uids us in if text_eq u [] then rest else u ∷ rest

unfoldable pub index_workload_by_job_ref : Workload → List Text
unfolding with_uids
index_workload_by_job_ref wl =
    let uid = or_empty (lookup kueue_job_uid_label wl.labels) in
    if text_eq uid [] then with_uids wl.owner_uids else uid ∷ with_uids wl.owner_uids

-- What the controller counts.
pub data Event : Type 0 where
  phase_entered : Text → Event
  job_failed : Text → Event
  waited : Float → Event
  wait_unobserved : Text → Event

unfoldable pub outcome_events : Outcome → List Event
outcome_events nothing = []
outcome_events (observed secs) = waited secs ∷ []
outcome_events (unobserved reason) = wait_unobserved reason ∷ []

-- An owner reference of a Workload, as mapWorkloadToMLTrainingJob reads it: kind, API version, name.
unfoldable pub map_workload_to_training_job : List (Text × Text × Text) → Option Text
map_workload_to_training_job [] = none
map_workload_to_training_job ((kind, version, name) ∷ refs) =
    let rest = map_workload_to_training_job refs in
    if text_eq kind (text "Job") && text_eq version (text "batch/v1") then some name else rest

abbrev with_time : Bool → Time → TrainingStatus → TrainingStatus
with_time changed now s = if changed then record s { last_transition_time = some now } else s

-- metav1.Time travels in RFC 3339, so the API server keeps whole seconds.
abbrev pub whole_seconds : Time → Time
whole_seconds t = t / 1000000000 * 1000000000

abbrev pub stored_time : Option Time → Option Time
stored_time none = none
stored_time (some t) = some (whole_seconds t)

unfoldable pub stored_conditions : List Condition → List Condition
stored_conditions [] = []
stored_conditions (c ∷ cs) =
    record c { last_transition_time = whole_seconds c.last_transition_time } ∷ stored_conditions cs

-- A status as a write stores it, and as the next pass reads it.
unfoldable pub stored_status : TrainingStatus → TrainingStatus
unfolding stored_conditions
stored_status s = record s {
  last_transition_time = stored_time s.last_transition_time;
  admitted_at = stored_time s.admitted_at;
  running_observed_at = stored_time s.running_observed_at;
  conditions = stored_conditions s.conditions;
}

-- The end of setMLTJPhase: the status is written and counted where it differs.
unfoldable pub write_phase :
    Bool
    → Bool
    → Bool
    → TrainingStatus
    → Text
    → Time
    → TrainingStatus × Outcome
    → Option (TrainingStatus × List Event)
unfolding stored_status
write_phase same fails changed s phase later (desired, outcome) =
    if same
    then some (s, [])
    else if fails
    then none
    else some (
      stored_status (with_time changed later desired),
      (if changed then phase_entered phase ∷ [] else []) ++ outcome_events outcome,
    )

module _ (api : TrainingApi) where
  open api use {
    set_status_condition, is_status_condition_true, deep_equal, contains_finalizer, add_finalizer,
    remove_finalizer, updated, set_controller_reference, stored_new,
  }

  -- computeMLTJPhase.
  unfoldable pub compute_phase : Job → Option Workload → Text × Condition
  unfolding is_job_condition_true admitted_condition
  compute_phase job wl =
      if is_job_condition_true job.conditions (text "Failed")
      then (phase_failed, admitted_condition is_false (text "JobFailed"))
      else if is_job_condition_true job.conditions (text "Complete")
      then (phase_succeeded, admitted_condition is_true (text "JobComplete"))
      else if ltb_ℤ (pos 0) job.active
      then (phase_running, admitted_condition is_true (text "PodsRunning"))
      else if elim wl [
        | none ↦ false
        | some w ↦ is_status_condition_true w.conditions (text "Admitted")
      ]
      then (phase_admitted, admitted_condition is_true (text "QuotaReserved"))
      else (phase_pending, admitted_condition is_false (text "QueuedForAdmission"))

  -- The status that setMLTJPhase wants, and what it recorded.
  unfoldable pub desired_status :
      TrainingJob → Text → Condition → Option Time → Time → Time → TrainingStatus × Outcome
  unfolding record_admit_to_running
  desired_status t phase cond admitted_at set_at now =
      record_admit_to_running
        (record (t.status) {
          phase = phase;
          observed_generation = t.generation;
          conditions =
              set_status_condition (record cond { observed_generation = t.generation }) set_at
                t.status.conditions;
        })
        t.status.phase phase admitted_at now

  -- setMLTJPhase: none where the write fails; else the status that is stored and what is counted.
  -- `set_at`, `now` and `later` are the clock's readings, in their order.
  unfoldable pub set_phase :
      Bool
      → TrainingJob
      → Text
      → Condition
      → Option Time
      → Time
      → Time
      → Time
      → Option (TrainingStatus × List Event)
  set_phase fails t phase cond admitted_at set_at now later =
      let desired = desired_status t phase cond admitted_at set_at now in
      write_phase (deep_equal t.status desired.0) fails (not (text_eq t.status.phase phase))
        t.status phase later desired

  -- The status that markFailed wants.
  unfoldable pub failed_status : TrainingJob → Text → Text → Time → TrainingStatus
  failed_status t reason msg now = record (t.status) {
    phase = phase_failed;
    observed_generation = t.generation;
    conditions =
        set_status_condition
          (record {
            kind = cond_synced;
            status = is_false;
            reason = reason;
            message = msg;
            observed_generation = t.generation;
            last_transition_time = 0;
          })
          now t.status.conditions;
  }

  unfoldable pub mark_failed :
      Bool → TrainingJob → Text → Text → Time → Time → Option (TrainingStatus × List Event)
  unfolding failed_status stored_status
  mark_failed fails t reason msg now later =
      let desired = failed_status t reason msg now in
      let changed = not (text_eq t.status.phase phase_failed) in
      if deep_equal t.status desired
      then some (t.status, [])
      else if fails
      then none
      else some (
        stored_status (with_time changed later desired),
        job_failed reason ∷ (if changed then phase_entered phase_failed ∷ [] else []),
      )
