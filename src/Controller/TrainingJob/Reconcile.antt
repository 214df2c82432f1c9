-- ===== src/Controller/TrainingJob/Reconcile.antt =====
-- Reconcile of mltrainingjob_controller.go. A read gives what is stored: an update from a stale read
-- is refused by the API server, which is a call that fails.
pub mod Hands
use gpu_platform_control_pla.Base.{
  ℕ, Bool, true, false, not, ◌&&◌, List, [], ◌∷◌, ◌++◌, Option, none, some, if◌then◌else◌,
}
use gpu_platform_control_pla.Base.Text.{Text, text, text_eq}
use gpu_platform_control_pla.Base.Maps.{Map, insert}
use gpu_platform_control_pla.Base.Int.{ℤ, pos}
use gpu_platform_control_pla.Base.Clock.{Time}
use gpu_platform_control_pla.Controller.TrainingObjects.{
  TrainingStatus, TrainingJob, PodTemplate, Job, Workload,
}
use gpu_platform_control_pla.Controller.TrainingApi.{TrainingApi}
use gpu_platform_control_pla.Controller.AdmitToRunning.{kueue_admitted_stamp}
use gpu_platform_control_pla.Controller.TrainingJob.{
  ml_training_job_finalizer, reason_conflict, DesiredJob, build_job, get_workload_for_job, Event,
  compute_phase, set_phase, mark_failed,
}

-- What the API server holds, with the Workloads that the index gives for the Job's UID, and what was
-- counted.
pub record World : Type 0 where
  pub training : Option TrainingJob
  pub job : Option Job
  pub claimed : List Workload
  pub counted : List Event

-- Which calls fail in this pass.
pub record Faults : Type 0 where
  pub get_training : Bool
  pub update_training : Bool
  pub get_job : Bool
  pub sync_job : Bool
  pub list_workloads : Bool
  pub update_status : Bool

-- The clock's readings for the status.
pub record Readings : Type 0 where
  pub set_at : Time
  pub now : Time
  pub later : Time

pub data Finish : Type 0 where
  done failed requeued : Finish

-- maps.Copy.
unfoldable pub copy_labels : Map Text → Map Text → Map Text
copy_labels [] dst = dst
copy_labels ((k, v) ∷ src) dst = copy_labels src (insert k v dst)

-- metav1.IsControlledBy.
unfoldable pub is_controlled_by : Option Text → Text → Bool
is_controlled_by none uid = false
is_controlled_by (some owner) uid = text_eq owner uid

-- ownedConflict on what is stored.
unfoldable pub owned_conflict : Option Job → TrainingJob → Bool
unfolding is_controlled_by
owned_conflict none t = false
owned_conflict (some j) t = not (is_controlled_by j.controller t.uid)

-- The Job that is handed to CreateOrUpdate.
unfoldable pub bare_job : TrainingJob → Job
bare_job t = record {
  name = t.name;
  namespace = t.namespace;
  uid = [];
  created = false;
  labels = [];
  controller = none;
  suspend = none;
  parallelism = none;
  completions = none;
  template = none;
  conditions = [];
  active = pos 0;
}

-- Suspend and the template are set before the Job exists only.
unfoldable pub first_fields : DesiredJob → Job → Job
first_fields desired job =
    if not job.created
    then record job { suspend = some true; template = some desired.template }
    else job

unfoldable pub render : DesiredJob → Job → Job
unfolding first_fields copy_labels
render desired job = record (first_fields desired job) {
  labels = copy_labels desired.labels job.labels;
  parallelism = some desired.parallelism;
  completions = some desired.completions;
}

module _ (api : TrainingApi) where
  open api use {
    contains_finalizer, add_finalizer, remove_finalizer, updated, set_controller_reference,
    create_or_update,
  }

  -- The function that is passed to CreateOrUpdate.
  unfoldable pub mutate : TrainingJob → Job → Option Job
  mutate t job = set_controller_reference t (render (build_job t) job)

  abbrev pub with_status :
      TrainingJob → World → Option (TrainingStatus × List Event) → Finish → Finish × World
  with_status t w none finish = (failed, w)
  with_status t w (some (s, events)) finish = (
    finish,
    record w { training = some (record t { status = s }); counted = w.counted ++ events },
  )

  -- The phase of the Job that is stored.
  unfoldable pub report_phase : Faults → Readings → TrainingJob → Job → World → Finish × World
  report_phase f c t job w =
      let wl = get_workload_for_job job.uid w.claimed in
      let (phase, cond) = compute_phase api job wl in
      let stamp : Option Time = elim wl [
        | none ↦ none
        | some x ↦ kueue_admitted_stamp x.conditions
      ] in
      with_status t w (set_phase api f.update_status t phase cond stamp c.set_at c.now c.later) done

  unfoldable pub after_sync : Faults → Readings → TrainingJob → World → Option Job → Finish × World
  after_sync f c t w none = (failed, w)
  after_sync f c t w (some job) =
      if f.list_workloads
      then (failed, record w { job = some job })
      else report_phase f c t job (record w { job = some job })

  unfoldable pub sync : Faults → Readings → TrainingJob → World → Finish × World
  sync f c t w =
      if f.get_job
      then (failed, w)
      else if owned_conflict w.job t
      then with_status t w
          (mark_failed api f.update_status t reason_conflict
            (text "a Job of the same name is not owned by this MLTrainingJob") c.set_at c.later)
          requeued
      else after_sync f c t w (create_or_update (mutate t) (bare_job t) w.job f.sync_job)

  -- An update of the finalizers ends the pass.
  unfoldable pub update_finalizers : Faults → TrainingJob → List Text → World → Finish × World
  update_finalizers f t finalizers w =
      if f.update_training
      then (failed, w)
      else (done, record w { training = updated (record t { finalizers = finalizers }) })

  unfoldable pub reconcile_training : Faults → Readings → TrainingJob → World → Finish × World
  reconcile_training f c t w =
      if t.deleting
      then (if contains_finalizer ml_training_job_finalizer t.finalizers
          then update_finalizers f t (remove_finalizer ml_training_job_finalizer t.finalizers) w
          else (done, w))
      else if not (contains_finalizer ml_training_job_finalizer t.finalizers)
      then update_finalizers f t (add_finalizer ml_training_job_finalizer t.finalizers) w
      else sync f c t w

  abbrev pub if_found : Faults → Readings → World → Option TrainingJob → Finish × World
  if_found f c w none = (done, w)
  if_found f c w (some t) = reconcile_training f c t w

  unfoldable pub reconcile : Faults → Readings → World → Finish × World
  reconcile f c w = if f.get_training then (failed, w) else if_found f c w w.training
