-- ===== src/Controller/TrainingJob/Reconcile/Hands.antt =====
-- What a pass may do to the Job.
use gpu_platform_control_pla.Base.{
  ◌≡◌, refl, sym, ◌∙◌, ap, subst, Bool, true, false, not, List, Option, none, some, arith,
  Bool-cases, inl, inr,
}
use gpu_platform_control_pla.Base.Text.{Text, text_eq}
use gpu_platform_control_pla.Base.Maps.{lookup, insert, lookup-insert}
use gpu_platform_control_pla.Base.Results.{if_case}
use gpu_platform_control_pla.Controller.TrainingObjects.{TrainingStatus, TrainingJob, Job}
use gpu_platform_control_pla.Controller.TrainingApi.{TrainingApi}
use gpu_platform_control_pla.Controller.TrainingJob.{
  ml_training_job_finalizer, kueue_queue_label, DesiredJob, build_job, Event,
}
use gpu_platform_control_pla.Controller.TrainingJob.Reconcile.{
  World, Faults, Readings, Finish, done, requeued, is_controlled_by, owned_conflict, bare_job,
  first_fields, render, copy_labels, with_status, if_found, mutate, report_phase, after_sync, sync,
  update_finalizers, reconcile_training, reconcile,
}

-- What becomes of the Job: nothing; a new one, suspended and owned; or an owned one, of which the
-- suspension, the template and every label but the queue's stay.
pub data JobAfter (api : TrainingApi) (t : TrainingJob) (before after : Option Job) : Type 0 where
  untouched : after ≡ before → JobAfter api t before after
  created :
      (k : Job)
      → before ≡ none
      → after ≡ some (api.stored_new k)
      → k.suspend ≡ some true
      → k.template ≡ some (build_job t).template
      → k.controller ≡ some t.uid
      → JobAfter api t before after
  changed :
      (j k : Job)
      → before ≡ some j
      → after ≡ some k
      → is_controlled_by j.controller t.uid ≡ true
      → (j.created ≡ true → (k.suspend ≡ j.suspend) × (k.template ≡ j.template))
      → ((label : Text)
          → text_eq kueue_queue_label label ≡ false
          → lookup label k.labels ≡ lookup label j.labels)
      → JobAfter api t before after

module _ (api : TrainingApi) (t : TrainingJob) where
  mutated :
      (j k : Job)
      → mutate api t j ≡ some k
      → k ≡ record (render (build_job t) j) { controller = some t.uid }
  unfolding mutate
  mutated j k same = api.reference_sets t (render (build_job t) j) k same

  kept_suspend :
      (desired : DesiredJob) (j : Job) → j.created ≡ true → (render desired j).suspend ≡ j.suspend
  unfolding render first_fields
  kept_suspend desired j old = rw old refl

  kept_template :
      (desired : DesiredJob) (j : Job) → j.created ≡ true → (render desired j).template ≡ j.template
  unfolding render first_fields
  kept_template desired j old = rw old refl

  kept_labels :
      (j : Job) → (render (build_job t) j).labels ≡ insert kueue_queue_label t.spec.queue j.labels
  unfolding render first_fields copy_labels build_job
  kept_labels j = elim j.created [ true ↦ refl | false ↦ refl ]

  kept_label :
      (j : Job) (label : Text)
      → text_eq kueue_queue_label label ≡ false
      → lookup label (render (build_job t) j).labels ≡ lookup label j.labels
  kept_label j label other =
      rw (kept_labels j, lookup-insert kueue_queue_label label t.spec.queue j.labels, other) refl

  synced :
      (before : Option Job) (k : Job) (fails : Bool)
      → owned_conflict before t ≡ false
      → api.create_or_update (mutate api t) (bare_job t) before fails ≡ some k
      → JobAfter api t before (some k)
  unfolding owned_conflict render first_fields copy_labels bare_job build_job
  synced before k true owned same =
      absurd (let none_of = api.fails_whole (mutate api t) (bare_job t) before in cc)
  synced none k false owned same =
      let (m, made, stored) = api.creates (mutate api t) (bare_job t) k same in
      let is = mutated (bare_job t) m made in
      created m refl (ap some stored) (ap (λ j. j.suspend) is) (ap (λ j. j.template) is)
        (ap (λ j. j.controller) is)
  synced (some j) k false owned same =
      let is = mutated j k (api.updates (mutate api t) (bare_job t) j k same) in
      changed j k refl refl (ground arith)
        (λ old. (
          ap (λ x. x.suspend) is ∙ kept_suspend (build_job t) j old,
          ap (λ x. x.template) is ∙ kept_template (build_job t) j old,
        ))
        (λ label other. ap (λ x. lookup label x.labels) is ∙ kept_label j label other)

  with_status_job :
      (w : World) (r : Option (TrainingStatus × List Event)) (finish : Finish)
      → (with_status api t w r finish).1.job ≡ w.job
  with_status_job w none finish = refl
  with_status_job w (some r) finish = refl

  after_sync_job :
      (f : Faults) (c : Readings) (w : World) (stored : Option Job)
      → ((k : Job) → stored ≡ some k → JobAfter api t w.job (some k))
      → JobAfter api t w.job (after_sync api f c t w stored).1.job
  unfolding after_sync report_phase
  after_sync_job f c w none says = untouched refl
  after_sync_job f c w (some k) says = elim (Bool-cases f.list_workloads) [
    | inl fails ↦ rw fails (says k refl)
    | inr works ↦
        rw works (subst (JobAfter api t w.job) (sym (with_status_job _ _ done)) (says k refl))
  ]

  -- A pass from a world, by what it does to the Job.
  abbrev Passed : World → Finish × World → Type 0
  Passed w r = JobAfter api t w.job r.1.job

  sync_job : (f : Faults) (c : Readings) (w : World) → Passed w (sync api f c t w)
  unfolding sync
  sync_job f c w =
      if_case (Passed w) f.get_job (λ fails. untouched refl)
        (λ works.
          if_case (Passed w) (owned_conflict w.job t)
            (λ other. untouched (with_status_job w _ requeued))
            (λ ours. after_sync_job f c w _ (λ k same. synced w.job k f.sync_job ours same)))

  finalizers_job :
      (f : Faults) (w : World) (finalizers : List Text)
      → Passed w (update_finalizers api f t finalizers w)
  unfolding update_finalizers
  finalizers_job f w finalizers =
      if_case (Passed w) f.update_training (λ fails. untouched refl) (λ works. untouched refl)

  reconciled_job :
      (f : Faults) (c : Readings) (w : World) → Passed w (reconcile_training api f c t w)
  unfolding reconcile_training
  reconciled_job f c w =
      let held = api.contains_finalizer ml_training_job_finalizer t.finalizers in
      if_case (Passed w) t.deleting
        (λ deleting.
          if_case (Passed w) held (λ holds. finalizers_job f w _) (λ free. untouched refl))
        (λ lives.
          if_case (Passed w) (not held) (λ free. finalizers_job f w _) (λ holds. sync_job f c w))

  if_found_job :
      (f : Faults) (c : Readings) (w : World) (found : Option TrainingJob)
      → found ≡ some t
      → Passed w (if_found api f c w found)
  if_found_job f c w none same = absurd (cc)
  if_found_job f c w (some u) same =
      subst (λ x. Passed w (reconcile_training api f c x w)) (sym (cc)) (reconciled_job f c w)

  -- Whatever calls fail and whatever the clock reads, a pass over a training job leaves the Job that
  -- is stored as it is, or creates one that is suspended, has the rendered template and is owned by
  -- the training job, or updates one that the training job owns; an update of a Job that has been
  -- created keeps its suspension and its template, which are Kueue's, and every label but the queue's.
  pub pass_keeps_hands_off :
      (f : Faults) (c : Readings) (w : World)
      → w.training ≡ some t
      → JobAfter api t w.job (reconcile api f c w).1.job
  unfolding reconcile
  pass_keeps_hands_off f c w found =
      if_case (Passed w) f.get_training (λ fails. untouched refl)
        (λ works. if_found_job f c w w.training found)
