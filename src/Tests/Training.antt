-- ===== src/Tests/Training.antt =====
-- The training job controller at concrete values, with an API of its own.
use gpu_platform_control_pla.Base.{
  ◌≡◌, refl, sym, Bool, true, false, List, [], ◌∷◌, Option, none, some,
}
use gpu_platform_control_pla.Base.Int.{pos}
use gpu_platform_control_pla.Base.Text.{Text, text}
use gpu_platform_control_pla.Controller.Objects.{is_true}
use gpu_platform_control_pla.Controller.TrainingObjects.{TrainingStatus, TrainingJob, Job}
use gpu_platform_control_pla.Controller.TrainingApi.{TrainingApi}
use gpu_platform_control_pla.Controller.AdmitToRunning.{
  phase_pending, phase_admitted, phase_running,
}
use gpu_platform_control_pla.Controller.TrainingJob.{ml_training_job_finalizer}
use gpu_platform_control_pla.Controller.TrainingJob.Window.{Pass, Window}
use gpu_platform_control_pla.Controller.TrainingJob.Reconcile.{World, Faults, Readings, reconcile}
use gpu_platform_control_pla.Controller.TrainingJob.Reconcile.Hands.{JobAfter, pass_keeps_hands_off}
use gpu_platform_control_pla.Tests.Cluster.{
  Test, text_test, number_test, pair_test, list_test, option_test, condition_test, along, listed,
  without,
}

status_test : Test TrainingStatus
status_test =
    along
      (λ s. (
        s.phase,
        (
          s.observed_generation,
          (
            s.last_transition_time,
            (s.admitted_at, (s.running_observed_at, (s.admit_to_running_seconds, s.conditions))),
          ),
        ),
      ))
      (λ (p, (g, (t, (a, (r, (x, c)))))). record {
        phase = p;
        observed_generation = g;
        last_transition_time = t;
        admitted_at = a;
        running_observed_at = r;
        admit_to_running_seconds = x;
        conditions = c;
      })
      (λ s. refl)
      (pair_test text_test (
        pair_test number_test (
          pair_test (option_test number_test) (
            pair_test (option_test number_test) (
              pair_test (option_test number_test)
                (pair_test text_test (list_test condition_test)))))))

owned_by : TrainingJob → Job → Option Job
owned_by t j = some (record j { controller = some t.uid })

owned_by-is :
    (t : TrainingJob) (j k : Job) → owned_by t j ≡ some k → k ≡ record j { controller = some t.uid }
unfolding owned_by
owned_by-is t j k same = sym (cc)

numbered : Job → Job
numbered j = record j { uid = text "job-1"; created = true }

stored_after : Option Job → Option Job
stored_after none = none
stored_after (some m) = some (numbered m)

written : (Job → Option Job) → Job → Option Job → Bool → Option Job
written f given before true = none
written f given none false = stored_after (f given)
written f given (some j) false = f j

stored_after-is :
    (made : Option Job) (k : Job)
    → stored_after made ≡ some k
    → (m : Job) × (made ≡ some m) × (k ≡ numbered m)
unfolding stored_after
stored_after-is none k same = absurd (cc)
stored_after-is (some m) k same = (m, refl, sym (cc))

abbrev api : TrainingApi
unfolding written
api = record {
  set_status_condition = λ c t cs. record c { last_transition_time = t } ∷ [];
  is_status_condition_true = λ cs kind. false;
  deep_equal = status_test.same;
  deep_equal_same = status_test.sound;
  contains_finalizer = listed;
  add_finalizer = λ f fs. f ∷ fs;
  remove_finalizer = without;
  updated = λ t. some t;
  set_controller_reference = owned_by;
  reference_sets = owned_by-is;
  stored_new = numbered;
  create_or_update = written;
  creates = λ f given k same. stored_after-is (f given) k same;
  updates = λ f given j k same. same;
  fails_whole = λ f given before. refl;
}

abbrev status : TrainingStatus
status = record {
  phase = phase_pending;
  observed_generation = 1;
  last_transition_time = none;
  admitted_at = none;
  running_observed_at = none;
  admit_to_running_seconds = [];
  conditions = [];
}

abbrev training : TrainingJob
training = record {
  name = text "train-7b";
  namespace = text "team-a";
  uid = text "t-1";
  generation = 1;
  deleting = false;
  finalizers = ml_training_job_finalizer ∷ [];
  spec = record {
    queue = text "batch";
    image = text "trainer:1";
    command = [];
    gpu_class = text "a100";
    gpu_count = pos 2;
    parallelism = pos 1;
    completions = pos 1;
  };
  status = status;
}

abbrev pass_to : Text → Pass
pass_to phase = record {
  generation = 1;
  phase = phase;
  cond = record {
    kind = text "Admitted";
    status = is_true;
    reason = text "QuotaReserved";
    message = [];
    observed_generation = 0;
    last_transition_time = 0;
  };
  kueue_stamp = some 3000000000;
  set_at = 5000000000;
  now = 5500000000;
  later = 5600000000;
  fails = false;
}

abbrev passes : List Pass
passes = pass_to phase_admitted ∷ (pass_to phase_running ∷ (pass_to phase_running ∷ []))

abbrev world : World
world = record { training = some training; job = none; claimed = []; counted = [] }

abbrev faults : Faults
faults = record {
  get_training = false;
  update_training = false;
  get_job = false;
  sync_job = false;
  list_workloads = false;
  update_status = false;
}

abbrev readings : Readings
readings = record { set_at = 5000000000; now = 5500000000; later = 5600000000 }

pass_keeps_hands_off_example :
    JobAfter api training none (reconcile api faults readings world).1.job
pass_keeps_hands_off_example = pass_keeps_hands_off api training faults readings world refl
