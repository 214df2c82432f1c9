-- ===== src/Tests/Watches.antt =====
-- The ledger builder's results at concrete values.
use gpu_platform_control_pla.Base.{◌≡◌, refl, false, [], ◌∷◌, Option, none, some}
use gpu_platform_control_pla.Base.Int.{pos}
use gpu_platform_control_pla.Base.Float.{Float}
use gpu_platform_control_pla.Base.Text.{Text, text, text_eq}
use gpu_platform_control_pla.Base.Maps.{lookup, insert}
use gpu_platform_control_pla.QueueLab.Events.{type_eq}
use gpu_platform_control_pla.QueueLab.Provenance.{
  Pod, classify_pod, pod_condition_true, condition_stamp, sole_terminated, sole_from, stopped_state,
}
use gpu_platform_control_pla.QueueLab.Builder.{
  LedgerBuilder, new_ledger_builder, upsert, delete, kind_pod, observe, observe_state, append_event,
  event_of, ready_after, was_last, check_deleted, unless_invalid, is_ready, skew_ns,
}
use gpu_platform_control_pla.QueueLab.Builder.Faithful.{
  Built, started, observed, pod, kind_of, state_of, running, IsFaithful,
}
use gpu_platform_control_pla.QueueLab.Builder.History.{
  built_ledger-IsFaithful, valid_deletion_was_stopped,
}

abbrev no_floats : Text → Option Float
no_floats s = none

abbrev ready_pod : Pod
ready_pod = record {
  phase = text "Running";
  conditions =
      record {
        type = text "Ready";
        status = text "True";
        reason = [];
        transition_unix_nanos = some (pos 7);
      }
      ∷ [];
  containers = [];
}

abbrev failed_pod : Pod
failed_pod = record { phase = text "Failed"; conditions = []; containers = [] }

abbrev after_ready : LedgerBuilder
after_ready =
    observe new_ledger_builder upsert (kind_of (pod ready_pod)) (text "p") (text "a")
      (state_of no_floats (pod ready_pod)) (pos 3)

after_ready-Built : Built no_floats after_ready
unfolding text_eq
after_ready-Built = observed upsert (pod ready_pod) (text "p") (text "a") (pos 3) refl started

built_ledger-IsFaithful_example : IsFaithful after_ready
built_ledger-IsFaithful_example = built_ledger-IsFaithful no_floats after_ready after_ready-Built

deleted_valid :
    (observe after_ready delete kind_pod
      (text "p")
      (text "a")
      (state_of no_floats (pod failed_pod))
      (pos 9)).invalid
    ≡ none
unfolding observe observe_state append_event event_of ready_after was_last check_deleted
    unless_invalid is_ready skew_ns state_of classify_pod pod_condition_true condition_stamp text_eq
    new_ledger_builder lookup insert type_eq sole_terminated sole_from stopped_state
deleted_valid = refl

valid_deletion_was_stopped_example :
    running
      (text "p")
      false
      (observe after_ready delete kind_pod
        (text "p")
        (text "a")
        (state_of no_floats (pod failed_pod))
        (pos 9)).events
    ≡ false
valid_deletion_was_stopped_example =
    valid_deletion_was_stopped no_floats after_ready failed_pod (text "p") (text "a") (pos 9)
      after_ready-Built (unfold text_eq in refl) deleted_valid
