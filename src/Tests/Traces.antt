-- ===== src/Tests/Traces.antt =====
-- Traces and schedules at concrete values.
use gpu_platform_control_pla.Base.{◌<◌, ◌≡◌, refl, false, List, none, [], ◌∷◌, arith}
use gpu_platform_control_pla.Base.Int.{pos}
use gpu_platform_control_pla.Base.Arith.{sub64, quot64}
use gpu_platform_control_pla.Base.Text.{text, text_eq}
use gpu_platform_control_pla.Base.Results.{ok}
use gpu_platform_control_pla.QueueLab.Trace.{
  study_reclaim, dose_grace_bounded, contract_rows, reclaim_scenario, termination_contract_trace,
  row_of,
}
use gpu_platform_control_pla.QueueLab.Trace.Checks.{validate_trace}
use gpu_platform_control_pla.QueueLab.Trace.Accepted.{Fits, contract_trace_is_accepted}
use gpu_platform_control_pla.QueueLab.Schedule.{
  Step, three_steps, at_least_zero, reclaim_schedule, study_schedule, termination_contract_schedule,
}
use gpu_platform_control_pla.QueueLab.Schedule.Causal.{Schedules, schedule_follows_trace}
use gpu_platform_control_pla.QueueLab.Events.{EventType, LifecycleEvent}
use gpu_platform_control_pla.QueueLab.Hold.{device_hold_ns, device_hold_window}
use gpu_platform_control_pla.QueueLab.Hold.First.{HoldIs, hold_runs_first_to_first}
use gpu_platform_control_pla.Tests.Lab.{event}

contract_rows-generated :
    termination_contract_trace (pos 300) (pos 60) dose_grace_bounded
    ≡ ok (contract_rows (pos 300) (pos 60))
unfolding termination_contract_trace sub64 text_eq
contract_rows-generated = refl

contract_trace_is_accepted_example :
    ((60 < 300) × Fits 300 60 dose_grace_bounded)
    × (validate_trace study_reclaim (contract_rows (pos 300) (pos 60)) ≡ ok tt)
    × ((steps : List Step) × (termination_contract_schedule
            (contract_rows (pos 300) (pos 60))
            (pos 60)
          ≡ ok steps)
        × Schedules steps (contract_rows (pos 300) (pos 60)))
contract_trace_is_accepted_example =
    contract_trace_is_accepted 300 60 dose_grace_bounded (contract_rows (pos 300) (pos 60))
      (omega arith) (omega arith) contract_rows-generated

abbrev reclaim_steps : List Step
reclaim_steps =
    three_steps (row_of 0 (text "a1") (pos 0) (text "tenant-a") 1 (pos 120))
      (row_of 1 (text "a2-borrow") (pos 1000) (text "tenant-a") 1 (pos 120))
      (row_of 2 (text "b1-owner") (pos 5000) (text "tenant-b") 1 (pos 120)) (pos 4)

reclaim_steps-scheduled :
    study_schedule study_reclaim (reclaim_scenario false (pos 120)) ≡ ok reclaim_steps
unfolding study_schedule reclaim_schedule reclaim_scenario three_steps at_least_zero quot64 sub64
    text_eq
reclaim_steps-scheduled = refl

schedule_follows_trace_example : Schedules reclaim_steps (reclaim_scenario false (pos 120))
schedule_follows_trace_example =
    schedule_follows_trace study_reclaim (reclaim_scenario false (pos 120)) reclaim_steps
      reclaim_steps-scheduled

-- The owner is admitted at 5 s; the victim's first stop is at 9 s.
abbrev hold_events : List LifecycleEvent
hold_events =
    event 12 EventType.attempt_stopped (text "a2-borrow") (text "p2") (text "Failed") none
    ∷ (event 5 EventType.admitted (text "b1-owner") (text "w") [] none
        ∷ (event 9 EventType.attempt_stopped (text "a2-borrow") (text "p1") (text "Failed") none
            ∷ []))

hold_runs_first_to_first_example :
    HoldIs hold_events (device_hold_ns hold_events) (device_hold_window hold_events)
hold_runs_first_to_first_example = hold_runs_first_to_first hold_events
