-- ===== src/Tests/Lab.antt =====
-- The queue lab's results at concrete values.
use mathlib.Core.List.{Memᴰ}
use gpu_platform_control_pla.Base.{
  ℕ, ◌+◌, ◌*◌, ◌≤◌, ◌<◌, ◌≡◌, ◌≢◌, refl, true, List, [], ◌∷◌, Option, none, some, length, take,
  arith,
}
use gpu_platform_control_pla.Base.Int.{ℤ, pos, pos_part, neg_part}
use gpu_platform_control_pla.Base.Arith.{sub64, add64}
use gpu_platform_control_pla.Base.Float.{one, zero_f}
use gpu_platform_control_pla.Base.Text.{Text, text, text_eq}
use gpu_platform_control_pla.Base.Maps.{Map, lookup, insert}
use gpu_platform_control_pla.Base.Results.{Result, ok, err}
use gpu_platform_control_pla.Base.Sort.{sort_func, insert_sorted}
use gpu_platform_control_pla.QueueLab.Events.{
  EventType, LifecycleEvent, TrainingTraceRow, stamp_of, type_eq,
}
use gpu_platform_control_pla.QueueLab.Spread.{
  ObservationSpread, skews_of, spread_of_matching, summarise, skew_at, last_skew, resolves,
  resolves_against,
}
use gpu_platform_control_pla.QueueLab.Spread.Floor.{resolved_exceeds_error}
use gpu_platform_control_pla.QueueLab.Timeline.{
  Attempt, JobTimeline, Refusal, nil_pointer, check_shape, new_attempt, fold_ready, fold_stop,
  fold_into, fold_shaped, fold_known, fold_event, fold_events, seeded, seed,
}
use gpu_platform_control_pla.QueueLab.Charge.{
  WorkloadOutcome, attempts_at, first_ready, stamp_gap, with_admission, since_submitted, start_of,
  occupy, start_order, overlaps, no_overlap_after, do_not_overlap, pair_preemptions, charge_one,
  charge_all, counted, charge_paired, charge_started, charge_runs, charge_admitted, charge_waste,
}
use gpu_platform_control_pla.QueueLab.Charge.Occupied.{sum_charges, total_held_ns}
use gpu_platform_control_pla.QueueLab.Ledger.{
  LabResult, timelines, outcome_at, outcome_of, waits, blank, row_outcome, each_row, add_outcome,
  add_wait, empty_result, with_percentile, reconstruct,
}
use gpu_platform_control_pla.QueueLab.Ledger.Evidence.{
  Evidence, charges_follow-Evidence, one_attempt_at_a_time,
}
use gpu_platform_control_pla.QueueLab.Ledger.Rows.{Accounts, result-Accounts_for_every_row}
use gpu_platform_control_pla.QueueLab.Ledger.Panics.{reconstruct_never_panics}

abbrev row : Text → TrainingTraceRow
row name = record {
  index = pos 0;
  name = name;
  offset_ms = pos 0;
  tenant = text "t";
  gpu_count = pos 2;
  duration_sec = pos 40;
  duty = one;
}

abbrev trace : List TrainingTraceRow
trace = row (text "a") ∷ (row (text "b") ∷ [])

abbrev pub event : ℕ → EventType → Text → Text → Text → Option ℤ → LifecycleEvent
event at type job uid reason skew = record {
  elapsed_ns = pos (at * 1000000000);
  wall_unix_nanos = pos 0;
  kind = [];
  type = type;
  exit_code = none;
  iterations = none;
  workload_kind = [];
  device_status = [];
  duty_cycle = none;
  job = job;
  component_stamp_unix_nanos = none;
  observed_skew_ns = skew;
  object_uid = uid;
  resource_version = [];
  reason = reason;
}

-- Row a is preempted in its first attempt and runs again; row b is never admitted.
abbrev lab_events : List LifecycleEvent
lab_events =
    event 1 EventType.submitted (text "a") [] [] none
    ∷ (event 1 EventType.submitted (text "b") [] [] none
        ∷ (event 2 EventType.admitted (text "a") (text "w") [] (some (pos 5))
            ∷ (event 3 EventType.pod_ready (text "a") (text "p1") [] (some (pos 900))
                ∷ (event 5 EventType.preempted (text "a") (text "w") [] none
                    ∷ (event 6 EventType.attempt_stopped (text "a") (text "p1") (text "Failed") none
                        ∷ (event 8 EventType.pod_ready (text "a") (text "p2") [] none ∷ []))))))

abbrev horizon : ℤ
horizon = pos 10000000000

abbrev or_else {ℓ} : {A : Type ℓ} → A → Result Refusal A → A
or_else d (ok a) = a
or_else d (err e) = d

abbrev found_row : Option JobTimeline → JobTimeline
found_row none = seeded (row [])
found_row (some t) = t

abbrev lab_timelines : Map JobTimeline
lab_timelines = or_else [] (timelines trace lab_events horizon)

abbrev row_a : JobTimeline
row_a = found_row (lookup (text "a") lab_timelines)

abbrev outcome_a : WorkloadOutcome
outcome_a = or_else (blank [] row_a) (outcome_of (text "a") row_a horizon)

lab_timelines-made : timelines trace lab_events horizon ≡ ok lab_timelines
unfolding timelines seed seeded fold_events fold_event fold_known fold_shaped fold_into fold_ready
    fold_stop new_attempt check_shape lookup insert text_eq type_eq stamp_of
lab_timelines-made = refl

row_a-found : lookup (text "a") lab_timelines ≡ some row_a
unfolding timelines seed seeded fold_events fold_event fold_known fold_shaped fold_into fold_ready
    fold_stop new_attempt check_shape lookup insert text_eq type_eq stamp_of
row_a-found = refl

outcome_a-made : outcome_of (text "a") row_a horizon ≡ ok outcome_a
unfolding timelines seed seeded fold_events fold_event fold_known fold_shaped fold_into fold_ready
    fold_stop new_attempt check_shape lookup insert text_eq type_eq stamp_of outcome_of charge_waste
    charge_admitted charge_runs charge_started charge_paired attempts_at start_of first_ready
    since_submitted with_admission stamp_gap occupy start_order sort_func insert_sorted
    do_not_overlap no_overlap_after overlaps pair_preemptions charge_all charge_one waits blank
    counted
outcome_a-made = refl

charges_follow-Evidence_example :
    (runs : List Attempt) × (attempts_at row_a.attempts row_a.attempt_seq ≡ ok runs)
    × Evidence row_a horizon outcome_a runs (take (length row_a.preempted_ns) (start_order runs))
charges_follow-Evidence_example =
    charges_follow-Evidence (text "a") row_a horizon outcome_a outcome_a-made

one_attempt_at_a_time_example :
    (runs : List Attempt) × (attempts_at row_a.attempts row_a.attempt_seq ≡ ok runs)
    × (outcome_a.total_occupancy ≡ sum_charges row_a horizon zero_f runs)
    × (total_held_ns row_a horizon runs + pos_part row_a.submitted_ns ≤ pos_part horizon)
one_attempt_at_a_time_example =
    one_attempt_at_a_time trace lab_events horizon lab_timelines (text "a") row_a outcome_a
      (omega arith) lab_timelines-made row_a-found outcome_a-made

abbrev lab_result : LabResult
lab_result =
    or_else (empty_result [] 0 none) (reconstruct (pos 0) (text "arm") trace lab_events horizon)

lab_result-made : reconstruct (pos 0) (text "arm") trace lab_events horizon ≡ ok lab_result
unfolding timelines seed seeded fold_events fold_event fold_known fold_shaped fold_into fold_ready
    fold_stop new_attempt check_shape lookup insert text_eq type_eq stamp_of outcome_of charge_waste
    charge_admitted charge_runs charge_started charge_paired attempts_at start_of first_ready
    since_submitted with_admission stamp_gap occupy start_order sort_func insert_sorted
    do_not_overlap no_overlap_after overlaps pair_preemptions charge_all charge_one waits blank
    counted reconstruct each_row row_outcome outcome_at add_outcome add_wait with_percentile
lab_result-made = refl

result-Accounts_for_every_row_example : Accounts trace lab_events lab_result
result-Accounts_for_every_row_example =
    result-Accounts_for_every_row (pos 0) (text "arm") trace lab_events horizon lab_result
      lab_result-made

reconstruct_never_panics_example :
    reconstruct (pos 0) (text "arm") trace lab_events horizon ≢ err nil_pointer
reconstruct_never_panics_example =
    reconstruct_never_panics (pos 0) (text "arm") trace lab_events horizon

abbrev lab_spread : ObservationSpread
lab_spread = record {
  samples = 2;
  min_ns = pos 5;
  median_ns = pos 900;
  max_ns = pos 900;
  quantisation_ns = pos 1000000000;
  floor_ns = pos 1000000895;
}

lab_spread-made : spread_of_matching lab_events (λ _. true) ≡ some lab_spread
unfolding spread_of_matching skews_of summarise skew_at last_skew sort_func insert_sorted sub64
    add64
lab_spread-made = refl

lab_skews : skews_of (λ _. true) lab_events ≡ pos 5 ∷ (pos 900 ∷ [])
unfolding skews_of
lab_skews = refl

resolved_exceeds_error_example :
    pos_part (pos 900) + neg_part (pos 5) + 1000000000
    < neg_part (pos 900)
      + pos_part (pos 5)
      + (pos_part (pos 2000000000) + neg_part (pos 2000000000))
resolved_exceeds_error_example =
    resolved_exceeds_error lab_events (λ _. true) lab_spread (pos 2000000000) (pos 900) (pos 5)
      (rw lab_skews (omega arith)) lab_spread-made (omega arith)
      (unfold resolves resolves_against in refl) (rw lab_skews (Memᴰ.tail (Memᴰ.head refl)))
      (rw lab_skews (Memᴰ.head refl))
