-- ===== src/QueueLab/Schedule.antt =====
-- schedule.go of internal/queuelab: what each row of a trace waits for before it is submitted.
pub mod Causal
use gpu_platform_control_pla.Base.{
  ℕ, Bool, true, false, not, ◌&&◌, ◌||◌, List, [], ◌∷◌, if◌then◌else◌,
}
use gpu_platform_control_pla.Base.Int.{ℤ, pos, ltb_ℤ, leb_ℤ, eq_ℤ}
use gpu_platform_control_pla.Base.Arith.{add64, sub64, mul64, quot64}
use gpu_platform_control_pla.Base.Text.{Text, text_eq}
use gpu_platform_control_pla.Base.Results.{Result, ok, err}
use gpu_platform_control_pla.QueueLab.Events.{TrainingTraceRow}
use gpu_platform_control_pla.QueueLab.Trace.{
  own_row, victim_row, owner_row, study_reclaim, study_fifo, termination_grace_sec,
}

pub data BarrierKind : Type 0 where
  admitted_ready flavor_usage pending delay_from_ready : BarrierKind

pub record Barrier : Type 0 where
  pub kind : BarrierKind
  pub job : Text
  pub count : ℤ
  pub delay_sec : ℤ

pub record Step : Type 0 where
  pub after : List Barrier
  pub row : TrainingTraceRow

pub data ScheduleError : Type 0 where
  wrong_length negative_dose wrong_rows own_row_too_short dose_disagrees no_such_study :
      ScheduleError

-- Barriers with the fields that they leave out.
abbrev pub on_ready : Text → Barrier
on_ready job = record { kind = admitted_ready; job = job; count = pos 0; delay_sec = pos 0 }

abbrev pub on_usage : ℤ → Barrier
on_usage count = record { kind = flavor_usage; job = []; count = count; delay_sec = pos 0 }

abbrev pub on_pending : Text → Barrier
on_pending job = record { kind = pending; job = job; count = pos 0; delay_sec = pos 0 }

abbrev pub on_delay : Text → ℤ → Barrier
on_delay job sec = record { kind = delay_from_ready; job = job; count = pos 0; delay_sec = sec }

-- max(v, 0).
unfoldable pub at_least_zero : ℤ → ℤ
at_least_zero v = if ltb_ℤ v (pos 0) then pos 0 else v

-- The three steps that the reclaim study and the contract have in common.
unfoldable pub three_steps : TrainingTraceRow → TrainingTraceRow → TrainingTraceRow → ℤ → List Step
three_steps first second owner delay =
    record { after = []; row = first }
    ∷ (record { after = on_ready first.name ∷ (on_usage (pos 1) ∷ []); row = second }
        ∷ (record {
          after = on_ready second.name ∷ (on_usage (pos 2) ∷ (on_delay second.name delay ∷ []));
          row = owner;
        }
            ∷ []))

unfoldable pub reclaim_schedule : List TrainingTraceRow → Result ScheduleError (List Step)
unfolding three_steps at_least_zero
reclaim_schedule (a1 ∷ (a2 ∷ (owner ∷ []))) =
    ok (three_steps a1 a2 owner (at_least_zero (quot64 (sub64 owner.offset_ms a2.offset_ms) 1000)))
reclaim_schedule trace = err wrong_length

-- The rows that wait for the head.
unfoldable pub behind_head : Text → List TrainingTraceRow → List Step
behind_head head [] = []
behind_head head (small ∷ rows) =
    record { after = on_pending head ∷ []; row = small } ∷ behind_head head rows

unfoldable pub fifo_schedule : List TrainingTraceRow → Result ScheduleError (List Step)
unfolding behind_head
fifo_schedule (long1 ∷ (head2 ∷ (small ∷ rows))) = ok (
    record { after = []; row = long1 }
    ∷ (record { after = on_ready long1.name ∷ (on_usage (pos 1) ∷ []); row = head2 }
        ∷ behind_head head2.name (small ∷ rows)))
fifo_schedule trace = err wrong_length

unfoldable pub study_schedule : Text → List TrainingTraceRow → Result ScheduleError (List Step)
unfolding reclaim_schedule fifo_schedule
study_schedule study trace =
    if text_eq study study_reclaim
    then reclaim_schedule trace
    else if text_eq study study_fifo
    then fifo_schedule trace
    else err no_such_study

-- The checks on three rows.
unfoldable pub contract_steps :
    TrainingTraceRow → TrainingTraceRow → TrainingTraceRow → ℤ → Result ScheduleError (List Step)
unfolding three_steps
contract_steps own victim owner dose =
    if ltb_ℤ dose (pos 0)
    then err negative_dose
    else if not (text_eq own.name own_row)
        || not (text_eq victim.name victim_row)
        || not (text_eq owner.name owner_row)
    then err wrong_rows
    else if leb_ℤ own.duration_sec (add64 victim.duration_sec (pos termination_grace_sec))
    then err own_row_too_short
    else if not (eq_ℤ owner.offset_ms (add64 victim.offset_ms (mul64 dose (pos 1000))))
    then err dose_disagrees
    else ok (three_steps own victim owner dose)

unfoldable pub termination_contract_schedule :
    List TrainingTraceRow → ℤ → Result ScheduleError (List Step)
unfolding contract_steps
termination_contract_schedule (own ∷ (victim ∷ (owner ∷ []))) dose =
    contract_steps own victim owner dose
termination_contract_schedule trace dose = err wrong_length
