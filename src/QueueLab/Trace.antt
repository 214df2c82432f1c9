-- ===== src/QueueLab/Trace.antt =====
-- trace.go of internal/queuelab: the traces of the studies. ReadTrace and
-- WriteTrace are the JSON lines of exputil around it.
pub mod Checks
pub mod Accepted
use gpu_platform_control_pla.Base.{ℕ, Bool, true, false, ◌||◌, List, [], ◌∷◌, if◌then◌else◌}
use gpu_platform_control_pla.Base.Int.{ℤ, pos, ltb_ℤ, leb_ℤ, eq_ℤ}
use gpu_platform_control_pla.Base.Arith.{add64, sub64, mul64}
use gpu_platform_control_pla.Base.Float.{Float, nan, inf, fin, one, zero_f, ltb_f, div_whole}
use gpu_platform_control_pla.Base.Text.{Text, text, text_eq}
use gpu_platform_control_pla.Base.Results.{Result, ok, err}
use gpu_platform_control_pla.QueueLab.Events.{TrainingTraceRow}
use gpu_platform_control_pla.QueueLab.Provenance.{at_most_zero}

abbrev pub own_row : Text
own_row = text "a1"

abbrev pub victim_row : Text
victim_row = text "a2-borrow"

abbrev pub owner_row : Text
owner_row = text "b1-owner"

abbrev pub study_reclaim : Text
study_reclaim = text "reclaim"

abbrev pub study_fifo : Text
study_fifo = text "fifo"

abbrev pub tenant_a : Text
tenant_a = text "tenant-a"

abbrev pub tenant_b : Text
tenant_b = text "tenant-b"

abbrev pub lab_max_gpu : ℕ
lab_max_gpu = 2

abbrev pub max_int32 : ℕ
max_int32 = 2147483647

pub data TraceError : Type 0 where
  empty_trace bad_name duplicate_name bad_index bad_offset offsets_decrease bad_gpu_count :
      TraceError
  bad_duration bad_tenant bad_reclaim_gpu one_tenant_only no_head_job unknown_study : TraceError
  nothing_to_reclaim cut_short finishes_early unknown_regime bad_duty : TraceError

-- DutyCycle.
abbrev pub full_duty : Float
full_duty = one

abbrev pub quarter_duty : Float
quarter_duty = div_whole 1 4

unfoldable pub or_full : Float → Float
or_full nan = nan
or_full (inf s) = inf s
or_full (fin z) = if eq_ℤ z (pos 0) then full_duty else fin z

unfoldable pub validate_duty : Float → Result TraceError (Unit {0})
unfolding at_most_zero
validate_duty d = if at_most_zero d || ltb_f one d then err bad_duty else ok tt

-- A row whose duty is left out.
abbrev pub row_of : ℕ → Text → ℤ → Text → ℕ → ℤ → TrainingTraceRow
row_of index name offset tenant gpus duration = record {
  index = pos index;
  name = name;
  offset_ms = offset;
  tenant = tenant;
  gpu_count = pos gpus;
  duration_sec = duration;
  duty = zero_f;
}

unfoldable pub reclaim_scenario : Bool → ℤ → List TrainingTraceRow
reclaim_scenario late_return duration =
    let offset = if late_return then sub64 (mul64 duration (pos 1000)) (pos 10000) else pos 5000 in
    row_of 0 (text "a1") (pos 0) tenant_a 1 duration
    ∷ (row_of 1 (text "a2-borrow") (pos 1000) tenant_a 1 duration
        ∷ (row_of 2 (text "b1-owner") offset tenant_b 1 duration ∷ []))

unfoldable pub fifo_head_of_line_scenario : ℤ → ℤ → List TrainingTraceRow
fifo_head_of_line_scenario long small =
    row_of 0 (text "long1") (pos 0) tenant_a 1 long
    ∷ (row_of 1 (text "head2") (pos 3000) tenant_a 2 small
        ∷ (row_of 2 (text "small1") (pos 6000) tenant_a 1 small
            ∷ (row_of 3 (text "small2") (pos 9000) tenant_a 1 small
                ∷ (row_of 4 (text "small3") (pos 12000) tenant_a 1 small ∷ []))))

abbrev pub own_row_grace_margin_sec : ℕ
own_row_grace_margin_sec = 60

abbrev pub termination_grace_sec : ℕ
termination_grace_sec = 30

abbrev pub dose_self_completing : Text
dose_self_completing = text "self-completing"

abbrev pub dose_grace_bounded : Text
dose_grace_bounded = text "grace-bounded"

unfoldable pub contract_rows : ℤ → ℤ → List TrainingTraceRow
contract_rows victim_service dose =
    row_of 0 own_row (pos 0) tenant_a 1
      (add64 (add64 victim_service (pos termination_grace_sec)) (pos own_row_grace_margin_sec))
    ∷ (row_of 1 victim_row (pos 1000) tenant_a 1 victim_service
        ∷ (row_of 2 owner_row (add64 (pos 1000) (mul64 dose (pos 1000))) tenant_b 1 victim_service
            ∷ []))

unfoldable pub termination_contract_trace : ℤ → ℤ → Text → Result TraceError (List TrainingTraceRow)
unfolding contract_rows
termination_contract_trace victim_service dose regime =
    let remaining = sub64 victim_service dose in
    if leb_ℤ remaining (pos 0)
    then err nothing_to_reclaim
    else if text_eq regime dose_self_completing
    then (if leb_ℤ (pos termination_grace_sec) remaining
        then err cut_short
        else ok (contract_rows victim_service dose))
    else if text_eq regime dose_grace_bounded
    then (if ltb_ℤ remaining (pos termination_grace_sec)
        then err finishes_early
        else ok (contract_rows victim_service dose))
    else err unknown_regime
