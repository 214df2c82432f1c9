-- ===== src/QueueLab/Trace/Checks.antt =====
-- ValidateTrace and validateStructural of trace.go in internal/queuelab.
use gpu_platform_control_pla.Base.{
  ℕ, suc, Bool, true, false, not, ◌&&◌, ◌||◌, List, [], ◌∷◌, ltb, leb, ◌==◌, if◌then◌else◌, length,
}
use gpu_platform_control_pla.Base.Int.{ℤ, pos, ltb_ℤ, eq_ℤ}
use gpu_platform_control_pla.Base.Text.{Text, text_eq}
use gpu_platform_control_pla.Base.Maps.{has_key}
use gpu_platform_control_pla.Base.Results.{Result, ok, err, ◌>>=◌}
use gpu_platform_control_pla.QueueLab.Events.{TrainingTraceRow}
use gpu_platform_control_pla.QueueLab.Trace.{
  TraceError, study_reclaim, study_fifo, tenant_a, tenant_b, lab_max_gpu, max_int32, empty_trace,
  bad_name, duplicate_name, bad_index, bad_offset, offsets_decrease, bad_gpu_count, bad_duration,
  bad_tenant, bad_reclaim_gpu, one_tenant_only, no_head_job, unknown_study,
}

-- rfc1123Name: lower-case letters, digits and inner dashes.
unfoldable pub is_alnum : ℕ → Bool
is_alnum c = (leb 97 c && leb c 122) || (leb 48 c && leb c 57)

unfoldable pub ends_alnum : Text → Bool
unfolding is_alnum
ends_alnum [] = true
ends_alnum (c ∷ []) = is_alnum c
ends_alnum (c ∷ (d ∷ cs)) = let rest = ends_alnum (d ∷ cs) in (is_alnum c || c == 45) && rest

unfoldable pub rfc1123_name : Text → Bool
unfolding is_alnum ends_alnum
rfc1123_name [] = false
rfc1123_name (c ∷ cs) = is_alnum c && ends_alnum cs

-- One row at its position, after the names and the offset before it.
unfoldable pub check_row : ℕ → List Text → ℤ → TrainingTraceRow → Result TraceError (Unit {0})
unfolding rfc1123_name
check_row i names prev row =
    if not (rfc1123_name row.name) || ltb 63 (length row.name)
    then err bad_name
    else if has_key row.name names
    then err duplicate_name
    else if not (eq_ℤ row.index (pos i))
    then err bad_index
    else if ltb_ℤ row.offset_ms (pos 0) || ltb_ℤ (pos max_int32) row.offset_ms
    then err bad_offset
    else if ltb_ℤ row.offset_ms prev
    then err offsets_decrease
    else if ltb_ℤ row.gpu_count (pos 1) || ltb_ℤ (pos lab_max_gpu) row.gpu_count
    then err bad_gpu_count
    else if ltb_ℤ row.duration_sec (pos 1) || ltb_ℤ (pos max_int32) row.duration_sec
    then err bad_duration
    else ok tt

unfoldable pub check_rows : ℕ → List Text → ℤ → List TrainingTraceRow → Result TraceError (Unit {0})
unfolding check_row
check_rows i names prev [] = ok tt
check_rows i names prev (row ∷ rows) = check_row i names prev row >>= λ (u : Unit {0}).
    check_rows (suc i) (row.name ∷ names) row.offset_ms rows

unfoldable pub validate_structural : List TrainingTraceRow → Result TraceError (Unit {0})
unfolding check_rows
validate_structural [] = err empty_trace
validate_structural (row ∷ rows) = check_rows 0 [] (pos 0) (row ∷ rows)

-- The rows of the reclaim study; `a` and `b` say which tenants were seen.
unfoldable pub check_reclaim : Bool → Bool → List TrainingTraceRow → Result TraceError (Unit {0})
check_reclaim a b [] = if not a || not b then err one_tenant_only else ok tt
check_reclaim a b (row ∷ rows) =
    let rest =
      check_reclaim (a || text_eq row.tenant tenant_a) (b || text_eq row.tenant tenant_b) rows in
    if not (text_eq row.tenant tenant_a) && not (text_eq row.tenant tenant_b)
    then err bad_tenant
    else if not (eq_ℤ row.gpu_count (pos 1))
    then err bad_reclaim_gpu
    else rest

unfoldable pub check_fifo : Bool → List TrainingTraceRow → Result TraceError (Unit {0})
check_fifo has_head [] = if not has_head then err no_head_job else ok tt
check_fifo has_head (row ∷ rows) =
    let rest = check_fifo (has_head || eq_ℤ row.gpu_count (pos lab_max_gpu)) rows in
    if not (text_eq row.tenant tenant_a) then err bad_tenant else rest

unfoldable pub check_study : Text → List TrainingTraceRow → Result TraceError (Unit {0})
unfolding check_reclaim check_fifo
check_study study rows =
    if text_eq study study_reclaim
    then check_reclaim false false rows
    else if text_eq study study_fifo
    then check_fifo false rows
    else err unknown_study

unfoldable pub validate_trace : Text → List TrainingTraceRow → Result TraceError (Unit {0})
unfolding validate_structural check_study
validate_trace study rows = validate_structural rows >>= λ (u : Unit {0}). check_study study rows
