-- ===== src/QueueLab/Ledger/Rows.antt =====
-- The result has one row for each row of the trace, and its counts and sums are those of its rows.
use mathlib.Core.List.{append_assoc, append-nil}
use gpu_platform_control_pla.Base.{
  ◌+◌, ◌<◌, true, List, [], ◌∷◌, ◌++◌, ◌≡◌, ◌↔◌, suc, refl, sym, ◌∙◌, ap, inl, inr, arith, length,
  Option-cases, subst,
}
use gpu_platform_control_pla.Base.Int.{ℤ}
use gpu_platform_control_pla.Base.Float.{Float}
use gpu_platform_control_pla.Base.Text.{Text}
use gpu_platform_control_pla.Base.Maps.{Map, lookup}
use gpu_platform_control_pla.Base.Results.{ok, err, ◌>>=◌, >>=-ok}
use gpu_platform_control_pla.QueueLab.Events.{LifecycleEvent, TrainingTraceRow, names_of}
use gpu_platform_control_pla.QueueLab.Spread.{spread_of}
use gpu_platform_control_pla.QueueLab.Timeline.{JobTimeline, nil_pointer}
use gpu_platform_control_pla.QueueLab.Charge.{WorkloadOutcome}
use gpu_platform_control_pla.QueueLab.Ledger.{
  LabResult, timelines, outcome_of, row_outcome, each_row, add_outcome, add_wait, empty_result,
  with_percentile, reconstruct, waits,
}
use gpu_platform_control_pla.QueueLab.Ledger.Evidence.{outcome_of-ok, passed_kept, waits_kept}
use gpu_platform_control_pla.QueueLab.Ledger.Tally.{
  Tallied, jobs_of, count_where, empty_result-Tallied, add_outcome-Tallied, jobs_of-append,
  with_percentile-Tallied,
}

row_outcome-job :
    (by_job : Map JobTimeline) (horizon : ℤ) (name : Text) (out : WorkloadOutcome)
    → row_outcome by_job horizon name ≡ ok out
    → out.job ≡ name
unfolding row_outcome
row_outcome-job by_job horizon name out same = elim (Option-cases (lookup name by_job)) [
  | inl gone ↦ let bad : err nil_pointer ≡ ok out = sym (rw gone refl) ∙ same in absurd (cc)
  | inr (t, here) ↦
      let made : outcome_of name t horizon ≡ ok out = sym (rw here refl) ∙ same in
      let p = (outcome_of-ok name t horizon out made).1 in
      (passed_kept t horizon (waits name t horizon) out p).0 ∙ (waits_kept name t horizon).0
]

each_row-ok :
    (by_job : Map JobTimeline) (horizon : ℤ) (names : List Text) (res res' : LabResult)
    (ws ws' : List Float)
    → each_row by_job horizon names res ws ≡ ok (res', ws')
    → Tallied res
    → Tallied res'
      × (jobs_of res'.outcomes ≡ jobs_of res.outcomes ++ names)
      × (res'.offered ≡ res.offered)
      × (res'.spread ≡ res.spread)
unfolding each_row add_outcome
each_row-ok by_job horizon [] res res' ws ws' same h =
    let this : res ≡ res' = cc in
    subst
      (λ r.
        Tallied r
        × (jobs_of r.outcomes ≡ jobs_of res.outcomes ++ [])
        × (r.offered ≡ res.offered)
        × (r.spread ≡ res.spread))
      this (h, sym (append-nil (jobs_of res.outcomes)), refl, refl)
each_row-ok by_job horizon (name ∷ names) res res' ws ws' same h =
    let (out, one, rest) =
      >>=-ok
        (λ (out : WorkloadOutcome).
          each_row by_job horizon names (add_outcome res out) (add_wait ws out))
        (row_outcome by_job horizon name) (res', ws') same in
    let (tallied, jobs, offered, spread) =
      each_row-ok by_job horizon names (add_outcome res out) res' (add_wait ws out) ws' rest
        (add_outcome-Tallied res out h) in
    (
      tallied,
      jobs
          ∙ ap (λ js. js ++ names) (jobs_of-append res.outcomes out)
          ∙ append_assoc (jobs_of res.outcomes) (out.job ∷ []) names
          ∙ ap (λ j. jobs_of res.outcomes ++ (j ∷ names))
              (row_outcome-job by_job horizon name out one),
      offered,
      spread,
    )

abbrev start_with : Text → List TrainingTraceRow → List LifecycleEvent → LabResult
start_with arm trace events = empty_result arm (length trace) (spread_of events)

length-jobs_of : (outs : List WorkloadOutcome) → length (jobs_of outs) ≡ length outs
length-jobs_of [] = refl
length-jobs_of (o ∷ outs) = ap suc (length-jobs_of outs)

length-names_of : (trace : List TrainingTraceRow) → length (names_of trace) ≡ length trace
length-names_of [] = refl
length-names_of (row ∷ trace) = ap suc (length-names_of trace)

-- A result that accounts for every row of the trace.
abbrev pub Accounts : List TrainingTraceRow → List LifecycleEvent → LabResult → Type 0
Accounts trace events res =
    Tallied res
    × (jobs_of res.outcomes ≡ names_of trace)
    × (res.offered ≡ length trace)
    × (res.completed + res.unfinished_at_horizon ≡ res.offered)
    × (res.spread ≡ spread_of events)
    × ((res.wait_p95_fully_observed ≡ true)
        ↔ ((0 < length trace) × (count_where (λ o. o.admitted) res.outcomes ≡ length trace)))

walked-Accounts :
    (wild : ℤ) (arm : Text) (trace : List TrainingTraceRow) (events : List LifecycleEvent)
    (horizon : ℤ) (by_job : Map JobTimeline) (last : LabResult × List Float)
    → each_row by_job horizon (names_of trace) (start_with arm trace events) [] ≡ ok last
    → Accounts trace events (with_percentile wild last)
unfolding with_percentile empty_result
walked-Accounts wild arm trace events horizon by_job (res, ws) walked =
    let (h, jobs, offered, spread) =
      each_row-ok by_job horizon (names_of trace) (start_with arm trace events) res [] ws walked
        (empty_result-Tallied arm (length trace) (spread_of events)) in
    let rows : length res.outcomes ≡ length trace =
      sym (length-jobs_of res.outcomes) ∙ ap length jobs ∙ length-names_of trace in
    let admitted = h.admitted in
    let unfinished = h.unfinished in
    (
      with_percentile-Tallied wild res ws h,
      jobs,
      offered,
      omega arith,
      spread,
      ((λ full. (ground arith, ground arith)), (λ full. ground arith)),
    )

-- Every row of the trace is accounted for: the rows of a result are those of the trace in their
-- order, as many as were offered; each of them is either completed or unfinished at the horizon; the
-- counts, sums and flags of the result are those of its rows; its spread is that of the events; and
-- the wait is called fully observed exactly when rows were offered and every one was admitted.
pub result-Accounts_for_every_row :
    (wild : ℤ) (arm : Text) (trace : List TrainingTraceRow) (events : List LifecycleEvent)
    (horizon : ℤ) (res : LabResult)
    → reconstruct wild arm trace events horizon ≡ ok res
    → Accounts trace events res
unfolding reconstruct
result-Accounts_for_every_row wild arm trace events horizon res same =
    let (by_job, made, rest) =
      >>=-ok
        (λ (m : Map JobTimeline).
          each_row m horizon (names_of trace) (start_with arm trace events) []
          >>= λ (last : LabResult × List Float). ok (with_percentile wild last))
        (timelines trace events horizon) res same in
    let (last, walked, ended) =
      >>=-ok (λ (last : LabResult × List Float). ok (with_percentile wild last))
        (each_row by_job horizon (names_of trace) (start_with arm trace events) []) res rest in
    let this : with_percentile wild last ≡ res = cc in
    subst (Accounts trace events) this
      (walked-Accounts wild arm trace events horizon by_job last walked)
