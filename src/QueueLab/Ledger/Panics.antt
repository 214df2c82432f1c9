-- ===== src/QueueLab/Ledger/Panics.antt =====
-- Reconstruct dereferences no nil pointer.
use gpu_platform_control_pla.Base.{
  not, ◌&&◌, List, [], ◌∷◌, ◌≡◌, ◌≢◌, refl, sym, ◌∙◌, inl, inr, Option, none, some, arith, All,
  All-imp, ltb, length, Bool-cases, Option-cases,
}
use gpu_platform_control_pla.Base.Int.{ℤ, pos, ltb_ℤ}
use gpu_platform_control_pla.Base.Float.{Float}
use gpu_platform_control_pla.Base.Arith.{add_f}
use gpu_platform_control_pla.Base.Text.{Text}
use gpu_platform_control_pla.Base.Maps.{Map, lookup, insert, Holds}
use gpu_platform_control_pla.Base.Results.{Result, ok, err, on_ok, >>=-ok, >>=-err}
use gpu_platform_control_pla.QueueLab.Events.{
  EventType, LifecycleEvent, TrainingTraceRow, type_eq, names_of,
}
use gpu_platform_control_pla.QueueLab.Timeline.{
  Attempt, JobTimeline, Refusal, nil_pointer, seed, seeded, check_shape, fold_stop, fold_into,
  fold_shaped, fold_known, fold_event, fold_events, duplicate_job, unknown_job,
}
use gpu_platform_control_pla.QueueLab.Timeline.Invariant.{SoundMap}
use gpu_platform_control_pla.QueueLab.Timeline.Folding.{fold_events-Holds, seed-Holds}
use gpu_platform_control_pla.QueueLab.Charge.{
  WorkloadOutcome, start_of, since_submitted, counted, occupy, charged, start_order, do_not_overlap,
  pair_preemptions, charge_paired, charge_started, charge_runs, charge_admitted, charge_waste,
}
use gpu_platform_control_pla.QueueLab.Charge.Checked.{attempts_at-total}
use gpu_platform_control_pla.QueueLab.Ledger.{
  LabResult, timelines, outcome_of, row_outcome, each_row, add_outcome, add_wait, waits,
  empty_result, with_percentile, reconstruct,
}
use gpu_platform_control_pla.QueueLab.Ledger.Evidence.{timelines-Sound}
use gpu_platform_control_pla.QueueLab.Spread.{spread_of}

seed-ne : (m : Map JobTimeline) (rows : List TrainingTraceRow) → seed m rows ≢ err nil_pointer
unfolding seed
seed-ne m [] bad = cc
seed-ne m (row ∷ rows) bad = elim (Option-cases (lookup row.name m)) [
  | inl new ↦ seed-ne (insert row.name (seeded row) m) rows (sym (rw new refl) ∙ bad)
  | inr (t, dup) ↦ let no : err duplicate_job ≡ err nil_pointer = sym (rw dup refl) ∙ bad in cc
]

check_shape-ne : (ty : EventType) (e : LifecycleEvent) → check_shape ty e ≢ some nil_pointer
unfolding check_shape
check_shape-ne EventType.submitted e bad = cc
check_shape-ne EventType.admitted e bad = cc
check_shape-ne EventType.pod_ready e bad = ground arith
check_shape-ne EventType.preempted e bad = cc
check_shape-ne EventType.attempt_stopped e bad = ground arith
check_shape-ne EventType.completed e bad = cc
check_shape-ne (EventType.unknown s) e bad = cc

fold_stop-ne :
    (t : JobTimeline) (e : LifecycleEvent) (horizon : ℤ) (found : Option Attempt)
    → fold_stop t e horizon found ≢ err nil_pointer
unfolding fold_stop
fold_stop-ne t e horizon none bad = ground arith
fold_stop-ne t e horizon (some a) bad = ground arith

fold_into-ne :
    (ty : EventType) (t : JobTimeline) (e : LifecycleEvent) (horizon : ℤ)
    → fold_into ty t e horizon ≢ err nil_pointer
unfolding fold_into
fold_into-ne EventType.submitted t e horizon bad = ground arith
fold_into-ne EventType.admitted t e horizon bad = ground arith
fold_into-ne EventType.pod_ready t e horizon bad = cc
fold_into-ne EventType.preempted t e horizon bad = cc
fold_into-ne EventType.attempt_stopped t e horizon bad =
    fold_stop-ne t e horizon (lookup e.object_uid t.attempts) bad
fold_into-ne EventType.completed t e horizon bad = ground arith
fold_into-ne (EventType.unknown s) t e horizon bad = cc

fold_shaped-ne :
    (m : Map JobTimeline) (e : LifecycleEvent) (horizon : ℤ) (t : JobTimeline)
    (shape : Option Refusal)
    → shape ≢ some nil_pointer
    → fold_shaped m e horizon t shape ≢ err nil_pointer
unfolding fold_shaped
fold_shaped-ne m e horizon t (some r) fine bad = fine (cc)
fold_shaped-ne m e horizon t none fine bad =
    elim (Bool-cases
      (ltb_ℤ horizon e.elapsed_ns && not (type_eq e.type EventType.attempt_stopped))) [
        | inl past ↦ ground arith
        | inr kept ↦
            let put : JobTimeline → Result Refusal (Map JobTimeline) =
              λ t'. ok (insert e.job t' m) in
            let chain : on_ok put (fold_into e.type t e horizon) ≡ err nil_pointer =
              sym (rw kept refl) ∙ bad in
            elim (>>=-err put (fold_into e.type t e horizon) nil_pointer chain) [
              | inl first ↦ fold_into-ne e.type t e horizon first
              | inr (t', step, last) ↦ cc
            ]
      ]

fold_event-ne :
    (m : Map JobTimeline) (e : LifecycleEvent) (horizon : ℤ)
    → fold_event m e horizon ≢ err nil_pointer
unfolding fold_event fold_known
fold_event-ne m e horizon bad = elim (Bool-cases (ltb_ℤ e.elapsed_ns (pos 0))) [
  | inl early ↦ ground arith
  | inr late ↦ elim (Option-cases (lookup e.job m)) [
    | inl gone ↦ let no : err unknown_job ≡ err nil_pointer = sym (rw (late, gone) refl) ∙ bad in cc
    | inr (t, row) ↦
        fold_shaped-ne m e horizon t (check_shape e.type e) (check_shape-ne e.type e)
          (sym (rw (late, row) refl) ∙ bad)
  ]
]

fold_events-ne :
    (m : Map JobTimeline) (es : List LifecycleEvent) (horizon : ℤ)
    → fold_events m es horizon ≢ err nil_pointer
unfolding fold_events
fold_events-ne m [] horizon bad = cc
fold_events-ne m (e ∷ es) horizon bad =
    elim (>>=-err (λ n. fold_events n es horizon) (fold_event m e horizon) nil_pointer bad) [
      | inl first ↦ fold_event-ne m e horizon first
      | inr (n, step, last) ↦ fold_events-ne n es horizon last
    ]

occupy-ne :
    (t : JobTimeline) (horizon : ℤ) (runs : List Attempt) (total : Float)
    → occupy t horizon runs total ≢ err nil_pointer
unfolding occupy
occupy-ne t horizon [] total bad = cc
occupy-ne t horizon (a ∷ runs) total bad =
    elim (Bool-cases (a.stopped && ltb_ℤ a.stop_ns a.ready_ns)) [
      | inl early ↦ ground arith
      | inr fine ↦
          occupy-ne t horizon runs (add_f total (charged t horizon a)) (sym (rw fine refl) ∙ bad)
    ]

start_of-ne :
    (t : JobTimeline) (runs : List Attempt) (out : WorkloadOutcome)
    → start_of t runs out ≢ err nil_pointer
unfolding start_of since_submitted
start_of-ne t [] out bad = cc
start_of-ne t (a ∷ runs) out bad = ground arith

charge_paired-ne :
    (t : JobTimeline) (horizon : ℤ) (ordered : List Attempt) (out : WorkloadOutcome)
    → charge_paired t horizon ordered out ≢ err nil_pointer
unfolding charge_paired pair_preemptions
charge_paired-ne t horizon ordered out bad = elim (Bool-cases (do_not_overlap ordered)) [
  | inr clash ↦ ground arith
  | inl apart ↦ elim (Bool-cases (ltb (length ordered) (length t.preempted_ns))) [
    | inl few ↦ ground arith
    | inr enough ↦ ground arith
  ]
]

charge_admitted-ne :
    (t : JobTimeline) (horizon : ℤ) (out : WorkloadOutcome)
    → All (Holds t.attempts) t.attempt_seq
    → charge_admitted t horizon out ≢ err nil_pointer
unfolding charge_admitted charge_runs charge_started
charge_admitted-ne t horizon out held bad =
    let (runs, found) = attempts_at-total t.attempts t.attempt_seq held in
    let started = sym (rw found refl) ∙ bad in
    elim (>>=-err (charge_started t horizon runs) (start_of t runs (counted t out)) nil_pointer
      started) [
        | inl first ↦ start_of-ne t runs (counted t out) first
        | inr (out', step, rest) ↦
            elim (>>=-err _ (occupy t horizon runs out'.total_occupancy) nil_pointer rest) [
              | inl first ↦ occupy-ne t horizon runs out'.total_occupancy first
              | inr (total, step', rest') ↦
                  charge_paired-ne t horizon (start_order runs)
                    (record out' { total_occupancy = total }) rest'
            ]
      ]

outcome_of-ne :
    (name : Text) (t : JobTimeline) (horizon : ℤ)
    → All (Holds t.attempts) t.attempt_seq
    → outcome_of name t horizon ≢ err nil_pointer
unfolding outcome_of charge_waste
outcome_of-ne name t horizon held bad = elim (Bool-cases t.submitted) [
  | inr never ↦ ground arith
  | inl there ↦ elim (Bool-cases (t.completed && not t.admitted)) [
    | inl odd ↦ ground arith
    | inr fine ↦
        charge_admitted-ne t horizon (waits name t horizon) held (sym (rw (there, fine) refl) ∙ bad)
  ]
]

row_outcome-ne :
    (by_job : Map JobTimeline) (horizon : ℤ) (name : Text)
    → SoundMap horizon by_job
    → Holds by_job name
    → row_outcome by_job horizon name ≢ err nil_pointer
unfolding row_outcome
row_outcome-ne by_job horizon name sound held bad = elim (Option-cases (lookup name by_job)) [
  | inl gone ↦ held gone
  | inr (t, row) ↦
      outcome_of-ne name t horizon (sound name t row).seq_held (sym (rw row refl) ∙ bad)
]

each_row-ne :
    (by_job : Map JobTimeline) (horizon : ℤ) (names : List Text) (res : LabResult) (ws : List Float)
    → SoundMap horizon by_job
    → All (Holds by_job) names
    → each_row by_job horizon names res ws ≢ err nil_pointer
unfolding each_row
each_row-ne by_job horizon [] res ws sound held bad = cc
each_row-ne by_job horizon (name ∷ names) res ws sound held bad =
    elim (>>=-err
      (λ (out : WorkloadOutcome).
        each_row by_job horizon names (add_outcome res out) (add_wait ws out))
      (row_outcome by_job horizon name) nil_pointer bad) [
        | inl first ↦ row_outcome-ne by_job horizon name sound held.0 first
        | inr (out, step, rest) ↦
            each_row-ne by_job horizon names (add_outcome res out) (add_wait ws out) sound held.1
              rest
      ]

timelines-hold :
    (trace : List TrainingTraceRow) (events : List LifecycleEvent) (horizon : ℤ)
    (by_job : Map JobTimeline)
    → timelines trace events horizon ≡ ok by_job
    → All (Holds by_job) (names_of trace)
unfolding timelines
timelines-hold trace events horizon by_job same =
    let (start, seeded_ok, folded) =
      >>=-ok (λ (m : Map JobTimeline). fold_events m events horizon) (seed [] trace) by_job same in
    All-imp (Holds start) (Holds by_job) (names_of trace)
      (λ name held. fold_events-Holds horizon start by_job events name held folded)
      (seed-Holds [] start trace seeded_ok).1

-- Whatever the trace, the events and the horizon are, Reconstruct dereferences no nil pointer: every
-- row's timeline is in byJob, and every UID of its attemptSeq is in its attempts.
pub reconstruct_never_panics :
    (wild : ℤ) (arm : Text) (trace : List TrainingTraceRow) (events : List LifecycleEvent)
    (horizon : ℤ)
    → reconstruct wild arm trace events horizon ≢ err nil_pointer
unfolding reconstruct timelines
reconstruct_never_panics wild arm trace events horizon bad =
    elim (>>=-err _ (timelines trace events horizon) nil_pointer bad) [
      | inl first ↦
          elim (>>=-err (λ (m : Map JobTimeline). fold_events m events horizon) (seed [] trace)
            nil_pointer first) [
              | inl seeding ↦ seed-ne [] trace seeding
              | inr (start, step, folding) ↦ fold_events-ne start events horizon folding
            ]
      | inr (by_job, made, rest) ↦
          elim (>>=-err (λ (last : LabResult × List Float). ok (with_percentile wild last))
            (each_row by_job horizon (names_of trace)
              (empty_result arm (length trace) (spread_of events)) [])
            nil_pointer rest) [
              | inl walking ↦
                  each_row-ne by_job horizon (names_of trace) _ []
                    (timelines-Sound trace events horizon by_job made)
                    (timelines-hold trace events horizon by_job made) walking
              | inr (last, step, ended) ↦ cc
            ]
    ]
