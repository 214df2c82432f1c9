-- ===== src/QueueLab/Schedule/Causal.antt =====
-- The order of a schedule.
use gpu_platform_control_pla.Base.{
  ◌≡◌, refl, sym, ◌∙◌, ap, subst, Bool, true, ◌&&◌, List, [], ◌∷◌, arith, Bool-cases, inl, inr,
}
use gpu_platform_control_pla.Base.Int.{ℤ}
use gpu_platform_control_pla.Base.Text.{Text, text_eq, text_eq_refl}
use gpu_platform_control_pla.Base.Maps.{has_key}
use gpu_platform_control_pla.Base.Results.{Result, ok, err}
use gpu_platform_control_pla.QueueLab.Events.{TrainingTraceRow}
use gpu_platform_control_pla.QueueLab.Trace.{study_reclaim, study_fifo}
use gpu_platform_control_pla.QueueLab.Schedule.{
  Barrier, BarrierKind, Step, ScheduleError, no_such_study, admitted_ready, flavor_usage, pending,
  delay_from_ready, three_steps, reclaim_schedule, behind_head, fifo_schedule, study_schedule,
}

-- A barrier on a job is on one that was submitted; usage is the cluster's.
unfoldable pub is_met_by : List Text → BarrierKind → Text → Bool
is_met_by before flavor_usage job = true
is_met_by before admitted_ready job = has_key job before
is_met_by before pending job = has_key job before
is_met_by before delay_from_ready job = has_key job before

unfoldable pub all_met : List Text → List Barrier → Bool
unfolding is_met_by
all_met before [] = true
all_met before (b ∷ bs) = is_met_by before b.kind b.job && all_met before bs

-- Every step waits for jobs of earlier steps only.
unfoldable pub waits_on_earlier : List Text → List Step → Bool
unfolding all_met
waits_on_earlier before [] = true
waits_on_earlier before (s ∷ steps) =
    all_met before s.after && waits_on_earlier (s.row.name ∷ before) steps

abbrev pub rows_of : List Step → List TrainingTraceRow
rows_of [] = []
rows_of (s ∷ steps) = s.row ∷ rows_of steps

-- The steps submit the rows in their order, and none waits for a later one.
abbrev pub Schedules : List Step → List TrainingTraceRow → Type 0
Schedules steps trace = (rows_of steps ≡ trace) × (waits_on_earlier [] steps ≡ true)

pub three_steps-Schedules :
    (a b c : TrainingTraceRow) (delay : ℤ)
    → Schedules (three_steps a b c delay) (a ∷ (b ∷ (c ∷ [])))
unfolding three_steps waits_on_earlier all_met is_met_by has_key
three_steps-Schedules a b c delay = (refl, rw (text_eq_refl a.name, text_eq_refl b.name) refl)

-- `head` was submitted before.
behind_head-rows :
    (head : Text) (rows : List TrainingTraceRow) → rows_of (behind_head head rows) ≡ rows
unfolding behind_head
behind_head-rows head [] = refl
behind_head-rows head (small ∷ rows) = ap (λ xs. small ∷ xs) (behind_head-rows head rows)

behind_head-waits :
    (head : Text) (before : List Text) (rows : List TrainingTraceRow)
    → has_key head before ≡ true
    → waits_on_earlier before (behind_head head rows) ≡ true
unfolding behind_head waits_on_earlier all_met is_met_by has_key
behind_head-waits head before [] here = refl
behind_head-waits head before (small ∷ rows) here =
    let later : has_key head (small.name ∷ before) ≡ true = ground arith in
    rw (here, behind_head-waits head (small.name ∷ before) rows later) refl

ok_inj : {A : Type 0} (r : Result ScheduleError A) {x y : A} → r ≡ ok x → r ≡ ok y → x ≡ y
ok_inj r one other = cc

reclaim-Schedules :
    (trace : List TrainingTraceRow) (steps : List Step)
    → reclaim_schedule trace ≡ ok steps
    → Schedules steps trace
unfolding reclaim_schedule
reclaim-Schedules [] steps same = absurd (cc)
reclaim-Schedules (a ∷ []) steps same = absurd (cc)
reclaim-Schedules (a ∷ (b ∷ [])) steps same = absurd (cc)
reclaim-Schedules (a ∷ (b ∷ (c ∷ []))) steps same =
    subst (λ s. Schedules s (a ∷ (b ∷ (c ∷ [])))) (ok_inj _ refl same)
      (three_steps-Schedules a b c _)
reclaim-Schedules (a ∷ (b ∷ (c ∷ (d ∷ rows)))) steps same = absurd (cc)

fifo-Schedules :
    (trace : List TrainingTraceRow) (steps : List Step)
    → fifo_schedule trace ≡ ok steps
    → Schedules steps trace
unfolding fifo_schedule waits_on_earlier all_met is_met_by has_key
fifo-Schedules [] steps same = absurd (cc)
fifo-Schedules (a ∷ []) steps same = absurd (cc)
fifo-Schedules (a ∷ (b ∷ [])) steps same = absurd (cc)
fifo-Schedules (a ∷ (b ∷ (c ∷ rows))) steps same =
    subst (λ s. Schedules s (a ∷ (b ∷ (c ∷ rows)))) (ok_inj _ refl same)
      (
        ap (λ xs. a ∷ (b ∷ xs)) (behind_head-rows b.name (c ∷ rows)),
        rw
            (
              text_eq_refl a.name,
              behind_head-waits b.name (b.name ∷ (a.name ∷ [])) (c ∷ rows)
                  (rw (text_eq_refl b.name) refl),
            )
            refl,
      )

-- A schedule of a study submits the rows of the trace, each once and in their order, and every
-- barrier of a step is on the cluster's usage or on a row that an earlier step submits.
pub schedule_follows_trace :
    (study : Text) (trace : List TrainingTraceRow) (steps : List Step)
    → study_schedule study trace ≡ ok steps
    → Schedules steps trace
unfolding study_schedule
schedule_follows_trace study trace steps same = elim (Bool-cases (text_eq study study_reclaim)) [
  | inl reclaim ↦ reclaim-Schedules trace steps (sym (rw reclaim refl) ∙ same)
  | inr other ↦ elim (Bool-cases (text_eq study study_fifo)) [
    | inl fifo ↦ fifo-Schedules trace steps (sym (rw (other, fifo) refl) ∙ same)
    | inr unknown ↦
        let bad : err no_such_study ≡ ok steps = sym (rw (other, unknown) refl) ∙ same in
        absurd (cc)
  ]
]
