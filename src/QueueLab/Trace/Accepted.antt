-- ===== src/QueueLab/Trace/Accepted.antt =====
-- The traces that the contract's generator gives, against the checks that a run puts them through.
use gpu_platform_control_pla.Base.{
  ℕ, ◌+◌, ◌-◌, ◌*◌, ◌≤◌, ◌<◌, ◌≡◌, refl, sym, ◌∙◌, ap, subst, Bool, true, false, List, arith,
  Bool-cases, inl, inr, if◌then◌else◌,
}
use gpu_platform_control_pla.Base.Int.{pos, leb_ℤ, ltb_ℤ}
use gpu_platform_control_pla.Base.Arith.{add64, sub64, mul64}
use gpu_platform_control_pla.Base.Text.{Text, text_eq, text_eq_iff}
use gpu_platform_control_pla.Base.Maps.{has_key}
use gpu_platform_control_pla.Base.Results.{ok, err}
use gpu_platform_control_pla.QueueLab.Events.{TrainingTraceRow}
use gpu_platform_control_pla.QueueLab.Trace.{
  TraceError, study_reclaim, dose_self_completing, dose_grace_bounded, contract_rows,
  termination_contract_trace, max_int32, cut_short, finishes_early, unknown_regime,
  nothing_to_reclaim,
}
use gpu_platform_control_pla.QueueLab.Trace.Checks.{
  validate_trace, validate_structural, check_rows, check_row, check_study, check_reclaim,
  rfc1123_name, ends_alnum, is_alnum,
}
use gpu_platform_control_pla.QueueLab.Schedule.{Step, termination_contract_schedule, contract_steps}
use gpu_platform_control_pla.QueueLab.Schedule.Causal.{Schedules, three_steps-Schedules}

-- Small products and sums do not wrap.
add64_small : (a b : ℕ) → a + b ≤ max_int32 → add64 (pos a) (pos b) ≡ pos (a + b)
unfolding add64
add64_small a b small = ground arith

mul64_small : (a : ℕ) → a * 1000 ≤ max_int32 → mul64 (pos a) (pos 1000) ≡ pos (a * 1000)
unfolding mul64
mul64_small a small = ground arith

contract_rows_small :
    (v d : ℕ)
    → v + 90 ≤ max_int32
    → 1000 + d * 1000 ≤ max_int32
    → 0 < v
    → validate_trace study_reclaim (contract_rows (pos v) (pos d)) ≡ ok tt
unfolding contract_rows validate_trace validate_structural check_rows check_row check_study
    check_reclaim rfc1123_name ends_alnum is_alnum has_key text_eq
contract_rows_small v d short early works =
    rw
      (
        add64_small v 30 (omega arith),
        add64_small (v + 30) 60 (omega arith),
        mul64_small d (omega arith),
        add64_small 1000 (d * 1000) (omega arith),
      )
      (ground arith)

contract_schedule_small :
    (v d : ℕ)
    → v + 90 ≤ max_int32
    → 1000 + d * 1000 ≤ max_int32
    → (steps : List Step) × (termination_contract_schedule (contract_rows (pos v) (pos d)) (pos d)
        ≡ ok steps)
      × Schedules steps (contract_rows (pos v) (pos d))
unfolding contract_rows termination_contract_schedule contract_steps text_eq
contract_schedule_small v d short early = (
  _,
  rw
      (
        add64_small v 30 (omega arith),
        add64_small (v + 30) 60 (omega arith),
        mul64_small d (omega arith),
        add64_small 1000 (d * 1000) (omega arith),
      )
      (ground arith),
  three_steps-Schedules _ _ _ (pos d),
)

-- The remaining service, where the numbers are small.
remaining_small :
    (v d : ℕ)
    → v ≤ max_int32
    → d ≤ max_int32
    → leb_ℤ (sub64 (pos v) (pos d)) (pos 0) ≡ false
    → (d < v) × (sub64 (pos v) (pos d) ≡ pos (v - d))
unfolding sub64
remaining_small v d short early some_left = (ground arith, ground arith)

-- What a regime says of the victim: it ends within the grace period, or it would outlive it.
pub data Fits (v d : ℕ) (regime : Text) : Type 0 where
  self_completing : regime ≡ dose_self_completing → v < d + 30 → Fits v d regime
  grace_bounded : regime ≡ dose_grace_bounded → d + 30 ≤ v → Fits v d regime

within_grace : (v d : ℕ) → leb_ℤ (pos 30) (pos (v - d)) ≡ false → v < d + 30
within_grace v d fits = ground arith

past_grace : (v d : ℕ) → d < v → ltb_ℤ (pos (v - d)) (pos 30) ≡ false → d + 30 ≤ v
past_grace v d less fits = ground arith

-- A test that refuses, where the result is a value.
abbrev Tested : {A : Type 0} → Bool → TraceError → A → A → Type 0
Tested b e a r = (if b then err e else ok a) ≡ ok r

if_ok :
    {A : Type 0} (b : Bool) (e : TraceError) (a : A) {r : A}
    → Tested b e a r
    → (b ≡ false) × (a ≡ r)
if_ok true e a same = absurd (cc)
if_ok false e a same = (refl, cc)

generated :
    (v d : ℕ) (regime : Text) (rows : List TrainingTraceRow)
    → v ≤ max_int32
    → d ≤ max_int32
    → termination_contract_trace (pos v) (pos d) regime ≡ ok rows
    → (d < v) × Fits v d regime × (rows ≡ contract_rows (pos v) (pos d))
unfolding termination_contract_trace
generated v d regime rows short early same =
    elim (Bool-cases (leb_ℤ (sub64 (pos v) (pos d)) (pos 0))) [
      | inl none_left ↦
          let bad : err nothing_to_reclaim ≡ ok rows = sym (rw none_left refl) ∙ same in absurd (cc)
      | inr some_left ↦
          let (less, left) = remaining_small v d short early some_left in
          elim (Bool-cases (text_eq regime dose_self_completing)) [
            | inl self ↦
                let tested : Tested (leb_ℤ (pos 30) (sub64 (pos v) (pos d))) cut_short
                    (contract_rows (pos v) (pos d)) rows =
                  sym (rw (some_left, self) refl) ∙ same in
                let (fits, is) = if_ok _ cut_short _ tested in
                (
                  less,
                  self_completing ((text_eq_iff regime dose_self_completing).0 self)
                      (within_grace v d (ap (leb_ℤ (pos 30)) (sym left) ∙ fits)),
                  sym is,
                )
            | inr other ↦ elim (Bool-cases (text_eq regime dose_grace_bounded)) [
              | inl grace ↦
                  let tested : Tested (ltb_ℤ (sub64 (pos v) (pos d)) (pos 30)) finishes_early
                      (contract_rows (pos v) (pos d)) rows =
                    sym (rw (some_left, other, grace) refl) ∙ same in
                  let (fits, is) = if_ok _ finishes_early _ tested in
                  (
                    less,
                    grace_bounded ((text_eq_iff regime dose_grace_bounded).0 grace)
                        (past_grace v d less (ap (λ r. ltb_ℤ r (pos 30)) (sym left) ∙ fits)),
                    sym is,
                  )
              | inr unknown ↦
                  let bad : err unknown_regime ≡ ok rows =
                    sym (rw (some_left, other, unknown) refl) ∙ same in
                  absurd (cc)
            ]
          ]
    ]

-- A trace that the generator of the termination contract gives for a service and a dose that are not
-- negative is one that a run accepts, where its times fit an int32: the dose ends before the victim's service, and the rest of that service ends
-- within the grace period exactly as the regime says; the reclaim study's checks pass; and the
-- contract's schedule for this dose submits the three rows in order, each after earlier ones.
pub contract_trace_is_accepted :
    (v d : ℕ) (regime : Text) (rows : List TrainingTraceRow)
    → v + 90 ≤ max_int32
    → 1000 + d * 1000 ≤ max_int32
    → termination_contract_trace (pos v) (pos d) regime ≡ ok rows
    → ((d < v) × Fits v d regime)
      × (validate_trace study_reclaim rows ≡ ok tt)
      × ((steps : List Step) × (termination_contract_schedule rows (pos d) ≡ ok steps)
          × Schedules steps rows)
contract_trace_is_accepted v d regime rows short early same =
    let (less, fits, is) = generated v d regime rows (omega arith) (omega arith) same in
    (
      (less, fits),
      subst (λ r. validate_trace study_reclaim r ≡ ok tt) (sym is)
          (contract_rows_small v d short early (omega arith)),
      subst
          (λ r.
            (steps : List Step) × (termination_contract_schedule r (pos d) ≡ ok steps)
            × Schedules steps r)
          (sym is) (contract_schedule_small v d short early),
    )
