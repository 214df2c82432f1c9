-- ===== src/QueueLab/Ledger/Evidence.antt =====
-- What one row of the result rests on.
use gpu_platform_control_pla.Base.{
  ◌+◌, ◌≤◌, Bool, true, false, ◌||◌, List, [], ◌≡◌, refl, sym, ◌∙◌, ap, inl, inr, some, arith, any,
  Bool-cases, take, length, subst,
}
use gpu_platform_control_pla.Base.Int.{ℤ, pos, pos_part, ◌≤ℤ◌}
use gpu_platform_control_pla.Base.Clock.{max_duration}
use gpu_platform_control_pla.Base.Float.{Float, zero_f}
use gpu_platform_control_pla.Base.Text.{Text}
use gpu_platform_control_pla.Base.Maps.{Map, lookup}
use gpu_platform_control_pla.Base.Results.{ok, err, >>=-ok}
use gpu_platform_control_pla.QueueLab.Events.{LifecycleEvent, TrainingTraceRow}
use gpu_platform_control_pla.QueueLab.Timeline.{
  Attempt, JobTimeline, never_submitted, seed, fold_events,
}
use gpu_platform_control_pla.QueueLab.Timeline.Invariant.{SoundMap}
use gpu_platform_control_pla.QueueLab.Timeline.Folding.{fold_events-Sound, seed-Sound}
use gpu_platform_control_pla.QueueLab.Charge.{WorkloadOutcome, attempts_at, start_order}
use gpu_platform_control_pla.QueueLab.Charge.Passed.{PassedRow, charge_waste-ok}
use gpu_platform_control_pla.QueueLab.Charge.Verdicts.{
  finished, failed, failed_in_time, failed_late, silent, credited, unexplained, sum_where,
  ChargedBy, charge_all-ChargedBy,
}
use gpu_platform_control_pla.QueueLab.Charge.Occupied.{sum_charges, total_held_ns, held_in_window}
use gpu_platform_control_pla.QueueLab.Charge.Checked.{
  start_of-SameTotals, occupy-ok, passed-Checked,
}
use gpu_platform_control_pla.QueueLab.Ledger.{timelines, outcome_of, waits, blank}

-- The totals and flags of a row, by its attempts and those paired with a preemption.
pub record Evidence (t : JobTimeline) (horizon : ℤ) (out : WorkloadOutcome)
    (runs paired : List Attempt) : Type 0 where
  pub wasted : out.wasted ≡ sum_where t horizon (failed_in_time horizon) zero_f paired
  pub lower_bound : out.waste_lower_bound ≡ sum_where t horizon failed zero_f paired
  pub unattributed :
      out.unattributed ≡ sum_where t horizon (λ a. finished a || silent a) zero_f paired
  pub uncredited : out.uncredited ≡ sum_where t horizon (unexplained t) zero_f paired
  pub censored : out.waste_censored ≡ any (failed_late horizon) paired
  pub unknown : out.attribution_unknown ≡ any silent paired
  pub ineffective : out.preemption_ineffective ≡ any (λ a. finished a || credited t a) paired
  pub uncredited_unknown : out.uncredited_unknown ≡ any (unexplained t) paired
  pub occupancy : out.total_occupancy ≡ sum_charges t horizon zero_f runs

-- An outcome with nothing charged yet.
record IsBlank (out : WorkloadOutcome) : Type 0 where
  wasted : out.wasted ≡ zero_f
  lower_bound : out.waste_lower_bound ≡ zero_f
  unattributed : out.unattributed ≡ zero_f
  uncredited : out.uncredited ≡ zero_f
  censored : out.waste_censored ≡ false
  unknown : out.attribution_unknown ≡ false
  ineffective : out.preemption_ineffective ≡ false
  uncredited_unknown : out.uncredited_unknown ≡ false
  occupancy : out.total_occupancy ≡ zero_f

waits-IsBlank : (name : Text) (t : JobTimeline) (horizon : ℤ) → IsBlank (waits name t horizon)
unfolding waits blank
waits-IsBlank name t horizon = ground arith

pub waits_kept :
    (name : Text) (t : JobTimeline) (horizon : ℤ)
    → ((waits name t horizon).job ≡ name)
      × ((waits name t horizon).admitted ≡ t.admitted)
      × ((waits name t horizon).completed ≡ t.completed)
unfolding waits blank
waits_kept name t horizon = (ground arith, ground arith, ground arith)

-- A row of the result was submitted and passed chargeWaste.
pub outcome_of-ok :
    (name : Text) (t : JobTimeline) (horizon : ℤ) (out : WorkloadOutcome)
    → outcome_of name t horizon ≡ ok out
    → (t.submitted ≡ true) × PassedRow t horizon (waits name t horizon) out
unfolding outcome_of
outcome_of-ok name t horizon out same = elim (Bool-cases t.submitted) [
  | inr never ↦ let bad : err never_submitted ≡ ok out = sym (rw never refl) ∙ same in absurd (cc)
  | inl there ↦
      (there, charge_waste-ok t horizon (waits name t horizon) out (sym (rw there refl) ∙ same))
]

module _ (t : JobTimeline) (horizon : ℤ) (out out' : WorkloadOutcome)
    (p : PassedRow t horizon out out') where
  -- The attempts that pairPreemptionsToAttempts gives.
  abbrev pub paired_of : List Attempt
  paired_of = take (length t.preempted_ns) (start_order p.attempts)

  charges : ChargedBy t horizon paired_of (record (p.started) { total_occupancy = p.total }) out'
  charges =
      subst (ChargedBy t horizon paired_of _) p.result (charge_all-ChargedBy t horizon _ paired_of)

  pub passed_kept :
      (out'.job ≡ out.job) × (out'.admitted ≡ out.admitted) × (out'.completed ≡ out.completed)
  passed_kept =
      let same = start_of-SameTotals t p.attempts out p.started p.start in
      let kept = charges.kept in
      (kept.0 ∙ same.job, kept.1 ∙ same.admitted, kept.2 ∙ same.completed)

  passed-Evidence : IsBlank out → Evidence t horizon out' p.attempts paired_of
  passed-Evidence b =
      let same = start_of-SameTotals t p.attempts out p.started p.start in
      let sum = (occupy-ok t horizon p.attempts p.started.total_occupancy p.total p.occupied).0 in
      let sums = λ (q : Attempt → Bool) (x : Float). sum_where t horizon q x paired_of in
      let grown = λ (q : Attempt → Bool) (x : Bool). x || any q paired_of in
      record {
        wasted = charges.wasted ∙ ap (sums (failed_in_time horizon)) (same.wasted ∙ b.wasted);
        lower_bound =
            charges.lower_bound ∙ ap (sums failed) (same.waste_lower_bound ∙ b.lower_bound);
        unattributed =
            charges.unattributed
            ∙ ap (sums (λ a. finished a || silent a)) (same.unattributed ∙ b.unattributed);
        uncredited =
            charges.uncredited ∙ ap (sums (unexplained t)) (same.uncredited ∙ b.uncredited);
        censored =
            charges.censored ∙ ap (grown (failed_late horizon)) (same.waste_censored ∙ b.censored);
        unknown = charges.unknown ∙ ap (grown silent) (same.attribution_unknown ∙ b.unknown);
        ineffective =
            charges.ineffective
            ∙ ap (grown (λ a. finished a || credited t a))
                (same.preemption_ineffective ∙ b.ineffective);
        uncredited_unknown =
            charges.uncredited_unknown
            ∙ ap (grown (unexplained t)) (same.uncredited_unknown ∙ b.uncredited_unknown);
        occupancy =
            charges.kept.3
            ∙ sum
            ∙ ap (λ x. sum_charges t horizon x p.attempts) (same.total_occupancy ∙ b.occupancy);
      }

-- In a row of the result every total is the sum of the charges of certain attempts, in start order.
-- Of the attempts that a preemption is paired with (the first ones by their Ready, as many as there
-- were decisions): the waste is that of the attempts seen to fail by the horizon, its lower bound
-- that of all that were seen to fail, the unattributed occupancy that of those that succeeded or
-- whose end was not seen, and of the latter it is uncredited unless the attempt is the only one of
-- a row that completed. Each flag says that there is an attempt of its kind. The total occupancy is
-- the charge of all attempts, in the order in which they were first seen.
pub charges_follow-Evidence :
    (name : Text) (t : JobTimeline) (horizon : ℤ) (out : WorkloadOutcome)
    → outcome_of name t horizon ≡ ok out
    → (runs : List Attempt) × (attempts_at t.attempts t.attempt_seq ≡ ok runs)
      × Evidence t horizon out runs (take (length t.preempted_ns) (start_order runs))
charges_follow-Evidence name t horizon out same =
    let p = (outcome_of-ok name t horizon out same).1 in
    (
      p.attempts,
      p.found,
      passed-Evidence t horizon (waits name t horizon) out p (waits-IsBlank name t horizon),
    )

empty-Sound : (horizon : ℤ) → SoundMap horizon []
unfolding lookup
empty-Sound horizon name t found = absurd (cc)

pub timelines-Sound :
    (trace : List TrainingTraceRow) (events : List LifecycleEvent) (horizon : ℤ)
    (by_job : Map JobTimeline)
    → timelines trace events horizon ≡ ok by_job
    → SoundMap horizon by_job
unfolding timelines
timelines-Sound trace events horizon by_job same =
    let (start, seeded, folded) =
      >>=-ok (λ (m : Map JobTimeline). fold_events m events horizon) (seed [] trace) by_job same in
    fold_events-Sound horizon start by_job events
      (seed-Sound horizon [] start trace (empty-Sound horizon) seeded) folded

-- A row runs one attempt at a time: in a run whose events are accepted, the nanoseconds for which
-- the attempts of an accepted row are charged fit together between the row's submission and the
-- horizon. They are the attempts whose charges add up to the row's total occupancy. The horizon is
-- an int64.
pub one_attempt_at_a_time :
    (trace : List TrainingTraceRow) (events : List LifecycleEvent) (horizon : ℤ)
    (by_job : Map JobTimeline) (name : Text) (t : JobTimeline) (out : WorkloadOutcome)
    → horizon ≤ℤ pos max_duration
    → timelines trace events horizon ≡ ok by_job
    → lookup name by_job ≡ some t
    → outcome_of name t horizon ≡ ok out
    → (runs : List Attempt) × (attempts_at t.attempts t.attempt_seq ≡ ok runs)
      × (out.total_occupancy ≡ sum_charges t horizon zero_f runs)
      × (total_held_ns t horizon runs + pos_part t.submitted_ns ≤ pos_part horizon)
one_attempt_at_a_time trace events horizon by_job name t out fits made row same =
    let sound = timelines-Sound trace events horizon by_job made name t row in
    let (there, p) = outcome_of-ok name t horizon out same in
    let evidence =
      passed-Evidence t horizon (waits name t horizon) out p (waits-IsBlank name t horizon) in
    (
      p.attempts,
      p.found,
      evidence.occupancy,
      held_in_window t horizon sound.completed_in fits p.attempts
          (passed-Checked t horizon (waits name t horizon) out sound p) p.apart
          (sound.submitted_in there).1,
    )
