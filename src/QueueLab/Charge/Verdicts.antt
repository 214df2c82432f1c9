-- ===== src/QueueLab/Charge/Verdicts.antt =====
-- Which attempts are charged to which total.
use gpu_platform_control_pla.Base.{
  Bool, true, false, not, ◌&&◌, ◌||◌, List, [], ◌∷◌, ◌≡◌, refl, ◌∙◌, ap, if◌then◌else◌, ◌==◌,
  length, any, arith,
}
use gpu_platform_control_pla.Base.Int.{ℤ, leb_ℤ}
use gpu_platform_control_pla.Base.Arith.{add_f}
use gpu_platform_control_pla.Base.Float.{Float}
use gpu_platform_control_pla.Base.Text.{text_eq}
use gpu_platform_control_pla.QueueLab.Events.{stop_reason_succeeded}
use gpu_platform_control_pla.QueueLab.Timeline.{Attempt, JobTimeline}
use gpu_platform_control_pla.QueueLab.Charge.{WorkloadOutcome, charged, charge_one, charge_all}

-- The attempt was seen to finish its own service.
abbrev pub finished : Attempt → Bool
finished a = a.stopped && text_eq a.stop_reason stop_reason_succeeded

-- The attempt was seen to fail.
abbrev pub failed : Attempt → Bool
failed a = a.stopped && not (text_eq a.stop_reason stop_reason_succeeded)

abbrev pub failed_in_time : ℤ → Attempt → Bool
failed_in_time horizon a = failed a && leb_ℤ a.stop_ns horizon

abbrev pub failed_late : ℤ → Attempt → Bool
failed_late horizon a = failed a && not (leb_ℤ a.stop_ns horizon)

-- No end was seen.
abbrev pub silent : Attempt → Bool
silent a = not a.stopped

-- No end was seen of the only attempt of a row that completed.
abbrev pub credited : JobTimeline → Attempt → Bool
credited t a = silent a && (t.completed && length t.attempt_seq == 1)

abbrev pub unexplained : JobTimeline → Attempt → Bool
unexplained t a = silent a && not (t.completed && length t.attempt_seq == 1)

-- The charges of the attempts that satisfy a test, added one after the other.
unfoldable pub sum_where : JobTimeline → ℤ → (Attempt → Bool) → Float → List Attempt → Float
sum_where t horizon p total [] = total
sum_where t horizon p total (a ∷ runs) =
    sum_where t horizon p (if p a then add_f total (charged t horizon a) else total) runs

-- The totals and flags of `out'`, from those of `out` and the attempts paired with a preemption.
pub record ChargedBy (t : JobTimeline) (horizon : ℤ) (paired : List Attempt)
    (out out' : WorkloadOutcome) : Type 0 where
  pub wasted : out'.wasted ≡ sum_where t horizon (failed_in_time horizon) out.wasted paired
  pub lower_bound : out'.waste_lower_bound ≡ sum_where t horizon failed out.waste_lower_bound paired
  pub unattributed :
      out'.unattributed ≡ sum_where t horizon (λ a. finished a || silent a) out.unattributed paired
  pub uncredited : out'.uncredited ≡ sum_where t horizon (unexplained t) out.uncredited paired
  pub censored : out'.waste_censored ≡ (out.waste_censored || any (failed_late horizon) paired)
  pub unknown : out'.attribution_unknown ≡ (out.attribution_unknown || any silent paired)
  pub ineffective :
      out'.preemption_ineffective
      ≡ (out.preemption_ineffective || any (λ a. finished a || credited t a) paired)
  pub uncredited_unknown :
      out'.uncredited_unknown ≡ (out.uncredited_unknown || any (unexplained t) paired)
  pub kept :
      (out'.job ≡ out.job)
      × (out'.admitted ≡ out.admitted)
      × (out'.completed ≡ out.completed)
      × (out'.total_occupancy ≡ out.total_occupancy)

or_assoc : (a b c : Bool) → ((a || b) || c) ≡ (a || (b || c))
or_assoc true b c = refl
or_assoc false b c = refl

or_false : (a : Bool) → a ≡ (a || false)
or_false true = refl
or_false false = refl

module _ (t : JobTimeline) (horizon : ℤ) where
  -- What one attempt adds.
  step_wasted :
      (out : WorkloadOutcome) (a : Attempt)
      → (charge_one t horizon out a).wasted
        ≡ (if failed_in_time horizon a then add_f out.wasted (charged t horizon a) else out.wasted)
  unfolding charge_one
  step_wasted out a = ground arith

  step_lower_bound :
      (out : WorkloadOutcome) (a : Attempt)
      → (charge_one t horizon out a).waste_lower_bound ≡ (
          if failed a
          then add_f out.waste_lower_bound (charged t horizon a)
          else out.waste_lower_bound)
  unfolding charge_one
  step_lower_bound out a = ground arith

  step_unattributed :
      (out : WorkloadOutcome) (a : Attempt)
      → (charge_one t horizon out a).unattributed ≡ (
          if finished a || silent a
          then add_f out.unattributed (charged t horizon a)
          else out.unattributed)
  unfolding charge_one
  step_unattributed out a = ground arith

  step_uncredited :
      (out : WorkloadOutcome) (a : Attempt)
      → (charge_one t horizon out a).uncredited
        ≡ (if unexplained t a then add_f out.uncredited (charged t horizon a) else out.uncredited)
  unfolding charge_one
  step_uncredited out a = ground arith

  step_flags :
      (out : WorkloadOutcome) (a : Attempt)
      → ((charge_one t horizon out a).waste_censored
          ≡ (out.waste_censored || failed_late horizon a))
        × ((charge_one t horizon out a).attribution_unknown ≡ (out.attribution_unknown || silent a))
        × ((charge_one t horizon out a).preemption_ineffective
            ≡ (out.preemption_ineffective || (finished a || credited t a)))
        × ((charge_one t horizon out a).uncredited_unknown
            ≡ (out.uncredited_unknown || unexplained t a))
  unfolding charge_one
  step_flags out a = (ground arith, ground arith, ground arith, ground arith)

  step_kept :
      (out : WorkloadOutcome) (a : Attempt)
      → ((charge_one t horizon out a).job ≡ out.job)
        × ((charge_one t horizon out a).admitted ≡ out.admitted)
        × ((charge_one t horizon out a).completed ≡ out.completed)
        × ((charge_one t horizon out a).total_occupancy ≡ out.total_occupancy)
  unfolding charge_one
  step_kept out a = (ground arith, ground arith, ground arith, ground arith)

  -- One attempt more.
  ChargedBy-step :
      (out out' : WorkloadOutcome) (a : Attempt) (runs : List Attempt)
      → ChargedBy t horizon runs (charge_one t horizon out a) out'
      → ChargedBy t horizon (a ∷ runs) out out'
  unfolding sum_where
  ChargedBy-step out out' a runs h =
      let flags = step_flags out a in
      let kept = step_kept out a in
      let sums = λ (p : Attempt → Bool) (x : Float). sum_where t horizon p x runs in
      let grown = λ (p : Attempt → Bool) (x : Bool). x || any p runs in
      record {
        wasted = h.wasted ∙ ap (sums (failed_in_time horizon)) (step_wasted out a);
        lower_bound = h.lower_bound ∙ ap (sums failed) (step_lower_bound out a);
        unattributed =
            h.unattributed ∙ ap (sums (λ b. finished b || silent b)) (step_unattributed out a);
        uncredited = h.uncredited ∙ ap (sums (unexplained t)) (step_uncredited out a);
        censored =
            h.censored ∙ ap (grown (failed_late horizon)) flags.0 ∙ or_assoc out.waste_censored _ _;
        unknown = h.unknown ∙ ap (grown silent) flags.1 ∙ or_assoc out.attribution_unknown _ _;
        ineffective =
            h.ineffective
            ∙ ap (grown (λ b. finished b || credited t b)) flags.2
            ∙ or_assoc out.preemption_ineffective _ _;
        uncredited_unknown =
            h.uncredited_unknown
            ∙ ap (grown (unexplained t)) flags.3
            ∙ or_assoc out.uncredited_unknown _ _;
        kept = (h.kept.0 ∙ kept.0, h.kept.1 ∙ kept.1, h.kept.2 ∙ kept.2, h.kept.3 ∙ kept.3);
      }

  pub charge_all-ChargedBy :
      (out : WorkloadOutcome) (paired : List Attempt)
      → ChargedBy t horizon paired out (charge_all t horizon out paired)
  unfolding charge_all sum_where
  charge_all-ChargedBy out [] = record {
    wasted = refl;
    lower_bound = refl;
    unattributed = refl;
    uncredited = refl;
    censored = or_false out.waste_censored;
    unknown = or_false out.attribution_unknown;
    ineffective = or_false out.preemption_ineffective;
    uncredited_unknown = or_false out.uncredited_unknown;
    kept = (refl, refl, refl, refl);
  }
  charge_all-ChargedBy out (a ∷ runs) =
      ChargedBy-step out _ a runs (charge_all-ChargedBy (charge_one t horizon out a) runs)
