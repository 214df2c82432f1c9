-- ===== src/QueueLab/Ledger/Tally.antt =====
-- The counts, sums and flags of a result against its rows.
use gpu_platform_control_pla.Base.{
  ℕ, ◌+◌, Bool, ◌||◌, List, [], ◌∷◌, ◌++◌, ◌≡◌, refl, sym, ◌∙◌, ap, Option, if◌then◌else◌, arith,
  any, length, length-append,
}
use gpu_platform_control_pla.Base.Int.{ℤ}
use gpu_platform_control_pla.Base.Arith.{add_f}
use gpu_platform_control_pla.Base.Float.{Float, zero_f}
use gpu_platform_control_pla.Base.Text.{Text}
use gpu_platform_control_pla.QueueLab.Spread.{ObservationSpread}
use gpu_platform_control_pla.QueueLab.Charge.{WorkloadOutcome}
use gpu_platform_control_pla.QueueLab.Ledger.{LabResult, add_outcome, empty_result, with_percentile}

abbrev pub jobs_of : List WorkloadOutcome → List Text
jobs_of [] = []
jobs_of (out ∷ outs) = out.job ∷ jobs_of outs

abbrev pub count_where : (WorkloadOutcome → Bool) → List WorkloadOutcome → ℕ
count_where p [] = 0
count_where p (out ∷ outs) = (if p out then 1 else 0) + count_where p outs

-- The values of a field, added one after the other.
unfoldable pub sum_over : (WorkloadOutcome → Float) → Float → List WorkloadOutcome → Float
sum_over f total [] = total
sum_over f total (out ∷ outs) = sum_over f (add_f total (f out)) outs

sum_over-append :
    (f : WorkloadOutcome → Float) (total : Float) (outs : List WorkloadOutcome)
    (out : WorkloadOutcome)
    → sum_over f total (outs ++ (out ∷ [])) ≡ add_f (sum_over f total outs) (f out)
unfolding sum_over
sum_over-append f total [] out = refl
sum_over-append f total (o ∷ outs) out = sum_over-append f (add_f total (f o)) outs out

count_where-append :
    (p : WorkloadOutcome → Bool) (outs : List WorkloadOutcome) (out : WorkloadOutcome)
    → count_where p (outs ++ (out ∷ [])) ≡ count_where p outs + (if p out then 1 else 0)
count_where-append p [] out = omega arith
count_where-append p (o ∷ outs) out = omega (arith, count_where-append p outs out)

any-append :
    (p : WorkloadOutcome → Bool) (outs : List WorkloadOutcome) (out : WorkloadOutcome)
    → any p (outs ++ (out ∷ [])) ≡ (any p outs || p out)
any-append p [] out = ground arith
any-append p (o ∷ outs) out = ground (arith, any-append p outs out)

pub jobs_of-append :
    (outs : List WorkloadOutcome) (out : WorkloadOutcome)
    → jobs_of (outs ++ (out ∷ [])) ≡ jobs_of outs ++ (out.job ∷ [])
jobs_of-append [] out = refl
jobs_of-append (o ∷ outs) out = ap (λ js. o.job ∷ js) (jobs_of-append outs out)

-- The counts, sums and flags of a result are those of its outcomes.
pub record Tallied (res : LabResult) : Type 0 where
  pub admitted : res.admitted ≡ count_where (λ o. o.admitted) res.outcomes
  pub completed : res.completed ≡ count_where (λ o. o.completed) res.outcomes
  pub unfinished : res.completed + res.unfinished_at_horizon ≡ length res.outcomes
  pub re_executed : res.re_executed_rows ≡ count_where (λ o. o.re_executed) res.outcomes
  pub wasted : res.total_wasted ≡ sum_over (λ o. o.wasted) zero_f res.outcomes
  pub lower_bound :
      res.total_waste_lower_bound ≡ sum_over (λ o. o.waste_lower_bound) zero_f res.outcomes
  pub unattributed : res.total_unattributed ≡ sum_over (λ o. o.unattributed) zero_f res.outcomes
  pub uncredited : res.total_uncredited ≡ sum_over (λ o. o.uncredited) zero_f res.outcomes
  pub occupancy : res.total_occupancy ≡ sum_over (λ o. o.total_occupancy) zero_f res.outcomes
  pub censored : res.any_waste_censored ≡ any (λ o. o.waste_censored) res.outcomes
  pub ineffective :
      res.any_preemption_ineffective ≡ any (λ o. o.preemption_ineffective) res.outcomes
  pub unknown : res.any_attribution_unknown ≡ any (λ o. o.attribution_unknown) res.outcomes
  pub uncredited_unknown : res.any_uncredited_unknown ≡ any (λ o. o.uncredited_unknown) res.outcomes

pub empty_result-Tallied :
    (arm : Text) (offered : ℕ) (spread : Option ObservationSpread)
    → Tallied (empty_result arm offered spread)
unfolding empty_result sum_over
empty_result-Tallied arm offered spread = record {
  admitted = refl;
  completed = refl;
  unfinished = refl;
  re_executed = refl;
  wasted = refl;
  lower_bound = refl;
  unattributed = refl;
  uncredited = refl;
  occupancy = refl;
  censored = refl;
  ineffective = refl;
  unknown = refl;
  uncredited_unknown = refl;
}

-- One outcome more: a count, a sum and a flag.
module _ (outs : List WorkloadOutcome) (out : WorkloadOutcome) where
  counts :
      (p : WorkloadOutcome → Bool) {n : ℕ}
      → n ≡ count_where p outs
      → n + (if p out then 1 else 0) ≡ count_where p (outs ++ (out ∷ []))
  counts p e = ap (λ n. n + (if p out then 1 else 0)) e ∙ sym (count_where-append p outs out)

  sums :
      (f : WorkloadOutcome → Float) {x : Float}
      → x ≡ sum_over f zero_f outs
      → add_f x (f out) ≡ sum_over f zero_f (outs ++ (out ∷ []))
  sums f e = ap (λ x. add_f x (f out)) e ∙ sym (sum_over-append f zero_f outs out)

  flags :
      (p : WorkloadOutcome → Bool) {b : Bool}
      → b ≡ any p outs
      → (b || p out) ≡ any p (outs ++ (out ∷ []))
  flags p e = ap (λ b. b || p out) e ∙ sym (any-append p outs out)

pub add_outcome-Tallied :
    (res : LabResult) (out : WorkloadOutcome) → Tallied res → Tallied (add_outcome res out)
unfolding add_outcome
add_outcome-Tallied res out h = record {
  admitted = counts res.outcomes out (λ o. o.admitted) h.admitted;
  completed = counts res.outcomes out (λ o. o.completed) h.completed;
  unfinished =
      let more = length-append res.outcomes (out ∷ []) in let so_far = h.unfinished in ground arith;
  re_executed = counts res.outcomes out (λ o. o.re_executed) h.re_executed;
  wasted = sums res.outcomes out (λ o. o.wasted) h.wasted;
  lower_bound = sums res.outcomes out (λ o. o.waste_lower_bound) h.lower_bound;
  unattributed = sums res.outcomes out (λ o. o.unattributed) h.unattributed;
  uncredited = sums res.outcomes out (λ o. o.uncredited) h.uncredited;
  occupancy = sums res.outcomes out (λ o. o.total_occupancy) h.occupancy;
  censored = flags res.outcomes out (λ o. o.waste_censored) h.censored;
  ineffective = flags res.outcomes out (λ o. o.preemption_ineffective) h.ineffective;
  unknown = flags res.outcomes out (λ o. o.attribution_unknown) h.unknown;
  uncredited_unknown = flags res.outcomes out (λ o. o.uncredited_unknown) h.uncredited_unknown;
}

pub with_percentile-Tallied :
    (wild : ℤ) (res : LabResult) (ws : List Float)
    → Tallied res
    → Tallied (with_percentile wild (res, ws))
unfolding with_percentile
with_percentile-Tallied wild res ws h = record {
  admitted = h.admitted;
  completed = h.completed;
  unfinished = h.unfinished;
  re_executed = h.re_executed;
  wasted = h.wasted;
  lower_bound = h.lower_bound;
  unattributed = h.unattributed;
  uncredited = h.uncredited;
  occupancy = h.occupancy;
  censored = h.censored;
  ineffective = h.ineffective;
  unknown = h.unknown;
  uncredited_unknown = h.uncredited_unknown;
}
