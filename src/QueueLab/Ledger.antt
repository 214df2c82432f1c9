-- ===== src/QueueLab/Ledger.antt =====
-- Reconstruct of internal/queuelab/ledger.go: the result of one arm's run.
pub mod Evidence
pub mod Tally
pub mod Rows
pub mod Panics
use gpu_platform_control_pla.Base.{
  ℕ, zero, suc, ◌+◌, ◌-◌, ◌*◌, Bool, true, false, not, ◌&&◌, ◌||◌, Option, none, some, List, [],
  ◌∷◌, ◌++◌, if◌then◌else◌, ltb, leb, ◌==◌, length,
}
use gpu_platform_control_pla.Base.Int.{ℤ, pos, negsuc}
use gpu_platform_control_pla.Base.Arith.{sub64, add_f, mul_f, trunc_to_int}
use gpu_platform_control_pla.Base.Float.{Float, zero_f, ltb_f, of_int, div_whole}
use gpu_platform_control_pla.Base.Text.{Text}
use gpu_platform_control_pla.Base.Maps.{Map, lookup}
use gpu_platform_control_pla.Base.Results.{Result, ok, err, ◌>>=◌, on_ok}
use gpu_platform_control_pla.Base.Sort.{sort_func}
use gpu_platform_control_pla.QueueLab.Events.{LifecycleEvent, TrainingTraceRow, names_of}
use gpu_platform_control_pla.QueueLab.Spread.{ObservationSpread, spread_of}
use gpu_platform_control_pla.QueueLab.Timeline.{
  JobTimeline, Refusal, never_submitted, nil_pointer, seed, fold_events,
}
use gpu_platform_control_pla.QueueLab.Charge.{WorkloadOutcome, charge_waste}

pub record LabResult : Type 0 where
  pub arm : Text
  pub offered : ℕ
  pub outcomes : List WorkloadOutcome
  pub admitted : ℕ
  pub completed : ℕ
  pub unfinished_at_horizon : ℕ
  pub admitted_wait_p95_ns : ℤ
  pub wait_p95_fully_observed : Bool
  pub spread : Option ObservationSpread
  pub total_wasted : Float
  pub total_waste_lower_bound : Float
  pub any_waste_censored : Bool
  pub total_unattributed : Float
  pub any_preemption_ineffective : Bool
  pub any_attribution_unknown : Bool
  pub total_uncredited : Float
  pub any_uncredited_unknown : Bool
  pub total_occupancy : Float
  pub re_executed_rows : ℕ

unfoldable pub element_at : Float → List Float → ℕ → Float
element_at d [] i = d
element_at d (x ∷ xs) zero = x
element_at d (x ∷ xs) (suc i) = element_at x xs i

-- min(max(z, 0), last) as an index.
unfoldable pub clamp_rank : ℤ → ℕ → ℕ
clamp_rank (pos n) last = if leb n last then n else last
clamp_rank (negsuc n) last = 0

-- int(float64(n)*q+0.9999) - 1.
unfoldable pub nearest_rank : ℤ → ℕ → Float → ℤ
nearest_rank wild n q =
    sub64 (trunc_to_int wild (add_f (mul_f (of_int (pos n)) q) (div_whole 9999 10000))) (pos 1)

-- A nearest-rank percentile over sorted values, 0 for none.
unfoldable pub percentile_ns : ℤ → List Float → Float → Float
unfolding element_at clamp_rank nearest_rank
percentile_ns wild [] q = zero_f
percentile_ns wild (x ∷ xs) q =
    element_at x (x ∷ xs) (clamp_rank (nearest_rank wild (length (x ∷ xs)) q) (length xs))

-- A row's outcome before its attempts are charged.
unfoldable pub blank : Text → JobTimeline → WorkloadOutcome
blank name t = record {
  job = name;
  tenant = t.tenant;
  admit_latency_ns = pos 0;
  admitted = false;
  executed = false;
  ready_latency_ns = pos 0;
  admit_to_ready_stamp_ns = none;
  admit_to_ready_ns = pos 0;
  completed = t.completed;
  preemptions = 0;
  wasted = zero_f;
  unattributed = zero_f;
  preemption_ineffective = false;
  waste_lower_bound = zero_f;
  waste_censored = false;
  attribution_unknown = false;
  uncredited = zero_f;
  uncredited_unknown = false;
  censored_wait_ns = pos 0;
  attempts = 0;
  re_executed = false;
  total_occupancy = zero_f;
  service_duration_sec = t.duration_sec;
}

unfoldable pub waits : Text → JobTimeline → ℤ → WorkloadOutcome
unfolding blank
waits name t horizon =
    if t.admitted
    then record (blank name t) {
      admitted = true;
      admit_latency_ns = sub64 t.admit_ns t.submitted_ns;
    }
    else record (blank name t) { censored_wait_ns = sub64 horizon t.submitted_ns }

abbrev count : Bool → ℕ
count b = if b then 1 else 0

-- What the loop adds to the result for one outcome.
unfoldable pub add_outcome : LabResult → WorkloadOutcome → LabResult
add_outcome res out = record res {
  outcomes = res.outcomes ++ (out ∷ []);
  admitted = res.admitted + count out.admitted;
  completed = res.completed + count out.completed;
  unfinished_at_horizon = res.unfinished_at_horizon + count (not out.completed);
  total_wasted = add_f res.total_wasted out.wasted;
  total_waste_lower_bound = add_f res.total_waste_lower_bound out.waste_lower_bound;
  any_waste_censored = res.any_waste_censored || out.waste_censored;
  total_unattributed = add_f res.total_unattributed out.unattributed;
  total_uncredited = add_f res.total_uncredited out.uncredited;
  any_preemption_ineffective = res.any_preemption_ineffective || out.preemption_ineffective;
  any_attribution_unknown = res.any_attribution_unknown || out.attribution_unknown;
  any_uncredited_unknown = res.any_uncredited_unknown || out.uncredited_unknown;
  total_occupancy = add_f res.total_occupancy out.total_occupancy;
  re_executed_rows = res.re_executed_rows + count out.re_executed;
}

-- admitWaits grows by the latency of an admitted row.
unfoldable pub add_wait : List Float → WorkloadOutcome → List Float
add_wait ws out = if out.admitted then ws ++ (of_int out.admit_latency_ns ∷ []) else ws

unfoldable pub outcome_of : Text → JobTimeline → ℤ → Result Refusal WorkloadOutcome
unfolding waits
outcome_of name t horizon =
    if not t.submitted then err never_submitted else charge_waste t horizon (waits name t horizon)

-- byJob[job]: a name that the map lacks would be a nil pointer.
unfoldable pub outcome_at : Option JobTimeline → ℤ → Text → Result Refusal WorkloadOutcome
outcome_at none horizon name = err nil_pointer
outcome_at (some t) horizon name = outcome_of name t horizon

unfoldable pub row_outcome : Map JobTimeline → ℤ → Text → Result Refusal WorkloadOutcome
unfolding outcome_at
row_outcome by_job horizon name = outcome_at (lookup name by_job) horizon name

-- The loop over the rows in the order of the trace.
unfoldable pub each_row :
    Map JobTimeline
    → ℤ
    → List Text
    → LabResult
    → List Float
    → Result Refusal (LabResult × List Float)
each_row by_job horizon [] res ws = ok (res, ws)
each_row by_job horizon (name ∷ names) res ws =
    row_outcome by_job horizon name >>= λ (out : WorkloadOutcome).
    each_row by_job horizon names (add_outcome res out) (add_wait ws out)

unfoldable pub empty_result : Text → ℕ → Option ObservationSpread → LabResult
empty_result arm offered spread = record {
  arm = arm;
  offered = offered;
  outcomes = [];
  admitted = 0;
  completed = 0;
  unfinished_at_horizon = 0;
  admitted_wait_p95_ns = pos 0;
  wait_p95_fully_observed = false;
  spread = spread;
  total_wasted = zero_f;
  total_waste_lower_bound = zero_f;
  any_waste_censored = false;
  total_unattributed = zero_f;
  any_preemption_ineffective = false;
  any_attribution_unknown = false;
  total_uncredited = zero_f;
  any_uncredited_unknown = false;
  total_occupancy = zero_f;
  re_executed_rows = 0;
}

-- The percentile and whether every offered row is in it.
unfoldable pub with_percentile : ℤ → LabResult × List Float → LabResult
with_percentile wild (res, ws) = record res {
  admitted_wait_p95_ns =
      trunc_to_int wild (percentile_ns wild (sort_func ltb_f ws) (div_whole 95 100));
  wait_p95_fully_observed = ltb 0 res.offered && (res.admitted == res.offered);
}

-- The timelines of the rows, after all events.
unfoldable pub timelines :
    List TrainingTraceRow → List LifecycleEvent → ℤ → Result Refusal (Map JobTimeline)
timelines trace events horizon =
    seed [] trace >>= λ (seeded : Map JobTimeline). fold_events seeded events horizon

-- `wild` is what a conversion of a float64 that no int64 holds gives.
unfoldable pub reconstruct :
    ℤ → Text → List TrainingTraceRow → List LifecycleEvent → ℤ → Result Refusal LabResult
reconstruct wild arm trace events horizon =
    timelines trace events horizon >>= λ (by_job : Map JobTimeline).
    each_row by_job horizon (names_of trace) (empty_result arm (length trace) (spread_of events)) []
    >>= λ (last : LabResult × List Float). ok (with_percentile wild last)
