-- ===== src/QueueLab/Charge.antt =====
-- chargeWaste of internal/queuelab/ledger.go: what one row's attempts occupied, and how much of that
-- a preemption discarded.
pub mod Passed
pub mod Verdicts
pub mod Occupied
pub mod Checked
use gpu_platform_control_pla.Base.{
  ℕ, zero, suc, ◌<◌, Bool, true, false, not, ◌&&◌, ◌||◌, Option, none, some, List, [], ◌∷◌,
  if◌then◌else◌, ltb, ◌==◌, length, take,
}
use gpu_platform_control_pla.Base.Int.{ℤ, pos, ltb_ℤ, leb_ℤ, eq_ℤ}
use gpu_platform_control_pla.Base.Arith.{sub64, add_f, mul_f, div_by_whole}
use gpu_platform_control_pla.Base.Float.{Float, of_int}
use gpu_platform_control_pla.Base.Text.{Text, text_eq}
use gpu_platform_control_pla.Base.Maps.{Map, lookup}
use gpu_platform_control_pla.Base.Results.{Result, ok, err, ◌>>=◌, on_ok}
use gpu_platform_control_pla.Base.Sort.{sort_func}
use gpu_platform_control_pla.QueueLab.Events.{stop_reason_succeeded}
use gpu_platform_control_pla.QueueLab.Timeline.{
  Attempt, JobTimeline, Refusal, never_admitted, ready_too_early, stopped_before_ready, overlap,
  too_many_preemptions, nil_pointer,
}

pub record WorkloadOutcome : Type 0 where
  pub job : Text
  pub tenant : Text
  pub admit_latency_ns : ℤ
  pub admitted : Bool
  pub executed : Bool
  pub ready_latency_ns : ℤ
  pub admit_to_ready_stamp_ns : Option ℤ
  pub admit_to_ready_ns : ℤ
  pub completed : Bool
  pub preemptions : ℕ
  pub wasted : Float
  pub unattributed : Float
  pub preemption_ineffective : Bool
  pub waste_lower_bound : Float
  pub waste_censored : Bool
  pub attribution_unknown : Bool
  pub uncredited : Float
  pub uncredited_unknown : Bool
  pub censored_wait_ns : ℤ
  pub attempts : ℕ
  pub re_executed : Bool
  pub total_occupancy : Float
  pub service_duration_sec : ℤ

-- Where an attempt's occupancy ends, before the clamp.
unfoldable pub observed_end : JobTimeline → Attempt → ℤ → ℤ
observed_end t a horizon =
    if a.stopped
    then (if leb_ℤ a.stop_ns horizon then a.stop_ns else horizon)
    else if t.completed
    then t.completed_ns
    else horizon

unfoldable pub occupancy_end : JobTimeline → Attempt → ℤ → ℤ
unfolding observed_end
occupancy_end t a horizon =
    let end = observed_end t a horizon in if ltb_ℤ end a.ready_ns then a.ready_ns else end

-- float64(t.gpuCount) * float64(end-a.readyNs) / 1e9.
unfoldable pub charged : JobTimeline → ℤ → Attempt → Float
charged t horizon a =
    div_by_whole
      (mul_f (of_int t.gpu_count) (of_int (sub64 (occupancy_end t a horizon) a.ready_ns)))
      1000000000

-- A uid that the map lacks is a nil pointer.
abbrev pub unless_nil :
    Option Attempt → Result Refusal (List Attempt) → Result Refusal (List Attempt)
unless_nil none rest = err nil_pointer
unless_nil (some a) rest = rest >>= λ (runs : List Attempt). ok (a ∷ runs)

-- t.attempts[uid] for each uid in insertion order.
unfoldable pub attempts_at : Map Attempt → List Text → Result Refusal (List Attempt)
attempts_at m [] = ok []
attempts_at m (uid ∷ uids) = unless_nil (lookup uid m) (attempts_at m uids)

-- The earliest Ready of the attempts seen so far and of the rest: its instant and its stamp.
unfoldable pub first_ready : ℤ → ℤ → List Attempt → ℤ × ℤ
first_ready ready stamp [] = (ready, stamp)
first_ready ready stamp (a ∷ runs) =
    let earlier = ltb_ℤ a.ready_ns ready in
    first_ready (if earlier then a.ready_ns else ready)
      (if earlier then a.ready_stamp_ns else stamp) runs

-- admission -> Ready on the components' own clocks, where both published one.
unfoldable pub stamp_gap : ℤ → ℤ → Option ℤ
stamp_gap admit ready =
    if not (eq_ℤ admit (pos 0)) && not (eq_ℤ ready (pos 0)) then some (sub64 ready admit) else none

unfoldable pub with_admission : JobTimeline → ℤ × ℤ → WorkloadOutcome → WorkloadOutcome
unfolding stamp_gap
with_admission t (ready, stamp) out =
    if t.admitted
    then record out {
      admit_to_ready_ns = sub64 ready t.admit_ns;
      admit_to_ready_stamp_ns = stamp_gap t.admit_stamp_ns stamp;
    }
    else out

-- A Pod that was ready before its row was created is impossible evidence.
unfoldable pub since_submitted :
    JobTimeline → ℤ × ℤ → WorkloadOutcome → Result Refusal WorkloadOutcome
unfolding with_admission
since_submitted t (ready, stamp) out =
    if ltb_ℤ ready t.submitted_ns
    then err ready_too_early
    else ok (
        with_admission t (ready, stamp)
          (record out { ready_latency_ns = sub64 ready t.submitted_ns }))

unfoldable pub start_of :
    JobTimeline → List Attempt → WorkloadOutcome → Result Refusal WorkloadOutcome
unfolding first_ready since_submitted
start_of t [] out = ok out
start_of t (a ∷ runs) out =
    since_submitted t (first_ready a.ready_ns a.ready_stamp_ns runs)
      (record out { executed = true })

-- The loop that sums the occupancy of all attempts.
unfoldable pub occupy : JobTimeline → ℤ → List Attempt → Float → Result Refusal Float
occupy t horizon [] total = ok total
occupy t horizon (a ∷ runs) total =
    let rest = occupy t horizon runs (add_f total (charged t horizon a)) in
    if a.stopped && ltb_ℤ a.stop_ns a.ready_ns then err stopped_before_ready else rest

-- slices.SortStableFunc by readyNs.
unfoldable pub start_order : List Attempt → List Attempt
start_order runs = sort_func (λ (a b : Attempt). leb_ℤ a.ready_ns b.ready_ns) runs

unfoldable pub overlaps : Attempt → Attempt → Bool
overlaps prev cur = not prev.stopped || leb_ℤ cur.ready_ns prev.stop_ns

unfoldable pub no_overlap_after : Attempt → List Attempt → Bool
unfolding overlaps
no_overlap_after prev [] = true
no_overlap_after prev (cur ∷ rest) = not (overlaps prev cur) && no_overlap_after cur rest

-- attemptsDoNotOverlap, on the attempts in start order.
unfoldable pub do_not_overlap : List Attempt → Bool
unfolding no_overlap_after
do_not_overlap [] = true
do_not_overlap (a ∷ runs) = no_overlap_after a runs

-- pairPreemptionsToAttempts, on the attempts in start order: the first `decisions` of them.
unfoldable pub pair_preemptions : List Attempt → ℕ → Result Refusal (List Attempt)
pair_preemptions ordered decisions =
    if ltb (length ordered) decisions then err too_many_preemptions else ok (take decisions ordered)

-- One attempt that a preemption was decided over.
unfoldable pub charge_one : JobTimeline → ℤ → WorkloadOutcome → Attempt → WorkloadOutcome
charge_one t horizon out a =
    let c = charged t horizon a in
    if a.stopped && text_eq a.stop_reason stop_reason_succeeded
    then record out { unattributed = add_f out.unattributed c; preemption_ineffective = true }
    else if a.stopped && leb_ℤ a.stop_ns horizon
    then record out {
      wasted = add_f out.wasted c;
      waste_lower_bound = add_f out.waste_lower_bound c;
    }
    else if a.stopped
    then record out { waste_lower_bound = add_f out.waste_lower_bound c; waste_censored = true }
    else if t.completed && length t.attempt_seq == 1
    then record out {
      unattributed = add_f out.unattributed c;
      attribution_unknown = true;
      preemption_ineffective = true;
    }
    else record out {
      unattributed = add_f out.unattributed c;
      attribution_unknown = true;
      uncredited = add_f out.uncredited c;
      uncredited_unknown = true;
    }

unfoldable pub charge_all : JobTimeline → ℤ → WorkloadOutcome → List Attempt → WorkloadOutcome
charge_all t horizon out [] = out
charge_all t horizon out (a ∷ runs) = charge_all t horizon (charge_one t horizon out a) runs

unfoldable pub counted : JobTimeline → WorkloadOutcome → WorkloadOutcome
counted t out = record out {
  preemptions = length t.preempted_ns;
  attempts = length t.attempt_seq;
  re_executed = ltb 1 (length t.attempt_seq);
}

-- The checks on overlap and pairing, and the charges.
unfoldable pub charge_paired :
    JobTimeline → ℤ → List Attempt → WorkloadOutcome → Result Refusal WorkloadOutcome
charge_paired t horizon ordered out =
    if not (do_not_overlap ordered)
    then err overlap
    else pair_preemptions ordered (length t.preempted_ns) >>= λ (paired : List Attempt).
        ok (charge_all t horizon out paired)

-- The row's occupancy, and what follows.
unfoldable pub charge_started :
    JobTimeline → ℤ → List Attempt → WorkloadOutcome → Result Refusal WorkloadOutcome
charge_started t horizon runs started =
    occupy t horizon runs started.total_occupancy >>= λ (total : Float).
    charge_paired t horizon (start_order runs) (record started { total_occupancy = total })

unfoldable pub charge_runs :
    JobTimeline → ℤ → WorkloadOutcome → List Attempt → Result Refusal WorkloadOutcome
charge_runs t horizon out runs = start_of t runs (counted t out) >>= charge_started t horizon runs

-- A row that has admission evidence, or that did not complete.
unfoldable pub charge_admitted : JobTimeline → ℤ → WorkloadOutcome → Result Refusal WorkloadOutcome
charge_admitted t horizon out = attempts_at t.attempts t.attempt_seq >>= charge_runs t horizon out

unfoldable pub charge_waste : JobTimeline → ℤ → WorkloadOutcome → Result Refusal WorkloadOutcome
charge_waste t horizon out =
    if t.completed && not t.admitted then err never_admitted else charge_admitted t horizon out
