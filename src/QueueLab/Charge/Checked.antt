-- ===== src/QueueLab/Charge/Checked.antt =====
-- What each check of chargeWaste says of the attempts, and what it leaves alone.
use gpu_platform_control_pla.Base.{
  false, ◌&&◌, List, [], ◌∷◌, ◌≡◌, refl, sym, ◌∙◌, inl, inr, some, if◌then◌else◌, arith, All,
  All-imp, All-both, Bool-cases, Option-cases, subst,
}
use gpu_platform_control_pla.Base.Int.{ℤ, ltb_ℤ, ◌≤ℤ◌}
use gpu_platform_control_pla.Base.Arith.{add_f}
use gpu_platform_control_pla.Base.Float.{Float}
use gpu_platform_control_pla.Base.Text.{Text}
use gpu_platform_control_pla.Base.Maps.{Map, lookup, Holds}
use gpu_platform_control_pla.Base.Results.{Result, ok, err, on_ok, >>=-ok}
use gpu_platform_control_pla.QueueLab.Timeline.{Attempt, JobTimeline, Refusal, nil_pointer}
use gpu_platform_control_pla.QueueLab.Timeline.Invariant.{SoundAttempt, SoundTimeline}
use gpu_platform_control_pla.QueueLab.Charge.{
  WorkloadOutcome, charged, attempts_at, first_ready, start_of, since_submitted, with_admission,
  counted, occupy,
}
use gpu_platform_control_pla.QueueLab.Charge.Passed.{PassedRow}
use gpu_platform_control_pla.QueueLab.Charge.Occupied.{CheckedAttempt, sum_charges}

-- Every uid that is held is found.
pub attempts_at-total :
    (m : Map Attempt) (uids : List Text)
    → All (Holds m) uids
    → (runs : List Attempt) × (attempts_at m uids ≡ ok runs)
unfolding attempts_at
attempts_at-total m [] held = ([], refl)
attempts_at-total m (uid ∷ uids) held =
    let (runs, rest) = attempts_at-total m uids held.1 in
    elim (Option-cases (lookup uid m)) [
      | inl gone ↦ absurd (held.0 gone)
      | inr (a, here) ↦ (a ∷ runs, rw (here, rest))
    ]

-- What is found has what all attempts of the map have.
attempts_at-All :
    (P : Attempt → Type 0) (m : Map Attempt) (uids : List Text) (runs : List Attempt)
    → ((uid : Text) (a : Attempt) → lookup uid m ≡ some a → P a)
    → attempts_at m uids ≡ ok runs
    → All P runs
unfolding attempts_at
attempts_at-All P m [] runs all found = let this : [] ≡ runs = cc in subst (All P) this tt
attempts_at-All P m (uid ∷ uids) runs all found = elim (Option-cases (lookup uid m)) [
  | inl gone ↦ let bad : err nil_pointer ≡ ok runs = sym (rw gone refl) ∙ found in absurd (cc)
  | inr (a, here) ↦
      let next : List Attempt → Result Refusal (List Attempt) = λ more. ok (a ∷ more) in
      let chain : on_ok next (attempts_at m uids) ≡ ok runs = sym (rw here refl) ∙ found in
      let (more, rest, last) = >>=-ok next (attempts_at m uids) runs chain in
      let this : a ∷ more ≡ runs = cc in
      subst (All P) this (all uid a here, attempts_at-All P m uids more all rest)
]

pub occupy-ok :
    (t : JobTimeline) (horizon : ℤ) (runs : List Attempt) (total total' : Float)
    → occupy t horizon runs total ≡ ok total'
    → (total' ≡ sum_charges t horizon total runs)
      × All (λ a. (a.stopped && ltb_ℤ a.stop_ns a.ready_ns) ≡ false) runs
unfolding occupy sum_charges
occupy-ok t horizon [] total total' same = (cc, tt)
occupy-ok t horizon (a ∷ runs) total total' same =
    elim (Bool-cases (a.stopped && ltb_ℤ a.stop_ns a.ready_ns)) [
      | inl bad ↦ absurd (ground arith)
      | inr fine ↦
          let (sum, rest) =
            occupy-ok t horizon runs (add_f total (charged t horizon a)) total' (ground arith) in
          (sum, (fine, rest))
    ]

first_ready-le :
    (ready stamp : ℤ) (runs : List Attempt)
    → ((first_ready ready stamp runs).0 ≤ℤ ready)
      × All (λ a. (first_ready ready stamp runs).0 ≤ℤ a.ready_ns) runs
unfolding first_ready
first_ready-le ready stamp [] = (omega arith, tt)
first_ready-le ready stamp (a ∷ runs) =
    let earlier = ltb_ℤ a.ready_ns ready in
    let (low, rest) =
      first_ready-le (if earlier then a.ready_ns else ready)
        (if earlier then a.ready_stamp_ns else stamp) runs in
    (ground arith, (ground arith, rest))

-- The fields of an outcome that are set before or after the start of execution.
pub record SameTotals (out out' : WorkloadOutcome) : Type 0 where
  pub job : out'.job ≡ out.job
  pub admitted : out'.admitted ≡ out.admitted
  pub completed : out'.completed ≡ out.completed
  pub wasted : out'.wasted ≡ out.wasted
  pub unattributed : out'.unattributed ≡ out.unattributed
  pub preemption_ineffective : out'.preemption_ineffective ≡ out.preemption_ineffective
  pub waste_lower_bound : out'.waste_lower_bound ≡ out.waste_lower_bound
  pub waste_censored : out'.waste_censored ≡ out.waste_censored
  pub attribution_unknown : out'.attribution_unknown ≡ out.attribution_unknown
  pub uncredited : out'.uncredited ≡ out.uncredited
  pub uncredited_unknown : out'.uncredited_unknown ≡ out.uncredited_unknown
  pub total_occupancy : out'.total_occupancy ≡ out.total_occupancy

pub start_of-SameTotals :
    (t : JobTimeline) (runs : List Attempt) (out out' : WorkloadOutcome)
    → start_of t runs (counted t out) ≡ ok out'
    → SameTotals out out'
unfolding start_of counted since_submitted with_admission
start_of-SameTotals t [] out out' same = ground arith
start_of-SameTotals t (a ∷ runs) out out' same = ground arith

start_of-after :
    (t : JobTimeline) (runs : List Attempt) (out out' : WorkloadOutcome)
    → start_of t runs out ≡ ok out'
    → All (λ a. t.submitted_ns ≤ℤ a.ready_ns) runs
unfolding start_of since_submitted
start_of-after t [] out out' same = tt
start_of-after t (a ∷ runs) out out' same =
    let (low, rest) = first_ready-le a.ready_ns a.ready_stamp_ns runs in
    let at_least : t.submitted_ns ≤ℤ (first_ready a.ready_ns a.ready_stamp_ns runs).0 =
      ground arith in
    (
      omega arith,
      All-imp _ (λ (b : Attempt). t.submitted_ns ≤ℤ b.ready_ns) runs (λ b h. omega arith) rest,
    )

-- Every attempt of a row that chargeWaste accepts, from a sound timeline.
pub passed-Checked :
    (t : JobTimeline) (horizon : ℤ) (out out' : WorkloadOutcome)
    → SoundTimeline horizon t
    → (p : PassedRow t horizon out out') → All (CheckedAttempt t horizon) p.attempts
passed-Checked t horizon out out' sound p =
    let sound_runs =
      attempts_at-All (SoundAttempt horizon) t.attempts t.attempt_seq p.attempts sound.attempts_in
        p.found in
    let (sum, in_order) =
      occupy-ok t horizon p.attempts p.started.total_occupancy p.total p.occupied in
    let late = start_of-after t p.attempts (counted t out) p.started p.start in
    All-imp _ (CheckedAttempt t horizon) p.attempts
      (λ a h. record { in_window = h.0.ready_in; in_order = h.1.0; after_submitted = h.1.1 })
      (All-both _ _ p.attempts sound_runs (All-both _ _ p.attempts in_order late))
