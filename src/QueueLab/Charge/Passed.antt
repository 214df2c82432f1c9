-- ===== src/QueueLab/Charge/Passed.antt =====
-- What a row that chargeWaste accepts has passed.
use gpu_platform_control_pla.Base.{
  true, false, not, ◌&&◌, List, ◌≡◌, refl, sym, ◌∙◌, inl, inr, ltb, length, take, Bool-cases,
}
use gpu_platform_control_pla.Base.Int.{ℤ}
use gpu_platform_control_pla.Base.Float.{Float}
use gpu_platform_control_pla.Base.Results.{ok, err, >>=-ok}
use gpu_platform_control_pla.QueueLab.Timeline.{
  Attempt, JobTimeline, overlap, never_admitted, too_many_preemptions,
}
use gpu_platform_control_pla.QueueLab.Charge.{
  WorkloadOutcome, attempts_at, start_of, counted, occupy, start_order, do_not_overlap, charge_all,
  charge_paired, charge_started, charge_runs, charge_admitted, charge_waste, pair_preemptions,
}

pub record PassedRow (t : JobTimeline) (horizon : ℤ) (out out' : WorkloadOutcome) : Type 0 where
  pub attempts : List Attempt
  pub found : attempts_at t.attempts t.attempt_seq ≡ ok attempts
  pub started : WorkloadOutcome
  pub start : start_of t attempts (counted t out) ≡ ok started
  pub total : Float
  pub occupied : occupy t horizon attempts started.total_occupancy ≡ ok total
  pub apart : do_not_overlap (start_order attempts) ≡ true
  pub enough : ltb (length (start_order attempts)) (length t.preempted_ns) ≡ false
  pub result :
      charge_all t horizon
        (record started { total_occupancy = total })
        (take (length t.preempted_ns) (start_order attempts))
      ≡ out'

charge_paired-ok :
    (t : JobTimeline) (horizon : ℤ) (ordered : List Attempt) (out out' : WorkloadOutcome)
    → charge_paired t horizon ordered out ≡ ok out'
    → (do_not_overlap ordered ≡ true)
      × (ltb (length ordered) (length t.preempted_ns) ≡ false)
      × (charge_all t horizon out (take (length t.preempted_ns) ordered) ≡ out')
unfolding charge_paired pair_preemptions
charge_paired-ok t horizon ordered out out' same = elim (Bool-cases (do_not_overlap ordered)) [
  | inr clash ↦ let bad : err overlap ≡ ok out' = sym (rw clash refl) ∙ same in absurd (cc)
  | inl apart ↦ elim (Bool-cases (ltb (length ordered) (length t.preempted_ns))) [
    | inl few ↦
        let bad : err too_many_preemptions ≡ ok out' = sym (rw (apart, few) refl) ∙ same in
        absurd (cc)
    | inr enough ↦
        let last : ok (charge_all t horizon out (take (length t.preempted_ns) ordered)) ≡ ok out' =
          sym (rw (apart, enough) refl) ∙ same in
        (apart, enough, cc)
  ]
]

charge_admitted-ok :
    (t : JobTimeline) (horizon : ℤ) (out out' : WorkloadOutcome)
    → charge_admitted t horizon out ≡ ok out'
    → PassedRow t horizon out out'
unfolding charge_admitted charge_runs charge_started
charge_admitted-ok t horizon out out' same =
    let (runs, found, rest) = >>=-ok _ (attempts_at t.attempts t.attempt_seq) out' same in
    let (started, start, rest') = >>=-ok _ (start_of t runs (counted t out)) out' rest in
    let (total, occupied, rest'') =
      >>=-ok _ (occupy t horizon runs started.total_occupancy) out' rest' in
    let (apart, enough, result) = charge_paired-ok t horizon (start_order runs) _ out' rest'' in
    record {
      attempts = runs;
      found = found;
      started = started;
      start = start;
      total = total;
      occupied = occupied;
      apart = apart;
      enough = enough;
      result = result;
    }

pub charge_waste-ok :
    (t : JobTimeline) (horizon : ℤ) (out out' : WorkloadOutcome)
    → charge_waste t horizon out ≡ ok out'
    → PassedRow t horizon out out'
unfolding charge_waste
charge_waste-ok t horizon out out' same = elim (Bool-cases (t.completed && not t.admitted)) [
  | inl never ↦ let bad : err never_admitted ≡ ok out' = sym (rw never refl) ∙ same in absurd (cc)
  | inr fine ↦
      let rest : charge_admitted t horizon out ≡ ok out' = sym (rw fine refl) ∙ same in
      charge_admitted-ok t horizon out out' rest
]
