-- ===== src/Controller/AdmitToRunning.antt =====
-- internal/controller/admit_to_running.go: how long a job waited between its admission and its run.
use gpu_platform_control_pla.Base.{
  ℕ, zero, suc, ◌+◌, ◌*◌, ◌/◌, ◌%◌, Bool, true, false, not, ◌&&◌, ◌||◌, List, [], ◌∷◌, ◌++◌, Option,
  none, some, ltb, ◌==◌, if◌then◌else◌, ◌≡◌, refl,
}
use gpu_platform_control_pla.Base.Int.{pos, negsuc, sub_ℕ}
use gpu_platform_control_pla.Base.Float.{Float, nan, inf, fin, unit, ltb_f, of_int, zero_f}
use gpu_platform_control_pla.Base.Arith.{add_f, div_by_whole}
use gpu_platform_control_pla.Base.Text.{Text, text, text_eq}
use gpu_platform_control_pla.Base.Clock.{Time, Duration, is_zero_time, since}
use gpu_platform_control_pla.Controller.Objects.{
  Condition, ConditionStatus, is_true, is_false, is_unknown,
}
use gpu_platform_control_pla.Controller.TrainingObjects.{TrainingStatus}

abbrev pub phase_pending : Text
phase_pending = text "Pending"

abbrev pub phase_admitted : Text
phase_admitted = text "Admitted"

abbrev pub phase_running : Text
phase_running = text "Running"

abbrev pub phase_succeeded : Text
phase_succeeded = text "Succeeded"

abbrev pub phase_failed : Text
phase_failed = text "Failed"

abbrev pub cond_admit_to_running : Text
cond_admit_to_running = text "AdmitToRunningObserved"

abbrev pub reason_admission_not_observed : Text
reason_admission_not_observed = text "AdmissionNotObserved"

abbrev pub reason_kueue_stamp_missing : Text
reason_kueue_stamp_missing = text "KueueStampMissing"

abbrev pub reason_negative_interval : Text
reason_negative_interval = text "NegativeInterval"

-- `observed` holds the seconds; `unobserved` the reason; most calls are neither.
pub data Outcome : Type 0 where
  nothing : Outcome
  observed : Float → Outcome
  unobserved : Text → Outcome

-- d.Seconds(): the whole seconds and the rest, each truncated towards zero.
unfoldable pub seconds : Duration → Float
seconds (pos n) =
    add_f (of_int (pos (n / 1000000000))) (div_by_whole (of_int (pos (n % 1000000000))) 1000000000)
seconds (negsuc n) =
    add_f (of_int (sub_ℕ 0 (suc n / 1000000000)))
      (div_by_whole (of_int (sub_ℕ 0 (suc n % 1000000000))) 1000000000)

-- The decimal digits of a number, on fuel: the number itself and one more is enough.
unfoldable pub decimal_from : ℕ → ℕ → Text → Text
decimal_from zero n after = after
decimal_from (suc f) n after =
    let rest = decimal_from f (n / 10) ((48 + n % 10) ∷ after) in
    if ltb n 10 then (48 + n) ∷ after else rest

unfoldable pub decimal : ℕ → Text
unfolding decimal_from
decimal n = decimal_from (suc n) n []

-- A number over 2 ^ 1074 in thousandths, rounded to the nearest, ties to even.
unfoldable pub thousandths : ℕ → ℕ
unfolding unit
thousandths n =
    let q = n * 1000 / unit in
    let twice = 2 * (n * 1000 % unit) in
    if ltb unit twice || (twice == unit && q % 2 == 1) then q + 1 else q

three_places : ℕ → Text
unfolding decimal
three_places m =
    decimal (m / 1000)
    ++ (text "." ++ ((48 + m / 100 % 10) ∷ ((48 + m / 10 % 10) ∷ ((48 + m % 10) ∷ []))))

-- fmt.Sprintf("%.3f", v); the sign of a zero is not kept.
unfoldable pub format_seconds : Float → Text
unfolding thousandths three_places
format_seconds nan = text "NaN"
format_seconds (inf true) = text "+Inf"
format_seconds (inf false) = text "-Inf"
format_seconds (fin (pos n)) = three_places (thousandths n)
format_seconds (fin (negsuc n)) = text "-" ++ three_places (thousandths (suc n))

one_and_a_half : format_seconds (seconds (pos 1500000000)) ≡ text "1.500"
unfolding format_seconds seconds add_f div_by_whole of_int
one_and_a_half = refl

observed_message : Float → Text
unfolding format_seconds
observed_message secs =
    text "the tenant waited "
    ++ (format_seconds secs
        ++ text
            "s between Kueue admitting this job and this controller seeing it run; the admission end is Kueue's own stamp and the running end is this controller's observation, so the interval carries one watch lag")

-- What setUnobserved says for a reason.
unobserved_message : Text → Text
unobserved_message reason =
    if text_eq reason reason_admission_not_observed
    then text
        "this job was already past admission when this controller first saw it, so the wait it reports would be a duration nobody watched; Kueue's stamp is still on the Workload and is deliberately not used here"
    else if text_eq reason reason_kueue_stamp_missing
    then text
        "the Workload is admitted but carries no usable admission stamp, so the window has no start"
    else if text_eq reason reason_negative_interval
    then text
        "the running observation precedes the admission it would be measured from, which means the two clocks disagree; the interval is refused rather than clamped, because a clamped zero would enter the histogram as the fastest reclaim this platform ever achieved"
    else text "the admission-to-running window was not observed"

unfoldable pub status_eq : ConditionStatus → ConditionStatus → Bool
status_eq is_true is_true = true
status_eq is_false is_false = true
status_eq is_unknown is_unknown = true
status_eq s t = false

-- The condition that is there, for the one that is set: the same fact keeps its transition time.
unfoldable pub renewed : Condition → Condition → Condition
unfolding status_eq
renewed old c =
    if status_eq old.status c.status && text_eq old.reason c.reason
    then record old {
      message = c.message;
      last_transition_time =
          if is_zero_time old.last_transition_time
          then c.last_transition_time
          else old.last_transition_time;
    }
    else c

-- setAdmitToRunningCondition on the conditions.
unfoldable pub put_condition : Condition → List Condition → List Condition
unfolding renewed
put_condition c [] = c ∷ []
put_condition c (old ∷ rest) =
    let later = put_condition c rest in
    if not (text_eq old.kind cond_admit_to_running) then old ∷ later else renewed old c ∷ rest

unfoldable pub set_admit_to_running_condition :
    Time → ConditionStatus → Text → Text → TrainingStatus → TrainingStatus
unfolding put_condition
set_admit_to_running_condition now s reason msg status = record status {
  conditions =
      put_condition
        (record {
          kind = cond_admit_to_running;
          status = s;
          reason = reason;
          message = msg;
          observed_generation = 0;
          last_transition_time = now;
        })
        status.conditions;
}

unfoldable pub set_observed : Float → Time → TrainingStatus → TrainingStatus
unfolding observed_message set_admit_to_running_condition
set_observed secs now status =
    set_admit_to_running_condition now is_true (text "Observed") (observed_message secs) status

unfoldable pub set_unobserved : Text → Time → TrainingStatus → TrainingStatus
unfolding unobserved_message set_admit_to_running_condition
set_unobserved reason now status =
    set_admit_to_running_condition now is_false reason (unobserved_message reason) status

-- kueueAdmittedStamp.
unfoldable pub kueue_admitted_stamp : List Condition → Option Time
unfolding status_eq
kueue_admitted_stamp [] = none
kueue_admitted_stamp (c ∷ cs) =
    let rest = kueue_admitted_stamp cs in
    if not (text_eq c.kind (text "Admitted")) || not (status_eq c.status is_true)
    then rest
    else if is_zero_time c.last_transition_time
    then none
    else some c.last_transition_time

-- admitToRunningRefusal.
unfoldable pub admit_to_running_refusal : List Condition → Text
unfolding status_eq
admit_to_running_refusal [] = []
admit_to_running_refusal (c ∷ cs) =
    let rest = admit_to_running_refusal cs in
    if text_eq c.kind cond_admit_to_running && status_eq c.status is_false then c.reason else rest

-- The reconcile that saw the job admitted.
unfoldable pub record_admitted :
    TrainingStatus → Option Time → Option Time → Time → TrainingStatus × Outcome
unfolding set_unobserved
record_admitted status (some a) stamp now = (status, nothing)
record_admitted status none none now =
    (set_unobserved reason_kueue_stamp_missing now status, unobserved reason_kueue_stamp_missing)
record_admitted status none (some stamp) now =
    if is_zero_time stamp
    then (
      set_unobserved reason_kueue_stamp_missing now status,
      unobserved reason_kueue_stamp_missing,
    )
    else (record status { admitted_at = some stamp }, nothing)

-- The reconcile that saw the job run, by the two ends that are recorded.
unfoldable pub record_running :
    TrainingStatus → Option Time → Option Time → Time → TrainingStatus × Outcome
unfolding set_unobserved set_observed admit_to_running_refusal
record_running status (some r) admitted now = (status, nothing)
record_running status none none now =
    if not (text_eq (admit_to_running_refusal status.conditions) []) then (status, nothing) else (
      set_unobserved reason_admission_not_observed now status,
      unobserved reason_admission_not_observed,
    )
record_running status none (some a) now =
    let secs = seconds (since now a) in
    if ltb_f secs zero_f
    then (set_unobserved reason_negative_interval now status, unobserved reason_negative_interval)
    else (
      set_observed secs now (record status {
        running_observed_at = some now;
        admit_to_running_seconds = format_seconds secs;
      }),
      observed secs,
    )

-- recordAdmitToRunning.
unfoldable pub record_admit_to_running :
    TrainingStatus → Text → Text → Option Time → Time → TrainingStatus × Outcome
unfolding record_admitted record_running
record_admit_to_running status prev next kueue_admitted_at now =
    if text_eq next phase_admitted && not (text_eq prev phase_admitted)
    then record_admitted status status.admitted_at kueue_admitted_at now
    else if text_eq next phase_running && not (text_eq prev phase_running)
    then record_running status status.running_observed_at status.admitted_at now
    else (status, nothing)
