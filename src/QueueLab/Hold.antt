-- ===== src/QueueLab/Hold.antt =====
-- hold.go of internal/queuelab: how long the victim held the device that the owner waited for.
pub mod First
use gpu_platform_control_pla.Base.{
  Bool, true, false, not, ◌&&◌, ◌||◌, List, [], ◌∷◌, Option, none, some, if◌then◌else◌,
}
use gpu_platform_control_pla.Base.Int.{ℤ, pos, ltb_ℤ, leb_ℤ}
use gpu_platform_control_pla.Base.Arith.{add64, sub64}
use gpu_platform_control_pla.Base.Text.{Text, text_eq}
use gpu_platform_control_pla.QueueLab.Events.{
  EventType, admitted, submitted, pod_ready, attempt_stopped, type_eq, LifecycleEvent,
}
use gpu_platform_control_pla.QueueLab.Spread.{stamp_quantisation_ns}
use gpu_platform_control_pla.QueueLab.Trace.{victim_row, owner_row}

-- An event of the row, of the type that is looked for.
unfoldable pub is_of : Text → EventType → LifecycleEvent → Bool
is_of job kind e = text_eq e.job job && type_eq e.type kind

-- The least so far, and one more.
unfoldable pub lesser : Option ℤ → ℤ → ℤ
lesser none v = v
lesser (some o) v = if ltb_ℤ v o then v else o

unfoldable pub first_from : Text → EventType → Option ℤ → List LifecycleEvent → Option ℤ
unfolding is_of lesser
first_from job kind out [] = out
first_from job kind out (e ∷ es) =
    first_from job kind (if is_of job kind e then some (lesser out e.elapsed_ns) else out) es

-- firstElapsed.
unfoldable pub first_elapsed : List LifecycleEvent → Text → EventType → Option ℤ
unfolding first_from
first_elapsed events job kind = first_from job kind none events

-- From the one reading to the other, unless the second is the earlier.
unfoldable pub span : Option ℤ → Option ℤ → Option ℤ
span none t = none
span (some f) none = none
span (some f) (some t) = if ltb_ℤ t f then none else some (sub64 t f)

unfoldable pub device_hold_ns : List LifecycleEvent → Option ℤ
unfolding span first_elapsed
device_hold_ns events =
    span (first_elapsed events owner_row admitted) (first_elapsed events victim_row attempt_stopped)

unfoldable pub achieved_dose_ns : List LifecycleEvent → Option ℤ
unfolding span first_elapsed
achieved_dose_ns events =
    span (first_elapsed events victim_row pod_ready) (first_elapsed events owner_row submitted)

-- VictimAttemptUID: the UID and the time so far, no UID being the empty one.
unfoldable pub victim_from : Text → ℤ → List LifecycleEvent → Text
unfolding is_of
victim_from uid at [] = uid
victim_from uid at (e ∷ es) =
    let counts = is_of victim_row attempt_stopped e && not (text_eq e.object_uid []) in
    let takes = counts && (text_eq uid [] || ltb_ℤ e.elapsed_ns at) in
    victim_from (if takes then e.object_uid else uid) (if takes then e.elapsed_ns else at) es

unfoldable pub victim_attempt_uid : List LifecycleEvent → Text
unfolding victim_from
victim_attempt_uid events = victim_from [] (pos 0) events

-- A window that is not empty.
unfoldable pub window : Option ℤ → Option ℤ → Option (ℤ × ℤ)
window none t = none
window (some f) none = none
window (some f) (some t) = if leb_ℤ t f then none else some (f, t)

unfoldable pub device_hold_window : List LifecycleEvent → Option (ℤ × ℤ)
unfolding window first_elapsed
device_hold_window events =
    window (first_elapsed events owner_row admitted)
      (first_elapsed events victim_row attempt_stopped)

unfoldable pub victim_work_window : List LifecycleEvent → Option (ℤ × ℤ)
unfolding window first_elapsed
victim_work_window events =
    window (first_elapsed events victim_row pod_ready)
      (first_elapsed events victim_row attempt_stopped)

-- firstStamp: the arrival and the stamp of the earliest event so far.
unfoldable pub earlier_stamp : Option (ℤ × ℤ) → ℤ → Option ℤ → Option (ℤ × ℤ)
earlier_stamp best at none = best
earlier_stamp none at (some stamp) = some (at, stamp)
earlier_stamp (some (was, old)) at (some stamp) =
    if ltb_ℤ at was then some (at, stamp) else some (was, old)

unfoldable pub stamp_from : Text → EventType → Option (ℤ × ℤ) → List LifecycleEvent → Option ℤ
unfolding is_of earlier_stamp
stamp_from job kind none [] = none
stamp_from job kind (some (at, stamp)) [] = some stamp
stamp_from job kind best (e ∷ es) =
    stamp_from job kind
      (if is_of job kind e
        then earlier_stamp best e.elapsed_ns e.component_stamp_unix_nanos
        else best)
      es

unfoldable pub first_stamp : List LifecycleEvent → Text → EventType → Option ℤ
unfolding stamp_from
first_stamp events job kind = stamp_from job kind none events

unfoldable pub stamp_span : Option ℤ → Option ℤ → Option ℤ
stamp_span none t = none
stamp_span (some f) none = none
stamp_span (some f) (some t) = some (sub64 t f)

unfoldable pub device_hold_stamp_ns : List LifecycleEvent → Option ℤ
unfolding stamp_span first_stamp
device_hold_stamp_ns events =
    stamp_span (first_stamp events owner_row admitted)
      (first_stamp events victim_row attempt_stopped)

-- The two holds: whether they differ by more than the clocks explain, their distance, and what is
-- tolerated.
unfoldable pub disagree : Option ℤ → Option ℤ → ℤ → Bool × ℤ × ℤ
disagree none stamp floor_ns = (false, pos 0, pos 0)
disagree (some a) none floor_ns = (false, pos 0, pos 0)
disagree (some a) (some s) floor_ns =
    let gap = sub64 a s in
    let size = if ltb_ℤ gap (pos 0) then sub64 (pos 0) gap else gap in
    let tolerance = add64 stamp_quantisation_ns floor_ns in (ltb_ℤ tolerance size, size, tolerance)

unfoldable pub clocks_disagree : List LifecycleEvent → ℤ → Bool × ℤ × ℤ
unfolding disagree device_hold_ns device_hold_stamp_ns
clocks_disagree events floor_ns =
    disagree (device_hold_ns events) (device_hold_stamp_ns events) floor_ns
