-- ===== src/QueueLab/Builder.antt =====
-- LedgerBuilder of internal/queuelab/collector.go: watch observations become ledger events.
pub mod Faithful
pub mod History
use gpu_platform_control_pla.Base.{
  ℕ, ◌≡◌, Bool, true, false, not, ◌&&◌, ◌||◌, Option, none, some, List, [], ◌∷◌, ◌++◌,
  if◌then◌else◌,
}
use gpu_platform_control_pla.Base.Int.{ℤ, pos, eq_ℤ}
use gpu_platform_control_pla.Base.Arith.{add64, sub64}
use gpu_platform_control_pla.Base.Text.{Text, text, text_eq}
use gpu_platform_control_pla.Base.Maps.{Map, lookup, insert}
use gpu_platform_control_pla.QueueLab.Events.{EventType, LifecycleEvent, type_eq}
use gpu_platform_control_pla.QueueLab.Provenance.{
  ObservedState, Cause, ready_pod_deleted, ready_pod_vanished, desynced,
}

pub data DeltaType : Type 0 where
  upsert : DeltaType
  delete : DeltaType

abbrev pub kind_pod : Text
kind_pod = text "Pod"

-- `invalid` is `none` for the empty reason. A wall anchor of zero is not set.
pub record LedgerBuilder : Type 0 where
  pub last_event : Map EventType
  pub wall_anchor_ns : ℤ
  pub ready : Map Bool
  pub events : List LifecycleEvent
  pub invalid : Option Cause

unfoldable pub new_ledger_builder : LedgerBuilder
new_ledger_builder = record {
  last_event = [];
  wall_anchor_ns = pos 0;
  ready = [];
  events = [];
  invalid = none;
}

-- AnchorWallClock, at a time given by its UnixNano.
unfoldable pub anchor_wall_clock : ℤ → LedgerBuilder → LedgerBuilder
anchor_wall_clock t0 b = record b { wall_anchor_ns = t0 }

unfoldable pub skew_ns : ℤ → ℤ → Option ℤ → Option ℤ
skew_ns anchor elapsed none = none
skew_ns anchor elapsed (some finished) =
    if eq_ℤ anchor (pos 0) then none else some (sub64 (add64 anchor elapsed) finished)

-- b.ready[uid], false for a key that is not there.
unfoldable pub is_ready : Map Bool → Text → Bool
is_ready m uid = elim (lookup uid m) [ none ↦ false | some r ↦ r ]

-- b.lastEvent[uid] == event.
unfoldable pub was_last : Option EventType → EventType → Bool
was_last none event = false
was_last (some last) event = type_eq last event

unfoldable pub event_of :
    LedgerBuilder → Text → Text → Text → ObservedState → EventType → ℤ → LifecycleEvent
unfolding skew_ns
event_of b kind uid job st event elapsed = record {
  elapsed_ns = elapsed;
  wall_unix_nanos = if eq_ℤ b.wall_anchor_ns (pos 0) then pos 0 else add64 b.wall_anchor_ns elapsed;
  kind = kind;
  type = event;
  exit_code = st.exit_code;
  iterations = st.iterations;
  workload_kind = st.workload_kind;
  device_status = st.device_status;
  duty_cycle = st.duty_cycle;
  job = job;
  component_stamp_unix_nanos = st.component_stamp_unix_nanos;
  observed_skew_ns = skew_ns b.wall_anchor_ns elapsed st.component_stamp_unix_nanos;
  object_uid = uid;
  resource_version = [];
  reason = st.reason;
}

-- The switch on the event after it was appended.
unfoldable pub ready_after : EventType → Text → Map Bool → Map Bool
ready_after EventType.pod_ready uid m = insert uid true m
ready_after EventType.attempt_stopped uid m = insert uid false m
ready_after other uid m = m

-- The event of an observation, unless it repeats the last one of the object.
unfoldable pub append_event :
    LedgerBuilder → Text → Text → Text → ObservedState → ℤ → Option EventType → LedgerBuilder
unfolding event_of ready_after was_last
append_event b kind uid job st elapsed none = b
append_event b kind uid job st elapsed (some event) =
    if was_last (lookup uid b.last_event) event then b else record b {
      events = b.events ++ (event_of b kind uid job st event elapsed ∷ []);
      last_event = insert uid event b.last_event;
      ready = ready_after event uid b.ready;
    }

-- A Pod that is deleted while it is ready invalidates the run.
unfoldable pub check_deleted : DeltaType → Text → Text → LedgerBuilder → LedgerBuilder
unfolding is_ready
check_deleted upsert kind uid b = b
check_deleted delete kind uid b =
    if text_eq kind kind_pod && is_ready b.ready uid
    then record b { invalid = some (ready_pod_deleted uid) }
    else b

unfoldable pub observe_state :
    LedgerBuilder
    → DeltaType
    → Text
    → Text
    → Text
    → ObservedState
    → ℤ
    → Option Cause
    → LedgerBuilder
unfolding append_event check_deleted
observe_state b delta kind uid job st elapsed (some cause) = record b { invalid = some cause }
observe_state b delta kind uid job st elapsed none =
    check_deleted delta kind uid (append_event b kind uid job st elapsed st.event)

-- Nothing changes once the run is invalid.
unfoldable pub unless_invalid : LedgerBuilder → LedgerBuilder → Option Cause → LedgerBuilder
unless_invalid b next none = next
unless_invalid b next (some cause) = b

unfoldable pub observe :
    LedgerBuilder → DeltaType → Text → Text → Text → ObservedState → ℤ → LedgerBuilder
unfolding observe_state unless_invalid
observe b delta kind uid job st elapsed =
    unless_invalid b (observe_state b delta kind uid job st elapsed st.invalid) b.invalid

unfoldable pub mark_vanished : LedgerBuilder → Text → LedgerBuilder
unfolding is_ready unless_invalid
mark_vanished b uid =
    unless_invalid b
      (if is_ready b.ready uid then record b { invalid = some (ready_pod_vanished uid) } else b)
      b.invalid

unfoldable pub desync : LedgerBuilder → Text → LedgerBuilder
unfolding unless_invalid
desync b reason = unless_invalid b (record b { invalid = some (desynced reason) }) b.invalid
