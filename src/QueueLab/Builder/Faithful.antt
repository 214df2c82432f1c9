-- ===== src/QueueLab/Builder/Faithful.antt =====
-- What a ledger that LedgerBuilder builds satisfies, whatever the watches deliver.
use gpu_platform_control_pla.Base.{
  ◌≡◌, refl, Bool, true, false, ◌&&◌, ◌||◌, Option, none, some, List, [], ◌∷◌, ◌++◌, if◌then◌else◌,
  arith, All,
}
use gpu_platform_control_pla.Base.Int.{ℤ}
use gpu_platform_control_pla.Base.Float.{Float}
use gpu_platform_control_pla.Base.Text.{Text, text, text_eq}
use gpu_platform_control_pla.Base.Maps.{Map, lookup, lookup-insert}
use gpu_platform_control_pla.QueueLab.Events.{
  EventType, LifecycleEvent, stop_reason_succeeded, stop_reason_failed,
}
use gpu_platform_control_pla.QueueLab.Timeline.{check_shape}
use gpu_platform_control_pla.QueueLab.Provenance.{
  Workload, Job, Pod, Condition, ObservedState, classify_workload, classify_job, classify_pod,
  classify_evicted, classify_job_conditions, stopped_state,
}
use gpu_platform_control_pla.QueueLab.Builder.{
  DeltaType, kind_pod, LedgerBuilder, new_ledger_builder, anchor_wall_clock, is_ready, was_last,
  ready_after, observe, mark_vanished, desync,
}

-- A watched object of one of the kinds that are classified.
pub data Watched : Type 0 where
  workload : Workload → Watched
  job : Job → Watched
  pod : Pod → Watched

abbrev pub kind_of : Watched → Text
kind_of (workload w) = text "Workload"
kind_of (job j) = text "Job"
kind_of (pod p) = kind_pod

unfoldable pub state_of : (Text → Option Float) → Watched → ObservedState
state_of parse_float (workload w) = classify_workload w
state_of parse_float (job j) = classify_job j
state_of parse_float (pod p) = classify_pod parse_float p

-- The builders that a collector can reach. Every object has a UID.
pub data Built (parse_float : Text → Option Float) : LedgerBuilder → Type 0 where
  started : Built parse_float new_ledger_builder
  anchored :
      {b : LedgerBuilder} (t0 : ℤ)
      → Built parse_float b
      → Built parse_float (anchor_wall_clock t0 b)
  observed :
      {b : LedgerBuilder} (delta : DeltaType) (w : Watched) (uid job_name : Text) (elapsed : ℤ)
      → text_eq uid [] ≡ false
      → Built parse_float b
      → Built parse_float
          (observe b delta (kind_of w) uid job_name (state_of parse_float w) elapsed)
  vanished :
      {b : LedgerBuilder} (uid : Text)
      → Built parse_float b
      → Built parse_float (mark_vanished b uid)
  gap :
      {b : LedgerBuilder} (reason : Text)
      → Built parse_float b
      → Built parse_float (desync b reason)

-- The type of an object's last event.
unfoldable pub last_type : Text → Option EventType → List LifecycleEvent → Option EventType
last_type uid last [] = last
last_type uid last (e ∷ es) =
    last_type uid (if text_eq e.object_uid uid then some e.type else last) es

-- Some event of the object has the type of the object's event before it.
unfoldable pub repeats : Text → Option EventType → List LifecycleEvent → Bool
repeats uid last [] = false
repeats uid last (e ∷ es) =
    (text_eq e.object_uid uid && was_last last e.type)
    || repeats uid (if text_eq e.object_uid uid then some e.type else last) es

-- Whether a Pod runs after an event of its own.
unfoldable pub runs_after : Bool → EventType → Bool
runs_after running EventType.pod_ready = true
runs_after running EventType.attempt_stopped = false
runs_after running other = running

-- The ledger shows the Pod as ready and not stopped since.
unfoldable pub running : Text → Bool → List LifecycleEvent → Bool
unfolding runs_after
running uid r [] = r
running uid r (e ∷ es) =
    running uid (if text_eq e.object_uid uid then runs_after r e.type else r) es

module _ (uid : Text) (e : LifecycleEvent) where
  pub last_type-append :
      (last : Option EventType) (es : List LifecycleEvent)
      → last_type uid last (es ++ (e ∷ []))
        ≡ (if text_eq e.object_uid uid then some e.type else last_type uid last es)
  unfolding last_type
  last_type-append last [] = refl
  last_type-append last (d ∷ es) =
      last_type-append (if text_eq d.object_uid uid then some d.type else last) es

  pub running-append :
      (r : Bool) (es : List LifecycleEvent)
      → running uid r (es ++ (e ∷ [])) ≡ (
          if text_eq e.object_uid uid
          then runs_after (running uid r es) e.type
          else running uid r es)
  unfolding running
  running-append r [] = refl
  running-append r (d ∷ es) =
      running-append (if text_eq d.object_uid uid then runs_after r d.type else r) es

  pub repeats-append :
      (last : Option EventType) (es : List LifecycleEvent)
      → repeats uid last (es ++ (e ∷ [])) ≡ (
          repeats uid last es
          || (text_eq e.object_uid uid && was_last (last_type uid last es) e.type))
  unfolding repeats last_type
  repeats-append last [] = ground arith
  repeats-append last (d ∷ es) =
      ground (arith, repeats-append (if text_eq d.object_uid uid then some d.type else last) es)

-- The ledger so far.
pub record IsFaithful (b : LedgerBuilder) : Type 0 where
  pub shaped : All (λ (e : LifecycleEvent). check_shape e.type e ≡ none) b.events
  pub last : (uid : Text) → lookup uid b.last_event ≡ last_type uid none b.events
  pub no_repeat : (uid : Text) → repeats uid none b.events ≡ false
  pub ready : (uid : Text) → is_ready b.ready uid ≡ running uid false b.events

-- A stop comes with a terminal phase, and there is no type of its own.
unfoldable pub gives_shape : Option EventType → Text → Bool
gives_shape none reason = true
gives_shape (some EventType.submitted) reason = true
gives_shape (some EventType.admitted) reason = true
gives_shape (some EventType.pod_ready) reason = true
gives_shape (some EventType.preempted) reason = true
gives_shape (some EventType.attempt_stopped) reason =
    text_eq reason stop_reason_succeeded || text_eq reason stop_reason_failed
gives_shape (some EventType.completed) reason = true
gives_shape (some (EventType.unknown s)) reason = false

classified_job :
    (cs : List Condition)
    → gives_shape (classify_job_conditions cs).event (classify_job_conditions cs).reason ≡ true
unfolding gives_shape classify_job_conditions
classified_job [] = refl
classified_job (c ∷ cs) = ground (arith, classified_job cs)

pub classified :
    (parse_float : Text → Option Float) (w : Watched)
    → gives_shape (state_of parse_float w).event (state_of parse_float w).reason ≡ true
unfolding state_of gives_shape classify_workload classify_evicted classify_job classify_pod
    stopped_state
classified parse_float (workload w) = ground arith
classified parse_float (job j) = classified_job j.conditions
classified parse_float (pod p) = ground arith

pub gives_shape-check :
    (e : LifecycleEvent) (ty : EventType)
    → text_eq e.object_uid [] ≡ false
    → gives_shape (some ty) e.reason ≡ true
    → check_shape ty e ≡ none
unfolding gives_shape check_shape
gives_shape-check e EventType.submitted named h = refl
gives_shape-check e EventType.admitted named h = refl
gives_shape-check e EventType.pod_ready named h = ground arith
gives_shape-check e EventType.preempted named h = refl
gives_shape-check e EventType.attempt_stopped named h = ground arith
gives_shape-check e EventType.completed named h = refl
gives_shape-check e (EventType.unknown s) named h = cc

pub is_ready-after :
    (ty : EventType) (uid j : Text) (m : Map Bool)
    → is_ready (ready_after ty uid m) j
      ≡ (if text_eq uid j then runs_after (is_ready m j) ty else is_ready m j)
unfolding is_ready ready_after runs_after
is_ready-after EventType.submitted uid j m = ground arith
is_ready-after EventType.admitted uid j m = ground arith
is_ready-after EventType.pod_ready uid j m = ground (arith, lookup-insert uid j true m)
is_ready-after EventType.preempted uid j m = ground arith
is_ready-after EventType.attempt_stopped uid j m = ground (arith, lookup-insert uid j false m)
is_ready-after EventType.completed uid j m = ground arith
is_ready-after (EventType.unknown s) uid j m = ground arith
