-- ===== src/QueueLab/Builder/History.antt =====
-- Every history of deliveries leaves a faithful ledger.
use gpu_platform_control_pla.Base.{
  ◌≡◌, refl, sym, ◌∙◌, Bool, true, false, ◌&&◌, Option, none, some, [], ◌∷◌, ◌++◌, if◌then◌else◌,
  arith, Bool-cases, inl, inr,
}
use gpu_platform_control_pla.Base.Int.{ℤ}
use gpu_platform_control_pla.Base.Float.{Float}
use gpu_platform_control_pla.Base.Text.{Text, text_eq, text_eq_iff, text_eq_refl}
use gpu_platform_control_pla.Base.Maps.{lookup, insert, lookup-insert, All-append_one}
use gpu_platform_control_pla.QueueLab.Events.{EventType, LifecycleEvent}
use gpu_platform_control_pla.QueueLab.Timeline.{check_shape}
use gpu_platform_control_pla.QueueLab.Provenance.{ObservedState, Cause, Pod, ready_pod_vanished}
use gpu_platform_control_pla.QueueLab.Builder.{
  DeltaType, upsert, delete, kind_pod, LedgerBuilder, new_ledger_builder, anchor_wall_clock,
  is_ready, was_last, event_of, ready_after, append_event, check_deleted, observe_state,
  unless_invalid, observe, mark_vanished, desync,
}
use gpu_platform_control_pla.QueueLab.Builder.Faithful.{
  pod, kind_of, state_of, Built, started, anchored, observed, vanished, gap, last_type, repeats,
  running, last_type-append, running-append, repeats-append, IsFaithful, gives_shape, classified,
  gives_shape-check, is_ready-after,
}

-- An event that differs from the object's last one.
grown-IsFaithful :
    (b : LedgerBuilder) (e : LifecycleEvent)
    → IsFaithful b
    → check_shape e.type e ≡ none
    → was_last (lookup e.object_uid b.last_event) e.type ≡ false
    → IsFaithful (record b {
      events = b.events ++ (e ∷ []);
      last_event = insert e.object_uid e.type b.last_event;
      ready = ready_after e.type e.object_uid b.ready;
    })
grown-IsFaithful b e f shape fresh = record {
  shaped =
      All-append_one (λ (d : LifecycleEvent). check_shape d.type d ≡ none) b.events e f.shaped
        shape;
  last = λ uid. ground (
    arith,
    lookup-insert e.object_uid uid e.type b.last_event,
    last_type-append uid e none b.events,
    f.last uid,
  );
  no_repeat = λ uid. grown_no_repeat uid (text_eq e.object_uid uid) refl;
  ready = λ uid. ground (
    arith,
    is_ready-after e.type e.object_uid uid b.ready,
    running-append uid e false b.events,
    f.ready uid,
  );
}
  where
    grown_no_repeat :
        (uid : Text) (mine : Bool)
        → text_eq e.object_uid uid ≡ mine
        → repeats uid none (b.events ++ (e ∷ [])) ≡ false
    grown_no_repeat uid false other =
        repeats-append uid e none b.events ∙ ground (arith, f.no_repeat uid)
    grown_no_repeat uid true mine =
        let same = (text_eq_iff e.object_uid uid).0 mine in
        repeats-append uid e none b.events ∙ ground (arith, f.no_repeat uid, f.last uid)

append_event-IsFaithful :
    (b : LedgerBuilder) (kind uid job : Text) (st : ObservedState) (elapsed : ℤ)
    (event : Option EventType)
    → text_eq uid [] ≡ false
    → gives_shape event st.reason ≡ true
    → IsFaithful b
    → IsFaithful (append_event b kind uid job st elapsed event)
unfolding append_event
append_event-IsFaithful b kind uid job st elapsed none named shape f = f
append_event-IsFaithful b kind uid job st elapsed (some event) named shape f =
    elim (Bool-cases (was_last (lookup uid b.last_event) event)) [
      | inl again ↦ rw again f
      | inr fresh ↦ rw fresh (
          grown-IsFaithful b (event_of b kind uid job st event elapsed) f
            (gives_shape-check (event_of b kind uid job st event elapsed) event named shape) fresh)
    ]

-- What only sets the reason of the invalidation leaves the ledger as it was.
invalid-IsFaithful :
    (b : LedgerBuilder) (cause : Option Cause)
    → IsFaithful b
    → IsFaithful (record b { invalid = cause })
invalid-IsFaithful b cause f = record {
  shaped = f.shaped;
  last = f.last;
  no_repeat = f.no_repeat;
  ready = f.ready;
}

check_deleted-IsFaithful :
    (delta : DeltaType) (kind uid : Text) (b : LedgerBuilder)
    → IsFaithful b
    → IsFaithful (check_deleted delta kind uid b)
unfolding check_deleted
check_deleted-IsFaithful upsert kind uid b f = f
check_deleted-IsFaithful delete kind uid b f =
    elim (Bool-cases (text_eq kind kind_pod && is_ready b.ready uid)) [
      | inl lost ↦ rw lost (invalid-IsFaithful b _ f)
      | inr fine ↦ rw fine f
    ]

observe_state-IsFaithful :
    (b : LedgerBuilder) (delta : DeltaType) (kind uid job : Text) (st : ObservedState) (elapsed : ℤ)
    (cause : Option Cause)
    → text_eq uid [] ≡ false
    → gives_shape st.event st.reason ≡ true
    → IsFaithful b
    → IsFaithful (observe_state b delta kind uid job st elapsed cause)
unfolding observe_state
observe_state-IsFaithful b delta kind uid job st elapsed (some cause) named shape f =
    invalid-IsFaithful b (some cause) f
observe_state-IsFaithful b delta kind uid job st elapsed none named shape f =
    check_deleted-IsFaithful delta kind uid (append_event b kind uid job st elapsed st.event)
      (append_event-IsFaithful b kind uid job st elapsed st.event named shape f)

unless_invalid-IsFaithful :
    (b next : LedgerBuilder) (cause : Option Cause)
    → IsFaithful b
    → IsFaithful next
    → IsFaithful (unless_invalid b next cause)
unfolding unless_invalid
unless_invalid-IsFaithful b next none f g = g
unless_invalid-IsFaithful b next (some cause) f g = f

vanished-IsFaithful :
    (b : LedgerBuilder) (uid : Text) (is_lost : Bool)
    → IsFaithful b
    → IsFaithful (if is_lost then record b { invalid = some (ready_pod_vanished uid) } else b)
vanished-IsFaithful b uid true f = invalid-IsFaithful b _ f
vanished-IsFaithful b uid false f = f

new_ledger_builder-IsFaithful : IsFaithful new_ledger_builder
unfolding new_ledger_builder lookup last_type repeats is_ready running
new_ledger_builder-IsFaithful = record {
  shaped = tt;
  last = λ uid. refl;
  no_repeat = λ uid. refl;
  ready = λ uid. refl;
}

-- Whatever the watches deliver in whatever order, the ledger is faithful: every event has the shape
-- that Reconstruct asks of it, no event of an object has the type of the object's event before it,
-- lastEvent holds the type of the last event of each object, and a Pod is marked ready exactly when
-- the last of its Ready and Stopped events in the ledger is Ready.
pub built_ledger-IsFaithful :
    (parse_float : Text → Option Float) (b : LedgerBuilder) → Built parse_float b → IsFaithful b
unfolding observe mark_vanished desync anchor_wall_clock
built_ledger-IsFaithful parse_float _ started = new_ledger_builder-IsFaithful
built_ledger-IsFaithful parse_float _ (anchored {b} t0 h) =
    let f = built_ledger-IsFaithful parse_float b h in
    record { shaped = f.shaped; last = f.last; no_repeat = f.no_repeat; ready = f.ready }
built_ledger-IsFaithful parse_float _ (observed {b} delta w uid job elapsed named h) =
    let f = built_ledger-IsFaithful parse_float b h in
    let st = state_of parse_float w in
    unless_invalid-IsFaithful b (observe_state b delta (kind_of w) uid job st elapsed st.invalid)
      b.invalid f
      (observe_state-IsFaithful b delta (kind_of w) uid job st elapsed st.invalid named
        (classified parse_float w) f)
built_ledger-IsFaithful parse_float _ (vanished {b} uid h) =
    let f = built_ledger-IsFaithful parse_float b h in
    unless_invalid-IsFaithful b _ b.invalid f (vanished-IsFaithful b uid (is_ready b.ready uid) f)
built_ledger-IsFaithful parse_float _ (gap {b} reason h) =
    let f = built_ledger-IsFaithful parse_float b h in
    unless_invalid-IsFaithful b _ b.invalid f (invalid-IsFaithful b _ f)

check_deleted-stopped :
    (uid : Text) (b : LedgerBuilder)
    → (check_deleted delete kind_pod uid b).invalid ≡ none
    → b.invalid ≡ none
    → is_ready (check_deleted delete kind_pod uid b).ready uid ≡ false
unfolding check_deleted
check_deleted-stopped uid b valid was = let pods = text_eq_refl kind_pod in ground arith

append_event-invalid :
    (b : LedgerBuilder) (kind uid job : Text) (st : ObservedState) (elapsed : ℤ)
    (event : Option EventType)
    → (append_event b kind uid job st elapsed event).invalid ≡ b.invalid
unfolding append_event
append_event-invalid b kind uid job st elapsed none = refl
append_event-invalid b kind uid job st elapsed (some event) = ground arith

observe-stopped :
    (b : LedgerBuilder) (uid job : Text) (st : ObservedState) (elapsed : ℤ)
    (was found : Option Cause)
    → b.invalid ≡ was
    → (unless_invalid b (observe_state b delete kind_pod uid job st elapsed found) was).invalid
      ≡ none
    → is_ready
        (unless_invalid b (observe_state b delete kind_pod uid job st elapsed found) was).ready
        uid
      ≡ false
unfolding unless_invalid observe_state
observe-stopped b uid job st elapsed (some c) found same valid = absurd (cc)
observe-stopped b uid job st elapsed none (some c) same valid = absurd (cc)
observe-stopped b uid job st elapsed none none same valid =
    check_deleted-stopped uid (append_event b kind_pod uid job st elapsed st.event) valid
      (append_event-invalid b kind_pod uid job st elapsed st.event ∙ same)

-- No stop is lost: when a Pod's deletion leaves a run valid, the ledger does not show the Pod as
-- running; if it ever was ready, its stop is recorded after that.
pub valid_deletion_was_stopped :
    (parse_float : Text → Option Float) (b : LedgerBuilder) (p : Pod) (uid job : Text) (elapsed : ℤ)
    → Built parse_float b
    → text_eq uid [] ≡ false
    → (observe b delete kind_pod uid job (state_of parse_float (pod p)) elapsed).invalid ≡ none
    → running uid false
        (observe b delete kind_pod uid job (state_of parse_float (pod p)) elapsed).events
      ≡ false
unfolding observe
valid_deletion_was_stopped parse_float b p uid job elapsed h named valid =
    let after = observed delete (pod p) uid job elapsed named h in
    sym ((built_ledger-IsFaithful parse_float _ after).ready uid)
    ∙ observe-stopped b uid job (state_of parse_float (pod p)) elapsed b.invalid
        (state_of parse_float (pod p)).invalid refl valid
