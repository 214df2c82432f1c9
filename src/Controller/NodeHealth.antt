-- ===== src/Controller/NodeHealth.antt =====
-- The node health controller: internal/controller/nodehealth_controller.go with the helpers of
-- reconcile_helpers.go.
pub mod Taints
pub mod Converge
pub mod Cleanup
use gpu_platform_control_pla.Base.{
  ℕ, ◌+◌, ◌≡◌, Bool, true, false, not, ◌&&◌, List, [], ◌∷◌, ◌++◌, Option, none, some, any,
  if◌then◌else◌,
}
use gpu_platform_control_pla.Base.Text.{Text, text, text_eq}
use gpu_platform_control_pla.Base.Clock.{Time}
use gpu_platform_control_pla.Controller.Objects.{
  TaintEffect, no_schedule, prefer_no_schedule, no_execute, Taint, ConditionStatus, is_true,
  is_false, is_unknown, NodeCondition, Node, Condition, FaultSignal, NodeHealthStatus, NodeHealth,
}
use gpu_platform_control_pla.Controller.Api.{Api}

abbrev pub node_health_finalizer : Text
node_health_finalizer = text "nodehealth.platform.lkhun9311.github.io/finalizer"

unfoldable pub unhealthy_taint_key : Text
unhealthy_taint_key = text "platform.lkhun9311.github.io/unhealthy"

abbrev pub phase_pending : Text
phase_pending = text "Pending"

abbrev pub phase_ready : Text
phase_ready = text "Ready"

abbrev pub phase_quarantine : Text
phase_quarantine = text "Quarantine"

abbrev pub is_no_schedule : TaintEffect → Bool
is_no_schedule no_schedule = true
is_no_schedule prefer_no_schedule = false
is_no_schedule no_execute = false

unfoldable pub is_managed_taint : Taint → Bool
unfolding unhealthy_taint_key
is_managed_taint t = text_eq t.key unhealthy_taint_key && is_no_schedule t.effect

abbrev pub is_condition_true : ConditionStatus → Bool
is_condition_true is_true = true
is_condition_true is_false = false
is_condition_true is_unknown = false

-- The first condition of the type decides.
unfoldable pub ready_of : List NodeCondition → Bool
ready_of [] = false
ready_of (c ∷ cs) =
    let rest = ready_of cs in
    if text_eq c.kind (text "Ready") then is_condition_true c.status else rest

unfoldable pub is_node_ready : Node → Bool
unfolding ready_of
is_node_ready node = ready_of node.conditions

abbrev pub unhealthy_taint : Taint
unhealthy_taint = record { key = unhealthy_taint_key; value = text "true"; effect = no_schedule }

-- The changed taints, and whether they changed.
unfoldable pub ensure_unhealthy_taint : List Taint → List Taint × Bool
unfolding is_managed_taint
ensure_unhealthy_taint taints =
    if any is_managed_taint taints
    then (taints, false)
    else (taints ++ (unhealthy_taint ∷ []), true)

unfoldable pub kept_taints : List Taint → List Taint
unfolding is_managed_taint
kept_taints [] = []
kept_taints (t ∷ ts) = let rest = kept_taints ts in if is_managed_taint t then rest else t ∷ rest

unfoldable pub remove_unhealthy_taint : List Taint → List Taint × Bool
unfolding kept_taints
remove_unhealthy_taint taints =
    if any is_managed_taint taints then (kept_taints taints, true) else (taints, false)

unfoldable pub set_phase : Text → Time → NodeHealthStatus → NodeHealthStatus
set_phase phase now s =
    if text_eq s.phase phase then s else record s { phase = phase; last_transition_time = some now }

-- The condition that setReadyCondition gives; apimachinery sets its time.
abbrev pub ready_condition : Bool → Text → Text → ℕ → Condition
ready_condition ready reason msg generation = record {
  kind = text "Ready";
  status = if ready then is_true else is_false;
  reason = reason;
  message = msg;
  observed_generation = generation;
  last_transition_time = 0;
}

-- What the API server holds, the taint counter, and how many writes the API server has taken from
-- the controller.
pub record World : Type 0 where
  pub health : Option NodeHealth
  pub node : Option Node
  pub applied : ℕ
  pub removed : ℕ
  pub writes : ℕ

-- Which calls fail in this pass. `get_node` is an error other than not found.
pub record Faults : Type 0 where
  pub get_health : Bool
  pub get_node : Bool
  pub patch_node : Bool
  pub update_health : Bool
  pub update_status : Bool

pub data Outcome : Type 0 where
  done failed : Outcome

-- The taints that the node that was read should have, and whether that is a change.
unfoldable pub desired_taints : Node → List Taint × Bool
unfolding is_node_ready ensure_unhealthy_taint remove_unhealthy_taint
desired_taints node =
    if is_node_ready node
    then remove_unhealthy_taint node.taints
    else ensure_unhealthy_taint node.taints

module _ (api : Api) where
  open api use {
    set_status_condition, deep_equal, contains_finalizer, add_finalizer, remove_finalizer,
    merge_patch, updated,
  }

  unfoldable pub set_ready_condition :
      Bool → Text → Text → ℕ → Time → NodeHealthStatus → NodeHealthStatus
  set_ready_condition ready reason msg generation now s = record s {
    conditions =
        set_status_condition (ready_condition ready reason msg generation) now s.conditions;
  }

  -- The patch of the taints, on the node that is stored.
  unfoldable pub patch_node : List Taint → List Taint → Option Node → Option Node
  patch_node base changed none = none
  patch_node base changed (some stored) =
      some (record stored { taints = merge_patch base changed stored.taints })

  -- One case of the desired status.
  unfoldable pub settle :
      Text → Option FaultSignal → Bool → Text → Text → Time → NodeHealth → NodeHealthStatus
  unfolding set_phase set_ready_condition
  settle phase fault ready reason msg now nh =
      let s : NodeHealthStatus = record (nh.status) { observed_generation = nh.generation } in
      set_ready_condition ready reason msg nh.generation now
        (record (set_phase phase now s) { fault_signal = fault })

  -- The desired status, for the node that was read.
  unfoldable pub desired_status : Option Node → Time → NodeHealth → NodeHealthStatus
  unfolding settle is_node_ready
  desired_status none now nh =
      settle phase_pending none false (text "NodeNotFound") (text "Target node not found") now nh
  desired_status (some node) now nh =
      if is_node_ready node
      then settle phase_ready none true (text "NodeReady") (text "Target node is Ready") now nh
      else settle phase_quarantine (some (record { source = text "node-not-ready"; code = [] }))
          false (text "NodeNotReady") (text "Target node is not Ready") now nh

  -- The status is written where it changed.
  unfoldable pub write_status : Faults → NodeHealthStatus → NodeHealth → World → Outcome × World
  write_status f s nh w =
      if deep_equal nh.status s
      then (done, w)
      else if f.update_status
      then (failed, w)
      else (done, record w { health = some (record nh { status = s }); writes = w.writes + 1 })

  -- The node first, then its counter, then the status.
  unfoldable pub enforce : Faults → Option Node → Time → NodeHealth → World → Outcome × World
  unfolding desired_status desired_taints patch_node write_status
  enforce f none now nh w = write_status f (desired_status none now nh) nh w
  enforce f (some node) now nh w =
      let (changed, changes) = desired_taints node in
      let s = desired_status (some node) now nh in
      let ready = is_node_ready node in
      if not changes
      then write_status f s nh w
      else if f.patch_node
      then (failed, w)
      else write_status f s nh (record w {
        node = patch_node node.taints changed w.node;
        applied = if ready then w.applied else w.applied + 1;
        removed = if ready then w.removed + 1 else w.removed;
        writes = w.writes + 1;
      })

  -- The finalizer goes once the node is clean.
  unfoldable pub drop_finalizer : Faults → NodeHealth → World → Outcome × World
  drop_finalizer f nh w = if f.update_health then (failed, w) else (
    done,
    record w {
      health =
          updated (record nh { finalizers = remove_finalizer node_health_finalizer nh.finalizers });
      writes = w.writes + 1;
    },
  )

  unfoldable pub clean_up : Faults → Option Node → NodeHealth → World → Outcome × World
  unfolding remove_unhealthy_taint patch_node drop_finalizer
  clean_up f none nh w = drop_finalizer f nh w
  clean_up f (some node) nh w =
      let (changed, changes) = remove_unhealthy_taint node.taints in
      if not changes
      then drop_finalizer f nh w
      else if f.patch_node
      then (failed, w)
      else drop_finalizer f nh
          (record w { node = patch_node node.taints changed w.node; writes = w.writes + 1 })

  unfoldable pub reconcile_health :
      Faults → Option Node → Time → NodeHealth → World → Outcome × World
  unfolding clean_up enforce
  reconcile_health f seen now nh w =
      if nh.deleting
      then (if not (contains_finalizer node_health_finalizer nh.finalizers)
          then (done, w)
          else if f.get_node
          then (failed, w)
          else clean_up f seen nh w)
      else if not (contains_finalizer node_health_finalizer nh.finalizers)
      then (if f.update_health then (failed, w) else (
        done,
        record w {
          health =
              updated
                (record nh { finalizers = add_finalizer node_health_finalizer nh.finalizers });
          writes = w.writes + 1;
        },
      ))
      else if f.get_node
      then (failed, w)
      else enforce f seen now nh w

  -- Reconcile. `seen` is the node that the cache gives, which may lag behind the one stored.
  unfoldable pub reconcile : Faults → Option Node → Time → World → Outcome × World
  unfolding reconcile_health
  reconcile f seen now w =
      if f.get_health
      then (failed, w)
      else elim w.health [ none ↦ (done, w) | some nh ↦ reconcile_health f seen now nh w ]

-- mapNodeToNodeHealth on the list that the index gave: the names to reconcile.
unfoldable pub map_node_to_node_health : Option (List NodeHealth) → List Text
map_node_to_node_health none = []
map_node_to_node_health (some []) = []
map_node_to_node_health (some (n ∷ ns)) = n.name ∷ map_node_to_node_health (some ns)
