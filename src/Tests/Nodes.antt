-- ===== src/Tests/Nodes.antt =====
-- The node health controller's results at concrete values.
use gpu_platform_control_pla.Base.{◌≡◌, refl, true, false, [], ◌∷◌, none, some, any}
use gpu_platform_control_pla.Base.Text.{text, text_eq, text_eq_refl}
use gpu_platform_control_pla.Controller.Objects.{
  Taint, no_schedule, no_execute, is_false, Node, NodeHealth,
}
use gpu_platform_control_pla.Controller.NodeHealth.{
  node_health_finalizer, unhealthy_taint_key, is_managed_taint, kept_taints, is_node_ready,
  ready_of, desired_taints, World, Faults, done, failed, enforce, clean_up, reconcile,
}
use gpu_platform_control_pla.Controller.NodeHealth.Converge.{
  no_faults, Settled, IsWatching, pass_enforces_readiness, second_pass_is_idle,
}
use gpu_platform_control_pla.Controller.NodeHealth.Cleanup.{
  finalizer_guards_taint, patch_drops_newer_taints,
}
use gpu_platform_control_pla.Tests.Cluster.{example_api, listed}

abbrev other_taint : Taint
other_taint = record { key = text "k"; value = []; effect = no_execute }

abbrev newer_taint : Taint
newer_taint = record { key = text "n"; value = []; effect = no_schedule }

abbrev lost_node : Node
lost_node = record {
  name = text "n1";
  taints = other_taint ∷ [];
  conditions = record { kind = text "Ready"; status = is_false } ∷ [];
}

abbrev newer_node : Node
newer_node = record lost_node { taints = other_taint ∷ (newer_taint ∷ []) }

abbrev health : NodeHealth
health = record {
  name = text "h";
  node_name = text "n1";
  generation = 1;
  deleting = false;
  finalizers = node_health_finalizer ∷ [];
  status = record {
    phase = [];
    observed_generation = 0;
    fault_signal = none;
    last_transition_time = none;
    conditions = [];
  };
}

abbrev world : World
world = record { health = some health; node = some lost_node; applied = 0; removed = 0; writes = 0 }

health-IsWatching : IsWatching example_api health
unfolding IsWatching listed
health-IsWatching = (refl, rw (text_eq_refl node_health_finalizer) refl)

pass_enforces_readiness_example :
    (w' : World) × (reconcile example_api no_faults world.node 50 world ≡ (done, w'))
    × Settled example_api lost_node health 50 world w'
pass_enforces_readiness_example =
    pass_enforces_readiness example_api lost_node 50 health world refl refl health-IsWatching

second_pass_is_idle_example :
    (w' : World) × (reconcile example_api no_faults world.node 50 world ≡ (done, w'))
    × (reconcile example_api no_faults w'.node 60 w' ≡ (done, w'))
second_pass_is_idle_example =
    second_pass_is_idle example_api lost_node 50 60 health world refl refl health-IsWatching

abbrev patch_fails : Faults
patch_fails = record no_faults { patch_node = true }

lost_node-untainted : any is_managed_taint lost_node.taints ≡ is_node_ready lost_node
unfolding is_managed_taint unhealthy_taint_key is_node_ready ready_of text_eq
lost_node-untainted = refl

finalizer_guards_taint_example :
    ((clean_up example_api patch_fails world.node health world).0 ≡ done
      → (after : Node) × ((clean_up example_api patch_fails world.node health world).1.node
          ≡ some after)
        × (any is_managed_taint after.taints ≡ false)
        × (kept_taints after.taints ≡ kept_taints lost_node.taints))
    × ((clean_up example_api patch_fails world.node health world).0 ≡ failed
        → (clean_up example_api patch_fails world.node health world).1.health ≡ some health)
finalizer_guards_taint_example =
    finalizer_guards_taint example_api patch_fails lost_node health world refl

abbrev later_world : World
later_world = record world { node = some newer_node }

patch_drops_newer_taints_example :
    (enforce example_api no_faults (some lost_node) 50 health later_world).1.node
    ≡ some (record newer_node { taints = (desired_taints lost_node).0 })
patch_drops_newer_taints_example =
    patch_drops_newer_taints example_api no_faults lost_node newer_node 50 health later_world refl
      lost_node-untainted refl
