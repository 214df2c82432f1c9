-- ===== src/Controller/NodeHealth/Converge.antt =====
-- One pass of the node health controller in which no call fails and the cache is up to date.
use gpu_platform_control_pla.Base.{
  ◌≡◌, refl, sym, ◌∙◌, ap, inl, inr, Bool, true, false, not, [], Option, none, some, any, arith,
  Bool-cases,
}
use gpu_platform_control_pla.Base.Results.{if_case}
use gpu_platform_control_pla.Base.Text.{Text, text, text_eq, text_eq_refl}
use gpu_platform_control_pla.Base.Clock.{Time}
use gpu_platform_control_pla.Controller.Objects.{Node, FaultSignal, NodeHealth, NodeHealthStatus}
use gpu_platform_control_pla.Controller.Api.{Api}
use gpu_platform_control_pla.Controller.NodeHealth.{
  node_health_finalizer, ready_condition, phase_ready, phase_quarantine, is_managed_taint,
  kept_taints, is_node_ready, set_phase, set_ready_condition, settle, desired_status,
  desired_taints, patch_node, World, Faults, Outcome, done, failed, write_status, enforce,
  reconcile_health, reconcile,
}
use gpu_platform_control_pla.Controller.NodeHealth.Taints.{
  Desired, desired_taints-Desired, desired_taints-again,
}

abbrev pub no_faults : Faults
no_faults = record {
  get_health = false;
  get_node = false;
  patch_node = false;
  update_health = false;
  update_status = false;
}

module _ (api : Api) where
  open api use {
    set_again, deep_equal, deep_equal_same, deep_equal_refl, contains_finalizer, merge_replaces,
    merge_patch,
  }

  settle-again :
      (phase : Text) (fault : Option FaultSignal) (ready : Bool) (reason msg : Text) (t u : Time)
      (nh : NodeHealth)
      → let s = settle api phase fault ready reason msg t nh in
        settle api phase fault ready reason msg u (record nh { status = s }) ≡ s
  unfolding settle set_phase set_ready_condition
  settle-again phase fault ready reason msg t u nh =
      let again =
        set_again (ready_condition ready reason msg nh.generation) t u nh.status.conditions in
      elim (Bool-cases (text_eq nh.status.phase phase)) [
        | inl e ↦
            rw (e, e)
              (ap
                (λ cs. record (nh.status) {
                  observed_generation = nh.generation;
                  fault_signal = fault;
                  conditions = cs;
                })
                again)
        | inr e ↦
            rw (e, text_eq_refl phase)
              (ap
                (λ cs. record (nh.status) {
                  phase = phase;
                  observed_generation = nh.generation;
                  fault_signal = fault;
                  last_transition_time = some t;
                  conditions = cs;
                })
                again)
      ]

  -- The desired status is reached in one step, and kept at any later time.
  desired_status-again :
      (node other : Node) (t u : Time) (nh : NodeHealth)
      → other.conditions ≡ node.conditions
      → let s = desired_status api (some node) t nh in
        desired_status api (some other) u (record nh { status = s }) ≡ s
  unfolding desired_status is_node_ready
  desired_status-again node other t u nh same = elim (Bool-cases (is_node_ready node)) [
    | inl r ↦
        let q : is_node_ready node ≡ true = r in
        rw (same, q)
          (settle-again phase_ready none true (text "NodeReady") (text "Target node is Ready") t u
            nh)
    | inr r ↦
        let q : is_node_ready node ≡ false = r in
        rw (same, q)
          (settle-again phase_quarantine
            (some (record { source = text "node-not-ready"; code = [] })) false
            (text "NodeNotReady") (text "Target node is not Ready") t u nh)
  ]

  -- What such a pass leaves: the node's conditions as they were, a managed taint exactly where it is
  -- not ready, its other taints as they were, and the desired status.
  pub record Settled (node : Node) (nh : NodeHealth) (now : Time) (w w' : World) : Type 0 where
    pub after : Node
    pub stored : w'.node ≡ some after
    pub same_conditions : after.conditions ≡ node.conditions
    pub managed : any is_managed_taint after.taints ≡ not (is_node_ready node)
    pub others : kept_taints after.taints ≡ kept_taints node.taints
    pub health : w'.health ≡ some (record nh { status = desired_status api (some node) now nh })

  -- A pass that says it is done has settled the node, and one that fails leaves the status.
  abbrev pub Kept : Node → NodeHealth → Time → World → Outcome × World → Type 0
  Kept node nh now w r =
      (r.0 ≡ done → Settled node nh now w r.1) × (r.0 ≡ failed → r.1.health ≡ w.health)

  module _ (f : Faults) (node : Node) (now : Time) (nh : NodeHealth) (w : World)
      (h : w.health ≡ some nh) where
    desired : NodeHealthStatus
    desired = desired_status api (some node) now nh

    write_status-Kept :
        (after : Node) (v : World)
        → v.health ≡ w.health
        → v.node ≡ some after
        → after.conditions ≡ node.conditions
        → any is_managed_taint after.taints ≡ not (is_node_ready node)
        → kept_taints after.taints ≡ kept_taints node.taints
        → Kept node nh now w (write_status api f desired nh v)
    unfolding write_status desired
    write_status-Kept after v same n conds managed others =
        let settled : (u : World)
            → u.node ≡ some after
            → u.health ≡ some (record nh { status = desired })
            → Settled node nh now w u =
          λ u un uh. record {
            after = after;
            stored = un;
            same_conditions = conds;
            managed = managed;
            others = others;
            health = uh;
          } in
        if_case (Kept node nh now w) (deep_equal nh.status desired)
          (λ e. (
            (λ _. settled v n (
                same
                ∙ (h
                    ∙ ap (λ x. some (record nh { status = x }))
                        (deep_equal_same nh.status desired e)))),
            (λ bad. absurd (cc)),
          ))
          (λ e.
            if_case (Kept node nh now w) f.update_status (λ k. ((λ bad. absurd (cc)), (λ _. same)))
              (λ k. ((λ _. settled _ n refl), (λ bad. absurd (cc)))))

    enforce-Kept : w.node ≡ some node → Kept node nh now w (enforce api f (some node) now nh w)
    unfolding enforce patch_node desired
    enforce-Kept n =
        let d : Desired node (desired_taints node).0 (desired_taints node).1 =
          desired_taints-Desired node in
        if_case (Kept node nh now w) (not (desired_taints node).1)
          (λ e.
            write_status-Kept node w refl n refl
              (ap (any is_managed_taint) (sym (d.same (ground arith))) ∙ d.managed) refl)
          (λ e.
            if_case (Kept node nh now w) f.patch_node (λ k. ((λ bad. absurd (cc)), (λ _. refl)))
              (λ k.
                let changes : (desired_taints node).1 ≡ true = ground arith in
                let patched : Node = record node {
                  taints = merge_patch node.taints (desired_taints node).0 node.taints;
                } in
                let p : patched.taints ≡ (desired_taints node).0 =
                  merge_replaces node.taints (desired_taints node).0 node.taints
                    (d.differs changes) in
                write_status-Kept patched _ refl
                  (ap (patch_node api node.taints (desired_taints node).0) n) refl
                  (ap (any is_managed_taint) p ∙ d.managed) (ap kept_taints p ∙ d.others)))

  write_status_done :
      (s : NodeHealthStatus) (nh : NodeHealth) (v : World)
      → (write_status api no_faults s nh v).0 ≡ done
  unfolding write_status
  write_status_done s nh v =
      if_case (λ (r : Outcome × World). r.0 ≡ done) (deep_equal nh.status s) (λ e. refl) (λ e. refl)

  enforce_done :
      (node : Node) (now : Time) (nh : NodeHealth) (w : World)
      → (enforce api no_faults (some node) now nh w).0 ≡ done
  unfolding enforce
  enforce_done node now nh w =
      if_case (λ (r : Outcome × World). r.0 ≡ done) (not (desired_taints node).1)
        (λ e. write_status_done _ nh w) (λ e. write_status_done _ nh _)

  enforce-calm :
      (node : Node) (now : Time) (nh : NodeHealth) (w : World)
      → w.health ≡ some nh
      → w.node ≡ some node
      → (w' : World) × (enforce api no_faults (some node) now nh w ≡ (done, w'))
        × Settled node nh now w w'
  enforce-calm node now nh w h n =
      let r = enforce api no_faults (some node) now nh w in
      let is_done = enforce_done node now nh w in
      (r.1, (λ i. (is_done i, r.1)), (enforce-Kept no_faults node now nh w h n).0 is_done)

  -- A NodeHealth that is kept and has its finalizer.
  unfoldable pub IsWatching : NodeHealth → Type 0
  IsWatching nh =
      (nh.deleting ≡ false) × (contains_finalizer node_health_finalizer nh.finalizers ≡ true)

  reconcile-enforce :
      (seen : Option Node) (now : Time) (nh : NodeHealth) (w : World)
      → w.health ≡ some nh
      → IsWatching nh
      → reconcile api no_faults seen now w ≡ enforce api no_faults seen now nh w
  unfolding reconcile reconcile_health IsWatching
  reconcile-enforce seen now nh w h (kept, has) = simp (h, kept, has)

  abbrev at_health : Faults → Option Node → Time → World → Option NodeHealth → Outcome × World
  at_health f seen now w o = elim o [
    | none ↦ (done, w)
    | some nh ↦ reconcile_health api f seen now nh w
  ]

  -- A pass over a watched node that no call fails in, from an up-to-date cache, leaves the node with a
  -- managed taint exactly where it is not ready, every other taint in its place, and the status that
  -- its readiness calls for.
  pub pass_enforces_readiness :
      (node : Node) (now : Time) (nh : NodeHealth) (w : World)
      → w.health ≡ some nh
      → w.node ≡ some node
      → IsWatching nh
      → (w' : World) × (reconcile api no_faults w.node now w ≡ (done, w'))
        × Settled node nh now w w'
  pass_enforces_readiness node now nh w h n k =
      let (w', e, s) = enforce-calm node now nh w h n in
      (
        w',
        ap (λ o. reconcile api no_faults o now w) n
            ∙ (reconcile-enforce (some node) now nh w h k ∙ e),
        s,
      )

  write_status-same :
      (s : NodeHealthStatus) (nh : NodeHealth) (w : World)
      → s ≡ nh.status
      → write_status api no_faults s nh w ≡ (done, w)
  unfolding write_status
  write_status-same s nh w e = rw (e, deep_equal_refl nh.status) refl

  Settled-enforce :
      (node : Node) (now later : Time) (nh : NodeHealth) (w w' : World)
      (s : Settled node nh now w w')
      → enforce api no_faults
          (some s.after)
          later
          (record nh { status = desired_status api (some node) now nh })
          w'
        ≡ (done, w')
  unfolding enforce
  Settled-enforce node now later nh w w' s =
      rw (desired_taints-again node s.after s.same_conditions s.managed) (
        write_status-same _ (record nh { status = desired_status api (some node) now nh }) w'
          (desired_status-again node s.after now later nh s.same_conditions))

  -- After a pass over a watched node that no call fails in, from an up-to-date cache, a second one
  -- at any time changes nothing and writes nothing, where the cache shows what the first one left: the
  -- count of writes that the API server has taken stays as it was.
  pub second_pass_is_idle :
      (node : Node) (now later : Time) (nh : NodeHealth) (w : World)
      → w.health ≡ some nh
      → w.node ≡ some node
      → IsWatching nh
      → (w' : World) × (reconcile api no_faults w.node now w ≡ (done, w'))
        × (reconcile api no_faults w'.node later w' ≡ (done, w'))
  unfolding IsWatching
  second_pass_is_idle node now later nh w h n k =
      let (w', e, s) = pass_enforces_readiness node now nh w h n k in
      (
        w',
        e,
        ap (λ o. reconcile api no_faults o later w') s.stored
            ∙ (reconcile-enforce (some s.after) later
                  (record nh { status = desired_status api (some node) now nh }) w' s.health k
                ∙ Settled-enforce node now later nh w w' s),
      )
