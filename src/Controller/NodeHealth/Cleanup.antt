-- ===== src/Controller/NodeHealth/Cleanup.antt =====
-- Deletion, failed calls, and a cache that lags behind.
use gpu_platform_control_pla.Base.{
  ◌+◌, ◌≡◌, ◌≢◌, refl, sym, ◌∙◌, ap, subst, inl, inr, Bool, true, false, not, some, any, Bool-cases,
}
use gpu_platform_control_pla.Base.Clock.{Time}
use gpu_platform_control_pla.Controller.Objects.{Node, NodeHealth, NodeHealthStatus}
use gpu_platform_control_pla.Controller.Api.{Api}
use gpu_platform_control_pla.Controller.NodeHealth.{
  is_managed_taint, kept_taints, remove_unhealthy_taint, is_node_ready, desired_taints, patch_node,
  World, Faults, Outcome, done, failed, write_status, enforce, drop_finalizer, clean_up,
}
use gpu_platform_control_pla.Controller.NodeHealth.Taints.{
  Desired, desired_taints-Desired, Removed, remove-Removed,
}

not_itself : (b : Bool) → b ≢ not b
not_itself true h = absurd (cc)
not_itself false h = absurd (cc)

-- Taints that do not fit the node's readiness are changed.
wrong-changes :
    (node : Node)
    → any is_managed_taint node.taints ≡ is_node_ready node
    → (desired_taints node).1 ≡ true
wrong-changes node h =
    let d : Desired node (desired_taints node).0 (desired_taints node).1 =
      desired_taints-Desired node in
    elim (Bool-cases (desired_taints node).1) [
      | inl e ↦ e
      | inr e ↦
          let same : any is_managed_taint node.taints ≡ not (is_node_ready node) =
            ap (any is_managed_taint) (sym (d.same e)) ∙ d.managed in
          absurd (not_itself (is_node_ready node) (sym h ∙ same))
    ]

module _ (api : Api) where
  open api use {merge_replaces, merge_patch, deep_equal}

  -- The outcome of a deletion pass over a node.
  Cleaned : Node → World → Outcome × World → Type 0
  Cleaned node w (o, w') =
      (o ≡ done
        → (after : Node) × (w'.node ≡ some after)
          × (any is_managed_taint after.taints ≡ false)
          × (kept_taints after.taints ≡ kept_taints node.taints))
      × (o ≡ failed → w'.health ≡ w.health)

  dropped :
      (f : Faults) (node after : Node) (nh : NodeHealth) (w v : World)
      → v.health ≡ w.health
      → v.node ≡ some after
      → any is_managed_taint after.taints ≡ false
      → kept_taints after.taints ≡ kept_taints node.taints
      → Cleaned node w (drop_finalizer api f nh v)
  unfolding Cleaned drop_finalizer
  dropped f node after nh w v h n clean same = elim (Bool-cases f.update_health) [
    | inl e ↦ rw (e) ((λ k. absurd (cc)), λ _. h)
    | inr e ↦ rw (e) ((λ _. (after, n, clean, same)), λ k. absurd (cc))
  ]

  clean_up-Cleaned :
      (f : Faults) (node : Node) (nh : NodeHealth) (w : World)
      → w.node ≡ some node
      → Cleaned node w (clean_up api f (some node) nh w)
  unfolding clean_up patch_node
  clean_up-Cleaned f node nh w n =
      let changed = (remove_unhealthy_taint node.taints).0 in
      let d : Removed node.taints changed (remove_unhealthy_taint node.taints).1 =
        remove-Removed node.taints in
      elim (Bool-cases (remove_unhealthy_taint node.taints).1) [
        | inr e ↦ rw (e) (
            dropped f node node nh w w refl n
              (ap (any is_managed_taint) (sym (d.same e)) ∙ d.unmanaged) refl)
        | inl e ↦
            let p : merge_patch node.taints changed node.taints ≡ changed =
              merge_replaces node.taints changed node.taints (d.differs e) in
            elim (Bool-cases f.patch_node) [
              | inl k ↦ rw (e, k) (unfold Cleaned in ((λ x. absurd (cc)), λ _. refl))
              | inr k ↦
                  rw (e, k)
                    (dropped f node
                      (record node { taints = merge_patch node.taints changed node.taints }) nh w
                      (record w {
                        node = patch_node api node.taints changed w.node;
                        writes = w.writes + 1;
                      })
                      refl (ap (patch_node api node.taints changed) n)
                      (ap (any is_managed_taint) p ∙ d.unmanaged) (ap kept_taints p ∙ d.others))
            ]
      ]

  -- With an up-to-date cache the deletion pass succeeds only with the managed taint off the node and
  -- all its other taints in their place; where the pass fails the NodeHealth keeps its finalizer.
  pub finalizer_guards_taint :
      (f : Faults) (node : Node) (nh : NodeHealth) (w : World)
      → w.node ≡ some node
      → let r = clean_up api f w.node nh w in
        (r.0 ≡ done
          → (after : Node) × (r.1.node ≡ some after)
            × (any is_managed_taint after.taints ≡ false)
            × (kept_taints after.taints ≡ kept_taints node.taints))
        × (r.0 ≡ failed → r.1.health ≡ w.health)
  unfolding Cleaned
  finalizer_guards_taint f node nh w n =
      subst (λ o. Cleaned node w (clean_up api f o nh w)) (sym n) (clean_up-Cleaned f node nh w n)

  write_status-node :
      (f : Faults) (s : NodeHealthStatus) (nh : NodeHealth) (w : World)
      → (write_status api f s nh w).1.node ≡ w.node
  unfolding write_status
  write_status-node f s nh w = elim (Bool-cases (deep_equal nh.status s)) [
    | inl e ↦ rw (e) refl
    | inr e ↦ elim (Bool-cases f.update_status) [ inl k ↦ rw (e, k) refl | inr k ↦ rw (e, k) refl ]
  ]

  -- Where a pass has taints to change, the node ends with the list computed from the cache, whatever
  -- it carries by then: a taint that came after the node was read is dropped, although the patch is
  -- meant to change the managed taint only.
  pub patch_drops_newer_taints :
      (f : Faults) (seen stored : Node) (now : Time) (nh : NodeHealth) (w : World)
      → f.patch_node ≡ false
      → any is_managed_taint seen.taints ≡ is_node_ready seen
      → w.node ≡ some stored
      → (enforce api f (some seen) now nh w).1.node
        ≡ some (record stored { taints = (desired_taints seen).0 })
  unfolding enforce patch_node
  patch_drops_newer_taints f seen stored now nh w p h n =
      let d : Desired seen (desired_taints seen).0 (desired_taints seen).1 =
        desired_taints-Desired seen in
      let c : (desired_taints seen).1 ≡ true = wrong-changes seen h in
      rw (c, p)
        (write_status-node f _ nh _
          ∙ (ap (patch_node api seen.taints (desired_taints seen).0) n
              ∙ ap (λ ts. some (record stored { taints = ts }))
                  (merge_replaces seen.taints (desired_taints seen).0 stored.taints (d.differs c))))
