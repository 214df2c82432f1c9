-- ===== src/Controller/NodeHealth/Taints.antt =====
-- The two changes of a node's taints.
use gpu_platform_control_pla.Base.{
  ◌<◌, ◌≤◌, ◌≡◌, ◌≢◌, refl, sym, ◌∙◌, ap, inl, inr, Bool, true, false, not, List, [], ◌∷◌, ◌++◌,
  any, length, length-append, arith, Bool-cases,
}
use gpu_platform_control_pla.Base.Text.{text_eq_refl}
use gpu_platform_control_pla.Controller.Objects.{Taint, Node}
use gpu_platform_control_pla.Controller.NodeHealth.{
  is_managed_taint, unhealthy_taint, unhealthy_taint_key, kept_taints, ensure_unhealthy_taint,
  remove_unhealthy_taint, desired_taints, is_node_ready,
}

unhealthy_is_managed : is_managed_taint unhealthy_taint ≡ true
unfolding is_managed_taint
unhealthy_is_managed = rw (text_eq_refl unhealthy_taint_key) refl

pub any-kept_taints : (ts : List Taint) → any is_managed_taint (kept_taints ts) ≡ false
unfolding kept_taints
any-kept_taints [] = refl
any-kept_taints (t ∷ ts) = elim (Bool-cases (is_managed_taint t)) [
  | inl e ↦ rw (e) (any-kept_taints ts)
  | inr e ↦ rw (e, e) (any-kept_taints ts)
]

any-append : (ts : List Taint) → any is_managed_taint (ts ++ (unhealthy_taint ∷ [])) ≡ true
any-append [] = rw (unhealthy_is_managed) refl
any-append (t ∷ ts) = rw (any-append ts) (ground arith)

kept_taints-append : (ts : List Taint) → kept_taints (ts ++ (unhealthy_taint ∷ [])) ≡ kept_taints ts
unfolding kept_taints
kept_taints-append [] = rw (unhealthy_is_managed) refl
kept_taints-append (t ∷ ts) = rw (kept_taints-append ts) refl

-- Without a managed taint nothing is removed.
kept_taints-all : (ts : List Taint) → any is_managed_taint ts ≡ false → kept_taints ts ≡ ts
unfolding kept_taints
kept_taints-all [] h = refl
kept_taints-all (t ∷ ts) h =
    let e : is_managed_taint t ≡ false = ground arith in
    let k : any is_managed_taint ts ≡ false = ground arith in rw (e, kept_taints-all ts k) refl

kept_taints-length : (ts : List Taint) → length (kept_taints ts) ≤ length ts
unfolding kept_taints
kept_taints-length [] = omega arith
kept_taints-length (t ∷ ts) = ground (arith, kept_taints-length ts)

kept_taints-shorter :
    (ts : List Taint) → any is_managed_taint ts ≡ true → length (kept_taints ts) < length ts
unfolding kept_taints
kept_taints-shorter [] h = absurd (cc)
kept_taints-shorter (t ∷ ts) h = ground (arith, kept_taints-length ts, kept_taints-shorter ts)

-- What the taints of a node should be: a managed one exactly where the node is not ready, and the
-- others as they were; a change is reported exactly where there is one, and made once.
pub record Desired (node : Node) (changed : List Taint) (changes : Bool) : Type 0 where
  pub managed : any is_managed_taint changed ≡ not (is_node_ready node)
  pub others : kept_taints changed ≡ kept_taints node.taints
  pub differs : changes ≡ true → node.taints ≢ changed
  pub same : changes ≡ false → changed ≡ node.taints

longer : (ts us : List Taint) → length ts < length us → ts ≢ us
longer ts us h e = let k : length ts ≡ length us = ap length e in omega (arith, h, k)

-- What a removal gives.
pub record Removed (ts changed : List Taint) (changes : Bool) : Type 0 where
  pub unmanaged : any is_managed_taint changed ≡ false
  pub others : kept_taints changed ≡ kept_taints ts
  pub differs : changes ≡ true → ts ≢ changed
  pub same : changes ≡ false → changed ≡ ts

pub remove-Removed :
    (ts : List Taint) → Removed ts (remove_unhealthy_taint ts).0 (remove_unhealthy_taint ts).1
unfolding remove_unhealthy_taint
remove-Removed ts = elim (Bool-cases (any is_managed_taint ts)) [
  | inl e ↦ rw (e) (record {
    unmanaged = any-kept_taints ts;
    others = kept_taints-all (kept_taints ts) (any-kept_taints ts);
    differs = λ _ q. longer (kept_taints ts) ts (kept_taints-shorter ts e) (sym q);
    same = λ k. absurd (cc);
  })
  | inr e ↦
      rw (e) (record { unmanaged = e; others = refl; differs = λ k. absurd (cc); same = λ _. refl })
]

pub remove-Desired :
    (node : Node)
    → is_node_ready node ≡ true
    → Desired node (remove_unhealthy_taint node.taints).0 (remove_unhealthy_taint node.taints).1
remove-Desired node r =
    let d = remove-Removed node.taints in
    record { managed = rw (r) d.unmanaged; others = d.others; differs = d.differs; same = d.same }

pub ensure-Desired :
    (node : Node)
    → is_node_ready node ≡ false
    → Desired node (ensure_unhealthy_taint node.taints).0 (ensure_unhealthy_taint node.taints).1
unfolding ensure_unhealthy_taint
ensure-Desired node r = elim (Bool-cases (any is_managed_taint node.taints)) [
  | inl e ↦
      rw (e)
        (record { managed = rw (r) e; others = refl; differs = λ k. absurd (cc); same = λ _. refl })
  | inr e ↦ rw (e) (record {
    managed = rw (r) (any-append node.taints);
    others = kept_taints-append node.taints;
    differs = λ _.
        longer node.taints (node.taints ++ (unhealthy_taint ∷ []))
          (omega (arith, length-append node.taints (unhealthy_taint ∷ [])));
    same = λ k. absurd (cc);
  })
]

pub desired_taints-Desired :
    (node : Node) → Desired node (desired_taints node).0 (desired_taints node).1
unfolding desired_taints
desired_taints-Desired node = elim (Bool-cases (is_node_ready node)) [
  | inl r ↦ rw (r) (remove-Desired node r)
  | inr r ↦ rw (r) (ensure-Desired node r)
]

-- Once they are as they should be, nothing changes.
pub desired_taints-again :
    (node other : Node)
    → other.conditions ≡ node.conditions
    → any is_managed_taint other.taints ≡ not (is_node_ready node)
    → (desired_taints other).1 ≡ false
unfolding desired_taints ensure_unhealthy_taint remove_unhealthy_taint is_node_ready
desired_taints-again node other same h = elim (Bool-cases (is_node_ready node)) [
  | inl r ↦ let m : any is_managed_taint other.taints ≡ false = h ∙ ap not r in rw (same, r, m) refl
  | inr r ↦ let m : any is_managed_taint other.taints ≡ true = h ∙ ap not r in rw (same, r, m) refl
]
