-- ===== src/QueueLab/Charge/Occupied.antt =====
-- How long a row's attempts held their devices, in nanoseconds.
use mathlib.Core.List.{Permᴰ}
use gpu_platform_control_pla.Base.{
  ℕ, ◌+◌, ◌≤◌, true, false, ◌&&◌, List, [], ◌∷◌, ◌≡◌, refl, ◌∙◌, ap, inl, inr, arith, All,
  Bool-cases,
}
use gpu_platform_control_pla.Base.Int.{ℤ, pos, pos_part, leb_ℤ, ltb_ℤ, ◌≤ℤ◌, neg_part_zero}
use gpu_platform_control_pla.Base.Clock.{max_duration}
use gpu_platform_control_pla.Base.Arith.{sub64, sub64_lem, add_f}
use gpu_platform_control_pla.Base.Float.{Float}
use gpu_platform_control_pla.Base.Sort.{perm-sort_func, All-sort_func}
use gpu_platform_control_pla.QueueLab.Timeline.{Attempt, JobTimeline}
use gpu_platform_control_pla.QueueLab.Timeline.Invariant.{InWindow}
use gpu_platform_control_pla.QueueLab.Charge.{
  observed_end, occupancy_end, charged, start_order, overlaps, no_overlap_after, do_not_overlap,
}

-- end - a.readyNs of the occupancy loop.
unfoldable pub held_ns : JobTimeline → ℤ → Attempt → ℕ
held_ns t horizon a = pos_part (sub64 (occupancy_end t a horizon) a.ready_ns)

unfoldable pub total_held_ns : JobTimeline → ℤ → List Attempt → ℕ
total_held_ns t horizon [] = 0
total_held_ns t horizon (a ∷ runs) = held_ns t horizon a + total_held_ns t horizon runs

-- The charges of all attempts, added one after the other.
unfoldable pub sum_charges : JobTimeline → ℤ → Float → List Attempt → Float
sum_charges t horizon total [] = total
sum_charges t horizon total (a ∷ runs) =
    sum_charges t horizon (add_f total (charged t horizon a)) runs

total_held_ns-perm :
    (t : JobTimeline) (horizon : ℤ) {xs ys : List Attempt}
    → Permᴰ xs ys
    → total_held_ns t horizon xs ≡ total_held_ns t horizon ys
unfolding total_held_ns
total_held_ns-perm t horizon Permᴰ.nil = refl
total_held_ns-perm t horizon (Permᴰ.cons e p) =
    let same = ap (held_ns t horizon) e in omega (arith, total_held_ns-perm t horizon p)
total_held_ns-perm t horizon (Permᴰ.swap e f) =
    let one = ap (held_ns t horizon) e in let two = ap (held_ns t horizon) f in omega arith
total_held_ns-perm t horizon (Permᴰ.trans p q) =
    total_held_ns-perm t horizon p ∙ total_held_ns-perm t horizon q

-- An attempt as the checks of one row leave it.
pub record CheckedAttempt (t : JobTimeline) (horizon : ℤ) (a : Attempt) : Type 0 where
  pub in_window : InWindow horizon a.ready_ns
  pub in_order : (a.stopped && ltb_ℤ a.stop_ns a.ready_ns) ≡ false
  pub after_submitted : t.submitted_ns ≤ℤ a.ready_ns

module _ (t : JobTimeline) (horizon : ℤ)
    (completed_in : t.completed ≡ true → InWindow horizon t.completed_ns)
    (fits : horizon ≤ℤ pos max_duration) where
  -- The charged interval ends between its Ready and the horizon.
  occupancy_end-bounds :
      (a : Attempt)
      → InWindow horizon a.ready_ns
      → (a.ready_ns ≤ℤ occupancy_end t a horizon) × (occupancy_end t a horizon ≤ℤ horizon)
  unfolding occupancy_end observed_end
  occupancy_end-bounds a w = elim (Bool-cases t.completed) [
    | inl done ↦ let c = completed_in done in (ground arith, ground arith)
    | inr not_done ↦ (ground arith, ground arith)
  ]

  held_ns-le :
      (a : Attempt) (limit : ℤ)
      → InWindow horizon a.ready_ns
      → occupancy_end t a horizon ≤ℤ limit
      → held_ns t horizon a + pos_part a.ready_ns ≤ pos_part limit
  unfolding held_ns
  held_ns-le a limit w below =
      let b = occupancy_end-bounds a w in
      let gap =
        sub64_lem (occupancy_end t a horizon) a.ready_ns w.0 b.0 (omega (arith, b.1, fits)) in
      let whole = neg_part_zero a.ready_ns w.0 in
      let whole' = neg_part_zero (occupancy_end t a horizon) (omega (arith, b.0, w.0)) in
      rw gap (omega arith)

  -- An attempt that ended before the next was ready is charged up to there at most.
  occupancy_end-next :
      (a b : Attempt)
      → CheckedAttempt t horizon a
      → CheckedAttempt t horizon b
      → overlaps a b ≡ false
      → occupancy_end t a horizon ≤ℤ b.ready_ns
  unfolding occupancy_end observed_end overlaps
  occupancy_end-next a b p q apart =
      let order = p.in_order in let wa = p.in_window in let wb = q.in_window in ground arith

  chain_held :
      (a : Attempt) (runs : List Attempt)
      → CheckedAttempt t horizon a
      → All (CheckedAttempt t horizon) runs
      → no_overlap_after a runs ≡ true
      → total_held_ns t horizon (a ∷ runs) + pos_part a.ready_ns ≤ pos_part horizon
  unfolding total_held_ns no_overlap_after
  chain_held a [] p rest apart =
      let w = p.in_window in
      let end = occupancy_end-bounds a w in omega (arith, held_ns-le a horizon w end.1)
  chain_held a (b ∷ runs) p rest apart =
      let one : overlaps a b ≡ false = ground arith in
      let more : no_overlap_after b runs ≡ true = ground arith in
      let next = occupancy_end-next a b p rest.0 one in
      let tail = chain_held b runs rest.0 rest.1 more in
      omega (arith, held_ns-le a b.ready_ns p.in_window next)

  ordered_held :
      (runs : List Attempt)
      → All (CheckedAttempt t horizon) runs
      → do_not_overlap runs ≡ true
      → t.submitted_ns ≤ℤ horizon
      → total_held_ns t horizon runs + pos_part t.submitted_ns ≤ pos_part horizon
  unfolding total_held_ns do_not_overlap
  ordered_held [] checked apart in_time = ground arith
  ordered_held (a ∷ runs) checked apart in_time =
      let late = checked.0.after_submitted in
      let w = checked.0.in_window in
      let chain = chain_held a runs checked.0 checked.1 apart in ground arith

  -- In whatever order the attempts were seen.
  pub held_in_window :
      (runs : List Attempt)
      → All (CheckedAttempt t horizon) runs
      → do_not_overlap (start_order runs) ≡ true
      → t.submitted_ns ≤ℤ horizon
      → total_held_ns t horizon runs + pos_part t.submitted_ns ≤ pos_part horizon
  unfolding start_order
  held_in_window runs checked apart in_time =
      let by_ready = λ (a b : Attempt). leb_ℤ a.ready_ns b.ready_ns in
      rw (total_held_ns-perm t horizon (perm-sort_func by_ready runs)) (
        ordered_held (start_order runs)
          (All-sort_func (CheckedAttempt t horizon) by_ready runs checked) apart in_time)
