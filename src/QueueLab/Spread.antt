-- ===== src/QueueLab/Spread.antt =====
-- How finely a run's own observations can be read (internal/queuelab/resolution.go).
pub mod Floor
use gpu_platform_control_pla.Base.{
  ℕ, zero, suc, ◌/◌, Bool, true, false, ◌&&◌, Option, none, some, List, [], ◌∷◌, if◌then◌else◌, ltb,
  length,
}
use gpu_platform_control_pla.Base.Int.{ℤ, pos, negsuc, ltb_ℤ}
use gpu_platform_control_pla.Base.Arith.{sub64, add64}
use gpu_platform_control_pla.Base.Sort.{sort_func}
use gpu_platform_control_pla.QueueLab.Events.{LifecycleEvent}

abbrev pub minimum_spread_samples : ℕ
minimum_spread_samples = 2

-- One second.
abbrev pub stamp_quantisation_ns : ℤ
stamp_quantisation_ns = pos 1000000000

pub record ObservationSpread : Type 0 where
  pub samples : ℕ
  pub min_ns : ℤ
  pub median_ns : ℤ
  pub max_ns : ℤ
  pub quantisation_ns : ℤ
  pub floor_ns : ℤ

-- The skews of the events that `keep` selects.
unfoldable pub skews_of : (LifecycleEvent → Bool) → List LifecycleEvent → List ℤ
skews_of keep [] = []
skews_of keep (e ∷ es) =
    let rest = skews_of keep es in
    elim (e.observed_skew_ns) [ none ↦ rest | some s ↦ if keep e then s ∷ rest else rest ]

-- skews[i]; every index that is read lies inside.
unfoldable pub skew_at : List ℤ → ℕ → ℤ
skew_at [] i = pos 0
skew_at (s ∷ ss) zero = s
skew_at (s ∷ ss) (suc i) = skew_at ss i

-- skews[len(skews)-1].
unfoldable pub last_skew : ℤ → List ℤ → ℤ
last_skew s [] = s
last_skew s (t ∷ ts) = last_skew t ts

-- The summary of the sorted skews.
unfoldable pub summarise : List ℤ → Option ObservationSpread
unfolding skew_at last_skew
summarise [] = none
summarise (s ∷ ss) =
    let spread = sub64 (last_skew s ss) s in
    some (record {
      samples = length (s ∷ ss);
      min_ns = s;
      median_ns = skew_at (s ∷ ss) (length (s ∷ ss) / 2);
      max_ns = last_skew s ss;
      quantisation_ns = stamp_quantisation_ns;
      floor_ns = add64 spread stamp_quantisation_ns;
    })

unfoldable pub spread_of_matching :
    List LifecycleEvent → (LifecycleEvent → Bool) → Option ObservationSpread
unfolding skews_of
spread_of_matching events keep =
    let skews = skews_of keep events in
    if ltb (length skews) minimum_spread_samples then none else summarise (sort_func ltb_ℤ skews)

unfoldable pub spread_of : List LifecycleEvent → Option ObservationSpread
spread_of events = spread_of_matching events (λ _. true)

-- A magnitude is resolved when it is above the floor, whatever its sign.
unfoldable pub resolves_against : ℤ → ℤ → Bool
resolves_against magnitude floor =
    ltb_ℤ floor (if ltb_ℤ magnitude (pos 0) then sub64 (pos 0) magnitude else magnitude)

unfoldable pub resolves : Option ObservationSpread → ℤ → Bool
unfolding resolves_against
resolves none magnitude = false
resolves (some s) magnitude = resolves_against magnitude s.floor_ns
