-- ===== src/Gateway/Exposition/Range.antt =====
-- What an accepted scrape says: the usage is the largest of finite values and lies in [0, 1].
use gpu_platform_control_pla.Base.{
  ◌≡◌, refl, true, ◌⊎◌, inl, inr, List, [], ◌∷◌, Option, none, some, if◌then◌else◌, arith, All,
  Option-cases, ap, subst, map, sym,
}
use gpu_platform_control_pla.Base.Text.{Text}
use gpu_platform_control_pla.Base.Maps.{Map, lookup}
use gpu_platform_control_pla.Base.Int.{ℤ, pos, ◌≤ℤ◌}
use gpu_platform_control_pla.Base.Float.{Float, fin, nan, inf, ltb_f, is_finite, one, unit}
use gpu_platform_control_pla.Base.Results.{ok, err, >>=-ok}
use gpu_platform_control_pla.Gateway.Exposition.{
  MetricFamily, in_unit_range, missing_usage, series_values, gauge_values, present, metric_usage_v1,
  metric_usage_v0, max_of, checked_max, usage_of, parse_usage,
}

-- A finite value at most `m`, in units.
abbrev pub AtMost : ℤ → Float → Type 0
AtMost m v = (z : ℤ) × (v ≡ fin z) × (z ≤ℤ m)

-- Every series of a family has a gauge value of at most `m`.
abbrev pub SeriesAtMost : ℤ → List (Option Float) → Type 0
SeriesAtMost m = All (λ o. (v : Float) × (o ≡ some v) × AtMost m v)

larger : (a b z : ℤ) → (if ltb_f (fin a) (fin b) then b else a) ≤ℤ z → (a ≤ℤ z) × (b ≤ℤ z)
larger a b z h = ground arith

larger_fin :
    (a b : ℤ)
    → (if ltb_f (fin a) (fin b) then fin b else fin a)
      ≡ fin (if ltb_f (fin a) (fin b) then b else a)
larger_fin a b = ground arith

max_of_keeps :
    (a : ℤ) (vs : List Float)
    → All (λ v. is_finite v ≡ true) vs
    → (z : ℤ) × (max_of (fin a) vs ≡ fin z) × (a ≤ℤ z) × All (AtMost z) vs
unfolding max_of
max_of_keeps a [] f = (a, refl, omega arith, tt)
max_of_keeps a (nan ∷ vs) f = absurd (cc)
max_of_keeps a (inf s ∷ vs) f = absurd (cc)
max_of_keeps a (fin b ∷ vs) f =
    let (z, e, le, rest) = max_of_keeps (if ltb_f (fin a) (fin b) then b else a) vs f.1 in
    let (below_a, below_b) = larger a b z le in
    (z, rw (larger_fin a b) e, below_a, ((b, refl, below_b), rest))

-- A family that is read without an error has a finite gauge value in every series.
series_values_finite :
    (name : Text) (ms : List (Option Float)) (vs : List Float)
    → series_values name ms ≡ ok vs
    → All (λ v. is_finite v ≡ true) vs × (ms ≡ map some vs)
unfolding series_values
series_values_finite name [] vs h = let e : vs ≡ [] = ground arith in rw e (tt, refl)
series_values_finite name (none ∷ ms) vs h = absurd (cc)
series_values_finite name (some nan ∷ ms) vs h = absurd (cc)
series_values_finite name (some (inf s) ∷ ms) vs h = absurd (cc)
series_values_finite name (some (fin z) ∷ ms) vs h =
    let (ws, e, r) = >>=-ok (λ ws. ok (fin z ∷ ws)) (series_values name ms) _ h in
    let (finite, same) = series_values_finite name ms ws e in
    let vs_eq : vs ≡ fin z ∷ ws = cc in rw vs_eq ((refl, finite), ap (λ l. some (fin z) ∷ l) same)

series_of_values : (m : ℤ) (vs : List Float) → All (AtMost m) vs → SeriesAtMost m (map some vs)
series_of_values m [] h = tt
series_of_values m (v ∷ vs) h = ((v, refl, h.0), series_of_values m vs h.1)

in_unit_range_bounds :
    (name : Text) (z : ℤ) {u : Float}
    → in_unit_range name (fin z) ≡ ok u
    → (u ≡ fin z) × (pos 0 ≤ℤ z) × (z ≤ℤ pos unit)
unfolding in_unit_range one
in_unit_range_bounds name z h = ground arith

checked_max_bounds :
    (name : Text) (vs : List Float) {u : Float}
    → All (λ v. is_finite v ≡ true) vs
    → checked_max name vs ≡ ok u
    → (z : ℤ) × (u ≡ fin z) × (pos 0 ≤ℤ z) × (z ≤ℤ pos unit) × All (AtMost z) vs
checked_max_bounds name [] f h = absurd (unfold checked_max in cc)
checked_max_bounds name (nan ∷ vs) f h = absurd (cc)
checked_max_bounds name (inf s ∷ vs) f h = absurd (cc)
checked_max_bounds name (fin a ∷ vs) {u} f h =
    let (z, e, le, rest) = max_of_keeps a vs f.1 in
    let opened : in_unit_range name (max_of (fin a) vs) ≡ ok u = unfold checked_max in h in
    let (is, low, high) = in_unit_range_bounds name z (rw e at opened) in
    (z, is, low, high, ((a, refl, le), rest))

-- The family that is read: the current name's, or the old name's where that has no series.
abbrev pub Chosen : Map MetricFamily → MetricFamily → Type 0
Chosen mfs mf =
    (present (lookup metric_usage_v1 mfs) ≡ some mf)
    ⊎ ((present (lookup metric_usage_v1 mfs) ≡ none)
        × (present (lookup metric_usage_v0 mfs) ≡ some mf))

usage_of_bounds :
    (mf : MetricFamily) (name : Text) {u : Float}
    → usage_of mf name ≡ ok u
    → (z : ℤ) × (u ≡ fin z) × (pos 0 ≤ℤ z) × (z ≤ℤ pos unit) × SeriesAtMost z mf.metrics
unfolding usage_of
usage_of_bounds mf name {u} h =
    let (vs, e, c) = >>=-ok (checked_max name) (gauge_values mf name) u h in
    let read : series_values name mf.metrics ≡ ok vs = unfold gauge_values in ground arith in
    let (finite, same) = series_values_finite name mf.metrics vs read in
    let (z, is, low, high, all) = checked_max_bounds name vs finite c in
    (z, is, low, high, subst (SeriesAtMost z) (sym same) (series_of_values z vs all))

-- An accepted usage lies in [0, 1] and bounds every series of the family that the parser chose,
-- each of which has a finite gauge value.
parse_usage_bounds :
    (mfs : Map MetricFamily) {u : Float}
    → parse_usage mfs ≡ ok u
    → (mf : MetricFamily) × Chosen mfs mf
      × (z : ℤ) × (u ≡ fin z)
      × (pos 0 ≤ℤ z)
      × (z ≤ℤ pos unit)
      × SeriesAtMost z mf.metrics
unfolding parse_usage
parse_usage_bounds mfs {u} h = elim (Option-cases (present (lookup metric_usage_v1 mfs))) [
  | inr (mf, e) ↦
      let r = usage_of_bounds mf metric_usage_v1 (rw (e, parse_usage) at h) in
      (mf, inl e, r.0, r.1, r.2, r.3, r.4)
  | inl e ↦ elim (Option-cases (present (lookup metric_usage_v0 mfs))) [
    | inr (mf, e') ↦
        let r = usage_of_bounds mf metric_usage_v0 (rw (e, e', parse_usage) at h) in
        (mf, inr (e, e'), r.0, r.1, r.2, r.3, r.4)
    | inl e' ↦ let bad : err missing_usage ≡ ok u = rw (e, e', parse_usage) at h in absurd (cc)
  ]
]
