-- ===== src/Gateway/Exposition.antt =====
-- The exposition parser of internal/gateway/kvguard.go: one scrape's text to a pressure sample.
-- The Prometheus text parser is not part of the repository: its result, a map of metric families,
-- is what the functions here start from.
pub mod Range
use gpu_platform_control_pla.Base.{
  ◌≡◌, ℕ, Bool, true, false, not, ◌||◌, List, [], ◌∷◌, Option, none, some, if◌then◌else◌,
}
use gpu_platform_control_pla.Base.Text.{Text, text}
use gpu_platform_control_pla.Base.Maps.{Map, lookup}
use gpu_platform_control_pla.Base.Int.{ℤ}
use gpu_platform_control_pla.Base.Float.{
  Float, ltb_f, is_finite, one, zero_f, add_nonneg, round_to_int,
}
use gpu_platform_control_pla.Base.Results.{Result, ok, err, ◌>>=◌}

-- A family as the parser gives it: whether it is a gauge, and for each series its gauge value,
-- where it has one.
pub record MetricFamily : Type 0 where
  pub is_gauge : Bool
  pub metrics : List (Option Float)

pub data ScrapeError : Type 0 where
  parse_failed missing_usage missing_waiting : ScrapeError
  not_a_gauge no_gauge_value not_finite : Text → ScrapeError
  out_of_range : Text → Float → ScrapeError
  negative_waiting : Float → ScrapeError
  build_failed transport_failed : ScrapeError
  unexpected_status : ℕ → ScrapeError

pub record KvSample : Type 0 where
  pub cache_usage : Float
  pub waiting : ℤ

unfoldable pub metric_usage_v1 : Text
metric_usage_v1 = text "vllm:kv_cache_usage_perc"

unfoldable pub metric_usage_v0 : Text
metric_usage_v0 = text "vllm:gpu_cache_usage_perc"

unfoldable pub metric_waiting : Text
metric_waiting = text "vllm:num_requests_waiting"

-- The loop of gaugeValues over the series of one family.
unfoldable pub series_values : Text → List (Option Float) → Result ScrapeError (List Float)
series_values name [] = ok []
series_values name (none ∷ ms) = err (no_gauge_value name)
series_values name (some v ∷ ms) =
    let rest = series_values name ms in
    if not (is_finite v) then err (not_finite name) else rest >>= (λ vs. ok (v ∷ vs))

unfoldable pub gauge_values : MetricFamily → Text → Result ScrapeError (List Float)
unfolding series_values
gauge_values mf name =
    if not mf.is_gauge then err (not_a_gauge name) else series_values name mf.metrics

-- A family that is there and has a series.
abbrev pub present : Option MetricFamily → Option MetricFamily
present none = none
present (some mf) = elim mf.metrics [ [] ↦ none | m ∷ ms ↦ some mf ]

unfoldable pub max_of : Float → List Float → Float
max_of m [] = m
max_of m (v ∷ vs) = max_of (if ltb_f m v then v else m) vs

-- The largest value, refused outside [0, 1].
unfoldable pub in_unit_range : Text → Float → Result ScrapeError Float
in_unit_range name m = if ltb_f m zero_f || ltb_f one m then err (out_of_range name m) else ok m

unfoldable pub checked_max : Text → List Float → Result ScrapeError Float
unfolding max_of in_unit_range
checked_max name [] = err missing_usage  -- values[0] of a family without series: ruled out before
checked_max name (v ∷ vs) = in_unit_range name (max_of v vs)

unfoldable pub usage_of : MetricFamily → Text → Result ScrapeError Float
unfolding gauge_values checked_max
usage_of mf name = gauge_values mf name >>= checked_max name

unfoldable pub parse_usage : Map MetricFamily → Result ScrapeError Float
unfolding usage_of
parse_usage mfs = elim (present (lookup metric_usage_v1 mfs)) [
  | some mf ↦ usage_of mf metric_usage_v1
  | none ↦ elim (present (lookup metric_usage_v0 mfs)) [
    | some mf ↦ usage_of mf metric_usage_v0
    | none ↦ err missing_usage
  ]
]

unfoldable pub sum_waiting : Float → List Float → Result ScrapeError Float
sum_waiting acc [] = ok acc
sum_waiting acc (v ∷ vs) =
    let rest = sum_waiting (add_nonneg acc v) vs in
    if ltb_f v zero_f then err (negative_waiting v) else rest

-- `wild` is what the machine gives for an int conversion that no int can hold.
unfoldable pub parse_waiting : ℤ → Map MetricFamily → Result ScrapeError ℤ
unfolding gauge_values sum_waiting
parse_waiting wild mfs = elim (present (lookup metric_waiting mfs)) [
  | none ↦ err missing_waiting
  | some mf ↦ do
    values ← gauge_values mf metric_waiting
    total ← sum_waiting zero_f values
    ok (round_to_int wild total)
]

-- `families` is what the text parser made of the body, `none` where it failed.
unfoldable pub parse_kv_metrics : ℤ → Option (Map MetricFamily) → Result ScrapeError KvSample
unfolding parse_usage parse_waiting
parse_kv_metrics wild none = err parse_failed
parse_kv_metrics wild (some mfs) = do
  usage ← parse_usage mfs
  waiting ← parse_waiting wild mfs
  ok (record { cache_usage = usage; waiting = waiting })
