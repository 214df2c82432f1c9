-- ===== src/QueueLab/Spread/Floor.antt =====
-- What the floor of a spread bounds.
use mathlib.Core.List.{Memᴰ, Permᴰ}
use mathlib.Core.List.Permᴰ
use gpu_platform_control_pla.Base.{
  ℕ, suc, ◌+◌, ◌<◌, ◌≤◌, Bool, true, some, List, [], ◌∷◌, ◌≡◌, refl, sym, ◌∙◌, ap, ◌⊎◌, inl, inr,
  arith, All, All-imp, Bool-cases, length, ltb, none,
}
use gpu_platform_control_pla.Base.Int.{ℤ, pos, negsuc, pos_part, neg_part, ltb_ℤ, ◌≤ℤ◌}
use gpu_platform_control_pla.Base.Arith.{sub64, add64}
use gpu_platform_control_pla.Base.Clock.{max_duration}
use gpu_platform_control_pla.Base.Sort.{
  sort_func, IsStrict, IsSorted, sort_func-IsSorted, All-sort_func, All-mem, All-perm,
  perm-sort_func,
}
use gpu_platform_control_pla.QueueLab.Events.{LifecycleEvent}
use gpu_platform_control_pla.QueueLab.Spread.{
  ObservationSpread, skews_of, last_skew, summarise, spread_of_matching, resolves, resolves_against,
  stamp_quantisation_ns,
}

-- Two skews of this size differ by less than an int64 holds, a second included.
abbrev pub skew_limit : ℕ
skew_limit = 4000000000000000000

abbrev pub IsSmall : ℤ → Type 0
IsSmall s = pos_part s + neg_part s ≤ skew_limit

int_order : IsStrict ltb_ℤ (λ s. Unit {0})
int_order = record {
  irreflexive = λ a. ground arith;
  transitive = λ a b c h k. ground arith;
  decides = λ a b p q. int_trichotomy a b;
}
  where
    int_trichotomy : (a b : ℤ) → (ltb_ℤ a b ≡ true) ⊎ ((ltb_ℤ b a ≡ true) ⊎ (a ≡ b))
    int_trichotomy (pos a) (pos b) = ground arith
    int_trichotomy (pos a) (negsuc b) = ground arith
    int_trichotomy (negsuc a) (pos b) = ground arith
    int_trichotomy (negsuc a) (negsuc b) = ground arith

-- The last of a sorted list is the largest.
last_skew-ge :
    (s : ℤ) (ss : List ℤ) → IsSorted ltb_ℤ (s ∷ ss) → All (λ u. u ≤ℤ last_skew s ss) (s ∷ ss)
unfolding last_skew
last_skew-ge s [] h = (omega arith, tt)
last_skew-ge s (u ∷ us) h =
    let rest = last_skew-ge u us h.1 in
    let top = rest.0 in let below = h.0.0 in (ground arith, rest)

last_skew-All : (P : ℤ → Type 0) (s : ℤ) (ss : List ℤ) → All P (s ∷ ss) → P (last_skew s ss)
unfolding last_skew
last_skew-All P s [] h = h.0
last_skew-All P s (u ∷ us) h = last_skew-All P u us h.1

floor_lem :
    (high low : ℤ)
    → IsSmall high
    → IsSmall low
    → low ≤ℤ high
    → pos_part high + neg_part low + 1000000000
      ≡ neg_part high + pos_part low + pos_part (add64 (sub64 high low) stamp_quantisation_ns)
unfolding add64 sub64
floor_lem (pos a) (pos b) h k l = ground arith
floor_lem (pos a) (negsuc b) h k l = ground arith
floor_lem (negsuc a) (pos b) h k l = absurd (omega arith)
floor_lem (negsuc a) (negsuc b) h k l = ground arith

-- The gap from one skew to another and a second are within the floor.
abbrev Gap : ℤ → ℤ → ObservationSpread → Type 0
Gap s u sp = pos_part s + neg_part u + 1000000000 ≤ neg_part s + pos_part u + pos_part sp.floor_ns

-- The floor of a summary is at least the gap of any two skews and a second.
summarise-floor :
    (skews : List ℤ) (sp : ObservationSpread)
    → IsSorted ltb_ℤ skews
    → All IsSmall skews
    → summarise skews ≡ some sp
    → All (λ s. All (λ u. Gap s u sp) skews) skews
unfolding summarise
summarise-floor [] sp sorted small made = absurd (cc)
summarise-floor (low ∷ ss) sp sorted small made =
    let high = last_skew low ss in
    let tops = last_skew-ge low ss sorted in
    let floor_is : sp.floor_ns ≡ add64 (sub64 high low) stamp_quantisation_ns = ground arith in
    let floor_part = ap pos_part floor_is in
    let wide = floor_lem high low (last_skew-All IsSmall low ss small) small.0 tops.0 in
    let bottoms : All (λ u. low ≤ℤ u) (low ∷ ss) =
      (omega arith, All-imp _ (λ u. low ≤ℤ u) ss (λ u h. ground arith) sorted.0) in
    All-imp _ _ (low ∷ ss) (λ s top. All-imp _ _ (low ∷ ss) (λ u bottom. omega arith) bottoms) tops

resolves_against-lt :
    (d floor : ℤ)
    → pos_part d + neg_part d ≤ suc max_duration
    → 0 < pos_part floor
    → resolves_against d floor ≡ true
    → pos_part floor < pos_part d + neg_part d
unfolding resolves_against sub64
resolves_against-lt (pos n) (pos f) fits some_floor h = ground arith
resolves_against-lt (pos n) (negsuc f) fits some_floor h = absurd (omega arith)
resolves_against-lt (negsuc n) (pos f) fits some_floor h = ground arith
resolves_against-lt (negsuc n) (negsuc f) fits some_floor h = absurd (omega arith)

perm-sym : (before : ℤ → ℤ → Bool) (skews : List ℤ) → Permᴰ (sort_func before skews) skews
perm-sym before skews = Permᴰ.symm (perm-sort_func before skews)

sorted_floor :
    (skews : List ℤ) (sp : ObservationSpread) (s u : ℤ)
    → All IsSmall skews
    → summarise (sort_func ltb_ℤ skews) ≡ some sp
    → Memᴰ s skews
    → Memᴰ u skews
    → pos_part s + neg_part u + 1000000000 ≤ neg_part s + pos_part u + pos_part sp.floor_ns
sorted_floor skews sp s u small made here there =
    let sorted = sort_func ltb_ℤ skews in
    let pairs =
      summarise-floor sorted sp (sort_func-IsSorted int_order skews)
        (All-sort_func IsSmall ltb_ℤ skews small) made in
    All-mem (λ w. Gap s w sp) there
      (All-perm (λ w. Gap s w sp) (perm-sym ltb_ℤ skews)
        (All-mem (λ v. All (λ w. Gap v w sp) sorted) here
          (All-perm (λ v. All (λ w. Gap v w sp) sorted) (perm-sym ltb_ℤ skews) pairs)))

-- What a run resolves is more than its instrument's error: a magnitude that the spread of the
-- selected events resolves is larger, its sign taken off, than the gap between the skews of any two
-- of those events and a second more. The skews are within 4 * 10^18 nanoseconds, and the magnitude
-- is an int64.
pub resolved_exceeds_error :
    (events : List LifecycleEvent) (keep : LifecycleEvent → Bool) (sp : ObservationSpread)
    (d s u : ℤ)
    → All IsSmall (skews_of keep events)
    → spread_of_matching events keep ≡ some sp
    → pos_part d + neg_part d ≤ suc max_duration
    → resolves (some sp) d ≡ true
    → Memᴰ s (skews_of keep events)
    → Memᴰ u (skews_of keep events)
    → pos_part s + neg_part u + 1000000000 < neg_part s + pos_part u + (pos_part d + neg_part d)
unfolding spread_of_matching resolves
resolved_exceeds_error events keep sp d s u small made fits seen here there =
    elim (Bool-cases (ltb (length (skews_of keep events)) 2)) [
      | inl few ↦ let bad : none ≡ some sp = sym (rw few refl) ∙ made in absurd (cc)
      | inr enough ↦
          let summed : summarise (sort_func ltb_ℤ (skews_of keep events)) ≡ some sp =
            sym (rw enough refl) ∙ made in
          let gap = sorted_floor (skews_of keep events) sp s u small summed here there in
          let self = sorted_floor (skews_of keep events) sp s s small summed here here in
          let more = resolves_against-lt d sp.floor_ns fits (omega arith) seen in omega arith
    ]
