-- ===== src/Gateway/Policy/Budget.antt =====
-- The limiter that a request is charged to always carries the tenant's current policy.
use gpu_platform_control_pla.Base.{
  ℕ, ◌≡◌, ◌≢◌, refl, sym, ◌∙◌, ap, subst, inl, inr, not, ◌||◌, none, some, arith, Bool-cases,
  Option-cases, ◌==◌,
}
use gpu_platform_control_pla.Base.Text.{Text, text_eq, text_eq_iff, text_eq_refl}
use gpu_platform_control_pla.Base.Maps.{Map, lookup, insert, lookup-insert}
use gpu_platform_control_pla.Base.Int.{pos}
use gpu_platform_control_pla.Base.Float.{div_whole}
use gpu_platform_control_pla.Base.Clock.{Time}
use gpu_platform_control_pla.Gateway.Limiter.{LimiterLib}
use gpu_platform_control_pla.Gateway.Policy.{RateLimit, TrackedBucket, bucket_for, allow}

module _ (lib : LimiterLib) where
  open lib use {
    Limiter, allow_n, limit_of, burst_of, limit_of-new, burst_of-new, limit_of-set_limit,
    burst_of-set_limit, limit_of-set_burst, burst_of-set_burst, limit_of-allow_n, burst_of-allow_n,
    set_limit, set_burst, new_limiter,
  }

  -- A limiter that applies a policy: its requests per minute as a rate per second, and its burst.
  abbrev pub Applies : ℕ → ℕ → Limiter → Type 0
  Applies rpm burst l = (limit_of l ≡ div_whole rpm 60) × (burst_of l ≡ pos burst)

  -- Each bucket applies the policy values recorded beside it.
  abbrev pub Tracks : Map (TrackedBucket lib) → Type 0
  Tracks m =
      (k : Text) (tb : TrackedBucket lib)
      → lookup k m ≡ some tb
      → Applies tb.rpm tb.burst tb.limiter

  -- Where the limiter that decides comes from: a new one for a tenant that has none, else the one of
  -- the tenant's bucket, as it is or with its rate and burst set, its tokens kept.
  pub data Continues (m : Map (TrackedBucket lib)) (tenant : Text) (rl : RateLimit) (l : Limiter)
      : Type 0 where
    started :
        lookup tenant m ≡ none
        → l ≡ new_limiter (div_whole rl.requests_per_minute 60) (pos rl.burst)
        → Continues m tenant rl l
    kept :
        (tb : TrackedBucket lib)
        → lookup tenant m ≡ some tb
        → tb.rpm ≡ rl.requests_per_minute
        → tb.burst ≡ rl.burst
        → l ≡ tb.limiter
        → Continues m tenant rl l
    adjusted :
        (tb : TrackedBucket lib)
        → lookup tenant m ≡ some tb
        → l ≡ set_burst (pos rl.burst) (set_limit (div_whole rl.requests_per_minute 60) tb.limiter)
        → Continues m tenant rl l

  bucket_for-Continues :
      (m : Map (TrackedBucket lib)) (tenant : Text) (rl : RateLimit)
      → Continues m tenant rl (bucket_for lib m tenant rl).limiter
  unfolding bucket_for
  bucket_for-Continues m tenant rl = elim (Option-cases (lookup tenant m)) [
    | inl e ↦ started e (rw (e, bucket_for) refl)
    | inr (tb, e) ↦
        elim (Bool-cases (not (tb.rpm == rl.requests_per_minute) || not (tb.burst == rl.burst))) [
          | inl c ↦ adjusted tb e (rw (e, bucket_for) (rw c refl))
          | inr c ↦ kept tb e (ground arith) (ground arith) (rw (e, bucket_for) (rw c refl))
        ]
  ]

  bucket_for-Applies :
      (m : Map (TrackedBucket lib)) (tenant : Text) (rl : RateLimit)
      → Tracks m
      → let tb = bucket_for lib m tenant rl in
        Applies rl.requests_per_minute rl.burst tb.limiter
        × (tb.rpm ≡ rl.requests_per_minute)
        × (tb.burst ≡ rl.burst)
  unfolding bucket_for
  bucket_for-Applies m tenant rl v = elim (Option-cases (lookup tenant m)) [
    | inl e ↦
        rw (e, bucket_for)
          (
            (
              limit_of-new (div_whole rl.requests_per_minute 60) (pos rl.burst),
              burst_of-new (div_whole rl.requests_per_minute 60) (pos rl.burst),
            ),
            refl,
            refl,
          )
    | inr (tb, e) ↦
        let changed = not (tb.rpm == rl.requests_per_minute) || not (tb.burst == rl.burst) in
        let limit = div_whole rl.requests_per_minute 60 in
        elim (Bool-cases changed) [
          | inl c ↦
              rw (e, bucket_for)
                (rw c (
                  (
                    limit_of-set_burst (pos rl.burst) (set_limit limit tb.limiter)
                        ∙ limit_of-set_limit limit tb.limiter,
                    burst_of-set_burst (pos rl.burst) (set_limit limit tb.limiter),
                  ),
                  refl,
                  refl,
                ))
          | inr c ↦
              let same_rpm : tb.rpm ≡ rl.requests_per_minute = ground arith in
              let same_burst : tb.burst ≡ rl.burst = ground arith in
              rw (e, bucket_for)
                (rw c (
                  subst (λ n. Applies n rl.burst tb.limiter) same_rpm
                      (subst (λ n. Applies tb.rpm n tb.limiter) same_burst (v tenant tb e)),
                  same_rpm,
                  same_burst,
                ))
        ]
  ]

  put-Tracks :
      (m : Map (TrackedBucket lib)) (tenant : Text) (tb : TrackedBucket lib)
      → Applies tb.rpm tb.burst tb.limiter
      → Tracks m
      → Tracks (insert tenant tb m)
  put-Tracks m tenant tb a v k t h = elim (Bool-cases (text_eq tenant k)) [
    | inl e ↦
        let s : tb ≡ t = ground (arith, lookup-insert tenant k tb m) in
        subst (λ (b : TrackedBucket lib). Applies b.rpm b.burst b.limiter) s a
    | inr e ↦ v k t (ground (arith, lookup-insert tenant k tb m))
  ]

  -- Where each bucket applies the values recorded beside it, Allow decides by the limiter of the
  -- tenant's own bucket, or by a new one for a tenant that has no bucket. That limiter applies the
  -- policy that Allow is given; an edited policy sets the bucket's rate and burst and builds no new
  -- limiter. Allow stores the limiter, charged, in the tenant's bucket, and leaves every bucket
  -- applying the values recorded beside it and the buckets of other tenants as they were.
  pub allow-Applies_policy :
      (m : Map (TrackedBucket lib)) (tenant : Text) (rl : RateLimit) (now : Time)
      → Tracks m
      → (l : Limiter) × (m' : Map (TrackedBucket lib)) × Applies rl.requests_per_minute rl.burst l
        × Continues m tenant rl l
        × (allow lib (some m) tenant (some rl) now ≡ ((allow_n now 1 l).0, some m'))
        × ((tb : TrackedBucket lib) × (lookup tenant m' ≡ some tb)
            × (tb.limiter ≡ (allow_n now 1 l).1))
        × Tracks m'
        × ((k : Text) → tenant ≢ k → lookup k m' ≡ lookup k m)
  allow-Applies_policy m tenant rl now v =
      let tb = bucket_for lib m tenant rl in
      let (ap1, same_rpm, same_burst) = bucket_for-Applies m tenant rl v in
      let after = (allow_n now 1 tb.limiter).1 in
      (
        tb.limiter,
        insert tenant (record tb { limiter = after }) m,
        ap1,
        bucket_for-Continues m tenant rl,
        unfold allow in refl,
        (
          record tb { limiter = after },
          ground (
            arith,
            lookup-insert tenant tenant (record tb { limiter = after }) m,
            text_eq_refl tenant,
          ),
          refl,
        ),
        put-Tracks m tenant (record tb { limiter = after })
            (
              limit_of-allow_n now 1 tb.limiter ∙ ap1.0 ∙ ap (λ n. div_whole n 60) (sym same_rpm),
              burst_of-allow_n now 1 tb.limiter ∙ ap1.1 ∙ ap pos (sym same_burst),
            )
            v,
        (λ k other.
            lookup-insert tenant k (record tb { limiter = after }) m
            ∙ ground (arith, text_eq_iff tenant k)),
      )
