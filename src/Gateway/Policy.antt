-- ===== src/Gateway/Policy.antt =====
-- The tenant's policy and its request budget (internal/gateway/ratelimit.go).
pub mod Oldest
pub mod Budget
use gpu_platform_control_pla.Base.{
  ℕ, ◌+◌, ◌-◌, ◌≡◌, Bool, true, false, not, ◌&&◌, ◌||◌, List, [], ◌∷◌, ◌++◌, Option, none, some,
  ltb, leb, ◌==◌, if◌then◌else◌,
}
use gpu_platform_control_pla.Base.Text.{Text, text, text_eq, text_lt}
use gpu_platform_control_pla.Base.Maps.{Map, lookup, insert}
use gpu_platform_control_pla.Base.Int.{ℤ, pos}
use gpu_platform_control_pla.Base.Float.{Float, div_whole}
use gpu_platform_control_pla.Base.Clock.{Time}
use gpu_platform_control_pla.Gateway.Limiter.{LimiterLib}

-- requestsPerMinute and burst are at least 1 by the resource's schema.
pub record RateLimit : Type 0 where
  pub requests_per_minute : ℕ
  pub burst : ℕ

pub record QuotaPolicy : Type 0 where
  pub name : Text
  pub created : Time
  pub annotations : Map Text
  pub tenant : Text
  pub target_namespace : Text
  pub rate_limit : Option RateLimit

-- The earlier creation time wins, and on a tie the smaller name.
unfoldable pub older_policy : QuotaPolicy → QuotaPolicy → Bool
older_policy a b = if a.created == b.created then text_lt a.name b.name else ltb a.created b.created

-- The loop of policyForTenant over the listed policies.
unfoldable pub oldest_from : Text → Option QuotaPolicy → List QuotaPolicy → Option QuotaPolicy
oldest_from tenant oldest [] = oldest
oldest_from tenant oldest (p ∷ ps) =
    oldest_from tenant
      (if not (text_eq p.tenant tenant)
        then oldest
        else elim oldest [ none ↦ some p | some o ↦ if older_policy p o then some p else some o ])
      ps

pub data PolicyError : Type 0 where
  list_failed no_policy : PolicyError

pub data PolicyResult : Type 0 where
  found : QuotaPolicy → PolicyResult
  failed : PolicyError → PolicyResult

-- `none` is a list call that failed.
unfoldable pub policy_for_tenant : Option (List QuotaPolicy) → Text → PolicyResult
unfolding oldest_from
policy_for_tenant none tenant = failed list_failed
policy_for_tenant (some items) tenant = elim (oldest_from tenant none items) [
  | none ↦ failed no_policy
  | some p ↦ found p
]

module _ (lib : LimiterLib) where
  open lib use {Limiter, new_limiter, set_limit, set_burst, allow_n}

  pub record TrackedBucket : Type 0 where
    pub limiter : Limiter
    pub rpm : ℕ
    pub burst : ℕ

  -- `none` is a registry that was never installed.
  abbrev pub BucketRegistry : Type 0
  BucketRegistry = Option (Map TrackedBucket)

  unfoldable pub configured : BucketRegistry → Bool
  configured none = false
  configured (some b) = true

  -- The bucket that Allow consults: a new one, an updated one, or the one there.
  unfoldable pub bucket_for : Map TrackedBucket → Text → RateLimit → TrackedBucket
  bucket_for buckets tenant rl =
      let limit = div_whole rl.requests_per_minute 60 in
      elim (lookup tenant buckets) [
        | none ↦ record {
          limiter = new_limiter limit (pos rl.burst);
          rpm = rl.requests_per_minute;
          burst = rl.burst;
        }
        | some tb ↦
            if not (tb.rpm == rl.requests_per_minute) || not (tb.burst == rl.burst)
            then record {
              limiter = set_burst (pos rl.burst) (set_limit limit tb.limiter);
              rpm = rl.requests_per_minute;
              burst = rl.burst;
            }
            else tb
      ]

  unfoldable pub allow : BucketRegistry → Text → Option RateLimit → Time → Bool × BucketRegistry
  unfolding bucket_for
  allow none tenant rl now = (false, none)
  allow (some buckets) tenant none now = (true, some buckets)
  allow (some buckets) tenant (some rl) now =
      let tb = bucket_for buckets tenant rl in
      let (answer, l) = allow_n now 1 tb.limiter in
      (answer, some (insert tenant (record tb { limiter = l }) buckets))
