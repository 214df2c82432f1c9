-- ===== src/Tests/Arms.antt =====
-- The results on admission, the tenant's policy and routing at concrete values.
use mathlib.Core.List.{Permᴰ, Memᴰ}
use gpu_platform_control_pla.Base.{
  ℕ, ◌≡◌, ◌≢◌, refl, ap, ◌∙◌, sym, ◌↔◌, inl, inr, ◌⊎◌, true, List, [], ◌∷◌, none, some, arith, All,
}
use gpu_platform_control_pla.Base.Text.{Text, text, text_eq}
use gpu_platform_control_pla.Base.Maps.{Map, lookup, insert}
use gpu_platform_control_pla.Base.Int.{pos}
use gpu_platform_control_pla.Base.Float.{fin}
use gpu_platform_control_pla.Gateway.Types.{backend_key, standard, no_reason}
use gpu_platform_control_pla.Gateway.Scraper.{BackendScraper, new_backend_scraper}
use gpu_platform_control_pla.Gateway.Manager.{register, snapshot_for}
use gpu_platform_control_pla.Gateway.Admission.{
  Verdict, KvAwareAdmitter, StaticCapAdmitter, kv_admit, kv_aware, admit_candidates, register_all,
  ask_all, kv_decide, register_backend,
}
use gpu_platform_control_pla.Gateway.Admission.Candidates.{candidates_agree, admission_drops_reason}
use gpu_platform_control_pla.Gateway.Policy.{
  RateLimit, QuotaPolicy, policy_for_tenant, found, TrackedBucket, allow, older_policy, oldest_from,
}
use gpu_platform_control_pla.Gateway.Policy.Oldest.{NoneOlder, policy_is_oldest}
use gpu_platform_control_pla.Gateway.Policy.Budget.{
  Applies, Tracks, Continues, allow-Applies_policy,
}
use gpu_platform_control_pla.Gateway.Router.{InferenceDeployment, backends_for}
use gpu_platform_control_pla.Gateway.Router.Order.{NamesDiffer, routing_is_stable}
use gpu_platform_control_pla.Tests.Data.{
  head_backend, spare_backend, long_meta, kv_arm, buckets_lib, Bucket, spend,
}

candidates_agree_example :
    (v : Verdict) × (a' : KvAwareAdmitter) × (admit_candidates buckets_lib
        (kv_aware kv_arm)
        50
        long_meta
        (head_backend ∷ (spare_backend ∷ []))
        standard
      ≡ some (v, kv_aware a'))
    × ((v.admitted ≡ true)
        ↔ All
            (λ t. (kv_admit a' long_meta t standard).admitted ≡ true)
            (head_backend ∷ (spare_backend ∷ [])))
    × All
        (λ t. (s : BackendScraper) × (lookup (backend_key t) a'.manager.scrapers ≡ some s))
        (head_backend ∷ (spare_backend ∷ []))
candidates_agree_example =
    candidates_agree buckets_lib kv_arm 50 long_meta (head_backend ∷ (spare_backend ∷ [])) standard
      refl

abbrev verdict : Verdict
verdict =
    ask_all (register_all kv_arm (head_backend ∷ []) 50) long_meta (head_backend ∷ []) standard

verdict-admitted : verdict.admitted ≡ true
unfolding ask_all register_all register_backend register lookup insert text_eq backend_key kv_admit
    kv_decide snapshot_for new_backend_scraper
verdict-admitted = refl

admission_drops_reason_example : verdict.reason ≡ no_reason
admission_drops_reason_example =
    admission_drops_reason buckets_lib kv_arm 50 long_meta (head_backend ∷ []) standard
      {v = verdict} {b = kv_aware (register_all kv_arm (head_backend ∷ []) 50)}
      (unfold admit_candidates in refl) verdict-admitted

abbrev cap_arm : StaticCapAdmitter buckets_lib
cap_arm = record { rate = fin (pos 1); burst = pos 20; long_threshold = pos 8; limiters = [] }

abbrev first_policy : QuotaPolicy
first_policy = record {
  name = text "p";
  created = 3;
  annotations = [];
  tenant = text "t";
  target_namespace = text "a";
  rate_limit = none;
}

abbrev later_policy : QuotaPolicy
later_policy = record first_policy { name = text "q"; created = 4 }

abbrev listed : List QuotaPolicy
listed = later_policy ∷ (first_policy ∷ [])

first_of_listed : policy_for_tenant (some listed) (text "t") ≡ found first_policy
unfolding policy_for_tenant oldest_from older_policy text_eq
first_of_listed = refl

policy_is_oldest_example :
    Memᴰ first_policy listed
    × (first_policy.tenant ≡ text "t")
    × NoneOlder (text "t") first_policy listed
policy_is_oldest_example = policy_is_oldest listed (text "t") first_of_listed

first : Text → ℕ
first [] = 0
first (c ∷ cs) = c

apart : text "p" ≢ text "q"
unfolding first
apart h = let e : 112 ≡ 113 = ap first h in omega (arith, e)

of_two : {A : Type 0} {a x y : A} → Memᴰ a (x ∷ (y ∷ [])) → (a ≡ x) ⊎ (a ≡ y)
of_two (Memᴰ.head e) = inl e
of_two (Memᴰ.tail (Memᴰ.head e)) = inr e
of_two (Memᴰ.tail (Memᴰ.tail m)) = elim m [ ]

-- Of two items with different names, the name tells which one is meant.
two_apart :
    {A : Type 0} (name : A → Text) (x y : A)
    → name x ≢ name y
    → (a b : A) → Memᴰ a (x ∷ (y ∷ []))
    → Memᴰ b (x ∷ (y ∷ []))
    → name a ≡ name b
    → a ≡ b
two_apart name x y d a b m n h = elim (of_two m) [
  | inl e ↦ elim (of_two n) [
    | inl f ↦ e ∙ sym f
    | inr f ↦ absurd (d (sym (ap name e) ∙ (h ∙ ap name f)))
  ]
  | inr e ↦ elim (of_two n) [
    | inl f ↦ absurd (d (sym (ap name f) ∙ (sym h ∙ ap name e)))
    | inr f ↦ e ∙ sym f
  ]
]

abbrev tracked : Map (TrackedBucket buckets_lib)
tracked = []

tracked-Tracks : Tracks buckets_lib tracked
unfolding lookup
tracked-Tracks k tb h = absurd (cc)

abbrev two_a_minute : RateLimit
two_a_minute = record { requests_per_minute = 2; burst = 1 }

allow-Applies_policy_example :
    (l : Bucket) × (m' : Map (TrackedBucket buckets_lib)) × Applies buckets_lib 2 1 l
    × Continues buckets_lib tracked (text "t") two_a_minute l
    × (allow buckets_lib (some tracked) (text "t") (some two_a_minute) 50
        ≡ ((spend 50 1 l).0, some m'))
    × ((tb : TrackedBucket buckets_lib) × (lookup (text "t") m' ≡ some tb)
        × (tb.limiter ≡ (spend 50 1 l).1))
    × Tracks buckets_lib m'
    × ((k : Text) → text "t" ≢ k → lookup k m' ≡ lookup k tracked)
allow-Applies_policy_example =
    allow-Applies_policy buckets_lib tracked (text "t") two_a_minute 50 tracked-Tracks

abbrev old_deployment : InferenceDeployment
old_deployment = record {
  namespace = text "a";
  name = text "q";
  created = 3;
  port = 0;
  model_name = text "m";
}

abbrev new_deployment : InferenceDeployment
new_deployment = record {
  namespace = text "a";
  name = text "p";
  created = 4;
  port = 9;
  model_name = text "m";
}

abbrev deployments : List InferenceDeployment
deployments = new_deployment ∷ (old_deployment ∷ [])

deployments-NamesDiffer : NamesDiffer deployments
deployments-NamesDiffer = two_apart (λ d. d.name) new_deployment old_deployment apart

routing_is_stable_example :
    backends_for (some deployments) (text "m")
    ≡ backends_for (some (old_deployment ∷ (new_deployment ∷ []))) (text "m")
routing_is_stable_example =
    routing_is_stable deployments (old_deployment ∷ (new_deployment ∷ [])) (text "m")
      (Permᴰ.swap refl refl) deployments-NamesDiffer
