-- ===== src/Gateway/Policy/Oldest.antt =====
-- Which of several policies governs a tenant.
use mathlib.Core.List.{Permᴰ, Memᴰ}
use gpu_platform_control_pla.Base.{
  ◌≡◌, ◌∙◌, ap, ◌⊎◌, inl, inr, true, false, List, [], ◌∷◌, none, some, arith, All, Bool-cases,
}
use gpu_platform_control_pla.Base.Text.{
  Text, text_eq, text_eq_iff, text_lt_irrefl, text_lt_trans, text_lt_total,
}
use gpu_platform_control_pla.Base.Sort.{All-mem, All-perm}
use gpu_platform_control_pla.Gateway.Policy.{
  QuotaPolicy, older_policy, oldest_from, policy_for_tenant, found,
}

older_irrefl : (a : QuotaPolicy) → older_policy a a ≡ false
unfolding older_policy
older_irrefl a = ground (arith, text_lt_irrefl a.name)

older_trans :
    (a b c : QuotaPolicy)
    → older_policy a b ≡ true
    → older_policy b c ≡ true
    → older_policy a c ≡ true
unfolding older_policy
older_trans a b c h k = ground (arith, text_lt_trans a.name b.name c.name)

older_total :
    (a b : QuotaPolicy)
    → (older_policy a b ≡ true) ⊎ ((older_policy b a ≡ true) ⊎ (a.name ≡ b.name))
unfolding older_policy
older_total a b = ground (arith, text_lt_total a.name b.name)

mem-perm : {a : QuotaPolicy} {xs ys : List QuotaPolicy} → Permᴰ xs ys → Memᴰ a xs → Memᴰ a ys
mem-perm Permᴰ.nil m = m
mem-perm (Permᴰ.cons e p) (Memᴰ.head h) = Memᴰ.head (h ∙ e)
mem-perm (Permᴰ.cons e p) (Memᴰ.tail m) = Memᴰ.tail (mem-perm p m)
mem-perm (Permᴰ.swap e f) (Memᴰ.head h) = Memᴰ.tail (Memᴰ.head (h ∙ e))
mem-perm (Permᴰ.swap e f) (Memᴰ.tail (Memᴰ.head h)) = Memᴰ.head (h ∙ f)
mem-perm (Permᴰ.swap e f) (Memᴰ.tail (Memᴰ.tail m)) = Memᴰ.tail (Memᴰ.tail m)
mem-perm (Permᴰ.trans p q) m = mem-perm q (mem-perm p m)

-- Of the policies of the tenant none is older than `p`.
abbrev pub NoneOlder : Text → QuotaPolicy → List QuotaPolicy → Type 0
NoneOlder tenant p = All (λ q. q.tenant ≡ tenant → older_policy q p ≡ false)

not_older_trans :
    (a b c : QuotaPolicy)
    → older_policy a b ≡ false
    → older_policy b c ≡ false
    → older_policy a c ≡ false
unfolding older_policy
not_older_trans a b c h k =
    ground (arith, text_lt_trans a.name c.name b.name, text_lt_total b.name c.name)

older_keeps :
    (a b c : QuotaPolicy)
    → older_policy a b ≡ true
    → older_policy a c ≡ false
    → older_policy b c ≡ false
older_keeps a b c h k = elim (Bool-cases (older_policy b c)) [
  | inr e ↦ e
  | inl e ↦ let t = older_trans a b c h e in absurd (cc)
]

oldest_from-some :
    (tenant : Text) (o : QuotaPolicy) (ps : List QuotaPolicy) {p : QuotaPolicy}
    → oldest_from tenant (some o) ps ≡ some p
    → ((p ≡ o) ⊎ (Memᴰ p ps × (p.tenant ≡ tenant)))
      × (older_policy o p ≡ false)
      × NoneOlder tenant p ps
unfolding oldest_from
oldest_from-some tenant o [] {p} h =
    let e : p ≡ o = ground arith in (inl e, rw e (older_irrefl o), tt)
oldest_from-some tenant o (q ∷ ps) {p} h = elim (Bool-cases (text_eq q.tenant tenant)) [
  | inr e ↦
      let (from, not_before, none_older) =
        oldest_from-some tenant o ps (rw (e, oldest_from) at h) in
      (
        later from,
        not_before,
        ((λ same. let e' = (text_eq_iff q.tenant tenant).1 same in absurd (cc)), none_older),
      )
  | inl e ↦ elim (Bool-cases (older_policy q o)) [
    | inr older ↦
        let (from, not_before, none_older) =
          oldest_from-some tenant o ps (rw (e, older, oldest_from) at h) in
        (later from, not_before, ((λ same. not_older_trans q o p older not_before), none_older))
    | inl older ↦
        let (from, not_before, none_older) =
          oldest_from-some tenant q ps (rw (e, older, oldest_from) at h) in
        (newer e from, older_keeps q o p older not_before, ((λ same. not_before), none_older))
  ]
]
  where
    later :
        (p ≡ o) ⊎ (Memᴰ p ps × (p.tenant ≡ tenant))
        → (p ≡ o) ⊎ (Memᴰ p (q ∷ ps) × (p.tenant ≡ tenant))
    later (inl s) = inl s
    later (inr (m, t)) = inr (Memᴰ.tail m, t)

    newer :
        text_eq q.tenant tenant ≡ true
        → (p ≡ q) ⊎ (Memᴰ p ps × (p.tenant ≡ tenant))
        → (p ≡ o) ⊎ (Memᴰ p (q ∷ ps) × (p.tenant ≡ tenant))
    newer e (inl s) =
        let t : p.tenant ≡ tenant =
          ap (λ (r : QuotaPolicy). r.tenant) s ∙ (text_eq_iff q.tenant tenant).0 e in
        inr (Memᴰ.head s, t)
    newer e (inr (m, t)) = inr (Memᴰ.tail m, t)

oldest_from-none :
    (tenant : Text) (ps : List QuotaPolicy) {p : QuotaPolicy}
    → oldest_from tenant none ps ≡ some p
    → Memᴰ p ps × (p.tenant ≡ tenant) × NoneOlder tenant p ps
unfolding oldest_from
oldest_from-none tenant [] h = absurd (cc)
oldest_from-none tenant (q ∷ ps) {p} h = elim (Bool-cases (text_eq q.tenant tenant)) [
  | inr e ↦
      let (m, t, none_older) = oldest_from-none tenant ps (rw (e, oldest_from) at h) in
      (
        Memᴰ.tail m,
        t,
        ((λ same. let e' = (text_eq_iff q.tenant tenant).1 same in absurd (cc)), none_older),
      )
  | inl e ↦
      let t = (text_eq_iff q.tenant tenant).0 e in
      let (from, not_before, none_older) =
        oldest_from-some tenant q ps (rw (e, oldest_from) at h) in
      elim from [
        | inl s ↦ (
          Memᴰ.head s,
          ap (λ (r : QuotaPolicy). r.tenant) s ∙ t,
          ((λ same. not_before), none_older),
        )
        | inr (m, t') ↦ (Memᴰ.tail m, t', ((λ same. not_before), none_older))
      ]
]

-- The policy that governs a tenant is one of those listed, is the tenant's, and no listed policy of
-- the tenant is older, a tie of the times being decided by the name.
pub policy_is_oldest :
    (items : List QuotaPolicy) (tenant : Text) {p : QuotaPolicy}
    → policy_for_tenant (some items) tenant ≡ found p
    → Memᴰ p items × (p.tenant ≡ tenant) × NoneOlder tenant p items
unfolding policy_for_tenant
policy_is_oldest items tenant {p} h = oldest_from-none tenant items (ground arith)

-- Two listings of the same policies, in any order, give a tenant the same policy, where policies
-- are told apart by their names.
policy_is_stable :
    (xs ys : List QuotaPolicy) (tenant : Text) {p q : QuotaPolicy}
    → Permᴰ xs ys
    → ((a b : QuotaPolicy) → Memᴰ a ys → Memᴰ b ys → a.name ≡ b.name → a ≡ b)
    → policy_for_tenant (some xs) tenant ≡ found p
    → policy_for_tenant (some ys) tenant ≡ found q
    → p ≡ q
policy_is_stable xs ys tenant {p} {q} perm unique h k =
    let (mp, tp, np) = policy_is_oldest xs tenant h in
    let (mq, tq, nq) = policy_is_oldest ys tenant k in
    let mp' = mem-perm perm mp in
    let q_p =
      All-mem (λ r. r.tenant ≡ tenant → older_policy r p ≡ false) mq (All-perm _ perm np) tq in
    let p_q = All-mem (λ r. r.tenant ≡ tenant → older_policy r q ≡ false) mp' nq tp in
    elim (older_total p q) [
      | inl e ↦ absurd (cc)
      | inr (inl e) ↦ absurd (cc)
      | inr (inr e) ↦ unique p q mp' mq e
    ]
