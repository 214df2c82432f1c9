-- ===== src/Gateway/Admission/Cap.antt =====
-- What the static-cap arm charges, and to whom.
use gpu_platform_control_pla.Base.{
  ◌≡◌, ◌≢◌, refl, sym, ◌∙◌, ap, subst, ◌⊎◌, inl, inr, ◌↔◌, true, false, ◌&&◌, some, if◌then◌else◌,
  arith, Bool-cases, Option-cases,
}
use gpu_platform_control_pla.Base.Text.{Text, text_eq, text_eq_iff, text_eq_refl}
use gpu_platform_control_pla.Base.Maps.{lookup, insert, lookup-insert}
use gpu_platform_control_pla.Base.Int.{ℤ, pos, ◌≤ℤ◌, ◌<ℤ◌, leb_ℤ, ltb_ℤ}
use gpu_platform_control_pla.Base.Clock.{Time}
use gpu_platform_control_pla.Gateway.Types.{
  BackendRef, backend_key, RequestMeta, Tier, premium, standard, is_standard, within_budget,
  input_exceeds_burst, input_rate_limit,
}
use gpu_platform_control_pla.Gateway.Limiter.{LimiterLib}
use gpu_platform_control_pla.Gateway.Admission.{
  admit_with, refuse_with, StaticCapAdmitter, limiter_for, cap_admit,
}

-- The population that the arm meters.
abbrev pub IsEligible : ℤ → RequestMeta → Tier → Type 0
IsEligible threshold meta tier = (tier ≡ standard) × (threshold ≤ℤ pos meta.est_input_tokens)

module _ (lib : LimiterLib) where
  open lib use {Limiter, allow_n, burst_of, burst_of-new, burst_of-allow_n}

  -- Every bucket that has been made holds the configured burst.
  abbrev pub Uniform : StaticCapAdmitter lib → Type 0
  Uniform a = (k : Text) (l : Limiter) → lookup k a.limiters ≡ some l → burst_of l ≡ a.burst

  burst_of-limiter_for :
      (a : StaticCapAdmitter lib) (k : Text) → Uniform a → burst_of (limiter_for lib a k) ≡ a.burst
  unfolding limiter_for
  burst_of-limiter_for a k u = elim (Option-cases (lookup k a.limiters)) [
    | inl e ↦ rw (e, limiter_for) (burst_of-new a.rate a.burst)
    | inr (l, e) ↦ rw (e, limiter_for) (u k l e)
  ]

  not_eligible :
      (threshold : ℤ) (meta : RequestMeta) (tier : Tier)
      → ¬ IsEligible threshold meta tier
      → (is_standard tier && leb_ℤ threshold (pos meta.est_input_tokens)) ≡ false
  not_eligible threshold meta premium h = refl
  not_eligible threshold meta standard h =
      elim (Bool-cases (leb_ℤ threshold (pos meta.est_input_tokens))) [
        | inl e ↦ absurd (h (refl, ground arith))
        | inr e ↦ e
      ]

  cap_outside :
      (a : StaticCapAdmitter lib) (now : Time) (meta : RequestMeta) (b : BackendRef) (tier : Tier)
      → ¬ IsEligible a.long_threshold meta tier
      → ((cap_admit lib a now meta b tier).0.admitted ≡ true)
        × ((cap_admit lib a now meta b tier).1 ≡ a)
  unfolding cap_admit
  cap_outside a now meta b premium h = (refl, refl)
  cap_outside a now meta b standard h =
      let e : leb_ℤ a.long_threshold (pos meta.est_input_tokens) ≡ false =
        not_eligible a.long_threshold meta standard h in
      ground arith

  cap_oversize :
      (a : StaticCapAdmitter lib) (now : Time) (meta : RequestMeta) (b : BackendRef) (tier : Tier)
      → IsEligible a.long_threshold meta tier
      → a.burst <ℤ pos meta.est_input_tokens
      → cap_admit lib a now meta b tier ≡ (refuse_with input_exceeds_burst, a)
  unfolding cap_admit
  cap_oversize a now meta b tier (t, long) big =
      let e : leb_ℤ a.long_threshold (pos meta.est_input_tokens) ≡ true = ground arith in
      let e' : ltb_ℤ a.burst (pos meta.est_input_tokens) ≡ true = ground arith in rw (t, e, e')

  cap_metered :
      (a : StaticCapAdmitter lib) (now : Time) (meta : RequestMeta) (b : BackendRef) (tier : Tier)
      → IsEligible a.long_threshold meta tier
      → pos meta.est_input_tokens ≤ℤ a.burst
      → let answer = allow_n now meta.est_input_tokens (limiter_for lib a (backend_key b)) in
        cap_admit lib a now meta b tier ≡ (
          if answer.0 then admit_with within_budget else refuse_with input_rate_limit,
          record a { limiters = insert (backend_key b) answer.1 a.limiters },
        )
  unfolding cap_admit
  cap_metered a now meta b tier (t, long) fits =
      let e : leb_ℤ a.long_threshold (pos meta.est_input_tokens) ≡ true = ground arith in
      let e' : ltb_ℤ a.burst (pos meta.est_input_tokens) ≡ false = ground arith in rw (t, e, e')

  -- A bucket put back under its key.
  abbrev charged : StaticCapAdmitter lib → Text → Limiter → StaticCapAdmitter lib
  charged a key l = record a { limiters = insert key l a.limiters }

  limiter_for-charged :
      (a : StaticCapAdmitter lib) (key k : Text) (l : Limiter)
      → limiter_for lib (charged a key l) k ≡ (if text_eq key k then l else limiter_for lib a k)
  unfolding limiter_for
  limiter_for-charged a key k l = ground (arith, lookup-insert key k l a.limiters)

  charged-Uniform :
      (a : StaticCapAdmitter lib) (key : Text) (l : Limiter)
      → burst_of l ≡ a.burst
      → Uniform a
      → Uniform (charged a key l)
  charged-Uniform a key l e u k l' h = ground (arith, lookup-insert key k l a.limiters, u k l')

  -- What an admission leaves: the same buckets, or one bucket charged.
  after_admit :
      (a : StaticCapAdmitter lib) (now : Time) (meta : RequestMeta) (b : BackendRef) (tier : Tier)
      → let answer = allow_n now meta.est_input_tokens (limiter_for lib a (backend_key b)) in
        ((cap_admit lib a now meta b tier).1 ≡ a)
        ⊎ ((cap_admit lib a now meta b tier).1 ≡ charged a (backend_key b) answer.1)
  unfolding cap_admit
  after_admit a now meta b premium = inl refl
  after_admit a now meta b standard =
      elim (Bool-cases (leb_ℤ a.long_threshold (pos meta.est_input_tokens))) [
        | inr e ↦ inl (rw e)
        | inl e ↦ elim (Bool-cases (ltb_ℤ a.burst (pos meta.est_input_tokens))) [
          | inl big ↦ inl (rw (e, big))
          | inr fits ↦ inr (rw (e, fits))
        ]
      ]

  -- The three answers of the arm. A request outside the metered population is admitted and charged
  -- to nobody. One whose input is above the burst is refused for its size and charged to nobody. Any
  -- other is decided by the bucket of its backend, which is charged the whole estimated input. No
  -- answer touches the bucket of another backend.
  cap_cases :
      (a : StaticCapAdmitter lib) (now : Time) (meta : RequestMeta) (b : BackendRef) (tier : Tier)
      → let (v, a') = cap_admit lib a now meta b tier in
        let answer = allow_n now meta.est_input_tokens (limiter_for lib a (backend_key b)) in
        (¬ IsEligible a.long_threshold meta tier → (v.admitted ≡ true) × (a' ≡ a))
        × (IsEligible a.long_threshold meta tier
            → a.burst <ℤ pos meta.est_input_tokens
            → (v ≡ refuse_with input_exceeds_burst) × (a' ≡ a))
        × (IsEligible a.long_threshold meta tier
            → pos meta.est_input_tokens ≤ℤ a.burst
            → (v ≡ (if answer.0 then admit_with within_budget else refuse_with input_rate_limit))
              × (limiter_for lib a' (backend_key b) ≡ answer.1))
        × ((k : Text) → backend_key b ≢ k → limiter_for lib a' k ≡ limiter_for lib a k)
  cap_cases a now meta b tier =
      let key = backend_key b in
      let answer = allow_n now meta.est_input_tokens (limiter_for lib a key) in
      (
        cap_outside a now meta b tier,
        (λ el big.
            let e = cap_oversize a now meta b tier el big in (ap (λ p. p.0) e, ap (λ p. p.1) e)),
        (λ el fits.
            let e = cap_metered a now meta b tier el fits in
            (
              ap (λ p. p.0) e,
              ap (λ p. limiter_for lib p.1 key) e
                  ∙ limiter_for-charged a key key answer.1
                  ∙ rw (text_eq_refl key),
            )),
        (λ k other. elim (after_admit a now meta b tier) [
          | inl e ↦ ap (λ c. limiter_for lib c k) e
          | inr e ↦
              ap (λ c. limiter_for lib c k) e
              ∙ limiter_for-charged a key k answer.1
              ∙ ground (arith, text_eq_iff key k)
        ]),
      )

  exceeds_means :
      (a : StaticCapAdmitter lib) (now : Time) (meta : RequestMeta) (b : BackendRef) (tier : Tier)
      → (cap_admit lib a now meta b tier).0.reason ≡ input_exceeds_burst
      → IsEligible a.long_threshold meta tier × (a.burst <ℤ pos meta.est_input_tokens)
  unfolding cap_admit
  exceeds_means a now meta b premium h = absurd (cc)
  exceeds_means a now meta b standard h = ((refl, ground arith), ground arith)

  -- While every bucket holds the configured burst, which admissions keep so, the size refusal is
  -- given exactly to the metered requests that no amount of waiting lets the bucket pay for.
  cap_exceeds_iff :
      (a : StaticCapAdmitter lib) (now : Time) (meta : RequestMeta) (b : BackendRef) (tier : Tier)
      → Uniform a
      → (((cap_admit lib a now meta b tier).0.reason ≡ input_exceeds_burst) ↔ (
          IsEligible a.long_threshold meta tier
          × (burst_of (limiter_for lib a (backend_key b)) <ℤ pos meta.est_input_tokens)))
        × Uniform (cap_admit lib a now meta b tier).1
  cap_exceeds_iff a now meta b tier u =
      let key = backend_key b in
      let same = burst_of-limiter_for a key u in
      (
        (
          (λ h.
              let (el, big) = exceeds_means a now meta b tier h in
              (el, subst (λ z. z <ℤ pos meta.est_input_tokens) (sym same) big)),
          (λ (el, big).
              ap (λ p. p.0.reason)
                (cap_oversize a now meta b tier el
                  (subst (λ z. z <ℤ pos meta.est_input_tokens) same big))),
        ),
        elim (after_admit a now meta b tier) [
          | inl e ↦ subst Uniform (sym e) u
          | inr e ↦ subst Uniform (sym e) (
              charged-Uniform a key _
                (burst_of-allow_n now meta.est_input_tokens (limiter_for lib a key) ∙ same) u)
        ],
      )
