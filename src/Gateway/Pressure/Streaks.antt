-- ===== src/Gateway/Pressure/Streaks.antt =====
-- Streaks of samples under both release thresholds, and the state that marks them.
use gpu_platform_control_pla.Base.{
  ◌≡◌, ◌≢◌, refl, Bool, true, false, inl, inr, List, [], ◌∷◌, arith, if◌then◌else◌, Bool-cases,
  ◌==◌, subst, sym, ◌∙◌, All,
}
use gpu_platform_control_pla.Base.Int.{◌≤ℤ◌}
use gpu_platform_control_pla.Base.Clock.{Time, since}
use gpu_platform_control_pla.Gateway.Exposition.{KvSample}
use gpu_platform_control_pla.Gateway.Pressure.{
  PressureConfig, PressureState, Event, observed, gap, new_pressure_state, step, run, is_over,
  is_under,
}
use gpu_platform_control_pla.Gateway.Pressure.Thresholds.{IsOrdered, over_not_under}
use gpu_platform_control_pla.Gateway.Pressure.Invariant.{IsConsistent, run-IsConsistent, run-cfg}

-- The clock never reads the zero time.
abbrev pub Ticking : Event → Type 0
Ticking (observed s now) = now ≢ 0
Ticking gap = Unit

-- No streak of samples under both release thresholds runs up to here.
abbrev pub Breaks : PressureConfig → List Event → Type 0
Breaks cfg [] = Unit
Breaks cfg (gap ∷ es) = Unit
Breaks cfg (observed s now ∷ es) = is_under cfg s ≡ false

-- The history ends in an unbroken streak of samples under both release thresholds, whose first was
-- seen at `u`.
pub data Streak (cfg : PressureConfig) (u : Time) : List Event → Type 0 where
  began :
      (s : KvSample) (es : List Event)
      → Breaks cfg es
      → is_under cfg s ≡ true
      → Streak cfg u (observed s u ∷ es)
  went_on :
      (s : KvSample) (now : Time) {es : List Event}
      → Streak cfg u es
      → is_under cfg s ≡ true
      → Streak cfg u (observed s now ∷ es)

-- A sample under both release thresholds, in each of the states.
pub under_engaged :
    (p : PressureState) (s : KvSample) (now : Time)
    → now ≢ 0
    → is_under p.cfg s ≡ true
    → p.engaged ≡ true
    → (step p (observed s now)).engaged ≡ true
    → ((step p (observed s now)).under_since ≢ 0)
      × (p.under_since ≡ 0 → (step p (observed s now)).under_since ≡ now)
      × (p.under_since ≢ 0 → (step p (observed s now)).under_since ≡ p.under_since)
unfolding step is_under
under_engaged p s now t u on h = ground arith

pub under_released :
    (p : PressureState) (s : KvSample) (now : Time)
    → is_over p.cfg s ≡ false
    → IsConsistent p
    → p.engaged ≡ false
    → (step p (observed s now)).engaged ≡ false
unfolding step is_over
under_released p s now o v off = ground arith

pub not_under_clears :
    (p : PressureState) (s : KvSample) (now : Time)
    → is_under p.cfg s ≡ false
    → IsConsistent p
    → (step p (observed s now)).under_since ≡ 0
unfolding step is_under
not_under_clears p s now u v = ground arith

pub release_needs :
    (p : PressureState) (s : KvSample) (now : Time)
    → p.engaged ≡ true
    → (step p (observed s now)).engaged ≡ false
    → (is_under p.cfg s ≡ true)
      × (p.cfg.release_sustain ≤ℤ since now (if p.under_since == 0 then now else p.under_since))
unfolding step is_under
release_needs p s now on h = ground arith

pub sustained_releases :
    (p : PressureState) (s : KvSample) (now : Time)
    → is_under p.cfg s ≡ true
    → p.engaged ≡ true
    → p.cfg.release_sustain ≤ℤ since now (if p.under_since == 0 then now else p.under_since)
    → (step p (observed s now)).engaged ≡ false
unfolding step is_under
sustained_releases p s now u on h = ground arith

-- The configuration of a run is the one that it was given.
pub given :
    (cfg : PressureConfig) (es : List Event) (s : KvSample) {b : Bool}
    → is_under cfg s ≡ b
    → is_under (run cfg es).cfg s ≡ b
given cfg es s {b} h = subst (λ k. is_under k s ≡ b) (sym (run-cfg cfg es)) h

pub taken :
    (cfg : PressureConfig) (es : List Event) (s : KvSample) {b : Bool}
    → is_under (run cfg es).cfg s ≡ b
    → is_under cfg s ≡ b
taken cfg es s {b} h = subst (λ k. is_under k s ≡ b) (run-cfg cfg es) h

-- A sample under both release thresholds does not engage a released guard.
pub stays_released :
    (cfg : PressureConfig) (es : List Event) (s : KvSample) (now : Time)
    → IsOrdered cfg
    → is_under cfg s ≡ true
    → (run cfg es).engaged ≡ false
    → (step (run cfg es) (observed s now)).engaged ≡ false
stays_released cfg es s now v u off =
    under_released (run cfg es) s now
      (subst (λ k. is_over k s ≡ false) (sym (run-cfg cfg es)) not_over) (run-IsConsistent cfg es)
      off
  where
    not_over : is_over cfg s ≡ false
    not_over = elim (Bool-cases (is_over cfg s)) [
      | inl o ↦ let n = over_not_under cfg s v o in absurd (cc)
      | inr n ↦ n
    ]

-- Where no streak runs, an engaged guard's release clock is clear.
pub broken_clear :
    (cfg : PressureConfig) (es : List Event) → Breaks cfg es → (run cfg es).under_since ≡ 0
unfolding run
broken_clear cfg [] b = unfold new_pressure_state in refl
broken_clear cfg (gap ∷ es) b = unfold step in refl
broken_clear cfg (observed s now ∷ es) b =
    not_under_clears (run cfg es) s now (given cfg es s b) (run-IsConsistent cfg es)

pub clear_broken :
    (cfg : PressureConfig) (es : List Event)
    → IsOrdered cfg
    → All Ticking es
    → (run cfg es).engaged ≡ true
    → (run cfg es).under_since ≡ 0
    → Breaks cfg es
unfolding run
clear_broken cfg [] v t on z = tt
clear_broken cfg (gap ∷ es) v t on z = tt
clear_broken cfg (observed s now ∷ es) v t on z = elim (Bool-cases (is_under cfg s)) [
  | inr n ↦ n
  | inl u ↦ elim (Bool-cases (run cfg es).engaged) [
    | inl was ↦ absurd ((under_engaged (run cfg es) s now t.0 (given cfg es s u) was on).0 z)
    | inr off ↦ let off' = stays_released cfg es s now v u off in absurd (cc)
  ]
]

pub Streak-start :
    (cfg : PressureConfig) {u : Time} {es : List Event} → Streak cfg u es → All Ticking es → u ≢ 0
Streak-start cfg (began s es b h) t = t.0
Streak-start cfg (went_on s now k h) t = Streak-start cfg k t.1

-- The release clock of an engaged guard is the start of the streak.
pub Streak-clock :
    (cfg : PressureConfig) {u : Time} {es : List Event}
    → Streak cfg u es
    → IsOrdered cfg
    → All Ticking es
    → (run cfg es).engaged ≡ true
    → (run cfg es).under_since ≡ u
unfolding run
Streak-clock cfg {u} (began s es b h) v t on = elim (Bool-cases (run cfg es).engaged) [
  | inl was ↦
      (under_engaged (run cfg es) s u t.0 (given cfg es s h) was on).1 (broken_clear cfg es b)
  | inr off ↦ let off' = stays_released cfg es s u v h off in absurd (cc)
]
Streak-clock cfg (went_on s now {es = es} k h) v t on = elim (Bool-cases (run cfg es).engaged) [
  | inl was ↦
      let ih = Streak-clock cfg k v t.1 was in
      (under_engaged (run cfg es) s now t.0 (given cfg es s h) was on).2
        (λ z. Streak-start cfg k t.1 (sym ih ∙ z))
      ∙ ih
  | inr off ↦ let off' = stays_released cfg es s now v h off in absurd (cc)
]

pub clock-Streak :
    (cfg : PressureConfig) (es : List Event)
    → IsOrdered cfg
    → All Ticking es
    → (run cfg es).engaged ≡ true
    → (run cfg es).under_since ≢ 0
    → Streak cfg (run cfg es).under_since es
unfolding run
clock-Streak cfg [] v t on n = absurd (n (unfold new_pressure_state in refl))
clock-Streak cfg (gap ∷ es) v t on n = absurd (n (unfold step in refl))
clock-Streak cfg (observed s now ∷ es) v t on n = elim (Bool-cases (is_under cfg s)) [
  | inr not_under ↦
      absurd (
        n (
          not_under_clears (run cfg es) s now (given cfg es s not_under) (run-IsConsistent cfg es)))
  | inl u ↦ elim (Bool-cases (run cfg es).engaged) [
    | inr off ↦ let off' = stays_released cfg es s now v u off in absurd (cc)
    | inl was ↦
        let (_, first, later) = under_engaged (run cfg es) s now t.0 (given cfg es s u) was on in
        elim (Bool-cases ((run cfg es).under_since == 0)) [
          | inl z ↦
              let z' : (run cfg es).under_since ≡ 0 = ground arith in
              subst (λ k. Streak cfg k (observed s now ∷ es)) (sym (first z'))
                (began s es (clear_broken cfg es v t.1 was z') u)
          | inr nz ↦
              let nz' : (run cfg es).under_since ≢ 0 = ground arith in
              subst (λ k. Streak cfg k (observed s now ∷ es)) (sym (later nz'))
                (went_on s now (clock-Streak cfg es v t.1 was nz') u)
        ]
  ]
]
