-- ===== src/Gateway/Pressure/Release.antt =====
-- When the guard releases, read off the history of what the scraper saw.
use gpu_platform_control_pla.Base.{
  ◌≡◌, ◌≢◌, true, false, inl, inr, List, ◌∷◌, arith, if◌then◌else◌, Bool-cases, ◌==◌, subst, sym,
  ◌↔◌, All,
}
use gpu_platform_control_pla.Base.Int.{◌≤ℤ◌}
use gpu_platform_control_pla.Base.Clock.{Time, since}
use gpu_platform_control_pla.Gateway.Exposition.{KvSample}
use gpu_platform_control_pla.Gateway.Pressure.{PressureConfig, Event, observed, run, is_under}
use gpu_platform_control_pla.Gateway.Pressure.Thresholds.{IsOrdered}
use gpu_platform_control_pla.Gateway.Pressure.Invariant.{run-cfg}
use gpu_platform_control_pla.Gateway.Pressure.Streaks.{
  Ticking, Streak, release_needs, sustained_releases, given, taken, broken_clear, clear_broken,
  Streak-start, Streak-clock, clock-Streak, began, went_on,
}

-- The clock that decides a release: the one running, or `now` for the first sample of a streak.
abbrev started : Time → Time → Time
started u now = if u == 0 then now else u

released-Streak :
    (cfg : PressureConfig) (es : List Event) (s : KvSample) (now : Time)
    → IsOrdered cfg
    → All Ticking es
    → (run cfg es).engaged ≡ true
    → is_under cfg s ≡ true
    → Streak cfg (started (run cfg es).under_since now) (observed s now ∷ es)
released-Streak cfg es s now v t on u = elim (Bool-cases ((run cfg es).under_since == 0)) [
  | inl z ↦
      let z' : (run cfg es).under_since ≡ 0 = ground arith in
      rw z (began s es (clear_broken cfg es v t on z') u)
  | inr nz ↦
      let nz' : (run cfg es).under_since ≢ 0 = ground arith in
      rw nz (went_on s now (clock-Streak cfg es v t on nz') u)
]

Streak-started :
    (cfg : PressureConfig) {u : Time} (es : List Event) (s : KvSample) (now : Time)
    → Streak cfg u (observed s now ∷ es)
    → IsOrdered cfg
    → All Ticking es
    → (run cfg es).engaged ≡ true
    → (is_under cfg s ≡ true) × (started (run cfg es).under_since now ≡ u)
Streak-started cfg es s now (began _ _ b h) v t on =
    let z = broken_clear cfg es b in (h, ground arith)
Streak-started cfg es s now (went_on _ _ k h) v t on =
    let c = Streak-clock cfg k v t on in let n = Streak-start cfg k t in (h, ground arith)

-- With ordered thresholds and a clock that never reads the zero time, an engaged guard releases at
-- a sample exactly when that sample ends an unbroken streak of samples under both release
-- thresholds which has lasted for `release_sustain`, measured from the streak's first sample. A gap
-- in the telemetry or a sample that is not under both ends a streak.
pub releases_iff :
    (cfg : PressureConfig) (es : List Event) (s : KvSample) (now : Time)
    → IsOrdered cfg
    → All Ticking es
    → (run cfg es).engaged ≡ true
    → ((run cfg (observed s now ∷ es)).engaged ≡ false)
      ↔ ((u : Time) × Streak cfg u (observed s now ∷ es) × (cfg.release_sustain ≤ℤ since now u))
unfolding run
releases_iff cfg es s now v t on = (
  (λ h.
      let (u, lasted) = release_needs (run cfg es) s now on h in
      (
        started (run cfg es).under_since now,
        released-Streak cfg es s now v t on (taken cfg es s u),
        subst (λ k. k.release_sustain ≤ℤ since now (started (run cfg es).under_since now))
            (run-cfg cfg es) lasted,
      )),
  (λ h.
      let (under, same) = Streak-started cfg es s now h.1 v t on in
      sustained_releases (run cfg es) s now (given cfg es s under) on (
        subst (λ k. k.release_sustain ≤ℤ since now (started (run cfg es).under_since now))
          (sym (run-cfg cfg es)) (subst (λ k. cfg.release_sustain ≤ℤ since now k) (sym same) h.2))),
)
