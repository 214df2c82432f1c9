-- ===== src/Gateway/Pressure/Engage.antt =====
-- When the guard engages, read off the history of what the scraper saw.
use gpu_platform_control_pla.Base.{
  ◌≡◌, ◌≢◌, refl, true, false, inl, inr, List, [], ◌∷◌, arith, Bool-cases, subst, sym, ◌↔◌,
}
use gpu_platform_control_pla.Base.Clock.{Time}
use gpu_platform_control_pla.Gateway.Exposition.{KvSample}
use gpu_platform_control_pla.Gateway.Pressure.{
  PressureConfig, PressureState, Event, observed, gap, step, run, is_over, is_under,
}
use gpu_platform_control_pla.Gateway.Pressure.Thresholds.{IsOrdered, over_not_under}
use gpu_platform_control_pla.Gateway.Pressure.Invariant.{IsConsistent, run-IsConsistent, run-cfg}

-- The event is a sample over an engage threshold.
abbrev pub IsOver : PressureConfig → Event → Type 0
IsOver cfg e = (s : KvSample) × (now : Time) × (e ≡ observed s now) × (is_over cfg s ≡ true)

one-IsOver :
    (p : PressureState) (e : Event)
    → IsConsistent p
    → (step p e).engaged ≡ false
    → (step p e).over_threshold_count ≢ 0
    → IsOver p.cfg e
unfolding step is_over
one-IsOver p (observed s now) v r c = (s, now, refl, ground arith)
one-IsOver p gap v r c = absurd (c refl)

second-IsOver :
    (p : PressureState) (e : Event)
    → IsConsistent p
    → p.engaged ≡ false
    → (step p e).engaged ≡ true
    → IsOver p.cfg e × (p.over_threshold_count ≢ 0)
unfolding step is_over
second-IsOver p (observed s now) v r h = ((s, now, refl, ground arith), ground arith)
second-IsOver p gap v r h = absurd (cc)

over_counts :
    (p : PressureState) (s : KvSample) (now : Time)
    → p.engaged ≡ false
    → is_over p.cfg s ≡ true
    → (step p (observed s now)).engaged ≡ false
    → (step p (observed s now)).over_threshold_count ≢ 0
unfolding step is_over
over_counts p s now r o e = ground arith

over_engages :
    (p : PressureState) (s : KvSample) (now : Time)
    → p.engaged ≡ false
    → p.over_threshold_count ≢ 0
    → is_over p.cfg s ≡ true
    → (step p (observed s now)).engaged ≡ true
unfolding step is_over
over_engages p s now r c o = ground arith

over_stays_engaged :
    (p : PressureState) (s : KvSample) (now : Time)
    → p.engaged ≡ true
    → is_under p.cfg s ≡ false
    → (step p (observed s now)).engaged ≡ true
unfolding step is_under
over_stays_engaged p s now r u = ground arith

-- The newest event of a history is a sample over an engage threshold.
abbrev pub LastOver : PressureConfig → List Event → Type 0
LastOver cfg [] = ⊥
LastOver cfg (e ∷ es) = IsOver cfg e

counted_over :
    (cfg : PressureConfig) (es : List Event)
    → (run cfg es).engaged ≡ false
    → (run cfg es).over_threshold_count ≢ 0
    → LastOver cfg es
unfolding run
counted_over cfg [] r c = c refl
counted_over cfg (e ∷ es) r c =
    subst (λ k. IsOver k e) (run-cfg cfg es)
      (one-IsOver (run cfg es) e (run-IsConsistent cfg es) r c)

over_counted :
    (cfg : PressureConfig) (es : List Event)
    → IsOrdered cfg
    → (run cfg es).engaged ≡ false
    → LastOver cfg es
    → (run cfg es).over_threshold_count ≢ 0
unfolding run
over_counted cfg [] v r o = absurd o
over_counted cfg (e ∷ es) v r (s, now, is, o) =
    let p = run cfg es in
    let same = run-cfg cfg es in
    let o' : is_over p.cfg s ≡ true = subst (λ k. is_over k s ≡ true) (sym same) o in
    let u' : is_under p.cfg s ≡ false =
      subst (λ k. is_under k s ≡ false) (sym same) (over_not_under cfg s v o) in
    let r' : (step p (observed s now)).engaged ≡ false = rw is at r in
    elim (Bool-cases p.engaged) [
      | inl on ↦ let stays = over_stays_engaged p s now on u' in absurd (cc)
      | inr off ↦ rw is (over_counts p s now off o' r')
    ]

-- With ordered thresholds, a released guard engages at an event exactly when that event and the one
-- before it are samples over an engage threshold: one spike never engages it, and a gap in the
-- telemetry starts the count anew.
pub engages_iff :
    (cfg : PressureConfig) (es : List Event) (e : Event)
    → IsOrdered cfg
    → (run cfg es).engaged ≡ false
    → ((run cfg (e ∷ es)).engaged ≡ true) ↔ (IsOver cfg e × LastOver cfg es)
unfolding run
engages_iff cfg es e v r = (
  (λ h.
      let (o, c) = second-IsOver (run cfg es) e (run-IsConsistent cfg es) r h in
      (subst (λ k. IsOver k e) (run-cfg cfg es) o, counted_over cfg es r c)),
  (λ h.
      let (s, now, is, o) = h.0 in
      rw is (
        over_engages (run cfg es) s now r (over_counted cfg es v r h.1)
          (subst (λ k. is_over k s ≡ true) (sym (run-cfg cfg es)) o))),
)
