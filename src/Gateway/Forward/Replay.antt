-- ===== src/Gateway/Forward/Replay.antt =====
-- When tryBackends goes on to the spare, and what the spare's answer looks like.
use gpu_platform_control_pla.Base.{
  ◌≡◌, refl, sym, ◌∙◌, ◌↔◌, inl, inr, Bool, true, false, not, ◌||◌, List, [], ◌∷◌, arith,
}
use gpu_platform_control_pla.Gateway.Writer.{StatusRecorder, Call}
use gpu_platform_control_pla.Gateway.Forward.{
  RoundTripError, Outcome, answered, broke, aborts, Attempt, attempt, try_from, try_backends,
  cap_backend_attempts,
}
use gpu_platform_control_pla.Gateway.Forward.Attempts.{
  Outcome-cases, attempt-broke, attempt-answered,
}

-- The request provably reached no backend, and it can be sent again.
unfoldable pub Replayable : Bool → Attempt → Type 0
Replayable rewinds a =
    ((e : RoundTripError) × (a.outcome ≡ broke e) × (e.is_dial ≡ true))
    × (a.cancelled ≡ false)
    × (rewinds ≡ true)

-- The loop's guards after an attempt that is not the last.
unfoldable pub stops : Bool → StatusRecorder → Attempt → Bool
stops rewinds r a =
    not (attempt r false a).failed
    || (attempt r false a).wrote
    || not (attempt r false a).replayable
    || a.cancelled
    || not rewinds

pub stops-broke :
    (rewinds : Bool) (r : StatusRecorder) (a : Attempt) (e : RoundTripError)
    → a.outcome ≡ broke e
    → stops rewinds r a ≡ (not e.is_dial || a.cancelled || not rewinds)
unfolding stops
stops-broke rewinds r a e h = let (q, f, w, p) = attempt-broke r a e h in rw (f, w, p) refl

stops-answered :
    (rewinds : Bool) (r : StatusRecorder) (a : Attempt) (cut : Bool) (cs : List Call)
    → a.outcome ≡ answered cut cs
    → stops rewinds r a ≡ true
unfolding stops
stops-answered rewinds r a cut cs h = rw (attempt-answered r a cut cs h) refl

broke_dial :
    (o : Outcome) (e d : RoundTripError) → o ≡ broke e → o ≡ broke d → e.is_dial ≡ d.is_dial
broke_dial o e d h k = cc

-- The guards let the loop go on exactly where the request is replayable.
pub stops_iff :
    (rewinds : Bool) (r : StatusRecorder) (a : Attempt)
    → (stops rewinds r a ≡ false) ↔ Replayable rewinds a
unfolding Replayable
stops_iff rewinds r a = elim (Outcome-cases a.outcome) [
  | inl (e, h) ↦
      let s = stops-broke rewinds r a e h in
      (
        (λ k.
            let g : (not e.is_dial || a.cancelled || not rewinds) ≡ false = sym s ∙ k in
            ((e, h, ground arith), ground arith, ground arith)),
        (λ ((d, k, dial), c, w). let i = broke_dial a.outcome e d h k ∙ dial in s ∙ ground arith),
      )
  | inr (cut, cs, h) ↦ (
    (λ k. let t : stops rewinds r a ≡ true = stops-answered rewinds r a cut cs h in absurd (cc)),
    (λ ((d, k, dial), c, w). absurd (cc)),
  )
]

-- What a continued loop returns, and a stopped one.
pub try-next :
    (rewinds : Bool) (r : StatusRecorder) (a b : Attempt) (rest : List Attempt)
    → stops rewinds r a ≡ false
    → let f = try_backends rewinds r (a ∷ (b ∷ rest)) in
      (f.rec ≡ (try_backends rewinds r (b ∷ [])).rec) × (f.advanced ≡ true) × (f.tried ≡ 2)
unfolding try_backends try_from cap_backend_attempts stops
try-next rewinds r a b rest h = elim (Outcome-cases a.outcome) [
  | inl (e, k) ↦
      let q : (attempt r false a).rec ≡ r = (attempt-broke r a e k).0 in
      rw (h, q) (refl, refl, refl)
  | inr (cut, cs, k) ↦
      let t : stops rewinds r a ≡ true = stops-answered rewinds r a cut cs k in absurd (cc)
]

pub try-stop :
    (rewinds : Bool) (r : StatusRecorder) (a b : Attempt) (rest : List Attempt)
    → stops rewinds r a ≡ true
    → let f = try_backends rewinds r (a ∷ (b ∷ rest)) in
      (f.rec ≡ (attempt r false a).rec) × (f.advanced ≡ false) × (f.tried ≡ 1)
unfolding try_backends try_from cap_backend_attempts stops
try-stop rewinds r a b rest h = rw (h) (refl, refl, refl)

-- Whether the handler is left is the last attempt's matter.
pub aborted-stop :
    (rewinds : Bool) (r : StatusRecorder) (advanced : Bool) (a b : Attempt) (rest : List Attempt)
    → stops rewinds r a ≡ true
    → (try_from rewinds r advanced (a ∷ (b ∷ rest))).aborted ≡ aborts a.outcome
unfolding try_from stops
aborted-stop rewinds r advanced a b rest h = rw (h) refl

pub aborted-next :
    (rewinds : Bool) (r : StatusRecorder) (advanced : Bool) (a b : Attempt) (rest : List Attempt)
    → stops rewinds r a ≡ false
    → (try_from rewinds r advanced (a ∷ (b ∷ rest))).aborted
      ≡ (try_from rewinds (attempt r false a).rec true (b ∷ rest)).aborted
unfolding try_from stops
aborted-next rewinds r advanced a b rest h = rw (h) refl
