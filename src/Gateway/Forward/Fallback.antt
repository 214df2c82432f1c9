-- ===== src/Gateway/Forward/Fallback.antt =====
-- The fallback of tryBackends to the spare backend.
use gpu_platform_control_pla.Base.{
  ℕ, ◌+◌, ◌≤◌, ◌≡◌, refl, ◌↔◌, inl, inr, Bool, true, false, not, List, [], ◌∷◌, if◌then◌else◌,
  arith, Bool-cases, take,
}
use gpu_platform_control_pla.Gateway.Writer.{StatusRecorder}
use gpu_platform_control_pla.Gateway.Forward.{
  Outcome, answered, broke, Attempt, try_from, try_backends, cap_backend_attempts,
}
use gpu_platform_control_pla.Gateway.Forward.Replay.{
  Replayable, stops, stops_iff, try-next, try-stop,
}

-- With a spare there, tryBackends goes on to it exactly where the first attempt failed in a dial, the
-- request is not cancelled, and its body can be read again.
pub fallback_iff :
    (rewinds : Bool) (r : StatusRecorder) (a b : Attempt) (rest : List Attempt)
    → ((try_backends rewinds r (a ∷ (b ∷ rest))).advanced ≡ true) ↔ Replayable rewinds a
fallback_iff rewinds r a b rest =
    let (from, to) = stops_iff rewinds r a in
    (
      (λ h. elim (Bool-cases (stops rewinds r a)) [
        | inl s ↦
            let q : (try_backends rewinds r (a ∷ (b ∷ rest))).advanced ≡ false =
              (try-stop rewinds r a b rest s).1 in
            absurd (cc)
        | inr s ↦ from s
      ]),
      (λ p. (try-next rewinds r a b rest (to p)).1),
    )

-- After a first attempt that made no connection, of a request that is not cancelled and whose body
-- can be read again, the response is the one the spare alone would have given: no header, status or
-- byte of the abandoned attempt is left in it.
pub spare_answers_alone :
    (rewinds : Bool) (r : StatusRecorder) (a b : Attempt) (rest : List Attempt)
    → Replayable rewinds a
    → (try_backends rewinds r (a ∷ (b ∷ rest))).rec ≡ (try_backends rewinds r (b ∷ [])).rec
spare_answers_alone rewinds r a b rest p =
    (try-next rewinds r a b rest ((stops_iff rewinds r a).1 p)).0

-- A round trip that may have delivered the request: any but a failed dial.
unfoldable pub may_have_reached : Outcome → Bool
may_have_reached (answered cut cs) = true
may_have_reached (broke e) = not e.is_dial

unfoldable pub deliveries : List Attempt → ℕ
unfolding may_have_reached
deliveries [] = 0
deliveries (a ∷ rest) = let n = deliveries rest in if may_have_reached a.outcome then n + 1 else n

dial-deliveries :
    (rewinds : Bool) (a : Attempt) → Replayable rewinds a → may_have_reached a.outcome ≡ false
unfolding Replayable may_have_reached
dial-deliveries rewinds a ((e, h, dial), c, w) = rw (h, dial) refl

-- Of the attempts that tryBackends makes at most one may have delivered the request to a backend, and
-- it makes at most two.
pub delivered_at_most_once :
    (rewinds : Bool) (r : StatusRecorder) (attempts : List Attempt)
    → let f = try_backends rewinds r attempts in
      (deliveries (take f.tried attempts) ≤ 1) × (f.tried ≤ 2)
unfolding try_backends try_from cap_backend_attempts deliveries
delivered_at_most_once rewinds r [] = (omega arith, omega arith)
delivered_at_most_once rewinds r (a ∷ []) = (ground arith, omega arith)
delivered_at_most_once rewinds r (a ∷ (b ∷ rest)) = elim (Bool-cases (stops rewinds r a)) [
  | inl s ↦
      let q : (try_backends rewinds r (a ∷ (b ∷ rest))).tried ≡ 1 =
        (try-stop rewinds r a b rest s).2 in
      rw (q) (ground arith, omega arith)
  | inr s ↦
      let q : (try_backends rewinds r (a ∷ (b ∷ rest))).tried ≡ 2 =
        (try-next rewinds r a b rest s).2 in
      let d : may_have_reached a.outcome ≡ false =
        dial-deliveries rewinds a ((stops_iff rewinds r a).0 s) in
      rw (q, d) (ground arith, omega arith)
]
