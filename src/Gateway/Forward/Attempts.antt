-- ===== src/Gateway/Forward/Attempts.antt =====
-- What one attempt of tryBackends leaves, by how its round trip ends.
use gpu_platform_control_pla.Base.{
  ◌≡◌, refl, sym, ◌∙◌, subst, ◌⊎◌, inl, inr, Bool, true, false, List, [], ◌∷◌, arith,
}
use gpu_platform_control_pla.Gateway.Writer.{
  StatusRecorder, AttemptWriter, on_header, promote, att_write_header, att_write, Call, adds_header,
  writes_header, writes, perform, add_header,
}
use gpu_platform_control_pla.Gateway.Forward.{
  RoundTripError, Outcome, answered, broke, Attempt, never_reached_backend, write_json_error, serve,
  attempt_writer, attempt, call_back,
}

pub Outcome-cases :
    (o : Outcome)
    → ((e : RoundTripError) × (o ≡ broke e))
      ⊎ ((cut : Bool) × (cs : List Call) × (o ≡ answered cut cs))
Outcome-cases (broke e) = inl (e, refl)
Outcome-cases (answered cut cs) = inr (cut, cs, refl)

-- A failed round trip of an attempt that is not the last writes nothing.
pub attempt-broke :
    (r : StatusRecorder) (a : Attempt) (e : RoundTripError)
    → a.outcome ≡ broke e
    → (attempt r false a).rec ≡ r
      × ((attempt r false a).failed ≡ true)
      × ((attempt r false a).wrote ≡ false)
      × ((attempt r false a).replayable ≡ e.is_dial)
unfolding attempt serve attempt_writer write_json_error on_header att_write_header att_write
    never_reached_backend
attempt-broke r a e h =
    subst
      (λ o.
        (serve o (attempt_writer (call_back false o r) true)).rec ≡ r
        × ((serve o (attempt_writer (call_back false o r) true)).failed ≡ true)
        × ((serve o (attempt_writer (call_back false o r) true)).wrote ≡ false)
        × ((serve o (attempt_writer (call_back false o r) true)).replayable ≡ e.is_dial))
      (sym h) (refl, refl, refl, refl)

-- The proxy's calls never set the failure flag.
perform-failed : (cs : List Call) (a : AttemptWriter) → (perform cs a).failed ≡ a.failed
unfolding perform on_header att_write_header att_write promote
perform-failed [] a = refl
perform-failed (adds_header k v ∷ cs) a =
    perform-failed cs (on_header (add_header k v) a) ∙ ground arith
perform-failed (writes_header c ∷ cs) a = perform-failed cs (att_write_header c a) ∙ ground arith
perform-failed (writes b ∷ cs) a = perform-failed cs (att_write b a) ∙ ground arith

pub attempt-answered :
    (r : StatusRecorder) (a : Attempt) (cut : Bool) (cs : List Call)
    → a.outcome ≡ answered cut cs
    → (attempt r false a).failed ≡ false
unfolding attempt serve attempt_writer
attempt-answered r a cut cs h =
    subst (λ o. (serve o (attempt_writer (call_back false o r) true)).failed ≡ false) (sym h)
      (perform-failed cs (attempt_writer r true))
