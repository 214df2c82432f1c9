-- ===== src/Gateway/Server/Status.antt =====
-- The status that requests_total counts, and the one that the client gets.
use gpu_platform_control_pla.Base.{
  ℕ, ◌≡◌, refl, ◌∙◌, ap, inl, inr, true, List, [], ◌∷◌, some, All, if◌then◌else◌,
}
use gpu_platform_control_pla.Base.Text.{Text}
use gpu_platform_control_pla.Gateway.Writer.{Headers}
use gpu_platform_control_pla.Gateway.Forward.{Attempt, Forwarded, try_backends}
use gpu_platform_control_pla.Gateway.Forward.Status.{IsProper, try_backends-IsTold}
use gpu_platform_control_pla.Gateway.Stages.{proxy_stage, fresh_recorder, settled_code}
use gpu_platform_control_pla.Gateway.Server.Accounting.{counted, proxy_counts}

settled_code-answered : (f : Forwarded) → f.rec.answered ≡ true → settled_code f ≡ f.rec.code
unfolding settled_code
settled_code-answered f h = simp (h)

-- Where the forwarded request gives the client a status line, requests_total counts exactly that
-- status, through every fallback and failed round trip, unless the copy of a response's body failed:
-- then it counts nothing. Each backend's response is headers and informational statuses, one final
-- status, and a body with trailers.
pub counted_status_is_sent :
    (h : Headers) (tenant model : Text) (attempts : List Attempt) {status : ℕ} {sent : Headers}
    → All (λ a. IsProper a.outcome) attempts
    → (try_backends true (fresh_recorder h) attempts).rec.client.sent ≡ some (status, sent)
    → counted (proxy_stage h tenant model attempts).events
      ≡ (if (try_backends true (fresh_recorder h) attempts).aborted then [] else status ∷ [])
counted_status_is_sent h tenant model attempts {status} p s =
    let f : Forwarded = try_backends true (fresh_recorder h) attempts in
    elim (try_backends-IsTold (fresh_recorder h) attempts p (unfold fresh_recorder in refl)) [
      | inr n ↦ absurd (cc)
      | inl t ↦
          let same : t.status ≡ status = cc in
          proxy_counts h tenant model attempts
          ∙ ap (λ c. if f.aborted then [] else c ∷ [])
              (settled_code-answered f t.answered ∙ (t.code ∙ same))
    ]
