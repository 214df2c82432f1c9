-- ===== src/Gateway/Body/Estimate.antt =====
-- The estimate of the input tokens.
use gpu_platform_control_pla.Base.{
  ℕ, ◌+◌, ◌*◌, ◌≤◌, ◌<◌, ◌≡◌, Bool, true, false, ◌||◌, List, [], ◌∷◌, arith, any,
}
use gpu_platform_control_pla.Base.Text.{Text}
use gpu_platform_control_pla.Base.Results.{ok}
use gpu_platform_control_pla.Gateway.Types.{RequestMeta}
use gpu_platform_control_pla.Gateway.Body.{
  Content, no_content, plain, other, probed, Tally, tally_from, read_request_meta,
}

abbrev pub bytes_of : Content → ℕ
bytes_of no_content = 0
bytes_of (plain n) = n
bytes_of (other n) = n

abbrev pub is_other : Content → Bool
is_other (other n) = true
is_other _ = false

unfoldable pub content_bytes : List Content → ℕ
content_bytes [] = 0
content_bytes (c ∷ cs) = bytes_of c + content_bytes cs

tally_from-sum :
    (t : Tally) (cs : List Content)
    → ((tally_from t cs).total_chars ≡ t.total_chars + content_bytes cs)
      × ((tally_from t cs).non_text ≡ (t.non_text || any is_other cs))
unfolding tally_from content_bytes
tally_from-sum t [] = ground arith
tally_from-sum t (no_content ∷ cs) = ground (arith, tally_from-sum t cs)
tally_from-sum t (plain n ∷ cs) =
    ground (arith, tally_from-sum (record t { total_chars = t.total_chars + n }) cs)
tally_from-sum t (other n ∷ cs) =
    ground (arith, tally_from-sum (record { total_chars = t.total_chars + n; non_text = true }) cs)

-- The metadata of a decoded body keep its model, estimate the bytes of all contents over four, rounded
-- up, and say whether some content was not a plain text.
estimate_is_ceiling :
    (model : Text) (messages : List Content) {meta : RequestMeta}
    → read_request_meta (probed model messages) ≡ ok meta
    → (meta.model ≡ model)
      × (content_bytes messages ≤ 4 * meta.est_input_tokens)
      × (4 * meta.est_input_tokens < content_bytes messages + 4)
      × (meta.non_text_content ≡ any is_other messages)
unfolding read_request_meta
estimate_is_ceiling [] messages h = absurd (cc)
estimate_is_ceiling (c ∷ cs) messages h =
    ground (arith, tally_from-sum (record { total_chars = 0; non_text = false }) messages)
