-- ===== src/Gateway/Body.antt =====
-- readRequestMeta of internal/gateway/proxy.go: what the gateway reads of a request's body.
pub mod Estimate
use gpu_platform_control_pla.Base.{
  ℕ, ◌+◌, ◌*◌, ◌/◌, Bool, true, false, List, [], ◌∷◌, Option, none, some, if◌then◌else◌,
}
use gpu_platform_control_pla.Base.Text.{Text, text}
use gpu_platform_control_pla.Base.Results.{Result, ok, err}
use gpu_platform_control_pla.Gateway.Types.{RequestMeta}

-- The content of a message: absent or null, a text of so many bytes, or other JSON of so many.
pub data Content : Type 0 where
  no_content : Content
  plain : ℕ → Content
  other : ℕ → Content

-- What MaxBytesReader, ReadAll and Unmarshal make of the body.
pub data Buffered : Type 0 where
  over_limit broken_read undecodable : Buffered
  probed : Text → List Content → Buffered

pub data BodyError : Type 0 where
  too_large not_read no_model : BodyError

pub record Tally : Type 0 where
  pub total_chars : ℕ
  pub non_text : Bool

-- The loop over the messages.
unfoldable pub tally_from : Tally → List Content → Tally
tally_from t [] = t
tally_from t (no_content ∷ cs) = tally_from t cs
tally_from t (plain n ∷ cs) = tally_from (record t { total_chars = t.total_chars + n }) cs
tally_from t (other n ∷ cs) =
    tally_from (record { total_chars = t.total_chars + n; non_text = true }) cs

unfoldable pub read_request_meta : Buffered → Result BodyError RequestMeta
unfolding tally_from
read_request_meta over_limit = err too_large
read_request_meta broken_read = err not_read
read_request_meta undecodable = err not_read
read_request_meta (probed [] messages) = err no_model
read_request_meta (probed (c ∷ cs) messages) =
    let t = tally_from (record { total_chars = 0; non_text = false }) messages in
    ok (record {
      model = c ∷ cs;
      est_input_tokens = (t.total_chars + 3) / 4;
      non_text_content = t.non_text;
    })
