-- ===== src/Gateway/Types.antt =====
-- The values that the gateway's stages hand on: internal/gateway/router.go (BackendRef),
-- proxy.go (RequestMeta) and admission.go (modes, tiers, reasons).
use gpu_platform_control_pla.Base.{ℕ, Bool, true, false, ◌++◌}
use gpu_platform_control_pla.Base.Text.{Text, text}
use gpu_platform_control_pla.Base.Int.{ℤ}
use gpu_platform_control_pla.Base.Float.{Float}

-- The address http://<host>:<port> that a parsed *url.URL holds.
pub record Url : Type 0 where
  pub host : Text
  pub port : ℕ

pub record BackendRef : Type 0 where
  pub namespace : Text
  pub name : Text
  pub port : ℕ
  pub url : Url
  pub model : Text

-- Namespace and name, joined by a slash.
unfoldable pub backend_key : BackendRef → Text
backend_key b = b.namespace ++ (text "/" ++ b.name)

pub record RequestMeta : Type 0 where
  pub model : Text
  pub est_input_tokens : ℕ
  pub non_text_content : Bool

-- A mode is the flag's text; the zero value is the empty text.
abbrev pub AdmissionMode : Type 0
AdmissionMode = Text

unfoldable pub admission_off : AdmissionMode
admission_off = text "off"

unfoldable pub admission_static_cap : AdmissionMode
admission_static_cap = text "static-cap"

unfoldable pub admission_kv_aware : AdmissionMode
admission_kv_aware = text "kv-aware"

pub data Tier : Type 0 where
  premium standard : Tier

abbrev pub is_standard : Tier → Bool
is_standard standard = true
is_standard premium = false

abbrev pub is_premium : Tier → Bool
is_premium premium = true
is_premium standard = false

-- The machine-readable reasons; `no_reason` is the empty text.
pub data Reason : Type 0 where
  input_rate_limit backend_unregistered telemetry_stale not_engaged : Reason
  premium_tier below_threshold admission_is_off within_budget : Reason
  input_exceeds_burst kv_cache_pressure no_reason : Reason

pub record BackendState : Type 0 where
  pub cache_usage : Float
  pub waiting : ℤ
  pub engaged : Bool
  pub fresh : Bool
