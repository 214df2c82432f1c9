-- ===== src/Gateway/Reply.antt =====
-- What a request leaves besides the gateway's state: the counters it moves, and the answer. The
-- header values and helpers are those of internal/gateway/server.go.
use gpu_platform_control_pla.Base.{
  ◌≡◌, refl, ℕ, zero, suc, ◌+◌, ◌*◌, ◌/◌, ◌%◌, Bool, true, false, ◌&&◌, ◌||◌, List, [], ◌∷◌, ◌++◌,
  none, some, ltb, ◌==◌, if◌then◌else◌,
}
use gpu_platform_control_pla.Base.Text.{Text, text}
use gpu_platform_control_pla.Base.Int.{ℤ, pos, negsuc}
use gpu_platform_control_pla.Base.Float.{Float, nan, inf, fin, unit}
use gpu_platform_control_pla.Gateway.Types.{
  Tier, premium, standard, Reason, input_rate_limit, backend_unregistered, telemetry_stale,
  not_engaged, premium_tier, below_threshold, admission_is_off, within_budget, input_exceeds_burst,
  kv_cache_pressure, no_reason, BackendState, AdmissionMode,
}
use gpu_platform_control_pla.Gateway.Writer.{Headers, set_header, Client}
use gpu_platform_control_pla.Gateway.Forward.{error_code}

unfoldable pub reason_text : Reason → Text
reason_text input_rate_limit = text "input_rate_limit"
reason_text backend_unregistered = text "backend_unregistered"
reason_text telemetry_stale = text "telemetry_stale"
reason_text not_engaged = text "not_engaged"
reason_text premium_tier = text "premium_tier"
reason_text below_threshold = text "below_threshold"
reason_text admission_is_off = text "admission_off"
reason_text within_budget = text "within_budget"
reason_text input_exceeds_burst = text "input_exceeds_burst"
reason_text kv_cache_pressure = text "kv_cache_pressure"
reason_text no_reason = []

abbrev pub tier_text : Tier → Text
tier_text premium = text "premium"
tier_text standard = text "standard"

-- %d of a natural number, on fuel; the number itself is enough.
digits_from : ℕ → ℕ → Text → Text
digits_from zero n acc = (48 + n % 10) ∷ acc
digits_from (suc f) n acc = elim (ltb n 10) [
  | true ↦ (48 + n) ∷ acc
  | false ↦ digits_from f (n / 10) ((48 + n % 10) ∷ acc)
]

digits : ℕ → Text
unfolding digits_from
digits n = digits_from n n []

show_int : ℤ → Text
unfolding digits
show_int (pos n) = digits n
show_int (negsuc n) = text "-" ++ digits (suc n)

-- The nearest number of thousandths of a number of units, ties to even.
thousandths : ℕ → ℕ
unfolding unit
thousandths n =
    let q = (n * 1000) / unit in
    let r = 2 * ((n * 1000) % unit) in if ltb unit r || (r == unit && q % 2 == 1) then q + 1 else q

show_thousandths : ℕ → Text
unfolding thousandths digits
show_thousandths n =
    let q = thousandths n in
    digits (q / 1000)
    ++ (text "." ++ (digits ((q / 100) % 10) ++ (digits ((q / 10) % 10) ++ digits (q % 10))))

-- %.3f.
show_float3 : Float → Text
unfolding show_thousandths
show_float3 nan = text "NaN"
show_float3 (inf true) = text "+Inf"
show_float3 (inf false) = text "-Inf"
show_float3 (fin (pos n)) = show_thousandths n
show_float3 (fin (negsuc n)) = text "-" ++ show_thousandths (suc n)

unfoldable pub bool_to_digit : Bool → ℕ
bool_to_digit true = 1
bool_to_digit false = 0

unfoldable pub format_backend_state : BackendState → Text
unfolding show_float3 show_int digits bool_to_digit
format_backend_state st =
    text "kv="
    ++ (show_float3 st.cache_usage
        ++ (text ",waiting="
            ++ (show_int st.waiting
                ++ (text ",engaged="
                    ++ (digits (bool_to_digit st.engaged)
                        ++ (text ",fresh=" ++ digits (bool_to_digit st.fresh)))))))

formats_state :
    format_backend_state (record {
      cache_usage = fin (pos ((unit * 8342) / 10000));
      waiting = pos 7;
      engaged = false;
      fresh = true;
    })
    ≡ text "kv=0.834,waiting=7,engaged=0,fresh=1"
unfolding format_backend_state unit show_float3 show_int digits bool_to_digit show_thousandths
    thousandths digits_from
formats_state = refl

-- The counters that a request moves, with their labels. A status is the label's number.
pub data Event : Type 0 where
  requests : Text → Text → ℕ → Event
  rate_limited : Text → Event
  admission_decisions : AdmissionMode → Text → Text → Text → Reason → Event
  admission_input_tokens : AdmissionMode → Text → Text → ℕ → Event
  upstream_errors : Text → Text → Event
  backend_fallbacks : Text → Text → Event

-- The message of a failure: the status text, alone or with the quoted model.
pub data Message : Type 0 where
  status_text : ℕ → Message
  unresolved : ℕ → Text → Message

-- A failure the gateway composes, or the response that the proxy wrote.
pub data Answer : Type 0 where
  failure : ℕ → Text → Message → Headers → Answer
  forwarded : Client → Answer

-- The Content-Type that writeJSONErrorCode sets.
abbrev pub json_headers : Headers → Headers
json_headers h = set_header (text "Content-Type") (text "application/json") h

pub record Told : Type 0 where
  pub events : List Event
  pub answer : Answer
  -- The reverse proxy left the handler by http.ErrAbortHandler.
  pub aborted : Bool

unfoldable pub fail : Headers → Text → Text → ℕ → Told
unfolding error_code set_header
fail h tenant model code = record {
  events = requests tenant model code ∷ [];
  answer = failure code (error_code code) (status_text code) (json_headers h);
  aborted = false;
}

unfoldable pub unresolved_model_label : Text
unresolved_model_label = text "_unresolved"

unfoldable pub fail_unresolved_model : Headers → Text → Text → ℕ → Told
unfolding error_code unresolved_model_label set_header
fail_unresolved_model h tenant model code = record {
  events = requests tenant unresolved_model_label code ∷ [];
  answer = failure code (error_code code) (unresolved code model) (json_headers h);
  aborted = false;
}

unfoldable pub fail_reason : Headers → Text → Text → ℕ → Reason → Told
unfolding reason_text set_header
fail_reason h tenant model code reason = record {
  events = requests tenant model code ∷ [];
  answer =
      failure code (reason_text reason) (status_text code)
        (json_headers (set_header (text "Retry-After") (text "5") h));
  aborted = false;
}

-- What the client sees of an answer. Where a handler returns with nothing written, net/http sends
-- 200 and an empty body.
unfoldable pub status_seen : Answer → ℕ
status_seen (failure status code message h) = status
status_seen (forwarded c) = elim c.sent [ none ↦ 200 | some (status, h) ↦ status ]

unfoldable pub is_empty_reply : Answer → Bool
is_empty_reply (failure status code message h) = false
is_empty_reply (forwarded c) = elim c.sent [
  | some s ↦ false
  | none ↦ elim c.body [ [] ↦ true | b ∷ bs ↦ false ]
]
