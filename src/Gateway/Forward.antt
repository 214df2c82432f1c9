-- ===== src/Gateway/Forward.antt =====
-- Forwarding with fallback (internal/gateway/proxy.go): the proxy's ErrorHandler and tryBackends. What
-- an upstream does with an attempt, and whether the client has gone by its end, are given.
pub mod Attempts
pub mod Replay
pub mod Fallback
pub mod Status
use gpu_platform_control_pla.Base.{
  ℕ, ◌+◌, ◌≡◌, Bool, true, false, not, ◌&&◌, ◌||◌, List, [], ◌∷◌, ◌++◌, Option, none, some, take,
  ◌==◌, if◌then◌else◌,
}
use gpu_platform_control_pla.Base.Text.{Text, text}
use gpu_platform_control_pla.Base.Maps.{Map, lookup, insert}
use gpu_platform_control_pla.Gateway.Writer.{
  set_header, StatusRecorder, AttemptWriter, on_header, att_write_header, att_write, Call, perform,
}

-- An error of the round trip, as far as errors.As looks at it.
pub record RoundTripError : Type 0 where
  pub is_dial : Bool
  pub is_timeout : Bool

unfoldable pub never_reached_backend : RoundTripError → Bool
never_reached_backend e = e.is_dial

pub data Outcome : Type 0 where
  -- The calls on the writer, and whether the copy of the body fails after them: under a server the
  -- reverse proxy then leaves the handler by panicking with http.ErrAbortHandler.
  answered : Bool → List Call → Outcome
  broke : RoundTripError → Outcome

unfoldable pub aborts : Outcome → Bool
aborts (answered cut cs) = cut
aborts (broke e) = false

pub record Attempt : Type 0 where
  pub outcome : Outcome
  pub cancelled : Bool  -- the request's context, once the attempt is over

-- 504 where the error is a timeout, else 502.
unfoldable pub failure_code : RoundTripError → ℕ
failure_code e = if e.is_timeout then 504 else 502

unfoldable pub public_upstream_message : ℕ → Text
public_upstream_message code =
    if code == 504
    then text "the model backend did not respond in time"
    else text "the model backend could not be reached"

unfoldable pub error_code : ℕ → Text
error_code status =
    if status == 400
    then text "bad_request"
    else if status == 401
    then text "unauthorized"
    else if status == 403
    then text "no_policy"
    else if status == 404
    then text "model_not_found"
    else if status == 429
    then text "rate_limited"
    else if status == 413
    then text "payload_too_large"
    else if status == 502
    then text "bad_gateway"
    else if status == 504
    then text "upstream_timeout"
    else if status == 503
    then text "gateway_unavailable"
    else text "internal_error"

-- The JSON envelope of a failure; code and message need no escape.
unfoldable pub json_error : Text → Text → Text
json_error code message =
    text "{\"error\":{\"code\":\""
    ++ (code ++ (text "\",\"message\":\"" ++ (message ++ text "\"}}\n")))

-- writeJSONError onto an attempt's writer.
unfoldable pub write_json_error : ℕ → Text → AttemptWriter → AttemptWriter
unfolding on_header att_write_header att_write set_header
write_json_error status message a = att_write (json_error (error_code status) message) (
    att_write_header status
      (on_header (set_header (text "Content-Type") (text "application/json")) a))

-- One attempt: the proxy serves it, and the ErrorHandler where the round trip failed.
unfoldable pub serve : Outcome → AttemptWriter → AttemptWriter
unfolding perform write_json_error
serve (answered cut cs) a = perform cs a
serve (broke e) a =
    let code = failure_code e in
    write_json_error code (public_upstream_message code)
      (record a { failed = true; replayable = never_reached_backend e })

abbrev pub max_backend_attempts : ℕ
max_backend_attempts = 2

unfoldable pub cap_backend_attempts {ℓ} : {A : Type ℓ} → List A → List A
cap_backend_attempts targets = take max_backend_attempts targets

-- The recorder's part of the failure callback of chatCompletions.
abbrev pub note_failure : Bool → ℕ → StatusRecorder → StatusRecorder
note_failure true code r = record r { code = code }
note_failure false code r = r

-- The callback runs inside the ErrorHandler, before the handler writes.
abbrev pub call_back : Bool → Outcome → StatusRecorder → StatusRecorder
call_back last (answered cut cs) r = r
call_back last (broke e) r = note_failure last (failure_code e) r

abbrev pub failure_of : Outcome → Bool → List (ℕ × Bool)
failure_of (answered cut cs) last = []
failure_of (broke e) last = (failure_code e, last) ∷ []

pub record Forwarded : Type 0 where
  pub rec : StatusRecorder
  pub advanced : Bool
  -- The failure callbacks, with their codes and whether each was final.
  pub failures : List (ℕ × Bool)
  -- How many attempts were made.
  pub tried : ℕ
  -- The handler was left in the last of them.
  pub aborted : Bool

-- The writer of one attempt.
unfoldable pub attempt_writer : StatusRecorder → Bool → AttemptWriter
attempt_writer r suppress = record {
  rec = r;
  scratch = none;
  suppress = suppress;
  failed = false;
  wrote = false;
  replayable = false;
}

unfoldable pub attempt : StatusRecorder → Bool → Attempt → AttemptWriter
unfolding serve attempt_writer
attempt r last a = serve a.outcome (attempt_writer (call_back last a.outcome r) (not last))

-- The loop of tryBackends. `rewinds` is whether GetBody is set and gives the body again.
unfoldable pub try_from : Bool → StatusRecorder → Bool → List Attempt → Forwarded
unfolding attempt aborts
try_from rewinds r advanced [] = record {
  rec = r;
  advanced = advanced;
  failures = [];
  tried = 0;
  aborted = false;
}
try_from rewinds r advanced (a ∷ []) = record {
  rec = (attempt r true a).rec;
  advanced = advanced;
  failures = failure_of a.outcome true;
  tried = 1;
  aborted = aborts a.outcome;
}
try_from rewinds r advanced (a ∷ (b ∷ rest)) =
    let att = attempt r false a in
    let further = try_from rewinds att.rec true (b ∷ rest) in
    if not att.failed || att.wrote || not att.replayable || a.cancelled || not rewinds
    then record {
      rec = att.rec;
      advanced = advanced;
      failures = failure_of a.outcome false;
      tried = 1;
      aborted = aborts a.outcome;
    }
    else record further {
      failures = failure_of a.outcome false ++ further.failures;
      tried = further.tried + 1;
    }

unfoldable pub try_backends : Bool → StatusRecorder → List Attempt → Forwarded
unfolding cap_backend_attempts try_from
try_backends rewinds r attempts = try_from rewinds r false (cap_backend_attempts attempts)
