-- ===== src/Tests/Requests.antt =====
-- The results on requests as a whole, and on forwarding, at concrete values.
use gpu_platform_control_pla.Base.{
  ◌≤◌, ◌≡◌, refl, ◌↔◌, true, false, List, [], ◌∷◌, ◌++◌, none, some, take,
}
use gpu_platform_control_pla.Base.Text.{Text, text}
use gpu_platform_control_pla.Base.Maps.{Map, lookup}
use gpu_platform_control_pla.Gateway.Tenant.{
  resolve_tenant, fold_case, lower, is_space, of_entry, key_store_unavailable,
}
use gpu_platform_control_pla.Gateway.Tenant.Bearer.{bearer_resolves}
use gpu_platform_control_pla.Gateway.Body.{Content, plain, other, no_content, probed}
use gpu_platform_control_pla.Gateway.Writer.{writes_header, writes, StatusRecorder}
use gpu_platform_control_pla.Gateway.Forward.{Attempt, answered, broke, try_backends}
use gpu_platform_control_pla.Gateway.Forward.Replay.{Replayable}
use gpu_platform_control_pla.Gateway.Forward.Fallback.{
  fallback_iff, spare_answers_alone, deliveries, delivered_at_most_once,
}
use gpu_platform_control_pla.Gateway.Reply.{Told}
use gpu_platform_control_pla.Gateway.Admission.{kv_aware}
use gpu_platform_control_pla.Gateway.Server.{Gateway, chat_completions}
use gpu_platform_control_pla.Gateway.Stages.{Cluster, Request, proxy_stage}
use gpu_platform_control_pla.Gateway.Server.Accounting.{Ends, counted}
use gpu_platform_control_pla.Gateway.Tenant.{cut_space}
use gpu_platform_control_pla.Base.Text.{text_eq}
use gpu_platform_control_pla.Gateway.Reply.{fail}
use gpu_platform_control_pla.Gateway.Writer.{set_header}
use gpu_platform_control_pla.Gateway.Stages.{authenticate, on_tenant}
use gpu_platform_control_pla.Gateway.Server.{on_authenticated}
use gpu_platform_control_pla.Gateway.Server.Charging.{decisions, undecided_request_is_free}
use gpu_platform_control_pla.Gateway.Server.Status.{counted_status_is_sent}
use gpu_platform_control_pla.Gateway.Writer.{
  perform, on_header, att_write_header, att_write, promote, rec_write, rec_write_header,
  client_write, client_write_header,
}
use gpu_platform_control_pla.Gateway.Forward.{
  try_from, cap_backend_attempts, attempt, attempt_writer, serve, write_json_error,
  never_reached_backend,
}
use gpu_platform_control_pla.Gateway.Stages.{fresh_recorder}
use gpu_platform_control_pla.Gateway.Server.Answered.{answered_and_counted_once}
use gpu_platform_control_pla.Tests.Data.{kv_arm, buckets_lib}

abbrev keys : Map Text
keys = (text "k1", text "t") ∷ []

bearer_resolves_example :
    (resolve_tenant (some keys) (text "BEARER" ++ (32 ∷ ((32 ∷ []) ++ (107 ∷ (text "1" ++ [])))))
      ≡ of_entry (lookup (text "k1") keys))
    × (resolve_tenant none (text "BEARER" ++ (32 ∷ ((32 ∷ []) ++ (107 ∷ (text "1" ++ [])))))
        ≡ key_store_unavailable)
bearer_resolves_example =
    bearer_resolves keys (text "BEARER") 107 (text "1") (32 ∷ []) []
      (unfold fold_case lower in refl) (refl, (refl, (refl, (refl, (refl, (refl, tt))))))
      (unfold is_space in (refl, (refl, tt))) (unfold is_space in (refl, tt)) tt

abbrev messages : List Content
messages = plain 5 ∷ (no_content ∷ (other 4 ∷ []))

abbrev refused_dial : Attempt
refused_dial = record {
  outcome = broke (record { is_dial = true; is_timeout = false });
  cancelled = false;
}

abbrev hung : Attempt
hung = record { outcome = broke (record { is_dial = false; is_timeout = true }); cancelled = false }

abbrev serves : Attempt
serves = record {
  outcome = answered false (writes_header 200 ∷ (writes (text "x") ∷ []));
  cancelled = false;
}

abbrev start : StatusRecorder
start = record {
  client = record { live = []; sent = none; body = [] };
  code = 200;
  answered = false;
}

refused_dial-Replayable : Replayable true refused_dial
unfolding Replayable
refused_dial-Replayable = ((record { is_dial = true; is_timeout = false }, refl, refl), refl, refl)

fallback_iff_example :
    ((try_backends true start (refused_dial ∷ (serves ∷ []))).advanced ≡ true)
    ↔ Replayable true refused_dial
fallback_iff_example = fallback_iff true start refused_dial serves []

spare_answers_alone_example :
    (try_backends true start (refused_dial ∷ (serves ∷ []))).rec
    ≡ (try_backends true start (serves ∷ [])).rec
spare_answers_alone_example =
    spare_answers_alone true start refused_dial serves [] refused_dial-Replayable

-- A response whose body breaks off is in no count.
abbrev breaks_off : Attempt
breaks_off = record {
  outcome = answered true (writes_header 200 ∷ (writes (text "x") ∷ []));
  cancelled = false;
}

breaks_off-counted :
    counted (proxy_stage [] (text "t") (text "m") (refused_dial ∷ (breaks_off ∷ []))).events ≡ []
unfolding counted proxy_stage try_backends never_reached_backend
breaks_off-counted = refl

delivered_at_most_once_example :
    (deliveries (take (try_backends true start (hung ∷ (serves ∷ []))).tried (hung ∷ (serves ∷ [])))
      ≤ 1)
    × ((try_backends true start (hung ∷ (serves ∷ []))).tried ≤ 2)
delivered_at_most_once_example = delivered_at_most_once true start (hung ∷ (serves ∷ []))

abbrev gateway : Gateway buckets_lib
gateway = record {
  buckets = some [];
  admitter = some (kv_aware kv_arm);
  mode = text "kv-aware";
  report_backend_state = true;
  ready = true;
}

abbrev cluster : Cluster
cluster = record {
  api_keys = some keys;
  policies = some (
      record {
        name = text "p";
        created = 3;
        annotations = [];
        tenant = text "t";
        target_namespace = text "a";
        rate_limit = none;
      }
      ∷ []);
  deployments = λ namespace model. some (
      record { namespace = text "a"; name = text "h"; created = 3; port = 0; model_name = text "m" }
      ∷ []);
}

abbrev request : Request
request = record {
  request_id = [];
  fresh_id = text "r";
  authorization = text "Bearer k1";
  body = probed (text "m") messages;
  limited_at = 50;
  admitted_at = 51;
  upstream = λ b. serves;
}

answered_and_counted_once_example :
    (told : Told) × (g' : Gateway buckets_lib) × (chat_completions buckets_lib gateway cluster
        request
      ≡ some (told, g'))
    × Ends request.upstream told
answered_and_counted_once_example = answered_and_counted_once buckets_lib gateway cluster request

abbrev stranger : Request
stranger = record request { authorization = text "Basic k1" }

abbrev turned_away : Told
turned_away = fail (set_header (text "X-Request-Id") (text "r") []) [] [] 401

turned_away-answer :
    chat_completions buckets_lib gateway cluster stranger ≡ some (turned_away, gateway)
unfolding chat_completions authenticate resolve_tenant cut_space fold_case lower text_eq on_tenant
    on_authenticated
turned_away-answer = refl

undecided_request_is_free_example : gateway.admitter ≡ gateway.admitter
undecided_request_is_free_example =
    undecided_request_is_free buckets_lib gateway cluster stranger turned_away-answer
      (unfold decisions fail in refl)

served_status :
    (try_backends true (fresh_recorder []) (refused_dial ∷ (serves ∷ []))).rec.client.sent
    ≡ some (200, [])
unfolding try_backends try_from cap_backend_attempts attempt attempt_writer serve perform
    write_json_error on_header att_write_header att_write promote rec_write rec_write_header
    client_write client_write_header never_reached_backend fresh_recorder
served_status = refl

counted_status_is_sent_example :
    counted (proxy_stage [] (text "t") (text "m") (refused_dial ∷ (serves ∷ []))).events ≡ 200 ∷ []
unfolding try_backends never_reached_backend
counted_status_is_sent_example =
    counted_status_is_sent [] (text "t") (text "m") (refused_dial ∷ (serves ∷ [])) {status = 200}
      {sent = []} (tt, (tt, tt)) served_status
