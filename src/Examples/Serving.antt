-- ===== src/Examples/Serving.antt =====
-- Runs of the handler, its attempts and the authentication.
use jbalance.Common.{
  length, ◌+◌, ltb, if◌then◌else◌, returned, ◌≡◌, ◌↔◌, refl, true, false, none, List, [], ◌∷◌, ◌*◌,
  pos, bytes, text_eq, arith,
}
use jbalance.Samples.{milli, milli_order, no_luck, no_luck-InRange, sort_points, sort_points-Sorts}
use jbalance.Examples.Fleet.{fleet, fleet-IsValid}
use jbalance.Examples.Balancing.{fleet-Unique}
use jbalance.Proto.{RouteAuth}
use jbalance.Dataplane.Proxy.{ProxyConfig}
use jbalance.Dataplane.EdgeAuth.{JwtLibrary, admitted, authenticate, authorize, request_metadata}
use jbalance.Dataplane.EdgeAuth.Admission.{Admits, authenticate_iff, authorize-request_metadata}
use jbalance.Dataplane.RetryWriter.{
  Call, adds, writes, writes_header, flush_to, buffer, new_retry_response_writer,
}
use jbalance.Dataplane.RetryWriter.Replay.{status_of, body_of, flush_to-buffer}
use jbalance.Dataplane.Serving.{
  Surroundings, Incoming, Handled, Served, serve_with_retries, handler,
}
use jbalance.Dataplane.Serving.Actives.{actives}
use jbalance.Dataplane.Serving.Repeats.{IsAllowed}
use jbalance.Dataplane.Serving.Attempts.{IsOrderly, FromOne, FoundOne, serve_with_retries-Settles}
use jbalance.Dataplane.Serving.Answers.{Answers, handler-Answers}

-- A backend that answers 404 in two writes.
abbrev two_writes : List Call
two_writes =
    adds (bytes "Server") (bytes "x")
    ∷ writes_header 404
    ∷ writes (bytes "not ")
    ∷ writes (bytes "found")
    ∷ []

flush_to-buffer_example :
    (status_of (flush_to (buffer new_retry_response_writer two_writes)) ≡ status_of two_writes)
    × (body_of (flush_to (buffer new_retry_response_writer two_writes)) ≡ body_of two_writes)
flush_to-buffer_example = flush_to-buffer ⦃p = milli⦄ two_writes

abbrev keyed : RouteAuth
keyed = record {
  mode = bytes "api_key";
  api_keys = bytes "k1" ∷ bytes "k2" ∷ [];
  api_key_header = [];
  hmac_secret = [];
  rsa_public_key_pem = [];
  expected_issuer = [];
  expected_audience = [];
}

-- A parser that takes no token.
abbrev no_tokens : JwtLibrary
no_tokens = record { parse = λ token key issuer audience. none; rsa_public_key = λ pem. none }

authenticate_iff_example :
    (authenticate no_tokens keyed ((bytes "X-API-Key", bytes "k2" ∷ []) ∷ []) ≡ admitted)
    ↔ Admits no_tokens keyed ((bytes "X-API-Key", bytes "k2" ∷ []) ∷ [])
authenticate_iff_example =
    authenticate_iff no_tokens keyed ((bytes "X-API-Key", bytes "k2" ∷ []) ∷ [])

authorize-request_metadata_example :
    (authorize (bytes "token") (request_metadata (bytes "token") ∷ []) ≡ admitted)
    ↔ (bytes "token" ≡ bytes "token")
unfolding text_eq
authorize-request_metadata_example =
    authorize-request_metadata (bytes "token") (bytes "token") refl refl

abbrev settings : ProxyConfig
settings = record {
  connect_timeout = pos 0;
  response_timeout = pos 0;
  max_retries = pos 2;
  retry_backoff = pos 0;
  backend_protocol = [];
}

-- The first backend does not answer, the second does.
abbrev flaky : Surroundings
flaky = record {
  intn = λ k. no_luck;
  sort = λ k. sort_points;
  selected_at = λ k. 20 * k + 10;
  recorded_at = λ k. 20 * k + 20;
  upstream = λ k addr. record {
    calls = two_writes;
    status_code = 502;
    failed = if ltb k 1 then true else false;
  };
  gone = λ k. false;
}

flaky-IsOrderly : IsOrderly flaky
flaky-IsOrderly = record {
  draws = λ k. no_luck-InRange;
  sorts = λ k. sort_points-Sorts;
  answered = λ k. omega arith;
  retried = λ k. omega arith;
}

abbrev plain : Incoming
plain = record {
  request = record {
    host = [];
    path = bytes "/";
    method = bytes "GET";
    header = none;
    query = none;
  };
  header = [];
  has_body = false;
  content_length = pos 0;
  client = bytes "c";
  cookies = λ name. none;
}

serve_with_retries-Settles_example :
    (s : Served milli) × (serve_with_retries settings flaky plain (fleet []) ≡ returned s)
    × IsAllowed settings plain (length s.tried)
    × (actives s.backends.entries ≡ actives (fleet []).entries)
    × FromOne flaky s.calls
    × FoundOne flaky s
serve_with_retries-Settles_example =
    serve_with_retries-Settles milli_order settings flaky flaky-IsOrderly plain (fleet [])
      (fleet-IsValid []) fleet-Unique

handler-Answers_example :
    (h : Handled) × (handler no_tokens keyed settings flaky plain 10 (fleet []) ≡ returned h)
    × Answers no_tokens keyed settings flaky plain 10 (fleet []) h
    × (actives h.backends.entries ≡ actives (fleet []).entries)
handler-Answers_example =
    handler-Answers milli_order no_tokens keyed settings flaky flaky-IsOrderly plain 10 (fleet [])
      (omega arith) (fleet-IsValid []) fleet-Unique
