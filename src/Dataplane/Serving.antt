-- ===== src/Dataplane/Serving.antt =====
-- internal/dataplane/proxy.go: the handler and its attempts. The reverse proxy of net/http is
-- outside: what it did in an attempt is an argument. Between the calls of one request others may
-- change the backend list; the request is followed as if it were alone.
pub mod Actives
pub mod Repeats
pub mod Attempts
pub mod Answers
use jbalance.Common.{
  ℕ, zero, suc, ◌+◌, ◌<◌, Bool, true, false, not, ◌&&◌, ◌||◌, Option, none, some, List, [], ◌∷◌,
  ◌++◌, ℤ, pos, pos_part, ltb, ltb_ℤ, eqb_ℤ, Text, bytes, is_empty, text_instance, ◌==◌,
  if◌then◌else◌, Run, returned, panicked, ◌>>=◌, split_on,
}
use jbalance.Platform.{Platform}
use jbalance.Http.{Values, Request, header_values}
use jbalance.Proto.{RouteAuth}
use jbalance.Dataplane.Ring.{RingPoint}
use jbalance.Dataplane.Backends.{BackendList, record_result, release, rate_limit_allow}
use jbalance.Dataplane.Proxy.{ProxyConfig, Chosen, Cookie, select_backend, affinity_cookie}
use jbalance.Dataplane.EdgeAuth.{
  JwtLibrary, Verdict, admitted, rejected, authenticate, enabled, auth_challenge, header_get,
}
use jbalance.Dataplane.RetryWriter.{
  Call, RetryResponseWriter, buffer, flush_to, new_retry_response_writer, adds, writes,
  writes_header,
}

-- What one pass through the reverse proxy did: the calls it made of its writer, the status that
-- its hooks stored, and whether the connection to the backend failed.
pub record Upstream : Type 0 where
  pub calls : List Call
  pub status_code : ℕ
  pub failed : Bool

-- A request, with its body: whether r.Body is neither nil nor http.NoBody, and its length.
pub record Incoming : Type 0 where
  pub request : Request
  pub header : Values
  pub has_body : Bool
  pub content_length : ℤ
  pub client : Text
  pub cookies : Text → Option Text

-- What the surroundings do to attempt `k`: the draws and the sort of its selection, the times of
-- its selection and of its result, the answer of the backend, and whether the client is gone
-- before the back-off ends.
pub record Surroundings : Type 0 where
  pub intn : ℕ → ℕ → ℕ → ℕ
  pub sort : ℕ → List RingPoint → List RingPoint
  pub selected_at : ℕ → ℕ
  pub recorded_at : ℕ → ℕ
  pub upstream : ℕ → Text → Upstream
  pub gone : ℕ → Bool

-- What a request leaves: the list, the status and whether a backend was available, the calls made
-- of the client's writer, the cookies set on it, and the backends tried, in order.
pub record Served (p : Platform) : Type 0 where
  pub backends : BackendList p
  pub status_code : ℕ
  pub available : Bool
  pub calls : List Call
  pub cookies : List (Text × Text)
  pub tried : List Text

abbrev pub cookie_list : Cookie → List (Text × Text)
cookie_list none = []
cookie_list (some c) = c ∷ []

module _ ⦃p : Platform⦄ where
  -- The tokens of one Connection header.
  unfoldable pub upgrade_token : List Text → Bool
  upgrade_token [] = false
  upgrade_token (tok ∷ toks) =
      if p.equal_fold (p.trim_space tok) (bytes "upgrade") then true else upgrade_token toks

  unfoldable pub any_upgrade : List Text → Bool
  unfolding upgrade_token split_on
  any_upgrade [] = false
  any_upgrade (v ∷ vs) = if upgrade_token (split_on 44 v) then true else any_upgrade vs

  unfoldable pub request_is_upgrade : Values → Bool
  unfolding any_upgrade header_get header_values
  request_is_upgrade h =
      any_upgrade (header_values h (bytes "Connection"))
      && not (is_empty (header_get h (bytes "Upgrade")))

  unfoldable pub request_retryable : Incoming → Bool
  unfolding request_is_upgrade
  request_retryable r =
      if request_is_upgrade r.header
      then false
      else if r.has_body && not (eqb_ℤ r.content_length (pos 0))
      then false
      else r.request.method == bytes "GET"
        || r.request.method == bytes "HEAD"
        || r.request.method == bytes "OPTIONS"
        || r.request.method == bytes "TRACE"

  -- The list after the attempt: its result recorded, then the deferred release.
  unfoldable pub after_attempt : ℕ → Text → Upstream → BackendList p → BackendList p
  unfolding record_result release
  after_attempt now addr up b =
      release addr (record_result now addr (not up.failed && ltb up.status_code 500) b)

  -- What reaches the client of an attempt.
  unfoldable pub passed_on : Bool → Upstream → List Call
  unfolding buffer flush_to
  passed_on buffered up =
      if buffered
      then (if up.failed then [] else flush_to (buffer new_retry_response_writer up.calls))
      else up.calls

  -- The attempt's calls, cookie and backend before those of the attempts that follow.
  abbrev pub after_retry : List Call → List (Text × Text) → Text → Run (Served p) → Run (Served p)
  after_retry calls cookies addr panicked = panicked
  after_retry calls cookies addr (returned rest) = returned (record rest {
    calls = calls ++ rest.calls;
    cookies = cookies ++ rest.cookies;
    tried = addr ∷ rest.tried;
  })

  -- A return after the attempt.
  abbrev pub one_attempt : BackendList p → ℕ → List Call → Cookie → Text → Served p
  one_attempt after status calls cookie addr = record {
    backends = after;
    status_code = status;
    available = true;
    calls = calls;
    cookies = cookie_list cookie;
    tried = addr ∷ [];
  }

  -- What follows the answer of the backend to attempt `k`: a return, or `next` on the list that is
  -- left. At most `left` attempts may follow.
  unfoldable pub after_answer :
      ProxyConfig
      → Surroundings
      → Bool
      → ℕ
      → ℕ
      → (BackendList p → Run (Served p))
      → BackendList p
      → Text
      → Cookie
      → Run (Served p)
  unfolding after_attempt passed_on
  after_answer cfg env retryable left k next chosen addr cookie =
      let up = env.upstream k addr in
      let last = not (ltb 0 left) in
      let after = after_attempt (env.recorded_at k) addr up chosen in
      let calls = passed_on (retryable && not last) up in
      if not up.failed || last
      then returned (one_attempt after up.status_code calls cookie addr)
      else if ltb_ℤ (pos 0) cfg.retry_backoff && env.gone k
      then returned (one_attempt after 502 calls cookie addr)
      else after_retry calls (cookie_list cookie) addr (next after)

  unfoldable pub after_choice :
      ProxyConfig
      → Surroundings
      → Bool
      → ℕ
      → ℕ
      → (BackendList p → Run (Served p))
      → Chosen
      → Run (Served p)
  unfolding after_answer
  after_choice cfg env retryable left k next panicked = panicked
  after_choice cfg env retryable left k next (returned (chosen, none, cookie)) = returned (record {
    backends = chosen;
    status_code = 0;
    available = false;
    calls = [];
    cookies = cookie_list cookie;
    tried = [];
  })
  after_choice cfg env retryable left k next (returned (chosen, some addr, cookie)) =
      after_answer cfg env retryable left k next chosen addr cookie

  -- The attempts from number `k` on, of which at most `left` are made.
  unfoldable pub serve_loop :
      ProxyConfig → Surroundings → Incoming → Bool → ℕ → ℕ → BackendList p → Run (Served p)
  unfolding select_backend after_choice affinity_cookie
  serve_loop cfg env r retryable zero k b = returned (record {
    backends = b;
    status_code = 502;
    available = true;
    calls = [];
    cookies = [];
    tried = [];
  })
  serve_loop cfg env r retryable (suc left) k b =
      after_choice cfg env retryable left k (serve_loop cfg env r retryable left (suc k)) (
        select_backend (env.intn k) (env.sort k) (env.selected_at k) r.client
          (r.cookies (affinity_cookie b.sticky.cookie_name)) b)

  -- The bound of the loop over the attempts.
  unfoldable pub attempts : ProxyConfig → Bool → ℕ
  attempts cfg retryable = if retryable then 1 + pos_part cfg.max_retries else 1

  unfoldable pub serve_with_retries :
      ProxyConfig → Surroundings → Incoming → BackendList p → Run (Served p)
  unfolding serve_loop request_retryable attempts
  serve_with_retries cfg env r b =
      let retryable = request_retryable r in
      serve_loop cfg env r retryable (attempts cfg retryable) 0 b

  -- What the handler answers: the status, the challenge of a 401, and what was served.
  pub record Handled : Type 0 where
    pub backends : BackendList p
    pub status_code : ℕ
    pub challenge : Option Text
    pub served : Option (Served p)

  abbrev pub answer : Served p → Handled
  answer s = record {
    backends = s.backends;
    status_code = if s.available then s.status_code else 503;
    challenge = none;
    served = some s;
  }

  -- Past the authentication: the client's limit at time `now`, and the attempts.
  unfoldable pub handle_admitted :
      ProxyConfig → Surroundings → Incoming → ℕ → BackendList p → Run Handled
  unfolding rate_limit_allow serve_with_retries
  handle_admitted cfg env r now b =
      let (limited, ok) = rate_limit_allow now r.client b in
      if not ok
      then returned
          (record { backends = limited; status_code = 429; challenge = none; served = none })
      else do s ← serve_with_retries cfg env r limited; returned (answer s)

  -- Handler, after the route's group and authentication have been resolved; `b` is the group's list.
  unfoldable pub handler :
      JwtLibrary
      → RouteAuth
      → ProxyConfig
      → Surroundings
      → Incoming
      → ℕ
      → BackendList p
      → Run Handled
  unfolding authenticate enabled auth_challenge handle_admitted
  handler j auth cfg env r now b =
      if enabled auth
      then elim (authenticate j auth r.header) [
        | admitted ↦ handle_admitted cfg env r now b
        | rejected reason ↦ returned (record {
          backends = b;
          status_code = 401;
          challenge = some (auth_challenge auth);
          served = none;
        })
      ]
      else handle_admitted cfg env r now b
