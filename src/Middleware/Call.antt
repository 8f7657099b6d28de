-- ===== src/Middleware/Call.antt =====
-- `ObservabilityMiddleware.__call__` of src/context_proxy/observability/middleware.py. The application
-- is a parameter: what it sends for the messages that it can receive, and how it ends then. A
-- run records what the client is sent, what the application could receive, and the counters. An
-- exception of `receive` while the body is read, or of `send` in a rejection, is left out.
use low_context_inference.Base.{
  ℕ, Bool, true, false, not, ◌&&◌, Option, none, some, String, ◌<>◌, List, [], ◌∷◌, ◌++◌, ltb,
  str_eq, if◌then◌else◌, any,
}
use low_context_inference.Json.{Value, lower_equal}
use low_context_inference.Limiter.{AdmissionDecision, allowed, refused}
use low_context_inference.Middleware.{
  Incoming, Outgoing, start, content, Scope, header, client_host, sanitize_request_id,
  normalize_route, rate_limit_exempt_routes, error_content, ok, oversized, disconnected, waits,
  Drained, drain_body, replaying_receive,
}

-- Python's `str.isdigit`, `int` (`none` is a `ValueError`) and `str`, and Starlette's `JSONResponse`:
-- its headers, from the content and the given ones, and its body
pub record Library : Type 0 where
  pub is_digit : String → Bool
  pub int_of : String → Option ℕ
  pub print : ℕ → String
  pub raw_headers : Value → List (String × String) → List (String × String)
  pub render : Value → List ℕ

-- How the application ends: it returns, it raises an `Exception`, which one of its calls of `receive`
-- and `send` may have raised, or another `BaseException` such as a `CancelledError`.
pub data Ended : Type 0 where
  finished broken interrupted : Ended

-- how `__call__` ends
pub data Ending : Type 0 where
  returns raises is_interrupted waiting : Ending

abbrev pub ending_by : Ended → Ending
ending_by finished = returns
ending_by broken = raises
ending_by interrupted = is_interrupted

-- `response_status` and `response_started` of the state, with what was sent
pub record Progress : Type 0 where
  pub response_status : Option ℕ
  pub response_started : Bool
  pub sent : List Outgoing

abbrev pub nothing_sent : Progress
nothing_sent = record { response_status = none; response_started = false; sent = [] }

-- `headers`, with the request's id if they have none
abbrev pub with_request_id : String → List (String × String) → List (String × String)
with_request_id request_id headers =
    if any (λ h. lower_equal h.0 "x-request-id") headers
    then headers
    else headers ++ ("x-request-id", request_id) ∷ []

-- `send_wrapper`
unfoldable pub send_wrapper : String → Progress → Outgoing → Progress
unfolding lower_equal
send_wrapper request_id p (start status headers) = record {
  response_status = some status;
  response_started = true;
  sent = p.sent ++ start status (with_request_id request_id headers) ∷ [];
}
send_wrapper request_id p (content body more_body) = record p {
  sent = p.sent ++ content body more_body ∷ [];
}

unfoldable pub send_each : String → Progress → List Outgoing → Progress
unfolding send_wrapper
send_each request_id p [] = p
send_each request_id p (m ∷ ms) = send_each request_id (send_wrapper request_id p m) ms

pub record Counts : Type 0 where
  pub rate_limit_rejects : ℕ
  pub client_disconnects : ℕ
  pub streams_aborted : ℕ

abbrev pub no_counts : Counts
no_counts = record { rate_limit_rejects = 0; client_disconnects = 0; streams_aborted = 0 }

-- `counted` has the labels of each increment of HTTP_REQUESTS_TOTAL; `received` is `none` if the
-- application is not called.
pub record Run (L : Type 0) : Type 0 where
  pub sent : List Outgoing
  pub counted : List (String × String × ℕ)
  pub counts : Counts
  pub received : Option (List Incoming)
  pub limiter : L
  pub ending : Ending

-- `scope.get("path", "")` and the method label the increment that `finish` makes.
unfoldable pub finish : Scope → Option ℕ → List (String × String × ℕ)
unfolding normalize_route
finish scope none = []
finish scope (some status) = (scope.method, normalize_route scope.path, status) ∷ []

-- `x or None` of the value that names a conversation
abbrev pub named : Option String → Option String
named none = none
named (some key) = if str_eq key "" then none else some key

abbrev pub or_fresh : Option String → String → String
or_fresh none fresh = fresh
or_fresh (some request_id) fresh = request_id

module _ {L : Type 0} (lib : Library) (app : List Incoming → List Outgoing × Ended)
    (admit : String → Option String → L → L × AdmissionDecision) (rate_limit_enabled : Bool)
    (max_body_bytes : ℕ) where
  -- the `finally` block, after what was sent
  abbrev pub closed : Scope → Progress → Counts → Option (List Incoming) → L → Ending → Run L
  closed scope p counts received l ending = record {
    sent = p.sent;
    counted = finish scope p.response_status;
    counts = counts;
    received = received;
    limiter = l;
    ending = ending;
  }

  -- `reject`
  abbrev pub reject :
      String → ℕ → String → String → Option String → List (String × String) → Progress
  reject request_id status code message err_type extra_headers =
      let body = error_content status code message err_type in
      send_each request_id nothing_sent
        (start status (lib.raw_headers body extra_headers) ∷ content (lib.render body) false ∷ [])

  abbrev pub too_large : Scope → String → L → Run L
  too_large scope request_id l =
      closed scope
        (reject request_id 413 "request_too_large"
          ("request body exceeds " <> lib.print max_body_bytes <> " bytes") none [])
        no_counts none l returns

  abbrev pub rate_limited : Scope → String → ℕ → L → Run L
  rate_limited scope request_id retry_after l =
      closed scope
        (reject request_id 429 "rate_limit_exceeded" "rate limit exceeded" (some "rate_limit_error")
          (("Retry-After", lib.print retry_after) ∷ []))
        (record no_counts { rate_limit_rejects = 1 }) none l returns

  -- the status after an exception of the application
  abbrev pub failed : Progress → Progress
  failed p = if p.response_started then p else record p { response_status = some 500 }

  abbrev pub app_ended : Scope → L → List Incoming → Ended → Progress → Run L
  app_ended scope l received finished p = closed scope p no_counts (some received) l returns
  app_ended scope l received broken p =
      closed scope (failed p)
        (record no_counts { streams_aborted = if p.response_started then 1 else 0 }) (some received)
        l raises
  app_ended scope l received interrupted p =
      closed scope p no_counts (some received) l is_interrupted

  -- the call of the application
  abbrev pub run_app : Scope → String → L → List Incoming → Run L
  run_app scope request_id l received =
      let (messages, ended) = app received in
      app_ended scope l received ended (send_each request_id nothing_sent messages)

  -- what follows `_drain_body`
  abbrev pub after_drain : Scope → String → L → Drained × List Incoming → Run L
  after_drain scope request_id l (ok buffered, left) =
      run_app scope request_id l (replaying_receive buffered left)
  after_drain scope request_id l (oversized, left) = too_large scope request_id l
  after_drain scope request_id l (disconnected, left) =
      closed scope nothing_sent (record no_counts { client_disconnects = 1 }) none l returns
  after_drain scope request_id l (waits, left) = closed scope nothing_sent no_counts none l waiting

  -- without a Content-Length the body is read first
  unfoldable pub drained : Scope → String → L → List Incoming → Run L
  unfolding drain_body send_each finish
  drained scope request_id l ms = after_drain scope request_id l (drain_body max_body_bytes ms)

  abbrev pub application : Scope → String → L → List Incoming → Option String → Run L
  application scope request_id l ms none = drained scope request_id l ms
  application scope request_id l ms (some content_length) = run_app scope request_id l ms

  -- whether the rate limit applies
  unfoldable pub is_limited : Scope → Bool
  unfolding normalize_route
  is_limited scope =
      rate_limit_enabled && not (any (str_eq (normalize_route scope.path)) rate_limit_exempt_routes)

  unfoldable pub decision : Scope → L → L × AdmissionDecision
  unfolding is_limited header
  decision scope l =
      if is_limited scope
      then admit (client_host scope) (named (header scope "x-conversation-id")) l
      else (l, allowed)

  abbrev pub decided : Scope → String → List Incoming → L × AdmissionDecision → Run L
  decided scope request_id ms (l, refused dimension retry_after) =
      rate_limited scope request_id retry_after l
  decided scope request_id ms (l, allowed) =
      application scope request_id l ms (header scope "content-length")

  -- the first check; `none` is a `ValueError` of `int`
  unfoldable pub is_too_large : Option String → Option Bool
  is_too_large none = some false
  is_too_large (some content_length) =
      if lib.is_digit content_length
      then elim (lib.int_of content_length) [ none ↦ none | some n ↦ some (ltb max_body_bytes n) ]
      else some false

  -- what follows the first check
  unfoldable pub checked : Scope → String → L → List Incoming → Option Bool → Run L
  unfolding decision drained
  checked scope request_id l ms none = closed scope nothing_sent no_counts none l raises
  checked scope request_id l ms (some true) = too_large scope request_id l
  checked scope request_id l ms (some false) = decided scope request_id ms (decision scope l)

  -- a request over HTTP; `fresh` is the identifier that is generated
  unfoldable pub http_call : Scope → String → L → List Incoming → Run L
  unfolding is_too_large checked sanitize_request_id
  http_call scope fresh l ms =
      let request_id = or_fresh (sanitize_request_id (header scope "x-request-id")) fresh in
      checked scope request_id l ms (is_too_large (header scope "content-length"))

  -- Anything else goes to the application as it is.
  unfoldable pub call : Scope → String → L → List Incoming → Run L
  unfolding http_call
  call scope fresh l ms =
      let (messages, ended) = app ms in
      if scope.is_http then http_call scope fresh l ms else record {
        sent = messages;
        counted = [];
        counts = no_counts;
        received = some ms;
        limiter = l;
        ending = ending_by ended;
      }
