-- ===== src/Tests/Http.antt =====
-- Requests that pass the middleware.
use low_context_inference.Base.{
  ℕ, ◌+◌, ◌≡◌, refl, ◌↔◌, true, false, ◌||◌, Option, none, some, String, List, [], ◌∷◌, str_eq,
  if◌then◌else◌,
}
use low_context_inference.Json.{code_points}
use low_context_inference.Limiter.{AdmissionDecision, allowed, refused, client}
use low_context_inference.Middleware.{
  Incoming, request, disconnect, other_type, Outgoing, start, content, Scope, header,
  sanitize_request_id, ok, oversized, drain_body,
}
use low_context_inference.Middleware.Body.{Accounts, drain_body-Accounts}
use low_context_inference.Middleware.RequestId.{IsSafe, sanitize_request_id_lem}
use low_context_inference.Middleware.Call.{
  Library, Ended, finished, broken, interrupted, Run, http_call,
}
use low_context_inference.Middleware.Accounting.{IsCounted, http_call-IsCounted}
use low_context_inference.Middleware.Guards.{Receives, IsWithin, IsLetThrough, http_call-Admitted}

abbrev lib : Library
lib = record {
  is_digit = λ t. str_eq t "9" || str_eq t "²";
  int_of = λ t. if str_eq t "9" then some 9 else none;
  print = λ n. "n";
  raw_headers = λ v hs. hs;
  render = λ v. [];
}

-- a client that sends three bytes in two messages
abbrev incoming : List Incoming
incoming = request (1 ∷ 2 ∷ []) true ∷ other_type ∷ request (3 ∷ []) false ∷ disconnect ∷ []

abbrev app : List Incoming → List Outgoing × Ended
app ms = (start 200 [] ∷ content (7 ∷ []) false ∷ [], finished)

abbrev failing : List Incoming → List Outgoing × Ended
failing ms = ([], broken)

abbrev admit : String → Option String → ℕ → ℕ × AdmissionDecision
admit host conversation l = if str_eq host "a" then (l + 1, allowed) else (l, refused client 2)

abbrev scope_of : List (String × String) → String → Scope
scope_of headers host = record {
  is_http = true;
  method = "POST";
  path = "/v1/models";
  headers = headers;
  client = some host;
}

drains :
    drain_body 3 incoming
    ≡ (ok (request (1 ∷ 2 ∷ []) true ∷ request (3 ∷ []) false ∷ []), disconnect ∷ [])
unfolding drain_body
drains = refl

stops : drain_body 1 incoming ≡ (oversized, other_type ∷ request (3 ∷ []) false ∷ disconnect ∷ [])
unfolding drain_body
stops = refl

drain_body-Accounts_example : Accounts 3 0 [] incoming (drain_body 3 incoming)
drain_body-Accounts_example = drain_body-Accounts 3 incoming

sanitize_request_id_lem_example :
    (sanitize_request_id (some "ab\n") ≡ some "ab\n") ↔ IsSafe 0 (code_points "ab\n")
sanitize_request_id_lem_example = sanitize_request_id_lem "ab\n"

line_feed_is_kept : sanitize_request_id (some "ab\n") ≡ some "ab\n"
unfolding sanitize_request_id
line_feed_is_kept = refl

line_feed_inside : sanitize_request_id (some "a\nb") ≡ none
unfolding sanitize_request_id
line_feed_inside = refl

abbrev run : List (String × String) → Run ℕ
run headers = http_call lib app admit true 3 (scope_of headers "a") "f" 0 incoming

counts_one : (run []).counted ≡ ("POST", "/v1/models", 200) ∷ []
unfolding http_call
counts_one = refl

-- An exception that leaves the middleware is not counted.
unparsed : (run (("content-length", "²") ∷ [])).counted ≡ []
unfolding http_call
unparsed = refl

counts_500 :
    (http_call lib failing admit true 3 (scope_of [] "a") "f" 0 incoming).counted
    ≡ ("POST", "/v1/models", 500) ∷ []
unfolding http_call
counts_500 = refl

-- A stream that is cancelled after its start is counted with its status, and not as aborted.
abbrev cancelled : List Incoming → List Outgoing × Ended
cancelled ms = (start 200 [] ∷ [], interrupted)

counts_cancelled :
    (http_call lib cancelled admit true 3 (scope_of [] "a") "f" 0 incoming).counted
    ≡ ("POST", "/v1/models", 200) ∷ []
unfolding http_call
counts_cancelled = refl

not_aborted :
    (http_call lib cancelled admit true 3 (scope_of [] "a") "f" 0 incoming).counts.streams_aborted
    ≡ 0
unfolding http_call
not_aborted = refl

refuses :
    (http_call lib app admit true 3 (scope_of [] "b") "f" 0 incoming).counted
    ≡ ("POST", "/v1/models", 429) ∷ []
unfolding http_call
refuses = refl

http_call-IsCounted_example :
    IsCounted (scope_of [] "a") (http_call lib app admit true 3 (scope_of [] "a") "f" 0 incoming)
http_call-IsCounted_example =
    http_call-IsCounted lib app admit true 3 (scope_of [] "a") "f" 0 incoming

abbrev lengthy : Scope
lengthy = scope_of (("content-length", "x") ∷ []) "a"

-- Three bytes are received over a cap of one.
http_call-Admitted_example :
    IsWithin lib app admit true 1 (header lengthy "content-length")
    × IsLetThrough lib app admit true 1 lengthy 0
    × Receives 1 (header lengthy "content-length") incoming incoming
unfolding http_call
http_call-Admitted_example =
    http_call-Admitted lib app admit true 1 lengthy "f" 0 incoming incoming refl
