-- ===== src/Middleware.antt =====
-- The helpers of src/context_proxy/observability/middleware.py. Header names and values are texts,
-- decoded from Latin-1.
pub mod Body
pub mod Call
pub mod Accounting
pub mod Guards
pub mod RequestId
use text.Mathlib.Text.{starts_with}
use low_context_inference.Base.{
  ℕ, zero, suc, ◌+◌, ◌-◌, Bool, true, false, not, ◌&&◌, ◌||◌, Option, none, some, String, ◌<>◌,
  List, [], ◌∷◌, ◌++◌, ◌==◌, ltb, leb, is_some, str_eq, if◌then◌else◌, any, length,
}
use low_context_inference.Json.{Value, null, str, obj, end, field, code_points}

abbrev pub request_id_max_chars : ℕ
request_id_max_chars = 128

-- `[\x21-\x7E]`
abbrev pub is_visible : ℕ → Bool
is_visible c = leb 33 c && leb c 126

-- `$` matches at the end, and before a line feed that ends the text
abbrev pub is_line_end : List ℕ → Bool
is_line_end [] = true
is_line_end (c ∷ []) = c == 10
is_line_end (c ∷ d ∷ cs) = false

-- `_SAFE_REQUEST_ID.match`, with `n` visible characters read so far
unfoldable pub matches : ℕ → List ℕ → Bool
matches n [] = leb 1 n && leb n request_id_max_chars
matches n (c ∷ cs) =
    let rest = matches (suc n) cs in
    if is_visible c then rest else leb 1 n && leb n request_id_max_chars && is_line_end (c ∷ cs)

unfoldable pub sanitize_request_id : Option String → Option String
unfolding matches
sanitize_request_id none = none
sanitize_request_id (some raw) =
    if not (str_eq raw "") && matches 0 (code_points raw) then some raw else none

abbrev pub route_aliases : List (String × String)
route_aliases =
    ("/v1/chat/completions", "/v1/chat/completions")
    ∷ ("/v1/models", "/v1/models")
    ∷ ("/metrics", "/metrics")
    ∷ ("/healthz", "/healthz")
    ∷ ("/readyz", "/readyz")
    ∷ []

abbrev pub rate_limit_exempt_routes : List String
rate_limit_exempt_routes = "/healthz" ∷ "/readyz" ∷ "/metrics" ∷ []

unfoldable pub internal_route : String → String
internal_route path =
    if starts_with path "/internal/v1/conversations/"
    then "/internal/v1/conversations/{id}"
    else if starts_with path "/internal/v1/memories/"
    then "/internal/v1/memories/{id}"
    else if starts_with path "/internal/v1"
    then "/internal/v1/*"
    else "other"

-- the loop over the aliases
unfoldable pub route_from : String → List (String × String) → String
unfolding internal_route
route_from path [] = internal_route path
route_from path ((prefix, template) ∷ aliases) =
    let rest = route_from path aliases in
    if str_eq path prefix || starts_with path (prefix <> "/") then template else rest

unfoldable pub normalize_route : String → String
unfolding route_from
normalize_route path = route_from path route_aliases

-- `err_type or (...)`
abbrev pub type_of_error : Option String → ℕ → String
type_of_error (some err_type) status_code = err_type
type_of_error none status_code =
    if ltb status_code 500 then "invalid_request_error" else "api_error"

-- the content of `_error_response`
abbrev pub error_content : ℕ → String → String → Option String → Value
error_content status_code code message err_type = obj (
    field "error"
      (obj (
        field "message" (str message) (
          field "type" (str (type_of_error err_type status_code))
            (field "param" null (field "code" (str code) end)))))
      end)

-- a message of ASGI that `receive` returns; `body` may be missing, which counts as empty
pub data Incoming : Type 0 where
  request : (body : List ℕ) (more_body : Bool) → Incoming
  disconnect : Incoming
  other_type : Incoming

-- a message that is sent
pub data Outgoing : Type 0 where
  start : (status : ℕ) (headers : List (String × String)) → Outgoing
  content : (body : List ℕ) (more_body : Bool) → Outgoing

pub record Scope : Type 0 where
  pub is_http : Bool
  pub method : String
  pub path : String
  pub headers : List (String × String)
  pub client : Option String

-- `_header`
unfoldable pub header_in : List (String × String) → String → Option String
header_in [] name = none
header_in ((key, value) ∷ headers) name =
    let rest = header_in headers name in if str_eq key name then some value else rest

unfoldable pub header : Scope → String → Option String
unfolding header_in
header scope name = header_in scope.headers name

abbrev pub client_host : Scope → String
client_host scope = elim scope.client [ none ↦ "unknown" | some host ↦ host ]

-- what `_drain_body` returns; `waits` is a `receive` that never returns
pub data Drained : Type 0 where
  ok : (buffered : List Incoming) → Drained
  oversized disconnected waits : Drained

-- the loop, from `total` bytes and the messages buffered so far; what is left to receive comes second
unfoldable pub drain_from : ℕ → ℕ → List Incoming → List Incoming → Drained × List Incoming
drain_from max_body_bytes total buffered [] = (waits, [])
drain_from max_body_bytes total buffered (disconnect ∷ ms) = (disconnected, ms)
drain_from max_body_bytes total buffered (other_type ∷ ms) =
    drain_from max_body_bytes total buffered ms
drain_from max_body_bytes total buffered (request body more_body ∷ ms) =
    let rest =
      drain_from max_body_bytes (total + length body) (buffered ++ request body more_body ∷ [])
        ms in
    if ltb max_body_bytes (total + length body)
    then (oversized, ms)
    else if more_body
    then rest
    else (ok (buffered ++ request body more_body ∷ []), ms)

unfoldable pub drain_body : ℕ → List Incoming → Drained × List Incoming
unfolding drain_from
drain_body max_body_bytes ms = drain_from max_body_bytes 0 [] ms

-- what the calls of `_replaying_receive` return, in order
abbrev pub replaying_receive : List Incoming → List Incoming → List Incoming
replaying_receive messages left = messages ++ left

-- `state.stages`, which may not be there yet: the seconds of each stage by its name
abbrev pub set_stage : String → ℕ → List (String × ℕ) → List (String × ℕ)
set_stage name seconds [] = (name, seconds) ∷ []
set_stage name seconds ((n, s) ∷ stages) =
    let rest = set_stage name seconds stages in
    if str_eq n name then (n, seconds) ∷ stages else (n, s) ∷ rest

unfoldable pub record_stage : String → ℕ → ℕ → Option (List (String × ℕ)) → List (String × ℕ)
record_stage name started now none = set_stage name (now - started) []
record_stage name started now (some stages) = set_stage name (now - started) stages
