-- ===== src/Provider/Replies.antt =====
-- src/context_proxy/api/responses.py: what the client is answered. `loads` is whether `json.loads`
-- accepts a body, and `starts_with` is Python's; a JSON response is written from its content.
use low_context_inference.Base.{
  ℕ, Bool, ◌&&◌, Option, none, some, String, List, [], ◌∷◌, if◌then◌else◌,
}
use low_context_inference.Json.{Value, null, str, obj, Fields, end, field}
use low_context_inference.Provider.Headers.{Texts, ensure_content_type, without}
use low_context_inference.Provider.Client.{
  Reply, reply, upstream_http_error, upstream_unavailable, reraised,
}

-- a body of bytes, or the content of a `JSONResponse`
pub data Body : Type 0 where
  bytes : List ℕ → Body
  json : Value → Body

pub record Answer : Type 0 where
  pub status_code : ℕ
  pub headers : List (String × String)
  pub body : Body

-- `openai_error`, with its parameter
abbrev pub openai_error_about :
    Value → String → String → Value → ℕ → List (String × String) → Answer
openai_error_about param message err_type code status_code headers = record {
  status_code = status_code;
  headers = headers;
  body = json (
      obj (
        field "error"
          (obj (
            field "message" (str message)
              (field "type" (str err_type) (field "param" param (field "code" code end)))))
          end));
}

-- `openai_error` without a parameter
abbrev pub openai_error : String → String → Value → ℕ → List (String × String) → Answer
openai_error = openai_error_about null

-- `parse_json_body`; the inner `none` is a body that is no JSON, the outer one a `ValueError`
abbrev pub parse_json_body : Option Value → Option Fields
parse_json_body (some (obj payload)) = some payload
parse_json_body _ = none

module _ (py : Texts) (starts_with : String → String → Bool) (loads : List ℕ → Bool) where
  unfoldable pub upstream_response : ℕ → List (String × String) → List ℕ → Answer
  upstream_response status_code headers content = record {
    status_code = status_code;
    headers = ensure_content_type py "application/json" headers;
    body = bytes content;
  }

  -- the status and the headers of `streaming_response`
  unfoldable pub streaming_headers : List (String × String) → List (String × String)
  streaming_headers headers = ensure_content_type py "text/event-stream" headers

  -- `error_body_response`; of what is no upstream error nothing is told
  unfoldable pub error_body_response : {A : Type 0} → (A → Answer) → Reply A → Answer
  unfolding without
  error_body_response make (reply a) = make a
  error_body_response make (upstream_http_error status_code content content_type headers) =
      if starts_with content_type "application/json" && loads content
      then record {
        status_code = status_code;
        headers = ensure_content_type py content_type headers;
        body = bytes content;
      }
      else openai_error "upstream inference endpoint returned an error" "upstream_error" null
          status_code (without py ("content-type" ∷ []) headers)
  error_body_response make (upstream_unavailable reason) =
      openai_error "upstream inference endpoint is unavailable" "api_error"
        (str "upstream_unavailable") 502 []
  error_body_response make reraised =
      openai_error "Internal server error" "internal_error" (str "internal_error") 500 []
