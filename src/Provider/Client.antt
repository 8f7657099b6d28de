-- ===== src/Provider/Client.antt =====
-- The methods of `OpenAICompatibleLLMProvider` of src/context_proxy/providers/llm.py. Bytes are
-- numbers; building a request is part of the parameter `send`.
use low_context_inference.Base.{ℕ, false, Option, none, some, String, List, leb, if◌then◌else◌}
use low_context_inference.Breaker.{CircuitBreaker}
use low_context_inference.Provider.{
  Sent, Outcome, response, unavailable, unclassified, Reason, resilient_send,
}
use low_context_inference.Provider.Headers.{Texts, get_header, filter_response_headers}

-- a response of httpx; of a streamed one, `content` is what `aread` reads
pub record Response : Type 0 where
  pub status_code : ℕ
  pub headers : List (String × String)
  pub content : List ℕ

-- what a method returns or raises
pub data Reply (A : Type 0) : Type 0 where
  reply : A → Reply A
  -- `UpstreamHTTPError`
  upstream_http_error :
      (status_code : ℕ) (body : List ℕ) (content_type : String) (headers : List (String × String))
      → Reply A
  -- `UpstreamUnavailable`
  upstream_unavailable : Reason → Reply A
  reraised : Reply A

module _ (py : Texts) where
  abbrev pub or_default : Option String → String → String
  or_default none default = default
  or_default (some value) default = value

  abbrev pub http_error : {A : Type 0} → Response → Reply A
  http_error r =
      upstream_http_error r.status_code r.content
        (or_default (get_header py r.headers "content-type") "application/json")
        (filter_response_headers py false r.headers)

  -- `if response.status_code >= 400`
  unfoldable pub checked : {A : Type 0} → (Response → A) → Outcome Response → Reply A
  unfolding filter_response_headers get_header
  checked make (response r) = if leb 400 r.status_code then http_error r else reply (make r)
  checked make (unavailable reason) = upstream_unavailable reason
  checked make unclassified = reraised

  -- `_pack`
  abbrev pub pack : Response → ℕ × List (String × String) × List ℕ
  pack r = (r.status_code, filter_response_headers py false r.headers, r.content)

  module _ (max_retries base cap now later : ℕ) (meanwhile : CircuitBreaker → CircuitBreaker) where
    -- `list_models` and `complete`, which differ in the request that `send` sends
    unfoldable pub complete :
        (ℕ → Sent Response)
        → CircuitBreaker
        → CircuitBreaker × Reply (ℕ × List (String × String) × List ℕ)
    unfolding resilient_send checked
    complete send b =
        let (b', outcome) = resilient_send send max_retries base cap now later meanwhile b in
        (b', checked pack outcome)

    -- `open_stream`: the response that is to be streamed
    unfoldable pub open_stream :
        (ℕ → Sent Response) → CircuitBreaker → CircuitBreaker × Reply Response
    unfolding resilient_send checked
    open_stream send b =
        let (b', outcome) = resilient_send send max_retries base cap now later meanwhile b in
        (b', checked (λ r. r) outcome)
