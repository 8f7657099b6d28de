-- ===== src/Provider/Stream.antt =====
-- `UpstreamLLMStream` of src/context_proxy/providers/llm.py.
use low_context_inference.Base.{
  ℕ, suc, Bool, true, false, Option, none, some, String, List, if◌then◌else◌, str_eq,
}
use low_context_inference.Provider.Headers.{Texts, get_header, filter_response_headers}
use low_context_inference.Provider.Client.{Response}

-- the stream, with how often its connection was closed
pub record UpstreamStream : Type 0 where
  pub closed : Bool
  pub closings : ℕ

abbrev pub opened : UpstreamStream
opened = record { closed = false; closings = 0 }

unfoldable pub aclose : UpstreamStream → UpstreamStream
aclose s = if s.closed then s else record { closed = true; closings = suc s.closings }

-- The chunks that arrived before the end, a failure or a cancellation are passed on.
unfoldable pub iter_bytes : List (List ℕ) → UpstreamStream → List (List ℕ) × UpstreamStream
unfolding aclose
iter_bytes chunks s = (chunks, aclose s)

module _ (py : Texts) where
  abbrev pub given : Option String → String
  given none = "text/event-stream"
  given (some value) = if str_eq value "" then "text/event-stream" else value

  unfoldable pub media_type : Response → String
  unfolding get_header
  media_type r = given (get_header py r.headers "content-type")

  unfoldable pub passthrough_headers : Response → List (String × String)
  unfolding filter_response_headers
  passthrough_headers r = filter_response_headers py true r.headers
