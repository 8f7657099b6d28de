-- ===== src/Provider/Headers.antt =====
-- src/context_proxy/providers/headers.py. A mapping of headers is its items, each name once.
use low_context_inference.Base.{
  Bool, false, ◌||◌, Option, none, some, String, List, [], ◌∷◌, ◌++◌, if◌then◌else◌, str_eq,
}

-- functions of Python's library on texts: `lower`, `strip`, and `split(",")`
pub record Texts : Type 0 where
  pub lower : String → String
  pub strip : String → String
  pub split_commas : String → List String

abbrev pub hop_by_hop_headers : List String
hop_by_hop_headers =
    "connection" ∷ "keep-alive" ∷ "proxy-authenticate" ∷ "proxy-authorization" ∷ "te" ∷ "trailer"
    ∷ "trailers" ∷ "transfer-encoding" ∷ "upgrade" ∷ []

abbrev pub stripped_response_headers : List String
stripped_response_headers = hop_by_hop_headers ++ "content-length" ∷ "set-cookie" ∷ []

unfoldable pub is_one_of : String → List String → Bool
is_one_of name [] = false
is_one_of name (n ∷ names) = str_eq n name || is_one_of name names

module _ (py : Texts) where
  open py use {lower, strip, split_commas}

  unfoldable pub get_header : List (String × String) → String → Option String
  get_header [] name = none
  get_header ((key, value) ∷ headers) name =
      let rest = get_header headers name in
      if str_eq (lower key) (lower name) then some value else rest

  -- the tokens that are not empty
  unfoldable pub tokens : List String → List String
  tokens [] = []
  tokens (token ∷ rest) =
      let more = tokens rest in if str_eq (strip token) "" then more else lower (strip token) ∷ more

  abbrev pub tokens_of : Option String → List String
  tokens_of none = []
  tokens_of (some value) = if str_eq value "" then [] else tokens (split_commas value)

  unfoldable pub connection_named_headers : List (String × String) → List String
  unfolding get_header tokens
  connection_named_headers headers = tokens_of (get_header headers "connection")

  -- `stripped`
  unfoldable pub stripped : Bool → List (String × String) → List String
  unfolding connection_named_headers
  stripped keep_content_encoding headers =
      let names = stripped_response_headers ++ connection_named_headers headers in
      if keep_content_encoding then names else names ++ "content-encoding" ∷ []

  unfoldable pub without : List String → List (String × String) → List (String × String)
  unfolding is_one_of
  without names [] = []
  without names ((name, value) ∷ headers) =
      let rest = without names headers in
      if is_one_of (lower name) names then rest else (name, value) ∷ rest

  unfoldable pub filter_response_headers : Bool → List (String × String) → List (String × String)
  unfolding stripped without
  filter_response_headers keep_content_encoding headers =
      without (stripped keep_content_encoding headers) headers

  abbrev pub has_header : String → List (String × String) → Bool
  has_header name [] = false
  has_header name ((key, value) ∷ headers) = str_eq (lower key) name || has_header name headers

  abbrev pub ensure_content_type : String → List (String × String) → List (String × String)
  ensure_content_type default headers =
      if has_header "content-type" headers
      then headers
      else headers ++ ("Content-Type", default) ∷ []
