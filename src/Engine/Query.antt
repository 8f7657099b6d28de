-- ===== src/Engine/Query.antt =====
-- src/context_proxy/context/query.py: the text that is searched for.
use low_context_inference.Base.{String, List, [], ◌∷◌, if◌then◌else◌, reverse}
use low_context_inference.Json.{
  Value, str, arr, obj, Items, nil, cons, Fields, get, truthy, is_text,
}
use low_context_inference.Runtime.{Runtime}
use low_context_inference.Engine.Texts.{Rendering, join, text_of}

module _ (py : Runtime) (rd : Rendering) where
  -- the texts of the parts that are text
  unfoldable pub text_parts : Items → List String
  unfolding is_text get truthy
  text_parts nil = []
  text_parts (cons (obj part) parts) =
      let rest = text_parts parts in
      if is_text (get part "type") "text" then text_of py rd part ∷ rest else rest
  text_parts (cons _ parts) = text_parts parts

  abbrev pub query_of : Value → String
  query_of (str s) = s
  query_of (arr parts) = rd.strip (join " " (text_parts parts))
  query_of _ = ""

  -- the loop over the messages from the last on
  unfoldable pub latest_query : List Fields → String
  unfolding text_parts is_text get
  latest_query [] = ""
  latest_query (m ∷ ms) =
      let rest = latest_query ms in
      if is_text (get m "role") "user" then query_of (get m "content") else rest

  unfoldable pub extract_retrieval_query : List Fields → String
  unfolding latest_query
  extract_retrieval_query messages = latest_query (reverse messages)
