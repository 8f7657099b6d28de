-- ===== src/Memory/Embedding.antt =====
-- `embed` of src/context_proxy/memory/embeddings.py, on what the endpoint answers: `none` is an
-- `HTTPError` or a body that is no JSON.
use low_context_inference.Base.{Option, none, some, List, [], ◌∷◌}
use low_context_inference.Json.{Value, arr, obj, Items, nil, cons, get, lookup}
use low_context_inference.Store.{◌>>=◌}

-- the array of an item, and the loop; `none` is an `EmbeddingProviderError`
abbrev pub array_of : Value → Option Items
array_of (arr xs) = some xs
array_of _ = none

abbrev pub item_vector : Value → Option Items
item_vector (obj item) = array_of (get item "embedding")
item_vector _ = none

unfoldable pub item_vectors : Items → Option (List Items)
unfolding get lookup
item_vectors nil = some []
item_vectors (cons item items) = do
  vector ← item_vector item
  rest ← item_vectors items
  some (vector ∷ rest)

abbrev pub data_of : Value → Option Items
data_of (obj d) = array_of (get d "data")
data_of _ = none

unfoldable pub embed : Option Value → Option (List Items)
unfolding item_vectors get lookup
embed answer = do body ← answer; items ← data_of body; item_vectors items
