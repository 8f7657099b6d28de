-- ===== src/Qdrant.antt =====
-- src/context_proxy/memory/qdrant.py. The server is a parameter with a state: what it answers to each
-- kind of request, or that httpx raises an `HTTPError`. `is_error` says for which statuses
-- `raise_for_status` raises. The lock makes `ensure_collection` one step.
pub mod Bootstrap
pub mod Errors
use low_context_inference.Base.{
  ℕ, Bool, true, false, ◌&&◌, ◌||◌, Option, none, some, String, List, [], ◌∷◌, map, ◌==◌, str_eq,
  if◌then◌else◌,
}
use low_context_inference.Json.{
  Value, null, str, int, bool, obj, arr, Fields, end, field, Items, pos, ℤ, lookup, get, of_list,
  to_list, of_bool, int_eq,
}

-- `body` is what `response.json()` returns, or `none` if it raises a `ValueError`
pub data Answered : Type 0 where
  answered : (status_code : ℕ) (body : Option Value) → Answered
  http_failure : Answered

pub record Server : Type 1 where
  pub State : Type 0
  pub put_collection : Value → State → Answered × State
  pub get_collection : State → Answered × State
  pub put_points : Value → State → Answered × State
  pub search_points : Value → State → Answered × State
  pub is_error : ℕ → Bool

-- what a method raises: a `VectorStoreError`, an `httpx.HTTPError`, or another exception
pub data Raised : Type 0 where
  vector_store_error http_error other_error : Raised

pub data Result (A : Type 0) : Type 0 where
  returned : A → Result A
  raised : Raised → Result A

-- `size` and `distance`, as `_fetch_collection_params` returns them
pub record CollectionParams : Type 0 where
  pub size : ℤ
  pub distance : String

pub record Point : Type 0 where
  pub id : Value
  pub vector : Value
  pub payload : Value

-- `d.get(k, {})`; what is no dict has no `get`
unfoldable pub sub_dict : String → Value → Option Value
unfolding lookup
sub_dict key (obj d) = elim (lookup key d) [ none ↦ some (obj end) | some v ↦ some v ]
sub_dict key _ = none

abbrev pub vectors_of : Option Value → Option Value
vectors_of none = none
vectors_of (some config) = elim (sub_dict "params" config) [
  | none ↦ none
  | some params ↦ sub_dict "vectors" params
]

-- `params` of a body; `none` is an `AttributeError`
abbrev pub params_of : Value → Option Value
params_of (obj body) = elim (get body "result") [
  | obj result ↦ vectors_of (sub_dict "config" (obj result))
  | _ ↦ some (obj end)
]
params_of _ = some (obj end)

-- the two `isinstance` tests; a Boolean is an `int`
abbrev pub plain : Value → Value → Result CollectionParams
plain (int n) (str d) = returned (record { size = n; distance = d })
plain (bool b) (str d) = returned (record { size = of_bool b; distance = d })
plain _ _ = raised vector_store_error

abbrev pub read_params : Option Value → Result CollectionParams
read_params none = raised other_error
read_params (some (obj params)) = plain (get params "size") (get params "distance")
read_params (some _) = raised vector_store_error

-- `actual == expected`
abbrev pub is_expected : ℕ → CollectionParams → Bool
is_expected vector_size p = int_eq p.size (pos vector_size) && str_eq p.distance "Cosine"

abbrev pub collection_body : ℕ → Value
collection_body vector_size = obj (
    field "vectors"
      (obj (field "size" (int (pos vector_size)) (field "distance" (str "Cosine") end))) end)

abbrev pub point_body : Point → Value
point_body p = obj (field "id" p.id (field "vector" p.vector (field "payload" p.payload end)))

abbrev pub points_body : List Point → Value
points_body points = obj (field "points" (arr (of_list (map point_body points))) end)

-- `if conversation_id is not None: body["filter"] = ...`
abbrev pub filter_of : Option String → Fields
filter_of none = end
filter_of (some conversation_id) =
    field "filter"
      (obj (
        field "must"
          (arr (
            of_list (
              obj (
                field "key" (str "conversation_id")
                  (field "match" (obj (field "value" (str conversation_id) end)) end))
              ∷ [])))
          end))
      end

abbrev pub search_body : Value → ℕ → Option String → Value
search_body vector limit conversation_id = obj (
    field "vector" vector (
      field "limit" (int (pos limit))
        (field "with_payload" (bool true) (filter_of conversation_id))))

-- `result.get("result", [])`, which must be a list
abbrev pub found : Option Value → Result (List Value)
found none = returned []
found (some (arr items)) = returned (to_list items)
found (some _) = raised vector_store_error

abbrev pub read_result : Option Value → Result (List Value)
read_result (some (obj result)) = found (lookup "result" result)
read_result _ = raised vector_store_error

module _ (q : Server) where
  open q use {State}

  -- how a method ends, with `_collection_ready` and the server then
  pub record Run (A : Type 0) : Type 0 where
    pub result : Result A
    pub collection_ready : Bool
    pub server : State

  abbrev pub ended : {A : Type 0} → Result A → Bool → State → Run A
  ended r ready s = record { result = r; collection_ready = ready; server = s }

  abbrev pub fetched : Answered → Result CollectionParams
  fetched http_failure = raised vector_store_error
  fetched (answered status none) = raised vector_store_error
  fetched (answered status (some body)) =
      if q.is_error status then raised vector_store_error else read_params (params_of body)

  unfoldable pub fetch_collection_params : State → Result CollectionParams × State
  unfolding get lookup sub_dict
  fetch_collection_params s = let (a, s') = q.get_collection s in (fetched a, s')

  -- the comparison after a 409
  abbrev pub compared : ℕ → Result CollectionParams × State → Run Unit
  compared vector_size (raised e, s) = ended (raised e) false s
  compared vector_size (returned p, s) =
      if is_expected vector_size p
      then ended (returned tt) true s
      else ended (raised vector_store_error) false s

  abbrev pub created : ℕ → Answered × State → Run Unit
  created vector_size (http_failure, s) = ended (raised http_error) false s
  created vector_size (answered status body, s) =
      let conflict = compared vector_size (fetch_collection_params s) in
      if status == 409
      then conflict
      else if (status == 200) || (status == 201)
      then ended (returned tt) true s
      else if q.is_error status
      then ended (raised http_error) false s
      else ended (returned tt) true s

  unfoldable pub ensure_collection : ℕ → Bool → State → Run Unit
  unfolding fetch_collection_params int_eq
  ensure_collection vector_size ready s =
      if ready
      then ended (returned tt) true s
      else created vector_size (q.put_collection (collection_body vector_size) s)

  -- `response.raise_for_status()` at the end of `upsert`
  abbrev pub checked : Bool → Answered × State → Run Unit
  checked ready (http_failure, s) = ended (raised http_error) ready s
  checked ready (answered status body, s) =
      if q.is_error status then ended (raised http_error) ready s else ended (returned tt) ready s

  -- `rest` follows a bootstrap that did not raise
  abbrev pub then_put : Run Unit → (Bool → State → Run Unit) → Run Unit
  then_put r rest = elim r.result [ raised e ↦ r | returned u ↦ rest r.collection_ready r.server ]

  abbrev pub put_once : List Point → Bool → State → Run Unit
  put_once points ready s = checked ready (q.put_points (points_body points) s)

  -- the answer to the first request: a 404 bootstraps again
  abbrev pub settled : List Point → ℕ → Bool → Answered × State → Run Unit
  settled points vector_size ready (http_failure, s) = ended (raised http_error) ready s
  settled points vector_size ready (answered status body, s) =
      let again = then_put (ensure_collection vector_size false s) (put_once points) in
      if status == 404 then again else checked ready (answered status body, s)

  unfoldable pub upsert : List Point → ℕ → Bool → State → Run Unit
  unfolding ensure_collection
  upsert [] vector_size ready s = ended (returned tt) ready s
  upsert (p ∷ ps) vector_size ready s =
      then_put (ensure_collection vector_size ready s)
        (λ ready' s'. settled (p ∷ ps) vector_size ready' (q.put_points (points_body (p ∷ ps)) s'))

  abbrev pub searched : Answered → Result (List Value)
  searched http_failure = raised vector_store_error
  searched (answered status body) =
      if q.is_error status then raised vector_store_error else read_result body

  unfoldable pub search : Value → ℕ → Option String → State → Result (List Value) × State
  unfolding lookup
  search vector limit conversation_id s =
      let (a, s') = q.search_points (search_body vector limit conversation_id) s in (searched a, s')
