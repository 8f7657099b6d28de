-- ===== src/Tests/Vectors.antt =====
-- The client of the vector store, over a server in memory.
use low_context_inference.Base.{
  ℕ, ◌≡◌, refl, ap, true, false, Option, none, some, String, List, [], ◌∷◌, leb,
}
use low_context_inference.Json.{
  cons, Fields, Value, null, str, int, arr, pos, end, field, obj, nil, int_eq, lookup,
}
use low_context_inference.Qdrant.{
  Answered, answered, http_failure, Server, Point, collection_body, points_body, returned, raised,
  vector_store_error, http_error, ended, sub_dict, upsert, search,
}
use low_context_inference.Qdrant.Bootstrap.{Documented, IsDescription, HaveSize, upsert_lem}
use low_context_inference.Qdrant.Errors.{is_outage, upsert-search-outage}

-- the collection, with the bodies of the points that were stored
abbrev Held : Type 0
Held = Option (ℕ × String) × List Value

-- `size` of a body that creates a collection
abbrev size_of : Value → ℕ
size_of (obj (field k (obj (field j (int (pos n)) d)) e)) = n
size_of _ = 0

abbrev put_collection : Value → Held → Answered × Held
put_collection v (none, vs) = (answered 200 (some (obj end)), (some (size_of v, "Cosine"), vs))
put_collection v (some c, vs) = (answered 409 none, (some c, vs))

abbrev vectors : ℕ → String → Fields
vectors n d = field "size" (int (pos n)) (field "distance" (str d) end)

abbrev config : ℕ → String → Fields
config n d = field "params" (obj (field "vectors" (obj (vectors n d)) end)) end

-- the reply, with what else Qdrant puts into it
abbrev description : ℕ → String → Value
description n d =
    obj
      (field "status" (str "ok") (field "result" (obj (field "config" (obj (config n d)) end)) end))

abbrev get_collection : Held → Answered × Held
get_collection (none, vs) = (answered 404 none, (none, vs))
get_collection (some (n, d), vs) = (answered 200 (some (description n d)), (some (n, d), vs))

abbrev put_points : Value → Held → Answered × Held
put_points v (none, vs) = (answered 404 none, (none, vs))
put_points v (some c, vs) = (answered 200 none, (some c, v ∷ vs))

abbrev server : Server
server = record {
  State = Held;
  put_collection = put_collection;
  get_collection = get_collection;
  put_points = put_points;
  search_points = λ v s. (answered 200 (some (obj end)), s);
  is_error = leb 400;
}

new :
    (n : ℕ) (s : Held)
    → s.0 ≡ none
    → (body : Option Value) × (put_collection (collection_body n) s
        ≡ (answered 200 body, (some (n, "Cosine"), s.1)))
new n (none, vs) h = (some (obj end), refl)
new n (some c, vs) h = absurd (cc)

conflict :
    (n : ℕ) (c : ℕ × String) (s : Held)
    → s.0 ≡ some c
    → (body : Option Value) × (put_collection (collection_body n) s ≡ (answered 409 body, s))
conflict n c (none, vs) h = absurd (cc)
conflict n c (some d, vs) h = (none, refl)

described :
    (n : ℕ) (d : String) (s : Held)
    → s.0 ≡ some (n, d)
    → (body : Value) × (get_collection s ≡ (answered 200 (some body), s)) × IsDescription n d body
unfolding lookup
described n d (none, vs) h = absurd (cc)
described n d (some (m, e), vs) h = (
  description n d,
  ap (λ o. ((get_collection (o, vs)).0, (some (m, e), vs))) h,
  record {
    top =
        field "status" (str "ok")
          (field "result" (obj (field "config" (obj (config n d)) end)) end);
    is_object = refl;
    result = field "config" (obj (config n d)) end;
    config = config n d;
    collection_params = field "vectors" (obj (vectors n d)) end;
    vectors = vectors n d;
    has_result = refl;
    has_config = refl;
    has_params = refl;
    has_vectors = refl;
    has_size = refl;
    has_distance = refl;
  },
)

missing :
    (ps : List Point) (s : Held)
    → s.0 ≡ none
    → (body : Option Value) × (put_points (points_body ps) s ≡ (answered 404 body, s))
missing ps (none, vs) h = (none, refl)
missing ps (some c, vs) h = absurd (cc)

stored :
    (n : ℕ) (ps : List Point) (s : Held)
    → s.0 ≡ some (n, "Cosine")
    → HaveSize n ps
    → (body : Option Value) × (put_points (points_body ps) s
        ≡ (answered 200 body, (s.0, points_body ps ∷ s.1)))
stored n ps (none, vs) h sized = absurd (cc)
stored n ps (some c, vs) h sized = (none, refl)

abbrev documented : Documented server
documented = record {
  collection = λ s. s.0;
  create = λ n s. (some (n, "Cosine"), s.1);
  store = λ v s. (s.0, v ∷ s.1);
  put_collection-new = new;
  put_collection-conflict = conflict;
  get_collection-found = described;
  put_points-missing = missing;
  put_points-stored = stored;
  collection-create = λ n s. refl;
  succeeds = refl;
}

abbrev point : Point
point = record {
  id = str "c1";
  vector = arr (cons (int (pos 1)) (cons (int (pos 0)) (cons (int (pos 0)) nil)));
  payload = null;
}

-- The client took the collection for ready, and it is gone.
upsert_lem_example :
    upsert server (point ∷ []) 3 true (none, [])
    ≡ ended server (returned tt) true (some (3, "Cosine"), points_body (point ∷ []) ∷ [])
unfolding int_eq
upsert_lem_example =
    upsert_lem server documented point [] 3 true (none, []) (λ c e r. absurd (cc)) (refl, tt)

incompatible :
    (upsert server (point ∷ []) 3 false (some (4, "Cosine"), [])).result ≡ raised vector_store_error
unfolding upsert int_eq lookup sub_dict
incompatible = refl

abbrev down : Server
down = record {
  State = Held;
  put_collection = λ v s. (http_failure, s);
  get_collection = λ s. (http_failure, s);
  put_points = λ v s. (http_failure, s);
  search_points = λ v s. (http_failure, s);
  is_error = leb 400;
}

upsert-search-outage_example :
    (upsert down (point ∷ []) 3 false (none, [])
      ≡ record { result = raised http_error; collection_ready = false; server = (none, []) })
    × (search down (arr nil) 5 none (none, []) ≡ (raised vector_store_error, (none, [])))
unfolding is_outage
upsert-search-outage_example =
    upsert-search-outage down http_failure refl (λ v s. refl) (λ v s. refl) (λ v s. refl) point [] 3
      false (arr nil) 5 none (none, [])
