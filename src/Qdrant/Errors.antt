-- ===== src/Qdrant/Errors.antt =====
-- What the methods of src/context_proxy/memory/qdrant.py raise when the server cannot be reached, or
-- fails.
use low_context_inference.Base.{
  ℕ, ◌≡◌, refl, Bool, true, false, not, ◌&&◌, ◌||◌, Option, List, ◌∷◌, ◌==◌, String, arith,
}
use low_context_inference.Json.{Value}
use low_context_inference.Qdrant.{
  Answered, answered, http_failure, Server, Point, vector_store_error, http_error, raised,
  collection_body, points_body, search_body, created, settled, searched, ensure_collection, upsert,
  search,
}

module _ (q : Server) where
  -- no answer, or an error status other than those that the methods look at
  unfoldable pub is_outage : Answered → Bool
  is_outage http_failure = true
  is_outage (answered status body) =
      q.is_error status
      && not (status == 409)
      && not ((status == 200) || (status == 201))
      && not (status == 404)

  created-outage :
      (n : ℕ) (a : Answered) (s : q.State)
      → is_outage a ≡ true
      → created q n (a, s)
        ≡ record { result = raised http_error; collection_ready = false; server = s }
  unfolding is_outage
  created-outage n http_failure s h = refl
  created-outage n (answered status body) s h = ground (arith, h)

  settled-outage :
      (ps : List Point) (n : ℕ) (ready : Bool) (a : Answered) (s : q.State)
      → is_outage a ≡ true
      → settled q ps n ready (a, s)
        ≡ record { result = raised http_error; collection_ready = ready; server = s }
  unfolding is_outage
  settled-outage ps n ready http_failure s h = refl
  settled-outage ps n ready (answered status body) s h = ground (arith, h)

  searched-outage : (a : Answered) → is_outage a ≡ true → searched q a ≡ raised vector_store_error
  unfolding is_outage
  searched-outage http_failure h = refl
  searched-outage (answered status body) h = ground (arith, h)

  -- While the server cannot be reached, or answers every call with an error status other than 404 and
  -- 409, a search raises a VectorStoreError, but an upsert of some points raises an
  -- `httpx.HTTPError`; `_collection_ready` and the server stay as they were.
  pub upsert-search-outage :
      (a : Answered)
      → is_outage a ≡ true
      → ((v : Value) (s : q.State) → q.put_collection v s ≡ (a, s))
      → ((v : Value) (s : q.State) → q.put_points v s ≡ (a, s))
      → ((v : Value) (s : q.State) → q.search_points v s ≡ (a, s))
      → (p : Point) (ps : List Point) (n : ℕ) (ready : Bool) (vector : Value) (limit : ℕ)
        (conversation_id : Option String) (s : q.State)
      → (upsert q (p ∷ ps) n ready s
          ≡ record { result = raised http_error; collection_ready = ready; server = s })
        × (search q vector limit conversation_id s ≡ (raised vector_store_error, s))
  unfolding upsert search ensure_collection
  upsert-search-outage a out created_so put_so searched_so p ps n true vector limit c s = (
    rw (put_so (points_body (p ∷ ps)) s) (settled-outage (p ∷ ps) n true a s out),
    rw (searched_so (search_body vector limit c) s, searched-outage a out) refl,
  )
  upsert-search-outage a out created_so put_so searched_so p ps n false vector limit c s = (
    rw (created_so (collection_body n) s, created-outage n a s out) refl,
    rw (searched_so (search_body vector limit c) s, searched-outage a out) refl,
  )
