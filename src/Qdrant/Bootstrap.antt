-- ===== src/Qdrant/Bootstrap.antt =====
-- `upsert` of src/context_proxy/memory/qdrant.py against a server that is up and does what Qdrant
-- documents.
use low_context_inference.Base.{
  ℕ, ◌≡◌, refl, List, All, length, ap, ◌∙◌, Bool, true, false, Option, none, some, String, ◌∷◌,
  Bool-cases, Option-cases, eq_iff, ==→eq, and-left, and-right, if◌then◌else◌, inl, inr, ◌==◌,
  str_eq,
}
use low_context_inference.Json.{
  Value, int, str, obj, end, pos, get, lookup, int_eq, Fields, arr, to_list,
}
use low_context_inference.Qdrant.{
  answered, Server, Point, CollectionParams, vector_store_error, returned, raised, sub_dict,
  is_expected, collection_body, points_body, ensure_collection, upsert, Run, ended, put_once,
  then_put, settled, fetch_collection_params, compared, read_params, params_of, vectors_of, plain,
}

abbrev pub params : ℕ → String → CollectionParams
params size distance = record { size = pos size; distance = distance }

-- What GET /collections/{name} tells of the configuration, among whatever else.
pub record IsDescription (size : ℕ) (distance : String) (body : Value) : Type 0 where
  pub top : Fields
  pub result : Fields
  pub config : Fields
  pub collection_params : Fields
  pub vectors : Fields
  pub is_object : body ≡ obj top
  pub has_result : lookup "result" top ≡ some (obj result)
  pub has_config : lookup "config" result ≡ some (obj config)
  pub has_params : lookup "params" config ≡ some (obj collection_params)
  pub has_vectors : lookup "vectors" collection_params ≡ some (obj vectors)
  pub has_size : lookup "size" vectors ≡ some (int (pos size))
  pub has_distance : lookup "distance" vectors ≡ some (str distance)

abbrev VectorHas : ℕ → Value → Type 0
VectorHas n (arr xs) = length (to_list xs) ≡ n
VectorHas n _ = ⊥

-- the vectors of all points have the size
abbrev pub HaveSize : ℕ → List Point → Type 0
HaveSize n = All (λ p. VectorHas n p.vector)

-- A collection has a size and a distance. It is created once, a second creation is a conflict; its
-- configuration can be read; points with vectors of its size are stored, and without it they are not
-- found. The bodies of the replies are whatever the server likes, but for the configuration.
pub record Documented (q : Server) : Type 0 where
  pub collection : q.State → Option (ℕ × String)
  pub create : ℕ → q.State → q.State
  pub store : Value → q.State → q.State
  pub put_collection-new :
      (n : ℕ) (s : q.State)
      → collection s ≡ none
      → (body : Option Value) × (q.put_collection (collection_body n) s
          ≡ (answered 200 body, create n s))
  pub put_collection-conflict :
      (n : ℕ) (c : ℕ × String) (s : q.State)
      → collection s ≡ some c
      → (body : Option Value) × (q.put_collection (collection_body n) s ≡ (answered 409 body, s))
  pub get_collection-found :
      (n : ℕ) (d : String) (s : q.State)
      → collection s ≡ some (n, d)
      → (body : Value) × (q.get_collection s ≡ (answered 200 (some body), s))
        × IsDescription n d body
  pub put_points-missing :
      (ps : List Point) (s : q.State)
      → collection s ≡ none
      → (body : Option Value) × (q.put_points (points_body ps) s ≡ (answered 404 body, s))
  pub put_points-stored :
      (n : ℕ) (ps : List Point) (s : q.State)
      → collection s ≡ some (n, "Cosine")
      → HaveSize n ps
      → (body : Option Value) × (q.put_points (points_body ps) s
          ≡ (answered 200 body, store (points_body ps) s))
  pub collection-create : (n : ℕ) (s : q.State) → collection (create n s) ≡ some (n, "Cosine")
  pub succeeds : q.is_error 200 ≡ false

module _ (q : Server) (laws : Documented q) where
  open laws use {collection, create, store}

  ensure_collection-ready :
      (n : ℕ) (s : q.State) → ensure_collection q n true s ≡ ended q (returned tt) true s
  unfolding ensure_collection
  ensure_collection-ready n s = refl

  ensure_collection-new :
      (n : ℕ) (s : q.State)
      → collection s ≡ none
      → ensure_collection q n false s ≡ ended q (returned tt) true (create n s)
  unfolding ensure_collection
  ensure_collection-new n s h = let (body, e) = laws.put_collection-new n s h in rw e refl

  get-found :
      (fields : Fields) (key : String) (v : Value) → lookup key fields ≡ some v → get fields key ≡ v
  unfolding get
  get-found fields key v h = rw (get, h) refl

  sub_dict-found :
      (fields : Fields) (key : String) (v : Value)
      → lookup key fields ≡ some v
      → sub_dict key (obj fields) ≡ some v
  unfolding sub_dict
  sub_dict-found fields key v h = rw (sub_dict, h) refl

  read-description :
      (n : ℕ) (d : String) (body : Value)
      → IsDescription n d body
      → read_params (params_of body) ≡ returned (params n d)
  read-description n d body k =
      let chosen =
        ap params_of k.is_object
        ∙ ap
            (λ v. elim v [
              | obj result ↦ vectors_of (sub_dict "config" (obj result))
              | _ ↦ some (obj end)
            ])
            (get-found k.top "result" (obj k.result) k.has_result)
        ∙ ap vectors_of (sub_dict-found k.result "config" (obj k.config) k.has_config)
        ∙ ap (λ o. elim o [ none ↦ none | some params ↦ sub_dict "vectors" params ])
            (sub_dict-found k.config "params" (obj k.collection_params) k.has_params)
        ∙ sub_dict-found k.collection_params "vectors" (obj k.vectors) k.has_vectors in
      ap read_params chosen
      ∙ ap (λ v. plain v (get k.vectors "distance"))
          (get-found k.vectors "size" (int (pos n)) k.has_size)
      ∙ ap (plain (int (pos n))) (get-found k.vectors "distance" (str d) k.has_distance)

  fetched-found :
      (n : ℕ) (d : String) (s : q.State)
      → collection s ≡ some (n, d)
      → fetch_collection_params q s ≡ (returned (params n d), s)
  unfolding fetch_collection_params
  fetched-found n d s h =
      let (body, e, k) = laws.get_collection-found n d s h in
      rw (e, laws.succeeds, read-description n d body k) refl

  ensure_collection-conflict :
      (n m : ℕ) (d : String) (s : q.State)
      → collection s ≡ some (m, d)
      → ensure_collection q n false s ≡ compared q n (returned (params m d), s)
  unfolding ensure_collection
  ensure_collection-conflict n m d s h =
      let (body, e) = laws.put_collection-conflict n (m, d) s h in
      rw e (ap (compared q n) (fetched-found m d s h))

  compared-same :
      (n m : ℕ) (d : String) (s : q.State)
      → is_expected n (params m d) ≡ true
      → compared q n (returned (params m d), s) ≡ ended q (returned tt) true s
  compared-same n m d s h = rw h refl

  compared-other :
      (n m : ℕ) (d : String) (s : q.State)
      → is_expected n (params m d) ≡ false
      → compared q n (returned (params m d), s) ≡ ended q (raised vector_store_error) false s
  compared-other n m d s h = rw h refl

  put_once-stored :
      (n : ℕ) (ps : List Point) (ready : Bool) (s : q.State)
      → collection s ≡ some (n, "Cosine")
      → HaveSize n ps
      → put_once q ps ready s ≡ ended q (returned tt) ready (store (points_body ps) s)
  put_once-stored n ps ready s h sized =
      let (body, e) = laws.put_points-stored n ps s h sized in rw (e, laws.succeeds) refl

  settled-stored :
      (n : ℕ) (ps : List Point) (ready : Bool) (s : q.State)
      → collection s ≡ some (n, "Cosine")
      → HaveSize n ps
      → settled q ps n ready (q.put_points (points_body ps) s)
        ≡ ended q (returned tt) ready (store (points_body ps) s)
  settled-stored n ps ready s h sized =
      let (body, e) = laws.put_points-stored n ps s h sized in rw (e, laws.succeeds) refl

  settled-missing :
      (n : ℕ) (ps : List Point) (ready : Bool) (s : q.State)
      → collection s ≡ none
      → HaveSize n ps
      → settled q ps n ready (q.put_points (points_body ps) s)
        ≡ ended q (returned tt) true (store (points_body ps) (create n s))
  settled-missing n ps ready s h sized =
      let (body, e) = laws.put_points-missing ps s h in
      rw (e, ensure_collection-new n s h)
        (put_once-stored n ps true (create n s) (laws.collection-create n s) sized)

  is_expected-same :
      (n m : ℕ) (d : String)
      → is_expected n (params m d) ≡ true
      → ◌≡◌ {A = Option (ℕ × String)} (some (m, d)) (some (n, "Cosine"))
  unfolding int_eq
  is_expected-same n m d h =
      let a : m ≡ n = ==→eq m n (and-left (m == n) (str_eq d "Cosine") h) in
      let b : d ≡ "Cosine" = (eq_iff d "Cosine").0 (and-right (m == n) (str_eq d "Cosine") h) in
      rw (a, b) refl

  -- how an upsert of some points ends, by the collection that the server has
  abbrev pub expected_run : List Point → ℕ → q.State → Option (ℕ × String) → Run q Unit
  expected_run ps n s none = ended q (returned tt) true (store (points_body ps) (create n s))
  expected_run ps n s (some (m, d)) =
      if is_expected n (params m d)
      then ended q (returned tt) true (store (points_body ps) s)
      else ended q (raised vector_store_error) false s

  upsert-found :
      (ps : List Point) (n m : ℕ) (d : String) (ready : Bool) (s : q.State)
      → collection s ≡ some (m, d)
      → (ready ≡ true → is_expected n (params m d) ≡ true)
      → HaveSize n ps
      → then_put q
          (ensure_collection q n ready s)
          (λ ready' s'. settled q ps n ready' (q.put_points (points_body ps) s'))
        ≡ expected_run ps n s (some (m, d))
  upsert-found ps n m d true s h trusted sized =
      let e = trusted refl in
      rw (ensure_collection-ready n s, e)
        (settled-stored n ps true s (h ∙ is_expected-same n m d e) sized)
  upsert-found ps n m d false s h trusted sized =
      rw (ensure_collection-conflict n m d s h) (elim (Bool-cases (is_expected n (params m d))) [
        | inl e ↦
            rw (compared-same n m d s e, e)
              (settled-stored n ps true s (h ∙ is_expected-same n m d e) sized)
        | inr e ↦ rw (compared-other n m d s e, e) refl
      ])

  upsert-missing :
      (ps : List Point) (n : ℕ) (ready : Bool) (s : q.State)
      → collection s ≡ none
      → HaveSize n ps
      → then_put q
          (ensure_collection q n ready s)
          (λ ready' s'. settled q ps n ready' (q.put_points (points_body ps) s'))
        ≡ expected_run ps n s none
  upsert-missing ps n true s h sized =
      rw (ensure_collection-ready n s) (settled-missing n ps true s h sized)
  upsert-missing ps n false s h sized =
      rw (ensure_collection-new n s h)
        (settled-stored n ps true (create n s) (laws.collection-create n s) sized)

  -- An upsert of some points with vectors of the given size to a server that is up: without a collection, one of the given size is
  -- created and the points are stored in it, also if the client still took the collection for ready;
  -- in a collection of that size and of Cosine distance they are stored; any other collection is left
  -- as it is, and a VectorStoreError is raised. A client that takes the collection for ready is
  -- assumed to be right about its configuration, if there is one.
  pub upsert_lem :
      (p : Point) (ps : List Point) (n : ℕ) (ready : Bool) (s : q.State)
      → ((c : ℕ × String)
          → collection s ≡ some c
          → ready ≡ true
          → is_expected n (params c.0 c.1) ≡ true)
      → HaveSize n (p ∷ ps)
      → upsert q (p ∷ ps) n ready s ≡ expected_run (p ∷ ps) n s (collection s)
  unfolding upsert
  upsert_lem p ps n ready s trusted sized = elim (Option-cases (collection s)) [
    | inl e ↦ rw e (upsert-missing (p ∷ ps) n ready s e sized)
    | inr ((m, d), e) ↦ rw e (upsert-found (p ∷ ps) n m d ready s e (trusted (m, d) e) sized)
  ]
