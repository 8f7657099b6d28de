-- ===== src/Memory/Ranking.antt =====
-- `retrieve` of src/context_proxy/memory/service.py, from the two legs on.
use low_context_inference.Base.{
  ℕ, Bool, ◌&&◌, ◌||◌, Option, none, some, String, List, [], ◌∷◌, if◌then◌else◌, str_eq, take, ◌==◌,
}
use low_context_inference.Json.{Value, str, Fields, get, lookup, truthy}
use low_context_inference.Runtime.{Runtime, to_str}
use low_context_inference.Store.{◌>>=◌, or_empty}
use low_context_inference.Memory.{Tables, Services, sort_with}
use low_context_inference.Memory.Records.{safe_embed}
use low_context_inference.Memory.Retrieval.{
  Floats, Hit, RetrievedItem, Weights, type_priority, Components, weighted, put_hits, has_hit,
  put_score, score_at, max_num, min_num, max_rank, lexical_search, fetch_by_ids,
}

-- a hit of the vector store
pub record VectorHit (Num : Type 0) : Type 0 where
  pub payload : Value
  pub score : Num

module _ (py : Runtime) (fl : Floats) where
  open fl use {Num, nought, one, plus, times, over, round, less, same, text_less}

  -- `payload.get("chunk_id") or payload.get("memory_id") or ""`
  abbrev pub key_value : Fields → Value
  key_value payload =
      if truthy (get payload "chunk_id")
      then get payload "chunk_id"
      else if truthy (get payload "memory_id")
      then get payload "memory_id"
      else str ""

  -- the loop over the hits of the vector store; `none` is an exception
  unfoldable pub semantic_scores :
      List (VectorHit Num) → List (String × Num) → Option (List (String × Num))
  unfolding or_empty put_score get lookup truthy
  semantic_scores [] scores = some scores
  semantic_scores (h ∷ hits) scores = do
    payload ← or_empty h.payload
    let key = to_str py (key_value payload)
    semantic_scores hits (
        if str_eq key ""
        then scores
        else put_score fl key (min_num fl one (max_num fl nought h.score)) scores)

  -- `[k for k in semantic_scores if k not in candidates]`
  unfoldable pub missing_keys : List (String × Num) → List (Hit fl) → List String
  unfolding has_hit
  missing_keys [] candidates = []
  missing_keys ((key, score) ∷ scores) candidates =
      let rest = missing_keys scores candidates in
      if has_hit fl key candidates then rest else key ∷ rest

  module _ (weights : Weights fl) (age_days : String → Num) where
    abbrev pub lexical_score : Num → Hit fl → Num
    lexical_score highest h = if less nought highest then over h.rank highest else nought

    -- `row.get("kind") or "chunk"`
    abbrev pub kind_of : Hit fl → String
    kind_of h = if str_eq h.kind "" then "chunk" else h.kind

    unfoldable pub components_of : Num → Num → Hit fl → Components fl
    unfolding type_priority
    components_of semantic lexical h = record {
      semantic = round semantic;
      lexical = round lexical;
      recency = round (over one (plus one (age_days h.id)));
      importance = round h.importance;
      type_priority = type_priority fl (kind_of h);
    }

    -- `score`
    abbrev pub score_of : Components fl → Num
    score_of c = round (weighted fl weights c)

    abbrev pub item_of : String → Components fl → Hit fl → RetrievedItem fl
    item_of conversation components h = record {
      item_type = h.item_type;
      id = h.id;
      conversation_id = conversation;
      kind = kind_of h;
      content = h.content;
      score = score_of components;
      components = components;
      source_message_ids = h.source_message_ids;
      start_seq = h.start_seq;
      end_seq = h.end_seq;
    }

    -- the loop over the candidates
    unfoldable pub items_of :
        String → List (String × Num) → Num → List (Hit fl) → List (RetrievedItem fl)
    unfolding components_of
    items_of conversation scores highest [] = []
    items_of conversation scores highest (h ∷ hits) =
        let rest = items_of conversation scores highest hits in
        let semantic = score_at fl h.id scores in
        let lexical = lexical_score highest h in
        let item = item_of conversation (components_of semantic lexical h) h in
        if less nought semantic || less nought lexical then item ∷ rest else rest

    -- `(-a.score, a.id) < (-b.score, b.id)`
    abbrev pub ranks_before : RetrievedItem fl → RetrievedItem fl → Bool
    ranks_before a b = less b.score a.score || same a.score b.score && text_less a.id b.id

    module _ (rank_of : String → String → Option Num) (uuid : String → Option String) where
      -- `candidates`
      unfoldable pub candidates :
          String → String → ℕ → List (String × Num) → Tables Num → List (Hit fl)
      unfolding lexical_search fetch_by_ids missing_keys put_hits
      candidates query conversation pool scores t =
          let lexical = put_hits fl (lexical_search fl rank_of query conversation pool t) [] in
          put_hits fl (fetch_by_ids fl uuid conversation (missing_keys scores lexical) t) lexical

      -- from the semantic scores on
      unfoldable pub ranked_items :
          String → String → ℕ → ℕ → List (String × Num) → Tables Num → List (RetrievedItem fl)
      unfolding candidates items_of sort_with lexical_search max_rank
      ranked_items query conversation limit pool scores t =
          let highest = max_rank fl (lexical_search fl rank_of query conversation pool t) in
          take limit (
            sort_with ranks_before
              (items_of conversation scores highest (candidates query conversation pool scores t)))

      module _ (services : Services)
          (search : services.Vector
            → ℕ
            → String
            → services.State
            → Option (List (VectorHit Num)) × services.State)
          (max_embed_chars limit_default candidate_pool : ℕ) where
        open services use {State, Vector}

        -- `limit or self._retrieval.limit_default`
        abbrev pub limit_or : Option ℕ → ℕ
        limit_or none = limit_default
        limit_or (some limit) = if limit == 0 then limit_default else limit

        -- `search`; `none` is a `VectorStoreError`, which leaves the lexical leg
        abbrev pub scores_of : Option (List (VectorHit Num)) → Option (List (String × Num))
        scores_of none = some []
        scores_of (some hits) = semantic_scores hits []

        abbrev pub semantic_leg :
            String → Option (Option Vector) × State → Option (List (String × Num)) × State
        semantic_leg conversation (none, s) = (none, s)
        semantic_leg conversation (some none, s) = (some [], s)
        semantic_leg conversation (some (some v), s) =
            let (hits, s') = search v candidate_pool conversation s in (scores_of hits, s')

        -- the items, where `none` is an exception, and the services
        unfoldable pub retrieve :
            String
            → String
            → Option ℕ
            → Tables Num
            → State
            → Option (List (RetrievedItem fl)) × State
        unfolding safe_embed semantic_scores ranked_items
        retrieve query conversation limit t s =
            let (scores, s') =
              semantic_leg conversation (safe_embed services max_embed_chars query s) in
            (
              (do
                found ← scores
                some (ranked_items query conversation (limit_or limit) candidate_pool found t)),
              s',
            )
