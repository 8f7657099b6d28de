-- ===== src/Memory/Retrieved.antt =====
-- What `retrieve` returns.
use mathlib.Core.Path.{subst}
use low_context_inference.Base.{
  ℕ, ◌≡◌, ◌≤◌, refl, true, ◌||◌, Option, none, some, String, List, [], ◌∷◌, length, All, Bool-cases,
  inl, inr, arith,
}
use low_context_inference.Runtime.{Runtime}
use low_context_inference.Store.{◌>>=◌}
use low_context_inference.Memory.{Tables, Services}
use low_context_inference.Memory.Records.{safe_embed}
use low_context_inference.Memory.Retrieval.{
  Floats, Hit, RetrievedItem, Weights, put_hits, score_at, lexical_search, uuids, fetched,
  fetch_by_ids, max_rank,
}
use low_context_inference.Memory.Ranking.{
  VectorHit, items_of, lexical_score, missing_keys, ranks_before, candidates, ranked_items,
  limit_or, semantic_leg, retrieve,
}
use low_context_inference.Memory.Sources.{
  All-take, All-sort_with, length-take_le, has_source, IsFound, put_hits-All, fetched-All,
  lexical_search-All,
}

module _ (py : Runtime) (fl : Floats) (weights : Weights fl) (age_days : String → fl.Num)
    (conversation : String) (t : Tables fl.Num) where
  open fl use {Num, nought, less}

  -- an item of the conversation, with the id and the text of an active memory or of a chunk of it
  abbrev pub IsOwned : RetrievedItem fl → Type 0
  IsOwned i =
      (i.conversation_id ≡ conversation)
      × (has_source conversation t i.item_type i.id i.content ≡ true)

  items_of-All :
      (scores : List (String × Num)) (highest : Num) (hits : List (Hit fl))
      → All (IsFound fl conversation t) hits
      → All IsOwned (items_of py fl weights age_days conversation scores highest hits)
  unfolding items_of
  items_of-All scores highest [] a = tt
  items_of-All scores highest (h ∷ hits) a =
      elim (Bool-cases (
        less nought (score_at fl h.id scores)
        || less nought (lexical_score py fl weights age_days highest h))) [
          | inl e ↦ rw (e, items_of) ((refl, a.0), items_of-All scores highest hits a.1)
          | inr e ↦ rw (e, items_of) (items_of-All scores highest hits a.1)
        ]

  module _ (rank_of : String → String → Option Num) (uuid : String → Option String) where
    candidates-All :
        (query : String) (pool : ℕ) (scores : List (String × Num))
        → All
            (IsFound fl conversation t)
            (candidates py fl weights age_days rank_of uuid query conversation pool scores t)
    unfolding candidates fetch_by_ids
    candidates-All query pool scores =
        let lexical = put_hits fl (lexical_search fl rank_of query conversation pool t) [] in
        let ids = uuids fl uuid (missing_keys py fl scores lexical) in
        put_hits-All fl conversation t (fetched fl conversation t ids) lexical
          (fetched-All fl conversation t ids)
          (put_hits-All fl conversation t (lexical_search fl rank_of query conversation pool t) []
            (lexical_search-All fl conversation t rank_of query pool) tt)

    abbrev pub AreOwned : ℕ → List (RetrievedItem fl) → Type 0
    AreOwned limit items = (length items ≤ limit) × All IsOwned items

    ranked_items-All :
        (query : String) (limit pool : ℕ) (scores : List (String × Num))
        → AreOwned limit (
            ranked_items py fl weights age_days rank_of uuid query conversation limit pool scores t)
    unfolding ranked_items
    ranked_items-All query limit pool scores = (
      length-take_le limit _,
      All-take IsOwned limit _ (
          All-sort_with IsOwned (ranks_before py fl weights age_days) _ (
            items_of-All scores (max_rank fl (lexical_search fl rank_of query conversation pool t))
              (candidates py fl weights age_days rank_of uuid query conversation pool scores t)
              (candidates-All query pool scores))),
    )

    module _ (services : Services)
        (search : services.Vector
          → ℕ
          → String
          → services.State
          → Option (List (VectorHit Num)) × services.State)
        (max_embed_chars limit_default candidate_pool : ℕ) where
      -- Whatever the vector store finds, the items that `retrieve` returns are at most as many as the
      -- limit, of the conversation, and each is an active memory or a chunk of it in the tables, with
      -- its id and its text.
      pub retrieve-AreOwned :
          (query : String) (limit : Option ℕ) (s : services.State) (items : List (RetrievedItem fl))
          → (retrieve py fl weights age_days rank_of uuid services search max_embed_chars
              limit_default candidate_pool query conversation limit t s).0
            ≡ some items
          → AreOwned
              (limit_or py fl weights age_days rank_of uuid services search max_embed_chars
                limit_default candidate_pool limit)
              items
      unfolding retrieve
      retrieve-AreOwned query limit s items e =
          go
            (semantic_leg py fl weights age_days rank_of uuid services search max_embed_chars
              limit_default candidate_pool conversation
              (safe_embed services max_embed_chars query s)).0
            e
        where
          bound : ℕ
          bound =
              limit_or py fl weights age_days rank_of uuid services search max_embed_chars
                limit_default candidate_pool limit

          go :
              (o : Option (List (String × Num)))
              → (o >>= λ found. some (
                  ranked_items py fl weights age_days rank_of uuid query conversation bound
                    candidate_pool found t))
                ≡ some items
              → AreOwned bound items
          go none e = ground arith
          go (some scores) e =
              subst (AreOwned bound) (ground (arith, e))
                (ranked_items-All query bound candidate_pool scores)
