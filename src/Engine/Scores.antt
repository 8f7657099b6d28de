-- ===== src/Engine/Scores.antt =====
-- The scores of src/context_proxy/context/scoring.py for what `retrieve` of
-- src/context_proxy/memory/service.py returns.
use mathlib.Core.Path.{subst}
use low_context_inference.Base.{
  ℕ, ◌≡◌, refl, ap, false, ◌||◌, Option, none, some, String, List, [], ◌∷◌, All, Bool-cases, inl,
  inr, arith,
}
use low_context_inference.Runtime.{Runtime}
use low_context_inference.Store.{◌>>=◌}
use low_context_inference.Memory.{Tables, Services}
use low_context_inference.Memory.Records.{safe_embed}
use low_context_inference.Memory.Retrieval.{
  Floats, Hit, RetrievedItem, ItemType, Components, Weights, weighted, score_at, max_rank,
  lexical_search,
}
use low_context_inference.Memory.Ranking.{
  VectorHit, items_of, components_of, lexical_score, ranks_before, candidates, ranked_items,
  limit_or, semantic_leg, retrieve,
}
use low_context_inference.Memory.Sources.{All-take, All-sort_with}
use low_context_inference.Engine.Scoring.{
  relevance_score, source_of, scored_candidate, entries_of, component_score, get_or_nought,
}

module _ (fl : Floats) (weights : Weights fl) where
  open fl use {Num, nought, less}

  abbrev IsScored : RetrievedItem fl → Type 0
  IsScored i = relevance_score fl weights (scored_candidate fl i) ≡ i.score

  -- The two sums are the same, over the components that an item has.
  component_score-weighted :
      (c : Components fl) → component_score fl weights (entries_of fl c) ≡ weighted fl weights c
  unfolding component_score get_or_nought
  component_score-weighted c = refl

  relevance_score-retrieved :
      less nought nought ≡ false
      → (kind : ItemType) (c : Components fl)
      → relevance_score fl weights
          (record { source = source_of kind; components = entries_of fl c })
        ≡ fl.round (weighted fl weights c)
  unfolding relevance_score
  relevance_score-retrieved h ItemType.memory c = rw h (ap fl.round (component_score-weighted c))
  relevance_score-retrieved h ItemType.chunk c = rw h (ap fl.round (component_score-weighted c))

  module _ (py : Runtime) (age_days : String → Num) (rank_of : String → String → Option Num)
      (uuid : String → Option String) (irreflexive : less nought nought ≡ false) where
    items_of-IsScored :
        (conversation : String) (scores : List (String × Num)) (highest : Num)
        (hits : List (Hit fl))
        → All IsScored (items_of py fl weights age_days conversation scores highest hits)
    unfolding items_of
    items_of-IsScored conversation scores highest [] = tt
    items_of-IsScored conversation scores highest (h ∷ hits) =
        let semantic = score_at fl h.id scores in
        let lexical = lexical_score py fl weights age_days highest h in
        let p =
          relevance_score-retrieved irreflexive h.item_type
            (components_of py fl weights age_days semantic lexical h) in
        elim (Bool-cases (less nought semantic || less nought lexical)) [
          | inl e ↦ rw (e, items_of) (p, items_of-IsScored conversation scores highest hits)
          | inr e ↦ rw (e, items_of) (items_of-IsScored conversation scores highest hits)
        ]

    module _ (services : Services)
        (search : services.Vector
          → ℕ
          → String
          → services.State
          → Option (List (VectorHit Num)) × services.State)
        (max_embed_chars limit_default candidate_pool : ℕ) where
      -- With the same weights, the score that the engine gives the candidate of an item that was
      -- retrieved, a sum over the entries of a dict where those that are missing count nothing, is the
      -- score that the retrieval ranked the item by, where 0 is not less than 0.
      pub retrieve-relevance_score :
          (query conversation : String) (limit : Option ℕ) (t : Tables Num) (s : services.State)
          (items : List (RetrievedItem fl))
          → (retrieve py fl weights age_days rank_of uuid services search max_embed_chars
              limit_default candidate_pool query conversation limit t s).0
            ≡ some items
          → All (λ i. relevance_score fl weights (scored_candidate fl i) ≡ i.score) items
      unfolding retrieve ranked_items
      retrieve-relevance_score query conversation limit t s items e =
          go
            (semantic_leg py fl weights age_days rank_of uuid services search max_embed_chars
              limit_default candidate_pool conversation
              (safe_embed services max_embed_chars query s)).0
            e
        where
          bound : ℕ
          bound =
              limit_or py fl weights age_days rank_of uuid services search max_embed_chars
                limit_default candidate_pool limit

          go :
              (o : Option (List (String × Num)))
              → (o >>= λ found. some (
                  ranked_items py fl weights age_days rank_of uuid query conversation bound
                    candidate_pool found t))
                ≡ some items
              → All IsScored items
          go none e = ground arith
          go (some scores) e = subst (All IsScored) (ground (arith, e)) (
              All-take IsScored bound _ (
                All-sort_with IsScored (ranks_before py fl weights age_days) _ (
                  items_of-IsScored conversation scores
                    (max_rank fl (lexical_search fl rank_of query conversation candidate_pool t))
                    (candidates py fl weights age_days rank_of uuid query conversation
                      candidate_pool scores t))))
