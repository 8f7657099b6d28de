-- ===== src/Engine/Scoring.antt =====
-- src/context_proxy/context/scoring.py. Of a candidate the source and the components are read, which
-- `candidate_from_retrieved` of src/context_proxy/context/candidates.py copies from an item.
use low_context_inference.Base.{String, List, [], ◌∷◌, str_eq, if◌then◌else◌}
use low_context_inference.Memory.Retrieval.{Floats, ItemType, RetrievedItem, Components, Weights}
use low_context_inference.Engine.{
  CandidateSource, system, tool_definitions, pinned, current_request, recent_turn, memory, chunk,
}

-- `CandidateSource.MEMORY if item.item_type == "memory" else CandidateSource.CHUNK`
abbrev pub source_of : ItemType → CandidateSource
source_of ItemType.memory = memory
source_of ItemType.chunk = chunk

module _ (fl : Floats) where
  open fl use {Num, nought, one, hundredths, plus, times, round, less}

  unfoldable pub base_score : CandidateSource → Num
  base_score system = one
  base_score tool_definitions = one
  base_score pinned = hundredths 95
  base_score current_request = one
  base_score recent_turn = hundredths 90
  base_score memory = nought
  base_score chunk = nought

  -- `d.get(key, 0.0)`
  unfoldable pub get_or_nought : List (String × Num) → String → Num
  get_or_nought [] key = nought
  get_or_nought ((k, x) ∷ entries) key =
      let rest = get_or_nought entries key in if str_eq k key then x else rest

  -- the dict that `retrieve` of src/context_proxy/memory/service.py makes
  abbrev pub entries_of : Components fl → List (String × Num)
  entries_of c =
      ("semantic", c.semantic)
      ∷ ("lexical", c.lexical)
      ∷ ("recency", c.recency)
      ∷ ("importance", c.importance)
      ∷ ("type_priority", c.type_priority)
      ∷ []

  -- what is read of a candidate
  pub record ScoredCandidate : Type 0 where
    pub source : CandidateSource
    pub components : List (String × Num)

  -- `source` and `components=dict(item.components)` of the candidate of a retrieved item
  abbrev pub scored_candidate : RetrievedItem fl → ScoredCandidate
  scored_candidate i = record {
    source = source_of i.item_type;
    components = entries_of i.components;
  }

  -- `score`; a component that is missing counts nothing
  unfoldable pub component_score : Weights fl → List (String × Num) → Num
  unfolding get_or_nought
  component_score w c =
      plus
        (plus
          (plus
            (plus (times w.semantic_weight (get_or_nought c "semantic"))
              (times w.lexical_weight (get_or_nought c "lexical")))
            (times w.recency_weight (get_or_nought c "recency")))
          (times w.importance_weight (get_or_nought c "importance")))
        (times w.type_weight (get_or_nought c "type_priority"))

  unfoldable pub relevance_score : Weights fl → ScoredCandidate → Num
  unfolding base_score component_score
  relevance_score weights candidate =
      if less nought (base_score candidate.source)
      then round (base_score candidate.source)
      else round (component_score weights candidate.components)
