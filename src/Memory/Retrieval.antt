-- ===== src/Memory/Retrieval.antt =====
-- `retrieve`, `_lexical_search` and `_fetch_by_ids` of src/context_proxy/memory/service.py, and the
-- priorities of src/context_proxy/memory/models.py. Text search, floats, ages and the vector store
-- are parameters; a failing database is left out.
use low_context_inference.Base.{
  ℕ, Bool, false, ◌&&◌, ◌||◌, Option, none, some, String, List, [], ◌∷◌, ◌++◌, if◌then◌else◌,
  str_eq, take, map,
}
use low_context_inference.Store.{◌>>=◌}
use low_context_inference.Memory.{MemoryRow, ChunkRow, Tables, is_active, where_, sort_with}

pub record Floats : Type 1 where
  pub Num : Type 0
  pub nought : Num
  pub one : Num
  -- n / 100
  pub hundredths : ℕ → Num
  pub plus : Num → Num → Num
  pub times : Num → Num → Num
  pub over : Num → Num → Num
  -- `round(x, 6)`
  pub round : Num → Num
  -- `<` and `==`
  pub less : Num → Num → Bool
  pub same : Num → Num → Bool
  -- `<` of two texts
  pub text_less : String → String → Bool

pub data ItemType : Type 0 where
  memory chunk : ItemType

module _ (fl : Floats) where
  open fl use {Num, nought, one, hundredths, plus, times, over, round, less, same, text_less}

  -- the dicts that the two legs return
  pub record Hit : Type 0 where
    pub id : String
    pub item_type : ItemType
    pub kind : String
    pub content : String
    pub importance : Num
    pub source_message_ids : List String
    pub rank : Num
    pub start_seq : Option ℕ
    pub end_seq : Option ℕ

  pub record Components : Type 0 where
    pub semantic : Num
    pub lexical : Num
    pub recency : Num
    pub importance : Num
    pub type_priority : Num

  pub record RetrievedItem : Type 0 where
    pub item_type : ItemType
    pub id : String
    pub conversation_id : String
    pub kind : String
    pub content : String
    pub score : Num
    pub components : Components
    pub source_message_ids : List String
    pub start_seq : Option ℕ
    pub end_seq : Option ℕ

  pub record Weights : Type 0 where
    pub semantic_weight : Num
    pub lexical_weight : Num
    pub recency_weight : Num
    pub importance_weight : Num
    pub type_weight : Num

  -- the weighted sum of the components
  abbrev pub weighted : Weights → Components → Num
  weighted w c =
      plus
        (plus
          (plus (plus (times w.semantic_weight c.semantic) (times w.lexical_weight c.lexical))
            (times w.recency_weight c.recency))
          (times w.importance_weight c.importance))
        (times w.type_weight c.type_priority)

  -- `TYPE_PRIORITY.get(kind, 0.4)`
  unfoldable pub type_priority : String → Num
  type_priority kind =
      if str_eq kind "decision"
      then hundredths 90
      else if str_eq kind "constraint"
      then hundredths 85
      else if str_eq kind "task"
      then hundredths 70
      else if str_eq kind "bug"
      then hundredths 70
      else if str_eq kind "episode_summary"
      then hundredths 60
      else if str_eq kind "conversation_summary"
      then hundredths 60
      else if str_eq kind "fact"
      then hundredths 50
      else if str_eq kind "implementation"
      then hundredths 50
      else if str_eq kind "chunk"
      then hundredths 40
      else if str_eq kind "tool_result"
      then hundredths 30
      else hundredths 40

  abbrev pub memory_hit : Num → MemoryRow Num → Hit
  memory_hit rank r = record {
    id = r.id;
    item_type = memory;
    kind = r.kind;
    content = r.content;
    importance = r.importance;
    source_message_ids = r.source_message_ids;
    rank = rank;
    start_seq = none;
    end_seq = none;
  }

  abbrev pub chunk_hit : Num → ChunkRow → Hit
  chunk_hit rank c = record {
    id = c.id;
    item_type = chunk;
    kind = "chunk";
    content = c.raw_content;
    importance = nought;
    source_message_ids = c.message_ids;
    rank = rank;
    start_seq = some c.start_seq;
    end_seq = some c.end_seq;
  }

  abbrev pub is_of : String → MemoryRow Num → Bool
  is_of conversation r = str_eq r.conversation_id conversation && is_active r.status

  abbrev pub is_chunk_in : String → ChunkRow → Bool
  is_chunk_in conversation c = str_eq c.conversation_id conversation

  -- `{hit["id"]: hit ...}` and `candidates.update(...)`
  unfoldable pub put_hit : Hit → List Hit → List Hit
  put_hit h [] = h ∷ []
  put_hit h (g ∷ hits) =
      let rest = put_hit h hits in if str_eq g.id h.id then h ∷ hits else g ∷ rest

  unfoldable pub put_hits : List Hit → List Hit → List Hit
  unfolding put_hit
  put_hits [] hits = hits
  put_hits (h ∷ more) hits = put_hits more (put_hit h hits)

  unfoldable pub has_hit : String → List Hit → Bool
  has_hit key [] = false
  has_hit key (h ∷ hits) = str_eq h.id key || has_hit key hits

  unfoldable pub is_member : String → List String → Bool
  is_member id [] = false
  is_member id (i ∷ ids) = str_eq i id || is_member id ids

  -- `semantic_scores[key] = score`
  unfoldable pub put_score : String → Num → List (String × Num) → List (String × Num)
  put_score key n [] = (key, n) ∷ []
  put_score key n ((k, m) ∷ scores) =
      let rest = put_score key n scores in if str_eq k key then (k, n) ∷ scores else (k, m) ∷ rest

  abbrev pub score_at : String → List (String × Num) → Num
  score_at key [] = nought
  score_at key ((k, m) ∷ scores) = if str_eq k key then m else score_at key scores

  abbrev pub max_num : Num → Num → Num
  max_num a b = if less a b then b else a

  abbrev pub min_num : Num → Num → Num
  min_num a b = if less b a then b else a

  unfoldable pub max_rank_from : Num → List Hit → Num
  max_rank_from best [] = best
  max_rank_from best (h ∷ hits) = max_rank_from (max_num best h.rank) hits

  -- `max((h["rank"] for h in hits), default=0.0)`
  unfoldable pub max_rank : List Hit → Num
  unfolding max_rank_from
  max_rank [] = nought
  max_rank (h ∷ hits) = max_rank_from h.rank hits

  -- `ts_rank` of a text for a query, and `none` where `ts @@ query` does not hold
  module _ (rank_of : String → String → Option Num) where
    abbrev pub add_ranked : Option Num → (Num → Hit) → List Hit → List Hit
    add_ranked none hit hits = hits
    add_ranked (some rank) hit hits = hit rank ∷ hits

    unfoldable pub ranked_memories : String → List (MemoryRow Num) → List Hit
    ranked_memories query [] = []
    ranked_memories query (r ∷ rows) =
        add_ranked (rank_of query r.content) (λ rank. memory_hit rank r)
          (ranked_memories query rows)

    unfoldable pub ranked_chunks : String → List ChunkRow → List Hit
    ranked_chunks query [] = []
    ranked_chunks query (c ∷ rows) =
        add_ranked (rank_of query c.raw_content) (λ rank. chunk_hit rank c)
          (ranked_chunks query rows)

    unfoldable pub lexical_search : String → String → ℕ → Tables Num → List Hit
    unfolding ranked_memories ranked_chunks sort_with where_
    lexical_search query conversation limit t = take limit (
        sort_with (λ a b. less b.rank a.rank)
          (ranked_memories query (where_ (is_of conversation) t.memories)
            ++ ranked_chunks query (where_ (is_chunk_in conversation) t.chunks)))

  -- `[uuid.UUID(x) for x in ids]`; `none` is a `ValueError`
  unfoldable pub uuids : (String → Option String) → List String → Option (List String)
  uuids uuid [] = some []
  uuids uuid (id ∷ ids) = do i ← uuid id; rest ← uuids uuid ids; some (i ∷ rest)

  abbrev pub fetched : String → Tables Num → Option (List String) → List Hit
  fetched conversation t none = []
  fetched conversation t (some ids) =
      put_hits
        (map (chunk_hit nought)
          (where_ (λ c. is_chunk_in conversation c && is_member c.id ids) t.chunks))
        (put_hits
          (map (memory_hit nought)
            (where_ (λ r. is_of conversation r && is_member r.id ids) t.memories))
          [])

  unfoldable pub fetch_by_ids :
      (String → Option String) → String → List String → Tables Num → List Hit
  unfolding uuids put_hits where_ is_member
  fetch_by_ids uuid conversation ids t = fetched conversation t (uuids uuid ids)
