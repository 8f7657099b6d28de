-- ===== src/Engine/Fusion.antt =====
-- `_fuse_candidates` of src/context_proxy/context/engine.py and `candidate_from_retrieved` of
-- src/context_proxy/context/candidates.py. The tokens are those of a counter on messages that it can
-- count.
use low_context_inference.Base.{
  ℕ, suc, Option, none, some, String, ◌<>◌, List, [], ◌∷◌, ◌++◌, if◌then◌else◌, length,
}
use low_context_inference.Json.{Value, pos, int, str, Fields, end, field}
use low_context_inference.Runtime.{Runtime, to_str}
use low_context_inference.Store.{◌>>=◌}
use low_context_inference.Tokens.{Counter, count_messages}
use low_context_inference.Planner.{MessageUnit, is_system, segment_messages}
use low_context_inference.Memory.Retrieval.{Floats, RetrievedItem, ItemType}
use low_context_inference.Engine.{
  Candidate, CandidateSource, system, tool_definitions, pinned, current_request, recent_turn,
  tier_by_source,
}
use low_context_inference.Engine.Texts.{
  Rendering, canonical_text, message_texts, content_texts, chunk_canonical_text,
}
use low_context_inference.Engine.Scoring.{source_of}

module _ (py : Runtime) (rd : Rendering) (counter : Counter) (fl : Floats) where
  abbrev pub numbered : String → ℕ → String
  numbered prefix index = prefix <> to_str py (int (pos index))

  -- a candidate whose metadata has at most a position and texts
  abbrev pub candidate :
      CandidateSource → String → ℕ → List Fields → String → ℕ → List String → Candidate
  candidate source key tokens render text position texts = record {
    source = source;
    key = key;
    tokens = tokens;
    tier = tier_by_source source;
    render = render;
    text = text;
    conversation_id = none;
    explicit = none;
    position = position;
    content_texts = texts;
    dedup_text = "";
  }

  abbrev pub all_texts : List Fields → List String
  all_texts [] = []
  all_texts (m ∷ ms) = content_texts py rd m ++ all_texts ms

  abbrev pub unit_source : MessageUnit → CandidateSource
  unit_source u = if is_system u then system else recent_turn

  -- the loop over the units, from an index on
  unfoldable pub unit_candidates : ℕ → List MessageUnit → Option (List Candidate)
  unfolding message_texts content_texts tier_by_source
  unit_candidates index [] = some []
  unit_candidates index (u ∷ units) = do
    text ← message_texts py rd u.messages
    rest ← unit_candidates (suc index) units
    some (
        candidate (unit_source u) (numbered "unit:" index) u.tokens u.messages
          (canonical_text py rd text) index (all_texts u.messages)
        ∷ rest)

  -- the current request, after the history's `count` units
  abbrev pub request_candidates : ℕ → List Fields → Option (List Candidate)
  request_candidates count [] = some []
  request_candidates count (m ∷ ms) = do
    text ← message_texts py rd (m ∷ ms)
    some (
        candidate current_request "current_request" (count_messages counter (m ∷ ms)) (m ∷ ms)
          (canonical_text py rd text) count []
        ∷ [])

  abbrev pub tools_candidates : List Value → List Candidate
  tools_candidates [] = []
  tools_candidates (t ∷ ts) =
      candidate tool_definitions "tool_definitions" (counter.tools (t ∷ ts)) [] "" 0 [] ∷ []

  unfoldable pub pinned_candidates : ℕ → List Fields → Option (List Candidate)
  unfolding message_texts tier_by_source
  pinned_candidates index [] = some []
  pinned_candidates index (m ∷ ms) = do
    text ← message_texts py rd (m ∷ [])
    rest ← pinned_candidates (suc index) ms
    some (
        candidate pinned (numbered "pinned:" index) (counter.message m) (m ∷ [])
          (canonical_text py rd text) index []
        ∷ rest)

  abbrev pub type_name : ItemType → String
  type_name ItemType.memory = "memory"
  type_name ItemType.chunk = "chunk"

  -- the text with its provenance header, and the message
  abbrev pub labelled : RetrievedItem fl → String
  labelled item =
      "[retrieved "
      <> type_name item.item_type
      <> ":"
      <> item.kind
      <> " id="
      <> item.id
      <> "]"
      <> "\n"
      <> item.content

  abbrev pub retrieved_message : RetrievedItem fl → Fields
  retrieved_message item = field "role" (str "user") (field "content" (str (labelled item)) end)

  abbrev pub dedup_text_of : ItemType → String → Option String
  dedup_text_of ItemType.chunk content = chunk_canonical_text py rd content
  dedup_text_of ItemType.memory content = some (canonical_text py rd content)

  abbrev pub retrieved_candidate : RetrievedItem fl → String → Candidate
  retrieved_candidate item dedup_text = record {
    source = source_of item.item_type;
    key = item.id;
    tokens = counter.message (retrieved_message item);
    tier = tier_by_source (source_of item.item_type);
    render = retrieved_message item ∷ [];
    text = canonical_text py rd (labelled item);
    conversation_id = some item.conversation_id;
    explicit = none;
    position = 0;
    content_texts = [];
    dedup_text = dedup_text;
  }

  unfoldable pub candidate_from_retrieved : RetrievedItem fl → Option Candidate
  unfolding chunk_canonical_text tier_by_source
  candidate_from_retrieved item = do
    dedup_text ← dedup_text_of item.item_type item.content
    some (retrieved_candidate item dedup_text)

  unfoldable pub retrieved_candidates : List (RetrievedItem fl) → Option (List Candidate)
  unfolding candidate_from_retrieved
  retrieved_candidates [] = some []
  retrieved_candidates (item ∷ items) = do
    c ← candidate_from_retrieved item
    rest ← retrieved_candidates items
    some (c ∷ rest)

  unfoldable pub fuse_candidates :
      List Fields
      → List Fields
      → List Value
      → List Fields
      → List (RetrievedItem fl)
      → Option (List Candidate)
  unfolding unit_candidates pinned_candidates retrieved_candidates message_texts tier_by_source
      segment_messages
  fuse_candidates history request tools pins retrieved = do
    let units = segment_messages counter history
    of_units ← unit_candidates 0 units
    of_request ← request_candidates (length units) request
    of_pins ← pinned_candidates 0 pins
    of_items ← retrieved_candidates retrieved
    some (of_units ++ of_request ++ tools_candidates tools ++ of_pins ++ of_items)
