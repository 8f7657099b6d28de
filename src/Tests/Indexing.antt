-- ===== src/Tests/Indexing.antt =====
-- The indexing, the rebuild and the retrieval of the memory service, over a small vector store.
use low_context_inference.Base.{
  All, ℕ, suc, ◌+◌, ◌*◌, ◌≡◌, refl, Bool, true, false, ◌||◌, Option, none, some, String, List, [],
  ◌∷◌, if◌then◌else◌, str_eq, map, ltb, ◌==◌, arith, eq_refl, Bool-cases, inl, inr,
}
use low_context_inference.Json.{Fields, end, field, str, obj}
use low_context_inference.Runtime.{Runtime}
use low_context_inference.Memory.{
  ChunkRow, MemoryRow, active, Tables, Services, Upserted, accepted, degraded, escaped, where_,
}
use low_context_inference.Memory.Retrieval.{
  Floats, RetrievedItem, Components, Weights, ItemType, memory, chunk,
}
use low_context_inference.Memory.Ranking.{VectorHit, retrieve}
use low_context_inference.Memory.Retrieved.{AreOwned, retrieve-AreOwned}
use low_context_inference.Engine.Scoring.{relevance_score, scored_candidate}
use low_context_inference.Engine.Scores.{retrieve-relevance_score}
use low_context_inference.Memory.Index.{Indexing, index_pending_chunks, unmarked}
use low_context_inference.Memory.Rebuild.{rebuild_vector_index}
use low_context_inference.Memory.Marks.{IsLawful, AreStored}
use low_context_inference.Memory.Passes.{Pass, index, rebuild, perform_all, perform_all-AreStored}
use low_context_inference.Memory.Counts.{IsSummary, Returns, state_of, rebuild_vector_index-counts}

-- a vector store that remembers ids, and fails for two of them, in one case with an exception that
-- the service does not catch
abbrev result_of : String → Upserted
result_of id = if str_eq id "k2" then degraded else if str_eq id "k4" then escaped else accepted

abbrev stored : Services
stored = record {
  State = List String;
  Vector = ℕ;
  embed = λ texts s. (some (map (λ text. 7) texts), s);
  upsert = λ id v payload s. (result_of id, if str_eq id "k2" then s else id ∷ s);
  prefix = λ n text. text;
}

abbrev is_in : String → List String → Bool
is_in k [] = false
is_in k (id ∷ ids) = str_eq id k || is_in k ids

abbrev Has : String → List String → Type 0
Has k s = is_in k s ≡ true

has_accepted :
    (id : String) (v : ℕ) (payload : Fields) (s : List String)
    → (stored.upsert id v payload s).0 ≡ accepted
    → Has id (stored.upsert id v payload s).1
has_accepted id v payload s h = elim (Bool-cases (str_eq id "k2")) [
  | inl e ↦ ground (arith, e, h)
  | inr e ↦ rw e (ground (arith, eq_refl id))
]

stays :
    (k id : String) (v : ℕ) (payload : Fields) (s : List String)
    → Has k s
    → Has k (stored.upsert id v payload s).1
stays k id v payload s h = elim (Bool-cases (str_eq id "k2")) [
  | inl e ↦ rw e h
  | inr e ↦ rw e (ground (arith, h))
]

lawful : IsLawful stored Has
lawful = record { upserted = has_accepted; kept_upsert = stays; kept_embed = λ k texts s h. h }

abbrev chunk_row : String → ℕ → ChunkRow
chunk_row id start = record {
  id = id;
  conversation_id = "c1";
  start_seq = start;
  end_seq = suc start;
  message_ids = [];
  raw_content = id;
  token_count = 10;
  indexed = false;
}

abbrev no_order : String → String → Bool
no_order a b = false

abbrev Run : Type 0
Run = Indexing stored 100 2

abbrev pending : Run
pending = record {
  chunks = chunk_row "k1" 1 ∷ chunk_row "k2" 3 ∷ chunk_row "k3" 5 ∷ [];
  state = [];
}

abbrev passes : List (Pass ℕ)
passes = index "c1" ∷ rebuild none true [] ∷ []

none_marked : AreStored stored Has lawful 100 2 pending
none_marked = ((λ e. ground (arith, e)), ((λ e. ground (arith, e)), ((λ e. ground (arith, e)), tt)))

perform_all-AreStored_example :
    AreStored stored Has lawful 100 2 (perform_all stored Has lawful 100 2 no_order passes pending)
    × (map unmarked (perform_all stored Has lawful 100 2 no_order passes pending).chunks
        ≡ map unmarked pending.chunks)
perform_all-AreStored_example =
    perform_all-AreStored stored Has lawful 100 2 no_order passes pending none_marked

one_fails :
    map (λ c. c.indexed) (index_pending_chunks stored 100 2 "c1" pending).1.chunks
    ≡ true ∷ false ∷ true ∷ []
unfolding index_pending_chunks
one_fails = refl

-- An exception of the vector store ends the pass; what was indexed before it keeps its marker.
abbrev cut_short : Option ℕ × Run
cut_short =
    index_pending_chunks stored 100 2 "c1"
      (record pending { chunks = chunk_row "k4" 4 ∷ pending.chunks })

pass_ends : cut_short.0 ≡ none
unfolding index_pending_chunks
pass_ends = refl

marked_before : map (λ c. c.indexed) cut_short.1.chunks ≡ false ∷ true ∷ false ∷ false ∷ []
unfolding index_pending_chunks
marked_before = refl

abbrev kept : MemoryRow ℕ
kept = record {
  id = "k9";
  conversation_id = "c1";
  kind = "fact";
  content = "blue";
  source_message_ids = [];
  importance = 1;
  status = active;
  supersedes = none;
  superseded_by = none;
  metadata = end;
}

rebuild_vector_index-counts_example :
    Returns stored 100 1 no_order
      (state_of stored 100 1 no_order)
      (IsSummary 3 1)
      (rebuild_vector_index stored 100 2 no_order none true (kept ∷ []) pending)
unfolding where_
rebuild_vector_index-counts_example =
    rebuild_vector_index-counts stored 100 1 no_order none true (kept ∷ []) pending

abbrev py : Runtime
py = record { dumps = λ v. "{}"; print = λ v. ""; sha256 = λ t. t }

abbrev whole : Floats
whole = record {
  Num = ℕ;
  nought = 0;
  one = 1;
  hundredths = λ n. n;
  plus = ◌+◌;
  times = ◌*◌;
  over = λ a b. a;
  round = λ a. a;
  less = ltb;
  same = ◌==◌;
  text_less = λ s t. false;
}

abbrev even : Weights whole
even = record {
  semantic_weight = 1;
  lexical_weight = 1;
  recency_weight = 0;
  importance_weight = 1;
  type_weight = 0;
}

abbrev rank_of : String → String → Option ℕ
rank_of query text = if str_eq query text then some 3 else none

-- the vector store also finds a chunk, and a memory of another conversation
abbrev search : ℕ → ℕ → String → List String → Option (List (VectorHit ℕ)) × List String
search v limit conversation s = (
  some (
      record { payload = obj (field "chunk_id" (str "k3") end); score = 1 }
      ∷ record { payload = obj (field "memory_id" (str "other") end); score = 1 }
      ∷ []),
  s,
)

abbrev tables : Tables ℕ
tables = record {
  conversations = [];
  chunks = pending.chunks;
  memories = kept ∷ record kept { id = "other"; conversation_id = "c2" } ∷ [];
}

abbrev found : Option (List (RetrievedItem whole)) × List String
found =
    retrieve py whole even (λ id. 0) rank_of some stored search 100 5 10 "blue" "c1" none tables []

abbrev hit : ItemType → String → String → String → ℕ → Components whole → RetrievedItem whole
hit item_type id kind content score parts = record {
  item_type = item_type;
  id = id;
  conversation_id = "c1";
  kind = kind;
  content = content;
  score = score;
  components = parts;
  source_message_ids = [];
  start_seq = none;
  end_seq = none;
}

abbrev items : List (RetrievedItem whole)
items =
    hit memory "k9" "fact" "blue" 4
      (record { semantic = 0; lexical = 3; recency = 1; importance = 1; type_priority = 50 })
    ∷ record (hit chunk "k3" "chunk" "k3" 1
        (record { semantic = 1; lexical = 0; recency = 1; importance = 0; type_priority = 40 })) {
          start_seq = some 5;
          end_seq = some 6;
        }
    ∷ []

retrieved : found.0 ≡ some items
unfolding retrieve
retrieved = refl

retrieve-AreOwned_example : AreOwned py whole even (λ id. 0) "c1" tables rank_of some 5 items
retrieve-AreOwned_example =
    retrieve-AreOwned py whole even (λ id. 0) "c1" tables rank_of some stored search 100 5 10 "blue"
      none [] items retrieved

retrieve-relevance_score_example :
    All (λ i. relevance_score whole even (scored_candidate whole i) ≡ i.score) items
retrieve-relevance_score_example =
    retrieve-relevance_score whole even py (λ id. 0) rank_of some refl stored search 100 5 10 "blue"
      "c1" none tables [] items retrieved
