-- ===== src/Tests/Memories.antt =====
-- The memory service on a short conversation.
use low_context_inference.Base.{
  ℕ, ◌≡◌, refl, true, Option, none, some, String, List, [], ◌∷◌, map, is_some,
}
use low_context_inference.Json.{Value, end, field, str}
use low_context_inference.Tokens.{Counter}
use low_context_inference.Memory.{MessageRow, ChunkRow, MemoryRow, superseded, Tables, watermark_of}
use low_context_inference.Memory.Turns.{settled_units, chunk_new_turns}
use low_context_inference.Memory.Chunks.{IsChunked, Reaches, chunk_new_turns-IsChunked}
use low_context_inference.Memory.Records.{
  MemoryCreate, find_memory, new_memory, create_memory_row, supersede_memory,
}
use low_context_inference.Memory.Links.{IsConsistent}
use low_context_inference.Memory.Consistency.{
  Operation, create, supersede, perform, perform_all, perform_all-IsConsistent,
}

abbrev row : String → ℕ → String → MessageRow
row id seq role = record { id = id; seq = seq; role = role; content = field "role" (str role) end }

abbrev rows : List MessageRow
rows =
    row "m1" 1 "user"
    ∷ row "m2" 2 "assistant"
    ∷ row "m3" 3 "user"
    ∷ row "m4" 4 "assistant"
    ∷ row "m5" 5 "user"
    ∷ []

abbrev spec : String → Option String → MemoryCreate ℕ
spec content target = record {
  kind = "fact";
  content = content;
  conversation_id = "c1";
  source_message_ids = [];
  importance = 5;
  supersedes = target;
  metadata = end;
}

abbrev tables : Tables ℕ
tables = record { conversations = ("c1", some 2) ∷ []; chunks = []; memories = [] }

abbrev asked : List (Operation ℕ)
asked =
    create "k1" (spec "the sky is green" none)
    ∷ create "k2" (spec "the sky is blue" (some "k1"))
    ∷ supersede "k2" superseded
    ∷ []

abbrev no_memories : IsConsistent {Num = ℕ} []
no_memories = record { unique = tt; linked = tt }

abbrev first_asked : List (Operation ℕ)
first_asked = create "k1" (spec "the sky is green" none) ∷ supersede "k3" superseded ∷ []

abbrev green : MemoryRow ℕ
green = new_memory "k1" (spec "the sky is green" none) none

perform_all-IsConsistent_example :
    let before = perform_all some first_asked tables in
    let after = perform some (create "k2" (spec "the sky is blue" (some "k1"))) before in
    (find_memory "k1" after.memories
      ≡ some (record green { status = superseded; superseded_by = some "k2" }))
    × (find_memory "k2" after.memories
        ≡ some (new_memory "k2" (spec "the sky is blue" (some "k1")) (some "k1")))
    × IsConsistent before.memories
    × IsConsistent after.memories
    × ((k : String)
        → is_some (find_memory k tables.memories) ≡ true
        → is_some (find_memory k before.memories) ≡ true)
    × ((k : String)
        → is_some (find_memory k before.memories) ≡ true
        → is_some (find_memory k after.memories) ≡ true)
unfolding create_memory_row supersede_memory
perform_all-IsConsistent_example =
    perform_all-IsConsistent some first_asked tables "k2" "k1" "k1"
      (spec "the sky is blue" (some "k1")) green no_memories refl refl refl refl refl refl refl

links :
    map {B = String × Option String × Option String}
      (λ (r : MemoryRow ℕ). (r.id, r.supersedes, r.superseded_by))
      (perform_all some asked tables).memories
    ≡ ("k1", none, some "k2") ∷ ("k2", some "k1", none) ∷ []
unfolding create_memory_row supersede_memory
links = refl

abbrev ten_each : Counter
ten_each = record { message = λ m. 10; tools = λ ts. 0 }

abbrev id_of : List ChunkRow → String
id_of [] = "k1"
id_of (c ∷ []) = "k2"
id_of (c ∷ d ∷ chunks) = "k3"

abbrev dumps : Value → String
dumps v = "{}"

chunk_new_turns-IsChunked_example :
    let r = chunk_new_turns dumps ten_each id_of "c1" (λ c. rows) tables in
    IsChunked dumps ten_each id_of "c1"
      (settled_units dumps ten_each id_of "c1" (λ c. rows) tables.conversations)
      []
      r.0
      r.1.chunks
    × Reaches dumps ten_each id_of "c1" (some 2) (watermark_of "c1" r.1.conversations)
    × (r.1.memories ≡ [])
unfolding watermark_of
chunk_new_turns-IsChunked_example =
    chunk_new_turns-IsChunked dumps ten_each id_of "c1" (λ c. rows) tables

two_turns :
    (let r = chunk_new_turns dumps ten_each id_of "c1" (λ c. rows) tables in
      map {B = ℕ × ℕ × ℕ} (λ c. (c.start_seq, c.end_seq, c.token_count)) r.1.chunks)
    ≡ (1, 2, 20) ∷ (3, 4, 20) ∷ []
unfolding chunk_new_turns
two_turns = refl
