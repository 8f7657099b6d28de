-- ===== src/Tests/Recovery.antt =====
-- An indexing pass after an outage.
use low_context_inference.Base.{
  ℕ, ◌≤◌, ◌≡◌, refl, false, none, some, String, List, [], ◌∷◌, map, length, arith,
}
use low_context_inference.Json.{Value, end, field, str}
use low_context_inference.Tokens.{Counter}
use low_context_inference.Memory.{MessageRow, ChunkRow, Tables, Services, accepted, where_}
use low_context_inference.Memory.Turns.{chunk_new_turns}
use low_context_inference.Memory.Index.{is_pending}
use low_context_inference.Memory.Slices.{length-map}
use low_context_inference.Memory.Recovery.{
  IsUp, index_completed_turns, index_completed_turns-recovers,
}

-- a store that accepts every point
abbrev steady : Services
steady = record {
  State = List String;
  Vector = ℕ;
  embed = λ texts s. (some (map (λ text. 7) texts), s);
  upsert = λ id v payload s. (accepted, id ∷ s);
  prefix = λ n text. text;
}

steady-IsUp : IsUp steady
steady-IsUp = record {
  embeds = λ texts s. (map (λ text. 7) texts, refl, length-map (λ text. 7) texts);
  accepts = λ id v payload s. refl;
}

abbrev row : String → ℕ → String → MessageRow
row id seq role = record { id = id; seq = seq; role = role; content = field "role" (str role) end }

abbrev rows : String → List MessageRow
rows conversation = row "m1" 1 "user" ∷ row "m2" 2 "assistant" ∷ row "m3" 3 "user" ∷ []

-- a chunk that was cut while the store was down
abbrev missed : ChunkRow
missed = record {
  id = "k1";
  conversation_id = "c1";
  start_seq = 0;
  end_seq = 0;
  message_ids = [];
  raw_content = "hello";
  token_count = 10;
  indexed = false;
}

abbrev tables : Tables ℕ
tables = record { conversations = ("c1", none) ∷ []; chunks = missed ∷ []; memories = [] }

abbrev ten_each : Counter
ten_each = record { message = λ m. 10; tools = λ ts. 0 }

abbrev dumps : Value → String
dumps v = "{}"

abbrev id_of : List ChunkRow → String
id_of chunks = "k2"

two_pending :
    length
      (where_ (is_pending "c1") (chunk_new_turns dumps ten_each id_of "c1" rows tables).1.chunks)
    ≤ 100
unfolding chunk_new_turns
two_pending = omega arith

index_completed_turns-recovers_example :
    where_
      (is_pending "c1")
      (index_completed_turns steady 100 2 dumps ten_each id_of "c1" rows tables []).1.chunks
    ≡ []
index_completed_turns-recovers_example =
    index_completed_turns-recovers steady steady-IsUp 100 1 "c1" dumps ten_each id_of rows tables []
      two_pending

both :
    (index_completed_turns steady 100 2 dumps ten_each id_of "c1" rows tables []).2
    ≡ "k2" ∷ "k1" ∷ []
unfolding index_completed_turns
both = refl
