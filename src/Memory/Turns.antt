-- ===== src/Memory/Turns.antt =====
-- `_chunk_new_turns` and `_insert_chunk` of src/context_proxy/memory/service.py. `messages` are the
-- rows of a conversation by `seq`, `counter` the `TokenCounter`,
-- `dumps` is `json.dumps(m, ensure_ascii=False)`, and `new_id` the default of the
-- column `id`.
use low_context_inference.Base.{
  ℕ, suc, max, Bool, true, false, not, ◌&&◌, ◌||◌, Option, none, some, String, ◌<>◌, List, [], ◌∷◌,
  ◌++◌, leb, ltb, ◌==◌, if◌then◌else◌, str_eq, map,
}
use low_context_inference.Json.{Value, obj}
use low_context_inference.Tokens.{Counter, count_messages}
use low_context_inference.Memory.{MessageRow, ChunkRow, Tables, where_, watermark_of}

abbrev pub is_user : MessageRow → Bool
is_user r = str_eq r.role "user"

-- `seq <= COALESCE(watermark, -1)`
abbrev pub at_most : ℕ → Option ℕ → Bool
at_most seq none = false
at_most seq (some mark) = leb seq mark

-- `COALESCE(MAX(seq), 0)` of the user's messages up to the watermark
unfoldable pub boundary : Option ℕ → List MessageRow → ℕ
boundary mark [] = 0
boundary mark (r ∷ rows) =
    let rest = boundary mark rows in
    if is_user r && at_most r.seq mark then max r.seq rest else rest

abbrev pub is_chunked : ℕ → MessageRow → Bool
is_chunked start r = not (str_eq r.role "system") && leb start r.seq

abbrev pub close : List MessageRow → List (List MessageRow)
close [] = []
close (r ∷ rows) = (r ∷ rows) ∷ []

abbrev pub is_empty : List MessageRow → Bool
is_empty [] = true
is_empty (r ∷ rows) = false

-- the loop that cuts the rows into units, with the open unit
unfoldable pub split_units : List MessageRow → List MessageRow → List (List MessageRow)
split_units current [] = close current
split_units current (r ∷ rows) =
    let cut = split_units (r ∷ []) rows in
    let grown = split_units (current ++ r ∷ []) rows in
    if is_user r && not (is_empty current) then current ∷ cut else grown

-- `units[:-1]`
unfoldable pub settled : List (List MessageRow) → List (List MessageRow)
settled [] = []
settled (u ∷ []) = []
settled (u ∷ v ∷ units) = u ∷ settled (v ∷ units)

-- `unit[0]["seq"]` and `unit[-1]["seq"]`
abbrev pub first_seq : List MessageRow → ℕ
first_seq [] = 0
first_seq (r ∷ rows) = r.seq

abbrev pub last_seq : List MessageRow → ℕ
last_seq [] = 0
last_seq (r ∷ []) = r.seq
last_seq (r ∷ s ∷ rows) = last_seq (s ∷ rows)

abbrev pub is_chunk_of : String → ℕ → ChunkRow → Bool
is_chunk_of conversation start c = str_eq c.conversation_id conversation && c.start_seq == start

unfoldable pub has_chunk : String → ℕ → List ChunkRow → Bool
has_chunk conversation start [] = false
has_chunk conversation start (c ∷ chunks) =
    is_chunk_of conversation start c || has_chunk conversation start chunks

-- `"\n".join(...)`
abbrev pub join_lines : List String → String
join_lines [] = ""
join_lines (line ∷ []) = line
join_lines (line ∷ next ∷ lines) = line <> "\n" <> join_lines (next ∷ lines)

module _ (dumps : Value → String) (counter : Counter) (new_id : List ChunkRow → String) where
  abbrev pub new_chunk : String → List MessageRow → List ChunkRow → ChunkRow
  new_chunk conversation unit chunks = record {
    id = new_id chunks;
    conversation_id = conversation;
    start_seq = first_seq unit;
    end_seq = last_seq unit;
    message_ids = map (λ r. r.id) unit;
    raw_content = join_lines (map (λ r. dumps (obj r.content)) unit);
    token_count = count_messages counter (map (λ r. r.content) unit);
    indexed = false;
  }

  -- whether a row was inserted, and the table
  unfoldable pub insert_chunk : String → List MessageRow → List ChunkRow → Bool × List ChunkRow
  unfolding has_chunk
  insert_chunk conversation unit chunks =
      if has_chunk conversation (first_seq unit) chunks
      then (false, chunks)
      else (true, chunks ++ new_chunk conversation unit chunks ∷ [])

  -- the loop over the settled units: `created`, and the table
  unfoldable pub insert_units : String → List (List MessageRow) → List ChunkRow → ℕ × List ChunkRow
  unfolding insert_chunk
  insert_units conversation [] chunks = (0, chunks)
  insert_units conversation (unit ∷ units) chunks =
      let (inserted, grown) = insert_chunk conversation unit chunks in
      let (created, final) = insert_units conversation units grown in
      (if inserted then suc created else created, final)

  -- `settled_end`
  abbrev pub end_of : List (List MessageRow) → Option ℕ
  end_of [] = none
  end_of (u ∷ []) = some (last_seq u)
  end_of (u ∷ v ∷ units) = end_of (v ∷ units)

  -- `UPDATE conversations SET last_chunked_seq`, if it moves on
  abbrev pub moves : Option ℕ → ℕ → Bool
  moves none end = true
  moves (some mark) end = ltb mark end

  abbrev pub new_mark : Option ℕ → Option ℕ → Option ℕ
  new_mark mark none = mark
  new_mark mark (some end) = if moves mark end then some end else mark

  unfoldable pub set_watermark :
      String → Option ℕ → List (String × Option ℕ) → List (String × Option ℕ)
  set_watermark conversation mark [] = []
  set_watermark conversation mark ((id, old) ∷ rows) =
      let rest = set_watermark conversation mark rows in
      if str_eq id conversation then (id, mark) ∷ rest else (id, old) ∷ rest

  abbrev pub settled_units :
      String → (String → List MessageRow) → List (String × Option ℕ) → List (List MessageRow)
  settled_units conversation messages conversations =
      let mark = watermark_of conversation conversations in
      let start = boundary mark (messages conversation) in
      settled (split_units [] (where_ (is_chunked start) (messages conversation)))

  -- `created`, and the tables
  unfoldable pub chunk_new_turns :
      {Num : Type 0} → String → (String → List MessageRow) → Tables Num → ℕ × Tables Num
  unfolding boundary split_units settled insert_units set_watermark watermark_of where_
  chunk_new_turns conversation messages t =
      let units = settled_units conversation messages t.conversations in
      let (created, chunks) = insert_units conversation units t.chunks in
      let mark = new_mark (watermark_of conversation t.conversations) (end_of units) in
      (
        created,
        record t {
          chunks = chunks;
          conversations = set_watermark conversation mark t.conversations;
        },
      )
