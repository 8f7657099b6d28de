-- ===== src/Memory/Records.antt =====
-- `create_memory` and `supersede_memory` of src/context_proxy/memory/service.py. The new id is an
-- argument; `uuid` is `str(uuid.UUID(text))`, where `none` is a `ValueError`. Conversation ids are in the
-- form that the column gives them, which is the one that is compared.
use low_context_inference.Base.{
  ℕ, Bool, true, false, not, ◌&&◌, ◌||◌, Option, none, some, String, List, [], ◌∷◌, ◌++◌,
  if◌then◌else◌, str_eq, is_some, length, ◌==◌,
}
use low_context_inference.Json.{Fields, end, field, str}
use low_context_inference.Memory.{
  MemoryRow, MemoryStatus, active, superseded, is_active, is_superseded, Tables, Services, Upserted,
  escaped, where_, update_where,
}

pub record MemoryCreate (Num : Type 0) : Type 0 where
  pub kind : String
  pub content : String
  pub conversation_id : String
  pub source_message_ids : List String
  pub importance : Num
  pub supersedes : Option String
  pub metadata : Fields

abbrev pub has_conversation : String → List (String × Option ℕ) → Bool
has_conversation id [] = false
has_conversation id ((c, mark) ∷ rows) = str_eq c id || has_conversation id rows

-- `INSERT INTO conversations (id) ... ON CONFLICT (id) DO NOTHING`
unfoldable pub add_conversation : String → List (String × Option ℕ) → List (String × Option ℕ)
add_conversation id rows = if has_conversation id rows then rows else rows ++ (id, none) ∷ []

-- how the transaction of `create_memory` ends
pub data Created (Num : Type 0) : Type 0 where
  created : Tables Num → Created Num
  -- `ValueError`
  invalid_target unknown_target foreign_target : Created Num
  -- the primary key is taken
  duplicate_id : Created Num

module _ {Num : Type 0} where
  unfoldable pub find_memory : String → List (MemoryRow Num) → Option (MemoryRow Num)
  find_memory id [] = none
  find_memory id (r ∷ rows) =
      let rest = find_memory id rows in if str_eq r.id id then some r else rest

  -- the row that is inserted; `target` is `uuid.UUID(spec.supersedes)`, if it is given
  abbrev pub new_memory : String → MemoryCreate Num → Option String → MemoryRow Num
  new_memory id spec target = record {
    id = id;
    conversation_id = spec.conversation_id;
    kind = spec.kind;
    content = spec.content;
    source_message_ids = spec.source_message_ids;
    importance = spec.importance;
    status = active;
    supersedes = target;
    superseded_by = none;
    metadata = spec.metadata;
  }

  abbrev pub is_replaced : String → MemoryRow Num → Bool
  is_replaced target r = str_eq r.id target && not (is_superseded r.status)

  abbrev pub replaced_by : String → MemoryRow Num → MemoryRow Num
  replaced_by id r = record r { status = superseded; superseded_by = some id }

  -- `INSERT INTO memory_records`, which a taken id refuses
  unfoldable pub insert_memory : MemoryRow Num → Tables Num → Created Num
  unfolding find_memory
  insert_memory row t =
      if is_some (find_memory row.id t.memories)
      then duplicate_id
      else created (record t { memories = t.memories ++ row ∷ [] })

  abbrev pub mark_replaced : String → String → Created Num → Created Num
  mark_replaced target id (created t) =
      created
        (record t { memories = update_where (is_replaced target) (replaced_by id) t.memories })
  mark_replaced target id other = other

  abbrev pub replace_found :
      String → MemoryCreate Num → String → Option (MemoryRow Num) → Tables Num → Created Num
  replace_found id spec target none t = unknown_target
  replace_found id spec target (some found) t =
      if str_eq found.conversation_id spec.conversation_id
      then mark_replaced target id (insert_memory (new_memory id spec (some target)) t)
      else foreign_target

  abbrev pub replace : String → MemoryCreate Num → Option String → Tables Num → Created Num
  replace id spec none t = invalid_target
  replace id spec (some target) t = replace_found id spec target (find_memory target t.memories) t

  abbrev pub create_or_replace :
      String
      → MemoryCreate Num
      → (String → Option String)
      → Option String
      → Tables Num
      → Created Num
  create_or_replace id spec uuid none t = insert_memory (new_memory id spec none) t
  create_or_replace id spec uuid (some given) t =
      if str_eq given ""
      then insert_memory (new_memory id spec none) t
      else replace id spec (uuid given) t

  -- the transaction
  unfoldable pub create_memory_row :
      String → MemoryCreate Num → (String → Option String) → Tables Num → Created Num
  unfolding insert_memory add_conversation update_where find_memory
  create_memory_row id spec uuid t =
      create_or_replace id spec uuid spec.supersedes
        (record t { conversations = add_conversation spec.conversation_id t.conversations })

  -- `supersede_memory`: whether a row was updated, and the tables
  unfoldable pub supersede_memory : String → MemoryStatus → Tables Num → Bool × Tables Num
  unfolding update_where where_
  supersede_memory id status t =
      let test = λ (r : MemoryRow Num). str_eq r.id id && is_active r.status in
      (
        length (where_ test t.memories) == 1,
        record t { memories = update_where test (λ r. record r { status = status }) t.memories },
      )

module _ (services : Services) (max_embed_chars : ℕ) where
  open services use {State, Vector}

  -- `_safe_embed`: the first vector. A response without vectors raises an `IndexError`, the outer `none`.
  abbrev pub first_vector : Option (List Vector) → Option (Option Vector)
  first_vector none = some none
  first_vector (some []) = none
  first_vector (some (v ∷ vs)) = some (some v)

  unfoldable pub safe_embed : String → State → Option (Option Vector) × State
  safe_embed text s =
      let (vectors, s') = services.embed (services.prefix max_embed_chars text ∷ []) s in
      (first_vector vectors, s')

  abbrev is_escaped : Upserted → Bool
  is_escaped escaped = true
  is_escaped _ = false

  abbrev pub upsert_given : String → Fields → Option (Option Vector) × State → Bool × State
  upsert_given id payload (none, s) = (false, s)
  upsert_given id payload (some none, s) = (true, s)
  upsert_given id payload (some (some v), s) =
      let (result, s') = services.upsert id v payload s in (not (is_escaped result), s')

  -- `_embed_and_upsert`: whether it returns, and the services
  unfoldable pub embed_and_upsert : String → String → Fields → State → Bool × State
  unfolding safe_embed
  embed_and_upsert id text payload s = upsert_given id payload (safe_embed text s)

  -- `create_memory`: how the transaction ends, whether the call then returns the id, and the services
  unfoldable pub create_memory :
      {Num : Type 0}
      → String
      → MemoryCreate Num
      → (String → Option String)
      → Tables Num
      → State
      → Created Num × Bool × State
  unfolding create_memory_row embed_and_upsert
  create_memory id spec uuid t s =
      let result = create_memory_row id spec uuid t in
      let (returned, s') =
        embed_and_upsert id spec.content
          (field "conversation_id" (str spec.conversation_id)
            (field "kind" (str spec.kind) (field "memory_id" (str id) end)))
          s in
      elim result [ created t' ↦ (created t', returned, s') | other ↦ (other, false, s) ]
