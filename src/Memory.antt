-- ===== src/Memory.antt =====
-- src/context_proxy/memory/service.py: the tables that its statements read and write, and the
-- services that it calls. A method whose transaction raises leaves the tables as they were, since it is
-- rolled back; the markers of an indexing pass or a rebuild are statements of their own, and stay.
pub mod Turns
pub mod Cutting
pub mod Chunks
pub mod Records
pub mod Links
pub mod Replacement
pub mod Replacing
pub mod Consistency
pub mod Retrieval
pub mod Ranking
pub mod Sources
pub mod Retrieved
pub mod Index
pub mod Rebuild
pub mod Marks
pub mod Passes
pub mod Slices
pub mod Counts
pub mod Embedding
pub mod Pending
pub mod Recovery
use low_context_inference.Base.{
  ℕ, zero, suc, ◌+◌, max, Bool, true, false, not, ◌&&◌, Option, none, some, String, List, [], ◌∷◌,
  ◌++◌, leb, ltb, if◌then◌else◌, str_eq, length, map,
}
use low_context_inference.Json.{Fields}

pub record MessageRow : Type 0 where
  pub id : String
  pub seq : ℕ
  pub role : String
  pub content : Fields

pub record ChunkRow : Type 0 where
  pub id : String
  pub conversation_id : String
  pub start_seq : ℕ
  pub end_seq : ℕ
  pub message_ids : List String
  pub raw_content : String
  pub token_count : ℕ
  -- `vector_indexed_at IS NOT NULL`
  pub indexed : Bool

pub data MemoryStatus : Type 0 where
  active superseded resolved obsolete : MemoryStatus

abbrev pub is_active : MemoryStatus → Bool
is_active active = true
is_active _ = false

abbrev pub is_superseded : MemoryStatus → Bool
is_superseded superseded = true
is_superseded _ = false

pub record MemoryRow (Num : Type 0) : Type 0 where
  pub id : String
  pub conversation_id : String
  pub kind : String
  pub content : String
  pub source_message_ids : List String
  pub importance : Num
  pub status : MemoryStatus
  pub supersedes : Option String
  pub superseded_by : Option String
  pub metadata : Fields

-- `conversations` with `last_chunked_seq`, `conversation_chunks` and `memory_records`
pub record Tables (Num : Type 0) : Type 0 where
  pub conversations : List (String × Option ℕ)
  pub chunks : List ChunkRow
  pub memories : List (MemoryRow Num)

-- how an `upsert` ends: the point is stored, a `VectorStoreError` that the service catches, or an
-- `httpx.HTTPError`, which leaves the service
pub data Upserted : Type 0 where
  accepted degraded escaped : Upserted

-- the embedding endpoint and Qdrant, with what they remember
pub record Services : Type 1 where
  pub State : Type 0
  pub Vector : Type 0
  -- `embed`; `none` is an `EmbeddingProviderError`
  pub embed : List String → State → Option (List Vector) × State
  -- `upsert` of a point, by its id, its vector and its payload
  pub upsert : String → Vector → Fields → State → Upserted × State
  -- `text[:n]`
  pub prefix : ℕ → String → String

-- What a call returns, with the state then; `none` is an exception, after which nothing more is done.
module _ {A B R : Type 0} where
  abbrev pub chained : Option A × R → (A → R → Option B × R) → Option B × R
  chained (none, r) next = (none, r)
  chained (some a, r) next = next a r

  -- what holds of the state, and that the rest keeps
  pub chained-kept :
      (P : R → Type 0) (x : Option A × R) (next : A → R → Option B × R)
      → P x.1
      → ((a : A) (r : R) → P r → P (next a r).1)
      → P (chained x next).1
  chained-kept P (none, r) next p f = p
  chained-kept P (some a, r) next p f = f a r p

  abbrev pub changed : (A → B) → Option A × R → Option B × R
  changed f (o, r) = (elim o [ none ↦ none | some a ↦ some (f a) ], r)

-- `ORDER BY`, by a number
module _ {ℓ} {A : Type ℓ} (measure : A → ℕ) where
  unfoldable pub insert_by : A → List A → List A
  insert_by x [] = x ∷ []
  insert_by x (y ∷ ys) =
      let rest = insert_by x ys in if ltb (measure y) (measure x) then y ∷ rest else x ∷ y ∷ ys

  unfoldable pub sort_by : List A → List A
  unfolding insert_by
  sort_by [] = []
  sort_by (x ∷ xs) = insert_by x (sort_by xs)

-- Python's `sort`, which is stable
module _ {ℓ} {A : Type ℓ} (before : A → A → Bool) where
  unfoldable pub insert_with : A → List A → List A
  insert_with x [] = x ∷ []
  insert_with x (y ∷ ys) =
      let rest = insert_with x ys in if before y x then y ∷ rest else x ∷ y ∷ ys

  unfoldable pub sort_with : List A → List A
  unfolding insert_with
  sort_with [] = []
  sort_with (x ∷ xs) = insert_with x (sort_with xs)

-- `WHERE`
unfoldable pub where_ {ℓ} : {A : Type ℓ} → (A → Bool) → List A → List A
where_ test [] = []
where_ test (x ∷ xs) = let rest = where_ test xs in if test x then x ∷ rest else rest

-- `UPDATE ... WHERE`
unfoldable pub update_where {ℓ} : {A : Type ℓ} → (A → Bool) → (A → A) → List A → List A
update_where test change [] = []
update_where test change (x ∷ xs) =
    let rest = update_where test change xs in if test x then change x ∷ rest else x ∷ rest

-- a column of a conversation's row
unfoldable pub watermark_of : String → List (String × Option ℕ) → Option ℕ
watermark_of conversation [] = none
watermark_of conversation ((id, mark) ∷ rows) =
    if str_eq id conversation then mark else watermark_of conversation rows
