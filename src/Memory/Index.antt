-- ===== src/Memory/Index.antt =====
-- `_index_pending_chunks`, `_index_chunk` and the embedding of slices, of
-- src/context_proxy/memory/service.py. `batch_size` is `max(1, embed_batch_size)`.
use low_context_inference.Base.{
  ℕ, zero, suc, ◌+◌, Bool, true, false, not, ◌&&◌, Option, none, some, String, List, [], ◌∷◌, ◌++◌,
  if◌then◌else◌, str_eq, ◌==◌, length, map, take, drop,
}
use low_context_inference.Json.{pos, int, str, Fields, end, field}
use low_context_inference.Memory.{
  ChunkRow, Services, accepted, degraded, escaped, chained, changed, sort_by, where_, update_where,
}
use low_context_inference.Memory.Records.{safe_embed}

-- `rows[start : start + batch_size]` for each `start` of `range(0, len(rows), batch_size)`, with a
-- bound on the number of slices
module _ {ℓ} {A : Type ℓ} where
  unfoldable pub slices : ℕ → ℕ → List A → List (List A)
  slices zero batch_size rows = []
  slices (suc rounds) batch_size [] = []
  slices (suc rounds) batch_size (r ∷ rows) =
      take batch_size (r ∷ rows) ∷ slices rounds batch_size (drop batch_size (r ∷ rows))

  abbrev pub slices_of : ℕ → List A → List (List A)
  slices_of batch_size rows = slices (length rows) batch_size rows

-- a row whose marker is set, and what the row is without it
abbrev pub marked : ChunkRow → ChunkRow
marked c = record c { indexed = true }

abbrev pub unmarked : ChunkRow → ChunkRow
unmarked c = record c { indexed = false }

-- `SET vector_indexed_at = now() WHERE id = ... AND vector_indexed_at IS NULL`
abbrev pub is_unmarked : String → ChunkRow → Bool
is_unmarked id c = str_eq c.id id && not c.indexed

unfoldable pub mark : String → List ChunkRow → List ChunkRow
unfolding update_where
mark id chunks = update_where (is_unmarked id) marked chunks

abbrev pub chunk_payload : ChunkRow → Fields
chunk_payload c = field "conversation_id" (str c.conversation_id) (
    field "kind" (str "chunk")
      (field "chunk_id" (str c.id) (field "start_seq" (int (pos c.start_seq)) end)))

abbrev pub is_pending : String → ChunkRow → Bool
is_pending conversation c = str_eq c.conversation_id conversation && not c.indexed

module _ (services : Services) (max_embed_chars batch_size : ℕ) where
  open services use {State, Vector}

  -- the table and the services
  pub record Indexing : Type 0 where
    pub chunks : List ChunkRow
    pub state : State

  -- a reply with another number of vectors counts as a failure
  abbrev pub checked : ℕ → Option (List Vector) → Option (List Vector)
  checked n none = none
  checked n (some vectors) = if length vectors == n then some vectors else none

  -- `_safe_embed_batch`
  unfoldable pub safe_embed_batch : List String → State → Option (List Vector) × State
  safe_embed_batch [] s = (some [], s)
  safe_embed_batch (text ∷ texts) s =
      let (vectors, s') = services.embed (map (services.prefix max_embed_chars) (text ∷ texts)) s in
      (checked (length (text ∷ texts)) vectors, s')

  -- `embed_texts_in_batches`: the loop over the slices
  unfoldable pub embed_slices :
      List (List String) → List Vector → State → Option (List Vector) × State
  unfolding safe_embed_batch
  embed_slices [] vectors s = (some vectors, s)
  embed_slices (texts ∷ slices) vectors s =
      let (found, s') = safe_embed_batch texts s in
      elim found [ none ↦ (none, s') | some more ↦ embed_slices slices (vectors ++ more) s' ]

  unfoldable pub embed_texts_in_batches : List String → State → Option (List Vector) × State
  unfolding embed_slices slices
  embed_texts_in_batches texts s = embed_slices (slices_of batch_size texts) [] s

  -- the upsert of a chunk with its vector, and the marker after it
  unfoldable pub upsert_chunk : ChunkRow → Vector → Indexing → Option Bool × Indexing
  unfolding mark
  upsert_chunk c vector r =
      let (result, s) = services.upsert c.id vector (chunk_payload c) r.state in
      elim result [
        | accepted ↦ (some true, record { chunks = mark c.id r.chunks; state = s })
        | degraded ↦ (some false, record { chunks = r.chunks; state = s })
        | escaped ↦ (none, record { chunks = r.chunks; state = s })
      ]

  abbrev pub upsert_embedded :
      ChunkRow → List ChunkRow → Option (Option Vector) × State → Option Bool × Indexing
  upsert_embedded c chunks (none, s) = (none, record { chunks = chunks; state = s })
  upsert_embedded c chunks (some none, s) = (some false, record { chunks = chunks; state = s })
  upsert_embedded c chunks (some (some vector), s) =
      upsert_chunk c vector (record { chunks = chunks; state = s })

  -- `_index_chunk`
  unfoldable pub index_chunk : ChunkRow → Option Vector → Indexing → Option Bool × Indexing
  unfolding upsert_chunk safe_embed
  index_chunk c (some vector) r = upsert_chunk c vector r
  index_chunk c none r =
      upsert_embedded c r.chunks (safe_embed services max_embed_chars c.raw_content r.state)

  -- the loop over a slice and its vectors: how many were indexed
  unfoldable pub index_rows : List ChunkRow → List Vector → Indexing → Option ℕ × Indexing
  unfolding upsert_chunk
  index_rows (c ∷ rows) (vector ∷ vectors) r =
      chained (upsert_chunk c vector r)
        (λ ok r'. changed (λ n. if ok then suc n else n) (index_rows rows vectors r'))
  index_rows _ _ r = (some 0, r)

  -- the loop over the slices
  unfoldable pub index_slices : List (List ChunkRow) → Indexing → Option ℕ × Indexing
  unfolding safe_embed_batch index_rows
  index_slices [] r = (some 0, r)
  index_slices (batch ∷ batches) r =
      let (found, s) = safe_embed_batch (map (λ c. c.raw_content) batch) r.state in
      elim found [
        | none ↦ index_slices batches (record { chunks = r.chunks; state = s })
        | some vectors ↦
            chained (index_rows batch vectors (record { chunks = r.chunks; state = s }))
              (λ indexed r'. changed (λ n. indexed + n) (index_slices batches r'))
      ]

  unfoldable pub pending_rows : String → List ChunkRow → List ChunkRow
  unfolding where_ sort_by
  pending_rows conversation chunks =
      take 100 (sort_by (λ c. c.start_seq) (where_ (is_pending conversation) chunks))

  unfoldable pub index_pending_chunks : String → Indexing → Option ℕ × Indexing
  unfolding index_slices slices pending_rows
  index_pending_chunks conversation r =
      index_slices (slices_of batch_size (pending_rows conversation r.chunks)) r
