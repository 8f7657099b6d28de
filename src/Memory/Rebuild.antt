-- ===== src/Memory/Rebuild.antt =====
-- `rebuild_vector_index` of src/context_proxy/memory/service.py. `scope` is the conversation, if one
-- is given.
use low_context_inference.Base.{
  ℕ, suc, ◌+◌, Bool, true, false, ◌&&◌, ◌||◌, Option, none, some, String, List, [], ◌∷◌,
  if◌then◌else◌, str_eq, length, map, ltb,
}
use low_context_inference.Json.{str, Fields, end, field}
use low_context_inference.Memory.{
  ChunkRow, MemoryRow, Services, accepted, degraded, escaped, chained, changed, is_active,
  sort_with, where_, update_where,
}
use low_context_inference.Memory.Index.{
  slices, slices_of, unmarked, Indexing, safe_embed_batch, upsert_chunk, index_chunk,
}

pub record Summary : Type 0 where
  pub chunks : ℕ
  pub chunks_failed : ℕ
  pub memories : ℕ
  pub memories_failed : ℕ

-- the counts with one more memory, whose upsert succeeded or not
abbrev pub count_memory : Bool → ℕ × ℕ → ℕ × ℕ
count_memory ok (done, failed) = (suc done, if ok then failed else suc failed)

abbrev pub rebuild_summary : ℕ × ℕ → ℕ × ℕ → Summary
rebuild_summary (done, failed) (upserted, lost) = record {
  chunks = done;
  chunks_failed = failed;
  memories = upserted;
  memories_failed = lost;
}

abbrev pub in_scope : Option String → String → Bool
in_scope none conversation = true
in_scope (some scope) conversation = str_eq conversation scope

-- `SET vector_indexed_at = NULL`
unfoldable pub reset : Option String → List ChunkRow → List ChunkRow
unfolding update_where
reset scope chunks = update_where (λ c. in_scope scope c.conversation_id) unmarked chunks

abbrev pub memory_payload : {Num : Type 0} → MemoryRow Num → Fields
memory_payload r =
    field "conversation_id" (str r.conversation_id)
      (field "kind" (str r.kind) (field "memory_id" (str r.id) end))

module _ (services : Services) (max_embed_chars batch_size : ℕ)
    (text_less : String → String → Bool) where
  open services use {State, Vector}

  abbrev pub Run : Type 0
  Run = Indexing services max_embed_chars batch_size

  -- `ORDER BY conversation_id, start_seq`
  abbrev pub chunk_before : ChunkRow → ChunkRow → Bool
  chunk_before a b =
      text_less a.conversation_id b.conversation_id
      || str_eq a.conversation_id b.conversation_id && ltb a.start_seq b.start_seq

  unfoldable pub chunk_rows : Option String → List ChunkRow → List ChunkRow
  unfolding where_ sort_with
  chunk_rows scope chunks =
      sort_with chunk_before (where_ (λ c. in_scope scope c.conversation_id) chunks)

  -- `_rebuild_chunk`: it does what `_index_chunk` does
  abbrev pub rebuild_chunk : ChunkRow → Option Vector → Run → Option Bool × Run
  rebuild_chunk c vector r = index_chunk services max_embed_chars batch_size c vector r

  -- the loop over a slice, where `_rebuild_chunk` is given the vector: `chunks` and `chunks_failed`
  unfoldable pub rebuild_rows : List ChunkRow → List Vector → Run → Option (ℕ × ℕ) × Run
  unfolding upsert_chunk
  rebuild_rows (c ∷ rows) (vector ∷ vectors) r =
      chained (upsert_chunk services max_embed_chars batch_size c vector r) (λ ok r'.
        changed (λ n. if ok then (suc n.0, n.1) else (n.0, suc n.1)) (rebuild_rows rows vectors r'))
  rebuild_rows _ _ r = (some (0, 0), r)

  abbrev pub add_counts : ℕ × ℕ → ℕ × ℕ → ℕ × ℕ
  add_counts (n, m) (done, failed) = (n + done, m + failed)

  -- the loop over the slices
  unfoldable pub rebuild_slices : List (List ChunkRow) → Run → Option (ℕ × ℕ) × Run
  unfolding safe_embed_batch rebuild_rows
  rebuild_slices [] r = (some (0, 0), r)
  rebuild_slices (batch ∷ batches) r =
      let (found, s) =
        safe_embed_batch services max_embed_chars batch_size (map (λ c. c.raw_content) batch)
          r.state in
      elim found [
        | none ↦
            changed (add_counts (0, length batch))
              (rebuild_slices batches (record { chunks = r.chunks; state = s }))
        | some vectors ↦
            chained (rebuild_rows batch vectors (record { chunks = r.chunks; state = s }))
              (λ counts r'. changed (add_counts counts) (rebuild_slices batches r'))
      ]

  module _ {Num : Type 0} where
    -- the loop over the memories: `memories` and `memories_failed`
    unfoldable pub rebuild_memories :
        List (MemoryRow Num) → List Vector → State → Option (ℕ × ℕ) × State
    rebuild_memories (r ∷ rows) (vector ∷ vectors) s =
        let (result, s') = services.upsert r.id vector (memory_payload r) s in
        let rest = rebuild_memories rows vectors s' in
        elim result [
          | accepted ↦ changed (count_memory true) rest
          | degraded ↦ changed (count_memory false) rest
          | escaped ↦ (none, s')
        ]
    rebuild_memories _ _ s = (some (0, 0), s)

    abbrev pub embedded_memories :
        List (MemoryRow Num) → Option (List Vector) × State → Option (ℕ × ℕ) × State
    embedded_memories rows (none, s) = (some (length rows, length rows), s)
    embedded_memories rows (some vectors, s) = rebuild_memories rows vectors s

    -- the texts, cut twice, as the source does
    abbrev pub memory_texts : List (MemoryRow Num) → List String
    memory_texts = map (λ r. services.prefix max_embed_chars r.content)

    unfoldable pub memory_rows : Option String → List (MemoryRow Num) → List (MemoryRow Num)
    unfolding where_
    memory_rows scope rows =
        where_ (λ r. is_active r.status && in_scope scope r.conversation_id) rows

    -- what follows the loop over the slices
    unfoldable pub rebuild_rest :
        Option String → List (MemoryRow Num) → ℕ × ℕ → Run → Option Summary × Run
    unfolding memory_rows rebuild_memories safe_embed_batch
    rebuild_rest scope memories counts r =
        let kept = memory_rows scope memories in
        let (found, s) =
          embedded_memories kept
            (safe_embed_batch services max_embed_chars batch_size (memory_texts kept) r.state) in
        changed (rebuild_summary counts) (found, record { chunks = r.chunks; state = s })

    unfoldable pub rebuild_vector_index :
        Option String → Bool → List (MemoryRow Num) → Run → Option Summary × Run
    unfolding reset chunk_rows rebuild_slices rebuild_rest slices
    rebuild_vector_index scope force memories r =
        let chunks = if force then reset scope r.chunks else r.chunks in
        let rows = chunk_rows scope chunks in
        chained
          (rebuild_slices (slices_of batch_size rows) (record { chunks = chunks; state = r.state }))
          (rebuild_rest scope memories)
