-- ===== src/Memory/Passes.antt =====
-- Sequences of indexing passes and rebuilds, of src/context_proxy/memory/service.py.
use low_context_inference.Base.{
  ℕ, ◌≡◌, refl, ap, ◌∙◌, Bool, true, false, Option, none, some, String, List, [], ◌∷◌,
  if◌then◌else◌, map, All, Bool-cases, Option-cases, inl, inr, arith,
}
use low_context_inference.Memory.{ChunkRow, MemoryRow, Services, chained-kept, update_where}
use low_context_inference.Memory.Index.{
  slices_of, unmarked, Indexing, safe_embed_batch, upsert_chunk, pending_rows, index_pending_chunks,
}
use low_context_inference.Memory.Rebuild.{
  reset, in_scope, chunk_rows, rebuild_rows, rebuild_slices, rebuild_memories, embedded_memories,
  memory_texts, memory_rows, memory_payload, rebuild_rest, rebuild_vector_index,
}
use low_context_inference.Memory.Marks.{
  IsLawful, IsStored, AreStored, IsStored-later, embed_batch-kept, index_slices-AreStored,
  index_slices-unmarked, embedded, embedded-AreStored, Upserted-cases, upsert_chunk-AreStored,
  upsert_chunk-unmarked,
}

-- one pass of the service
pub data Pass (Num : Type 0) : Type 0 where
  index : (conversation : String) → Pass Num
  rebuild : (scope : Option String) (force : Bool) (memories : List (MemoryRow Num)) → Pass Num

module _ (services : Services) (Has : String → services.State → Type 0)
    (law : IsLawful services Has) (max_embed_chars batch_size : ℕ) where
  open services use {State, Vector}

  abbrev pub Run : Type 0
  Run = Indexing services max_embed_chars batch_size

  module _ (text_less : String → String → Bool) where
    -- Between two states the marked chunks stay stored, and only markers change.
    abbrev Holds : Run → Run → Type 0
    Holds r r' =
        (AreStored services Has law max_embed_chars batch_size r
          → AreStored services Has law max_embed_chars batch_size r')
        × (map unmarked r'.chunks ≡ map unmarked r.chunks)

    then-Holds : (r r' r'' : Run) → Holds r r' → Holds r' r'' → Holds r r''
    then-Holds r r' r'' (a, b) (c, d) = ((λ s. c (a s)), d ∙ b)

    rebuild_rows-Holds :
        (rows : List ChunkRow) (vectors : List Vector) (r : Run)
        → Holds r (rebuild_rows services max_embed_chars batch_size text_less rows vectors r).1
    unfolding rebuild_rows
    rebuild_rows-Holds [] vectors r = ((λ a. a), refl)
    rebuild_rows-Holds (c ∷ rows) [] r = ((λ a. a), refl)
    rebuild_rows-Holds (c ∷ rows) (v ∷ vectors) r =
        chained-kept (Holds r) (upsert_chunk services max_embed_chars batch_size c v r) _
          (
            (λ a. upsert_chunk-AreStored services Has law max_embed_chars batch_size c v r a),
            upsert_chunk-unmarked services Has law max_embed_chars batch_size c v r,
          )
          (λ ok r' h. then-Holds r r' _ h (rebuild_rows-Holds rows vectors r'))

    rebuild_slices-Holds :
        (batches : List (List ChunkRow)) (r : Run)
        → Holds r (rebuild_slices services max_embed_chars batch_size text_less batches r).1
    unfolding rebuild_slices embedded
    rebuild_slices-Holds [] r = ((λ a. a), refl)
    rebuild_slices-Holds (batch ∷ batches) r =
        let next = embedded services Has law max_embed_chars batch_size batch r in
        let start : Holds r next =
          ((λ a. embedded-AreStored services Has law max_embed_chars batch_size batch r a), refl) in
        elim (Option-cases
          (safe_embed_batch services max_embed_chars batch_size (map (λ c. c.raw_content) batch)
            r.state).0) [
              | inl e ↦
                  rw (e, rebuild_slices)
                    (then-Holds r next _ start (rebuild_slices-Holds batches next))
              | inr (vectors, e) ↦
                  rw (e, rebuild_slices)
                    (chained-kept (Holds r)
                      (rebuild_rows services max_embed_chars batch_size text_less batch vectors
                        next)
                      _ (then-Holds r next _ start (rebuild_rows-Holds batch vectors next))
                      (λ counts r' h. then-Holds r r' _ h (rebuild_slices-Holds batches r')))
            ]

    reset-IsStored :
        (scope : Option String) (s : State) (chunks : List ChunkRow)
        → All (IsStored services Has law max_embed_chars batch_size s) chunks
        → All (IsStored services Has law max_embed_chars batch_size s) (reset scope chunks)
    unfolding reset update_where
    reset-IsStored scope s [] a = tt
    reset-IsStored scope s (c ∷ chunks) a = elim (Bool-cases (in_scope scope c.conversation_id)) [
      | inl e ↦
          rw (e, reset, update_where) ((λ f. ground (arith, f)), reset-IsStored scope s chunks a.1)
      | inr e ↦ rw (e, reset, update_where) (a.0, reset-IsStored scope s chunks a.1)
    ]

    unmarked-reset :
        (scope : Option String) (chunks : List ChunkRow)
        → map unmarked (reset scope chunks) ≡ map unmarked chunks
    unfolding reset update_where
    unmarked-reset scope [] = refl
    unmarked-reset scope (c ∷ chunks) = elim (Bool-cases (in_scope scope c.conversation_id)) [
      | inl e ↦
          rw (e, reset, update_where) (ap (λ rest. unmarked c ∷ rest) (unmarked-reset scope chunks))
      | inr e ↦
          rw (e, reset, update_where) (ap (λ rest. unmarked c ∷ rest) (unmarked-reset scope chunks))
    ]

    rebuild_memories-kept :
        {Num : Type 0} (k : String) (rows : List (MemoryRow Num)) (vectors : List Vector)
        (s : State)
        → Has k s
        → Has k (rebuild_memories services max_embed_chars batch_size text_less rows vectors s).1
    unfolding rebuild_memories
    rebuild_memories-kept k [] vectors s h = h
    rebuild_memories-kept k (r ∷ rows) [] s h = h
    rebuild_memories-kept k (r ∷ rows) (v ∷ vectors) s h =
        let next = services.upsert r.id v (memory_payload r) s in
        let kept = law.kept_upsert k r.id v (memory_payload r) s h in
        let later = rebuild_memories-kept k rows vectors next.1 kept in
        elim (Upserted-cases next.0) [
          | inl e ↦ rw (rebuild_memories, e) later
          | inr (inl e) ↦ rw (rebuild_memories, e) later
          | inr (inr e) ↦ rw (rebuild_memories, e) kept
        ]

    memories-kept :
        {Num : Type 0} (k : String) (rows : List (MemoryRow Num)) (o : Option (List Vector))
        (s : State)
        → Has k s
        → Has k (embedded_memories services max_embed_chars batch_size text_less rows (o, s)).1
    memories-kept k rows none s h = h
    memories-kept k rows (some vectors) s h = rebuild_memories-kept k rows vectors s h

    abbrev pub perform : {Num : Type 0} → Pass Num → Run → Run
    perform (index conversation) r =
        (index_pending_chunks services max_embed_chars batch_size conversation r).1
    perform (rebuild scope force memories) r =
        (rebuild_vector_index services max_embed_chars batch_size text_less scope force memories
          r).1

    abbrev pub perform_all : {Num : Type 0} → List (Pass Num) → Run → Run
    perform_all [] r = r
    perform_all (p ∷ passes) r = perform_all passes (perform p r)

    rebuild_rest-Holds :
        {Num : Type 0} (scope : Option String) (memories : List (MemoryRow Num)) (counts : ℕ × ℕ)
        (r : Run)
        → Holds r
            (rebuild_rest services max_embed_chars batch_size text_less scope memories counts r).1
    unfolding rebuild_rest
    rebuild_rest-Holds scope memories counts r =
        let kept = memory_rows services max_embed_chars batch_size text_less scope memories in
        let texts = memory_texts services max_embed_chars batch_size text_less kept in
        let found = safe_embed_batch services max_embed_chars batch_size texts r.state in
        (
          (λ a.
              IsStored-later services Has law max_embed_chars batch_size r.state _
                (λ k h.
                  memories-kept k kept found.0 found.1 (
                    embed_batch-kept services Has law max_embed_chars batch_size k texts r.state h))
                r.chunks a),
          refl,
        )

    rebuild-Holds :
        {Num : Type 0} (scope : Option String) (force : Bool) (memories : List (MemoryRow Num))
        (r : Run)
        → Holds r
            (rebuild_vector_index services max_embed_chars batch_size text_less scope force memories
              r).1
    unfolding rebuild_vector_index
    rebuild-Holds scope force memories r =
        let chunks = if force then reset scope r.chunks else r.chunks in
        let start : Run = record { chunks = chunks; state = r.state } in
        let batches =
          slices_of batch_size
            (chunk_rows services max_embed_chars batch_size text_less scope chunks) in
        chained-kept (Holds r)
          (rebuild_slices services max_embed_chars batch_size text_less batches start) _
          (then-Holds r start _ (first force) (rebuild_slices-Holds batches start))
          (λ counts r' h. then-Holds r r' _ h (rebuild_rest-Holds scope memories counts r'))
      where
        first :
            (f : Bool)
            → Holds r
                (record { chunks = if f then reset scope r.chunks else r.chunks; state = r.state })
        first true = ((λ a. reset-IsStored scope r.state r.chunks a), unmarked-reset scope r.chunks)
        first false = ((λ a. a), refl)

    perform-Holds : {Num : Type 0} (p : Pass Num) (r : Run) → Holds r (perform p r)
    unfolding index_pending_chunks
    perform-Holds (index conversation) r =
        let batches =
          slices_of batch_size
            (pending_rows services max_embed_chars batch_size conversation r.chunks) in
        (
          (λ a. index_slices-AreStored services Has law max_embed_chars batch_size batches r a),
          index_slices-unmarked services Has law max_embed_chars batch_size batches r,
        )
    perform-Holds (rebuild scope force memories) r = rebuild-Holds scope force memories r

    -- Over a vector store that keeps what it accepted: whatever passes are made and whatever fails in
    -- them, also when an exception ends a pass early, a chunk that is marked as indexed is in the vector store, and nothing but the markers of
    -- the chunks changes.
    pub perform_all-AreStored :
        {Num : Type 0} (passes : List (Pass Num)) (r : Run)
        → AreStored services Has law max_embed_chars batch_size r
        → AreStored services Has law max_embed_chars batch_size (perform_all passes r)
          × (map unmarked (perform_all passes r).chunks ≡ map unmarked r.chunks)
    perform_all-AreStored [] r a = (a, refl)
    perform_all-AreStored (p ∷ passes) r a =
        let (b, c) = perform-Holds p r in
        let (d, e) = perform_all-AreStored passes (perform p r) (b a) in (d, e ∙ c)
