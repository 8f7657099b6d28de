-- ===== src/Memory/Counts.antt =====
-- The counts that a rebuild of the vector index reports.
use low_context_inference.Base.{
  ℕ, suc, ◌+◌, ◌≤◌, ◌≡◌, refl, ap, ◌∙◌, Bool, true, false, ◌&&◌, Option, none, some, String, List,
  [], ◌∷◌, if◌then◌else◌, length, map, Bool-cases, Option-cases, inl, inr, arith, tests,
}
use low_context_inference.Json.{Fields}
use low_context_inference.Memory.{
  ChunkRow, MemoryRow, Services, escaped, chained, changed, is_active, where_, update_where,
}
use low_context_inference.Memory.Index.{
  slices_of, chunk_payload, Indexing, checked, safe_embed_batch, upsert_chunk,
}
use low_context_inference.Memory.Rebuild.{
  Summary, rebuild_summary, count_memory, rebuild_rest, memory_payload, reset, in_scope,
  chunk_before, chunk_rows, rebuild_rows, rebuild_slices, rebuild_memories, embedded_memories,
  memory_texts, memory_rows, rebuild_vector_index,
}
use low_context_inference.Memory.Marks.{Upserted-cases}
use low_context_inference.Memory.Slices.{length-sort_with, length-map, total, total-slices}

-- a summary of so many chunks and memories
abbrev pub IsSummary : (chunks memories : ℕ) → Summary → Type 0
IsSummary chunks memories summary =
    (summary.chunks + summary.chunks_failed ≡ chunks)
    × (summary.memories ≡ memories)
    × (summary.memories_failed ≤ summary.memories)

module _ (services : Services) (max_embed_chars batch_size : ℕ)
    (text_less : String → String → Bool) where
  open services use {State, Vector}

  abbrev pub Run : Type 0
  Run = Indexing services max_embed_chars (suc batch_size)

  -- An upsert escaped, and this is the state that it left.
  abbrev pub IsLeft : State → Type 0
  IsLeft s' =
      (id : String) × (v : Vector) × (payload : Fields) × (s : State) × (services.upsert id v
          payload s
        ≡ (escaped, s'))

  -- A call returns a value with a property, or raises what an upsert raised right before.
  abbrev pub Returns : {A R : Type 0} → (R → State) → (A → Type 0) → Option A × R → Type 0
  Returns state_of P (none, r) = IsLeft (state_of r)
  Returns state_of P (some a, r) = P a

  chained-Returns :
      {A B R : Type 0} (state_of : R → State) (P : A → Type 0) (Q : B → Type 0) (x : Option A × R)
      (next : A → R → Option B × R)
      → Returns state_of P x
      → ((a : A) (r : R) → P a → Returns state_of Q (next a r))
      → Returns state_of Q (chained x next)
  chained-Returns state_of P Q (none, r) next h f = h
  chained-Returns state_of P Q (some a, r) next h f = f a r h

  changed-Returns :
      {A B R : Type 0} (state_of : R → State) (P : A → Type 0) (Q : B → Type 0) (g : A → B)
      (x : Option A × R)
      → Returns state_of P x
      → ((a : A) → P a → Q (g a))
      → Returns state_of Q (changed g x)
  changed-Returns state_of P Q g (none, r) h f = h
  changed-Returns state_of P Q g (some a, r) h f = f a h

  abbrev pub state_of : Run → State
  state_of r = r.state

  upsert_chunk-Returns :
      (c : ChunkRow) (v : Vector) (r : Run)
      → Returns state_of (λ ok. Unit) (upsert_chunk services max_embed_chars (suc batch_size) c v r)
  unfolding upsert_chunk
  upsert_chunk-Returns c v r =
      let (u, s) = services.upsert c.id v (chunk_payload c) r.state in
      elim (Upserted-cases (services.upsert c.id v (chunk_payload c) r.state).0) [
        | inl e ↦ rw (upsert_chunk, e) tt
        | inr (inl e) ↦ rw (upsert_chunk, e) tt
        | inr (inr e) ↦ rw (upsert_chunk, e) (c.id, v, chunk_payload c, r.state, ap (λ u. (u, s)) e)
      ]

  abbrev AddUpTo : ℕ → ℕ × ℕ → Type 0
  AddUpTo n (done, failed) = done + failed ≡ n

  count_one :
      (ok : Bool) (n : ℕ) (c : ℕ × ℕ)
      → AddUpTo n c
      → AddUpTo (suc n) (if ok then (suc c.0, c.1) else (c.0, suc c.1))
  count_one true n c h = omega (arith, h)
  count_one false n c h = omega (arith, h)

  rebuild_rows-Returns :
      (rows : List ChunkRow) (vectors : List Vector) (r : Run)
      → length vectors ≡ length rows
      → Returns state_of
          (AddUpTo (length rows))
          (rebuild_rows services max_embed_chars (suc batch_size) text_less rows vectors r)
  unfolding rebuild_rows
  rebuild_rows-Returns [] vectors r h = refl
  rebuild_rows-Returns (c ∷ rows) [] r h = absurd (omega (arith, h))
  rebuild_rows-Returns (c ∷ rows) (v ∷ vectors) r h =
      chained-Returns state_of (λ ok. Unit) (AddUpTo (suc (length rows)))
        (upsert_chunk services max_embed_chars (suc batch_size) c v r) _
        (upsert_chunk-Returns c v r)
        (λ ok r' u.
          changed-Returns state_of (AddUpTo (length rows)) (AddUpTo (suc (length rows))) _ _
            (rebuild_rows-Returns rows vectors r' (omega (arith, h))) (count_one ok (length rows)))

  length-embed_batch :
      (texts : List String) (s : State) (vectors : List Vector)
      → (safe_embed_batch services max_embed_chars (suc batch_size) texts s).0 ≡ some vectors
      → length vectors ≡ length texts
  unfolding safe_embed_batch
  length-embed_batch [] s vectors h = ground (arith, h)
  length-embed_batch (text ∷ texts) s vectors h =
      go (services.embed (map (services.prefix max_embed_chars) (text ∷ texts)) s).0 h
    where
      go :
          (o : Option (List Vector))
          → checked services max_embed_chars (suc batch_size) (suc (length texts)) o ≡ some vectors
          → length vectors ≡ suc (length texts)
      go none h = ground (arith, h)
      go (some found) h = grind (arith, tests, h)

  rebuild_slices-Returns :
      (batches : List (List ChunkRow)) (r : Run)
      → Returns state_of
          (AddUpTo (total batches))
          (rebuild_slices services max_embed_chars (suc batch_size) text_less batches r)
  unfolding rebuild_slices
  rebuild_slices-Returns [] r = refl
  rebuild_slices-Returns (batch ∷ batches) r =
      let texts = map (λ c. c.raw_content) batch in
      let (found, s) = safe_embed_batch services max_embed_chars (suc batch_size) texts r.state in
      let next : Run = record { chunks = r.chunks; state = s } in
      elim (Option-cases
        (safe_embed_batch services max_embed_chars (suc batch_size) texts r.state).0) [
          | inl e ↦
              rw (rebuild_slices, e)
                (changed-Returns state_of (AddUpTo (total batches))
                  (AddUpTo (length batch + total batches)) _ _ (rebuild_slices-Returns batches next)
                  (λ n h. omega (arith, h)))
          | inr (vectors, e) ↦
              rw (rebuild_slices, e)
                (chained-Returns state_of (AddUpTo (length batch))
                  (AddUpTo (length batch + total batches))
                  (rebuild_rows services max_embed_chars (suc batch_size) text_less batch vectors
                    next)
                  _
                  (rebuild_rows-Returns batch vectors next (
                    length-embed_batch texts r.state vectors e
                    ∙ length-map (λ c. c.raw_content) batch))
                  (λ n r' h.
                    changed-Returns state_of (AddUpTo (total batches))
                      (AddUpTo (length batch + total batches)) _ _
                      (rebuild_slices-Returns batches r') (λ m k. omega (arith, h, k))))
        ]

  length-reset :
      (scope : Option String) (chunks : List ChunkRow)
      → length (where_ (λ c. in_scope scope c.conversation_id) (reset scope chunks))
        ≡ length (where_ (λ c. in_scope scope c.conversation_id) chunks)
  unfolding reset where_ update_where
  length-reset scope [] = refl
  length-reset scope (c ∷ chunks) = elim (Bool-cases (in_scope scope c.conversation_id)) [
    | inl e ↦ rw (reset, update_where, e, where_, e) (ap suc (length-reset scope chunks))
    | inr e ↦ rw (reset, update_where, e, where_, e) (length-reset scope chunks)
  ]

  abbrev CountsOf : ℕ → ℕ × ℕ → Type 0
  CountsOf n (done, failed) = (done ≡ n) × (failed ≤ n)

  module _ {Num : Type 0} where
    rebuild_memories-Returns :
        (rows : List (MemoryRow Num)) (vectors : List Vector) (s : State)
        → length vectors ≡ length rows
        → Returns
            (λ s'. s')
            (CountsOf (length rows))
            (rebuild_memories services max_embed_chars (suc batch_size) text_less rows vectors s)
    unfolding rebuild_memories
    rebuild_memories-Returns [] vectors s h = (refl, omega arith)
    rebuild_memories-Returns (r ∷ rows) [] s h = absurd (omega (arith, h))
    rebuild_memories-Returns (r ∷ rows) (v ∷ vectors) s h =
        let next = services.upsert r.id v (memory_payload r) s in
        let rest = rebuild_memories-Returns rows vectors next.1 (omega (arith, h)) in
        elim (Upserted-cases next.0) [
          | inl e ↦
              rw (rebuild_memories, e)
                (changed-Returns (λ s'. s') (CountsOf (length rows)) (CountsOf (suc (length rows)))
                  (count_memory true) _ rest (λ n k. (omega (arith, k.0), omega (arith, k.1))))
          | inr (inl e) ↦
              rw (rebuild_memories, e)
                (changed-Returns (λ s'. s') (CountsOf (length rows)) (CountsOf (suc (length rows)))
                  (count_memory false) _ rest (λ n k. (omega (arith, k.0), omega (arith, k.1))))
          | inr (inr e) ↦
              rw (rebuild_memories, e) (r.id, v, memory_payload r, s, ap (λ u. (u, next.1)) e)
        ]

    memories-Returns :
        (rows : List (MemoryRow Num)) (s : State)
        → Returns
            (λ s'. s')
            (CountsOf (length rows))
            (embedded_memories services max_embed_chars (suc batch_size) text_less rows (
              safe_embed_batch services max_embed_chars
                (suc batch_size)
                (memory_texts services max_embed_chars (suc batch_size) text_less rows)
                s))
    memories-Returns rows s =
        let texts = memory_texts services max_embed_chars (suc batch_size) text_less rows in
        let (o, s') = safe_embed_batch services max_embed_chars (suc batch_size) texts s in
        go o s' (λ vectors e.
          length-embed_batch texts s vectors e
          ∙ length-map (λ r. services.prefix max_embed_chars r.content) rows)
      where
        go :
            (o : Option (List Vector)) (s' : State)
            → ((vectors : List Vector) → o ≡ some vectors → length vectors ≡ length rows)
            → Returns
                (λ s'. s')
                (CountsOf (length rows))
                (embedded_memories services max_embed_chars (suc batch_size) text_less rows (o, s'))
        go none s' h = (refl, omega arith)
        go (some vectors) s' h = rebuild_memories-Returns rows vectors s' (h vectors refl)

    rebuild_rest-Returns :
        (scope : Option String) (memories : List (MemoryRow Num)) (n : ℕ) (counts : ℕ × ℕ) (r : Run)
        → AddUpTo n counts
        → Returns state_of
            (IsSummary n (
              length
                (memory_rows services max_embed_chars (suc batch_size) text_less scope memories)))
            (rebuild_rest services max_embed_chars
              (suc batch_size)
              text_less
              scope
              memories
              counts
              r)
    unfolding rebuild_rest
    rebuild_rest-Returns scope memories n counts r h = go _ (
        memories-Returns
          (memory_rows services max_embed_chars (suc batch_size) text_less scope memories) r.state)
      where
        go :
            (x : Option (ℕ × ℕ) × State)
            → Returns
                (λ s. s)
                (CountsOf (
                  length (
                    memory_rows services max_embed_chars
                      (suc batch_size)
                      text_less
                      scope
                      memories)))
                x
            → Returns state_of
                (IsSummary n (
                  length (
                    memory_rows services max_embed_chars
                      (suc batch_size)
                      text_less
                      scope
                      memories)))
                (changed (rebuild_summary counts) (x.0, record { chunks = r.chunks; state = x.1 }))
        go (none, s) k = k
        go (some c, s) k = (h, k.0, omega (arith, k.0, k.1))

    -- A rebuild returns counts in which each chunk in scope is counted once, as done or as failed, and
    -- each active memory in scope once, where those that failed are among them. Or it raises, and
    -- then the services are as an upsert left them that raised what is no VectorStoreError.
    pub rebuild_vector_index-counts :
        (scope : Option String) (force : Bool) (memories : List (MemoryRow Num)) (r : Run)
        → Returns state_of
            (IsSummary (length (where_ (λ c. in_scope scope c.conversation_id) r.chunks)) (
              length
                (where_ (λ m. is_active m.status && in_scope scope m.conversation_id) memories)))
            (rebuild_vector_index services max_embed_chars
              (suc batch_size)
              text_less
              scope
              force
              memories
              r)
    unfolding rebuild_vector_index chunk_rows memory_rows
    rebuild_vector_index-counts scope force memories r =
        let chunks = if force then reset scope r.chunks else r.chunks in
        let rows = chunk_rows services max_embed_chars (suc batch_size) text_less scope chunks in
        let batches = slices_of (suc batch_size) rows in
        let start : Run = record { chunks = chunks; state = r.state } in
        let size : total batches
            ≡ length (where_ (λ c. in_scope scope c.conversation_id) r.chunks) =
          total-slices (length rows) batch_size rows (omega arith)
          ∙ length-sort_with (chunk_before services max_embed_chars (suc batch_size) text_less)
              (where_ (λ c. in_scope scope c.conversation_id) chunks)
          ∙ first force in
        chained-Returns state_of (AddUpTo (total batches)) _
          (rebuild_slices services max_embed_chars (suc batch_size) text_less batches start) _
          (rebuild_slices-Returns batches start)
          (λ counts r' h. rebuild_rest-Returns scope memories _ counts r' (h ∙ size))
      where
        first :
            (f : Bool)
            → length (
                where_
                  (λ c. in_scope scope c.conversation_id)
                  (if f then reset scope r.chunks else r.chunks))
              ≡ length (where_ (λ c. in_scope scope c.conversation_id) r.chunks)
        first true = length-reset scope r.chunks
        first false = refl
