-- ===== src/Memory/Marks.antt =====
-- The markers of chunks and the points in the vector store, for `_index_pending_chunks` of
-- src/context_proxy/memory/service.py.
use mathlib.Core.Path.{subst}
use low_context_inference.Base.{
  ℕ, ◌≡◌, ◌⊎◌, refl, ap, ◌∙◌, true, String, List, [], ◌∷◌, eq_iff, map, All, Bool-cases,
  Option-cases, inl, inr, arith,
}
use low_context_inference.Json.{Fields}
use low_context_inference.Memory.{
  ChunkRow, Services, Upserted, accepted, degraded, escaped, chained-kept, update_where,
}
use low_context_inference.Memory.Index.{
  unmarked, is_unmarked, mark, chunk_payload, Indexing, safe_embed_batch, upsert_chunk, index_rows,
  index_slices,
}

-- What the store relies on: a point that was accepted is there, and no call takes a point away.
pub record IsLawful (services : Services) (Has : String → services.State → Type 0) : Type 0 where
  pub upserted :
      (id : String) (v : services.Vector) (payload : Fields) (s : services.State)
      → (services.upsert id v payload s).0 ≡ accepted
      → Has id (services.upsert id v payload s).1
  pub kept_upsert :
      (k id : String) (v : services.Vector) (payload : Fields) (s : services.State)
      → Has k s
      → Has k (services.upsert id v payload s).1
  pub kept_embed :
      (k : String) (texts : List String) (s : services.State)
      → Has k s
      → Has k (services.embed texts s).1

-- the three ways in which an upsert ends
pub Upserted-cases : (u : Upserted) → (u ≡ accepted) ⊎ (u ≡ degraded) ⊎ (u ≡ escaped)
Upserted-cases accepted = inl refl
Upserted-cases degraded = inr (inl refl)
Upserted-cases escaped = inr (inr refl)

module _ (services : Services) (Has : String → services.State → Type 0)
    (law : IsLawful services Has) (max_embed_chars batch_size : ℕ) where
  open services use {State, Vector}

  abbrev pub Run : Type 0
  Run = Indexing services max_embed_chars batch_size

  abbrev pub IsStored : State → ChunkRow → Type 0
  IsStored s c = c.indexed ≡ true → Has c.id s

  -- every marked chunk is in the vector store
  abbrev pub AreStored : Run → Type 0
  AreStored r = All (IsStored r.state) r.chunks

  pub IsStored-later :
      (s s' : State)
      → ((k : String) → Has k s → Has k s')
      → (chunks : List ChunkRow) → All (IsStored s) chunks
      → All (IsStored s') chunks
  IsStored-later s s' later [] a = tt
  IsStored-later s s' later (c ∷ chunks) a =
      ((λ e. later c.id (a.0 e)), IsStored-later s s' later chunks a.1)

  mark-IsStored :
      (id : String) (s : State) (chunks : List ChunkRow)
      → Has id s
      → All (IsStored s) chunks
      → All (IsStored s) (mark id chunks)
  unfolding mark update_where
  mark-IsStored id s [] h a = tt
  mark-IsStored id s (c ∷ chunks) h a = elim (Bool-cases (is_unmarked id c)) [
    | inl e ↦
        rw (e, mark, update_where)
          (
            (λ _. subst (λ k. Has k s) (ground (arith, e, eq_iff c.id id)) h),
            mark-IsStored id s chunks h a.1,
          )
    | inr e ↦ rw (e, mark, update_where) (a.0, mark-IsStored id s chunks h a.1)
  ]

  pub upsert_chunk-AreStored :
      (c : ChunkRow) (v : Vector) (r : Run)
      → AreStored r
      → AreStored (upsert_chunk services max_embed_chars batch_size c v r).1
  unfolding upsert_chunk
  upsert_chunk-AreStored c v r a =
      let later =
        IsStored-later r.state (services.upsert c.id v (chunk_payload c) r.state).1
          (λ k. law.kept_upsert k c.id v (chunk_payload c) r.state) r.chunks a in
      elim (Upserted-cases (services.upsert c.id v (chunk_payload c) r.state).0) [
        | inl e ↦
            rw (e, upsert_chunk)
              (mark-IsStored c.id _ r.chunks (law.upserted c.id v (chunk_payload c) r.state e)
                later)
        | inr (inl e) ↦ rw (e, upsert_chunk) later
        | inr (inr e) ↦ rw (e, upsert_chunk) later
      ]

  pub embed_batch-kept :
      (k : String) (texts : List String) (s : State)
      → Has k s
      → Has k (safe_embed_batch services max_embed_chars batch_size texts s).1
  unfolding safe_embed_batch
  embed_batch-kept k [] s h = h
  embed_batch-kept k (text ∷ texts) s h =
      law.kept_embed k (map (services.prefix max_embed_chars) (text ∷ texts)) s h

  index_rows-AreStored :
      (rows : List ChunkRow) (vectors : List Vector) (r : Run)
      → AreStored r
      → AreStored (index_rows services max_embed_chars batch_size rows vectors r).1
  unfolding index_rows
  index_rows-AreStored [] vectors r a = a
  index_rows-AreStored (c ∷ rows) [] r a = a
  index_rows-AreStored (c ∷ rows) (v ∷ vectors) r a =
      chained-kept AreStored (upsert_chunk services max_embed_chars batch_size c v r) _
        (upsert_chunk-AreStored c v r a) (λ ok r' b. index_rows-AreStored rows vectors r' b)

  -- the services after a slice was embedded
  unfoldable pub embedded : List ChunkRow → Run → Run
  embedded batch r = record r {
    state =
        (safe_embed_batch services max_embed_chars batch_size (map (λ c. c.raw_content) batch)
          r.state).1;
  }

  pub embedded-AreStored :
      (batch : List ChunkRow) (r : Run) → AreStored r → AreStored (embedded batch r)
  unfolding embedded
  embedded-AreStored batch r a =
      IsStored-later r.state (embedded batch r).state
        (λ k. embed_batch-kept k (map (λ c. c.raw_content) batch) r.state) r.chunks a

  pub index_slices-AreStored :
      (batches : List (List ChunkRow)) (r : Run)
      → AreStored r
      → AreStored (index_slices services max_embed_chars batch_size batches r).1
  unfolding index_slices embedded
  index_slices-AreStored [] r a = a
  index_slices-AreStored (batch ∷ batches) r a =
      elim (Option-cases
        (safe_embed_batch services max_embed_chars batch_size (map (λ c. c.raw_content) batch)
          r.state).0) [
            | inl e ↦
                rw (e, index_slices)
                  (index_slices-AreStored batches (embedded batch r) (embedded-AreStored batch r a))
            | inr (vectors, e) ↦
                rw (e, index_slices)
                  (chained-kept AreStored
                    (index_rows services max_embed_chars batch_size batch vectors
                      (embedded batch r))
                    _
                    (index_rows-AreStored batch vectors (embedded batch r)
                      (embedded-AreStored batch r a))
                    (λ n r' b. index_slices-AreStored batches r' b))
          ]

  unmarked-mark :
      (id : String) (chunks : List ChunkRow) → map unmarked (mark id chunks) ≡ map unmarked chunks
  unfolding mark update_where
  unmarked-mark id [] = refl
  unmarked-mark id (c ∷ chunks) = elim (Bool-cases (is_unmarked id c)) [
    | inl e ↦ rw (e, mark, update_where) (ap (λ rest. unmarked c ∷ rest) (unmarked-mark id chunks))
    | inr e ↦ rw (e, mark, update_where) (ap (λ rest. unmarked c ∷ rest) (unmarked-mark id chunks))
  ]

  pub upsert_chunk-unmarked :
      (c : ChunkRow) (v : Vector) (r : Run)
      → map unmarked (upsert_chunk services max_embed_chars batch_size c v r).1.chunks
        ≡ map unmarked r.chunks
  unfolding upsert_chunk
  upsert_chunk-unmarked c v r =
      elim (Upserted-cases (services.upsert c.id v (chunk_payload c) r.state).0) [
        | inl e ↦ rw (e, upsert_chunk) (unmarked-mark c.id r.chunks)
        | inr (inl e) ↦ rw (e, upsert_chunk) refl
        | inr (inr e) ↦ rw (e, upsert_chunk) refl
      ]

  index_rows-unmarked :
      (rows : List ChunkRow) (vectors : List Vector) (r : Run)
      → map unmarked (index_rows services max_embed_chars batch_size rows vectors r).1.chunks
        ≡ map unmarked r.chunks
  unfolding index_rows
  index_rows-unmarked [] vectors r = refl
  index_rows-unmarked (c ∷ rows) [] r = refl
  index_rows-unmarked (c ∷ rows) (v ∷ vectors) r =
      chained-kept (λ r'. map unmarked r'.chunks ≡ map unmarked r.chunks)
        (upsert_chunk services max_embed_chars batch_size c v r) _ (upsert_chunk-unmarked c v r)
        (λ ok r' b. index_rows-unmarked rows vectors r' ∙ b)

  pub index_slices-unmarked :
      (batches : List (List ChunkRow)) (r : Run)
      → map unmarked (index_slices services max_embed_chars batch_size batches r).1.chunks
        ≡ map unmarked r.chunks
  unfolding index_slices embedded
  index_slices-unmarked [] r = refl
  index_slices-unmarked (batch ∷ batches) r =
      elim (Option-cases
        (safe_embed_batch services max_embed_chars batch_size (map (λ c. c.raw_content) batch)
          r.state).0) [
            | inl e ↦ rw (e, index_slices) (index_slices-unmarked batches (embedded batch r))
            | inr (vectors, e) ↦
                rw (e, index_slices)
                  (chained-kept (λ r'. map unmarked r'.chunks ≡ map unmarked r.chunks)
                    (index_rows services max_embed_chars batch_size batch vectors
                      (embedded batch r))
                    _ (index_rows-unmarked batch vectors (embedded batch r))
                    (λ n r' b. index_slices-unmarked batches r' ∙ b))
          ]
