-- ===== src/Memory/Recovery.antt =====
-- `index_completed_turns` of src/context_proxy/memory/service.py, and what it leaves when its services
-- are up again.
use mathlib.Core.Path.{subst}
use low_context_inference.Base.{
  ℕ, suc, ◌≤◌, ◌≡◌, refl, sym, ap, ◌∙◌, true, Option, some, String, List, [], ◌∷◌, ◌++◌, length,
  map, take, ◌==◌, arith,
}
use low_context_inference.Json.{Value, Fields}
use low_context_inference.Tokens.{Counter}
use low_context_inference.Memory.{
  MessageRow, ChunkRow, Tables, Services, accepted, chained, changed, sort_by, where_,
}
use low_context_inference.Memory.Turns.{chunk_new_turns}
use low_context_inference.Memory.Index.{
  slices_of, chunk_payload, is_pending, Indexing, checked, safe_embed_batch, upsert_chunk,
  index_rows, index_slices, pending_rows, index_pending_chunks,
}
use low_context_inference.Memory.Slices.{
  length-map, length-sort_by, concat, concat-slices, take_all,
}
use low_context_inference.Memory.Pending.{
  has_row-sort_by, PendingIn, widen, where_-PendingIn, mark-PendingIn, no_pending,
}

module _ (services : Services) (max_embed_chars batch_size : ℕ) where
  open services use {State, Vector}

  abbrev Run : Type 0
  Run = Indexing services max_embed_chars batch_size

  -- `created`, where `none` is an exception, the tables and the services
  unfoldable pub index_completed_turns :
      {Num : Type 0} (dumps : Value → String) (counter : Counter) (new_id : List ChunkRow → String)
      → String
      → (String → List MessageRow)
      → Tables Num
      → State
      → Option ℕ × Tables Num × State
  unfolding chunk_new_turns index_pending_chunks
  index_completed_turns dumps counter new_id conversation messages t s =
      let (created, t') = chunk_new_turns dumps counter new_id conversation messages t in
      let (indexed, r) =
        index_pending_chunks services max_embed_chars batch_size conversation
          (record { chunks = t'.chunks; state = s }) in
      ((changed (λ n. created) (indexed, r)).0, record t' { chunks = r.chunks }, r.state)

-- What it takes to index a chunk: each text gets its vector, and every point is accepted.
pub record IsUp (services : Services) : Type 0 where
  pub embeds :
      (texts : List String) (s : services.State)
      → (vs : List services.Vector) × ((services.embed texts s).0 ≡ some vs)
        × (length vs ≡ length texts)
  pub accepts :
      (id : String) (v : services.Vector) (payload : Fields) (s : services.State)
      → (services.upsert id v payload s).0 ≡ accepted

module _ (services : Services) (up : IsUp services) (max_embed_chars batch_size : ℕ)
    (conversation : String) where
  open services use {State, Vector}

  abbrev Go : Type 0
  Go = Indexing services max_embed_chars batch_size

  abbrev Left : List ChunkRow → Go → Type 0
  Left rows r = PendingIn conversation rows r.chunks

  upsert_chunk-Left :
      (c : ChunkRow) (rows : List ChunkRow) (v : Vector) (r : Go)
      → Left (c ∷ rows) r
      → Left rows (upsert_chunk services max_embed_chars batch_size c v r).1
  unfolding upsert_chunk
  upsert_chunk-Left c rows v r a =
      rw (upsert_chunk, up.accepts c.id v (chunk_payload c) r.state)
        (mark-PendingIn conversation c rows r.chunks a)

  upsert_chunk-some :
      (c : ChunkRow) (v : Vector) (r : Go)
      → (upsert_chunk services max_embed_chars batch_size c v r).0 ≡ some true
  unfolding upsert_chunk
  upsert_chunk-some c v r = rw (upsert_chunk, up.accepts c.id v (chunk_payload c) r.state) refl

  index_rows-Left :
      (batch rows : List ChunkRow) (vectors : List Vector) (r : Go)
      → length vectors ≡ length batch
      → Left (batch ++ rows) r
      → ((n : ℕ) × ((index_rows services max_embed_chars batch_size batch vectors r).0 ≡ some n))
        × Left rows (index_rows services max_embed_chars batch_size batch vectors r).1
  unfolding index_rows
  index_rows-Left [] rows vectors r h a = ((0, refl), a)
  index_rows-Left (c ∷ batch) rows [] r h a = let no : ⊥ = omega (arith, h) in elim no [ ]
  index_rows-Left (c ∷ batch) rows (v ∷ vectors) r h a =
      let next = upsert_chunk services max_embed_chars batch_size c v r in
      let (n, left) =
        index_rows-Left batch rows vectors next.1 (omega (arith, h))
          (upsert_chunk-Left c (batch ++ rows) v r a) in
      rw (index_rows, chained, upsert_chunk-some c v r, n.1) ((suc n.0, refl), left)

  embed_batch-some :
      (texts : List String) (s : State)
      → (vs : List Vector) × ((safe_embed_batch services max_embed_chars batch_size texts s).0
          ≡ some vs)
        × (length vs ≡ length texts)
  unfolding safe_embed_batch
  embed_batch-some [] s = ([], refl, refl)
  embed_batch-some (text ∷ texts) s =
      let (vs, e, l) = up.embeds (map (services.prefix max_embed_chars) (text ∷ texts)) s in
      let n : length vs ≡ suc (length texts) =
        l ∙ length-map (services.prefix max_embed_chars) (text ∷ texts) in
      (
        vs,
        ap (checked services max_embed_chars batch_size (suc (length texts))) e
            ∙ fits vs (suc (length texts)) n,
        n,
      )
    where
      fits :
          (vs : List Vector) (n : ℕ)
          → length vs ≡ n
          → checked services max_embed_chars batch_size n (some vs) ≡ some vs
      fits vs n h = let e : (length vs == n) ≡ true = ground (arith, h) in rw e refl

  index_slices-Left :
      (batches : List (List ChunkRow)) (r : Go)
      → Left (concat batches) r
      → Left [] (index_slices services max_embed_chars batch_size batches r).1
  unfolding index_slices
  index_slices-Left [] r a = a
  index_slices-Left (batch ∷ batches) r a =
      let texts = map (λ c. c.raw_content) batch in
      let (vs, e, l) = embed_batch-some texts r.state in
      let next : Go = record {
        chunks = r.chunks;
        state = (safe_embed_batch services max_embed_chars batch_size texts r.state).1;
      } in
      let (n, left) =
        index_rows-Left batch (concat batches) vs next (l ∙ length-map (λ c. c.raw_content) batch)
          a in
      rw (index_slices, e, chained, n.1)
        (index_slices-Left batches (index_rows services max_embed_chars batch_size batch vs next).1
          left)

module _ (services : Services) (up : IsUp services) (max_embed_chars batch_size : ℕ)
    (conversation : String) where
  open services use {State, Vector}

  index_pending_chunks-Left :
      (r : Indexing services max_embed_chars (suc batch_size))
      → length (where_ (is_pending conversation) r.chunks) ≤ 100
      → where_
          (is_pending conversation)
          (index_pending_chunks services max_embed_chars (suc batch_size) conversation r).1.chunks
        ≡ []
  unfolding index_pending_chunks pending_rows
  index_pending_chunks-Left r h =
      let found = where_ (is_pending conversation) r.chunks in
      let sorted = sort_by (λ c. c.start_seq) found in
      let rows = take 100 sorted in
      let all : rows ≡ sorted =
        take_all 100 sorted (omega (arith, h, length-sort_by (λ c. c.start_seq) found)) in
      let whole : concat (slices_of (suc batch_size) rows) ≡ sorted =
        concat-slices (length rows) batch_size rows (omega arith) ∙ all in
      no_pending conversation
        (index_pending_chunks services max_embed_chars (suc batch_size) conversation r).1.chunks
        (index_slices-Left services up max_embed_chars (suc batch_size) conversation
          (slices_of (suc batch_size) rows) r
          (subst (λ rest. PendingIn conversation rest r.chunks) (sym whole)
            (widen conversation found sorted r.chunks
              (λ id e. has_row-sort_by (λ c. c.start_seq) id found ∙ e)
              (where_-PendingIn conversation r.chunks))))

  -- If the services are up during a call and at most 100 chunks of the conversation have no marker once
  -- the new turns are cut, every chunk of the conversation is indexed after it.
  pub index_completed_turns-recovers :
      {Num : Type 0} (dumps : Value → String) (counter : Counter) (new_id : List ChunkRow → String)
      (messages : String → List MessageRow) (t : Tables Num) (s : State)
      → length (
          where_
            (is_pending conversation)
            (chunk_new_turns dumps counter new_id conversation messages t).1.chunks)
        ≤ 100
      → where_
          (is_pending conversation)
          (index_completed_turns services max_embed_chars
            (suc batch_size)
            dumps
            counter
            new_id
            conversation
            messages
            t
            s).1.chunks
        ≡ []
  unfolding index_completed_turns
  index_completed_turns-recovers dumps counter new_id messages t s h =
      index_pending_chunks-Left
        (record {
          chunks = (chunk_new_turns dumps counter new_id conversation messages t).1.chunks;
          state = s;
        })
        h
