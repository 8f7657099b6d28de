-- ===== src/Memory/Sources.antt =====
-- Where the items that `retrieve` returns come from.
use low_context_inference.Base.{
  ℕ, zero, suc, ◌≡◌, ◌≤◌, Bool, true, false, ◌&&◌, ◌||◌, Option, none, some, String, List, [], ◌∷◌,
  ◌++◌, str_eq, eq_refl, take, map, length, All, Bool-cases, Option-cases, inl, inr, arith,
}
use low_context_inference.Memory.{
  MemoryRow, ChunkRow, Tables, is_active, where_, insert_with, sort_with,
}
use low_context_inference.Memory.Retrieval.{
  Floats, ItemType, memory, chunk, Hit, memory_hit, chunk_hit, is_of, is_chunk_in, put_hit,
  put_hits, is_member, ranked_memories, ranked_chunks, lexical_search, fetched,
}

module _ {A : Type 0} (P : A → Type 0) where
  All-append : (xs ys : List A) → All P xs → All P ys → All P (xs ++ ys)
  All-append [] ys a b = b
  All-append (x ∷ xs) ys a b = (a.0, All-append xs ys a.1 b)

  pub All-take : (n : ℕ) (xs : List A) → All P xs → All P (take n xs)
  All-take zero xs a = tt
  All-take (suc n) [] a = tt
  All-take (suc n) (x ∷ xs) a = (a.0, All-take n xs a.1)

  All-insert_with :
      (before : A → A → Bool) (x : A) (xs : List A)
      → P x
      → All P xs
      → All P (insert_with before x xs)
  unfolding insert_with
  All-insert_with before x [] p a = (p, tt)
  All-insert_with before x (y ∷ ys) p a = elim (Bool-cases (before y x)) [
    | inl e ↦ rw (e, insert_with) (a.0, All-insert_with before x ys p a.1)
    | inr e ↦ rw (e, insert_with) (p, a)
  ]

  pub All-sort_with : (before : A → A → Bool) (xs : List A) → All P xs → All P (sort_with before xs)
  unfolding sort_with
  All-sort_with before [] a = tt
  All-sort_with before (x ∷ xs) a =
      All-insert_with before x (sort_with before xs) a.0 (All-sort_with before xs a.1)

pub length-take_le {ℓ} : {A : Type ℓ} (n : ℕ) (xs : List A) → length (take n xs) ≤ n
length-take_le zero xs = omega arith
length-take_le (suc n) [] = omega arith
length-take_le (suc n) (x ∷ xs) = omega (arith, length-take_le n xs)

abbrev pub is_chunk_with : String → String → String → ChunkRow → Bool
is_chunk_with conversation id content c =
    str_eq c.id id && str_eq c.raw_content content && str_eq c.conversation_id conversation

abbrev pub has_chunk_with : String → String → String → List ChunkRow → Bool
has_chunk_with conversation id content [] = false
has_chunk_with conversation id content (c ∷ rows) =
    is_chunk_with conversation id content c || has_chunk_with conversation id content rows

module _ {Num : Type 0} where
  -- an active memory of the conversation, with this id and this text
  abbrev pub is_memory_with : String → String → String → MemoryRow Num → Bool
  is_memory_with conversation id content r =
      str_eq r.id id
      && str_eq r.content content
      && (str_eq r.conversation_id conversation && is_active r.status)

  abbrev pub has_memory_with : String → String → String → List (MemoryRow Num) → Bool
  has_memory_with conversation id content [] = false
  has_memory_with conversation id content (r ∷ rows) =
      is_memory_with conversation id content r || has_memory_with conversation id content rows

  abbrev pub has_source : String → Tables Num → ItemType → String → String → Bool
  has_source conversation t memory id content = has_memory_with conversation id content t.memories
  has_source conversation t chunk id content = has_chunk_with conversation id content t.chunks

  where-memories :
      (conversation : String) (test : MemoryRow Num → Bool) (rows : List (MemoryRow Num))
      → ((r : MemoryRow Num)
          → test r ≡ true
          → (str_eq r.conversation_id conversation && is_active r.status) ≡ true)
      → All (λ r. has_memory_with conversation r.id r.content rows ≡ true) (where_ test rows)
  unfolding where_
  where-memories conversation test [] h = tt
  where-memories conversation test (r ∷ rows) h = elim (Bool-cases (test r)) [
    | inl e ↦
        rw (e, where_)
          (
            ground (arith, h r e, eq_refl r.id, eq_refl r.content),
            widen (where_ test rows) (where-memories conversation test rows h),
          )
    | inr e ↦ rw (e, where_) (widen (where_ test rows) (where-memories conversation test rows h))
  ]
    where
      widen :
          (sub : List (MemoryRow Num))
          → All (λ q. has_memory_with conversation q.id q.content rows ≡ true) sub
          → All (λ q. has_memory_with conversation q.id q.content (r ∷ rows) ≡ true) sub
      widen [] a = tt
      widen (q ∷ sub) a = (ground (arith, a.0), widen sub a.1)

where-chunks :
    (conversation : String) (test : ChunkRow → Bool) (rows : List ChunkRow)
    → ((c : ChunkRow) → test c ≡ true → str_eq c.conversation_id conversation ≡ true)
    → All (λ c. has_chunk_with conversation c.id c.raw_content rows ≡ true) (where_ test rows)
unfolding where_
where-chunks conversation test [] h = tt
where-chunks conversation test (c ∷ rows) h = elim (Bool-cases (test c)) [
  | inl e ↦
      rw (e, where_)
        (
          ground (arith, h c e, eq_refl c.id, eq_refl c.raw_content),
          widen (where_ test rows) (where-chunks conversation test rows h),
        )
  | inr e ↦ rw (e, where_) (widen (where_ test rows) (where-chunks conversation test rows h))
]
  where
    widen :
        (sub : List ChunkRow)
        → All (λ q. has_chunk_with conversation q.id q.raw_content rows ≡ true) sub
        → All (λ q. has_chunk_with conversation q.id q.raw_content (c ∷ rows) ≡ true) sub
    widen [] a = tt
    widen (q ∷ sub) a = (ground (arith, a.0), widen sub a.1)

module _ (fl : Floats) (conversation : String) (t : Tables fl.Num) where
  open fl use {Num, nought, less}

  abbrev pub IsFound : Hit fl → Type 0
  IsFound h = has_source conversation t h.item_type h.id h.content ≡ true

  put_hit-All :
      (h : Hit fl) (hits : List (Hit fl))
      → IsFound h
      → All IsFound hits
      → All IsFound (put_hit fl h hits)
  unfolding put_hit
  put_hit-All h [] p a = (p, tt)
  put_hit-All h (g ∷ hits) p a = elim (Bool-cases (str_eq g.id h.id)) [
    | inl e ↦ rw (e, put_hit) (p, a.1)
    | inr e ↦ rw (e, put_hit) (a.0, put_hit-All h hits p a.1)
  ]

  pub put_hits-All :
      (more hits : List (Hit fl))
      → All IsFound more
      → All IsFound hits
      → All IsFound (put_hits fl more hits)
  unfolding put_hits
  put_hits-All [] hits m a = a
  put_hits-All (h ∷ more) hits m a =
      put_hits-All more (put_hit fl h hits) m.1 (put_hit-All h hits m.0 a)

  memory_hits-All :
      (rows : List (MemoryRow Num))
      → All (λ r. has_memory_with conversation r.id r.content t.memories ≡ true) rows
      → All IsFound (map (memory_hit fl nought) rows)
  memory_hits-All [] a = tt
  memory_hits-All (r ∷ rows) a = (a.0, memory_hits-All rows a.1)

  chunk_hits-All :
      (rows : List ChunkRow)
      → All (λ c. has_chunk_with conversation c.id c.raw_content t.chunks ≡ true) rows
      → All IsFound (map (chunk_hit fl nought) rows)
  chunk_hits-All [] a = tt
  chunk_hits-All (c ∷ rows) a = (a.0, chunk_hits-All rows a.1)

  pub fetched-All : (ids : Option (List String)) → All IsFound (fetched fl conversation t ids)
  unfolding put_hits
  fetched-All none = tt
  fetched-All (some ids) =
      let chunks = where_ (λ c. is_chunk_in fl conversation c && is_member fl c.id ids) t.chunks in
      let memories = where_ (λ r. is_of fl conversation r && is_member fl r.id ids) t.memories in
      put_hits-All (map (chunk_hit fl nought) chunks)
        (put_hits fl (map (memory_hit fl nought) memories) [])
        (chunk_hits-All chunks (
          where-chunks conversation (λ c. is_chunk_in fl conversation c && is_member fl c.id ids)
            t.chunks (λ c e. ground (arith, e))))
        (put_hits-All (map (memory_hit fl nought) memories) []
          (memory_hits-All memories (
            where-memories conversation (λ r. is_of fl conversation r && is_member fl r.id ids)
              t.memories (λ r e. ground (arith, e))))
          tt)

  module _ (rank_of : String → String → Option Num) where
    ranked_memories-All :
        (query : String) (rows : List (MemoryRow Num))
        → All (λ r. has_memory_with conversation r.id r.content t.memories ≡ true) rows
        → All IsFound (ranked_memories fl rank_of query rows)
    unfolding ranked_memories
    ranked_memories-All query [] a = tt
    ranked_memories-All query (r ∷ rows) a = elim (Option-cases (rank_of query r.content)) [
      | inl e ↦ rw (e, ranked_memories) (ranked_memories-All query rows a.1)
      | inr (n, e) ↦ rw (e, ranked_memories) (a.0, ranked_memories-All query rows a.1)
    ]

    ranked_chunks-All :
        (query : String) (rows : List ChunkRow)
        → All (λ c. has_chunk_with conversation c.id c.raw_content t.chunks ≡ true) rows
        → All IsFound (ranked_chunks fl rank_of query rows)
    unfolding ranked_chunks
    ranked_chunks-All query [] a = tt
    ranked_chunks-All query (c ∷ rows) a = elim (Option-cases (rank_of query c.raw_content)) [
      | inl e ↦ rw (e, ranked_chunks) (ranked_chunks-All query rows a.1)
      | inr (n, e) ↦ rw (e, ranked_chunks) (a.0, ranked_chunks-All query rows a.1)
    ]

    pub lexical_search-All :
        (query : String) (limit : ℕ)
        → All IsFound (lexical_search fl rank_of query conversation limit t)
    unfolding lexical_search
    lexical_search-All query limit =
        let memories = where_ (is_of fl conversation) t.memories in
        let chunks = where_ (is_chunk_in fl conversation) t.chunks in
        All-take IsFound limit _ (
          All-sort_with IsFound _ _ (
            All-append IsFound (ranked_memories fl rank_of query memories)
              (ranked_chunks fl rank_of query chunks)
              (ranked_memories-All query memories
                (where-memories conversation (is_of fl conversation) t.memories (λ r e. e)))
              (ranked_chunks-All query chunks
                (where-chunks conversation (is_chunk_in fl conversation) t.chunks (λ c e. e)))))
