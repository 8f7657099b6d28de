-- ===== src/Memory/Chunks.antt =====
-- What a pass of `_chunk_new_turns` leaves in the table of chunks.
use mathlib.Core.Path.{subst}
use low_context_inference.Base.{
  ℕ, suc, ◌≤◌, ◌≡◌, refl, sym, ap, ◌∙◌, Bool, true, false, ◌||◌, Option, none, some, String, List,
  [], ◌∷◌, ◌++◌, append-nil, append_assoc, length, All, Bool-cases, inl, inr, arith, if◌then◌else◌,
  ltb, str_eq, eq_iff, eq_refl, ltb→lt,
}
use low_context_inference.Json.{Value}
use low_context_inference.Tokens.{Counter}
use low_context_inference.Memory.{MessageRow, ChunkRow, Tables, watermark_of}
use low_context_inference.Memory.Turns.{
  first_seq, is_chunk_of, has_chunk, new_chunk, insert_chunk, insert_units, settled_units, new_mark,
  end_of, chunk_new_turns, set_watermark,
}

has_chunk-append_left :
    (c : String) (n : ℕ) (xs ys : List ChunkRow)
    → has_chunk c n xs ≡ true
    → has_chunk c n (xs ++ ys) ≡ true
unfolding has_chunk
has_chunk-append_left c n [] ys h = ground arith
has_chunk-append_left c n (x ∷ xs) ys h = ground (arith, has_chunk-append_left c n xs ys)

has_chunk-append :
    (c : String) (n : ℕ) (xs ys : List ChunkRow)
    → has_chunk c n (xs ++ ys) ≡ (has_chunk c n xs || has_chunk c n ys)
unfolding has_chunk
has_chunk-append c n [] ys = refl
has_chunk-append c n (x ∷ xs) ys = ground (arith, has_chunk-append c n xs ys)

-- no two chunks of a conversation start at the same message
abbrev pub IsUnique : List ChunkRow → Type 0
IsUnique [] = Unit
IsUnique (c ∷ chunks) = (has_chunk c.conversation_id c.start_seq chunks ≡ false) × IsUnique chunks

is_chunk_of_sym :
    (x y : ChunkRow)
    → is_chunk_of x.conversation_id x.start_seq y ≡ is_chunk_of y.conversation_id y.start_seq x
is_chunk_of_sym x y =
    ground (
      arith,
      eq_iff y.conversation_id x.conversation_id,
      eq_iff x.conversation_id y.conversation_id,
    )

IsUnique-snoc :
    (xs : List ChunkRow) (x : ChunkRow)
    → IsUnique xs
    → has_chunk x.conversation_id x.start_seq xs ≡ false
    → IsUnique (xs ++ x ∷ [])
unfolding has_chunk
IsUnique-snoc [] x u h = (refl, tt)
IsUnique-snoc (y ∷ xs) x u h = (
  ground (
    arith,
    has_chunk-append y.conversation_id y.start_seq xs (x ∷ []),
    u.0,
    h,
    is_chunk_of_sym x y,
  ),
  IsUnique-snoc xs x u.1 (ground (arith, h)),
)

module _ (dumps : Value → String) (counter : Counter) (new_id : List ChunkRow → String)
    (c : String) where
  abbrev Covers : List (List MessageRow) → List ChunkRow → Type 0
  Covers units chunks = All (λ u. has_chunk c (first_seq u) chunks ≡ true) units

  insert_units_present :
      (units : List (List MessageRow)) (chunks : List ChunkRow)
      → Covers units chunks
      → insert_units dumps counter new_id c units chunks ≡ (0, chunks)
  unfolding insert_units insert_chunk
  insert_units_present [] chunks h = refl
  insert_units_present (u ∷ units) chunks h =
      rw (insert_units, insert_chunk, h.0, insert_units_present units chunks h.1) refl

  -- the rows of a pass are those before it and the new ones
  insert_units-append :
      (units : List (List MessageRow)) (chunks : List ChunkRow)
      → (new : List ChunkRow) × ((insert_units dumps counter new_id c units chunks).1
          ≡ chunks ++ new)
        × (length new ≡ (insert_units dumps counter new_id c units chunks).0)
  unfolding insert_units insert_chunk
  insert_units-append [] chunks = ([], sym (append-nil chunks), refl)
  insert_units-append (u ∷ units) chunks = elim (Bool-cases (has_chunk c (first_seq u) chunks)) [
    | inl e ↦ rw (insert_units, insert_chunk, e) (insert_units-append units chunks)
    | inr e ↦
        let x = new_chunk dumps counter new_id c u chunks in
        let (new, p, q) = insert_units-append units (chunks ++ x ∷ []) in
        rw (insert_units, insert_chunk, e) (x ∷ new, p ∙ append_assoc chunks (x ∷ []) new, ap suc q)
  ]

  Covers-kept :
      (units : List (List MessageRow)) (chunks new : List ChunkRow)
      → Covers units chunks
      → Covers units (chunks ++ new)
  Covers-kept [] chunks new h = tt
  Covers-kept (u ∷ units) chunks new h =
      (has_chunk-append_left c (first_seq u) chunks new h.0, Covers-kept units chunks new h.1)

  has_chunk_new :
      (u : List MessageRow) (chunks : List ChunkRow)
      → has_chunk c (first_seq u) (chunks ++ new_chunk dumps counter new_id c u chunks ∷ []) ≡ true
  unfolding has_chunk
  has_chunk_new u chunks = ground (
    arith,
    has_chunk-append c (first_seq u) chunks (new_chunk dumps counter new_id c u chunks ∷ []),
    eq_refl c,
  )

  insert_units_old :
      (u : List MessageRow) (units : List (List MessageRow)) (chunks : List ChunkRow)
      → has_chunk c (first_seq u) chunks ≡ true
      → insert_units dumps counter new_id c (u ∷ units) chunks
        ≡ insert_units dumps counter new_id c units chunks
  unfolding insert_units insert_chunk
  insert_units_old u units chunks e = rw (insert_units, insert_chunk, e) refl

  insert_units_fresh :
      (u : List MessageRow) (units : List (List MessageRow)) (chunks : List ChunkRow)
      → has_chunk c (first_seq u) chunks ≡ false
      → (insert_units dumps counter new_id c (u ∷ units) chunks).1
        ≡ (insert_units dumps counter new_id c units
            (chunks ++ new_chunk dumps counter new_id c u chunks ∷ [])).1
  unfolding insert_units insert_chunk
  insert_units_fresh u units chunks e = rw (insert_units, insert_chunk, e) refl

  abbrev AreCovered : List (List MessageRow) → List ChunkRow → List ChunkRow → Type 0
  AreCovered units before chunks = Covers units chunks × (IsUnique before → IsUnique chunks)

  -- every unit has a chunk, and no two chunks start at one message if none did
  insert_units-Covers :
      (units : List (List MessageRow)) (chunks : List ChunkRow)
      → AreCovered units chunks (insert_units dumps counter new_id c units chunks).1
  unfolding insert_units
  insert_units-Covers [] chunks = (tt, λ u. u)
  insert_units-Covers (u ∷ units) chunks = elim (Bool-cases (has_chunk c (first_seq u) chunks)) [
    | inl e ↦
        let (a, b) = insert_units-Covers units chunks in
        let (new, p, q) = insert_units-append units chunks in
        subst (AreCovered (u ∷ units) chunks)
          (sym (ap (λ r. r.1) (insert_units_old u units chunks e)))
          (
            (
              subst (λ t. has_chunk c (first_seq u) t ≡ true) (sym p)
                  (has_chunk-append_left c (first_seq u) chunks new e),
              a,
            ),
            b,
          )
    | inr e ↦
        let grown = chunks ++ new_chunk dumps counter new_id c u chunks ∷ [] in
        let (a, b) = insert_units-Covers units grown in
        let (new, p, q) = insert_units-append units grown in
        subst (AreCovered (u ∷ units) chunks) (sym (insert_units_fresh u units chunks e)) (
          (
            subst (λ t. has_chunk c (first_seq u) t ≡ true) (sym p)
                (has_chunk-append_left c (first_seq u) grown new (has_chunk_new u chunks)),
            a,
          ),
          λ v. b (IsUnique-snoc chunks (new_chunk dumps counter new_id c u chunks) v e),
        )
  ]

  -- a watermark never goes back
  abbrev pub Reaches : Option ℕ → Option ℕ → Type 0
  Reaches none new = Unit
  Reaches (some old) none = ⊥
  Reaches (some old) (some new) = old ≤ new

  new_mark-Reaches : (old end : Option ℕ) → Reaches old (new_mark dumps counter new_id old end)
  new_mark-Reaches none end = tt
  new_mark-Reaches (some old) none = omega arith
  new_mark-Reaches (some old) (some end) = go (ltb old end) refl
    where
      go : (b : Bool) → ltb old end ≡ b → Reaches (some old) (if b then some end else some old)
      go true e = omega (arith, ltb→lt old end e)
      go false e = omega arith

  set_watermark-Reaches :
      (m : Option ℕ) (rows : List (String × Option ℕ))
      → Reaches (watermark_of c rows) m
      → Reaches (watermark_of c rows) (watermark_of c (set_watermark dumps counter new_id c m rows))
  unfolding set_watermark watermark_of
  set_watermark-Reaches m [] h = tt
  set_watermark-Reaches m ((id, old) ∷ rows) h = elim (Bool-cases (str_eq id c)) [
    | inl e ↦
        rw (e, set_watermark, watermark_of, e)
          (subst (λ b. Reaches (if b then old else watermark_of c rows) m) e h)
    | inr e ↦
        rw (e, set_watermark, watermark_of, e)
          (set_watermark-Reaches m rows
            (subst (λ b. Reaches (if b then old else watermark_of c rows) m) e h))
  ]

  -- What one pass does to the chunks.
  pub record IsChunked (units : List (List MessageRow)) (before : List ChunkRow) (created : ℕ)
      (chunks : List ChunkRow) : Type 0 where
    pub new : List ChunkRow
    pub kept : chunks ≡ before ++ new
    pub counted : length new ≡ created
    pub covered : All (λ u. has_chunk c (first_seq u) chunks ≡ true) units
    pub unique : IsUnique before → IsUnique chunks
    pub again : insert_units dumps counter new_id c units chunks ≡ (0, chunks)

  -- A pass leaves all chunks, appends as many as it reports, and gives each settled unit a chunk that
  -- starts at its first message. If no two chunks of a conversation started at one message, none do
  -- after it, and inserting the same units again does nothing. The watermark does not go back, and the
  -- memories stay.
  pub chunk_new_turns-IsChunked :
      {Num : Type 0} (messages : String → List MessageRow) (t : Tables Num)
      → let r = chunk_new_turns dumps counter new_id c messages t in
        IsChunked
          (settled_units dumps counter new_id c messages t.conversations)
          t.chunks
          r.0
          r.1.chunks
        × Reaches (watermark_of c t.conversations) (watermark_of c r.1.conversations)
        × (r.1.memories ≡ t.memories)
  unfolding chunk_new_turns
  chunk_new_turns-IsChunked {Num} messages t =
      let units = settled_units dumps counter new_id c messages t.conversations in
      let (new, p, q) = insert_units-append units t.chunks in
      let (a, b) = insert_units-Covers units t.chunks in
      (
        record {
          new = new;
          kept = p;
          counted = q;
          covered = a;
          unique = b;
          again = insert_units_present units _ a;
        },
        set_watermark-Reaches
            (new_mark dumps counter new_id (watermark_of c t.conversations)
              (end_of dumps counter new_id units))
            t.conversations
            (new_mark-Reaches (watermark_of c t.conversations) (end_of dumps counter new_id units)),
        refl,
      )
