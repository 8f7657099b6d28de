-- ===== src/Store/History.antt =====
-- What the store's methods do to the message history of a conversation.
use mathlib.Core.Path.{subst}
use mathlib.Core.Option.{some-injective}
use low_context_inference.Base.{
  sym, ℕ, suc, ◌≡◌, ◌≢◌, refl, ap, ◌∙◌, Option, none, some, String, List, [], ◌∷◌, ◌++◌, arith,
  length, append_assoc, append-nil,
}
use low_context_inference.Json.{Fields, get}
use low_context_inference.Runtime.{Runtime}
use low_context_inference.Store.Sql.{Database, SameMessages, SameMessages-trans, IsAbove, IsLawful}
use low_context_inference.Store.{
  persist_tool_parts, persist_media_parts, insert_message, insert_rows, insert_messages,
  append_messages, next_seq,
}
use low_context_inference.Store.Parts.{
  >>=-eq-some, persist_tool_parts-SameMessages, persist_media_parts-SameMessages,
}

module _ (py : Runtime) (db : Database) (law : IsLawful db) where
  open db use {State, RowId, fetch_messages, max_seq}

  -- `s'` is `s` with the messages `ms` at the end of the conversation `c`, and no other.
  pub record Appends (c : String) (ms : List Fields) (s s' : State) : Type 0 where
    pub here : fetch_messages c s' ≡ fetch_messages c s ++ ms
    pub elsewhere : (d : String) → c ≢ d → fetch_messages d s' ≡ fetch_messages d s

  Appends-trans :
      (c : String) (xs ys : List Fields) {s s1 s' : State}
      → Appends c xs s s1
      → Appends c ys s1 s'
      → Appends c (xs ++ ys) s s'
  Appends-trans c xs ys {s} h k = record {
    here = k.here ∙ ap (λ l. l ++ ys) h.here ∙ append_assoc (fetch_messages c s) xs ys;
    elsewhere = λ d ne. k.elsewhere d ne ∙ h.elsewhere d ne;
  }

  none-Appends :
      (c : String) (s : State) {ids : List RowId} {s' : State}
      → ◌≡◌ {A = Option (List RowId × State)} (some ([], s)) (some (ids, s'))
      → Appends c [] s s' × (length ids ≡ 0)
  none-Appends c s {ids} {s'} h =
      let same : s ≡ s' = ap (λ (x : List RowId × State). x.1) (some-injective _ _ h) in
      let no_ids : [] ≡ ids = ap (λ (x : List RowId × State). x.0) (some-injective _ _ h) in
      (
        subst (Appends c [] s) same
            (record { here = sym (append-nil (fetch_messages c s)); elsewhere = λ d _. refl }),
        ap length (sym no_ids),
      )

  insert_message-Appends :
      (c : String) (metadata : Fields) (n : ℕ) (m : Fields) (s : State) {i : RowId} {s' : State}
      → insert_message py db c metadata n m s ≡ some (i, s')
      → IsAbove db (max_seq c s) n
      → Appends c (m ∷ []) s s' × (max_seq c s' ≡ some n)
  unfolding insert_message
  insert_message-Appends c metadata n m s {i} {s'} h above =
      let ((i1, s1), e, h1) = >>=-eq-some (db.insert_message c n (get m "role") m metadata s) _ h in
      let (s2, e2, h2) = >>=-eq-some (persist_tool_parts py db c i1 m s1) _ h1 in
      let (s3, e3, h3) = >>=-eq-some (persist_media_parts py db c i1 m s2) _ h2 in
      let last : s3 ≡ s' = ap (λ (x : RowId × State). x.1) (some-injective _ _ h3) in
      let after : SameMessages db s1 s' = subst (SameMessages db s1) last (
        SameMessages-trans db (persist_tool_parts-SameMessages py db law c i1 m s1 e2)
          (persist_media_parts-SameMessages py db law c i1 m s2 e3)) in
      let role = get m "role" in
      (
        record {
          here = after.messages c ∙ law.insert-fetch c n role m metadata s s1 i1 e above;
          elsewhere =
              λ d ne. after.messages d ∙ law.insert-fetch_ne c d n role m metadata s s1 i1 e ne;
        },
        after.seqs c ∙ law.insert-max_seq c n role m metadata s s1 i1 e above,
      )

  insert_rows-Appends :
      (c : String) (metadata : Fields) (n : ℕ) (ms : List Fields) (s : State) {ids : List RowId}
      {s' : State}
      → insert_rows py db c metadata n ms s ≡ some (ids, s')
      → IsAbove db (max_seq c s) n
      → Appends c ms s s' × (length ids ≡ length ms)
  unfolding insert_rows
  insert_rows-Appends c metadata n [] s h above = none-Appends c s h
  insert_rows-Appends c metadata n (m ∷ ms) s {ids} {s'} h above =
      let ((i1, s1), e, h1) = >>=-eq-some (insert_message py db c metadata n m s) _ h in
      let ((ids1, s2), e1, h2) = >>=-eq-some (insert_rows py db c metadata (suc n) ms s1) _ h1 in
      let (first, seq) = insert_message-Appends c metadata n m s e above in
      let (rest, count) =
        insert_rows-Appends c metadata (suc n) ms s1 e1
          (subst (λ o. IsAbove db o (suc n)) (sym seq) (omega arith)) in
      let last : s2 ≡ s' = ap (λ (x : List RowId × State). x.1) (some-injective _ _ h2) in
      let all : i1 ∷ ids1 ≡ ids = ap (λ (x : List RowId × State). x.0) (some-injective _ _ h2) in
      (
        subst (Appends c (m ∷ ms) s) last (Appends-trans c (m ∷ []) ms first rest),
        ap length (sym all) ∙ ap suc count,
      )

  IsAbove-next_seq : (o : Option ℕ) → IsAbove db o (next_seq o)
  IsAbove-next_seq none = tt
  IsAbove-next_seq (some n) = omega arith

  pub insert_messages-Appends :
      (c : String) (metadata : Fields) (ms : List Fields) (s : State) {ids : List RowId}
      {s' : State}
      → insert_messages py db c metadata ms s ≡ some (ids, s')
      → Appends c ms s s' × (length ids ≡ length ms)
  unfolding insert_messages
  insert_messages-Appends c metadata [] s h = none-Appends c s h
  insert_messages-Appends c metadata (m ∷ ms) s h =
      insert_rows-Appends c metadata (next_seq (max_seq c s)) (m ∷ ms) s h
        (IsAbove-next_seq (max_seq c s))

  pub ensure-Appends :
      (c : String) (ms : List Fields) {s s1 s' : State}
      → db.ensure_conversation c s ≡ some s1
      → Appends c ms s1 s'
      → Appends c ms s s'
  ensure-Appends c ms {s} {s1} e h =
      let same = law.ensure-SameMessages c s s1 e in
      record {
        here = h.here ∙ ap (λ l. l ++ ms) (same.messages c);
        elsewhere = λ d ne. h.elsewhere d ne ∙ same.messages d;
      }

  -- A successful append puts exactly the given messages, in order, at the end of the history of its
  -- conversation, returns one id for each, and leaves every other conversation as it was.
  append_messages-Appends :
      (c : String) (metadata : Fields) (ms : List Fields) (s : State) {ids : List RowId}
      {s' : State}
      → append_messages py db c metadata ms s ≡ some (ids, s')
      → Appends c ms s s' × (length ids ≡ length ms)
  unfolding append_messages
  append_messages-Appends c metadata [] s h = none-Appends c s h
  append_messages-Appends c metadata (m ∷ ms) s h =
      let (s1, e, h1) = >>=-eq-some (db.ensure_conversation c s) _ h in
      let (done, count) = insert_messages-Appends c metadata (m ∷ ms) s1 h1 in
      (ensure-Appends c (m ∷ ms) e done, count)
