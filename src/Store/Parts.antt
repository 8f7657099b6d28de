-- ===== src/Store/Parts.antt =====
-- The rows of tool calls, tool results and media leave the messages alone.
use mathlib.Core.Path.{subst}
use mathlib.Core.Option.{some-injective}
use low_context_inference.Base.{
  ℕ, suc, ◌≡◌, refl, Bool, true, false, ◌&&◌, Option, none, some, String, List, [], ◌∷◌,
  if◌then◌else◌, Bool-cases, inl, inr,
}
use low_context_inference.Json.{Value, arr, obj, Items, nil, cons, Fields, get, is_text, truthy}
use low_context_inference.Runtime.{Runtime}
use low_context_inference.Store.Sql.{
  Database, MediaRow, SameMessages, SameMessages-refl, SameMessages-trans, IsLawful,
}
use low_context_inference.Store.{
  ◌>>=◌, tool_call_row, persist_tool_calls, persist_tool_result, persist_tool_parts, persist_parts,
  persist_media_parts, media_row, or_no_dicts,
}

pub >>=-eq-some {ℓ κ} :
    {A : Type ℓ} {B : Type κ} (m : Option A) (f : A → Option B) {b : B}
    → (m >>= f) ≡ some b
    → (a : A) × (m ≡ some a) × (f a ≡ some b)
>>=-eq-some none f h = absurd (cc)
>>=-eq-some (some a) f h = (a, refl, h)

module _ (py : Runtime) (db : Database) (law : IsLawful db) where
  open db use {State, RowId, fetch_messages, max_seq}

  pub same_state : {s s' : State} → some s ≡ some s' → SameMessages db s s'
  same_state {s} {s'} h = subst (SameMessages db s) (some-injective s s' h) (SameMessages-refl db s)

  persist_tool_calls-SameMessages :
      (i : RowId) (calls : List Fields) (s : State) {s' : State}
      → persist_tool_calls py db i calls s ≡ some s'
      → SameMessages db s s'
  unfolding persist_tool_calls
  persist_tool_calls-SameMessages i [] s h = same_state h
  persist_tool_calls-SameMessages i (call ∷ calls) s h =
      let (row, r, h1) = >>=-eq-some (tool_call_row py db call) _ h in
      let (s1, e, h2) = >>=-eq-some (db.insert_tool_call i row s) _ h1 in
      SameMessages-trans db (law.tool_call-SameMessages i row s s1 e)
        (persist_tool_calls-SameMessages i calls s1 h2)

  persist_tool_result-SameMessages :
      (c : String) (i : RowId) (m : Fields) (s : State) {s' : State}
      → persist_tool_result py db c i m s ≡ some s'
      → SameMessages db s s'
  unfolding persist_tool_result
  persist_tool_result-SameMessages c i m s {s'} h =
      elim (Bool-cases (is_text (get m "role") "tool" && truthy (get m "tool_call_id"))) [
        | inl e ↦ law.tool_result-SameMessages i _ _ _ s s' (rw e at h)
        | inr e ↦ same_state (rw e at h)
      ]

  pub persist_tool_parts-SameMessages :
      (c : String) (i : RowId) (m : Fields) (s : State) {s' : State}
      → persist_tool_parts py db c i m s ≡ some s'
      → SameMessages db s s'
  unfolding persist_tool_parts
  persist_tool_parts-SameMessages c i m s h =
      let (calls, _, h1) = >>=-eq-some (or_no_dicts (get m "tool_calls")) _ h in
      let (s1, e, h2) = >>=-eq-some (persist_tool_calls py db i calls s) _ h1 in
      SameMessages-trans db (persist_tool_calls-SameMessages i calls s e)
        (persist_tool_result-SameMessages c i m s1 h2)

  persist_part-SameMessages :
      (b : Bool) (c : String) (i : RowId) (row : MediaRow) (s : State) {s' : State}
      → (if b then db.insert_media c i row s else some s) ≡ some s'
      → SameMessages db s s'
  persist_part-SameMessages true c i row s {s'} h = law.media-SameMessages c i row s s' h
  persist_part-SameMessages false c i row s h = same_state h

  persist_parts-SameMessages :
      (c : String) (i : RowId) (n : ℕ) (parts : Items) (s : State) {s' : State}
      → persist_parts py db c i n parts s ≡ some s'
      → SameMessages db s s'
  unfolding persist_parts
  persist_parts-SameMessages c i n nil s h = same_state h
  persist_parts-SameMessages c i n (cons (obj part) parts) s h =
      let (s1, e, h1) =
        >>=-eq-some
          (if is_text (get part "type") "image_url"
            then db.insert_media c i (media_row py db n part) s
            else some s)
          _ h in
      SameMessages-trans db (persist_part-SameMessages _ c i _ s e)
        (persist_parts-SameMessages c i (suc n) parts s1 h1)
  persist_parts-SameMessages c i n (cons _ parts) s h =
      persist_parts-SameMessages c i (suc n) parts s h

  pub persist_media_parts-SameMessages :
      (c : String) (i : RowId) (m : Fields) (s : State) {s' : State}
      → persist_media_parts py db c i m s ≡ some s'
      → SameMessages db s s'
  unfolding persist_media_parts
  persist_media_parts-SameMessages c i m s h = go (get m "content") h
    where
      go :
          (v : Value) {s' : State}
          → (elim v [ arr parts ↦ persist_parts py db c i 0 parts s | _ ↦ some s ]) ≡ some s'
          → SameMessages db s s'
      go (arr parts) e = persist_parts-SameMessages c i 0 parts s e
      go _ e = same_state e
