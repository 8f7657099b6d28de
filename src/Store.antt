-- ===== src/Store.antt =====
-- src/context_proxy/conversation/store.py. The database is a parameter: `State` is what one
-- transaction sees, an operation is one SQL statement of the source, and `none` is a statement
-- that raises. A method that raises leaves the state as it was, since its transaction is rolled
-- back; the row lock makes each method one step of its conversation.
pub mod Sql
pub mod Parts
pub mod History
pub mod Sync
pub mod Replays
pub mod Diagnostics
pub mod Aware
pub mod Memory
use Prim.Native.String.{count}
use text.Mathlib.Text.{starts_with}
use low_context_inference.Base.{
  ℕ, zero, suc, ◌+◌, min, Bool, true, false, ◌&&◌, Option, none, some, String, List, [], ◌∷◌, ◌++◌,
  if◌then◌else◌, length, get_elem?, is_some, str_eq,
}
use low_context_inference.Json.{
  Value, null, str, arr, obj, Items, nil, cons, Fields, end, field, lookup, get, truthy, is_text,
}
use low_context_inference.Runtime.{Runtime, to_str}
use low_context_inference.Reconcile.{
  Mode, conflict, equivalent_at, reconcile_projection, ReconciliationResult, new_tail,
}
use low_context_inference.Store.Sql.{Database, ToolCallRow, MediaRow}

-- a statement or a method: `none` is an exception, which ends the transaction
infixl 5 ◌>>=◌
abbrev pub ◌>>=◌ {ℓ κ} : {A : Type ℓ} {B : Type κ} → Option A → (A → Option B) → Option B
none >>= f = none
some a >>= f = f a

-- `value or {}` where the source goes on to call `.get` on it
unfoldable pub or_empty : Value → Option Fields
unfolding truthy
or_empty (obj d) = some d
or_empty v = if truthy v then none else some end

-- `value or []` where the source goes on to loop over dicts
unfoldable pub dicts : Items → Option (List Fields)
dicts nil = some []
dicts (cons (obj d) xs) = do rest ← dicts xs; some (d ∷ rest)
dicts (cons _ xs) = none

unfoldable pub or_no_dicts : Value → Option (List Fields)
unfolding truthy dicts
or_no_dicts (arr xs) = dicts xs
or_no_dicts v = if truthy v then none else some []

-- `{key: value for ... if key not in ("id", "type", "function", "custom")}`
unfoldable pub extra_fields : Fields → Fields
extra_fields end = end
extra_fields (field k v d) =
    let rest = extra_fields d in
    if str_eq k "id"
    then rest
    else if str_eq k "type"
    then rest
    else if str_eq k "function"
    then rest
    else if str_eq k "custom"
    then rest
    else field k v rest

-- `tool_call.get("type")`, or by the payload it carries
unfoldable pub call_type : Fields → Value
call_type call = elim (get call "type") [
  | null ↦ if is_some (lookup "custom" call) then str "custom" else str "function"
  | v ↦ v
]

-- the loop that looks for the first index at which the histories differ
unfoldable pub first_difference : List Fields → List Fields → ℕ → ℕ → ℕ
first_difference persisted incoming candidate zero = candidate
first_difference persisted incoming candidate (suc rounds) =
    let rest = first_difference persisted incoming (suc candidate) rounds in
    if equivalent_at persisted incoming candidate candidate then rest else candidate

abbrev pub is_conflict : Mode → Bool
is_conflict conflict = true
is_conflict _ = false

-- the first `seq` after `COALESCE(MAX(seq), -1)`
abbrev pub next_seq : Option ℕ → ℕ
next_seq none = 0
next_seq (some n) = suc n

module _ (py : Runtime) (db : Database) where
  open db use {State, RowId}

  -- the row of one tool call
  unfoldable pub tool_call_row : Fields → Option ToolCallRow
  unfolding or_empty call_type extra_fields
  tool_call_row call =
      let kind = call_type call in
      if is_text kind "custom"
      then (do
        custom ← or_empty (get call "custom")
        some (record {
          tool_call_id = get call "id";
          call_type = to_str py kind;
          name = get custom "name";
          arguments = none;
          input = some (get custom "input");
          extra = extra_fields call;
        }))
      else (do
        function ← or_empty (get call "function")
        some (record {
          tool_call_id = get call "id";
          call_type = to_str py kind;
          name = get function "name";
          arguments = some (get function "arguments");
          input = none;
          extra = extra_fields call;
        }))

  unfoldable pub persist_tool_calls : RowId → List Fields → State → Option State
  unfolding tool_call_row
  persist_tool_calls message [] s = some s
  persist_tool_calls message (call ∷ calls) s = do
    row ← tool_call_row call
    s' ← db.insert_tool_call message row s
    persist_tool_calls message calls s'

  unfoldable pub persist_tool_result : String → RowId → Fields → State → Option State
  persist_tool_result conversation message m s =
      if is_text (get m "role") "tool" && truthy (get m "tool_call_id")
      then (let id = get m "tool_call_id" in
          db.insert_tool_result message (db.find_tool_call conversation id s) id (get m "content")
            s)
      else some s

  unfoldable pub persist_tool_parts : String → RowId → Fields → State → Option State
  unfolding or_no_dicts persist_tool_calls persist_tool_result
  persist_tool_parts conversation message m s = do
    calls ← or_no_dicts (get m "tool_calls")
    s' ← persist_tool_calls message calls s
    persist_tool_result conversation message m s'

  -- `image_url.get("url", "")`, or the text of what is no dict; `part.get("image_url") or {}`
  unfoldable pub image_source : Fields → String
  image_source part = elim (get part "image_url") [
    | obj image ↦ (elim (lookup "url" image) [ none ↦ "" | some url ↦ to_str py url ])
    | v ↦ if truthy v then to_str py v else ""
  ]

  unfoldable pub media_row : ℕ → Fields → MediaRow
  unfolding image_source
  media_row index part =
      let url = image_source part in
      record {
        part_index = index;
        kind = "image_url";
        source = if starts_with url "data:" then "data" else "url";
        media_hash = py.sha256 url;
        source_size = count url;
      }

  -- the loop over `enumerate(content)`
  unfoldable pub persist_parts : String → RowId → ℕ → Items → State → Option State
  unfolding media_row
  persist_parts conversation message index nil s = some s
  persist_parts conversation message index (cons (obj part) parts) s = do
    s' ←
        (if is_text (get part "type") "image_url"
          then db.insert_media conversation message (media_row index part) s
          else some s)
    persist_parts conversation message (suc index) parts s'
  persist_parts conversation message index (cons _ parts) s =
      persist_parts conversation message (suc index) parts s

  unfoldable pub persist_media_parts : String → RowId → Fields → State → Option State
  unfolding persist_parts
  persist_media_parts conversation message m s = elim (get m "content") [
    | arr parts ↦ persist_parts conversation message 0 parts s
    | _ ↦ some s
  ]

  -- one round of the loop of `_insert_messages`, with its three writes
  unfoldable pub insert_message : String → Fields → ℕ → Fields → State → Option (RowId × State)
  insert_message conversation metadata seq m s = do
    (message, s1) ← db.insert_message conversation seq (get m "role") m metadata s
    s2 ← persist_tool_parts conversation message m s1
    s3 ← persist_media_parts conversation message m s2
    some (message, s3)

  unfoldable pub insert_rows :
      String → Fields → ℕ → List Fields → State → Option (List RowId × State)
  insert_rows conversation metadata seq [] s = some ([], s)
  insert_rows conversation metadata seq (m ∷ ms) s = do
    (id, s') ← insert_message conversation metadata seq m s
    (ids, s'') ← insert_rows conversation metadata (suc seq) ms s'
    some (id ∷ ids, s'')

  unfoldable pub insert_messages :
      String → Fields → List Fields → State → Option (List RowId × State)
  insert_messages conversation metadata [] s = some ([], s)
  insert_messages conversation metadata (m ∷ ms) s =
      insert_rows conversation metadata (next_seq (db.max_seq conversation s)) (m ∷ ms) s

  unfoldable pub append_messages :
      String → Fields → List Fields → State → Option (List RowId × State)
  append_messages conversation metadata [] s = some ([], s)
  append_messages conversation metadata (m ∷ ms) s = do
    s' ← db.ensure_conversation conversation s
    insert_messages conversation metadata (m ∷ ms) s'

  -- what `reconcile_history` does: returns ids, raises `HistoryDivergenceError`, or fails
  pub data Outcome : Type 0 where
    synced : List RowId → State → Outcome
    diverged : (index : ℕ) → (persisted incoming : Option Fields) → Outcome
    failed : Outcome

  abbrev pub divergence : List Fields → List Fields → ℕ → Outcome
  divergence persisted incoming index =
      diverged index (get_elem? persisted index) (get_elem? incoming index)

  abbrev pub written : Option (List RowId × State) → Outcome
  written none = failed
  written (some (ids, s)) = synced ids s

  unfoldable pub sync : String → Fields → List Fields → State → Outcome
  sync conversation metadata incoming s =
      let persisted = db.fetch_messages conversation s in
      let r = reconcile_projection persisted incoming in
      if is_conflict r.mode
      then divergence persisted incoming
          (first_difference persisted incoming 0 (min (length persisted) (length incoming)))
      else written (insert_messages conversation metadata (new_tail r incoming) s)

  unfoldable pub reconcile_history : String → Fields → List Fields → State → Outcome
  reconcile_history conversation metadata incoming s =
      elim (db.ensure_conversation conversation s) [
        | none ↦ failed
        | some s' ↦ sync conversation metadata incoming s'
      ]
