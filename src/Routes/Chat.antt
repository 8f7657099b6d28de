-- ===== src/Routes/Chat.antt =====
-- `chat_completions` of src/context_proxy/api/routes.py up to the call of the provider, in the order of
-- the code.
use low_context_inference.Base.{
  ℕ, Bool, true, false, Option, none, some, String, List, [], map, str_eq, if◌then◌else◌,
}
use low_context_inference.Json.{Value, null, obj, arr, cons, Fields, end, get, put, lookup, to_list}
use low_context_inference.Runtime.{Runtime}
use low_context_inference.Store.{or_no_dicts}
use low_context_inference.Tokens.{Counter}
use low_context_inference.Planner.{Planned, planned, overflow, plan_context}
use low_context_inference.Engine.Texts.{Rendering}
use low_context_inference.Engine.Query.{extract_retrieval_query}
use low_context_inference.Engine.Request.{separate_current_request}
use low_context_inference.Validation.{Check, accepted, rejected, validate_chat_payload}
use low_context_inference.Identity.{Uuids, Resolved, resolved, invalid, resolve_conversation_id}
use low_context_inference.Provider.Headers.{Texts}
use low_context_inference.Provider.Replies.{parse_json_body}
use low_context_inference.Routes.{
  Persisted, done, divergence, unavailable, broken, Store, Retrieved, found, retrieval_error,
  MemoryService, Assembled, plan, Engine, Llm, Act, ◌>>=◌, return, refuse, raise, calls,
  invalid_body, invalid_conversation_id, history_conflict, context_length_exceeded, with_messages,
}

-- what the handler reads of the settings and calls of the libraries
pub record App (W Item : Type 0) : Type 0 where
  pub store : Option (Store W)
  pub memory : Option (MemoryService W Item)
  pub engine : Option (Engine Item)
  pub llm : Llm W
  pub auto_index : Bool
  pub usable_budget : ℕ
  pub pinned_budget : ℕ
  pub client_id_header : Option String
  pub max_chars : ℕ
  pub runtime : Runtime
  pub rendering : Rendering
  pub digits : ℕ → String
  pub uuids : Uuids
  pub counter : Counter
  pub overflow_text : ℕ → ℕ → String
  pub invalid_text : Fields → String
  pub body_text : Option Value → String
  pub texts : Texts
  pub starts_with : String → String → Bool
  pub loads : List ℕ → Option Value
  -- `response.headers[name] = value` of Starlette
  pub set_header : String → String → List (String × String) → List (String × String)

-- a request: the body as JSON, its headers, and the identifier that would be generated
pub record Request : Type 0 where
  pub body : Option Value
  pub headers : String → Option String
  pub fresh : String

-- what is known of a request when inference is called; `persists` is `store is not None`
pub record Prepared : Type 0 where
  pub conversation_id : String
  pub payload : Fields
  pub messages : List Fields
  pub out_payload : Fields
  pub persists : Bool

-- `tools` for the planner, which the validation let through as null or an array
abbrev pub tools_of : Value → List Value
tools_of (arr xs) = to_list xs
tools_of _ = []

-- `key: value` if the value is not `None`
abbrev pub put_some : String → Value → Fields → Fields
put_some key null d = d
put_some key v d = put key v d

-- `choices[0]` of a body; `none` is an exception
abbrev pub first_choice : Value → Option Fields
first_choice (arr (cons (obj choice) rest)) = some choice
first_choice _ = none

-- the message and the metadata of a body
unfoldable pub read_answer : Option Value → Option (Value × Fields)
unfolding get lookup
read_answer (some (obj parsed)) = elim (first_choice (get parsed "choices")) [
  | none ↦ none
  | some choice ↦ elim (lookup "message" choice) [
    | none ↦ none
    | some message ↦ some (
      message,
      put_some "model" (get parsed "model") (
          put_some "usage" (get parsed "usage")
            (put_some "finish_reason" (get choice "finish_reason") end)),
    )
  ]
]
read_answer _ = none

module _ {W Item : Type 0} (app : App W Item) where
  abbrev pub validated : Fields → Check → Act W Fields
  validated payload accepted = return payload
  validated payload (rejected text) = refuse (invalid_body text)

  unfoldable pub parsed : Option Value → Option Fields → Act W Fields
  unfolding validate_chat_payload
  parsed body none = refuse (invalid_body (app.body_text body))
  parsed body (some payload) = validated payload (validate_chat_payload app.digits (obj payload))

  -- `parse_json_body` and `validate_chat_payload`
  unfoldable pub checked_body : Option Value → Act W Fields
  unfolding parsed
  checked_body body = parsed body (parse_json_body body)

  abbrev pub identified_as : Fields → Resolved → Act W (String × Fields)
  identified_as payload (resolved conversation_id sanitized) = return (conversation_id, sanitized)
  identified_as payload invalid = refuse (invalid_conversation_id (app.invalid_text payload))

  unfoldable pub identified : Request → Fields → Act W (String × Fields)
  unfolding resolve_conversation_id
  identified request payload = identified_as payload (
      resolve_conversation_id app.uuids app.max_chars request.headers app.client_id_header
        request.fresh payload)

  -- the handlers of the first block; the result is whether a store is left
  abbrev pub handled : String → Persisted → Act W Bool
  handled conversation_id done = return true
  handled conversation_id (divergence text) = refuse (history_conflict conversation_id text)
  handled conversation_id unavailable = return false
  handled conversation_id broken = raise

  -- `reconcile_history` after an `ensure_conversation` that did not raise
  abbrev pub reconciled_after : Store W → String → List Value → Persisted → Act W Bool
  reconciled_after store conversation_id messages done = do
    p ← calls (store.reconcile_history conversation_id end messages)
    handled conversation_id p
  reconciled_after store conversation_id messages p = handled conversation_id p

  unfoldable pub persist_inbound : Option (Store W) → String → List Value → Act W Bool
  persist_inbound none conversation_id messages = return false
  persist_inbound (some store) conversation_id messages = do
    p ← calls (store.ensure_conversation conversation_id)
    reconciled_after store conversation_id messages p

  abbrev pub items_found : Retrieved Item → Act W (List Item)
  items_found (found items) = return items
  items_found retrieval_error = return []
  items_found Retrieved.raised = raise

  -- `if memory is not None and query`
  unfoldable pub retrieved_for : Option (MemoryService W Item) → String → String → Act W (List Item)
  retrieved_for none query conversation_id = return []
  retrieved_for (some memory) query conversation_id =
      if str_eq query ""
      then return []
      else (do items ← calls (memory.retrieve query conversation_id); items_found items)

  abbrev pub assembled_as : String → Assembled → Act W (List Fields)
  assembled_as conversation_id (plan messages) = return messages
  assembled_as conversation_id (Assembled.overflow text) =
      refuse (context_length_exceeded conversation_id text)
  assembled_as conversation_id Assembled.raised = raise

  abbrev pub planned_as : Planned → Assembled
  planned_as (planned p) = plan p.messages
  planned_as (overflow required usable) = Assembled.overflow (app.overflow_text required usable)

  unfoldable pub assembled :
      Option (Engine Item) → String → List Fields → Value → Act W (List Fields)
  unfolding separate_current_request extract_retrieval_query plan_context retrieved_for
  assembled none conversation_id messages tools =
      let (history, current) = separate_current_request messages in
      assembled_as conversation_id (
        planned_as (
          plan_context app.counter history current (tools_of tools) app.usable_budget
            app.pinned_budget))
  assembled (some build) conversation_id messages tools = do
    items ←
        retrieved_for app.memory (extract_retrieval_query app.runtime app.rendering messages)
          conversation_id
    (let (history, current) = separate_current_request messages in
        assembled_as conversation_id (build history current tools items conversation_id))

  abbrev pub all_dicts : Option (List Fields) → Act W (List Fields)
  all_dicts none = raise
  all_dicts (some messages) = return messages

  -- everything before inference
  unfoldable pub prepared : Request → Act W Prepared
  unfolding checked_body identified persist_inbound assembled or_no_dicts get lookup
  prepared request = do
    payload ← checked_body request.body
    (conversation_id, sanitized) ← identified request payload
    messages ← all_dicts (or_no_dicts (get sanitized "messages"))
    persists ← persist_inbound app.store conversation_id (map obj messages)
    out_messages ← assembled app.engine conversation_id messages (get sanitized "tools")
    return (record {
      conversation_id = conversation_id;
      payload = sanitized;
      messages = messages;
      out_payload = with_messages sanitized out_messages;
      persists = persists;
    })
