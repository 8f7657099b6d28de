-- ===== src/Routes.antt =====
-- src/context_proxy/api/routes.py: what the routes share. The store, the memory service, the engine and
-- the client of the provider are interfaces over one state `W`, which holds all that they change.
-- A handler is a sequence of actions, each of which goes on, refuses the request with an answer, or
-- raises what nobody catches.
pub mod Chat
pub mod Inference
pub mod Refusals
pub mod Sending
pub mod Accounting
pub mod Stripping
pub mod Streams
pub mod Turns
use low_context_inference.Base.{
  ℕ, Bool, true, false, Option, none, some, String, List, [], ◌∷◌, ◌++◌, map,
}
use low_context_inference.Json.{Value, null, str, obj, arr, Fields, end, get, of_list, put}
use low_context_inference.Provider.Client.{Reply, Response}
use low_context_inference.Provider.Replies.{Answer, openai_error, openai_error_about}

-- what a method of the store does: it is done, raises a `HistoryDivergenceError`, raises one of
-- `_PERSISTENCE_INFRA_ERRORS`, or raises anything else
pub data Persisted : Type 0 where
  done : Persisted
  divergence : (text : String) → Persisted
  unavailable : Persisted
  broken : Persisted

pub record Store (W : Type 0) : Type 0 where
  pub ensure_conversation : String → W → W × Persisted
  -- with the metadata, which is empty for `None`
  pub reconcile_history : String → Fields → List Value → W → W × Persisted

-- what `retrieve` does; `retrieval_error` is a `RetrievalError`
pub data Retrieved (Item : Type 0) : Type 0 where
  found : List Item → Retrieved Item
  retrieval_error : Retrieved Item
  raised : Retrieved Item

-- `index_completed_turns` under its timeout; every exception of it is logged and dropped
pub record MemoryService (W Item : Type 0) : Type 0 where
  pub retrieve : String → String → W → W × Retrieved Item
  pub index_completed_turns : String → W → W

-- the messages of a plan, a `ContextOverflowError`, or another exception
pub data Assembled : Type 0 where
  plan : List Fields → Assembled
  overflow : (text : String) → Assembled
  raised : Assembled

-- `engine.build`, of the history, the current request, the tools, the items and the conversation
abbrev pub Engine : Type 0 → Type 0
Engine Item = List Fields → List Fields → Value → List Item → String → Assembled

-- `complete`, `open_stream` and `list_models`
pub record Llm (W : Type 0) : Type 0 where
  pub complete : Fields → W → W × Reply (ℕ × List (String × String) × List ℕ)
  pub open_stream : Fields → W → W × Reply Response
  pub list_models : W → W × Reply (ℕ × List (String × String) × List ℕ)

-- `sent` has the payloads that inference was called with, `recorded` what `record_tokens` was called
-- with, where `None` is null, and `kept` the histories that were given to the store after an answer.
pub record Run (W : Type 0) : Type 0 where
  pub world : W
  pub sent : List Fields
  pub recorded : List Value
  pub kept : List (List Value)

pub data Step (A : Type 0) : Type 0 where
  goes_on : A → Step A
  refuses : Answer → Step A
  raises : Step A

abbrev pub Act : Type 0 → Type 0 → Type 0
Act W A = Run W → Run W × Step A

module _ {W : Type 0} where
  abbrev pub after : {A B : Type 0} → Run W × Step A → (A → Act W B) → Run W × Step B
  after (r, goes_on a) next = next a r
  after (r, refuses answer) next = (r, refuses answer)
  after (r, raises) next = (r, raises)

  infixl 5 ◌>>=◌
  abbrev pub ◌>>=◌ : {A B : Type 0} → Act W A → (A → Act W B) → Act W B
  (first >>= next) r = after (first r) next

  abbrev pub return : {A : Type 0} → A → Act W A
  return a r = (r, goes_on a)

  abbrev pub refuse : {A : Type 0} → Answer → Act W A
  refuse answer r = (r, refuses answer)

  abbrev pub raise : {A : Type 0} → Act W A
  raise r = (r, raises)

  -- a call that changes the state
  abbrev pub calls : {A : Type 0} → (W → W × A) → Act W A
  calls f r = let (w, a) = f r.world in (record r { world = w }, goes_on a)

  -- `record_tokens`
  abbrev pub record_tokens : Value → Act W Unit
  record_tokens usage r = (record r { recorded = r.recorded ++ usage ∷ [] }, goes_on tt)

  -- a payload goes to the provider
  abbrev pub send : Fields → Act W Unit
  send payload r = (record r { sent = r.sent ++ payload ∷ [] }, goes_on tt)

  -- a history goes to the store after an answer
  abbrev pub keep : List Value → Act W Unit
  keep history r = (record r { kept = r.kept ++ history ∷ [] }, goes_on tt)

-- `_conversation_headers`; a request that got this far has a conversation
abbrev pub conversation_headers : String → List (String × String)
conversation_headers conversation_id = ("X-Conversation-ID", conversation_id) ∷ []

abbrev pub invalid_body : String → Answer
invalid_body text = openai_error text "invalid_request_error" (str "invalid_request_body") 400 []

abbrev pub invalid_conversation_id : String → Answer
invalid_conversation_id text =
    openai_error text "invalid_request_error" (str "invalid_conversation_id") 400 []

abbrev pub history_conflict : String → String → Answer
history_conflict conversation_id text =
    openai_error text "invalid_request_error" (str "history_conflict") 409
      (conversation_headers conversation_id)

abbrev pub context_length_exceeded : String → String → Answer
context_length_exceeded conversation_id text =
    openai_error_about (str "messages") text "invalid_request_error" (str "context_length_exceeded")
      400 (conversation_headers conversation_id)

-- `{**payload, "messages": out_messages}`
abbrev pub with_messages : Fields → List Fields → Fields
with_messages payload messages = put "messages" (arr (of_list (map obj messages))) payload
