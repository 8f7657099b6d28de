-- ===== src/Routes/Inference.antt =====
-- `chat_completions` of src/context_proxy/api/routes.py from the call of the provider on, and
-- `list_models`. A stream is answered before it is read: `stream_ended` is what its end calls.
use low_context_inference.Base.{
  ℕ, Bool, true, false, ◌&&◌, Option, none, some, String, List, [], ◌∷◌, ◌++◌, map, leb, ltb,
  is_some, if◌then◌else◌,
}
use low_context_inference.Json.{Value, null, obj, Fields, get, lookup, is_true}
use low_context_inference.Capture.{Streams}
use low_context_inference.Capture.Stream.{Finished, called, iter_bytes}
use low_context_inference.Provider.Stream.{passthrough_headers}
use low_context_inference.Provider.Client.{Reply, reply, reraised, Response}
use low_context_inference.Provider.Replies.{
  Answer, bytes, upstream_response, streaming_headers, error_body_response,
}
use low_context_inference.Routes.{
  Persisted, done, divergence, unavailable, broken, Store, MemoryService, Run, Step, goes_on,
  raises, Act, ◌>>=◌, return, raise, calls, record_tokens, send, keep,
}
use low_context_inference.Routes.Chat.{App, Request, Prepared, read_answer, prepared}

-- what the handler returns: an answer, or a stream with the status and the headers of its answer
pub data Chat : Type 0 where
  answers : Answer → Chat
  streams : (status_code : ℕ) (headers : List (String × String)) (context : Prepared) → Chat

module _ {W Item : Type 0} (app : App W Item) where
  abbrev pub index_with : Option (MemoryService W Item) → String → Act W Unit
  index_with none conversation_id = return tt
  index_with (some memory) conversation_id =
      if app.auto_index
      then (λ r.
          (record r { world = memory.index_completed_turns conversation_id r.world }, goes_on tt))
      else return tt

  -- `index_memory`
  abbrev pub index_memory : String → Act W Unit
  index_memory conversation_id = index_with app.memory conversation_id

  -- the handlers of `persist_assistant`
  abbrev pub settled : String → Persisted → Act W Unit
  settled conversation_id done = index_memory conversation_id
  settled conversation_id (divergence text) = return tt
  settled conversation_id unavailable = return tt
  settled conversation_id broken = raise

  -- the call of the store, with the history and the answer
  abbrev pub given_to : Store W → Prepared → Fields → List Value → Act W Unit
  given_to store context metadata history = do
    u ← keep history
    p ← calls (store.reconcile_history context.conversation_id metadata history)
    settled context.conversation_id p

  -- `if store is None or message is None: return`
  abbrev pub kept_in : Option (Store W) → Prepared → Value → Fields → Act W Unit
  kept_in none context message metadata = return tt
  kept_in (some store) context null metadata = return tt
  kept_in (some store) context message metadata =
      given_to store context metadata (map obj context.messages ++ message ∷ [])

  unfoldable pub persist_assistant : Prepared → Value → Fields → Act W Unit
  unfolding get lookup
  persist_assistant context message metadata = do
    u ← record_tokens (get metadata "usage")
    kept_in (if context.persists then app.store else none) context message metadata

  -- `else: await persist_assistant(message, metadata or None)`
  abbrev pub persist_read : Prepared → Option (Value × Fields) → Act W Unit
  persist_read context none = return tt
  persist_read context (some (message, metadata)) = persist_assistant context message metadata

  -- the block after a response, by its status
  unfoldable pub persist_response : Prepared → ℕ → List ℕ → Act W Unit
  unfolding read_answer persist_assistant
  persist_response context status_code content =
      if leb 200 status_code && ltb status_code 300
      then persist_read context (read_answer (app.loads content))
      else return tt

  -- an answer with the conversation's header
  abbrev pub with_conversation : Prepared → List (String × String) → List (String × String)
  with_conversation context headers =
      app.set_header "X-Conversation-ID" context.conversation_id headers

  abbrev pub failure : {A : Type 0} → Reply A → Answer
  failure r =
      error_body_response app.texts app.starts_with (λ content. is_some (app.loads content))
        (λ a. record { status_code = 500; headers = []; body = bytes [] }) r

  abbrev pub answer_of : ℕ → List (String × String) → List ℕ → Answer
  answer_of status_code headers content =
      upstream_response app.texts app.starts_with (λ b. is_some (app.loads b)) status_code headers
        content

  -- what `complete` returned or raised
  unfoldable pub completed : Prepared → Reply (ℕ × List (String × String) × List ℕ) → Act W Chat
  unfolding persist_response upstream_response error_body_response
  completed context (reply (status_code, headers, content)) = do
    u ← persist_response context status_code content
    (let answer = answer_of status_code headers content in
        return (answers (record answer { headers = with_conversation context answer.headers })))
  completed context reraised = raise
  completed context error = return (answers (failure error))

  -- what `open_stream` returned or raised
  unfoldable pub opened : Prepared → Reply Response → Act W Chat
  unfolding passthrough_headers streaming_headers error_body_response
  opened context (reply r) = return (
      streams r.status_code
        (with_conversation context (
          streaming_headers app.texts app.starts_with (λ b. is_some (app.loads b))
            (passthrough_headers app.texts r)))
        context)
  opened context reraised = raise
  opened context error = return (answers (failure error))

  unfoldable pub inferred : Prepared → Act W Chat
  unfolding completed opened get lookup is_true
  inferred context =
      if is_true (get context.payload "stream")
      then (do
        u ← send context.out_payload
        r ← calls (app.llm.open_stream context.out_payload)
        opened context r)
      else (do
        u ← send context.out_payload
        r ← calls (app.llm.complete context.out_payload)
        completed context r)

  unfoldable pub chat_completions : Request → Act W Chat
  unfolding prepared inferred
  chat_completions request = do context ← prepared app request; inferred context

  -- an exception of `on_finished` is logged only
  abbrev pub caught : Run W × Step Unit → Run W × Step Unit
  caught (r, raises) = (r, goes_on tt)
  caught r = r

  abbrev pub message_value : Option Fields → Value
  message_value none = null
  message_value (some message) = obj message

  -- what the `finally` block of the stream calls, with `persist_assistant` as `on_finished`
  unfoldable pub stream_finished : Prepared → Finished → Act W Unit
  unfolding persist_assistant
  stream_finished context (called message metadata) r =
      caught (persist_assistant context (message_value message) metadata r)
  stream_finished context Finished.raised r = (r, raises)

  -- An exception that leaves the generator ends the stream.
  abbrev pub left_by : Bool → Run W × Step Unit → Run W × Step Unit
  left_by true (r, step) = (r, raises)
  left_by false (r, step) = (r, step)

  -- a stream that was read to its end, or not, after these chunks
  unfoldable pub stream_ended : Streams → Option ℕ → Prepared → List (List ℕ) → Bool → Act W Unit
  unfolding iter_bytes stream_finished
  stream_ended py max_capture_bytes context chunks complete =
      let stream = iter_bytes py max_capture_bytes chunks complete in
      λ r. left_by stream.raises (stream_finished context stream.finished r)

  abbrev pub listed : Reply (ℕ × List (String × String) × List ℕ) → Act W Answer
  listed (reply (status_code, headers, content)) = return (answer_of status_code headers content)
  listed reraised = raise
  listed error = return (failure error)

  unfoldable pub list_models : Act W Answer
  unfolding upstream_response error_body_response
  list_models = do r ← calls app.llm.list_models; listed r
