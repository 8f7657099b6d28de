-- ===== src/Tests/Chats.antt =====
-- Requests to the chat route, over the database in memory.
use low_context_inference.Base.{
  ◌≡◌, ◌≢◌, refl, inr, true, false, none, some, String, List, [], ◌∷◌, ◌++◌, map, str_eq,
  if◌then◌else◌, arith, All,
}
use low_context_inference.Json.{
  Value, null, str, int, obj, arr, pos, Fields, end, field, cons, nil, get, lookup, put, pop,
  is_text, equal_dicts,
}
use low_context_inference.Json.Equality.{IsDict}
use low_context_inference.Runtime.{Runtime}
use low_context_inference.Reconcile.{
  append, conflict, reconcile_projection, reconcile_nonempty, prefix_len, equivalent,
  canonical_message, text_content, new_tail,
}
use low_context_inference.Store.{
  insert_messages, insert_rows, insert_message, persist_tool_parts, persist_media_parts, synced,
}
use low_context_inference.Store.Aware.{aware_reconcile_history}
use low_context_inference.Store.Memory.{Row, memory, memory-IsLawful, insert, contents, last_seq}
use low_context_inference.Store.Sync.{verdict}
use low_context_inference.Capture.{Streams}
use low_context_inference.Capture.Stream.{called}
use low_context_inference.Routes.Streams.{stream_ended-nothing}
use low_context_inference.Provider.Client.{reply}
use low_context_inference.Routes.{unavailable, Store, plan, Run, goes_on, raises}
use low_context_inference.Routes.Chat.{App, Request, Prepared, persist_inbound}
use low_context_inference.Routes.Inference.{
  persist_assistant, inferred, stream_finished, stream_ended, chat_completions,
}
use low_context_inference.Routes.Sending.{Sends, chat_completions-Sends}
use low_context_inference.Routes.Accounting.{inferred-stream_finished}
use low_context_inference.Routes.Stripping.{IsWellFormed, IsAnonymous, chat_completions-IsAnonymous}
use low_context_inference.Routes.Turns.{database_store, persist_assistant-persist_inbound}

abbrev py : Runtime
py = record { dumps = λ v. ""; print = λ v. ""; sha256 = λ s. s }

abbrev say : String → String → Fields
say role text = field "role" (str role) (field "content" (str text) end)

abbrev store : Store (List Row)
store = database_store py memory (λ n. "conflict") (λ s. unavailable)

-- what the provider answers: a message and its usage
abbrev answer : Value
answer = obj (
    field "choices" (arr (cons (obj (field "message" (obj (say "assistant" "b")) end)) nil))
      (field "usage" (int (pos 7)) end))

abbrev app : App (List Row) Unit
app = record {
  store = some store;
  memory = none;
  engine = some (λ history current tools items c. plan (history ++ current));
  llm = record {
    complete = λ payload w. (w, reply (200, [], 1 ∷ []));
    open_stream =
        λ payload w. (w, reply (record { status_code = 200; headers = []; content = [] }));
    list_models = λ w. (w, reply (200, [], []));
  };
  auto_index = true;
  usable_budget = 100;
  pinned_budget = 0;
  client_id_header = none;
  max_chars = 10;
  runtime = py;
  rendering = record {
    collapse = λ s. s;
    strip = λ s. s;
    lower = λ s. s;
    splitlines = λ s. s ∷ [];
    loads = λ s. none;
    dumps_sorted = λ v. "";
  };
  digits = λ n. "n";
  uuids = record { canonical = some; of_session = λ s. s; strip = λ s. s; lower = λ s. s };
  counter = record { message = λ m. 1; tools = λ ts. 0 };
  overflow_text = λ a b. "too long";
  invalid_text = λ p. "invalid";
  body_text = λ b. "body";
  texts = record { lower = λ s. s; strip = λ s. s; split_commas = λ s. s ∷ [] };
  starts_with = λ a b. true;
  loads = λ b. some answer;
  set_header = λ name value headers. headers ++ (name, value) ∷ [];
}

reconciling : Unit {0}
unfolding reconcile_projection reconcile_nonempty prefix_len equivalent equal_dicts
    canonical_message text_content new_tail aware_reconcile_history insert_messages insert_rows
    insert_message persist_tool_parts persist_media_parts insert contents last_seq put get pop
    is_text
reconciling = tt

abbrev start : Run (List Row)
start = record { world = []; sent = []; recorded = []; kept = [] }

abbrev request_of : Value → Request
request_of messages = record {
  body = some (obj (field "messages" messages end));
  headers = λ name. if str_eq name "x-conversation-id" then some "k" else none;
  fresh = "f";
}

abbrev question : Request
question = request_of (arr (cons (obj (say "user" "a")) nil))

chat_completions-Sends_example : Sends app question start (chat_completions app question start)
chat_completions-Sends_example = chat_completions-Sends app question start

-- The conversation is named in the body.
abbrev named : Request
named = record question {
  body = some (
      obj (
        field "messages" (arr (cons (obj (say "user" "a")) nil))
          (field "conversation_id" (str "k") end)));
}

named-IsWellFormed : IsWellFormed named.body
unfolding lookup
named-IsWellFormed = assumption refl

chat_completions-IsAnonymous_example : All IsAnonymous (chat_completions app named start).0.sent
chat_completions-IsAnonymous_example =
    chat_completions-IsAnonymous app named start named-IsWellFormed tt

-- An empty list of messages is refused.
refused_empty : (chat_completions app (request_of (arr nil)) start).0.sent ≡ []
unfolding chat_completions
refused_empty = refl

sent_once :
    (chat_completions app question start).0.sent
    ≡ field "messages" (arr (cons (obj (say "user" "a")) nil)) end ∷ []
unfolding chat_completions reconciling
sent_once = refl

abbrev context : Prepared
context = record {
  conversation_id = "k";
  payload = field "messages" (arr (cons (obj (say "user" "a")) nil)) end;
  messages = say "user" "a" ∷ [];
  out_payload = field "messages" (arr (cons (obj (say "user" "a")) nil)) end;
  persists = true;
}

inferred-stream_finished_example :
    let x = inferred app context start in
    let y = stream_finished app context (called none end) start in
    (x.0.recorded ≡ int (pos 7) ∷ []) × (y.0.recorded ≡ null ∷ []) × (y.1 ≡ goes_on tt)
unfolding inferred put
inferred-stream_finished_example = inferred-stream_finished app context none end start

abbrev streams : Streams
streams = record {
  decode = λ bytes. "data:a";
  split_events = λ t. t ∷ [];
  splitlines = λ t. t ∷ [];
  strip = λ t. t;
  suffix = λ n t. t;
  loads = λ t. some answer;
  sorted = some;
}

-- Two bytes are more than the limit.
stream_ended-nothing_example :
    stream_ended app streams (some 1) context ((1 ∷ []) ∷ (2 ∷ []) ∷ []) true start
    ≡ (record start { recorded = null ∷ [] }, goes_on tt)
stream_ended-nothing_example =
    stream_ended-nothing app streams (some 1) context ((1 ∷ []) ∷ (2 ∷ []) ∷ []) true start
      (inr refl)

broken_off : (stream_ended app streams none context ((1 ∷ []) ∷ []) false start).1 ≡ raises
unfolding stream_ended
broken_off = refl

abbrev asked : List Row
asked = record { conversation = "k"; seq = 0; content = say "user" "a" } ∷ []

abbrev answered : List Row
answered = asked ++ record { conversation = "k"; seq = 1; content = say "assistant" "b" } ∷ []

abbrev both : List Fields
both = say "user" "a" ∷ say "assistant" "b" ∷ []

both-IsDict : All IsDict both
unfolding lookup
both-IsDict = assumption refl

grows : (verdict py memory "k" asked both).mode ≡ append
unfolding reconciling
grows = refl

accepted : (verdict py memory "k" asked both).mode ≢ conflict
accepted = rw grows (ground arith)

stored : aware_reconcile_history py memory "k" end both asked ≡ synced (1 ∷ []) answered
unfolding reconciling
stored = refl

persist_assistant-persist_inbound_example :
    let x =
      persist_assistant app context
        (obj (say "assistant" "b"))
        end
        (record start { world = asked }) in
    let y = persist_inbound app (some store) "k" (map obj both) x.0 in
    (x.1 ≡ goes_on tt) × (y.1 ≡ goes_on true) × (contents "k" y.0.world ≡ contents "k" answered)
persist_assistant-persist_inbound_example =
    persist_assistant-persist_inbound py memory (λ n. "conflict") (λ s. unavailable) app
      memory-IsLawful context (say "assistant" "b") end (record start { world = asked }) answered
      answered answered refl refl both-IsDict accepted stored refl refl refl
