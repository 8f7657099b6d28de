-- ===== src/Lib.antt =====
-- low-context-inference: a proxy that keeps whole conversations in PostgreSQL and sends each
-- request with the part of the history that fits the model's context. All paths below are under
-- src/context_proxy/.
--
-- The parts. A request's history is reconciled with the stored one (conversation/reconciliation.py,
-- called by conversation/store.py and conversation/projection_store.py), its new tail is stored, and
-- the planner (context/planner.py) chooses what is sent, by the token estimates of
-- context/tokens.py, or the assembly engine (context/engine.py) fuses history, pinned messages and
-- retrieved blocks, picked by context/mmr.py, into one plan. Requests are checked first
-- (api/validation.py). What a provider streams back is put together by capture.py for the store, and
-- memory/service.py cuts the stored history into chunks, indexes them and finds them again, with the
-- memories, for the engine. The call upstream goes through a circuit breaker and bounded retries
-- (providers/resilience.py). The route (api/routes.py) calls these parts in turn, and the middleware
-- (observability/middleware.py) stands before it.
--
--   Json            Python's JSON values: dict, list, text, integers, None and Booleans, with `==`,
--                   truth, `get`, `pop` and assignment. Dicts are association lists.
--   Runtime         functions of Python's library that the sources call, as parameters.
--   Reconcile       conversation/reconciliation.py, a definition for each function; the decision of
--                   `reconcile_projection` is split where its branches are.
--   Store           conversation/store.py over the abstract database of Store/Sql, one operation for
--                   each SQL statement; Store/Aware is conversation/projection_store.py, Store/Memory
--                   a database in memory that meets the laws, Store/Diagnostics the error of a
--                   conflict.
--   Breaker         `CircuitBreaker` and, in Breaker/Retries, `with_retries`.
--   Tokens          `TokenCounter`; an exception of Python is `none`.
--   Planner         `segment_messages` and `plan_context` over a counter.
--   Mmr             `mmr_select`, whose floats and similarity are parameters, and `cosine_similarity`.
--   Engine          the filters, `_deduplicate` and the tiers of the engine; Engine/Allocation is
--                   `_allocate`, `_make_plan` and `build`, Engine/Request `separate_current_request`.
--                   Of `metadata` a candidate has the entries that are read. Engine/Texts has the
--                   texts of context/candidates.py, Engine/Fusion `_fuse_candidates`, Engine/Query
--                   context/query.py, and Engine/Scoring context/scoring.py.
--   Validation      api/validation.py; the result is the text of the error.
--   Limiter         observability/ratelimit.py; floats and key truncation are parameters.
--   Identity        conversation/identity.py; UUIDs and headers are parameters.
--   Capture         `AssistantCapture` of capture.py; Capture/Message is `_absorb`, `_build_message` and
--                   `finalize`, Capture/Stream `PersistingLLMStream.iter_bytes`, where a stream is its
--                   chunks and whether it completed, and an exception may leave the iteration. Bytes
--                   are numbers; decoding is a parameter.
--   Memory          memory/service.py over tables that its SQL statements read and write: Memory/Turns
--                   is `_chunk_new_turns`, Memory/Records `create_memory` and `supersede_memory`,
--                   Memory/Retrieval and Memory/Ranking `retrieve`, Memory/Index and Memory/Rebuild the
--                   indexing and the rebuild, Memory/Recovery `index_completed_turns`, and
--                   Memory/Embedding memory/embeddings.py. The embedding endpoint and the vector
--                   store are an interface with a state, `Services`, where an upsert may also end in an
--                   exception that leaves the service; text search, floats and ages are parameters. The slices of a batch loop are counted by the rows, which is
--                   enough since a batch has at least one row.
--   Provider        providers/llm.py: `_resilient_send`, whose start and end are steps of the breaker that
--                   requests share, over the outcomes of the calls of httpx; Provider/Client is the
--                   rest of the client, Provider/Stream `UpstreamLLMStream`, Provider/Headers
--                   providers/headers.py, Provider/Replies api/responses.py.
--   Qdrant          memory/qdrant.py, over a server that answers requests or cannot be reached.
--   Middleware      observability/middleware.py: the helpers, and in Middleware/Call `__call__`, over an
--                   application that sends messages and may raise or be interrupted. A request is
--                   the messages that `receive` would return, and a run records what is sent and
--                   counted.
--   Routes          api/routes.py: Routes/Chat is `chat_completions` up to the call of the provider,
--                   Routes/Inference the rest, with `persist_assistant`, over interfaces of the store,
--                   the memory service, the engine and the provider that share one state;
--                   Routes/Turns takes the store of Store/Aware for the first.
--   Tests           runs at concrete inputs, and the theorems applied to them.
--
-- Conventions. A loop over a list is a recursion on it. A loop over indices that runs backwards
-- recurs on the number of messages before the index, and `range` loops on the rounds that are left,
-- so nothing runs out of fuel. A method that mutates its object returns the new one. Lengths of
-- texts are in characters. Clock readings are numbers of ticks. Locks and transactions make a method
-- one step.
--
-- Not modelled: the internal routes and the wiring of the application, which pass requests on to what
-- is modelled here, the database driver and the SQL engine itself, the settings, whose values are
-- arguments, logging and the registry of the metrics, which decide nothing, HTTP itself, JSON numbers
-- that are no integers, the extra `details` of a plan, and the diagnostics of the engine. JSONB
-- columns are taken to return the message that was stored, and identifiers of conversations to be in
-- the form that a uuid column gives them. An interruption such as a CancelledError is an ending where
-- it decides something (the probe of the breaker, a stream, the application behind the middleware)
-- and otherwise left out, as is a `send` or `receive` that raises in the middleware itself.
pub mod Base
pub mod Json
pub mod Runtime
pub mod Reconcile
pub mod Store
pub mod Breaker
pub mod Tokens
pub mod Planner
pub mod Mmr
pub mod Validation
pub mod Engine
pub mod Limiter
pub mod Identity
pub mod Capture
pub mod Memory
pub mod Provider
pub mod Qdrant
pub mod Middleware
pub mod Routes
mod Tests
