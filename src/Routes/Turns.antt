-- ===== src/Routes/Turns.antt =====
-- Two requests in turn: `persist_assistant` of src/context_proxy/api/routes.py after an answer, and the
-- inbound persistence of the request that brings the same history back, over the store of
-- conversation/projection_store.py.
use low_context_inference.Base.{
  ℕ, ◌≡◌, ◌≢◌, refl, ap, ◌∙◌, true, Option, none, some, String, List, [], ◌∷◌, ◌++◌, map, All,
  if◌then◌else◌, Bool-cases, inl, inr,
}
use low_context_inference.Json.{obj, Fields, end, get, of_list}
use low_context_inference.Json.Equality.{IsDict}
use low_context_inference.Runtime.{Runtime}
use low_context_inference.Reconcile.{conflict}
use low_context_inference.Store.Sql.{Database, IsLawful}
use low_context_inference.Store.{Outcome, synced, diverged, failed, dicts}
use low_context_inference.Store.Aware.{aware_reconcile_history}
use low_context_inference.Store.Sync.{verdict}
use low_context_inference.Store.Replays.{aware_replay}
use low_context_inference.Routes.{
  Persisted, done, divergence, broken, Store, MemoryService, Run, goes_on,
}
use low_context_inference.Routes.Chat.{App, Prepared, persist_inbound}
use low_context_inference.Routes.Inference.{persist_assistant, index_with, kept_in, given_to}

module _ (py : Runtime) (db : Database) (text : ℕ → String) (failure : db.State → Persisted) where
  open db use {State, fetch_messages}

  abbrev pub ensured_as : State → Option State → State × Persisted
  ensured_as s none = (s, failure s)
  ensured_as s (some s') = (s', done)

  abbrev pub reconciled_as : State → Outcome py db → State × Persisted
  reconciled_as s (synced ids s') = (s', done)
  reconciled_as s (diverged index persisted incoming) = (s, divergence (text index))
  reconciled_as s failed = (s, failure s)

  -- what is no dict is no message
  abbrev pub reconciled_dicts : String → Fields → Option (List Fields) → State → State × Persisted
  reconciled_dicts c metadata none s = (s, broken)
  reconciled_dicts c metadata (some ms) s =
      reconciled_as s (aware_reconcile_history py db c metadata ms s)

  -- the store, for the routes; `failure` tells the expected failures of a statement from the others
  abbrev pub database_store : Store State
  database_store = record {
    ensure_conversation = λ c s. ensured_as s (db.ensure_conversation c s);
    reconcile_history = λ c metadata ms s. reconciled_dicts c metadata (dicts (of_list ms)) s;
  }

  dicts-map : (ms : List Fields) → dicts (of_list (map obj ms)) ≡ some ms
  unfolding dicts
  dicts-map [] = refl
  dicts-map (m ∷ ms) = rw (dicts-map ms) refl

  map-append : (ms : List Fields) (m : Fields) → map obj ms ++ obj m ∷ [] ≡ map obj (ms ++ m ∷ [])
  map-append [] m = refl
  map-append (k ∷ ms) m = ap (λ vs. obj k ∷ vs) (map-append ms m)

  reconcile-synced :
      (c : String) (metadata : Fields) (ms : List Fields) (s s' : State) {ids : List db.RowId}
      → aware_reconcile_history py db c metadata ms s ≡ synced ids s'
      → database_store.reconcile_history c metadata (map obj ms) s ≡ (s', done)
  reconcile-synced c metadata ms s s' h = rw (dicts-map ms, h) refl

  module _ {Item : Type 0} (app : App State Item) where
    -- the state after `index_memory`
    abbrev pub indexed : Option (MemoryService State Item) → String → State → State
    indexed none c s = s
    indexed (some memory) c s = if app.auto_index then memory.index_completed_turns c s else s

    index_with-indexed :
        (memory : Option (MemoryService State Item)) (c : String) (r : Run State)
        → index_with app memory c r ≡ (record r { world = indexed memory c r.world }, goes_on tt)
    index_with-indexed none c r = refl
    index_with-indexed (some memory) c r = elim (Bool-cases app.auto_index) [
      | inl e ↦ rw e refl
      | inr e ↦ rw e refl
    ]

    given_to-kept :
        (context : Prepared) (metadata : Fields) (ms : List Fields) (r : Run State) (s' : State)
        {ids : List db.RowId}
        → aware_reconcile_history py db context.conversation_id metadata ms r.world ≡ synced ids s'
        → given_to app database_store context metadata (map obj ms) r ≡ (
          record r {
            world = indexed app.memory context.conversation_id s';
            kept = r.kept ++ map obj ms ∷ [];
          },
          goes_on tt,
        )
    given_to-kept context metadata ms r s' h =
        rw (reconcile-synced context.conversation_id metadata ms r.world s' h) (
          index_with-indexed app.memory context.conversation_id
            (record r { world = s'; kept = r.kept ++ map obj ms ∷ [] }))

    persist_assistant-kept :
        (context : Prepared) (message metadata : Fields) (r : Run State) (s' : State)
        {ids : List db.RowId}
        → app.store ≡ some database_store
        → context.persists ≡ true
        → aware_reconcile_history py db context.conversation_id metadata
            (context.messages ++ message ∷ [])
            r.world
          ≡ synced ids s'
        → ((persist_assistant app context (obj message) metadata r).1 ≡ goes_on tt)
          × ((persist_assistant app context (obj message) metadata r).0.world
              ≡ indexed app.memory context.conversation_id s')
    unfolding persist_assistant
    persist_assistant-kept context message metadata r s' here on h =
        let r1 = record r { recorded = r.recorded ++ get metadata "usage" ∷ [] } in
        let e : given_to app database_store context metadata
              (map obj context.messages ++ obj message ∷ []) r1
            ≡ (
              record r1 {
                world = indexed app.memory context.conversation_id s';
                kept = r1.kept ++ map obj (context.messages ++ message ∷ []) ∷ [];
              },
              goes_on tt,
            ) =
          ap (λ vs. given_to app database_store context metadata vs r1)
            (map-append context.messages message)
          ∙ given_to-kept context metadata (context.messages ++ message ∷ []) r1 s' h in
        let chosen : (if context.persists then app.store else none) ≡ some database_store =
          ap (λ b. if b then app.store else none) on ∙ here in
        let all = ap (λ o. kept_in app o context (obj message) metadata r1) chosen ∙ e in
        (ap (λ x. x.1) all, ap (λ x. x.0.world) all)

    persist_inbound-synced :
        (c : String) (ms : List Fields) (r : Run State) (t1 t2 : State)
        → db.ensure_conversation c r.world ≡ some t1
        → aware_reconcile_history py db c end ms t1 ≡ synced [] t2
        → persist_inbound app (some database_store) c (map obj ms) r
          ≡ (record r { world = t2 }, goes_on true)
    unfolding persist_inbound
    persist_inbound-synced c ms r t1 t2 e h = rw (e, reconcile-synced c end ms t1 t2 h) refl

    -- After the answer to a request was persisted, the client can send the same history with that
    -- answer back: it is accepted, the store is not given up, and the stored messages are what they
    -- were, provided that the statements for the conversation succeed, that the history with the answer
    -- was no conflict when it was persisted, and that the indexing leaves the messages alone.
    pub persist_assistant-persist_inbound :
        (law : IsLawful db) (context : Prepared) (message metadata : Fields) (r : Run State)
        (s' t1 t2 : State) {ids : List db.RowId}
        → app.store ≡ some database_store
        → context.persists ≡ true
        → let c = context.conversation_id in
          let history = context.messages ++ message ∷ [] in
          All IsDict history
          → (verdict py db c r.world history).mode ≢ conflict
          → aware_reconcile_history py db c metadata history r.world ≡ synced ids s'
          → fetch_messages c (indexed app.memory c s') ≡ fetch_messages c s'
          → db.ensure_conversation c (indexed app.memory c s') ≡ some t1
          → db.ensure_conversation c t1 ≡ some t2
          → let x = persist_assistant app context (obj message) metadata r in
            let y = persist_inbound app (some database_store) c (map obj history) x.0 in
            (x.1 ≡ goes_on tt)
            × (y.1 ≡ goes_on true)
            × (fetch_messages c y.0.world ≡ fetch_messages c s')
    persist_assistant-persist_inbound law context message metadata r s' t1 t2 here on d ok h same e1
          e2 =
        let c = context.conversation_id in
        let history = context.messages ++ message ∷ [] in
        let x = persist_assistant app context (obj message) metadata r in
        let (x1, x0) = persist_assistant-kept context message metadata r s' here on h in
        let kept = (law.ensure-SameMessages c (indexed app.memory c s') t1 e1).messages c ∙ same in
        let (again, left) =
          aware_replay py db law c metadata end history r.world s' t1 t2 d ok h kept e2 in
        let y =
          persist_inbound-synced c history x.0 t1 t2 (ap (db.ensure_conversation c) x0 ∙ e1)
            again in
        (x1, ap (λ z. z.1) y, ap (λ z. fetch_messages c z.0.world) y ∙ left)
