-- ===== src/Routes/Refusals.antt =====
-- What `chat_completions` of src/context_proxy/api/routes.py sends to the provider.
use low_context_inference.Base.{
  ◌≡◌, refl, ◌∙◌, ◌⊎◌, inl, inr, Option, none, some, String, List, map, str_eq, Bool-cases,
}
use low_context_inference.Json.{Value, obj, Fields, get, end}
use low_context_inference.Store.{or_no_dicts}
use low_context_inference.Identity.{Resolved, resolved, invalid, resolve_conversation_id}
use low_context_inference.Validation.{Check, accepted, rejected, validate_chat_payload}
use low_context_inference.Planner.{plan_context}
use low_context_inference.Engine.Query.{extract_retrieval_query}
use low_context_inference.Engine.Request.{separate_current_request}
use low_context_inference.Provider.Replies.{parse_json_body}
use low_context_inference.Routes.{
  Persisted, done, divergence, unavailable, broken, Store, Retrieved, found, retrieval_error,
  MemoryService, Assembled, plan, Engine, Run, Step, goes_on, refuses, raises, Act, after, ◌>>=◌,
  calls,
}
use low_context_inference.Routes.Chat.{
  App, Request, checked_body, validated, parsed, identified_as, identified, handled,
  reconciled_after, persist_inbound, items_found, retrieved_for, assembled_as, planned_as,
  assembled, all_dicts, prepared, tools_of,
}

abbrev pub IsRefusal : {A : Type 0} → Step A → Type 0
IsRefusal (refuses answer) = (answer.status_code ≡ 400) ⊎ (answer.status_code ≡ 409)
IsRefusal _ = Unit

module _ {W : Type 0} where
  -- nothing is sent, recorded or kept on the way from `r`, and who is refused gets a 400 or a 409
  abbrev pub QuietFrom : {A : Type 0} → Run W → Run W × Step A → Type 0
  QuietFrom r x =
      (x.0.sent ≡ r.sent) × (x.0.recorded ≡ r.recorded) × (x.0.kept ≡ r.kept) × IsRefusal x.1

  abbrev pub IsQuiet : {A : Type 0} → Act W A → Type 0
  IsQuiet act = (r : Run W) → QuietFrom r (act r)

  still : (r : Run W) → (r.sent ≡ r.sent) × (r.recorded ≡ r.recorded) × (r.kept ≡ r.kept) × Unit {0}
  still r = (refl, refl, refl, tt)

  after-QuietFrom :
      {A B : Type 0} (r : Run W) (x : Run W × Step A) (next : A → Act W B)
      → QuietFrom r x
      → ((a : A) → IsQuiet (next a))
      → QuietFrom r (after x next)
  after-QuietFrom r (r', goes_on a) next (s, c, k, f) q =
      let (s', c', k', f') = q a r' in (s' ∙ s, c' ∙ c, k' ∙ k, f')
  after-QuietFrom r (r', refuses answer) next h q = h
  after-QuietFrom r (r', raises) next h q = h

  pub bind-IsQuiet :
      {A B : Type 0} (act : Act W A) (next : A → Act W B)
      → IsQuiet act
      → ((a : A) → IsQuiet (next a))
      → IsQuiet (act >>= next)
  bind-IsQuiet act next h q r = after-QuietFrom r (act r) next (h r) q

  calls-IsQuiet : {A : Type 0} (f : W → W × A) → IsQuiet (calls f)
  calls-IsQuiet f r = still r

module _ {W Item : Type 0} (app : App W Item) where
  validated-IsQuiet : (payload : Fields) (check : Check) → IsQuiet (validated app payload check)
  validated-IsQuiet payload accepted r = still r
  validated-IsQuiet payload (rejected text) r = (refl, refl, refl, inl refl)

  parsed-IsQuiet : (body : Option Value) (o : Option Fields) → IsQuiet (parsed app body o)
  unfolding parsed
  parsed-IsQuiet body none = λ r. (refl, refl, refl, inl refl)
  parsed-IsQuiet body (some payload) =
      validated-IsQuiet payload (validate_chat_payload app.digits (obj payload))

  checked_body-IsQuiet : (body : Option Value) → IsQuiet (checked_body app body)
  unfolding checked_body
  checked_body-IsQuiet body = parsed-IsQuiet body (parse_json_body body)

  identified-IsQuiet : (payload : Fields) (o : Resolved) → IsQuiet (identified_as app payload o)
  identified-IsQuiet payload (resolved c p) r = still r
  identified-IsQuiet payload invalid r = (refl, refl, refl, inl refl)

  handled-IsQuiet : (c : String) (p : Persisted) → IsQuiet (handled app c p)
  handled-IsQuiet c done r = still r
  handled-IsQuiet c (divergence text) r = (refl, refl, refl, inr refl)
  handled-IsQuiet c unavailable r = still r
  handled-IsQuiet c broken r = still r

  reconciled-IsQuiet :
      (store : Store W) (c : String) (ms : List Value) (p : Persisted)
      → IsQuiet (reconciled_after app store c ms p)
  reconciled-IsQuiet store c ms done =
      bind-IsQuiet (calls (store.reconcile_history c end ms)) (handled app c)
        (calls-IsQuiet (store.reconcile_history c end ms)) (handled-IsQuiet c)
  reconciled-IsQuiet store c ms (divergence text) = handled-IsQuiet c (divergence text)
  reconciled-IsQuiet store c ms unavailable = handled-IsQuiet c unavailable
  reconciled-IsQuiet store c ms broken = handled-IsQuiet c broken

  persist_inbound-IsQuiet :
      (store : Option (Store W)) (c : String) (ms : List Value)
      → IsQuiet (persist_inbound app store c ms)
  unfolding persist_inbound
  persist_inbound-IsQuiet none c ms = still
  persist_inbound-IsQuiet (some store) c ms =
      bind-IsQuiet (calls (store.ensure_conversation c)) (reconciled_after app store c ms)
        (calls-IsQuiet (store.ensure_conversation c)) (reconciled-IsQuiet store c ms)

  items_found-IsQuiet : (o : Retrieved Item) → IsQuiet (items_found app o)
  items_found-IsQuiet (found items) r = still r
  items_found-IsQuiet retrieval_error r = still r
  items_found-IsQuiet Retrieved.raised r = still r

  retrieved_for-IsQuiet :
      (memory : Option (MemoryService W Item)) (query c : String)
      → IsQuiet (retrieved_for app memory query c)
  unfolding retrieved_for
  retrieved_for-IsQuiet none query c = still
  retrieved_for-IsQuiet (some memory) query c = elim (Bool-cases (str_eq query "")) [
    | inl e ↦ rw e still
    | inr e ↦ rw e (
        bind-IsQuiet (calls (memory.retrieve query c)) (items_found app)
          (calls-IsQuiet (memory.retrieve query c)) items_found-IsQuiet)
  ]

  assembled_as-IsQuiet : (c : String) (o : Assembled) → IsQuiet (assembled_as app c o)
  assembled_as-IsQuiet c (plan messages) r = still r
  assembled_as-IsQuiet c (Assembled.overflow text) r = (refl, refl, refl, inl refl)
  assembled_as-IsQuiet c Assembled.raised r = still r

  assembled-IsQuiet :
      (engine : Option (Engine Item)) (c : String) (ms : List Fields) (tools : Value)
      → IsQuiet (assembled app engine c ms tools)
  unfolding assembled
  assembled-IsQuiet none c ms tools =
      let parts = separate_current_request ms in
      assembled_as-IsQuiet c (
        planned_as app (
          plan_context app.counter parts.0 parts.1 (tools_of tools) app.usable_budget
            app.pinned_budget))
  assembled-IsQuiet (some build) c ms tools =
      let parts = separate_current_request ms in
      let query = extract_retrieval_query app.runtime app.rendering ms in
      bind-IsQuiet (retrieved_for app app.memory query c)
        (λ items. assembled_as app c (build parts.0 parts.1 tools items c))
        (retrieved_for-IsQuiet app.memory query c)
        (λ items. assembled_as-IsQuiet c (build parts.0 parts.1 tools items c))

  all_dicts-IsQuiet : (o : Option (List Fields)) → IsQuiet (all_dicts app o)
  all_dicts-IsQuiet none r = still r
  all_dicts-IsQuiet (some messages) r = still r

  pub prepared-IsQuiet : (request : Request) → IsQuiet (prepared app request)
  unfolding prepared identified
  prepared-IsQuiet request =
      bind-IsQuiet (checked_body app request.body) _ (checked_body-IsQuiet request.body) (λ payload.
        bind-IsQuiet (identified app request payload) _
          (identified-IsQuiet payload (
            resolve_conversation_id app.uuids app.max_chars request.headers app.client_id_header
              request.fresh payload))
          (λ who.
            bind-IsQuiet (all_dicts app (or_no_dicts (get who.1 "messages"))) _
              (all_dicts-IsQuiet (or_no_dicts (get who.1 "messages")))
              (λ messages.
                bind-IsQuiet (persist_inbound app app.store who.0 (map obj messages)) _
                  (persist_inbound-IsQuiet app.store who.0 (map obj messages))
                  (λ persists.
                    bind-IsQuiet (assembled app app.engine who.0 messages (get who.1 "tools")) _
                      (assembled-IsQuiet app.engine who.0 messages (get who.1 "tools"))
                      (λ out. still)))))
