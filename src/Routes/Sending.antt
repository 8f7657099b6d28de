-- ===== src/Routes/Sending.antt =====
-- What a request to `chat_completions` of src/context_proxy/api/routes.py sends to the provider.
use low_context_inference.Base.{
  ℕ, ◌≡◌, refl, sym, ap, ◌∙◌, ◌⊎◌, inl, inr, ◌&&◌, Option, none, some, String, List, [], ◌∷◌, ◌++◌,
  append-nil, map, leb, ltb, if◌then◌else◌, Bool-cases,
}
use low_context_inference.Json.{Value, null, bool, int, str, arr, obj, Fields, get, is_true}
use low_context_inference.Provider.Client.{
  Reply, reply, upstream_http_error, upstream_unavailable, reraised, Response,
}
use low_context_inference.Routes.{
  Persisted, done, divergence, unavailable, broken, Store, MemoryService, Run, Step, goes_on,
  refuses, raises, Act, after, return,
}
use low_context_inference.Routes.Chat.{App, Request, Prepared, read_answer, prepared}
use low_context_inference.Routes.Inference.{
  Chat, answers, index_with, settled, given_to, kept_in, persist_assistant, persist_read,
  persist_response, answer_of, with_conversation, completed, opened, inferred, chat_completions,
}
use low_context_inference.Routes.Refusals.{QuietFrom, prepared-IsQuiet}

abbrev pub IsNoRefusal : {A : Type 0} → Step A → Type 0
IsNoRefusal (refuses answer) = ⊥
IsNoRefusal _ = Unit

module _ {W : Type 0} where
  -- nothing more is sent, exactly the usages `us` are recorded, and nobody is refused
  abbrev pub LateFrom : {A : Type 0} → Run W → List Value → Run W × Step A → Type 0
  LateFrom r us x = (x.0.sent ≡ r.sent) × (x.0.recorded ≡ r.recorded ++ us) × IsNoRefusal x.1

  abbrev pub IsLate : {A : Type 0} → List Value → Act W A → Type 0
  IsLate us act = (r : Run W) → LateFrom r us (act r)

  idle : (r : Run W) → (r.sent ≡ r.sent) × (r.recorded ≡ r.recorded ++ []) × Unit {0}
  idle r = (refl, sym (append-nil r.recorded), tt)

  after-LateFrom :
      {A B : Type 0} (r : Run W) (us : List Value) (x : Run W × Step A) (b : B)
      → LateFrom r us x
      → LateFrom r us (after x (λ a. return b))
  after-LateFrom r us (r', goes_on a) b h = h
  after-LateFrom r us (r', refuses answer) b (s, c, n) = elim n [ ]
  after-LateFrom r us (r', raises) b h = h

module _ {W Item : Type 0} (app : App W Item) where
  index_with-IsLate :
      (memory : Option (MemoryService W Item)) (c : String) → IsLate [] (index_with app memory c)
  index_with-IsLate none c r = idle r
  index_with-IsLate (some memory) c r = elim (Bool-cases app.auto_index) [
    | inl e ↦ rw e (idle r)
    | inr e ↦ rw e (idle r)
  ]

  settled-IsLate : (c : String) (p : Persisted) → IsLate [] (settled app c p)
  settled-IsLate c done = index_with-IsLate app.memory c
  settled-IsLate c (divergence text) = idle
  settled-IsLate c unavailable = idle
  settled-IsLate c broken = idle

  given_to-IsLate :
      (store : Store W) (context : Prepared) (metadata : Fields) (history : List Value)
      → IsLate [] (given_to app store context metadata history)
  given_to-IsLate store context metadata history r =
      settled-IsLate context.conversation_id
        (store.reconcile_history context.conversation_id metadata history r.world).1
        (record r {
          world = (store.reconcile_history context.conversation_id metadata history r.world).0;
          kept = r.kept ++ history ∷ [];
        })

  kept_in-IsLate :
      (store : Option (Store W)) (context : Prepared) (message : Value) (metadata : Fields)
      → IsLate [] (kept_in app store context message metadata)
  kept_in-IsLate none context message metadata = idle
  kept_in-IsLate (some store) context null metadata = idle
  kept_in-IsLate (some store) context (str s) metadata =
      given_to-IsLate store context metadata (map obj context.messages ++ str s ∷ [])
  kept_in-IsLate (some store) context (int s) metadata =
      given_to-IsLate store context metadata (map obj context.messages ++ int s ∷ [])
  kept_in-IsLate (some store) context (bool s) metadata =
      given_to-IsLate store context metadata (map obj context.messages ++ bool s ∷ [])
  kept_in-IsLate (some store) context (obj s) metadata =
      given_to-IsLate store context metadata (map obj context.messages ++ obj s ∷ [])
  kept_in-IsLate (some store) context (arr s) metadata =
      given_to-IsLate store context metadata (map obj context.messages ++ arr s ∷ [])

  pub persist_assistant-IsLate :
      (context : Prepared) (message : Value) (metadata : Fields)
      → IsLate (get metadata "usage" ∷ []) (persist_assistant app context message metadata)
  unfolding persist_assistant
  persist_assistant-IsLate context message metadata r =
      let usage = get metadata "usage" in
      let (s, c, n) =
        kept_in-IsLate (if context.persists then app.store else none) context message metadata
          (record r { recorded = r.recorded ++ usage ∷ [] }) in
      (s, c ∙ append-nil (r.recorded ++ usage ∷ []), n)

  -- the usages that an answer of a status is recorded with
  abbrev pub usage_read : Option (Value × Fields) → List Value
  usage_read none = []
  usage_read (some (message, metadata)) = get metadata "usage" ∷ []

  abbrev pub usages : Reply (ℕ × List (String × String) × List ℕ) → List Value
  usages (reply (status, headers, content)) =
      if leb 200 status && ltb status 300 then usage_read (read_answer (app.loads content)) else []
  usages _ = []

  persist_read-IsLate :
      (context : Prepared) (o : Option (Value × Fields))
      → IsLate (usage_read o) (persist_read app context o)
  persist_read-IsLate context none = idle
  persist_read-IsLate context (some (message, metadata)) =
      persist_assistant-IsLate context message metadata

  persist_response-IsLate :
      (context : Prepared) (status : ℕ) (headers : List (String × String)) (content : List ℕ)
      → IsLate
          (usages (reply (status, headers, content)))
          (persist_response app context status content)
  unfolding persist_response
  persist_response-IsLate context status headers content r =
      elim (Bool-cases (leb 200 status && ltb status 300)) [
        | inl e ↦ rw e (persist_read-IsLate context (read_answer (app.loads content)) r)
        | inr e ↦ rw e (idle r)
      ]

  completed-IsLate :
      (context : Prepared) (o : Reply (ℕ × List (String × String) × List ℕ))
      → IsLate (usages o) (completed app context o)
  unfolding completed
  completed-IsLate context (reply (status, headers, content)) r =
      let answer = answer_of app status headers content in
      after-LateFrom r (usages (reply (status, headers, content)))
        (persist_response app context status content r)
        (answers (record answer { headers = with_conversation app context answer.headers }))
        (persist_response-IsLate context status headers content r)
  completed-IsLate context reraised r = idle r
  completed-IsLate context (upstream_http_error s b t h) r = idle r
  completed-IsLate context (upstream_unavailable reason) r = idle r

  opened-IsLate : (context : Prepared) (o : Reply Response) → IsLate [] (opened app context o)
  unfolding opened
  opened-IsLate context (reply response) r = idle r
  opened-IsLate context reraised r = idle r
  opened-IsLate context (upstream_http_error s b t h) r = idle r
  opened-IsLate context (upstream_unavailable reason) r = idle r

  -- the usages that inference records before its answer
  abbrev pub recorded_by : Prepared → Run W → List Value
  recorded_by context r =
      if is_true (get context.payload "stream")
      then []
      else usages (app.llm.complete context.out_payload r.world).1

  pub inferred-sends :
      (context : Prepared) (r : Run W)
      → let x = inferred app context r in
        (x.0.sent ≡ r.sent ++ context.out_payload ∷ [])
        × (x.0.recorded ≡ r.recorded ++ recorded_by context r)
        × IsNoRefusal x.1
  unfolding inferred
  inferred-sends context r = elim (Bool-cases (is_true (get context.payload "stream"))) [
    | inl e ↦ rw e (
        opened-IsLate context (app.llm.open_stream context.out_payload r.world).1 (record r {
          world = (app.llm.open_stream context.out_payload r.world).0;
          sent = r.sent ++ context.out_payload ∷ [];
        }))
    | inr e ↦ rw e (
        completed-IsLate context (app.llm.complete context.out_payload r.world).1 (record r {
          world = (app.llm.complete context.out_payload r.world).0;
          sent = r.sent ++ context.out_payload ∷ [];
        }))
  ]

  -- what a request does, by how it ends
  abbrev pub Sends : Request → Run W → Run W × Step Chat → Type 0
  Sends request r (r', goes_on chat) =
      (context : Prepared) × ((prepared app request r).1 ≡ goes_on context)
      × (r'.sent ≡ r.sent ++ context.out_payload ∷ [])
  Sends request r (r', refuses answer) =
      (r'.sent ≡ r.sent)
      × (r'.recorded ≡ r.recorded)
      × (r'.kept ≡ r.kept)
      × ((answer.status_code ≡ 400) ⊎ (answer.status_code ≡ 409))
  Sends request r (r', raises) =
      (r'.sent ≡ r.sent)
      ⊎ ((context : Prepared) × ((prepared app request r).1 ≡ goes_on context)
          × (r'.sent ≡ r.sent ++ context.out_payload ∷ []))

  inferred-Sends :
      (request : Request) (r r' : Run W) (context : Prepared) (y : Run W × Step Chat)
      → (prepared app request r).1 ≡ goes_on context
      → r'.sent ≡ r.sent
      → (y.0.sent ≡ r'.sent ++ context.out_payload ∷ [])
        × (y.0.recorded ≡ r'.recorded ++ recorded_by context r')
        × IsNoRefusal y.1
      → Sends request r y
  inferred-Sends request r r' context (z, goes_on chat) e s (f, g, n) =
      (context, e, f ∙ ap (λ xs. xs ++ context.out_payload ∷ []) s)
  inferred-Sends request r r' context (z, refuses answer) e s (f, g, n) = elim n [ ]
  inferred-Sends request r r' context (z, raises) e s (f, g, n) =
      inr (context, e, f ∙ ap (λ xs. xs ++ context.out_payload ∷ []) s)

  after-Sends :
      (request : Request) (r : Run W) (x : Run W × Step Prepared)
      → (prepared app request r).1 ≡ x.1
      → QuietFrom r x
      → Sends request r (after x (inferred app))
  after-Sends request r (r', goes_on context) e (s, c, k, f) =
      inferred-Sends request r r' context (inferred app context r') e s (inferred-sends context r')
  after-Sends request r (r', refuses answer) e q = q
  after-Sends request r (r', raises) e (s, c, k, f) = inl s

  -- A request that is answered without a refusal called the provider once, with the payload that was
  -- prepared for it. A request that is refused, for its body, its identity, its history or its length,
  -- gets a 400 or a 409; it never reached the provider, no tokens were recorded for it, and no answer
  -- was given to the store. An exception that nobody catches comes after at most one call of the
  -- provider, with that payload.
  pub chat_completions-Sends :
      (request : Request) (r : Run W) → Sends request r (chat_completions app request r)
  unfolding chat_completions
  chat_completions-Sends request r =
      after-Sends request r (prepared app request r) refl (prepared-IsQuiet app request r)
