-- ===== src/Routes/Stripping.antt =====
-- What of a request's identity reaches the provider through src/context_proxy/api/routes.py.
use mathlib.Core.Path.{subst}
use low_context_inference.Base.{
  ◌≡◌, sym, ◌∙◌, inl, inr, Option, none, some, String, List, [], ◌∷◌, ◌++◌, map, All,
}
use low_context_inference.Json.{Value, obj, arr, Fields, get, lookup, of_list}
use low_context_inference.Json.Equality.{IsJson, IsDict}
use low_context_inference.Json.Dicts.{lookup-put}
use low_context_inference.Store.{or_no_dicts}
use low_context_inference.Validation.{Check, accepted, rejected, validate_chat_payload}
use low_context_inference.Identity.{
  Resolved, resolved, invalid, resolve_conversation_id, HasNoId, resolve_conversation_id_strips,
}
use low_context_inference.Routes.{Run, Step, goes_on, refuses, raises, Act, after, with_messages}
use low_context_inference.Routes.Chat.{
  App, Request, Prepared, validated, parsed, checked_body, identified_as, identified,
  persist_inbound, assembled, all_dicts, prepared,
}
use low_context_inference.Routes.Inference.{Chat, chat_completions}
use low_context_inference.Routes.Sending.{Sends, chat_completions-Sends}

module _ {W : Type 0} where
  -- what goes on has the property
  abbrev Yields : {A : Type 0} → (A → Type 0) → Run W × Step A → Type 0
  Yields P (r, goes_on a) = P a
  Yields P (r, _) = Unit

  after-Yields :
      {A B : Type 0} (P : A → Type 0) (Q : B → Type 0) (x : Run W × Step A) (next : A → Act W B)
      → Yields P x
      → ((a : A) → P a → (r : Run W) → Yields Q (next a r))
      → Yields Q (after x next)
  after-Yields P Q (r, goes_on a) next h q = q a h r
  after-Yields P Q (r, refuses answer) next h q = tt
  after-Yields P Q (r, raises) next h q = tt

  -- whatever goes on
  after-Yields_any :
      {A B : Type 0} (Q : B → Type 0) (x : Run W × Step A) (next : A → Act W B)
      → ((a : A) → (r : Run W) → Yields Q (next a r))
      → Yields Q (after x next)
  after-Yields_any Q (r, goes_on a) next q = q a r
  after-Yields_any Q (r, refuses answer) next q = tt
  after-Yields_any Q (r, raises) next q = tt

  of_yielded :
      {A : Type 0} (P : A → Type 0) (x : Run W × Step A) (a : A)
      → Yields P x
      → x.1 ≡ goes_on a
      → P a
  of_yielded P (r, goes_on b) a h e = let same : b ≡ a = cc in subst P same h
  of_yielded P (r, refuses answer) a h e = absurd (cc)
  of_yielded P (r, raises) a h e = absurd (cc)

All-append :
    {A : Type 0} (P : A → Type 0) (xs : List A) (x : A) → All P xs → P x → All P (xs ++ x ∷ [])
All-append P [] x a h = (h, tt)
All-append P (y ∷ xs) x (b, a) h = (b, All-append P xs x a h)

-- no key twice in the body
abbrev pub IsWellFormed : Option Value → Type 0
IsWellFormed none = Unit
IsWellFormed (some body) = IsJson body

abbrev pub IsAnonymous : Fields → Type 0
IsAnonymous payload = lookup "conversation_id" payload ≡ none

with_messages-IsAnonymous :
    (payload : Fields) (messages : List Fields)
    → IsAnonymous payload
    → IsAnonymous (with_messages payload messages)
with_messages-IsAnonymous payload messages h =
    lookup-put "messages" "conversation_id" (arr (of_list (map obj messages))) payload ∙ h

module _ {W Item : Type 0} (app : App W Item) where
  validated-Yields :
      (payload : Fields) (check : Check) (r : Run W)
      → IsDict payload
      → Yields IsDict (validated app payload check r)
  validated-Yields payload accepted r d = d
  validated-Yields payload (rejected text) r d = tt

  checked_body-Yields :
      (body : Option Value) (r : Run W)
      → IsWellFormed body
      → Yields IsDict (checked_body app body r)
  unfolding checked_body parsed
  checked_body-Yields none r d = tt
  checked_body-Yields (some (obj payload)) r d =
      validated-Yields payload (validate_chat_payload app.digits (obj payload)) r d
  checked_body-Yields (some _) r d = tt

  identified-Yields :
      (request : Request) (payload : Fields) (r : Run W)
      → IsDict payload
      → Yields (λ who. IsAnonymous who.1) (identified app request payload r)
  unfolding identified
  identified-Yields request payload r d =
      cases
        (resolve_conversation_id app.uuids app.max_chars request.headers app.client_id_header
          request.fresh payload)
        (resolve_conversation_id_strips app.uuids app.max_chars request.headers app.client_id_header
          request.fresh payload d)
    where
      cases :
          (o : Resolved)
          → HasNoId app.uuids app.max_chars o
          → Yields (λ (who : String × Fields). IsAnonymous who.1) (identified_as app payload o r)
      cases (resolved c sanitized) h = h
      cases invalid h = tt

  prepared-Yields :
      (request : Request) (r : Run W)
      → IsWellFormed request.body
      → Yields (λ context. IsAnonymous context.out_payload) (prepared app request r)
  unfolding prepared
  prepared-Yields request r d =
      after-Yields IsDict _ (checked_body app request.body r) _
        (checked_body-Yields request.body r d)
        (λ payload h r1.
          after-Yields (λ who. IsAnonymous who.1) _ (identified app request payload r1) _
            (identified-Yields request payload r1 h)
            (λ who free r2.
              after-Yields_any _ (all_dicts app (or_no_dicts (get who.1 "messages")) r2) _ (λ ms r3.
                after-Yields_any _ (persist_inbound app app.store who.0 (map obj ms) r3) _ (λ on r4.
                  after-Yields_any _ (assembled app app.engine who.0 ms (get who.1 "tools") r4) _
                    (λ out r5. with_messages-IsAnonymous who.1 out free)))))

  sent-IsAnonymous :
      (request : Request) (r r' : Run W) (context : Prepared)
      → IsWellFormed request.body
      → All IsAnonymous r.sent
      → (prepared app request r).1 ≡ goes_on context
      → r'.sent ≡ r.sent ++ context.out_payload ∷ []
      → All IsAnonymous r'.sent
  sent-IsAnonymous request r r' context d before e s = subst (All IsAnonymous) (sym s) (
      All-append IsAnonymous r.sent context.out_payload before (
        of_yielded (λ c. IsAnonymous c.out_payload) (prepared app request r) context
          (prepared-Yields request r d) e))

  Sends-IsAnonymous :
      (request : Request) (r : Run W) (y : Run W × Step Chat)
      → IsWellFormed request.body
      → All IsAnonymous r.sent
      → Sends app request r y
      → All IsAnonymous y.0.sent
  Sends-IsAnonymous request r (r', goes_on chat) d before (context, e, s) =
      sent-IsAnonymous request r r' context d before e s
  Sends-IsAnonymous request r (r', refuses answer) d before h =
      subst (All IsAnonymous) (sym h.0) before
  Sends-IsAnonymous request r (r', raises) d before (inl s) = subst (All IsAnonymous) (sym s) before
  Sends-IsAnonymous request r (r', raises) d before (inr (context, e, s)) =
      sent-IsAnonymous request r r' context d before e s

  -- Whatever a request names as its conversation, in the body or in a header, and however the request
  -- ends: the payloads that the provider gets have no `conversation_id`, if no key stands twice in the
  -- body.
  pub chat_completions-IsAnonymous :
      (request : Request) (r : Run W)
      → IsWellFormed request.body
      → All IsAnonymous r.sent
      → All IsAnonymous (chat_completions app request r).0.sent
  chat_completions-IsAnonymous request r d before =
      Sends-IsAnonymous request r (chat_completions app request r) d before
        (chat_completions-Sends app request r)
