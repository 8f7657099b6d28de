-- ===== src/Identity.antt =====
-- src/context_proxy/conversation/identity.py. The functions of `uuid` and `str`, and the request's
-- headers, are parameters.
use Prim.Native.String.{count}
use low_context_inference.Base.{
  ℕ, ◌≡◌, refl, true, ◌||◌, Option, none, some, String, str_eq, eq_iff, ltb, if◌then◌else◌, arith,
  Bool-cases, inl, inr,
}
use low_context_inference.Json.{
  Value, null, str, int, bool, arr, obj, Fields, end, field, get, lookup, pop, truthy,
}
use low_context_inference.Json.Equality.{IsDict}

pub record Uuids : Type 0 where
  -- `str(uuid.UUID(raw))`; `none` is a `ValueError`
  pub canonical : String → Option String
  -- `str(uuid.uuid5(_SESSION_NAMESPACE, token))`
  pub of_session : String → String
  -- `token.strip()` and `header.lower()`
  pub strip : String → String
  pub lower : String → String

pub data Resolved : Type 0 where
  resolved : (conversation_id : String) (payload : Fields) → Resolved
  -- `InvalidConversationId`
  invalid : Resolved

module _ (uuids : Uuids) (max_chars : ℕ) where
  abbrev pub canonical_or_invalid : Option String → Fields → Resolved
  canonical_or_invalid none payload = invalid
  canonical_or_invalid (some name) payload = resolved name payload

  unfoldable pub validated_explicit_id : Value → Fields → Resolved
  validated_explicit_id (str raw) payload =
      if str_eq raw "" || ltb max_chars (count raw)
      then invalid
      else canonical_or_invalid (uuids.canonical raw) payload
  validated_explicit_id _ payload = invalid

  unfoldable pub session_conversation_id : String → Fields → Resolved
  session_conversation_id given payload =
      let token = uuids.strip given in
      if str_eq token "" || ltb max_chars (count token)
      then invalid
      else resolved (uuids.of_session token) payload

  -- `headers.get(name)`
  abbrev pub header_value : Option String → Value
  header_value none = null
  header_value (some text) = str text

  -- the session token, if a header is configured and given, and it is not empty
  abbrev pub given_token : Option String → (String → Option String) → Option String
  given_token none headers = none
  given_token (some header) headers =
      if str_eq header "" then none else headers (uuids.lower header)

  abbrev pub by_session : Option String → String → Fields → Resolved
  by_session none fresh payload = resolved fresh payload
  by_session (some token) fresh payload =
      if str_eq token "" then resolved fresh payload else session_conversation_id token payload

  abbrev pub by_raw : Value → Resolved → Fields → Resolved
  by_raw null other payload = other
  by_raw raw other payload = validated_explicit_id raw payload

  -- `fresh` is `str(uuid.uuid4())`, `client_header` the setting `client_id_header`
  unfoldable pub resolve_conversation_id :
      (String → Option String) → Option String → String → Fields → Resolved
  unfolding validated_explicit_id session_conversation_id get lookup pop truthy
  resolve_conversation_id headers client_header fresh payload =
      let raw = get payload "conversation_id" in
      let given = if truthy raw then raw else header_value (headers "x-conversation-id") in
      let sanitized = pop "conversation_id" payload in
      by_raw given (by_session (given_token client_header headers) fresh sanitized) sanitized

  abbrev pub HasNoId : Resolved → Type 0
  HasNoId (resolved name payload) = lookup "conversation_id" payload ≡ none
  HasNoId invalid = Unit

  lookup-pop : (k : String) (d : Fields) → IsDict d → lookup k (pop k d) ≡ none
  unfolding lookup pop
  lookup-pop k end h = refl
  lookup-pop k (field j v d) h = ground (arith, eq_iff j k, lookup-pop k d)

  -- Whichever identity is taken, the payload that is forwarded has no `conversation_id` left.
  pub resolve_conversation_id_strips :
      (headers : String → Option String) (client_header : Option String) (fresh : String)
      (payload : Fields)
      → IsDict payload
      → HasNoId (resolve_conversation_id headers client_header fresh payload)
  unfolding resolve_conversation_id validated_explicit_id session_conversation_id
  resolve_conversation_id_strips headers client_header fresh payload d =
      raw
        (if truthy (get payload "conversation_id")
          then get payload "conversation_id"
          else header_value (headers "x-conversation-id"))
        (by (given_token client_header headers))
    where
      sanitized : Fields
      sanitized = pop "conversation_id" payload

      free : lookup "conversation_id" sanitized ≡ none
      free = lookup-pop "conversation_id" payload d

      canonical : (o : Option String) → HasNoId (canonical_or_invalid o sanitized)
      canonical none = tt
      canonical (some name) = free

      explicit : (v : Value) → HasNoId (validated_explicit_id v sanitized)
      explicit (str s) = elim (Bool-cases (str_eq s "" || ltb max_chars (count s))) [
        | inl e ↦ rw e tt
        | inr e ↦ rw e (canonical (uuids.canonical s))
      ]
      explicit null = tt
      explicit (int i) = tt
      explicit (bool i) = tt
      explicit (arr i) = tt
      explicit (obj i) = tt

      by : (o : Option String) → HasNoId (by_session o fresh sanitized)
      by none = free
      by (some t) = elim (Bool-cases (str_eq t "")) [
        | inl e ↦ rw e free
        | inr e ↦
            rw e
              (elim (Bool-cases
                (str_eq (uuids.strip t) "" || ltb max_chars (count (uuids.strip t)))) [
                  | inl f ↦ rw f tt
                  | inr f ↦ rw f free
                ])
      ]

      raw :
          (v : Value)
          → HasNoId (by_session (given_token client_header headers) fresh sanitized)
          → HasNoId
              (by_raw v (by_session (given_token client_header headers) fresh sanitized) sanitized)
      raw null h = h
      raw (str s) h = explicit (str s)
      raw (int s) h = tt
      raw (bool s) h = tt
      raw (arr s) h = tt
      raw (obj s) h = tt

  -- A `conversation_id` in the body that is true in Python decides alone: the headers, the setting and
  -- the fresh identity do not matter.
  resolve_conversation_id_body :
      (headers headers' : String → Option String) (client_header client_header' : Option String)
      (fresh fresh' : String) (payload : Fields)
      → truthy (get payload "conversation_id") ≡ true
      → resolve_conversation_id headers client_header fresh payload
        ≡ resolve_conversation_id headers' client_header' fresh' payload
  unfolding resolve_conversation_id truthy
  resolve_conversation_id_body headers headers' client_header client_header' fresh fresh' payload
        h =
      rw (resolve_conversation_id, h)
        (same (get payload "conversation_id")
          (by_session (given_token client_header headers) fresh (pop "conversation_id" payload))
          (by_session (given_token client_header' headers') fresh' (pop "conversation_id" payload))
          (pop "conversation_id" payload) h)
    where
      same :
          (v : Value) (a b : Resolved) (p : Fields) → truthy v ≡ true → by_raw v a p ≡ by_raw v b p
      same null a b p h = ground arith
      same (str s) a b p h = refl
      same (int s) a b p h = refl
      same (bool s) a b p h = refl
      same (arr s) a b p h = refl
      same (obj s) a b p h = refl
