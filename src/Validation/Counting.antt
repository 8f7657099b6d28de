-- ===== src/Validation/Counting.antt =====
-- What the checks of a request give the token counter, which runs on its messages next.
use Prim.{absurd}
use mathlib.Core.Path.{subst}
use low_context_inference.Base.{
  ℕ, suc, ◌+◌, ◌≡◌, inl, inr, refl, true, false, Option, none, some, String, ◌<>◌, List, [], ◌∷◌,
  str_eq, arith, Bool-cases, if◌then◌else◌,
}
use low_context_inference.Json.{
  pos, Value, null, bool, int, str, arr, obj, Items, nil, cons, Fields, get, lookup, put, truthy,
}
use low_context_inference.Json.Dicts.{lookup-put}
use low_context_inference.Runtime.{Runtime}
use low_context_inference.Store.{◌>>=◌, or_no_dicts, dicts}
use low_context_inference.Tokens.{
  message_overhead_tokens, unknown_part_tokens, image_part_tokens, text, len, serialized, parts,
  part_tokens, tool_calls_tokens, message, messages, add_if,
}
use low_context_inference.Validation.{
  accepted, and_then, require, is_dict, is_name, check_each, check_content, check_calls,
  check_message, check_messages, validate_chat_payload,
}
use low_context_inference.Validation.Calls.{
  HasEstimate, and_then-accepted, require-accepted, text_counted, add_if_counted, IsPlain,
  tools_counted,
}

none_last {ℓ} :
    {A : Type ℓ} (a : Option A) (f : A → Option ℕ) → ((x : A) → f x ≡ none) → (a >>= f) ≡ none
none_last none f h = refl
none_last (some x) f h = h x

module _ (py : Runtime) where
  name_raises : (m : Fields) (k : ℕ) → get m "name" ≡ int (pos (suc k)) → message py m ≡ none
  unfolding message add_if truthy text len
  name_raises m k p = none_last (serialized py (get m "content")) _ (λ c.
      none_last (or_no_dicts (get m "tool_calls")) _ (λ calls.
        none_last (tool_calls_tokens py calls) _ (λ n.
          none_last
            (add_if (truthy (get m "tool_call_id")) (get m "tool_call_id")
              (message_overhead_tokens + c + n))
            _ (λ w. rw (p, add_if) (ground arith)))))

  part_counted : (v : Value) → HasEstimate (part_tokens v)
  unfolding part_tokens
  part_counted (obj d) = kind (get d "type")
    where
      body :
          (v : Value) → HasEstimate (elim v [ str s ↦ text (str s) | _ ↦ some unknown_part_tokens ])
      body (str s) = text_counted s
      body null = (_, refl)
      body (int i) = (_, refl)
      body (bool i) = (_, refl)
      body (arr i) = (_, refl)
      body (obj i) = (_, refl)

      kind :
          (v : Value)
          → HasEstimate (elim v [
            | str kind ↦
                if str_eq kind "text"
                then (elim (get d "text") [ str s ↦ text (str s) | _ ↦ some unknown_part_tokens ])
                else if str_eq kind "image_url"
                then some image_part_tokens
                else some unknown_part_tokens
            | _ ↦ some unknown_part_tokens
          ])
      kind (str s) = elim (Bool-cases (str_eq s "text")) [
        | inl e ↦ rw e (body (get d "text"))
        | inr e ↦ rw e (elim (Bool-cases (str_eq s "image_url")) [
          | inl f ↦ rw f (_, refl)
          | inr f ↦ rw f (_, refl)
        ])
      ]
      kind null = (_, refl)
      kind (int i) = (_, refl)
      kind (bool i) = (_, refl)
      kind (arr i) = (_, refl)
      kind (obj i) = (_, refl)
  part_counted null = (_, refl)
  part_counted (str s) = (_, refl)
  part_counted (int s) = (_, refl)
  part_counted (bool s) = (_, refl)
  part_counted (arr s) = (_, refl)

  parts_counted : (xs : Items) → HasEstimate (parts xs)
  unfolding parts
  parts_counted nil = (0, refl)
  parts_counted (cons v xs) =
      let (n, p) = part_counted v in let (k, q) = parts_counted xs in rw (parts, p, q) (n + k, refl)

  module _ (digits : ℕ → String) where
    content_counted :
        (place : String) (m : Fields)
        → check_content digits place (lookup "content" m) ≡ accepted
        → HasEstimate (serialized py (get m "content"))
    unfolding get check_content serialized
    content_counted place m h = go (lookup "content" m) h
      where
        go :
            (o : Option Value)
            → check_content digits place o ≡ accepted
            → HasEstimate (serialized py (elim o [ none ↦ null | some v ↦ v ]))
        go none h = (0, refl)
        go (some null) h = (0, refl)
        go (some (str s)) h = text_counted s
        go (some (arr xs)) h = parts_counted xs
        go (some (int i)) h = ground (arith, and_then, require)
        go (some (bool i)) h = ground (arith, and_then, require)
        go (some (obj i)) h = ground (arith, and_then, require)

    last_checks :
        (place : String) (m : Fields)
        → check_message digits place (obj m) ≡ accepted
        → and_then
            (check_content digits place (lookup "content" m))
            (check_calls digits place (get m "tool_calls"))
          ≡ accepted
    unfolding check_message
    last_checks place m h =
        (and_then-accepted
          (require (is_name (get m "role")) (place <> ".role must be a non-empty string")) _
          (and_then-accepted (require true (place <> " must be an object")) _ h).1).1

    message_counted :
        (place : String) (m : Fields)
        → check_message digits place (obj m) ≡ accepted
        → IsPlain py m
        → HasEstimate (message py m)
    unfolding check_message message
    message_counted place m h (name, id, countable) =
        let (a, rest) =
          and_then-accepted (check_content digits place (lookup "content" m))
            (check_calls digits place (get m "tool_calls")) (last_checks place m h) in
        let (c, p) = content_counted place m a in
        let (calls, q, (k, r)) =
          tools_counted py digits place (get m "tool_calls") rest countable in
        let (t, u) =
          add_if_counted py (get m "tool_call_id") (message_overhead_tokens + c + k) id in
        let (v, w) = add_if_counted py (get m "name") t name in (v, rw (message, p, q, r, u) w)

    abbrev pub AllPlain : Items → Type 0
    AllPlain nil = Unit
    AllPlain (cons (obj m) xs) = IsPlain py m × AllPlain xs
    AllPlain (cons _ xs) = AllPlain xs

    not_dict :
        (place : String) (v : Value)
        → is_dict v ≡ false
        → check_message digits place v ≡ accepted
        → ⊥
    unfolding check_message
    not_dict place v p h = ground (
      arith,
      p,
      require-accepted (is_dict v) (place <> " must be an object") (and_then-accepted _ _ h).0,
    )

    messages_counted :
        (place : String) (i : ℕ) (xs : Items)
        → check_each digits (check_message digits) place i xs ≡ accepted
        → AllPlain xs
        → (list : List Fields) × (dicts xs ≡ some list) × HasEstimate (messages py list)
    unfolding check_each dicts messages
    messages_counted place i nil h p = ([], refl, (0, refl))
    messages_counted place i (cons (obj d) xs) h p =
        let (first, rest) = and_then-accepted _ _ h in
        let (n, a) = message_counted (place <> "[" <> digits i <> "]") d first p.0 in
        let (list, b, (k, c)) = messages_counted place (suc i) xs rest p.1 in
        (d ∷ list, rw (dicts, b) refl, (n + k, rw (messages, a, c) refl))
    messages_counted place i (cons null xs) h p =
        absurd (not_dict _ _ refl (and_then-accepted _ _ h).0)
    messages_counted place i (cons (str s) xs) h p =
        absurd (not_dict _ _ refl (and_then-accepted _ _ h).0)
    messages_counted place i (cons (int s) xs) h p =
        absurd (not_dict _ _ refl (and_then-accepted _ _ h).0)
    messages_counted place i (cons (bool s) xs) h p =
        absurd (not_dict _ _ refl (and_then-accepted _ _ h).0)
    messages_counted place i (cons (arr s) xs) h p =
        absurd (not_dict _ _ refl (and_then-accepted _ _ h).0)

    messages_checked :
        (payload : Fields)
        → validate_chat_payload digits (obj payload) ≡ accepted
        → check_messages digits (get payload "messages") ≡ accepted
    unfolding validate_chat_payload
    messages_checked payload h =
        (and_then-accepted (check_messages digits (get payload "messages")) _
          (and_then-accepted (require true "request body must be a JSON object") _ h).1).0

    -- If a payload is accepted, its `messages` are dicts, and the counter gives them an estimate
    -- without an exception, provided that each `name` and `tool_call_id` is a text or null or absent
    -- and that a tool call with a `function` is not of an unknown type or a custom one.
    pub validate_chat_payload_counted :
        (payload : Fields) (xs : Items)
        → get payload "messages" ≡ arr xs
        → validate_chat_payload digits (obj payload) ≡ accepted
        → AllPlain xs
        → (list : List Fields) × (dicts xs ≡ some list) × ((n : ℕ) × (messages py list ≡ some n))
    unfolding check_messages dicts messages
    validate_chat_payload_counted payload nil e h p = ([], refl, (0, refl))
    validate_chat_payload_counted payload (cons x xs) e h p =
        messages_counted "messages" 0 (cons x xs)
          (subst (λ v. check_messages digits v ≡ accepted) e (messages_checked payload h)) p

    -- A message keeps the verdict of its checks when its `name` is set to a number that is not 0,
    -- and the counter raises an exception on it.
    pub numeric_name_raises :
        (place : String) (m : Fields) (k : ℕ)
        → (check_message digits place (obj (put "name" (int (pos (suc k))) m))
            ≡ check_message digits place (obj m))
          × (message py (put "name" (int (pos (suc k))) m) ≡ none)
    unfolding check_message message get add_if truthy text len
    numeric_name_raises place m k =
        let v = int (pos (suc k)) in
        (
          rw
              (
                check_message,
                get,
                lookup-put "name" "role" v m,
                lookup-put "name" "content" v m,
                lookup-put "name" "tool_calls" v m,
              )
              refl,
          name_raises (put "name" v m) k (rw (get, lookup-put "name" "name" v m) refl),
        )
