-- ===== src/Validation/Calls.antt =====
-- The tool calls that pass the checks of a request, and what the token counter does with them.
use Prim.{absurd}
use mathlib.Core.Path.{subst}
use low_context_inference.Base.{
  ℕ, suc, ◌+◌, ◌≡◌, ◌⊎◌, inl, inr, refl, Bool, true, false, ◌||◌, Option, none, some, String, ◌<>◌,
  List, [], ◌∷◌, str_eq, arith, Bool-cases, if◌then◌else◌,
}
use low_context_inference.Json.{
  Value, null, bool, int, str, arr, obj, Items, nil, cons, Fields, get, lookup, is_text, truthy,
}
use low_context_inference.Runtime.{Runtime}
use low_context_inference.Store.{or_empty, or_no_dicts, dicts}
use low_context_inference.Tokens.{
  text, len, serialized, tool_call_tokens, tool_calls_tokens, add_if,
}
use low_context_inference.Validation.{
  Check, accepted, rejected, and_then, require, is_str, is_dict, is_none, is_name, is_opaque,
  dict_or_empty, items_of, container_of, argument_key, check_container, check_chosen, check_call,
  check_each, check_calls,
}

abbrev pub HasEstimate : Option ℕ → Type 0
HasEstimate a = (n : ℕ) × (a ≡ some n)

-- both checks passed
pub and_then-accepted : (a b : Check) → and_then a b ≡ accepted → (a ≡ accepted) × (b ≡ accepted)
unfolding and_then
and_then-accepted accepted b h = (refl, h)
and_then-accepted (rejected e) b h = ground arith

pub require-accepted : (b : Bool) (e : String) → require b e ≡ accepted → b ≡ true
unfolding require
require-accepted true e h = refl
require-accepted false e h = ground arith

pub text_counted : (s : String) → HasEstimate (text (str s))
unfolding text len truthy
text_counted s = elim (Bool-cases (str_eq s "")) [
  | inl e ↦ rw (text, e) (0, refl)
  | inr e ↦ rw (text, e) (_, refl)
]

name_counted : (v : Value) → is_name v ≡ true → HasEstimate (text v)
name_counted (str s) h = text_counted s
name_counted null h = ground arith
name_counted (int i) h = ground arith
name_counted (bool b) h = ground arith
name_counted (obj d) h = ground arith
name_counted (arr xs) h = ground arith

abbrev pub is_optional_text : Value → Bool
is_optional_text v = is_none v || is_str v

module _ (py : Runtime) where
  given_counted : (v : Value) → is_optional_text v ≡ true → HasEstimate (serialized py v)
  unfolding serialized
  given_counted (str s) h = text_counted s
  given_counted null h = (0, refl)
  given_counted (int i) h = ground arith
  given_counted (bool b) h = ground arith
  given_counted (obj d) h = ground arith
  given_counted (arr xs) h = ground arith

  pub add_if_counted :
      (v : Value) (tokens : ℕ)
      → is_optional_text v ≡ true
      → HasEstimate (add_if (truthy v) v tokens)
  unfolding add_if truthy
  add_if_counted null tokens h = (tokens, refl)
  add_if_counted (str s) tokens h = elim (Bool-cases (str_eq s "")) [
    | inl e ↦ rw (add_if, e) (tokens, refl)
    | inr e ↦ rw (add_if, e) (_, refl)
  ]
  add_if_counted (int i) tokens h = ground arith
  add_if_counted (bool b) tokens h = ground arith
  add_if_counted (obj d) tokens h = ground arith
  add_if_counted (arr xs) tokens h = ground arith

  -- The counter reads what the validation checks: a call has no `function`, or it is not of a type
  -- whose `function` goes unchecked.
  abbrev pub IsCountable : Fields → Type 0
  IsCountable call =
      (get call "function" ≡ null)
      ⊎ ((is_opaque (get call "type") ≡ false) × (is_text (get call "type") "custom" ≡ false))

  container_counted :
      (place : String) (v : Value)
      → check_container place v "function" ≡ accepted
      → (d : Fields) × (v ≡ obj d)
        × (is_name (get d "name") ≡ true)
        × (is_optional_text (get d "arguments") ≡ true)
  unfolding check_container argument_key
  container_counted place v h =
      let (a, rest) = and_then-accepted _ _ h in
      let (b, c) = and_then-accepted _ _ rest in
      go v (require-accepted _ _ a) (require-accepted _ _ b) (require-accepted _ _ c)
    where
      go :
          (w : Value)
          → is_dict w ≡ true
          → is_name (get (dict_or_empty w) "name") ≡ true
          → is_optional_text (get (dict_or_empty w) "arguments") ≡ true
          → (d : Fields) × (w ≡ obj d)
            × (is_name (get d "name") ≡ true)
            × (is_optional_text (get d "arguments") ≡ true)
      go (obj d) p q r = (d, refl, q, r)
      go null p q r = ground arith
      go (str s) p q r = ground arith
      go (int s) p q r = ground arith
      go (bool s) p q r = ground arith
      go (arr s) p q r = ground arith

  no_function_counted :
      (call : Fields) → get call "function" ≡ null → HasEstimate (tool_call_tokens py call)
  unfolding tool_call_tokens or_empty truthy get lookup text serialized
  no_function_counted call h = rw (tool_call_tokens, h) (_, refl)

  function_counted :
      (call d : Fields)
      → get call "function" ≡ obj d
      → is_name (get d "name") ≡ true
      → is_optional_text (get d "arguments") ≡ true
      → HasEstimate (tool_call_tokens py call)
  unfolding tool_call_tokens or_empty
  function_counted call d h name given =
      let (n, p) = name_counted (get d "name") name in
      let (k, q) = given_counted (get d "arguments") given in
      rw (tool_call_tokens, h, p, q) (_, refl)

  -- the container that is checked is `function`, or there is none
  function_chosen :
      (call : Fields) (c : Option (Value × String))
      → is_text (get call "type") "custom" ≡ false
      → (get call "function" ≡ null) ⊎ (container_of call ≡ some (get call "function", "function"))
  unfolding container_of get
  function_chosen call c h = elim (Bool-cases (is_text (get call "type") "function")) [
    | inl e ↦ inr (rw (container_of, h, e) refl)
    | inr e ↦ go (lookup "function" call) refl
  ]
    where
      go :
          (o : Option Value)
          → lookup "function" call ≡ o
          → (get call "function" ≡ null)
            ⊎ (container_of call ≡ some (get call "function", "function"))
      go none p = inl (rw (get, p) refl)
      go (some v) p = ground (arith, container_of, get, is_text)

  last_check :
      (place : String) (call : Fields)
      → check_call place (obj call) ≡ accepted
      → (if is_opaque (get call "type") then accepted else check_chosen place (container_of call))
        ≡ accepted
  unfolding check_call
  last_check place call h =
      (and_then-accepted
        (require (is_none (get call "id") || is_str (get call "id"))
          (place <> ".id must be a string when present"))
        _ (and_then-accepted (require true (place <> " must be an object")) _ h).1).1

  call_counted :
      (place : String) (call : Fields)
      → check_call place (obj call) ≡ accepted
      → IsCountable call
      → HasEstimate (tool_call_tokens py call)
  unfolding check_call check_chosen
  call_counted place call h (inl e) = no_function_counted call e
  call_counted place call h (inr (known, plain)) = elim (function_chosen call none plain) [
    | inl e ↦ no_function_counted call e
    | inr e ↦ chosen (last_check place call h) e
  ]
    where
      chosen :
          (if is_opaque (get call "type") then accepted else check_chosen place (container_of call))
            ≡ accepted
          → container_of call ≡ some (get call "function", "function")
          → HasEstimate (tool_call_tokens py call)
      chosen p e =
          let (d, q, name, given) = container_counted place (get call "function") (
            subst (λ c. check_chosen place c ≡ accepted) e
              (subst
                (λ b. (if b then accepted else check_chosen place (container_of call)) ≡ accepted)
                known p)) in
          function_counted call d q name given

  abbrev pub AllCountable : Items → Type 0
  AllCountable nil = Unit
  AllCountable (cons (obj call) xs) = IsCountable call × AllCountable xs
  AllCountable (cons _ xs) = AllCountable xs

  -- What the counter takes besides what the validation checks.
  abbrev pub IsPlain : Fields → Type 0
  IsPlain m =
      (is_optional_text (get m "name") ≡ true)
      × (is_optional_text (get m "tool_call_id") ≡ true)
      × AllCountable (items_of (get m "tool_calls"))

  abbrev CallsEstimate : Items → Type 0
  CallsEstimate xs =
      (calls : List Fields) × (dicts xs ≡ some calls) × HasEstimate (tool_calls_tokens py calls)

  not_dict : (place : String) (v : Value) → is_dict v ≡ false → check_call place v ≡ accepted → ⊥
  unfolding check_call
  not_dict place v p h = ground (
    arith,
    p,
    require-accepted (is_dict v) (place <> " must be an object") (and_then-accepted _ _ h).0,
  )

  module _ (digits : ℕ → String) where
    calls_counted :
        (place : String) (i : ℕ) (xs : Items)
        → check_each digits check_call place i xs ≡ accepted
        → AllCountable xs
        → CallsEstimate xs
    unfolding check_each dicts tool_calls_tokens
    calls_counted place i nil h p = ([], refl, (0, refl))
    calls_counted place i (cons (obj d) xs) h p =
        let (first, rest) = and_then-accepted _ _ h in
        let (n, a) = call_counted (place <> "[" <> digits i <> "]") d first p.0 in
        let (calls, b, (k, c)) = calls_counted place (suc i) xs rest p.1 in
        (d ∷ calls, rw (dicts, b) refl, (n + k, rw (tool_calls_tokens, a, c) refl))
    calls_counted place i (cons null xs) h p =
        absurd (not_dict _ _ refl (and_then-accepted _ _ h).0)
    calls_counted place i (cons (str s) xs) h p =
        absurd (not_dict _ _ refl (and_then-accepted _ _ h).0)
    calls_counted place i (cons (int s) xs) h p =
        absurd (not_dict _ _ refl (and_then-accepted _ _ h).0)
    calls_counted place i (cons (bool s) xs) h p =
        absurd (not_dict _ _ refl (and_then-accepted _ _ h).0)
    calls_counted place i (cons (arr s) xs) h p =
        absurd (not_dict _ _ refl (and_then-accepted _ _ h).0)

    pub tools_counted :
        (place : String) (v : Value)
        → check_calls digits place v ≡ accepted
        → AllCountable (items_of v)
        → (calls : List Fields) × (or_no_dicts v ≡ some calls)
          × HasEstimate (tool_calls_tokens py calls)
    unfolding check_calls or_no_dicts truthy tool_calls_tokens
    tools_counted place (arr xs) h p =
        calls_counted place 0 xs
          (and_then-accepted (require true (place <> ".tool_calls must be an array when present")) _
            h).1
          p
    tools_counted place null h p = ([], refl, (0, refl))
    tools_counted place (str s) h p = ground (arith, and_then, require)
    tools_counted place (int s) h p = ground (arith, and_then, require)
    tools_counted place (bool s) h p = ground (arith, and_then, require)
    tools_counted place (obj s) h p = ground (arith, and_then, require)
