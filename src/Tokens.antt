-- ===== src/Tokens.antt =====
-- src/context_proxy/context/tokens.py. `none` is an exception of Python: `len` of a number, or
-- `.get` of what is no dict. `Counter` is the interface that the planner and the engine take.
pub mod Flat
use Prim.Native.String.{count}
use low_context_inference.Base.{
  ℕ, zero, suc, ◌+◌, ◌/◌, max, Bool, true, false, Option, none, some, String, List, [], ◌∷◌, str_eq,
  if◌then◌else◌, length,
}
use low_context_inference.Json.{
  Value, null, bool, int, str, arr, obj, Items, nil, cons, Fields, get, size, truthy, is_text,
}
use low_context_inference.Runtime.{Runtime}
use low_context_inference.Store.{◌>>=◌, or_empty, or_no_dicts}

abbrev pub chars_per_token : ℕ
chars_per_token = 4

abbrev pub message_overhead_tokens : ℕ
message_overhead_tokens = 4

abbrev pub tool_call_overhead_tokens : ℕ
tool_call_overhead_tokens = 8

abbrev pub tool_def_overhead_tokens : ℕ
tool_def_overhead_tokens = 8

abbrev pub image_part_tokens : ℕ
image_part_tokens = 1024

abbrev pub unknown_part_tokens : ℕ
unknown_part_tokens = 16

-- `max(1, math.ceil(n / CHARS_PER_TOKEN))` of a positive length
unfoldable pub tokens_of_length : ℕ → ℕ
tokens_of_length zero = 0
tokens_of_length (suc n) = max 1 ((suc n + 3) / chars_per_token)

unfoldable pub length_items : Items → ℕ
length_items nil = 0
length_items (cons v xs) = suc (length_items xs)

-- `len(value)`
unfoldable pub len : Value → Option ℕ
unfolding length_items size
len (str s) = some (count s)
len (arr xs) = some (length_items xs)
len (obj d) = some (size d)
len _ = none

unfoldable pub text : Value → Option ℕ
unfolding tokens_of_length len truthy
text value = if truthy value then (do n ← len value; some (tokens_of_length n)) else some 0

-- one round of the loop of `_parts`, with `_part_type`
unfoldable pub part_tokens : Value → Option ℕ
unfolding text
part_tokens (obj part) = elim (get part "type") [
  | str kind ↦
      if str_eq kind "text"
      then (elim (get part "text") [ str s ↦ text (str s) | _ ↦ some unknown_part_tokens ])
      else if str_eq kind "image_url"
      then some image_part_tokens
      else some unknown_part_tokens
  | _ ↦ some unknown_part_tokens
]
part_tokens _ = some unknown_part_tokens

unfoldable pub parts : Items → Option ℕ
unfolding part_tokens
parts nil = some 0
parts (cons part xs) = do n ← part_tokens part; rest ← parts xs; some (n + rest)

unfoldable pub add_if : Bool → Value → ℕ → Option ℕ
unfolding text
add_if b value tokens = if b then (do n ← text value; some (tokens + n)) else some tokens

module _ (py : Runtime) where
  unfoldable pub serialized : Value → Option ℕ
  unfolding parts text
  serialized null = some 0
  serialized (str s) = text (str s)
  serialized (arr xs) = parts xs
  serialized v = text (str (py.dumps v))

  -- one round of the loop over the tool calls
  unfoldable pub tool_call_tokens : Fields → Option ℕ
  unfolding serialized or_empty
  tool_call_tokens call = do
    function ← or_empty (get call "function")
    name ← text (get function "name")
    arguments ← serialized (get function "arguments")
    some (tool_call_overhead_tokens + name + arguments)

  unfoldable pub tool_calls_tokens : List Fields → Option ℕ
  unfolding tool_call_tokens
  tool_calls_tokens [] = some 0
  tool_calls_tokens (call ∷ calls) = do
    n ← tool_call_tokens call
    rest ← tool_calls_tokens calls
    some (n + rest)

  unfoldable pub message : Fields → Option ℕ
  unfolding serialized tool_calls_tokens or_no_dicts add_if
  message m = do
    content ← serialized (get m "content")
    calls ← or_no_dicts (get m "tool_calls")
    n ← tool_calls_tokens calls
    with_id ←
        add_if (truthy (get m "tool_call_id")) (get m "tool_call_id")
          (message_overhead_tokens + content + n)
    add_if (truthy (get m "name")) (get m "name") with_id

  unfoldable pub messages : List Fields → Option ℕ
  unfolding message
  messages [] = some 0
  messages (m ∷ ms) = do n ← message m; rest ← messages ms; some (n + rest)

  unfoldable pub tools : List Value → Option ℕ
  unfolding serialized
  tools [] = some 0
  tools (tool ∷ rest) = do
    n ← serialized tool
    m ← tools rest
    some (tool_def_overhead_tokens + n + m)

-- `counter: TokenCounter`, on messages that it can count
pub record Counter : Type 0 where
  pub message : Fields → ℕ
  pub tools : List Value → ℕ

abbrev pub count_messages : Counter → List Fields → ℕ
count_messages c [] = 0
count_messages c (m ∷ ms) = c.message m + count_messages c ms
