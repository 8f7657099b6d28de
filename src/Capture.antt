-- ===== src/Capture.antt =====
-- src/context_proxy/capture.py. `Streams` holds the functions of Python's library that it calls;
-- `none` is an exception, and `null` is Python's `None`. Bytes are numbers.
pub mod Message
pub mod Stream
pub mod Noise
pub mod Limit
pub mod Fragments
use text.Mathlib.Text.{starts_with}
use low_context_inference.Base.{
  ℕ, zero, suc, ◌+◌, Bool, true, false, not, ◌&&◌, ◌||◌, Option, none, some, String, ◌<>◌, List, [],
  ◌∷◌, ◌++◌, map, if◌then◌else◌, length, is_some, str_eq, ltb,
}
use low_context_inference.Json.{
  ℤ, pos, Value, null, str, int, arr, obj, Items, nil, cons, of_list, Fields, end, field, lookup,
  get, put, truthy, is_text, equal,
}
use low_context_inference.Store.{◌>>=◌, or_empty, or_no_dicts, extra_fields}

pub record Streams : Type 0 where
  -- `bytes.decode("utf-8", errors="replace")`
  pub decode : List ℕ → String
  -- `text.split("\n\n")` and `text.splitlines()`
  pub split_events : String → List String
  pub splitlines : String → List String
  pub strip : String → String
  -- `text[n:]`
  pub suffix : ℕ → String → String
  -- `json.loads`; `none` is a `ValueError`
  pub loads : String → Option Value
  -- `sorted` of the keys of a dict; `none` is a `TypeError`
  pub sorted : List Value → Option (List Value)

pub record AssistantCapture : Type 0 where
  pub buffer : List ℕ
  pub role : Value
  pub content_parts : List Value
  pub refusal_parts : List Value
  pub reasoning_parts : List (String × List Value)
  pub tool_calls : List (Value × Fields)
  pub finish_reason : Value
  pub usage : Value
  pub model : Value
  pub saw_any_choice : Bool
  pub overflowed : Bool

abbrev pub init : AssistantCapture
init = record {
  buffer = [];
  role = null;
  content_parts = [];
  refusal_parts = [];
  reasoning_parts = [];
  tool_calls = [];
  finish_reason = null;
  usage = null;
  model = null;
  saw_any_choice = false;
  overflowed = false;
}

-- `max_bytes is not None and n > max_bytes`
abbrev pub is_over : Option ℕ → ℕ → Bool
is_over none n = false
is_over (some max_bytes) n = ltb max_bytes n

unfoldable pub feed : Option ℕ → List ℕ → AssistantCapture → AssistantCapture
feed max_bytes chunk c =
    if c.overflowed
    then c
    else if is_over max_bytes (length c.buffer + length chunk)
    then record c { overflowed = true }
    else record c { buffer = c.buffer ++ chunk }

abbrev pub reasoning_keys : List String
reasoning_keys = "reasoning" ∷ "reasoning_content" ∷ "reasoning_text" ∷ []

-- `parts.setdefault(key, []).append(value)`
unfoldable pub add_part : String → Value → List (String × List Value) → List (String × List Value)
add_part key value [] = (key, value ∷ []) ∷ []
add_part key value ((k, vs) ∷ parts) =
    if str_eq k key then (k, vs ++ value ∷ []) ∷ parts else (k, vs) ∷ add_part key value parts

abbrev pub is_filled_text : Value → Bool
is_filled_text (str s) = not (str_eq s "")
is_filled_text _ = false

unfoldable pub add_reasoning :
    List String → Fields → List (String × List Value) → List (String × List Value)
unfolding add_part get lookup
add_reasoning [] delta parts = parts
add_reasoning (key ∷ keys) delta parts =
    add_reasoning keys delta
      (if is_filled_text (get delta key) then add_part key (get delta key) parts else parts)

-- `fn[key] += value`
unfoldable pub append_text : String → Value → Fields → Option Fields
unfolding lookup put
append_text key value fn = elim (lookup key fn) [
  | some (str s) ↦ elim value [ str t ↦ some (put key (str (s <> t)) fn) | _ ↦ none ]
  | _ ↦ none
]

unfoldable pub append_given : String → Value → Fields → Option Fields
unfolding append_text truthy
append_given key value fn = if truthy value then append_text key value fn else some fn

-- `slot.setdefault(part, {"name": "", key: ""})`, where a value that is no dict would raise
unfoldable pub part_of : String → String → Fields → Option Fields
unfolding lookup
part_of part key slot = elim (lookup part slot) [
  | none ↦ some (field "name" (str "") (field key (str "") end))
  | some (obj fn) ↦ some fn
  | some _ ↦ none
]

-- the fragments of `function` and of `custom`
unfoldable pub merge_part : String → String → Value → Fields → Option Fields
unfolding part_of append_given put get lookup
merge_part part key (obj given) slot = do
  fn ← part_of part key slot
  named ← append_given "name" (get given "name") fn
  filled ← append_given key (get given key) named
  some (put part (obj filled) slot)
merge_part part key _ slot = some slot

abbrev pub is_transport : String → Bool
is_transport key = not (
    str_eq key "index"
    || str_eq key "id"
    || str_eq key "type"
    || str_eq key "function"
    || str_eq key "custom")

-- `slot.setdefault(key, value)` for the unknown fields
unfoldable pub keep_unknown : Fields → Fields → Fields
unfolding lookup put
keep_unknown end slot = slot
keep_unknown (field key value rest) slot =
    keep_unknown rest
      (if is_transport key && not (is_some (lookup key slot)) then put key value slot else slot)

-- `if value: d[key] = value`
unfoldable pub put_given : String → Value → Fields → Fields
unfolding put truthy
put_given key value d = if truthy value then put key value d else d

unfoldable pub fill_slot : Fields → Fields → Option Fields
unfolding put_given keep_unknown merge_part get lookup
fill_slot call slot = do
  let known = put_given "type" (get call "type") (put_given "id" (get call "id") slot)
  with_function ← merge_part "function" "arguments" (get call "function") (keep_unknown call known)
  merge_part "custom" "input" (get call "custom") with_function

abbrev pub is_hashable : Value → Bool
is_hashable (arr xs) = false
is_hashable (obj d) = false
is_hashable _ = true

-- `self._tool_calls.setdefault(index, {})`, and what becomes of the slot
unfoldable pub fill_at : Value → Fields → List (Value × Fields) → Option (List (Value × Fields))
unfolding fill_slot equal
fill_at index call [] = do slot ← fill_slot call end; some ((index, slot) ∷ [])
fill_at index call ((i, slot) ∷ slots) =
    let rest = fill_at index call slots in
    if equal i index
    then (do filled ← fill_slot call slot; some ((i, filled) ∷ slots))
    else (do more ← rest; some ((i, slot) ∷ more))

-- `tool_call.get("index", 0)`
abbrev pub index_of : Option Value → Value
index_of none = int (pos 0)
index_of (some v) = v

unfoldable pub absorb_call : Fields → List (Value × Fields) → Option (List (Value × Fields))
unfolding fill_at lookup
absorb_call call slots =
    let index = index_of (lookup "index" call) in
    if is_hashable index then fill_at index call slots else none

unfoldable pub absorb_calls : List Fields → List (Value × Fields) → Option (List (Value × Fields))
unfolding absorb_call
absorb_calls [] slots = some slots
absorb_calls (call ∷ calls) slots = do filled ← absorb_call call slots; absorb_calls calls filled

-- `parts.append(value)`, if it is given
abbrev pub append_part : Value → List Value → List Value
append_part value parts = if truthy value then parts ++ value ∷ [] else parts

-- `value` or what was there before
abbrev pub given_or : Value → Value → Value
given_or value old = if truthy value then value else old
