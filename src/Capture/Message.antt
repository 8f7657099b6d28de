-- ===== src/Capture/Message.antt =====
-- `_absorb`, `_build_message`, `finalize` and `response_metadata` of src/context_proxy/capture.py.
use text.Mathlib.Text.{starts_with}
use low_context_inference.Base.{
  true, not, ◌||◌, Option, none, some, String, ◌<>◌, List, [], ◌∷◌, map, if◌then◌else◌, is_some,
  str_eq,
}
use low_context_inference.Json.{
  Value, null, str, arr, obj, cons, of_list, Fields, end, field, lookup, get, put, truthy, is_text,
  equal,
}
use low_context_inference.Store.{◌>>=◌, or_empty, or_no_dicts, extra_fields}
use low_context_inference.Capture.{
  Streams, AssistantCapture, reasoning_keys, add_reasoning, absorb_calls, append_part, given_or,
}

-- `choice.get("delta") or choice.get("message") or {}`
unfoldable pub delta_of : Fields → Option Fields
unfolding or_empty truthy get lookup
delta_of choice =
    if truthy (get choice "delta")
    then or_empty (get choice "delta")
    else or_empty (get choice "message")

unfoldable pub absorb_choice : Fields → AssistantCapture → Option AssistantCapture
unfolding delta_of absorb_calls add_reasoning or_no_dicts get lookup truthy
absorb_choice choice c = do
  delta ← delta_of choice
  calls ← or_no_dicts (get delta "tool_calls")
  slots ← absorb_calls calls c.tool_calls
  some (record c {
    saw_any_choice = true;
    role = given_or (get delta "role") c.role;
    content_parts = append_part (get delta "content") c.content_parts;
    refusal_parts = append_part (get delta "refusal") c.refusal_parts;
    reasoning_parts = add_reasoning reasoning_keys delta c.reasoning_parts;
    tool_calls = slots;
    finish_reason = given_or (get choice "finish_reason") c.finish_reason;
  })

-- `choices[0]` of a value that is true in Python, on which `.get` is called
unfoldable pub absorb_choices : Value → AssistantCapture → Option AssistantCapture
unfolding absorb_choice truthy
absorb_choices (arr (cons (obj choice) rest)) c = absorb_choice choice c
absorb_choices choices c = if truthy choices then none else some c

unfoldable pub absorb : Value → AssistantCapture → Option AssistantCapture
unfolding absorb_choices get lookup truthy
absorb (obj payload) c = absorb_choices (get payload "choices") (record c {
  usage = given_or (get payload "usage") c.usage;
  model = given_or (get payload "model") c.model;
})
absorb _ c = none

-- `"".join(parts)`
unfoldable pub join : List Value → Option String
join [] = some ""
join (str s ∷ parts) = do rest ← join parts; some (s <> rest)
join (_ ∷ parts) = none

-- `text or None`
abbrev pub or_none : String → Value
or_none s = if str_eq s "" then null else str s

-- `d.get(key, default)`
abbrev pub get_or : Value → Option Value → Value
get_or default none = default
get_or default (some v) = v

-- `d[key] = value`, for each entry of another dict
unfoldable pub put_all : Fields → Fields → Fields
unfolding put
put_all end d = d
put_all (field key value rest) d = put_all rest (put key value d)

abbrev pub rebuilt_part : String → Fields → Value
rebuilt_part key d = obj (
    field "name" (get_or (str "") (lookup "name" d))
      (field key (get_or (str "") (lookup key d)) end))

unfoldable pub rebuild_call : Fields → Option Fields
unfolding or_empty is_text get lookup put_all extra_fields
rebuild_call call =
    if is_text (get call "type") "custom" || is_some (lookup "custom" call)
    then (do
      custom ← or_empty (get call "custom")
      some (
          put_all (extra_fields call) (
            field "id" (get call "id")
              (field "type" (str "custom") (field "custom" (rebuilt_part "input" custom) end)))))
    else (do
      function ← or_empty (get call "function")
      some (
          put_all (extra_fields call) (
            field "id" (get call "id") (
              field "type" (get_or (str "function") (lookup "type" call))
                (field "function" (rebuilt_part "arguments" function) end)))))

-- `self._tool_calls[index]`
unfoldable pub slot_at : Value → List (Value × Fields) → Fields
unfolding equal
slot_at index [] = end
slot_at index ((i, slot) ∷ slots) = if equal i index then slot else slot_at index slots

-- the loop over the sorted indices
unfoldable pub rebuild_calls : List Value → List (Value × Fields) → Option (List Value)
unfolding rebuild_call slot_at truthy get lookup
rebuild_calls [] slots = some []
rebuild_calls (index ∷ indices) slots =
    let call = slot_at index slots in
    let rest = rebuild_calls indices slots in
    if truthy (get call "id")
    then (do rebuilt ← rebuild_call call; calls ← rest; some (obj rebuilt ∷ calls))
    else rest

unfoldable pub parts_at : String → List (String × List Value) → List Value
parts_at key [] = []
parts_at key ((k, vs) ∷ parts) = if str_eq k key then vs else parts_at key parts

-- the loop over `sorted(self._reasoning_parts)`: the keys stand in their order already
unfoldable pub add_joined : List String → List (String × List Value) → Fields → Option Fields
unfolding join parts_at put
add_joined [] parts message = some message
add_joined (key ∷ keys) parts message = do
  joined ← join (parts_at key parts)
  add_joined keys parts (if str_eq joined "" then message else put key (str joined) message)

abbrev pub with_calls : List Value → Fields → Fields
with_calls [] message = message
with_calls (call ∷ calls) message = put "tool_calls" (arr (of_list (call ∷ calls))) message

abbrev pub with_refusal : String → Fields → Fields
with_refusal refusal message =
    if str_eq refusal "" then message else put "refusal" (str refusal) message

module _ (py : Streams) where
  unfoldable pub build_message : AssistantCapture → Option Fields
  unfolding join rebuild_calls add_joined put truthy
  build_message c = do
    content ← join c.content_parts
    refusal ← join c.refusal_parts
    indices ← py.sorted (map (λ slot. slot.0) c.tool_calls)
    calls ← rebuild_calls indices c.tool_calls
    message ←
        add_joined reasoning_keys c.reasoning_parts
          (field "role" (given_or c.role (str "assistant")) (field "content" (or_none content) end))
    some (with_refusal refusal (with_calls calls message))

  -- one line of an event
  unfoldable pub absorb_text : Option Value → AssistantCapture → Option AssistantCapture
  unfolding absorb
  absorb_text none c = some c
  absorb_text (some payload) c = absorb payload c

  unfoldable pub absorb_line : String → AssistantCapture → Option AssistantCapture
  unfolding absorb_text
  absorb_line line c =
      let text = py.strip (py.suffix 5 line) in
      if not (starts_with line "data:") || str_eq text "" || str_eq text "[DONE]"
      then some c
      else absorb_text (py.loads text) c

  unfoldable pub absorb_lines : List String → AssistantCapture → Option AssistantCapture
  unfolding absorb_line
  absorb_lines [] c = some c
  absorb_lines (line ∷ lines) c = do c' ← absorb_line line c; absorb_lines lines c'

  unfoldable pub absorb_events : List String → AssistantCapture → Option AssistantCapture
  unfolding absorb_lines
  absorb_events [] c = some c
  absorb_events (event ∷ events) c = do
    c' ← absorb_lines (py.splitlines event) c
    absorb_events events c'

  abbrev pub usable : AssistantCapture → Option (AssistantCapture × Option Fields)
  usable c =
      if c.saw_any_choice
      then (do message ← build_message c; some (c, some message))
      else some (c, none)

  -- the capture after it, and the message
  unfoldable pub finalize : AssistantCapture → Option (AssistantCapture × Option Fields)
  unfolding absorb_events build_message
  finalize c =
      let absorbed = absorb_events (py.split_events (py.decode c.buffer)) c in
      if c.overflowed then some (c, none) else absorbed >>= usable

abbrev add_metadata : String → Value → Fields → Fields
add_metadata key null d = d
add_metadata key value d = put key value d

unfoldable pub response_metadata : AssistantCapture → Fields
unfolding put
response_metadata c =
    add_metadata "model" c.model
      (add_metadata "usage" c.usage (add_metadata "finish_reason" c.finish_reason end))
