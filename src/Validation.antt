-- ===== src/Validation.antt =====
-- src/context_proxy/api/validation.py. The result is the text of the `PayloadValidationError`, if
-- one is raised; `digits` is how an f-string prints a number.
pub mod Calls
pub mod Counting
use low_context_inference.Base.{
  ℕ, zero, suc, Bool, true, false, not, ◌&&◌, ◌||◌, Option, none, some, String, ◌<>◌, str_eq,
  is_some, if◌then◌else◌, leb,
}
use low_context_inference.Json.{
  ℤ, pos, negsuc, Value, null, bool, int, str, arr, obj, Items, nil, cons, Fields, get, lookup,
  is_text,
}

pub data Check : Type 0 where
  accepted : Check
  rejected : String → Check

-- one check after another
unfoldable pub and_then : Check → Check → Check
and_then accepted next = next
and_then (rejected error) next = rejected error

unfoldable pub require : Bool → String → Check
require true error = accepted
require false error = rejected error

-- `isinstance(v, str)` and the like
abbrev pub is_str : Value → Bool
is_str (str s) = true
is_str _ = false

abbrev pub is_dict : Value → Bool
is_dict (obj d) = true
is_dict _ = false

abbrev pub is_list : Value → Bool
is_list (arr xs) = true
is_list _ = false

abbrev pub is_bool : Value → Bool
is_bool (bool b) = true
is_bool _ = false

abbrev pub is_none : Value → Bool
is_none null = true
is_none _ = false

-- `isinstance(v, str) and v`
abbrev pub is_name : Value → Bool
is_name (str s) = not (str_eq s "")
is_name _ = false

abbrev pub dict_or_empty : Value → Fields
dict_or_empty (obj d) = d
dict_or_empty _ = Fields.end

abbrev pub items_of : Value → Items
items_of (arr xs) = xs
items_of _ = nil

-- a text that is no known type
abbrev pub is_opaque : Value → Bool
is_opaque (str s) = not (str_eq s "function") && not (str_eq s "custom")
is_opaque _ = false

-- the container and its key
unfoldable pub container_of : Fields → Option (Value × String)
unfolding is_text get lookup
container_of call =
    let type = get call "type" in
    if is_text type "custom"
    then some (get call "custom", "custom")
    else if is_text type "function"
    then some (get call "function", "function")
    else elim (lookup "function" call) [
      | some v ↦ some (v, "function")
      | none ↦ elim (lookup "custom" call) [ none ↦ none | some v ↦ some (v, "custom") ]
    ]

unfoldable pub argument_key : String → String
argument_key key = if str_eq key "function" then "arguments" else "input"

unfoldable pub check_container : String → Value → String → Check
unfolding and_then require argument_key get lookup
check_container place container key =
    let d = dict_or_empty container in
    let given = get d (argument_key key) in
    and_then (require (is_dict container) (place <> "." <> key <> " must be an object")) (
      and_then
        (require (is_name (get d "name"))
          (place <> "." <> key <> ".name must be a non-empty string"))
        (require (is_none given || is_str given)
          (place <> "." <> key <> "." <> argument_key key <> " must be a string when present")))

unfoldable pub check_chosen : String → Option (Value × String) → Check
unfolding check_container
check_chosen place none = rejected (place <> " must carry a 'function' or 'custom' payload")
check_chosen place (some chosen) = check_container place chosen.0 chosen.1

unfoldable pub check_call : String → Value → Check
unfolding and_then require check_chosen container_of get lookup
check_call place call =
    let d = dict_or_empty call in
    let name = get d "id" in
    let chosen = check_chosen place (container_of d) in
    and_then (require (is_dict call) (place <> " must be an object")) (
      and_then
        (require (is_none name || is_str name) (place <> ".id must be a string when present"))
        (if is_opaque (get d "type") then accepted else chosen))

unfoldable pub part_check : String → Value → Check
unfolding require
part_check place part = require (is_dict part) (place <> " must be an object")

-- `parameters` of a function tool; `None` of a custom one
unfoldable pub function_parameters_or_none : String → Fields → Value
unfolding get lookup
function_parameters_or_none type container =
    if str_eq type "function" then get container "parameters" else null

unfoldable pub check_tool_container : String → String → Value → Check
unfolding and_then require function_parameters_or_none get lookup
check_tool_container place type container =
    let d = dict_or_empty container in
    let description = get d "description" in
    let parameters = function_parameters_or_none type d in
    let inner = place <> "." <> type in
    and_then (require (is_dict container) (inner <> " must be an object for " <> type <> " tools"))
      (and_then (require (is_name (get d "name")) (inner <> ".name must be a non-empty string")) (
        and_then
          (require (is_none description || is_str description)
            (inner <> ".description must be a string when present"))
          (require (is_none parameters || is_dict parameters)
            (inner <> ".parameters must be an object when present"))))

-- the rest of the check, by `tool["type"]`
unfoldable pub check_typed_tool : String → Fields → Value → Check
unfolding check_tool_container get lookup
check_typed_tool place tool (str type) =
    if is_opaque (str type) then accepted else check_tool_container place type (get tool type)
check_typed_tool place tool _ = accepted

unfoldable pub check_tool : String → Value → Check
unfolding and_then require check_typed_tool get lookup
check_tool place tool =
    let d = dict_or_empty tool in
    and_then (require (is_dict tool) (place <> " must be an object")) (
      and_then (require (is_name (get d "type")) (place <> ".type must be a non-empty string"))
        (check_typed_tool place d (get d "type")))

-- `n` is absent or an integer that is no Boolean, and at most 1
unfoldable pub check_choices : Value → Check
check_choices null = accepted
check_choices (int (negsuc k)) = accepted
check_choices (int (pos k)) =
    if leb k 1 then accepted else rejected "only n=1 is supported by this proxy"
check_choices _ = rejected "'n' must be an integer when present"

module _ (digits : ℕ → String) where
  -- a loop with `enumerate`, from an index on
  unfoldable pub check_each : (String → Value → Check) → String → ℕ → Items → Check
  unfolding and_then
  check_each check place index nil = accepted
  check_each check place index (cons v xs) =
      and_then (check (place <> "[" <> digits index <> "]") v)
        (check_each check place (suc index) xs)

  unfoldable pub check_content : String → Option Value → Check
  unfolding check_each part_check and_then require
  check_content place none = accepted
  check_content place (some content) =
      and_then
        (require (is_none content || is_str content || is_list content)
          (place <> ".content must be a string, array, or null"))
        (check_each part_check (place <> ".content") 0 (items_of content))

  unfoldable pub check_calls : String → Value → Check
  unfolding check_each check_call and_then require
  check_calls place calls =
      and_then
        (require (is_none calls || is_list calls)
          (place <> ".tool_calls must be an array when present"))
        (check_each check_call place 0 (items_of calls))

  unfoldable pub check_message : String → Value → Check
  unfolding and_then require check_content check_calls get lookup
  check_message place message =
      let d = dict_or_empty message in
      and_then (require (is_dict message) (place <> " must be an object")) (
        and_then (require (is_name (get d "role")) (place <> ".role must be a non-empty string")) (
          and_then (check_content place (lookup "content" d))
            (check_calls place (get d "tool_calls"))))

  unfoldable pub check_messages : Value → Check
  unfolding check_each check_message
  check_messages (arr nil) = rejected "'messages' must not be empty"
  check_messages (arr (cons m ms)) = check_each check_message "messages" 0 (cons m ms)
  check_messages _ = rejected "'messages' must be an array of message objects"

  unfoldable pub check_tools : Value → Check
  unfolding check_each check_tool and_then require
  check_tools tools =
      and_then (require (is_none tools || is_list tools) "'tools' must be an array when present")
        (check_each check_tool "tools" 0 (items_of tools))

  unfoldable pub validate_chat_payload : Value → Check
  unfolding and_then require check_messages check_tools check_choices get lookup
  validate_chat_payload payload =
      let d = dict_or_empty payload in
      let stream = get d "stream" in
      and_then (require (is_dict payload) "request body must be a JSON object") (
        and_then (check_messages (get d "messages")) (
          and_then (check_tools (get d "tools")) (
            and_then
              (require (is_none stream || is_bool stream) "'stream' must be a boolean when present")
              (check_choices (get d "n")))))
