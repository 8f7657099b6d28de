-- ===== src/Tests/Requests.antt =====
-- Checks of a request at concrete payloads.
use low_context_inference.Base.{Option, ℕ, zero, suc, ◌≡◌, inr, refl, none, some, String, List}
use low_context_inference.Json.{
  pos, int, str, arr, obj, Items, nil, cons, Fields, end, field, get, lookup, put, is_text,
}
use low_context_inference.Runtime.{Runtime}
use low_context_inference.Store.{dicts}
use low_context_inference.Tokens.{message, messages}
use low_context_inference.Json.Equality.{IsDict}
use low_context_inference.Identity.{Uuids, resolved, resolve_conversation_id}
use low_context_inference.Validation.{accepted, rejected, check_message, validate_chat_payload}
use low_context_inference.Validation.Counting.{validate_chat_payload_counted, numeric_name_raises}

abbrev runtime : Runtime
runtime = record { dumps = λ v. "{}"; print = λ v. "1"; sha256 = λ s. s }

abbrev digits : ℕ → String
digits zero = "0"
digits (suc n) = "1"

abbrev call : Fields
call = field "id" (str "c1") (
    field "type" (str "function")
      (field "function" (obj (field "name" (str "look") (field "arguments" (str "{}") end))) end))

abbrev ask : Fields
ask = field "role" (str "user") (field "content" (str "hello") end)

abbrev answer : Fields
answer = field "role" (str "assistant") (field "tool_calls" (arr (cons (obj call) nil)) end)

abbrev talk : Items
talk = cons (obj ask) (cons (obj answer) nil)

abbrev payload : Fields
payload = field "model" (str "m") (field "messages" (arr talk) (field "n" (int (pos 1)) end))

validated : validate_chat_payload digits (obj payload) ≡ accepted
unfolding validate_chat_payload
validated = refl

two_choices :
    validate_chat_payload digits (obj (put "n" (int (pos 2)) payload))
    ≡ rejected "only n=1 is supported by this proxy"
unfolding validate_chat_payload put
two_choices = refl

no_role :
    check_message digits "messages[1]" (obj call)
    ≡ rejected "messages[1].role must be a non-empty string"
unfolding check_message
no_role = refl

validate_chat_payload_counted_example :
    (list : List Fields) × (dicts talk ≡ some list) × ((n : ℕ) × (messages runtime list ≡ some n))
unfolding get lookup is_text
validate_chat_payload_counted_example =
    validate_chat_payload_counted runtime digits payload talk refl validated
      ((refl, refl, tt), ((refl, refl, (inr (refl, refl), tt)), tt))

numeric_name_raises_example :
    (check_message digits "messages[0]" (obj (put "name" (int (pos 5)) ask))
      ≡ check_message digits "messages[0]" (obj ask))
    × (message runtime (put "name" (int (pos 5)) ask) ≡ none)
numeric_name_raises_example = numeric_name_raises runtime digits "messages[0]" ask 4

abbrev uuid_functions : Uuids
uuid_functions = record {
  canonical = λ s. some s;
  of_session = λ s. s;
  strip = λ s. s;
  lower = λ s. s;
}

abbrev named : Fields
named = field "model" (str "m") (field "conversation_id" (str "c1") end)

abbrev no_headers : String → Option String
no_headers name = none

taken :
    resolve_conversation_id uuid_functions 128 no_headers none "new" named
    ≡ resolved "c1" (field "model" (str "m") end)
unfolding resolve_conversation_id
taken = refl

named-IsDict : IsDict named
unfolding lookup
named-IsDict = assumption refl
