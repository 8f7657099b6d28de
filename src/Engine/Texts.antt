-- ===== src/Engine/Texts.antt =====
-- The texts and fingerprints of src/context_proxy/context/candidates.py. `none` is an exception;
-- functions of Python's library on texts are parameters.
use low_context_inference.Base.{
  Bool, true, false, Option, none, some, String, ◌<>◌, List, [], ◌∷◌, ◌++◌, if◌then◌else◌, str_eq,
}
use low_context_inference.Json.{
  Value, str, arr, obj, Items, nil, cons, Fields, end, get, lookup, truthy, is_text,
}
use low_context_inference.Runtime.{Runtime, to_str}
use low_context_inference.Store.{◌>>=◌, or_no_dicts}

pub record Rendering : Type 0 where
  -- `re.compile(r"\s+").sub(" ", value)`, `strip` and `lower`
  pub collapse : String → String
  pub strip : String → String
  pub lower : String → String
  pub splitlines : String → List String
  -- `json.loads`; `none` is a `ValueError`
  pub loads : String → Option Value
  -- `json.dumps(part, sort_keys=True, separators=(",", ":"), ensure_ascii=False)`
  pub dumps_sorted : Value → String

abbrev pub or_else : Value → Value → Value
or_else a b = if truthy a then a else b

-- `separator.join(texts)`
abbrev pub join : String → List String → String
join separator [] = ""
join separator (t ∷ []) = t
join separator (t ∷ u ∷ ts) = t <> separator <> join separator (u ∷ ts)

module _ (py : Runtime) (rd : Rendering) where
  open rd use {collapse, strip, lower, splitlines, loads, dumps_sorted}

  abbrev pub canonical_text : String → String
  canonical_text value = lower (strip (collapse value))

  abbrev pub part_fingerprint : Fields → String
  part_fingerprint part = py.sha256 (dumps_sorted (obj part))

  -- `str(url)`
  unfoldable pub url_of : Fields → String
  unfolding get lookup truthy
  url_of part = elim (get part "image_url") [
    | obj image ↦ (elim (lookup "url" image) [ none ↦ "" | some url ↦ to_str py url ])
    | v ↦ if truthy v then to_str py v else ""
  ]

  -- the token of a part that is no text
  abbrev pub part_token : Fields → String
  part_token part =
      if is_text (get part "type") "image_url"
      then "[image:" <> py.sha256 (url_of part) <> "]"
      else "["
        <> to_str py (or_else (get part "type") (str "unknown"))
        <> ":"
        <> part_fingerprint part
        <> "]"

  abbrev pub text_of : Fields → String
  text_of part = to_str py (or_else (get part "text") (str ""))

  unfoldable pub rendered_parts : Items → List String
  unfolding url_of truthy get is_text
  rendered_parts nil = []
  rendered_parts (cons (obj part) parts) =
      (if is_text (get part "type") "text" then text_of part else part_token part)
      ∷ rendered_parts parts
  rendered_parts (cons _ parts) = rendered_parts parts

  abbrev pub rendered_content : Value → String
  rendered_content (str s) = s
  rendered_content (arr parts) = join " " (rendered_parts parts)
  rendered_content _ = ""

  abbrev pub is_dict : Value → Bool
  is_dict (obj d) = true
  is_dict _ = false

  abbrev pub fields_of : Value → Fields
  fields_of (obj d) = d
  fields_of _ = end

  -- `payload_container`, and the text of a tool call
  abbrev pub container : Fields → Fields
  container call =
      if is_dict (get call "function")
      then fields_of (get call "function")
      else fields_of (get call "custom")

  abbrev pub call_text : Fields → String
  call_text call =
      "tool_call["
      <> (if is_dict (get call "function") then "function" else "custom")
      <> "]: "
      <> to_str py (get (container call) "name")
      <> " "
      <> to_str py (or_else (get (container call) "arguments") (get (container call) "input"))

  abbrev pub call_texts : List Fields → List String
  call_texts [] = []
  call_texts (call ∷ calls) = call_text call ∷ call_texts calls

  -- the loop of `message_texts`
  unfoldable pub message_parts : List Fields → Option (List String)
  unfolding rendered_parts or_no_dicts get truthy
  message_parts [] = some []
  message_parts (m ∷ ms) = do
    calls ← or_no_dicts (get m "tool_calls")
    rest ← message_parts ms
    some (
        (to_str py (get m "role") <> ": " <> rendered_content (get m "content")) ∷ call_texts calls
        ++ rest)

  unfoldable pub message_texts : List Fields → Option String
  unfolding message_parts
  message_texts messages = do parts ← message_parts messages; some (join "\n" parts)

  -- the texts that are not empty
  abbrev pub given_text : String → List String → List String
  given_text text rest = if str_eq text "" then rest else text ∷ rest

  unfoldable pub part_texts : Items → List String
  unfolding url_of truthy get is_text
  part_texts nil = []
  part_texts (cons (obj part) parts) =
      let rest = part_texts parts in
      if is_text (get part "type") "text"
      then given_text (canonical_text (text_of part)) rest
      else part_token part ∷ rest
  part_texts (cons _ parts) = part_texts parts

  abbrev pub content_texts_of : Value → List String
  content_texts_of (str s) = given_text (canonical_text s) []
  content_texts_of (arr parts) = part_texts parts
  content_texts_of _ = []

  unfoldable pub content_texts : Fields → List String
  unfolding part_texts get
  content_texts m = content_texts_of (get m "content")

  -- the loop over the lines; the inner `none` is a line that is no JSON
  abbrev pub keep_dict : Value → List Fields → List Fields
  keep_dict (obj d) lines = d ∷ lines
  keep_dict _ lines = lines

  unfoldable pub parsed_lines : List String → Option (List Fields)
  parsed_lines [] = some []
  parsed_lines (line ∷ lines) =
      let rest = parsed_lines lines in
      if str_eq (strip line) ""
      then rest
      else (do parsed ← loads (strip line); more ← rest; some (keep_dict parsed more))

  abbrev pub chunk_text : String → Option (List Fields) → Option String
  chunk_text raw_content none = some (canonical_text raw_content)
  chunk_text raw_content (some []) = some (canonical_text raw_content)
  chunk_text raw_content (some (m ∷ ms)) = do
    text ← message_texts (m ∷ ms)
    some (canonical_text text)

  unfoldable pub chunk_canonical_text : String → Option String
  unfolding message_texts parsed_lines
  chunk_canonical_text raw_content = chunk_text raw_content (parsed_lines (splitlines raw_content))
