-- ===== src/Capture/Fragments.antt =====
-- Messages that come in the fragments of a stream: `_absorb` and `_build_message` of
-- src/context_proxy/capture.py.
use text.Mathlib.Text.{starts_with}
use low_context_inference.Base.{
  ◌≡◌, refl, sym, ap, ◌∙◌, Bool, true, false, Option, none, some, String, ◌<>◌, List, [], ◌∷◌, ◌++◌,
  map, All, str_eq, append-nil, append_assoc,
}
use low_context_inference.Json.{
  pos, Value, str, int, arr, obj, nil, cons, Fields, end, field, lookup, get, put, truthy, is_text,
  equal, int_eq,
}
use low_context_inference.Store.{◌>>=◌, or_empty, or_no_dicts, extra_fields, dicts}
use low_context_inference.Capture.{
  Streams, AssistantCapture, init, absorb_call, absorb_calls, fill_at, fill_slot, merge_part,
  append_given, append_text, part_of, keep_unknown, put_given, add_reasoning,
}
use low_context_inference.Capture.Message.{
  absorb, absorb_choices, absorb_choice, delta_of, absorb_lines, absorb_line, absorb_text,
  build_message, join, or_none, rebuild_calls, rebuild_call, slot_at, add_joined, parts_at, put_all,
}

abbrev pub delta_chunk : Fields → Value
delta_chunk delta = obj (field "choices" (arr (cons (obj (field "delta" (obj delta) end)) nil)) end)

abbrev pub text_chunk : String → Value
text_chunk text = delta_chunk (field "content" (str text) end)

abbrev pub call_chunk : Fields → Value
call_chunk call = delta_chunk (field "tool_calls" (arr (cons (obj call) nil)) end)

-- the first fragment of a tool call, and the later ones
abbrev pub opening : String → String → Value
opening id name = call_chunk (
    field "index" (int (pos 0)) (
      field "id" (str id) (
        field "type" (str "function")
          (field "function" (obj (field "name" (str name) (field "arguments" (str "") end))) end))))

abbrev pub arguments_chunk : String → Value
arguments_chunk text =
    call_chunk
      (field "index" (int (pos 0)) (field "function" (obj (field "arguments" (str text) end)) end))

abbrev pub chunks_of : List String → String → String → List String → List Value
chunks_of texts id name pieces =
    map text_chunk texts ++ opening id name ∷ map arguments_chunk pieces

abbrev pub joined : List String → String
joined [] = ""
joined (text ∷ texts) = text <> joined texts

-- the texts appended one by one
abbrev pub appended : String → List String → String
appended text [] = text
appended text (piece ∷ pieces) = appended (text <> piece) pieces

abbrev pub IsFilled : String → Type 0
IsFilled text = str_eq text "" ≡ false

-- the payloads that the `data:` lines hold
abbrev pub Carries : Streams → List String → List Value → Type 0
Carries py [] [] = Unit
Carries py (line ∷ lines) (payload ∷ payloads) =
    (starts_with line "data:" ≡ true)
    × (str_eq (py.strip (py.suffix 5 line)) "" ≡ false)
    × (str_eq (py.strip (py.suffix 5 line)) "[DONE]" ≡ false)
    × (py.loads (py.strip (py.suffix 5 line)) ≡ some payload)
    × Carries py lines payloads
Carries py _ _ = ⊥

absorb_all : List Value → AssistantCapture → Option AssistantCapture
absorb_all [] c = some c
absorb_all (payload ∷ payloads) c = do c' ← absorb payload c; absorb_all payloads c'

absorb_all-append :
    (xs ys : List Value) (c : AssistantCapture)
    → absorb_all (xs ++ ys) c ≡ (absorb_all xs c >>= absorb_all ys)
unfolding absorb_all
absorb_all-append [] ys c = refl
absorb_all-append (x ∷ xs) ys c = go (absorb x c) (absorb_all-append xs ys)
  where
    go :
        (o : Option AssistantCapture)
        → ((d : AssistantCapture) → absorb_all (xs ++ ys) d ≡ (absorb_all xs d >>= absorb_all ys))
        → (o >>= absorb_all (xs ++ ys)) ≡ ((o >>= absorb_all xs) >>= absorb_all ys)
    go none ih = refl
    go (some d) ih = ih d

-- one text
absorb-text :
    (text : String) (c : AssistantCapture)
    → IsFilled text
    → absorb (text_chunk text) c
      ≡ some (record c { saw_any_choice = true; content_parts = c.content_parts ++ str text ∷ [] })
unfolding absorb absorb_choices absorb_choice delta_of absorb_calls add_reasoning or_no_dicts
    or_empty get lookup truthy
absorb-text text c h = rw (absorb, h) refl

abbrev any_seen : List String → Bool → Bool
any_seen [] seen = seen
any_seen (text ∷ texts) seen = true

any_seen-true : (texts : List String) → any_seen texts true ≡ true
any_seen-true [] = refl
any_seen-true (text ∷ texts) = refl

absorb-texts :
    (texts : List String) (c : AssistantCapture)
    → All IsFilled texts
    → absorb_all (map text_chunk texts) c
      ≡ some (record c {
        saw_any_choice = any_seen texts c.saw_any_choice;
        content_parts = c.content_parts ++ map str texts;
      })
unfolding absorb_all
absorb-texts [] c h =
    ap (λ parts. some (record c { content_parts = parts })) (sym (append-nil c.content_parts))
absorb-texts (text ∷ texts) c h =
    let next = record c {
      saw_any_choice = true;
      content_parts = c.content_parts ++ str text ∷ [];
    } in
    ap (λ o. o >>= absorb_all (map text_chunk texts)) (absorb-text text c h.0)
    ∙ absorb-texts texts next h.1
    ∙ ap
        (λ seen. some (record c {
          saw_any_choice = seen;
          content_parts = (c.content_parts ++ str text ∷ []) ++ map str texts;
        }))
        (any_seen-true texts)
    ∙ ap (λ parts. some (record c { saw_any_choice = true; content_parts = parts }))
        (append_assoc c.content_parts (str text ∷ []) (map str texts))

-- the slot of the call
abbrev pub slot : String → String → String → Fields
slot id name arguments = field "id" (str id) (
    field "type" (str "function") (
      field "function" (obj (field "name" (str name) (field "arguments" (str arguments) end))) end))

abbrev calls_at : AssistantCapture → Fields → AssistantCapture
calls_at c filled = record c { saw_any_choice = true; tool_calls = (int (pos 0), filled) ∷ [] }

absorb-opening :
    (id name : String) (c : AssistantCapture)
    → IsFilled id
    → IsFilled name
    → absorb (opening id name) (record c { tool_calls = [] })
      ≡ some (calls_at c (slot id ("" <> name) ""))
unfolding absorb absorb_choices absorb_choice delta_of absorb_calls absorb_call fill_at fill_slot
    merge_part append_given append_text part_of keep_unknown put_given add_reasoning or_no_dicts
    dicts or_empty get lookup put truthy
absorb-opening id name c h g = rw (absorb, h, g) refl

absorb-arguments :
    (text : String) (id name arguments : String) (c : AssistantCapture)
    → IsFilled text
    → absorb (arguments_chunk text) (calls_at c (slot id name arguments))
      ≡ some (calls_at c (slot id name (arguments <> text)))
unfolding absorb absorb_choices absorb_choice delta_of absorb_calls absorb_call fill_at fill_slot
    merge_part append_given append_text part_of keep_unknown put_given add_reasoning or_no_dicts
    dicts or_empty get lookup put truthy equal int_eq
absorb-arguments text id name arguments c h = rw (absorb, h) refl

absorb-pieces :
    (pieces : List String) (id name arguments : String) (c : AssistantCapture)
    → All IsFilled pieces
    → absorb_all (map arguments_chunk pieces) (calls_at c (slot id name arguments))
      ≡ some (calls_at c (slot id name (appended arguments pieces)))
unfolding absorb_all
absorb-pieces [] id name arguments c h = refl
absorb-pieces (text ∷ pieces) id name arguments c h =
    ap (λ o. o >>= absorb_all (map arguments_chunk pieces))
      (absorb-arguments text id name arguments c h.0)
    ∙ absorb-pieces pieces id name (arguments <> text) c h.1

join-texts : (texts : List String) → join (map str texts) ≡ some (joined texts)
unfolding join
join-texts [] = refl
join-texts (text ∷ texts) = rw (join, join-texts texts) refl

module _ (py : Streams) where
  absorb_lines-Carries :
      (lines : List String) (payloads : List Value) (c : AssistantCapture)
      → Carries py lines payloads
      → absorb_lines py lines c ≡ absorb_all payloads c
  unfolding absorb_lines absorb_line absorb_text absorb_all
  absorb_lines-Carries [] [] c h = refl
  absorb_lines-Carries (line ∷ lines) (payload ∷ payloads) c (a, b, d, e, rest) =
      rw (absorb_lines, absorb_line, a, b, d, e)
        (go (absorb payload c) (λ c'. absorb_lines-Carries lines payloads c' rest))
    where
      go :
          (o : Option AssistantCapture)
          → ((c' : AssistantCapture) → absorb_lines py lines c' ≡ absorb_all payloads c')
          → (o >>= absorb_lines py lines) ≡ (o >>= absorb_all payloads)
      go none ih = refl
      go (some c') ih = ih c'
  absorb_lines-Carries [] (payload ∷ payloads) c h = absurd h
  absorb_lines-Carries (line ∷ lines) [] c h = absurd h

  build-slot :
      (texts : List String) (id name arguments : String)
      → IsFilled id
      → py.sorted (int (pos 0) ∷ []) ≡ some (int (pos 0) ∷ [])
      → build_message py
          (calls_at (record init { content_parts = map str texts }) (slot id name arguments))
        ≡ some (
            field "role" (str "assistant") (
              field "content"
                (or_none (joined texts))
                (field "tool_calls" (arr (cons (obj (slot id name arguments)) nil)) end)))
  unfolding build_message join rebuild_calls rebuild_call slot_at add_joined parts_at put_all
      extra_fields or_empty get lookup put truthy is_text equal int_eq
  build-slot texts id name arguments h s = rw (build_message, join-texts texts, s, h) refl

  -- A stream whose `data:` lines carry the texts of an answer, and then a tool call with its arguments
  -- in pieces, is captured as the message with the whole text and the whole call.
  pub build_message-fragments :
      (lines texts pieces : List String) (id name : String)
      → Carries py lines (chunks_of texts id name pieces)
      → All IsFilled texts
      → All IsFilled pieces
      → IsFilled id
      → IsFilled name
      → py.sorted (int (pos 0) ∷ []) ≡ some (int (pos 0) ∷ [])
      → (absorb_lines py lines init >>= build_message py)
        ≡ some (
            field "role" (str "assistant") (
              field "content" (or_none (joined texts)) (
                field "tool_calls"
                  (arr (cons (obj (slot id (appended "" (name ∷ [])) (appended "" pieces))) nil))
                  end)))
  unfolding absorb absorb_all
  build_message-fragments lines texts pieces id name h a b f g s =
      let c = record init { content_parts = map str texts } in
      let whole =
        absorb_lines-Carries lines (chunks_of texts id name pieces) init h
        ∙ absorb_all-append (map text_chunk texts) (opening id name ∷ map arguments_chunk pieces)
            init
        ∙ ap (λ o. o >>= absorb_all (opening id name ∷ map arguments_chunk pieces))
            (absorb-texts texts init a)
        ∙ ap (λ o. o >>= absorb_all (map arguments_chunk pieces))
            (absorb-opening id name (record c { saw_any_choice = any_seen texts false }) f g)
        ∙ absorb-pieces pieces id ("" <> name) "" c b in
      ap (λ o. o >>= build_message py) whole
      ∙ build-slot texts id ("" <> name) (appended "" pieces) f s
