-- ===== src/Tests/Streams.antt =====
-- Captures of short streams.
use low_context_inference.Base.{
  ℕ, ◌≡◌, refl, true, Option, none, some, String, List, [], ◌∷◌, if◌then◌else◌, str_eq,
}
use low_context_inference.Json.{pos, Value, str, int, arr, obj, nil, cons, end, field, lookup}
use low_context_inference.Store.{◌>>=◌}
use low_context_inference.Capture.{Streams, init}
use low_context_inference.Capture.Message.{absorb_lines, build_message}
use low_context_inference.Capture.Stream.{called, raised, iter_bytes}
use low_context_inference.Capture.Limit.{iter_bytes_chunks}
use low_context_inference.Capture.Fragments.{
  text_chunk, opening, arguments_chunk, slot, build_message-fragments,
}
use low_context_inference.Capture.Noise.{iter_bytes_noise}

-- One byte stands for one payload.
abbrev name_of : List ℕ → String
name_of (n ∷ []) = "data:a"
name_of (n ∷ m ∷ []) = "data:ab"
name_of _ = "noise"

abbrev payload_of : String → Option Value
payload_of text =
    if str_eq text "data:t1"
    then some (text_chunk "Hel")
    else if str_eq text "data:t2"
    then some (text_chunk "lo")
    else if str_eq text "data:o"
    then some (opening "c1" "look")
    else if str_eq text "data:p1"
    then some (arguments_chunk "{\"a\"")
    else if str_eq text "data:p2"
    then some (arguments_chunk ":1}")
    else if str_eq text "data:a"
    then some (int (pos 5))
    else if str_eq text "data:ab"
    then some (text_chunk "Hi")
    else none

abbrev streams : Streams
streams = record {
  decode = name_of;
  split_events = λ s. s ∷ [];
  splitlines = λ s. s ∷ [];
  strip = λ s. s;
  suffix = λ n s. s;
  loads = payload_of;
  sorted = some;
}

abbrev lines : List String
lines = "data:t1" ∷ "data:t2" ∷ "data:o" ∷ "data:p1" ∷ "data:p2" ∷ []

build_message-fragments_example :
    (absorb_lines streams lines init >>= build_message streams)
    ≡ some (
        field "role" (str "assistant") (
          field "content"
            (str "Hello")
            (field "tool_calls" (arr (cons (obj (slot "c1" "look" "{\"a\":1}")) nil)) end)))
build_message-fragments_example =
    build_message-fragments streams lines ("Hel" ∷ "lo" ∷ []) ("{\"a\"" ∷ ":1}" ∷ []) "c1" "look"
      (
        refl,
        refl,
        refl,
        refl,
        (
          refl,
          refl,
          refl,
          refl,
          (refl, refl, refl, refl, (refl, refl, refl, refl, (refl, refl, refl, refl, tt))),
        ),
      )
      (refl, (refl, tt)) (refl, (refl, tt)) refl refl refl

iter_bytes_chunks_example :
    (iter_bytes streams (some 3) ((7 ∷ []) ∷ (8 ∷ []) ∷ []) true).finished
    ≡ (iter_bytes streams none ((7 ∷ 8 ∷ []) ∷ []) true).finished
iter_bytes_chunks_example = iter_bytes_chunks streams (some 3) ((7 ∷ []) ∷ (8 ∷ []) ∷ []) true

two_bytes :
    (iter_bytes streams (some 3) ((7 ∷ []) ∷ (8 ∷ []) ∷ []) true).finished
    ≡ called (some (field "role" (str "assistant") (field "content" (str "Hi") end))) end
unfolding iter_bytes build_message lookup
two_bytes = refl

too_long : (iter_bytes streams (some 1) ((7 ∷ []) ∷ (8 ∷ []) ∷ []) true).finished ≡ called none end
unfolding iter_bytes
too_long = refl

iter_bytes_noise_example : (iter_bytes streams (some 3) ((7 ∷ []) ∷ []) true).finished ≡ raised
iter_bytes_noise_example =
    iter_bytes_noise streams (some 3) ((7 ∷ []) ∷ []) "data:a" [] [] "data:a" (int (pos 5)) refl
      refl refl refl refl refl refl refl
