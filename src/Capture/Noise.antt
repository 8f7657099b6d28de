-- ===== src/Capture/Noise.antt =====
-- A stream with a `data:` line that is JSON but no object.
use text.Mathlib.Text.{starts_with}
use low_context_inference.Base.{
  ℕ, ◌≡◌, ◌∙◌, refl, true, false, Option, none, some, String, List, ◌∷◌, str_eq, length,
}
use low_context_inference.Json.{Value, obj, null, str, int, bool, arr}
use low_context_inference.Capture.{Streams, AssistantCapture, init, is_over}
use low_context_inference.Capture.Message.{
  absorb, absorb_text, absorb_line, absorb_lines, absorb_events, finalize,
}
use low_context_inference.Capture.Stream.{raised, finish, iter_bytes}
use low_context_inference.Capture.Limit.{concat, feed_all_within, plus_zero}
use low_context_inference.Validation.{is_dict}

absorb_noise : (v : Value) (c : AssistantCapture) → is_dict v ≡ false → absorb v c ≡ none
unfolding absorb
absorb_noise null c h = refl
absorb_noise (str s) c h = refl
absorb_noise (int s) c h = refl
absorb_noise (bool s) c h = refl
absorb_noise (arr s) c h = refl
absorb_noise (obj s) c h = cc

-- A stream within the limit whose first line holds a JSON value that is no object ends in an exception
-- after all its chunks were sent, and `on_finished` is not called.
pub iter_bytes_noise :
    (py : Streams) (limit : Option ℕ) (chunks : List (List ℕ)) (line : String)
    (lines events : List String) (event : String) (v : Value)
    → is_over limit (length (concat chunks)) ≡ false
    → py.split_events (py.decode (concat chunks)) ≡ event ∷ events
    → py.splitlines event ≡ line ∷ lines
    → starts_with line "data:" ≡ true
    → str_eq (py.strip (py.suffix 5 line)) "" ≡ false
    → str_eq (py.strip (py.suffix 5 line)) "[DONE]" ≡ false
    → py.loads (py.strip (py.suffix 5 line)) ≡ some v
    → is_dict v ≡ false
    → (iter_bytes py limit chunks true).finished ≡ raised
unfolding iter_bytes finish finalize absorb_events absorb_lines absorb_line absorb_text
iter_bytes_noise py limit chunks line lines events event v w e l a b c p d =
    rw
      (
        feed_all_within limit chunks init refl (plus_zero limit chunks ∙ w),
        e,
        absorb_events,
        l,
        absorb_lines,
        absorb_line,
        a,
        b,
        c,
        p,
        absorb_text,
        absorb_noise v (record init { buffer = concat chunks }) d,
      )
      refl
