-- ===== src/Routes/Accounting.antt =====
-- Which usages `chat_completions` of src/context_proxy/api/routes.py records.
use low_context_inference.Base.{◌≡◌, refl, Option, List, [], ◌∷◌, ◌++◌}
use low_context_inference.Json.{Value, Fields, get}
use low_context_inference.Capture.Stream.{called}
use low_context_inference.Routes.{Run, Step, goes_on, refuses, raises}
use low_context_inference.Routes.Chat.{App, Prepared}
use low_context_inference.Routes.Inference.{
  inferred, stream_finished, persist_assistant, caught, message_value,
}
use low_context_inference.Routes.Sending.{
  LateFrom, persist_assistant-IsLate, recorded_by, inferred-sends,
}

module _ {W Item : Type 0} (app : App W Item) where
  -- what is caught has recorded the same
  caught-LateFrom :
      (r : Run W) (us : List Value) (x : Run W × Step Unit)
      → LateFrom r us x
      → ((caught app x).0.recorded ≡ r.recorded ++ us) × ((caught app x).1 ≡ goes_on tt)
  caught-LateFrom r us (r', goes_on u) (s, c, n) = (c, refl)
  caught-LateFrom r us (r', refuses answer) (s, c, n) = elim n [ ]
  caught-LateFrom r us (r', raises) (s, c, n) = (c, refl)

  -- Whatever the store, the memory service and their failures are: a buffered answer has its usage
  -- recorded once if its status is 2xx and its body has a message, and otherwise not at all, also if
  -- its body has a usage; opening a stream records nothing, and the call of `on_finished` at the end
  -- of a stream records its usage once and lets no exception through.
  pub inferred-stream_finished :
      (context : Prepared) (message : Option Fields) (metadata : Fields) (r : Run W)
      → let x = inferred app context r in
        let y = stream_finished app context (called message metadata) r in
        (x.0.recorded ≡ r.recorded ++ recorded_by app context r)
        × (y.0.recorded ≡ r.recorded ++ get metadata "usage" ∷ [])
        × (y.1 ≡ goes_on tt)
  unfolding stream_finished
  inferred-stream_finished context message metadata r =
      let (s, c, n) = inferred-sends app context r in
      let value = message_value app message in
      let (d, e) =
        caught-LateFrom r (get metadata "usage" ∷ [])
          (persist_assistant app context value metadata r)
          (persist_assistant-IsLate app context value metadata r) in
      (c, d, e)
