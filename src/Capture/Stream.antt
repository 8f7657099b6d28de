-- ===== src/Capture/Stream.antt =====
-- `PersistingLLMStream.iter_bytes` of src/context_proxy/capture.py. What the inner stream sends
-- before it ends, or before it raises an exception or the client goes away, is a list of chunks.
use low_context_inference.Base.{
  ℕ, Bool, true, not, Option, none, some, List, [], ◌∷◌, if◌then◌else◌,
}
use low_context_inference.Json.{Fields, end}
use low_context_inference.Capture.{Streams, AssistantCapture, init, feed}
use low_context_inference.Capture.Message.{finalize, response_metadata}

-- the loop over the chunks
unfoldable pub feed_all : Option ℕ → List (List ℕ) → AssistantCapture → AssistantCapture
unfolding feed
feed_all max_bytes [] c = c
feed_all max_bytes (chunk ∷ chunks) c = feed_all max_bytes chunks (feed max_bytes chunk c)

-- how the `finally` block ends: `on_finished` is called, or an exception leaves the generator before
pub data Finished : Type 0 where
  called : (message : Option Fields) (metadata : Fields) → Finished
  raised : Finished

pub record Iteration : Type 0 where
  pub yielded : List (List ℕ)
  pub finished : Finished
  -- whether an exception leaves the generator in the end
  pub raises : Bool

-- An exception of the inner stream, or the one that closes the generator, goes on after the `finally`
-- block, whatever that did; `finalize` may raise in it.
abbrev pub leaves : Bool → Finished → Bool
leaves completed (called message metadata) = not completed
leaves completed raised = true

module _ (py : Streams) where
  abbrev pub close : Option (AssistantCapture × Option Fields) → Finished
  close none = raised
  close (some (c, message)) = called message (response_metadata c)

  unfoldable pub finish : Bool → AssistantCapture → Finished
  unfolding finalize response_metadata
  finish completed c =
      if completed
      then (if c.overflowed then called none end else close (finalize py c))
      else called none end

  -- What `on_finished` raises is caught, whatever it is.
  unfoldable pub iter_bytes : Option ℕ → List (List ℕ) → Bool → Iteration
  unfolding feed_all finish
  iter_bytes max_capture_bytes chunks completed =
      let finished = finish completed (feed_all max_capture_bytes chunks init) in
      record { yielded = chunks; finished = finished; raises = leaves completed finished }
