-- ===== src/Routes/Streams.antt =====
-- What the end of a stream through src/context_proxy/api/routes.py and capture.py leaves in the store.
use low_context_inference.Base.{
  ℕ, ◌≡◌, refl, ap, ◌∙◌, ◌⊎◌, inl, inr, Bool, true, false, not, Option, none, some, List, [], ◌∷◌,
  ◌++◌, length, if◌then◌else◌,
}
use low_context_inference.Json.{null, Fields, end, get, lookup}
use low_context_inference.Capture.{Streams, is_over}
use low_context_inference.Capture.Stream.{called, iter_bytes, leaves}
use low_context_inference.Capture.Limit.{concat, iter_bytes_chunks}
use low_context_inference.Routes.{Store, Run, Step, goes_on, raises}
use low_context_inference.Routes.Chat.{App, Prepared}
use low_context_inference.Routes.Inference.{
  persist_assistant, kept_in, caught, stream_finished, stream_ended, left_by,
}

module _ {W Item : Type 0} (app : App W Item) where
  kept_in-null :
      (store : Option (Store W)) (context : Prepared) (metadata : Fields) (r : Run W)
      → kept_in app store context null metadata r ≡ (r, goes_on tt)
  kept_in-null none context metadata r = refl
  kept_in-null (some store) context metadata r = refl

  stream_finished-nothing :
      (context : Prepared) (r : Run W)
      → stream_finished app context (called none end) r
        ≡ (record r { recorded = r.recorded ++ null ∷ [] }, goes_on tt)
  unfolding stream_finished persist_assistant get lookup
  stream_finished-nothing context r = ap (caught app) (
      kept_in-null (if context.persists then app.store else none) context end
        (record r { recorded = r.recorded ++ null ∷ [] }))

  nothing_captured :
      (py : Streams) (limit : Option ℕ) (chunks : List (List ℕ)) (complete : Bool)
      → (complete ≡ false) ⊎ (is_over limit (length (concat chunks)) ≡ true)
      → (iter_bytes py limit chunks complete).finished ≡ called none end
  nothing_captured py limit chunks false h = iter_bytes_chunks py limit chunks false
  nothing_captured py limit chunks true (inl e) = absurd (cc)
  nothing_captured py limit chunks true (inr e) =
      let whole = iter_bytes_chunks py limit chunks true in
      whole
      ∙ ap
          (λ b.
            if b then called none end else (iter_bytes py none (concat chunks ∷ []) true).finished)
          e

  left-nothing :
      (py : Streams) (limit : Option ℕ) (chunks : List (List ℕ)) (complete : Bool)
      → (iter_bytes py limit chunks complete).finished ≡ called none end
      → (iter_bytes py limit chunks complete).raises ≡ not complete
  unfolding iter_bytes
  left-nothing py limit chunks complete h = ap (leaves complete) h

  -- how a stream ends for the client
  abbrev pub ending_of : Bool → Step Unit
  ending_of true = goes_on tt
  ending_of false = raises

  -- A stream that broke off, or whose bytes are more than the limit of the capture, leaves no answer:
  -- the store, the index and everything else are what they were, and the empty usage is recorded,
  -- however the stream was cut into chunks. A stream that broke off ends in the exception that it broke
  -- off with; one that was read to its end raises nothing.
  pub stream_ended-nothing :
      (py : Streams) (limit : Option ℕ) (context : Prepared) (chunks : List (List ℕ))
      (complete : Bool) (r : Run W)
      → (complete ≡ false) ⊎ (is_over limit (length (concat chunks)) ≡ true)
      → stream_ended app py limit context chunks complete r
        ≡ (record r { recorded = r.recorded ++ null ∷ [] }, ending_of complete)
  unfolding stream_ended
  stream_ended-nothing py limit context chunks complete r h =
      let e = nothing_captured py limit chunks complete h in
      ap
        (λ b.
          left_by app b
            (stream_finished app context (iter_bytes py limit chunks complete).finished r))
        (left-nothing py limit chunks complete e)
      ∙ ap (λ f. left_by app (not complete) (stream_finished app context f r)) e
      ∙ ap (left_by app (not complete)) (stream_finished-nothing context r)
      ∙ ended complete
    where
      ended :
          (b : Bool)
          → left_by app (not b) (record r { recorded = r.recorded ++ null ∷ [] }, goes_on tt)
            ≡ (record r { recorded = r.recorded ++ null ∷ [] }, ending_of b)
      ended true = refl
      ended false = refl
