-- ===== src/Engine/Trusted.antt =====
-- What `_fuse_candidates` of src/context_proxy/context/engine.py makes, and the trust boundary.
use low_context_inference.Base.{
  ℕ, suc, ◌≡◌, refl, false, ◌&&◌, Option, none, some, String, List, [], ◌∷◌, ◌++◌, All, Bool-cases,
  inl, inr, arith, length,
}
use low_context_inference.Json.{Value, Fields, get, lookup, is_text}
use low_context_inference.Runtime.{Runtime}
use low_context_inference.Tokens.{Counter}
use low_context_inference.Planner.{MessageUnit, is_system, segment_messages}
use low_context_inference.Memory.Retrieval.{RetrievedItem, ItemType}
use low_context_inference.Memory.Retrieval as Retrieval
use low_context_inference.Engine.{Candidate, classification, classification_by_source}
use low_context_inference.Engine.Keeping.{All-append}
use low_context_inference.Engine.Allocation.{first_promoted, is_derived, opens_with_system}
use low_context_inference.Engine.Texts.{Rendering, message_texts}
use low_context_inference.Store.{◌>>=◌}
use low_context_inference.Engine.Fusion.{
  candidate, retrieved_candidate, unit_candidates, unit_source, request_candidates,
  tools_candidates, pinned_candidates, retrieved_candidates, candidate_from_retrieved,
  dedup_text_of, fuse_candidates,
}

abbrev pub IsTrusted : Candidate → Type 0
IsTrusted c = (is_derived c && opens_with_system c.render) ≡ false

pub first_promoted-none : (cs : List Candidate) → All IsTrusted cs → first_promoted cs ≡ none
unfolding first_promoted
first_promoted-none [] a = refl
first_promoted-none (c ∷ cs) a = rw (first_promoted, a.0) (first_promoted-none cs a.1)

abbrev pub AreTrusted : Option (List Candidate) → Type 0
AreTrusted none = Unit
AreTrusted (some cs) = All IsTrusted cs

bind-AreTrusted :
    {A : Type 0} (o : Option A) (f : A → Option (List Candidate))
    → ((a : A) → AreTrusted (f a))
    → AreTrusted (o >>= f)
bind-AreTrusted none f h = tt
bind-AreTrusted (some a) f h = h a

then-AreTrusted :
    (o : Option (List Candidate)) (f : List Candidate → Option (List Candidate))
    → AreTrusted o
    → ((cs : List Candidate) → All IsTrusted cs → AreTrusted (f cs))
    → AreTrusted (o >>= f)
then-AreTrusted none f a h = tt
then-AreTrusted (some cs) f a h = h cs a

module _ (py : Runtime) (rd : Rendering) (counter : Counter) (fl : Retrieval.Floats) where
  unit-IsTrusted :
      (key : String) (text : String) (index : ℕ) (u : MessageUnit) (texts : List String)
      → IsTrusted (
          candidate py rd counter fl
            (unit_source py rd counter fl u)
            key
            u.tokens
            u.messages
            text
            index
            texts)
  unfolding classification classification_by_source
  unit-IsTrusted key text index u texts = elim (Bool-cases (is_system u)) [
    | inl e ↦ rw e refl
    | inr e ↦ rw e refl
  ]

  units-AreTrusted :
      (index : ℕ) (units : List MessageUnit)
      → AreTrusted (unit_candidates py rd counter fl index units)
  unfolding unit_candidates
  units-AreTrusted index [] = tt
  units-AreTrusted index (u ∷ units) = bind-AreTrusted (message_texts py rd u.messages) _ (λ text.
      then-AreTrusted (unit_candidates py rd counter fl (suc index) units) _
        (units-AreTrusted (suc index) units) (λ cs a. (unit-IsTrusted _ _ index u _, a)))

  request-AreTrusted :
      (count : ℕ) (request : List Fields)
      → AreTrusted (request_candidates py rd counter fl count request)
  unfolding classification classification_by_source
  request-AreTrusted count [] = tt
  request-AreTrusted count (m ∷ ms) =
      bind-AreTrusted (message_texts py rd (m ∷ ms)) _ (λ text. (refl, tt))

  tools-AreTrusted : (tools : List Value) → All IsTrusted (tools_candidates py rd counter fl tools)
  unfolding classification classification_by_source
  tools-AreTrusted [] = tt
  tools-AreTrusted (t ∷ ts) = (refl, tt)

  pinned-AreTrusted :
      (index : ℕ) (pins : List Fields) → AreTrusted (pinned_candidates py rd counter fl index pins)
  unfolding pinned_candidates classification classification_by_source
  pinned-AreTrusted index [] = tt
  pinned-AreTrusted index (m ∷ ms) = bind-AreTrusted (message_texts py rd (m ∷ [])) _ (λ text.
      then-AreTrusted (pinned_candidates py rd counter fl (suc index) ms) _
        (pinned-AreTrusted (suc index) ms) (λ cs a. (refl, a)))

  retrieved-IsTrusted :
      (item : RetrievedItem fl) (text : String)
      → IsTrusted (retrieved_candidate py rd counter fl item text)
  unfolding is_text get lookup
  retrieved-IsTrusted item text = ground arith

  from_retrieved-AreTrusted :
      (item : RetrievedItem fl) (f : Candidate → Option (List Candidate))
      → ((c : Candidate) → IsTrusted c → AreTrusted (f c))
      → AreTrusted (candidate_from_retrieved py rd counter fl item >>= f)
  unfolding candidate_from_retrieved
  from_retrieved-AreTrusted item f h =
      go (dedup_text_of py rd counter fl item.item_type item.content)
    where
      go :
          (o : Option String)
          → AreTrusted ((o >>= λ text. some (retrieved_candidate py rd counter fl item text)) >>= f)
      go none = tt
      go (some text) =
          h (retrieved_candidate py rd counter fl item text) (retrieved-IsTrusted item text)

  retrieved-AreTrusted :
      (items : List (RetrievedItem fl)) → AreTrusted (retrieved_candidates py rd counter fl items)
  unfolding retrieved_candidates
  retrieved-AreTrusted [] = tt
  retrieved-AreTrusted (item ∷ items) = from_retrieved-AreTrusted item _ (λ c p.
      then-AreTrusted (retrieved_candidates py rd counter fl items) _ (retrieved-AreTrusted items)
        (λ cs a. (p, a)))

  pub fuse-AreTrusted :
      (history request : List Fields) (tools : List Value) (pins : List Fields)
      (items : List (RetrievedItem fl))
      → AreTrusted (fuse_candidates py rd counter fl history request tools pins items)
  unfolding fuse_candidates
  fuse-AreTrusted history request tools pins items =
      then-AreTrusted (unit_candidates py rd counter fl 0 (segment_messages counter history)) _
        (units-AreTrusted 0 (segment_messages counter history))
        (λ us a.
          then-AreTrusted
            (request_candidates py rd counter fl (length (segment_messages counter history))
              request)
            _ (request-AreTrusted (length (segment_messages counter history)) request)
            (λ rs b.
              then-AreTrusted (pinned_candidates py rd counter fl 0 pins) _
                (pinned-AreTrusted 0 pins)
                (λ ps c.
                  then-AreTrusted (retrieved_candidates py rd counter fl items) _
                    (retrieved-AreTrusted items)
                    (λ is d.
                      All-append IsTrusted
                        (us ++ rs ++ tools_candidates py rd counter fl tools ++ ps) is
                        (All-append IsTrusted (us ++ rs ++ tools_candidates py rd counter fl tools)
                          ps
                          (All-append IsTrusted (us ++ rs) (tools_candidates py rd counter fl tools)
                            (All-append IsTrusted us rs a b) (tools-AreTrusted tools))
                          c)
                        d))))
