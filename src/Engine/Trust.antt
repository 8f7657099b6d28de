-- ===== src/Engine/Trust.antt =====
-- `build` of src/context_proxy/context/engine.py on what `_fuse_candidates` makes.
use low_context_inference.Base.{ℕ, ◌+◌, ◌<◌, ◌≤◌, ◌≡◌, Bool, true, false, Option, String, List}
use low_context_inference.Runtime.{Runtime}
use low_context_inference.Memory.Retrieval.{ItemType}
use low_context_inference.Memory.Retrieval as Retrieval
use low_context_inference.Engine.{Candidate, sort_tiers, total}
use low_context_inference.Engine.Allocation.{Built, built, overflowed, promoted, tools_total}
use low_context_inference.Engine.Isolation.{remaining}

-- What the engine may answer when so many tokens must be sent: a plan within the budget when they
-- fit, and the overflow with their number when they do not.
abbrev pub Fits : (required usable : ℕ) → Built → Type 0
Fits required usable (built p) = (required ≤ usable) × (p.token_estimate ≤ usable)
Fits required usable (overflowed r u) = (usable < required) × (r ≡ required) × (u ≡ usable)
Fits required usable (promoted key) = ⊥

-- the tokens of the mandatory candidates and of the tools, among those that the filters keep
abbrev pub required_tokens : List String → Option String → List Candidate → ℕ
required_tokens ids conversation fused =
    let t = sort_tiers (remaining ids conversation fused).0 in
    total t.mandatory + tools_total t.tools

abbrev is_promoted : Built → Bool
is_promoted (promoted key) = true
is_promoted _ = false
