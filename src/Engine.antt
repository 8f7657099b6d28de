-- ===== src/Engine.antt =====
-- src/context_proxy/context/engine.py, on candidates of src/context_proxy/context/candidates.py.
-- Sets and dicts of keys are lists; the similarity, the relevance scores and the floats are
-- parameters.
pub mod Budget
pub mod Keeping
pub mod Isolation
pub mod Request
pub mod Allocation
pub mod Texts
pub mod Fusion
pub mod Trusted
pub mod Trust
pub mod Query
pub mod Scoring
pub mod Scores
use low_context_inference.Base.{
  ℕ, zero, suc, ◌+◌, ◌-◌, ◌≤◌, min, Bool, true, false, not, ◌&&◌, ◌||◌, Option, none, some, String,
  str_eq, List, [], ◌∷◌, ◌++◌, ltb, leb, ◌==◌, if◌then◌else◌, length, reverse, map,
}
use low_context_inference.Json.{Fields, get, is_text}
use low_context_inference.Mmr.{Floats, mmr_select}

pub data CandidateSource : Type 0 where
  system tool_definitions pinned current_request recent_turn memory chunk : CandidateSource

pub data CandidateClassification : Type 0 where
  trusted_instruction derived_context untrusted_user_data : CandidateClassification

unfoldable pub tier_by_source : CandidateSource → ℕ
tier_by_source system = 1
tier_by_source tool_definitions = 1
tier_by_source pinned = 2
tier_by_source current_request = 3
tier_by_source recent_turn = 4
tier_by_source memory = 5
tier_by_source chunk = 5

unfoldable pub classification_by_source : CandidateSource → CandidateClassification
classification_by_source system = trusted_instruction
classification_by_source tool_definitions = trusted_instruction
classification_by_source pinned = trusted_instruction
classification_by_source current_request = untrusted_user_data
classification_by_source recent_turn = untrusted_user_data
classification_by_source memory = derived_context
classification_by_source chunk = derived_context

pub record Candidate : Type 0 where
  pub source : CandidateSource
  pub key : String
  pub tokens : ℕ
  pub tier : ℕ
  pub render : List Fields
  pub text : String
  -- the entries of `metadata` that the engine reads
  pub conversation_id : Option String
  pub explicit : Option CandidateClassification
  pub position : ℕ
  pub content_texts : List String
  pub dedup_text : String

unfoldable pub classification : Candidate → CandidateClassification
unfolding classification_by_source
classification c = elim c.explicit [ none ↦ classification_by_source c.source | some k ↦ k ]

pub data DropReason : Type 0 where
  superseded foreign_conversation duplicate budget not_selected : DropReason

pub record DroppedCandidate : Type 0 where
  pub key : String
  pub source : CandidateSource
  pub reason : DropReason

abbrev pub is_memory : CandidateSource → Bool
is_memory memory = true
is_memory _ = false

abbrev pub is_retrieval : CandidateSource → Bool
is_retrieval memory = true
is_retrieval chunk = true
is_retrieval _ = false

abbrev pub is_request : CandidateSource → Bool
is_request current_request = true
is_request _ = false

abbrev pub is_recent : CandidateSource → Bool
is_recent recent_turn = true
is_recent _ = false

abbrev pub is_tools : CandidateSource → Bool
is_tools tool_definitions = true
is_tools _ = false

-- `text in texts`
unfoldable pub contains : String → List String → Bool
contains s [] = false
contains s (t ∷ ts) = str_eq t s || contains s ts

abbrev pub keys : List Candidate → List String
keys = map (λ c. c.key)

abbrev pub dropped_keys : List DroppedCandidate → List String
dropped_keys = map (λ d. d.key)

-- `dropped[d.key] = d`
unfoldable pub put_dropped : DroppedCandidate → List DroppedCandidate → List DroppedCandidate
put_dropped x [] = x ∷ []
put_dropped x (d ∷ ds) =
    let rest = put_dropped x ds in if str_eq d.key x.key then x ∷ ds else d ∷ rest

abbrev pub drop_as : DropReason → Candidate → List DroppedCandidate → List DroppedCandidate
drop_as reason c = put_dropped (record { key = c.key; source = c.source; reason = reason })

-- `dropped.update(duplicates)`
unfoldable pub update : List DroppedCandidate → List DroppedCandidate → List DroppedCandidate
unfolding put_dropped
update dropped [] = dropped
update dropped (d ∷ ds) = update (put_dropped d dropped) ds

-- the kept candidates and the dropped ones
abbrev pub Filtered : Type 0
Filtered = List Candidate × List DroppedCandidate

-- the loop of the two filters: drops the candidates that fail a test
unfoldable pub filter_out :
    (Candidate → Bool) → DropReason → List Candidate → List DroppedCandidate → Filtered
unfolding put_dropped
filter_out test reason [] dropped = ([], dropped)
filter_out test reason (c ∷ cs) dropped =
    let out = filter_out test reason cs (drop_as reason c dropped) in
    let kept = filter_out test reason cs dropped in if test c then out else (c ∷ kept.0, kept.1)

abbrev pub is_superseded : List String → Candidate → Bool
is_superseded ids c = is_memory c.source && contains c.key ids

unfoldable pub filter_superseded : List String → List Candidate → List DroppedCandidate → Filtered
unfolding filter_out contains
filter_superseded ids = filter_out (is_superseded ids) superseded

-- `candidate.conversation_id != conversation_id`
abbrev pub is_foreign : String → Candidate → Bool
is_foreign conversation c =
    is_retrieval c.source
    && (elim c.conversation_id [ none ↦ true | some own ↦ not (str_eq own conversation) ])

unfoldable pub filter_foreign : Option String → List Candidate → List DroppedCandidate → Filtered
unfolding filter_out
filter_foreign none candidates dropped = (candidates, dropped)
filter_foreign (some conversation) candidates dropped =
    filter_out (is_foreign conversation) foreign_conversation candidates dropped

-- `seen_raw`, after a raw candidate
abbrev pub see_raw : Candidate → List String → List String
see_raw c seen = c.content_texts ++ (if str_eq c.text "" then seen else c.text ∷ seen)

abbrev pub is_raw : Candidate → Bool
is_raw c = leb c.tier (tier_by_source recent_turn)

unfoldable pub deduplicate_from :
    List String → List String → List Candidate → List DroppedCandidate → Filtered
unfolding tier_by_source contains put_dropped
deduplicate_from raw seen [] duplicates = ([], duplicates)
deduplicate_from raw seen (c ∷ cs) duplicates =
    let after_raw = deduplicate_from (see_raw c raw) seen cs duplicates in
    let plain = deduplicate_from raw seen cs duplicates in
    let out = deduplicate_from raw seen cs (drop_as duplicate c duplicates) in
    let new = deduplicate_from raw (c.dedup_text ∷ seen) cs duplicates in
    if is_raw c
    then (c ∷ after_raw.0, after_raw.1)
    else if str_eq c.dedup_text ""
    then (c ∷ plain.0, plain.1)
    else if contains c.dedup_text raw || contains c.dedup_text seen
    then out
    else (c ∷ new.0, new.1)

unfoldable pub deduplicate : List Candidate → Filtered
unfolding deduplicate_from
deduplicate candidates = deduplicate_from [] [] candidates []

-- the lists that `_allocate` sorts the candidates into
pub record Tiers : Type 0 where
  pub mandatory : List Candidate
  pub recent : List Candidate
  pub retrieval : List Candidate
  pub tools : Option Candidate

-- the candidates from one on, put before those that follow; the last tool definitions win
abbrev pub last_tools : Candidate → Option Candidate → Option Candidate
last_tools c none = some c
last_tools c (some later) = some later

unfoldable pub sort_tiers : List Candidate → Tiers
unfolding tier_by_source
sort_tiers [] = record { mandatory = []; recent = []; retrieval = []; tools = none }
sort_tiers (c ∷ cs) =
    let t = sort_tiers cs in
    if is_tools c.source
    then record t { tools = last_tools c t.tools }
    else if leb c.tier (tier_by_source pinned) || is_request c.source
    then record t { mandatory = c ∷ t.mandatory }
    else if is_recent c.source
    then record t { recent = c ∷ t.recent }
    else record t { retrieval = c ∷ t.retrieval }

abbrev pub total : List Candidate → ℕ
total [] = 0
total (c ∷ cs) = c.tokens + total cs

-- the loop over `reversed(recent)`, that stops at the first unit that does not fit
unfoldable pub fit_recent : ℕ → ℕ → List Candidate → List Candidate × ℕ
fit_recent remaining used [] = ([], used)
fit_recent remaining used (c ∷ cs) =
    let rest = fit_recent remaining (used + c.tokens) cs in
    if ltb remaining (used + c.tokens) then ([], used) else (c ∷ rest.0, rest.1)

-- the loops that record the candidates that were left out
unfoldable pub drop_absent :
    DropReason → List String → List Candidate → List DroppedCandidate → List DroppedCandidate
unfolding put_dropped contains
drop_absent reason kept [] dropped = dropped
drop_absent reason kept (c ∷ cs) dropped =
    drop_absent reason kept cs (if contains c.key kept then dropped else drop_as reason c dropped)

-- `by_key[key]`: the last candidate with the key
unfoldable pub by_key : String → List Candidate → Option Candidate
by_key key [] = none
by_key key (c ∷ cs) = elim (by_key key cs) [
  | some later ↦ some later
  | none ↦ if str_eq c.key key then some c else none
]
