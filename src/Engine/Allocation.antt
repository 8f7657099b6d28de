-- ===== src/Engine/Allocation.antt =====
-- `_allocate` and `_make_plan` of src/context_proxy/context/engine.py.
use low_context_inference.Base.{
  ℕ, ◌+◌, ◌-◌, min, Bool, true, false, ◌&&◌, ◌||◌, Option, none, some, String, List, [], ◌∷◌, ◌++◌,
  ltb, ◌==◌, if◌then◌else◌, length, reverse, map,
}
use low_context_inference.Json.{Fields, get, is_text}
use low_context_inference.Mmr.{Floats, mmr_select}
use low_context_inference.Engine.{
  Candidate, CandidateSource, derived_context, classification, DroppedCandidate, budget,
  not_selected, drop_as, put_dropped, update, drop_absent, contains, keys, dropped_keys, is_request,
  is_tools, sort_tiers, Tiers, total, fit_recent, by_key, filter_superseded, filter_foreign,
  deduplicate,
}

-- the loop that records what MMR did not pick
unfoldable pub drop_unpicked :
    List String → List Candidate → List DroppedCandidate → List DroppedCandidate
unfolding put_dropped contains
drop_unpicked picked [] dropped = dropped
drop_unpicked picked (c ∷ cs) dropped = drop_unpicked picked cs (
    if contains c.key picked || contains c.key (dropped_keys dropped)
    then dropped
    else drop_as not_selected c dropped)

-- the candidates picked for the retrieved category, and their tokens
pub record Picked : Type 0 where
  pub picked : List Candidate
  pub tokens : ℕ
  pub dropped : List DroppedCandidate

-- the loop over the ranked keys, which are keys of retrieved blocks, from a number of tokens on
unfoldable pub pack : ℕ → List Candidate → List String → ℕ → List DroppedCandidate → Picked
unfolding by_key put_dropped
pack cap retrieval [] used dropped = record { picked = []; tokens = used; dropped = dropped }
pack cap retrieval (key ∷ ranked) used dropped = elim (by_key key retrieval) [
  | none ↦ pack cap retrieval ranked used dropped
  | some c ↦
      let out = pack cap retrieval ranked used (drop_as budget c dropped) in
      let rest = pack cap retrieval ranked (used + c.tokens) dropped in
      if ltb cap (used + c.tokens) then out else record rest { picked = c ∷ rest.picked }
]

pub record Allocation : Type 0 where
  pub ordered : List Candidate
  pub recent_tokens : ℕ
  pub retrieved_tokens : ℕ
  pub mandatory_tokens : ℕ
  pub tools_tokens : ℕ
  pub dropped : List DroppedCandidate

pub data Allocated : Type 0 where
  allocated : Allocation → Allocated
  overflow : (required usable : ℕ) → Allocated

pub record SelectedItem : Type 0 where
  pub key : String
  pub source : CandidateSource
  pub tokens : ℕ

pub record ContextPlan : Type 0 where
  pub messages : List Fields
  pub selected_items : List SelectedItem
  pub dropped_items : List DroppedCandidate
  pub token_estimate : ℕ
  pub tools_tokens : ℕ
  pub usable : ℕ

pub data Built : Type 0 where
  built : ContextPlan → Built
  -- `ContextOverflowError`
  overflowed : (required usable : ℕ) → Built
  -- `RuntimeError`: derived data rendered as an instruction
  promoted : (key : String) → Built

abbrev pub tools_total : Option Candidate → ℕ
tools_total none = 0
tools_total (some c) = c.tokens

-- `head` without the request that is put last
unfoldable pub without_request : List Candidate → List Candidate
without_request [] = []
without_request (c ∷ cs) =
    let rest = without_request cs in if is_request c.source then cs else c ∷ rest

unfoldable pub first_request : List Candidate → List Candidate
first_request [] = []
first_request (c ∷ cs) = let rest = first_request cs in if is_request c.source then c ∷ [] else rest

abbrev pub rendered : List Candidate → List Fields
rendered [] = []
rendered (c ∷ cs) = c.render ++ rendered cs

abbrev pub selected_item : Candidate → SelectedItem
selected_item c = record { key = c.key; source = c.source; tokens = c.tokens }

abbrev pub selected : List Candidate → List SelectedItem
selected [] = []
selected (c ∷ cs) = if is_tools c.source then selected cs else selected_item c ∷ selected cs

abbrev pub is_derived : Candidate → Bool
is_derived c = elim (classification c) [ derived_context ↦ true | _ ↦ false ]

abbrev pub opens_with_system : List Fields → Bool
opens_with_system [] = false
opens_with_system (m ∷ ms) = is_text (get m "role") "system"

-- the first candidate that the trust boundary refuses
unfoldable pub first_promoted : List Candidate → Option String
unfolding classification is_text get
first_promoted [] = none
first_promoted (c ∷ cs) =
    let rest = first_promoted cs in
    if is_derived c && opens_with_system c.render then some c.key else rest

module _ (fl : Floats) where
  open fl use {text_less}

  -- `<` of `(tier, position, key)`
  unfoldable pub head_less : Candidate → Candidate → Bool
  head_less a b =
      ltb a.tier b.tier
      || a.tier == b.tier
        && (ltb a.position b.position || a.position == b.position && text_less a.key b.key)

  unfoldable pub insert_head : Candidate → List Candidate → List Candidate
  unfolding head_less
  insert_head x [] = x ∷ []
  insert_head x (y ∷ ys) =
      let rest = insert_head x ys in if head_less y x then y ∷ rest else x ∷ y ∷ ys

  unfoldable pub sort_head : List Candidate → List Candidate
  unfolding insert_head
  sort_head [] = []
  sort_head (x ∷ xs) = insert_head x (sort_head xs)

  -- `sorted(dropped)`
  unfoldable pub insert_dropped : DroppedCandidate → List DroppedCandidate → List DroppedCandidate
  insert_dropped x [] = x ∷ []
  insert_dropped x (y ∷ ys) =
      let rest = insert_dropped x ys in if text_less y.key x.key then y ∷ rest else x ∷ y ∷ ys

  unfoldable pub sort_dropped : List DroppedCandidate → List DroppedCandidate
  unfolding insert_dropped
  sort_dropped [] = []
  sort_dropped (x ∷ xs) = insert_dropped x (sort_dropped xs)

  module _ (similarity : String → String → fl.Num) (lam : fl.Num) (relevance : Candidate → fl.Num)
      (max_retrieved_items retrieved_budget_tokens usable : ℕ) where
    unfoldable pub ranked : List Candidate → List String
    unfolding mmr_select
    ranked retrieval =
        mmr_select fl similarity lam (map (λ c. (relevance c, c.key)) retrieval)
          (min max_retrieved_items (length retrieval))

    -- tier 5: nothing is picked without retrieved blocks, room or a limit
    unfoldable pub pick_retrieved : ℕ → List Candidate → List DroppedCandidate → Picked
    unfolding pack ranked
    pick_retrieved remaining retrieval dropped =
        if length retrieval == 0 || remaining == 0 || max_retrieved_items == 0
        then record { picked = []; tokens = 0; dropped = dropped }
        else pack (min remaining retrieved_budget_tokens) retrieval (ranked retrieval) 0 dropped

    abbrev pub order : List Candidate → List Candidate → List Candidate → List Candidate
    order head retrieved kept = without_request head ++ retrieved ++ kept ++ first_request head

    -- what follows the test of the mandatory tokens
    unfoldable pub allocate_rest : Tiers → List DroppedCandidate → Allocation
    unfolding fit_recent pick_retrieved drop_absent drop_unpicked sort_head without_request
        first_request
    allocate_rest t dropped =
        let mandatory = total t.mandatory in
        let tools = tools_total t.tools in
        let remaining = usable - mandatory - tools in
        let (window, recent_tokens) = fit_recent remaining 0 (reverse t.recent) in
        let kept = reverse window in
        let p =
          pick_retrieved (remaining - recent_tokens) t.retrieval
            (drop_absent budget (keys kept) t.recent dropped) in
        record {
          ordered = order (sort_head t.mandatory) p.picked kept;
          recent_tokens = recent_tokens;
          retrieved_tokens = p.tokens;
          mandatory_tokens = mandatory;
          tools_tokens = tools;
          dropped = drop_unpicked (keys p.picked) t.retrieval p.dropped;
        }

    unfoldable pub allocate : List Candidate → List DroppedCandidate → Allocated
    unfolding sort_tiers allocate_rest
    allocate candidates dropped =
        let t = sort_tiers candidates in
        let required = total t.mandatory + tools_total t.tools in
        if ltb usable required
        then overflow required usable
        else allocated (allocate_rest t dropped)

    unfoldable pub make_plan : Allocation → Built
    unfolding first_promoted sort_dropped
    make_plan a =
        let estimate = total a.ordered + a.tools_tokens in
        elim (first_promoted a.ordered) [
          | some key ↦ promoted key
          | none ↦
              if ltb usable estimate
              then overflowed estimate usable
              else built (record {
                messages = rendered a.ordered;
                selected_items = selected a.ordered;
                dropped_items = sort_dropped a.dropped;
                token_estimate = estimate;
                tools_tokens = a.tools_tokens;
                usable = usable;
              })
        ]

    abbrev pub plan_of : Allocated → Built
    plan_of (overflow required u) = overflowed required u
    plan_of (allocated a) = make_plan a

    -- `build`, on the fused candidates
    unfoldable pub build : List Candidate → List String → Option String → Built
    unfolding filter_superseded filter_foreign deduplicate allocate make_plan update
    build fused superseded_memory_ids conversation_id =
        let active = filter_superseded superseded_memory_ids fused [] in
        let own = filter_foreign conversation_id active.0 active.1 in
        let kept = deduplicate own.0 in plan_of (allocate kept.0 (update own.1 kept.1))
