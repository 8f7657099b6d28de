-- ===== src/Engine/Isolation.antt =====
-- Which candidates the engine can send: none that its filters refuse.
use low_context_inference.Base.{
  ℕ, ◌+◌, ◌-◌, ◌≡◌, ◌⊎◌, inl, inr, refl, sym, ap, ◌∙◌, min, Bool, true, false, not, ◌&&◌, ◌||◌,
  ◌==◌, Option, none, some, String, List, [], ◌∷◌, ◌++◌, ltb, length, reverse, Bool-cases,
  Option-cases, All, str_eq, eq_iff, eq_refl, arith,
}
use low_context_inference.Mmr.{Floats}
use low_context_inference.Engine.{
  Candidate, CandidateSource, system, tool_definitions, pinned, current_request, recent_turn,
  memory, chunk, superseded, foreign_conversation, total, fit_recent, sort_tiers, Tiers,
  DroppedCandidate, DropReason, drop_absent, keys, budget, filter_out, filter_superseded,
  filter_foreign, deduplicate, is_superseded, is_foreign, is_memory, is_retrieval, contains, update,
}
use low_context_inference.Engine.Allocation.{
  allocated, overflow, Allocated, Built, built, tools_total, without_request, first_request,
  insert_head, sort_head, head_less, pick_retrieved, allocate_rest, allocate, ranked, rendered,
  selected, make_plan, plan_of, build, first_promoted,
}
use low_context_inference.Engine.Keeping.{
  AllTiers, All-append, All-reverse, filter_out-All, deduplicate_from-All, sort_tiers-All,
  fit_recent-All, pack-All, without_request-All, first_request-All,
}

-- what a filter keeps fails its test
filter_out-test :
    (test : Candidate → Bool) (reason : DropReason) (cs : List Candidate)
    (dropped : List DroppedCandidate)
    → All (λ c. test c ≡ false) (filter_out test reason cs dropped).0
unfolding filter_out
filter_out-test test reason [] dropped = tt
filter_out-test test reason (c ∷ cs) dropped = elim (Bool-cases (test c)) [
  | inl e ↦ rw (e, filter_out) (filter_out-test test reason cs _)
  | inr e ↦ rw (e, filter_out) (e, filter_out-test test reason cs dropped)
]

All-both :
    (P Q : Candidate → Type 0) (xs : List Candidate) → All P xs → All Q xs → All (λ c. P c × Q c) xs
All-both P Q [] a b = tt
All-both P Q (x ∷ xs) a b = ((a.0, b.0), All-both P Q xs a.1 b.1)

-- the candidate belongs to the conversation, if one is given
abbrev pub IsOf : Option String → Candidate → Type 0
IsOf none c = Unit
IsOf (some conversation) c = c.conversation_id ≡ some conversation

abbrev IsOwnAs : CandidateSource → List String → Option String → Candidate → Type 0
IsOwnAs memory ids conversation c = All (λ id. ¬ (id ≡ c.key)) ids × IsOf conversation c
IsOwnAs chunk ids conversation c = IsOf conversation c
IsOwnAs _ ids conversation c = Unit

-- A memory is none of the superseded ones, and a memory or a chunk is of the conversation.
abbrev pub IsOwn : List String → Option String → Candidate → Type 0
IsOwn ids conversation c = IsOwnAs c.source ids conversation c

not_superseded :
    (ids : List String) (key : String) → contains key ids ≡ false → All (λ id. ¬ (id ≡ key)) ids
unfolding contains
not_superseded [] key h = tt
not_superseded (id ∷ ids) key h = (
  λ e. ground (arith, h, e, eq_iff id key, eq_refl key),
  not_superseded ids key (ground (arith, h)),
)

same_conversation :
    (conversation : String) (own : Option String)
    → (elim own [ none ↦ true | some id ↦ not (str_eq id conversation) ]) ≡ false
    → own ≡ some conversation
same_conversation conversation none h = absurd (ground (arith, h))
same_conversation conversation (some id) h = ap some (ground (arith, h, eq_iff id conversation))

All-weaken :
    (P Q : Candidate → Type 0)
    → ((c : Candidate) → P c → Q c)
    → (xs : List Candidate) → All P xs
    → All Q xs
All-weaken P Q f [] a = tt
All-weaken P Q f (x ∷ xs) a = (f x a.0, All-weaken P Q f xs a.1)

-- what passes both tests is own
passes_both :
    (source : CandidateSource) (ids : List String) (conversation : String) (c : Candidate)
    → c.source ≡ source
    → is_superseded ids c ≡ false
    → is_foreign conversation c ≡ false
    → IsOwnAs source ids (some conversation) c
passes_both memory ids conversation c e a b = (
  not_superseded ids c.key (ap (λ s. is_memory s && contains c.key ids) (sym e) ∙ a),
  same_conversation conversation c.conversation_id (
      ap
        (λ s.
          is_retrieval s
          && (elim c.conversation_id [ none ↦ true | some own ↦ not (str_eq own conversation) ]))
        (sym e)
      ∙ b),
)
passes_both chunk ids conversation c e a b = same_conversation conversation c.conversation_id (
    ap
      (λ s.
        is_retrieval s
        && (elim c.conversation_id [ none ↦ true | some own ↦ not (str_eq own conversation) ]))
      (sym e)
    ∙ b)
passes_both system ids conversation c e a b = tt
passes_both tool_definitions ids conversation c e a b = tt
passes_both pinned ids conversation c e a b = tt
passes_both current_request ids conversation c e a b = tt
passes_both recent_turn ids conversation c e a b = tt

passes_first :
    (source : CandidateSource) (ids : List String) (c : Candidate)
    → c.source ≡ source
    → is_superseded ids c ≡ false
    → IsOwnAs source ids none c
passes_first memory ids c e a =
    (not_superseded ids c.key (ap (λ s. is_memory s && contains c.key ids) (sym e) ∙ a), tt)
passes_first chunk ids c e a = tt
passes_first system ids c e a = tt
passes_first tool_definitions ids c e a = tt
passes_first pinned ids c e a = tt
passes_first current_request ids c e a = tt
passes_first recent_turn ids c e a = tt

-- the candidate is one of those
abbrev pub IsAmong : List Candidate → Candidate → Type 0
IsAmong [] c = ⊥
IsAmong (d ∷ cs) c = (c ≡ d) ⊎ IsAmong cs c

among_intro :
    (P : Candidate → Type 0) (cs : List Candidate)
    → ((c : Candidate) → IsAmong cs c → P c)
    → All P cs
among_intro P [] f = tt
among_intro P (c ∷ cs) f = (f c (inl refl), among_intro P cs (λ d m. f d (inr m)))

-- the candidates that `build` allocates, and those that it dropped so far
abbrev pub remaining :
    List String → Option String → List Candidate → List Candidate × List DroppedCandidate
remaining ids conversation fused =
    let active = filter_superseded ids fused [] in
    let own = filter_foreign conversation active.0 active.1 in
    let kept = deduplicate own.0 in (kept.0, update own.1 kept.1)

pub remaining-All :
    (P : Candidate → Type 0) (ids : List String) (conversation : Option String)
    (fused : List Candidate)
    → All P fused
    → All (λ c. P c × IsOwn ids conversation c) (remaining ids conversation fused).0
unfolding filter_superseded filter_foreign deduplicate
remaining-All P ids none fused a =
    let kept = filter_superseded ids fused [] in
    deduplicate_from-All (λ c. P c × IsOwn ids none c) [] [] kept.0 []
      (All-both P (IsOwn ids none) kept.0
        (filter_out-All P (is_superseded ids) superseded fused [] a)
        (All-weaken (λ c. is_superseded ids c ≡ false) (IsOwn ids none)
          (λ c e. passes_first c.source ids c refl e) kept.0
          (filter_out-test (is_superseded ids) superseded fused [])))
remaining-All P ids (some conversation) fused a =
    let active = filter_superseded ids fused [] in
    let Kept = λ (c : Candidate). P c × (is_superseded ids c ≡ false) in
    let own = filter_foreign (some conversation) active.0 active.1 in
    deduplicate_from-All (λ c. P c × IsOwn ids (some conversation) c) [] [] own.0 []
      (All-weaken (λ c. Kept c × (is_foreign conversation c ≡ false))
        (λ c. P c × IsOwn ids (some conversation) c)
        (λ c h. (h.0.0, passes_both c.source ids conversation c refl h.0.1 h.1)) own.0
        (All-both Kept (λ c. is_foreign conversation c ≡ false) own.0
          (filter_out-All Kept (is_foreign conversation) foreign_conversation active.0 active.1 (
            All-both P (λ c. is_superseded ids c ≡ false) active.0
              (filter_out-All P (is_superseded ids) superseded fused [] a)
              (filter_out-test (is_superseded ids) superseded fused [])))
          (filter_out-test (is_foreign conversation) foreign_conversation active.0 active.1)))

abbrev pub Sends : (Candidate → Type 0) → Allocated → Type 0
Sends P (overflow required usable) = Unit
Sends P (allocated a) = All P a.ordered

-- The messages and the selected items of a plan are those of candidates with a property.
abbrev pub IsMadeOf : (Candidate → Type 0) → Built → Type 0
IsMadeOf P (built p) =
    (ordered : List Candidate) × (p.messages ≡ rendered ordered)
    × (p.selected_items ≡ selected ordered)
    × All P ordered
IsMadeOf P _ = Unit

module _ (fl : Floats) where
  insert_head-All :
      (P : Candidate → Type 0) (x : Candidate) (xs : List Candidate)
      → P x
      → All P xs
      → All P (insert_head fl x xs)
  unfolding insert_head
  insert_head-All P x [] p a = (p, tt)
  insert_head-All P x (y ∷ ys) p a = elim (Bool-cases (head_less fl y x)) [
    | inl e ↦ rw (e, insert_head) (a.0, insert_head-All P x ys p a.1)
    | inr e ↦ rw (e, insert_head) (p, a)
  ]

  sort_head-All :
      (P : Candidate → Type 0) (xs : List Candidate) → All P xs → All P (sort_head fl xs)
  unfolding sort_head
  sort_head-All P [] a = tt
  sort_head-All P (x ∷ xs) a = insert_head-All P x (sort_head fl xs) a.0 (sort_head-All P xs a.1)

  module _ (similarity : String → String → fl.Num) (lam : fl.Num) (relevance : Candidate → fl.Num)
      (max_retrieved_items retrieved_budget_tokens usable : ℕ) where
    pick_retrieved-All :
        (P : Candidate → Type 0) (remaining : ℕ) (retrieval : List Candidate)
        (dropped : List DroppedCandidate)
        → All P retrieval
        → All P
            (pick_retrieved fl similarity lam relevance max_retrieved_items retrieved_budget_tokens
              usable remaining retrieval dropped).picked
    unfolding pick_retrieved
    pick_retrieved-All P remaining retrieval dropped a =
        elim (Bool-cases (length retrieval == 0 || remaining == 0 || max_retrieved_items == 0)) [
          | inl e ↦ rw (e, pick_retrieved) tt
          | inr e ↦
              rw (e, pick_retrieved)
                (pack-All P (min remaining retrieved_budget_tokens) retrieval
                  (ranked fl similarity lam relevance max_retrieved_items retrieved_budget_tokens
                    usable retrieval)
                  0 dropped a)
        ]

    pub allocate_rest-All :
        (P : Candidate → Type 0) (t : Tiers) (dropped : List DroppedCandidate)
        → AllTiers P t
        → All P
            (allocate_rest fl similarity lam relevance max_retrieved_items retrieved_budget_tokens
              usable t dropped).ordered
    unfolding allocate_rest
    allocate_rest-All P t dropped (m, r, q) =
        let remaining = usable - total t.mandatory - tools_total t.tools in
        let fit = fit_recent remaining 0 (reverse t.recent) in
        let kept = reverse fit.0 in
        let absent = drop_absent budget (keys kept) t.recent dropped in
        let p =
          pick_retrieved fl similarity lam relevance max_retrieved_items retrieved_budget_tokens
            usable (remaining - fit.1) t.retrieval absent in
        let head = sort_head fl t.mandatory in
        let h = sort_head-All P t.mandatory m in
        All-append P ((without_request head ++ p.picked) ++ kept) (first_request head)
          (All-append P (without_request head ++ p.picked) kept
            (All-append P (without_request head) p.picked (without_request-All P head h)
              (pick_retrieved-All P (remaining - fit.1) t.retrieval absent q))
            (All-reverse P fit.0 []
              (fit_recent-All P remaining 0 (reverse t.recent) (All-reverse P t.recent [] r tt))
              tt))
          (first_request-All P head h)

    pub allocate-Sends :
        (P : Candidate → Type 0) (cs : List Candidate) (dropped : List DroppedCandidate)
        → All P cs
        → Sends P (
            allocate fl similarity lam relevance max_retrieved_items retrieved_budget_tokens usable
              cs dropped)
    unfolding allocate
    allocate-Sends P cs dropped a =
        let t = sort_tiers cs in
        elim (Bool-cases (ltb usable (total t.mandatory + tools_total t.tools))) [
          | inl e ↦ rw (e, allocate) tt
          | inr e ↦ rw (e, allocate) (allocate_rest-All P t dropped (sort_tiers-All P cs a))
        ]

    plan_of-IsMade :
        (P : Candidate → Type 0) (a : Allocated)
        → Sends P a
        → IsMadeOf P (
            plan_of fl similarity lam relevance max_retrieved_items retrieved_budget_tokens usable
              a)
    unfolding make_plan
    plan_of-IsMade P (overflow r u) s = tt
    plan_of-IsMade P (allocated a) s = elim (Option-cases (first_promoted a.ordered)) [
      | inr (key, e) ↦ rw (make_plan, e) tt
      | inl e ↦ elim (Bool-cases (ltb usable (total a.ordered + a.tools_tokens))) [
        | inl f ↦ rw (make_plan, e, f) tt
        | inr f ↦ rw (make_plan, e, f) (a.ordered, refl, refl, s)
      ]
    ]

    -- Whatever the scores are, a plan that the engine builds is made of candidates that it was given:
    -- its messages and its selected items are those of these candidates in order, and none of these
    -- is a memory among the superseded ids or, when a conversation is given, a memory or a chunk that
    -- is not of it.
    pub build-IsOwn :
        (ids : List String) (conversation : Option String) (fused : List Candidate)
        → IsMadeOf
            (λ c. IsAmong fused c × IsOwn ids conversation c)
            (build fl similarity lam relevance max_retrieved_items retrieved_budget_tokens usable
              fused ids conversation)
    unfolding build
    build-IsOwn ids conversation fused =
        let Good = λ (c : Candidate). IsAmong fused c × IsOwn ids conversation c in
        let (cs, dropped) = remaining ids conversation fused in
        plan_of-IsMade Good
          (allocate fl similarity lam relevance max_retrieved_items retrieved_budget_tokens usable
            cs dropped)
          (allocate-Sends Good cs dropped (
            remaining-All (IsAmong fused) ids conversation fused
              (among_intro (IsAmong fused) fused (λ c m. m))))
