-- ===== src/Engine/Budget.antt =====
-- The plan of the engine stays within the usable budget.
use mathlib.Core.Path.{subst}
use mathlib.Core.List.{reverse_aux}
use low_context_inference.Base.{
  ℕ, ◌+◌, ◌-◌, ◌≤◌, ◌<◌, ◌≡◌, inl, inr, refl, sym, ap, ◌∙◌, min, String, List, [], ◌∷◌, ◌++◌, ltb,
  ◌==◌, ◌||◌, length, reverse, arith, Bool-cases, Option-cases, ge→ltb, ltb→lt, ltb→ge,
}
use low_context_inference.Mmr.{Floats}
use low_context_inference.Engine.{
  Candidate, is_request, total, fit_recent, by_key, sort_tiers, Tiers, DroppedCandidate,
  drop_absent, keys, budget,
}
use low_context_inference.Engine.Allocation.{
  pack, Allocation, tools_total, without_request, first_request, insert_head, sort_head, head_less,
  pick_retrieved, allocate_rest, allocate, make_plan, built, overflowed, promoted, first_promoted,
  Built, ranked, plan_of,
}

total-append : (xs ys : List Candidate) → total (xs ++ ys) ≡ total xs + total ys
total-append [] ys = omega arith
total-append (x ∷ xs) ys = omega (arith, total-append xs ys)

total-request :
    (xs : List Candidate) → total (without_request xs) + total (first_request xs) ≡ total xs
unfolding without_request first_request
total-request [] = refl
total-request (x ∷ xs) = elim (Bool-cases (is_request x.source)) [
  | inl e ↦ rw (e, without_request, first_request) (omega arith)
  | inr e ↦ rw (e, without_request, first_request) (omega (arith, total-request xs))
]

-- The window is what `used` grows by, and fits.
fit_recent_lem :
    (remaining used : ℕ) (cs : List Candidate)
    → used ≤ remaining
    → ((fit_recent remaining used cs).1 ≡ used + total (fit_recent remaining used cs).0)
      × ((fit_recent remaining used cs).1 ≤ remaining)
unfolding fit_recent
fit_recent_lem remaining used [] h = (omega arith, h)
fit_recent_lem remaining used (c ∷ cs) h = elim (Bool-cases (ltb remaining (used + c.tokens))) [
  | inl e ↦ rw (e, fit_recent) (omega arith, h)
  | inr e ↦
      let (a, b) = fit_recent_lem remaining (used + c.tokens) cs (ltb→ge _ _ e) in
      rw (e, fit_recent) (omega (arith, a), b)
]

pack_lem :
    (cap : ℕ) (retrieval : List Candidate) (ranks : List String) (used : ℕ)
    (dropped : List DroppedCandidate)
    → used ≤ cap
    → ((pack cap retrieval ranks used dropped).tokens
        ≡ used + total (pack cap retrieval ranks used dropped).picked)
      × ((pack cap retrieval ranks used dropped).tokens ≤ cap)
unfolding pack
pack_lem cap retrieval [] used dropped h = (omega arith, h)
pack_lem cap retrieval (key ∷ ranks) used dropped h = elim (Option-cases (by_key key retrieval)) [
  | inl e ↦ rw (e, pack) (pack_lem cap retrieval ranks used dropped h)
  | inr (c, e) ↦ elim (Bool-cases (ltb cap (used + c.tokens))) [
    | inl f ↦ rw (e, pack, f) (pack_lem cap retrieval ranks used _ h)
    | inr f ↦
        let (a, b) = pack_lem cap retrieval ranks (used + c.tokens) dropped (ltb→ge _ _ f) in
        rw (e, pack, f) (omega (arith, a), b)
  ]
]

total-reverse : (xs : List Candidate) → total (reverse xs) ≡ total xs
total-reverse xs = omega (arith, go xs [])
  where
    go : (xs ys : List Candidate) → total (reverse_aux xs ys) ≡ total xs + total ys
    go [] ys = omega arith
    go (x ∷ xs) ys = omega (arith, go xs (x ∷ ys))

total-parts :
    (head retrieved kept : List Candidate)
    → total (without_request head ++ retrieved ++ kept ++ first_request head)
      ≡ total head + total retrieved + total kept
total-parts head retrieved kept = omega (
  arith,
  total-append ((without_request head ++ retrieved) ++ kept) (first_request head),
  total-append (without_request head ++ retrieved) kept,
  total-append (without_request head) retrieved,
  total-request head,
)

module _ (fl : Floats) where
  total-insert_head :
      (x : Candidate) (xs : List Candidate) → total (insert_head fl x xs) ≡ x.tokens + total xs
  unfolding insert_head
  total-insert_head x [] = refl
  total-insert_head x (y ∷ ys) = elim (Bool-cases (head_less fl y x)) [
    | inl e ↦ rw (e, insert_head) (omega (arith, total-insert_head x ys))
    | inr e ↦ rw (e, insert_head) refl
  ]

  total-sort_head : (xs : List Candidate) → total (sort_head fl xs) ≡ total xs
  unfolding sort_head
  total-sort_head [] = refl
  total-sort_head (x ∷ xs) =
      total-insert_head x (sort_head fl xs) ∙ ap (λ n. x.tokens + n) (total-sort_head xs)

  module _ (similarity : String → String → fl.Num) (lam : fl.Num) (relevance : Candidate → fl.Num)
      (max_retrieved_items retrieved_budget_tokens usable : ℕ) where
    pick_retrieved_lem :
        (remaining : ℕ) (retrieval : List Candidate) (dropped : List DroppedCandidate)
        → total
            (pick_retrieved fl similarity lam relevance max_retrieved_items retrieved_budget_tokens
              usable remaining retrieval dropped).picked
          ≤ remaining
    unfolding pick_retrieved
    pick_retrieved_lem remaining retrieval dropped =
        elim (Bool-cases (length retrieval == 0 || remaining == 0 || max_retrieved_items == 0)) [
          | inl e ↦ rw (e, pick_retrieved) (omega arith)
          | inr e ↦
              let (a, b) =
                pack_lem (min remaining retrieved_budget_tokens) retrieval
                  (ranked fl similarity lam relevance max_retrieved_items retrieved_budget_tokens
                    usable retrieval)
                  0 dropped (omega arith) in
              rw (e, pick_retrieved) (omega (arith, a, b))
        ]

    allocate_rest_fits :
        (t : Tiers) (dropped : List DroppedCandidate)
        → total t.mandatory + tools_total t.tools ≤ usable
        → total
              (allocate_rest fl similarity lam relevance max_retrieved_items retrieved_budget_tokens
                usable t dropped).ordered
            + tools_total t.tools
          ≤ usable
    unfolding allocate_rest
    allocate_rest_fits t dropped h =
        let remaining = usable - total t.mandatory - tools_total t.tools in
        let fit = fit_recent remaining 0 (reverse t.recent) in
        let kept = reverse fit.0 in
        let p =
          pick_retrieved fl similarity lam relevance max_retrieved_items retrieved_budget_tokens
            usable (remaining - fit.1) t.retrieval
            (drop_absent budget (keys kept) t.recent dropped) in
        let (a, b) = fit_recent_lem remaining 0 (reverse t.recent) (omega arith) in
        let short =
          pick_retrieved_lem (remaining - fit.1) t.retrieval
            (drop_absent budget (keys kept) t.recent dropped) in
        subst (λ n. n + tools_total t.tools ≤ usable)
          (sym (total-parts (sort_head fl t.mandatory) p.picked kept))
          (omega (arith, total-sort_head t.mandatory, a, b, short, total-reverse fit.0, h))

    -- what the engine may answer when the mandatory parts and the tools take `required` tokens
    abbrev pub Answer : ℕ → Built → Type 0
    Answer required (built p) =
        (required ≤ usable) × (p.token_estimate ≤ p.usable) × (p.usable ≡ usable)
    Answer required (promoted key) = required ≤ usable
    Answer required (overflowed r u) = (usable < required) × (r ≡ required) × (u ≡ usable)

    make_plan-Answer :
        (a : Allocation) (required : ℕ)
        → required ≤ usable
        → total a.ordered + a.tools_tokens ≤ usable
        → Answer required (
            make_plan fl similarity lam relevance max_retrieved_items retrieved_budget_tokens usable
              a)
    unfolding make_plan
    make_plan-Answer a required h fits = elim (Option-cases (first_promoted a.ordered)) [
      | inr (key, e) ↦ rw (e, make_plan) h
      | inl e ↦
          rw (e, make_plan, ge→ltb usable (total a.ordered + a.tools_tokens) fits) (h, fits, refl)
    ]

    -- With the mandatory candidates and the tools within the budget, the engine's plan is within the
    -- budget too, and it raises no overflow; otherwise it raises an overflow with their tokens and
    -- the budget. A refusal at the trust boundary comes only with the former.
    pub allocate-Answer :
        (candidates : List Candidate) (dropped : List DroppedCandidate)
        → Answer
            (total (sort_tiers candidates).mandatory + tools_total (sort_tiers candidates).tools)
            (plan_of fl similarity lam relevance max_retrieved_items retrieved_budget_tokens usable
              (allocate fl similarity lam relevance max_retrieved_items retrieved_budget_tokens
                usable candidates dropped))
    unfolding allocate
    allocate-Answer candidates dropped =
        let t = sort_tiers candidates in
        elim (Bool-cases (ltb usable (total t.mandatory + tools_total t.tools))) [
          | inl e ↦ rw (e, allocate) (ltb→lt _ _ e, refl, refl)
          | inr e ↦
              rw (e, allocate)
                (make_plan-Answer
                  (allocate_rest fl similarity lam relevance max_retrieved_items
                    retrieved_budget_tokens usable t dropped)
                  _ (ltb→ge _ _ e) (allocate_rest_fits t dropped (ltb→ge _ _ e)))
        ]
