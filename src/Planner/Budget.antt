-- ===== src/Planner/Budget.antt =====
-- What `plan_context` keeps: the newest window that fits, every instruction and the current request.
use low_context_inference.Base.{
  ℕ, zero, suc, ◌+◌, ◌-◌, ◌≤◌, ◌<◌, ◌≡◌, refl, sym, ap, ◌∙◌, true, false, List, [], ◌∷◌, ◌++◌,
  arith, tests, ltb, leb, leb→le, leb→gt, lt→ltb, ge→ltb, if◌then◌else◌, append_assoc, append-nil,
  Bool-cases, inl, inr,
}
use low_context_inference.Json.{Value, Fields}
use low_context_inference.Tokens.{Counter, count_messages}
use low_context_inference.Planner.{
  MessageUnit, is_system, flat, sum_tokens, system_tokens, segment_messages, drop_oldest,
  ContextPlan, planned, overflow, current_units, kept_history, make_plan, finish, plan_context,
}

-- The units without the first `n` that are no instructions.
abbrev pub window : ℕ → List MessageUnit → List MessageUnit
window zero us = us
window (suc n) [] = []
window (suc n) (u ∷ us) = if is_system u then u ∷ window (suc n) us else window n us

-- `kept` is the largest window whose tokens, with `base` more, are within `available`.
pub record IsLargest (base available : ℕ) (us kept : List MessageUnit) (n : ℕ) : Type 0 where
  pub is_window : kept ≡ window n us
  pub fits : base + sum_tokens kept ≤ available
  pub largest : (k : ℕ) → k < n → available < base + sum_tokens (window k us)

drop_none : (available total : ℕ) → (drop_oldest available [] total).0 ≡ []
unfolding drop_oldest
drop_none available total = refl

module _ (available : ℕ) (u : MessageUnit) (us : List MessageUnit) (total : ℕ) where
  drop_stop : leb total available ≡ true → (drop_oldest available (u ∷ us) total).0 ≡ u ∷ us
  unfolding drop_oldest
  drop_stop h = rw (h, drop_oldest)

  drop_keep :
      leb total available ≡ false
      → is_system u ≡ true
      → (drop_oldest available (u ∷ us) total).0 ≡ u ∷ (drop_oldest available us total).0
  unfolding drop_oldest
  drop_keep h s = rw (h, s, drop_oldest)

  drop_cut :
      leb total available ≡ false
      → is_system u ≡ false
      → (drop_oldest available (u ∷ us) total).0 ≡ (drop_oldest available us (total - u.tokens)).0
  unfolding drop_oldest
  drop_cut h s = rw (h, s, drop_oldest)

window-system :
    (n : ℕ) (u : MessageUnit) (us : List MessageUnit)
    → is_system u ≡ true
    → window n (u ∷ us) ≡ u ∷ window n us
window-system zero u us h = refl
window-system (suc n) u us h = rw h

window-ordinary :
    (n : ℕ) (u : MessageUnit) (us : List MessageUnit)
    → is_system u ≡ false
    → window (suc n) (u ∷ us) ≡ window n us
window-ordinary n u us h = rw h

ordinary-IsLargest :
    (base available : ℕ) (u : MessageUnit) (us : List MessageUnit) {kept : List MessageUnit} {n : ℕ}
    → is_system u ≡ false
    → available < base + (u.tokens + sum_tokens us)
    → IsLargest base available us kept n
    → IsLargest base available (u ∷ us) kept (suc n)
ordinary-IsLargest base available u us {kept} {n} s more h = record {
  is_window = h.is_window ∙ sym (window-ordinary n u us s);
  fits = h.fits;
  largest = larger;
}
  where
    larger : (k : ℕ) → k < suc n → available < base + sum_tokens (window k (u ∷ us))
    larger zero lt = more
    larger (suc k) lt = rw (window-ordinary k u us s) (h.largest k (omega arith))

system-IsLargest :
    (base available : ℕ) (u : MessageUnit) (us : List MessageUnit) {kept : List MessageUnit} {n : ℕ}
    → is_system u ≡ true
    → IsLargest (base + u.tokens) available us kept n
    → IsLargest base available (u ∷ us) (u ∷ kept) n
system-IsLargest base available u us {kept} {n} s h = record {
  is_window = ap (λ l. u ∷ l) h.is_window ∙ sym (window-system n u us s);
  fits = omega (arith, h.fits);
  largest = λ k lt. rw (window-system k u us s) (omega (arith, h.largest k lt));
}

drop_oldest-IsLargest :
    (base available : ℕ) (us : List MessageUnit)
    → base + system_tokens us ≤ available
    → (n : ℕ) × IsLargest base available us (drop_oldest available us (base + sum_tokens us)).0 n
drop_oldest-IsLargest base available [] h =
    rw (drop_none available (base + 0))
      (0, record { is_window = refl; fits = h; largest = λ k lt. elim lt [ ] })
drop_oldest-IsLargest base available (u ∷ us) h =
    let total = base + (u.tokens + sum_tokens us) in
    elim (Bool-cases (leb total available)) [
      | inl stop ↦
          rw (drop_stop available u us total stop)
            (0, record { is_window = refl; fits = leb→le _ _ stop; largest = λ k lt. elim lt [ ] })
      | inr more ↦ (elim (Bool-cases (is_system u)) [
        | inl s ↦
            (let e : total ≡ base + u.tokens + sum_tokens us = omega arith in
              let systems : base + (u.tokens + system_tokens us) ≤ available = rw s at h in
              let (n, ih) = drop_oldest-IsLargest (base + u.tokens) available us (omega arith) in
              rw (drop_keep available u us total more s, e)
                (n, system-IsLargest base available u us s ih))
        | inr s ↦
            (let e : total - u.tokens ≡ base + sum_tokens us = omega arith in
              let (n, ih) = drop_oldest-IsLargest base available us (rw s at h) in
              rw (drop_cut available u us total more s, e)
                (suc n, ordinary-IsLargest base available u us s (leb→gt _ _ more) ih))
      ])
    ]

kept_history-IsLargest :
    (counter : Counter) (us : List MessageUnit) (available : ℕ)
    → system_tokens us ≤ available
    → (n : ℕ) × IsLargest 0 available us (kept_history counter us available) n
kept_history-IsLargest counter us available h = elim (Bool-cases (ltb available (sum_tokens us))) [
  | inl over ↦
      (let e : sum_tokens us ≡ 0 + sum_tokens us = omega arith in
        rw over (rw e (drop_oldest-IsLargest 0 available us (omega arith))))
  | inr under ↦
      rw under
        (0, record { is_window = refl; fits = omega (tests, under); largest = λ k lt. elim lt [ ] })
]

sum_tokens-append :
    (us vs : List MessageUnit) → sum_tokens (us ++ vs) ≡ sum_tokens us + sum_tokens vs
sum_tokens-append [] vs = omega arith
sum_tokens-append (u ∷ us) vs = omega (arith, sum_tokens-append us vs)

flat-append : (us vs : List MessageUnit) → flat (us ++ vs) ≡ flat us ++ flat vs
flat-append [] vs = refl
flat-append (u ∷ us) vs = rw (flat-append us vs) (sym (append_assoc u.messages (flat us) (flat vs)))

module _ (counter : Counter) where
  sum-current :
      (request : List Fields)
      → sum_tokens (current_units counter request) ≡ count_messages counter request
  sum-current [] = refl
  sum-current (m ∷ ms) = omega arith

  flat-current : (request : List Fields) → flat (current_units counter request) ≡ request
  flat-current [] = refl
  flat-current (m ∷ ms) = append-nil (m ∷ ms)

  finish-planned :
      (original kept : List MessageUnit) (request : List Fields) (tools_tokens usable : ℕ)
      → sum_tokens kept + count_messages counter request + tools_tokens ≤ usable
      → (p : ContextPlan) × (finish counter original kept
            (current_units counter request)
            tools_tokens
            usable
          ≡ planned p)
        × (p.messages ≡ flat kept ++ request)
        × (p.total_tokens ≡ sum_tokens kept + count_messages counter request)
  unfolding finish
  finish-planned original kept request tools_tokens usable h =
      let current = current_units counter request in
      let total : sum_tokens (kept ++ current) ≡ sum_tokens kept + count_messages counter request =
        omega (arith, sum_tokens-append kept current, sum-current request) in
      (
        make_plan counter original (kept ++ current) current tools_tokens usable,
        rw (ge→ltb usable (sum_tokens (kept ++ current) + tools_tokens) (omega arith), finish) refl,
        flat-append kept current ∙ ap (λ l. flat kept ++ l) (flat-current request),
        total,
      )

module _ (counter : Counter) (history request : List Fields) (tools : List Value)
    (usable reserved : ℕ) where
  abbrev history_units : List MessageUnit
  history_units = segment_messages counter history

  -- what is spent whatever is kept of the history
  abbrev fixed : ℕ
  fixed = counter.tools tools + reserved + count_messages counter request

  -- Where the instructions, the tools, the reserve and the current request fit the budget, there is
  -- a plan. It holds the current request, whole and last, behind the units of the history without
  -- the first `n` that are no instructions; it fits with the reserve; and no smaller `n` does.
  pub plan_context-planned :
      system_tokens history_units + fixed ≤ usable
      → (n : ℕ) × (p : ContextPlan) × (plan_context counter history request tools usable reserved
          ≡ planned p)
        × (p.messages ≡ flat (window n history_units) ++ request)
        × (p.total_tokens ≡ sum_tokens (window n history_units) + count_messages counter request)
        × (p.total_tokens + counter.tools tools + reserved ≤ usable)
        × ((k : ℕ) → k < n → usable < sum_tokens (window k history_units) + fixed)
  unfolding plan_context
  plan_context-planned h =
      let current = sum-current counter request in
      let spent = sum_tokens (current_units counter request) in
      let available = usable - counter.tools tools - reserved - spent in
      let (n, best) = kept_history-IsLargest counter history_units available (omega arith) in
      let kept = kept_history counter history_units available in
      let fits = best.fits in
      let (p, done, messages, total) =
        finish-planned counter history_units kept request (counter.tools tools) usable
          (omega arith) in
      (
        n,
        p,
        rw
            (ge→ltb usable (system_tokens history_units + counter.tools tools + reserved + spent)
              (omega arith))
            done,
        messages ∙ ap (λ l. flat l ++ request) best.is_window,
        total ∙ ap (λ l. sum_tokens l + count_messages counter request) best.is_window,
        omega arith,
        λ k lt. omega (arith, best.largest k lt),
      )

  -- Where they do not fit, the call raises with what they need and the budget.
  plan_context-overflow :
      usable < system_tokens history_units + fixed
      → plan_context counter history request tools usable reserved
        ≡ overflow (system_tokens history_units + fixed) usable
  unfolding plan_context
  plan_context-overflow h =
      let e : system_tokens history_units
            + counter.tools tools
            + reserved
            + sum_tokens (current_units counter request)
          ≡ system_tokens history_units + fixed =
        omega (arith, sum-current counter request) in
      rw (e, lt→ltb _ _ h) refl
