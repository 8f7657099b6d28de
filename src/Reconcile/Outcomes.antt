-- ===== src/Reconcile/Outcomes.antt =====
-- What each result of a reconciliation says of the two histories.
use low_context_inference.Base.{
  ℕ, ◌+◌, ◌-◌, ◌≤◌, ◌<◌, ◌≡◌, ◌≢◌, refl, ap, true, false, none, some, List, [], ◌∷◌, arith, tests,
  ==→eq, length, drop, take, Bool-cases, Option-cases, ◌⊎◌, inl, inr, ◌==◌, any,
}
use low_context_inference.Json.{Fields}
use low_context_inference.Reconcile.{
  exact, append, truncate, truncate_append, compacted, conflict, ReconciliationResult, prefix_len,
  match_back, Anchor, anchor_before_tail, by_anchor, by_suffix, by_tail, suffix_match,
  reconcile_nonempty, reconcile_projection, result, is_compaction_summary, equivalent_at,
}
use low_context_inference.Reconcile.Prefix.{
  prefix_len_le_left, prefix_len_le_right, prefix_agrees, prefix_maximal,
}
use low_context_inference.Reconcile.Anchors.{
  match_back_bounds, match_back_agrees, IsAnchor, anchor_before_tail-IsAnchor,
}

module _ (ps ms : List Fields) where
  -- `n` messages from `p` on are equivalent to `n` messages from `i` on.
  abbrev pub Agree : ℕ → ℕ → ℕ → Type 0
  Agree p i n = (j : ℕ) → j < n → equivalent_at ps ms (p + j) (i + j) ≡ true

  -- What a result claims of the persisted history `ps` and the incoming one `ms`.
  pub data Accounts : ReconciliationResult → Type 0 where
    nothing : ms ≡ [] → Accounts (result exact none)
    fresh : ps ≡ [] → Accounts (result append (some 0))
    replay : length ms ≡ length ps → Agree 0 0 (length ms) → Accounts (result exact none)
    cut : length ms < length ps → Agree 0 0 (length ms) → Accounts (result truncate none)
    grown :
        length ps < length ms → Agree 0 0 (length ps) → Accounts (result append (some (length ps)))
    -- a summary stands for messages before `s`, and what follows is the rest of the history
    summary :
        (k s i e : ℕ)
        → Agree 0 0 k
        → k < s
        → any is_compaction_summary (drop k (take i ms)) ≡ true
        → e ≤ length ms
        → s + e ≡ i + length ps
        → Agree s i (e - i)
        → Accounts (result compacted (some e))
    -- the first `e` messages are the last `e` of the history
    window :
        (s e : ℕ)
        → 0 < s
        → e < length ms
        → s + e ≡ length ps
        → Agree s 0 e
        → Accounts (result truncate_append (some e))
    tail :
        (s : ℕ)
        → 0 < s
        → s + length ms ≡ length ps
        → Agree s 0 (length ms)
        → Accounts (result truncate none)
    -- the two differ at the first place after their common prefix
    fork :
        (k : ℕ)
        → k < length ps
        → k < length ms
        → Agree 0 0 k
        → equivalent_at ps ms k k ≡ false
        → Accounts (result conflict none)

  prefix-Agree : Agree 0 0 (prefix_len ps ms)
  prefix-Agree j h = let e : 0 + j ≡ j = omega arith in rw e (prefix_agrees ps ms j h)

  back-Agree :
      (low e n : ℕ) {s i : ℕ}
      → (match_back ps ms low (length ps) e).0 ≡ s
      → (match_back ps ms low (length ps) e).1 ≡ i
      → i + n ≡ e
      → Agree s i n
  back-Agree low e n p q r j lt =
      rw (← p, ← q)
        (match_back_agrees ps ms low (length ps) e j
          (omega (arith, match_back_bounds ps ms low (length ps) e)))

  fork-Accounts :
      prefix_len ps ms < length ps → prefix_len ps ms < length ms → Accounts (result conflict none)
  fork-Accounts hp hm = fork (prefix_len ps ms) hp hm prefix-Agree (prefix_maximal ps ms hp hm)

  by_suffix-cases :
      (by_suffix ps ms ≡ result conflict none)
      ⊎ (by_suffix ps ms ≡ result truncate none)
        × (0 < (match_back ps ms 0 (length ps) (length ms)).0)
        × ((match_back ps ms 0 (length ps) (length ms)).1 ≡ 0)
  unfolding by_suffix suffix_match
  by_suffix-cases = ground arith

  by_suffix-Accounts :
      prefix_len ps ms < length ps → prefix_len ps ms < length ms → Accounts (by_suffix ps ms)
  by_suffix-Accounts hp hm = elim by_suffix-cases [
    | inl r ↦ rw r (fork-Accounts hp hm)
    | inr (r, pos, start) ↦ rw r (
        tail (match_back ps ms 0 (length ps) (length ms)).0 pos
          (omega (arith, match_back_bounds ps ms 0 (length ps) (length ms)))
          (back-Agree 0 (length ms) (length ms) refl start (omega arith)))
  ]

  by_anchor-cases :
      (prefix : ℕ) (a : Anchor) {r : ReconciliationResult}
      → by_anchor ms prefix a ≡ some r
      → (prefix < a.persisted_start)
        × ((r ≡ result compacted (some a.incoming_end))
              × (any is_compaction_summary (drop prefix (take a.incoming_start ms)) ≡ true)
            ⊎ (a.incoming_start ≡ 0)
              × ((r ≡ result truncate none) × (a.incoming_end ≡ length ms)
                  ⊎ (r ≡ result truncate_append (some a.incoming_end))
                    × (a.incoming_end ≢ length ms)))
  unfolding by_anchor
  by_anchor-cases prefix a h = ground arith

  by_anchor-Accounts :
      (a : Anchor) {r : ReconciliationResult}
      → IsAnchor ps ms (prefix_len ps ms) a
      → a.incoming_end ≤ length ms
      → by_anchor ms (prefix_len ps ms) a ≡ some r
      → Accounts r
  by_anchor-Accounts a h fits accepted =
      let s = ap (λ (x : ℕ × ℕ). x.0) h.back in
      let i = ap (λ (x : ℕ × ℕ). x.1) h.back in
      let bounds = match_back_bounds ps ms (prefix_len ps ms) (length ps) a.incoming_end in
      let moved = h.moved in
      let matched : (n : ℕ)
          → a.incoming_start + n ≡ a.incoming_end
          → Agree a.persisted_start a.incoming_start n =
        λ n. back-Agree (prefix_len ps ms) a.incoming_end n s i in
      let (after, cases) = by_anchor-cases (prefix_len ps ms) a accepted in
      elim cases [
        | inl (r, found) ↦ rw r (
            summary (prefix_len ps ms) a.persisted_start a.incoming_start a.incoming_end
              prefix-Agree after found fits (omega arith) (matched _ (omega arith)))
        | inr (start, inl (r, end)) ↦ rw r (
            tail a.persisted_start (omega arith) (omega arith)
              (rw start at (matched (length ms) (omega arith))))
        | inr (start, inr (r, end)) ↦ rw r (
            window a.persisted_start a.incoming_end (omega arith) (omega arith) (omega arith)
              (rw start at (matched a.incoming_end (omega arith))))
      ]

  by_tail-Accounts :
      prefix_len ps ms < length ps
      → prefix_len ps ms < length ms
      → Accounts (by_tail ps ms (prefix_len ps ms))
  unfolding by_tail
  by_tail-Accounts hp hm = elim (Option-cases (anchor_before_tail ps ms (prefix_len ps ms))) [
    | inl e ↦ rw (e, by_tail) (by_suffix-Accounts hp hm)
    | inr (a, e) ↦ (elim (Option-cases (by_anchor ms (prefix_len ps ms) a)) [
      | inl no_result ↦ rw (e, by_tail, no_result) (by_suffix-Accounts hp hm)
      | inr (r, yes_result) ↦
          rw (e, by_tail, yes_result)
            (let (good, fits) = anchor_before_tail-IsAnchor ps ms (prefix_len ps ms) e in
              by_anchor-Accounts a good fits yes_result)
    ])
  ]

  nonempty-Accounts : Accounts (reconcile_nonempty ps ms)
  unfolding reconcile_nonempty
  nonempty-Accounts = elim (Bool-cases (prefix_len ps ms == length ms)) [
    | inl all ↦
        (let agree = rw (==→eq _ _ all) at prefix-Agree in
          elim (Bool-cases (length ms == length ps)) [
            | inl eq ↦ rw (reconcile_nonempty, all, eq) (replay (==→eq _ _ eq) agree)
            | inr ne ↦
                rw (reconcile_nonempty, all, ne)
                  (cut (omega (tests, prefix_len_le_left ps ms)) agree)
          ])
    | inr more ↦ (elim (Bool-cases (prefix_len ps ms == length ps)) [
      | inl whole ↦
          rw (reconcile_nonempty, more, whole)
            (grown (omega (tests, prefix_len_le_right ps ms))
              (rw (==→eq _ _ whole) at prefix-Agree))
      | inr part ↦
          rw (reconcile_nonempty, more, part)
            (by_tail-Accounts (omega (tests, prefix_len_le_left ps ms))
              (omega (tests, prefix_len_le_right ps ms)))
    ])
  ]

-- Every result says what it should of the two histories: an accepted one comes with the agreement
-- of all the messages that it takes as already stored, and a conflict with the place of the first
-- message that differs.
pub reconcile_projection-Accounts :
    (ps ms : List Fields) → Accounts ps ms (reconcile_projection ps ms)
unfolding reconcile_projection
reconcile_projection-Accounts [] [] = nothing refl
reconcile_projection-Accounts (p ∷ ps) [] = nothing refl
reconcile_projection-Accounts [] (m ∷ ms) = fresh refl
reconcile_projection-Accounts (p ∷ ps) (m ∷ ms) = nonempty-Accounts (p ∷ ps) (m ∷ ms)
