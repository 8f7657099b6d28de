-- ===== src/Reconcile/Idempotence.antt =====
-- Sending the same history again adds nothing.
use low_context_inference.Base.{
  ℕ, zero, suc, ◌-◌, ◌≤◌, ◌<◌, ◌≡◌, ◌≢◌, refl, ap, ◌∙◌, none, some, List, [], ◌∷◌, ◌++◌, arith,
  length, drop, All, Option-cases, ◌⊎◌, inl, inr, length-append, append-nil,
}
use low_context_inference.Json.{Fields}
use low_context_inference.Json.Equality.{IsDict}
use low_context_inference.Reconcile.{
  exact, append, conflict, ReconciliationResult, prefix_len, Anchor, anchor_before_tail, by_anchor,
  scan_rounds, by_suffix, by_tail, reconcile_nonempty, reconcile_projection, result, new_tail,
}
use low_context_inference.Reconcile.Prefix.{
  prefix_len_le_left, prefix_len_le_right, prefix_len-append_more, prefix_len_self,
  prefix_len-append_rest,
}
use low_context_inference.Reconcile.Anchors.{
  match_back_again, IsAnchor, anchor_before_tail-IsAnchor, anchor_scan_first,
}

-- `r` accepts the history, and there is nothing to add
abbrev pub IsSettled : ReconciliationResult → List Fields → Type 0
IsSettled r ms = (r.mode ≢ conflict) × (new_tail r ms ≡ [])

-- On the history that ends with the tail after the anchor, the scan finds the same place at once.
anchor_again :
    (ps ms : List Fields) (prefix : ℕ) (a : Anchor)
    → All IsDict ms
    → prefix < length ps
    → IsAnchor ps ms prefix a
    → a.incoming_end ≤ length ms
    → anchor_before_tail (ps ++ drop a.incoming_end ms) ms prefix
      ≡ some (record a { incoming_end = length ms })
unfolding anchor_before_tail
anchor_again ps ms prefix a d hp h he =
    let more : suc (scan_rounds prefix (length ms) - 1) ≡ scan_rounds prefix (length ms) =
      omega arith in
    ground (
      arith,
      length-append ps (drop a.incoming_end ms),
      anchor_scan_first (ps ++ drop a.incoming_end ms) ms prefix (length ms)
          (scan_rounds prefix (length ms) - 1) a.persisted_start a.incoming_start,
      match_back_again ps ms prefix a.incoming_end d,
      more,
    )

-- An accepted anchor adds the messages after it, and is accepted again at the very end.
by_anchor-new_tail :
    (ms : List Fields) (prefix : ℕ) (a : Anchor) {r : ReconciliationResult}
    → by_anchor ms prefix a ≡ some r
    → (new_tail r ms ≡ []) ⊎ (new_tail r ms ≡ drop a.incoming_end ms)
unfolding by_anchor new_tail
by_anchor-new_tail ms prefix a h = ground arith

by_anchor_again :
    (ms : List Fields) (prefix : ℕ) (a : Anchor) {r : ReconciliationResult}
    → by_anchor ms prefix a ≡ some r
    → (r' : ReconciliationResult) × (by_anchor ms prefix (record a { incoming_end = length ms })
        ≡ some r')
      × IsSettled r' ms
unfolding by_anchor new_tail
by_anchor_again ms prefix a h =
    elim (Option-cases (by_anchor ms prefix (record a { incoming_end = length ms }))) [
      | inl e ↦ absurd (ground arith)
      | inr (r', e) ↦ (r', e, (ground arith, ground arith))
    ]

by_suffix-new_tail : (ps ms : List Fields) → new_tail (by_suffix ps ms) ms ≡ []
unfolding by_suffix new_tail
by_suffix-new_tail ps ms = ground arith

new_tail-exact : (ms : List Fields) → new_tail (result exact none) ms ≡ []
unfolding new_tail
new_tail-exact ms = refl

drop_all : (n : ℕ) (ms : List Fields) → length ms ≤ n → drop n ms ≡ []
drop_all zero [] h = refl
drop_all zero (m ∷ ms) h = absurd (omega arith)
drop_all (suc n) [] h = refl
drop_all (suc n) (m ∷ ms) h = drop_all n ms (omega arith)

new_tail-append : (ms : List Fields) (n : ℕ) → new_tail (result append (some n)) ms ≡ drop n ms
unfolding new_tail
new_tail-append ms n = ground (arith, drop_all n ms)

-- What the first call returns: nothing to add, the rest after the whole history, or an anchor's.
module _ (ps ms : List Fields) where
  FromAnchor : ReconciliationResult → Type 0
  FromAnchor r =
      (a : Anchor) × (prefix_len ps ms < length ps)
      × (prefix_len ps ms < length ms)
      × (anchor_before_tail ps ms (prefix_len ps ms) ≡ some a)
      × (by_anchor ms (prefix_len ps ms) a ≡ some r)

  by_tail-cases :
      prefix_len ps ms < length ps
      → prefix_len ps ms < length ms
      → (new_tail (by_tail ps ms (prefix_len ps ms)) ms ≡ [])
        ⊎ FromAnchor (by_tail ps ms (prefix_len ps ms))
  unfolding by_tail FromAnchor
  by_tail-cases hp hm = elim (Option-cases (anchor_before_tail ps ms (prefix_len ps ms))) [
    | inl e ↦ inl (rw (e, by_tail) (by_suffix-new_tail ps ms))
    | inr (a, e) ↦ (elim (Option-cases (by_anchor ms (prefix_len ps ms) a)) [
      | inl no_result ↦ inl (rw (e, by_tail, no_result) (by_suffix-new_tail ps ms))
      | inr (r, yes_result) ↦ inr (a, hp, hm, e, rw (e, by_tail, yes_result))
    ])
  ]

  nonempty-cases :
      (new_tail (reconcile_nonempty ps ms) ms ≡ [])
      ⊎ (prefix_len ps ms ≡ length ps)
        × (reconcile_nonempty ps ms ≡ result append (some (length ps)))
      ⊎ FromAnchor (reconcile_nonempty ps ms)
  unfolding reconcile_nonempty new_tail
  nonempty-cases =
      ground (arith, by_tail-cases, prefix_len_le_left ps ms, prefix_len_le_right ps ms)

-- The same call on the history that the first call left.
module _ (ps ms : List Fields) (d : All IsDict ms) where
  again_prefix :
      prefix_len ps ms ≡ length ps
      → IsSettled (reconcile_nonempty (ps ++ drop (length ps) ms) ms) ms
  unfolding reconcile_nonempty new_tail
  again_prefix h = rw (prefix_len-append_rest ps ms d h, reconcile_nonempty) (ground arith)

  again_anchor :
      (a : Anchor) {r : ReconciliationResult}
      → prefix_len ps ms < length ps
      → prefix_len ps ms < length ms
      → anchor_before_tail ps ms (prefix_len ps ms) ≡ some a
      → by_anchor ms (prefix_len ps ms) a ≡ some r
      → IsSettled (reconcile_nonempty (ps ++ drop a.incoming_end ms) ms) ms
  unfolding reconcile_nonempty by_tail
  again_anchor a hp hm found accepted =
      let (good, fits) = anchor_before_tail-IsAnchor ps ms (prefix_len ps ms) found in
      let (r', accepted', settled) = by_anchor_again ms (prefix_len ps ms) a accepted in
      let reached : reconcile_nonempty (ps ++ drop a.incoming_end ms) ms ≡ r' = ground (
        arith,
        prefix_len-append_more ps (drop a.incoming_end ms) ms hp,
        length-append ps (drop a.incoming_end ms),
        anchor_again ps ms (prefix_len ps ms) a d hp good fits,
      ) in
      rw reached settled

  again_nonempty :
      (reconcile_nonempty ps ms).mode ≢ conflict
      → IsSettled (reconcile_nonempty (ps ++ new_tail (reconcile_nonempty ps ms) ms) ms) ms
  unfolding FromAnchor
  again_nonempty ok = elim (nonempty-cases ps ms) [
    | inl nothing ↦ unchanged nothing
    | inr (inl (whole, r)) ↦
        rw (ap (λ x. new_tail x ms) r ∙ new_tail-append ms (length ps)) (again_prefix whole)
    | inr (inr (a, hp, hm, found, accepted)) ↦
        (elim (by_anchor-new_tail ms (prefix_len ps ms) a accepted) [
          | inl nothing ↦ unchanged nothing
          | inr rest ↦ rw rest (again_anchor a hp hm found accepted)
        ])
  ]
    where
      unchanged :
          new_tail (reconcile_nonempty ps ms) ms ≡ []
          → IsSettled (reconcile_nonempty (ps ++ new_tail (reconcile_nonempty ps ms) ms) ms) ms
      unchanged nothing = rw (nothing, append-nil) (ok, nothing)

replay-IsSettled : (ms : List Fields) → All IsDict ms → IsSettled (reconcile_nonempty ms ms) ms
unfolding reconcile_nonempty new_tail
replay-IsSettled ms d = ground (arith, prefix_len_self ms d)

-- Reconciling the same history once more, after its new tail was stored, is no conflict and adds
-- nothing: whatever projection the client sent, a replay of it is idempotent.
pub reconcile_projection_again :
    (ps ms : List Fields)
    → All IsDict ms
    → (reconcile_projection ps ms).mode ≢ conflict
    → IsSettled (reconcile_projection (ps ++ new_tail (reconcile_projection ps ms) ms) ms) ms
unfolding reconcile_projection
reconcile_projection_again [] [] d ok = (ok, new_tail-exact [])
reconcile_projection_again (p ∷ ps) [] d ok = (ok, new_tail-exact [])
reconcile_projection_again [] (m ∷ ms) d ok =
    rw (new_tail-append (m ∷ ms) 0) (replay-IsSettled (m ∷ ms) d)
reconcile_projection_again (p ∷ ps) (m ∷ ms) d ok = again_nonempty (p ∷ ps) (m ∷ ms) d ok
