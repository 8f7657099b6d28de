-- ===== src/Reconcile/Prefix.antt =====
-- `equivalent` and `_prefix_len`: what the common prefix of two histories is.
use low_context_inference.Base.{
  ℕ, zero, suc, ◌≤◌, ◌<◌, ◌≡◌, refl, ap, true, false, List, [], ◌∷◌, ◌++◌, arith, length, drop, All,
  Bool-cases, Option-cases, inl, inr,
}
use low_context_inference.Json.{str, Fields, get, pop}
use low_context_inference.Json.Equality.{IsDict, equal_dicts_self}
use low_context_inference.Json.Dicts.{pop-IsDict, put-IsDict}
use low_context_inference.Reconcile.{
  text_content, canonical_message, equivalent, prefix_len, equivalent_at,
}

canonical_message-IsDict : (m : Fields) → IsDict m → IsDict (canonical_message m)
unfolding canonical_message
canonical_message-IsDict m h =
    let once = pop "reasoning_text" (pop "reasoning" (pop "reasoning_content" m)) in
    let clean : IsDict once = pop-IsDict _ _ (pop-IsDict _ _ (pop-IsDict _ m h)) in
    elim (Option-cases (text_content (get once "content"))) [
      | inl e ↦ rw (e, canonical_message) clean
      | inr (t, e) ↦ rw (e, canonical_message) (put-IsDict "content" (str t) once tt clean)
    ]

-- A message is equivalent to itself.
pub equivalent_self : (m : Fields) → IsDict m → equivalent m m ≡ true
unfolding equivalent
equivalent_self m h = rw (equal_dicts_self _ (canonical_message-IsDict m h))

module _ where
  pub prefix_len_le_left : (ps ms : List Fields) → prefix_len ps ms ≤ length ps
  unfolding prefix_len
  prefix_len_le_left [] ms = omega arith
  prefix_len_le_left (p ∷ ps) [] = omega arith
  prefix_len_le_left (p ∷ ps) (m ∷ ms) = ground (arith, prefix_len_le_left ps ms)

  pub prefix_len_le_right : (ps ms : List Fields) → prefix_len ps ms ≤ length ms
  unfolding prefix_len
  prefix_len_le_right [] ms = omega arith
  prefix_len_le_right (p ∷ ps) [] = omega arith
  prefix_len_le_right (p ∷ ps) (m ∷ ms) = ground (arith, prefix_len_le_right ps ms)

  -- below the prefix the histories agree
  pub prefix_agrees :
      (ps ms : List Fields) (i : ℕ) → i < prefix_len ps ms → equivalent_at ps ms i i ≡ true
  unfolding prefix_len equivalent_at
  prefix_agrees [] ms i h = elim h [ ]
  prefix_agrees (p ∷ ps) [] i h = elim h [ ]
  prefix_agrees (p ∷ ps) (m ∷ ms) zero h = ground arith
  prefix_agrees (p ∷ ps) (m ∷ ms) (suc i) h = ground (arith, prefix_agrees ps ms i)

  -- where both go on, they differ just after it
  pub prefix_maximal :
      (ps ms : List Fields)
      → prefix_len ps ms < length ps
      → prefix_len ps ms < length ms
      → equivalent_at ps ms (prefix_len ps ms) (prefix_len ps ms) ≡ false
  unfolding prefix_len equivalent_at
  prefix_maximal [] ms h k = elim h [ ]
  prefix_maximal (p ∷ ps) [] h k = elim k [ ]
  prefix_maximal (p ∷ ps) (m ∷ ms) h k = elim (Bool-cases (equivalent p m)) [
    | inl e ↦ rw e (prefix_maximal ps ms (ground arith) (ground arith))
    | inr e ↦ rw e e
  ]

  pub prefix_len-append_more :
      (ps xs ms : List Fields)
      → prefix_len ps ms < length ps
      → prefix_len (ps ++ xs) ms ≡ prefix_len ps ms
  unfolding prefix_len
  prefix_len-append_more [] xs ms h = elim h [ ]
  prefix_len-append_more (p ∷ ps) xs [] h = refl
  prefix_len-append_more (p ∷ ps) xs (m ∷ ms) h = ground (arith, prefix_len-append_more ps xs ms)

  pub prefix_len_self : (ms : List Fields) → All IsDict ms → prefix_len ms ms ≡ length ms
  unfolding prefix_len
  prefix_len_self [] h = refl
  prefix_len_self (m ∷ ms) h = rw (equivalent_self m h.0) (ap suc (prefix_len_self ms h.1))

  pub prefix_len-append_rest :
      (ps ms : List Fields)
      → All IsDict ms
      → prefix_len ps ms ≡ length ps
      → prefix_len (ps ++ drop (length ps) ms) ms ≡ length ms
  unfolding prefix_len
  prefix_len-append_rest [] ms d h = prefix_len_self ms d
  prefix_len-append_rest (p ∷ ps) [] d h = omega arith
  prefix_len-append_rest (p ∷ ps) (m ∷ ms) d h = ground (arith, prefix_len-append_rest ps ms d.1)
