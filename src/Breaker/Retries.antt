-- ===== src/Breaker/Retries.antt =====
-- `with_retries` of src/context_proxy/providers/resilience.py. The operation is a parameter: what
-- its call number `n` does. The random part of a pause is left open: a pause is its upper bound.
use low_context_inference.Base.{
  ℕ, zero, suc, ◌+◌, ◌-◌, ◌*◌, ◌^◌, ◌≤◌, ◌<◌, min, ◌≡◌, refl, Bool, true, false, List, [], ◌∷◌,
  arith, ap, sym, ◌∙◌, length, All,
}

-- what one call of the operation does: it returns, raises an error of `retry_on`, or another one
pub data Attempt {ℓ} (A : Type ℓ) (E : Type ℓ) : Type ℓ where
  returns : A → Attempt A E
  fails : E → Attempt A E
  raises : E → Attempt A E

pub record Retried {ℓ} (A : Type ℓ) (E : Type ℓ) : Type ℓ where
  -- what `with_retries` returns or raises
  pub outcome : Attempt A E
  -- the number of calls of the operation
  pub calls : ℕ
  -- the bounds of the pauses, in order
  pub pauses : List ℕ

module _ {ℓ} {A E : Type ℓ} (operation : ℕ → Attempt A E) (max_retries base cap : ℕ) where
  abbrev pause : ℕ → ℕ
  pause attempt = min cap (base * 2 ^ attempt)

  abbrev done : Attempt A E → Retried A E
  done a = record { outcome = a; calls = 1; pauses = [] }

  abbrev after_pause : ℕ → Retried A E → Retried A E
  after_pause n r = record { outcome = r.outcome; calls = suc r.calls; pauses = n ∷ r.pauses }

  -- the `try` and its handler, with what the later rounds come to
  abbrev after : ℕ → Retried A E → Attempt A E → Retried A E
  after attempt rest (returns a) = done (returns a)
  after attempt rest (raises e) = done (raises e)
  after attempt rest (fails e) = after_pause (pause attempt) rest

  -- the loop, with `left` attempts after this one
  unfoldable pub attempts : ℕ → ℕ → Retried A E
  attempts attempt zero = done (operation attempt)
  attempts attempt (suc left) =
      let rest = attempts (suc attempt) left in after attempt rest (operation attempt)

  unfoldable pub with_retries : Retried A E
  unfolding attempts
  with_retries = attempts 0 max_retries

  abbrev pub is_failure : Attempt A E → Bool
  is_failure (fails e) = true
  is_failure _ = false

  record IsRun (start left : ℕ) (r : Retried A E) : Type ℓ where
    some_calls : 0 < r.calls
    calls_bounded : r.calls ≤ suc left
    last : r.outcome ≡ operation (start + (r.calls - 1))
    early : r.calls ≤ left → is_failure r.outcome ≡ false
    paused : length r.pauses + 1 ≡ r.calls
    capped : All (λ n. n ≤ cap) r.pauses

  first : (start : ℕ) (o : Attempt A E) → operation start ≡ o → o ≡ operation (start + 0)
  first start o e = let z : start + 0 ≡ start = omega arith in sym e ∙ ap operation (sym z)

  after-IsRun :
      (start left : ℕ) (o : Attempt A E) {rest : Retried A E}
      → operation start ≡ o
      → IsRun (suc start) left rest
      → IsRun start (suc left) (after start rest o)
  after-IsRun start left (returns a) e h = record {
    some_calls = omega arith;
    calls_bounded = omega arith;
    last = first start (returns a) e;
    early = λ _. refl;
    paused = omega arith;
    capped = tt;
  }
  after-IsRun start left (raises x) e h = record {
    some_calls = omega arith;
    calls_bounded = omega arith;
    last = first start (raises x) e;
    early = λ _. refl;
    paused = omega arith;
    capped = tt;
  }
  after-IsRun start left (fails x) {rest} e h =
      let some_calls = h.some_calls in
      record {
        some_calls = omega arith;
        calls_bounded = omega (arith, h.calls_bounded);
        last = h.last ∙ ap operation (omega arith);
        early = λ le. h.early (omega arith);
        paused = omega (arith, h.paused);
        capped = (omega arith, h.capped);
      }

  attempts-IsRun : (start left : ℕ) → IsRun start left (attempts start left)
  unfolding attempts
  attempts-IsRun start zero = record {
    some_calls = omega arith;
    calls_bounded = omega arith;
    last = first start (operation start) refl;
    early = λ h. absurd (omega arith);
    paused = omega arith;
    capped = tt;
  }
  attempts-IsRun start (suc left) =
      after-IsRun start left (operation start) refl (attempts-IsRun (suc start) left)

  after-calls :
      (start : ℕ) (rest : Retried A E) (o : Attempt A E)
      → 1 < (after start rest o).calls
      → (is_failure o ≡ true) × ((after start rest o).calls ≡ suc rest.calls)
  after-calls start rest (returns a) h = absurd (omega arith)
  after-calls start rest (raises x) h = absurd (omega arith)
  after-calls start rest (fails x) h = (refl, refl)

  attempts-retried :
      (start left n : ℕ)
      → suc n < (attempts start left).calls
      → is_failure (operation (start + n)) ≡ true
  unfolding attempts
  attempts-retried start zero n h = absurd (omega arith)
  attempts-retried start (suc left) zero h =
      let z : start + 0 ≡ start = omega arith in
      rw z (after-calls start (attempts (suc start) left) (operation start) h).0
  attempts-retried start (suc left) (suc n) h =
      let more = after-calls start (attempts (suc start) left) (operation start) (omega arith) in
      let calls = more.1 in
      let z : start + suc n ≡ suc start + n = omega arith in
      rw z (attempts-retried (suc start) left n (omega arith))

  -- The operation is called at least once and at most `max_retries + 1` times. The result is that
  -- of the last call. Every earlier call failed with an error of `retry_on`, and the loop stops
  -- early only at a call that did not. There is one pause between two calls, and none is longer
  -- than the cap.
  pub with_retries_lem :
      (0 < with_retries.calls)
      × (with_retries.calls ≤ suc max_retries)
      × (with_retries.outcome ≡ operation (with_retries.calls - 1))
      × ((n : ℕ) → suc n < with_retries.calls → is_failure (operation n) ≡ true)
      × (with_retries.calls ≤ max_retries → is_failure with_retries.outcome ≡ false)
      × (length with_retries.pauses + 1 ≡ with_retries.calls)
      × All (λ n. n ≤ cap) with_retries.pauses
  unfolding with_retries
  with_retries_lem =
      let h = attempts-IsRun 0 max_retries in
      (
        h.some_calls,
        h.calls_bounded,
        h.last ∙ ap operation (omega arith),
        (λ n lt. let z : 0 + n ≡ n = omega arith in rw z at (attempts-retried 0 max_retries n lt)),
        h.early,
        h.paused,
        h.capped,
      )
