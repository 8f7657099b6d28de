-- ===== src/Provider/Probes.antt =====
-- Requests that share the breaker, in any order of their starts and ends: `_resilient_send` of
-- src/context_proxy/providers/llm.py.
use low_context_inference.Base.{
  ℕ, suc, ◌+◌, ◌≤◌, ◌<◌, ◌≡◌, true, false, some, arith, if◌then◌else◌, Bool-cases, inl, inr,
}
use low_context_inference.Breaker.{CircuitBreaker, init, allow_attempt, current_state, transition}
use low_context_inference.Provider.{Sent, attempt_of, finish}
use low_context_inference.Provider.Sending.{finish-Ends}

-- the breaker, and the number of requests that were admitted and have not ended
pub record System : Type 0 where
  pub breaker : CircuitBreaker
  pub in_flight : ℕ

abbrev pub started : ℕ → System → System
started now s =
    let (b, admitted) = allow_attempt now s.breaker in
    record { breaker = b; in_flight = if admitted then suc s.in_flight else s.in_flight }

module _ {A : Type 0} where
  abbrev pub ended : ℕ → Sent A → CircuitBreaker → ℕ → System
  ended now o b n = record { breaker = (finish now (attempt_of o) b).0; in_flight = n }

pub data Reach (A : Type 0) (s : System) : System → Type 0 where
  here : Reach A s s
  start : {t : System} (now : ℕ) → Reach A s t → Reach A s (started now t)
  end :
      {b : CircuitBreaker} {n : ℕ} (now : ℕ) (o : Sent A)
      → Reach A s (record { breaker = b; in_flight = suc n })
      → Reach A s (ended now o b n)

-- a reserved probe belongs to a request that has not ended
abbrev HasOwner : System → Type 0
HasOwner s = s.breaker.probe_reserved ≡ true → 0 < s.in_flight

started-HasOwner : (now : ℕ) (s : System) → HasOwner s → HasOwner (started now s)
unfolding allow_attempt current_state transition
started-HasOwner now s h e = ground (arith, e, h)

module _ {A : Type 0} where
  Reach-HasOwner : {s t : System} → HasOwner s → Reach A s t → HasOwner t
  Reach-HasOwner h here e = h e
  Reach-HasOwner h (start now r) e = started-HasOwner now _ (Reach-HasOwner h r) e
  Reach-HasOwner h (end {b} {n} now o r) e = ground (arith, e, (finish-Ends now o b).1)

  -- Whatever requests share a new breaker, in any order of their starts and ends and however they end,
  -- cancelled ones too: once all have ended, no probe is reserved, and the next request is admitted
  -- when the reset time has passed.
  pub Reach-admits :
      (failure_threshold reset_seconds now : ℕ) (b : CircuitBreaker) (s : System)
      → init failure_threshold reset_seconds ≡ some b
      → Reach A (record { breaker = b; in_flight = 0 }) s
      → s.in_flight ≡ 0
      → s.breaker.opened_at + s.breaker.reset_after ≤ now
      → (s.breaker.probe_reserved ≡ false) × ((allow_attempt now s.breaker).1 ≡ true)
  unfolding init allow_attempt current_state transition
  Reach-admits failure_threshold reset_seconds now b s e r none_left passed =
      let own = Reach-HasOwner (λ f. ground (arith, e, f)) r in
      elim (Bool-cases s.breaker.probe_reserved) [
        | inl f ↦ let no : ⊥ = omega (arith, own f, none_left) in elim no [ ]
        | inr f ↦ (f, ground (arith, f, passed))
      ]
