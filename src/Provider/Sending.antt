-- ===== src/Provider/Sending.antt =====
-- How `_resilient_send` of src/context_proxy/providers/llm.py ends, for each outcome of its last call.
use mathlib.Core.Path.{subst}
use low_context_inference.Base.{ℕ, suc, ◌-◌, ◌≤◌, ◌<◌, ◌≡◌, refl, sym, ap, ◌∙◌, true, false, arith}
use low_context_inference.Breaker.{
  CircuitBreaker, closed, allow_attempt, record_success, record_failure, release_probe, transition,
}
use low_context_inference.Breaker.Retries.{with_retries_lem, is_failure}
use low_context_inference.Provider.{
  Failure, connect, timeout, transport, other, Sent, answers, breaks, Outcome, response,
  unavailable, unclassified, map_upstream_error, attempt_of, finish, send_all, resilient_send,
}

module _ {A : Type 0} where
  -- what each outcome of the last call comes to, from the breaker as the other requests left it
  abbrev pub Ends : Sent A → CircuitBreaker → CircuitBreaker × Outcome A → Type 0
  Ends (answers a) b r = (r.1 ≡ response a) × (r.0.state ≡ closed) × (r.0.consecutive_failures ≡ 0)
  Ends (breaks connect) b r =
      (r.1 ≡ unavailable (map_upstream_error connect))
      × (r.0.consecutive_failures ≡ suc b.consecutive_failures)
  Ends (breaks other) b r = (r.1 ≡ unclassified) × (r.0 ≡ record b { probe_reserved = false })
  Ends (breaks e) b r =
      (r.1 ≡ unavailable (map_upstream_error e)) × (r.0 ≡ record b { probe_reserved = false })

  connect-failure :
      (o : Sent A)
      → (is_failure {A = A} {E = Failure} (λ n. attempt_of o) 0 0 0 (attempt_of o)) ≡ true
      → o ≡ breaks connect
  connect-failure (answers a) h = ground (arith, h)
  connect-failure (breaks connect) h = refl
  connect-failure (breaks timeout) h = ground (arith, h)
  connect-failure (breaks transport) h = ground (arith, h)
  connect-failure (breaks other) h = ground (arith, h)

  pub finish-Ends :
      (now : ℕ) (o : Sent A) (b : CircuitBreaker)
      → Ends o b (finish now (attempt_of o) b)
        × ((finish now (attempt_of o) b).0.probe_reserved ≡ false)
  unfolding finish record_success record_failure release_probe transition
  finish-Ends now (answers a) b = ((refl, ground arith, refl), refl)
  finish-Ends now (breaks connect) b = ((refl, ground arith), refl)
  finish-Ends now (breaks timeout) b = ((refl, refl), refl)
  finish-Ends now (breaks transport) b = ((refl, refl), refl)
  finish-Ends now (breaks other) b = ((refl, refl), refl)

  module _ (send : ℕ → Sent A) (max_retries base cap : ℕ) where
    -- An admitted request is sent at most `max_retries + 1` times, and again only after a connection
    -- that was not made, so never when the provider may have got it. It ends as its last call does:
    -- an answer is returned and closes the breaker, a connection that was not made is one failure
    -- more, anything else leaves the breaker as the other requests left it, and no probe stays
    -- reserved.
    pub resilient_send-Ends :
        (now later : ℕ) (meanwhile : CircuitBreaker → CircuitBreaker) (b : CircuitBreaker)
        → (allow_attempt now b).1 ≡ true
        → let run = send_all send max_retries base cap in
          let r = resilient_send send max_retries base cap now later meanwhile b in
          (run.calls ≤ suc max_retries)
          × ((n : ℕ) → suc n < run.calls → send n ≡ breaks connect)
          × Ends (send (run.calls - 1)) (meanwhile (allow_attempt now b).0) r
          × (r.0.probe_reserved ≡ false)
    unfolding resilient_send send_all
    resilient_send-Ends now later meanwhile b h =
        let (p, q, e, again, early, paused, capped) =
          with_retries_lem (λ n. attempt_of (send n)) max_retries base cap in
        let last = send ((send_all send max_retries base cap).calls - 1) in
        let b' = meanwhile (allow_attempt now b).0 in
        let (f, g) = finish-Ends later last b' in
        let same : resilient_send send max_retries base cap now later meanwhile b
            ≡ finish later (attempt_of last) b' =
          rw (resilient_send, h) (ap (λ o. finish later o b') e) in
        (
          q,
          (λ n lt. connect-failure (send n) (again n lt)),
          subst (Ends last b') (sym same) f,
          ap (λ r. r.0.probe_reserved) same ∙ g,
        )
