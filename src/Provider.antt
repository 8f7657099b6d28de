-- ===== src/Provider.antt =====
-- src/context_proxy/providers/llm.py. What httpx does with a request is a parameter: the outcome of
-- its call number `n`. Time passes and other requests run while one waits, so a request is two steps
-- of the breaker that they share: its start, and its end.
pub mod Headers
pub mod Client
pub mod Stream
pub mod Replies
pub mod Sending
pub mod Forwarding
pub mod Probes
use low_context_inference.Base.{
  ℕ, suc, Bool, true, false, Option, none, some, List, [], ◌∷◌, if◌then◌else◌,
}
use low_context_inference.Breaker.{
  CircuitBreaker, allow_attempt, record_success, record_failure, release_probe,
}
use low_context_inference.Breaker.Retries.{Attempt, returns, fails, raises, Retried, with_retries}

-- what a send raises: a `ConnectError` or `ConnectTimeout`, another `TimeoutException`, another
-- `HTTPError`, or what is no `HTTPError`, like a cancellation
pub data Failure : Type 0 where
  connect timeout transport other : Failure

pub data Sent (A : Type 0) : Type 0 where
  answers : A → Sent A
  breaks : Failure → Sent A

-- the text of `UpstreamUnavailable`
pub data Reason : Type 0 where
  cannot_connect timed_out transport_error breaker_is_open : Reason

pub data Outcome (A : Type 0) : Type 0 where
  response : A → Outcome A
  unavailable : Reason → Outcome A
  -- raised again unchanged
  unclassified : Outcome A

-- `map_upstream_error`
abbrev pub map_upstream_error : Failure → Reason
map_upstream_error connect = cannot_connect
map_upstream_error timeout = timed_out
map_upstream_error _ = transport_error

-- `retry_on=RETRYABLE_TRANSPORT_ERRORS`
abbrev pub attempt_of : {A : Type 0} → Sent A → Attempt A Failure
attempt_of (answers a) = returns a
attempt_of (breaks connect) = fails connect
attempt_of (breaks e) = raises e

module _ {A : Type 0} where
  -- the handlers, and the `finally` block
  unfoldable pub finish : ℕ → Attempt A Failure → CircuitBreaker → CircuitBreaker × Outcome A
  unfolding record_success record_failure release_probe
  finish now (returns a) b = (release_probe (record_success now b), response a)
  finish now (fails e) b =
      (release_probe (record_failure now b), unavailable (map_upstream_error e))
  finish now (raises other) b = (release_probe b, unclassified)
  finish now (raises e) b = (release_probe b, unavailable (map_upstream_error e))

  -- the calls of httpx, once the request is admitted
  unfoldable pub send_all : (ℕ → Sent A) → ℕ → ℕ → ℕ → Retried A Failure
  unfolding with_retries
  send_all send max_retries base cap = with_retries (λ n. attempt_of (send n)) max_retries base cap

  -- `_resilient_send`: `meanwhile` is what the other requests do to the breaker while this one waits
  unfoldable pub resilient_send :
      (ℕ → Sent A)
      → ℕ
      → ℕ
      → ℕ
      → ℕ
      → ℕ
      → (CircuitBreaker → CircuitBreaker)
      → CircuitBreaker
      → CircuitBreaker × Outcome A
  unfolding allow_attempt send_all finish
  resilient_send send max_retries base cap now later meanwhile b =
      let (b', admitted) = allow_attempt now b in
      if admitted
      then finish later (send_all send max_retries base cap).outcome (meanwhile b')
      else (b', unavailable breaker_is_open)
