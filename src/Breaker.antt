-- ===== src/Breaker.antt =====
-- src/context_proxy/providers/resilience.py. The clock is read once in each call, and its reading
-- `now` is an argument: a number of ticks of a monotonic clock, at any fixed length of a tick.
-- Each method holds the lock throughout, so each call is one step. Gauges and logs are left out.
pub mod Probe
pub mod Retries
use low_context_inference.Base.{
  ℕ, zero, suc, ◌+◌, ◌-◌, Bool, true, false, Option, none, some, List, [], ◌∷◌, ltb, leb,
  if◌then◌else◌,
}

pub data Circuit : Type 0 where
  closed open_ half_open : Circuit

pub record CircuitBreaker : Type 0 where
  pub threshold : ℕ
  pub reset_after : ℕ
  pub state : Circuit
  pub consecutive_failures : ℕ
  pub opened_at : ℕ
  pub probe_reserved : Bool

-- `none` is `ValueError`
unfoldable pub init : ℕ → ℕ → Option CircuitBreaker
init failure_threshold reset_seconds =
    if ltb failure_threshold 1
    then none
    else some (record {
      threshold = failure_threshold;
      reset_after = reset_seconds;
      state = closed;
      consecutive_failures = 0;
      opened_at = 0;
      probe_reserved = false;
    })

unfoldable pub transition : ℕ → Circuit → CircuitBreaker → CircuitBreaker
transition now open_ b = record b { state = open_; opened_at = now; probe_reserved = false }
transition now closed b = record b { state = closed; probe_reserved = false }
transition now half_open b = record b { state = half_open }

abbrev expire : ℕ → Circuit → CircuitBreaker → CircuitBreaker
expire now open_ b = if leb b.reset_after (now - b.opened_at) then transition now half_open b else b
expire now _ b = b

-- `_current_state`: the new breaker, whose state is the result
unfoldable pub current_state : ℕ → CircuitBreaker → CircuitBreaker
unfolding transition
current_state now b = expire now b.state b

abbrev admit : Circuit → CircuitBreaker → CircuitBreaker × Bool
admit open_ b = (b, false)
admit half_open b =
    if b.probe_reserved then (b, false) else (record b { probe_reserved = true }, true)
admit closed b = (b, true)

unfoldable pub allow_attempt : ℕ → CircuitBreaker → CircuitBreaker × Bool
unfolding current_state
allow_attempt now b = let b' = current_state now b in admit b'.state b'

abbrev close : ℕ → Circuit → CircuitBreaker → CircuitBreaker
close now closed b = b
close now _ b = transition now closed b

unfoldable pub record_success : ℕ → CircuitBreaker → CircuitBreaker
unfolding transition
record_success now b =
    let b' = close now b.state b in record b' { consecutive_failures = 0; probe_reserved = false }

-- the two tests of `record_failure`, after the counter has gone up
abbrev trip : ℕ → Circuit → CircuitBreaker → CircuitBreaker
trip now half_open b = transition now open_ b
trip now closed b = if leb b.threshold b.consecutive_failures then transition now open_ b else b
trip now open_ b = b

unfoldable pub record_failure : ℕ → CircuitBreaker → CircuitBreaker
unfolding transition
record_failure now b =
    trip now b.state
      (record b { probe_reserved = false; consecutive_failures = b.consecutive_failures + 1 })

unfoldable pub release_probe : CircuitBreaker → CircuitBreaker
release_probe b = record b { probe_reserved = false }
