-- ===== src/Breaker/Probe.antt =====
-- The breaker under any interleaving of calls: at most one probe is out while it is half open.
use low_context_inference.Base.{
  ℕ, suc, ◌+◌, ◌-◌, ◌≤◌, ◌<◌, ◌≡◌, ◌≢◌, Bool, true, false, some, List, [], ◌∷◌, arith,
  if◌then◌else◌, ◌⊎◌, ◌↔◌, All, length,
}
use low_context_inference.Breaker.{
  closed, open_, half_open, CircuitBreaker, init, current_state, allow_attempt, record_success,
  record_failure, release_probe,
}

-- What holds between two calls.
pub record IsValid (b : CircuitBreaker) : Type 0 where
  pub positive : 0 < b.threshold
  pub reserved : b.probe_reserved ≡ true → b.state ≡ half_open
  pub below : b.state ≡ closed → b.consecutive_failures < b.threshold

pub data Call : Type 0 where
  read allow success failure : Call
  release : Call

-- one locked method at the time `now`: the breaker after it, and whether it let an attempt through
unfoldable pub step : Call → ℕ → CircuitBreaker → CircuitBreaker × Bool
step read now b = (current_state now b, false)
step allow now b = allow_attempt now b
step success now b = (record_success now b, false)
step failure now b = (record_failure now b, false)
step release now b = (release_probe b, false)

init-IsValid : (n t : ℕ) {b : CircuitBreaker} → init n t ≡ some b → IsValid b
unfolding init
init-IsValid n t h = ground arith

-- Every method keeps the invariant.
pub step-IsValid :
    (call : Call) (now : ℕ) (b : CircuitBreaker) → IsValid b → IsValid (step call now b).0
unfolding step allow_attempt record_success record_failure release_probe
step-IsValid read now b h = ground arith
step-IsValid allow now b h = ground arith
step-IsValid success now b h = ground arith
step-IsValid failure now b h = ground arith
step-IsValid release now b h = ground arith

-- The calls that report no outcome.
abbrev pub IsSilent : Call → Type 0
IsSilent read = Unit
IsSilent allow = Unit
IsSilent _ = ⊥

unfoldable pub run : List (Call × ℕ) → CircuitBreaker → CircuitBreaker × ℕ
run [] b = (b, 0)
run ((call, now) ∷ calls) b =
    let (b', through) = step call now b in
    let (b'', n) = run calls b' in (b'', if through then suc n else n)

-- the attempts that a breaker which is not closed may still let through
spare : CircuitBreaker → ℕ
spare b = if b.probe_reserved then 0 else 1

silent-step :
    (call : Call) (now : ℕ) (b : CircuitBreaker)
    → IsSilent call
    → b.state ≢ closed
    → let (b', through) = step call now b in
      (b'.state ≢ closed) × ((if through then suc (spare b') else spare b') ≤ spare b)
unfolding step allow_attempt spare
silent-step read now b s h = ground arith
silent-step allow now b s h = ground arith
silent-step _ now b s h = absurd s

run-le-spare :
    (calls : List (Call × ℕ)) (b : CircuitBreaker)
    → All (λ c. IsSilent c.0) calls
    → b.state ≢ closed
    → (run calls b).1 ≤ spare b
unfolding run
run-le-spare [] b s h = omega arith
run-le-spare ((call, now) ∷ calls) b s h =
    ground (arith, silent-step call now b s.0 h, run-le-spare calls (step call now b).0 s.1)

-- Once the breaker is not closed, however the calls of concurrent requests are interleaved and
-- whatever the clock reads, at most one attempt gets through before an outcome is reported, and
-- none while a probe is out.
pub one_probe :
    (calls : List (Call × ℕ)) (b : CircuitBreaker)
    → All (λ c. IsSilent c.0) calls
    → b.state ≢ closed
    → ((run calls b).1 ≤ 1) × (b.probe_reserved ≡ true → (run calls b).1 ≡ 0)
unfolding spare
one_probe calls b s h = ground (arith, run-le-spare calls b s h)

-- An attempt is let through exactly when the circuit is closed, or when no probe is out and it is
-- half open or has been open for the reset time.
allow_attempt_iff :
    (now : ℕ) (b : CircuitBreaker)
    → ((allow_attempt now b).1 ≡ true) ↔ (
        (b.state ≡ closed)
        ⊎ (b.probe_reserved ≡ false)
          × ((b.state ≡ half_open) ⊎ (b.state ≡ open_) × (b.reset_after ≤ now - b.opened_at)))
unfolding allow_attempt
allow_attempt_iff now b = (λ h. ground arith, λ h. ground arith)

-- From any valid breaker, whatever calls went before, a report or a release of the probe lets the
-- next attempt through once the reset time has passed: no probe is lost for ever.
allow_after_outcome :
    (call : Call) (t now : ℕ) (b : CircuitBreaker)
    → IsValid b
    → ¬ IsSilent call
    → let b' = (step call t b).0 in
      b'.opened_at + b.reset_after ≤ now → (allow_attempt now b').1 ≡ true
unfolding step allow_attempt record_success record_failure release_probe
allow_after_outcome success t now b v loud h = ground arith
allow_after_outcome failure t now b v loud h = ground arith
allow_after_outcome release t now b v loud h = ground arith
allow_after_outcome _ t now b v loud h = absurd (loud tt)

-- `n` failures in a row
unfoldable pub fail_times : List ℕ → CircuitBreaker → CircuitBreaker
fail_times [] b = b
fail_times (now ∷ times) b = fail_times times (record_failure now b)

-- A closed breaker stays closed through fewer failures than its threshold, counting those before,
-- and opens at the one that reaches it, at that time and with no probe out.
failures_open :
    (times : List ℕ) (now : ℕ) (b : CircuitBreaker)
    → b.state ≡ closed
    → b.consecutive_failures + length times + 1 ≡ b.threshold
    → let before = fail_times times b in
      let after = record_failure now before in
      (before.state ≡ closed)
      × (after.state ≡ open_)
      × (after.opened_at ≡ now)
      × (after.probe_reserved ≡ false)
unfolding fail_times record_failure
failures_open [] now b c e = ground arith
failures_open (t ∷ times) now b c e =
    failures_open times now (record_failure t b) (ground arith) (ground arith)

-- From a new breaker on, every sequence of calls keeps the invariant: a probe is out only while the
-- circuit is half open, and a closed circuit has counted fewer failures than its threshold.
run-IsValid :
    (n t : ℕ) (calls : List (Call × ℕ)) {b : CircuitBreaker}
    → init n t ≡ some b
    → IsValid (run calls b).0
unfolding run
run-IsValid n t calls h = keep calls _ (init-IsValid n t h)
  where
    keep : (calls : List (Call × ℕ)) (b : CircuitBreaker) → IsValid b → IsValid (run calls b).0
    keep [] b v = v
    keep ((call, now) ∷ calls) b v = keep calls (step call now b).0 (step-IsValid call now b v)
