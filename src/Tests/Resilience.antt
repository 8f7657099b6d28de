-- ===== src/Tests/Resilience.antt =====
-- The circuit breaker and the retries on short runs.
use low_context_inference.Base.{
  ℕ, suc, ◌+◌, ◌-◌, ◌≤◌, ◌<◌, ◌≡◌, ◌≢◌, refl, true, false, some, List, [], ◌∷◌, arith, All, length,
  if◌then◌else◌, ◌==◌,
}
use low_context_inference.Breaker.{
  closed, open_, CircuitBreaker, init, transition, current_state, allow_attempt, record_success,
  record_failure, release_probe,
}
use low_context_inference.Breaker.Probe.{
  IsValid, Call, read, allow, failure, step, run, one_probe, fail_times,
}
use low_context_inference.Breaker.Retries.{
  Attempt, returns, fails, is_failure, with_retries, with_retries_lem,
}

breaker : Unit {0}
unfolding init transition current_state allow_attempt record_success record_failure release_probe
    step run fail_times
breaker = tt

abbrev fresh : CircuitBreaker
fresh = record {
  threshold = 2;
  reset_after = 30;
  state = closed;
  consecutive_failures = 0;
  opened_at = 0;
  probe_reserved = false;
}

abbrev tripped : CircuitBreaker
tripped = record fresh { state = open_; consecutive_failures = 2; opened_at = 7 }

opens : (run ((failure, 5) ∷ (failure, 7) ∷ []) fresh).0 ≡ tripped
unfolding breaker
opens = refl

-- two requests at once after the reset time: one is let through
abbrev race : List (Call × ℕ)
race = (allow, 36) ∷ (allow, 37) ∷ (read, 38) ∷ (allow, 38) ∷ []

races : (run race tripped).1 ≡ 1
unfolding breaker
races = refl

tripped_ne : tripped.state ≢ closed
tripped_ne e = cc

one_probe_example :
    ((run race tripped).1 ≤ 1) × (tripped.probe_reserved ≡ true → (run race tripped).1 ≡ 0)
one_probe_example = one_probe race tripped (tt, (tt, (tt, (tt, tt)))) tripped_ne

tripped-IsValid : IsValid tripped
tripped-IsValid = record { positive = omega arith; reserved = λ e. cc; below = λ e. cc }

fresh-init : init 2 30 ≡ some fresh
unfolding breaker
fresh-init = refl

-- fails twice, then returns
abbrev flaky : ℕ → Attempt ℕ ℕ
flaky n = if n == 2 then returns 9 else fails n

flaky_run :
    with_retries flaky 4 10 15 ≡ record { outcome = returns 9; calls = 3; pauses = 10 ∷ 15 ∷ [] }
unfolding with_retries
flaky_run = refl

with_retries_lem_example :
    let r = with_retries flaky 4 10 15 in
    (0 < r.calls)
    × (r.calls ≤ 5)
    × (r.outcome ≡ flaky (r.calls - 1))
    × ((n : ℕ) → suc n < r.calls → is_failure flaky 4 10 15 (flaky n) ≡ true)
    × (r.calls ≤ 4 → is_failure flaky 4 10 15 r.outcome ≡ false)
    × (length r.pauses + 1 ≡ r.calls)
    × All (λ n. n ≤ 15) r.pauses
with_retries_lem_example = with_retries_lem flaky 4 10 15
