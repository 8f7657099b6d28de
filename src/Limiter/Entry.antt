-- ===== src/Limiter/Entry.antt =====
-- The constructor and the short methods of `RateLimiter` of src/context_proxy/observability/ratelimit.py.
use low_context_inference.Base.{
  ℕ, Bool, true, false, ◌||◌, ◌==◌, not, Option, none, some, String, [], if◌then◌else◌,
}
use low_context_inference.Limiter.{
  Floats, AdmissionDecision, allowed, refused, RateLimiter, init, admit, client_key,
  seconds_until_token,
}

module _ (fl : Floats) where
  open fl use {Num, nought, less}

  -- the checks of the constructor; `none` is a `ValueError`
  unfoldable pub new_limiter : ℕ → ℕ → ℕ → Num → ℕ → Num → Option (RateLimiter fl)
  new_limiter requests_per_minute burst max_identities ttl max_identity_chars now =
      if requests_per_minute == 0 || burst == 0
      then none
      else if max_identities == 0
      then none
      else if not (less nought ttl)
      then none
      else if max_identity_chars == 0
      then none
      else some (init fl now)

  module _ (rate burst ttl sweep_interval : Num) (max_identities : ℕ)
      (normalize : String → String) where
    abbrev pub is_allowed : AdmissionDecision → Bool
    is_allowed allowed = true
    is_allowed (refused scope seconds) = false

    unfoldable pub allow : Num → String → RateLimiter fl → RateLimiter fl × Bool
    unfolding admit
    allow now key s =
        let (s', decision) =
          admit fl rate burst ttl sweep_interval max_identities normalize now key none s in
        (s', is_allowed decision)

    unfoldable pub retry_after : String → RateLimiter fl → ℕ
    unfolding seconds_until_token
    retry_after key s =
        seconds_until_token fl rate burst ttl sweep_interval max_identities normalize
          (client_key fl rate burst ttl sweep_interval max_identities normalize key) s

    abbrev pub reset : RateLimiter fl → RateLimiter fl
    reset s = record s { tokens = []; updated = [] }
