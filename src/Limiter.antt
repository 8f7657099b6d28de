-- ===== src/Limiter.antt =====
-- src/context_proxy/observability/ratelimit.py. `Floats` is what the limiter computes with; a dict
-- is a list of its entries in insertion order. Each method is one step, since a lock guards it.
pub mod Keys
pub mod Capacity
pub mod Entry
use low_context_inference.Base.{
  ℕ, zero, suc, ◌+◌, max, Bool, true, false, not, Option, none, some, String, ◌<>◌, str_eq, List,
  [], ◌∷◌, leb, is_some, if◌then◌else◌, length, map,
}

pub record Floats : Type 1 where
  pub Num : Type 0
  pub one : Num
  pub nought : Num
  pub plus : Num → Num → Num
  pub minus : Num → Num → Num
  pub times : Num → Num → Num
  pub over : Num → Num → Num
  -- `<`
  pub less : Num → Num → Bool
  -- `int`, of a positive number
  pub floor : Num → ℕ

pub data Scope : Type 0 where
  client conversation : Scope

pub data AdmissionDecision : Type 0 where
  allowed : AdmissionDecision
  refused : Scope → (retry_after : ℕ) → AdmissionDecision

module _ (fl : Floats) where
  open fl use {Num, one, nought, plus, minus, times, over, less, floor}

  abbrev pub Dict : Type 0
  Dict = List (String × Num)

  abbrev pub keys : Dict → List String
  keys = map (λ e. e.0)

  unfoldable pub find : String → Dict → Option Num
  find k [] = none
  find k ((j, v) ∷ d) = if str_eq j k then some v else find k d

  -- `d[k] = v`
  unfoldable pub set : String → Num → Dict → Dict
  set k v [] = (k, v) ∷ []
  set k v ((j, w) ∷ d) = if str_eq j k then (j, v) ∷ d else (j, w) ∷ set k v d

  -- `del d[k]`
  unfoldable pub del : String → Dict → Dict
  del k [] = []
  del k ((j, w) ∷ d) = if str_eq j k then d else (j, w) ∷ del k d

  pub record RateLimiter : Type 0 where
    pub tokens : Dict
    pub updated : Dict
    pub last_sweep : Num

  abbrev pub forget : String → RateLimiter → RateLimiter
  forget k s = record s { tokens = del k s.tokens; updated = del k s.updated }

  abbrev pub forget_all : List String → RateLimiter → RateLimiter
  forget_all [] s = s
  forget_all (k ∷ ks) s = forget_all ks (forget k s)

  -- `min(self._updated, key=self._updated.get)`, from the best so far on
  unfoldable pub coldest_from : String × Num → Dict → String
  coldest_from best [] = best.0
  coldest_from best (e ∷ d) = coldest_from (if less e.1 best.1 then e else best) d

  abbrev pub init : Num → RateLimiter
  init now = record { tokens = []; updated = []; last_sweep = now }

  module _ (rate burst ttl sweep_interval : Num) (max_identities : ℕ)
      (normalize : String → String) where
    unfoldable pub stale : Num → Dict → List String
    stale now [] = []
    stale now ((k, last) ∷ d) =
        let rest = stale now d in if less ttl (minus now last) then k ∷ rest else rest

    unfoldable pub expire_stale : Num → RateLimiter → RateLimiter
    unfolding stale del
    expire_stale now s = forget_all (stale now s.updated) s

    -- the `while` loop, with a bound on its rounds
    unfoldable pub make_room : ℕ → RateLimiter → RateLimiter
    unfolding coldest_from del
    make_room zero s = s
    make_room (suc rounds) s = elim s.updated [
      | [] ↦ s
      | e ∷ d ↦
          let rest = make_room rounds (forget (coldest_from e d) s) in
          if leb max_identities (length s.tokens) then rest else s
    ]

    -- the sweep, at most once in an interval
    abbrev pub sweep : Num → RateLimiter → RateLimiter
    sweep now s =
        if less (minus now s.last_sweep) sweep_interval
        then s
        else record (expire_stale now s) { last_sweep = now }

    abbrev pub admit_new : String → RateLimiter → RateLimiter
    admit_new key s = if is_some (find key s.updated) then s else make_room (length s.tokens) s

    abbrev pub or_burst : Option Num → Num
    or_burst none = burst
    or_burst (some n) = n

    -- the tokens after the refill; a new bucket is full
    unfoldable pub refilled : Num → String → RateLimiter → Num
    unfolding find
    refilled now key s = elim (find key s.updated) [
      | none ↦ or_burst (find key s.tokens)
      | some last ↦
          let n = plus (or_burst (find key s.tokens)) (times (minus now last) rate) in
          if less n burst then n else burst
    ]

    -- the bucket is written, with one token less if it has one
    unfoldable pub take_token : Num → String → RateLimiter → RateLimiter × Bool
    unfolding refilled set
    take_token now key s =
        let n = refilled now key s in
        let stored =
          λ (m : Num). record s { tokens = set key m s.tokens; updated = set key now s.updated } in
        if less n one then (stored n, false) else (stored (minus n one), true)

    unfoldable pub consume : Num → String → RateLimiter → RateLimiter × Bool
    unfolding take_token make_room expire_stale find
    consume now key s = take_token now key (admit_new key (sweep now s))

    unfoldable pub seconds_until_token : String → RateLimiter → ℕ
    unfolding find
    seconds_until_token key s =
        let deficit = minus one (or_burst (find key s.tokens)) in
        if less nought deficit then max 1 (suc (floor (over deficit rate))) else 1

    abbrev pub client_key : String → String
    client_key key = "c\0" <> normalize key

    abbrev pub conversation_key : String → String
    conversation_key key = "v\0" <> normalize key

    -- the second bucket
    unfoldable pub admit_conversation :
        Num → Option String → RateLimiter → RateLimiter × AdmissionDecision
    unfolding consume seconds_until_token
    admit_conversation now none s = (s, allowed)
    admit_conversation now (some key) s =
        let (s', ok) = consume now (conversation_key key) s in
        (
          s',
          if ok
              then allowed
              else refused conversation (seconds_until_token (conversation_key key) s'),
        )

    -- `conversation_key` is `none` if it is missing or empty
    unfoldable pub admit :
        Num → String → Option String → RateLimiter → RateLimiter × AdmissionDecision
    unfolding consume admit_conversation seconds_until_token
    admit now key conversation_key s =
        let (s', ok) = consume now (client_key key) s in
        let next = admit_conversation now conversation_key s' in
        if ok then next else (s', refused client (seconds_until_token (client_key key) s'))

    abbrev pub identity_count : RateLimiter → ℕ
    identity_count s = length s.tokens
