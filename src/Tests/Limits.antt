-- ===== src/Tests/Limits.antt =====
-- The rate limiter with two buckets at most.
use low_context_inference.Base.{
  ℕ, ◌+◌, ◌-◌, ◌*◌, ◌/◌, ◌≤◌, ◌≡◌, refl, Option, none, some, String, List, [], ◌∷◌, ltb, arith,
}
use low_context_inference.Limiter.{Floats, keys, init, identity_count, admit, refused, client}
use low_context_inference.Limiter.Capacity.{admit_all, admit_all-IsBounded}
use Prim.Native.String.{count}

nul_length : count "c\0" ≡ 2
nul_length = refl

abbrev whole : Floats
whole = record {
  Num = ℕ;
  one = 1;
  nought = 0;
  plus = ◌+◌;
  minus = ◌-◌;
  times = ◌*◌;
  over = ◌/◌;
  less = ltb;
  floor = λ n. n;
}

abbrev name : String → String
name s = s

-- a client without tokens, then two others
abbrev requests : List (ℕ × Option String × String)
requests = (1, none, "a") ∷ (1, none, "a") ∷ (2, some "k", "b") ∷ (3, none, "c") ∷ []

second_refused :
    (admit whole 0 1 100 50 2 name 1 "a" none
      (admit_all whole 0 1 100 50 2 name ((1, none, "a") ∷ []) (init whole 0))).1
    ≡ refused client 1
unfolding admit
second_refused = refl

evicts :
    keys whole (admit_all whole 0 1 100 50 2 name requests (init whole 0)).tokens
    ≡ "v\0k" ∷ "c\0c" ∷ []
unfolding admit
evicts = refl

admit_all-IsBounded_example :
    (identity_count whole 0 1 100 50 2 name
        (admit_all whole 0 1 100 50 2 name requests (init whole 0))
      ≤ 2)
    × (keys whole (admit_all whole 0 1 100 50 2 name requests (init whole 0)).tokens
        ≡ keys whole (admit_all whole 0 1 100 50 2 name requests (init whole 0)).updated)
admit_all-IsBounded_example = admit_all-IsBounded whole 0 1 100 50 2 name requests 0 (omega arith)
