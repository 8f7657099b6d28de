-- ===== src/Tests/Planning.antt =====
-- The counter and the planner on a short history.
use low_context_inference.Base.{ℕ, ◌+◌, ◌≤◌, ◌<◌, ◌≡◌, refl, String, List, [], ◌∷◌, ◌++◌, arith}
use low_context_inference.Json.{str, Fields, end, field, get, lookup, is_text}
use low_context_inference.Tokens.{Counter, count_messages}
use low_context_inference.Planner.{
  is_instruction_role, flat, sum_tokens, system_tokens, segment_messages, add_message, drop_oldest,
  ContextPlan, planned, overflow, plan_context,
}
use low_context_inference.Planner.Budget.{window, plan_context-planned}

abbrev say : String → String → Fields
say role text = field "role" (str role) (field "content" (str text) end)

abbrev ten_each : Counter
ten_each = record { message = λ m. 10; tools = λ ts. 5 }

abbrev history : List Fields
history =
    say "system" "be brief"
    ∷ say "user" "a"
    ∷ say "assistant" "b"
    ∷ say "user" "c"
    ∷ say "assistant" "d"
    ∷ []

abbrev request : List Fields
request = say "user" "e" ∷ []

planning : Unit {0}
unfolding is_instruction_role segment_messages add_message drop_oldest plan_context is_text get
    lookup
planning = tt

-- the oldest turn goes, the instruction stays
abbrev expected : ContextPlan
expected = record {
  messages = say "system" "be brief" ∷ say "user" "c" ∷ say "assistant" "d" ∷ say "user" "e" ∷ [];
  total_tokens = 40;
  tools_tokens = 5;
  usable_budget = 60;
  dropped_units = 1;
  dropped_tokens = 20;
}

drops_oldest : plan_context ten_each history request [] 60 10 ≡ planned expected
unfolding planning
drops_oldest = refl

too_small : plan_context ten_each history request [] 30 10 ≡ overflow 35 30
unfolding planning
too_small = refl

enough : system_tokens (segment_messages ten_each history) + (5 + 10 + 10) ≤ 60
unfolding planning
enough = omega arith

plan_context-planned_example :
    (n : ℕ) × (p : ContextPlan) × (plan_context ten_each history request [] 60 10 ≡ planned p)
    × (p.messages ≡ flat (window n (segment_messages ten_each history)) ++ request)
    × (p.total_tokens
        ≡ sum_tokens (window n (segment_messages ten_each history))
          + count_messages ten_each request)
    × (p.total_tokens + 5 + 10 ≤ 60)
    × ((k : ℕ)
        → k < n
        → 60 < sum_tokens (window k (segment_messages ten_each history)) + (5 + 10 + 10))
plan_context-planned_example = plan_context-planned ten_each history request [] 60 10 enough

not_enough : 30 < system_tokens (segment_messages ten_each history) + (5 + 10 + 10)
unfolding planning
not_enough = omega arith

abbrev image : String → Fields
image url = field "type" (str "image_url") (field "image_url" (str url) end)
