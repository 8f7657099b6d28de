-- ===== src/Engine/Request.antt =====
-- `separate_current_request` of src/context_proxy/context/engine.py.
pub mod Splitting
use mathlib.Core.Path.{subst}
use low_context_inference.Base.{
  ℕ, zero, suc, ◌+◌, ◌-◌, ◌≤◌, ◌<◌, ◌≡◌, ◌⊎◌, inl, inr, refl, sym, ap, ◌∙◌, Bool, true, false, ◌&&◌,
  Option, none, some, List, [], ◌∷◌, ◌++◌, ltb, if◌then◌else◌, length, take, drop, get_elem?, arith,
  tests, ltb→ge, ltb→lt, take-append-drop, Bool-cases, All,
}
use low_context_inference.Json.{Fields, end, get, lookup, is_text}
use low_context_inference.Planner.{is_instruction_role}

-- `messages[index]`, for an index in range
unfoldable pub at : List Fields → ℕ → Fields
at [] n = end
at (m ∷ ms) zero = m
at (m ∷ ms) (suc n) = at ms n

unfoldable pub is_user : Fields → Bool
unfolding get lookup is_text
is_user m = is_text (get m "role") "user"

abbrev pub is_instruction : Fields → Bool
is_instruction m = is_instruction_role (get m "role")

-- the loop down from the last index, on the number of messages before it
unfoldable pub last_user_index : List Fields → ℕ → Option ℕ
unfolding at is_user
last_user_index messages zero = none
last_user_index messages (suc n) =
    let rest = last_user_index messages n in if is_user (at messages n) then some n else rest

-- the `while` loop: `end`, here `stop`, and `trailing_systems`
unfoldable pub trim : List Fields → ℕ → ℕ → List Fields → ℕ × List Fields
unfolding at is_instruction_role
trim messages last zero trailing = (zero, trailing)
trim messages last (suc n) trailing =
    let rest = trim messages last n (at messages n ∷ trailing) in
    if ltb last n && is_instruction (at messages n) then rest else (suc n, trailing)

abbrev pub split_at : List Fields → Option ℕ → List Fields × List Fields
split_at messages none = (messages, [])
split_at messages (some last) =
    let (stop, trailing) = trim messages last (length messages) [] in
    (take last messages ++ trailing, drop last (take stop messages))

-- the history and the current request
unfoldable pub separate_current_request : List Fields → List Fields × List Fields
unfolding last_user_index trim
separate_current_request messages = split_at messages (last_user_index messages (length messages))
