-- ===== src/Planner.antt =====
-- src/context_proxy/context/planner.py. The counter is the `TokenCounter` argument.
pub mod Budget
use low_context_inference.Base.{
  ℕ, zero, suc, ◌+◌, ◌-◌, ◌≤◌, Bool, true, false, not, ◌||◌, Option, none, some, List, [], ◌∷◌,
  ◌++◌, ltb, leb, if◌then◌else◌, length,
}
use low_context_inference.Json.{Value, Fields, get, is_text}
use low_context_inference.Tokens.{Counter, count_messages}

unfoldable pub is_instruction_role : Value → Bool
is_instruction_role role = is_text role "system" || is_text role "developer"

pub data UnitKind : Type 0 where
  system turn prefill : UnitKind

pub record MessageUnit : Type 0 where
  pub kind : UnitKind
  pub messages : List Fields
  pub tokens : ℕ

abbrev pub is_system : MessageUnit → Bool
is_system u = elim u.kind [ system ↦ true | _ ↦ false ]

abbrev pub flat : List MessageUnit → List Fields
flat [] = []
flat (u ∷ us) = u.messages ++ flat us

abbrev pub sum_tokens : List MessageUnit → ℕ
sum_tokens [] = 0
sum_tokens (u ∷ us) = u.tokens + sum_tokens us

abbrev pub system_tokens : List MessageUnit → ℕ
system_tokens [] = 0
system_tokens (u ∷ us) = if is_system u then u.tokens + system_tokens us else system_tokens us

-- the variables of `segment_messages`; `turn` is `None` or not empty
pub record Segmenter : Type 0 where
  pub units : List MessageUnit
  pub open_prefill : List Fields
  pub open_turn : List Fields

module _ (counter : Counter) where
  abbrev pub unit_of : UnitKind → List Fields → MessageUnit
  unit_of kind ms = record { kind = kind; messages = ms; tokens = count_messages counter ms }

  -- `if ms: units.append(Unit(kind, ...))`
  abbrev pub close : UnitKind → List Fields → List MessageUnit → List MessageUnit
  close kind [] units = units
  close kind (m ∷ ms) units = units ++ unit_of kind (m ∷ ms) ∷ []

  abbrev pub close_turn : Segmenter → Segmenter
  close_turn s = record s { units = close turn s.open_turn s.units; open_turn = [] }

  abbrev pub close_prefill : Segmenter → Segmenter
  close_prefill s = record s { units = close prefill s.open_prefill s.units; open_prefill = [] }

  abbrev add_instruction : Fields → Segmenter → Segmenter
  add_instruction m s = record s { units = s.units ++ unit_of system (m ∷ []) ∷ [] }

  -- `elif turn is not None: turn.append(message)`, `else: prefill.append(message)`
  abbrev add_to_open : Fields → Segmenter → List Fields → Segmenter
  add_to_open m s [] = record s { open_prefill = s.open_prefill ++ m ∷ [] }
  add_to_open m s (t ∷ ts) = record s { open_turn = (t ∷ ts) ++ m ∷ [] }

  -- one round of the loop
  unfoldable pub add_message : Segmenter → Fields → Segmenter
  add_message s m =
      let role = get m "role" in
      if is_instruction_role role
      then add_instruction m (close_prefill s)
      else if is_text role "user"
      then record (close_prefill (close_turn s)) { open_turn = m ∷ [] }
      else add_to_open m s s.open_turn

  unfoldable pub segment_from : Segmenter → List Fields → List MessageUnit
  segment_from s [] = (close_prefill (close_turn s)).units
  segment_from s (m ∷ ms) = segment_from (add_message s m) ms

  unfoldable pub segment_messages : List Fields → List MessageUnit
  unfolding segment_from
  segment_messages = segment_from (record { units = []; open_prefill = []; open_turn = [] })

abbrev pub cons_kept : MessageUnit → List MessageUnit × ℕ → List MessageUnit × ℕ
cons_kept u r = (u ∷ r.0, r.1)

-- the loop that drops the oldest units: what is kept, and the total that is left
unfoldable pub drop_oldest : ℕ → List MessageUnit → ℕ → List MessageUnit × ℕ
drop_oldest available [] total = ([], total)
drop_oldest available (u ∷ us) total =
    let keep = cons_kept u (drop_oldest available us total) in
    let cut = drop_oldest available us (total - u.tokens) in
    if leb total available then (u ∷ us, total) else if is_system u then keep else cut

pub record ContextPlan : Type 0 where
  pub messages : List Fields
  pub total_tokens : ℕ
  pub tools_tokens : ℕ
  pub usable_budget : ℕ
  pub dropped_units : ℕ
  pub dropped_tokens : ℕ

pub data Planned : Type 0 where
  planned : ContextPlan → Planned
  overflow : (required usable_budget : ℕ) → Planned

module _ (counter : Counter) where
  -- `[Unit("turn", ...)] if current_request else []`
  abbrev pub current_units : List Fields → List MessageUnit
  current_units [] = []
  current_units (m ∷ ms) = unit_of counter turn (m ∷ ms) ∷ []

  abbrev pub kept_history : List MessageUnit → ℕ → List MessageUnit
  kept_history units available =
      if ltb available (sum_tokens units)
      then (drop_oldest available units (sum_tokens units)).0
      else units

  abbrev pub make_plan :
      List MessageUnit → List MessageUnit → List MessageUnit → ℕ → ℕ → ContextPlan
  make_plan original final current tools_tokens usable_budget = record {
    messages = flat final;
    total_tokens = sum_tokens final;
    tools_tokens = tools_tokens;
    usable_budget = usable_budget;
    dropped_units = length original - (length final - length current);
    dropped_tokens = sum_tokens original - (sum_tokens final - sum_tokens current);
  }

  -- what follows the first test: the last test, and the plan
  unfoldable pub finish : List MessageUnit → List MessageUnit → List MessageUnit → ℕ → ℕ → Planned
  finish original kept current tools_tokens usable_budget =
      let final = kept ++ current in
      if ltb usable_budget (sum_tokens final + tools_tokens)
      then overflow (sum_tokens final + tools_tokens) usable_budget
      else planned (make_plan original final current tools_tokens usable_budget)

  unfoldable pub plan_context : List Fields → List Fields → List Value → ℕ → ℕ → Planned
  unfolding finish
  plan_context history current_request tools usable_budget reserved_tokens =
      let tools_tokens = counter.tools tools in
      let current = current_units current_request in
      let current_tokens = sum_tokens current in
      let original = segment_messages counter history in
      let mandatory = system_tokens original + tools_tokens + reserved_tokens + current_tokens in
      let available = usable_budget - tools_tokens - reserved_tokens - current_tokens in
      if ltb usable_budget mandatory
      then overflow mandatory usable_budget
      else finish original (kept_history original available) current tools_tokens usable_budget
