-- ===== src/Reconcile.antt =====
-- src/context_proxy/conversation/reconciliation.py. The loops over two indices that run backwards
-- keep, in place of an index, the number of messages before it: `p` here is `p + 1` there.
pub mod Prefix
pub mod Anchors
pub mod Idempotence
pub mod Outcomes
use low_context_inference.Base.{
  ℕ, zero, suc, ◌+◌, ◌-◌, max, Bool, true, false, ◌&&◌, ◌||◌, Option, none, some, String, ◌<>◌,
  str_eq, List, [], ◌∷◌, ◌==◌, ltb, leb, if◌then◌else◌, length, get_elem?, take, drop, any,
}
use low_context_inference.Json.{
  Value, str, arr, obj, Items, nil, cons, Fields, get, pop, put, truthy, is_true, is_text, equal,
  equal_dicts, lower_equal, contains,
}

abbrev pub pruned_tool_result : String
pruned_tool_result = "[Old tool result content cleared]"

pub data Mode : Type 0 where
  exact append truncate truncate_append compacted conflict : Mode

pub record ReconciliationResult : Type 0 where
  pub mode : Mode
  pub append_from : Option ℕ

-- one `part` of the loop of `_text_content`
unfoldable pub part_text : Value → Option String
part_text (obj part) =
    if is_text (get part "type") "text"
    then (elim (get part "text") [ str s ↦ some s | _ ↦ none ])
    else none
part_text _ = none

-- the loop, with the texts joined
unfoldable pub parts_text : Items → Option String
parts_text nil = some ""
parts_text (cons part parts) = elim (part_text part) [
  | none ↦ none
  | some s ↦ (elim (parts_text parts) [ none ↦ none | some t ↦ some (s <> t) ])
]

unfoldable pub text_content : Value → Option String
unfolding parts_text part_text
text_content (str s) = some s
text_content (arr parts) = parts_text parts
text_content _ = none

unfoldable pub canonical_message : Fields → Fields
canonical_message message =
    let result = pop "reasoning_text" (pop "reasoning" (pop "reasoning_content" message)) in
    elim (text_content (get result "content")) [
      | none ↦ result
      | some text ↦ put "content" (str text) result
    ]

-- the branch of `equivalent` on the placeholder of a pruned tool result
unfoldable pub pruned : Fields → Fields → Bool
pruned left right =
    is_text (get left "role") "tool"
    && is_text (get right "role") "tool"
    && truthy (get left "tool_call_id")
    && equal (get left "tool_call_id") (get right "tool_call_id")
    && is_text (get right "content") pruned_tool_result

unfoldable pub equivalent : Fields → Fields → Bool
equivalent a b =
    let left = canonical_message a in
    let right = canonical_message b in if equal_dicts left right then true else pruned left right

-- `str(message.get("mode", "")).lower() == "compaction"`: no value but a text prints so
unfoldable pub mode_is_compaction : Value → Bool
mode_is_compaction (str s) = lower_equal s "compaction"
mode_is_compaction _ = false

unfoldable pub metadata_is_compaction : Value → Bool
metadata_is_compaction (obj m) =
    is_true (get m "compaction") || is_true (get m "compaction_continue")
metadata_is_compaction _ = false

-- the stable wrapper of a summary
unfoldable pub has_wrapper : String → Bool
has_wrapper text =
    contains text
      "The conversation history before this point was compacted into the following summary:"
    && contains text "<summary>"
    && contains text "</summary>"

unfoldable pub is_compaction_summary : Fields → Bool
unfolding mode_is_compaction metadata_is_compaction has_wrapper
is_compaction_summary message =
    if is_true (get message "summary")
    then true
    else if mode_is_compaction (get message "mode")
    then true
    else if metadata_is_compaction (get message "metadata")
    then true
    else elim (text_content (get message "content")) [
      | none ↦ false
      | some text ↦ if str_eq text "" then false else has_wrapper text
    ]

unfoldable pub prefix_len : List Fields → List Fields → ℕ
prefix_len [] incoming = 0
prefix_len (p ∷ persisted) [] = 0
prefix_len (p ∷ persisted) (m ∷ incoming) =
    if equivalent p m then suc (prefix_len persisted incoming) else 0

-- `equivalent(persisted[p], incoming[i])`
unfoldable pub equivalent_at : List Fields → List Fields → ℕ → ℕ → Bool
equivalent_at persisted incoming p i = elim (get_elem? persisted p) [
  | none ↦ false
  | some a ↦ (elim (get_elem? incoming i) [ none ↦ false | some b ↦ equivalent a b ])
]

-- `while p >= low and i >= low and equivalent(persisted[p], incoming[i]): p -= 1; i -= 1`
unfoldable pub match_back : List Fields → List Fields → ℕ → ℕ → ℕ → ℕ × ℕ
match_back persisted incoming low zero i = (0, i)
match_back persisted incoming low (suc p) zero = (suc p, 0)
match_back persisted incoming low (suc p) (suc i) =
    let rest = match_back persisted incoming low p i in
    if leb low p && leb low i && equivalent_at persisted incoming p i then rest else (suc p, suc i)

unfoldable pub suffix_match : List Fields → List Fields → Option (ℕ × ℕ)
suffix_match persisted incoming =
    let found = match_back persisted incoming 0 (length persisted) (length incoming) in
    if found.0 == length persisted then none else some found

pub record Anchor : Type 0 where
  pub persisted_start : ℕ
  pub incoming_start : ℕ
  pub incoming_end : ℕ

-- `for incoming_end in range(..., lower - 1, -1)`, with the rounds that are left
unfoldable pub anchor_scan : List Fields → List Fields → ℕ → ℕ → ℕ → Option Anchor
anchor_scan persisted incoming prefix incoming_end zero = none
anchor_scan persisted incoming prefix incoming_end (suc rounds) =
    let rest = anchor_scan persisted incoming prefix (incoming_end - 1) rounds in
    let found = match_back persisted incoming prefix (length persisted) incoming_end in
    if leb (length persisted) prefix || leb incoming_end prefix
    then rest
    else if ltb found.1 incoming_end
    then some (record {
      persisted_start = found.0;
      incoming_start = found.1;
      incoming_end = incoming_end;
    })
    else rest

abbrev pub max_scan : ℕ
max_scan = 128

-- the length of `range(len(incoming), lower - 1, -1)`
abbrev pub scan_rounds : ℕ → ℕ → ℕ
scan_rounds prefix n = let lower = max (prefix + 1) (n - max_scan) in suc n - lower

unfoldable pub anchor_before_tail : List Fields → List Fields → ℕ → Option Anchor
anchor_before_tail persisted incoming prefix =
    if leb (length incoming) prefix || leb (length persisted) prefix
    then none
    else anchor_scan persisted incoming prefix (length incoming)
        (scan_rounds prefix (length incoming))

abbrev pub result : Mode → Option ℕ → ReconciliationResult
result m n = record { mode = m; append_from = n }

-- `incoming[prefix:incoming_start]`
abbrev pub gap : List Fields → ℕ → Anchor → List Fields
gap incoming prefix a = drop prefix (take a.incoming_start incoming)

-- the test on an anchor; `none` is the way on to the pure tail
unfoldable pub by_anchor : List Fields → ℕ → Anchor → Option ReconciliationResult
by_anchor incoming prefix a =
    if ltb prefix a.persisted_start
    then (if any is_compaction_summary (gap incoming prefix a)
        then some (result compacted (some a.incoming_end))
        else if a.incoming_start == 0
        then (if a.incoming_end == length incoming
            then some (result truncate none)
            else some (result truncate_append (some a.incoming_end)))
        else none)
    else none

unfoldable pub by_suffix : List Fields → List Fields → ReconciliationResult
by_suffix persisted incoming = elim (suffix_match persisted incoming) [
  | none ↦ result conflict none
  | some (p, i) ↦ if i == 0 && ltb 0 p then result truncate none else result conflict none
]

-- what follows the comparison of the prefixes
unfoldable pub by_tail : List Fields → List Fields → ℕ → ReconciliationResult
by_tail persisted incoming prefix = elim (anchor_before_tail persisted incoming prefix) [
  | none ↦ by_suffix persisted incoming
  | some a ↦ (elim (by_anchor incoming prefix a) [
    | none ↦ by_suffix persisted incoming
    | some r ↦ r
  ])
]

-- what follows the two early returns
unfoldable pub reconcile_nonempty : List Fields → List Fields → ReconciliationResult
reconcile_nonempty persisted incoming =
    let prefix = prefix_len persisted incoming in
    if prefix == length incoming
    then (if length incoming == length persisted then result exact none else result truncate none)
    else if prefix == length persisted
    then result append (some (length persisted))
    else by_tail persisted incoming prefix

unfoldable pub reconcile_projection : List Fields → List Fields → ReconciliationResult
reconcile_projection persisted [] = result exact none
reconcile_projection [] (m ∷ incoming) = result append (some 0)
reconcile_projection (p ∷ persisted) (m ∷ incoming) =
    reconcile_nonempty (p ∷ persisted) (m ∷ incoming)

-- `messages[result.append_from:]` as the store takes it
unfoldable pub new_tail : ReconciliationResult → List Fields → List Fields
new_tail r messages = elim r.append_from [
  | none ↦ []
  | some n ↦ if leb (length messages) n then [] else drop n messages
]
