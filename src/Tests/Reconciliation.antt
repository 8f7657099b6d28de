-- ===== src/Tests/Reconciliation.antt =====
-- Reconciliation and the store on short histories.
use low_context_inference.Base.{
  ℕ, ◌<◌, min, ◌≡◌, ◌≢◌, refl, none, some, String, List, [], ◌∷◌, ◌++◌, arith, length, get_elem?,
  true,
}
use low_context_inference.Json.{
  null, str, bool, Fields, end, field, equal, lookup, get, pop, put, size, truthy, equal_dicts,
  is_text, is_true, lower_equal, contains,
}
use low_context_inference.Base.{All}
use low_context_inference.Json.Equality.{IsDict}
use low_context_inference.Runtime.{Runtime}
use low_context_inference.Reconcile.{
  exact, append, truncate_append, compacted, conflict, reconcile_projection, result,
  reconcile_nonempty, prefix_len, equivalent, canonical_message, text_content, pruned, by_tail,
  by_anchor, by_suffix, suffix_match, anchor_before_tail, anchor_scan, match_back, equivalent_at,
  is_compaction_summary, new_tail,
}
use low_context_inference.Reconcile.Idempotence.{IsSettled, reconcile_projection_again}
use low_context_inference.Reconcile.Outcomes.{Accounts, reconcile_projection-Accounts}
use low_context_inference.Store.Aware.{aware_reconcile_history}
use low_context_inference.Store.{
  first_difference, insert_message, insert_rows, insert_messages, append_messages,
  reconcile_history, sync, persist_tool_parts, persist_media_parts, synced, diverged,
}
use low_context_inference.Store.Memory.{Row, memory, memory-IsLawful, insert, contents, last_seq}
use low_context_inference.Store.History.{Appends}
use low_context_inference.Store.Diagnostics.{
  Printing, differing_fields, plain_error, error_of, aware_reconcile_history-plain_error,
}
use low_context_inference.Store.Sync.{
  verdict, Fork, reconcile_history-Appends, reconcile_history-conflict, reconcile_history_again,
}

abbrev say : String → String → Fields
say role text = field "role" (str role) (field "content" (str text) end)

abbrev py : Runtime
py = record { dumps = λ v. ""; print = λ v. ""; sha256 = λ s. s }

reconciliation : Unit {0}
unfolding reconcile_projection reconcile_nonempty prefix_len equivalent canonical_message
    text_content pruned by_tail by_anchor by_suffix suffix_match anchor_before_tail anchor_scan
    match_back equivalent_at is_compaction_summary new_tail equal get put pop truthy is_text is_true
    lower_equal contains lookup size equal_dicts
reconciliation = tt

abbrev history : List Fields
history = say "user" "a" ∷ say "assistant" "b" ∷ say "user" "c" ∷ say "assistant" "d" ∷ []

abbrev grown : List Fields
grown = history ++ say "user" "e" ∷ []

abbrev tail : List Fields
tail = say "user" "c" ∷ say "assistant" "d" ∷ say "user" "e" ∷ []

summary_of : Fields
summary_of = field "role" (str "user") (field "summary" (bool true) end)

replays : reconcile_projection history history ≡ result exact none
unfolding reconciliation
replays = refl

grows : reconcile_projection history grown ≡ result append (some 4)
unfolding reconciliation
grows = refl

shifts : reconcile_projection history tail ≡ result truncate_append (some 2)
unfolding reconciliation
shifts = refl

forks : reconcile_projection history (say "user" "x" ∷ []) ≡ result conflict none
unfolding reconciliation
forks = refl

compacts :
    reconcile_projection history (say "user" "a" ∷ summary_of ∷ tail) ≡ result compacted (some 4)
unfolding reconciliation summary_of
compacts = refl

grown-IsDict : All IsDict grown
unfolding lookup
grown-IsDict = assumption refl

accepted : (reconcile_projection history grown).mode ≢ conflict
accepted = rw grows (ground arith)

reconcile_projection_again_example :
    IsSettled
      (reconcile_projection (history ++ new_tail (reconcile_projection history grown) grown) grown)
      grown
reconcile_projection_again_example = reconcile_projection_again history grown grown-IsDict accepted

reconcile_projection-Accounts_example : Accounts history grown (reconcile_projection history grown)
reconcile_projection-Accounts_example = reconcile_projection-Accounts history grown

abbrev row : ℕ → Fields → Row
row n m = record { conversation = "k"; seq = n; content = m }

abbrev stored : List Row
stored =
    row 0 (say "user" "a")
    ∷ row 1 (say "assistant" "b")
    ∷ row 2 (say "user" "c")
    ∷ row 3 (say "assistant" "d")
    ∷ []

abbrev stored_grown : List Row
stored_grown = stored ++ row 4 (say "user" "e") ∷ []

storing : Unit {0}
unfolding append_messages insert_messages insert_rows insert_message persist_tool_parts
    persist_media_parts insert contents last_seq reconcile_history sync first_difference
storing = tt

appended : append_messages py memory "k" end history [] ≡ some (0 ∷ 1 ∷ 2 ∷ 3 ∷ [], stored)
unfolding storing reconciliation
appended = refl

synced_grown : reconcile_history py memory "k" end grown stored ≡ synced (4 ∷ []) stored_grown
unfolding storing reconciliation
synced_grown = refl

verdict-grown : (verdict py memory "k" stored grown).mode ≢ conflict
unfolding contents
verdict-grown = accepted

reconcile_history-Appends_example :
    Appends py memory memory-IsLawful "k"
      (new_tail (verdict py memory "k" stored grown) grown)
      stored
      stored_grown
reconcile_history-Appends_example =
    reconcile_history-Appends py memory memory-IsLawful "k" end grown stored verdict-grown
      synced_grown

reconcile_history_again_example :
    (reconcile_history py memory "k" end grown stored_grown ≡ synced [] stored_grown)
    × (contents "k" stored_grown ≡ contents "k" stored_grown)
reconcile_history_again_example =
    reconcile_history_again py memory memory-IsLawful "k" end grown stored stored_grown stored_grown
      grown-IsDict verdict-grown synced_grown refl

abbrev forked : List Fields
forked = say "user" "a" ∷ say "assistant" "x" ∷ []

verdict-forked : (verdict py memory "k" stored forked).mode ≡ conflict
unfolding contents reconciliation
verdict-forked = refl

reconcile_history-conflict_example :
    (k : ℕ) × (p : Fields) × (m : Fields) × (reconcile_history py memory "k" end forked stored
      ≡ diverged k (some p) (some m))
    × Fork (contents "k" stored) forked k
    × (get_elem? (contents "k" stored) k ≡ some p)
    × (get_elem? forked k ≡ some m)
reconcile_history-conflict_example =
    reconcile_history-conflict py memory memory-IsLawful "k" end forked stored stored refl
      verdict-forked

abbrev printing : Printing
printing = record { dumps_sorted = λ v. ""; print = λ n. "n"; print_names = λ ns. "" }

aware_reconcile_history-plain_error_example :
    let n = min (length (contents "k" stored)) (length forked) in
    (error_of py printing memory "k" (aware_reconcile_history py memory "k" end forked stored)
      ≡ some (plain_error py printing "k" n))
    × ((k : ℕ) × (k < n) × Fork (contents "k" stored) forked k)
aware_reconcile_history-plain_error_example =
    aware_reconcile_history-plain_error py printing memory memory-IsLawful "k" end forked stored
      stored refl verdict-forked

names_differ :
    differing_fields (field "b" null (say "user" "a")) (say "user" "x") ≡ "b" ∷ "content" ∷ []
unfolding differing_fields
names_differ = refl
