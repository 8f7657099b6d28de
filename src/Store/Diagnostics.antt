-- ===== src/Store/Diagnostics.antt =====
-- `HistoryDivergenceError` of src/context_proxy/conversation/store.py: what it tells of a conflict.
use Prim.Native.Nat.{Ordering}
use Prim.Native.String.{compare}
use low_context_inference.Base.{
  ℕ, zero, suc, ◌<◌, min, ◌≡◌, refl, ap, ◌∙◌, ◌⊎◌, inl, inr, Bool, true, false, not, Option, none,
  some, String, ◌<>◌, List, [], ◌∷◌, ◌++◌, if◌then◌else◌, is_some, length, get_elem?,
}
use low_context_inference.Json.{Value, obj, Fields, end, field, lookup, equal}
use low_context_inference.Runtime.{Runtime}
use low_context_inference.Reconcile.{conflict}
use low_context_inference.Store.Sql.{Database, IsLawful}
use low_context_inference.Store.{Outcome, diverged}
use low_context_inference.Store.Aware.{aware_reconcile_history}
use low_context_inference.Store.Sync.{verdict, Fork, aware_reconcile_history-conflict}

-- Python's `json.dumps` with sorted keys, `str` of an index, and `str` of a list of names
pub record Printing : Type 0 where
  pub dumps_sorted : Value → String
  pub print : ℕ → String
  pub print_names : List String → String

-- `text[:n]`
unfoldable pub prefix : ℕ → String → String
prefix zero text = ""
prefix (suc n) String.[] = ""
prefix (suc n) (String.◌∷◌ first rest) = String.◌∷◌ first (prefix n rest)

-- `sorted`, one text at a time
unfoldable pub insert_sorted : String → List String → List String
insert_sorted k [] = k ∷ []
insert_sorted k (j ∷ names) =
    let rest = insert_sorted k names in
    elim (compare k j) [ Ordering.gt ↦ j ∷ rest | _ ↦ k ∷ j ∷ names ]

unfoldable pub sorted : List String → List String
unfolding insert_sorted
sorted [] = []
sorted (k ∷ names) = insert_sorted k (sorted names)

abbrev pub names_of : Fields → List String
names_of end = []
names_of (field k v d) = k ∷ names_of d

-- the keys of the second dict that the first has not
unfoldable pub only_second : Fields → Fields → List String
unfolding lookup
only_second a end = []
only_second a (field k v d) =
    let rest = only_second a d in if is_some (lookup k a) then rest else k ∷ rest

-- `persisted.get(key, _MISSING) != incoming.get(key, _MISSING)`
abbrev pub differ : Option Value → Option Value → Bool
differ none none = false
differ (some v) (some w) = not (equal v w)
differ _ _ = true

unfoldable pub differing : Fields → Fields → List String → List String
unfolding lookup equal
differing a b [] = []
differing a b (k ∷ names) =
    let rest = differing a b names in if differ (lookup k a) (lookup k b) then k ∷ rest else rest

unfoldable pub differing_fields : Fields → Fields → List String
unfolding differing only_second sorted
differing_fields persisted incoming =
    sorted (differing persisted incoming (names_of persisted ++ only_second persisted incoming))

pub record HistoryDivergenceError : Type 0 where
  pub conversation_id : String
  pub index : ℕ
  pub persisted_hash : Option String
  pub incoming_hash : Option String
  pub different_fields : List String
  pub text : String

module _ (py : Runtime) (printing : Printing) where
  unfoldable pub message_fingerprint : Fields → String
  unfolding prefix
  message_fingerprint m = prefix 16 (py.sha256 (printing.dumps_sorted (obj m)))

  abbrev pub text_of_error : String → ℕ → String → String
  text_of_error conversation index suffix =
      "conversation "
      <> conversation
      <> ": incoming message "
      <> printing.print index
      <> " diverges from persisted history"
      <> suffix

  abbrev pub plain_error : String → ℕ → HistoryDivergenceError
  plain_error conversation index = record {
    conversation_id = conversation;
    index = index;
    persisted_hash = none;
    incoming_hash = none;
    different_fields = [];
    text = text_of_error conversation index "";
  }

  -- `__init__`
  unfoldable pub divergence_error :
      String → ℕ → Option Fields → Option Fields → HistoryDivergenceError
  unfolding message_fingerprint differing_fields
  divergence_error conversation index (some persisted) (some incoming) =
      let a = message_fingerprint persisted in
      let b = message_fingerprint incoming in
      let names = differing_fields persisted incoming in
      record {
        conversation_id = conversation;
        index = index;
        persisted_hash = some a;
        incoming_hash = some b;
        different_fields = names;
        text = text_of_error conversation index (
            " [persisted_sha256="
            <> a
            <> " incoming_sha256="
            <> b
            <> " different_fields="
            <> printing.print_names names
            <> "]");
      }
  divergence_error conversation index persisted incoming = plain_error conversation index

  no_diagnostics :
      (c : String) (n : ℕ) (p m : Option Fields)
      → (p ≡ none) ⊎ (m ≡ none)
      → divergence_error c n p m ≡ plain_error c n
  unfolding divergence_error
  no_diagnostics c n none none h = refl
  no_diagnostics c n none (some m) h = refl
  no_diagnostics c n (some p) none h = refl
  no_diagnostics c n (some p) (some m) (inl e) = absurd (cc)
  no_diagnostics c n (some p) (some m) (inr e) = absurd (cc)

  module _ (db : Database) where
    open db use {State, fetch_messages}

    -- the exception of an outcome, if it raises one
    abbrev pub error_of : String → Outcome py db → Option HistoryDivergenceError
    error_of c (diverged index persisted incoming) =
        some (divergence_error c index persisted incoming)
    error_of c _ = none

    -- A conflict that the application's store reports carries no fingerprints and no names of fields,
    -- whatever the two histories are: its index is the length of the shorter one, where one of the
    -- two messages is missing, though they differ at a smaller index already.
    pub aware_reconcile_history-plain_error :
        (law : IsLawful db) (c : String) (metadata : Fields) (ms : List Fields) (s s1 : State)
        → db.ensure_conversation c s ≡ some s1
        → (verdict py db c s ms).mode ≡ conflict
        → let n = min (length (fetch_messages c s)) (length ms) in
          (error_of c (aware_reconcile_history py db c metadata ms s) ≡ some (plain_error c n))
          × ((k : ℕ) × (k < n) × Fork (fetch_messages c s) ms k)
    aware_reconcile_history-plain_error law c metadata ms s s1 e h =
        let n = min (length (fetch_messages c s)) (length ms) in
        let (raised, missing, differs) =
          aware_reconcile_history-conflict py db law c metadata ms s s1 e h in
        (
          ap (error_of c) raised
              ∙ ap some
                  (no_diagnostics c n (get_elem? (fetch_messages c s) n) (get_elem? ms n) missing),
          differs,
        )
