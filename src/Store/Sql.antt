-- ===== src/Store/Sql.antt =====
-- The statements that the store runs on PostgreSQL, and what it relies on.
use low_context_inference.Base.{
  ℕ, ◌<◌, ◌≡◌, ◌≢◌, ◌∙◌, refl, Option, none, some, String, List, [], ◌∷◌, ◌++◌,
}
use low_context_inference.Json.{Value, Fields}

-- `INSERT INTO tool_calls`; `none` is SQL's NULL
pub record ToolCallRow : Type 0 where
  pub tool_call_id : Value
  pub call_type : String
  pub name : Value
  pub arguments : Option Value
  pub input : Option Value
  pub extra : Fields

-- `INSERT INTO conversation_media`
pub record MediaRow : Type 0 where
  pub part_index : ℕ
  pub kind : String
  pub source : String
  pub media_hash : String
  pub source_size : ℕ

pub record Database : Type 1 where
  pub State : Type 0
  pub RowId : Type 0
  pub ensure_conversation : String → State → Option State
  pub fetch_messages : String → State → List Fields
  pub max_seq : String → State → Option ℕ
  pub insert_message : String → ℕ → Value → Fields → Fields → State → Option (RowId × State)
  pub insert_tool_call : RowId → ToolCallRow → State → Option State
  pub find_tool_call : String → Value → State → Option RowId
  pub insert_tool_result : RowId → Option RowId → Value → Value → State → Option State
  pub insert_media : String → RowId → MediaRow → State → Option State

module _ (db : Database) where
  open db use {State, RowId, fetch_messages, max_seq}

  -- no message is added or changed
  pub record SameMessages (s s' : State) : Type 0 where
    pub messages : (c : String) → fetch_messages c s' ≡ fetch_messages c s
    pub seqs : (c : String) → max_seq c s' ≡ max_seq c s

  abbrev pub IsAbove : Option ℕ → ℕ → Type 0
  IsAbove none n = Unit
  IsAbove (some k) n = k < n

  -- What the statements do to `SELECT content ... ORDER BY seq` and to `MAX(seq)`.
  pub record IsLawful : Type 0 where
    pub ensure-SameMessages :
        (c : String) (s s' : State) → db.ensure_conversation c s ≡ some s' → SameMessages s s'
    pub insert-fetch :
        (c : String) (n : ℕ) (role : Value) (m metadata : Fields) (s s' : State) (i : RowId)
        → db.insert_message c n role m metadata s ≡ some (i, s')
        → IsAbove (max_seq c s) n
        → fetch_messages c s' ≡ fetch_messages c s ++ m ∷ []
    pub insert-max_seq :
        (c : String) (n : ℕ) (role : Value) (m metadata : Fields) (s s' : State) (i : RowId)
        → db.insert_message c n role m metadata s ≡ some (i, s')
        → IsAbove (max_seq c s) n
        → max_seq c s' ≡ some n
    pub insert-fetch_ne :
        (c d : String) (n : ℕ) (role : Value) (m metadata : Fields) (s s' : State) (i : RowId)
        → db.insert_message c n role m metadata s ≡ some (i, s')
        → c ≢ d
        → fetch_messages d s' ≡ fetch_messages d s
    pub tool_call-SameMessages :
        (i : RowId) (row : ToolCallRow) (s s' : State)
        → db.insert_tool_call i row s ≡ some s'
        → SameMessages s s'
    pub tool_result-SameMessages :
        (i : RowId) (ref : Option RowId) (id content : Value) (s s' : State)
        → db.insert_tool_result i ref id content s ≡ some s'
        → SameMessages s s'
    pub media-SameMessages :
        (c : String) (i : RowId) (row : MediaRow) (s s' : State)
        → db.insert_media c i row s ≡ some s'
        → SameMessages s s'

  pub SameMessages-refl : (s : State) → SameMessages s s
  SameMessages-refl s = record { messages = λ c. refl; seqs = λ c. refl }

  pub SameMessages-trans :
      {s s' s'' : State} → SameMessages s s' → SameMessages s' s'' → SameMessages s s''
  SameMessages-trans h k = record {
    messages = λ c. k.messages c ∙ h.messages c;
    seqs = λ c. k.seqs c ∙ h.seqs c;
  }
