-- ===== src/Store/Memory.antt =====
-- A database in memory: it shows that the laws of the interface can hold, and runs the tests.
use mathlib.Core.Path.{subst}
use mathlib.Core.Option.{some-injective}
use low_context_inference.Base.{
  append-nil, Bool-cases, inl, inr, ℕ, ◌≡◌, ◌≢◌, ◌∙◌, ap, false, Option, none, some, String, List,
  [], ◌∷◌, ◌++◌, length, str_eq, eq_iff, eq_refl, if◌then◌else◌, arith,
}
use low_context_inference.Json.{Value, Fields}
use low_context_inference.Store.Sql.{Database, SameMessages, SameMessages-refl, IsLawful}

pub record Row : Type 0 where
  pub conversation : String
  pub seq : ℕ
  pub content : Fields

unfoldable pub contents : String → List Row → List Fields
contents c [] = []
contents c (r ∷ rows) =
    if str_eq r.conversation c then r.content ∷ contents c rows else contents c rows

unfoldable pub last_seq : String → List Row → Option ℕ
last_seq c [] = none
last_seq c (r ∷ rows) = elim (last_seq c rows) [
  | some n ↦ some n
  | none ↦ if str_eq r.conversation c then some r.seq else none
]

unfoldable pub insert : String → ℕ → Value → Fields → Fields → List Row → Option (ℕ × List Row)
insert c n role m metadata rows =
    some (length rows, rows ++ record { conversation = c; seq = n; content = m } ∷ [])

contents-insert :
    (c d : String) (n : ℕ) (m : Fields) (rows : List Row)
    → contents d (rows ++ record { conversation = c; seq = n; content = m } ∷ [])
      ≡ contents d rows ++ (if str_eq c d then m ∷ [] else [])
unfolding contents
contents-insert c d n m [] = ground arith
contents-insert c d n m (r ∷ rows) = ground (arith, contents-insert c d n m rows)

last_seq-insert :
    (c : String) (n : ℕ) (m : Fields) (rows : List Row)
    → last_seq c (rows ++ record { conversation = c; seq = n; content = m } ∷ []) ≡ some n
unfolding last_seq
last_seq-insert c n m [] = rw eq_refl
last_seq-insert c n m (r ∷ rows) = rw (last_seq-insert c n m rows)

abbrev pub memory : Database
memory = record {
  State = List Row;
  RowId = ℕ;
  ensure_conversation = λ c s. some s;
  fetch_messages = contents;
  max_seq = last_seq;
  insert_message = insert;
  insert_tool_call = λ i row s. some s;
  find_tool_call = λ c id s. none;
  insert_tool_result = λ i ref id content s. some s;
  insert_media = λ c i row s. some s;
}

pub memory-IsLawful : IsLawful memory
unfolding insert
memory-IsLawful = record {
  ensure-SameMessages = λ c s s' h. same (some-injective s s' h);
  insert-fetch =
      λ c n role m metadata s s' i h _. rw (← rows h) (contents-insert c c n m s ∙ rw eq_refl);
  insert-max_seq = λ c n role m metadata s s' i h _. rw (← rows h) (last_seq-insert c n m s);
  insert-fetch_ne = λ c d n role m metadata s s' i h ne.
      rw (← rows h) (contents-insert c d n m s ∙ rw (not_same c d ne) (append-nil _));
  tool_call-SameMessages = λ i row s s' h. same (some-injective s s' h);
  tool_result-SameMessages = λ i ref id content s s' h. same (some-injective s s' h);
  media-SameMessages = λ c i row s s' h. same (some-injective s s' h);
}
  where
    same : {s s' : List Row} → s ≡ s' → SameMessages memory s s'
    same {s} e = subst (SameMessages memory s) e (SameMessages-refl memory s)

    rows :
        {i j : ℕ} {s s' : List Row}
        → ◌≡◌ {A = Option (ℕ × List Row)} (some (i, s)) (some (j, s'))
        → s ≡ s'
    rows h = ap (λ (x : ℕ × List Row). x.1) (some-injective _ _ h)

    not_same : (c d : String) → c ≢ d → str_eq c d ≡ false
    not_same c d ne = elim (Bool-cases (str_eq c d)) [
      | inl e ↦ absurd (ne ((eq_iff c d).0 e))
      | inr e ↦ e
    ]
