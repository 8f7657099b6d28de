-- ===== src/Memory/Pending.antt =====
-- The chunks without a marker, as `_index_pending_chunks` of src/context_proxy/memory/service.py finds
-- and marks them.
use mathlib.Core.Path.{subst}
use low_context_inference.Base.{
  ℕ, ◌≡◌, refl, sym, ap, ◌∙◌, Bool, true, false, ◌||◌, String, List, [], ◌∷◌, str_eq, eq_iff,
  eq_refl, All, Bool-cases, inl, inr, arith,
}
use low_context_inference.Memory.{ChunkRow, insert_by, sort_by, where_, update_where}
use low_context_inference.Memory.Index.{is_unmarked, mark, is_pending}

-- is a chunk with this id among the rows
abbrev pub has_row : String → List ChunkRow → Bool
has_row id [] = false
has_row id (c ∷ rows) = str_eq c.id id || has_row id rows

abbrev pub PendingIn : String → List ChunkRow → List ChunkRow → Type 0
PendingIn conversation rows = All (λ c. is_pending conversation c ≡ true → has_row c.id rows ≡ true)

pub widen :
    (conversation : String) (xs ys chunks : List ChunkRow)
    → ((id : String) → has_row id xs ≡ true → has_row id ys ≡ true)
    → PendingIn conversation xs chunks
    → PendingIn conversation ys chunks
widen conversation xs ys [] h a = tt
widen conversation xs ys (c ∷ chunks) h a =
    ((λ e. h c.id (a.0 e)), widen conversation xs ys chunks h a.1)

pub where_kept :
    (conversation : String) (c : ChunkRow) (chunks : List ChunkRow)
    → is_pending conversation c ≡ true
    → where_ (is_pending conversation) (c ∷ chunks) ≡ c ∷ where_ (is_pending conversation) chunks
unfolding where_
where_kept conversation c chunks e = rw (where_, e) refl

pub where_left :
    (conversation : String) (c : ChunkRow) (chunks : List ChunkRow)
    → is_pending conversation c ≡ false
    → where_ (is_pending conversation) (c ∷ chunks) ≡ where_ (is_pending conversation) chunks
unfolding where_
where_left conversation c chunks e = rw (where_, e) refl

pub where_-PendingIn :
    (conversation : String) (chunks : List ChunkRow)
    → PendingIn conversation (where_ (is_pending conversation) chunks) chunks
unfolding where_
where_-PendingIn conversation [] = tt
where_-PendingIn conversation (c ∷ chunks) =
    let rest = where_ (is_pending conversation) chunks in
    elim (Bool-cases (is_pending conversation c)) [
      | inl e ↦
          subst (λ rows. PendingIn conversation rows (c ∷ chunks))
            (sym (where_kept conversation c chunks e))
            (
              (λ _. ground (arith, eq_refl c.id)),
              widen conversation rest (c ∷ rest) chunks (λ id h. ground (arith, h))
                  (where_-PendingIn conversation chunks),
            )
      | inr e ↦
          subst (λ rows. PendingIn conversation rows (c ∷ chunks))
            (sym (where_left conversation c chunks e))
            ((λ f. ground (arith, f, e)), where_-PendingIn conversation chunks)
    ]

pub has_row-insert_by :
    (measure : ChunkRow → ℕ) (id : String) (c : ChunkRow) (rows : List ChunkRow)
    → has_row id (insert_by measure c rows) ≡ (str_eq c.id id || has_row id rows)
unfolding insert_by
has_row-insert_by measure id c [] = refl
has_row-insert_by measure id c (d ∷ rows) = ground (arith, has_row-insert_by measure id c rows)

pub has_row-sort_by :
    (measure : ChunkRow → ℕ) (id : String) (rows : List ChunkRow)
    → has_row id (sort_by measure rows) ≡ has_row id rows
unfolding sort_by
has_row-sort_by measure id [] = refl
has_row-sort_by measure id (c ∷ rows) =
    has_row-insert_by measure id c (sort_by measure rows)
    ∙ ap (λ b. str_eq c.id id || b) (has_row-sort_by measure id rows)

-- marking a chunk leaves the other rows to do
pub mark-PendingIn :
    (conversation : String) (c : ChunkRow) (rows chunks : List ChunkRow)
    → PendingIn conversation (c ∷ rows) chunks
    → PendingIn conversation rows (mark c.id chunks)
unfolding mark update_where
mark-PendingIn conversation c rows [] a = tt
mark-PendingIn conversation c rows (d ∷ chunks) a = elim (Bool-cases (is_unmarked c.id d)) [
  | inl e ↦
      rw (e, mark, update_where)
        ((λ f. ground (arith, f)), mark-PendingIn conversation c rows chunks a.1)
  | inr e ↦
      rw (e, mark, update_where)
        (
          (λ f. ground (arith, e, f, a.0 f, eq_iff c.id d.id, eq_iff d.id c.id, eq_refl c.id)),
          mark-PendingIn conversation c rows chunks a.1,
        )
]

pub no_pending :
    (conversation : String) (chunks : List ChunkRow)
    → PendingIn conversation [] chunks
    → where_ (is_pending conversation) chunks ≡ []
unfolding where_
no_pending conversation [] a = refl
no_pending conversation (c ∷ chunks) a = elim (Bool-cases (is_pending conversation c)) [
  | inl e ↦ ground (arith, a.0 e)
  | inr e ↦ rw (e, where_) (no_pending conversation chunks a.1)
]
