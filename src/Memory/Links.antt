-- ===== src/Memory/Links.antt =====
-- The links between a memory and the one that replaced it.
use low_context_inference.Base.{
  ◌≡◌, refl, ap, ◌∙◌, Bool, true, false, ◌&&◌, ◌||◌, Option, none, some, String, List, [], ◌∷◌,
  ◌++◌, str_eq, eq_iff, All, Bool-cases, inl, inr, arith,
}
use low_context_inference.Memory.{MemoryRow, update_where}
use low_context_inference.Memory.Records.{find_memory}

abbrev pub names : Option String → String → Bool
names none k = false
names (some j) k = str_eq j k

module _ {Num : Type 0} where
  -- a row `id` of the conversation that replaces `target`
  abbrev pub is_link : String → String → String → MemoryRow Num → Bool
  is_link id conversation target q =
      str_eq q.id id && str_eq q.conversation_id conversation && names q.supersedes target

  abbrev pub has_link : String → String → String → List (MemoryRow Num) → Bool
  has_link id conversation target [] = false
  has_link id conversation target (q ∷ rows) =
      is_link id conversation target q || has_link id conversation target rows

  abbrev pub IsLinked : List (MemoryRow Num) → MemoryRow Num → Type 0
  IsLinked rows r =
      (k : String) → r.superseded_by ≡ some k → has_link k r.conversation_id r.id rows ≡ true

  abbrev pub HasUniqueIds : List (MemoryRow Num) → Type 0
  HasUniqueIds [] = Unit
  HasUniqueIds (r ∷ rows) = (find_memory r.id rows ≡ none) × HasUniqueIds rows

  -- Ids are unique, and a replaced memory names the one that replaced it, which is of the same
  -- conversation and names it in turn.
  pub record IsConsistent (rows : List (MemoryRow Num)) : Type 0 where
    pub unique : HasUniqueIds rows
    pub linked : All (IsLinked rows) rows

  pub has_link-append :
      (k c t : String) (xs ys : List (MemoryRow Num))
      → has_link k c t (xs ++ ys) ≡ (has_link k c t xs || has_link k c t ys)
  has_link-append k c t [] ys = refl
  has_link-append k c t (x ∷ xs) ys = ground (arith, has_link-append k c t xs ys)

  pub find_memory-append :
      (k : String) (xs ys : List (MemoryRow Num))
      → find_memory k xs ≡ none
      → find_memory k (xs ++ ys) ≡ find_memory k ys
  unfolding find_memory
  find_memory-append k [] ys h = refl
  find_memory-append k (x ∷ xs) ys h = elim (Bool-cases (str_eq x.id k)) [
    | inl e ↦ ground (arith, e, h)
    | inr e ↦ rw (e, find_memory) (find_memory-append k xs ys (ground (arith, e, h)))
  ]

  pub unique-snoc :
      (xs : List (MemoryRow Num)) (x : MemoryRow Num)
      → HasUniqueIds xs
      → find_memory x.id xs ≡ none
      → HasUniqueIds (xs ++ x ∷ [])
  unfolding find_memory
  unique-snoc [] x u h = (refl, tt)
  unique-snoc (y ∷ xs) x u h = elim (Bool-cases (str_eq y.id x.id)) [
    | inl e ↦ ground (arith, e, h)
    | inr e ↦ (
      find_memory-append y.id xs (x ∷ []) u.0
          ∙ ground (arith, e, eq_iff y.id x.id, eq_iff x.id y.id),
      unique-snoc xs x u.1 (ground (arith, e, h)),
    )
  ]

  -- a change that leaves what the links are read from
  pub record Keeps (change : MemoryRow Num → MemoryRow Num) : Type 0 where
    pub id_kept : (r : MemoryRow Num) → (change r).id ≡ r.id
    pub conversation_kept : (r : MemoryRow Num) → (change r).conversation_id ≡ r.conversation_id
    pub supersedes_kept : (r : MemoryRow Num) → (change r).supersedes ≡ r.supersedes

  module _ (test : MemoryRow Num → Bool) (change : MemoryRow Num → MemoryRow Num)
      (kept : Keeps change) where
    link-change : (k c t : String) (r : MemoryRow Num) → is_link k c t (change r) ≡ is_link k c t r
    link-change k c t r =
        ap (λ i. str_eq i k && str_eq (change r).conversation_id c && names (change r).supersedes t)
          (kept.id_kept r)
        ∙ ap (λ i. str_eq r.id k && str_eq i c && names (change r).supersedes t)
            (kept.conversation_kept r)
        ∙ ap (λ i. str_eq r.id k && str_eq r.conversation_id c && names i t)
            (kept.supersedes_kept r)

    has_link-update :
        (k c t : String) (rows : List (MemoryRow Num))
        → has_link k c t (update_where test change rows) ≡ has_link k c t rows
    unfolding update_where
    has_link-update k c t [] = refl
    has_link-update k c t (r ∷ rows) = elim (Bool-cases (test r)) [
      | inl e ↦
          rw (e, update_where) (ground (arith, link-change k c t r, has_link-update k c t rows))
      | inr e ↦ rw (e, update_where) (ground (arith, has_link-update k c t rows))
    ]

    find_memory-update :
        (k : String) (rows : List (MemoryRow Num))
        → find_memory k rows ≡ none
        → find_memory k (update_where test change rows) ≡ none
    unfolding update_where find_memory
    find_memory-update k [] h = refl
    find_memory-update k (r ∷ rows) h = elim (Bool-cases (str_eq r.id k)) [
      | inl f ↦ ground (arith, f, h)
      | inr f ↦
          let g : str_eq (change r).id k ≡ false = ap (λ i. str_eq i k) (kept.id_kept r) ∙ f in
          elim (Bool-cases (test r)) [
            | inl e ↦ rw (e, update_where, g) (find_memory-update k rows (ground (arith, f, h)))
            | inr e ↦ rw (e, update_where, f) (find_memory-update k rows (ground (arith, f, h)))
          ]
    ]

    pub unique-update :
        (rows : List (MemoryRow Num))
        → HasUniqueIds rows
        → HasUniqueIds (update_where test change rows)
    unfolding update_where
    unique-update [] u = tt
    unique-update (r ∷ rows) u = elim (Bool-cases (test r)) [
      | inl e ↦
          rw (e, update_where)
            (
              ap (λ i. find_memory i (update_where test change rows)) (kept.id_kept r)
                  ∙ find_memory-update r.id rows u.0,
              unique-update rows u.1,
            )
      | inr e ↦ rw (e, update_where) (find_memory-update r.id rows u.0, unique-update rows u.1)
    ]

    pub IsLinked-update :
        (all sub : List (MemoryRow Num)) (Q : MemoryRow Num → Type 0)
        → ((r : MemoryRow Num) → Q r → IsLinked all r → test r ≡ true → IsLinked all (change r))
        → All Q sub
        → All (IsLinked all) sub
        → All (IsLinked (update_where test change all)) (update_where test change sub)
    unfolding update_where
    IsLinked-update all [] Q good q h = tt
    IsLinked-update all (r ∷ sub) Q good q h = elim (Bool-cases (test r)) [
      | inl e ↦
          rw (e, update_where)
            (
              (λ k p.
                  has_link-update k (change r).conversation_id (change r).id all
                  ∙ good r q.0 h.0 e k p),
              IsLinked-update all sub Q good q.1 h.1,
            )
      | inr e ↦
          rw (e, update_where)
            (
              (λ k p. has_link-update k r.conversation_id r.id all ∙ h.0 k p),
              IsLinked-update all sub Q good q.1 h.1,
            )
    ]
