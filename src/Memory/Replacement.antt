-- ===== src/Memory/Replacement.antt =====
-- The links when a memory is inserted that replaces another one: `create_memory` of
-- src/context_proxy/memory/service.py.
use low_context_inference.Base.{
  ◌≡◌, refl, sym, ap, ◌∙◌, true, none, some, String, List, [], ◌∷◌, ◌++◌, str_eq, eq_iff, All,
  Bool-cases, Option-cases, inl, inr, arith,
}
use low_context_inference.Memory.{MemoryRow, Tables, update_where}
use low_context_inference.Memory.Records.{
  MemoryCreate, Created, created, find_memory, new_memory, is_replaced, replaced_by, insert_memory,
  mark_replaced,
}
use low_context_inference.Memory.Links.{
  IsLinked, HasUniqueIds, IsConsistent, Keeps, has_link-append, unique-snoc, unique-update,
  IsLinked-update,
}

module _ {Num : Type 0} where
  pub IsLinked-append :
      (all new sub : List (MemoryRow Num))
      → All (IsLinked all) sub
      → All (IsLinked (all ++ new)) sub
  IsLinked-append all new [] h = tt
  IsLinked-append all new (r ∷ sub) h = (
    (λ k p. ground (arith, has_link-append k r.conversation_id r.id all new, h.0 k p)),
    IsLinked-append all new sub h.1,
  )

  pub All-snoc :
      (P : MemoryRow Num → Type 0) (xs : List (MemoryRow Num)) (x : MemoryRow Num)
      → All P xs
      → P x
      → All P (xs ++ x ∷ [])
  All-snoc P [] x h p = (p, tt)
  All-snoc P (y ∷ xs) x h p = (h.0, All-snoc P xs x h.1 p)

  pub new_memory-IsConsistent :
      (rows : List (MemoryRow Num)) (row : MemoryRow Num)
      → IsConsistent rows
      → find_memory row.id rows ≡ none
      → row.superseded_by ≡ none
      → IsConsistent (rows ++ row ∷ [])
  new_memory-IsConsistent rows row h fresh e = record {
    unique = unique-snoc rows row h.unique fresh;
    linked =
        All-snoc (IsLinked (rows ++ row ∷ [])) rows row
          (IsLinked-append rows (row ∷ []) rows h.linked) (λ k p. ground (arith, e, p));
  }

  -- with unique ids, only the row that is found has the id
  pub found-conversation :
      (target : String) (found : MemoryRow Num) (rows : List (MemoryRow Num))
      → HasUniqueIds rows
      → find_memory target rows ≡ some found
      → All (λ r. str_eq r.id target ≡ true → r.conversation_id ≡ found.conversation_id) rows
  unfolding find_memory
  found-conversation target found [] u h = tt
  found-conversation target found (r ∷ rows) u h = elim (Bool-cases (str_eq r.id target)) [
    | inl e ↦
        let p : r ≡ found = ground (arith, e, h) in
        let q : r.id ≡ target = ground (arith, e, eq_iff r.id target) in
        (
          (λ _. ap (λ s. s.conversation_id) p),
          absent rows (ap (λ i. find_memory i rows) (sym q) ∙ u.0),
        )
    | inr e ↦ (
      (λ f. ground (arith, e, f)),
      found-conversation target found rows u.1 (ground (arith, e, h)),
    )
  ]
    where
      absent :
          (rows : List (MemoryRow Num))
          → find_memory target rows ≡ none
          → All (λ r. str_eq r.id target ≡ true → r.conversation_id ≡ found.conversation_id) rows
      absent [] h = tt
      absent (s ∷ rows) h = elim (Bool-cases (str_eq s.id target)) [
        | inl e ↦ ground (arith, e, h)
        | inr e ↦ ((λ f. ground (arith, e, f)), absent rows (ground (arith, e, h)))
      ]

  abbrev pub StaysConsistent : Created Num → Type 0
  StaysConsistent (created t) = IsConsistent t.memories
  StaysConsistent _ = Unit

  pub replaced-IsConsistent :
      (id target : String) (spec : MemoryCreate Num) (found : MemoryRow Num) (t : Tables Num)
      → IsConsistent t.memories
      → find_memory target t.memories ≡ some found
      → str_eq found.conversation_id spec.conversation_id ≡ true
      → StaysConsistent
          (mark_replaced target id (insert_memory (new_memory id spec (some target)) t))
  unfolding insert_memory
  replaced-IsConsistent id target spec found t h f same =
      elim (Option-cases (find_memory id t.memories)) [
        | inr (r, e) ↦ rw (e, insert_memory) tt
        | inl e ↦
            rw (e, insert_memory)
              (go (new_memory-IsConsistent t.memories (new_memory id spec (some target)) h e refl))
      ]
    where
      new : MemoryRow Num
      new = new_memory id spec (some target)

      kept : Keeps {Num = Num} (replaced_by id)
      kept = record {
        id_kept = λ r. refl;
        conversation_kept = λ r. refl;
        supersedes_kept = λ r. refl;
      }

      Q : MemoryRow Num → Type 0
      Q r = str_eq r.id target ≡ true → r.conversation_id ≡ spec.conversation_id

      widen :
          (rows : List (MemoryRow Num))
          → All (λ r. str_eq r.id target ≡ true → r.conversation_id ≡ found.conversation_id) rows
          → All Q rows
      widen [] a = tt
      widen (r ∷ rows) a = (
        (λ e. a.0 e ∙ ground (arith, same, eq_iff found.conversation_id spec.conversation_id)),
        widen rows a.1,
      )

      good :
          (r : MemoryRow Num)
          → Q r
          → IsLinked (t.memories ++ new ∷ []) r
          → is_replaced target r ≡ true
          → IsLinked (t.memories ++ new ∷ []) (replaced_by id r)
      good r q l e k p =
          let a : str_eq r.id target ≡ true = ground (arith, e) in
          let b : r.conversation_id ≡ spec.conversation_id = q a in
          let i : id ≡ k = ground (arith, p) in
          ground (
            arith,
            has_link-append k r.conversation_id r.id t.memories (new ∷ []),
            i,
            b,
            a,
            eq_iff id k,
            eq_iff spec.conversation_id r.conversation_id,
            eq_iff r.id target,
            eq_iff target r.id,
          )

      go :
          IsConsistent (t.memories ++ new ∷ [])
          → IsConsistent
              (update_where (is_replaced target) (replaced_by id) (t.memories ++ new ∷ []))
      go c = record {
        unique =
            unique-update (is_replaced target) (replaced_by id) kept (t.memories ++ new ∷ [])
              c.unique;
        linked =
            IsLinked-update (is_replaced target) (replaced_by id) kept (t.memories ++ new ∷ [])
              (t.memories ++ new ∷ []) Q good
              (All-snoc Q t.memories new
                (widen t.memories (found-conversation target found t.memories h.unique f))
                (λ _. refl))
              c.linked;
      }
