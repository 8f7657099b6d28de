-- ===== src/Memory/Replacing.antt =====
-- What a replacement changes: `create_memory` of src/context_proxy/memory/service.py.
use low_context_inference.Base.{
  ◌≡◌, refl, ap, ◌∙◌, true, false, Option, none, some, String, List, [], ◌∷◌, ◌++◌, str_eq, eq_iff,
  if◌then◌else◌, eq_refl, Bool-cases, inl, inr, arith,
}
use low_context_inference.Memory.{MemoryRow, superseded, is_superseded, Tables, update_where}
use low_context_inference.Memory.Records.{
  MemoryCreate, created, find_memory, new_memory, is_replaced, replaced_by, insert_memory,
  create_memory_row, add_conversation,
}
use low_context_inference.Memory.Links.{find_memory-append}

module _ {Num : Type 0} where
  find_memory-first :
      (k : String) (found : MemoryRow Num) (xs ys : List (MemoryRow Num))
      → find_memory k xs ≡ some found
      → find_memory k (xs ++ ys) ≡ some found
  unfolding find_memory
  find_memory-first k found [] ys h = absurd (cc)
  find_memory-first k found (x ∷ xs) ys h = elim (Bool-cases (str_eq x.id k)) [
    | inl e ↦ rw (e, find_memory) (ground (arith, e, h))
    | inr e ↦ rw (e, find_memory) (find_memory-first k found xs ys (ground (arith, e, h)))
  ]

  -- the row that is found is the one that is changed
  replaced-found :
      (id target : String) (found : MemoryRow Num) (rows : List (MemoryRow Num))
      → find_memory target rows ≡ some found
      → is_superseded found.status ≡ false
      → find_memory target (update_where (is_replaced target) (replaced_by id) rows)
        ≡ some (replaced_by id found)
  unfolding find_memory update_where
  replaced-found id target found [] h live = absurd (cc)
  replaced-found id target found (r ∷ rows) h live = elim (Bool-cases (str_eq r.id target)) [
    | inl e ↦
        let p : r ≡ found = ground (arith, e, h) in
        let q : is_superseded r.status ≡ false = ap (λ m. is_superseded m.status) p ∙ live in
        rw (update_where, e, q, find_memory, e) (ap (λ m. some (replaced_by id m)) p)
    | inr e ↦
        rw (update_where, e, find_memory, e)
          (replaced-found id target found rows (ground (arith, e, h)) live)
  ]

  -- other rows stay
  replaced-other :
      (id target k : String) (rows : List (MemoryRow Num))
      → str_eq k target ≡ false
      → find_memory k (update_where (is_replaced target) (replaced_by id) rows) ≡ find_memory k rows
  unfolding find_memory update_where
  replaced-other id target k [] h = refl
  replaced-other id target k (r ∷ rows) h = elim (Bool-cases (str_eq r.id target)) [
    | inr e ↦
        rw (update_where, e, find_memory)
          (ap (λ rest. if str_eq r.id k then some r else rest) (replaced-other id target k rows h))
    | inl e ↦
        let other : str_eq r.id k ≡ false =
          ground (arith, e, h, eq_iff r.id target, eq_iff r.id k, eq_iff k target) in
        elim (Bool-cases (is_superseded r.status)) [
          | inl f ↦ rw (update_where, e, f, find_memory, other) (replaced-other id target k rows h)
          | inr f ↦ rw (update_where, e, f, find_memory, other) (replaced-other id target k rows h)
        ]
  ]

  distinct :
      (id target : String) (found : MemoryRow Num) (rows : List (MemoryRow Num))
      → find_memory target rows ≡ some found
      → find_memory id rows ≡ none
      → str_eq id target ≡ false
  distinct id target found rows h fresh = elim (Bool-cases (str_eq id target)) [
    | inr e ↦ e
    | inl e ↦
        let p : id ≡ target = ground (arith, e, eq_iff id target) in
        let q = ap (λ k. find_memory k rows) p in absurd (cc)
  ]

  -- the memories after a replacement
  abbrev pub replaced_rows :
      String → String → MemoryRow Num → List (MemoryRow Num) → List (MemoryRow Num)
  replaced_rows id target new rows =
      update_where (is_replaced target) (replaced_by id) (rows ++ new ∷ [])

  pub replaced_rows-target :
      (id target : String) (new found : MemoryRow Num) (rows : List (MemoryRow Num))
      → find_memory target rows ≡ some found
      → is_superseded found.status ≡ false
      → find_memory target (replaced_rows id target new rows)
        ≡ some (record found { status = superseded; superseded_by = some id })
  replaced_rows-target id target new found rows h live =
      replaced-found id target found (rows ++ new ∷ [])
        (find_memory-first target found rows (new ∷ []) h) live

  pub replaced_rows-new :
      (target : String) (new found : MemoryRow Num) (rows : List (MemoryRow Num))
      → find_memory target rows ≡ some found
      → find_memory new.id rows ≡ none
      → find_memory new.id (replaced_rows new.id target new rows) ≡ some new
  unfolding find_memory
  replaced_rows-new target new found rows h fresh =
      replaced-other new.id target new.id (rows ++ new ∷ [])
        (distinct new.id target found rows h fresh)
      ∙ find_memory-append new.id rows (new ∷ []) fresh
      ∙ ground (arith, eq_refl new.id)

  pub create_memory_row-replaced :
      (uuid : String → Option String) (id given target : String) (spec : MemoryCreate Num)
      (found : MemoryRow Num) (t : Tables Num)
      → spec.supersedes ≡ some given
      → str_eq given "" ≡ false
      → uuid given ≡ some target
      → find_memory target t.memories ≡ some found
      → found.conversation_id ≡ spec.conversation_id
      → find_memory id t.memories ≡ none
      → create_memory_row id spec uuid t
        ≡ created (record t {
          conversations = add_conversation spec.conversation_id t.conversations;
          memories = replaced_rows id target (new_memory id spec (some target)) t.memories;
        })
  unfolding create_memory_row insert_memory
  create_memory_row-replaced uuid id given target spec found t e n u h same fresh =
      let conv : str_eq found.conversation_id spec.conversation_id ≡ true =
        ground (arith, same, eq_iff found.conversation_id spec.conversation_id) in
      rw (create_memory_row, e, n, u, h, conv, insert_memory, fresh) refl
