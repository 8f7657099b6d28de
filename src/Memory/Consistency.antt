-- ===== src/Memory/Consistency.antt =====
-- Sequences of `create_memory` and `supersede_memory`, of src/context_proxy/memory/service.py.
use low_context_inference.Base.{
  ◌≡◌, refl, ap, ◌∙◌, Bool, true, false, ◌&&◌, Option, none, some, String, List, [], ◌∷◌, ◌++◌,
  str_eq, is_some, All, Bool-cases, Option-cases, inl, inr, arith,
}
use low_context_inference.Memory.{
  MemoryRow, MemoryStatus, superseded, is_superseded, is_active, Tables, update_where,
}
use low_context_inference.Memory.Records.{
  MemoryCreate, Created, created, duplicate_id, unknown_target, foreign_target, invalid_target,
  find_memory, new_memory, is_replaced, replaced_by, insert_memory, mark_replaced, replace_found,
  replace, create_or_replace, create_memory_row, supersede_memory, add_conversation,
}
use low_context_inference.Memory.Links.{IsConsistent, Keeps, unique-update, IsLinked-update}
use low_context_inference.Memory.Replacing.{
  replaced_rows, replaced_rows-target, replaced_rows-new, create_memory_row-replaced,
}
use low_context_inference.Memory.Replacement.{
  new_memory-IsConsistent, replaced-IsConsistent, StaysConsistent,
}

-- the requests to the service
pub data Operation (Num : Type 0) : Type 0 where
  create : (id : String) → MemoryCreate Num → Operation Num
  supersede : (id : String) → MemoryStatus → Operation Num

module _ {Num : Type 0} where
  find_memory-some :
      (k : String) (xs ys : List (MemoryRow Num))
      → is_some (find_memory k xs) ≡ true
      → is_some (find_memory k (xs ++ ys)) ≡ true
  unfolding find_memory
  find_memory-some k [] ys h = ground arith
  find_memory-some k (x ∷ xs) ys h = ground (arith, find_memory-some k xs ys)

  find_memory-kept :
      (test : MemoryRow Num → Bool) (change : MemoryRow Num → MemoryRow Num)
      → Keeps change
      → (k : String) (rows : List (MemoryRow Num)) → is_some (find_memory k rows) ≡ true
      → is_some (find_memory k (update_where test change rows)) ≡ true
  unfolding find_memory update_where
  find_memory-kept test change kept k [] h = h
  find_memory-kept test change kept k (r ∷ rows) h =
      ground
        (arith, ap (λ i. str_eq i k) (kept.id_kept r), find_memory-kept test change kept k rows)

  -- A transaction that raises is rolled back.
  abbrev pub after_created : Tables Num → Created Num → Tables Num
  after_created t (created t') = t'
  after_created t _ = t

  abbrev pub perform : (String → Option String) → Operation Num → Tables Num → Tables Num
  perform uuid (create id spec) t = after_created t (create_memory_row id spec uuid t)
  perform uuid (supersede id status) t = (supersede_memory id status t).1

  abbrev pub perform_all : (String → Option String) → List (Operation Num) → Tables Num → Tables Num
  perform_all uuid [] t = t
  perform_all uuid (op ∷ ops) t = perform_all uuid ops (perform uuid op t)

  abbrev HasMemory : String → Tables Num → Type 0
  HasMemory k t = is_some (find_memory k t.memories) ≡ true

  abbrev Holds : Tables Num → Tables Num → Type 0
  Holds t t' =
      IsConsistent t.memories
      → IsConsistent t'.memories × ((k : String) → HasMemory k t → HasMemory k t')

  insert_memory-Holds :
      (t : Tables Num) (row : MemoryRow Num)
      → row.superseded_by ≡ none
      → Holds t (after_created t (insert_memory row t))
  unfolding insert_memory
  insert_memory-Holds t row e h = elim (Option-cases (find_memory row.id t.memories)) [
    | inr (r, f) ↦ rw (f, insert_memory) (h, λ k p. p)
    | inl f ↦
        rw (f, insert_memory)
          (
            new_memory-IsConsistent t.memories row h f e,
            λ k p. find_memory-some k t.memories (row ∷ []) p,
          )
  ]

  mark_replaced-Holds :
      (id target : String) (t : Tables Num) (row : MemoryRow Num) (k : String)
      → HasMemory k t
      → HasMemory k (after_created t (mark_replaced target id (insert_memory row t)))
  unfolding insert_memory
  mark_replaced-Holds id target t row k p = elim (Option-cases (find_memory row.id t.memories)) [
    | inr (r, f) ↦ rw (f, insert_memory) p
    | inl f ↦
        rw (f, insert_memory)
          (find_memory-kept (is_replaced target) (replaced_by id)
            (record {
              id_kept = λ r. refl;
              conversation_kept = λ r. refl;
              supersedes_kept = λ r. refl;
            })
            k (t.memories ++ row ∷ []) (find_memory-some k t.memories (row ∷ []) p))
  ]

  stays :
      (t : Tables Num) (c : Created Num)
      → IsConsistent t.memories
      → StaysConsistent c
      → IsConsistent (after_created t c).memories
  stays t (created t') h s = s
  stays t invalid_target h s = h
  stays t unknown_target h s = h
  stays t foreign_target h s = h
  stays t duplicate_id h s = h

  replace-Holds :
      (id : String) (spec : MemoryCreate Num) (o : Option String) (t : Tables Num)
      → Holds t (after_created t (replace id spec o t))
  replace-Holds id spec none t h = (h, λ k p. p)
  replace-Holds id spec (some target) t h = found (find_memory target t.memories) refl
    where
      found :
          (o : Option (MemoryRow Num))
          → find_memory target t.memories ≡ o
          → IsConsistent (after_created t (replace_found id spec target o t)).memories
            × ((k : String)
                → HasMemory k t
                → HasMemory k (after_created t (replace_found id spec target o t)))
      found none e = (h, λ k p. p)
      found (some r) e = elim (Bool-cases (str_eq r.conversation_id spec.conversation_id)) [
        | inr f ↦ rw f (h, λ k p. p)
        | inl f ↦ rw f (
          stays t (mark_replaced target id (insert_memory (new_memory id spec (some target)) t)) h
              (replaced-IsConsistent id target spec r t h e f),
          mark_replaced-Holds id target t (new_memory id spec (some target)),
        )
      ]

  create_memory_row-Holds :
      (id : String) (spec : MemoryCreate Num) (uuid : String → Option String) (t : Tables Num)
      → Holds t (after_created t (create_memory_row id spec uuid t))
  unfolding create_memory_row
  create_memory_row-Holds id spec uuid t h = go spec.supersedes
    where
      t' : Tables Num
      t' = record t { conversations = add_conversation spec.conversation_id t.conversations }

      same :
          (c : Created Num)
          → (IsConsistent (after_created t' c).memories
              × ((k : String) → HasMemory k t' → HasMemory k (after_created t' c)))
          → IsConsistent (after_created t c).memories
            × ((k : String) → HasMemory k t → HasMemory k (after_created t c))
      same (created u) p = p
      same invalid_target p = p
      same unknown_target p = p
      same foreign_target p = p
      same duplicate_id p = p

      go :
          (o : Option String)
          → IsConsistent (after_created t (create_or_replace id spec uuid o t')).memories
            × ((k : String)
                → HasMemory k t
                → HasMemory k (after_created t (create_or_replace id spec uuid o t')))
      go none =
          same (insert_memory (new_memory id spec none) t')
            (insert_memory-Holds t' (new_memory id spec none) refl h)
      go (some given) = elim (Bool-cases (str_eq given "")) [
        | inl e ↦ rw e (
            same (insert_memory (new_memory id spec none) t')
              (insert_memory-Holds t' (new_memory id spec none) refl h))
        | inr e ↦
            rw e (same (replace id spec (uuid given) t') (replace-Holds id spec (uuid given) t' h))
      ]

  supersede_memory-Holds :
      (id : String) (status : MemoryStatus) (t : Tables Num)
      → Holds t (supersede_memory id status t).1
  unfolding supersede_memory
  supersede_memory-Holds id status t h =
      let test = λ (r : MemoryRow Num). str_eq r.id id && is_active r.status in
      let change = λ (r : MemoryRow Num). record r { status = status } in
      let kept : Keeps {Num = Num} change = record {
        id_kept = λ r. refl;
        conversation_kept = λ r. refl;
        supersedes_kept = λ r. refl;
      } in
      (
        record {
          unique = unique-update test change kept t.memories h.unique;
          linked =
              IsLinked-update test change kept t.memories t.memories (λ r. Unit {0}) (λ r q l e. l)
                (anything t.memories) h.linked;
        },
        λ k p. find_memory-kept test change kept k t.memories p,
      )
    where
      anything : (rows : List (MemoryRow Num)) → All (λ r. Unit {0}) rows
      anything [] = tt
      anything (r ∷ rows) = (tt, anything rows)

  perform-Holds :
      (uuid : String → Option String) (op : Operation Num) (t : Tables Num)
      → Holds t (perform uuid op t)
  perform-Holds uuid (create id spec) t = create_memory_row-Holds id spec uuid t
  perform-Holds uuid (supersede id status) t = supersede_memory-Holds id status t

  stays-consistent :
      (uuid : String → Option String) (ops : List (Operation Num)) (t : Tables Num)
      → Holds t (perform_all uuid ops t)
  stays-consistent uuid [] t h = (h, λ k p. p)
  stays-consistent uuid (op ∷ ops) t h =
      let (a, b) = perform-Holds uuid op t h in
      let (c, d) = stays-consistent uuid ops (perform uuid op t) a in (c, λ k p. d k (b k p))

  -- From memories whose links hold, after whatever was asked of the service, let a memory be created
  -- with a new id that replaces an existing memory of its conversation that was not superseded yet.
  -- Then the replaced memory is as it was, but superseded, and names the new one; the new one is
  -- active and names it in turn. Ids are unique, every memory that is named as a replacement is of the
  -- same conversation and names the one it replaced, and every memory that there was at the start or
  -- before the replacement is still there.
  pub perform_all-IsConsistent :
      (uuid : String → Option String) (ops : List (Operation Num)) (t : Tables Num)
      (id given target : String) (spec : MemoryCreate Num) (found : MemoryRow Num)
      → IsConsistent t.memories
      → spec.supersedes ≡ some given
      → str_eq given "" ≡ false
      → uuid given ≡ some target
      → find_memory target (perform_all uuid ops t).memories ≡ some found
      → found.conversation_id ≡ spec.conversation_id
      → is_superseded found.status ≡ false
      → find_memory id (perform_all uuid ops t).memories ≡ none
      → let before = perform_all uuid ops t in
        let after = perform uuid (create id spec) before in
        (find_memory target after.memories
          ≡ some (record found { status = superseded; superseded_by = some id }))
        × (find_memory id after.memories ≡ some (new_memory id spec (some target)))
        × IsConsistent before.memories
        × IsConsistent after.memories
        × ((k : String)
            → is_some (find_memory k t.memories) ≡ true
            → is_some (find_memory k before.memories) ≡ true)
        × ((k : String)
            → is_some (find_memory k before.memories) ≡ true
            → is_some (find_memory k after.memories) ≡ true)
  perform_all-IsConsistent uuid ops t id given target spec found h e n u f same live fresh =
      let before = perform_all uuid ops t in
      let rows : (perform uuid (create id spec) before).memories
          ≡ replaced_rows id target (new_memory id spec (some target)) before.memories =
        ap (λ c. (after_created before c).memories)
          (create_memory_row-replaced uuid id given target spec found before e n u f same fresh) in
      let (a, b) = stays-consistent uuid ops t h in
      let (c, d) = create_memory_row-Holds id spec uuid before a in
      (
        ap (find_memory target) rows
            ∙ replaced_rows-target id target (new_memory id spec (some target)) found
                before.memories f live,
        ap (find_memory id) rows
            ∙ replaced_rows-new target (new_memory id spec (some target)) found before.memories f
                fresh,
        a,
        c,
        b,
        d,
      )
