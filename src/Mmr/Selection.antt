-- ===== src/Mmr/Selection.antt =====
-- What `mmr_select` picks.
use low_context_inference.Base.{
  ℕ, zero, suc, ◌+◌, ◌≤◌, Bool, true, false, String, List, [], ◌∷◌, ◌++◌, arith, length, All,
  length-append, Bool-cases, inl, inr, str_eq, if◌then◌else◌,
}
use low_context_inference.Mmr.{
  Floats, insert_sorted, sort_scored, best_of, without_key, select_more, mmr_select, pair_less,
  rank_less, first_then,
}

All-map {ℓ κ} :
    {A : Type ℓ} {P Q : A → Type κ} (xs : List A) → ((x : A) → P x → Q x) → All P xs → All Q xs
All-map [] f h = tt
All-map (x ∷ xs) f h = (f x h.0, All-map xs f h.1)

All-snoc {ℓ κ} :
    {A : Type ℓ} (P : A → Type κ) (xs : List A) (x : A) → All P xs → P x → All P (xs ++ x ∷ [])
All-snoc P [] x h p = (p, tt)
All-snoc P (y ∷ xs) x h p = (h.0, All-snoc P xs x h.1 p)

module _ (fl : Floats) (P : String → Type 0) where
  open fl use {Num}

  abbrev Keys : List (Num × String) → Type 0
  Keys = All (λ x. P x.1)

  insert_sorted-Keys :
      (x : Num × String) (xs : List (Num × String)) → P x.1 → Keys xs → Keys (insert_sorted fl x xs)
  unfolding insert_sorted
  insert_sorted-Keys x [] p h = (p, tt)
  insert_sorted-Keys x (y ∷ ys) p h = elim (Bool-cases (pair_less fl y x)) [
    | inl e ↦ rw (e, insert_sorted) (h.0, insert_sorted-Keys x ys p h.1)
    | inr e ↦ rw (e, insert_sorted) (p, h)
  ]

  sort_scored-Keys : (xs : List (Num × String)) → Keys xs → Keys (sort_scored fl xs)
  unfolding sort_scored
  sort_scored-Keys [] h = tt
  sort_scored-Keys (x ∷ xs) h = insert_sorted-Keys x _ h.0 (sort_scored-Keys xs h.1)

  module _ (similarity : String → String → Num) (lam : Num) where
    best_of-Keys :
        (selected : List String) (b : Num × String) (xs : List (Num × String))
        → P b.1
        → Keys xs
        → P (best_of fl similarity lam selected b xs).1
    unfolding best_of
    best_of-Keys selected b [] p h = p
    best_of-Keys selected b (x ∷ xs) p h =
        best_of-Keys selected (if rank_less fl similarity lam selected x b then x else b) xs
          (pick (rank_less fl similarity lam selected x b)) h.1
      where
        pick : (c : Bool) → P (if c then x else b).1
        pick true = h.0
        pick false = p

    without_key-Keys :
        (key : String) (xs : List (Num × String))
        → Keys xs
        → Keys (without_key fl similarity lam key xs)
    unfolding without_key
    without_key-Keys key [] h = tt
    without_key-Keys key ((s, k) ∷ xs) h = elim (Bool-cases (str_eq k key)) [
      | inl e ↦ rw (e, without_key) (without_key-Keys key xs h.1)
      | inr e ↦ rw (e, without_key) (h.0, without_key-Keys key xs h.1)
    ]

    select_more-bounds :
        (rounds : ℕ) (xs : List (Num × String)) (selected : List String)
        → Keys xs
        → All P selected
        → All P (select_more fl similarity lam rounds xs selected)
          × (length (select_more fl similarity lam rounds xs selected) ≤ length selected + rounds)
    unfolding select_more
    select_more-bounds zero xs selected h a = (a, omega arith)
    select_more-bounds (suc rounds) [] selected h a = (a, omega arith)
    select_more-bounds (suc rounds) (x ∷ xs) selected h a =
        let best = best_of fl similarity lam selected x xs in
        let (keys, short) =
          select_more-bounds rounds (without_key fl similarity lam best.1 (x ∷ xs))
            (selected ++ best.1 ∷ []) (without_key-Keys best.1 (x ∷ xs) h)
            (All-snoc P selected best.1 a (best_of-Keys selected x xs h.0 h.1)) in
        (keys, omega (arith, length-append selected (best.1 ∷ [])))

    -- At most `limit` keys are selected, and each has every property that all the given keys have:
    -- none is made up, whatever the floats do.
    mmr_select_bounds :
        (scored : List (Num × String)) (limit : ℕ)
        → Keys scored
        → All P (mmr_select fl similarity lam scored limit)
          × (length (mmr_select fl similarity lam scored limit) ≤ limit)
    unfolding mmr_select
    mmr_select_bounds scored zero h = (tt, omega arith)
    mmr_select_bounds scored (suc limit) h = go (sort_scored fl scored) (sort_scored-Keys scored h)
      where
        go :
            (xs : List (Num × String))
            → Keys xs
            → All P (first_then fl similarity lam limit xs)
              × (length (first_then fl similarity lam limit xs) ≤ suc limit)
        go [] k = (tt, omega arith)
        go ((s, key) ∷ xs) k =
            let (a, b) = select_more-bounds limit xs (key ∷ []) k.1 (k.0, tt) in (a, omega arith)
