-- ===== src/Memory/Slices.antt =====
-- Lengths of sorted rows and of the slices of `rebuild_vector_index` and `_index_pending_chunks`, of
-- src/context_proxy/memory/service.py.
use low_context_inference.Base.{
  ℕ, zero, suc, ◌+◌, ◌≤◌, ◌≡◌, refl, ap, ◌∙◌, Bool, List, [], ◌∷◌, ◌++◌, length, map, take, drop,
  arith,
}
use low_context_inference.Memory.{insert_with, sort_with, insert_by, sort_by}
use low_context_inference.Memory.Index.{slices}

module _ {ℓ} {A : Type ℓ} where
  pub length-insert_with :
      (before : A → A → Bool) (x : A) (xs : List A)
      → length (insert_with before x xs) ≡ suc (length xs)
  unfolding insert_with
  length-insert_with before x [] = refl
  length-insert_with before x (y ∷ ys) = ground (arith, length-insert_with before x ys)

  pub length-sort_with :
      (before : A → A → Bool) (xs : List A) → length (sort_with before xs) ≡ length xs
  unfolding sort_with
  length-sort_with before [] = refl
  length-sort_with before (x ∷ xs) =
      length-insert_with before x (sort_with before xs) ∙ ap suc (length-sort_with before xs)

  pub length-map : {B : Type 0} (f : A → B) (xs : List A) → length (map f xs) ≡ length xs
  length-map f [] = refl
  length-map f (x ∷ xs) = ap suc (length-map f xs)

  pub length-take-drop : (n : ℕ) (xs : List A) → length (take n xs) + length (drop n xs) ≡ length xs
  length-take-drop zero xs = omega arith
  length-take-drop (suc n) [] = omega arith
  length-take-drop (suc n) (x ∷ xs) = omega (arith, length-take-drop n xs)

  abbrev pub total : List (List A) → ℕ
  total [] = 0
  total (xs ∷ batches) = length xs + total batches

  -- as many rounds as there are rows are enough
  pub total-slices :
      (rounds batch_size : ℕ) (xs : List A)
      → length xs ≤ rounds
      → total (slices rounds (suc batch_size) xs) ≡ length xs
  unfolding slices
  total-slices zero batch_size [] h = refl
  total-slices zero batch_size (x ∷ xs) h = omega arith
  total-slices (suc rounds) batch_size [] h = refl
  total-slices (suc rounds) batch_size (x ∷ xs) h = omega (
    arith,
    length-take-drop batch_size xs,
    total-slices rounds batch_size (drop batch_size xs)
        (omega (arith, length-take-drop batch_size xs)),
  )

  pub length-insert_by :
      (measure : A → ℕ) (x : A) (xs : List A) → length (insert_by measure x xs) ≡ suc (length xs)
  unfolding insert_by
  length-insert_by measure x [] = refl
  length-insert_by measure x (y ∷ ys) = ground (arith, length-insert_by measure x ys)

  pub length-sort_by : (measure : A → ℕ) (xs : List A) → length (sort_by measure xs) ≡ length xs
  unfolding sort_by
  length-sort_by measure [] = refl
  length-sort_by measure (x ∷ xs) =
      length-insert_by measure x (sort_by measure xs) ∙ ap suc (length-sort_by measure xs)

  abbrev pub concat : List (List A) → List A
  concat [] = []
  concat (xs ∷ batches) = xs ++ concat batches

  take-append-drop : (n : ℕ) (xs : List A) → take n xs ++ drop n xs ≡ xs
  take-append-drop zero xs = refl
  take-append-drop (suc n) [] = refl
  take-append-drop (suc n) (x ∷ xs) = ap (λ rest. x ∷ rest) (take-append-drop n xs)

  -- The slices are the rows in order.
  pub concat-slices :
      (rounds batch_size : ℕ) (xs : List A)
      → length xs ≤ rounds
      → concat (slices rounds (suc batch_size) xs) ≡ xs
  unfolding slices
  concat-slices zero batch_size [] h = refl
  concat-slices zero batch_size (x ∷ xs) h = let no : ⊥ = omega (arith, h) in elim no [ ]
  concat-slices (suc rounds) batch_size [] h = refl
  concat-slices (suc rounds) batch_size (x ∷ xs) h =
      ap (λ rest. x ∷ (take batch_size xs ++ rest))
        (concat-slices rounds batch_size (drop batch_size xs)
          (omega (arith, length-take-drop batch_size xs)))
      ∙ ap (λ rest. x ∷ rest) (take-append-drop batch_size xs)

  pub take_all : (n : ℕ) (xs : List A) → length xs ≤ n → take n xs ≡ xs
  take_all zero [] h = refl
  take_all zero (x ∷ xs) h = let no : ⊥ = omega (arith, h) in elim no [ ]
  take_all (suc n) [] h = refl
  take_all (suc n) (x ∷ xs) h = ap (λ rest. x ∷ rest) (take_all n xs (omega (arith, h)))
