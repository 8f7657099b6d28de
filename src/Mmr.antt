-- ===== src/Mmr.antt =====
-- src/context_proxy/context/mmr.py. Floats are a parameter: the operations that `mmr_select`
-- applies to scores and similarities.
pub mod Selection
pub mod Similarity
use mathlib.Core.Bool.{◌||◌}
use low_context_inference.Base.{
  ℕ, zero, suc, ◌-◌, Bool, true, false, not, ◌&&◌, Option, none, some, String, List, [], ◌∷◌, ◌++◌,
  map, str_eq, if◌then◌else◌,
}

pub record Floats : Type 1 where
  pub Num : Type 0
  pub nought : Num
  pub one : Num
  pub minus : Num → Num → Num
  pub times : Num → Num → Num
  -- `<` and `==` of two floats
  pub less : Num → Num → Bool
  pub same : Num → Num → Bool
  -- `<` of two texts
  pub text_less : String → String → Bool

module _ (fl : Floats) where
  open fl use {Num, nought, one, minus, times, less, same, text_less}

  -- `(-a, s) < (-b, t)` of tuples
  unfoldable pub pair_less : Num × String → Num × String → Bool
  pair_less (a, s) (b, t) = less b a || same a b && text_less s t

  -- `sorted(scored, key=lambda pair: (-pair[0], pair[1]))`, stable
  unfoldable pub insert_sorted : Num × String → List (Num × String) → List (Num × String)
  insert_sorted x [] = x ∷ []
  insert_sorted x (y ∷ ys) =
      let rest = insert_sorted x ys in if pair_less y x then y ∷ rest else x ∷ y ∷ ys

  unfoldable pub sort_scored : List (Num × String) → List (Num × String)
  unfolding insert_sorted pair_less
  sort_scored [] = []
  sort_scored (x ∷ xs) = insert_sorted x (sort_scored xs)

  -- `max`, which keeps the first of equals
  abbrev max_num : Num → Num → Num
  max_num a b = if less a b then b else a

  module _ (similarity : String → String → Num) (lam : Num) where
    unfoldable pub max_from : String → Num → List String → Num
    max_from key best [] = best
    max_from key best (c ∷ cs) = max_from key (max_num best (similarity key c)) cs

    -- `max((similarity(key, chosen) for chosen in selected), default=0.0)`
    unfoldable pub max_similarity : String → List String → Num
    unfolding max_from
    max_similarity key [] = nought
    max_similarity key (c ∷ cs) = max_from key (similarity key c) cs

    unfoldable pub mmr : List String → Num × String → Num
    unfolding max_similarity
    mmr selected (score, key) =
        minus (times lam score) (times (minus one lam) (max_similarity key selected))

    -- `(-mmr, -score, key) < (-mmr', -score', key')`
    unfoldable pub rank_less : List String → Num × String → Num × String → Bool
    unfolding mmr pair_less
    rank_less selected a b =
        let m = mmr selected a in let n = mmr selected b in less n m || same m n && pair_less a b

    -- the loop over `remaining` that keeps the best so far
    unfoldable pub best_of : List String → Num × String → List (Num × String) → Num × String
    unfolding rank_less
    best_of selected best [] = best
    best_of selected best (x ∷ xs) =
        best_of selected (if rank_less selected x best then x else best) xs

    -- `[(s, k) for s, k in remaining if k != key]`
    unfoldable pub without_key : String → List (Num × String) → List (Num × String)
    without_key key [] = []
    without_key key ((s, k) ∷ xs) =
        let rest = without_key key xs in if str_eq k key then rest else (s, k) ∷ rest

    -- the `while` loop, with the rounds that the limit leaves
    unfoldable pub select_more : ℕ → List (Num × String) → List String → List String
    unfolding best_of without_key
    select_more zero remaining selected = selected
    select_more (suc rounds) [] selected = selected
    select_more (suc rounds) (x ∷ xs) selected =
        let best = best_of selected x xs in
        select_more rounds (without_key best.1 (x ∷ xs)) (selected ++ best.1 ∷ [])

    abbrev first_then : ℕ → List (Num × String) → List String
    first_then rounds [] = []
    first_then rounds ((s, key) ∷ remaining) = select_more rounds remaining (key ∷ [])

    unfoldable pub mmr_select : List (Num × String) → ℕ → List String
    unfolding select_more sort_scored
    mmr_select scored zero = []
    mmr_select scored (suc limit) = first_then limit (sort_scored scored)
