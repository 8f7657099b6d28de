-- ===== src/Mmr/Similarity.antt =====
-- `cosine_similarity` of src/context_proxy/context/mmr.py. `words` is
-- `re.compile(r"[a-z0-9]+").findall`; a `Counter` is a list of its entries.
use low_context_inference.Base.{
  ℕ, suc, ◌+◌, ◌*◌, ◌==◌, Bool, true, false, ◌||◌, String, List, [], ◌∷◌, str_eq, if◌then◌else◌,
}

-- what the function computes with, beside the numbers of words
pub record Roots : Type 1 where
  pub Num : Type 0
  pub nought : Num
  pub one : Num
  pub of_nat : ℕ → Num
  pub sqrt : Num → Num
  pub times : Num → Num → Num
  pub over : Num → Num → Num
  pub less : Num → Num → Bool

-- `counts[word] += 1`
unfoldable pub count_word : String → List (String × ℕ) → List (String × ℕ)
count_word word [] = (word, 1) ∷ []
count_word word ((w, n) ∷ counts) =
    let rest = count_word word counts in
    if str_eq w word then (w, suc n) ∷ counts else (w, n) ∷ rest

unfoldable pub count_all : List String → List (String × ℕ) → List (String × ℕ)
unfolding count_word
count_all [] counts = counts
count_all (word ∷ words) counts = count_all words (count_word word counts)

-- `counts.get(word, 0)`
abbrev pub count_of : String → List (String × ℕ) → ℕ
count_of word [] = 0
count_of word ((w, n) ∷ counts) = if str_eq w word then n else count_of word counts

abbrev pub dot : List (String × ℕ) → List (String × ℕ) → ℕ
dot [] b = 0
dot ((w, n) ∷ a) b = n * count_of w b + dot a b

abbrev pub squares : List (String × ℕ) → ℕ
squares [] = 0
squares ((w, n) ∷ a) = n * n + squares a

abbrev pub has_no_words : List (String × ℕ) → Bool
has_no_words [] = true
has_no_words (e ∷ a) = false

module _ (rt : Roots) (words : String → List String) where
  open rt use {Num, nought, one, of_nat, sqrt, times, over, less}

  unfoldable pub vector : String → List (String × ℕ)
  unfolding count_all
  vector text = count_all (words text) []

  -- `max(0.0, min(1.0, n))`
  abbrev pub clamp : Num → Num
  clamp n = let low = if less n one then n else one in if less nought low then low else nought

  abbrev pub cosine_of : List (String × ℕ) → List (String × ℕ) → Num
  cosine_of a b =
      if has_no_words a || has_no_words b || dot a b == 0
      then nought
      else clamp
          (over (of_nat (dot a b)) (times (sqrt (of_nat (squares a))) (sqrt (of_nat (squares b)))))

  unfoldable pub cosine_similarity : String → String → Num
  unfolding vector
  cosine_similarity a b = cosine_of (vector a) (vector b)
