-- ===== src/Middleware/RequestId.antt =====
-- The request ids that src/context_proxy/observability/middleware.py takes from a client.
use mathlib.Core.Path.{subst}
use low_context_inference.Base.{
  ℕ, suc, ◌+◌, ◌≤◌, ◌≡◌, refl, ap, Bool, true, false, not, ◌&&◌, none, some, String, List, [], ◌∷◌,
  ◌++◌, leb, str_eq, eq_iff, length, All, arith, tests, ◌⊎◌, inl, inr, ◌↔◌, Bool-cases, and-right,
  ==→eq, if◌then◌else◌,
}
use low_context_inference.Json.{code_points}
use low_context_inference.Middleware.{
  is_visible, is_line_end, matches, sanitize_request_id, request_id_max_chars,
}

-- visible characters, and maybe a line feed after them; with `n` characters before, 1 to 128 in all
abbrev pub IsSafe : ℕ → List ℕ → Type 0
IsSafe n codes =
    (visible : List ℕ) × All (λ c. is_visible c ≡ true) visible
    × (1 ≤ n + length visible)
    × (n + length visible ≤ 128)
    × ((codes ≡ visible) ⊎ (codes ≡ visible ++ 10 ∷ []))

IsSafe-cons :
    (n c : ℕ) (codes : List ℕ) → is_visible c ≡ true → IsSafe (suc n) codes → IsSafe n (c ∷ codes)
IsSafe-cons n c codes v (vs, a, p, q, inl e) =
    (c ∷ vs, (v, a), omega arith, omega (arith, q), inl (ap (λ xs. c ∷ xs) e))
IsSafe-cons n c codes v (vs, a, p, q, inr e) =
    (c ∷ vs, (v, a), omega arith, omega (arith, q), inr (ap (λ xs. c ∷ xs) e))

is_line_end-line_feed : (c : ℕ) (cs : List ℕ) → is_line_end (c ∷ cs) ≡ true → (c ∷ cs) ≡ (10 ∷ [])
is_line_end-line_feed c [] h = ap (λ x. x ∷ []) (==→eq c 10 h)
is_line_end-line_feed c (d ∷ cs) h = absurd (cc)

matches-IsSafe : (n : ℕ) (codes : List ℕ) → matches n codes ≡ true → IsSafe n codes
unfolding matches
matches-IsSafe n [] h =
    let p : 1 ≤ n = grind (arith, tests, h) in
    let q : n ≤ 128 = grind (arith, tests, h) in
    ([], tt, omega (arith, p), omega (arith, q), inl refl)
matches-IsSafe n (c ∷ cs) h = elim (Bool-cases (is_visible c)) [
  | inl e ↦ IsSafe-cons n c cs e (matches-IsSafe (suc n) cs (ground (arith, h, e)))
  | inr e ↦
      let b : leb 1 n && leb n request_id_max_chars && is_line_end (c ∷ cs) ≡ true =
        ground (arith, h, e) in
      let p : 1 ≤ n = grind (arith, tests, b) in
      let q : n ≤ 128 = grind (arith, tests, b) in
      let r = is_line_end-line_feed c cs (ground (arith, b)) in
      ([], tt, omega (arith, p), omega (arith, q), inr r)
]

visible-matches :
    (n : ℕ) (visible : List ℕ)
    → All (λ c. is_visible c ≡ true) visible
    → 1 ≤ n + length visible
    → n + length visible ≤ 128
    → (matches n visible ≡ true) × (matches n (visible ++ 10 ∷ []) ≡ true)
unfolding matches
visible-matches n [] a p q = (ground arith, ground arith)
visible-matches n (c ∷ vs) (v, a) p q =
    let (f, g) = visible-matches (suc n) vs a (omega (arith, p)) (omega (arith, q)) in rw v (f, g)

IsSafe-matches : (codes : List ℕ) → IsSafe 0 codes → matches 0 codes ≡ true
IsSafe-matches codes (vs, a, p, q, inl e) = rw e (visible-matches 0 vs a p q).0
IsSafe-matches codes (vs, a, p, q, inr e) = rw e (visible-matches 0 vs a p q).1

taken : (b : Bool) (raw : String) → (if b then some raw else none) ≡ some raw → b ≡ true
taken true raw h = refl
taken false raw h = absurd (cc)

not_empty : (raw : String) → matches 0 (code_points raw) ≡ true → str_eq raw "" ≡ false
unfolding matches
not_empty raw m = elim (Bool-cases (str_eq raw "")) [
  | inl e ↦
      let same : raw ≡ "" = (eq_iff raw "").0 e in
      let no : matches 0 (code_points "") ≡ true =
        subst (λ t. matches 0 (code_points t) ≡ true) same m in
      absurd (ground (arith, no))
  | inr e ↦ e
]

-- A request id of the client is taken over exactly if it is 1 to 128 visible ASCII characters, or
-- these and a line feed at the end.
pub sanitize_request_id_lem :
    (raw : String) → (sanitize_request_id (some raw) ≡ some raw) ↔ IsSafe 0 (code_points raw)
unfolding sanitize_request_id
sanitize_request_id_lem raw = (
  (λ h. matches-IsSafe 0 (code_points raw) (
      and-right (not (str_eq raw "")) (matches 0 (code_points raw))
        (taken (not (str_eq raw "") && matches 0 (code_points raw)) raw h))),
  (λ safe.
      let m = IsSafe-matches (code_points raw) safe in let e = not_empty raw m in rw (e, m) refl),
)
