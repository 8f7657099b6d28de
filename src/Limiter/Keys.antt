-- ===== src/Limiter/Keys.antt =====
-- The keys of a dict after `d[k] = v` and `del d[k]`, and what forgetting a bucket does to both dicts.
use mathlib.Core.Path.{subst}
use low_context_inference.Base.{
  suc, ◌≤◌, ◌≡◌, refl, sym, ap, ◌∙◌, Bool, true, false, String, str_eq, eq_iff, List, [], ◌∷◌,
  is_some, if◌then◌else◌, length, All, arith, Bool-cases, inl, inr,
}
use low_context_inference.Limiter.{
  Floats, Dict, keys, find, set, del, RateLimiter, forget, coldest_from,
}

abbrev pub without : String → List String → List String
without k [] = []
without k (j ∷ js) = if str_eq j k then js else j ∷ without k js

abbrev pub with_key : String → List String → List String
with_key k [] = k ∷ []
with_key k (j ∷ js) = if str_eq j k then j ∷ js else j ∷ with_key k js

abbrev pub has : String → List String → Bool
has k [] = false
has k (j ∷ js) = if str_eq j k then true else has k js

pub length-without :
    (k : String) (js : List String) → has k js ≡ true → suc (length (without k js)) ≡ length js
length-without k [] h = ground arith
length-without k (j ∷ js) h = elim (Bool-cases (str_eq j k)) [
  | inl e ↦ rw e refl
  | inr e ↦
      rw e (ap suc (length-without k js (subst (λ b. (if b then true else has k js) ≡ true) e h)))
]

pub length-without_le : (k : String) (js : List String) → length (without k js) ≤ length js
length-without_le k [] = omega arith
length-without_le k (j ∷ js) = elim (Bool-cases (str_eq j k)) [
  | inl e ↦ rw e (omega arith)
  | inr e ↦ rw e (omega (arith, length-without_le k js))
]

pub length-with_key :
    (k : String) (js : List String)
    → length (with_key k js) ≡ (if has k js then length js else suc (length js))
length-with_key k [] = refl
length-with_key k (j ∷ js) = elim (Bool-cases (str_eq j k)) [
  | inl e ↦ rw e refl
  | inr e ↦ rw e (lift (has k js) (length-with_key k js))
]
  where
    lift :
        (b : Bool)
        → length (with_key k js) ≡ (if b then length js else suc (length js))
        → suc (length (with_key k js)) ≡ (if b then suc (length js) else suc (suc (length js)))
    lift true h = ap suc h
    lift false h = ap suc h

pub grown : (k : String) (js : List String) → length (with_key k js) ≤ suc (length js)
grown k [] = omega arith
grown k (j ∷ js) = elim (Bool-cases (str_eq j k)) [
  | inl e ↦ rw e (omega arith)
  | inr e ↦ rw e (omega (arith, grown k js))
]

module _ (fl : Floats) where
  open fl use {Num, less}

  pub keys-del : (k : String) (d : Dict fl) → keys fl (del fl k d) ≡ without k (keys fl d)
  unfolding del
  keys-del k [] = refl
  keys-del k ((j, w) ∷ d) = elim (Bool-cases (str_eq j k)) [
    | inl e ↦ rw (e, del) refl
    | inr e ↦ rw (e, del) (ap (λ js. j ∷ js) (keys-del k d))
  ]

  pub keys-set :
      (k : String) (v : Num) (d : Dict fl) → keys fl (set fl k v d) ≡ with_key k (keys fl d)
  unfolding set
  keys-set k v [] = refl
  keys-set k v ((j, w) ∷ d) = elim (Bool-cases (str_eq j k)) [
    | inl e ↦ rw (e, set) refl
    | inr e ↦ rw (e, set) (ap (λ js. j ∷ js) (keys-set k v d))
  ]

  pub has-find : (k : String) (d : Dict fl) → is_some (find fl k d) ≡ has k (keys fl d)
  unfolding find
  has-find k [] = refl
  has-find k ((j, w) ∷ d) = elim (Bool-cases (str_eq j k)) [
    | inl e ↦ rw (e, find) refl
    | inr e ↦ rw (e, find) (has-find k d)
  ]

  -- the same keys in both dicts, in the same order
  abbrev pub IsAligned : RateLimiter fl → Type 0
  IsAligned s = keys fl s.tokens ≡ keys fl s.updated

  pub forget-IsAligned : (k : String) (s : RateLimiter fl) → IsAligned s → IsAligned (forget fl k s)
  forget-IsAligned k s h = keys-del k s.tokens ∙ ap (without k) h ∙ sym (keys-del k s.updated)

  pub coldest_from-has :
      (js : List String) (best : String × Num) (d : Dict fl)
      → has best.0 js ≡ true
      → All (λ k. has k js ≡ true) (keys fl d)
      → has (coldest_from fl best d) js ≡ true
  unfolding coldest_from
  coldest_from-has js best [] h a = h
  coldest_from-has js best (e ∷ d) h a =
      coldest_from-has js (if less e.1 best.1 then e else best) d (pick (less e.1 best.1)) a.1
    where
      pick : (b : Bool) → has (if b then e else best).0 js ≡ true
      pick true = a.0
      pick false = h

  has-weaken : (j k : String) (js : List String) → has k js ≡ true → has k (j ∷ js) ≡ true
  has-weaken j k js h = elim (Bool-cases (str_eq j k)) [ inl e ↦ rw e refl | inr e ↦ rw e h ]

  pub has_self : (js : List String) → All (λ k. has k js ≡ true) js
  has_self [] = tt
  has_self (j ∷ js) = (ground (arith, eq_iff j j), widen js (has_self js))
    where
      widen :
          (ks : List String) → All (λ k. has k js ≡ true) ks → All (λ k. has k (j ∷ js) ≡ true) ks
      widen [] a = tt
      widen (k ∷ ks) a = (has-weaken j k js a.0, widen ks a.1)

  pub length-keys : (d : Dict fl) → length (keys fl d) ≡ length d
  length-keys [] = refl
  length-keys (e ∷ d) = ap suc (length-keys d)
