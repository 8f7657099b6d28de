-- ===== src/Provider/Forwarding.antt =====
-- What `filter_response_headers` of src/context_proxy/providers/headers.py forwards.
use mathlib.Core.Path.{subst}
use low_context_inference.Base.{
  ◌≡◌, ◌⊎◌, not, ◌&&◌, some, refl, sym, ap, ◌∙◌, Bool, true, false, ◌||◌, Option, none, String,
  List, [], ◌∷◌, ◌++◌, append-nil, if◌then◌else◌, str_eq, eq_iff, All, Bool-cases, inl, inr, arith,
}
use low_context_inference.Provider.Headers.{
  Texts, stripped_response_headers, is_one_of, get_header, tokens, tokens_of,
  connection_named_headers, stripped, without, filter_response_headers,
}

is_one_of-append :
    (name : String) (xs ys : List String)
    → is_one_of name (xs ++ ys) ≡ (is_one_of name xs || is_one_of name ys)
unfolding is_one_of
is_one_of-append name [] ys = refl
is_one_of-append name (x ∷ xs) ys = ground (arith, is_one_of-append name xs ys)

-- the text is one of those
abbrev pub IsText : String → List String → Type 0
IsText n [] = ⊥
IsText n (x ∷ xs) = (x ≡ n) ⊎ IsText n xs

is_one_of-IsText : (n : String) (xs : List String) → is_one_of n xs ≡ true → IsText n xs
unfolding is_one_of
is_one_of-IsText n [] h = absurd (cc)
is_one_of-IsText n (x ∷ xs) h = elim (Bool-cases (str_eq x n)) [
  | inl e ↦ inl (ground (arith, e, eq_iff x n))
  | inr e ↦ inr (is_one_of-IsText n xs (ground (arith, h, e)))
]

IsText-is_one_of : (n : String) (xs : List String) → IsText n xs → is_one_of n xs ≡ true
unfolding is_one_of
IsText-is_one_of n [] h = elim h [ ]
IsText-is_one_of n (x ∷ xs) h = elim h [
  | inl e ↦ ground (arith, e, eq_iff x n)
  | inr k ↦ ground (arith, IsText-is_one_of n xs k)
]

or_kept : (a b c : Bool) → (a || b) ≡ (a || (b || (not true && c)))
or_kept a b c = ground arith

or_dropped : (a b c : Bool) → ((a || b) || (c || false)) ≡ (a || (b || (not false && c)))
or_dropped a b c = ground arith

module _ (py : Texts) where
  open py use {lower, strip, split_commas}

  abbrev AreLeft : List String → List (String × String) → Type 0
  AreLeft names = All (λ h. is_one_of (lower h.0) names ≡ false)

  without-AreLeft :
      (names : List String) (headers : List (String × String))
      → AreLeft names (without py names headers)
  unfolding without
  without-AreLeft names [] = tt
  without-AreLeft names ((key, value) ∷ headers) = elim (Bool-cases (is_one_of (lower key) names)) [
    | inl e ↦ rw (e, without) (without-AreLeft names headers)
    | inr e ↦ rw (e, without) (e, without-AreLeft names headers)
  ]

  without-left :
      (names : List String) (headers : List (String × String))
      → AreLeft names headers
      → without py names headers ≡ headers
  unfolding without
  without-left names [] a = refl
  without-left names ((key, value) ∷ headers) a =
      rw (a.0, without) (ap (λ rest. (key, value) ∷ rest) (without-left names headers a.1))

  AreLeft-fewer :
      (names fewer : List String)
      → ((n : String) → is_one_of n names ≡ false → is_one_of n fewer ≡ false)
      → (headers : List (String × String)) → AreLeft names headers
      → AreLeft fewer headers
  AreLeft-fewer names fewer h [] a = tt
  AreLeft-fewer names fewer h ((key, value) ∷ headers) a =
      (h (lower key) a.0, AreLeft-fewer names fewer h headers a.1)

  abbrev forwarded_value : List String → String → Option String → Option String
  forwarded_value names name found = if is_one_of (lower name) names then none else found

  get_header-without :
      (names : List String) (name : String) (headers : List (String × String))
      → get_header py (without py names headers) name
        ≡ forwarded_value names name (get_header py headers name)
  unfolding without get_header
  get_header-without names name [] = ground arith
  get_header-without names name ((key, value) ∷ headers) =
      elim (Bool-cases (is_one_of (lower key) names)) [
        | inl e ↦
            rw (e, without, get_header)
              (elim (Bool-cases (str_eq (lower key) (lower name))) [
                | inl f ↦
                    let g : is_one_of (lower name) names ≡ true =
                      subst (λ n. is_one_of n names ≡ true)
                        (ground (arith, f, eq_iff (lower key) (lower name))) e in
                    get_header-without names name headers ∙ ground (arith, g)
                | inr f ↦ rw f (get_header-without names name headers)
              ])
        | inr e ↦
            rw (e, without, get_header)
              (elim (Bool-cases (str_eq (lower key) (lower name))) [
                | inl f ↦
                    let g : is_one_of (lower name) names ≡ false =
                      subst (λ n. is_one_of n names ≡ false)
                        (ground (arith, f, eq_iff (lower key) (lower name))) e in
                    ground (arith, f, g)
                | inr f ↦ rw f (get_header-without names name headers)
              ])
      ]

  unfoldable named : Bool → List String → List String
  named keep names =
      if keep
      then stripped_response_headers ++ names
      else (stripped_response_headers ++ names) ++ "content-encoding" ∷ []

  fewer-named :
      (keep : Bool) (names : List String) (n : String)
      → is_one_of n (named keep names) ≡ false
      → is_one_of n (named keep []) ≡ false
  unfolding named
  fewer-named true names n h = ground (
    arith,
    is_one_of-append n stripped_response_headers names,
    h,
    append-nil stripped_response_headers,
  )
  fewer-named false names n h = ground (
    arith,
    h,
    is_one_of-append n (stripped_response_headers ++ names) ("content-encoding" ∷ []),
    is_one_of-append n stripped_response_headers names,
    is_one_of-append n stripped_response_headers ("content-encoding" ∷ []),
  )

  -- one of the tokens, where empty ones do not count
  abbrev pub IsNamedBy : List String → String → Type 0
  IsNamedBy [] n = ⊥
  IsNamedBy (token ∷ rest) n = (¬ (strip token ≡ "") × (lower (strip token) ≡ n)) ⊎ IsNamedBy rest n

  -- what the Connection header names, if there is one
  abbrev pub IsConnectionNamed : Option String → String → Type 0
  IsConnectionNamed none n = ⊥
  IsConnectionNamed (some value) n = ¬ (value ≡ "") × IsNamedBy (split_commas value) n

  -- The names that are not forwarded, in lower case: those that never are, those that the Connection
  -- header names, and the encoding of a content that was decoded.
  abbrev pub IsStripped : Bool → List (String × String) → String → Type 0
  IsStripped keep headers n =
      IsText n stripped_response_headers
      ⊎ IsConnectionNamed (get_header py headers "connection") n
      ⊎ (keep ≡ false) × (n ≡ "content-encoding")

  tokens-IsNamedBy :
      (n : String) (ts : List String) → is_one_of n (tokens py ts) ≡ true → IsNamedBy ts n
  unfolding tokens is_one_of
  tokens-IsNamedBy n [] h = absurd (cc)
  tokens-IsNamedBy n (t ∷ ts) h = elim (Bool-cases (str_eq (strip t) "")) [
    | inl e ↦
        let same : tokens py (t ∷ ts) ≡ tokens py ts = rw (tokens, e) refl in
        inr (tokens-IsNamedBy n ts (ap (is_one_of n) (sym same) ∙ h))
    | inr e ↦
        let same : tokens py (t ∷ ts) ≡ lower (strip t) ∷ tokens py ts = rw (tokens, e) refl in
        let g : (str_eq (lower (strip t)) n || is_one_of n (tokens py ts)) ≡ true =
          ap (is_one_of n) (sym same) ∙ h in
        elim (Bool-cases (str_eq (lower (strip t)) n)) [
          | inl f ↦ inl (
            (λ k. ground (arith, e, k, eq_iff (strip t) "")),
            ground (arith, f, eq_iff (lower (strip t)) n),
          )
          | inr f ↦ inr (tokens-IsNamedBy n ts (ground (arith, f, g)))
        ]
  ]

  IsNamedBy-tokens :
      (n : String) (ts : List String) → IsNamedBy ts n → is_one_of n (tokens py ts) ≡ true
  unfolding tokens is_one_of
  IsNamedBy-tokens n [] h = elim h [ ]
  IsNamedBy-tokens n (t ∷ ts) h = elim (Bool-cases (str_eq (strip t) "")) [
    | inl e ↦ elim h [
      | inl k ↦ absurd (k.0 (ground (arith, e, eq_iff (strip t) "")))
      | inr k ↦ rw (tokens, e) (IsNamedBy-tokens n ts k)
    ]
    | inr e ↦ elim h [
      | inl k ↦
          let f : str_eq (lower (strip t)) n ≡ true =
            ground (arith, k.1, eq_iff (lower (strip t)) n) in
          rw (tokens, e, is_one_of, f) refl
      | inr k ↦ let f = IsNamedBy-tokens n ts k in rw (tokens, e, is_one_of) (ground (arith, f))
    ]
  ]

  connection-named :
      (n : String) (o : Option String) → is_one_of n (tokens_of py o) ≡ true → IsConnectionNamed o n
  unfolding is_one_of
  connection-named n none h = absurd (cc)
  connection-named n (some v) h = elim (Bool-cases (str_eq v "")) [
    | inl e ↦ let same : is_one_of n (tokens_of py (some v)) ≡ false = rw e refl in absurd (cc)
    | inr e ↦
        let same : tokens_of py (some v) ≡ tokens py (split_commas v) = rw e refl in
        (
          (λ k. ground (arith, e, k, eq_iff v "")),
          tokens-IsNamedBy n (split_commas v) (ap (is_one_of n) (sym same) ∙ h),
        )
  ]

  named-connection :
      (n : String) (o : Option String) → IsConnectionNamed o n → is_one_of n (tokens_of py o) ≡ true
  named-connection n none h = elim h [ ]
  named-connection n (some v) h = elim (Bool-cases (str_eq v "")) [
    | inl e ↦ absurd (h.0 (ground (arith, e, eq_iff v "")))
    | inr e ↦ rw e (IsNamedBy-tokens n (split_commas v) h.1)
  ]

  is_one_of-named :
      (keep : Bool) (names : List String) (n : String)
      → is_one_of n (named keep names) ≡ (
          is_one_of n stripped_response_headers
          || (is_one_of n names || (not keep && str_eq "content-encoding" n)))
  unfolding named is_one_of
  is_one_of-named true names n =
      is_one_of-append n stripped_response_headers names
      ∙ or_kept (is_one_of n stripped_response_headers) (is_one_of n names)
          (str_eq "content-encoding" n)
  is_one_of-named false names n =
      is_one_of-append n (stripped_response_headers ++ names) ("content-encoding" ∷ [])
      ∙ ap (λ b. b || (str_eq "content-encoding" n || false))
          (is_one_of-append n stripped_response_headers names)
      ∙ or_dropped (is_one_of n stripped_response_headers) (is_one_of n names)
          (str_eq "content-encoding" n)

  is_one_of-IsStripped :
      (keep : Bool) (headers : List (String × String)) (n : String)
      → is_one_of n (named keep (tokens_of py (get_header py headers "connection"))) ≡ true
      → IsStripped keep headers n
  is_one_of-IsStripped keep headers n h =
      let names = tokens_of py (get_header py headers "connection") in
      let g = sym (is_one_of-named keep names n) ∙ h in
      elim (Bool-cases (is_one_of n stripped_response_headers)) [
        | inl e ↦ inl (is_one_of-IsText n stripped_response_headers e)
        | inr e ↦ elim (Bool-cases (is_one_of n names)) [
          | inl f ↦ inr (inl (connection-named n (get_header py headers "connection") f))
          | inr f ↦
              inr (
                inr (ground (arith, e, f, g), ground (arith, e, f, g, eq_iff "content-encoding" n)))
        ]
      ]

  IsStripped-is_one_of :
      (keep : Bool) (headers : List (String × String)) (n : String)
      → IsStripped keep headers n
      → is_one_of n (named keep (tokens_of py (get_header py headers "connection"))) ≡ true
  IsStripped-is_one_of keep headers n h =
      let names = tokens_of py (get_header py headers "connection") in
      is_one_of-named keep names n ∙ (elim h [
        | inl k ↦ ground (arith, IsText-is_one_of n stripped_response_headers k)
        | inr k ↦ elim k [
          | inl l ↦ ground (arith, named-connection n (get_header py headers "connection") l)
          | inr l ↦ ground (arith, l.0, l.1, eq_iff "content-encoding" n)
        ]
      ])

  -- what is forwarded of a header
  abbrev pub Forwards : Bool → List (String × String) → List (String × String) → String → Type 0
  Forwards keep headers forwarded name =
      IsStripped keep headers (lower name) × (get_header py forwarded name ≡ none)
      ⊎ ¬ (IsStripped keep headers (lower name))
        × (get_header py forwarded name ≡ get_header py headers name)

  -- A header is dropped when its name in lower case is one that is never forwarded, or a token of the
  -- Connection header, or content-encoding when that is not kept; any other header is forwarded with
  -- its value. A second pass strips nothing more, given that `connection` is in lower case.
  pub filter_response_headers_lem :
      (keep_content_encoding : Bool) (headers : List (String × String)) (name : String)
      → lower "connection" ≡ "connection"
      → let forwarded = filter_response_headers py keep_content_encoding headers in
        Forwards keep_content_encoding headers forwarded name
        × (filter_response_headers py keep_content_encoding forwarded ≡ forwarded)
  unfolding filter_response_headers stripped connection_named_headers named
  filter_response_headers_lem keep headers name low =
      let conn = connection_named_headers py headers in
      let left = without-AreLeft (named keep conn) headers in
      let forwarded = without py (named keep conn) headers in
      let listed : (k : Bool) → is_one_of (lower "connection") (named k conn) ≡ true =
        λ k. has_connection k conn in
      let gone : get_header py forwarded "connection" ≡ none =
        get_header-without (named keep conn) "connection" headers
        ∙ ap (λ b. if b then none else get_header py headers "connection") (listed keep) in
      (
        forwards (get_header-without (named keep conn) name headers),
        subst (λ names. without py (named keep names) forwarded ≡ forwarded)
            (sym (ap (tokens_of py) gone))
            (without-left (named keep []) forwarded (
              AreLeft-fewer (named keep conn) (named keep []) (fewer-named keep conn) forwarded
                left)),
      )
    where
      forwards :
          get_header py
              (without py (named keep (tokens_of py (get_header py headers "connection"))) headers)
              name
            ≡ forwarded_value
                (named keep (tokens_of py (get_header py headers "connection")))
                name
                (get_header py headers name)
          → Forwards keep headers
              (without py (named keep (tokens_of py (get_header py headers "connection"))) headers)
              name
      forwards h =
          let names = named keep (tokens_of py (get_header py headers "connection")) in
          elim (Bool-cases (is_one_of (lower name) names)) [
            | inl e ↦ inl (
              is_one_of-IsStripped keep headers (lower name) e,
              h ∙ ap (λ b. if b then none else get_header py headers name) e,
            )
            | inr e ↦ inr (
              (λ k. let f = IsStripped-is_one_of keep headers (lower name) k in absurd (cc)),
              h ∙ ap (λ b. if b then none else get_header py headers name) e,
            )
          ]

      has_connection :
          (k : Bool) (names : List String) → is_one_of (lower "connection") (named k names) ≡ true
      has_connection true names = rw low refl
      has_connection false names = rw low refl
