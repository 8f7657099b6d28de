-- ===== src/Engine/Keeping.antt =====
-- A property of all candidates stays true of what each step of the engine keeps.
use mathlib.Core.Path.{subst}
use mathlib.Core.List.{reverse_aux}
use low_context_inference.Base.{
  ℕ, ◌+◌, ◌≡◌, inl, inr, Bool, ◌||◌, leb, some, String, str_eq, List, [], ◌∷◌, ◌++◌, ltb,
  Bool-cases, Option-cases, All, arith,
}
use low_context_inference.Engine.{
  Candidate, is_request, is_recent, is_tools, is_raw, tier_by_source, pinned, fit_recent, by_key,
  sort_tiers, Tiers, DroppedCandidate, DropReason, drop_as, filter_out, deduplicate_from, see_raw,
  contains, duplicate,
}
use low_context_inference.Engine.Allocation.{pack, without_request, first_request}

module _ (P : Candidate → Type 0) where
  pub All-append : (xs ys : List Candidate) → All P xs → All P ys → All P (xs ++ ys)
  All-append [] ys a b = b
  All-append (x ∷ xs) ys a b = (a.0, All-append xs ys a.1 b)

  pub All-reverse : (xs ys : List Candidate) → All P xs → All P ys → All P (reverse_aux xs ys)
  All-reverse [] ys a b = b
  All-reverse (x ∷ xs) ys a b = All-reverse xs (x ∷ ys) a.1 (a.0, b)

  pub filter_out-All :
      (test : Candidate → Bool) (reason : DropReason) (cs : List Candidate)
      (dropped : List DroppedCandidate)
      → All P cs
      → All P (filter_out test reason cs dropped).0
  unfolding filter_out
  filter_out-All test reason [] dropped a = tt
  filter_out-All test reason (c ∷ cs) dropped a = elim (Bool-cases (test c)) [
    | inl e ↦ rw (e, filter_out) (filter_out-All test reason cs _ a.1)
    | inr e ↦ rw (e, filter_out) (a.0, filter_out-All test reason cs dropped a.1)
  ]

  pub deduplicate_from-All :
      (raw seen : List String) (cs : List Candidate) (duplicates : List DroppedCandidate)
      → All P cs
      → All P (deduplicate_from raw seen cs duplicates).0
  unfolding deduplicate_from
  deduplicate_from-All raw seen [] duplicates a = tt
  deduplicate_from-All raw seen (c ∷ cs) duplicates a = elim (Bool-cases (is_raw c)) [
    | inl e ↦
        rw (e, deduplicate_from) (a.0, deduplicate_from-All (see_raw c raw) seen cs duplicates a.1)
    | inr e ↦ elim (Bool-cases (str_eq c.dedup_text "")) [
      | inl f ↦ rw (e, f, deduplicate_from) (a.0, deduplicate_from-All raw seen cs duplicates a.1)
      | inr f ↦ elim (Bool-cases (contains c.dedup_text raw || contains c.dedup_text seen)) [
        | inl g ↦
            rw (e, f, g, deduplicate_from)
              (deduplicate_from-All raw seen cs (drop_as duplicate c duplicates) a.1)
        | inr g ↦
            rw (e, f, g, deduplicate_from)
              (a.0, deduplicate_from-All raw (c.dedup_text ∷ seen) cs duplicates a.1)
      ]
    ]
  ]

  abbrev pub AllTiers : Tiers → Type 0
  AllTiers t = All P t.mandatory × All P t.recent × All P t.retrieval

  pub sort_tiers-All : (cs : List Candidate) → All P cs → AllTiers (sort_tiers cs)
  unfolding sort_tiers
  sort_tiers-All [] a = (tt, tt, tt)
  sort_tiers-All (c ∷ cs) a =
      let (m, r, t) = sort_tiers-All cs a.1 in
      elim (Bool-cases (is_tools c.source)) [
        | inl e ↦ rw (e, sort_tiers) (m, r, t)
        | inr e ↦ elim (Bool-cases (leb c.tier (tier_by_source pinned) || is_request c.source)) [
          | inl f ↦ rw (e, f, sort_tiers) ((a.0, m), r, t)
          | inr f ↦ elim (Bool-cases (is_recent c.source)) [
            | inl g ↦ rw (e, f, g, sort_tiers) (m, (a.0, r), t)
            | inr g ↦ rw (e, f, g, sort_tiers) (m, r, (a.0, t))
          ]
        ]
      ]

  pub fit_recent-All :
      (remaining used : ℕ) (cs : List Candidate) → All P cs → All P (fit_recent remaining used cs).0
  unfolding fit_recent
  fit_recent-All remaining used [] a = tt
  fit_recent-All remaining used (c ∷ cs) a = elim (Bool-cases (ltb remaining (used + c.tokens))) [
    | inl e ↦ rw (e, fit_recent) tt
    | inr e ↦ rw (e, fit_recent) (a.0, fit_recent-All remaining (used + c.tokens) cs a.1)
  ]

  by_key-All :
      (key : String) (cs : List Candidate) (c : Candidate) → All P cs → by_key key cs ≡ some c → P c
  unfolding by_key
  by_key-All key [] c a e = ground arith
  by_key-All key (x ∷ xs) c a e = elim (Option-cases (by_key key xs)) [
    | inr (y, f) ↦ by_key-All key xs c a.1 (ground (arith, e, f))
    | inl f ↦ subst P (ground (arith, e, f)) a.0
  ]

  pub pack-All :
      (cap : ℕ) (retrieval : List Candidate) (ranks : List String) (used : ℕ)
      (dropped : List DroppedCandidate)
      → All P retrieval
      → All P (pack cap retrieval ranks used dropped).picked
  unfolding pack
  pack-All cap retrieval [] used dropped a = tt
  pack-All cap retrieval (key ∷ ranks) used dropped a = elim (Option-cases (by_key key retrieval)) [
    | inl e ↦ rw (e, pack) (pack-All cap retrieval ranks used dropped a)
    | inr (c, e) ↦ elim (Bool-cases (ltb cap (used + c.tokens))) [
      | inl f ↦ rw (e, pack, f) (pack-All cap retrieval ranks used _ a)
      | inr f ↦
          rw (e, pack, f)
            (
              by_key-All key retrieval c a e,
              pack-All cap retrieval ranks (used + c.tokens) dropped a,
            )
    ]
  ]

  pub without_request-All : (cs : List Candidate) → All P cs → All P (without_request cs)
  unfolding without_request
  without_request-All [] a = tt
  without_request-All (c ∷ cs) a = elim (Bool-cases (is_request c.source)) [
    | inl e ↦ rw (e, without_request) a.1
    | inr e ↦ rw (e, without_request) (a.0, without_request-All cs a.1)
  ]

  pub first_request-All : (cs : List Candidate) → All P cs → All P (first_request cs)
  unfolding first_request
  first_request-All [] a = tt
  first_request-All (c ∷ cs) a = elim (Bool-cases (is_request c.source)) [
    | inl e ↦ rw (e, first_request) (a.0, tt)
    | inr e ↦ rw (e, first_request) (first_request-All cs a.1)
  ]
