-- ===== src/Capture/Limit.antt =====
-- What a capture with a limit keeps of a stream.
use low_context_inference.Base.{
  ℕ, ◌+◌, ◌≡◌, refl, sym, ap, ◌∙◌, Bool, true, false, Option, none, some, List, [], ◌∷◌, ◌++◌,
  if◌then◌else◌, length, length-append, append-nil, append_assoc, arith, ltb→ge, ge→ltb, Bool-cases,
  inl, inr,
}
use low_context_inference.Json.{end}
use low_context_inference.Capture.{Streams, AssistantCapture, init, feed, is_over}
use low_context_inference.Capture.Stream.{feed_all, called, finish, iter_bytes}

abbrev pub concat : List (List ℕ) → List ℕ
concat [] = []
concat (chunk ∷ chunks) = chunk ++ concat chunks

is_over_grows :
    (limit : Option ℕ) (n k : ℕ) → is_over limit (n + k) ≡ false → is_over limit n ≡ false
is_over_grows none n k h = refl
is_over_grows (some m) n k h = ge→ltb m n (omega (arith, ltb→ge m (n + k) h))

module _ (limit : Option ℕ) where
  feed_all_full :
      (chunks : List (List ℕ)) (c : AssistantCapture)
      → c.overflowed ≡ true
      → (feed_all limit chunks c).overflowed ≡ true
  unfolding feed_all feed
  feed_all_full [] c h = h
  feed_all_full (chunk ∷ chunks) c h = feed_all_full chunks (feed limit chunk c) (rw (feed, h) refl)

  pub feed_all_within :
      (chunks : List (List ℕ)) (c : AssistantCapture)
      → c.overflowed ≡ false
      → is_over limit (length c.buffer + length (concat chunks)) ≡ false
      → feed_all limit chunks c ≡ record c { buffer = c.buffer ++ concat chunks }
  unfolding feed_all feed
  feed_all_within [] c h w = ap (λ b. record c { buffer = b }) (sym (append-nil c.buffer))
  feed_all_within (chunk ∷ chunks) c h w =
      let e : length c.buffer + length (chunk ++ concat chunks)
          ≡ length c.buffer + length chunk + length (concat chunks) =
        omega (arith, length-append chunk (concat chunks)) in
      let f : length (c.buffer ++ chunk) + length (concat chunks)
          ≡ length c.buffer + length chunk + length (concat chunks) =
        omega (arith, length-append c.buffer chunk) in
      let v = ap (is_over limit) (sym e) ∙ w in
      let step : feed limit chunk c ≡ record c { buffer = c.buffer ++ chunk } =
        rw
          (feed, h, is_over_grows limit (length c.buffer + length chunk) (length (concat chunks)) v)
          refl in
      ap (feed_all limit chunks) step
      ∙ feed_all_within chunks (record c { buffer = c.buffer ++ chunk }) h
          (ap (is_over limit) f ∙ v)
      ∙ ap (λ b. record c { buffer = b }) (append_assoc c.buffer chunk (concat chunks))

  feed_all_over :
      (chunks : List (List ℕ)) (c : AssistantCapture)
      → is_over limit (length c.buffer) ≡ false
      → is_over limit (length c.buffer + length (concat chunks)) ≡ true
      → (feed_all limit chunks c).overflowed ≡ true
  unfolding feed_all feed
  feed_all_over [] c l h =
      let e : length c.buffer + 0 ≡ length c.buffer = omega arith in
      ground (arith, l, ap (is_over limit) e, h)
  feed_all_over (chunk ∷ chunks) c l h = elim (Bool-cases c.overflowed) [
    | inl o ↦ feed_all_full chunks (feed limit chunk c) (rw (feed, o) refl)
    | inr o ↦ elim (Bool-cases (is_over limit (length c.buffer + length chunk))) [
      | inl w ↦ feed_all_full chunks (feed limit chunk c) (rw (feed, o, w) refl)
      | inr w ↦
          let f : length (c.buffer ++ chunk) ≡ length c.buffer + length chunk =
            length-append c.buffer chunk in
          let g : length (c.buffer ++ chunk) + length (concat chunks)
              ≡ length c.buffer + length (chunk ++ concat chunks) =
            omega (arith, f, length-append chunk (concat chunks)) in
          let step : feed limit chunk c ≡ record c { buffer = c.buffer ++ chunk } =
            rw (feed, o, w) refl in
          ap (λ s. (feed_all limit chunks s).overflowed) step
          ∙ feed_all_over chunks (record c { buffer = c.buffer ++ chunk })
              (ap (is_over limit) f ∙ w) (ap (is_over limit) g ∙ h)
    ]
  ]

is_over_zero : (limit : Option ℕ) → is_over limit 0 ≡ false
is_over_zero none = refl
is_over_zero (some m) = ge→ltb m 0 (omega arith)

pub plus_zero :
    (limit : Option ℕ) (chunks : List (List ℕ))
    → is_over limit (0 + length (concat chunks)) ≡ is_over limit (length (concat chunks))
plus_zero limit chunks =
    let e : 0 + length (concat chunks) ≡ length (concat chunks) = omega arith in
    ap (is_over limit) e

-- What is persisted of a stream that ended does not depend on how it was cut into chunks: nothing, and
-- no metadata, if it is longer than the limit, and otherwise what its bytes come to in one chunk.
-- Of a stream that did not end nothing is persisted.
pub iter_bytes_chunks :
    (py : Streams) (limit : Option ℕ) (chunks : List (List ℕ)) (completed : Bool)
    → (iter_bytes py limit chunks completed).finished ≡ (
        if completed
        then (if is_over limit (length (concat chunks))
            then called none end
            else (iter_bytes py none (concat chunks ∷ []) true).finished)
        else called none end)
unfolding iter_bytes finish
iter_bytes_chunks py limit chunks false = refl
iter_bytes_chunks py limit chunks true =
    elim (Bool-cases (is_over limit (length (concat chunks)))) [
      | inl o ↦
          rw (o, feed_all_over limit chunks init (is_over_zero limit) (plus_zero limit chunks ∙ o))
            refl
      | inr w ↦
          rw
            (
              w,
              feed_all_within limit chunks init refl (plus_zero limit chunks ∙ w),
              feed_all_within none (concat chunks ∷ []) init refl refl,
              append-nil (concat chunks),
            )
            refl
    ]
