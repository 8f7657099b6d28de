-- ===== src/Tokens/Flat.antt =====
-- The estimates: a text costs a quarter of its characters, an image part the same whatever its
-- payload, and messages add up.
use low_context_inference.Base.{
  ℕ, zero, suc, ◌+◌, ◌*◌, ◌≤◌, ◌<◌, ◌≡◌, refl, Option, none, some, List, [], ◌∷◌, ◌++◌, arith, ap,
}
use low_context_inference.Json.{Value, str, obj, Fields, get, of_list}
use low_context_inference.Tokens.{tokens_of_length, parts, part_tokens, messages, message}
use low_context_inference.Runtime.{Runtime}
use low_context_inference.Store.{◌>>=◌}

-- A text of `n` characters costs the least number of tokens that four characters each can hold.
tokens_of_length_ceil : (n : ℕ) → (n ≤ 4 * tokens_of_length n) × (4 * tokens_of_length n < n + 4)
unfolding tokens_of_length
tokens_of_length_ceil zero = (omega arith, omega arith)
tokens_of_length_ceil (suc n) = (omega arith, omega arith)

abbrev both : Option ℕ → Option ℕ → Option ℕ
both a b = do m ← a; n ← b; some (m + n)

zero-both : (a : Option ℕ) → a ≡ both (some 0) a
zero-both none = refl
zero-both (some n) = ap some (omega arith)

both_assoc : (a b c : Option ℕ) → both a (both b c) ≡ both (both a b) c
both_assoc none b c = refl
both_assoc (some a) none c = refl
both_assoc (some a) (some b) none = refl
both_assoc (some a) (some b) (some c) = ap some (omega arith)

-- The estimate of a history is that of its two parts together, or fails if one of them fails.
messages-append :
    (py : Runtime) (xs ys : List Fields)
    → messages py (xs ++ ys) ≡ both (messages py xs) (messages py ys)
unfolding messages
messages-append py [] ys = zero-both (messages py ys)
messages-append py (m ∷ xs) ys =
    rw (messages-append py xs ys) (both_assoc (message py m) (messages py xs) (messages py ys))

image_part :
    (image : Fields) → get image "type" ≡ str "image_url" → part_tokens (obj image) ≡ some 1024
unfolding part_tokens
image_part image h = rw (h, part_tokens)

-- The payload of an image never counts: two contents that differ in the payload of an image part
-- cost the same.
image_flat :
    (before after : List Value) (image image' : Fields)
    → get image "type" ≡ str "image_url"
    → get image' "type" ≡ str "image_url"
    → parts (of_list (before ++ obj image ∷ after)) ≡ parts (of_list (before ++ obj image' ∷ after))
unfolding parts
image_flat [] after image image' h h' = rw (image_part image h, image_part image' h')
image_flat (v ∷ before) after image image' h h' = rw (image_flat before after image image' h h')
