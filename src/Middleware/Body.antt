-- ===== src/Middleware/Body.antt =====
-- What `_drain_body` of src/context_proxy/observability/middleware.py reads.
use low_context_inference.Base.{
  ℕ, ◌+◌, ◌≤◌, ◌<◌, ◌≡◌, refl, ap, ◌∙◌, Bool, true, false, List, [], ◌∷◌, ◌++◌, append_assoc, ltb,
  if◌then◌else◌, length, arith, Bool-cases, inl, inr, ltb→lt, ltb→ge,
}
use low_context_inference.Middleware.{
  Incoming, request, disconnect, other_type, Drained, ok, oversized, disconnected, waits,
  drain_from, drain_body,
}

-- the messages that carry the body
abbrev pub requests : List Incoming → List Incoming
requests [] = []
requests (request body more ∷ ms) = request body more ∷ requests ms
requests (m ∷ ms) = requests ms

abbrev pub body_size : List Incoming → ℕ
body_size [] = 0
body_size (request body more ∷ ms) = length body + body_size ms
body_size (m ∷ ms) = body_size ms

-- nothing here ends the body or the connection
abbrev pub IsOpen : List Incoming → Type 0
IsOpen [] = Unit
IsOpen (request body more ∷ ms) = (more ≡ true) × IsOpen ms
IsOpen (other_type ∷ ms) = IsOpen ms
IsOpen (disconnect ∷ ms) = ⊥

-- What was read, from `total` bytes on, goes up to one message that decides, or to the end.
abbrev pub Accounts : ℕ → ℕ → List Incoming → List Incoming → Drained × List Incoming → Type 0
Accounts cap total buffered ms (ok all, left) =
    (read : List Incoming) × (body : List ℕ) × (ms ≡ read ++ request body false ∷ left)
    × IsOpen read
    × (all ≡ buffered ++ (requests read ++ request body false ∷ []))
    × (total + body_size read + length body ≤ cap)
Accounts cap total buffered ms (oversized, left) =
    (read : List Incoming) × (body : List ℕ) × (more : Bool) × (ms
      ≡ read ++ request body more ∷ left)
    × IsOpen read
    × (total + body_size read ≤ cap)
    × (cap < total + body_size read + length body)
Accounts cap total buffered ms (disconnected, left) =
    (read : List Incoming) × (ms ≡ read ++ disconnect ∷ left)
    × IsOpen read
    × (total + body_size read ≤ cap)
Accounts cap total buffered ms (waits, left) =
    (left ≡ []) × IsOpen ms × (total + body_size ms ≤ cap)

Accounts-other :
    (cap total : ℕ) (buffered ms : List Incoming) (r : Drained × List Incoming)
    → Accounts cap total buffered ms r
    → Accounts cap total buffered (other_type ∷ ms) r
Accounts-other cap total buffered ms (ok all, left) (read, body, e, o, f, g) =
    (other_type ∷ read, body, ap (λ xs. other_type ∷ xs) e, o, f, g)
Accounts-other cap total buffered ms (oversized, left) (read, body, more, e, o, f, g) =
    (other_type ∷ read, body, more, ap (λ xs. other_type ∷ xs) e, o, f, g)
Accounts-other cap total buffered ms (disconnected, left) (read, e, o, f) =
    (other_type ∷ read, ap (λ xs. other_type ∷ xs) e, o, f)
Accounts-other cap total buffered ms (waits, left) (e, o, f) = (e, o, f)

Accounts-more :
    (cap total : ℕ) (buffered ms : List Incoming) (body : List ℕ) (r : Drained × List Incoming)
    → Accounts cap (total + length body) (buffered ++ request body true ∷ []) ms r
    → Accounts cap total buffered (request body true ∷ ms) r
Accounts-more cap total buffered ms b (ok all, left) (read, body, e, o, f, g) = (
  request b true ∷ read,
  body,
  ap (λ xs. request b true ∷ xs) e,
  (refl, o),
  f ∙ append_assoc buffered (request b true ∷ []) (requests read ++ request body false ∷ []),
  omega (arith, g),
)
Accounts-more cap total buffered ms b (oversized, left) (read, body, more, e, o, f, g) = (
  request b true ∷ read,
  body,
  more,
  ap (λ xs. request b true ∷ xs) e,
  (refl, o),
  omega (arith, f),
  omega (arith, g),
)
Accounts-more cap total buffered ms b (disconnected, left) (read, e, o, f) =
    (request b true ∷ read, ap (λ xs. request b true ∷ xs) e, (refl, o), omega (arith, f))
Accounts-more cap total buffered ms b (waits, left) (e, o, f) = (e, (refl, o), omega (arith, f))

-- a message within the cap, where `rest` is what the loop does after it
Accounts-fits :
    (cap total : ℕ) (buffered ms : List Incoming) (body : List ℕ) (more : Bool)
    (rest : Drained × List Incoming)
    → total + length body ≤ cap
    → Accounts cap (total + length body) (buffered ++ request body more ∷ []) ms rest
    → Accounts cap total buffered
        (request body more ∷ ms)
        (if more then rest else (ok (buffered ++ request body more ∷ []), ms))
Accounts-fits cap total buffered ms body true rest h a =
    Accounts-more cap total buffered ms body rest a
Accounts-fits cap total buffered ms body false rest h a =
    ([], body, refl, tt, refl, omega (arith, h))

drain_from-Accounts :
    (cap total : ℕ) (buffered ms : List Incoming)
    → total ≤ cap
    → Accounts cap total buffered ms (drain_from cap total buffered ms)
unfolding drain_from
drain_from-Accounts cap total buffered [] h = (refl, tt, omega (arith, h))
drain_from-Accounts cap total buffered (disconnect ∷ ms) h = ([], refl, tt, omega (arith, h))
drain_from-Accounts cap total buffered (other_type ∷ ms) h =
    Accounts-other cap total buffered ms (drain_from cap total buffered ms)
      (drain_from-Accounts cap total buffered ms h)
drain_from-Accounts cap total buffered (request body more ∷ ms) h =
    elim (Bool-cases (ltb cap (total + length body))) [
      | inl e ↦
          let over : cap < total + length body = ltb→lt cap (total + length body) e in
          rw e ([], body, more, refl, tt, omega (arith, h), omega (arith, over))
      | inr e ↦
          let fits : total + length body ≤ cap = ltb→ge cap (total + length body) e in
          let all = buffered ++ request body more ∷ [] in
          rw e (
            Accounts-fits cap total buffered ms body more
              (drain_from cap (total + length body) all ms) fits
              (drain_from-Accounts cap (total + length body) all ms fits))
    ]

-- Reading a request's body stops at the first message that decides. The body is complete and within
-- the cap, and exactly its messages are buffered; or the message that goes over the cap was read, and
-- none after it; or the client went away before the end of a body that was within the cap; or
-- `receive` never returns, after part of such a body.
pub drain_body-Accounts :
    (max_body_bytes : ℕ) (ms : List Incoming)
    → Accounts max_body_bytes 0 [] ms (drain_body max_body_bytes ms)
unfolding drain_body
drain_body-Accounts max_body_bytes ms = drain_from-Accounts max_body_bytes 0 [] ms (omega arith)
