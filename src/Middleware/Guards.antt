-- ===== src/Middleware/Guards.antt =====
-- What must hold before `__call__` of src/context_proxy/observability/middleware.py calls the
-- application, and what the application can receive then.
use mathlib.Core.Path.{subst}
use low_context_inference.Base.{
  ℕ, ◌+◌, ◌≤◌, ◌≡◌, ◌⊎◌, inl, inr, ltb, ltb→ge, any, str_eq, eq_iff, Bool-cases, Option-cases, refl,
  sym, ap, ◌∙◌, Bool, true, false, Option, none, some, String, List, [], ◌∷◌, ◌++◌, append_assoc,
  length, arith,
}
use low_context_inference.Limiter.{AdmissionDecision, allowed, refused}
use low_context_inference.Middleware.{
  Incoming, request, disconnect, other_type, Outgoing, Scope, header, Drained, ok, oversized,
  disconnected, waits, drain_body, sanitize_request_id, normalize_route, client_host,
  rate_limit_exempt_routes,
}
use low_context_inference.Middleware.Body.{
  requests, body_size, IsOpen, Accounts, drain_body-Accounts,
}
use low_context_inference.Middleware.Call.{
  Library, Ended, finished, broken, interrupted, Progress, nothing_sent, send_each, app_ended,
  run_app, drained, after_drain, application, decided, decision, is_too_large, checked, http_call,
  or_fresh, is_limited, named,
}

requests-append : (xs ys : List Incoming) → requests (xs ++ ys) ≡ requests xs ++ requests ys
requests-append [] ys = refl
requests-append (request body more ∷ xs) ys =
    ap (λ r. request body more ∷ r) (requests-append xs ys)
requests-append (disconnect ∷ xs) ys = requests-append xs ys
requests-append (other_type ∷ xs) ys = requests-append xs ys

requests-requests : (xs : List Incoming) → requests (requests xs) ≡ requests xs
requests-requests [] = refl
requests-requests (request body more ∷ xs) = ap (λ r. request body more ∷ r) (requests-requests xs)
requests-requests (disconnect ∷ xs) = requests-requests xs
requests-requests (other_type ∷ xs) = requests-requests xs

-- What the application can receive, of the messages that there are: with a Content-Length, these;
-- without one, first a whole body within the cap, and no message of a body is lost.
abbrev pub Receives : ℕ → Option String → List Incoming → List Incoming → Type 0
Receives cap (some content_length) ms received = received ≡ ms
Receives cap none ms received =
    (read : List Incoming) × (body : List ℕ) × (left : List Incoming) × (received
      ≡ requests read ++ request body false ∷ left)
    × IsOpen read
    × (body_size read + length body ≤ cap)
    × (requests received ≡ requests ms)

buffered-Receives :
    (cap : ℕ) (ms buffered left : List Incoming)
    → Accounts cap 0 [] ms (ok buffered, left)
    → Receives cap none ms (buffered ++ left)
buffered-Receives cap ms buffered left (read, body, e, o, f, g) =
    let joined : buffered ++ left ≡ requests read ++ request body false ∷ left =
      rw f (append_assoc (requests read) (request body false ∷ []) left) in
    let kept : requests (buffered ++ left) ≡ requests ms =
      ap requests joined
      ∙ requests-append (requests read) (request body false ∷ left)
      ∙ ap (λ xs. xs ++ request body false ∷ requests left) (requests-requests read)
      ∙ sym (requests-append read (request body false ∷ left))
      ∙ ap requests (sym e) in
    (read, body, left, joined, o, omega (arith, g), kept)

module _ {L : Type 0} (lib : Library) (app : List Incoming → List Outgoing × Ended)
    (admit : String → Option String → L → L × AdmissionDecision) (enabled : Bool) (cap : ℕ) where
  app_ended-received :
      (scope : Scope) (l : L) (received : List Incoming) (ended : Ended) (p : Progress)
      → (app_ended lib app admit enabled cap scope l received ended p).received ≡ some received
  app_ended-received scope l received finished p = refl
  app_ended-received scope l received broken p = refl
  app_ended-received scope l received interrupted p = refl

  run_app-received :
      (scope : Scope) (id : String) (l : L) (ms received : List Incoming)
      → (run_app lib app admit enabled cap scope id l ms).received ≡ some received
      → ms ≡ received
  run_app-received scope id l ms received h =
      let e : some ms ≡ some received =
        sym (app_ended-received scope l ms (app ms).1 (send_each id nothing_sent (app ms).0)) ∙ h in
      cc

  after_drain-Receives :
      (scope : Scope) (id : String) (l : L) (ms received : List Incoming)
      (r : Drained × List Incoming)
      → Accounts cap 0 [] ms r
      → (after_drain lib app admit enabled cap scope id l r).received ≡ some received
      → Receives cap none ms received
  after_drain-Receives scope id l ms received (ok buffered, left) a h =
      subst (Receives cap none ms) (run_app-received scope id l (buffered ++ left) received h)
        (buffered-Receives cap ms buffered left a)
  after_drain-Receives scope id l ms received (oversized, left) a h = absurd (cc)
  after_drain-Receives scope id l ms received (disconnected, left) a h = absurd (cc)
  after_drain-Receives scope id l ms received (waits, left) a h = absurd (cc)

  application-Receives :
      (scope : Scope) (id : String) (l : L) (ms received : List Incoming) (cl : Option String)
      → (application lib app admit enabled cap scope id l ms cl).received ≡ some received
      → Receives cap cl ms received
  unfolding drained
  application-Receives scope id l ms received none h =
      after_drain-Receives scope id l ms received (drain_body cap ms) (drain_body-Accounts cap ms) h
  application-Receives scope id l ms received (some cl) h =
      sym (run_app-received scope id l ms received h)

  decided-Receives :
      (scope : Scope) (id : String) (ms received : List Incoming) (d : L × AdmissionDecision)
      → (decided lib app admit enabled cap scope id ms d).received ≡ some received
      → (d.1 ≡ allowed) × Receives cap (header scope "content-length") ms received
  decided-Receives scope id ms received (l, allowed) h =
      (refl, application-Receives scope id l ms received (header scope "content-length") h)
  decided-Receives scope id ms received (l, refused dimension retry_after) h = absurd (cc)

  abbrev Admitted : Scope → L → List Incoming → List Incoming → Option Bool → Type 0
  Admitted scope l ms received large =
      (large ≡ some false)
      × ((decision lib app admit enabled cap scope l).1 ≡ allowed)
      × Receives cap (header scope "content-length") ms received

  checked-Admitted :
      (scope : Scope) (id : String) (l : L) (ms received : List Incoming) (large : Option Bool)
      → (checked lib app admit enabled cap scope id l ms large).received ≡ some received
      → Admitted scope l ms received large
  unfolding checked
  checked-Admitted scope id l ms received none h = absurd (cc)
  checked-Admitted scope id l ms received (some true) h = absurd (cc)
  checked-Admitted scope id l ms received (some false) h =
      let (a, b) =
        decided-Receives scope id ms received (decision lib app admit enabled cap scope l) h in
      (refl, a, b)

  -- what a Content-Length must be
  abbrev pub IsWithin : Option String → Type 0
  IsWithin none = Unit
  IsWithin (some value) =
      (lib.is_digit value ≡ false) ⊎ ((n : ℕ) × (lib.int_of value ≡ some n) × (n ≤ cap))

  abbrev pub IsExempt : String → Type 0
  IsExempt route = (route ≡ "/healthz") ⊎ (route ≡ "/readyz") ⊎ (route ≡ "/metrics")

  -- The limiter is off, does not apply to the route, or lets the client and the conversation through.
  abbrev pub IsLetThrough : Scope → L → Type 0
  IsLetThrough scope l =
      (enabled ≡ false)
      ⊎ IsExempt (normalize_route scope.path)
      ⊎ ((admit (client_host scope) (named (header scope "x-conversation-id")) l).1 ≡ allowed)

  is_too_large-IsWithin :
      (cl : Option String) → is_too_large lib app admit enabled cap cl ≡ some false → IsWithin cl
  unfolding is_too_large
  is_too_large-IsWithin none h = tt
  is_too_large-IsWithin (some v) h = elim (Bool-cases (lib.is_digit v)) [
    | inr e ↦ inl e
    | inl e ↦ elim (Option-cases (lib.int_of v)) [
      | inl f ↦
          let same : is_too_large lib app admit enabled cap (some v) ≡ none =
            rw (is_too_large, e, f) refl in
          absurd (cc)
      | inr (n, f) ↦
          let same : is_too_large lib app admit enabled cap (some v) ≡ some (ltb cap n) =
            rw (is_too_large, e, f) refl in
          inr (n, f, ltb→ge cap n (ground (arith, h, same)))
    ]
  ]

  exempt : (route : String) → any (str_eq route) rate_limit_exempt_routes ≡ true → IsExempt route
  exempt route h =
      ground (arith, h, eq_iff route "/healthz", eq_iff route "/readyz", eq_iff route "/metrics")

  decision-IsLetThrough :
      (scope : Scope) (l : L)
      → (decision lib app admit enabled cap scope l).1 ≡ allowed
      → IsLetThrough scope l
  unfolding decision is_limited
  decision-IsLetThrough scope l h = elim (Bool-cases enabled) [
    | inr e ↦ inl e
    | inl e ↦
        elim (Bool-cases (any (str_eq (normalize_route scope.path)) rate_limit_exempt_routes)) [
          | inl f ↦ inr (inl (exempt (normalize_route scope.path) f))
          | inr f ↦
              let limited : is_limited lib app admit enabled cap scope ≡ true =
                rw (is_limited, e, f) refl in
              let same : (decision lib app admit enabled cap scope l).1
                  ≡ (admit (client_host scope) (named (header scope "x-conversation-id")) l).1 =
                rw (decision, limited) refl in
              inr (inr (sym same ∙ h))
        ]
  ]

  -- The application is called for a request over HTTP only if the Content-Length, where it is there
  -- and all digits, is within the cap, and the rate limiter is off, the route is /healthz, /readyz or
  -- /metrics, or the limiter lets the client and the named conversation through. Without a Content-Length, the application can receive first a whole body within the
  -- cap, and no message of a body is lost or moved; with one, which may be no number, what it can
  -- receive is all that there is, however much that is.
  pub http_call-Admitted :
      (scope : Scope) (fresh : String) (l : L) (ms received : List Incoming)
      → (http_call lib app admit enabled cap scope fresh l ms).received ≡ some received
      → IsWithin (header scope "content-length")
        × IsLetThrough scope l
        × Receives cap (header scope "content-length") ms received
  unfolding http_call
  http_call-Admitted scope fresh l ms received h =
      let (large, let_through, receives) =
        checked-Admitted scope (or_fresh (sanitize_request_id (header scope "x-request-id")) fresh)
          l ms received (is_too_large lib app admit enabled cap (header scope "content-length"))
          h in
      (
        is_too_large-IsWithin (header scope "content-length") large,
        decision-IsLetThrough scope l let_through,
        receives,
      )
