-- ===== src/Middleware/Accounting.antt =====
-- What `__call__` of src/context_proxy/observability/middleware.py counts.
use low_context_inference.Base.{
  ℕ, ◌≡◌, refl, sym, ap, ◌∙◌, Bool, true, false, Option, none, some, String, ◌<>◌, List, [], ◌∷◌,
  ◌++◌, is_some, Option-cases, inl, inr,
}
use low_context_inference.Limiter.{AdmissionDecision, allowed, refused}
use low_context_inference.Middleware.{
  Incoming, Outgoing, start, content, Scope, header, normalize_route, error_content, ok, oversized,
  disconnected, waits, drain_body, Drained, replaying_receive, sanitize_request_id,
}
use low_context_inference.Middleware.Call.{
  Library, Ended, finished, broken, interrupted, Ending, returns, raises, Progress, nothing_sent,
  with_request_id, send_wrapper, send_each, Counts, Run, finish, closed, no_counts, app_ended,
  reject, too_large, run_app, drained, after_drain, application, checked, decided, decision,
  is_too_large, http_call, or_fresh,
}

-- the status of the last response that was started
abbrev pub last_status : List Outgoing → Option ℕ
last_status [] = none
last_status (start status headers ∷ ms) = elim (last_status ms) [
  | none ↦ some status
  | some s ↦ some s
]
last_status (content body more_body ∷ ms) = last_status ms

last_status-start :
    (ms : List Outgoing) (status : ℕ) (headers : List (String × String))
    → last_status (ms ++ start status headers ∷ []) ≡ some status
last_status-start [] status headers = refl
last_status-start (start s hs ∷ ms) status headers = rw (last_status-start ms status headers) refl
last_status-start (content b m ∷ ms) status headers = last_status-start ms status headers

last_status-content :
    (ms : List Outgoing) (body : List ℕ) (more : Bool)
    → last_status (ms ++ content body more ∷ []) ≡ last_status ms
last_status-content [] body more = refl
last_status-content (start s hs ∷ ms) body more = rw (last_status-content ms body more) refl
last_status-content (content b m ∷ ms) body more = last_status-content ms body more

-- the state of the request agrees with what was sent
abbrev Tracks : Progress → Type 0
Tracks p =
    (p.response_status ≡ last_status p.sent) × (p.response_started ≡ is_some (last_status p.sent))

send_wrapper-Tracks :
    (id : String) (p : Progress) (m : Outgoing) → Tracks p → Tracks (send_wrapper id p m)
unfolding send_wrapper
send_wrapper-Tracks id p (start status headers) (a, b) =
    let e = last_status-start p.sent status (with_request_id id headers) in
    (sym e, ap is_some (sym e))
send_wrapper-Tracks id p (content body more) (a, b) =
    let e = last_status-content p.sent body more in (a ∙ sym e, b ∙ ap is_some (sym e))

send_each-Tracks :
    (id : String) (p : Progress) (ms : List Outgoing) → Tracks p → Tracks (send_each id p ms)
unfolding send_each
send_each-Tracks id p [] t = t
send_each-Tracks id p (m ∷ ms) t =
    send_each-Tracks id (send_wrapper id p m) ms (send_wrapper-Tracks id p m t)

-- the status that a request is counted with
abbrev pub final_status : Option ℕ → Ending → Option (List Incoming) → Option ℕ
final_status (some status) ending received = some status
final_status none raises (some ms) = some 500
final_status none _ _ = none

abbrev pub records : Scope → Option ℕ → List (String × String × ℕ)
records scope none = []
records scope (some status) = (scope.method, normalize_route scope.path, status) ∷ []

-- a stream that was cut off after its start
abbrev pub aborted : Option ℕ → Ending → ℕ
aborted (some status) raises = 1
aborted _ _ = 0

abbrev pub IsCounted : {L : Type 0} → Scope → Run L → Type 0
IsCounted scope r =
    (r.counted ≡ records scope (final_status (last_status r.sent) r.ending r.received))
    × (r.counts.streams_aborted ≡ aborted (last_status r.sent) r.ending)

finish-records : (scope : Scope) (o : Option ℕ) → finish scope o ≡ records scope o
unfolding finish
finish-records scope none = refl
finish-records scope (some status) = refl

module _ {L : Type 0} (lib : Library) (app : List Incoming → List Outgoing × Ended)
    (admit : String → Option String → L → L × AdmissionDecision) (enabled : Bool) (cap : ℕ) where
  returned-IsCounted :
      (scope : Scope) (p : Progress) (counts : Counts) (received : Option (List Incoming)) (l : L)
      → Tracks p
      → counts.streams_aborted ≡ 0
      → IsCounted scope (closed lib app admit enabled cap scope p counts received l returns)
  returned-IsCounted scope p counts received l (a, b) z = elim (Option-cases (last_status p.sent)) [
    | inl e ↦ rw e (ap (finish scope) (a ∙ e) ∙ finish-records scope none, z)
    | inr (s, e) ↦ rw e (ap (finish scope) (a ∙ e) ∙ finish-records scope (some s), z)
  ]

  app_ended-IsCounted :
      (scope : Scope) (l : L) (received : List Incoming) (ended : Ended) (status : Option ℕ)
      (started : Bool) (sent : List Outgoing)
      → status ≡ last_status sent
      → started ≡ is_some (last_status sent)
      → IsCounted scope (
          app_ended lib app admit enabled cap scope l received ended
            (record { response_status = status; response_started = started; sent = sent }))
  app_ended-IsCounted scope l received finished status started sent a b =
      returned-IsCounted scope
        (record { response_status = status; response_started = started; sent = sent }) no_counts
        (some received) l (a, b) refl
  app_ended-IsCounted scope l received interrupted status started sent a b =
      elim (Option-cases (last_status sent)) [
        | inl e ↦ rw e (ap (finish scope) (a ∙ e) ∙ finish-records scope none, refl)
        | inr (s, e) ↦ rw e (ap (finish scope) (a ∙ e) ∙ finish-records scope (some s), refl)
      ]
  app_ended-IsCounted scope l received broken status started sent a b =
      elim (Option-cases (last_status sent)) [
        | inl e ↦
            let off : started ≡ false = b ∙ ap is_some e in
            rw (off, e) (finish-records scope (some 500), refl)
        | inr (s, e) ↦
            let on : started ≡ true = b ∙ ap is_some e in
            rw (on, e) (ap (finish scope) (a ∙ e) ∙ finish-records scope (some s), refl)
      ]

  run_app-IsCounted :
      (scope : Scope) (id : String) (l : L) (received : List Incoming)
      → IsCounted scope (run_app lib app admit enabled cap scope id l received)
  run_app-IsCounted scope id l received =
      let p = send_each id nothing_sent (app received).0 in
      let (a, b) = send_each-Tracks id nothing_sent (app received).0 (refl, refl) in
      app_ended-IsCounted scope l received (app received).1 p.response_status p.response_started
        p.sent a b

  reject-Tracks :
      (id : String) (status : ℕ) (code message : String) (err_type : Option String)
      (extra : List (String × String))
      → Tracks (reject lib app admit enabled cap id status code message err_type extra)
  reject-Tracks id status code message err_type extra =
      let body = error_content status code message err_type in
      send_each-Tracks id nothing_sent
        (start status (lib.raw_headers body extra) ∷ content (lib.render body) false ∷ [])
        (refl, refl)

  too_large-IsCounted :
      (scope : Scope) (id : String) (l : L)
      → IsCounted scope (too_large lib app admit enabled cap scope id l)
  too_large-IsCounted scope id l =
      let message = "request body exceeds " <> lib.print cap <> " bytes" in
      returned-IsCounted scope
        (reject lib app admit enabled cap id 413 "request_too_large" message none []) no_counts none
        l (reject-Tracks id 413 "request_too_large" message none []) refl

  drained-IsCounted :
      (scope : Scope) (id : String) (l : L) (r : Drained × List Incoming)
      → IsCounted scope (after_drain lib app admit enabled cap scope id l r)
  drained-IsCounted scope id l (ok buffered, left) =
      run_app-IsCounted scope id l (replaying_receive buffered left)
  drained-IsCounted scope id l (oversized, left) = too_large-IsCounted scope id l
  drained-IsCounted scope id l (disconnected, left) = (finish-records scope none, refl)
  drained-IsCounted scope id l (waits, left) = (finish-records scope none, refl)

  application-IsCounted :
      (scope : Scope) (id : String) (l : L) (ms : List Incoming) (content_length : Option String)
      → IsCounted scope (application lib app admit enabled cap scope id l ms content_length)
  unfolding drained
  application-IsCounted scope id l ms none = drained-IsCounted scope id l (drain_body cap ms)
  application-IsCounted scope id l ms (some content_length) = run_app-IsCounted scope id l ms

  decided-IsCounted :
      (scope : Scope) (id : String) (ms : List Incoming) (d : L × AdmissionDecision)
      → IsCounted scope (decided lib app admit enabled cap scope id ms d)
  decided-IsCounted scope id ms (l, allowed) =
      application-IsCounted scope id l ms (header scope "content-length")
  decided-IsCounted scope id ms (l, refused dimension retry_after) =
      let extra = ("Retry-After", lib.print retry_after) ∷ [] in
      returned-IsCounted scope
        (reject lib app admit enabled cap id 429 "rate_limit_exceeded" "rate limit exceeded"
          (some "rate_limit_error") extra)
        (record no_counts { rate_limit_rejects = 1 }) none l
        (reject-Tracks id 429 "rate_limit_exceeded" "rate limit exceeded" (some "rate_limit_error")
          extra)
        refl

  checked-IsCounted :
      (scope : Scope) (id : String) (l : L) (ms : List Incoming) (large : Option Bool)
      → IsCounted scope (checked lib app admit enabled cap scope id l ms large)
  unfolding checked
  checked-IsCounted scope id l ms none = (finish-records scope none, refl)
  checked-IsCounted scope id l ms (some true) = too_large-IsCounted scope id l
  checked-IsCounted scope id l ms (some false) =
      decided-IsCounted scope id ms (decision lib app admit enabled cap scope l)

  -- What a request over HTTP adds to the request metrics: one record, with the status of the response
  -- that the client was sent, if one was started; one record with the status 500, if the application
  -- raised an exception before that; and otherwise none: the client went away or is still awaited
  -- while its body is read, the application sent no response or was interrupted before it did, or the
  -- Content-Length made `int` raise an exception. A stream counts as aborted exactly if an exception
  -- followed its start; an interruption, such as a cancellation, is not one.
  pub http_call-IsCounted :
      (scope : Scope) (fresh : String) (l : L) (ms : List Incoming)
      → IsCounted scope (http_call lib app admit enabled cap scope fresh l ms)
  unfolding http_call
  http_call-IsCounted scope fresh l ms =
      checked-IsCounted scope (or_fresh (sanitize_request_id (header scope "x-request-id")) fresh) l
        ms (is_too_large lib app admit enabled cap (header scope "content-length"))
