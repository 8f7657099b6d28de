-- ===== src/Tests/Upstream.antt =====
-- Requests to the upstream endpoint.
use low_context_inference.Base.{
  ℕ, suc, ◌-◌, ◌≤◌, ◌<◌, ◌≡◌, refl, true, false, String, List, [], ◌∷◌, if◌then◌else◌, str_eq,
  arith, ltb,
}
use low_context_inference.Breaker.{CircuitBreaker, closed, half_open, init, allow_attempt}
use low_context_inference.Provider.{
  Sent, answers, breaks, connect, timeout, other, response, finish, attempt_of, send_all,
  resilient_send,
}
use low_context_inference.Provider.Headers.{Texts, filter_response_headers}
use low_context_inference.Provider.Forwarding.{Forwards, filter_response_headers_lem}
use low_context_inference.Provider.Sending.{Ends, resilient_send-Ends}
use low_context_inference.Provider.Probes.{System, ended, Reach, here, start, end, Reach-admits}

abbrev new : CircuitBreaker
new = record {
  threshold = 2;
  reset_after = 10;
  state = closed;
  consecutive_failures = 0;
  opened_at = 0;
  probe_reserved = false;
}

-- one connection is not made, the next is
abbrev send : ℕ → Sent String
send n = if ltb n 1 then breaks connect else answers "ok"

resilient_send-Ends_example :
    let run = send_all send 2 1 8 in
    let r = resilient_send send 2 1 8 0 5 (λ b. b) new in
    (run.calls ≤ 3)
    × ((n : ℕ) → suc n < run.calls → send n ≡ breaks connect)
    × Ends (send (run.calls - 1)) (allow_attempt 0 new).0 r
    × (r.0.probe_reserved ≡ false)
unfolding allow_attempt
resilient_send-Ends_example = resilient_send-Ends send 2 1 8 0 5 (λ b. b) new refl

answered : (resilient_send send 2 1 8 0 5 (λ b. b) new).1 ≡ response "ok"
unfolding resilient_send
answered = refl

abbrev cut_off : Sent String
cut_off = breaks other

abbrev late : Sent String
late = breaks timeout

abbrev cancelled : System
cancelled = ended 7 cut_off (allow_attempt 5 new).0 0

path : Reach String (record { breaker = new; in_flight = 0 }) cancelled
unfolding allow_attempt
path = end 7 cut_off (start 5 here)

Reach-admits_example :
    (cancelled.breaker.probe_reserved ≡ false) × ((allow_attempt 20 cancelled.breaker).1 ≡ true)
unfolding init allow_attempt finish
Reach-admits_example = Reach-admits 2 10 20 new cancelled refl path refl (omega arith)

-- A probe is out, and a request that was let in before the breaker opened ends in a timeout: then a
-- second one gets through beside the probe.
abbrev probing : CircuitBreaker
probing = record new { state = half_open; probe_reserved = true; consecutive_failures = 2 }

refused : (allow_attempt 20 probing).1 ≡ false
unfolding allow_attempt
refused = refl

two_probes : (allow_attempt 20 (finish 20 (attempt_of late) probing).0).1 ≡ true
unfolding allow_attempt finish
two_probes = refl

abbrev py : Texts
py = record {
  lower = λ t. if str_eq t "X-Trace" then "x-trace" else t;
  strip = λ t. t;
  split_commas = λ t. t ∷ [];
}

abbrev sent : List (String × String)
sent =
    ("connection", "x-trace")
    ∷ ("X-Trace", "1")
    ∷ ("retry-after", "3")
    ∷ ("content-encoding", "gzip")
    ∷ []

filter_response_headers_lem_example :
    let forwarded = filter_response_headers py false sent in
    Forwards py false sent forwarded "X-Trace"
    × (filter_response_headers py false forwarded ≡ forwarded)
filter_response_headers_lem_example = filter_response_headers_lem py false sent "X-Trace" refl

forwards_one : filter_response_headers py false sent ≡ ("retry-after", "3") ∷ []
unfolding filter_response_headers
forwards_one = refl
