-- ===== src/Api/App/Layers.antt =====
-- What the layers of interfaces/api/app.py do together.
use marketplace_pipeline.Base.{
  ℕ, ◌+◌, ◌≡◌, refl, ◌∙◌, Bool, true, false, Bool-cases, inl, inr, some, is_some, List, [], ◌∷◌,
  filter, Text, Text-Eq, text_eq, Dict, insert, lookup, lookup-insert, codes, Result, ok, err, Exec,
  if◌then◌else◌, arith,
}
use marketplace_pipeline.Api.Auth.{Answer, goes_on, unauthorized, authenticate}
use marketplace_pipeline.Api.RateLimit.{ClientInfo}
use marketplace_pipeline.Api.Metrics.{inc_http, observe_http_duration}
use marketplace_pipeline.Api.App.{
  HttpRequest, HttpResponse, Arrival, AppState, credentials_of, client_of, request_id,
  rate_limit_response, unauthorized_response, request_id_layer, rate_limit_layer, handle_request,
  handle_requests, stamp, call_routes, after_authentication,
}

abbrev is_goes_on : Result Answer → Bool
is_goes_on (ok goes_on) = true
is_goes_on (ok unauthorized) = false
is_goes_on (err e) = false

-- The request passes the first layer.
abbrev pub passes : Text → Arrival → Bool
passes api_key a = is_goes_on (authenticate api_key (credentials_of a.request))

-- A reply of the routes, which the innermost layer has stamped.
abbrev has_request_id : Result HttpResponse → Bool
has_request_id (ok response) = is_some (lookup (codes "X-Request-ID") response.headers)
has_request_id (err e) = false

abbrev pub stamped : List (Result HttpResponse) → ℕ
stamped [] = 0
stamped (reply ∷ replies) = if has_request_id reply then stamped replies + 1 else stamped replies

lookup-stamp :
    (id time : Text) (headers : Dict Text Text)
    → lookup
        (codes "X-Request-ID")
        (insert (codes "X-Response-Time-Ms") time (insert (codes "X-Request-ID") id headers))
      ≡ some id
unfolding text_eq
lookup-stamp id time headers =
    lookup-insert (codes "X-Response-Time-Ms") (codes "X-Request-ID") time
      (insert (codes "X-Request-ID") id headers)
    ∙ lookup-insert (codes "X-Request-ID") (codes "X-Request-ID") id headers

module _ {L W : Type 0} (format_ms : ℕ → Text) (api_key : Text)
    (limiter : ClientInfo → ℕ → L → Bool × L)
    (routes : Text → HttpRequest → Exec W HttpResponse) where
  refused_unchanged :
      (a : Arrival) (s : AppState L W)
      → passes api_key a ≡ false
      → (handle_request format_ms api_key limiter routes a s).1 ≡ s
  unfolding handle_request
  refused_unchanged a s h = ground (arith, h)

  -- Requests that authentication refuses have no effect: whatever they are and wherever they come, the
  -- limiter's state, the metrics and the state of the routes are in the end what they are when the
  -- other requests come alone.
  pub handle_requests-filter :
      (arrivals : List Arrival) (s : AppState L W)
      → (handle_requests format_ms api_key limiter routes arrivals s).1
        ≡ (handle_requests format_ms api_key limiter routes (filter (passes api_key) arrivals) s).1
  unfolding handle_requests filter
  handle_requests-filter [] s = refl
  handle_requests-filter (a ∷ arrivals) s = elim (Bool-cases (passes api_key a)) [
    | inl h ↦
        rw h
          (handle_requests-filter arrivals (handle_request format_ms api_key limiter routes a s).1)
    | inr h ↦ rw (h, refused_unchanged a s h) (handle_requests-filter arrivals s)
  ]

  -- The counter and the number of durations, after one reply.
  abbrev Counted : Result HttpResponse × AppState L W → AppState L W → Type 0
  Counted after s =
      (after.1.metrics.http_requests
        ≡ s.metrics.http_requests + (if has_request_id after.0 then 1 else 0))
      × (after.1.metrics.http_duration_count
          ≡ s.metrics.http_duration_count + (if has_request_id after.0 then 1 else 0))

  stamp-Counted :
      (a : Arrival) (after : Result HttpResponse × AppState L W)
      → Counted (stamp format_ms api_key limiter routes a after) after.1
  unfolding inc_http observe_http_duration
  stamp-Counted a (ok response, s) =
      rw (lookup-stamp (request_id a) (format_ms a.elapsed) response.headers) (refl, refl)
  stamp-Counted a (err e, s) = (omega arith, omega arith)

  rate_limit_layer-Counted :
      (a : Arrival) (s : AppState L W)
      → Counted (rate_limit_layer format_ms api_key limiter routes a s) s
  unfolding rate_limit_layer request_id_layer rate_limit_response lookup text_eq
  rate_limit_layer-Counted a s =
      elim (Bool-cases (limiter (client_of a.request) a.now s.limits).0) [
        | inl h ↦ rw h (
            stamp-Counted a (
              call_routes format_ms api_key limiter routes a
                (record s { limits = (limiter (client_of a.request) a.now s.limits).1 })))
        | inr h ↦ rw h (omega arith, omega arith)
      ]

  after_authentication-Counted :
      (answer : Result Answer) (a : Arrival) (s : AppState L W)
      → Counted (after_authentication format_ms api_key limiter routes answer a s) s
  unfolding unauthorized_response lookup
  after_authentication-Counted (ok goes_on) a s = rate_limit_layer-Counted a s
  after_authentication-Counted (ok unauthorized) a s = (omega arith, omega arith)
  after_authentication-Counted (err e) a s = (omega arith, omega arith)

  -- The metrics count a request, and its duration, exactly when its reply comes from the routes and
  -- carries an X-Request-ID: the replies of authentication and of the rate limit carry none and are
  -- not counted, and neither are requests at which something raises.
  pub handle_requests_counts :
      (arrivals : List Arrival) (s : AppState L W)
      → let (replies, t) = handle_requests format_ms api_key limiter routes arrivals s in
        (t.metrics.http_requests ≡ s.metrics.http_requests + stamped replies)
        × (t.metrics.http_duration_count ≡ s.metrics.http_duration_count + stamped replies)
  unfolding handle_requests handle_request
  handle_requests_counts [] s = (omega arith, omega arith)
  handle_requests_counts (a ∷ arrivals) s =
      let one =
        after_authentication-Counted (authenticate api_key (credentials_of a.request)) a s in
      let rest =
        handle_requests_counts arrivals (handle_request format_ms api_key limiter routes a s).1 in
      (ground (arith, one.0, rest.0), ground (arith, one.1, rest.1))
