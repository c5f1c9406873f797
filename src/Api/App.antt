-- ===== src/Api/App.antt =====
-- interfaces/api/app.py: the layers that `create_app` puts around the routes. The layer that is added
-- last is the outermost: authentication, then the rate limit, then the ids of requests. The limiter
-- is either of the two of interfaces/api/middleware/rate_limit.py, with a state of its own; the
-- routes work on a state `W`; headers have the names that the code writes.
pub mod Layers
use marketplace_pipeline.Base.{
  ℕ, Bool, true, false, Option, none, some, List, [], ◌∷◌, Text, Text-Eq, Dict, insert, lookup,
  codes, Result, ok, err, Exec, if◌then◌else◌,
}
use marketplace_pipeline.Api.Auth.{Request, Answer, goes_on, unauthorized, authenticate}
use marketplace_pipeline.Api.RateLimit.{ClientInfo}
use marketplace_pipeline.Api.Metrics.{Metrics, inc_http, observe_http_duration}

-- A request with the headers that the layers read.
pub record HttpRequest : Type 0 where
  pub path : Text
  pub x_api_key : Option Text
  pub authorization : Option Text
  pub x_request_id : Option Text
  pub forwarded_for : Option Text
  pub host : Option Text

abbrev pub credentials_of : HttpRequest → Request
credentials_of r = record {
  path = r.path;
  x_api_key = r.x_api_key;
  authorization = r.authorization;
}

abbrev pub client_of : HttpRequest → ClientInfo
client_of r = record { path = r.path; forwarded_for = r.forwarded_for; host = r.host }

pub record HttpResponse : Type 0 where
  pub status_code : ℕ
  pub headers : Dict Text Text
  pub body : Text

-- A request with the readings that go with it: the limiter's clock, the id that `uuid4` gives, and
-- the time that the routes take.
pub record Arrival : Type 0 where
  pub request : HttpRequest
  pub now : ℕ
  pub new_id : Text
  pub elapsed : ℕ

pub record AppState (L W : Type 0) : Type 0 where
  pub limits : L
  pub metrics : Metrics
  pub world : W

unfoldable pub unauthorized_response : HttpResponse
unauthorized_response = record {
  status_code = 401;
  headers = [];
  body = codes "{\"detail\":\"Invalid or missing API key\"}";
}

-- `_rate_limit_response`
unfoldable pub rate_limit_response : HttpResponse
rate_limit_response = record {
  status_code = 429;
  headers = (codes "Retry-After", codes "60") ∷ [];
  body = codes "{\"detail\":\"Rate limit exceeded\"}";
}

-- `request.headers.get("X-Request-ID", str(uuid.uuid4()))`
abbrev pub request_id : Arrival → Text
request_id a = elim a.request.x_request_id [ none ↦ a.new_id | some id ↦ id ]

module _ {L W : Type 0} (format_ms : ℕ → Text) (api_key : Text)
    (limiter : ClientInfo → ℕ → L → Bool × L)
    (routes : Text → HttpRequest → Exec W HttpResponse) where
  abbrev pub call_routes : Arrival → Exec (AppState L W) HttpResponse
  call_routes a s =
      let (reply, world) = routes (request_id a) a.request s.world in
      (reply, record s { world = world })

  -- What follows `call_next`. An exception of the routes passes by.
  abbrev pub stamp :
      Arrival → Result HttpResponse × AppState L W → Result HttpResponse × AppState L W
  stamp a (ok response, s) = (
    ok (record response {
      headers =
          insert (codes "X-Response-Time-Ms") (format_ms a.elapsed)
            (insert (codes "X-Request-ID") (request_id a) response.headers);
    }),
    record s { metrics = observe_http_duration a.elapsed (inc_http s.metrics) },
  )
  stamp a (err e, s) = (err e, s)

  -- `RequestIdMiddleware.dispatch`
  unfoldable pub request_id_layer : Arrival → Exec (AppState L W) HttpResponse
  request_id_layer a s = stamp a (call_routes a s)

  -- `dispatch` of the rate limit, around the layer of the ids.
  unfoldable pub rate_limit_layer : Arrival → Exec (AppState L W) HttpResponse
  unfolding request_id_layer rate_limit_response
  rate_limit_layer a s =
      let (allowed, limits) = limiter (client_of a.request) a.now s.limits in
      if allowed
      then request_id_layer a (record s { limits = limits })
      else (ok rate_limit_response, record s { limits = limits })

  abbrev pub after_authentication : Result Answer → Arrival → Exec (AppState L W) HttpResponse
  after_authentication (ok goes_on) a s = rate_limit_layer a s
  after_authentication (ok unauthorized) a s = (ok unauthorized_response, s)
  after_authentication (err e) a s = (err e, s)

  -- A request to the application that `create_app` makes.
  unfoldable pub handle_request : Arrival → Exec (AppState L W) HttpResponse
  unfolding rate_limit_layer unauthorized_response
  handle_request a s = after_authentication (authenticate api_key (credentials_of a.request)) a s

  -- Requests one after another: the replies and the state that they leave.
  unfoldable pub handle_requests :
      List Arrival → AppState L W → List (Result HttpResponse) × AppState L W
  unfolding handle_request
  handle_requests [] s = ([], s)
  handle_requests (a ∷ arrivals) s =
      let (reply, t) = handle_request a s in
      let (replies, u) = handle_requests arrivals t in (reply ∷ replies, u)
