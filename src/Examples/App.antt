-- ===== src/Examples/App.antt =====
-- Requests to the whole application of interfaces/api/app.py, and a Redis that keeps its sorted sets
-- as a function of their keys.
use marketplace_pipeline.Base.{
  ℕ, ◌+◌, ◌≡◌, refl, none, some, List, [], ◌∷◌, Text, Text-Eq, ◌==◌, text_eq, Dict, insert, erase,
  filter, length, codes, Result, ok, if◌then◌else◌, contains, arith,
}
use marketplace_pipeline.Api.RateLimit.{Hits, dispatch}
use marketplace_pipeline.Api.RateLimit.Redis.{SortedSets, SortedSetLaws, outside}
use marketplace_pipeline.Api.RateLimit.Redis.Equivalence.{
  Visit, decisions, decisions_in_redis, decisions_in_redis_lem,
}
use marketplace_pipeline.Api.Metrics.Finished.{no_metrics}
use marketplace_pipeline.Api.App.{HttpRequest, HttpResponse, Arrival, AppState, handle_requests}
use marketplace_pipeline.Api.App.Layers.{
  passes, stamped, handle_requests-filter, handle_requests_counts,
}

abbrev api_key : Text
api_key = codes "secret"

abbrev arrival : Text → ℕ → Arrival
arrival key now = record {
  request = record {
    path = codes "/api/v1/jobs";
    x_api_key = some key;
    authorization = none;
    x_request_id = none;
    forwarded_for = none;
    host = some (codes "10.0.0.1");
  };
  now = now;
  new_id = codes "f00";
  elapsed = 7;
}

abbrev format_ms : ℕ → Text
format_ms elapsed = codes "7.00"

-- Routes that count their calls.
abbrev count_calls : Text → HttpRequest → ℕ → Result HttpResponse × ℕ
count_calls id request calls =
    (ok (record { status_code = 200; headers = []; body = [] }), calls + 1)

abbrev arrivals : List Arrival
arrivals =
    arrival (codes "wrong") 1 ∷ arrival api_key 2 ∷ arrival api_key 3 ∷ arrival api_key 4 ∷ []

abbrev start : AppState Hits ℕ
start = record { limits = []; metrics = no_metrics; world = 0 }

handle_requests-filter_example :
    (handle_requests format_ms api_key (dispatch 2 60) count_calls arrivals start).1
    ≡ (handle_requests format_ms api_key
        (dispatch 2 60)
        count_calls
        (filter (passes api_key) arrivals)
        start).1
handle_requests-filter_example =
    handle_requests-filter format_ms api_key (dispatch 2 60) count_calls arrivals start

handle_requests_counts_example :
    let (replies, t) =
      handle_requests format_ms api_key (dispatch 2 60) count_calls arrivals start in
    (t.metrics.http_requests ≡ 0 + stamped replies)
    × (t.metrics.http_duration_count ≡ 0 + stamped replies)
handle_requests_counts_example =
    handle_requests_counts format_ms api_key (dispatch 2 60) count_calls arrivals start

abbrev pub Sets : Type 0
Sets = Text → Dict Text ℕ

abbrev at_key : Text → (Dict Text ℕ → Dict Text ℕ) → Sets → Sets
at_key key change r j = if key == j then change (r j) else r j

abbrev pub sets : SortedSets Sets
sets = record {
  members = λ key r. r key;
  zremrangebyscore = λ key low high. at_key key (filter (outside low high));
  zadd = λ key member score. at_key key (insert member score);
  zcard = λ key r. length (r key);
  zrem = λ key member. at_key key (erase member);
}

pub sets-SortedSetLaws : SortedSetLaws sets
sets-SortedSetLaws = record {
  zremrangebyscore_law = λ key j low high r. refl;
  zadd_law = λ key j member score r. refl;
  zcard_law = λ key r. refl;
  zrem_law = λ key j member r. refl;
}

abbrev visits : List Visit
visits =
    record { now = 1; client = codes "10.0.0.1"; member = codes "a" }
    ∷ record { now = 2; client = codes "10.0.0.1"; member = codes "b" }
    ∷ record { now = 61; client = codes "10.0.0.1"; member = codes "c" }
    ∷ []

decisions_in_redis_lem_example :
    decisions_in_redis sets 1 60 (codes "ratelimit") visits (λ key. []) ≡ decisions 1 59 visits []
unfolding text_eq contains
decisions_in_redis_lem_example =
    decisions_in_redis_lem sets 1 60 (codes "ratelimit") sets-SortedSetLaws (omega arith) visits
      (λ key. []) (λ key. refl) (refl, (refl, (refl, tt)))
