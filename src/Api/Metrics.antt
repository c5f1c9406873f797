-- ===== src/Api/Metrics.antt =====
-- infrastructure/observability/metrics.py: the counters of jobs, in memory or in Redis. What Redis
-- holds is part of the state. A duration is in ticks, and the text of the page is
-- the numbers it shows.
pub mod Finished
use marketplace_pipeline.Base.{
  ℕ, ◌+◌, ◌≡◌, refl, Option, none, some, Text, Text-Eq, ◌==◌, text_eq, text_eq_iff, codes, Dict,
  lookup, insert, lookup-insert, nat_eq, if◌then◌else◌, arith,
}

pub record Metrics : Type 0 where
  pub redis : Option (Dict Text ℕ)
  pub jobs_submitted : ℕ
  pub jobs_completed : ℕ
  pub jobs_failed : ℕ
  pub http_requests : ℕ
  pub http_duration_sum : ℕ
  pub http_duration_count : ℕ
  pub job_duration_sum : ℕ
  pub job_duration_count : ℕ

-- `_REDIS_KEYS`
unfoldable pub submitted_key : Text
submitted_key = codes "metrics:pipeline_jobs_submitted"

unfoldable pub completed_key : Text
completed_key = codes "metrics:pipeline_jobs_completed"

unfoldable pub failed_key : Text
failed_key = codes "metrics:pipeline_jobs_failed"

abbrev or_zero : Option ℕ → ℕ
or_zero none = 0
or_zero (some n) = n

-- `INCR`
abbrev incremented : Text → Dict Text ℕ → Dict Text ℕ
incremented key redis = insert key (or_zero (lookup key redis) + 1) redis

-- `_job_counter`
unfoldable pub job_counter : Option (Dict Text ℕ) → ℕ → Text → ℕ
job_counter none local_count key = local_count
job_counter (some redis) local_count key = or_zero (lookup key redis)

abbrev with_redis : Option (Dict Text ℕ) → Text → Metrics → Metrics → Metrics
with_redis none key m counted = counted
with_redis (some redis) key m counted = record m { redis = some (incremented key redis) }

unfoldable pub inc_submitted : Metrics → Metrics
unfolding submitted_key
inc_submitted m =
    with_redis m.redis submitted_key m (record m { jobs_submitted = m.jobs_submitted + 1 })

unfoldable pub inc_completed : Metrics → Metrics
unfolding completed_key
inc_completed m =
    with_redis m.redis completed_key m (record m { jobs_completed = m.jobs_completed + 1 })

unfoldable pub inc_failed : Metrics → Metrics
unfolding failed_key
inc_failed m = with_redis m.redis failed_key m (record m { jobs_failed = m.jobs_failed + 1 })

unfoldable pub inc_http : Metrics → Metrics
inc_http m = record m { http_requests = m.http_requests + 1 }

-- `observe_http_duration_ms`
unfoldable pub observe_http_duration : ℕ → Metrics → Metrics
observe_http_duration duration m = record m {
  http_duration_sum = m.http_duration_sum + duration;
  http_duration_count = m.http_duration_count + 1;
}

-- `observe_job_duration_seconds`
unfoldable pub observe_job_duration : ℕ → Metrics → Metrics
observe_job_duration duration m = record m {
  job_duration_sum = m.job_duration_sum + duration;
  job_duration_count = m.job_duration_count + 1;
}

-- An average that the page shows, as a fraction.
unfoldable pub average : ℕ → ℕ → ℕ × ℕ
average sum count = if nat_eq count 0 then (0, 1) else (sum, count)

-- The four counters that `render_prometheus` shows.
unfoldable pub shown : Metrics → ℕ × ℕ × ℕ × ℕ
unfolding job_counter
shown m = (
  job_counter m.redis m.jobs_submitted submitted_key,
  job_counter m.redis m.jobs_completed completed_key,
  job_counter m.redis m.jobs_failed failed_key,
  m.http_requests,
)

job_counter-incremented :
    (redis : Dict Text ℕ) (n : ℕ) (key j : Text)
    → job_counter (some (incremented key redis)) n j
      ≡ (if key == j then job_counter (some redis) n j + 1 else job_counter (some redis) n j)
unfolding job_counter
job_counter-incremented redis n key j =
    ground (arith, lookup-insert key j (or_zero (lookup key redis) + 1) redis, text_eq_iff key j)

-- The theorem for a counter that is given by its fields.
shown-inc_with :
    (redis : Option (Dict Text ℕ)) (submitted completed failed http a b c d : ℕ)
    → let m : Metrics = record {
      redis = redis;
      jobs_submitted = submitted;
      jobs_completed = completed;
      jobs_failed = failed;
      http_requests = http;
      http_duration_sum = a;
      http_duration_count = b;
      job_duration_sum = c;
      job_duration_count = d;
    } in
      (shown (inc_submitted m) ≡ ((shown m).0 + 1, (shown m).1, (shown m).2, (shown m).3))
      × (shown (inc_completed m) ≡ ((shown m).0, (shown m).1 + 1, (shown m).2, (shown m).3))
      × (shown (inc_failed m) ≡ ((shown m).0, (shown m).1, (shown m).2 + 1, (shown m).3))
      × (shown (inc_http m) ≡ ((shown m).0, (shown m).1, (shown m).2, (shown m).3 + 1))
unfolding shown inc_submitted inc_completed inc_failed inc_http job_counter lookup text_eq
shown-inc_with none submitted completed failed http a b c d = (refl, refl, refl, refl)
shown-inc_with (some redis) submitted completed failed http a b c d =
    let step = job_counter-incremented redis 0 in
    (
      rw
          (
            step submitted_key submitted_key,
            step submitted_key completed_key,
            step submitted_key failed_key,
          )
          refl,
      rw
          (
            step completed_key submitted_key,
            step completed_key completed_key,
            step completed_key failed_key,
          )
          refl,
      rw (step failed_key submitted_key, step failed_key completed_key, step failed_key failed_key)
          refl,
      refl,
    )

-- Whether the counters stand in memory or in Redis, each of the four operations raises the counter
-- that it is named for by one, as it is shown, and leaves the other three as they are.
pub shown-inc :
    (m : Metrics)
    → (shown (inc_submitted m) ≡ ((shown m).0 + 1, (shown m).1, (shown m).2, (shown m).3))
      × (shown (inc_completed m) ≡ ((shown m).0, (shown m).1 + 1, (shown m).2, (shown m).3))
      × (shown (inc_failed m) ≡ ((shown m).0, (shown m).1, (shown m).2 + 1, (shown m).3))
      × (shown (inc_http m) ≡ ((shown m).0, (shown m).1, (shown m).2, (shown m).3 + 1))
shown-inc m =
    shown-inc_with m.redis m.jobs_submitted m.jobs_completed m.jobs_failed m.http_requests
      m.http_duration_sum m.http_duration_count m.job_duration_sum m.job_duration_count
