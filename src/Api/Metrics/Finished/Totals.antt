-- ===== src/Api/Metrics/Finished/Totals.antt =====
-- What the page of infrastructure/observability/metrics.py shows of the jobs that have ended.
use marketplace_pipeline.Base.{
  ℕ, ◌+◌, ◌*◌, ◌≤◌, ◌<◌, ◌≡◌, Bool, true, is_some, List, [], ◌∷◌, length, All, Bool-cases, inl, inr,
  if◌then◌else◌, arith,
}
use marketplace_pipeline.Composition.Settings.{JobRunnerBackend, thread, celery, is_celery}
use marketplace_pipeline.Api.Metrics.{Metrics, average, shown}
use marketplace_pipeline.Api.Metrics.Finished.{no_metrics, jobs_finished, successes, total}
use marketplace_pipeline.Api.Metrics.Finished.Pool.{jobs_in_pool}
use marketplace_pipeline.Api.Metrics.Finished.Tasks.{jobs_shared, jobs_alone, jobs_kept}

-- Whether the page of the API sees that a job ended: a worker of Celery reports to Redis only.
abbrev pub is_seen : JobRunnerBackend → Metrics → Bool
is_seen thread m = true
is_seen celery m = is_some m.redis

-- However the jobs end: after them the page of the API's process shows as many more completed jobs as
-- succeeded and as many more failed jobs as did not, the other two counters as they were, and the
-- durations of all the jobs too, if the pool of that process ran them. Of jobs that Celery's workers
-- ran it shows the same counts where the counters stand in Redis and none where they do not, and no
-- duration in either case.
pub jobs_finished_lem :
    (runner : JobRunnerBackend) (jobs : List (Bool × ℕ)) (m : Metrics)
    → let after = jobs_finished runner jobs m in
      let seen : List (Bool × ℕ) = if is_seen runner m then jobs else [] in
      let timed : List (Bool × ℕ) = if is_celery runner then [] else jobs in
      ((shown after).0 ≡ (shown m).0)
      × ((shown after).1 ≡ (shown m).1 + successes seen)
      × ((shown after).2 + successes seen ≡ (shown m).2 + length seen)
      × ((shown after).3 ≡ (shown m).3)
      × (after.job_duration_sum ≡ m.job_duration_sum + total timed)
      × (after.job_duration_count ≡ m.job_duration_count + length timed)
jobs_finished_lem thread jobs m = jobs_in_pool jobs m
jobs_finished_lem celery jobs m =
    let (http, sum, count) = jobs_kept jobs m in
    elim (Bool-cases (is_some m.redis)) [
      | inl shared ↦
          let (a, b, c) = jobs_shared jobs m shared in
          rw shared (a, b, c, http, ground (arith, sum), ground (arith, count))
      | inr alone ↦
          let (a, b, c) = jobs_alone jobs m alone in
          rw alone (
            a,
            ground (arith, b),
            ground (arith, c),
            http,
            ground (arith, sum),
            ground (arith, count),
          )
    ]

total_bounds :
    (low high : ℕ) (jobs : List (Bool × ℕ))
    → All (λ job. (low ≤ job.1) × (job.1 ≤ high)) jobs
    → (low * length jobs ≤ total jobs) × (total jobs ≤ high * length jobs)
total_bounds low high [] h = (ground arith, ground arith)
total_bounds low high ((success, duration) ∷ jobs) h =
    let (below, above) = total_bounds low high jobs h.1 in
    (ground (arith, h.0, below), ground (arith, h.0, above))

-- The average duration of a process that has finished some job is a fraction whose denominator is
-- not 0, and it lies between any two bounds that the durations of all its jobs keep.
pub average_bounds :
    (low high : ℕ) (job : Bool × ℕ) (jobs : List (Bool × ℕ))
    → All (λ each. (low ≤ each.1) × (each.1 ≤ high)) (job ∷ jobs)
    → let m = jobs_finished thread (job ∷ jobs) no_metrics in
      let (numerator, denominator) = average m.job_duration_sum m.job_duration_count in
      (0 < denominator) × (low * denominator ≤ numerator) × (numerator ≤ high * denominator)
unfolding average
average_bounds low high job jobs h =
    let (below, above) = total_bounds low high (job ∷ jobs) h in
    let (a, b, c, d, sum, count) = jobs_finished_lem thread (job ∷ jobs) no_metrics in
    (ground (arith, count), ground (arith, below, sum, count), ground (arith, above, sum, count))
