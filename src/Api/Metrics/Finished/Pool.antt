-- ===== src/Api/Metrics/Finished/Pool.antt =====
-- Jobs that the thread pool of the API's process ran: `build_job_finished_callback` of
-- infrastructure/composition/factories.py on that process's registry.
use marketplace_pipeline.Base.{
  ℕ, ◌+◌, ◌≡◌, refl, Bool, true, false, List, [], ◌∷◌, length, if◌then◌else◌, arith,
}
use marketplace_pipeline.Composition.Settings.{thread}
use marketplace_pipeline.Api.Metrics.{
  Metrics, inc_completed, inc_failed, observe_job_duration, shown, shown-inc,
}
use marketplace_pipeline.Api.Metrics.Finished.{on_job_finished, jobs_finished, successes, total}

kept_by_counter :
    (m : Metrics)
    → ((inc_completed m).job_duration_sum ≡ m.job_duration_sum)
      × ((inc_completed m).job_duration_count ≡ m.job_duration_count)
      × ((inc_failed m).job_duration_sum ≡ m.job_duration_sum)
      × ((inc_failed m).job_duration_count ≡ m.job_duration_count)
unfolding inc_completed inc_failed
kept_by_counter m = (ground arith, ground arith, ground arith, ground arith)

shown-observe_job_duration :
    (duration : ℕ) (m : Metrics) → shown (observe_job_duration duration m) ≡ shown m
unfolding shown observe_job_duration
shown-observe_job_duration duration m = refl

pub on_job_finished_lem :
    (success : Bool) (duration : ℕ) (m : Metrics)
    → let after = on_job_finished success duration m in
      (shown after ≡ (
        (shown m).0,
        if success then (shown m).1 + 1 else (shown m).1,
        if success then (shown m).2 else (shown m).2 + 1,
        (shown m).3,
      ))
      × (after.job_duration_sum ≡ m.job_duration_sum + duration)
      × (after.job_duration_count ≡ m.job_duration_count + 1)
unfolding on_job_finished observe_job_duration
on_job_finished_lem true duration m =
    let observed = observe_job_duration duration m in
    let (submitted, completed, failed, http) = shown-inc observed in
    (
      ground (arith, completed, shown-observe_job_duration duration m),
      (kept_by_counter observed).0,
      (kept_by_counter observed).1,
    )
on_job_finished_lem false duration m =
    let observed = observe_job_duration duration m in
    let (submitted, completed, failed, http) = shown-inc observed in
    (
      ground (arith, failed, shown-observe_job_duration duration m),
      (kept_by_counter observed).2,
      (kept_by_counter observed).3,
    )

pub jobs_in_pool :
    (jobs : List (Bool × ℕ)) (m : Metrics)
    → let after = jobs_finished thread jobs m in
      ((shown after).0 ≡ (shown m).0)
      × ((shown after).1 ≡ (shown m).1 + successes jobs)
      × ((shown after).2 + successes jobs ≡ (shown m).2 + length jobs)
      × ((shown after).3 ≡ (shown m).3)
      × (after.job_duration_sum ≡ m.job_duration_sum + total jobs)
      × (after.job_duration_count ≡ m.job_duration_count + length jobs)
unfolding jobs_finished
jobs_in_pool [] m = (refl, ground arith, ground arith, refl, ground arith, ground arith)
jobs_in_pool ((success, duration) ∷ jobs) m =
    let (a, b, c, d, e, f) = jobs_in_pool jobs (on_job_finished success duration m) in
    let (counts, sum, count) = on_job_finished_lem success duration m in
    (
      ground (arith, a, counts),
      ground (arith, b, counts),
      ground (arith, c, counts),
      ground (arith, d, counts),
      ground (arith, e, sum),
      ground (arith, f, count),
    )
