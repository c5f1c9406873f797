-- ===== src/Api/Metrics/Finished/Tasks.antt =====
-- Jobs that Celery's workers ran: infrastructure/workers/tasks.py, where each task has a registry of its
-- own.
use marketplace_pipeline.Base.{
  ℕ, ◌+◌, ◌≡◌, refl, Bool, true, false, is_some, List, [], ◌∷◌, length, ◌∙◌, sym, ap, if◌then◌else◌,
  arith,
}
use marketplace_pipeline.Composition.Settings.{celery}
use marketplace_pipeline.Api.Metrics.{
  Metrics, inc_completed, inc_failed, observe_job_duration, job_counter, shown,
}
use marketplace_pipeline.Api.Metrics.Finished.{
  on_job_finished, no_metrics, task_finished, jobs_finished, successes,
}
use marketplace_pipeline.Api.Metrics.Finished.Pool.{on_job_finished_lem}

redis-on_job_finished :
    (success : Bool) (duration : ℕ) (m : Metrics)
    → is_some (on_job_finished success duration m).redis ≡ is_some m.redis
unfolding on_job_finished inc_completed inc_failed observe_job_duration
redis-on_job_finished true duration m = ground arith
redis-on_job_finished false duration m = ground arith

-- Where the counters stand in Redis, they are what Redis holds.
shared_counts :
    (x y : Metrics)
    → is_some x.redis ≡ true
    → x.redis ≡ y.redis
    → ((shown x).0 ≡ (shown y).0) × ((shown x).1 ≡ (shown y).1) × ((shown x).2 ≡ (shown y).2)
unfolding shown job_counter
shared_counts x y shared same = (ground arith, ground arith, ground arith)

-- Where they do not, they are the process's own.
own_counts :
    (x y : Metrics)
    → is_some x.redis ≡ false
    → is_some y.redis ≡ false
    → x.jobs_submitted ≡ y.jobs_submitted
    → x.jobs_completed ≡ y.jobs_completed
    → x.jobs_failed ≡ y.jobs_failed
    → ((shown x).0 ≡ (shown y).0) × ((shown x).1 ≡ (shown y).1) × ((shown x).2 ≡ (shown y).2)
unfolding shown job_counter
own_counts x y h k a b c = (ground arith, ground arith, ground arith)

task_shared :
    (success : Bool) (duration : ℕ) (m : Metrics)
    → is_some m.redis ≡ true
    → let after = task_finished success duration m in
      ((shown after).0 ≡ (shown m).0)
      × ((shown after).1 ≡ (if success then (shown m).1 + 1 else (shown m).1))
      × ((shown after).2 ≡ (if success then (shown m).2 else (shown m).2 + 1))
      × (is_some after.redis ≡ true)
unfolding task_finished
task_shared success duration m shared =
    let own : Metrics = record no_metrics { redis = m.redis } in
    let kept : is_some (task_finished success duration m).redis ≡ true =
      redis-on_job_finished success duration own ∙ shared in
    let counts = (on_job_finished_lem success duration own).0 in
    let (a, b, c) = shared_counts m own shared refl in
    let (a', b', c') =
      shared_counts (task_finished success duration m) (on_job_finished success duration own) kept
        refl in
    (
      a' ∙ ap (λ t. t.0) counts ∙ sym a,
      ground (arith, b', ap (λ t. t.1) counts, b),
      ground (arith, c', ap (λ t. t.2) counts, c),
      kept,
    )

-- What no task changes in the registry of the API's process.
task_kept :
    (success : Bool) (duration : ℕ) (m : Metrics)
    → let after = task_finished success duration m in
      ((shown after).3 ≡ (shown m).3)
      × (after.job_duration_sum ≡ m.job_duration_sum)
      × (after.job_duration_count ≡ m.job_duration_count)
unfolding task_finished shown
task_kept success duration m = (refl, refl, refl)

task_alone :
    (success : Bool) (duration : ℕ) (m : Metrics)
    → is_some m.redis ≡ false
    → let after = task_finished success duration m in
      ((shown after).0 ≡ (shown m).0)
      × ((shown after).1 ≡ (shown m).1)
      × ((shown after).2 ≡ (shown m).2)
      × (is_some after.redis ≡ false)
unfolding task_finished
task_alone success duration m alone =
    let own : Metrics = record no_metrics { redis = m.redis } in
    let kept : is_some (task_finished success duration m).redis ≡ false =
      redis-on_job_finished success duration own ∙ alone in
    let (a, b, c) = own_counts (task_finished success duration m) m kept alone refl refl refl in
    (a, b, c, kept)

pub jobs_shared :
    (jobs : List (Bool × ℕ)) (m : Metrics)
    → is_some m.redis ≡ true
    → let after = jobs_finished celery jobs m in
      ((shown after).0 ≡ (shown m).0)
      × ((shown after).1 ≡ (shown m).1 + successes jobs)
      × ((shown after).2 + successes jobs ≡ (shown m).2 + length jobs)
unfolding jobs_finished
jobs_shared [] m shared = (refl, ground arith, ground arith)
jobs_shared ((success, duration) ∷ jobs) m shared =
    let (counts0, counts1, counts2, kept) = task_shared success duration m shared in
    let (a, b, c) = jobs_shared jobs (task_finished success duration m) kept in
    (ground (arith, a, counts0), ground (arith, b, counts1), ground (arith, c, counts2))

pub jobs_alone :
    (jobs : List (Bool × ℕ)) (m : Metrics)
    → is_some m.redis ≡ false
    → let after = jobs_finished celery jobs m in
      ((shown after).0 ≡ (shown m).0)
      × ((shown after).1 ≡ (shown m).1)
      × ((shown after).2 ≡ (shown m).2)
unfolding jobs_finished
jobs_alone [] m alone = (refl, refl, refl)
jobs_alone ((success, duration) ∷ jobs) m alone =
    let (counts0, counts1, counts2, kept) = task_alone success duration m alone in
    let (a, b, c) = jobs_alone jobs (task_finished success duration m) kept in
    (a ∙ counts0, b ∙ counts1, c ∙ counts2)

pub jobs_kept :
    (jobs : List (Bool × ℕ)) (m : Metrics)
    → let after = jobs_finished celery jobs m in
      ((shown after).3 ≡ (shown m).3)
      × (after.job_duration_sum ≡ m.job_duration_sum)
      × (after.job_duration_count ≡ m.job_duration_count)
unfolding jobs_finished
jobs_kept [] m = (refl, refl, refl)
jobs_kept ((success, duration) ∷ jobs) m =
    let (http, sum, count) = task_kept success duration m in
    let (a, b, c) = jobs_kept jobs (task_finished success duration m) in
    (a ∙ http, b ∙ sum, c ∙ count)
