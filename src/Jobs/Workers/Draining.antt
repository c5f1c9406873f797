-- ===== src/Jobs/Workers/Draining.antt =====
-- `PipelineJobRunner.shutdown` with `wait`, of infrastructure/services/pipeline_job_runner.py: no row is
-- written for a new request, and the workers go on until the pool is empty.
use marketplace_pipeline.Base.{
  ℕ, suc, ◌+◌, ◌*◌, ◌≤◌, ◌≡◌, ap, Bool, true, false, Option, none, some, List, [], ◌∷◌, ◌++◌,
  length, length-append, Text, arith,
}
use marketplace_pipeline.Domain.Entities.{PipelineJob}
use marketplace_pipeline.Jobs.Executor.{begin_job}
use marketplace_pipeline.Jobs.Workers.{
  Workers, Step, creates, enqueues, takes, starts, start_fails, ends, end_fails, start_job,
  held_with, Reach, next,
}
use marketplace_pipeline.Jobs.Workers.Around.{length-around}

-- All but a new request.
abbrev pub is_work : {max_workers : ℕ} {s t : Workers} → Step max_workers s t → Bool
is_work (creates id created_at target correlation_id jobs made) = false
is_work (enqueues id before after at) = true
is_work (takes id rest at free) = true
is_work (starts now id before after at) = true
is_work (start_fails id before after at) = true
is_work (ends now before after job result at) = true
is_work (end_fails before after job at) = true

-- Such steps, as many as the number says.
pub data Works (max_workers : ℕ) : ℕ → Workers → Workers → Type 0 where
  stops : {s : Workers} → Works max_workers 0 s s
  works :
      {n : ℕ} {s t u : Workers} (step : Step max_workers s t)
      → is_work step ≡ true
      → Works max_workers n t u
      → Works max_workers (suc n) s u

-- What is left to be done for an id: to be enqueued, taken, started and ended.
abbrev pub work_left : Workers → ℕ
work_left s = 4 * length s.created + 3 * length s.queue + 2 * length s.taken + length s.held

length-held_with :
    (o : Option PipelineJob) (held : List PipelineJob) → length (held_with o held) ≤ 1 + length held
length-held_with none held = ground arith
length-held_with (some job) held = ground (arith, length-append held (job ∷ []))

work_left-start_job :
    (now : ℕ) (id : Text) (before after : List Text) (s : Workers)
    → s.taken ≡ before ++ id ∷ after
    → 1 + work_left (start_job now id (before ++ after) s) ≤ work_left s
unfolding start_job
work_left-start_job now id before after s at = omega (
  arith,
  ap length at,
  length-around before after id,
  length-held_with (begin_job now id s.jobs).0 s.held,
)

work_left-Step :
    {max_workers : ℕ} {s t : Workers} (step : Step max_workers s t)
    → is_work step ≡ true
    → 1 + work_left t ≤ work_left s
work_left-Step (creates id created_at target correlation_id jobs made) h = ground (arith, h)
work_left-Step {s = s} (enqueues id before after at) h =
    omega (arith, ap length at, length-around before after id, length-append s.queue (id ∷ []))
work_left-Step {s = s} (takes id rest at free) h =
    omega (arith, ap length at, length-append s.taken (id ∷ []))
work_left-Step {s = s} (starts now id before after at) h =
    work_left-start_job now id before after s at
work_left-Step (start_fails id before after at) h =
    omega (arith, ap length at, length-around before after id)
work_left-Step (ends now before after job result at) h =
    omega (arith, ap length at, length-around before after job)
work_left-Step (end_fails before after job at) h =
    omega (arith, ap length at, length-around before after job)

-- Once no new request comes, and however the steps are ordered, the writes fail and the pipelines
-- end: they are at most four for each row whose id is not enqueued yet, three for each id in the pool,
-- two for each that a worker has taken and not written yet, and one for each job that is held. No
-- order of steps goes on for ever.
pub length-Works :
    {max_workers n : ℕ} {s t : Workers} → Works max_workers n s t → n + work_left t ≤ work_left s
length-Works stops = omega arith
length-Works (works step is_w rest) = omega (arith, work_left-Step step is_w, length-Works rest)

pub Works-Reach :
    {max_workers n : ℕ} {s t : Workers}
    → Works max_workers n s t
    → Reach max_workers s
    → Reach max_workers t
Works-Reach stops reached = reached
Works-Reach (works step is_w rest) reached = Works-Reach rest (next reached step)
