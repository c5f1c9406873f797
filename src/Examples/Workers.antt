-- ===== src/Examples/Workers.antt =====
-- Two requests and two workers of infrastructure/services/pipeline_job_runner.py.
use marketplace_pipeline.Base.{
  ◌+◌, ◌≤◌, ◌≡◌, refl, false, Bool, none, some, List, [], ◌∷◌, ◌++◌, Text, codes, text_eq, err,
  other, arith,
}
use marketplace_pipeline.Domain.Entities.{PipelineJob}
use marketplace_pipeline.Jobs.Repository.{create, get, update}
use marketplace_pipeline.Jobs.Executor.{started, finished, concluded, end_job}
use marketplace_pipeline.Jobs.Workers.{
  Workers, creates, enqueues, takes, starts, start_fails, ends, end_fails, start_job, new_job,
  Reach, here, next,
}
use marketplace_pipeline.Jobs.Workers.Placed.{IsConsistent}
use marketplace_pipeline.Jobs.Workers.Consistency.{Reach-IsConsistent}
use marketplace_pipeline.Jobs.Workers.Draining.{Works, stops, works, work_left, length-Works}
use marketplace_pipeline.Jobs.Workers.Stopping.{IsStopped, Settled, Works-Settled}

abbrev first : Text
first = codes "a"

abbrev first_row : PipelineJob
first_row = new_job first 1 5 none

abbrev second_row : PipelineJob
second_row = new_job (codes "b") 2 6 none

-- The first request has written its row, and enqueued its id.
abbrev one_created : Workers
one_created = record {
  jobs = first_row ∷ [];
  created = first ∷ [];
  queue = [];
  taken = [];
  held = [];
  lost = [];
}

abbrev one_queued : Workers
one_queued = record one_created { created = []; queue = first ∷ [] }

-- A worker has taken the id while the second request has written its row.
abbrev one_taken : Workers
one_taken = record one_queued { queue = []; taken = first ∷ [] }

abbrev two_created : Workers
two_created = record one_taken { jobs = first_row ∷ second_row ∷ []; created = codes "b" ∷ [] }

one_taken-Reach : Reach 2 one_taken
unfolding create get new_job
one_taken-Reach =
    next (next (next here (creates first 1 5 none _ refl)) (enqueues first [] [] refl))
      (takes first [] refl (omega arith))

two_created-Reach : Reach 2 two_created
unfolding create get new_job text_eq
two_created-Reach = next one_taken-Reach (creates (codes "b") 2 6 none _ refl)

Reach-IsConsistent_example : IsConsistent 2 two_created
Reach-IsConsistent_example = Reach-IsConsistent two_created-Reach

-- The worker runs the first job, whose pipeline fails.
abbrev held_job : PipelineJob
held_job = started 3 first_row

abbrev one_ended : Workers
one_ended = record one_taken {
  jobs = end_job 4 held_job (err (other [])) (update (first_row ∷ []) held_job);
  taken = [];
}

one_ended-Works : Works 2 2 one_taken one_ended
unfolding start_job started update end_job get new_job text_eq
one_ended-Works =
    works (starts 3 first [] [] refl) refl
      (works (ends 4 [] [] held_job (err (other [])) refl) refl stops)

length-Works_example : 2 + work_left one_ended ≤ work_left one_taken
length-Works_example = length-Works one_ended-Works

no_middle : {A : Type 0} (before after : List A) (a : A) → [] ≡ before ++ a ∷ after → ⊥
no_middle [] after a h = cc
no_middle (b ∷ before) after a h = cc

-- No pipeline hangs.
abbrev hangs : Text → Bool
hangs id = false

one_ended-IsStopped : IsStopped hangs 2 one_ended
one_ended-IsStopped t (creates id created_at target correlation_id jobs made) h = cc
one_ended-IsStopped t (enqueues id before after at) h = absurd (no_middle before after id at)
one_ended-IsStopped t (takes id rest at free) h = absurd (no_middle [] rest id at)
one_ended-IsStopped t (starts now id before after at) h = absurd (no_middle before after id at)
one_ended-IsStopped t (start_fails id before after at) h = absurd (no_middle before after id at)
one_ended-IsStopped t (ends now before after job result at) h =
    absurd (no_middle before after job at)
one_ended-IsStopped t (end_fails before after job at) h = absurd (no_middle before after job at)

abbrev ended_row : PipelineJob
ended_row = finished 4 (concluded held_job (err (other [])))

ended_row-found : get one_ended.jobs first ≡ some ended_row
unfolding started update end_job get new_job text_eq finished concluded
ended_row-found = refl

Works-Settled_example : (2 ≤ work_left one_taken) × Settled hangs one_ended first ended_row
Works-Settled_example =
    Works-Settled hangs first ended_row one_taken-Reach one_ended-Works one_ended-IsStopped
      (omega arith) ended_row-found
