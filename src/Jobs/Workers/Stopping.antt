-- ===== src/Jobs/Workers/Stopping.antt =====
-- Where the steps of infrastructure/services/pipeline_job_runner.py come to an end. A pipeline may hang:
-- then its worker takes no further step.
use marketplace_pipeline.Base.{
  ℕ, ◌+◌, ◌≤◌, ◌<◌, ◌≡◌, refl, ap, Bool, true, false, not, ◌&&◌, Bool-cases, ◌⊎◌, inl, inr, ◌∙◌,
  sym, some, List, [], ◌∷◌, ◌++◌, append_assoc, length, Text, Text-Eq, ◌==◌, text_eq_iff, contains,
  Result, err, other, arith,
}
use marketplace_pipeline.Domain.Entities.{PipelineJob}
use marketplace_pipeline.Application.RunPipeline.{PipelineResult}
use marketplace_pipeline.Jobs.Repository.{get}
use marketplace_pipeline.Jobs.Workers.{
  Workers, Step, creates, enqueues, takes, starts, start_fails, ends, end_fails, Reach,
}
use marketplace_pipeline.Jobs.Workers.Placed.{
  IsConsistent, is_pending, is_running, has_columns, ids, waiting,
}
use marketplace_pipeline.Jobs.Workers.Consistency.{Reach-IsConsistent}
use marketplace_pipeline.Jobs.Workers.Draining.{
  is_work, Works, work_left, length-Works, Works-Reach,
}

-- A job that nothing will be done for any more.
abbrev pub is_over : PipelineJob → Bool
is_over row =
    not (is_pending row.status) && not (is_running row.status) && has_columns row.status row

module _ (hangs : Text → Bool) where
  -- The steps that end a pipeline which hangs.
  abbrev pub ends_hung : {max_workers : ℕ} {s t : Workers} → Step max_workers s t → Bool
  ends_hung (creates id created_at target correlation_id jobs made) = false
  ends_hung (enqueues id before after at) = false
  ends_hung (takes id rest at free) = false
  ends_hung (starts now id before after at) = false
  ends_hung (start_fails id before after at) = false
  ends_hung (ends now before after job result at) = hangs job.id
  ends_hung (end_fails before after job at) = hangs job.id

  -- Without a new request, only the end of a pipeline that hangs could come next.
  abbrev pub IsStopped : ℕ → Workers → Type 0
  IsStopped max_workers s =
      (t : Workers) (step : Step max_workers s t) → is_work step ≡ true → ends_hung step ≡ true

  -- What is said of a row in the end.
  abbrev pub Settled : Workers → Text → PipelineJob → Type 0
  Settled s id row =
      (is_over row ≡ true)
      ⊎ (contains id s.lost ≡ true)
      ⊎ ((is_running row.status ≡ true) × (contains id (ids s.held) ≡ true) × (hangs id ≡ true))

  module _ (max_workers : ℕ) (s : Workers) (stopped : IsStopped max_workers s)
      (free : length s.held < max_workers) where
    none_taken : (taken : List Text) → s.taken ≡ taken → taken ≡ []
    none_taken [] at = refl
    none_taken (id ∷ rest) at = absurd (cc (stopped _ (starts 0 id [] rest at) refl))

    none_queued : (queue : List Text) → s.queue ≡ queue → queue ≡ []
    none_queued [] at = refl
    none_queued (id ∷ rest) at =
        let few : length s.taken + length s.held < max_workers =
          omega (arith, free, ap length (none_taken s.taken refl)) in
        absurd (cc (stopped _ (takes id rest at few) refl))

    none_created : (created : List Text) → s.created ≡ created → created ≡ []
    none_created [] at = refl
    none_created (id ∷ rest) at = absurd (cc (stopped _ (enqueues id [] rest at) refl))

    none_waiting : (id : Text) → contains id (waiting s) ≡ false
    unfolding contains
    none_waiting id =
        rw (none_taken s.taken refl, none_queued s.queue refl, none_created s.created refl) refl

    held_hangs :
        (id : Text) (before held : List PipelineJob)
        → s.held ≡ before ++ held
        → contains id (ids held) ≡ true
        → hangs id ≡ true
    unfolding contains
    held_hangs id before [] at inside = ground arith
    held_hangs id before (job ∷ held) at inside = elim (Bool-cases (job.id == id)) [
      | inl same ↦
          let result : Result PipelineResult = err (other []) in
          ap hangs (sym ((text_eq_iff job.id id).0 same))
          ∙ stopped _ (ends 0 before held job result at) refl
      | inr apart ↦
          held_hangs id (before ++ job ∷ []) held (at ∙ sym (append_assoc before (job ∷ []) held))
            (ground arith)
    ]

    stopped-Settled :
        (id : Text) (row : PipelineJob)
        → get s.jobs id ≡ some row
        → IsConsistent max_workers s
        → Settled s id row
    stopped-Settled id row found inv = elim (Bool-cases (contains id s.lost)) [
      | inl lost ↦ inr (inl lost)
      | inr kept ↦ elim (Bool-cases (contains id (ids s.held))) [
        | inl is_held ↦ inr (
            inr (
              ground (arith, inv.well_placed id, found, kept, is_held),
              is_held,
              held_hangs id [] s.held refl is_held,
            ))
        | inr not_held ↦
            inl (ground (arith, inv.well_placed id, found, kept, not_held, none_waiting id))
      ]
    ]

  -- From every state that is reached, when no new request comes, in every order of the steps and
  -- whichever pipelines hang: the steps are no more than the work that was left, and where none but the
  -- end of a pipeline that hangs could come next, with a worker of the pool still free from these,
  -- every row is completed or failed, with the columns of its status, but those whose worker has ended
  -- at a write that failed and those that are running in a pipeline that hangs.
  pub Works-Settled :
      {max_workers n : ℕ} {s t : Workers} (id : Text) (row : PipelineJob)
      → Reach max_workers s
      → Works max_workers n s t
      → IsStopped max_workers t
      → length t.held < max_workers
      → get t.jobs id ≡ some row
      → (n ≤ work_left s) × Settled t id row
  Works-Settled {max_workers} {t = t} id row reached taken_steps stopped free found = (
    omega (arith, length-Works taken_steps),
    stopped-Settled max_workers t stopped free id row found
        (Reach-IsConsistent (Works-Reach taken_steps reached)),
  )
