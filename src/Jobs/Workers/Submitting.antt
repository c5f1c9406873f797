-- ===== src/Jobs/Workers/Submitting.antt =====
-- A request of infrastructure/services/pipeline_job_runner.py, and a worker that takes an id from the
-- pool, keep the jobs where their rows say.
use marketplace_pipeline.Base.{
  ℕ, ◌+◌, ◌<◌, ◌≡◌, sym, subst, ap, ◌∙◌, Option, none, List, [], ◌∷◌, ◌++◌, append_assoc, length,
  length-append, Text, Text-Eq, text_eq_iff, contains, contains-append, Distinct, Distinct-append,
  ok, arith,
}
use marketplace_pipeline.Domain.Entities.{PipelineJob}
use marketplace_pipeline.Jobs.Repository.{JobTable, get, create}
use marketplace_pipeline.Jobs.Repository.Laws.{get-create}
use marketplace_pipeline.Jobs.Workers.{Workers, new_job}
use marketplace_pipeline.Jobs.Workers.Placed.{waiting, IsConsistent}
use marketplace_pipeline.Jobs.Workers.Around.{contains-moved, Distinct-moved}

create-none :
    (table jobs : JobTable) (job : PipelineJob)
    → create table job ≡ ok jobs
    → get table job.id ≡ none
unfolding create
create-none table jobs job h = ground arith

-- A new id comes last among those that wait.
waiting_with :
    (s : Workers) (id : Text)
    → s.taken ++ (s.queue ++ (s.created ++ id ∷ [])) ≡ waiting s ++ id ∷ []
waiting_with s id =
    ap (◌++◌ s.taken) (sym (append_assoc s.queue s.created (id ∷ [])))
    ∙ sym (append_assoc s.taken (s.queue ++ s.created) (id ∷ []))

pub creates-IsConsistent :
    (max_workers : ℕ) (id : Text) (created_at target : ℕ) (correlation_id : Option Text)
    (jobs : JobTable) (s : Workers)
    → create s.jobs (new_job id created_at target correlation_id) ≡ ok jobs
    → IsConsistent max_workers s
    → IsConsistent max_workers (record s { jobs = jobs; created = s.created ++ id ∷ [] })
unfolding new_job contains
creates-IsConsistent max_workers id created_at target correlation_id jobs s made inv =
    let job = new_job id created_at target correlation_id in
    let new = create-none s.jobs jobs job made in
    record {
      well_placed = λ j. ground (
        arith,
        inv.well_placed j,
        inv.well_placed id,
        new,
        get-create s.jobs jobs job j made,
        ap (contains j) (waiting_with s id),
        contains-append j (waiting s) (id ∷ []),
        text_eq_iff id j,
      );
      waiting_distinct = subst Distinct (sym (waiting_with s id)) (
          Distinct-append (waiting s) id inv.waiting_distinct
            (ground (arith, inv.well_placed id, new)));
      held_distinct = inv.held_distinct;
      held_started = inv.held_started;
      few_busy = inv.few_busy;
    }

-- The ids that wait, before and after one is enqueued.
waiting_apart :
    (taken queue before after : List Text) (id : Text)
    → taken ++ (queue ++ (before ++ id ∷ after)) ≡ (taken ++ queue) ++ (before ++ id ∷ after)
waiting_apart taken queue before after id = sym (append_assoc taken queue (before ++ id ∷ after))

enqueued_apart :
    (taken queue before after : List Text) (id : Text)
    → taken ++ ((queue ++ id ∷ []) ++ (before ++ after))
      ≡ (taken ++ queue) ++ id ∷ (before ++ after)
enqueued_apart taken queue before after id = simp append_assoc

pub enqueues-IsConsistent :
    (max_workers : ℕ) (id : Text) (before after : List Text) (s : Workers)
    → s.created ≡ before ++ id ∷ after
    → IsConsistent max_workers s
    → IsConsistent max_workers (record s { created = before ++ after; queue = s.queue ++ id ∷ [] })
enqueues-IsConsistent max_workers id before after s at inv =
    let old =
      ap (λ created. s.taken ++ (s.queue ++ created)) at
      ∙ waiting_apart s.taken s.queue before after id in
    let new = enqueued_apart s.taken s.queue before after id in
    record {
      well_placed = λ j. ground (
        arith,
        inv.well_placed j,
        ap (contains j) old,
        ap (contains j) new,
        contains-moved j id (s.taken ++ s.queue) before after,
      );
      waiting_distinct = subst Distinct (sym new) (
          Distinct-moved id (s.taken ++ s.queue) before after
            (subst Distinct old inv.waiting_distinct));
      held_distinct = inv.held_distinct;
      held_started = inv.held_started;
      few_busy = inv.few_busy;
    }

pub takes-IsConsistent :
    (max_workers : ℕ) (id : Text) (rest : List Text) (s : Workers)
    → s.queue ≡ id ∷ rest
    → length s.taken + length s.held < max_workers
    → IsConsistent max_workers s
    → IsConsistent max_workers (record s { queue = rest; taken = s.taken ++ id ∷ [] })
takes-IsConsistent max_workers id rest s at free inv =
    let same : waiting s ≡ (s.taken ++ id ∷ []) ++ (rest ++ s.created) =
      ap (λ queue. s.taken ++ (queue ++ s.created)) at
      ∙ sym (append_assoc s.taken (id ∷ []) (rest ++ s.created)) in
    record {
      well_placed = λ j. ground (arith, inv.well_placed j, ap (contains j) same);
      waiting_distinct = subst Distinct same inv.waiting_distinct;
      held_distinct = inv.held_distinct;
      held_started = inv.held_started;
      few_busy = omega (arith, free, length-append s.taken (id ∷ []));
    }
