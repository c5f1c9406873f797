-- ===== src/Jobs/Workers/Consistency.antt =====
-- Every order in which requests and workers take their steps keeps the jobs where their rows say.
use marketplace_pipeline.Base.{
  ℕ, ◌≡◌, refl, sym, subst, ap, true, false, not, ◌&&◌, Option-cases, inl, inr, some, List, [], ◌∷◌,
  ◌++◌, length, Text, ◌∙◌, Text-Eq, ◌==◌, text_eq_iff, contains, contains-append, Distinct, Result,
  ok, err, if◌then◌else◌, arith,
}
use marketplace_pipeline.Domain.Entities.{PipelineJob}
use marketplace_pipeline.Application.RunPipeline.{PipelineResult}
use marketplace_pipeline.Jobs.Repository.{JobTable, get, updated_row}
use marketplace_pipeline.Jobs.Repository.Laws.{get-update}
use marketplace_pipeline.Jobs.Executor.{concluded, finished, end_job}
use marketplace_pipeline.Jobs.Workers.{
  Workers, Step, creates, enqueues, takes, starts, start_fails, ends, end_fails, idle, Reach, here,
  next,
}
use marketplace_pipeline.Jobs.Workers.Placed.{placed, ids, is_held_job, waiting, IsConsistent}
use marketplace_pipeline.Jobs.Workers.Around.{
  contains_around, Distinct-around, All_around, AllHeld, map-around, length-around,
}
use marketplace_pipeline.Jobs.Workers.Submitting.{
  creates-IsConsistent, enqueues-IsConsistent, takes-IsConsistent,
}
use marketplace_pipeline.Jobs.Workers.Running.{starts-IsConsistent, start_fails-IsConsistent}

id-ended :
    (now : ℕ) (job : PipelineJob) (result : Result PipelineResult)
    → (finished now (concluded job result)).id ≡ job.id
unfolding concluded finished
id-ended now job (ok result) = refl
id-ended now job (err e) = refl

placed-ended :
    (now : ℕ) (row job : PipelineJob) (result : Result PipelineResult)
    → is_held_job job ≡ true
    → placed (some (updated_row row (finished now (concluded job result)))) false false false ≡ true
unfolding updated_row concluded finished
placed-ended now row job (ok result) h = ground arith
placed-ended now row job (err e) h = ground arith

get-end_job :
    (now : ℕ) (row job : PipelineJob) (result : Result PipelineResult) (j : Text) (table : JobTable)
    → get table job.id ≡ some row
    → get (end_job now job result table) j ≡ (
        if job.id == j
        then some (updated_row row (finished now (concluded job result)))
        else get table j)
unfolding end_job
get-end_job now row job result j table found = ground (
  arith,
  found,
  id-ended now job result,
  get-update table (finished now (concluded job result)) j,
  text_eq_iff job.id j,
)

held_row :
    (id : Text) (s : Workers) (max_workers : ℕ)
    → IsConsistent max_workers s
    → contains id (ids s.held) ≡ true
    → (row : PipelineJob) × (get s.jobs id ≡ some row)
      × (contains id (waiting s) ≡ false)
      × (contains id s.lost ≡ false)
held_row id s max_workers inv inside = elim (Option-cases (get s.jobs id)) [
  | inl missing ↦ absurd (ground (arith, inv.well_placed id, missing, inside))
  | inr (row, found) ↦ (
    row,
    found,
    ground (arith, inv.well_placed id, found, inside),
    ground (arith, inv.well_placed id, found, inside),
  )
]

-- A worker that ends takes its job out of those that are held.
module _ (max_workers : ℕ) (before after : List PipelineJob) (job : PipelineJob) (s : Workers)
    (at : s.held ≡ before ++ job ∷ after) (inv : IsConsistent max_workers s) where
  held_ids : ids s.held ≡ ids before ++ job.id ∷ ids after
  held_ids = ap ids at ∙ (map-around before after job).0

  held_ids-Distinct : Distinct (ids before ++ job.id ∷ ids after)
  held_ids-Distinct = subst Distinct held_ids inv.held_distinct

  contains-ids_left :
      (j : Text)
      → contains j (ids (before ++ after)) ≡ (contains j (ids s.held) && not (job.id == j))
  contains-ids_left j =
      ap (contains j) (map-around before after job).1
      ∙ contains_around j job.id (ids before) (ids after) held_ids-Distinct
      ∙ ap (λ c. contains j c && not (job.id == j)) (sym held_ids)

  Distinct-ids_left : Distinct (ids (before ++ after))
  Distinct-ids_left =
      subst Distinct (sym (map-around before after job).1)
        (Distinct-around job.id (ids before) (ids after) held_ids-Distinct)

  job_inside : contains job.id (ids s.held) ≡ true
  unfolding contains
  job_inside = ground (
    arith,
    ap (contains job.id) held_ids,
    contains-append job.id (ids before) (job.id ∷ ids after),
    text_eq_iff job.id job.id,
  )

  ends-IsConsistent :
      (now : ℕ) (result : Result PipelineResult)
      → IsConsistent max_workers
          (record s { jobs = end_job now job result s.jobs; held = before ++ after })
  unfolding contains
  ends-IsConsistent now result =
      let (job_held, rest_held) = All_around before after job (subst AllHeld at inv.held_started) in
      let (row, found, not_waiting, not_lost) = held_row job.id s max_workers inv job_inside in
      record {
        well_placed = λ j. ground (
          arith,
          inv.well_placed j,
          not_waiting,
          not_lost,
          contains-ids_left j,
          get-end_job now row job result j s.jobs found,
          placed-ended now row job result job_held,
          text_eq_iff job.id j,
        );
        waiting_distinct = inv.waiting_distinct;
        held_distinct = Distinct-ids_left;
        held_started = rest_held;
        few_busy = omega (arith, inv.few_busy, ap length at, length-around before after job);
      }

  end_fails-IsConsistent :
      IsConsistent max_workers (record s { held = before ++ after; lost = s.lost ++ job.id ∷ [] })
  unfolding contains
  end_fails-IsConsistent =
      let (job_held, rest_held) = All_around before after job (subst AllHeld at inv.held_started) in
      record {
        well_placed = λ j. ground (
          arith,
          inv.well_placed j,
          job_inside,
          contains-ids_left j,
          contains-append j s.lost (job.id ∷ []),
          text_eq_iff job.id j,
        );
        waiting_distinct = inv.waiting_distinct;
        held_distinct = Distinct-ids_left;
        held_started = rest_held;
        few_busy = omega (arith, inv.few_busy, ap length at, length-around before after job);
      }

idle-IsConsistent : (max_workers : ℕ) → IsConsistent max_workers idle
unfolding get contains
idle-IsConsistent max_workers = record {
  well_placed = λ id. refl;
  waiting_distinct = tt;
  held_distinct = tt;
  held_started = tt;
  few_busy = omega arith;
}

pub Step-IsConsistent :
    {max_workers : ℕ} {s t : Workers}
    → Step max_workers s t
    → IsConsistent max_workers s
    → IsConsistent max_workers t
Step-IsConsistent {max_workers} {s} (creates id created_at target correlation_id jobs made) inv =
    creates-IsConsistent max_workers id created_at target correlation_id jobs s made inv
Step-IsConsistent {max_workers} {s} (enqueues id before after at) inv =
    enqueues-IsConsistent max_workers id before after s at inv
Step-IsConsistent {max_workers} {s} (takes id rest at free) inv =
    takes-IsConsistent max_workers id rest s at free inv
Step-IsConsistent {max_workers} {s} (starts now id before after at) inv =
    starts-IsConsistent id before after s at max_workers now inv
Step-IsConsistent {max_workers} {s} (start_fails id before after at) inv =
    start_fails-IsConsistent id before after s at max_workers inv
Step-IsConsistent {max_workers} {s} (ends now before after job result at) inv =
    ends-IsConsistent max_workers before after job s at inv now result
Step-IsConsistent {max_workers} {s} (end_fails before after job at) inv =
    end_fails-IsConsistent max_workers before after job s at inv

-- In every state that requests and workers reach, in any interleaving of their steps and with writes
-- that fail, and for every id whose worker has not ended at a write that failed: its row is pending
-- exactly if it is not enqueued yet, waits in the pool or is taken by a worker that has not written
-- its row, and running exactly if a worker holds its job; a row whose worker has ended at such a write
-- stays pending or running, and nobody has it. No id stands twice in these places, and there are no
-- more busy workers than the pool has. A row has a start unless it is pending; an end exactly if it
-- is completed or failed; its counts exactly if it is completed, and an output path only then; and an
-- error exactly if it is failed.
pub Reach-IsConsistent :
    {max_workers : ℕ} {s : Workers} → Reach max_workers s → IsConsistent max_workers s
Reach-IsConsistent {max_workers} here = idle-IsConsistent max_workers
Reach-IsConsistent (next before step) = Step-IsConsistent step (Reach-IsConsistent before)
