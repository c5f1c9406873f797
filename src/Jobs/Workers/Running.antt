-- ===== src/Jobs/Workers/Running.antt =====
-- A worker of infrastructure/services/pipeline_job_runner.py that reads and writes the row of the id that
-- it has taken, or fails to, keeps the jobs where their rows say.
use marketplace_pipeline.Base.{
  ℕ, ◌≡◌, refl, sym, subst, ap, ◌∙◌, true, false, not, ◌&&◌, Bool, Option-cases, inl, inr, some,
  List, [], ◌∷◌, ◌++◌, append_assoc, length, length-append, Text, Text-Eq, ◌==◌, text_eq_iff,
  contains, contains-append, Distinct, Distinct-append, All-append, if◌then◌else◌, arith,
}
use marketplace_pipeline.Domain.Entities.{
  PipelineJob, JobStatus, pending, running, completed, failed,
}
use marketplace_pipeline.Jobs.Repository.{JobTable, get, update, updated_row}
use marketplace_pipeline.Jobs.Repository.Laws.{get-update}
use marketplace_pipeline.Jobs.Executor.{started, begin_job}
use marketplace_pipeline.Jobs.Executor.Rows.{id-get, id-started}
use marketplace_pipeline.Jobs.Workers.{Workers, start_job}
use marketplace_pipeline.Jobs.Workers.Placed.{
  placed, ids, waiting, is_held_job, is_pending, has_columns, IsConsistent,
}
use marketplace_pipeline.Jobs.Workers.Around.{contains_around, Distinct-around, length-around}

pub get-begin_job :
    (now : ℕ) (id j : Text) (row : PipelineJob) (table : JobTable)
    → get table id ≡ some row
    → (begin_job now id table ≡ (some (started now row), update table (started now row)))
      × (get (update table (started now row)) j
          ≡ (if id == j then some (updated_row row (started now row)) else get table j))
unfolding begin_job
get-begin_job now id j row table found = (
  rw (found, begin_job) refl,
  ground (
    arith,
    found,
    get-update table (started now row) j,
    id-started now row,
    id-get table id row found,
    text_eq_iff id j,
  ),
)

pub ids-append :
    (held : List PipelineJob) (job : PipelineJob) → ids (held ++ job ∷ []) ≡ ids held ++ job.id ∷ []
ids-append [] job = refl
ids-append (h ∷ held) job = ap (◌∷◌ h.id) (ids-append held job)

started-is_held_job :
    (now : ℕ) (row : PipelineJob)
    → has_columns pending row ≡ true
    → is_held_job (started now row) ≡ true
unfolding started
started-is_held_job now row h = ground arith

placed-started :
    (now : ℕ) (row : PipelineJob)
    → has_columns pending row ≡ true
    → placed (some (updated_row row (started now row))) false true false ≡ true
unfolding updated_row started
placed-started now row h = ground arith

waiting_row :
    (row : PipelineJob) (status : JobStatus) (is_held is_lost : Bool)
    → row.status ≡ status
    → placed (some row) true is_held is_lost ≡ true
    → (is_pending status ≡ true)
      × (has_columns pending row ≡ true)
      × (is_held ≡ false)
      × (is_lost ≡ false)
waiting_row row status is_held true e h = ground arith
waiting_row row pending is_held false e h = ground arith
waiting_row row running is_held false e h = ground arith
waiting_row row completed is_held false e h = ground arith
waiting_row row failed is_held false e h = ground arith

-- The ids that wait, before and after the first worker among them has started.
module _ (id : Text) (before after : List Text) (s : Workers)
    (at : s.taken ≡ before ++ id ∷ after) where
  abbrev others : List Text
  others = after ++ (s.queue ++ s.created)

  pub waiting_at : waiting s ≡ before ++ id ∷ others
  waiting_at =
      ap (λ taken. taken ++ (s.queue ++ s.created)) at
      ∙ append_assoc before (id ∷ after) (s.queue ++ s.created)

  pub left_waiting : (before ++ after) ++ (s.queue ++ s.created) ≡ before ++ others
  left_waiting = append_assoc before after (s.queue ++ s.created)

  pub contains-left :
      (j : Text)
      → Distinct (waiting s)
      → contains j ((before ++ after) ++ (s.queue ++ s.created))
        ≡ (contains j (waiting s) && not (id == j))
  contains-left j d =
      ap (contains j) left_waiting
      ∙ contains_around j id before others (subst Distinct waiting_at d)
      ∙ ap (λ c. contains j c && not (id == j)) (sym waiting_at)

  pub Distinct-left : Distinct (waiting s) → Distinct ((before ++ after) ++ (s.queue ++ s.created))
  Distinct-left d =
      subst Distinct (sym left_waiting)
        (Distinct-around id before others (subst Distinct waiting_at d))

  -- The row of an id that a worker has taken.
  pub taken_row :
      (max_workers : ℕ)
      → IsConsistent max_workers s
      → (row : PipelineJob) × (get s.jobs id ≡ some row)
        × (has_columns pending row ≡ true)
        × (contains id (ids s.held) ≡ false)
        × (contains id s.lost ≡ false)
        × (contains id (waiting s) ≡ true)
  unfolding contains
  taken_row max_workers inv =
      let inside : contains id (waiting s) ≡ true = ground (
        arith,
        ap (contains id) waiting_at,
        contains-append id before (id ∷ others),
        text_eq_iff id id,
      ) in
      elim (Option-cases (get s.jobs id)) [
        | inl missing ↦ absurd (ground (arith, inv.well_placed id, missing, inside))
        | inr (row, found) ↦
            let here : placed (some row) true (contains id (ids s.held)) (contains id s.lost)
                ≡ true =
              ground (arith, inv.well_placed id, found, inside) in
            let (is_waiting, columns, not_held, not_lost) =
              waiting_row row row.status (contains id (ids s.held)) (contains id s.lost) refl
                here in
            (row, found, columns, not_held, not_lost, inside)
      ]

  started-IsConsistent :
      (max_workers now : ℕ) (row : PipelineJob)
      → get s.jobs id ≡ some row
      → has_columns pending row ≡ true
      → contains id (ids s.held) ≡ false
      → contains id s.lost ≡ false
      → IsConsistent max_workers s
      → IsConsistent max_workers (record s {
        jobs = update s.jobs (started now row);
        taken = before ++ after;
        held = s.held ++ started now row ∷ [];
      })
  unfolding contains
  started-IsConsistent max_workers now row found columns not_held not_lost inv = record {
    well_placed = λ j. ground (
      arith,
      inv.well_placed j,
      (get-begin_job now id j row s.jobs found).1,
      contains-left j inv.waiting_distinct,
      ap (contains j) (ids-append s.held (started now row)),
      contains-append j (ids s.held) ((started now row).id ∷ []),
      id-started now row,
      id-get s.jobs id row found,
      placed-started now row columns,
      text_eq_iff id j,
    );
    waiting_distinct = Distinct-left inv.waiting_distinct;
    held_distinct = subst Distinct (sym (ids-append s.held (started now row))) (
        Distinct-append (ids s.held) (started now row).id inv.held_distinct
          (ground (arith, not_held, id-started now row, id-get s.jobs id row found)));
    held_started =
        All-append _ s.held (started now row ∷ []) inv.held_started
          (started-is_held_job now row columns, tt);
    few_busy = omega (
      arith,
      inv.few_busy,
      ap length at,
      length-around before after id,
      length-append s.held (started now row ∷ []),
    );
  }

  pub starts-IsConsistent :
      (max_workers now : ℕ)
      → IsConsistent max_workers s
      → IsConsistent max_workers (start_job now id (before ++ after) s)
  unfolding start_job
  starts-IsConsistent max_workers now inv =
      let (row, found, columns, not_held, not_lost, inside) = taken_row max_workers inv in
      rw (get-begin_job now id id row s.jobs found).0
        (started-IsConsistent max_workers now row found columns not_held not_lost inv)

  pub start_fails-IsConsistent :
      (max_workers : ℕ)
      → IsConsistent max_workers s
      → IsConsistent max_workers (record s { taken = before ++ after; lost = s.lost ++ id ∷ [] })
  unfolding contains
  start_fails-IsConsistent max_workers inv = record {
    well_placed = λ j. ground (
      arith,
      inv.well_placed j,
      (taken_row max_workers inv).5,
      contains-left j inv.waiting_distinct,
      contains-append j s.lost (id ∷ []),
      text_eq_iff id j,
    );
    waiting_distinct = Distinct-left inv.waiting_distinct;
    held_distinct = inv.held_distinct;
    held_started = inv.held_started;
    few_busy = omega (arith, inv.few_busy, ap length at, length-around before after id);
  }
