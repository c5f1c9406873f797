-- ===== src/Jobs/Repository/Refinement.antt =====
-- The rows that an adapter of infrastructure/adapters/persistence keeps, against the table of jobs.
use marketplace_pipeline.Base.{
  ℕ, ◌≡◌, refl, ap, true, Option, none, some, List, [], ◌∷◌, ◌++◌, map, Text, Text-Eq, text_eq,
  take, zero, suc, ltb, Result, ok, err, sorted, insert_sorted, arith,
}
use marketplace_pipeline.Domain.Entities.{
  PipelineJob, JobStatus, pending, running, completed, failed,
}
use marketplace_pipeline.Jobs.Repository.{
  JobTable, get, create, update, updated_row, list_recent, created,
}
use marketplace_pipeline.Jobs.Repository.Rows.{
  JobRow, Stamps, write_optional, status_value, job_status, to_row, from_row, read_one, read_all,
  select_by_id, get_job_row, create_job_row, set_columns, update_job_row, insert_recent,
  order_by_created, list_recent_rows,
}

-- A time that is written is read back, and the database keeps the order of times.
pub record AreStamps {T : Type 0} (stamps : Stamps T) : Type 0 where
  pub created_law : (now t : ℕ) → stamps.read_created now (stamps.write t) ≡ ok t
  pub some_law : (t : ℕ) → stamps.read (some (stamps.write t)) ≡ ok (some t)
  pub none_law : stamps.read none ≡ ok none
  pub less_law : (s t : ℕ) → stamps.less (stamps.write s) (stamps.write t) ≡ ltb s t

job_status-status_value : (status : JobStatus) → job_status (status_value status) ≡ ok status
unfolding job_status status_value text_eq
job_status-status_value pending = refl
job_status-status_value running = refl
job_status-status_value completed = refl
job_status-status_value failed = refl

module _ {T : Type 0} (stamps : Stamps T) where
  abbrev pub rows_of : JobTable → List (JobRow T)
  rows_of table = map (to_row stamps) table

  abbrev pub rows_of_result : Result JobTable → Result (List (JobRow T))
  rows_of_result (ok table) = ok (rows_of table)
  rows_of_result (err e) = err e

module _ {T : Type 0} (stamps : Stamps T) (laws : AreStamps stamps) where
  read-write_optional : (t : Option ℕ) → stamps.read (write_optional stamps t) ≡ ok t
  read-write_optional none = laws.none_law
  read-write_optional (some t) = laws.some_law t

  from_row-to_row : (now : ℕ) (job : PipelineJob) → from_row stamps now (to_row stamps job) ≡ ok job
  unfolding from_row to_row
  from_row-to_row now job =
      rw
        (
          job_status-status_value job.status,
          laws.created_law now job.created_at,
          read-write_optional job.started_at,
          read-write_optional job.finished_at,
        )
        refl

  id-to_row : (job : PipelineJob) → (to_row stamps job).id ≡ job.id
  unfolding to_row
  id-to_row job = refl

  abbrev found_row : Option PipelineJob → Option (JobRow T)
  found_row none = none
  found_row (some job) = some (to_row stamps job)

  select-rows_of :
      (job_id : Text) (table : JobTable)
      → select_by_id stamps job_id (rows_of stamps table) ≡ found_row (get table job_id)
  unfolding get
  select-rows_of job_id [] = refl
  select-rows_of job_id (row ∷ table) = ground (arith, id-to_row row, select-rows_of job_id table)

  read_one-found :
      (now : ℕ) (found : Option PipelineJob) → read_one stamps now (found_row found) ≡ ok found
  read_one-found now none = refl
  read_one-found now (some job) = rw (from_row-to_row now job) refl

  get-rows_of :
      (now : ℕ) (job_id : Text) (table : JobTable)
      → get_job_row stamps now (rows_of stamps table) job_id ≡ ok (get table job_id)
  unfolding get_job_row
  get-rows_of now job_id table =
      rw (select-rows_of job_id table) (read_one-found now (get table job_id))

  rows-append :
      (table : JobTable) (job : PipelineJob)
      → rows_of stamps (table ++ job ∷ []) ≡ rows_of stamps table ++ to_row stamps job ∷ []
  rows-append [] job = refl
  rows-append (row ∷ table) job = ap (◌∷◌ (to_row stamps row)) (rows-append table job)

  create-rows_of :
      (table : JobTable) (job : PipelineJob)
      → create_job_row stamps (rows_of stamps table) job ≡ rows_of_result stamps (create table job)
  unfolding create_job_row create
  create-rows_of table job = ground (arith, select-rows_of job.id table, rows-append table job)

  set_columns-to_row :
      (row job : PipelineJob)
      → set_columns stamps (to_row stamps row) job ≡ to_row stamps (updated_row row job)
  unfolding set_columns to_row updated_row
  set_columns-to_row row job = refl

  update-rows_of :
      (table : JobTable) (job : PipelineJob)
      → update_job_row stamps (rows_of stamps table) job ≡ rows_of stamps (update table job)
  unfolding update_job_row update
  update-rows_of [] job = refl
  update-rows_of (row ∷ table) job =
      ground (arith, id-to_row row, set_columns-to_row row job, update-rows_of table job)

  less-to_row :
      (job other_job : PipelineJob)
      → stamps.less (to_row stamps job).created_at (to_row stamps other_job).created_at
        ≡ ltb job.created_at other_job.created_at
  unfolding to_row
  less-to_row job other_job = laws.less_law job.created_at other_job.created_at

  insert-rows_of :
      (job : PipelineJob) (jobs : List PipelineJob)
      → insert_recent stamps (to_row stamps job) (rows_of stamps jobs)
        ≡ rows_of stamps (insert_sorted created true job jobs)
  insert-rows_of job [] = refl
  insert-rows_of job (j ∷ jobs) = ground (arith, less-to_row job j, insert-rows_of job jobs)

  order-rows_of :
      (table : JobTable)
      → order_by_created stamps (rows_of stamps table) ≡ rows_of stamps (sorted created true table)
  unfolding sorted
  order-rows_of [] = refl
  order-rows_of (job ∷ table) =
      rw (order-rows_of table) (insert-rows_of job (sorted created true table))

  take-rows_of :
      (n : ℕ) (table : JobTable) → take n (rows_of stamps table) ≡ rows_of stamps (take n table)
  take-rows_of zero table = refl
  take-rows_of (suc n) [] = refl
  take-rows_of (suc n) (job ∷ table) = ap (◌∷◌ (to_row stamps job)) (take-rows_of n table)

  read_all-rows_of :
      (now : ℕ) (table : JobTable) → read_all stamps now (rows_of stamps table) ≡ ok table
  read_all-rows_of now [] = refl
  read_all-rows_of now (job ∷ table) = rw (from_row-to_row now job, read_all-rows_of now table) refl

  list-rows_of :
      (now limit : ℕ) (table : JobTable)
      → list_recent_rows stamps now (rows_of stamps table) limit ≡ ok (list_recent table limit)
  unfolding list_recent_rows list_recent
  list-rows_of now limit table =
      rw (order-rows_of table, take-rows_of limit (sorted created true table))
        (read_all-rows_of now (take limit (sorted created true table)))

-- What an adapter promises: each operation on the rows of a table does what the operation of the
-- table does, whatever the clock shows.
pub record IsJobRepository {T : Type 0} (stamps : Stamps T) : Type 0 where
  pub get_law :
      (now : ℕ) (table : JobTable) (job_id : Text)
      → get_job_row stamps now (rows_of stamps table) job_id ≡ ok (get table job_id)
  pub create_law :
      (table : JobTable) (job : PipelineJob)
      → create_job_row stamps (rows_of stamps table) job ≡ rows_of_result stamps (create table job)
  pub update_law :
      (table : JobTable) (job : PipelineJob)
      → update_job_row stamps (rows_of stamps table) job ≡ rows_of stamps (update table job)
  pub list_law :
      (now limit : ℕ) (table : JobTable)
      → list_recent_rows stamps now (rows_of stamps table) limit ≡ ok (list_recent table limit)

pub stamps-IsJobRepository :
    {T : Type 0} (stamps : Stamps T) → AreStamps stamps → IsJobRepository stamps
stamps-IsJobRepository stamps laws = record {
  get_law = λ now table job_id. get-rows_of stamps laws now job_id table;
  create_law = create-rows_of stamps laws;
  update_law = update-rows_of stamps laws;
  list_law = list-rows_of stamps laws;
}
