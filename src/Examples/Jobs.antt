-- ===== src/Examples/Jobs.antt =====
-- Jobs and their keys: pipeline_jobs.py and the stores behind it.
use marketplace_pipeline.Base.{
  text_eq, ◌≡◌, refl, true, false, none, some, [], ◌∷◌, Text, Text-Eq, codes, ok, arith, lookup,
}
use marketplace_pipeline.Domain.Entities.{PipelineJob, pending}
use marketplace_pipeline.Jobs.Repository.{get, create}
use marketplace_pipeline.Jobs.Keys.{KeyStore}
use marketplace_pipeline.Jobs.Keys.Lifetime.{live, IsKeyStore}
use marketplace_pipeline.Jobs.Submit.{JobService, submit}
use marketplace_pipeline.Jobs.Submit.Replay.{submit_twice, submit_orphan}

abbrev pub job_of : Text → PipelineJob
job_of id = record {
  id = id;
  status = pending;
  created_at = 1;
  started_at = none;
  finished_at = none;
  collection_target = 2;
  collected_count = none;
  classified_count = none;
  crm_tasks_count = none;
  output_path = none;
  error_message = none;
  correlation_id = none;
}

abbrev pub first_job : PipelineJob
first_job = job_of (codes "a")

abbrev second_job : PipelineJob
second_job = job_of (codes "b")

abbrev key : Text
key = codes "k"

abbrev other_key : Text
other_key = codes "l"

-- The key stands for the first job until the time 10.
abbrev keys : KeyStore
keys = record { ttl = 5; entries = (key, (codes "a", 10)) ∷ [] }

keys_distinct : IsKeyStore keys
unfolding lookup
keys_distinct = (refl, tt)

abbrev service : JobService
service = record { jobs = first_job ∷ []; queue = codes "a" ∷ []; keys = keys }

key_is_live : live 4 key keys ≡ some (codes "a")
unfolding live lookup text_eq
key_is_live = refl

other_key_is_free : live 4 other_key keys ≡ none
unfolding live lookup text_eq
other_key_is_free = refl

pub first_job_stored : get (first_job ∷ []) (codes "a") ≡ some first_job
unfolding get text_eq
first_job_stored = refl

second_job_new : get (first_job ∷ []) (codes "b") ≡ none
unfolding get text_eq
second_job_new = refl

abbrev after_first : JobService
after_first = (submit 4 (some other_key) second_job service).1

submit_twice_example :
    ((submit 4 (some other_key) second_job service).0 ≡ ok (second_job, false))
    × ((submit 9 (some other_key) (job_of (codes "c")) after_first).0 ≡ ok (second_job, true))
    × ((submit 9 (some other_key) (job_of (codes "c")) after_first).1.queue
        ≡ codes "a" ∷ codes "b" ∷ [])
    × ((submit 9 (some other_key) (job_of (codes "c")) after_first).1.jobs
        ≡ first_job ∷ second_job ∷ [])
submit_twice_example =
    submit_twice 4 9 other_key second_job (job_of (codes "c")) service keys_distinct refl
      other_key_is_free second_job_new (omega arith) (omega arith)

-- The first job's row is not written yet.
abbrev orphaned : JobService
orphaned = record { jobs = []; queue = []; keys = keys }

no_first_job : get [] (codes "a") ≡ none
unfolding get text_eq
no_first_job = refl

no_second_job : get [] (codes "b") ≡ none
unfolding get text_eq
no_second_job = refl

submit_orphan_example :
    ((submit 4 (some key) second_job orphaned).0 ≡ ok (second_job, false))
    × ((submit 4 (some key) second_job orphaned).1.queue ≡ codes "b" ∷ [])
    × (live 6 key (submit 4 (some key) second_job orphaned).1.keys ≡ live 6 key keys)
submit_orphan_example =
    submit_orphan 4 6 key second_job (codes "a") orphaned keys_distinct refl key_is_live
      no_first_job no_second_job (omega arith)

creates_second : create (first_job ∷ []) second_job ≡ ok (first_job ∷ second_job ∷ [])
unfolding create get text_eq
creates_second = refl
