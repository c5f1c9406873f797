-- ===== src/Jobs/Submit/Replay.antt =====
-- What the keys of application/use_cases/pipeline_jobs.py promise.
use marketplace_pipeline.Base.{
  ℕ, ◌+◌, ◌≤◌, ◌≡◌, refl, true, false, none, some, [], ◌∷◌, ◌++◌, Text, Text-Eq, text_eq_iff,
  is_empty, ok, arith,
}
use marketplace_pipeline.Domain.Entities.{PipelineJob}
use marketplace_pipeline.Jobs.Repository.{JobTable, get, create}
use marketplace_pipeline.Jobs.Repository.Laws.{get-create}
use marketplace_pipeline.Jobs.Keys.{KeyStore, get_key, reserve}
use marketplace_pipeline.Jobs.Keys.Lifetime.{live, IsKeyStore, get_key_lem, reserve_lem}
use marketplace_pipeline.Jobs.Submit.{JobService, submit}

-- A submission with a live key, whose job is in the table, returns that job as it stands and
-- changes neither the table nor the queue.
pub submit_replays :
    (now : ℕ) (key : Text) (job earlier : PipelineJob) (earlier_id : Text) (service : JobService)
    → IsKeyStore service.keys
    → is_empty key ≡ false
    → live now key service.keys ≡ some earlier_id
    → get service.jobs earlier_id ≡ some earlier
    → let (result, after) = submit now (some key) job service in
      (result ≡ ok (earlier, true)) × (after.jobs ≡ service.jobs) × (after.queue ≡ service.queue)
unfolding submit
submit_replays now key job earlier earlier_id service wf nonempty alive stored =
    let read = (get_key_lem now now key key service.keys wf (omega arith)).0 in
    (ground arith, ground arith, ground arith)

-- The state behind a reservation that succeeds.
reserved_state : ℕ → Text → PipelineJob → JobService → KeyStore
reserved_state now key job service = (reserve now key job.id (get_key now key service.keys).1).1

create_new :
    (table : JobTable) (job : PipelineJob)
    → get table job.id ≡ none
    → create table job ≡ ok (table ++ job ∷ [])
unfolding create
create_new table job new = rw (new, create)

submit_fresh :
    (now : ℕ) (key : Text) (job : PipelineJob) (service : JobService)
    → IsKeyStore service.keys
    → is_empty key ≡ false
    → live now key service.keys ≡ none
    → get service.jobs job.id ≡ none
    → submit now (some key) job service ≡ (
      ok (job, false),
      record {
        jobs = service.jobs ++ job ∷ [];
        queue = service.queue ++ job.id ∷ [];
        keys = reserved_state now key job service;
      },
    )
unfolding submit reserved_state
submit_fresh now key job service wf nonempty free new =
    let read = get_key_lem now now key key service.keys wf (omega arith) in
    let taken =
      (reserve_lem now now key job.id key (get_key now key service.keys).1 read.2
        (omega arith)).0 in
    ground (arith, read.0, read.1, taken, create_new service.jobs job new)

ttl-get_key : (now : ℕ) (key : Text) (store : KeyStore) → (get_key now key store).1.ttl ≡ store.ttl
unfolding get_key
ttl-get_key now key store = ground arith

live-reserved_state :
    (now later : ℕ) (key : Text) (job : PipelineJob) (service : JobService)
    → IsKeyStore service.keys
    → live now key service.keys ≡ none
    → now ≤ later
    → later ≤ now + service.keys.ttl
    → live later key (reserved_state now key job service) ≡ some job.id
unfolding reserved_state
live-reserved_state now later key job service wf free le soon =
    let read = get_key_lem now now key key service.keys wf (omega arith) in
    let taken = reserve_lem now later key job.id key (get_key now key service.keys).1 read.2 le in
    ground (
      arith,
      read.0,
      read.1,
      ttl-get_key now key service.keys,
      taken.0,
      taken.1,
      text_eq_iff key key,
    )

IsKeyStore-reserved_state :
    (now : ℕ) (key : Text) (job : PipelineJob) (service : JobService)
    → IsKeyStore service.keys
    → IsKeyStore (reserved_state now key job service)
unfolding reserved_state
IsKeyStore-reserved_state now key job service wf =
    (reserve_lem now now key job.id key (get_key now key service.keys).1
      (get_key_lem now now key key service.keys wf (omega arith)).2 (omega arith)).2

get-append_self :
    (table : JobTable) (job : PipelineJob)
    → get table job.id ≡ none
    → get (table ++ job ∷ []) job.id ≡ some job
get-append_self table job new = ground (
  arith,
  get-create table (table ++ job ∷ []) job job.id (create_new table job new),
  text_eq_iff job.id job.id,
)

-- Two requests with one key, the second within the key's lifetime: the first enqueues its job and
-- the second is answered with that job, enqueues nothing and adds no row, whatever it asks for.
pub submit_twice :
    (now later : ℕ) (key : Text) (job other : PipelineJob) (service : JobService)
    → IsKeyStore service.keys
    → is_empty key ≡ false
    → live now key service.keys ≡ none
    → get service.jobs job.id ≡ none
    → now ≤ later
    → later ≤ now + service.keys.ttl
    → let (first, between) = submit now (some key) job service in
      let (second, after) = submit later (some key) other between in
      (first ≡ ok (job, false))
      × (second ≡ ok (job, true))
      × (after.queue ≡ service.queue ++ job.id ∷ [])
      × (after.jobs ≡ service.jobs ++ job ∷ [])
submit_twice now later key job other service wf nonempty free new le soon =
    let replay =
      submit_replays later key other job job.id
        (record {
          jobs = service.jobs ++ job ∷ [];
          queue = service.queue ++ job.id ∷ [];
          keys = reserved_state now key job service;
        })
        (IsKeyStore-reserved_state now key job service wf) nonempty
        (live-reserved_state now later key job service wf free le soon)
        (get-append_self service.jobs job new) in
    rw (submit_fresh now key job service wf nonempty free new) (refl, replay.0, replay.2, replay.1)

-- A live key whose job has no row, as while the request that reserved it has not written the row
-- yet, or after that write failed: the submission is not a replay, its job is enqueued, and the key
-- goes on standing for the job without a row.
pub submit_orphan :
    (now later : ℕ) (key : Text) (job : PipelineJob) (orphan_id : Text) (service : JobService)
    → IsKeyStore service.keys
    → is_empty key ≡ false
    → live now key service.keys ≡ some orphan_id
    → get service.jobs orphan_id ≡ none
    → get service.jobs job.id ≡ none
    → now ≤ later
    → let (result, after) = submit now (some key) job service in
      (result ≡ ok (job, false))
      × (after.queue ≡ service.queue ++ job.id ∷ [])
      × (live later key after.keys ≡ live later key service.keys)
unfolding submit
submit_orphan now later key job orphan_id service wf nonempty alive missing new le =
    let keys = (get_key now key service.keys).1 in
    let read = get_key_lem now now key key service.keys wf (omega arith) in
    let read_later = get_key_lem now later key key service.keys wf le in
    let taken = reserve_lem now now key job.id key keys read.2 (omega arith) in
    let taken_later = reserve_lem now later key job.id key keys read.2 le in
    let again = get_key_lem now now key key (reserve now key job.id keys).1 taken.2 (omega arith) in
    let again_later = get_key_lem now later key key (reserve now key job.id keys).1 taken.2 le in
    let row = create_new service.jobs job new in
    (
      ground (arith, read.0, read.1, taken.0, taken.1, again.0, row),
      ground (arith, read.0, read.1, taken.0, taken.1, again.0, row),
      ground (
        arith, read.0, read.1, read_later.1, taken.0, taken.1, taken_later.1, again.0,
        again_later.1, row,
      ),
    )
