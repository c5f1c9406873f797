-- ===== src/Crm/Gateway/Reuse.antt =====
-- When the gateway of amocrm_gateway.py creates a task, and when it finds one again.
use marketplace_pipeline.Base.{
  ℕ, ◌≡◌, refl, ap, ◌∙◌, true, Option, none, some, [], Text, Text-Eq, text_eq_iff, ◌==◌, Result, ok,
  err, exec_continue, if◌then◌else◌, arith,
}
use marketplace_pipeline.Domain.Entities.{CrmTaskRequest, CrmTaskOutcome}
use marketplace_pipeline.Domain.IdempotencyPolicy.{compute_task_idempotency_key}
use marketplace_pipeline.Crm.Record.{IdempotencyRecord, IdempotencyStore, IsEnabledStore}
use marketplace_pipeline.Crm.Gateway.{
  CrmSettings, AmoCrm, GatewayState, remember, record_of, adopt, remotely, reuse_or_create,
  create_mock_task, create_remote_task, find_remote_task_by_marker, find_existing,
  create_and_remember, create_task,
}

-- The answer for a task that stands in the store.
abbrev pub reused_outcome : CrmSettings → Text → CrmTaskRequest → Text → CrmTaskOutcome
reused_outcome settings task_id task key = record {
  task_id = task_id;
  title = task.title;
  mocked = settings.mock_crm;
  reused = true;
  idempotency_key = some key;
}

module _ {St R : Type 0} (sha256 : Text → Text) (settings : CrmSettings)
    (store : IdempotencyStore St) (crm : AmoCrm R) (law : IsEnabledStore store)
    (enabled : settings.crm_idempotency_enabled ≡ true) where
  -- A cached record is answered without a call of AmoCRM.
  create_task_cached :
      (now : ℕ) (task : CrmTaskRequest) (r : IdempotencyRecord) (g : GatewayState St R)
      → law.view g.store (compute_task_idempotency_key sha256 task) ≡ some r
      → create_task sha256 settings store crm now task g ≡ (
        ok (reused_outcome settings r.task_id task (compute_task_idempotency_key sha256 task)),
        record g { store = (store.get (compute_task_idempotency_key sha256 task) g.store).1 },
      )
  unfolding create_task
  create_task_cached now task r g cached =
      ground (arith, enabled, law.get-view (compute_task_idempotency_key sha256 task) g.store)

  view-remember :
      (key j : Text) (r : IdempotencyRecord) (g : GatewayState St R)
      → law.view (remember sha256 settings store crm key r g).store j
        ≡ (if key == j then some r else law.view g.store j)
  unfolding remember
  view-remember key j r g =
      ground
        (arith, enabled, law.view-put key j r g.store, law.view-save j (store.put key r g.store))

  -- The task that the store has for a key.
  abbrev pub known_task : Option IdempotencyRecord → Option Text
  known_task none = none
  known_task (some r) = some r.task_id

  remembered :
      (now : ℕ) (task : CrmTaskRequest) (key : Text) (outcome : CrmTaskOutcome)
      (created : Result CrmTaskOutcome × GatewayState St R)
      → let done =
          exec_continue created.0
            (λ (o : CrmTaskOutcome) (g : GatewayState St R). (
              ok o,
              remember sha256 settings store crm key
                  (record_of sha256 settings store crm now key task o)
                  g,
            ))
            created.1 in
        done.0 ≡ ok outcome → known_task (law.view done.1.store key) ≡ some outcome.task_id
  remembered now task key outcome (err e, g) h = cc
  remembered now task key outcome (ok o, g) h = ground (
    arith,
    h,
    view-remember key key (record_of sha256 settings store crm now key task o) g,
    text_eq_iff key key,
  )

  known_task_record :
      (o : Option IdempotencyRecord) (task_id : Text)
      → known_task o ≡ some task_id
      → (r : IdempotencyRecord) × (o ≡ some r) × (r.task_id ≡ task_id)
  known_task_record none task_id h = cc
  known_task_record (some r) task_id h = (r, refl, cc)

  create_and_remember_known :
      (now : ℕ) (task : CrmTaskRequest) (key : Text) (outcome : CrmTaskOutcome)
      (g : GatewayState St R)
      → let done = create_and_remember sha256 settings store crm now task key g in
        done.0 ≡ ok outcome → known_task (law.view done.1.store key) ≡ some outcome.task_id
  unfolding create_and_remember
  create_and_remember_known now task key outcome g = remembered now task key outcome (
      (if settings.mock_crm
          then (λ (h : GatewayState St R).
              (ok (create_mock_task sha256 settings store crm task key), h))
          else remotely sha256 settings store crm
              (create_remote_task sha256 settings store crm now task key))
        g)

  search_known :
      (now : ℕ) (task : CrmTaskRequest) (key : Text) (outcome : CrmTaskOutcome)
      (looked : Result (Option IdempotencyRecord) × GatewayState St R)
      → ((r : IdempotencyRecord) → looked.0 ≡ ok (some r) → law.view looked.1.store key ≡ some r)
      → let done =
          exec_continue looked.0
            (reuse_or_create sha256 settings store crm now task key)
            looked.1 in
        done.0 ≡ ok outcome → known_task (law.view done.1.store key) ≡ some outcome.task_id
  search_known now task key outcome (err e, g) found h = cc
  search_known now task key outcome (ok none, g) found h =
      create_and_remember_known now task key outcome g h
  search_known now task key outcome (ok (some r), g) found h = ground (arith, h, found r refl)

  adopt_found :
      (now : ℕ) (key : Text) (found : Result (Option Text)) (g : GatewayState St R)
      (r : IdempotencyRecord)
      → let looked = exec_continue found (adopt sha256 settings store crm now key) g in
        looked.0 ≡ ok (some r) → law.view looked.1.store key ≡ some r
  adopt_found now key (err e) g r h = cc
  adopt_found now key (ok none) g r h = cc
  adopt_found now key (ok (some task_id)) g r h = ground (
    arith,
    h,
    view-remember key key
        (record { task_id = task_id; title = []; idempotency_key = key; created_at = now }) g,
    text_eq_iff key key,
  )

  find_existing_found :
      (now : ℕ) (key : Text) (g : GatewayState St R) (r : IdempotencyRecord)
      → let looked = find_existing sha256 settings store crm now key g in
        looked.0 ≡ ok (some r) → law.view looked.1.store key ≡ some r
  unfolding find_existing
  find_existing_found now key g r h = ground (
    arith,
    h,
    enabled,
    law.get-view key g.store,
    law.view-get key key g.store,
    adopt_found now key ((find_remote_task_by_marker sha256 settings store crm key g.remote).0)
        (record g {
          store = (store.get key g.store).1;
          remote = (find_remote_task_by_marker sha256 settings store crm key g.remote).1;
        })
        r,
  )

  create_task_known :
      (now : ℕ) (task : CrmTaskRequest) (outcome : CrmTaskOutcome) (g : GatewayState St R)
      → let done = create_task sha256 settings store crm now task g in
        done.0 ≡ ok outcome
        → known_task (law.view done.1.store (compute_task_idempotency_key sha256 task))
          ≡ some outcome.task_id
  unfolding create_task
  create_task_known now task outcome g =
      let key = compute_task_idempotency_key sha256 task in
      search_known now task key outcome (find_existing sha256 settings store crm now key g)
        (find_existing_found now key g)

  -- With an enabled store, a task whose key was created, found or reused before is answered with
  -- that task's id, marked as reused, and AmoCRM is not called, whatever the text of the task and
  -- the time are.
  pub create_task_twice :
      (now later : ℕ) (task again : CrmTaskRequest) (outcome : CrmTaskOutcome)
      (g : GatewayState St R)
      → compute_task_idempotency_key sha256 again ≡ compute_task_idempotency_key sha256 task
      → (create_task sha256 settings store crm now task g).0 ≡ ok outcome
      → let between = (create_task sha256 settings store crm now task g).1 in
        let (second, after) = create_task sha256 settings store crm later again between in
        (second
          ≡ ok (
              reused_outcome settings outcome.task_id again
                (compute_task_idempotency_key sha256 task)))
        × (after.remote ≡ between.remote)
  create_task_twice now later task again outcome g same first =
      let between = (create_task sha256 settings store crm now task g).1 in
      let (r, cached, known) =
        known_task_record _ outcome.task_id (create_task_known now task outcome g first) in
      let second =
        create_task_cached later again r between (ap (law.view between.store) same ∙ cached) in
      rw second (ground (arith, known, same), refl)
