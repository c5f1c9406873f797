-- ===== src/Crm/Gateway.antt =====
-- infrastructure/adapters/crm/amocrm_gateway.py. The store keeps its own state `St`; AmoCRM, behind
-- the HTTP client, has a state `R`. A response is what `_embedded.tasks` of its JSON holds, with
-- `str()` of the ids and texts. Time is in seconds; the log lines are left out.
pub mod Reuse
pub mod Recovery
pub mod Titles
use marketplace_pipeline.Base.{
  ℕ, zero, suc, ◌+◌, ◌*◌, Bool, true, false, Option, none, some, List, [], ◌∷◌, ◌++◌, Text, Text-Eq,
  ◌==◌, codes, is_empty, length, take, ltb, nat_eq, Result, ok, err, other, crm_configuration, Exec,
  exec_continue, ◌>>>=◌ as ◌>>=◌, pure, ◌||◌, if◌then◌else◌,
}
use marketplace_pipeline.Domain.Entities.{CrmTaskRequest, CrmTaskOutcome}
use marketplace_pipeline.Domain.IdempotencyPolicy.{
  compute_task_idempotency_key, append_idempotency_marker, extract_idempotency_marker,
}
use marketplace_pipeline.Crm.Record.{IdempotencyRecord, IdempotencyStore}

-- The settings that the gateway reads.
pub record CrmSettings : Type 0 where
  pub mock_crm : Bool
  pub crm_idempotency_enabled : Bool
  pub amocrm_subdomain : Text
  pub amocrm_access_token : Text
  pub amocrm_responsible_user_id : ℕ

pub record RemoteTask : Type 0 where
  pub id : Text
  pub text : Text

pub record TaskPayload : Type 0 where
  pub text : Text
  pub complete_till : ℕ
  pub responsible_user_id : Option ℕ

pub record AmoCrm (R : Type 0) : Type 0 where
  -- `POST /api/v4/tasks`
  pub post_task : TaskPayload → Exec R (List RemoteTask)
  -- `GET /api/v4/tasks`, 250 tasks to a page
  pub get_tasks : ℕ → Exec R (List RemoteTask)

pub record GatewayState (St R : Type 0) : Type 0 where
  pub store : St
  pub remote : R

-- `extract_idempotency_marker(text) == idempotency_key`
abbrev same_key : Text → Option Text → Bool
same_key key none = false
same_key key (some found) = found == key

-- `for item in tasks`
unfoldable pub find_marked : Text → List RemoteTask → Option Text
find_marked key [] = none
find_marked key (item ∷ tasks) =
    if same_key key (extract_idempotency_marker item.text)
    then some item.id
    else find_marked key tasks

module _ {St R : Type 0} (sha256 : Text → Text) (settings : CrmSettings)
    (store : IdempotencyStore St) (crm : AmoCrm R) where
  abbrev State : Type 0
  State = GatewayState St R

  -- A call of AmoCRM.
  abbrev remotely {ℓ} : {A : Type ℓ} → Exec R A → Exec State A
  remotely call g = let (r, remote') = call g.remote in (r, record g { remote = remote' })

  abbrev page_result : Text → List RemoteTask → Exec R (Option Text) → Exec R (Option Text)
  page_result key tasks next remote =
      if is_empty tasks then (ok none, remote) else elim (find_marked key tasks) [
        | some task_id ↦ (ok (some task_id), remote)
        | none ↦ if ltb (length tasks) 250 then (ok none, remote) else next remote
      ]

  -- `while page <= 5`, by the rounds that are left.
  unfoldable pub find_remote_from : ℕ → ℕ → Text → Exec R (Option Text)
  find_remote_from zero page key remote = (ok none, remote)
  find_remote_from (suc rounds) page key remote =
      exec_continue (crm.get_tasks page remote).0
        (λ tasks. page_result key tasks (find_remote_from rounds (page + 1) key))
        (crm.get_tasks page remote).1

  unfoldable pub find_remote_task_by_marker : Text → Exec R (Option Text)
  unfolding find_remote_from
  find_remote_task_by_marker key = find_remote_from 5 1 key

  abbrev get_cached : Text → Exec State (Option IdempotencyRecord)
  get_cached key g = let (found, s) = store.get key g.store in (ok found, record g { store = s })

  -- `store.put`, and `store.save` if the setting says so.
  unfoldable pub remember : Text → IdempotencyRecord → State → State
  remember key r g =
      let s = store.put key r g.store in
      record g { store = if settings.crm_idempotency_enabled then store.save s else s }

  abbrev adopt : ℕ → Text → Option Text → Exec State (Option IdempotencyRecord)
  adopt now key none g = (ok none, g)
  adopt now key (some task_id) g =
      let r : IdempotencyRecord = record {
        task_id = task_id;
        title = [];
        idempotency_key = key;
        created_at = now;
      } in
      (ok (some r), remember key r g)

  abbrev look_further : ℕ → Text → Option IdempotencyRecord → Exec State (Option IdempotencyRecord)
  look_further now key (some cached) g = (ok (some cached), g)
  look_further now key none g =
      if settings.mock_crm
      then (ok none, g)
      else (remotely (find_remote_task_by_marker key) >>= adopt now key) g

  -- `_find_existing`
  unfoldable pub find_existing : ℕ → Text → Exec State (Option IdempotencyRecord)
  unfolding remember
  find_existing now key g =
      if settings.crm_idempotency_enabled
      then (get_cached key >>= look_further now key) g
      else (ok none, g)

  unfoldable pub create_mock_task : CrmTaskRequest → Text → CrmTaskOutcome
  create_mock_task task key = record {
    task_id = codes "mock-task-" ++ take 12 key;
    title = task.title;
    mocked = true;
    reused = false;
    idempotency_key = some key;
  }

  -- `complete_till` is three days from now.
  unfoldable pub task_payload : ℕ → CrmTaskRequest → Text → TaskPayload
  task_payload now task key = record {
    text = append_idempotency_marker (task.title ++ (codes "\n\n" ++ task.description)) key;
    complete_till = now + 3 * 86400;
    responsible_user_id =
        if nat_eq settings.amocrm_responsible_user_id 0
        then none
        else some settings.amocrm_responsible_user_id;
  }

  abbrev first_task : CrmTaskRequest → Text → List RemoteTask → Result CrmTaskOutcome
  first_task task key [] = err (other (codes "Unexpected AmoCRM response"))
  first_task task key (item ∷ tasks) = ok (record {
    task_id = item.id;
    title = task.title;
    mocked = false;
    reused = false;
    idempotency_key = some key;
  })

  unfoldable pub create_remote_task : ℕ → CrmTaskRequest → Text → Exec R CrmTaskOutcome
  unfolding task_payload
  create_remote_task now task key remote =
      if is_empty settings.amocrm_subdomain || is_empty settings.amocrm_access_token
      then (
        err (crm_configuration (codes "AMOCRM_SUBDOMAIN and AMOCRM_ACCESS_TOKEN are required")),
        remote,
      )
      else (crm.post_task (task_payload now task key) >>= λ tasks r. (first_task task key tasks, r))
          remote

  abbrev record_of : ℕ → Text → CrmTaskRequest → CrmTaskOutcome → IdempotencyRecord
  record_of now key task outcome = record {
    task_id = outcome.task_id;
    title = task.title;
    idempotency_key = key;
    created_at = now;
  }

  -- A task that no record stands for.
  unfoldable pub create_and_remember : ℕ → CrmTaskRequest → Text → Exec State CrmTaskOutcome
  unfolding create_mock_task create_remote_task remember
  create_and_remember now task key =
      (if settings.mock_crm
        then pure (create_mock_task task key)
        else remotely (create_remote_task now task key))
      >>= λ outcome g. (ok outcome, remember key (record_of now key task outcome) g)

  abbrev reuse_or_create :
      ℕ → CrmTaskRequest → Text → Option IdempotencyRecord → Exec State CrmTaskOutcome
  reuse_or_create now task key (some existing) = pure (record {
    task_id = existing.task_id;
    title = task.title;
    mocked = settings.mock_crm;
    reused = true;
    idempotency_key = some key;
  })
  reuse_or_create now task key none = create_and_remember now task key

  unfoldable pub create_task : ℕ → CrmTaskRequest → Exec State CrmTaskOutcome
  unfolding find_existing create_and_remember
  create_task now task =
      let key = compute_task_idempotency_key sha256 task in
      find_existing now key >>= reuse_or_create now task key
