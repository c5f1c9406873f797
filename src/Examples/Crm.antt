-- ===== src/Examples/Crm.antt =====
-- The gateway of amocrm_gateway.py and its stores, on an AmoCRM that is a list of tasks.
use marketplace_pipeline.Base.{
  ◌≡◌, refl, sym, ◌∙◌, true, false, none, some, List, [], ◌∷◌, Text, codes, decimal, length, nat_eq,
  if◌then◌else◌, ok, lookup, strip, includes, contains, find, starts_with, ℕ-Eq, arith,
}
use marketplace_pipeline.Domain.Entities.{CrmTaskRequest, CrmTaskOutcome}
use marketplace_pipeline.Domain.IdempotencyPolicy.{
  marker_prefix, compute_task_idempotency_key, append_idempotency_marker,
  extract_idempotency_marker,
}
use marketplace_pipeline.Domain.IdempotencyPolicy.Marker.{extract-append_idempotency_marker}
use marketplace_pipeline.Crm.Record.{IdempotencyStore, IsEnabledStore}
use marketplace_pipeline.Crm.FileStore.{file_store, file_store-IsEnabledStore}
use marketplace_pipeline.Crm.RedisStore.{get, Redis, redis_store, redis_store-IsEnabledStore}
use marketplace_pipeline.Crm.Gateway.{
  CrmSettings, RemoteTask, AmoCrm, GatewayState, create_task, find_remote_task_by_marker,
  task_payload,
}
use marketplace_pipeline.Crm.Gateway.Reuse.{create_task_twice, reused_outcome}
use marketplace_pipeline.Crm.Gateway.Recovery.{Unmarked, create_task_recovers, task_text}
use marketplace_pipeline.Examples.Codec.{
  dump_record, validate_record, validate-dump_record, dump_snapshot, validate_snapshot,
  validate-dump_snapshot,
}

-- A short digest.
abbrev pub digest : Text → Text
digest t = decimal (length t)

abbrev pub settings : CrmSettings
settings = record {
  mock_crm = false;
  crm_idempotency_enabled = true;
  amocrm_subdomain = codes "shop";
  amocrm_access_token = codes "token";
  amocrm_responsible_user_id = 7;
}

abbrev pub store : IdempotencyStore Redis
store = redis_store validate_record dump_record true

abbrev store_law : IsEnabledStore store
store_law = redis_store-IsEnabledStore validate_record dump_record validate-dump_record

abbrev pub crm : AmoCrm (List RemoteTask)
crm = record {
  post_task = λ payload tasks.
      let posted : RemoteTask = record { id = decimal (length tasks); text = payload.text } in
      (ok (posted ∷ []), posted ∷ tasks);
  get_tasks = λ page tasks. (ok (if nat_eq page 1 then tasks else []), tasks);
}

abbrev task : CrmTaskRequest
task = record { title = codes "Top"; description = codes "- phone: 5 RUB" }

abbrev spaced_task : CrmTaskRequest
spaced_task = record { title = codes " Top"; description = codes "- phone: 5 RUB\n" }

abbrev empty_state : GatewayState Redis (List RemoteTask)
empty_state = record { store = []; remote = [] }

abbrev key : Text
key = codes "18"

abbrev outcome : CrmTaskOutcome
outcome = record {
  task_id = codes "0";
  title = codes "Top";
  mocked = false;
  reused = false;
  idempotency_key = some key;
}

create_task_first : (create_task digest settings store crm 5 task empty_state).0 ≡ ok outcome
unfolding create_task get lookup find_remote_task_by_marker decimal compute_task_idempotency_key
    strip
create_task_first = refl

same_key_of_tasks :
    compute_task_idempotency_key digest spaced_task ≡ compute_task_idempotency_key digest task
unfolding compute_task_idempotency_key strip
same_key_of_tasks = refl

abbrev created_state : GatewayState Redis (List RemoteTask)
created_state = (create_task digest settings store crm 5 task empty_state).1

create_task_twice_example :
    ((create_task digest settings store crm 9 spaced_task created_state).0
      ≡ ok (
          reused_outcome settings
            (codes "0")
            spaced_task
            (compute_task_idempotency_key digest task)))
    × ((create_task digest settings store crm 9 spaced_task created_state).1.remote
        ≡ created_state.remote)
create_task_twice_example =
    create_task_twice digest settings store crm store_law refl 5 9 task spaced_task outcome
      empty_state same_key_of_tasks create_task_first

-- AmoCRM has a foreign task and the posted one; the store has lost its record.
abbrev foreign : RemoteTask
foreign = record { id = codes "9"; text = codes "call back" }

abbrev posted : RemoteTask
posted = record {
  id = codes "4";
  text =
      (task_payload digest settings store crm 3 task
        (compute_task_idempotency_key digest task)).text;
}

abbrev lost_state : GatewayState Redis (List RemoteTask)
lost_state = record { store = []; remote = foreign ∷ posted ∷ [] }

nothing_stored : (store.get (compute_task_idempotency_key digest task) lost_state.store).0 ≡ none
unfolding compute_task_idempotency_key lookup get
nothing_stored = refl

lost_record : store_law.view lost_state.store (compute_task_idempotency_key digest task) ≡ none
lost_record =
    sym (store_law.get-view (compute_task_idempotency_key digest task) lost_state.store)
    ∙ nothing_stored

foreign-Unmarked : Unmarked (compute_task_idempotency_key digest task) (foreign ∷ [])
unfolding extract_idempotency_marker find starts_with
foreign-Unmarked = (ground arith, tt)

task_has_no_marker : includes marker_prefix (task_text task) ≡ false
unfolding includes find starts_with
task_has_no_marker = refl

key_has_no_bracket : contains b']' (compute_task_idempotency_key digest task) ≡ false
unfolding contains compute_task_idempotency_key decimal strip
key_has_no_bracket = refl

create_task_recovers_example :
    ((create_task digest settings store crm 9 task lost_state).0
      ≡ ok (reused_outcome settings (codes "4") task (compute_task_idempotency_key digest task)))
    × ((create_task digest settings store crm 9 task lost_state).1.remote ≡ lost_state.remote)
create_task_recovers_example =
    create_task_recovers digest settings store crm store_law refl refl 9 3 task lost_state
      (foreign ∷ []) [] posted lost_record refl refl foreign-Unmarked task_has_no_marker
      key_has_no_bracket

file_store-IsEnabledStore_example : IsEnabledStore (file_store validate_snapshot dump_snapshot true)
file_store-IsEnabledStore_example =
    file_store-IsEnabledStore validate_snapshot dump_snapshot validate-dump_snapshot

redis_store-IsEnabledStore_example : IsEnabledStore (redis_store validate_record dump_record true)
redis_store-IsEnabledStore_example =
    redis_store-IsEnabledStore validate_record dump_record validate-dump_record

plain_text_has_no_marker : includes marker_prefix (codes "Top \n") ≡ false
unfolding includes find starts_with
plain_text_has_no_marker = refl

digest_has_no_bracket : contains b']' (codes "0af3") ≡ false
unfolding contains
digest_has_no_bracket = refl

extract-append_idempotency_marker_example :
    extract_idempotency_marker (append_idempotency_marker (codes "Top \n") (codes "0af3"))
    ≡ some (codes "0af3")
extract-append_idempotency_marker_example =
    extract-append_idempotency_marker (codes "Top \n") (codes "0af3") plain_text_has_no_marker
      digest_has_no_bracket
