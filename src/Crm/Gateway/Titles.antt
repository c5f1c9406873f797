-- ===== src/Crm/Gateway/Titles.antt =====
-- The title and the key in the outcome of the gateway of amocrm_gateway.py.
use marketplace_pipeline.Base.{ℕ, ◌≡◌, false, some, Text, Text-Eq, ok, arith}
use marketplace_pipeline.Domain.Entities.{CrmTaskRequest, CrmTaskOutcome}
use marketplace_pipeline.Domain.IdempotencyPolicy.{compute_task_idempotency_key}
use marketplace_pipeline.Crm.Record.{IdempotencyStore}
use marketplace_pipeline.Crm.Gateway.{
  CrmSettings, AmoCrm, GatewayState, find_existing, create_and_remember, create_task,
  create_remote_task, create_mock_task,
}

module _ {St R : Type 0} (sha256 : Text → Text) (settings : CrmSettings)
    (store : IdempotencyStore St) (crm : AmoCrm R) where
  create_and_remember-title :
      (now : ℕ) (task : CrmTaskRequest) (key : Text) (g : GatewayState St R)
      (outcome : CrmTaskOutcome)
      → (create_and_remember sha256 settings store crm now task key g).0 ≡ ok outcome
      → (outcome.title ≡ task.title)
        × (outcome.idempotency_key ≡ some key)
        × (outcome.reused ≡ false)
  unfolding create_and_remember create_remote_task create_mock_task
  create_and_remember-title now task key g outcome h = ground arith

  -- Whether the task is found in the store, found again in AmoCRM, mocked or created, the outcome has
  -- the title of the request and the key that is computed from the request.
  pub create_task-title :
      (now : ℕ) (task : CrmTaskRequest) (g : GatewayState St R) (outcome : CrmTaskOutcome)
      → (create_task sha256 settings store crm now task g).0 ≡ ok outcome
      → (outcome.title ≡ task.title)
        × (outcome.idempotency_key ≡ some (compute_task_idempotency_key sha256 task))
  unfolding create_task
  create_task-title now task g outcome h =
      let key = compute_task_idempotency_key sha256 task in
      ground (
        arith,
        create_and_remember-title now task key (find_existing sha256 settings store crm now key g).1
            outcome,
      )
