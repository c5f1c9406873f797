-- ===== src/Crm/Record.antt =====
-- domain/ports/idempotency_store.py: the records, and what a store promises to the gateway.
use marketplace_pipeline.Base.{ℕ, ◌≡◌, Option, some, Text, Text-Eq, ◌==◌, if◌then◌else◌}

pub record IdempotencyRecord : Type 0 where
  pub task_id : Text
  pub title : Text
  pub idempotency_key : Text
  pub created_at : ℕ

-- A store in the state `St`. The gateway calls `save` too, which the port does not declare.
pub record IdempotencyStore (St : Type 0) : Type 0 where
  pub get : Text → St → Option IdempotencyRecord × St
  pub put : Text → IdempotencyRecord → St → St
  pub save : St → St

-- A store that is enabled: what it holds is a function of its state, which a read and a `save`
-- leave alone and a `put` changes at its key.
pub record IsEnabledStore {St : Type 0} (store : IdempotencyStore St) : Type 0 where
  pub view : St → Text → Option IdempotencyRecord
  pub get-view : (k : Text) (s : St) → (store.get k s).0 ≡ view s k
  pub view-get : (k j : Text) (s : St) → view (store.get k s).1 j ≡ view s j
  pub view-put :
      (k j : Text) (r : IdempotencyRecord) (s : St)
      → view (store.put k r s) j ≡ (if k == j then some r else view s j)
  pub view-save : (j : Text) (s : St) → view (store.save s) j ≡ view s j
