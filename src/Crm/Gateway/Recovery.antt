-- ===== src/Crm/Gateway/Recovery.antt =====
-- The search of amocrm_gateway.py for a task that AmoCRM has and the store has lost.
use marketplace_pipeline.Base.{
  ℕ, ◌≡◌, ◌≢◌, ap, ◌∙◌, true, false, Option, none, some, List, [], ◌∷◌, ◌++◌, Text, Text-Eq, ℕ-Eq,
  text_eq_iff, Bool-cases, inl, inr, codes, contains, includes, All, ok, arith,
}
use marketplace_pipeline.Domain.Entities.{CrmTaskRequest}
use marketplace_pipeline.Domain.IdempotencyPolicy.{
  marker_prefix, compute_task_idempotency_key, extract_idempotency_marker,
}
use marketplace_pipeline.Domain.IdempotencyPolicy.Marker.{extract-append_idempotency_marker}
use marketplace_pipeline.Crm.Record.{IdempotencyStore, IsEnabledStore}
use marketplace_pipeline.Crm.Gateway.{
  CrmSettings, RemoteTask, AmoCrm, GatewayState, same_key, find_marked, find_remote_task_by_marker,
  task_payload, create_task,
}
use marketplace_pipeline.Crm.Gateway.Reuse.{reused_outcome}

-- No task of the list has the key's marker.
abbrev pub Unmarked : Text → List RemoteTask → Type 0
Unmarked key tasks = All (λ item. extract_idempotency_marker item.text ≢ some key) tasks

same_key_sound : (key : Text) (o : Option Text) → same_key key o ≡ true → o ≡ some key
same_key_sound key none h = cc
same_key_sound key (some found) h = ap some ((text_eq_iff found key).0 h)

find_marked-append :
    (key : Text) (before after : List RemoteTask) (posted : RemoteTask)
    → Unmarked key before
    → extract_idempotency_marker posted.text ≡ some key
    → find_marked key (before ++ posted ∷ after) ≡ some posted.id
unfolding find_marked
find_marked-append key [] after posted u marked = ground (arith, marked, text_eq_iff key key)
find_marked-append key (item ∷ before) after posted u marked =
    elim (Bool-cases (same_key key (extract_idempotency_marker item.text))) [
      | inl found ↦ absurd (u.0 (same_key_sound key _ found))
      | inr passed ↦ rw passed (find_marked-append key before after posted u.1 marked)
    ]

-- The text of a task before it is marked.
abbrev pub task_text : CrmTaskRequest → Text
task_text task = task.title ++ (codes "\n\n" ++ task.description)

module _ {St R : Type 0} (sha256 : Text → Text) (settings : CrmSettings)
    (store : IdempotencyStore St) (crm : AmoCrm R) (law : IsEnabledStore store)
    (enabled : settings.crm_idempotency_enabled ≡ true) (live : settings.mock_crm ≡ false) where
  find_remote_first_page :
      (key : Text) (before after : List RemoteTask) (posted : RemoteTask) (remote : R)
      → (crm.get_tasks 1 remote).0 ≡ ok (before ++ posted ∷ after)
      → find_marked key (before ++ posted ∷ after) ≡ some posted.id
      → find_remote_task_by_marker sha256 settings store crm key remote
        ≡ (ok (some posted.id), (crm.get_tasks 1 remote).1)
  unfolding find_remote_task_by_marker
  find_remote_first_page key [] after posted remote page found = ground (arith, page, found)
  find_remote_first_page key (item ∷ before) after posted remote page found =
      ground (arith, page, found)

  -- A task that was posted is found again where the store has lost its record, if AmoCRM lists it
  -- among its 250 latest tasks with the text of the payload that the gateway posts for it, whenever it
  -- was posted, and no later task has its marker: the answer is the posted task's id, marked as
  -- reused, and nothing is posted. The title and the description hold no marker of their own, and the
  -- digest no closing bracket.
  pub create_task_recovers :
      (now posted_at : ℕ) (task : CrmTaskRequest) (g : GatewayState St R)
      (before after : List RemoteTask) (posted : RemoteTask)
      → let key = compute_task_idempotency_key sha256 task in
        law.view g.store key ≡ none
        → (crm.get_tasks 1 g.remote).0 ≡ ok (before ++ posted ∷ after)
        → posted.text ≡ (task_payload sha256 settings store crm posted_at task key).text
        → Unmarked key before
        → includes marker_prefix (task_text task) ≡ false
        → contains b']' key ≡ false
        → let (result, later) = create_task sha256 settings store crm now task g in
          (result ≡ ok (reused_outcome settings posted.id task key))
          × (later.remote ≡ (crm.get_tasks 1 g.remote).1)
  unfolding create_task task_payload
  create_task_recovers now posted_at task g before after posted lost page same unmarked plain
        clean =
      let key = compute_task_idempotency_key sha256 task in
      let marked =
        ap extract_idempotency_marker same
        ∙ extract-append_idempotency_marker (task_text task) key plain clean in
      let search =
        find_remote_first_page key before after posted g.remote page
          (find_marked-append key before after posted unmarked marked) in
      (
        ground (arith, enabled, live, law.get-view key g.store, lost, search),
        ground (arith, enabled, live, law.get-view key g.store, lost, search),
      )
