-- ===== src/Crm/FileStore.antt =====
-- infrastructure/adapters/crm/file_idempotency_store.py. The state is the store's file, if it is
-- there, and the snapshot in memory; the locks make each method one step. `validate` and `dump` are
-- pydantic's `model_validate_json` and `model_dump_json`.
use marketplace_pipeline.Base.{
  ◌≡◌, refl, Bool, true, Option, none, some, [], Text, Text-Eq, Dict, lookup, insert, lookup-insert,
  if◌then◌else◌,
}
use marketplace_pipeline.Crm.Record.{IdempotencyRecord, IdempotencyStore, IsEnabledStore}

abbrev pub Snapshot : Type 0
Snapshot = Dict Text IdempotencyRecord

pub record FileState : Type 0 where
  pub file : Option Text
  pub snapshot : Snapshot

module _ (validate : Text → Option Snapshot) (dump : Snapshot → Text) (enabled : Bool) where
  -- A text that does not validate is logged and read as no record.
  abbrev validated : Option Snapshot → Snapshot
  validated none = []
  validated (some snapshot) = snapshot

  abbrev read_file : Option Text → Snapshot
  read_file none = []
  read_file (some text) = validated (validate text)

  -- `_load`
  unfoldable pub load : Option Text → Snapshot
  load file = if enabled then read_file file else []

  -- `_reload_locked`
  unfoldable pub reload : FileState → FileState
  unfolding load
  reload s = record s { snapshot = load s.file }

  -- `_persist_locked`
  unfoldable pub persist : FileState → FileState
  persist s = record s { file = some (dump s.snapshot) }

  unfoldable pub get : Text → FileState → Option IdempotencyRecord × FileState
  unfolding reload
  get key s = let s' = reload s in (lookup key s'.snapshot, s')

  unfoldable pub put : Text → IdempotencyRecord → FileState → FileState
  unfolding reload persist
  put key r s =
      if enabled
      then persist (record (reload s) { snapshot = insert key r (reload s).snapshot })
      else s

  unfoldable pub save : FileState → FileState
  unfolding reload persist
  save s = if enabled then persist (reload s) else s

  abbrev pub file_store : IdempotencyStore FileState
  file_store = record { get = get; put = put; save = save }

-- An enabled file store holds the records of its file, if pydantic reads back what it wrote. Reads
-- and `save` leave them alone, and `put` sets the record of its key and no other.
pub file_store-IsEnabledStore :
    (validate : Text → Option Snapshot) (dump : Snapshot → Text)
    → ((snapshot : Snapshot) → validate (dump snapshot) ≡ some snapshot)
    → IsEnabledStore (file_store validate dump true)
unfolding get put save
file_store-IsEnabledStore validate dump reads_back = record {
  view = λ s k. lookup k (load validate dump true s.file);
  get-view = λ k s. refl;
  view-get = λ k j s. refl;
  view-put = λ k j r s.
      rw (reads_back (insert k r (load validate dump true s.file)))
        (lookup-insert k j r (load validate dump true s.file));
  view-save = λ j s. rw (reads_back (load validate dump true s.file)) refl;
}
