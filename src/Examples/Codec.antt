-- ===== src/Examples/Codec.antt =====
-- A writing of records that reads back, for the stores of the examples: a text is written behind its
-- length, a list behind the number of its items.
use marketplace_pipeline.Base.{
  ℕ, zero, suc, ◌≡◌, refl, ap, Option, none, some, [], ◌∷◌, ◌++◌, Text, length, take, drop,
}
use marketplace_pipeline.Crm.Record.{IdempotencyRecord}
use marketplace_pipeline.Crm.FileStore.{Snapshot}

take_front : (s t : Text) → take (length s) (s ++ t) ≡ s
take_front [] t = refl
take_front (c ∷ s) t = ap (◌∷◌ c) (take_front s t)

drop_front : (s t : Text) → drop (length s) (s ++ t) ≡ t
drop_front [] t = refl
drop_front (c ∷ s) t = drop_front s t

abbrev write_text : Text → Text → Text
write_text s rest = length s ∷ (s ++ rest)

abbrev read_text : {A : Type 0} → (Text → Text → Option A) → Text → Option A
read_text next [] = none
read_text next (n ∷ t) = next (take n t) (drop n t)

abbrev read_number : {A : Type 0} → (ℕ → Text → Option A) → Text → Option A
read_number next [] = none
read_number next (n ∷ t) = next n t

read_write_text :
    {A : Type 0} (next : Text → Text → Option A) (s rest : Text)
    → read_text next (write_text s rest) ≡ next s rest
read_write_text next s rest = rw (take_front s rest, drop_front s rest) refl

abbrev write_record : IdempotencyRecord → Text → Text
write_record r rest =
    write_text r.task_id (write_text r.title (write_text r.idempotency_key (r.created_at ∷ rest)))

abbrev read_record : {A : Type 0} → (IdempotencyRecord → Text → Option A) → Text → Option A
read_record next = read_text (λ id. read_text (λ title. read_text (λ key.
    read_number (λ at.
      next (record { task_id = id; title = title; idempotency_key = key; created_at = at })))))

read_write_record :
    {A : Type 0} (next : IdempotencyRecord → Text → Option A) (r : IdempotencyRecord) (rest : Text)
    → read_record next (write_record r rest) ≡ next r rest
read_write_record next r rest = simp (take_front, drop_front)

abbrev pub dump_record : IdempotencyRecord → Text
dump_record r = write_record r []

abbrev pub validate_record : Text → Option IdempotencyRecord
validate_record = read_record (λ r rest. some r)

pub validate-dump_record : (r : IdempotencyRecord) → validate_record (dump_record r) ≡ some r
validate-dump_record r = read_write_record (λ r rest. some r) r []

abbrev write_entries : Snapshot → Text
write_entries [] = []
write_entries ((key, r) ∷ snapshot) = write_text key (write_record r (write_entries snapshot))

abbrev read_entries : ℕ → Text → Option Snapshot
read_entries zero t = some []
read_entries (suc n) t =
    read_text
      (λ key. read_record (λ r rest. elim (read_entries n rest) [
        | none ↦ none
        | some snapshot ↦ some ((key, r) ∷ snapshot)
      ]))
      t

read_write_entries :
    (snapshot : Snapshot) → read_entries (length snapshot) (write_entries snapshot) ≡ some snapshot
read_write_entries [] = refl
read_write_entries ((key, r) ∷ snapshot) =
    simp (take_front, drop_front, read_write_entries snapshot)

abbrev pub dump_snapshot : Snapshot → Text
dump_snapshot snapshot = length snapshot ∷ write_entries snapshot

abbrev pub validate_snapshot : Text → Option Snapshot
validate_snapshot = read_number read_entries

pub validate-dump_snapshot :
    (snapshot : Snapshot) → validate_snapshot (dump_snapshot snapshot) ≡ some snapshot
validate-dump_snapshot snapshot = read_write_entries snapshot
