-- ===== src/Jobs/Keys/Lifetime.antt =====
-- How long a key of memory_job_idempotency_store.py is taken.
use marketplace_pipeline.Base.{
  ℕ, ◌+◌, ◌≤◌, ◌≡◌, not, ◌&&◌, Option, none, some, Text, Text-Eq, text_eq_iff, ◌==◌, lookup,
  lookup-insert, lookup-erase, lookup-filter, filter-KeysDistinct, insert-KeysDistinct,
  erase-KeysDistinct, inl, inr, Bool-cases, KeysDistinct, filter, ltb, is_some, if◌then◌else◌,
  arith,
}
use marketplace_pipeline.Jobs.Keys.{KeyStore, get_key, read_entry, purge_expired, reserve}

-- The job that a key stands for at a time: an entry lives through its last tick.
abbrev pub live_entry : ℕ → Option (Text × ℕ) → Option Text
live_entry now none = none
live_entry now (some (job_id, expires_at)) = if ltb expires_at now then none else some job_id

unfoldable pub live : ℕ → Text → KeyStore → Option Text
live now key store = live_entry now (lookup key store.entries)

-- The keys of the entries differ.
abbrev pub IsKeyStore : KeyStore → Type 0
IsKeyStore store = KeysDistinct store.entries

live-purge_expired :
    (now later : ℕ) (key : Text) (store : KeyStore)
    → IsKeyStore store
    → now ≤ later
    → live later key (purge_expired now store) ≡ live later key store
unfolding live purge_expired
live-purge_expired now later key store wf le =
    ground (arith, lookup-filter (λ entry. not (ltb entry.1.1 now)) key store.entries wf)

reserve_taken :
    (now : ℕ) (key job_id : Text) (store : KeyStore)
    → IsKeyStore store
    → (reserve now key job_id store).0 ≡ not (is_some (live now key store))
unfolding live reserve
reserve_taken now key job_id store wf =
    ground (arith, lookup-filter (λ entry. not (ltb entry.1.1 now)) key store.entries wf)

live-reserve :
    (now later : ℕ) (key job_id other_key : Text) (store : KeyStore)
    → IsKeyStore store
    → now ≤ later
    → live later other_key (reserve now key job_id store).1 ≡ (
        if (reserve now key job_id store).0 && key == other_key
        then if ltb (now + store.ttl) later then none else some job_id
        else live later other_key store)
unfolding live reserve
live-reserve now later key job_id other_key store wf le =
    let kept = filter (λ (entry : Text × (Text × ℕ)). not (ltb entry.1.1 now)) store.entries in
    ground (
      arith,
      lookup-insert key other_key (job_id, now + store.ttl) kept,
      lookup-filter (λ entry. not (ltb entry.1.1 now)) key store.entries wf,
      lookup-filter (λ entry. not (ltb entry.1.1 now)) other_key store.entries wf,
      text_eq_iff key other_key,
    )

reserve-IsKeyStore :
    (now : ℕ) (key job_id : Text) (store : KeyStore)
    → IsKeyStore store
    → IsKeyStore (reserve now key job_id store).1
unfolding reserve
reserve-IsKeyStore now key job_id store wf =
    let kept = filter (λ (entry : Text × (Text × ℕ)). not (ltb entry.1.1 now)) store.entries in
    let still = filter-KeysDistinct (λ entry. not (ltb entry.1.1 now)) store.entries wf in
    elim (Bool-cases (is_some (lookup key kept))) [
      | inl taken ↦ rw (taken, reserve) still
      | inr free ↦ rw (free, reserve) (insert-KeysDistinct key (job_id, now + store.ttl) kept still)
    ]

-- A key is reserved exactly if it stands for no job. From then on it stands for the job through
-- the last tick of the lifetime, and for none afterwards; every other key, and a key that was
-- taken, stands for what it did. The keys stay distinct.
pub reserve_lem :
    (now later : ℕ) (key job_id other_key : Text) (store : KeyStore)
    → IsKeyStore store
    → now ≤ later
    → ((reserve now key job_id store).0 ≡ not (is_some (live now key store)))
      × (live later other_key (reserve now key job_id store).1 ≡ (
          if (reserve now key job_id store).0 && key == other_key
          then if ltb (now + store.ttl) later then none else some job_id
          else live later other_key store))
      × IsKeyStore (reserve now key job_id store).1
reserve_lem now later key job_id other_key store wf le = (
  reserve_taken now key job_id store wf,
  live-reserve now later key job_id other_key store wf le,
  reserve-IsKeyStore now key job_id store wf,
)

read_entry-IsKeyStore :
    (now : ℕ) (key : Text) (store : KeyStore) (entry : Option (Text × ℕ))
    → IsKeyStore store
    → IsKeyStore (read_entry now key store entry).1
read_entry-IsKeyStore now key store none wf = wf
read_entry-IsKeyStore now key store (some (job_id, expires_at)) wf =
    elim (Bool-cases (ltb expires_at now)) [
      | inl gone ↦ rw gone (erase-KeysDistinct key store.entries wf)
      | inr alive ↦ rw alive wf
    ]

-- Reading a key says for which job it stands, and changes that for no key, now or later.
pub get_key_lem :
    (now later : ℕ) (key other_key : Text) (store : KeyStore)
    → IsKeyStore store
    → now ≤ later
    → ((get_key now key store).0 ≡ live now key store)
      × (live later other_key (get_key now key store).1 ≡ live later other_key store)
      × IsKeyStore (get_key now key store).1
unfolding get_key live
get_key_lem now later key other_key store wf le = (
  ground arith,
  ground (arith, lookup-erase key other_key store.entries, text_eq_iff key other_key),
  read_entry-IsKeyStore now key store (lookup key store.entries) wf,
)
