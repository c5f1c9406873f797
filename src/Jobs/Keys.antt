-- ===== src/Jobs/Keys.antt =====
-- infrastructure/adapters/persistence/memory_job_idempotency_store.py. `now` is what
-- `time.monotonic()` returns, in ticks; the lock makes each call one step.
pub mod Lifetime
pub mod Port
use marketplace_pipeline.Base.{
  ℕ, ◌+◌, Bool, true, false, not, Option, none, some, List, [], ◌∷◌, Text, Text-Eq, Dict, lookup,
  insert, erase, ltb, is_some, filter, if◌then◌else◌,
}

pub record KeyStore : Type 0 where
  pub ttl : ℕ
  pub entries : Dict Text (Text × ℕ)

-- `_get_unlocked`, once the entry is read.
abbrev pub read_entry : ℕ → Text → KeyStore → Option (Text × ℕ) → Option Text × KeyStore
read_entry now key store none = (none, store)
read_entry now key store (some (job_id, expires_at)) =
    if ltb expires_at now
    then (none, record store { entries = erase key store.entries })
    else (some job_id, store)

unfoldable pub get_key : ℕ → Text → KeyStore → Option Text × KeyStore
get_key now key store = read_entry now key store (lookup key store.entries)

-- `_purge_expired_unlocked`
unfoldable pub purge_expired : ℕ → KeyStore → KeyStore
purge_expired now store = record store {
  entries = filter (λ entry. not (ltb entry.1.1 now)) store.entries;
}

unfoldable pub reserve : ℕ → Text → Text → KeyStore → Bool × KeyStore
unfolding purge_expired
reserve now key job_id store =
    let purged = purge_expired now store in
    if is_some (lookup key purged.entries)
    then (false, purged)
    else (true, record purged { entries = insert key (job_id, now + purged.ttl) purged.entries })
