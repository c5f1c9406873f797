-- ===== src/Jobs/Keys/Port.antt =====
-- domain/ports/job_idempotency_store.py and its two adapters, memory_job_idempotency_store.py and
-- redis_job_idempotency_store.py. Redis is a parameter: `GET`, and `SET` with NX and EX, with what they
-- document. Each call is given the time.
pub mod Exclusive
use marketplace_pipeline.Base.{
  ℕ, ◌+◌, ◌≤◌, ◌≡◌, refl, ◌∙◌, Bool, true, false, not, ◌&&◌, Option, none, some, is_some, ◌++◌,
  Text, Text-Eq, text_eq_iff, text_eq_prefix, ◌==◌, codes, ltb, if◌then◌else◌, arith,
}
use marketplace_pipeline.Jobs.Keys.{KeyStore, get_key, reserve}
use marketplace_pipeline.Jobs.Keys.Lifetime.{live, IsKeyStore, get_key_lem, reserve_lem}

-- `JobIdempotencyStorePort`
pub record JobIdempotencyStore (S : Type 0) : Type 0 where
  pub get : ℕ → Text → S → Option Text × S
  pub reserve : ℕ → Text → Text → S → Bool × S

-- What a store whose keys live for `ttl` ticks promises. `stands_for` is the job that a key stands for
-- at a time, if nothing more is done.
pub record IsJobIdempotencyStore {S : Type 0} (store : JobIdempotencyStore S) (ttl : ℕ)
    (IsStore : S → Type 0) (stands_for : ℕ → Text → S → Option Text) : Type 0 where
  pub get_law :
      (now later : ℕ) (key other_key : Text) (s : S)
      → IsStore s
      → now ≤ later
      → ((store.get now key s).0 ≡ stands_for now key s)
        × (stands_for later other_key (store.get now key s).1 ≡ stands_for later other_key s)
        × IsStore (store.get now key s).1
  pub reserve_law :
      (now later : ℕ) (key job_id other_key : Text) (s : S)
      → IsStore s
      → now ≤ later
      → ((store.reserve now key job_id s).0 ≡ not (is_some (stands_for now key s)))
        × (stands_for later other_key (store.reserve now key job_id s).1 ≡ (
            if (store.reserve now key job_id s).0 && key == other_key
            then if ltb (now + ttl) later then none else some job_id
            else stands_for later other_key s))
        × IsStore (store.reserve now key job_id s).1

abbrev pub memory_store : JobIdempotencyStore KeyStore
memory_store = record { get = get_key; reserve = reserve }

-- `GET` and `SET ... NX EX`, whose answer is whether the key was set.
pub record RedisKeys (R : Type 0) : Type 0 where
  pub get : ℕ → Text → R → Option Text
  pub set_nx_ex : ℕ → Text → Text → ℕ → R → Bool × R

pub record RedisKeysLaws {R : Type 0} (redis : RedisKeys R) : Type 0 where
  pub nx_law :
      (now ttl : ℕ) (key value : Text) (r : R)
      → (redis.set_nx_ex now key value ttl r).0 ≡ not (is_some (redis.get now key r))
  pub ex_law :
      (now later ttl : ℕ) (key value other_key : Text) (r : R)
      → now ≤ later
      → redis.get later other_key (redis.set_nx_ex now key value ttl r).1 ≡ (
          if (redis.set_nx_ex now key value ttl r).0 && key == other_key
          then if ltb (now + ttl) later then none else some value
          else redis.get later other_key r)

-- `f"{_KEY_PREFIX}{key}"`
unfoldable pub prefixed : Text → Text
prefixed key = codes "job:idempotency:" ++ key

module _ {R : Type 0} (redis : RedisKeys R) (ttl_seconds : ℕ) where
  -- `get`
  unfoldable pub redis_get : ℕ → Text → R → Option Text × R
  unfolding prefixed
  redis_get now key r = (redis.get now (prefixed key) r, r)

  -- `reserve`
  unfoldable pub redis_reserve : ℕ → Text → Text → R → Bool × R
  unfolding prefixed
  redis_reserve now key job_id r = redis.set_nx_ex now (prefixed key) job_id ttl_seconds r

  abbrev pub redis_store : JobIdempotencyStore R
  redis_store = record { get = redis_get; reserve = redis_reserve }

  prefixed_eq : (a b : Text) → (prefixed a == prefixed b) ≡ (a == b)
  unfolding prefixed
  prefixed_eq a b = text_eq_prefix (codes "job:idempotency:") a b

  -- The store in Redis keeps the port's promises if Redis does what it documents.
  pub redis_store-IsJobIdempotencyStore :
      RedisKeysLaws redis
      → IsJobIdempotencyStore redis_store ttl_seconds
          (λ r. Unit {0})
          (λ now key r. redis.get now (prefixed key) r)
  unfolding redis_get redis_reserve
  redis_store-IsJobIdempotencyStore laws = record {
    get_law = λ now later key other_key r wf le. (refl, refl, tt);
    reserve_law = λ now later key job_id other_key r wf le. (
      laws.nx_law now ttl_seconds (prefixed key) job_id r,
      ground (
        arith,
        laws.ex_law now later ttl_seconds (prefixed key) job_id (prefixed other_key) r le,
        prefixed_eq key other_key,
      ),
      tt,
    );
  }

ttl-get_key : (now : ℕ) (key : Text) (store : KeyStore) → (get_key now key store).1.ttl ≡ store.ttl
unfolding get_key
ttl-get_key now key store = ground arith

ttl-reserve :
    (now : ℕ) (key job_id : Text) (store : KeyStore)
    → (reserve now key job_id store).1.ttl ≡ store.ttl
unfolding reserve
ttl-reserve now key job_id store = ground arith

-- The store in memory keeps them.
pub memory_store-IsJobIdempotencyStore :
    (ttl : ℕ) → IsJobIdempotencyStore memory_store ttl (λ s. IsKeyStore s × (s.ttl ≡ ttl)) live
memory_store-IsJobIdempotencyStore ttl = record {
  get_law = λ now later key other_key s wf le.
      let (read, kept, distinct) = get_key_lem now later key other_key s wf.0 le in
      (read, kept, (distinct, ttl-get_key now key s ∙ wf.1));
  reserve_law = λ now later key job_id other_key s wf le.
      let (taken, set, distinct) = reserve_lem now later key job_id other_key s wf.0 le in
      (taken, ground (arith, set, wf.1), (distinct, ttl-reserve now key job_id s ∙ wf.1));
}
