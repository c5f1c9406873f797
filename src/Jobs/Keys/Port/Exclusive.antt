-- ===== src/Jobs/Keys/Port/Exclusive.antt =====
-- What the port of domain/ports/job_idempotency_store.py gives to the processes that share a store.
use marketplace_pipeline.Base.{
  ℕ, ◌+◌, ◌≤◌, ◌≡◌, refl, ◌∙◌, true, false, Option, some, List, [], ◌∷◌, Text, Text-Eq, text_eq_iff,
  arith,
}
use marketplace_pipeline.Jobs.Keys.{KeyStore, get_key, reserve}
use marketplace_pipeline.Jobs.Keys.Lifetime.{IsKeyStore, live}
use marketplace_pipeline.Jobs.Keys.Port.{
  JobIdempotencyStore, IsJobIdempotencyStore, memory_store, memory_store-IsJobIdempotencyStore,
  RedisKeys, RedisKeysLaws, prefixed, redis_get, redis_reserve, redis_store,
  redis_store-IsJobIdempotencyStore,
}

pub data Call : Type 0 where
  gets : (now : ℕ) (key : Text) → Call
  reserves : (now : ℕ) (key job_id : Text) → Call

abbrev pub time_of : Call → ℕ
time_of (gets now key) = now
time_of (reserves now key job_id) = now

-- The calls come from one time to another, and do not go back.
abbrev pub InTime : ℕ → ℕ → List Call → Type 0
InTime from to [] = from ≤ to
InTime from to (call ∷ calls) = (from ≤ time_of call) × InTime (time_of call) to calls

module _ {S : Type 0} (store : JobIdempotencyStore S) where
  abbrev do_call : Call → S → S
  do_call (gets now key) s = (store.get now key s).1
  do_call (reserves now key job_id) s = (store.reserve now key job_id s).1

  -- The calls of any processes, in their order.
  abbrev pub do_calls : List Call → S → S
  do_calls [] s = s
  do_calls (call ∷ calls) s = do_calls calls (do_call call s)

  module _ (ttl : ℕ) (IsStore : S → Type 0) (stands_for : ℕ → Text → S → Option Text)
      (laws : IsJobIdempotencyStore store ttl IsStore stands_for) where
    -- The key stands for the job from one time to another.
    abbrev Taken : Text → Text → ℕ → ℕ → S → Type 0
    Taken key job_id from to s =
        IsStore s × ((later : ℕ) → from ≤ later → later ≤ to → stands_for later key s ≡ some job_id)

    Taken-do_call :
        (call : Call) (key job_id : Text) (from to : ℕ) (s : S)
        → Taken key job_id from to s
        → from ≤ time_of call
        → time_of call ≤ to
        → Taken key job_id (time_of call) to (do_call call s)
    Taken-do_call (gets now k) key job_id from to s (wf, taken) ge le = (
      (laws.get_law now now k key s wf (omega arith)).2,
      λ later after before.
          (laws.get_law now later k key s wf after).1 ∙ taken later (omega arith) before,
    )
    Taken-do_call (reserves now k j) key job_id from to s (wf, taken) ge le = (
      (laws.reserve_law now now k j key s wf (omega arith)).2,
      λ later after before.
          let (free, set, still) = laws.reserve_law now later k j key s wf after in
          ground (
            arith,
            free,
            set,
            taken now ge le,
            taken later (omega arith) before,
            text_eq_iff k key,
          ),
    )

    InTime-le : (from to : ℕ) (calls : List Call) → InTime from to calls → from ≤ to
    InTime-le from to [] h = h
    InTime-le from to (call ∷ calls) h = omega (arith, h.0, InTime-le (time_of call) to calls h.1)

    Taken-do_calls :
        (calls : List Call) (key job_id : Text) (from to : ℕ) (s : S)
        → Taken key job_id from to s
        → InTime from to calls
        → Taken key job_id to to (do_calls calls s)
    Taken-do_calls [] key job_id from to s (wf, taken) h =
        (wf, λ later after before. taken later (omega (arith, h, after)) before)
    Taken-do_calls (call ∷ calls) key job_id from to s taken h =
        Taken-do_calls calls key job_id (time_of call) to (do_call call s)
          (Taken-do_call call key job_id from to s taken h.0
            (InTime-le (time_of call) to calls h.1))
          h.1

    reserved_once :
        (now to : ℕ) (key job_id other_job : Text) (calls : List Call) (s : S)
        → IsStore s
        → (store.reserve now key job_id s).0 ≡ true
        → InTime now to calls
        → to ≤ now + ttl
        → let t = do_calls calls (store.reserve now key job_id s).1 in
          ((store.get to key t).0 ≡ some job_id) × ((store.reserve to key other_job t).0 ≡ false)
    reserved_once now to key job_id other_job calls s wf won timely within =
        let t = do_calls calls (store.reserve now key job_id s).1 in
        let set = λ (later : ℕ) (after : now ≤ later).
          laws.reserve_law now later key job_id key s wf after in
        let (still, taken) =
          Taken-do_calls calls key job_id now to (store.reserve now key job_id s).1
            (
              (set now (omega arith)).2,
              λ later after before.
                  ground (arith, (set later after).1, won, within, text_eq_iff key key),
            )
            timely in
        let stands = taken to (omega arith) (omega arith) in
        (
          (laws.get_law to to key key t still (omega arith)).0 ∙ stands,
          ground
              (arith, (laws.reserve_law to to key other_job key t still (omega arith)).0, stands),
        )

-- The store in memory: once a reservation of a key has succeeded, then up to the last tick of the
-- lifetime, whatever calls come in between, reading the key gives that job, and no other
-- reservation of the key succeeds.
pub memory_reserved_once :
    (now to : ℕ) (key job_id other_job : Text) (calls : List Call) (s : KeyStore)
    → IsKeyStore s
    → (reserve now key job_id s).0 ≡ true
    → InTime now to calls
    → to ≤ now + s.ttl
    → let t = do_calls memory_store calls (reserve now key job_id s).1 in
      ((get_key to key t).0 ≡ some job_id) × ((reserve to key other_job t).0 ≡ false)
memory_reserved_once now to key job_id other_job calls s wf won timely within =
    reserved_once memory_store s.ttl (λ t. IsKeyStore t × (t.ttl ≡ s.ttl)) live
      (memory_store-IsJobIdempotencyStore s.ttl) now to key job_id other_job calls s (wf, refl) won
      timely within

-- The same of the store in Redis, for the calls of any number of processes, if Redis does what it
-- documents of GET and of SET with NX and EX.
pub redis_reserved_once :
    {R : Type 0} (redis : RedisKeys R) (ttl_seconds : ℕ)
    → RedisKeysLaws redis
    → (now to : ℕ) (key job_id other_job : Text) (calls : List Call) (r : R)
    → (redis_reserve redis ttl_seconds now key job_id r).0 ≡ true
    → InTime now to calls
    → to ≤ now + ttl_seconds
    → let t =
        do_calls
          (redis_store redis ttl_seconds)
          calls
          (redis_reserve redis ttl_seconds now key job_id r).1 in
      ((redis_get redis ttl_seconds to key t).0 ≡ some job_id)
      × ((redis_reserve redis ttl_seconds to key other_job t).0 ≡ false)
redis_reserved_once redis ttl_seconds laws now to key job_id other_job calls r won timely within =
    reserved_once (redis_store redis ttl_seconds) ttl_seconds (λ r. Unit {0})
      (λ now key r. redis.get now (prefixed key) r)
      (redis_store-IsJobIdempotencyStore redis ttl_seconds laws) now to key job_id other_job calls r
      tt won timely within
