-- ===== src/Api/RateLimit/Replicas.antt =====
-- Processes that share the Redis of infrastructure/rate_limit/redis_sliding_window.py: what they do
-- comes in any order, and a refused request's member is taken out some time after its pipeline.
pub mod Entries
pub mod Accounted
pub mod Bounded
use marketplace_pipeline.Base.{
  ℕ, ◌≤◌, ◌≡◌, Bool, true, false, List, [], ◌∷◌, ◌++◌, Text, Text-Eq, contains, ltb, nat_eq,
  if◌then◌else◌,
}
use marketplace_pipeline.Api.RateLimit.Redis.{SortedSets, redis_key, run_pipeline}

-- What Redis holds, the time of the last pipeline for the client, the members that were ever given
-- for it, those of refused requests, and those of requests that went on, with their times.
pub record Replicas (R : Type 0) : Type 0 where
  pub redis : R
  pub clock : ℕ
  pub used : List Text
  pub refused : List Text
  pub admitted : List (Text × ℕ)

module _ {R : Type 0} (redis : SortedSets R) (limit minute : ℕ) (key_prefix : Text)
    (ip : Text) where
  -- What a request of the client does up to the test of the count, past the first test of `allow`.
  unfoldable pub arrive_counted : ℕ → Text → Replicas R → Replicas R
  unfolding run_pipeline
  arrive_counted now member s =
      let (count, after) = run_pipeline redis limit minute key_prefix ip now member s.redis in
      record {
        redis = after;
        clock = now;
        used = member ∷ s.used;
        refused = if ltb limit count then member ∷ s.refused else s.refused;
        admitted = if ltb limit count then s.admitted else s.admitted ++ (member, now) ∷ [];
      }

  -- A request of the client: with the limit 0 it goes on at once, and Redis is not called.
  unfoldable pub arrive : ℕ → Text → Replicas R → Replicas R
  unfolding arrive_counted
  arrive now member s =
      if nat_eq limit 0
      then record s {
        clock = now;
        used = member ∷ s.used;
        admitted = s.admitted ++ (member, now) ∷ [];
      }
      else arrive_counted now member s

  -- The last command of a refused request.
  unfoldable pub take_out : Text → Replicas R → Replicas R
  take_out member s = record s {
    redis = redis.zrem (redis_key redis limit minute key_prefix ip) member s.redis;
  }

  -- Other clients' commands work on other keys.
  pub data ReplicaStep (s : Replicas R) : Replicas R → Type 0 where
    arrives :
        (now : ℕ) (member : Text)
        → s.clock ≤ now
        → contains member s.used ≡ false
        → ReplicaStep s (arrive now member s)
    takes_out :
        (member : Text) → contains member s.refused ≡ true → ReplicaStep s (take_out member s)
    others :
        (r : R)
        → redis.members (redis_key redis limit minute key_prefix ip) r
          ≡ redis.members (redis_key redis limit minute key_prefix ip) s.redis
        → ReplicaStep s (record s { redis = r })

  -- From a Redis that has nothing under the client's key.
  pub data ReplicasReach : Replicas R → Type 0 where
    fresh :
        (r : R)
        → redis.members (redis_key redis limit minute key_prefix ip) r ≡ []
        → ReplicasReach (record { redis = r; clock = 0; used = []; refused = []; admitted = [] })
    after : {s t : Replicas R} → ReplicasReach s → ReplicaStep s t → ReplicasReach t
