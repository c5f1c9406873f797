-- ===== src/Api/RateLimit/Redis.antt =====
-- infrastructure/rate_limit/redis_sliding_window.py, and `RedisRateLimitMiddleware` of
-- interfaces/api/middleware/rate_limit.py. Redis is a parameter: its commands on sorted sets, and
-- what they do to the members of a key with their scores. `now` is what `time.time()` returns, in
-- ticks, `minute` the number of ticks of the window. The commands of a pipeline are one step.
-- `expire` frees a key when all its scores have left the window, and is taken to change nothing.
pub mod Scores
pub mod Agreement
pub mod Equivalence
use marketplace_pipeline.Base.{
  ℕ, ◌+◌, ◌-◌, ◌≡◌, Bool, true, false, not, ◌&&◌, List, [], ◌∷◌, ◌++◌, Text, Text-Eq, ◌==◌, Dict,
  lookup, insert, erase, filter, length, codes, leb, ltb, nat_eq, if◌then◌else◌,
}
use marketplace_pipeline.Api.PublicPaths.{is_public_path}
use marketplace_pipeline.Api.RateLimit.{ClientInfo, client_ip}

pub record SortedSets (R : Type 0) : Type 0 where
  -- The members of a key with their scores, in the order in which they were added.
  pub members : Text → R → Dict Text ℕ
  -- `ZREMRANGEBYSCORE key min max`
  pub zremrangebyscore : Text → ℕ → ℕ → R → R
  -- `ZADD key score member`
  pub zadd : Text → Text → ℕ → R → R
  pub zcard : Text → R → ℕ
  pub zrem : Text → Text → R → R

abbrev pub outside : ℕ → ℕ → Text × ℕ → Bool
outside low high entry = not (leb low entry.1 && leb entry.1 high)

-- What Redis documents of the commands.
pub record SortedSetLaws {R : Type 0} (redis : SortedSets R) : Type 0 where
  pub zremrangebyscore_law :
      (key j : Text) (low high : ℕ) (r : R)
      → redis.members j (redis.zremrangebyscore key low high r)
        ≡ (if key == j then filter (outside low high) (redis.members j r) else redis.members j r)
  pub zadd_law :
      (key j member : Text) (score : ℕ) (r : R)
      → redis.members j (redis.zadd key member score r)
        ≡ (if key == j then insert member score (redis.members j r) else redis.members j r)
  pub zcard_law : (key : Text) (r : R) → redis.zcard key r ≡ length (redis.members key r)
  pub zrem_law :
      (key j member : Text) (r : R)
      → redis.members j (redis.zrem key member r)
        ≡ (if key == j then erase member (redis.members j r) else redis.members j r)

module _ {R : Type 0} (redis : SortedSets R) (limit minute : ℕ) (key_prefix : Text) where
  -- `f"{self._key_prefix}:{client_key}"`
  unfoldable pub redis_key : Text → Text
  redis_key client_key = key_prefix ++ (codes ":" ++ client_key)

  -- The range from 0 to `now - 60.0`, which has nothing in it before the first minute is over.
  abbrev pub forget_old : ℕ → Text → R → R
  forget_old now key r = if leb minute now then redis.zremrangebyscore key 0 (now - minute) r else r

  -- The pipeline, where `member` has a new `uuid4`: the number of members that it returns.
  unfoldable pub run_pipeline : Text → ℕ → Text → R → ℕ × R
  unfolding redis_key
  run_pipeline client_key now member r =
      let key = redis_key client_key in
      let added = redis.zadd key member now (forget_old now key r) in (redis.zcard key added, added)

  -- `allow`
  unfoldable pub allow_in_redis : Text → ℕ → Text → R → Bool × R
  unfolding run_pipeline
  allow_in_redis client_key now member r =
      let (count, added) = run_pipeline client_key now member r in
      if nat_eq limit 0
      then (true, r)
      else if ltb limit count
      then (false, redis.zrem (redis_key client_key) member added)
      else (true, added)

  -- `RedisRateLimitMiddleware.dispatch`: whether the request goes on to the next layer.
  unfoldable pub dispatch_in_redis : ClientInfo → ℕ → Text → R → Bool × R
  unfolding allow_in_redis
  dispatch_in_redis request now member r =
      if is_public_path request.path
      then (true, r)
      else allow_in_redis (client_ip request) now member r
