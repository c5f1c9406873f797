-- ===== src/Api/RateLimit/Redis/Equivalence.antt =====
-- Sequences of requests to the limiter in Redis and to the limiter in memory.
use marketplace_pipeline.Base.{
  ℕ, ◌-◌, ◌<◌, ◌≡◌, refl, ap₂, Bool, true, false, none, List, [], ◌∷◌, map, Text, Text-Eq, text_eq,
  text_eq_iff, contains, Distinct, lookup, lookup-insert, lookup-erase, arith,
}
use marketplace_pipeline.Api.RateLimit.{Hits, hits_of, allow}
use marketplace_pipeline.Api.RateLimit.Redis.{
  SortedSets, SortedSetLaws, redis_key, forget_old, allow_in_redis, run_pipeline,
}
use marketplace_pipeline.Api.RateLimit.Redis.Agreement.{
  Agree, Agree-allow, same_client, missing-forget_old,
}

-- A request of a client, with the member that Redis is given for it.
pub record Visit : Type 0 where
  pub now : ℕ
  pub client : Text
  pub member : Text

abbrev pub members_of : List Visit → List Text
members_of visits = map (λ (v : Visit). v.member) visits

unfoldable pub decisions : ℕ → ℕ → List Visit → Hits → List Bool
decisions limit minute [] hits = []
decisions limit minute (v ∷ visits) hits =
    let (allowed, after) = allow limit minute v.client v.now hits in
    allowed ∷ decisions limit minute visits after

module _ {R : Type 0} (redis : SortedSets R) (limit minute : ℕ) (key_prefix : Text) where
  unfoldable pub decisions_in_redis : List Visit → R → List Bool
  decisions_in_redis [] r = []
  decisions_in_redis (v ∷ visits) r =
      let (allowed, after) =
        allow_in_redis redis limit minute key_prefix v.client v.now v.member r in
      allowed ∷ decisions_in_redis visits after

  module _ (laws : SortedSetLaws redis) (pos : 0 < minute) where
    -- The members to come stand under no key.
    abbrev Unused : List Text → R → Type 0
    Unused ms r = (key m : Text) → contains m ms ≡ true → lookup m (redis.members key r) ≡ none

    missing-allow :
        (ip member : Text) (now : ℕ) (r : R) (key m : Text)
        → text_eq member m ≡ false
        → lookup m (redis.members key r) ≡ none
        → lookup m
            (redis.members key (allow_in_redis redis limit minute key_prefix ip now member r).1)
          ≡ none
    unfolding allow_in_redis run_pipeline
    missing-allow ip member now r key m differs h =
        let k = redis_key redis limit minute key_prefix ip in
        let old = forget_old redis limit minute key_prefix now k r in
        let added = redis.zadd k member now old in
        ground (
          arith,
          h,
          differs,
          laws.zadd_law k key member now old,
          laws.zrem_law k key member added,
          lookup-insert member m now (redis.members key old),
          lookup-erase member m (redis.members key added),
          missing-forget_old redis laws limit minute key_prefix pos now k key m r h,
        )

    Unused-allow :
        (v : Visit) (ms : List Text) (r : R)
        → Unused (v.member ∷ ms) r
        → Distinct (v.member ∷ ms)
        → Unused ms (allow_in_redis redis limit minute key_prefix v.client v.now v.member r).1
    unfolding contains
    Unused-allow v ms r unused distinct key m inside =
        missing-allow v.client v.member v.now r key m
          (ground (arith, distinct.0, inside, text_eq_iff v.member m))
          (unused key m (ground (arith, inside)))

    same_decisions :
        (visits : List Visit) (r : R) (hits : Hits)
        → Agree redis laws limit minute key_prefix pos r hits
        → Unused (members_of visits) r
        → Distinct (members_of visits)
        → decisions_in_redis visits r ≡ decisions limit (minute - 1) visits hits
    unfolding decisions decisions_in_redis contains
    same_decisions [] r hits agree unused distinct = refl
    same_decisions (v ∷ visits) r hits agree unused distinct =
        let new =
          unused (redis_key redis limit minute key_prefix v.client) v.member
            (ground (arith, text_eq_iff v.member v.member)) in
        ap₂ ◌∷◌
          (same_client redis laws limit minute key_prefix pos v.client v.member v.now r hits agree
            new).0
          (same_decisions visits _ _
            (Agree-allow redis laws limit minute key_prefix pos v.client v.member v.now r hits agree
              new)
            (Unused-allow v (members_of visits) r unused distinct) distinct.1)

    -- From a Redis without members on, the limiter in Redis lets through exactly the requests that
    -- the limiter in memory does with a window that is shorter by one tick, for requests of any
    -- clients at any times: the one forgets a time stamp when a minute is over, the other just after.
    -- The window has a tick, and no member comes twice.
    pub decisions_in_redis_lem :
        (visits : List Visit) (r : R)
        → ((key : Text) → redis.members key r ≡ [])
        → Distinct (members_of visits)
        → decisions_in_redis visits r ≡ decisions limit (minute - 1) visits []
    unfolding lookup hits_of
    decisions_in_redis_lem visits r empty distinct =
        same_decisions visits r []
          (λ ip. rw (empty (redis_key redis limit minute key_prefix ip)) refl)
          (λ key m inside. rw (empty key) refl) distinct
