-- ===== src/Api/RateLimit/Redis/Agreement.antt =====
-- The limiter in Redis against the limiter in memory of interfaces/api/middleware/rate_limit.py.
use marketplace_pipeline.Base.{
  ℕ, ◌+◌, ◌-◌, ◌<◌, ◌≡◌, subst, sym, ◌∙◌, false, Bool-cases, inl, inr, none, [], ◌∷◌, ◌++◌, Text,
  Text-Eq, text_eq, text_eq_iff, text_eq_prefix, ◌==◌, lookup, lookup-insert, missing-filter,
  filter, length, length-map, codes, leb, nat_eq, if◌then◌else◌, arith,
}
use marketplace_pipeline.Api.RateLimit.{Hits, hits_of, is_recent, allow}
use marketplace_pipeline.Api.RateLimit.Redis.{
  SortedSets, SortedSetLaws, outside, redis_key, forget_old, allow_in_redis, run_pipeline,
}
use marketplace_pipeline.Api.RateLimit.Redis.Scores.{
  scores, scores-insert, scores-filter, recent_all,
}

module _ {R : Type 0} (redis : SortedSets R) (laws : SortedSetLaws redis) (limit minute : ℕ)
    (key_prefix : Text) (pos : 0 < minute) where
  abbrev pub key_of : Text → Text
  key_of ip = redis_key redis limit minute key_prefix ip

  -- The scores of every client are the time stamps that the limiter in memory keeps.
  abbrev pub Agree : R → Hits → Type 0
  Agree r hits = (ip : Text) → scores (redis.members (key_of ip) r) ≡ hits_of ip hits

  pub key_of_eq : (a b : Text) → text_eq (key_of a) (key_of b) ≡ text_eq a b
  unfolding redis_key
  key_of_eq a b =
      text_eq_prefix key_prefix (codes ":" ++ a) (codes ":" ++ b) ∙ text_eq_prefix (codes ":") a b

  scores-forget_old :
      (now : ℕ) (key : Text) (r : R)
      → scores (redis.members key (forget_old redis limit minute key_prefix now key r))
        ≡ filter (is_recent (minute - 1) now) (scores (redis.members key r))
  scores-forget_old now key r = elim (Bool-cases (leb minute now)) [
    | inl h ↦ rw h (
        ground (
          arith,
          text_eq_iff key key,
          laws.zremrangebyscore_law key key 0 (now - minute) r,
          scores-filter minute now (redis.members key r) pos (ground (arith, h)),
        ))
    | inr h ↦ rw h (sym (recent_all minute now (scores (redis.members key r)) (ground (arith, h))))
  ]

  pub other-forget_old :
      (now : ℕ) (key j : Text) (r : R)
      → text_eq key j ≡ false
      → redis.members j (forget_old redis limit minute key_prefix now key r) ≡ redis.members j r
  other-forget_old now key j r h =
      ground (arith, h, laws.zremrangebyscore_law key j 0 (now - minute) r)

  pub missing-forget_old :
      (now : ℕ) (key j m : Text) (r : R)
      → lookup m (redis.members j r) ≡ none
      → lookup m (redis.members j (forget_old redis limit minute key_prefix now key r)) ≡ none
  missing-forget_old now key j m r h = ground (
    arith,
    h,
    laws.zremrangebyscore_law key j 0 (now - minute) r,
    missing-filter (outside 0 (now - minute)) m (redis.members j r),
  )

  -- What the commands of the pipeline leave under the client's key: with the new member, and when it
  -- is taken out again.
  pipeline_lem :
      (key : Text) (now : ℕ) (member : Text) (r : R)
      → lookup member (redis.members key r) ≡ none
      → let old = forget_old redis limit minute key_prefix now key r in
        let added = redis.zadd key member now old in
        let recent = filter (is_recent (minute - 1) now) (scores (redis.members key r)) in
        (redis.zcard key added ≡ length recent + 1)
        × (scores (redis.members key added) ≡ recent ++ now ∷ [])
        × (scores (redis.members key (redis.zrem key member added)) ≡ recent)
  pipeline_lem key now member r new =
      let old = forget_old redis limit minute key_prefix now key r in
      let (sum, count, taken) =
        scores-insert member now (redis.members key old)
          (missing-forget_old now key key member r new) in
      let kept = scores-forget_old now key r in
      let added = laws.zadd_law key key member now old in
      let size = length-map (redis.members key old) (λ (entry : Text × ℕ). entry.1) in
      (
        ground (
          arith,
          laws.zcard_law key (redis.zadd key member now old),
          added,
          text_eq_iff key key,
          count,
          kept,
          size,
        ),
        ground (arith, added, text_eq_iff key key, sum, kept),
        ground (
          arith,
          added,
          text_eq_iff key key,
          taken,
          kept,
          laws.zrem_law key key member (redis.zadd key member now old),
        ),
      )

  other_key_lem :
      (key j : Text) (now : ℕ) (member : Text) (r : R)
      → text_eq key j ≡ false
      → let added =
          redis.zadd key member now (forget_old redis limit minute key_prefix now key r) in
        (redis.members j added ≡ redis.members j r)
        × (redis.members j (redis.zrem key member added) ≡ redis.members j r)
  other_key_lem key j now member r h =
      let old = forget_old redis limit minute key_prefix now key r in
      let added = laws.zadd_law key j member now old in
      let same = other-forget_old now key j r h in
      (
        ground (arith, h, added, same),
        ground (arith, h, added, same, laws.zrem_law key j member (redis.zadd key member now old)),
      )

  hits_of-allow :
      (ip c : Text) (now : ℕ) (hits : Hits)
      → hits_of c (allow limit (minute - 1) ip now hits).1 ≡ (
          let recent = filter (is_recent (minute - 1) now) (hits_of ip hits) in
          if nat_eq limit 0
          then hits_of c hits
          else if ip == c
          then if leb limit (length recent) then recent else recent ++ now ∷ []
          else hits_of c hits)
  unfolding allow hits_of
  hits_of-allow ip c now hits =
      let recent = filter (is_recent (minute - 1) now) (hits_of ip hits) in
      ground (arith, lookup-insert ip c recent hits, lookup-insert ip c (recent ++ now ∷ []) hits)

  pub same_client :
      (ip member : Text) (now : ℕ) (r : R) (hits : Hits)
      → Agree r hits
      → lookup member (redis.members (key_of ip) r) ≡ none
      → let (x, r') = allow_in_redis redis limit minute key_prefix ip now member r in
        let (y, hits') = allow limit (minute - 1) ip now hits in
        (x ≡ y) × (scores (redis.members (key_of ip) r') ≡ hits_of ip hits')
  unfolding allow_in_redis run_pipeline allow
  same_client ip member now r hits agree new =
      let (count, in_full, out) = pipeline_lem (key_of ip) now member r new in
      (
        ground (arith, count, agree ip),
        ground
            (arith, count, in_full, out, agree ip, hits_of-allow ip ip now hits, text_eq_iff ip ip),
      )

  other_client_in_redis :
      (ip c member : Text) (now : ℕ) (r : R) (hits : Hits)
      → Agree r hits
      → text_eq ip c ≡ false
      → scores (
          redis.members (key_of c) (allow_in_redis redis limit minute key_prefix ip now member r).1)
        ≡ hits_of c (allow limit (minute - 1) ip now hits).1
  unfolding allow_in_redis run_pipeline
  other_client_in_redis ip c member now r hits agree h =
      let (kept, still) = other_key_lem (key_of ip) (key_of c) now member r (key_of_eq ip c ∙ h) in
      ground (arith, kept, still, h, agree c, hits_of-allow ip c now hits)

  pub Agree-allow :
      (ip member : Text) (now : ℕ) (r : R) (hits : Hits)
      → Agree r hits
      → lookup member (redis.members (key_of ip) r) ≡ none
      → Agree
          (allow_in_redis redis limit minute key_prefix ip now member r).1
          (allow limit (minute - 1) ip now hits).1
  Agree-allow ip member now r hits agree new c = elim (Bool-cases (text_eq ip c)) [
    | inl same ↦
        subst
          (λ d.
            scores (
              redis.members (key_of d)
                (allow_in_redis redis limit minute key_prefix ip now member r).1)
            ≡ hits_of d (allow limit (minute - 1) ip now hits).1)
          ((text_eq_iff ip c).0 same) (same_client ip member now r hits agree new).1
    | inr other ↦ other_client_in_redis ip c member now r hits agree other
  ]
