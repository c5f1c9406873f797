-- ===== src/Api/RateLimit/Replicas/Accounted.antt =====
-- What the processes of infrastructure/rate_limit/redis_sliding_window.py keep between their steps,
-- and what a pipeline does to it.
use marketplace_pipeline.Base.{
  ℕ, ◌+◌, ◌-◌, ◌≤◌, ◌<◌, ◌≡◌, ap, sym, ◌∙◌, true, false, not, Bool-cases, inl, inr, none, [], ◌∷◌,
  ◌++◌, Text, Text-Eq, text_eq_iff, contains, Dict, lookup, lookup-insert, missing-filter, insert,
  length, length-append, length-filter-le, leb, arith,
}
use marketplace_pipeline.Api.RateLimit.{is_recent}
use marketplace_pipeline.Api.RateLimit.Redis.{
  SortedSets, SortedSetLaws, redis_key, forget_old, run_pipeline,
}
use marketplace_pipeline.Api.RateLimit.Replicas.{Replicas}
use marketplace_pipeline.Api.RateLimit.Replicas.Entries.{
  apart, recent, forget-recent, recent_all, apart-recent, recent-recent, insert_new, in_window_of,
  window-recent,
}

module _ {R : Type 0} (redis : SortedSets R) (laws : SortedSetLaws redis) (limit minute : ℕ)
    (key_prefix : Text) (ip : Text) (pos : 0 < minute) where
  abbrev pub key : Text
  key = redis_key redis limit minute key_prefix ip

  abbrev pub held : R → Dict Text ℕ
  held r = redis.members key r

  -- Apart from the members of refused requests, Redis holds the requests of the last minute that
  -- went on, and no member that was never given; and the limit holds in every window.
  pub record IsAccounted (s : Replicas R) : Type 0 where
    pub accounted : apart s.refused (held s.redis) ≡ recent minute s.clock s.admitted
    pub unused : (m : Text) → contains m s.used ≡ false → lookup m (held s.redis) ≡ none
    pub refused_used : (m : Text) → contains m s.refused ≡ true → contains m s.used ≡ true
    pub bounded : (start : ℕ) → in_window_of minute start s.admitted ≤ limit

  pub held-forget_old :
      (now : ℕ) (r : R)
      → held (forget_old redis limit minute key_prefix now key r) ≡ recent minute now (held r)
  held-forget_old now r = elim (Bool-cases (leb minute now)) [
    | inl h ↦ rw h (
        ground (
          arith,
          text_eq_iff key key,
          laws.zremrangebyscore_law key key 0 (now - minute) r,
          forget-recent minute now (held r) pos (ground (arith, h)),
        ))
    | inr h ↦ rw h (sym (recent_all minute now (held r) (ground (arith, h))))
  ]

  pub missing-recent :
      (m : Text) (now : ℕ) (entries : Dict Text ℕ)
      → lookup m entries ≡ none
      → lookup m (recent minute now entries) ≡ none
  missing-recent m now entries h =
      ground (arith, h, missing-filter (λ e. is_recent (minute - 1) now e.1) m entries)

  pub held-run_pipeline :
      (now : ℕ) (member : Text) (r : R)
      → lookup member (held r) ≡ none
      → let (count, added) = run_pipeline redis limit minute key_prefix ip now member r in
        (held added ≡ recent minute now (held r) ++ (member, now) ∷ [])
        × (held added ≡ insert member now (recent minute now (held r)))
        × (count ≡ length (recent minute now (held r)) + 1)
  unfolding run_pipeline
  held-run_pipeline now member r new =
      let old = forget_old redis limit minute key_prefix now key r in
      let kept = recent minute now (held r) in
      let added : held (redis.zadd key member now old) ≡ insert member now kept =
        ground (
          arith,
          laws.zadd_law key key member now old,
          held-forget_old now r,
          text_eq_iff key key,
        ) in
      let at_end = insert_new member now kept (missing-recent member now (held r) new) in
      (
        added ∙ at_end,
        added,
        ground (
          arith,
          laws.zcard_law key (redis.zadd key member now old),
          added,
          at_end,
          length-append kept ((member, now) ∷ []),
        ),
      )

  -- The requests of the last minute that went on, before the new one.
  pub kept_accounted :
      (s : Replicas R) (now : ℕ)
      → IsAccounted s
      → s.clock ≤ now
      → apart s.refused (recent minute now (held s.redis)) ≡ recent minute now s.admitted
  kept_accounted s now inv le =
      apart-recent s.refused minute now (held s.redis)
      ∙ ap (λ entries. recent minute now entries) inv.accounted
      ∙ recent-recent minute s.clock now s.admitted le

  pub room :
      (s : Replicas R) (now start : ℕ)
      → IsAccounted s
      → s.clock ≤ now
      → now ≤ start + (minute - 1)
      → in_window_of minute start s.admitted ≤ length (recent minute now (held s.redis))
  room s now start inv le inside =
      let kept = recent minute now (held s.redis) in
      ground (
        arith,
        window-recent minute start now s.admitted inside,
        ap length (kept_accounted s now inv le),
        length-filter-le (λ (e : Text × ℕ). not (contains e.0 s.refused)) kept,
      )

  pub unused_after :
      (s : Replicas R) (now : ℕ) (member m : Text)
      → IsAccounted s
      → contains member s.used ≡ false
      → contains m (member ∷ s.used) ≡ false
      → lookup m (held (run_pipeline redis limit minute key_prefix ip now member s.redis).1) ≡ none
  unfolding contains
  unused_after s now member m inv new h =
      let (at_end, inserted, count) =
        held-run_pipeline now member s.redis (inv.unused member new) in
      let kept = recent minute now (held s.redis) in
      ground (
        arith,
        h,
        inserted,
        lookup-insert member m now kept,
        missing-recent m now (held s.redis),
        inv.unused m,
        text_eq_iff member m,
      )
