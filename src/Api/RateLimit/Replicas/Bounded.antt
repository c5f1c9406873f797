-- ===== src/Api/RateLimit/Replicas/Bounded.antt =====
-- However the processes of infrastructure/rate_limit/redis_sliding_window.py interleave, the limit
-- holds.
use marketplace_pipeline.Base.{
  ℕ, ◌-◌, ◌≤◌, ◌<◌, ◌≡◌, refl, true, false, not, Bool-cases, inl, inr, [], ◌∷◌, ◌++◌, append-nil,
  Text, Text-Eq, text_eq_iff, contains, lookup, lookup-erase, filter, filter-append, ltb, nat_eq,
  arith,
}
use marketplace_pipeline.Api.RateLimit.{is_recent}
use marketplace_pipeline.Api.RateLimit.Redis.{SortedSets, SortedSetLaws, redis_key, run_pipeline}
use marketplace_pipeline.Api.RateLimit.Replicas.{
  Replicas, arrive, arrive_counted, take_out, ReplicaStep, arrives, takes_out, others,
  ReplicasReach, fresh, after,
}
use marketplace_pipeline.Api.RateLimit.Replicas.Accounted.{
  IsAccounted, held, missing-recent, held-run_pipeline, kept_accounted, room, unused_after,
}
use marketplace_pipeline.Api.RateLimit.Replicas.Entries.{
  apart, recent, apart-cons, apart-erase, in_window_of, window-append,
}

limit_test : (limit : ℕ) → 0 < limit → nat_eq limit 0 ≡ false
limit_test limit h = ground arith

module _ {R : Type 0} (redis : SortedSets R) (laws : SortedSetLaws redis) (limit minute : ℕ)
    (key_prefix : Text) (ip : Text) (pos : 0 < minute) (limited : 0 < limit) where
  abbrev client_key : Text
  client_key = redis_key redis limit minute key_prefix ip

  refused-IsAccounted :
      (s : Replicas R) (now : ℕ) (member : Text)
      → IsAccounted redis laws limit minute key_prefix ip pos s
      → s.clock ≤ now
      → contains member s.used ≡ false
      → IsAccounted redis laws limit minute key_prefix ip pos (record {
        redis = (run_pipeline redis limit minute key_prefix ip now member s.redis).1;
        clock = now;
        used = member ∷ s.used;
        refused = member ∷ s.refused;
        admitted = s.admitted;
      })
  unfolding contains filter
  refused-IsAccounted s now member inv le new =
      let (at_end, inserted, count) =
        held-run_pipeline redis laws limit minute key_prefix ip pos now member s.redis
          (inv.unused member new) in
      let kept = recent minute now (held redis laws limit minute key_prefix ip pos s.redis) in
      let missing =
        missing-recent redis laws limit minute key_prefix ip pos member now
          (held redis laws limit minute key_prefix ip pos s.redis) (inv.unused member new) in
      record {
        accounted = ground (
          arith,
          at_end,
          filter-append (λ (e : Text × ℕ). not (contains e.0 (member ∷ s.refused))) kept
              ((member, now) ∷ []),
          append-nil (apart (member ∷ s.refused) kept),
          apart-cons member s.refused kept missing,
          kept_accounted redis laws limit minute key_prefix ip pos s now inv le,
          text_eq_iff member member,
        );
        unused =
            λ m h. unused_after redis laws limit minute key_prefix ip pos s now member m inv new h;
        refused_used = λ m h. ground (arith, h, inv.refused_used m, text_eq_iff member m);
        bounded = inv.bounded;
      }

  admitted-IsAccounted :
      (s : Replicas R) (now : ℕ) (member : Text)
      → IsAccounted redis laws limit minute key_prefix ip pos s
      → s.clock ≤ now
      → contains member s.used ≡ false
      → ltb limit (run_pipeline redis limit minute key_prefix ip now member s.redis).0 ≡ false
      → IsAccounted redis laws limit minute key_prefix ip pos (record {
        redis = (run_pipeline redis limit minute key_prefix ip now member s.redis).1;
        clock = now;
        used = member ∷ s.used;
        refused = s.refused;
        admitted = s.admitted ++ (member, now) ∷ [];
      })
  unfolding contains filter
  admitted-IsAccounted s now member inv le new fits =
      let (at_end, inserted, count) =
        held-run_pipeline redis laws limit minute key_prefix ip pos now member s.redis
          (inv.unused member new) in
      let kept = recent minute now (held redis laws limit minute key_prefix ip pos s.redis) in
      record {
        accounted = ground (
          arith,
          at_end,
          filter-append (λ (e : Text × ℕ). not (contains e.0 s.refused)) kept ((member, now) ∷ []),
          filter-append (λ (e : Text × ℕ). is_recent (minute - 1) now e.1) s.admitted
              ((member, now) ∷ []),
          kept_accounted redis laws limit minute key_prefix ip pos s now inv le,
          inv.refused_used member,
          new,
        );
        unused =
            λ m h. unused_after redis laws limit minute key_prefix ip pos s now member m inv new h;
        refused_used = λ m h. ground (arith, h, inv.refused_used m);
        bounded = λ start. ground (
          arith,
          window-append minute start now member s.admitted,
          inv.bounded start,
          room redis laws limit minute key_prefix ip pos s now start inv le,
          count,
          fits,
        );
      }

  arrive-limited :
      (now : ℕ) (member : Text) (s : Replicas R)
      → arrive redis limit minute key_prefix ip now member s
        ≡ arrive_counted redis limit minute key_prefix ip now member s
  unfolding arrive
  arrive-limited now member s = rw (limit_test limit limited) refl

  arrive-IsAccounted :
      (s : Replicas R) (now : ℕ) (member : Text)
      → IsAccounted redis laws limit minute key_prefix ip pos s
      → s.clock ≤ now
      → contains member s.used ≡ false
      → IsAccounted redis laws limit minute key_prefix ip pos
          (arrive redis limit minute key_prefix ip now member s)
  unfolding arrive_counted
  arrive-IsAccounted s now member inv le new =
      rw (arrive-limited now member s)
        (elim (Bool-cases
          (ltb limit (run_pipeline redis limit minute key_prefix ip now member s.redis).0)) [
            | inl full ↦ rw full (refused-IsAccounted s now member inv le new)
            | inr fits ↦ rw fits (admitted-IsAccounted s now member inv le new fits)
          ])

  take_out-IsAccounted :
      (s : Replicas R) (member : Text)
      → IsAccounted redis laws limit minute key_prefix ip pos s
      → contains member s.refused ≡ true
      → IsAccounted redis laws limit minute key_prefix ip pos
          (take_out redis limit minute key_prefix ip member s)
  unfolding take_out
  take_out-IsAccounted s member inv inside =
      let removed = laws.zrem_law client_key client_key member s.redis in
      record {
        accounted = ground (
          arith,
          removed,
          apart-erase member s.refused (held redis laws limit minute key_prefix ip pos s.redis)
              inside,
          inv.accounted,
          text_eq_iff client_key client_key,
        );
        unused = λ m h. ground (
          arith,
          removed,
          lookup-erase member m (held redis laws limit minute key_prefix ip pos s.redis),
          inv.unused m h,
          text_eq_iff client_key client_key,
        );
        refused_used = inv.refused_used;
        bounded = inv.bounded;
      }

  others-IsAccounted :
      (s : Replicas R) (r : R)
      → IsAccounted redis laws limit minute key_prefix ip pos s
      → held redis laws limit minute key_prefix ip pos r
        ≡ held redis laws limit minute key_prefix ip pos s.redis
      → IsAccounted redis laws limit minute key_prefix ip pos (record s { redis = r })
  others-IsAccounted s r inv same = record {
    accounted = rw same inv.accounted;
    unused = λ m h. rw same (inv.unused m h);
    refused_used = inv.refused_used;
    bounded = inv.bounded;
  }

  ReplicaStep-IsAccounted :
      {s t : Replicas R}
      → ReplicaStep redis limit minute key_prefix ip s t
      → IsAccounted redis laws limit minute key_prefix ip pos s
      → IsAccounted redis laws limit minute key_prefix ip pos t
  ReplicaStep-IsAccounted {s} (arrives now member le new) inv =
      arrive-IsAccounted s now member inv le new
  ReplicaStep-IsAccounted {s} (takes_out member inside) inv =
      take_out-IsAccounted s member inv inside
  ReplicaStep-IsAccounted {s} (others r same) inv = others-IsAccounted s r inv same

  fresh-IsAccounted :
      (r : R)
      → held redis laws limit minute key_prefix ip pos r ≡ []
      → IsAccounted redis laws limit minute key_prefix ip pos
          (record { redis = r; clock = 0; used = []; refused = []; admitted = [] })
  unfolding filter lookup contains
  fresh-IsAccounted r empty = record {
    accounted = rw empty refl;
    unused = λ m h. rw empty refl;
    refused_used = λ m h. h;
    bounded = λ start. ground arith;
  }

  ReplicasReach-IsAccounted :
      {s : Replicas R}
      → ReplicasReach redis limit minute key_prefix ip s
      → IsAccounted redis laws limit minute key_prefix ip pos s
  ReplicasReach-IsAccounted (fresh r empty) = fresh-IsAccounted r empty
  ReplicasReach-IsAccounted (after before step) =
      ReplicaStep-IsAccounted step (ReplicasReach-IsAccounted before)

  -- In every order of the pipelines of any number of processes and of the commands that take out the
  -- members of refused requests, with other clients' commands in between: of the requests of one
  -- client, no more go on in any minute than the limit says, wherever the minute begins. The limit
  -- is not 0, the times of the pipelines do not go back, no member comes twice, and the window has a
  -- tick.
  pub replicas_limited :
      (s : Replicas R) (start : ℕ)
      → ReplicasReach redis limit minute key_prefix ip s
      → in_window_of minute start s.admitted ≤ limit
  replicas_limited s start reached = (ReplicasReach-IsAccounted reached).bounded start
