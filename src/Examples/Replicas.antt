-- ===== src/Examples/Replicas.antt =====
-- Two requests of one client at two processes of infrastructure/rate_limit/redis_sliding_window.py.
use marketplace_pipeline.Base.{◌≤◌, refl, [], Text, Text-Eq, contains, text_eq, codes, arith}
use marketplace_pipeline.Api.RateLimit.Replicas.{
  Replicas, arrive, arrives, ReplicasReach, fresh, after,
}
use marketplace_pipeline.Api.RateLimit.Replicas.Entries.{in_window_of}
use marketplace_pipeline.Api.RateLimit.Replicas.Bounded.{replicas_limited}
use marketplace_pipeline.Examples.App.{Sets, sets, sets-SortedSetLaws}

abbrev prefix : Text
prefix = codes "ratelimit"

abbrev ip : Text
ip = codes "10.0.0.1"

abbrev nobody : Replicas Sets
nobody = record { redis = λ key. []; clock = 0; used = []; refused = []; admitted = [] }

abbrev two_came : Replicas Sets
two_came =
    arrive sets 1 60 prefix ip 9 (codes "b") (arrive sets 1 60 prefix ip 4 (codes "a") nobody)

two_came-ReplicasReach : ReplicasReach sets 1 60 prefix ip two_came
unfolding contains arrive text_eq
two_came-ReplicasReach =
    after (after (fresh (λ key. []) refl) (arrives 4 (codes "a") (omega arith) refl))
      (arrives 9 (codes "b") (omega arith) refl)

replicas_limited_example : in_window_of 60 1 two_came.admitted ≤ 1
replicas_limited_example =
    replicas_limited sets sets-SortedSetLaws 1 60 prefix ip (omega arith) (omega arith) two_came 1
      two_came-ReplicasReach
