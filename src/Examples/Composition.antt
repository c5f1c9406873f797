-- ===== src/Examples/Composition.antt =====
-- The settings of a deployment, and the jobs that a process has finished.
use marketplace_pipeline.Base.{
  ◌+◌, ◌≡◌, ◌↔◌, refl, ℕ, Bool, List, some, true, false, [], ◌∷◌, Text, codes, strip, ok,
}
use marketplace_pipeline.Composition.Settings.{
  Settings, default_settings, postgres, celery, redis, get_settings,
}
use marketplace_pipeline.Composition.Connections.{connected, get_settings_iff}
use marketplace_pipeline.Api.Metrics.{Metrics, shown}
use marketplace_pipeline.Api.Metrics.Finished.{jobs_finished, no_metrics}
use marketplace_pipeline.Api.Metrics.Finished.Totals.{jobs_finished_lem}

abbrev output_dir : Text
output_dir = codes "data"

abbrev scaled : Settings
scaled = record default_settings {
  job_store_backend = postgres;
  job_runner_backend = celery;
  crm_idempotency_backend = redis;
  database_url = codes "postgresql://db/jobs";
  redis_url = codes "redis://cache";
}

get_settings_iff_example :
    ((get_settings (ok scaled) ≡ ok scaled) ↔ (connected scaled output_dir ≡ true))
    × ((t : Settings) → get_settings (ok scaled) ≡ ok t → t ≡ scaled)
unfolding strip
get_settings_iff_example = get_settings_iff scaled output_dir refl

abbrev spaced : Settings
spaced = record scaled { celery_broker_url = codes " " }

abbrev ended : List (Bool × ℕ)
ended = (true, 4) ∷ (false, 6) ∷ []

-- Celery's workers, with the counters in Redis.
abbrev shared : Metrics
shared = record no_metrics { redis = some [] }

jobs_finished_lem_example :
    let after = jobs_finished celery ended shared in
    ((shown after).0 ≡ (shown shared).0)
    × ((shown after).1 ≡ (shown shared).1 + 1)
    × ((shown after).2 + 1 ≡ (shown shared).2 + 2)
    × ((shown after).3 ≡ (shown shared).3)
    × (after.job_duration_sum ≡ 0)
    × (after.job_duration_count ≡ 0)
jobs_finished_lem_example = jobs_finished_lem celery ended shared
