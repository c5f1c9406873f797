-- ===== src/Examples/Routes.antt =====
-- The routes of the HTTP interface, on concrete requests.
use marketplace_pipeline.Base.{◌+◌, ◌≡◌, true, none, some, [], ◌∷◌, codes, length}
use marketplace_pipeline.Api.Metrics.{Metrics}
use marketplace_pipeline.Api.Jobs.{ApiSettings, ApiState, create_job}
use marketplace_pipeline.Api.Jobs.Counting.{create_job_counts}
use marketplace_pipeline.Examples.Jobs.{first_job}

abbrev metrics : Metrics
metrics = record {
  redis = some ((codes "metrics:pipeline_jobs_failed", 2) ∷ []);
  jobs_submitted = 0;
  jobs_completed = 0;
  jobs_failed = 0;
  http_requests = 4;
  http_duration_sum = 20;
  http_duration_count = 4;
  job_duration_sum = 0;
  job_duration_count = 0;
}

abbrev api_settings : ApiSettings
api_settings = record {
  pipeline = record {
    mock_llm = true;
    mock_crm = true;
    openai_api_key = [];
    amocrm_subdomain = [];
    amocrm_access_token = [];
  };
  proxy = record { mock_parser = true; ozon_proxy_list = []; proxy_market_api_key = [] };
  collection_target = 100;
}

abbrev api_state : ApiState
api_state = record {
  service = record { jobs = []; queue = []; keys = record { ttl = 5; entries = [] } };
  submitted = 3;
}

create_job_counts_example :
    length
        (create_job api_settings none 4
          (some 7)
          (some (codes "k"))
          first_job
          api_state).1.service.queue
      + 3
    ≡ 0
      + (create_job api_settings none 4 (some 7) (some (codes "k")) first_job api_state).1.submitted
create_job_counts_example =
    create_job_counts api_settings none 4 (some 7) (some (codes "k")) first_job api_state
