-- ===== src/Domain/Entities.antt =====
-- domain/entities, domain/value_objects and domain/models. A price is a whole number: both
-- collectors convert one from digits. A time stamp is a number of ticks.
use marketplace_pipeline.Base.{ℕ, Text, Bool, Option, List, codes, true, false}

pub data PriceSegment : Type 0 where
  economy standard premium : PriceSegment

-- The member's value.
unfoldable pub segment_value : PriceSegment → Text
segment_value economy = codes "Эконом"
segment_value standard = codes "Стандарт"
segment_value premium = codes "Премиум"

-- `a == b` of two members.
abbrev pub segment_eq : PriceSegment → PriceSegment → Bool
segment_eq economy economy = true
segment_eq standard standard = true
segment_eq premium premium = true
segment_eq _ _ = false

pub record Product : Type 0 where
  pub id : Text
  pub name : Text
  pub price : ℕ
  pub currency : Text
  pub url : Text
  pub category : Text
  pub collected_at : ℕ
  pub description : Text

pub record EnrichedProduct : Type 0 where
  pub product : Product
  pub open product use *
  pub segment : PriceSegment

pub record CollectionResult : Type 0 where
  pub products : List Product
  pub target_count : ℕ
  pub collected_count : ℕ
  pub exhausted : Bool
  pub degraded : Bool
  pub error_message : Option Text

pub record CrmTaskRequest : Type 0 where
  pub title : Text
  pub description : Text

pub record CrmTaskOutcome : Type 0 where
  pub task_id : Text
  pub title : Text
  pub mocked : Bool
  pub reused : Bool
  pub idempotency_key : Option Text

pub data JobStatus : Type 0 where
  pending running completed failed : JobStatus

pub record PipelineJob : Type 0 where
  pub id : Text
  pub status : JobStatus
  pub created_at : ℕ
  pub started_at : Option ℕ
  pub finished_at : Option ℕ
  pub collection_target : ℕ
  pub collected_count : Option ℕ
  pub classified_count : Option ℕ
  pub crm_tasks_count : Option ℕ
  pub output_path : Option Text
  pub error_message : Option Text
  pub correlation_id : Option Text
