-- ===== src/Domain/Prerequisites.antt =====
-- domain/services/pipeline_prerequisites.py and domain/services/proxy_prerequisites.py
use marketplace_pipeline.Base.{
  Bool, false, not, ◌&&◌, ◌≡◌, ◌↔◌, Option, none, some, List, [], ◌∷◌, ◌++◌, Text, codes, join,
  strip, lower, includes, any, is_empty, Result, ok, err, pipeline_configuration, if◌then◌else◌,
  arith,
}

pub record PipelinePrerequisites : Type 0 where
  pub mock_llm : Bool
  pub mock_crm : Bool
  pub openai_api_key : Text
  pub amocrm_subdomain : Text
  pub amocrm_access_token : Text

-- `if missing: errors.append(message)`
unfoldable pub report : Bool → Text → List Text
report missing message = if missing then message ∷ [] else []

unfoldable pub missing_credentials : PipelinePrerequisites → List Text
unfolding report
missing_credentials p =
    report (not p.mock_llm && is_empty (strip p.openai_api_key))
      (codes "OPENAI_API_KEY is required when MOCK_LLM=false")
    ++ (if not p.mock_crm
        then report (is_empty (strip p.amocrm_subdomain))
            (codes "AMOCRM_SUBDOMAIN is required when MOCK_CRM=false")
          ++ report (is_empty (strip p.amocrm_access_token))
              (codes "AMOCRM_ACCESS_TOKEN is required when MOCK_CRM=false")
        else [])

unfoldable pub validate_pipeline_prerequisites : PipelinePrerequisites → Result (Unit {0})
unfolding missing_credentials
validate_pipeline_prerequisites p =
    let errors = missing_credentials p in
    if is_empty errors then ok tt else err (pipeline_configuration (join (codes "; ") errors))

-- Every credential of a live adapter is there.
pub HasCredentials : PipelinePrerequisites → Type 0
HasCredentials p =
    (p.mock_llm ≡ false → is_empty (strip p.openai_api_key) ≡ false)
    × (p.mock_crm ≡ false → is_empty (strip p.amocrm_subdomain) ≡ false)
    × (p.mock_crm ≡ false → is_empty (strip p.amocrm_access_token) ≡ false)

-- A job passes the check exactly when every adapter that is live has its credentials.
pub validate_pipeline_prerequisites_iff :
    (p : PipelinePrerequisites) → (validate_pipeline_prerequisites p ≡ ok tt) ↔ HasCredentials p
unfolding validate_pipeline_prerequisites HasCredentials
validate_pipeline_prerequisites_iff p = ground arith

pub record ProxyPrerequisites : Type 0 where
  pub mock_parser : Bool
  pub ozon_proxy_list : Text
  pub proxy_market_api_key : Text

unfoldable pub quota_markers : List Text
quota_markers =
    codes "traffic"
    ∷ codes "quota"
    ∷ codes "balance"
    ∷ codes "payment required"
    ∷ codes "no traffic"
    ∷ codes "out of traffic"
    ∷ codes "limit exceeded"
    ∷ codes "insufficient"
    ∷ codes "недостаточно"
    ∷ codes "трафик"
    ∷ codes "баланс"
    ∷ []

unfoldable pub is_proxy_quota_transport_error : Text → Bool
unfolding quota_markers
is_proxy_quota_transport_error message =
    let lowered = lower message in any (λ marker. includes marker lowered) quota_markers

-- The checker is what `check_quota_available` does, if there is one.
unfoldable pub validate_proxy_prerequisites :
    ProxyPrerequisites → Option (Result (Unit {0})) → Result (Unit {0})
validate_proxy_prerequisites p quota_checker =
    if p.mock_parser
    then ok tt
    else if is_empty (strip p.proxy_market_api_key)
    then ok tt
    else if is_empty (strip p.ozon_proxy_list)
    then ok tt
    else elim quota_checker [ none ↦ ok tt | some checked ↦ checked ]
