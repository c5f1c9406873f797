-- ===== src/Examples/Web.antt =====
-- The HTTP interface, the HTTP client and the checks before a job, on concrete requests.
use marketplace_pipeline.Base.{
  ℕ, suc, ◌*◌, ◌≤◌, ◌≡◌, ◌⊎◌, ◌↔◌, refl, Bool, true, false, Option, none, some, List, [], ◌∷◌, Text,
  map, codes, is_empty, length, filter, Result, ok, err, ozon_anti_bot, transport, arith, contains,
  lookup, lower, includes, find, starts_with,
}
use marketplace_pipeline.Domain.Prerequisites.{
  PipelinePrerequisites, is_proxy_quota_transport_error,
}
use marketplace_pipeline.Api.Auth.{
  Request, authenticate, goes_on, is_ascii, Provides, authenticate_iff,
}
use marketplace_pipeline.Api.PublicPaths.{is_public_path}
use marketplace_pipeline.Api.RateLimit.Requests.{in_window, serve, no_hits, InOrder}
use marketplace_pipeline.Api.RateLimit.Window.{serve_limited}
use marketplace_pipeline.Http.Headers.{BrowserProfile, SessionFingerprint}
use marketplace_pipeline.Http.Environment.{Environment, HttpSettings, HttpState, Response}
use marketplace_pipeline.Http.OzonClient.{get_composer_json, fetch_once, warm_up}
use marketplace_pipeline.Http.OzonClient.Attempts.{is_retried}
use marketplace_pipeline.Http.OzonClient.Turns.{times, in_turn}
use marketplace_pipeline.Http.OzonClient.Exhausted.{Tries, get_composer_json_exhausts}
use marketplace_pipeline.Http.OzonClient.Sessions.{HasClients}

abbrev ip : Text
ip = codes "10.0.0.1"

abbrev requests : List (ℕ × Text)
requests = (1, ip) ∷ (2, codes "10.0.0.2") ∷ (3, ip) ∷ (4, ip) ∷ (70, ip) ∷ []

requests-InOrder : InOrder 0 requests
unfolding InOrder
requests-InOrder = (omega arith, (omega arith, (omega arith, (omega arith, (omega arith, tt)))))

serve_limited_example :
    length (filter (in_window 60 1) (serve 2 60 ip requests no_hits).admitted) ≤ 2
serve_limited_example = serve_limited 2 60 ip requests 1 (omega arith) requests-InOrder

abbrev bearer_request : Request
bearer_request = record {
  path = codes "/api/v1/jobs";
  x_api_key = none;
  authorization = some (codes "Bearer secret");
}

authenticate_iff_example : (authenticate (codes "secret") bearer_request ≡ ok goes_on) ↔ (
    (is_empty (codes "secret") ≡ true)
    ⊎ (is_public_path (codes "/api/v1/jobs") ≡ true)
    ⊎ ((is_ascii (codes "secret") ≡ true) × Provides bearer_request (codes "secret")))
authenticate_iff_example = authenticate_iff (codes "secret") bearer_request

abbrev prerequisites : PipelinePrerequisites
prerequisites = record {
  mock_llm = true;
  mock_crm = false;
  openai_api_key = [];
  amocrm_subdomain = codes "shop";
  amocrm_access_token = codes " ";
}

abbrev chrome : BrowserProfile
chrome = record {
  name = codes "chrome";
  user_agent = codes "Mozilla/5.0";
  sec_ch_ua = none;
  sec_ch_ua_mobile = none;
  sec_ch_ua_platform = none;
}

-- The world counts the requests; a payload is whether it has widgets.
abbrev environment_with : (ℕ → Result (Response Bool) × ℕ) → Environment ℕ ℕ Bool
environment_with get = record {
  open_client = λ proxy cookies w. (0, w);
  close_client = λ client w. w;
  get = λ client url page headers w. get w;
  raise_for_status = λ response. ok tt;
  has_widget_states = λ payload. payload;
  random_profile = λ w. (chrome, w);
  random_viewport = λ w. ((1920, 1080), w);
  uniform = λ low high w. (low, w);
  monotonic = λ w. (0, w);
  sleep = λ delay w. w;
}

abbrev broken_network : Environment ℕ ℕ Bool
broken_network = environment_with (λ w. (err (transport (codes "connection reset")), suc w))

abbrev working_network : Environment ℕ ℕ Bool
working_network =
    environment_with (λ w. (ok (record { status_code = 200; text = []; json = ok true }), suc w))

abbrev http_settings : HttpSettings
http_settings = record {
  api_base_url = codes "https://api";
  category_path = codes "/c/";
  longest_delay = 60;
  max_retries = 2;
  base_delay = 1;
  request_delay = 0;
  request_delay_min = none;
  request_delay_max = none;
  warmup_session = true;
  rotate_user_agents = true;
  first_profile = chrome;
  proxies = codes "http://p1" ∷ codes "http://p2" ∷ [];
  static_cookies = [];
}

abbrev new_client : HttpState ℕ ℕ
new_client = record {
  proxy_index = 0;
  last_request_at = 0;
  clients = [];
  warmed_proxies = [];
  fingerprints = [];
  world = 0;
}

reset_is_no_quota_error : is_proxy_quota_transport_error (codes "connection reset") ≡ false
unfolding is_proxy_quota_transport_error lower includes find starts_with
reset_is_no_quota_error = refl

abbrev page_path : Text
page_path = codes "/c/?page=1"

always_retried :
    (proxy : Option Text) (fingerprint : SessionFingerprint) (s : HttpState ℕ ℕ)
    → is_retried broken_network http_settings
        (fetch_once broken_network http_settings page_path proxy fingerprint s).0
      ≡ true
unfolding is_retried fetch_once warm_up
always_retried proxy fingerprint s = ground (arith, reset_is_no_quota_error)

get_composer_json_exhausts_example :
    (detail : Text) × (t : HttpState ℕ ℕ) × (proxies : List (Option Text)) × (get_composer_json
        broken_network http_settings page_path new_client
      ≡ (err (ozon_anti_bot 403 detail), t))
    × Tries broken_network http_settings page_path 0 new_client proxies t
    × (proxies ≡ in_turn http_settings.proxies 4 0)
    × ((p : Text) → times (some p) proxies ≡ 2 * times (some p) (map some http_settings.proxies))
get_composer_json_exhausts_example =
    get_composer_json_exhausts broken_network http_settings page_path always_retried new_client

page_served : (get_composer_json working_network http_settings page_path new_client).0 ≡ ok true
unfolding get_composer_json contains lookup
page_served = refl

nothing_warm : HasClients working_network http_settings new_client
unfolding HasClients contains
nothing_warm = λ proxy warm. ground arith
