-- ===== src/Http/Profiles.antt =====
-- infrastructure/http/ozon_http.py: the tables of browsers and screens, the choice among them, and how
-- the client is built from the settings and closed. `random.choice` is given the number of items and
-- gives a position.
use marketplace_pipeline.Base.{
  ℕ, max, Option, none, some, List, [], ◌∷◌, ◌++◌, length, get_elem?, Text, Text-Eq, codes,
  rstrip_by, nat_eq, Dict,
}
use marketplace_pipeline.Composition.Settings.{Settings}
use marketplace_pipeline.Http.Headers.{BrowserProfile, parse_proxy_list, parse_cookie_header}
use marketplace_pipeline.Http.Environment.{Environment, HttpSettings, HttpState}

-- `_VIEWPORTS`
unfoldable pub viewports : List (ℕ × ℕ)
viewports = (1920, 1080) ∷ (1440, 900) ∷ (1366, 768) ∷ (390, 844) ∷ []

abbrev pub chrome_mac : BrowserProfile
chrome_mac = record {
  name = codes "chrome";
  user_agent =
      codes "Mozilla/5.0 (Macintosh; Intel Mac OS X 10_15_7) AppleWebKit/537.36 "
      ++ codes "(KHTML, like Gecko) Chrome/122.0.0.0 Safari/537.36";
  sec_ch_ua =
      some (codes "\"Chromium\";v=\"122\", \"Google Chrome\";v=\"122\", \"Not-A.Brand\";v=\"99\"");
  sec_ch_ua_mobile = some (codes "?0");
  sec_ch_ua_platform = some (codes "\"macOS\"");
}

abbrev pub chrome_windows : BrowserProfile
chrome_windows = record {
  name = codes "chrome";
  user_agent =
      codes "Mozilla/5.0 (Windows NT 10.0; Win64; x64) AppleWebKit/537.36 "
      ++ codes "(KHTML, like Gecko) Chrome/121.0.0.0 Safari/537.36";
  sec_ch_ua =
      some (codes "\"Chromium\";v=\"121\", \"Google Chrome\";v=\"121\", \"Not-A.Brand\";v=\"99\"");
  sec_ch_ua_mobile = some (codes "?0");
  sec_ch_ua_platform = some (codes "\"Windows\"");
}

abbrev pub yandex_windows : BrowserProfile
yandex_windows = record {
  name = codes "yandex";
  user_agent =
      codes "Mozilla/5.0 (Windows NT 10.0; Win64; x64) AppleWebKit/537.36 "
      ++ codes "(KHTML, like Gecko) Chrome/122.0.0.0 YaBrowser/24.3.0.0 Safari/537.36";
  sec_ch_ua =
      some (codes "\"Chromium\";v=\"122\", \"YaBrowser\";v=\"24\", \"Not-A.Brand\";v=\"99\"");
  sec_ch_ua_mobile = some (codes "?0");
  sec_ch_ua_platform = some (codes "\"Windows\"");
}

abbrev pub yandex_mac : BrowserProfile
yandex_mac = record {
  name = codes "yandex";
  user_agent =
      codes "Mozilla/5.0 (Macintosh; Intel Mac OS X 10_15_7) AppleWebKit/537.36 "
      ++ codes "(KHTML, like Gecko) Chrome/122.0.0.0 YaBrowser/24.3.0.0 Safari/537.36";
  sec_ch_ua =
      some (codes "\"Chromium\";v=\"122\", \"YaBrowser\";v=\"24\", \"Not-A.Brand\";v=\"99\"");
  sec_ch_ua_mobile = some (codes "?0");
  sec_ch_ua_platform = some (codes "\"macOS\"");
}

abbrev pub safari_mac : BrowserProfile
safari_mac = record {
  name = codes "safari";
  user_agent =
      codes "Mozilla/5.0 (Macintosh; Intel Mac OS X 10_15_7) AppleWebKit/605.1.15 "
      ++ codes "(KHTML, like Gecko) Version/17.2 Safari/605.1.15";
  sec_ch_ua = none;
  sec_ch_ua_mobile = none;
  sec_ch_ua_platform = none;
}

abbrev pub safari_iphone : BrowserProfile
safari_iphone = record {
  name = codes "safari";
  user_agent =
      codes "Mozilla/5.0 (iPhone; CPU iPhone OS 17_2 like Mac OS X) AppleWebKit/605.1.15 "
      ++ codes "(KHTML, like Gecko) Version/17.2 Mobile/15E148 Safari/604.1";
  sec_ch_ua = none;
  sec_ch_ua_mobile = some (codes "?1");
  sec_ch_ua_platform = some (codes "\"iOS\"");
}

-- `_BROWSER_PROFILES`
unfoldable pub browser_profiles : List BrowserProfile
browser_profiles =
    chrome_mac ∷ chrome_windows ∷ yandex_windows ∷ yandex_mac ∷ safari_mac ∷ safari_iphone ∷ []

abbrev item_or : {A : Type 0} → Option A → A → A
item_or none first = first
item_or (some a) first = a

module _ {W : Type 0} (choice : ℕ → W → ℕ × W) where
  -- `random.choice`, which gives a position in the sequence; the first item stands for others.
  abbrev choose : {A : Type 0} → A → List A → W → A × W
  choose first items w =
      let (i, w') = choice (length items) w in (item_or (get_elem? items i) first, w')

  -- `_pick_viewport`
  unfoldable pub pick_viewport : W → (ℕ × ℕ) × W
  unfolding viewports
  pick_viewport = choose (1920, 1080) viewports

  -- `_pick_browser_profile`
  unfoldable pub pick_browser_profile : W → BrowserProfile × W
  unfolding browser_profiles
  pick_browser_profile = choose chrome_mac browser_profiles

-- `build_ozon_http_client_from_settings` and what `__init__` makes of it. A tick is a thousandth of a
-- second; a delay that is not given for one bound leaves the fixed delay.
unfoldable pub ozon_settings : Settings → HttpSettings
unfolding parse_proxy_list parse_cookie_header
ozon_settings s = record {
  api_base_url = s.ozon_api_base_url;
  category_path = rstrip_by (λ c. nat_eq c b'/') s.ozon_category_path ++ codes "/";
  longest_delay = 60000;
  max_retries = max 1 s.http_max_retries;
  base_delay = s.http_retry_base_delay;
  request_delay = s.ozon_request_delay_seconds;
  request_delay_min = s.ozon_request_delay_min_seconds;
  request_delay_max = s.ozon_request_delay_max_seconds;
  warmup_session = s.ozon_warmup_session;
  rotate_user_agents = s.ozon_rotate_user_agents;
  first_profile = chrome_mac;
  proxies = parse_proxy_list s.ozon_proxy_list;
  static_cookies = parse_cookie_header s.ozon_cookie;
}

-- The state of a client that is built.
unfoldable pub new_client : {W C : Type 0} → W → HttpState W C
new_client world = record {
  proxy_index = 0;
  last_request_at = 0;
  clients = [];
  warmed_proxies = [];
  fingerprints = [];
  world = world;
}

module _ {W C P : Type 0} (env : Environment W C P) where
  abbrev close_all : Dict (Option Text) C → W → W
  close_all [] w = w
  close_all ((proxy, client) ∷ clients) w = close_all clients (env.close_client client w)

  -- `close`
  unfoldable pub close : HttpState W C → HttpState W C
  close s = record s {
    clients = [];
    warmed_proxies = [];
    fingerprints = [];
    world = close_all s.clients s.world;
  }
