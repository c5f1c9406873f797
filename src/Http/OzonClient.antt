-- ===== src/Http/OzonClient.antt =====
-- infrastructure/http/ozon_http.py: `OzonHttpClient`, on the calls of Http/Environment.antt. The log
-- lines are left out.
pub mod Attempts
pub mod Turns
pub mod Exhausted
pub mod Sessions
use marketplace_pipeline.Base.{
  ℕ, zero, suc, ◌+◌, ◌-◌, ◌*◌, ◌%◌, ◌^◌, min, max, Bool, true, false, not, ◌&&◌, ◌||◌, Option, none,
  some, List, [], ◌∷◌, ◌++◌, Text, Text-Eq, Eq, ◌==◌, codes, take, length, get_elem?, filter,
  contains, ltb, leb, nat_eq, if◌then◌else◌, Dict, lookup, insert, erase, Result, ok, err, Error,
  http_status, transport, other, proxy_quota_exhausted, ozon_anti_bot, Exec, exec_continue, ◌>>=◌,
  ◌>>>=◌, pure, ◌≡◌, ◌↔◌, refl, text_eq, text_eq_iff, arith, ap, is_empty, decimal,
}
use marketplace_pipeline.Domain.Prerequisites.{is_proxy_quota_transport_error}
use marketplace_pipeline.Http.Headers.{BrowserProfile, SessionFingerprint, browser_headers}
use marketplace_pipeline.Http.Environment.{
  Proxy-Eq, proxy_eq_iff, Response, Environment, HttpSettings, HttpState,
}

-- How many attempts `get_composer_json` makes.
unfoldable pub attempts : HttpSettings → ℕ
attempts settings = max 1 settings.max_retries * max 1 (length settings.proxies)

module _ {W C P : Type 0} (env : Environment W C P) (settings : HttpSettings) where
  -- `_next_proxy`
  unfoldable pub next_proxy : HttpState W C → Option Text × HttpState W C
  next_proxy s = if is_empty settings.proxies then (none, s) else (
    get_elem? settings.proxies (s.proxy_index % length settings.proxies),
    record s { proxy_index = s.proxy_index + 1 },
  )

  abbrev delay_of : Option ℕ → Option ℕ → W → ℕ × W
  delay_of (some low) (some high) w =
      if leb low high then env.uniform low high w else (settings.request_delay, w)
  delay_of _ _ w = (settings.request_delay, w)

  -- `_next_request_delay`
  unfoldable pub next_request_delay : W → ℕ × W
  next_request_delay = delay_of settings.request_delay_min settings.request_delay_max

  abbrev slept : ℕ → ℕ → ℕ → W → W
  slept delay last now w = if ltb (now - last) delay then env.sleep (delay - (now - last)) w else w

  -- `_throttle`
  unfoldable pub throttle : HttpState W C → HttpState W C
  unfolding next_request_delay
  throttle s =
      let (delay, w) = next_request_delay s.world in
      let (now, w') = env.monotonic w in
      let (later, w'') = env.monotonic (slept delay s.last_request_at now w') in
      if nat_eq delay 0
      then record s { world = w }
      else record s { last_request_at = later; world = w'' }

  abbrev opened : Option Text → HttpState W C → C × W → C × HttpState W C
  opened proxy s (client, w) =
      (client, record s { clients = insert proxy client s.clients; world = w })

  abbrev client_or_open : Option Text → HttpState W C → Option C → C × HttpState W C
  client_or_open proxy s (some client) = (client, s)
  client_or_open proxy s none =
      opened proxy s (env.open_client proxy settings.static_cookies s.world)

  -- `_client_for_proxy`
  unfoldable pub client_for_proxy : Option Text → HttpState W C → C × HttpState W C
  client_for_proxy proxy s = client_or_open proxy s (lookup proxy s.clients)

  abbrev closed : Option C → W → W
  closed none w = w
  closed (some client) w = env.close_client client w

  -- `_drop_client`
  unfoldable pub drop_client : Option Text → HttpState W C → HttpState W C
  drop_client proxy s = record s {
    clients = erase proxy s.clients;
    warmed_proxies = filter (λ p. not (p == proxy)) s.warmed_proxies;
    fingerprints = erase proxy s.fingerprints;
    world = closed (lookup proxy s.clients) s.world;
  }

  -- The fingerprint of a proxy that has none.
  abbrev new_fingerprint : W → SessionFingerprint × W
  new_fingerprint w =
      let (profile, w') = env.random_profile w in
      let (viewport, w'') = env.random_viewport w' in
      if settings.rotate_user_agents
      then (
        record { profile = profile; viewport_width = viewport.0; viewport_height = viewport.1 },
        w'',
      )
      else (
        record { profile = settings.first_profile; viewport_width = 1920; viewport_height = 1080 },
        w,
      )

  abbrev fingerprint_or_new :
      Option Text → HttpState W C → Option SessionFingerprint → SessionFingerprint × HttpState W C
  fingerprint_or_new proxy s (some fingerprint) = (fingerprint, s)
  fingerprint_or_new proxy s none =
      let (fingerprint, w) = new_fingerprint s.world in
      (fingerprint, record s { fingerprints = insert proxy fingerprint s.fingerprints; world = w })

  -- `_fingerprint_for_proxy`
  unfoldable pub fingerprint_for_proxy :
      Option Text → HttpState W C → SessionFingerprint × HttpState W C
  fingerprint_for_proxy proxy s = fingerprint_or_new proxy s (lookup proxy s.fingerprints)

  -- A `get` of a client.
  abbrev request : C → Text → Option Text → Dict Text Text → Exec (HttpState W C) (Response P)
  request client url page headers s =
      let (response, w) = env.get client url page headers s.world in
      (response, record s { world = w })

  abbrev mark_warm : Option Text → Response P → Exec (HttpState W C) (Unit {0})
  mark_warm proxy response s = (ok tt, record s { warmed_proxies = proxy ∷ s.warmed_proxies })

  -- The first request of a session, to the category's page. Its status does not matter.
  unfoldable pub warm_up : Option Text → C → Text → Dict Text Text → Exec (HttpState W C) (Unit {0})
  warm_up proxy client referer headers s =
      if settings.warmup_session && not (contains proxy s.warmed_proxies)
      then (request client referer none headers >>>= mark_warm proxy) s
      else (ok tt, s)

  abbrev payload_of : Response P → Exec (HttpState W C) P
  payload_of response s = (env.raise_for_status response >>= λ success. response.json, s)

  -- `_fetch_once`
  unfoldable pub fetch_once : Text → Option Text → SessionFingerprint → Exec (HttpState W C) P
  unfolding throttle client_for_proxy warm_up browser_headers
  fetch_once page_path proxy fingerprint s =
      let referer = codes "https://www.ozon.ru" ++ settings.category_path in
      let headers = browser_headers fingerprint referer in
      let (client, s') = client_for_proxy proxy (throttle s) in
      (warm_up proxy client referer headers >>>= (λ warm.
          request client settings.api_base_url (some page_path) headers >>>= payload_of))
        s'

  -- What an attempt does with the outcome of its fetch: it returns, raises, or leaves the rest of the
  -- loop its error.
  unfoldable pub after_fetch :
      (Text → Exec (HttpState W C) P) → Option Text → Result P → Exec (HttpState W C) P
  unfolding drop_client
  after_fetch rest proxy (ok payload) s =
      if env.has_widget_states payload
      then (ok payload, s)
      else rest (codes "empty widgetStates in composer response") s
  after_fetch rest proxy (err (http_status code text message)) s =
      if nat_eq code 402 || nat_eq code 407
      then (
        err (
            proxy_quota_exhausted (
              codes "Proxy provider rejected request HTTP "
              ++ (decimal code ++ codes ". Check proxy.market traffic and balance."))),
        s,
      )
      else rest (take 300 text) (drop_client proxy s)
  after_fetch rest proxy (err (transport message)) s =
      if is_proxy_quota_transport_error message
      then (
        err (
            proxy_quota_exhausted
              (codes "Proxy provider traffic or balance exhausted. Details: " ++ take 200 message)),
        s,
      )
      else rest message (drop_client proxy s)
  after_fetch rest proxy (err e) s = (err e, s)

  -- The delay before an attempt, which the first does not have.
  unfoldable pub backoff : ℕ → HttpState W C → HttpState W C
  backoff zero s = s
  backoff (suc attempt) s = record s {
    world = env.sleep (min settings.longest_delay (settings.base_delay * 2 ^ attempt)) s.world;
  }

  -- One attempt up to the outcome of its fetch.
  unfoldable pub try_fetch : Text → ℕ → HttpState W C → Option Text × Result P × HttpState W C
  unfolding backoff next_proxy fingerprint_for_proxy fetch_once
  try_fetch page_path attempt s =
      let (proxy, s') = next_proxy (backoff attempt s) in
      let (fingerprint, s'') = fingerprint_for_proxy proxy s' in
      let (outcome, t) = fetch_once page_path proxy fingerprint s'' in (proxy, outcome, t)

  -- The loop of `get_composer_json`, with the attempts that are left.
  unfoldable pub attempt_from : Text → ℕ → ℕ → Text → Exec (HttpState W C) P
  unfolding try_fetch after_fetch
  attempt_from page_path zero attempt last_error s = (err (ozon_anti_bot 403 last_error), s)
  attempt_from page_path (suc left) attempt last_error s =
      let (proxy, outcome, s') = try_fetch page_path attempt s in
      after_fetch (attempt_from page_path left (suc attempt)) proxy outcome s'

  unfoldable pub get_composer_json : Text → Exec (HttpState W C) P
  unfolding attempts attempt_from
  get_composer_json page_path = attempt_from page_path (attempts settings) 0 (codes "unknown")
