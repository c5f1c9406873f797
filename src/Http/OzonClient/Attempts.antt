-- ===== src/Http/OzonClient/Attempts.antt =====
-- The attempts of `get_composer_json` of the HTTP client.
use marketplace_pipeline.Base.{
  ℕ, zero, suc, ◌+◌, ◌≡◌, refl, Bool, true, false, not, ◌||◌, Option, Text, codes, take,
  proxy_quota_exhausted, pipeline_configuration, crm_configuration, other, is_empty, nat_eq,
  if◌then◌else◌, Result, ok, err, http_status, transport, rate_limited, ozon_anti_bot, arith,
}
use marketplace_pipeline.Domain.Prerequisites.{is_proxy_quota_transport_error}
use marketplace_pipeline.Http.Headers.{SessionFingerprint}
use marketplace_pipeline.Http.Environment.{Proxy-Eq, Environment, HttpSettings, HttpState}
use marketplace_pipeline.Http.OzonClient.{
  fetch_once, try_fetch, after_fetch, attempt_from, attempts, get_composer_json, next_proxy,
  throttle, warm_up, client_for_proxy, fingerprint_for_proxy, backoff, drop_client,
}

module _ {W C P : Type 0} (env : Environment W C P) (settings : HttpSettings) where
  -- The outcomes of a fetch after which the loop goes on.
  unfoldable pub is_retried : Result P → Bool
  is_retried (ok payload) = not (env.has_widget_states payload)
  is_retried (err (http_status code text message)) = not (nat_eq code 402 || nat_eq code 407)
  is_retried (err (transport message)) = not (is_proxy_quota_transport_error message)
  is_retried (err e) = false

  -- By how much an attempt moves the position in the list of proxies.
  abbrev pub step : ℕ
  step = if is_empty settings.proxies then 0 else 1

  pub next_proxy-index :
      (s : HttpState W C) → (next_proxy env settings s).1.proxy_index ≡ s.proxy_index + step
  unfolding next_proxy
  next_proxy-index s = ground arith

  pub backoff-index :
      (k : ℕ) (s : HttpState W C) → (backoff env settings k s).proxy_index ≡ s.proxy_index
  unfolding backoff
  backoff-index zero s = refl
  backoff-index (suc k) s = refl

  throttle-index : (s : HttpState W C) → (throttle env settings s).proxy_index ≡ s.proxy_index
  unfolding throttle
  throttle-index s = ground arith

  client_for_proxy-index :
      (proxy : Option Text) (s : HttpState W C)
      → (client_for_proxy env settings proxy s).1.proxy_index ≡ s.proxy_index
  unfolding client_for_proxy
  client_for_proxy-index proxy s = ground arith

  fingerprint_for_proxy-index :
      (proxy : Option Text) (s : HttpState W C)
      → (fingerprint_for_proxy env settings proxy s).1.proxy_index ≡ s.proxy_index
  unfolding fingerprint_for_proxy
  fingerprint_for_proxy-index proxy s = ground arith

  fetch_once-index :
      (page_path : Text) (proxy : Option Text) (fingerprint : SessionFingerprint)
      (s : HttpState W C)
      → (fetch_once env settings page_path proxy fingerprint s).1.proxy_index ≡ s.proxy_index
  unfolding fetch_once warm_up
  fetch_once-index page_path proxy fingerprint s =
      ground (arith, client_for_proxy-index proxy (throttle env settings s), throttle-index s)

  after_fetch-widgets :
      (rest : Text → HttpState W C → Result P × HttpState W C) (proxy : Option Text)
      (outcome : Result P) (s : HttpState W C) (payload : P)
      → ((e : Text) (t : HttpState W C)
          → (rest e t).0 ≡ ok payload
          → env.has_widget_states payload ≡ true)
      → (after_fetch env settings rest proxy outcome s).0 ≡ ok payload
      → env.has_widget_states payload ≡ true
  unfolding after_fetch
  after_fetch-widgets rest proxy (ok p) s payload h result =
      ground (arith, h (codes "empty widgetStates in composer response") s)
  after_fetch-widgets rest proxy (err (http_status code text message)) s payload h result =
      ground (arith, h (take 300 text) (drop_client env settings proxy s))
  after_fetch-widgets rest proxy (err (transport message)) s payload h result =
      ground (arith, h message (drop_client env settings proxy s))
  after_fetch-widgets rest proxy (err (proxy_quota_exhausted m)) s payload h result = ground arith
  after_fetch-widgets rest proxy (err (pipeline_configuration m)) s payload h result = ground arith
  after_fetch-widgets rest proxy (err (rate_limited m)) s payload h result = ground arith
  after_fetch-widgets rest proxy (err (crm_configuration m)) s payload h result = ground arith
  after_fetch-widgets rest proxy (err (ozon_anti_bot code m)) s payload h result = ground arith
  after_fetch-widgets rest proxy (err (other m)) s payload h result = ground arith

  attempt_from-widgets :
      (page_path : Text) (left attempt : ℕ) (last_error : Text) (s : HttpState W C) (payload : P)
      → (attempt_from env settings page_path left attempt last_error s).0 ≡ ok payload
      → env.has_widget_states payload ≡ true
  unfolding attempt_from
  attempt_from-widgets page_path zero attempt last_error s payload result = ground arith
  attempt_from-widgets page_path (suc left) attempt last_error s payload result =
      let (proxy, outcome, s') = try_fetch env settings page_path attempt s in
      after_fetch-widgets (attempt_from env settings page_path left (suc attempt)) proxy outcome s'
        payload (λ e t. attempt_from-widgets page_path left (suc attempt) e t payload) result

  -- A retried outcome leaves the rest of the loop some error, and the position where it is.
  pub after_fetch-retried :
      (proxy : Option Text) (outcome : Result P) (s : HttpState W C)
      → is_retried outcome ≡ true
      → (e : Text) × (t : HttpState W C) × ((rest : Text → HttpState W C → Result P × HttpState W C)
          → after_fetch env settings rest proxy outcome s ≡ rest e t)
        × (t.proxy_index ≡ s.proxy_index)
  unfolding after_fetch is_retried drop_client
  after_fetch-retried proxy (ok p) s h =
      (codes "empty widgetStates in composer response", s, λ rest. ground arith, refl)
  after_fetch-retried proxy (err (http_status code text message)) s h =
      (take 300 text, drop_client env settings proxy s, λ rest. ground arith, refl)
  after_fetch-retried proxy (err (transport message)) s h =
      (message, drop_client env settings proxy s, λ rest. ground arith, refl)
  after_fetch-retried proxy (err (proxy_quota_exhausted m)) s h = ground arith
  after_fetch-retried proxy (err (pipeline_configuration m)) s h = ground arith
  after_fetch-retried proxy (err (rate_limited m)) s h = ground arith
  after_fetch-retried proxy (err (crm_configuration m)) s h = ground arith
  after_fetch-retried proxy (err (ozon_anti_bot code m)) s h = ground arith
  after_fetch-retried proxy (err (other m)) s h = ground arith

  pub try_fetch-index :
      (page_path : Text) (attempt : ℕ) (s : HttpState W C)
      → (try_fetch env settings page_path attempt s).2.proxy_index ≡ s.proxy_index + step
  unfolding try_fetch
  try_fetch-index page_path attempt s =
      let waited = backoff env settings attempt s in
      let (proxy, s') = next_proxy env settings waited in
      let (fingerprint, s'') = fingerprint_for_proxy env settings proxy s' in
      omega (
        arith,
        fetch_once-index page_path proxy fingerprint s'',
        fingerprint_for_proxy-index proxy s',
        next_proxy-index waited,
        backoff-index attempt s,
      )

  -- What `get_composer_json` returns has a payload that is not empty.
  pub get_composer_json_lem :
      (page_path : Text) (s : HttpState W C) (payload : P)
      → (get_composer_json env settings page_path s).0 ≡ ok payload
      → env.has_widget_states payload ≡ true
  unfolding get_composer_json
  get_composer_json_lem page_path s payload =
      attempt_from-widgets page_path (attempts settings) 0 (codes "unknown") s payload
