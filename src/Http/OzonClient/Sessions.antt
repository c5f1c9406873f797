-- ===== src/Http/OzonClient/Sessions.antt =====
-- The sessions of the HTTP client: which proxies have a client, and which are warm.
use marketplace_pipeline.Base.{
  ℕ, zero, suc, Dict, ◌++◌, codes, take, nat_eq, ◌||◌, http_status, transport, rate_limited,
  proxy_quota_exhausted, pipeline_configuration, crm_configuration, ozon_anti_bot, other, ◌≡◌, refl,
  Bool, true, not, ◌&&◌, Option, List, [], ◌∷◌, ◌==◌, Text, contains, filter, lookup, lookup-insert,
  lookup-erase, is_some, Result, ok, err, arith, Bool-cases, inl, inr,
}
use marketplace_pipeline.Domain.Prerequisites.{is_proxy_quota_transport_error}
use marketplace_pipeline.Http.Headers.{SessionFingerprint, browser_headers}
use marketplace_pipeline.Http.Environment.{
  Proxy-Eq, proxy_eq_iff, Environment, HttpSettings, HttpState,
}
use marketplace_pipeline.Http.OzonClient.{
  attempts, next_proxy, throttle, client_for_proxy, drop_client, fingerprint_for_proxy, warm_up,
  fetch_once, after_fetch, backoff, try_fetch, attempt_from, get_composer_json,
}

contains-filter :
    (p : Option Text → Bool) (proxy : Option Text) (proxies : List (Option Text))
    → contains proxy (filter p proxies) ≡ (p proxy && contains proxy proxies)
unfolding contains filter
contains-filter p proxy [] = ground arith
contains-filter p proxy (q ∷ proxies) =
    ground (arith, contains-filter p proxy proxies, proxy_eq_iff q proxy)

module _ {W C P : Type 0} (env : Environment W C P) (settings : HttpSettings) where
  -- A proxy whose session is warm has an open client.
  unfoldable pub HasClients : HttpState W C → Type 0
  HasClients s =
      (proxy : Option Text)
      → contains proxy s.warmed_proxies ≡ true
      → is_some (lookup proxy s.clients) ≡ true

  drop_client-HasClients :
      (dropped : Option Text) (s : HttpState W C)
      → HasClients s
      → HasClients (drop_client env settings dropped s)
  unfolding HasClients drop_client
  drop_client-HasClients dropped s h proxy warm = ground (
    arith,
    h proxy,
    contains-filter (λ p. not (p == dropped)) proxy s.warmed_proxies,
    lookup-erase dropped proxy s.clients,
    proxy_eq_iff proxy dropped,
    proxy_eq_iff dropped proxy,
  )

  same-HasClients :
      (s t : HttpState W C)
      → t.warmed_proxies ≡ s.warmed_proxies
      → t.clients ≡ s.clients
      → HasClients s
      → HasClients t
  unfolding HasClients
  same-HasClients s t same_warm same_clients h proxy warm = ground (arith, h proxy)

  backoff-HasClients :
      (k : ℕ) (s : HttpState W C) → HasClients s → HasClients (backoff env settings k s)
  unfolding backoff
  backoff-HasClients zero s h = h
  backoff-HasClients (suc k) s h = same-HasClients s (backoff env settings (suc k) s) refl refl h

  next_proxy-HasClients :
      (s : HttpState W C) → HasClients s → HasClients (next_proxy env settings s).1
  unfolding next_proxy
  next_proxy-HasClients s h =
      same-HasClients s (next_proxy env settings s).1 (ground arith) (ground arith) h

  fingerprint-HasClients :
      (proxy : Option Text) (s : HttpState W C)
      → HasClients s
      → HasClients (fingerprint_for_proxy env settings proxy s).1
  unfolding fingerprint_for_proxy
  fingerprint-HasClients proxy s h =
      same-HasClients s (fingerprint_for_proxy env settings proxy s).1 (ground arith) (ground arith)
        h

  throttle-HasClients : (s : HttpState W C) → HasClients s → HasClients (throttle env settings s)
  unfolding throttle
  throttle-HasClients s h =
      same-HasClients s (throttle env settings s) (ground arith) (ground arith) h

  client_for_proxy-HasClients :
      (proxy : Option Text) (s : HttpState W C)
      → HasClients s
      → HasClients (client_for_proxy env settings proxy s).1
        × (is_some (lookup proxy (client_for_proxy env settings proxy s).1.clients) ≡ true)
  unfolding HasClients client_for_proxy
  client_for_proxy-HasClients proxy s h = (
    λ asked warm. ground (
      arith,
      h asked,
      lookup-insert proxy asked (env.open_client proxy settings.static_cookies s.world).0 s.clients,
    ),
    ground (
      arith,
      lookup-insert proxy proxy (env.open_client proxy settings.static_cookies s.world).0 s.clients,
      proxy_eq_iff proxy proxy,
    ),
  )

  warm_up-HasClients :
      (proxy : Option Text) (client : C) (referer : Text) (headers : Dict Text Text)
      (s : HttpState W C)
      → HasClients s
      → is_some (lookup proxy s.clients) ≡ true
      → HasClients (warm_up env settings proxy client referer headers s).1
  unfolding HasClients warm_up contains
  warm_up-HasClients proxy client referer headers s h open_client asked warm =
      ground (arith, h asked, proxy_eq_iff proxy asked)

  fetch_once-HasClients :
      (page_path : Text) (proxy : Option Text) (fingerprint : SessionFingerprint)
      (s : HttpState W C)
      → HasClients s
      → HasClients (fetch_once env settings page_path proxy fingerprint s).1
  unfolding fetch_once
  fetch_once-HasClients page_path proxy fingerprint s h =
      let referer = codes "https://www.ozon.ru" ++ settings.category_path in
      let headers = browser_headers fingerprint referer in
      let (client, t) = client_for_proxy env settings proxy (throttle env settings s) in
      let (kept, open_client) =
        client_for_proxy-HasClients proxy (throttle env settings s) (throttle-HasClients s h) in
      let u = (warm_up env settings proxy client referer headers t).1 in
      same-HasClients u (fetch_once env settings page_path proxy fingerprint s).1 (ground arith)
        (ground arith) (warm_up-HasClients proxy client referer headers t kept open_client)

  after_fetch-HasClients :
      (rest : Text → HttpState W C → Result P × HttpState W C) (proxy : Option Text)
      (outcome : Result P) (s : HttpState W C)
      → ((e : Text) (t : HttpState W C) → HasClients t → HasClients (rest e t).1)
      → HasClients s
      → HasClients (after_fetch env settings rest proxy outcome s).1
  unfolding after_fetch
  after_fetch-HasClients rest proxy (ok p) s go_on h = elim (Bool-cases (env.has_widget_states p)) [
    | inl full ↦ rw full h
    | inr empty ↦ rw empty (go_on (codes "empty widgetStates in composer response") s h)
  ]
  after_fetch-HasClients rest proxy (err (http_status code text message)) s go_on h =
      elim (Bool-cases (nat_eq code 402 || nat_eq code 407)) [
        | inl quota ↦ rw quota h
        | inr retried ↦ rw retried (
            go_on (take 300 text) (drop_client env settings proxy s)
              (drop_client-HasClients proxy s h))
      ]
  after_fetch-HasClients rest proxy (err (transport message)) s go_on h =
      elim (Bool-cases (is_proxy_quota_transport_error message)) [
        | inl quota ↦ rw quota h
        | inr retried ↦
            rw retried
              (go_on message (drop_client env settings proxy s) (drop_client-HasClients proxy s h))
      ]
  after_fetch-HasClients rest proxy (err (proxy_quota_exhausted m)) s go_on h = h
  after_fetch-HasClients rest proxy (err (pipeline_configuration m)) s go_on h = h
  after_fetch-HasClients rest proxy (err (rate_limited m)) s go_on h = h
  after_fetch-HasClients rest proxy (err (crm_configuration m)) s go_on h = h
  after_fetch-HasClients rest proxy (err (ozon_anti_bot code m)) s go_on h = h
  after_fetch-HasClients rest proxy (err (other m)) s go_on h = h

  try_fetch-HasClients :
      (page_path : Text) (attempt : ℕ) (s : HttpState W C)
      → HasClients s
      → HasClients (try_fetch env settings page_path attempt s).2
  unfolding try_fetch
  try_fetch-HasClients page_path attempt s h =
      let waited = backoff env settings attempt s in
      let (proxy, t) = next_proxy env settings waited in
      let (fingerprint, u) = fingerprint_for_proxy env settings proxy t in
      fetch_once-HasClients page_path proxy fingerprint u (
        fingerprint-HasClients proxy t
          (next_proxy-HasClients waited (backoff-HasClients attempt s h)))

  attempt_from-HasClients :
      (page_path : Text) (left attempt : ℕ) (last_error : Text) (s : HttpState W C)
      → HasClients s
      → HasClients (attempt_from env settings page_path left attempt last_error s).1
  unfolding attempt_from
  attempt_from-HasClients page_path zero attempt last_error s h = h
  attempt_from-HasClients page_path (suc left) attempt last_error s h =
      let (proxy, outcome, t) = try_fetch env settings page_path attempt s in
      after_fetch-HasClients (attempt_from env settings page_path left (suc attempt)) proxy outcome
        t (λ e u k. attempt_from-HasClients page_path left (suc attempt) e u k)
        (try_fetch-HasClients page_path attempt s h)

  -- Whether it returns or raises, `get_composer_json` leaves every proxy that is marked as warm with
  -- an open client, if that was so before.
  pub get_composer_json-HasClients :
      (page_path : Text) (s : HttpState W C)
      → HasClients s
      → HasClients (get_composer_json env settings page_path s).1
  unfolding get_composer_json
  get_composer_json-HasClients page_path s =
      attempt_from-HasClients page_path (attempts settings) 0 (codes "unknown") s
