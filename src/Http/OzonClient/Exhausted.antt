-- ===== src/Http/OzonClient/Exhausted.antt =====
-- `get_composer_json` of infrastructure/http/ozon_http.py when no fetch succeeds: the proxies that its
-- attempts go through.
use marketplace_pipeline.Base.{
  ℕ, zero, suc, ◌+◌, ◌*◌, ◌%◌, ◌≡◌, refl, ap, ap₂, ◌∙◌, true, Option, none, some, List, [], ◌∷◌,
  map, Text, codes, max, length, get_elem?, Result, err, ozon_anti_bot, is_empty, arith,
}
use marketplace_pipeline.Http.Headers.{SessionFingerprint}
use marketplace_pipeline.Http.Environment.{Environment, HttpSettings, HttpState}
use marketplace_pipeline.Http.OzonClient.{
  fetch_once, try_fetch, after_fetch, attempt_from, attempts, get_composer_json, next_proxy,
  fingerprint_for_proxy, backoff,
}
use marketplace_pipeline.Http.OzonClient.Attempts.{
  is_retried, after_fetch-retried, try_fetch-index, backoff-index, step,
}
use marketplace_pipeline.Http.OzonClient.Turns.{times, in_turn, in_turn-next, times-rounds}

times-none : (p : Text) (n i : ℕ) → times (some p) (in_turn [] n i) ≡ 0
times-none p zero i = refl
times-none p (suc n) i = times-none p n (suc i)

times-exhausted :
    (p : Text) (proxies : List Text) (rounds i : ℕ)
    → times (some p) (in_turn proxies (rounds * max 1 (length proxies)) i)
      ≡ rounds * times (some p) (map some proxies)
times-exhausted p [] rounds i = ground (arith, times-none p (rounds * max 1 0) i)
times-exhausted p (q ∷ proxies) rounds i =
    times-rounds (q ∷ proxies) (some p) rounds (rounds * max 1 (suc (length proxies))) i (
      let one : max 1 (suc (length proxies)) ≡ suc (length proxies) = omega arith in
      ap (λ n. rounds * n) one)

get_elem?-empty : (xs : List Text) (i : ℕ) → is_empty xs ≡ true → get_elem? xs i ≡ none
get_elem?-empty [] i h = refl
get_elem?-empty (x ∷ xs) i h = ground arith

module _ {W C P : Type 0} (env : Environment W C P) (settings : HttpSettings)
    (page_path : Text) where
  -- Attempts one after another, from a number of the first on, with the proxies of their fetches: each
  -- fetches the page once through its proxy, and leaves the rest of the loop an error.
  pub data Tries : ℕ → HttpState W C → List (Option Text) → HttpState W C → Type 0 where
    over : {attempt : ℕ} {s : HttpState W C} → Tries attempt s [] s
    tried :
        {attempt : ℕ} {s u : HttpState W C} {proxies : List (Option Text)} (proxy : Option Text)
        (fingerprint : SessionFingerprint) (ready t : HttpState W C) (e : Text)
        → try_fetch env settings page_path attempt s ≡ (
          proxy,
          (fetch_once env settings page_path proxy fingerprint ready).0,
          (fetch_once env settings page_path proxy fingerprint ready).1,
        )
        → ((rest : Text → HttpState W C → Result P × HttpState W C)
            → after_fetch env settings rest proxy
                (fetch_once env settings page_path proxy fingerprint ready).0
                (fetch_once env settings page_path proxy fingerprint ready).1
              ≡ rest e t)
        → Tries (suc attempt) t proxies u
        → Tries attempt s (proxy ∷ proxies) u

  next_proxy-taken :
      (s : HttpState W C)
      → (next_proxy env settings s).0
        ≡ get_elem? settings.proxies (s.proxy_index % length settings.proxies)
  unfolding next_proxy
  next_proxy-taken s =
      ground (arith, get_elem?-empty settings.proxies (s.proxy_index % length settings.proxies))

  try_fetch-proxy :
      (attempt : ℕ) (s : HttpState W C)
      → (try_fetch env settings page_path attempt s).0
        ≡ get_elem? settings.proxies (s.proxy_index % length settings.proxies)
  unfolding try_fetch
  try_fetch-proxy attempt s =
      next_proxy-taken (backoff env settings attempt s)
      ∙ ap (λ i. get_elem? settings.proxies (i % length settings.proxies))
          (backoff-index env settings attempt s)

  module _
      (failing : (proxy : Option Text) (fingerprint : SessionFingerprint) (s : HttpState W C)
        → is_retried env settings (fetch_once env settings page_path proxy fingerprint s).0
          ≡ true) where
    attempt_from-failing :
        (left attempt : ℕ) (last_error : Text) (s : HttpState W C)
        → (detail : Text) × (t : HttpState W C) × (proxies : List (Option Text)) × (attempt_from env
              settings page_path left attempt last_error s
            ≡ (err (ozon_anti_bot 403 detail), t))
          × Tries attempt s proxies t
          × (proxies ≡ in_turn settings.proxies left s.proxy_index)
    unfolding attempt_from try_fetch
    attempt_from-failing zero attempt last_error s = (last_error, s, [], refl, over, refl)
    attempt_from-failing (suc left) attempt last_error s =
        let (proxy, s') = next_proxy env settings (backoff env settings attempt s) in
        let (fingerprint, ready) = fingerprint_for_proxy env settings proxy s' in
        let (outcome, fetched) = fetch_once env settings page_path proxy fingerprint ready in
        let (e, t, goes_on, same) =
          after_fetch-retried env settings proxy outcome fetched
            (failing proxy fingerprint ready) in
        let (detail, u, proxies, ends, tries, turns) =
          attempt_from-failing left (suc attempt) e t in
        let moved : t.proxy_index ≡ s.proxy_index + step env settings =
          same ∙ try_fetch-index env settings page_path attempt s in
        (
          detail,
          u,
          proxy ∷ proxies,
          goes_on (attempt_from env settings page_path left (suc attempt)) ∙ ends,
          tried proxy fingerprint ready t e refl goes_on tries,
          ap₂ ◌∷◌ (try_fetch-proxy attempt s) (
              turns
              ∙ ap (in_turn settings.proxies left) moved
              ∙ in_turn-next settings.proxies left s.proxy_index),
        )

    -- When every fetch of a page ends in a way that the client retries, `get_composer_json` raises
    -- the anti-bot error 403 after fetches through the proxies in turn, from the position where the
    -- list of proxies stands: each proxy `max_retries` times, but at least once, for each time that it
    -- is in the list; without proxies that many fetches, all without one.
    pub get_composer_json_exhausts :
        (s : HttpState W C)
        → let rounds = max 1 settings.max_retries in
          (detail : Text) × (t : HttpState W C) × (proxies : List (Option Text))
          × (get_composer_json env settings page_path s ≡ (err (ozon_anti_bot 403 detail), t))
          × Tries 0 s proxies t
          × (proxies
              ≡ in_turn settings.proxies (rounds * max 1 (length settings.proxies)) s.proxy_index)
          × ((p : Text)
              → times (some p) proxies ≡ rounds * times (some p) (map some settings.proxies))
    unfolding get_composer_json attempts
    get_composer_json_exhausts s =
        let rounds = max 1 settings.max_retries in
        let (detail, t, proxies, ends, tries, turns) =
          attempt_from-failing (attempts settings) 0 (codes "unknown") s in
        (
          detail,
          t,
          proxies,
          ends,
          tries,
          turns,
          λ p. ap (times (some p)) turns ∙ times-exhausted p settings.proxies rounds s.proxy_index,
        )
