-- ===== src/Http/Client.antt =====
-- infrastructure/http/http_client.py: the client of the language model and the CRM. tenacity's
-- `retry` is a parameter, with what it documents of the attempts; `send` is one call of httpx, which
-- changes a state `W`.
pub mod Retries
use marketplace_pipeline.Base.{
  ℕ, zero, suc, ◌≡◌, Bool, true, false, max, Error, rate_limited, transport, proxy_quota_exhausted,
  Result, ok, err, Exec, ◌>>>=◌ as ◌>>=◌, pure, nat_eq, if◌then◌else◌,
}
use marketplace_pipeline.Http.Environment.{Response}

-- `retry_if_exception_type((RateLimitError, httpx.TransportError))`
unfoldable pub is_retried_error : Error → Bool
is_retried_error (rate_limited code) = true
is_retried_error (transport m) = true
is_retried_error _ = false

-- `retry(stop=stop_after_attempt(n), retry=p, reraise=True)` around a call, with the waits between
-- the attempts.
pub record Tenacity (W : Type 0) : Type 1 where
  pub retrying : {A : Type 0} → ℕ → (Error → Bool) → Exec W A → Exec W A
  pub wait : ℕ → W → W

module _ {W : Type 0} (tenacity : Tenacity W) where
  -- What follows an attempt when `n` more are left.
  abbrev pub after_attempt :
      {A : Type 0} → ℕ → (Error → Bool) → Exec W A → Result A × W → Result A × W
  after_attempt n p call (ok a, w) = (ok a, w)
  after_attempt zero p call (err e, w) = (err e, w)
  after_attempt (suc n) p call (err e, w) =
      if p e then tenacity.retrying (suc n) p call (tenacity.wait n w) else (err e, w)

  -- The attempts, as documented: one at least, and a further one after an error to be retried.
  pub record TenacityLaws : Type 1 where
    pub attempt_law :
        {A : Type 0} (n : ℕ) (p : Error → Bool) (call : Exec W A) (w : W)
        → tenacity.retrying (suc n) p call w ≡ after_attempt n p call (call w)
    pub zero_law :
        {A : Type 0} (p : Error → Bool) (call : Exec W A) (w : W)
        → tenacity.retrying 0 p call w ≡ tenacity.retrying 1 p call w

  module _ {P : Type 0} (raise_for_status : Response P → Result (Unit {0})) (max_retries : ℕ) where
    abbrev pub raised : Result (Unit {0}) → Response P → Exec W (Response P)
    raised (ok u) response w = (ok response, w)
    raised (err e) response w = (err e, w)

    abbrev pub checked : Response P → Exec W (Response P)
    checked response w =
        if nat_eq response.status_code 429
        then (err (rate_limited 429), w)
        else raised (raise_for_status response) response w

    -- `_request`
    unfoldable pub request_once : Exec W (Response P) → Exec W (Response P)
    request_once send = do response ← send; checked response

    -- `get` and `post`
    unfoldable pub request : Exec W (Response P) → Exec W (Response P)
    unfolding request_once is_retried_error
    request send = tenacity.retrying max_retries is_retried_error (request_once send)
