-- ===== src/Http/Client/Retries.antt =====
-- How often infrastructure/http/http_client.py sends a request, and what it ends with.
use marketplace_pipeline.Base.{ℕ, ◌+◌, ◌≤◌, ◌<◌, ◌≡◌, true, false, Result, ok, err, Exec, nat_eq}
use marketplace_pipeline.Http.Environment.{Response}
use marketplace_pipeline.Http.Client.{Tenacity, TenacityLaws, is_retried_error, request_once}

module _ {W P : Type 0} (tenacity : Tenacity W) (laws : TenacityLaws tenacity)
    (raise_for_status : Response P → Result (Unit {0})) (max_retries : ℕ)
    (send : Exec W (Response P)) (sent : W → ℕ) where
  -- `sent` counts the calls of httpx, in which the waits take no part.
  pub record Counts : Type 0 where
    pub send_law : (w : W) → sent (send w).1 ≡ sent w + 1
    pub wait_law : (n : ℕ) (w : W) → sent (tenacity.wait n w) ≡ sent w

  -- A response that the client lets through.
  abbrev pub IsGood : Response P → Type 0
  IsGood response = (nat_eq response.status_code 429 ≡ false) × (raise_for_status response ≡ ok tt)

  -- What `n` attempts at most have come to.
  abbrev pub Ended : ℕ → W → Result (Response P) × W → Type 0
  Ended n w (ok response, after) =
      IsGood response × (sent w < sent after) × (sent after ≤ sent w + n)
  Ended n w (err e, after) =
      (sent w < sent after)
      × (sent after ≤ sent w + n)
      × (is_retried_error e ≡ true → sent after ≡ sent w + n)

  once : Exec W (Response P)
  once = request_once tenacity raise_for_status max_retries send

  abbrev Good : Result (Response P) → Type 0
  Good (ok response) = IsGood response
  Good (err e) = Unit

  abbrev attempts : ℕ → Exec W (Response P)
  attempts n = tenacity.retrying n is_retried_error once
