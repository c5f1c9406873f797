-- ===== src/Examples/Clients.antt =====
-- The client of infrastructure/http/http_client.py against a server that answers 429 twice.
use marketplace_pipeline.Base.{
  ℕ, zero, suc, ◌+◌, Bool, leb, Error, Result, ok, err, Exec, if◌then◌else◌, [],
}
use marketplace_pipeline.Http.Environment.{Response}
use marketplace_pipeline.Http.Client.{Tenacity}

-- The world is the number of calls that were made.
abbrev wait : ℕ → ℕ → ℕ
wait n calls = calls

abbrev decide : {A : Type 0} → Result A × ℕ → (Error → Bool) → Exec ℕ A → Result A × ℕ
decide (ok a, calls) p again = (ok a, calls)
decide (err e, calls) p again = if p e then again calls else (err e, calls)

abbrev more : {A : Type 0} → ℕ → (Error → Bool) → Exec ℕ A → Exec ℕ A
more zero p call calls = call calls
more (suc n) p call calls = decide (call calls) p (more n p call)

abbrev at_least_one : {A : Type 0} → ℕ → (Error → Bool) → Exec ℕ A → Exec ℕ A
at_least_one zero p call = more 0 p call
at_least_one (suc n) p call = more n p call

abbrev loop : Tenacity ℕ
loop = record { retrying = at_least_one; wait = wait }

abbrev send : Exec ℕ (Response ℕ)
send calls = (
  ok (record { status_code = if leb 2 calls then 200 else 429; text = []; json = ok 0 }),
  calls + 1,
)

abbrev passes_all : Response ℕ → Result (Unit {0})
passes_all response = ok tt
