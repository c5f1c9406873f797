-- ===== src/Base/Results.antt =====
-- Exceptions as values: domain/exceptions.py, the errors of the HTTP layer, and those of Python.
use Prim.Native.Nat.{ℕ}
use mathlib.Core.Path.{◌≡◌, refl}
use native.Mathlib.Omega.{arith}
use mathlib.Core.List.{◌++◌}
use marketplace_pipeline.Base.Texts.{Text, codes, decimal}
use marketplace_pipeline.Base.Lists.{take}

pub data Error : Type 0 where
  proxy_quota_exhausted : Text → Error
  pipeline_configuration : Text → Error
  crm_configuration : Text → Error
  -- `OzonAntiBotError(status_code, detail)`
  ozon_anti_bot : ℕ → Text → Error
  -- `httpx.HTTPStatusError`: the status, the response's text, and the message
  http_status : ℕ → Text → Text → Error
  -- `RateLimitError`, by the status of its response
  rate_limited : ℕ → Error
  -- `httpx.TransportError`
  transport : Text → Error
  -- `ValueError`, `KeyError`, `TypeError`, `IntegrityError`, ... with their text
  other : Text → Error

-- `str(exc)`
unfoldable pub str_error : Error → Text
str_error (proxy_quota_exhausted m) = m
str_error (pipeline_configuration m) = m
str_error (crm_configuration m) = m
str_error (ozon_anti_bot code detail) =
    codes "Ozon anti-bot block HTTP " ++ (decimal code ++ (codes ": " ++ take 200 detail))
str_error (http_status code body m) = m
str_error (rate_limited code) = codes "Rate limited: HTTP " ++ decimal code
str_error (transport m) = m
str_error (other m) = m

pub data Result {ℓ} (A : Type ℓ) : Type ℓ where
  ok : A → Result A
  err : Error → Result A

infixl 5 ◌>>=◌
abbrev pub ◌>>=◌ {ℓ κ} : {A : Type ℓ} {B : Type κ} → Result A → (A → Result B) → Result B
ok a >>= f = f a
err e >>= f = err e

-- A call that changes the state `S` and may raise. What was done before a raise stays done.
abbrev pub Exec {ℓ} : Type 0 → Type ℓ → Type ℓ
Exec S A = S → Result A × S

abbrev pub exec_continue {ℓ κ} :
    {S : Type 0} {A : Type ℓ} {B : Type κ} → Result A → (A → Exec S B) → Exec S B
exec_continue (ok a) f s = f a s
exec_continue (err e) f s = (err e, s)

-- `do` blocks of calls: `m >>>= f`.
infixl 5 ◌>>>=◌
abbrev pub ◌>>>=◌ {ℓ κ} :
    {S : Type 0} {A : Type ℓ} {B : Type κ} → Exec S A → (A → Exec S B) → Exec S B
◌>>>=◌ m f s = let (r, s') = m s in exec_continue r f s'

abbrev pub pure {ℓ} : {S : Type 0} {A : Type ℓ} → A → Exec S A
pure a s = (ok a, s)

exec_continue-ok {ℓ κ} :
    {S : Type 0} {A : Type ℓ} {B : Type κ} (r : Result A) (f : A → Exec S B) (s : S) (b : B)
    → (exec_continue r f s).0 ≡ ok b
    → (a : A) × (r ≡ ok a) × ((f a s).0 ≡ ok b)
exec_continue-ok (ok a) f s b h = (a, refl, h)
exec_continue-ok (err e) f s b h = ground arith

exec_continue-err_cong {ℓ κ} :
    {S : Type 0} {A : Type ℓ} {B : Type κ} (r : Result A) (f g : A → Exec S B) (s : S) (e : Error)
    → ((a : A) → (f a s).0 ≡ err e → g a s ≡ f a s)
    → (exec_continue r f s).0 ≡ err e
    → exec_continue r g s ≡ exec_continue r f s
exec_continue-err_cong (ok a) f g s e same h = same a h
exec_continue-err_cong (err e') f g s e same h = refl

-- Two ways to go on that agree where the one fails make no difference to a run that fails.
pub bind-err_cong {ℓ κ} :
    {S : Type 0} {A : Type ℓ} {B : Type κ} (m : Exec S A) (f g : A → Exec S B) (s : S) (e : Error)
    → ((a : A) → (f a (m s).1).0 ≡ err e → g a (m s).1 ≡ f a (m s).1)
    → ((m >>>= f) s).0 ≡ err e
    → (m >>>= g) s ≡ (m >>>= f) s
bind-err_cong m f g s e same h = exec_continue-err_cong (m s).0 f g (m s).1 e same h

-- A sequence of calls that returns is a call that returns and a rest that does.
pub bind-ok {ℓ κ} :
    {S : Type 0} {A : Type ℓ} {B : Type κ} (m : Exec S A) (f : A → Exec S B) (s : S) (b : B)
    → ((m >>>= f) s).0 ≡ ok b
    → (a : A) × ((m s).0 ≡ ok a) × ((f a (m s).1).0 ≡ ok b)
bind-ok m f s b h = exec_continue-ok (m s).0 f (m s).1 b h
