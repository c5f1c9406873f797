-- ===== src/Proxy/Quota/Requests.antt =====
-- The two requests of proxy_market_quota_checker.py and the whole check. httpx is a parameter: a
-- request with `raise_for_status` and the reading of its JSON, whose numbers are numbers or `null`.
use marketplace_pipeline.Base.{
  ℕ, Bool, true, false, Option, none, some, List, ◌++◌, map, Text, codes, strip, is_empty, Result,
  ok, err, Exec, ◌>>>=◌ as ◌>>=◌, pure, if◌then◌else◌,
}
use marketplace_pipeline.Proxy.Quota.{
  ProxyPackageQuota, QuotaChecker, is_http_error, check_quota_available,
}

-- `item.get(name)` of a JSON object.
pub data Field (A : Type 0) : Type 0 where
  missing null : Field A
  value : A → Field A

pub record PackageItem : Type 0 where
  pub id : Field ℕ
  pub name : Field Text
  pub total : Field ℕ
  pub used : Field ℕ
  pub is_active : Field Bool

-- `int(item.get(name) or 0)`
abbrev pub int_of : Field ℕ → ℕ
int_of missing = 0
int_of null = 0
int_of (value n) = n

-- `str(item.get("name") or "package")`
abbrev name_of : Field Text → Text
name_of missing = codes "package"
name_of null = codes "package"
name_of (value name) = if is_empty name then codes "package" else name

-- `bool(item.get("is_active", True))`
abbrev active_of : Field Bool → Bool
active_of missing = true
active_of null = false
active_of (value active) = active

unfoldable pub read_package : PackageItem → ProxyPackageQuota
read_package item = record {
  package_id = int_of item.id;
  name = name_of item.name;
  total_bytes = int_of item.total;
  used_bytes = int_of item.used;
  is_active = active_of item.is_active;
}

-- `get_packages` is given the url, the page and its size. A balance that is no number is `none`.
pub record Dashboard (W : Type 0) : Type 0 where
  pub get_packages : Text → ℕ → ℕ → Exec W (List PackageItem)
  pub get_balance : Text → Exec W (Option (Field ℕ))

unfoldable pub api_base : Text
api_base = codes "https://api.dashboard.proxy.market"

-- `float(payload.get("balance", 0))`
abbrev balance_of : Option (Field ℕ) → Option ℕ
balance_of none = none
balance_of (some missing) = some 0
balance_of (some null) = none
balance_of (some (value balance)) = some balance

abbrev read_balance : Result (Option (Field ℕ)) → Result (Option ℕ)
read_balance (ok balance) = ok (balance_of balance)
read_balance (err e) = if is_http_error e then ok none else err e

module _ {W : Type 0} (dashboard : Dashboard W) (api_key : Text) where
  -- `_fetch_packages`
  unfoldable pub fetch_packages : Exec W (List ProxyPackageQuota)
  unfolding read_package api_base
  fetch_packages = do
    items ←
        dashboard.get_packages (api_base ++ (codes "/dev-api/v2/packages/" ++ strip api_key)) 1 50
    pure (map read_package items)

  -- `_fetch_balance`
  unfoldable pub fetch_balance : W → Result (Option ℕ) × W
  unfolding api_base
  fetch_balance w =
      let (balance, w') =
        dashboard.get_balance (api_base ++ (codes "/dev-api/balance/" ++ strip api_key)) w in
      (read_balance balance, w')

  -- The result of `check_quota_available` with its requests. The balance's does not matter where the
  -- code does not come to it.
  unfoldable pub check_quota : (ℕ → ℕ → ℕ → Text) → QuotaChecker → W → Result (Unit {0})
  unfolding fetch_packages fetch_balance
  check_quota format_quotient checker w =
      let (packages, w') = fetch_packages w in
      check_quota_available format_quotient checker packages (fetch_balance w').0

  abbrev packages_url : Text
  packages_url = api_base ++ (codes "/dev-api/v2/packages/" ++ strip api_key)
