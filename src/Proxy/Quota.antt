-- ===== src/Proxy/Quota.antt =====
-- infrastructure/adapters/proxy/proxy_market_quota_checker.py. `fetch_packages` and
-- `fetch_balance` are what the two requests give: `ok`, an `httpx.HTTPError` that is caught, or
-- another exception. A balance is in hundredths; `format_quotient` prints a quotient with so many
-- digits behind the point.
pub mod Balance
pub mod Requests
use marketplace_pipeline.Base.{
  ℕ, ◌+◌, ◌-◌, Bool, true, false, Option, none, some, List, [], ◌∷◌, ◌++◌, Text, codes, decimal,
  join, map, is_empty, length, filter, ltb, leb, nat_eq, Result, ok, err, Error, http_status,
  transport, proxy_quota_exhausted, if◌then◌else◌,
}

pub record ProxyPackageQuota : Type 0 where
  pub package_id : ℕ
  pub name : Text
  pub total_bytes : ℕ
  pub used_bytes : ℕ
  pub is_active : Bool

-- `max(0, self.total_bytes - self.used_bytes)`
unfoldable pub remaining_bytes : ProxyPackageQuota → ℕ
remaining_bytes pack = pack.total_bytes - pack.used_bytes

-- `sum(pack.remaining_bytes for pack in active)`
unfoldable pub prepaid_remaining : List ProxyPackageQuota → ℕ
prepaid_remaining [] = 0
prepaid_remaining (pack ∷ packages) = remaining_bytes pack + prepaid_remaining packages

unfoldable pub dashboard_url : Text
dashboard_url = codes "https://proxy.market"

-- `isinstance(exc, httpx.HTTPError)`
abbrev pub is_http_error : Error → Bool
is_http_error (http_status code body m) = true
is_http_error (transport m) = true
is_http_error _ = false

pub record QuotaChecker : Type 0 where
  pub min_remaining_bytes : ℕ
  pub min_balance : ℕ

module _ (format_quotient : ℕ → ℕ → ℕ → Text) where
  unfoldable pub format_bytes : ℕ → Text
  format_bytes num_bytes =
      if leb 1073741824 num_bytes
      then format_quotient 2 num_bytes 1073741824 ++ codes " GB"
      else if leb 1048576 num_bytes
      then format_quotient 1 num_bytes 1048576 ++ codes " MB"
      else if leb 1024 num_bytes
      then format_quotient 0 num_bytes 1024 ++ codes " KB"
      else decimal num_bytes ++ codes " B"

  -- One of the `details`.
  unfoldable pub detail_of : ProxyPackageQuota → Text
  unfolding format_bytes
  detail_of pack =
      codes "'"
      ++ (pack.name
          ++ (codes "' used "
              ++ (format_bytes pack.used_bytes ++ (codes "/" ++ format_bytes pack.total_bytes))))

module _ (format_quotient : ℕ → ℕ → ℕ → Text) (checker : QuotaChecker) where
  unfoldable pub is_depleted : ProxyPackageQuota → Bool
  is_depleted pack = ltb (remaining_bytes pack) checker.min_remaining_bytes

  -- The test of the balance, `none` where it is unknown.
  unfoldable pub check_balance : List ProxyPackageQuota → Option ℕ → Result (Unit {0})
  unfolding dashboard_url
  check_balance active none = ok tt
  check_balance active (some balance) =
      if leb balance checker.min_balance
      then if ltb (prepaid_remaining active) checker.min_remaining_bytes
        then err (
            proxy_quota_exhausted (
              codes "PROXY_MARKET balance is "
              ++ (format_quotient 2 balance 100
                  ++ (codes " and prepaid traffic is depleted. Top up at " ++ dashboard_url))))
        else ok tt
      else ok tt

  -- The balance that `_fetch_balance` returns, or what it raises.
  abbrev balance_checked : List ProxyPackageQuota → Result (Option ℕ) → Result (Unit {0})
  balance_checked active (ok balance) = check_balance active balance
  balance_checked active (err e) = err e

  unfoldable pub check_packages : List ProxyPackageQuota → Result (Option ℕ) → Result (Unit {0})
  unfolding check_balance is_depleted detail_of dashboard_url
  check_packages packages fetch_balance =
      let active = filter (λ pack. pack.is_active) packages in
      if is_empty active
      then err (
          proxy_quota_exhausted
            (codes "PROXY_MARKET: no active traffic packages. Top up at " ++ dashboard_url))
      else if nat_eq (length (filter is_depleted active)) (length active)
      then err (
          proxy_quota_exhausted (
            codes "PROXY_MARKET traffic exhausted ("
            ++ (join (codes "; ") (map (detail_of format_quotient) active)
                ++ (codes "). Top up at " ++ dashboard_url))))
      else balance_checked active fetch_balance

  unfoldable pub check_quota_available :
      Result (List ProxyPackageQuota) → Result (Option ℕ) → Result (Unit {0})
  unfolding check_packages
  check_quota_available (ok packages) fetch_balance = check_packages packages fetch_balance
  check_quota_available (err e) fetch_balance = if is_http_error e then ok tt else err e
