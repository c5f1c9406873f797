-- ===== src/Proxy/Quota/Balance.antt =====
-- Which packages pass the check of proxy_market_quota_checker.py, and what the balance does to it.
use marketplace_pipeline.Base.{
  ℕ, ◌≤◌, ◌<◌, ◌≡◌, ◌↔◌, refl, Bool, true, not, ◌&&◌, any, Option, List, Text, [], ◌∷◌, is_empty,
  length, filter, length-filter-le, leb, nat_eq, ok, arith,
}
use marketplace_pipeline.Proxy.Quota.{
  ProxyPackageQuota, remaining_bytes, prepaid_remaining, QuotaChecker, is_depleted, check_packages,
}

module _ (format_quotient : ℕ → ℕ → ℕ → Text) (checker : QuotaChecker) where
  -- Fewer packages are depleted than there are: one has traffic, and the sum has as much.
  prepaid_of_some :
      (active : List ProxyPackageQuota)
      → length (filter (is_depleted format_quotient checker) active) < length active
      → checker.min_remaining_bytes ≤ prepaid_remaining active
  unfolding filter is_depleted prepaid_remaining
  prepaid_of_some [] h = absurd (omega arith)
  prepaid_of_some (pack ∷ active) h = ground (arith, prepaid_of_some active)

  -- An active pack with the traffic that is asked for.
  abbrev pub has_traffic : ProxyPackageQuota → Bool
  has_traffic pack = pack.is_active && leb checker.min_remaining_bytes (remaining_bytes pack)

  all_depleted :
      (packages : List ProxyPackageQuota)
      → let active = filter (λ pack. pack.is_active) packages in
        nat_eq (length (filter (is_depleted format_quotient checker) active)) (length active)
        ≡ not (any has_traffic packages)
  unfolding filter is_depleted
  all_depleted [] = refl
  all_depleted (pack ∷ packages) = ground (
    arith,
    all_depleted packages,
    length-filter-le (is_depleted format_quotient checker)
        (filter (λ pack. pack.is_active) packages),
  )

  is_empty-length : (active : List ProxyPackageQuota) → is_empty active ≡ true → length active ≡ 0
  is_empty-length [] h = refl
  is_empty-length (pack ∷ active) h = cc

  -- The check of the packages passes exactly if an active package has the traffic that is asked
  -- for, whatever the balance is and whether it is known or not.
  pub check_packages_lem :
      (packages : List ProxyPackageQuota) (balance : Option ℕ)
      → (check_packages format_quotient checker packages (ok balance) ≡ ok tt)
        ↔ (any has_traffic packages ≡ true)
  unfolding check_packages
  check_packages_lem packages balance =
      let active = filter (λ pack. pack.is_active) packages in
      (
        ground (arith, all_depleted packages),
        ground (
          arith,
          all_depleted packages,
          prepaid_of_some active,
          length-filter-le (is_depleted format_quotient checker) active,
          is_empty-length active,
        ),
      )
