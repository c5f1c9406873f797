-- ===== src/Examples/Quota.antt =====
-- A dashboard of proxy.market with one package.
use marketplace_pipeline.Base.{ℕ, ◌-◌, ◌*◌, ◌/◌, some, List, [], ◌∷◌, take, drop, Text, decimal, ok}
use marketplace_pipeline.Proxy.Quota.{QuotaChecker}
use marketplace_pipeline.Proxy.Quota.Requests.{missing, null, value, PackageItem, Dashboard}

abbrev items : List PackageItem
items =
    record { id = value 1; name = null; total = value 100; used = value 40; is_active = missing }
    ∷ []

abbrev dashboard : Dashboard ℕ
dashboard = record {
  get_packages = λ url page size w. (ok (take size (drop ((page - 1) * size) items)), w);
  get_balance = λ url w. (ok (some (value 3)), w);
}

abbrev whole_part : ℕ → ℕ → ℕ → Text
whole_part digits n d = decimal (n / d)

abbrev checker : QuotaChecker
checker = record { min_remaining_bytes = 50; min_balance = 10 }
