-- ===== src/Composition/Cli.antt =====
-- interfaces/cli/main.py, and the check of the proxy that infrastructure/composition/container.py makes
-- for it. `check` is what a checker's `check_quota_available` does, `execute` the pipeline that the
-- container builds for a target; the lines are those that `main` prints.
use marketplace_pipeline.Base.{
  ℕ, Bool, not, ◌&&◌, Option, none, some, List, [], ◌∷◌, ◌++◌, Text, codes, decimal, length, Result,
  ok, err, Exec, ◌>>>=◌ as ◌>>=◌, if◌then◌else◌,
}
use marketplace_pipeline.Domain.Prerequisites.{validate_proxy_prerequisites}
use marketplace_pipeline.Application.RunPipeline.{PipelineResult}
use marketplace_pipeline.Composition.Settings.{Settings, is_blank, get_settings}
use marketplace_pipeline.Composition.Factories.{
  ProxyMarketQuotaChecker, build_proxy_quota_checker, target_or_default,
}

module _ {W : Type 0} (check : ProxyMarketQuotaChecker → Exec W (Unit {0})) where
  abbrev checked_by : Option ProxyMarketQuotaChecker → W → Option (Result (Unit {0})) × W
  checked_by none w = (none, w)
  checked_by (some checker) w = let (result, w') = check checker w in (some result, w')

  -- The conditions under which the checker is called.
  abbrev asks : Settings → Bool
  asks s =
      not s.mock_parser && not (is_blank s.proxy_market_api_key) && not (is_blank s.ozon_proxy_list)

  -- `Container.validate_proxy_prerequisites`
  unfoldable pub container_validate_proxy : Settings → Exec W (Unit {0})
  unfolding build_proxy_quota_checker validate_proxy_prerequisites
  container_validate_proxy s w =
      let (checked, w') = checked_by (build_proxy_quota_checker s) w in
      (
        validate_proxy_prerequisites
            (record {
              mock_parser = s.mock_parser;
              ozon_proxy_list = s.ozon_proxy_list;
              proxy_market_api_key = s.proxy_market_api_key;
            })
            checked,
        if asks s then w' else w,
      )

-- The exit code and the printed lines.
pub record Exit : Type 0 where
  pub exit_code : ℕ
  pub printed : List Text

unfoldable pub summary : PipelineResult → Text
summary result =
    codes "Done: collected="
    ++ (decimal result.collection_result.collected_count
        ++ (codes ", classified="
            ++ (decimal (length result.enriched_products)
                ++ (codes ", crm_tasks=" ++ decimal (length result.crm_tasks)))))

abbrev output_line : Option Text → List Text
output_line none = []
output_line (some path) = (codes "Output: " ++ path) ∷ []

abbrev pub exit_of : Result PipelineResult → Exit
exit_of (ok result) = record {
  exit_code = 0;
  printed = summary result ∷ output_line result.output_path;
}
exit_of (err e) = record { exit_code = 1; printed = [] }

module _ {W : Type 0} (check : ProxyMarketQuotaChecker → Exec W (Unit {0}))
    (execute : Settings → ℕ → Exec W PipelineResult) where
  abbrev after_settings : Result Settings → Exec W Exit
  after_settings (ok s) w =
      let (result, w') =
        (container_validate_proxy check s >>= λ checked. execute s (target_or_default none s)) w in
      (ok (exit_of result), w')
  after_settings (err e) w = (err e, w)

  -- `main`, from what the environment gives. Settings that are not accepted raise.
  unfoldable pub cli_main : Result Settings → Exec W Exit
  unfolding container_validate_proxy summary target_or_default
  cli_main read = after_settings (get_settings read)
