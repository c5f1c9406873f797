-- ===== src/Parsers/Ozon/Steps.antt =====
-- One round of the loop of infrastructure/adapters/parsers/ozon_collector.py.
use marketplace_pipeline.Base.{ℕ, suc, ◌+◌, ◌≡◌, true, false, some, length, ltb}
use marketplace_pipeline.Parsers.Ozon.{
  Source, Progress, Ending, reached, stop, go_on, round, collect_pages,
}

module _ {S : Type 0} (source : Source S) (fuel target page : ℕ) (progress : Progress) (s : S) where
  pub collect_pages_reached :
      ltb (length progress.products) target ≡ false
      → collect_pages source (suc fuel) target page progress s ≡ some (reached, progress, s)
  unfolding collect_pages
  collect_pages_reached done = rw (done, collect_pages)

  pub collect_pages_stop :
      (ending : Ending)
      → ltb (length progress.products) target ≡ true
      → round target progress (source.fetch_page page s).0 ≡ stop ending
      → collect_pages source (suc fuel) target page progress s
        ≡ some (ending, progress, (source.fetch_page page s).1)
  unfolding collect_pages
  collect_pages_stop ending more h = rw (more, collect_pages) (rw h)

  pub collect_pages_go_on :
      (next : Progress)
      → ltb (length progress.products) target ≡ true
      → round target progress (source.fetch_page page s).0 ≡ go_on next
      → collect_pages source (suc fuel) target page progress s
        ≡ collect_pages source fuel target (page + 1) next (source.fetch_page page s).1
  unfolding collect_pages
  collect_pages_go_on next more h = rw (more, collect_pages) (rw h)
