-- ===== src/Parsers/Ozon.antt =====
-- The loop of `OzonCatalogCollector.collect`, infrastructure/adapters/parsers/ozon_collector.py.
-- `S` is the state of what the collector fetches with. The rounds of the `while` are on fuel, and
-- `none` means that it was spent.
pub mod Batch
pub mod Steps
pub mod Invariant
pub mod Pages
pub mod Served
pub mod Catalogue
pub mod Endless
pub mod Page
use marketplace_pipeline.Base.{
  ℕ, zero, suc, ◌+◌, Bool, true, false, not, ◌&&◌, Option, none, some, List, [], ◌∷◌, ◌++◌, Text,
  Text-Eq, contains, length, take, ltb, leb, if◌then◌else◌, Result, ok, err, Error,
  proxy_quota_exhausted, str_error,
}
use marketplace_pipeline.Domain.Entities.{Product, CollectionResult}

-- `self._fetch_page` and what the `finally` block does.
pub record Source (S : Type 0) : Type 0 where
  pub fetch_page : ℕ → S → Result (List Product) × S
  pub close : S → S

pub record Progress : Type 0 where
  pub products : List Product
  pub seen_ids : List Text

abbrev pub empty_progress : Progress
empty_progress = record { products = []; seen_ids = [] }

-- `seen_ids.add(product.id); products.append(product)`
unfoldable pub add_product : Progress → Product → Progress
add_product progress p = record {
  products = progress.products ++ p ∷ [];
  seen_ids = progress.seen_ids ++ p.id ∷ [];
}

-- `for product in batch`
unfoldable pub add_batch : ℕ → Progress → List Product → Progress
add_batch target progress [] = progress
add_batch target progress (p ∷ batch) =
    let skipped = add_batch target progress batch in
    let added = add_product progress p in
    let further = add_batch target added batch in
    if contains p.id progress.seen_ids
    then skipped
    else if leb target (length added.products)
    then added
    else further

-- How the `while` ends: by its test, by an empty page, by an error that is caught, or by one that
-- is raised again.
pub data Ending : Type 0 where
  reached : Ending
  ran_out : Ending
  broken : Text → Ending
  aborted : Text → Ending

pub data Round : Type 0 where
  stop : Ending → Round
  go_on : Progress → Round

-- One page.
unfoldable pub round : ℕ → Progress → Result (List Product) → Round
round target progress (err (proxy_quota_exhausted m)) = stop (aborted m)
round target progress (err e) = stop (broken (str_error e))
round target progress (ok []) = stop ran_out
round target progress (ok (p ∷ batch)) = go_on (add_batch target progress (p ∷ batch))

-- What stands behind the loop.
unfoldable pub collection_result : ℕ → Bool → Option Text → List Product → CollectionResult
collection_result target degraded message products = record {
  products = take target products;
  target_count = target;
  collected_count = length (take target products);
  exhausted = ltb (length products) target && not degraded;
  degraded = degraded;
  error_message = message;
}

unfoldable pub finish : ℕ → Ending → List Product → Result CollectionResult
unfolding collection_result
finish target reached products = ok (collection_result target false none products)
finish target ran_out products = ok (collection_result target false none products)
finish target (broken m) products = ok (collection_result target true (some m) products)
finish target (aborted m) products = err (proxy_quota_exhausted m)

module _ {S : Type 0} (source : Source S) where
  unfoldable pub collect_pages : ℕ → ℕ → ℕ → Progress → S → Option (Ending × Progress × S)
  collect_pages zero target page progress s = none
  collect_pages (suc fuel) target page progress s = elim (ltb (length progress.products) target) [
    | false ↦ some (reached, progress, s)
    | true ↦
        let (fetched, s') = source.fetch_page page s in
        elim (round target progress fetched) [
          | stop ending ↦ some (ending, progress, s')
          | go_on more ↦ collect_pages fuel target (page + 1) more s'
        ]
  ]

  unfoldable pub collect : ℕ → ℕ → S → Option (Result CollectionResult × S)
  collect fuel target s = elim (collect_pages fuel target 1 empty_progress s) [
    | none ↦ none
    | some (ending, progress, s') ↦ some (finish target ending progress.products, source.close s')
  ]
