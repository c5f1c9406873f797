-- ===== src/Parsers/Ozon/Served.antt =====
-- A finite catalogue, and what a collection of it comes to: parsers/ozon_collector.py.
use marketplace_pipeline.Base.{
  ℕ, zero, suc, ◌+◌, ◌≡◌, refl, false, List, Option, some, none, ok, [], ◌∷◌, ◌++◌, length,
  length-take, take, take_all, ltb, arith, min,
}
use marketplace_pipeline.Domain.Entities.{Product, CollectionResult}
use marketplace_pipeline.Parsers.Ozon.{
  Source, Progress, Ending, reached, ran_out, broken, aborted, collection_result, finish,
}

-- The page with the index `i`, empty past the end.
abbrev pub page_at : List (List Product) → ℕ → List Product
page_at [] i = []
page_at (batch ∷ pages) zero = batch
page_at (batch ∷ pages) (suc i) = page_at pages i

-- All products of the pages.
abbrev pub catalogue : List (List Product) → List Product
catalogue [] = []
catalogue (batch ∷ pages) = batch ++ catalogue pages

-- The end of a loop that met no error.
abbrev pub IsClean : Ending → Type 0
IsClean reached = Unit
IsClean ran_out = Unit
IsClean (broken m) = ⊥
IsClean (aborted m) = ⊥

-- What the loop leaves behind: the products, and an end without an error.
pub record Collected (expected : List Product) {S : Type 0} (r : Option (Ending × Progress × S))
    : Type 0 where
  pub ending : Ending
  pub progress : Progress
  pub state : S
  pub returned : r ≡ some (ending, progress, state)
  pub is_clean : IsClean ending
  pub as_expected : progress.products ≡ expected

pub finish-IsClean :
    (target : ℕ) (ending : Ending) (products : List Product)
    → IsClean ending
    → finish target ending products ≡ ok (collection_result target false none products)
unfolding finish
finish-IsClean target reached products h = refl
finish-IsClean target ran_out products h = refl
finish-IsClean target (broken m) products h = absurd h
finish-IsClean target (aborted m) products h = absurd h

-- The result for `found`, the products of the catalogue.
abbrev pub result_of : ℕ → List Product → CollectionResult
result_of target found = record {
  products = take target found;
  target_count = target;
  collected_count = min target (length found);
  exhausted = ltb (length found) target;
  degraded = false;
  error_message = none;
}

pub collection_result-take :
    (target : ℕ) (found : List Product)
    → collection_result target false none (take target found) ≡ result_of target found
unfolding collection_result
collection_result-take target found = ground (
  arith,
  length-take target found,
  take_all target (take target found) (omega (arith, length-take target found)),
)

-- From `page` on, the pages are these, in whatever state they are asked for.
unfoldable pub Serves : {S : Type 0} → Source S → ℕ → List (List Product) → Type 0
Serves {S} source page pages =
    (i : ℕ) (t : S) → (source.fetch_page (page + i) t).0 ≡ ok (page_at pages i)
