-- ===== src/Examples/Catalogue.antt =====
-- The collector, the classifier and the selections, on a catalogue of four products.
use marketplace_pipeline.Base.{
  Option, includes, ℕ, suc, ◌≤◌, ◌-◌, ap, ◌≤◌, ◌≡◌, refl, true, false, none, some, List, [], ◌∷◌,
  ◌++◌, map, Text, Text-Eq, text_eq, codes, length, filter, any, All, contains, lookup, nat_eq,
  if◌then◌else◌, Result, ok, err, other, arith,
}
use marketplace_pipeline.Domain.Entities.{
  Product, EnrichedProduct, CollectionResult, PriceSegment, economy, premium,
}
use marketplace_pipeline.Domain.Selection.{has_segment, top_premium_by_price, top_economy_by_price}
use marketplace_pipeline.Domain.Selection.Top.{IsTop, selections-IsTop}
use marketplace_pipeline.Domain.TaskFactory.{build_tasks, premium_title, economy_title}
use marketplace_pipeline.Domain.TaskFactory.Titles.{titles-build_tasks}
use marketplace_pipeline.Parsers.Ozon.{
  Source, collect, collect_pages, round, add_batch, add_product, finish,
}
use marketplace_pipeline.Parsers.Ozon.Page.{
  SkuBlock, extract_products, fetch_page, IsOzonProduct, fetch_page-IsOzonProduct,
}
use marketplace_pipeline.Parsers.Ozon.Batch.{new_products}
use marketplace_pipeline.Parsers.Ozon.Catalogue.{collect_catalogue}
use marketplace_pipeline.Parsers.Ozon.Served.{Serves, page_at, catalogue, result_of}
use marketplace_pipeline.Parsers.Ozon.Invariant.{IsSound, collect-IsSound}
use marketplace_pipeline.Parsers.Ozon.Endless.{collect_endless}
use marketplace_pipeline.Llm.Classifier.{
  Item, an_object, a_list, Answer, object_of, Segments, PayloadItem, LlmSettings, parse_segments,
}
use marketplace_pipeline.Llm.Classifier.Segments.{last_text, StandsFor, parse_segments_lem}

abbrev product : Text → ℕ → Product
product id price = record {
  id = id;
  name = codes "Phone";
  price = price;
  currency = codes "RUB";
  url = codes "/p";
  category = codes "phones";
  collected_at = 1;
  description = [];
}

abbrev pages : List (List Product)
pages =
    (product (codes "a") 900 ∷ product (codes "b") 200 ∷ [])
    ∷ (product (codes "a") 900 ∷ product (codes "c") 700 ∷ [])
    ∷ []

-- A server of the pages; its state counts the requests.
abbrev server : Source ℕ
server = record { fetch_page = λ page s. (ok (page_at pages (page - 1)), suc s); close = λ s. s }

served : Serves server 1 pages
unfolding Serves
served = λ i s. ap (λ n. ok (page_at pages n)) (omega arith)

collect_catalogue_example :
    (last : ℕ) × (collect server 3 5 0
      ≡ some (ok (result_of 5 (new_products [] (catalogue pages))), server.close last))
collect_catalogue_example = collect_catalogue server 5 0 pages served (refl, (refl, tt))

abbrev pub found : CollectionResult
found = result_of 5 (new_products [] (catalogue pages))

server_returns : collect server 3 5 0 ≡ some (ok found, 3)
unfolding collect new_products collect_pages round add_batch contains add_product text_eq finish
server_returns = refl

collect-IsSound_example : IsSound 5 found
collect-IsSound_example = collect-IsSound server 3 5 0 found 3 server_returns

-- A server that has one page, for every page number.
abbrev stuck : Source ℕ
stuck = record { fetch_page = λ page s. (ok (product (codes "a") 900 ∷ []), suc s); close = λ s. s }

collect_endless_example : collect stuck 1000 2 0 ≡ none
collect_endless_example =
    collect_endless stuck 2 (product (codes "a") 900) [] (omega arith) (λ page s. refl) 1000 0

abbrev enriched : List EnrichedProduct
enriched =
    record { product = product (codes "a") 900; segment = premium }
    ∷ record { product = product (codes "b") 200; segment = economy }
    ∷ record { product = product (codes "c") 990; segment = premium }
    ∷ []

selections-IsTop_example :
    IsTop true (filter (has_segment premium) enriched) 1 (top_premium_by_price enriched 1)
    × IsTop false (filter (has_segment economy) enriched) 1 (top_economy_by_price enriched 1)
selections-IsTop_example = selections-IsTop enriched 1

titles-build_tasks_example :
    map (λ t. t.title) (build_tasks enriched)
    ≡ (if any (has_segment premium) enriched then premium_title ∷ [] else [])
      ++ (if any (has_segment economy) enriched then economy_title ∷ [] else [])
titles-build_tasks_example = titles-build_tasks enriched

abbrev items : List Item
items =
    an_object (some (codes "a")) (some (codes "Премиум"))
    ∷ an_object (some (codes "x")) none
    ∷ an_object (some (codes "a")) (some (codes " Эконом "))
    ∷ []

parse_segments_lem_example :
    (d : Segments) × (parse_segments (codes "a" ∷ codes "b" ∷ []) (object_of (some (a_list items)))
      ≡ ok d)
    × ((id : Text)
        → (segment : PriceSegment) × StandsFor (last_text id items) segment
          × (lookup id d
              ≡ (if contains id (codes "a" ∷ codes "b" ∷ []) then some segment else none)))
parse_segments_lem_example =
    parse_segments_lem (codes "a" ∷ codes "b" ∷ []) items (object_of (some (a_list items))) refl tt

-- A model that answers the first batch and is down for the second.
abbrev pub post : List PayloadItem → ℕ → Result Text × ℕ
post payload calls =
    (if nat_eq calls 0 then ok (codes "answer") else err (other (codes "timeout")), suc calls)

abbrev pub loads : Text → Result Answer
loads content = ok (object_of (some (a_list items)))

abbrev pub live_settings : LlmSettings
live_settings = record { mock_llm = false; llm_batch_size = 3 }

-- A client that has one widget, in which the search finds two blocks.
abbrev widgets_of : Text → ℕ → Result (List (Option Text)) × ℕ
widgets_of path s = (ok (none ∷ some (codes "tileGridDesktop") ∷ []), suc s)

abbrev blocks_of : Text → List SkuBlock
blocks_of raw =
    record { sku = codes "77"; title = codes "Phone"; price = codes "1 990 R" }
    ∷ record { sku = codes "78"; title = codes "Case"; price = codes "free" }
    ∷ []

abbrev fetched : List Product
fetched = extract_products 3 (blocks_of [])

page_fetched : (fetch_page widgets_of blocks_of (codes "/c/") 36 3 2 0).0 ≡ ok fetched
unfolding fetch_page filter includes
page_fetched = refl

fetch_page-IsOzonProduct_example : (length fetched ≤ 36) × All IsOzonProduct fetched
fetch_page-IsOzonProduct_example =
    fetch_page-IsOzonProduct widgets_of blocks_of (codes "/c/") 36 3 2 0 fetched page_fetched
