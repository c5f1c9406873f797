-- ===== src/Domain/Selection.antt =====
-- domain/services/product_selection_service.py
pub mod Top
use marketplace_pipeline.Base.{ℕ, List, Bool, true, false, filter, sorted, take}
use marketplace_pipeline.Domain.Entities.{
  EnrichedProduct, PriceSegment, economy, standard, premium, segment_eq,
}

-- `p.segment == segment`
abbrev pub has_segment : PriceSegment → EnrichedProduct → Bool
has_segment s p = segment_eq p.segment s

abbrev pub price_of : EnrichedProduct → ℕ
price_of p = p.price

-- The `limit` of both selections when none is given.
abbrev pub default_limit : ℕ
default_limit = 5

unfoldable pub top_premium_by_price : List EnrichedProduct → ℕ → List EnrichedProduct
top_premium_by_price products limit =
    let chosen = filter (has_segment premium) products in take limit (sorted price_of true chosen)

unfoldable pub top_economy_by_price : List EnrichedProduct → ℕ → List EnrichedProduct
top_economy_by_price products limit =
    let chosen = filter (has_segment economy) products in take limit (sorted price_of false chosen)
