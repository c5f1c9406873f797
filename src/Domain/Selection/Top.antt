-- ===== src/Domain/Selection/Top.antt =====
-- What the selections of domain/services/product_selection_service.py return.
use mathlib.Core.List.{Perm}
use marketplace_pipeline.Base.{
  ℕ, ◌≡◌, List, ◌++◌, Bool, true, false, filter, sorted, take, drop, length, min, nat_eq, IsSorted,
  sorted-perm, sorted-IsSorted, sorted_stable, take-append-drop, length-take, length-sorted, ap,
  ◌∙◌,
}
use marketplace_pipeline.Domain.Entities.{EnrichedProduct, economy, premium}
use marketplace_pipeline.Domain.Selection.{
  has_segment, price_of, top_premium_by_price, top_economy_by_price,
}

-- `top` is the first `limit` items of the one stable arrangement of `pool` by price.
pub record IsTop (dearest_first : Bool) (pool : List EnrichedProduct) (limit : ℕ)
    (top : List EnrichedProduct) : Type 0 where
  pub rest : List EnrichedProduct
  pub same_items : Perm (top ++ rest) pool
  pub ordered : IsSorted price_of dearest_first (top ++ rest)
  pub size : length top ≡ min limit (length pool)
  pub stable :
      (price : ℕ)
      → filter (λ p. nat_eq (price_of p) price) (top ++ rest)
        ≡ filter (λ p. nat_eq (price_of p) price) pool

module _ (reverse : Bool) (pool : List EnrichedProduct) (limit : ℕ) where
  take-sorted-IsTop : IsTop reverse pool limit (take limit (sorted price_of reverse pool))
  take-sorted-IsTop = record {
    rest = drop limit (sorted price_of reverse pool);
    same_items = rw take-append-drop (sorted-perm price_of reverse pool);
    ordered = rw take-append-drop (sorted-IsSorted price_of reverse pool);
    size =
        length-take limit (sorted price_of reverse pool)
        ∙ ap (min limit) (length-sorted price_of reverse pool);
    stable = λ k. rw take-append-drop (sorted_stable price_of reverse k pool);
  }

-- Both selections, at every limit: the dearest premium products of the catalogue, dearest first, and
-- the cheapest economy products, cheapest first, as many as there are up to the limit. What is left
-- out costs at most (of the economy products: at least) what is chosen, and products of one price
-- keep the catalogue's order.
pub selections-IsTop :
    (products : List EnrichedProduct) (limit : ℕ)
    → IsTop true (filter (has_segment premium) products) limit (top_premium_by_price products limit)
      × IsTop false
          (filter (has_segment economy) products)
          limit
          (top_economy_by_price products limit)
unfolding top_premium_by_price top_economy_by_price
selections-IsTop products limit = (
  take-sorted-IsTop true (filter (has_segment premium) products) limit,
  take-sorted-IsTop false (filter (has_segment economy) products) limit,
)
