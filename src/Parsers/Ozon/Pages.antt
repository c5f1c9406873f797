-- ===== src/Parsers/Ozon/Pages.antt =====
-- What a page that is added to the products leaves for the pages behind it.
use marketplace_pipeline.Base.{
  ℕ, ◌+◌, ◌-◌, ◌≡◌, ◌<◌, inl, inr, sym, ap, ap₂, ◌∙◌, List, ◌++◌, append_assoc, length,
  length-append, length-take, take, take_cong, take_none, take-append, ltb, ltb→lt, Bool-cases,
  arith, min,
}
use marketplace_pipeline.Domain.Entities.{Product}
use marketplace_pipeline.Parsers.Ozon.{Progress, add_batch}
use marketplace_pipeline.Parsers.Ozon.Batch.{
  new_products, seen_after, new_products-append, products-add_batch, seen_ids-add_batch,
}

module _ (target : ℕ) (progress : Progress) (batch rest : List Product) where
  abbrev room_left : ℕ
  room_left = target - length progress.products

  pub length-add_batch :
      length progress.products < target
      → length (add_batch target progress batch).products
        ≡ length progress.products + min room_left (length (new_products progress.seen_ids batch))
  length-add_batch room =
      ap length (products-add_batch target progress batch room)
      ∙ (length-append progress.products _
          ∙ ap (λ n. length progress.products + n)
              (length-take room_left (new_products progress.seen_ids batch)))

  pub rest_behind_page :
      length progress.products < target
      → take
          (target - length (add_batch target progress batch).products)
          (new_products (add_batch target progress batch).seen_ids rest)
        ≡ take
            (room_left - length (new_products progress.seen_ids batch))
            (new_products (seen_after progress.seen_ids batch) rest)
  rest_behind_page room =
      elim (Bool-cases (ltb (length (add_batch target progress batch).products) target)) [
        | inl more ↦
            ap
              (λ seen.
                take (target - length (add_batch target progress batch).products)
                  (new_products seen rest))
              (seen_ids-add_batch target progress batch (ltb→lt _ _ more))
            ∙ take_cong (target - length (add_batch target progress batch).products)
                (room_left - length (new_products progress.seen_ids batch)) _
                (omega (arith, length-add_batch room, ltb→lt _ _ more))
        | inr full ↦
            take_none _ _ (ground arith)
            ∙ sym (take_none _ _ (ground (arith, length-add_batch room)))
      ]

  -- One page, and then the products of the rest of the catalogue.
  pub page_then_rest :
      length progress.products < target
      → (add_batch target progress batch).products
          ++ take
              (target - length (add_batch target progress batch).products)
              (new_products (add_batch target progress batch).seen_ids rest)
        ≡ progress.products ++ take room_left (new_products progress.seen_ids (batch ++ rest))
  page_then_rest room =
      ap₂ (λ s t. s ++ t) (products-add_batch target progress batch room) (rest_behind_page room)
      ∙ (append_assoc progress.products _ _
          ∙ ap (λ t. progress.products ++ t)
              (sym (
                ap (take room_left) (new_products-append progress.seen_ids batch rest)
                ∙ take-append room_left (new_products progress.seen_ids batch) _)))
