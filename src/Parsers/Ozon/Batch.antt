-- ===== src/Parsers/Ozon/Batch.antt =====
-- What one page adds.
use marketplace_pipeline.Base.{
  ℕ, ◌-◌, ◌≡◌, ◌<◌, refl, sym, ap, ◌∙◌, List, [], ◌∷◌, ◌++◌, append-nil, append_assoc, Text,
  Text-Eq, contains, length, length-append, take, take_nil, take_cons, take_cong, take_none, leb,
  leb→le, Bool-cases, inl, inr, if◌then◌else◌, arith,
}
use marketplace_pipeline.Domain.Entities.{Product}
use marketplace_pipeline.Parsers.Ozon.{Progress, add_product, add_batch}

-- The first product of each id, but for the ids that are seen.
unfoldable pub new_products : List Text → List Product → List Product
new_products seen [] = []
new_products seen (p ∷ batch) =
    let old = new_products seen batch in
    let new = p ∷ new_products (seen ++ p.id ∷ []) batch in if contains p.id seen then old else new

unfoldable pub seen_after : List Text → List Product → List Text
seen_after seen [] = seen
seen_after seen (p ∷ batch) =
    let old = seen_after seen batch in
    let new = seen_after (seen ++ p.id ∷ []) batch in if contains p.id seen then old else new

pub new_products-append :
    (seen : List Text) (xs ys : List Product)
    → new_products seen (xs ++ ys) ≡ new_products seen xs ++ new_products (seen_after seen xs) ys
unfolding new_products seen_after
new_products-append seen [] ys = refl
new_products-append seen (p ∷ xs) ys =
    ground (arith, new_products-append seen xs ys, new_products-append (seen ++ p.id ∷ []) xs ys)

-- Room for one more product, and what comes behind it.
take_room :
    (target : ℕ) (xs : List Product) (p : Product) (ps : List Product)
    → length xs < target
    → (xs ++ p ∷ []) ++ take (target - length (xs ++ p ∷ [])) ps
      ≡ xs ++ take (target - length xs) (p ∷ ps)
take_room target xs p ps room =
    append_assoc xs (p ∷ []) _
    ∙ ap (λ t. xs ++ t)
        (ap (◌∷◌ p) (take_cong _ _ ps (omega (arith, length-append xs (p ∷ []))))
          ∙ sym (take_cons (target - length xs) p ps (omega arith)))

-- The items that a page adds: its new products, up to the target.
pub products-add_batch :
    (target : ℕ) (progress : Progress) (batch : List Product)
    → length progress.products < target
    → (add_batch target progress batch).products
      ≡ progress.products
        ++ take (target - length progress.products) (new_products progress.seen_ids batch)
unfolding add_batch new_products add_product
products-add_batch target progress [] room =
    sym (ap (λ t. progress.products ++ t) (take_nil _) ∙ append-nil _)
products-add_batch target progress (p ∷ batch) room =
    elim (Bool-cases (contains p.id progress.seen_ids)) [
      | inl old ↦ rw old (products-add_batch target progress batch room)
      | inr new ↦
          rw
            (
              new,
              ← take_room target progress.products p
                  (new_products (progress.seen_ids ++ p.id ∷ []) batch) room,
            )
            (elim (Bool-cases (leb target (length (progress.products ++ p ∷ [])))) [
              | inl full ↦ rw (
                full,
                take_none (target - length (progress.products ++ p ∷ [])) _
                    (omega (arith, leb→le _ _ full)),
                append-nil,
              )
              | inr more ↦
                  rw more (products-add_batch target (add_product progress p) batch (ground arith))
            ])
    ]

-- Unless the target is reached, every id of the page is seen.
pub seen_ids-add_batch :
    (target : ℕ) (progress : Progress) (batch : List Product)
    → length (add_batch target progress batch).products < target
    → (add_batch target progress batch).seen_ids ≡ seen_after progress.seen_ids batch
unfolding add_batch seen_after add_product
seen_ids-add_batch target progress [] room = refl
seen_ids-add_batch target progress (p ∷ batch) room = ground (
  arith,
  seen_ids-add_batch target progress batch,
  seen_ids-add_batch target (add_product progress p) batch,
)
