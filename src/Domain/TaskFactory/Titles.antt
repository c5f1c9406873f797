-- ===== src/Domain/TaskFactory/Titles.antt =====
-- Which tasks domain/services/crm_task_factory.py builds.
use marketplace_pipeline.Base.{
  ℕ, suc, ◌≡◌, refl, Bool, true, false, not, List, [], ◌∷◌, ◌++◌, map, is_empty, any, filter, take,
  sorted, length, length-sorted, if◌then◌else◌, arith, map-append, Text, ap₂, ◌∙◌,
}
use marketplace_pipeline.Domain.Entities.{EnrichedProduct, economy, premium}
use marketplace_pipeline.Domain.Selection.{
  has_segment, price_of, top_premium_by_price, top_economy_by_price,
}
use marketplace_pipeline.Domain.TaskFactory.{premium_title, economy_title, task_for, build_tasks}

is_empty-filter {ℓ} :
    {A : Type ℓ} (p : A → Bool) (xs : List A) → is_empty (filter p xs) ≡ not (any p xs)
unfolding filter
is_empty-filter p [] = refl
is_empty-filter p (x ∷ xs) = ground (arith, is_empty-filter p xs)

is_empty_of_length {ℓ} :
    {A : Type ℓ} (xs ys : List A) → length xs ≡ length ys → is_empty xs ≡ is_empty ys
is_empty_of_length [] [] h = refl
is_empty_of_length [] (y ∷ ys) h = absurd (omega arith)
is_empty_of_length (x ∷ xs) [] h = absurd (omega arith)
is_empty_of_length (x ∷ xs) (y ∷ ys) h = refl

is_empty-take {ℓ} : {A : Type ℓ} (n : ℕ) (xs : List A) → is_empty (take (suc n) xs) ≡ is_empty xs
is_empty-take n [] = refl
is_empty-take n (x ∷ xs) = refl

is_empty-top :
    (reverse : Bool) (p : EnrichedProduct → Bool) (products : List EnrichedProduct)
    → is_empty (take 5 (sorted price_of reverse (filter p products))) ≡ not (any p products)
is_empty-top reverse p products =
    is_empty-take 4 (sorted price_of reverse (filter p products))
    ∙ (is_empty_of_length _ _ (length-sorted price_of reverse (filter p products))
        ∙ is_empty-filter p products)

titles-task_for :
    (heading : Text) (chosen : List EnrichedProduct) (some_chosen : Bool)
    → is_empty chosen ≡ not some_chosen
    → map (λ t. t.title) (task_for heading chosen) ≡ (if some_chosen then heading ∷ [] else [])
unfolding task_for
titles-task_for heading chosen some_chosen h = ground arith

-- The titles of the tasks, in order: the premium task exactly when the catalogue has a premium
-- product, then the economy task exactly when it has an economy product, and no other task.
pub titles-build_tasks :
    (products : List EnrichedProduct)
    → map (λ t. t.title) (build_tasks products)
      ≡ (if any (has_segment premium) products then premium_title ∷ [] else [])
        ++ (if any (has_segment economy) products then economy_title ∷ [] else [])
unfolding build_tasks top_premium_by_price top_economy_by_price
titles-build_tasks products =
    map-append _ _ _
    ∙ ap₂ (λ s t. s ++ t)
        (titles-task_for premium_title _ _ (is_empty-top true (has_segment premium) products))
        (titles-task_for economy_title _ _ (is_empty-top false (has_segment economy) products))
