-- ===== src/Llm/Classifier/Keeps.antt =====
-- The classifier returns every product, whatever the model answers.
use marketplace_pipeline.Base.{
  ℕ, zero, suc, ◌+◌, ◌-◌, ◌<◌, ◌≤◌, ◌≡◌, refl, sym, ap, Bool-cases, inl, inr, List, [], ◌∷◌, ◌++◌,
  map, Text, take, drop, take-append-drop, length-take, All, length, ltb, Result, ok, Exec, arith,
}
use marketplace_pipeline.Domain.Entities.{Product, EnrichedProduct}
use marketplace_pipeline.Llm.Classifier.{
  Answer, Segments, chunk, chunks_from, mock_classify, enrich, classify, classify_batches,
  LlmSettings, PayloadItem,
}

abbrev pub concat_all : List (List Product) → List Product
concat_all [] = []
concat_all (batch ∷ batches) = batch ++ concat_all batches

drop-take :
    {A : Type 0} (i m : ℕ) (xs : List A) → i ≤ m → drop i (take m xs) ++ drop m xs ≡ drop i xs
drop-take zero m xs h = take-append-drop m xs
drop-take (suc i) zero xs h = absurd (omega arith)
drop-take (suc i) (suc m) [] h = refl
drop-take (suc i) (suc m) (x ∷ xs) h = drop-take i m xs (omega arith)

drop_all : {A : Type 0} (i : ℕ) (xs : List A) → length xs ≤ i → drop i xs ≡ []
drop_all zero [] h = refl
drop_all zero (x ∷ xs) h = absurd (omega arith)
drop_all (suc i) [] h = refl
drop_all (suc i) (x ∷ xs) h = drop_all i xs (omega arith)

chunks_from_lem :
    (fuel size index : ℕ) (items : List Product)
    → 0 < size
    → length items ≤ index + fuel
    → concat_all (chunks_from fuel size index items) ≡ drop index items
unfolding chunks_from
chunks_from_lem zero size index items pos h = sym (drop_all index items (omega arith))
chunks_from_lem (suc fuel) size index items pos h = ground (
  arith,
  chunks_from_lem fuel size (index + size) items pos,
  drop-take index (index + size) items,
  drop_all index items,
)

length-drop-take : {A : Type 0} (i m : ℕ) (xs : List A) → length (drop i (take m xs)) ≤ m - i
length-drop-take zero m xs = omega (arith, length-take m xs)
length-drop-take (suc i) zero xs = omega arith
length-drop-take (suc i) (suc m) [] = omega arith
length-drop-take (suc i) (suc m) (x ∷ xs) = omega (arith, length-drop-take i m xs)

length-chunks :
    (fuel size index : ℕ) (items : List Product)
    → All (λ batch. length batch ≤ size) (chunks_from fuel size index items)
unfolding chunks_from
length-chunks zero size index items = tt
length-chunks (suc fuel) size index items = elim (Bool-cases (ltb index (length items))) [
  | inl more ↦ rw more (
    omega (arith, length-drop-take index (index + size) items),
    length-chunks fuel size (index + size) items,
  )
  | inr over ↦ rw over tt
]

-- For a size that is not 0, the batches one after another are the items, so that each item stands in
-- exactly one batch in their order, and no batch is longer than the size.
pub chunk_lem :
    (items : List Product) (size : ℕ)
    → 0 < size
    → (batches : List (List Product)) × (chunk items size ≡ ok batches)
      × (concat_all batches ≡ items)
      × All (λ batch. length batch ≤ size) batches
unfolding chunk
chunk_lem items size pos = (
  chunks_from (length items) size 0 items,
  ground arith,
  chunks_from_lem (length items) size 0 items pos (omega arith),
  length-chunks (length items) size 0 items,
)

map-enrich :
    (segments : Segments) (products : List Product)
    → map (λ (e : EnrichedProduct). e.product) (map (enrich segments) products) ≡ products
map-enrich segments [] = refl
map-enrich segments (p ∷ products) = ap (◌∷◌ p) (map-enrich segments products)

map-mock_classify :
    (products : List Product)
    → map (λ (e : EnrichedProduct). e.product) (map mock_classify products) ≡ products
unfolding mock_classify
map-mock_classify [] = refl
map-mock_classify (p ∷ products) = ap (◌∷◌ p) (map-mock_classify products)

module _ {W : Type 0} (post : List PayloadItem → Exec W Text)
    (json_loads : Text → Result Answer) where
  -- With a batch size that is not 0, the classifier never raises, and it returns the products it was
  -- given, all of them and in their order, each with a segment, whatever the chat endpoint does.
  pub classify_keeps :
      (settings : LlmSettings) (products : List Product) (w : W)
      → 0 < settings.llm_batch_size
      → (enriched : List EnrichedProduct) × ((classify post json_loads settings products w).0
          ≡ ok enriched)
        × (map (λ (e : EnrichedProduct). e.product) enriched ≡ products)
  unfolding classify chunk
  classify_keeps settings [] w pos = ([], refl, refl)
  classify_keeps settings (p ∷ products) w pos = elim (Bool-cases settings.mock_llm) [
    | inl mock ↦ (map mock_classify (p ∷ products), rw mock refl, map-mock_classify (p ∷ products))
    | inr live ↦
        let (batches, chunked, all, sizes) = chunk_lem (p ∷ products) settings.llm_batch_size pos in
        let segments = (classify_batches post json_loads batches [] w).0 in
        (
          map (enrich segments) (p ∷ products),
          rw (live, chunked) refl,
          map-enrich segments (p ∷ products),
        )
  ]
